-- ===== src/Index/Insert.antt =====
-- Adding an entry: `FileIndex::insert`.
use cdump.Prelude.{
  ◌+◌, ◌^◌, ◌<◌, ◌≡◌, refl, ap, Outcome, ok, none, some, Option, Option-cases, inl, inr, ◌∷◌, arith,
  length, if◌then◌else◌,
}
use cdump.Oid.{Oid, equals}
use cdump.Index.{Entry, FileIndex, insert, ram_insert, ram_find, find}
use cdump.Index.Find.{IsIndex, IsEntry}

pub insert-fresh :
    (e : Entry) (index : FileIndex)
    → ram_find e.0 index.ram ≡ none
    → insert e index ≡ record index { ram = e ∷ index.ram }
unfolding insert ram_insert
insert-fresh e index h = ap (λ r. record index { ram = r }) (rw (h, ram_insert) refl)

pub insert-present :
    (e old : Entry) (index : FileIndex) → ram_find e.0 index.ram ≡ some old → insert e index ≡ index
unfolding insert ram_insert
insert-present e old index h = ap (λ r. record index { ram = r }) (rw (h, ram_insert) refl)

-- What `find` should answer after the insertion of `e`, which met `held` in memory.
abbrev pub after_insert : Option Entry → Entry → FileIndex → Oid → Outcome (Option Entry)
after_insert (some held) e index key = find index key
after_insert none e index key = if equals e.0 key then ok (some e) else find index key

find-cons :
    (e : Entry) (index : FileIndex) (key : Oid)
    → find (record index { ram = e ∷ index.ram }) key
      ≡ (if equals e.0 key then ok (some e) else find index key)
unfolding find ram_find
find-cons e index key = ground arith

-- After an insertion the new entry is found under its key, unless the entries in memory had that key
-- already: then nothing changes. Every other key is found as before.
pub find-insert :
    (e : Entry) (index : FileIndex) (key : Oid)
    → find (insert e index) key ≡ after_insert (ram_find e.0 index.ram) e index key
find-insert e index key = elim (Option-cases (ram_find e.0 index.ram)) [
  | inl fresh ↦ rw (insert-fresh e index fresh, fresh) (find-cons e index key)
  | inr (old, here) ↦ rw (insert-present e old index here, here) refl
]

-- `insert` of a well-formed entry keeps a well-formed index well formed, if the index has fewer than
-- 2 ^ 31 entries with it.
pub insert-IsIndex :
    (e : Entry) (index : FileIndex)
    → IsEntry e
    → IsIndex index
    → length index.ram + 1 + length index.fdata.hashes < 2 ^ 31
    → IsIndex (insert e index)
insert-IsIndex e index g v room = elim (Option-cases (ram_find e.0 index.ram)) [
  | inl fresh ↦
      rw (insert-fresh e index fresh) (record {
        ram_good = (g, v.ram_good);
        data_good = v.data_good;
        small = omega (arith, room);
      })
  | inr (old, here) ↦ rw (insert-present e old index here) v
]
