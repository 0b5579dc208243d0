-- ===== src/Pool/Rebuilt.antt =====
-- The index that recovery rebuilds, and the index file that it saves.
use cdump.Prelude.{
  ℕ, ◌+◌, ◌^◌, ◌%◌, ◌≤◌, ◌<◌, ◌≡◌, refl, subst, sym, ◌∙◌, inl, inr, false, Option, Option-cases,
  some, none, List, [], ◌∷◌, ◌++◌, Outcome, ok, throw, index_error, arith, length, length-append,
  append_assoc, All,
}
use Prim.Native.String.{String}
use cdump.Oid.{Oid, IsOid}
use cdump.Index.{Entry, FileIndex, new_index, ram_find, find, find_data}
use cdump.Index.Few.{KindsFit}
use cdump.Index.Find.{IsIndex}
use cdump.Index.Insert.{insert-IsIndex, insert-fresh, insert-present}
use cdump.Index.Load.{load}
use cdump.Index.Save.{save}
use cdump.Index.Saved.{load-save}
use cdump.Chunk.{Zlib}
use cdump.Pool.Files.{Dir, save_index}
use cdump.Pool.Flush.{indexed}
use cdump.Pool.Grow.{Finds-insert, insert-Finds, Finds-insert_other}
use cdump.Pool.Recover.{recover_loop, recover_index}
use cdump.Pool.Recovered.{Item, IsItem, images, entry_of, insert_all, recover_loop-images}
use cdump.Pool.View.{Blob, StoredAt, Finds}

-- Every entry that the index finds is the place of a chunk with its key and kind.
abbrev pub Located : Zlib → List ℕ → FileIndex → Type 0
Located z content index =
    (key : Oid) (e : Entry)
    → IsOid key
    → Finds index key e
    → (b : Blob) × (e.1.kind ≡ b.0) × StoredAt z content e.1.offset key b

-- Every item's identifier is found.
abbrev pub Complete : FileIndex → List Item → Type 0
Complete index items = All (λ i. (e : Entry) × Finds index i.oid e) items

module _ (z : Zlib) (content : List ℕ) where
  item_at :
      (i : Item) (items : List Item) (front : List ℕ)
      → IsItem z i
      → content ≡ front ++ (i.out ++ images items)
      → StoredAt z content (length front) i.oid i.blob
  item_at i items front v cut = record {
    front = front;
    out = i.out;
    back = images items;
    cut = cut;
    starts = refl;
    image = v.image;
  }

  insert-Located :
      (i : Item) (items : List Item) (front : List ℕ) (index : FileIndex)
      → IsItem z i
      → content ≡ front ++ (i.out ++ images items)
      → Located z content index
      → Located z content (cdump.Index.insert (entry_of (length front) i) index)
  insert-Located i items front index v cut before key e g found =
      elim (Finds-insert (entry_of (length front) i) index v.twenty key e g found) [
        | inl (same, entry) ↦ rw (same, entry) (i.blob, refl, item_at i items front v cut)
        | inr old ↦ before key e g old
      ]

  insert_all-Located :
      (items : List Item) (front : List ℕ) (index : FileIndex)
      → All (IsItem z) items
      → content ≡ front ++ images items
      → Located z content index
      → Located z content (insert_all (length front) items index)
  insert_all-Located [] front index h cut before = before
  insert_all-Located (i ∷ items) front index (v, h) cut before =
      subst
        (λ (n : ℕ).
          Located z content
            (insert_all n items (cdump.Index.insert (entry_of (length front) i) index)))
        (length-append front i.out)
        (insert_all-Located items (front ++ i.out)
          (cdump.Index.insert (entry_of (length front) i) index) h (cut ∙ rw append_assoc refl)
          (insert-Located i items front index v cut before))

-- An insertion adds one entry to an index at the most.
grown_size :
    (e : Entry) (index : FileIndex)
    → length (cdump.Index.insert e index).ram + length (cdump.Index.insert e index).fdata.hashes
      ≤ length index.ram + 1 + length index.fdata.hashes
grown_size e index = elim (Option-cases (ram_find e.0 index.ram)) [
  | inl fresh ↦ rw (insert-fresh e index fresh) (omega arith)
  | inr (old, here) ↦ rw (insert-present e old index here) (omega arith)
]

module _ (z : Zlib) where
  -- A key that is found stays found.
  insert_all-Finds :
      (items : List Item) (pos : ℕ) (index : FileIndex) (key : Oid) (x : Entry)
      → All (IsItem z) items
      → Finds index key x
      → (y : Entry) × Finds (insert_all pos items index) key y
  insert_all-Finds [] pos index key x h found = (x, found)
  insert_all-Finds (i ∷ items) pos index key x (v, h) found =
      let (y, still) = Finds-insert_other (entry_of pos i) index v.twenty key x found in
      insert_all-Finds items (pos + length i.out) (cdump.Index.insert (entry_of pos i) index) key y
        h still

  insert_all-Complete :
      (items : List Item) (pos : ℕ) (index : FileIndex)
      → All (IsItem z) items
      → Complete (insert_all pos items index) items
  insert_all-Complete [] pos index h = tt
  insert_all-Complete (i ∷ items) pos index (v, h) =
      let grown = cdump.Index.insert (entry_of pos i) index in
      let (x, found) = insert-Finds (entry_of pos i) index v.twenty in
      (
        insert_all-Finds items (pos + length i.out) grown i.oid x h found,
        insert_all-Complete items (pos + length i.out) grown h,
      )

  insert_all-IsIndex :
      (items : List Item) (pos : ℕ) (index : FileIndex)
      → All (IsItem z) items
      → pos + length (images items) < 2 ^ 32
      → IsIndex index
      → length index.ram + length items + length index.fdata.hashes < 2 ^ 31
      → IsIndex (insert_all pos items index)
  insert_all-IsIndex [] pos index h small v room = v
  insert_all-IsIndex (i ∷ items) pos index (w, h) small v room =
      insert_all-IsIndex items (pos + length i.out) (cdump.Index.insert (entry_of pos i) index) h
        (omega (arith, length-append i.out (images items), small))
        (insert-IsIndex (entry_of pos i) index (w.twenty, omega (arith, small), w.word) v
          (omega (arith, room)))
        (omega (arith, grown_size (entry_of pos i) index, room))

length-images :
    (z : Zlib) (items : List Item) → All (IsItem z) items → length items ≤ length (images items)
length-images z [] h = omega arith
length-images z (i ∷ items) (v, h) =
    omega (arith, length-append i.out (images items), v.some_bytes, length-images z items h)

Finds-nothing : (k : Oid) (e : Entry) → Finds new_index k e → ⊥
unfolding find find_data ram_find
Finds-nothing k e h = never (ok none) refl h
  where
    never : (m : Outcome (Option Entry)) → m ≡ ok none → m ≡ ok (some e) → ⊥
    never m a b = cc

new_index-IsIndex : IsIndex new_index
new_index-IsIndex = record { ram_good = tt; data_good = inl refl; small = omega arith }

recover_index-saved :
    (stale content : List ℕ) (pos : ℕ) (dir : Dir) (text : String) (index : FileIndex)
    (image : List ℕ)
    → recover_loop stale content (length content) (length content) 0 false new_index ≡ ok index
    → length content < 2 ^ 32
    → save index (length content) ≡ ok image
    → recover_index stale content pos dir (throw (index_error text)) ≡ ok (indexed pos image dir)
unfolding recover_index save_index
recover_index-saved stale content pos dir text index image looped small saved =
    rw (whole, looped, saved) refl
  where
    whole : length content % 2 ^ 32 ≡ length content
    whole = omega arith

-- Let a data file of fewer than 2^31 bytes be the images of chunks, one behind the other, with identifiers
-- of 20 bytes and 32-bit kinds, at most 256 kinds in all (KindsFit), and its index be refused with
-- `index_error`. Then recovery of the file ends; the index file that it saves is loaded again, and the
-- loaded index finds every chunk's identifier, and under each identifier that it finds the place and the kind
-- of a chunk in the file that has this identifier.
pub recover_index-images :
    (z : Zlib) (stale : List ℕ) (items : List Item) (pos : ℕ) (dir : Dir) (text : String)
    → length stale ≡ 48
    → All (IsItem z) items
    → length (images items) < 2 ^ 31
    → KindsFit (insert_all 0 items new_index)
    → (image : List ℕ) × (fresh : FileIndex) × (recover_index stale
          (images items)
          pos
          dir
          (throw (index_error text))
        ≡ ok (indexed pos image dir))
      × (load (some image) (length (images items)) ≡ ok fresh)
      × IsIndex fresh
      × Located z (images items) fresh
      × Complete fresh items
recover_index-images z stale items pos dir text frame h small fit =
    let index = insert_all 0 items new_index in
    let size = length (images items) in
    let well =
      insert_all-IsIndex z items 0 new_index h (omega (arith, small)) new_index-IsIndex
        (omega (arith, length-images z items h, small)) in
    let (image, fresh, saved, loaded, v, same) =
      load-save index size well fit (omega (arith, small)) in
    (
      image,
      fresh,
      recover_index-saved stale (images items) pos dir text index image
          (recover_loop-images z stale frame items [] (images items) size new_index h refl
            (omega (arith, small)) (omega arith))
          (omega (arith, small)) saved,
      loaded,
      v,
      λ key e g found.
          insert_all-Located z (images items) items [] new_index h refl
            (λ k x good none. absurd (Finds-nothing k x none)) key e g (sym (same key g) ∙ found),
      all_found fresh same items h (insert_all-Complete z items 0 new_index h),
    )
  where
    all_found :
        (fresh : FileIndex)
        → ((key : Oid) → IsOid key → find fresh key ≡ find (insert_all 0 items new_index) key)
        → (is : List Item) → All (IsItem z) is
        → Complete (insert_all 0 items new_index) is
        → Complete fresh is
    all_found fresh same [] h c = tt
    all_found fresh same (i ∷ is) (v, h) ((e, found), c) =
        ((e, same i.oid v.twenty ∙ found), all_found fresh same is h c)
