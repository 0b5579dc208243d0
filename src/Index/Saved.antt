-- ===== src/Index/Saved.antt =====
-- A whole cycle of `save` and `load`.
use cdump.Prelude.{
  ℕ, zero, suc, ◌+◌, ◌^◌, ◌≤◌, ◌<◌, ◌≡◌, refl, sym, ap, ◌∙◌, inr, some, List, [], ◌∷◌, ◌++◌, ok,
  arith, length, length-append, length-map, get_elem?, get_or, All, map, lt-get_elem?,
  some-injective,
}
use native.Mathlib.Nat.{zero-add}
use cdump.Bytes.{IsWord, get_or-IsByte}
use cdump.Oid.{Oid, IsOid, peek_first}
use cdump.Index.{
  FileData, FileIndex, Entry, Node, no_data, row, find, find_data, ram_find, deref, sorted_keys,
  append_keys,
}
use cdump.Index.Blocks.{read-append}
use cdump.Index.Few.{KindsFit}
use cdump.Index.Find.{IsIndex, keys, keys-IsOid, sorted_keys-Known}
use cdump.Index.Keys.{length-sort, sort-IsSorted}
use cdump.Index.Kinds.{IsKind, kind_set-IsKind}
use cdump.Index.Load.{load_data, load}
use cdump.Index.Passes.{
  DerefAll, deref_all_lem, tops_loop_lem, DerefAll-length, DerefAll-IsKind, DerefAll-IsWord,
}
use cdump.Index.RoundTrip.{
  written, file_of, load_vectors-file_of, check_header-header, length-header, written-IsData,
}
use cdump.Index.Refound.{find-written}
use cdump.Index.Save.{
  header, kind_set, compute_tops, first_pass, write_kinds, tops_loop, deref_all, save,
}
use cdump.Index.Search.{IsSorted}
use cdump.Index.Tops.{count_le, count_le-length, IsData}

count_le-all : (ks : List Oid) → All IsOid ks → count_le 255 ks ≡ length ks
unfolding count_le peek_first
count_le-all [] p = refl
count_le-all (k ∷ ks) p = ground (arith, get_or-IsByte k.raw 0 p.0.bytes, count_le-all ks p.1)

All-of-get_elem? :
    (P : ℕ → Type 0) (xs : List ℕ) → ((i x : ℕ) → get_elem? xs i ≡ some x → P x) → All P xs
All-of-get_elem? P [] h = tt
All-of-get_elem? P (x ∷ xs) h = (h 0 x refl, All-of-get_elem? P xs (λ i y e. h (suc i) y e))

get_or-get_elem? : (xs : List ℕ) (i x : ℕ) → get_elem? xs i ≡ some x → get_or xs i 0 ≡ x
get_or-get_elem? [] i x h = cc
get_or-get_elem? (y ∷ xs) zero x h = cc h
get_or-get_elem? (y ∷ xs) (suc i) x h = get_or-get_elem? xs i x h

pub length-keys :
    (index : FileIndex) → length (sorted_keys index) ≡ length index.ram + length index.fdata.hashes
unfolding sorted_keys append_keys
length-keys index =
    length-sort (keys index)
    ∙ length-append (map (λ e. e.0) index.ram) index.fdata.hashes
    ∙ ap (λ n. n + length index.fdata.hashes) (length-map (λ (e : Entry). e.0) index.ram)

-- `load` of a file that has the right header and the blocks of the passes.
load-file_of :
    (ts : List ℕ) (ks : List Oid) (es : List Entry) (size : ℕ)
    → IsWord size
    → cdump.Index.Load.load_vectors (file_of ts ks es) ≡ ok (written ts ks es)
    → load (some (header size ++ file_of ts ks es)) size
      ≡ ok (record { ram = []; fdata = written ts ks es })
unfolding load load_data
load-file_of ts ks es size h e =
    rw
      (
        read-append (header size) (file_of ts ks es) 16 (length-header size),
        check_header-header size h,
        e,
      )
      refl

sorted_keys-IsSorted : (index : FileIndex) → IsIndex index → IsSorted (sorted_keys index)
unfolding sorted_keys
sorted_keys-IsSorted index v = sort-IsSorted (keys index) (keys-IsOid index v)

table_words :
    (ts : List ℕ) (ks : List Oid)
    → length ts ≡ 256
    → ((t : ℕ) → t < 256 → get_elem? ts t ≡ some (count_le t ks))
    → length ks < 2 ^ 31
    → All IsWord ts
table_words ts ks size at_t small = All-of-get_elem? IsWord ts λ i x e.
    let within : i < 256 = omega (arith, size, lt-get_elem? ts i e) in
    let value : some x ≡ some (count_le i ks) = sym e ∙ at_t i within in
    omega (arith, some-injective x (count_le i ks) value, count_le-length i ks)

save_lem :
    (index : FileIndex) (size : ℕ) (ts : List ℕ) (es : List Entry)
    → tops_loop index 256 0 (sorted_keys index) 0 ≡ ok ts
    → deref_all index (sorted_keys index) ≡ ok es
    → save index size ≡ ok (header size ++ file_of ts (sorted_keys index) es)
unfolding save compute_tops first_pass write_kinds
save_lem index size ts es et ee = rw (et, ee) refl

-- The same with the keys of the loaded index.
pub load-save-keys :
    (index : FileIndex) (size : ℕ)
    → IsIndex index
    → KindsFit index
    → IsWord size
    → (file : List ℕ) × (fresh : FileIndex) × (save index size ≡ ok file)
      × (load (some file) size ≡ ok fresh)
      × IsIndex fresh
      × ((key : Oid) → IsOid key → find fresh key ≡ find index key)
      × (keys fresh ≡ sorted_keys index)
load-save-keys index size v fit h = (
  header size ++ file_of ts ks es,
  record { ram = []; fdata = written ts ks es },
  written_file,
  load-file_of ts ks es size h (
      load_vectors-file_of ts ks es size_ts
        (get_or-get_elem? ts 255 (length ks) (at_t 255 (omega arith) ∙ ap some all)) words oids
        (DerefAll-length index ks es d) (DerefAll-IsWord index ks es d) names few),
  record {
    ram_good = tt;
    data_good =
        inr (record { shape = shape; words = DerefAll-IsWord index ks es d; names = names });
    small = omega (arith, small);
  },
  find-written index ts es v shape d few,
  unfold append_keys in refl,
)
  where
    ks : List Oid
    ks = sorted_keys index

    oids : All IsOid ks
    oids = (sorted_keys-Known index v).0

    sorted : IsSorted ks
    sorted = sorted_keys-IsSorted index v

    table :
        (ts : List ℕ) × (tops_loop index 256 0 ks 0 ≡ ok ts)
        × (length ts ≡ 256)
        × ((t : ℕ) → t < 256 → get_elem? ts t ≡ some (0 + count_le (0 + t) ks))
    table = tops_loop_lem index 256 0 ks 0 (sorted_keys-Known index v).1 oids sorted

    pass : (es : List Entry) × (deref_all index ks ≡ ok es) × DerefAll index ks es
    pass = deref_all_lem index ks (sorted_keys-Known index v).1

    ts : List ℕ
    ts = table.0

    es : List Entry
    es = pass.0

    size_ts : length ts ≡ 256
    size_ts = table.2

    at_t : (t : ℕ) → t < 256 → get_elem? ts t ≡ some (count_le t ks)
    at_t t b = rw (zero-add, zero-add) at (table.3 t b)

    d : DerefAll index ks es
    d = pass.2

    few : length (kind_set es) ≤ 256
    few = fit es pass.1

    small : length ks < 2 ^ 31
    small = omega (arith, length-keys index, v.small)

    all : count_le 255 ks ≡ length ks
    all = count_le-all ks oids

    names : All IsKind (kind_set es)
    names = kind_set-IsKind es (DerefAll-IsKind index ks es d)

    words : All IsWord ts
    words = table_words ts ks size_ts at_t small

    shape : IsData (written ts ks es)
    shape = written-IsData index ts ks es size_ts at_t small sorted oids d few

    written_file : save index size ≡ ok (header size ++ file_of ts ks es)
    written_file = save_lem index size ts es table.1 pass.1

-- `save` of a well-formed index ends and writes a file that `load` accepts, and the loaded index is
-- well formed and answers `find` for every key as the saved one did. The index has fewer than 2 ^ 31
-- keys (in IsIndex) and at most 256 kinds, and `size` is a `uint32_t`.
pub load-save :
    (index : FileIndex) (size : ℕ)
    → IsIndex index
    → KindsFit index
    → IsWord size
    → (file : List ℕ) × (fresh : FileIndex) × (save index size ≡ ok file)
      × (load (some file) size ≡ ok fresh)
      × IsIndex fresh
      × ((key : Oid) → IsOid key → find fresh key ≡ find index key)
load-save index size v fit h =
    let (file, fresh, saved, loaded, well, same, _) = load-save-keys index size v fit h in
    (file, fresh, saved, loaded, well, same)
