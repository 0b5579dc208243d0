-- ===== src/Index/RoundTrip.antt =====
-- `load` after `save`: the loaded index is well formed and finds what the saved one found.
use cdump.Prelude.{
  ℕ, zero, suc, ◌*◌, ◌^◌, ◌≤◌, ◌<◌, ◌≡◌, refl, ap, ◌∙◌, some, List, [], ◌∷◌, ◌++◌, ok, arith,
  length, length-map, get_elem?, get_or, All, map, append-nil, lt-get_elem?, some-injective,
  All-get_elem?, ◌%◌,
}
use cdump.Bytes.{IsWord, le_bytes, le_value, length-le_bytes, le_value-le_bytes, memcmp}
use cdump.Kind.{Kind}
use cdump.Oid.{Oid, IsOid}
use cdump.Index.{FileData, FileIndex, Entry}
use cdump.Index.Blocks.{
  read-append, words-write_words, length-write_words, oids-write_oids, length-write_oids,
  names-write_names, length-write_names,
}
use cdump.Index.Keys.{Has}
use cdump.Index.Kinds.{IsKind, kind_set-IsKind, kind_set-Has, kind_number-get_elem?}
use cdump.Index.Load.{read, load_vectors, check_header}
use cdump.Index.Passes.{DerefAll, DerefAll-length, DerefAll-IsKind}
use cdump.Index.Save.{
  header, write_words, write_oids, write_names, kind_bytes, kind_set, kind_number,
}
use cdump.Index.Search.{IsSorted}
use cdump.Index.Tops.{count_le, IsData, IsRow}

abbrev pub offsets_of : List Entry → List ℕ
offsets_of = map (λ (e : Entry). e.1.offset)

-- The index that stands in the file, for the table, the keys and the entries of the passes.
abbrev pub written : List ℕ → List Oid → List Entry → FileData
written ts ks es = record {
  tops = ts;
  hashes = ks;
  offsets = offsets_of es;
  kind_map = kind_set es;
  kinds = kind_bytes (kind_set es) es;
}

abbrev pub file_of : List ℕ → List Oid → List Entry → List ℕ
file_of ts ks es =
    write_words ts
    ++ (write_oids ks
        ++ (write_words (offsets_of es)
            ++ (le_bytes 4 (length (kind_set es))
                ++ (write_names (kind_set es) ++ kind_bytes (kind_set es) es))))

length-kind_bytes : (kinds : List Kind) (es : List Entry) → length (kind_bytes kinds es) ≡ length es
unfolding kind_bytes
length-kind_bytes kinds [] = refl
length-kind_bytes kinds (e ∷ es) = ap suc (length-kind_bytes kinds es)

-- `load` reads the vectors that stand in the file.
pub load_vectors-file_of :
    (ts : List ℕ) (ks : List Oid) (es : List Entry)
    → length ts ≡ 256
    → get_or ts 255 0 ≡ length ks
    → All IsWord ts
    → All IsOid ks
    → length es ≡ length ks
    → All IsWord (offsets_of es)
    → All IsKind (kind_set es)
    → length (kind_set es) ≤ 256
    → load_vectors (file_of ts ks es) ≡ ok (written ts ks es)
unfolding load_vectors
load_vectors-file_of ts ks es size count words good same offsets kinds few =
    rw
      (
        read-append (write_words ts) _ 1024 (length-write_words ts ∙ ap (λ n. n * 4) size),
        rw size at (words-write_words ts words),
        count,
        read-append (write_oids ks) _ (length ks * 20) (length-write_oids ks good),
        read-append (write_words (offsets_of es)) _ (length ks * 4)
            (length-write_words (offsets_of es) ∙ ap (λ n. n * 4) rows),
        read-append (le_bytes 4 (length (kind_set es))) _ 4
            (length-le_bytes 4 (length (kind_set es))),
        le_value-le_bytes 4 (length (kind_set es)) (omega arith),
        read-append (write_names (kind_set es)) _ (length (kind_set es) * 4)
            (length-write_names (kind_set es)),
        rest,
        oids-write_oids ks good,
        rw rows at (words-write_words (offsets_of es) offsets),
        names-write_names (kind_set es) kinds,
      )
      refl
  where
    rows : length (offsets_of es) ≡ length ks
    rows = length-map (λ (e : Entry). e.1.offset) es ∙ same

    rest : read (length ks) (kind_bytes (kind_set es) es) ≡ ok (kind_bytes (kind_set es) es, [])
    rest = rw append-nil at (
        read-append (kind_bytes (kind_set es) es) [] (length ks)
          (length-kind_bytes (kind_set es) es ∙ same))

pub check_header-header : (size : ℕ) → IsWord size → check_header (header size) size ≡ ok tt
unfolding check_header header le_value le_bytes memcmp
check_header-header size h = ground arith

pub length-header : (size : ℕ) → length (header size) ≡ 16
unfolding header le_bytes
length-header size = refl

kind_bytes-get_elem? :
    (kinds : List Kind) (es : List Entry) (i : ℕ) (e : Entry)
    → get_elem? es i ≡ some e
    → get_elem? (kind_bytes kinds es) i ≡ some (kind_number e.1.kind kinds 0 % 256)
unfolding kind_bytes
kind_bytes-get_elem? kinds [] i e h = cc
kind_bytes-get_elem? kinds (x ∷ es) zero e h =
    ap (λ (y : Entry). some (kind_number y.1.kind kinds 0 % 256)) (some-injective x e h)
kind_bytes-get_elem? kinds (x ∷ es) (suc i) e h = kind_bytes-get_elem? kinds es i e h

offsets_of-get_elem? :
    (es : List Entry) (i : ℕ) (e : Entry)
    → get_elem? es i ≡ some e
    → get_elem? (offsets_of es) i ≡ some e.1.offset
offsets_of-get_elem? [] i e h = cc
offsets_of-get_elem? (x ∷ es) zero e h = ap (λ (y : Entry). some y.1.offset) (some-injective x e h)
offsets_of-get_elem? (x ∷ es) (suc i) e h = offsets_of-get_elem? es i e h

-- The rows of the written index hold the entries.
pub written-IsRow :
    (ts : List ℕ) (ks : List Oid) (es : List Entry)
    → All (λ e. IsKind e.1.kind) es
    → length (kind_set es) ≤ 256
    → (i : ℕ) (e : Entry) → get_elem? es i ≡ some e
    → IsRow (written ts ks es) i e.1
written-IsRow ts ks es kinds few i e at =
    let (n, en, an) =
      kind_number-get_elem? e.1.kind (kind_set es) 0
        (All-get_elem? (λ x. IsKind x.1.kind) es i kinds at) (kind_set-IsKind es kinds)
        (kind_set-Has es i e kinds at) in
    let small : kind_number e.1.kind (kind_set es) 0 % 256 ≡ n =
      omega (arith, en, lt-get_elem? (kind_set es) n an) in
    record {
      number = n;
      offset_at = offsets_of-get_elem? es i e at;
      number_at = rw small at (kind_bytes-get_elem? (kind_set es) es i e at);
      kind_at = an;
    }

-- All numbers in the file are below the size of the set.
written-kinds_known :
    (es all : List Entry)
    → All (λ e. IsKind e.1.kind) es
    → All (λ e. IsKind e.1.kind) all
    → length (kind_set all) ≤ 256
    → ((i : ℕ) (e : Entry) → get_elem? es i ≡ some e → Has e.1.kind (kind_set all))
    → All (λ k. k < length (kind_set all)) (kind_bytes (kind_set all) es)
unfolding kind_bytes
written-kinds_known [] all p q few h = tt
written-kinds_known (e ∷ es) all p q few h =
    let (n, en, an) =
      kind_number-get_elem? e.1.kind (kind_set all) 0 p.0 (kind_set-IsKind all q) (h 0 e refl) in
    (
      omega (arith, en, lt-get_elem? (kind_set all) n an),
      written-kinds_known es all p.1 q few (λ i x at. h (suc i) x at),
    )

-- The table and the blocks that the passes make are a well-formed index.
pub written-IsData :
    (index : FileIndex) (ts : List ℕ) (ks : List Oid) (es : List Entry)
    → length ts ≡ 256
    → ((t : ℕ) → t < 256 → get_elem? ts t ≡ some (count_le t ks))
    → length ks < 2 ^ 31
    → IsSorted ks
    → All IsOid ks
    → DerefAll index ks es
    → length (kind_set es) ≤ 256
    → IsData (written ts ks es)
written-IsData index ts ks es size counts small sorted oids d few = record {
  tops_size = size;
  tops_count = counts;
  small = small;
  sorted = sorted;
  oids = oids;
  offsets_size = length-map (λ (e : Entry). e.1.offset) es ∙ DerefAll-length index ks es d;
  kinds_size = length-kind_bytes (kind_set es) es ∙ DerefAll-length index ks es d;
  kinds_known = written-kinds_known es es kinds kinds few (λ i e at. kind_set-Has es i e kinds at);
}
  where
    kinds : All (λ e. IsKind e.1.kind) es
    kinds = DerefAll-IsKind index ks es d
