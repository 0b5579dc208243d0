-- ===== src/Index/Load.antt =====
-- Reading an index: `FileData::load` and `FileIndex::load` of src/index.cc.
use cdump.Prelude.{
  ℕ, zero, suc, ◌*◌, Bool, not, Option, none, some, List, [], ◌∷◌, Ordering, Outcome, ok, throw,
  index_error, ios_failure, ◌>>=◌, length, take, drop, get_or, ltb, ◌==◌, if◌then◌else◌,
}
use cdump.Bytes.{le_value, memcmp}
use cdump.Kind.{Kind, load_kind}
use cdump.Oid.{Oid}
use cdump.Index.{FileData, FileIndex}
use cdump.Index.Save.{magic, magic_version}

-- `file.read`, under `exceptions(badbit|failbit|eofbit)`: the bytes, and what is behind them.
unfoldable pub read : ℕ → List ℕ → Outcome (List ℕ × List ℕ)
read n file =
    if ltb (length file) n
    then throw (ios_failure "basic_ios::clear")
    else ok (take n file, drop n file)

-- The elements of a block that `vector_read` filled.
unfoldable pub words : ℕ → List ℕ → List ℕ
words zero bs = []
words (suc n) bs = le_value (take 4 bs) ∷ words n (drop 4 bs)

unfoldable pub oids : ℕ → List ℕ → List Oid
oids zero bs = []
oids (suc n) bs = record { raw = take 20 bs } ∷ oids n (drop 20 bs)

unfoldable pub names : ℕ → List ℕ → List Kind
names zero bs = []
names (suc n) bs = load_kind bs ∷ names n (drop 4 bs)

abbrev pub same_bytes : List ℕ → List ℕ → Bool
same_bytes xs ys = elim (memcmp xs ys) [ Ordering.eq ↦ Bool.true | _ ↦ Bool.false ]

-- The checks on the header.
unfoldable pub check_header : List ℕ → ℕ → Outcome (Unit {0})
check_header head size =
    if not (same_bytes (take 8 head) magic)
    then throw (index_error "Index header has invalid magic")
    else if not (le_value (take 4 (drop 8 head)) == magic_version)
    then throw (index_error "Index file incorrect version")
    else if not (le_value (take 4 (drop 12 head)) == size)
    then throw (index_error "Index file incorrect size")
    else ok tt

-- The vectors, behind the header.
unfoldable pub load_vectors : List ℕ → Outcome FileData
load_vectors file = do
  (tops_block, file) ← read 1024 file
  let tops = words 256 tops_block
  let count = get_or tops 255 0
  (hash_block, file) ← read (count * 20) file
  (offset_block, file) ← read (count * 4) file
  (count_block, file) ← read 4 file
  let kind_count = le_value count_block
  (name_block, file) ← read (kind_count * 4) file
  (kinds, file) ← read count file
  ok (record {
    tops = tops;
    hashes = oids count hash_block;
    offsets = words count offset_block;
    kind_map = names kind_count name_block;
    kinds = kinds;
  })

-- `FileData::load`; `none` is a file that cannot be opened.
unfoldable pub load_data : Option (List ℕ) → ℕ → Outcome FileData
load_data none size = throw (index_error "Unable to read index file")
load_data (some file) size = do
  (head, file) ← read 16 file
  _ ← check_header head size
  load_vectors file

-- `FileIndex::load`
unfoldable pub load : Option (List ℕ) → ℕ → Outcome FileIndex
load file size = do fdata ← load_data file size; ok (record { ram = []; fdata = fdata })
