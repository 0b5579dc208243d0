-- ===== src/Pool/Open.antt =====
-- Making and opening a pool. Boost's parser of the properties file and its generator of
-- identifiers are parameters.
use cdump.Prelude.{
  ℕ, ◌*◌, ◌-◌, ◌^◌, Bool, true, false, not, ◌&&◌, ◌||◌, Option, none, some, List, [], ◌∷◌, ◌++◌,
  Outcome, ok, throw, invalid_argument, pool_open_error, pointer_to, ◌>>=◌, codes, length, leb, ltb,
  ◌==◌, if◌then◌else◌,
}
use cdump.Text.Digits.{put_dec}
use cdump.Text.Scan.{is_space}
use cdump.Oid.{Oid, from_hex}
use cdump.Pool.{Pool}
use cdump.Pool.Files.{Dir, lookup, put, File, open_file}
use cdump.Pool.Locks.{open_lock}
use cdump.Pool.Names.{decode_name}

abbrev pub default_limit : ℕ
default_limit = 640 * 1024 * 1024

abbrev pub limit_lower_bound : ℕ
limit_lower_bound = 2 ^ 20

abbrev pub limit_upper_bound : ℕ
limit_upper_bound = 2 ^ 30 - 1

abbrev pub props_name : List ℕ
props_name = codes "metadata/props.txt"

abbrev pub bool_text : Bool → List ℕ
bool_text true = codes "true"
bool_text false = codes "false"

-- The text of a new properties file.
unfoldable pub props_text : List ℕ → ℕ → Bool → List ℕ
unfolding put_dec
props_text uuid limit newlib =
    codes "# Ldump metadata properties (odump)"
    ++ (10 ∷ codes "uuid="
        ++ (uuid
            ++ (10 ∷ codes "newfile="
                ++ (bool_text newlib ++ (10 ∷ codes "limit=" ++ (put_dec 0 limit ++ (10 ∷ [])))))))

-- `create_pool` in the directory with the files `dir`, if `is_directory`. `uuid` is the text
-- that `make_uuid` returns, and `made` what the creation of the directory `metadata` returns.
unfoldable pub create_pool : Bool → Bool → List ℕ → Dir → ℕ → Bool → Outcome Dir
unfolding props_text put
create_pool is_directory made uuid dir limit newlib =
    if ltb limit limit_lower_bound || leb limit_upper_bound limit
    then throw (invalid_argument "limit out of range")
    else if not is_directory
    then throw (invalid_argument "path doesn't name directory")
    else if not (length dir == 0)
    then throw (invalid_argument "path doesn't name empty directory")
    else if not made
    then throw (pool_open_error "Unable to create metadata directory")
    else ok (put props_name (props_text uuid limit newlib) dir)

-- `Props`, and what the parser finds for each of the three options; an identifier here is its 16
-- bytes.
pub record Props : Type 0 where
  pub uuid : List ℕ
  pub newfile : Bool
  pub limit : ℕ

pub record Parsed : Type 0 where
  pub uuid : Option (List ℕ)
  pub newfile : Option Bool
  pub limit : Option ℕ

abbrev pub or_else : {A : Type 0} → Option A → A → A
or_else none d = d
or_else (some a) d = a

-- `is_nil()`
unfoldable pub is_nil : List ℕ → Bool
is_nil [] = true
is_nil (b ∷ bs) = b == 0 && is_nil bs

-- `read_props`. The exception's text goes on with the path.
unfoldable pub read_props : (Option (List ℕ) → Outcome Parsed) → Dir → Outcome Props
unfolding is_nil lookup
read_props parse dir = do
  parsed ← parse (lookup props_name dir)
  let uuid = or_else parsed.uuid []
  if is_nil uuid
      then throw (pointer_to (pool_open_error "Backup property file doesn't contain uuid"))
      else ok (record {
        uuid = uuid;
        newfile = or_else parsed.newfile false;
        limit = or_else parsed.limit default_limit;
      })

-- `std::sort` of numbers.
unfoldable pub number_insert : ℕ → List ℕ → List ℕ
number_insert n [] = n ∷ []
number_insert n (m ∷ ms) = if ltb m n then m ∷ number_insert n ms else n ∷ m ∷ ms

-- `find_pool_files`
unfoldable pub find_pool_files : Dir → List ℕ
unfolding decode_name number_insert
find_pool_files [] = []
find_pool_files (e ∷ dir) = elim (decode_name e.0) [
  | none ↦ find_pool_files dir
  | some pos ↦ number_insert pos (find_pool_files dir)
]

-- The loop of `scan_files`, in front of the files that are open.
unfoldable pub scan_loop : Dir → List ℕ → List File → Outcome (List File)
unfolding open_file
scan_loop dir [] files = ok files
scan_loop dir (pos ∷ known) files = do
  (_, file) ← open_file dir pos false
  scan_loop dir known (file ∷ files)

-- `scan_files`
unfoldable pub scan_files : Dir → Outcome (List File)
unfolding scan_loop find_pool_files
scan_files dir = scan_loop dir (find_pool_files dir) []

-- `Pool(path, writable)`
unfoldable pub open_pool :
    (Option (List ℕ) → Outcome Parsed) → Bool → ℕ → ℕ → Dir → Bool → Outcome Pool
unfolding open_lock read_props scan_files
open_pool parse opened fd res dir writable = do
  _ ← open_lock opened fd res
  props ← read_props parse dir
  files ← scan_files dir
  ok (record {
    dir = dir;
    writable = writable;
    limit = props.limit;
    first_newfile = props.newfile;
    files = files;
    dirty = false;
    write_pos = 0;
  })

-- `get_backups` splits its file at white space; `word` is what was read of the next word.
unfoldable pub backups_loop : List ℕ → List ℕ → Outcome (List Oid)
backups_loop word [] = if length word == 0 then ok [] else (do o ← from_hex word; ok (o ∷ []))
backups_loop word (c ∷ cs) =
    let next = backups_loop [] cs in
    let same = backups_loop (word ++ c ∷ []) cs in
    if not (is_space c)
    then same
    else if length word == 0
    then next
    else (do o ← from_hex word; os ← next; ok (o ∷ os))

-- `get_backups`; a file that is not there has no backups.
unfoldable pub get_backups : Dir → Outcome (List Oid)
unfolding backups_loop lookup
get_backups dir = backups_loop [] (or_else (lookup (codes "metadata/backups.txt") dir) [])
