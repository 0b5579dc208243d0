-- ===== src/Pool/Files.antt =====
-- The directory of a pool, and `Pool::File`. A path is relative to the pool's directory.
use cdump.Prelude.{
  ℕ, ◌%◌, ◌^◌, Bool, true, false, ◌&&◌, Option, none, some, List, [], ◌∷◌, ◌++◌, Outcome, ok, throw,
  pool_open_error, ◌>>=◌, length, codes, ◌==◌, if◌then◌else◌,
}
use cdump.Text.Digits.{put_dec}
use cdump.Index.{FileIndex, new_index}
use cdump.Index.Save.{save}
use cdump.Index.Load.{load}

-- The files by name, in the order in which the directory is listed.
abbrev pub Dir : Type 0
Dir = List (List ℕ × List ℕ)

unfoldable pub same_name : List ℕ → List ℕ → Bool
same_name [] [] = true
same_name [] (y ∷ ys) = false
same_name (x ∷ xs) [] = false
same_name (x ∷ xs) (y ∷ ys) = x == y && same_name xs ys

unfoldable pub lookup : List ℕ → Dir → Option (List ℕ)
unfolding same_name
lookup name [] = none
lookup name (e ∷ dir) = if same_name e.0 name then some e.1 else lookup name dir

unfoldable pub put : List ℕ → List ℕ → Dir → Dir
unfolding same_name
put name content [] = (name, content) ∷ []
put name content (e ∷ dir) =
    if same_name e.0 name then (name, content) ∷ dir else e ∷ put name content dir

unfoldable pub remove : List ℕ → Dir → Dir
unfolding same_name
remove name [] = []
remove name (e ∷ dir) = if same_name e.0 name then dir else e ∷ remove name dir

unfoldable pub append : List ℕ → List ℕ → Dir → Dir
unfolding lookup put
append name image dir = elim (lookup name dir) [
  | none ↦ put name image dir
  | some content ↦ put name (content ++ image) dir
]

-- `construct_name`
unfoldable pub construct_name : ℕ → List ℕ → List ℕ
unfolding put_dec
construct_name pos extension = codes "pool-data-" ++ (put_dec 4 pos ++ extension)

abbrev pub data_name : ℕ → List ℕ
data_name pos = construct_name pos (codes ".data")

abbrev pub index_name : ℕ → List ℕ
index_name pos = construct_name pos (codes ".idx")

-- `FileIndex::save`: to a temporary file, which is then renamed. Writing and renaming succeed here:
-- the error `Unable to rename tmp file` is left out.
unfoldable pub save_index : List ℕ → ℕ → FileIndex → Dir → Outcome Dir
unfolding save remove put
save_index name size index dir = do
  content ← save index size
  ok (put name content (remove (name ++ codes ".tmp") dir))

-- `File`: `for_writing` is the mode of its stream, and `failed` the stream's state.
pub record File : Type 0 where
  pub pos : ℕ
  pub index : FileIndex
  pub size : ℕ
  pub for_writing : Bool
  pub failed : Bool

-- `File(parent, pos, create)`
unfoldable pub open_file : Dir → ℕ → Bool → Outcome (Dir × File)
unfolding lookup put load
open_file dir pos true = elim (lookup (data_name pos) dir) [
  | none ↦ ok (
    put (data_name pos) [] dir,
    record { pos = pos; index = new_index; size = 0; for_writing = true; failed = false },
  )
  | some content ↦ ok (
    dir,
    record {
      pos = pos;
      index = new_index;
      size = length content % 2 ^ 32;
      for_writing = true;
      failed = false;
    },
  )
]
open_file dir pos false = elim (lookup (data_name pos) dir) [
  | none ↦ throw (pool_open_error "Unable to open pool file")
  | some content ↦ (do
    index ← load (lookup (index_name pos) dir) (length content % 2 ^ 32)
    ok (
      dir,
      record {
        pos = pos;
        index = index;
        size = length content % 2 ^ 32;
        for_writing = false;
        failed = false;
      },
    ))
]

-- `make_writable`: appending creates a file that is not there.
unfoldable pub make_writable : Dir → File → Dir × File
unfolding append
make_writable dir file =
    (append (data_name file.pos) [] dir, record file { for_writing = true; failed = false })

-- `unmake_writable`, of a file that is there.
unfoldable pub unmake_writable : File → File
unmake_writable file = record file { for_writing = false; failed = false }
