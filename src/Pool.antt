-- ===== src/Pool.antt =====
-- src/pool.hh and src/pool.cc: the pool of chunks over the files of one directory. Its files are in
-- Pool.Files, its opening and recovery in Pool.Open.
pub mod Files
pub mod Directory
pub mod Locks
pub mod Open
pub mod Recover
pub mod Recovered
pub mod Rebuilt
pub mod Session
pub mod Stored
pub mod Names
pub mod Apart
pub mod View
pub mod Image
pub mod Lookup
pub mod Frame
pub mod Flush
pub mod Chosen
pub mod Prepare
pub mod Ready
pub mod Grow
pub mod InSession
pub mod Refine
pub mod Steps
pub mod Run
pub mod Reopen
pub mod Beside
pub mod Listed
pub mod Persist
pub mod Fresh
pub mod Numbered
pub mod Durable
pub mod Kept
pub mod Cycle
pub mod Backups
use cdump.Prelude.{
  ℕ, ◌+◌, ◌%◌, ◌^◌, Bool, true, false, not, ◌&&◌, Option, none, some, List, [], ◌∷◌, ◌++◌, Outcome,
  ok, throw, undefined, logic_error, runtime_error, ◌>>=◌, length, drop, leb, ltb, ◌==◌,
  if◌then◌else◌,
}
use cdump.Oid.{Oid}
use cdump.Index.{Entry, FileIndex}
use cdump.Index.Load.{load}
use cdump.Chunk.{Zlib, Chunk, Stream, chunk_kind, chunk_oid}
use cdump.Chunk.Format.{write, write_size, read}
use cdump.Pool.Files.{
  Dir, lookup, put, append, data_name, index_name, save_index, File, open_file, make_writable,
  unmake_writable,
}

-- `Pool`, with the directory that it is in. `files` has the latest file first.
pub record Pool : Type 0 where
  pub dir : Dir
  pub writable : Bool
  pub limit : ℕ
  pub first_newfile : Bool
  pub files : List File
  pub dirty : Bool
  pub write_pos : ℕ

-- `flush`
unfoldable pub flush : Pool → Outcome Pool
flush pool = if not pool.dirty then ok pool else (elim pool.files [
  | [] ↦ undefined
  | file ∷ files ↦ (do
    dir ← save_index (index_name file.pos) file.size file.index pool.dir
    index ← load (lookup (index_name file.pos) dir) file.size
    let front = record (unmake_writable file) { index = index }
    ok (record pool { dir = dir; files = front ∷ files; dirty = false }))
])

-- `~Pool`
unfoldable pub close : Pool → Outcome Pool
unfolding flush
close pool = flush pool

-- `unsigned index = 0; if (!files.empty()) index = files.front().pos + 1;`
unfoldable pub next_pos : List File → ℕ
next_pos [] = 0
next_pos (file ∷ files) = (file.pos + 1) % 2 ^ 32

-- The end of `prepare_write`, once `force_new` is known.
unfoldable pub open_front : Bool → Pool → Outcome Pool
unfolding next_pos
open_front true pool = do
  (dir, file) ← open_file pool.dir (next_pos pool.files) true
  ok (record pool { dir = dir; files = file ∷ pool.files; dirty = true; first_newfile = false })
open_front false pool = elim pool.files [
  | [] ↦ undefined
  | file ∷ files ↦
      let (dir, front) = make_writable pool.dir file in
      ok (record pool { dir = dir; files = front ∷ files; dirty = true; first_newfile = false })
]

-- `files.empty()`, or no room in `files.front()`.
unfoldable pub front_full : ℕ → ℕ → List File → Bool
front_full limit size [] = true
front_full limit size (file ∷ files) = ltb limit ((file.size + size) % 2 ^ 32)

-- `prepare_write`
unfoldable pub prepare_write : ℕ → Pool → Outcome Pool
unfolding open_front front_full
prepare_write size pool =
    if pool.dirty
    then if leb ((pool.write_pos + size) % 2 ^ 32) pool.limit
      then ok pool
      else (do pool' ← flush pool; open_front true pool')
    else if pool.first_newfile
    then open_front true pool
    else open_front (front_full pool.limit size pool.files) pool

module _ (z : Zlib) (beyond : List ℕ) where
  -- The rest of `insert`, with the file to write to.
  unfoldable pub insert_front : Chunk → File → List File → Pool → Outcome (Chunk × Pool)
  insert_front chunk file files pool = do
    (image, chunk) ← write z beyond chunk
    let dir =
        if file.for_writing && not file.failed
        then append (data_name file.pos) image pool.dir
        else pool.dir
    let index =
        cdump.Index.insert (chunk_oid chunk, record { offset = file.size; kind = chunk_kind chunk })
          file.index
    (size, chunk) ← write_size z chunk
    let file = record file { index = index; size = (file.size + size) % 2 ^ 32 }
    let pool = record pool { dir = dir; files = file ∷ files }
    elim (lookup (data_name file.pos) dir) [
      | none ↦ throw (runtime_error "File position mismatch on write")
      | some content ↦
          if file.for_writing && not file.failed && (file.size == length content)
          then ok (chunk, pool)
          else throw (runtime_error "File position mismatch on write")
    ]

  -- `insert`, with the chunk afterwards, whose caches it fills.
  unfoldable pub insert : Chunk → Pool → Outcome (Chunk × Pool)
  unfolding insert_front
  insert chunk pool =
      if not pool.writable
      then throw (logic_error "Attempt to insert into class opened as read-only")
      else (do
        (size, chunk) ← write_size z chunk
        pool ← prepare_write size pool
        elim pool.files [ [] ↦ undefined | file ∷ files ↦ insert_front chunk file files pool ])

-- `f.file.seekg(...)` and `Chunk::read(f.file)`, with the files from there on.
unfoldable pub read_entry :
    List ℕ → Dir → Entry → File → List File → Outcome (Option Chunk × List File)
read_entry stale dir entry file files = elim (lookup (data_name file.pos) dir) [
  | none ↦ undefined
  | some content ↦ (do
    (chunk, s) ← read stale (record { rest = drop entry.1.offset content; failed = file.failed })
    ok (some chunk, record file { failed = s.failed } ∷ files))
]

-- The loop of `find`: the answer, and the files that were looked through.
unfoldable pub find_in : List ℕ → Dir → Oid → List File → Outcome (Option Chunk × List File)
unfolding read_entry
find_in stale dir key [] = ok (none, [])
find_in stale dir key (file ∷ files) = do
  found ← cdump.Index.find file.index key
  elim found [
    | some entry ↦ read_entry stale dir entry file files
    | none ↦ (do (answer, files) ← find_in stale dir key files; ok (answer, file ∷ files))
  ]

-- `find`; `none` is the null pointer.
unfoldable pub find : List ℕ → Oid → Pool → Outcome (Option Chunk × Pool)
unfolding find_in
find stale key pool = do
  (answer, files) ← find_in stale pool.dir key pool.files
  ok (answer, record pool { files = files })
