-- ===== src/Pool/Recover.antt =====
-- The recovery of the index files of a pool, `Pool::recover_index` and `Pool::recover_files`.
use cdump.Prelude.{
  ℕ, zero, suc, ◌+◌, ◌%◌, ◌^◌, Bool, false, not, Option, none, some, List, [], ◌∷◌, Outcome, ok,
  throw, undefined, pool_open_error, index_error, ◌>>=◌, length, drop, ltb, if◌then◌else◌,
}
use cdump.Index.{FileIndex, new_index}
use cdump.Index.Load.{load}
use cdump.Chunk.Format.{read_header}
use cdump.Pool.Files.{Dir, lookup, data_name, index_name, save_index}
use cdump.Pool.Locks.{open_lock}
use cdump.Pool.Open.{Parsed, read_props, find_pool_files}

-- The `while` loop of `recover_files`, over the contents of a data file. A chunk takes 48 bytes at the
-- least, unless its header is so wrong that it takes none; `undefined` stands for the loop that goes on
-- for ever then. `stale` is what the stack holds where headers are read to.
unfoldable pub recover_loop : List ℕ → List ℕ → ℕ → ℕ → ℕ → Bool → FileIndex → Outcome FileIndex
unfolding read_header
recover_loop stale content size zero pos failed index = if ltb pos size then undefined else ok index
recover_loop stale content size (suc fuel) pos failed index =
    if not (ltb pos size)
    then ok index
    else (let (info, s) = read_header stale (record { rest = drop pos content; failed = failed }) in
        elim info [
          | none ↦ throw (pool_open_error "Unable to read from pool file")
          | some i ↦
              recover_loop stale content size fuel ((pos + i.stored_size) % 2 ^ 32) s.failed
                (cdump.Index.insert (i.oid, record { offset = pos; kind = i.kind }) index)
        ])

-- The rest of a round of `recover_files`, from what `load` ended in: only `index_error` is caught.
unfoldable pub recover_index : List ℕ → List ℕ → ℕ → Dir → Outcome FileIndex → Outcome Dir
unfolding recover_loop save_index
recover_index stale content pos dir (ok index) = ok dir
recover_index stale content pos dir (throw (index_error text)) = do
  index ← recover_loop stale content (length content % 2 ^ 32) (length content) 0 false new_index
  save_index (index_name pos) (length content % 2 ^ 32) index dir
recover_index stale content pos dir (throw e) = throw e
recover_index stale content pos dir undefined = undefined

-- `recover_files`, for the files `known`.
unfoldable pub recover_files : List ℕ → List ℕ → Dir → Outcome Dir
unfolding recover_index load lookup
recover_files stale [] dir = ok dir
recover_files stale (pos ∷ known) dir = elim (lookup (data_name pos) dir) [
  | none ↦ undefined
  | some content ↦ (do
    dir ←
        recover_index stale content pos dir
          (load (lookup (index_name pos) dir) (length content % 2 ^ 32))
    recover_files stale known dir)
]

-- The static `recover_index`: `Pool(path, true, true)`, whose destructor finds nothing to flush.
unfoldable pub recover_pool :
    (Option (List ℕ) → Outcome Parsed) → Bool → ℕ → ℕ → List ℕ → Dir → Outcome Dir
unfolding open_lock read_props recover_files find_pool_files
recover_pool parse opened fd res stale dir = do
  _ ← open_lock opened fd res
  _ ← read_props parse dir
  recover_files stale (find_pool_files dir) dir
