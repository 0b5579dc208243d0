-- ===== src/Pool/Chosen.antt =====
-- The file that `prepare_write` chooses.
use cdump.Prelude.{ℕ, ◌+◌, ◌%◌, ◌^◌, ◌≤◌, ◌<◌, ◌≡◌, ◌⊎◌, true, false, List, [], ◌∷◌, ok}
use cdump.Pool.{Pool, flush}
use cdump.Pool.Files.{append, data_name, File}
use cdump.Pool.Flush.{pool_of, Flushed}
use cdump.Pool.Prepare.{with_new, writing}

-- There is no file, or the latest one would be beyond the limit with `size` bytes more.
abbrev pub PastLimit : ℕ → ℕ → List File → Type 0
PastLimit size limit [] = Unit {0}
PastLimit size limit (f ∷ fs) = limit < (f.size + size) % 2 ^ 32

-- The new latest file of a pool, with the next number, empty and open for writing.
abbrev pub new_front : Pool → Pool
new_front pool = with_new pool.dir pool.writable pool.limit pool.files pool.write_pos

-- The latest file, opened for writing again.
abbrev pub old_front : Pool → File → List File → Pool
old_front pool f fs =
    pool_of (append (data_name f.pos) [] pool.dir) pool.writable pool.limit false (writing f ∷ fs)
      true pool.write_pos

-- The four outcomes of `prepare_write`, with the conditions under which each is due. In a dirty
-- pool the session goes on within the limit, and beyond it the pool is flushed before a new file is
-- made. In a clean pool a new file is made at the first write with `newfile`, without a file, or
-- beyond the limit; otherwise the latest file is opened again.
pub data Chosen (size : ℕ) (pool pool' : Pool) : Type 0 where
  goes_on :
      pool.dirty ≡ true
      → (pool.write_pos + size) % 2 ^ 32 ≤ pool.limit
      → pool' ≡ pool
      → Chosen size pool pool'
  starts_over :
      pool.dirty ≡ true
      → pool.limit < (pool.write_pos + size) % 2 ^ 32
      → (q : Pool) → flush pool ≡ ok q
      → Flushed pool q
      → pool' ≡ new_front q
      → Chosen size pool pool'
  opens_new :
      pool.dirty ≡ false
      → (pool.first_newfile ≡ true) ⊎ PastLimit size pool.limit pool.files
      → pool' ≡ new_front pool
      → Chosen size pool pool'
  opens_old :
      pool.dirty ≡ false
      → pool.first_newfile ≡ false
      → (f : File) (fs : List File) → pool.files ≡ f ∷ fs
      → (f.size + size) % 2 ^ 32 ≤ pool.limit
      → pool' ≡ old_front pool f fs
      → Chosen size pool pool'
