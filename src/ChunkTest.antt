-- ===== src/ChunkTest.antt =====
-- test/test_chunk.cc: the unit test of chunks in a stream. A failed assertion is `false`.
pub mod Placed
pub mod Stored
pub mod Grown
pub mod Tracked
pub mod Passed
use cdump.Prelude.{
  ℕ, ◌+◌, ◌-◌, ◌%◌, ◌^◌, Bool, true, false, not, ◌&&◌, Option, none, some, List, [], ◌∷◌, ◌++◌, map,
  drop, length, Outcome, ok, undefined, ◌>>=◌, ltb, ◌==◌, if◌then◌else◌,
}
use cdump.Kind
use cdump.Oid
use cdump.Oid.{Oid, less}
use cdump.Chunk.{Zlib, Chunk, plain, Stream, chunk_kind, chunk_oid, size}
use cdump.Chunk.Format.{HeaderInfo, write, read_header, read}
use cdump.Tutil.{make_random_chunk, build_sizes}

pub record Info : Type 0 where
  pub chunk : Chunk
  pub offset : ℕ

-- `stored`, a `std::map`, is in the order of its keys. `buf` has the bytes that were written and the
-- state of the stream.
pub record ChunkTracker : Type 0 where
  pub stored : List (Oid × Info)
  pub buf : List ℕ
  pub failed : Bool

abbrev pub new_tracker : ChunkTracker
new_tracker = record { stored = []; buf = []; failed = false }

-- `stored[key] = info`
unfoldable pub store : Oid → Info → List (Oid × Info) → List (Oid × Info)
store key info [] = (key, info) ∷ []
store key info (e ∷ stored) =
    let later = store key info stored in
    if less key e.0
    then (key, info) ∷ e ∷ stored
    else if less e.0 key
    then e ∷ later
    else (e.0, info) ∷ stored

-- `unsigned` of `buf.tellp()`, which is -1 when the stream has failed.
unfoldable pub tellp : ChunkTracker → ℕ
tellp t = if t.failed then 2 ^ 32 - 1 else length t.buf % 2 ^ 32

-- `buf.seekg(pos)`, and the stream from there. Beyond the end it fails.
unfoldable pub seekg : ℕ → ChunkTracker → Stream
seekg pos t =
    if t.failed
    then record { rest = []; failed = true }
    else if ltb (length t.buf) pos
    then record { rest = []; failed = true }
    else record { rest = drop pos t.buf; failed = false }

-- The comparison of `std::sort`.
unfoldable pub earlier : Info → Info → Bool
earlier a b = ltb a.offset b.offset

-- The assertions on a header.
unfoldable pub is_header_of : Chunk → HeaderInfo → Bool
is_header_of chunk h =
    Kind.equals h.kind (chunk_kind chunk)
    && Oid.equals h.oid (chunk_oid chunk)
    && h.size == size chunk

module _ (stale : List ℕ) where
  -- The loop of `check_offsets` from `pos` on, with the assertion behind it.
  unfoldable pub offsets_loop : ChunkTracker → List Info → ℕ → Bool × ChunkTracker
  unfolding seekg is_header_of
  offsets_loop t [] pos = (not t.failed && pos == length t.buf, t)
  offsets_loop t (info ∷ byoffset) pos =
      let (res, s) = read_header stale (seekg pos t) in
      let t' = record t { failed = s.failed } in
      if not (pos == info.offset) then (false, t) else (elim res [
        | none ↦ (false, t')
        | some h ↦
            let later = offsets_loop t' byoffset ((pos + h.stored_size) % 2 ^ 32) in
            if is_header_of info.chunk h then later else (false, t')
      ])

  -- `check_offsets`, for a `std::sort`.
  unfoldable pub check_offsets :
      ((Info → Info → Bool) → List Info → List Info) → ChunkTracker → Bool × ChunkTracker
  unfolding offsets_loop
  check_offsets sort t = offsets_loop t (sort earlier (map (λ (e : Oid × Info). e.1) t.stored)) 0

  -- The loop of `check_read`.
  unfoldable pub read_loop : ChunkTracker → List (Oid × Info) → Outcome (Bool × ChunkTracker)
  unfolding seekg
  read_loop t [] = ok (true, t)
  read_loop t (info ∷ stored) = do
    (ch, s) ← read stale (seekg info.1.offset t)
    let t' = record t { failed = s.failed }
    let later = read_loop t' stored
    if Kind.equals (chunk_kind ch) (chunk_kind info.1.chunk) then later else ok (false, t')

  -- `check_read`
  unfoldable pub check_read : ChunkTracker → Outcome (Bool × ChunkTracker)
  unfolding read_loop
  check_read t = read_loop t t.stored

module _ (sha1 : List ℕ → List ℕ) (z : Zlib) (beyond : List ℕ) where
  -- `add`
  unfoldable pub add : ℕ → ℕ → ChunkTracker → Outcome ChunkTracker
  unfolding store tellp
  add size index t = elim (make_random_chunk sha1 size index) [
    | none ↦ undefined
    | some ch ↦ (do
      (image, chunk) ← write z beyond (plain ch)
      ok (record {
        stored = store ch.oid (record { chunk = chunk; offset = tellp t }) t.stored;
        buf = if t.failed then t.buf else t.buf ++ image;
        failed = t.failed;
      }))
  ]

  -- The loop of `IO` over the sizes.
  unfoldable pub add_all : List ℕ → ChunkTracker → Outcome ChunkTracker
  unfolding add
  add_all [] t = ok t
  add_all (size ∷ sizes) t = do t' ← add size size t; add_all sizes t'

  -- `IO`
  unfoldable pub io : List ℕ → ((Info → Info → Bool) → List Info → List Info) → Outcome Bool
  unfolding add_all check_offsets check_read
  io stale sort = do
    t ← add_all build_sizes new_tracker
    let (offsets, t) = check_offsets stale sort t
    (reads, _) ← check_read stale t
    ok (offsets && reads)
