-- ===== src/Chunk.antt =====
-- src/chunk.hh and src/chunk.cc: chunks in memory. zlib enters as a parameter.
pub mod Format
pub mod Image
pub mod Written
pub mod RoundTrip
pub mod Bounds
use cdump.Prelude.{
  ℕ, ◌<◌, ◌≤◌, ◌≡◌, Bool, true, false, not, Option, none, some, List, [], ◌++◌, Outcome, ok, throw,
  undefined, runtime_error, ◌>>=◌, length, take, drop, replicate, ltb, ◌==◌, if◌then◌else◌,
}
use cdump.Kind.{Kind}
use cdump.Oid.{Oid, hash_block}

-- What zlib's two calls return: Z_OK with the bytes written, Z_BUF_ERROR, or another code.
pub data ZResult : Type 0 where
  z_ok : List ℕ → ZResult
  z_buf_error z_error : ZResult

-- `compress2` at level 3 and `uncompress`, each of a source and the capacity of the destination.
pub record Zlib : Type 0 where
  pub compress2 : List ℕ → ℕ → ZResult
  pub uncompress : List ℕ → ℕ → ZResult

-- zlib's manual: a call writes at most the capacity, and `uncompress` restores what was compressed
-- into a destination that is large enough.
pub record IsZlib (z : Zlib) : Type 0 where
  pub fits : (src out : List ℕ) (n : ℕ) → z.compress2 src n ≡ z_ok out → length out ≤ n
  pub restores :
      (src out : List ℕ) (n m : ℕ)
      → z.compress2 src n ≡ z_ok out
      → length src ≤ m
      → z.uncompress out m ≡ z_ok src

-- `ZDataInfo`; the constructor that reads a file leaves the field as it finds the memory.
pub data ZDataInfo : Type 0 where
  z_untried z_none z_some indeterminate : ZDataInfo

pub record PlainChunk : Type 0 where
  pub kind : Kind
  pub oid : Oid
  pub plain_data : List ℕ
  pub compressed_data : List ℕ
  pub zdata_info : ZDataInfo

pub record CompressedChunk : Type 0 where
  pub kind : Kind
  pub oid : Oid
  pub data_len : ℕ
  pub plain_data : List ℕ
  pub compressed_data : List ℕ
  pub is_decompressed : Bool

-- `Chunk` and its two classes.
pub data Chunk : Type 0 where
  plain : PlainChunk → Chunk
  compressed : CompressedChunk → Chunk

unfoldable pub chunk_kind : Chunk → Kind
chunk_kind (plain c) = c.kind
chunk_kind (compressed c) = c.kind

unfoldable pub chunk_oid : Chunk → Oid
chunk_oid (plain c) = c.oid
chunk_oid (compressed c) = c.oid

-- `size()`
unfoldable pub size : Chunk → ℕ
size (plain c) = length c.plain_data
size (compressed c) = c.data_len

-- An input stream: the bytes that are left, and whether it has failed.
pub record Stream : Type 0 where
  pub rest : List ℕ
  pub failed : Bool

-- `in.read` into memory that holds `old`: a short read stores what there is.
unfoldable pub stream_read : List ℕ → Stream → List ℕ × Stream
stream_read old s =
    if s.failed
    then (old, s)
    else if ltb (length s.rest) (length old)
    then (s.rest ++ drop (length s.rest) old, record { rest = []; failed = true })
    else (take (length old) s.rest, record { rest = drop (length old) s.rest; failed = false })

-- `PlainChunk(kind, data, data_len)`
unfoldable pub new_plain : (List ℕ → List ℕ) → Kind → List ℕ → ℕ → PlainChunk
new_plain sha1 kind text data_len = record {
  kind = kind;
  oid = hash_block sha1 kind text data_len;
  plain_data = take data_len text;
  compressed_data = [];
  zdata_info = z_untried;
}

-- `PlainChunk(kind, oid, in, data_len)`
unfoldable pub plain_from_stream : Kind → Oid → Stream → ℕ → PlainChunk × Stream
unfolding stream_read
plain_from_stream kind oid s data_len =
    let (block, s') = stream_read (replicate data_len 0) s in
    (
      record {
        kind = kind;
        oid = oid;
        plain_data = block;
        compressed_data = [];
        zdata_info = indeterminate;
      },
      s',
    )

-- `CompressedChunk(kind, oid, in, data_len, zdata_len)`
unfoldable pub compressed_from_stream : Kind → Oid → Stream → ℕ → ℕ → CompressedChunk × Stream
unfolding stream_read
compressed_from_stream kind oid s data_len zdata_len =
    let (block, s') = stream_read (replicate zdata_len 0) s in
    (
      record {
        kind = kind;
        oid = oid;
        data_len = data_len;
        plain_data = [];
        compressed_data = block;
        is_decompressed = false;
      },
      s',
    )

module _ (z : Zlib) where
  -- `try_compress`, into a buffer of the source's length; `none` is the answer -1.
  unfoldable pub try_compress : List ℕ → Outcome (Option (List ℕ))
  try_compress src = if ltb (length src) 16 then ok none else (elim (z.compress2 src (length src)) [
    | z_ok out ↦ ok (some out)
    | z_buf_error ↦ ok none
    | z_error ↦ throw (runtime_error "Error compressing with zlib")
  ])

  -- `decompress`
  unfoldable pub decompress : List ℕ → ℕ → Outcome (List ℕ)
  decompress src dest_len = elim (z.uncompress src dest_len) [
    | z_ok out ↦
        if length out == dest_len
        then ok out
        else throw (runtime_error "Error decompressing with zlib")
    | z_buf_error ↦ throw (runtime_error "Error decompressing with zlib")
    | z_error ↦ throw (runtime_error "Error decompressing with zlib")
  ]

  -- The end of `PlainChunk::has_zdata`, after an attempt to compress.
  unfoldable pub tried : PlainChunk → Option (List ℕ) → Bool × PlainChunk
  tried c none = (false, record c { zdata_info = z_none; compressed_data = [] })
  tried c (some out) = (true, record c { zdata_info = z_some; compressed_data = out })

  -- `PlainChunk::has_zdata`, with the chunk afterwards.
  unfoldable pub plain_has_zdata : PlainChunk → Outcome (Bool × PlainChunk)
  unfolding try_compress tried
  plain_has_zdata c = elim c.zdata_info [
    | z_none ↦ ok (false, c)
    | z_some ↦ ok (true, c)
    | z_untried ↦ (do r ← try_compress c.plain_data; ok (tried c r))
    | indeterminate ↦ undefined
  ]

  unfoldable pub has_zdata : Chunk → Outcome (Bool × Chunk)
  unfolding plain_has_zdata
  has_zdata (plain c) = do (b, c') ← plain_has_zdata c; ok (b, plain c')
  has_zdata (compressed c) = ok (true, compressed c)

  -- `PlainChunk::zdata` and `zsize`, of which the second is the length of the first.
  unfoldable pub zdata : Chunk → Outcome (List ℕ × Chunk)
  unfolding plain_has_zdata
  zdata (plain c) = do
    (b, c') ← plain_has_zdata c
    if b
        then ok (c'.compressed_data, plain c')
        else throw (runtime_error "Attempt to get zdata from incompressible chunk")
  zdata (compressed c) = ok (c.compressed_data, compressed c)

  unfoldable pub zsize : Chunk → Outcome (ℕ × Chunk)
  unfolding plain_has_zdata
  zsize (plain c) = do
    (b, c') ← plain_has_zdata c
    if b
        then ok (length c'.compressed_data, plain c')
        else throw (runtime_error "Attempt to get zsize from incompressible chunk")
  zsize (compressed c) = ok (length c.compressed_data, compressed c)

  -- `data()`, which keeps what it decompressed.
  unfoldable pub chunk_data : Chunk → Outcome (List ℕ × Chunk)
  unfolding decompress
  chunk_data (plain c) = ok (c.plain_data, plain c)
  chunk_data (compressed c) = if c.is_decompressed then ok (c.plain_data, compressed c) else (do
    out ← decompress c.compressed_data c.data_len
    ok (out, compressed (record c { plain_data = out; is_decompressed = true })))
