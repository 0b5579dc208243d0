-- ===== src/Chunk/Format.antt =====
-- The chunk's image in a pool file: `write`, `write_size`, `read_header` and `read` of src/chunk.cc.
-- The machine is little-endian. `int` and `unsigned` values are their 32-bit patterns.
use cdump.Prelude.{
  ℕ, ◌+◌, ◌-◌, ◌*◌, ◌/◌, ◌%◌, ◌^◌, Bool, true, false, Option, none, some, List, [], ◌∷◌, ◌++◌,
  Ordering, Outcome, ok, throw, runtime_error, pointer_to, ◌>>=◌, take, drop, codes, ◌==◌,
  if◌then◌else◌,
}
use cdump.Bytes.{le_bytes, le_value, memcmp}
use cdump.Kind.{Kind, textual, load_kind}
use cdump.Oid.{Oid}
use cdump.Chunk.{
  Zlib, Chunk, plain, compressed, Stream, chunk_kind, chunk_oid, size, stream_read,
  plain_from_stream, compressed_from_stream, has_zdata, zdata, zsize, chunk_data,
}

abbrev pub magic : List ℕ
magic = codes "adump-pool-v1.1" ++ (10 ∷ [])

-- `Header`: 16 bytes of magic, `clen`, `uclen`, the kind and the identifier.
unfoldable pub header : ℕ → ℕ → Kind → Oid → List ℕ
header clen uclen kind oid =
    magic ++ (le_bytes 4 clen ++ (le_bytes 4 uclen ++ (textual kind ++ oid.raw)))

abbrev pub header_size : ℕ
header_size = 48

-- -1 as an `int32_t`.
abbrev pub minus_one : ℕ
minus_one = 2 ^ 32 - 1

-- `(size + 15) & ~15`
unfoldable pub padded : ℕ → ℕ
padded n = (n + 15) % 2 ^ 32 / 16 * 16

-- `15 & -payload_len`
unfoldable pub pad_len : ℕ → ℕ
pad_len n = (2 ^ 32 - n % 2 ^ 32) % 2 ^ 32 % 16

module _ (z : Zlib) where
  -- `Chunk::write`: the bytes that it appends. `beyond` is the memory behind the array `padding`, which
  -- has one byte while up to 15 are written from it.
  unfoldable pub write : List ℕ → Chunk → Outcome (List ℕ × Chunk)
  unfolding header pad_len
  write beyond c = do
    (b, c) ← has_zdata z c
    (payload, c) ← if b then zdata z c else chunk_data z c
    (payload_len, c) ← if b then zsize z c else ok (size c, c)
    let head = header payload_len (if b then size c else minus_one) (chunk_kind c) (chunk_oid c)
    ok (head ++ (take payload_len payload ++ take (pad_len payload_len) (0 ∷ beyond)), c)

  -- `Chunk::write_size`
  unfoldable pub write_size : Chunk → Outcome (ℕ × Chunk)
  unfolding padded
  write_size c = do
    (b, c) ← has_zdata z c
    (payload_len, c) ← if b then zsize z c else ok (size c, c)
    ok (padded (header_size + payload_len), c)

pub record HeaderInfo : Type 0 where
  pub kind : Kind
  pub oid : Oid
  pub size : ℕ
  pub stored_size : ℕ

-- `memcmp(head.magic, magic, magic_size) != 0`
unfoldable pub bad_magic : List ℕ → Bool
unfolding memcmp
bad_magic head = elim (memcmp (take 16 head) magic) [ Ordering.eq ↦ false | _ ↦ true ]

-- The fields of a header in memory.
unfoldable pub head_clen : List ℕ → ℕ
unfolding le_value
head_clen head = le_value (take 4 (drop 16 head))

unfoldable pub head_uclen : List ℕ → ℕ
unfolding le_value
head_uclen head = le_value (take 4 (drop 20 head))

unfoldable pub head_kind : List ℕ → Kind
unfolding load_kind
head_kind head = load_kind (drop 24 head)

unfoldable pub head_oid : List ℕ → Oid
head_oid head = record { raw = take 20 (drop 28 head) }

-- `Chunk::read_header`; `none` is the answer false. `stale` is what the stack holds where the header
-- is read to.
unfoldable pub read_header : List ℕ → Stream → Option HeaderInfo × Stream
unfolding stream_read bad_magic head_clen head_uclen head_kind head_oid padded
read_header stale s =
    let (head, s') = stream_read stale s in
    if bad_magic head then (none, s') else (
      some (record {
        kind = head_kind head;
        oid = head_oid head;
        size = if head_uclen head == minus_one then head_clen head else head_uclen head;
        stored_size = padded (header_size + head_clen head);
      }),
      s',
    )

-- `Chunk::read`
unfoldable pub read : List ℕ → Stream → Outcome (Chunk × Stream)
unfolding stream_read bad_magic head_clen head_uclen head_kind head_oid
read stale s =
    let (head, s') = stream_read stale s in
    if bad_magic head
    then throw (pointer_to (runtime_error "Incorrect chunk header"))
    else if head_uclen head == minus_one
    then (let (c, s'') = plain_from_stream (head_kind head) (head_oid head) s' (head_clen head) in
        ok (plain c, s''))
    else (let (c, s'') =
          compressed_from_stream (head_kind head) (head_oid head) s' (head_uclen head)
            (head_clen head) in
        ok (compressed c, s''))
