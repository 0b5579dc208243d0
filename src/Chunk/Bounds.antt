-- ===== src/Chunk/Bounds.antt =====
-- How many bytes a chunk takes in a pool file.
use cdump.Prelude.{ℕ, ◌+◌, ◌%◌, ◌^◌, ◌≤◌, ◌<◌, ◌≡◌, Option, List, ok, arith, length}
use cdump.Kind.{Kind}
use cdump.Oid.{Oid}
use cdump.Chunk.{Zlib, IsZlib, Chunk, try_compress}
use cdump.Chunk.Format.{header_size, padded, write_size}
use cdump.Chunk.Written.{untried, settled, payload_of, write_size-untried, try_compress-shorter}

padded-bounds :
    (n : ℕ) → n < 2 ^ 31 + 48 → (padded n % 16 ≡ 0) × (n ≤ padded n) × (padded n < n + 16)
unfolding padded
padded-bounds n h = (omega arith, omega arith, omega arith)

-- Let zlib keep its manual's promises, the text be shorter than 2^31 bytes, and `try_compress` not throw
-- on it. Then `write_size` of a new chunk of the text is a multiple of 16, at least the 48 bytes of the
-- header, and never 16 bytes or more over the header and the text, whether the chunk is compressed or not.
pub write_size-bounds :
    (z : Zlib) (beyond : List ℕ) (kind : Kind) (oid : Oid) (text : List ℕ) (r : Option (List ℕ))
    → IsZlib z
    → length text < 2 ^ 31
    → try_compress z text ≡ ok r
    → (size : ℕ) × (c : Chunk) × (write_size z (untried kind oid text) ≡ ok (size, c))
      × (size % 16 ≡ 0)
      × (header_size ≤ size)
      × (size < header_size + length text + 16)
write_size-bounds z beyond kind oid text r lawful small compressed =
    let shorter = try_compress-shorter z text r lawful compressed in
    let (multiple, above, below) =
      padded-bounds (header_size + length (payload_of text r)) (omega (arith, shorter, small)) in
    (
      padded (header_size + length (payload_of text r)),
      settled kind oid text r,
      write_size-untried z beyond kind oid text r compressed,
      multiple,
      omega (arith, above),
      omega (arith, below, shorter),
    )
