-- ===== src/Tests/Chunks.antt =====
-- A chunk through a toy zlib that stores what fits.
use cdump.Prelude.{
  ℕ, ◌+◌, ◌%◌, ◌≤◌, ◌<◌, ◌≡◌, refl, false, inl, inr, Bool-cases, List, ◌++◌, some, ok, arith,
  replicate, length, leb, if◌then◌else◌, codes,
}
use cdump.Chunk.{
  Zlib, IsZlib, ZResult, z_ok, z_buf_error, Chunk, chunk_kind, chunk_oid, size, chunk_data,
  try_compress,
}
use cdump.Chunk.Format.{header_size, write, write_size, read, read_header}
use cdump.Chunk.Written.{untried}
use cdump.Chunk.Bounds.{write_size-bounds}
use cdump.Chunk.RoundTrip.{read-write, read_header-write}
use cdump.Tests.Values.{oid, oid-IsOid, blob}

abbrev stored : List ℕ → ℕ → ZResult
stored src n = if leb (length src) n then z_ok src else z_buf_error

abbrev pub toy : Zlib
toy = record { compress2 = stored; uncompress = stored }

stored_src : (src out : List ℕ) (n : ℕ) → stored src n ≡ z_ok out → (out ≡ src) × (length src ≤ n)
stored_src src out n h = elim (Bool-cases (leb (length src) n)) [
  | inl e ↦ (z_ok_inj (rw e at h), ground arith)
  | inr e ↦ absurd (apart (rw e at h))
]
  where
    z_ok_inj : z_ok src ≡ z_ok out → out ≡ src
    z_ok_inj e = cc

    apart : z_buf_error ≡ z_ok out → ⊥
    apart e = cc

pub toy-IsZlib : IsZlib toy
toy-IsZlib = record {
  fits = λ src out n h. let (e, le) = stored_src src out n h in rw e le;
  restores = λ src out n m h le. let (e, _) = stored_src src out n h in rw e (stored_fits src m le);
}
  where
    stored_fits : (src : List ℕ) (m : ℕ) → length src ≤ m → stored src m ≡ z_ok src
    stored_fits src m le = ground arith

-- Twenty bytes are long enough for an attempt to compress them.
abbrev pub text : List ℕ
text = replicate 20 b'a'

abbrev pub stale : List ℕ
stale = replicate 48 255

abbrev pub beyond : List ℕ
beyond = replicate 14 170

abbrev behind : List ℕ
behind = codes "behind"

pub text_stored : try_compress toy text ≡ ok (some text)
unfolding try_compress
text_stored = refl

read-write_example :
    (out pad : List ℕ) × (c d e : Chunk) × ((write toy beyond (untried blob (oid 3 1) text)
        ≡ ok (out, c))
      × (write_size toy (untried blob (oid 3 1) text) ≡ ok (length out, c))
      × (read stale (record { rest = out ++ behind; failed = false })
          ≡ ok (d, record { rest = pad ++ behind; failed = false }))
      × (chunk_kind d ≡ blob)
      × (chunk_oid d ≡ oid 3 1)
      × (size d ≡ length text)
      × (length pad < 16)
      × (chunk_data toy d ≡ ok (text, e)))
read-write_example =
    read-write toy stale beyond behind blob (oid 3 1) text toy-IsZlib
      (oid-IsOid 3 1 (omega arith) (omega arith)) (omega arith) (omega arith) (omega arith) refl
      (some text) text_stored

read_header-write_example :
    (out left : List ℕ) × (c : Chunk) × ((write toy beyond (untried blob (oid 3 1) text)
        ≡ ok (out, c))
      × (read_header stale (record { rest = out ++ behind; failed = false }) ≡ (
        some (record { kind = blob; oid = oid 3 1; size = length text; stored_size = length out }),
        record { rest = left; failed = false },
      )))
read_header-write_example =
    read_header-write toy stale beyond behind blob (oid 3 1) text toy-IsZlib
      (oid-IsOid 3 1 (omega arith) (omega arith)) (omega arith) (omega arith) (omega arith) refl
      (some text) text_stored

write_size-bounds_example :
    (size : ℕ) × (c : Chunk) × (write_size toy (untried blob (oid 3 1) text) ≡ ok (size, c))
    × (size % 16 ≡ 0)
    × (header_size ≤ size)
    × (size < header_size + length text + 16)
write_size-bounds_example =
    write_size-bounds toy beyond blob (oid 3 1) text (some text) toy-IsZlib (omega arith)
      text_stored
