-- ===== src/Chunk/Written.antt =====
-- What `write` and `write_size` do to a chunk of uncompressed data.
use cdump.Prelude.{
  ℕ, ◌+◌, ◌^◌, ◌≤◌, ◌<◌, ◌≡◌, refl, Bool, true, false, Option, none, some, List, [], ok, throw,
  runtime_error, arith, length, length-append, length-take, take_all, ltb, ◌==◌, if◌then◌else◌,
  Bool-cases, inl, inr,
}
use cdump.Kind.{Kind}
use cdump.Oid.{Oid, IsOid}
use cdump.Chunk.{
  Zlib, IsZlib, ZResult, z_ok, z_buf_error, z_error, Chunk, plain, compressed, indeterminate,
  z_untried, z_none, z_some, has_zdata, zdata, zsize, try_compress, chunk_data, chunk_kind,
  chunk_oid, size,
}
use cdump.Chunk.Format.{header_size, minus_one, padded, pad_len, write, write_size}
use cdump.Chunk.Image.{length-header, pads, image, read_chunk}

-- A chunk of uncompressed data that was not yet asked for its compressed data, as `new_plain` makes it.
abbrev pub untried : Kind → Oid → List ℕ → Chunk
untried kind oid text = plain (record {
  kind = kind;
  oid = oid;
  plain_data = text;
  compressed_data = [];
  zdata_info = z_untried;
})

-- What `write` returns for such a chunk, from what `try_compress` returns.
abbrev pub settled : Kind → Oid → List ℕ → Option (List ℕ) → Chunk
settled kind oid text none = plain (record {
  kind = kind;
  oid = oid;
  plain_data = text;
  compressed_data = [];
  zdata_info = z_none;
})
settled kind oid text (some out) = plain (record {
  kind = kind;
  oid = oid;
  plain_data = text;
  compressed_data = out;
  zdata_info = z_some;
})

-- The chunk that was read, after `data`.
abbrev pub opened : Kind → Oid → List ℕ → Option (List ℕ) → Chunk
opened kind oid text none = plain (record {
  kind = kind;
  oid = oid;
  plain_data = text;
  compressed_data = [];
  zdata_info = indeterminate;
})
opened kind oid text (some out) = compressed (record {
  kind = kind;
  oid = oid;
  data_len = length text;
  plain_data = text;
  compressed_data = out;
  is_decompressed = true;
})

abbrev pub payload_of : List ℕ → Option (List ℕ) → List ℕ
payload_of text none = text
payload_of text (some out) = out

abbrev pub uclen_of : List ℕ → Option (List ℕ) → ℕ
uclen_of text none = minus_one
uclen_of text (some out) = length text

module _ (z : Zlib) (beyond : List ℕ) (kind : Kind) (oid : Oid) (text : List ℕ) where
  pub write-untried :
      (r : Option (List ℕ))
      → try_compress z text ≡ ok r
      → write z beyond (untried kind oid text)
        ≡ ok (image beyond kind oid (uclen_of text r) (payload_of text r), settled kind oid text r)
  unfolding write has_zdata zdata zsize chunk_data size chunk_kind chunk_oid
  write-untried none h = rw (h, take_all text (length text) refl) refl
  write-untried (some out) h = rw (h, take_all out (length out) refl) refl

  pub write_size-untried :
      (r : Option (List ℕ))
      → try_compress z text ≡ ok r
      → write_size z (untried kind oid text)
        ≡ ok (padded (header_size + length (payload_of text r)), settled kind oid text r)
  unfolding write_size has_zdata zsize size
  write_size-untried none h = rw h refl
  write_size-untried (some out) h = rw h refl

pub read_chunk-kind :
    (kind : Kind) (oid : Oid) (uclen : ℕ) (payload : List ℕ)
    → chunk_kind (read_chunk kind oid uclen payload) ≡ kind
unfolding chunk_kind
read_chunk-kind kind oid uclen payload = elim (Bool-cases (uclen == minus_one)) [
  | inl e ↦ rw e refl
  | inr e ↦ rw e refl
]

pub read_chunk-size :
    (kind : Kind) (oid : Oid) (uclen : ℕ) (payload : List ℕ)
    → size (read_chunk kind oid uclen payload)
      ≡ (if uclen == minus_one then length payload else uclen)
unfolding size
read_chunk-size kind oid uclen payload = elim (Bool-cases (uclen == minus_one)) [
  | inl e ↦ rw e refl
  | inr e ↦ rw e refl
]

pub read_chunk-oid :
    (kind : Kind) (oid : Oid) (uclen : ℕ) (payload : List ℕ)
    → chunk_oid (read_chunk kind oid uclen payload) ≡ oid
unfolding chunk_oid
read_chunk-oid kind oid uclen payload = elim (Bool-cases (uclen == minus_one)) [
  | inl e ↦ rw e refl
  | inr e ↦ rw e refl
]

pub pads-short : (beyond : List ℕ) (n : ℕ) → length (pads beyond n) < 16
unfolding pad_len
pads-short beyond n = rw length-take (omega arith)

pub length-image :
    (beyond : List ℕ) (kind : Kind) (oid : Oid) (uclen : ℕ) (payload : List ℕ)
    → IsOid oid
    → 14 ≤ length beyond
    → length payload < 2 ^ 31
    → length (image beyond kind oid uclen payload) ≡ padded (header_size + length payload)
unfolding padded pad_len
length-image beyond kind oid uclen payload v room small =
    rw (length-append, length-append, length-header (length payload) uclen kind oid v, length-take)
      (omega arith)

pub compress2_of :
    (z : Zlib) (text out : List ℕ)
    → try_compress z text ≡ ok (some out)
    → z.compress2 text (length text) ≡ z_ok out
unfolding try_compress
compress2_of z text out h = cases (ltb (length text) 16) (z.compress2 text (length text)) h
  where
    cases :
        (b : Bool) (r : ZResult)
        → (if b then ok none else (elim r [
          | z_ok o ↦ ok (some o)
          | z_buf_error ↦ ok none
          | z_error ↦ throw (runtime_error "Error compressing with zlib")
        ]))
          ≡ ok (some out)
        → r ≡ z_ok out
    cases true r e = cc
    cases false (z_ok o) e = cc
    cases false z_buf_error e = cc
    cases false z_error e = cc

pub try_compress-shorter :
    (z : Zlib) (text : List ℕ) (r : Option (List ℕ))
    → IsZlib z
    → try_compress z text ≡ ok r
    → length (payload_of text r) ≤ length text
unfolding try_compress
try_compress-shorter z text none lawful h = omega arith
try_compress-shorter z text (some out) lawful h =
    lawful.fits text out (length text) (compress2_of z text out h)
