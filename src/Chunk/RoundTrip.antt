-- ===== src/Chunk/RoundTrip.antt =====
-- A chunk that is written to a stream is read back with the same contents.
use cdump.Prelude.{
  ℕ, ◌^◌, ◌≤◌, ◌<◌, ◌≡◌, ◌∙◌, refl, sym, true, false, Option, none, some, List, [], ◌++◌, ok, arith,
  length, append_assoc, ◌==◌, if◌then◌else◌,
}
use cdump.Bytes.{IsWord}
use cdump.Kind.{Kind}
use cdump.Oid.{Oid, IsOid}
use cdump.Chunk.{
  Zlib, IsZlib, Chunk, compressed, try_compress, decompress, chunk_data, chunk_kind, chunk_oid,
  size,
}
use cdump.Chunk.Format.{header, minus_one, write, write_size, read_header, read}
use cdump.Chunk.Image.{pads, image, read_chunk, read-image, read_header-image}
use cdump.Chunk.Written.{
  untried, settled, opened, payload_of, uclen_of, write-untried, write_size-untried,
  read_chunk-kind, read_chunk-oid, read_chunk-size, pads-short, length-image, compress2_of,
  try_compress-shorter,
}

-- A written chunk is read back.
module _ (z : Zlib) (stale beyond rest : List ℕ) (kind : Kind) (oid : Oid) (text : List ℕ)
    (lawful : IsZlib z) (v : IsOid oid) (kword : IsWord kind.raw) (small : length text < 2 ^ 31)
    (room : 14 ≤ length beyond) (frame : length stale ≡ 48) where
  data_back :
      (r : Option (List ℕ))
      → try_compress z text ≡ ok r
      → chunk_data z (read_chunk kind oid (uclen_of text r) (payload_of text r))
        ≡ ok (text, opened kind oid text r)
  unfolding chunk_data decompress
  data_back none h = refl
  data_back (some out) h =
      rw
        (
          sealed,
          chunk_data,
          decompress,
          lawful.restores text out (length text) (length text) (compress2_of z text out h)
              (omega arith),
          same (length text),
        )
        refl
    where
      distinct : (length text == minus_one) ≡ false
      distinct = ground arith

      sealed :
          read_chunk kind oid (length text) out
          ≡ compressed (record {
            kind = kind;
            oid = oid;
            data_len = length text;
            plain_data = [];
            compressed_data = out;
            is_decompressed = false;
          })
      sealed = rw distinct refl

      same : (n : ℕ) → (n == n) ≡ true
      same n = ground arith

  split :
      (uclen : ℕ) (payload : List ℕ)
      → image beyond kind oid uclen payload ++ rest
        ≡ header (length payload) uclen kind oid
          ++ (payload ++ (pads beyond (length payload) ++ rest))
  split uclen payload = rw (append_assoc, append_assoc) refl

  short : (r : Option (List ℕ)) → try_compress z text ≡ ok r → length (payload_of text r) < 2 ^ 31
  short r h = omega (arith, try_compress-shorter z text r lawful h)

  size_back :
      (r : Option (List ℕ))
      → try_compress z text ≡ ok r
      → (if uclen_of text r == minus_one then length (payload_of text r) else uclen_of text r)
        ≡ length text
  size_back none h = refl
  size_back (some out) h = rw (text_unmarked) refl
    where
      text_unmarked : (length text == minus_one) ≡ false
      text_unmarked = ground arith

  uclen_IsWord : (r : Option (List ℕ)) → IsWord (uclen_of text r)
  uclen_IsWord none = omega arith
  uclen_IsWord (some out) = omega arith

  -- Let zlib keep its manual's promises, the identifier have 20 bytes, the kind be a 32-bit value, the
  -- text be shorter than 2^31 bytes, 14 bytes lie behind the array `padding`, the
  -- header be read to 48 bytes of memory, and `try_compress` not throw
  -- on the text. Then `write` of a new chunk of the text appends as many bytes as `write_size` says; and
  -- `read` of a stream that starts with these bytes returns a chunk of the same kind and identifier, whose
  -- `size` is the text's length and whose `data` is the text, and leaves the fewer than 16 bytes of padding and what followed the image.
  pub read-write :
      (r : Option (List ℕ))
      → try_compress z text ≡ ok r
      → (out pad : List ℕ) × (c d e : Chunk) × ((write z beyond (untried kind oid text)
            ≡ ok (out, c))
          × (write_size z (untried kind oid text) ≡ ok (length out, c))
          × (read stale (record { rest = out ++ rest; failed = false })
              ≡ ok (d, record { rest = pad ++ rest; failed = false }))
          × (chunk_kind d ≡ kind)
          × (chunk_oid d ≡ oid)
          × (size d ≡ length text)
          × (length pad < 16)
          × (chunk_data z d ≡ ok (text, e)))
  read-write r h = (
    image beyond kind oid (uclen_of text r) (payload_of text r),
    pads beyond (length (payload_of text r)),
    settled kind oid text r,
    read_chunk kind oid (uclen_of text r) (payload_of text r),
    opened kind oid text r,
    (
      write-untried z beyond kind oid text r h,
      rw (length-image beyond kind oid (uclen_of text r) (payload_of text r) v room (short r h))
          (write_size-untried z beyond kind oid text r h),
      rw (split (uclen_of text r) (payload_of text r)) (
          read-image stale (payload_of text r) (pads beyond (length (payload_of text r)) ++ rest)
            kind oid (uclen_of text r) frame (short r h) (uclen_IsWord r) kword v),
      read_chunk-kind kind oid (uclen_of text r) (payload_of text r),
      read_chunk-oid kind oid (uclen_of text r) (payload_of text r),
      read_chunk-size kind oid (uclen_of text r) (payload_of text r) ∙ size_back r h,
      pads-short beyond (length (payload_of text r)),
      data_back r h,
    ),
  )

  -- Under the same conditions `read_header` of a stream that starts with what `write` appended says the
  -- chunk's kind, its identifier, the length of its text, and how many bytes `write` appended;
  -- the read does not fail.
  pub read_header-write :
      (r : Option (List ℕ))
      → try_compress z text ≡ ok r
      → (out behind : List ℕ) × (c : Chunk) × ((write z beyond (untried kind oid text)
            ≡ ok (out, c))
          × (read_header stale (record { rest = out ++ rest; failed = false }) ≡ (
            some (record { kind = kind; oid = oid; size = length text; stored_size = length out }),
            record { rest = behind; failed = false },
          )))
  read_header-write r h = (
    image beyond kind oid (uclen_of text r) (payload_of text r),
    payload_of text r ++ (pads beyond (length (payload_of text r)) ++ rest),
    settled kind oid text r,
    (
      write-untried z beyond kind oid text r h,
      rw
          (
            split (uclen_of text r) (payload_of text r),
            length-image beyond kind oid (uclen_of text r) (payload_of text r) v room (short r h),
            sym (size_back r h),
          )
          (read_header-image stale (payload_of text r)
            (pads beyond (length (payload_of text r)) ++ rest) kind oid (uclen_of text r) frame
            (short r h) (uclen_IsWord r) kword v),
    ),
  )
