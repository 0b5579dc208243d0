-- ===== src/Chunk/Image.antt =====
-- The image of a chunk in a pool file, as a list of bytes, and what `read_header` and `read` make of it.
use cdump.Prelude.{
  ℕ, ◌+◌, ◌^◌, ◌<◌, ◌≡◌, refl, sym, ap, ◌∙◌, false, some, List, [], ◌∷◌, ◌++◌, ok, arith, length,
  length-append, length-replicate, take, take-append, drop-append, take_all, replicate, ltb, ◌==◌,
  if◌then◌else◌, Bool-cases, inl, inr,
}
use cdump.Bytes.{IsWord, le_bytes, le_value-le_bytes, memcmp}
use cdump.Kind.{Kind, textual}
use cdump.Oid.{Oid, IsOid}
use cdump.Chunk.{
  Chunk, plain, compressed, indeterminate, plain_from_stream, compressed_from_stream, stream_read,
}
use cdump.Chunk.Format.{
  header, header_size, minus_one, padded, pad_len, bad_magic, head_clen, head_uclen, head_kind,
  head_oid, read_header, read,
}

pub length-header :
    (clen uclen : ℕ) (kind : Kind) (oid : Oid)
    → IsOid oid
    → length (header clen uclen kind oid) ≡ 48
unfolding header textual le_bytes
length-header clen uclen kind oid v = omega (arith, v.size)

-- The fields of a written header are read back.
module _ (clen uclen : ℕ) (kind : Kind) (oid : Oid) (word : IsWord clen) (uword : IsWord uclen)
    (kword : IsWord kind.raw) (v : IsOid oid) where
  pub good_magic : bad_magic (header clen uclen kind oid) ≡ false
  unfolding bad_magic header memcmp
  good_magic = refl

  pub clen_back : head_clen (header clen uclen kind oid) ≡ clen
  unfolding head_clen header le_bytes
  clen_back = le_value-le_bytes 4 clen (omega arith)

  pub uclen_back : head_uclen (header clen uclen kind oid) ≡ uclen
  unfolding head_uclen header le_bytes
  uclen_back = le_value-le_bytes 4 uclen (omega arith)

  pub kind_back : head_kind (header clen uclen kind oid) ≡ kind
  unfolding head_kind header le_bytes textual
  kind_back = ap (λ w. record { raw = w }) (le_value-le_bytes 4 kind.raw (omega arith))

  pub oid_back : head_oid (header clen uclen kind oid) ≡ oid
  unfolding head_oid header le_bytes textual
  oid_back = ap (λ r. record { raw = r }) (take_all oid.raw 20 v.size)

pub stream_read-append :
    (old xs ys : List ℕ)
    → length xs ≡ length old
    → stream_read old (record { rest = xs ++ ys; failed = false })
      ≡ (xs, record { rest = ys; failed = false })
unfolding stream_read
stream_read-append old xs ys h =
    rw
      (
        length-append,
        h,
        enough (length old) (length ys),
        take-append xs ys (length old) h,
        drop-append xs ys (length old) h,
      )
      refl
  where
    enough : (m n : ℕ) → ltb (m + n) m ≡ false
    enough m n = ground arith

-- The image of a chunk in a file, and the chunk that stands for it when it is read.
abbrev pub pads : List ℕ → ℕ → List ℕ
pads beyond n = take (pad_len n) (0 ∷ beyond)

abbrev pub image : List ℕ → Kind → Oid → ℕ → List ℕ → List ℕ
image beyond kind oid uclen payload =
    header (length payload) uclen kind oid ++ (payload ++ pads beyond (length payload))

abbrev pub read_chunk : Kind → Oid → ℕ → List ℕ → Chunk
read_chunk kind oid uclen payload =
    if uclen == minus_one
    then plain (record {
      kind = kind;
      oid = oid;
      plain_data = payload;
      compressed_data = [];
      zdata_info = indeterminate;
    })
    else compressed (record {
      kind = kind;
      oid = oid;
      data_len = uclen;
      plain_data = [];
      compressed_data = payload;
      is_decompressed = false;
    })

pub read-image :
    (stale payload tail : List ℕ) (kind : Kind) (oid : Oid) (uclen : ℕ)
    → length stale ≡ 48
    → length payload < 2 ^ 31
    → IsWord uclen
    → IsWord kind.raw
    → IsOid oid
    → read stale (record {
      rest = header (length payload) uclen kind oid ++ (payload ++ tail);
      failed = false;
    })
      ≡ ok (read_chunk kind oid uclen payload, record { rest = tail; failed = false })
unfolding read plain_from_stream compressed_from_stream
read-image stale payload tail kind oid uclen hs small uword kword v =
    rw
      (
        stream_read-append stale (header (length payload) uclen kind oid) (payload ++ tail)
            (length-header (length payload) uclen kind oid v ∙ sym hs),
        good_magic (length payload) uclen kind oid word uword kword v,
        clen_back (length payload) uclen kind oid word uword kword v,
        uclen_back (length payload) uclen kind oid word uword kword v,
        kind_back (length payload) uclen kind oid word uword kword v,
        oid_back (length payload) uclen kind oid word uword kword v,
        stream_read-append (replicate (length payload) 0) payload tail
            (sym (length-replicate (length payload) 0)),
      )
      (elim (Bool-cases (uclen == minus_one)) [ inl e ↦ rw e refl | inr e ↦ rw e refl ])
  where
    word : IsWord (length payload)
    word = omega arith

pub read_header-image :
    (stale payload tail : List ℕ) (kind : Kind) (oid : Oid) (uclen : ℕ)
    → length stale ≡ 48
    → length payload < 2 ^ 31
    → IsWord uclen
    → IsWord kind.raw
    → IsOid oid
    → read_header stale (record {
      rest = header (length payload) uclen kind oid ++ (payload ++ tail);
      failed = false;
    })
      ≡ (
        some (record {
          kind = kind;
          oid = oid;
          size = if uclen == minus_one then length payload else uclen;
          stored_size = padded (header_size + length payload);
        }),
        record { rest = payload ++ tail; failed = false },
      )
unfolding read_header
read_header-image stale payload tail kind oid uclen hs small uword kword v =
    rw
      (
        stream_read-append stale (header (length payload) uclen kind oid) (payload ++ tail)
            (length-header (length payload) uclen kind oid v ∙ sym hs),
        good_magic (length payload) uclen kind oid word uword kword v,
        clen_back (length payload) uclen kind oid word uword kword v,
        uclen_back (length payload) uclen kind oid word uword kword v,
        kind_back (length payload) uclen kind oid word uword kword v,
        oid_back (length payload) uclen kind oid word uword kword v,
      )
      refl
  where
    word : IsWord (length payload)
    word = omega arith
