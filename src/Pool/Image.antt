-- ===== src/Pool/Image.antt =====
-- The image that `write` makes of a new chunk is the image of its kind and text.
use cdump.Prelude.{
  ℕ, ◌^◌, ◌≤◌, ◌<◌, ◌≡◌, refl, sym, ap, ◌∙◌, Option, List, ◌++◌, ok, ok-injective, length,
  append_assoc,
}
use cdump.Bytes.{IsWord}
use cdump.Kind.{Kind}
use cdump.Oid.{Oid, IsOid}
use cdump.Chunk.{Zlib, IsZlib, Chunk, try_compress}
use cdump.Chunk.Format.{write}
use cdump.Chunk.Image.{image}
use cdump.Chunk.RoundTrip.{read-write, read_header-write}
use cdump.Chunk.Written.{untried, settled, payload_of, uclen_of, write-untried}
use cdump.Pool.View.{Blob, IsImage, StoredAt}

-- The bytes that `write` makes of a new chunk.
abbrev pub image_of : List ℕ → Oid → Blob → Option (List ℕ) → List ℕ
image_of beyond oid (kind, text) r = image beyond kind oid (uclen_of text r) (payload_of text r)

module _ (z : Zlib) (beyond : List ℕ) (kind : Kind) (oid : Oid) (text : List ℕ) (lawful : IsZlib z)
    (v : IsOid oid) (kword : IsWord kind.raw) (small : length text < 2 ^ 31)
    (room : 14 ≤ length beyond) (r : Option (List ℕ)) (h : try_compress z text ≡ ok r) where
  same_out :
      (out : List ℕ) (c : Chunk)
      → write z beyond (untried kind oid text) ≡ ok (out, c)
      → out ≡ image_of beyond oid (kind, text) r
  same_out out c e =
      ap (λ (w : List ℕ × Chunk). w.0)
        (ok-injective (out, c) (image_of beyond oid (kind, text) r, settled kind oid text r)
          (sym e ∙ write-untried z beyond kind oid text r h))

  pub image-IsImage : IsImage z (image_of beyond oid (kind, text) r) oid (kind, text)
  image-IsImage stale rest frame =
      let (out, pad, c, d, e, (wrote, _, got, same_kind, same_oid, same_size, _, text_back)) =
        read-write z stale beyond rest kind oid text lawful v kword small room frame r h in
      let (out', behind, c', (wrote', head)) =
        read_header-write z stale beyond rest kind oid text lawful v kword small room frame r h in
      record {
        chunk = d;
        behind = pad ++ rest;
        got = rw (same_out out c wrote) at got;
        shows = record {
          same_kind = same_kind;
          same_oid = same_oid;
          same_size = same_size;
          opened = e;
          text_back = text_back;
        };
        after_head = behind;
        head = rw (same_out out' c' wrote') at head;
      }

-- What is stored in a file stays where it is when the file grows.
pub StoredAt-append :
    (z : Zlib) (content tail : List ℕ) (offset : ℕ) (key : Oid) (b : Blob)
    → StoredAt z content offset key b
    → StoredAt z (content ++ tail) offset key b
StoredAt-append z content tail offset key b s = record {
  front = s.front;
  out = s.out;
  back = s.back ++ tail;
  cut = rw (s.cut, append_assoc, append_assoc) refl;
  starts = s.starts;
  image = s.image;
}
