-- ===== src/ChunkTest/Grown.antt =====
-- What lies in the stream stays there when it grows.
use cdump.Prelude.{
  ℕ, ◌+◌, ◌≡◌, refl, sym, ◌∙◌, List, [], ◌∷◌, ◌++◌, append_assoc, length, length-append, arith,
}
use cdump.Oid.{Oid}
use cdump.Chunk.{Zlib}
use cdump.ChunkTest.{Info}
use cdump.ChunkTest.Placed.{IsPlaced, Chain}

pub IsPlaced-append :
    (z : Zlib) (buf tail : List ℕ) (e : Oid × Info) (n : ℕ)
    → IsPlaced z buf e n
    → IsPlaced z (buf ++ tail) e n
IsPlaced-append z buf tail e n p = record {
  text = p.text;
  place = record {
    front = p.place.front;
    out = p.place.out;
    back = p.place.back ++ tail;
    cut = rw (p.place.cut, append_assoc, append_assoc) refl;
    starts = p.place.starts;
    image = p.place.image;
  };
  twenty = p.twenty;
  same_kind = p.same_kind;
  same_oid = p.same_oid;
  same_size = p.same_size;
  measured = p.measured;
  written = p.written;
}

pub Chain-append :
    (z : Zlib) (buf image : List ℕ) (pos : ℕ) (es : List (Oid × Info)) (e : Oid × Info)
    → IsPlaced z (buf ++ image) e (length image)
    → e.1.offset ≡ length buf
    → Chain z buf pos es
    → Chain z (buf ++ image) pos (es ++ (e ∷ []))
Chain-append z buf image pos [] e p o c =
    (o ∙ sym c, (length image, p, omega (arith, c, length-append buf image)))
Chain-append z buf image pos (d ∷ es) e p o (first, (n, q, c)) =
    (first, (n, IsPlaced-append z buf image d n q, Chain-append z buf image (pos + n) es e p o c))
