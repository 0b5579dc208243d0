-- ===== src/ChunkTest/Tracked.antt =====
-- What the unit test's tracker has once chunks were added.
use cdump.Prelude.{
  ℕ, ◌+◌, ◌%◌, ◌^◌, ◌≤◌, ◌<◌, ◌≡◌, ◌≢◌, refl, sym, ap, subst, ◌∙◌, Option, none, some,
  some-injective, List, [], ◌∷◌, ◌++◌, append-nil, length, ok, arith, All, All-map,
}
use cdump.Bytes.{IsWord}
use cdump.Kind.{Kind, load_kind}
use cdump.Oid.{Oid, IsOid}
use cdump.Oid.Laws.{number, number_injective}
use cdump.Chunk.{Zlib, IsZlib, chunk_kind, chunk_oid, size, try_compress}
use cdump.Chunk.Format.{header_size, padded}
use cdump.Chunk.Written.{
  settled, payload_of, uclen_of, write-untried, length-image, try_compress-shorter,
}
use cdump.ChunkTest.{Info, add, store, tellp}
use cdump.ChunkTest.Placed.{tracker, IsPlaced, Chain}
use cdump.ChunkTest.Grown.{IsPlaced-append, Chain-append}
use cdump.ChunkTest.Stored.{IsFresh, store-Perm, store-All}
use cdump.Index.Keys.{Has}
use cdump.Pool.Image.{image_of, image-IsImage}
use cdump.Tutil.{make_random_string}
use cdump.Tutil.Text.{blob, hash, make_random_string-length, make_random_chunk-untried}
use mathlib.Core.List.{Perm}
use mathlib.Core.List.Perm

-- What the unit test takes for granted: a digest has 20 bytes, no two of the texts have the same, and zlib
-- has no other error on them than a lack of space.
pub record IsFit (sha1 : List ℕ → List ℕ) (z : Zlib) (sizes : List ℕ) : Type 0 where
  pub twenty : (text : List ℕ) → IsOid (hash sha1 text)
  pub apart :
      (s t : ℕ) (a b : List ℕ)
      → Has s sizes
      → Has t sizes
      → make_random_string s s ≡ some a
      → make_random_string t t ≡ some b
      → hash sha1 a ≡ hash sha1 b
      → a ≡ b
  pub tries :
      (s : ℕ) (text : List ℕ)
      → Has s sizes
      → make_random_string s s ≡ some text
      → (r : Option (List ℕ)) × (try_compress z text ≡ ok r)

pub length-text : (s : ℕ) (text : List ℕ) → make_random_string s s ≡ some text → length text ≡ s
length-text s text h =
    let (buf, got, size) = make_random_string-length s s in
    ap length (some-injective text buf (sym h ∙ got)) ∙ size

blob-IsWord : IsWord blob.raw
unfolding load_kind
blob-IsWord = omega arith

at_end : (e : Oid × Info) (log : List (Oid × Info)) → Perm (e ∷ log) (log ++ (e ∷ []))
at_end e [] = Perm.rfl
at_end e (d ∷ log) = Perm.trans (Perm.swap d e log) (Perm.cons d (at_end e log))

-- The entry is that of a text of the sizes below a bound.
abbrev pub IsText : (List ℕ → List ℕ) → List ℕ → ℕ → Oid × Info → Type 0
IsText sha1 sizes low e =
    (s : ℕ) × (text : List ℕ) × Has s sizes
    × (s < low)
    × (make_random_string s s ≡ some text)
    × (e.0 ≡ hash sha1 text)

pub record Tracks (sha1 : List ℕ → List ℕ) (z : Zlib) (sizes : List ℕ) (low : ℕ)
    (stored : List (Oid × Info)) (buf : List ℕ) : Type 0 where
  pub log : List (Oid × Info)
  pub chain : Chain z buf 0 log
  pub perm : Perm stored log
  pub placed : All (λ e. (n : ℕ) × IsPlaced z buf e n) stored
  pub texts : All (IsText sha1 sizes low) stored

settled-kind :
    (kind : Kind) (oid : Oid) (text : List ℕ) (r : Option (List ℕ))
    → chunk_kind (settled kind oid text r) ≡ kind
unfolding chunk_kind
settled-kind kind oid text none = refl
settled-kind kind oid text (some out) = refl

settled-oid :
    (kind : Kind) (oid : Oid) (text : List ℕ) (r : Option (List ℕ))
    → chunk_oid (settled kind oid text r) ≡ oid
unfolding chunk_oid
settled-oid kind oid text none = refl
settled-oid kind oid text (some out) = refl

settled-size :
    (kind : Kind) (oid : Oid) (text : List ℕ) (r : Option (List ℕ))
    → size (settled kind oid text r) ≡ length text
unfolding size
settled-size kind oid text none = refl
settled-size kind oid text (some out) = refl

module _ (sha1 : List ℕ → List ℕ) (z : Zlib) (beyond sizes : List ℕ) (lawful : IsZlib z)
    (room : 14 ≤ length beyond) (fit : IsFit sha1 z sizes) where
  module _ (s : ℕ) (text : List ℕ) (member : Has s sizes)
      (made : make_random_string s s ≡ some text) (small : s < 2 ^ 31) (r : Option (List ℕ))
      (compressed : try_compress z text ≡ ok r) (stored : List (Oid × Info)) (buf : List ℕ)
      (space : length buf < 2 ^ 32) where
    abbrev pub image : List ℕ
    image = image_of beyond (hash sha1 text) (blob, text) r

    abbrev pub added : Info
    added = record { chunk = settled blob (hash sha1 text) text r; offset = length buf }

    oid-twenty : IsOid (hash sha1 text)
    oid-twenty = fit.twenty text

    text_size : length text ≡ s
    text_size = length-text s text made

    pub add-lem :
        add sha1 z beyond s s (tracker stored buf)
        ≡ ok (tracker (store (hash sha1 text) added stored) (buf ++ image))
    unfolding add tellp
    add-lem =
        rw
          (
            add,
            make_random_chunk-untried sha1 s s text made,
            write-untried z beyond blob (hash sha1 text) text r compressed,
            offset,
          )
          refl
      where
        offset : length buf % 2 ^ 32 ≡ length buf
        offset = omega (arith, space)

    pub image_size : (0 < length image) × (length image < s + 64)
    unfolding padded
    image_size = (
      omega (arith, sized, shorter, text_size, small),
      omega (arith, sized, shorter, text_size, small),
    )
      where
        shorter : length (payload_of text r) ≤ length text
        shorter = try_compress-shorter z text r lawful compressed

        sized : length image ≡ padded (header_size + length (payload_of text r))
        sized =
            length-image beyond blob (hash sha1 text) (uclen_of text r) (payload_of text r)
              oid-twenty room (omega (arith, shorter, text_size, small))

    added-IsPlaced : IsPlaced z (buf ++ image) (hash sha1 text, added) (length image)
    added-IsPlaced = record {
      text = text;
      place = record {
        front = buf;
        out = image;
        back = [];
        cut = ap (λ l. buf ++ l) (sym (append-nil image));
        starts = refl;
        image =
            image-IsImage z beyond blob (hash sha1 text) text lawful oid-twenty blob-IsWord
              (omega (arith, text_size, small)) room r compressed;
      };
      twenty = oid-twenty;
      same_kind = settled-kind blob (hash sha1 text) text r;
      same_oid = settled-oid blob (hash sha1 text) text r;
      same_size = settled-size blob (hash sha1 text) text r;
      measured = refl;
      written = image_size.0;
    }

    fresh :
        (low : ℕ) → low ≤ s → Tracks sha1 z sizes low stored buf → IsFresh (hash sha1 text) stored
    fresh low le tr = All-map (IsText sha1 sizes low) _ stored other tr.texts
      where
        other :
            (e : Oid × Info)
            → IsText sha1 sizes low e
            → IsOid e.0 × (number e.0 ≢ number (hash sha1 text))
        other e (t, b, there, below, built, is) = (
          subst IsOid (sym is) (fit.twenty b),
          λ same.
              let one = fit.apart t s b text there member built made (
                number_injective _ _ (fit.twenty b) (fit.twenty text)
                  (ap number (sym is) ∙ same)) in
              omega (arith, below, le, length-text t b built, text_size, ap length one),
        )

    pub add-Tracks :
        (low : ℕ)
        → low ≤ s
        → Tracks sha1 z sizes low stored buf
        → Tracks sha1 z sizes (s + 1) (store (hash sha1 text) added stored) (buf ++ image)
    add-Tracks low le tr =
        let new = fresh low le tr in
        record {
          log = tr.log ++ ((hash sha1 text, added) ∷ []);
          chain =
              Chain-append z buf image 0 tr.log (hash sha1 text, added) added-IsPlaced refl
                tr.chain;
          perm =
              Perm.trans
                (Perm.trans (store-Perm (hash sha1 text) added oid-twenty stored new)
                  (Perm.cons (hash sha1 text, added) tr.perm))
                (at_end (hash sha1 text, added) tr.log);
          placed =
              store-All (hash sha1 text) added oid-twenty
                (λ e. (n : ℕ) × IsPlaced z (buf ++ image) e n) stored new
                (length image, added-IsPlaced)
                (All-map (λ e. (n : ℕ) × IsPlaced z buf e n) _ stored
                  (λ e (n, p). (n, IsPlaced-append z buf image e n p)) tr.placed);
          texts =
              store-All (hash sha1 text) added oid-twenty (IsText sha1 sizes (s + 1)) stored new
                (s, text, member, omega arith, made, refl)
                (All-map (IsText sha1 sizes low) _ stored
                  (λ e (t, b, there, below, built, is).
                    (t, b, there, omega (arith, below, le), built, is))
                  tr.texts);
        }
