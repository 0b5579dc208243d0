-- ===== src/Index/Blocks.antt =====
-- What `load` reads where `save` wrote a block.
use cdump.Prelude.{
  ℕ, ◌+◌, ◌*◌, ◌≡◌, refl, ap, ◌∙◌, List, [], ◌∷◌, ◌++◌, ok, arith, length, length-append,
  take-append, drop-append, All, ltb, false,
}
use cdump.Bytes.{IsWord, le_bytes, le_value, length-le_bytes, le_value-le_bytes}
use cdump.Kind.{Kind, textual, load_kind}
use cdump.Oid.{Oid, IsOid}
use cdump.Index.Kinds.{IsKind}
use cdump.Index.Save.{write_words, write_oids, write_names}
use cdump.Index.Load.{read, words, oids, names}

pub read-append : (xs ys : List ℕ) (n : ℕ) → length xs ≡ n → read n (xs ++ ys) ≡ ok (xs, ys)
unfolding read
read-append xs ys n h =
    rw (length-append, h, enough, take-append xs ys n h, drop-append xs ys n h) refl
  where
    enough : ltb (n + length ys) n ≡ false
    enough = ground arith

pub words-write_words : (ws : List ℕ) → All IsWord ws → words (length ws) (write_words ws) ≡ ws
unfolding words write_words
words-write_words [] h = refl
words-write_words (w ∷ ws) h =
    rw
      (
        take-append (le_bytes 4 w) (write_words ws) 4 (length-le_bytes 4 w),
        drop-append (le_bytes 4 w) (write_words ws) 4 (length-le_bytes 4 w),
        le_value-le_bytes 4 w (omega arith),
      )
      (ap (λ t. w ∷ t) (words-write_words ws h.1))

pub length-write_words : (ws : List ℕ) → length (write_words ws) ≡ length ws * 4
unfolding write_words
length-write_words [] = refl
length-write_words (w ∷ ws) =
    length-append (le_bytes 4 w) (write_words ws)
    ∙ omega (arith, length-le_bytes 4 w, length-write_words ws)

pub oids-write_oids : (os : List Oid) → All IsOid os → oids (length os) (write_oids os) ≡ os
unfolding oids write_oids
oids-write_oids [] h = refl
oids-write_oids (o ∷ os) h =
    rw
      (take-append o.raw (write_oids os) 20 h.0.size, drop-append o.raw (write_oids os) 20 h.0.size)
      (ap (λ t. o ∷ t) (oids-write_oids os h.1))

pub length-write_oids : (os : List Oid) → All IsOid os → length (write_oids os) ≡ length os * 20
unfolding write_oids
length-write_oids [] h = refl
length-write_oids (o ∷ os) h =
    length-append o.raw (write_oids os) ∙ omega (arith, h.0.size, length-write_oids os h.1)

length-textual : (k : Kind) → length (textual k) ≡ 4
unfolding textual
length-textual k = length-le_bytes 4 k.raw

load_kind-textual : (k : Kind) (rest : List ℕ) → IsKind k → load_kind (textual k ++ rest) ≡ k
unfolding load_kind
load_kind-textual k rest h =
    ap (λ w. record { raw = w })
      (ap le_value (take-append (textual k) rest 4 (length-textual k)) ∙ value)
  where
    value : le_value (textual k) ≡ k.raw
    value = unfold textual in le_value-le_bytes 4 k.raw (omega arith)

pub names-write_names : (ks : List Kind) → All IsKind ks → names (length ks) (write_names ks) ≡ ks
unfolding names write_names
names-write_names [] h = refl
names-write_names (k ∷ ks) h =
    rw
      (
        load_kind-textual k (write_names ks) h.0,
        drop-append (textual k) (write_names ks) 4 (length-textual k),
      )
      (ap (λ t. k ∷ t) (names-write_names ks h.1))

pub length-write_names : (ks : List Kind) → length (write_names ks) ≡ length ks * 4
unfolding write_names textual
length-write_names [] = refl
length-write_names (k ∷ ks) =
    length-append (le_bytes 4 k.raw) (write_names ks)
    ∙ omega (arith, length-le_bytes 4 k.raw, length-write_names ks)
