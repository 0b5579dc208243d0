-- ===== src/Oid/Hex.antt =====
-- Hexadecimal text.
use cdump.Prelude.{
  ℕ, suc, ◌+◌, ◌*◌, ◌%◌, ◌-◌, ◌/◌, ◌<◌, ◌≡◌, refl, ap, sym, >>=-assoc, >>=-ok, length-append,
  append_assoc, append-nil, ◌∙◌, List, [], ◌∷◌, ◌++◌, Outcome, ok, throw, invalid_argument, arith,
  length, take, drop, drop-append, All, ◌>>=◌,
}
use native.Mathlib.Nat.{zero-add, add-zero}
use cdump.Bytes.{IsByte}
use cdump.Text.Digits.{digit_char, put_hex-byte}
use cdump.Text.Scan.{scan_hex-digits, scan_hex-bad_pair, scan_hex-minus, IsBadPair}
use cdump.Oid.{
  Oid, IsOid, hash_length, textual_length, hex_byte, hex_loop, from_hex, hex_text, to_hex,
}

pub length-hex_text : (bs : List ℕ) → All IsByte bs → length (hex_text bs) ≡ 2 * length bs
unfolding hex_text
length-hex_text [] h = refl
length-hex_text (b ∷ bs) h = rw (put_hex-byte b h.0) (omega (arith, length-hex_text bs h.1))

module _ (front : List ℕ) (i : ℕ) (at : length front ≡ i * 2) where
  pair : (c d : ℕ) (rest : List ℕ) → take 2 (drop (i * 2) (front ++ c ∷ d ∷ rest)) ≡ c ∷ d ∷ []
  pair c d rest = ap (take 2) (drop-append front (c ∷ d ∷ rest) (i * 2) at)

  hex_byte-put_hex :
      (b : ℕ) (rest : List ℕ)
      → b < 256
      → hex_byte (front ++ digit_char (b / 16) ∷ digit_char (b % 16) ∷ rest) i ≡ ok b
  unfolding hex_byte
  hex_byte-put_hex b rest h =
      rw (pair, scan_hex-digits (b / 16) (b % 16) (omega arith) (omega arith)) (ap ok (omega arith))

hex_loop-step :
    (text : List ℕ) (b : ℕ) (bs : List ℕ) (i n rounds j k : ℕ)
    → hex_byte text i ≡ ok b
    → j ≡ i + 1 + length bs
    → k ≡ suc n
    → hex_loop text (i + 1) n ≡ (hex_loop text (i + 1 + length bs) rounds >>= λ r. ok (bs ++ r))
    → hex_loop text i k ≡ (hex_loop text j rounds >>= λ r. ok (b ∷ bs ++ r))
unfolding hex_loop
hex_loop-step text b bs i n rounds j k read ej ek rest =
    rw (ej, ek, hex_loop, read, rest)
      (>>=-assoc {B = List ℕ} (hex_loop text (i + 1 + length bs) rounds) (λ r. ok (bs ++ r))
        (λ r. ok (b ∷ r)))

-- The rounds over a text that starts with what `to_hex` writes: they read those bytes, and go on
-- behind it.
hex_loop-hex_text :
    (front bs rest : List ℕ) (i rounds : ℕ)
    → All IsByte bs
    → length front ≡ i * 2
    → hex_loop (front ++ (hex_text bs ++ rest)) i (length bs + rounds)
      ≡ (hex_loop (front ++ (hex_text bs ++ rest)) (i + length bs) rounds >>= λ r. ok (bs ++ r))
unfolding hex_text
hex_loop-hex_text front [] rest i rounds h at = rw (zero-add, add-zero) (sym (>>=-ok _))
hex_loop-hex_text front (b ∷ bs) rest i rounds h at = rw (put_hex-byte b h.0) (
    hex_loop-step _ b bs i (length bs + rounds) rounds _ _
      (hex_byte-put_hex front i at b (hex_text bs ++ rest) h.0) (omega arith) (omega arith)
      (rw append_assoc at (
        hex_loop-hex_text (front ++ pair) bs rest (i + 1) rounds h.1
          (omega (arith, length-append front pair)))))
  where
    pair : List ℕ
    pair = digit_char (b / 16) ∷ digit_char (b % 16) ∷ []

abbrev with_front : List ℕ → List ℕ → Outcome Oid
with_front bs r = ok (record { raw = bs ++ r })

-- The same from the start of a 40-character text.
from_hex-hex_text :
    (bs rest : List ℕ) (rounds : ℕ)
    → All IsByte bs
    → length bs + rounds ≡ hash_length
    → length (hex_text bs ++ rest) ≡ textual_length
    → from_hex (hex_text bs ++ rest)
      ≡ (hex_loop (hex_text bs ++ rest) (length bs) rounds >>= λ r. with_front bs r)
unfolding from_hex
from_hex-hex_text bs rest rounds h e l =
    rw (l, ← e, hex_loop-hex_text [] bs rest 0 rounds h refl, zero-add)
      (>>=-assoc {B = List ℕ} (hex_loop (hex_text bs ++ rest) (length bs) rounds)
        (λ r. ok (bs ++ r)) (λ r. ok (record { raw = r })))

-- An identifier of 20 bytes that is written by `to_hex` is read back by the constructor.
pub from_hex-to_hex : (o : Oid) → IsOid o → from_hex (to_hex o) ≡ ok o
unfolding to_hex hex_loop
from_hex-to_hex o v =
    rw (append-nil, append-nil) at
      (from_hex-hex_text o.raw [] 0 v.bytes (omega (arith, v.size))
        (rw append-nil (omega (arith, length-hex_text o.raw v.bytes, v.size))))

pair_at :
    (bs : List ℕ) (c d : ℕ) (rest : List ℕ)
    → All IsByte bs
    → take 2 (drop (length bs * 2) (hex_text bs ++ c ∷ d ∷ rest)) ≡ c ∷ d ∷ []
pair_at bs c d rest h =
    pair (hex_text bs) (length bs) (omega (arith, length-hex_text bs h)) c d rest

-- In a text of 40 characters that starts with fewer than 20 bytes as `to_hex` writes them, a next pair
-- is refused whose first character starts no number, or is a digit that the second, not an x, does not
-- go on.
pub from_hex_bad_pair :
    (bs : List ℕ) (c d : ℕ) (rest : List ℕ)
    → All IsByte bs
    → length bs < hash_length
    → length (hex_text bs ++ c ∷ d ∷ rest) ≡ textual_length
    → IsBadPair c d
    → from_hex (hex_text bs ++ c ∷ d ∷ rest)
      ≡ throw (invalid_argument "Invalid hex character in OID hex string")
unfolding hex_loop hex_byte
from_hex_bad_pair bs c d rest h short l bad =
    let n = 19 - length bs in
    rw
      (
        from_hex-hex_text bs (c ∷ d ∷ rest) (suc n) h (omega arith) l,
        pair_at bs c d rest h,
        scan_hex-bad_pair c d bad,
      )
      refl

minus_byte :
    (bs rest : List ℕ) (d : ℕ)
    → All IsByte bs
    → d < 16
    → hex_byte (hex_text bs ++ b'-' ∷ digit_char d ∷ rest) (length bs) ≡ ok ((256 - d) % 256)
unfolding hex_byte
minus_byte bs rest d hb hd =
    rw (pair_at bs b'-' (digit_char d) rest hb, scan_hex-minus d hd) (ap ok (omega arith))

-- A minus sign in front of a hexadecimal digit is not refused: in a text of 40 characters that `to_hex`
-- could have written otherwise, `-d` at any place reads as the byte 256 - d (0 for `-0`), between bytes
-- that are read as they were written.
pub from_hex_minus :
    (bs cs : List ℕ) (d : ℕ)
    → All IsByte bs
    → All IsByte cs
    → length bs + suc (length cs) ≡ hash_length
    → d < 16
    → from_hex (hex_text bs ++ b'-' ∷ digit_char d ∷ hex_text cs)
      ≡ ok (record { raw = bs ++ (256 - d) % 256 ∷ cs })
from_hex_minus bs cs d hb hc e hd =
    from_hex-hex_text bs (b'-' ∷ digit_char d ∷ hex_text cs) (suc (length cs)) hb e whole
    ∙ ap (λ m. m >>= λ r. with_front bs r)
        (hex_loop-step _ ((256 - d) % 256) cs (length bs) (length cs) 0 _ _ read refl refl behind)
    ∙ finish
  where
    text : List ℕ
    text = hex_text bs ++ b'-' ∷ digit_char d ∷ hex_text cs

    whole : length text ≡ textual_length
    whole = rw (length-append, length-hex_text bs hb, length-hex_text cs hc) (omega arith)

    read : hex_byte text (length bs) ≡ ok ((256 - d) % 256)
    read = minus_byte bs (hex_text cs) d hb hd

    behind :
        hex_loop text (length bs + 1) (length cs)
        ≡ (hex_loop text (length bs + 1 + length cs) 0 >>= λ r. ok (cs ++ r))
    behind =
        rw (append_assoc, append-nil, add-zero) at
          (hex_loop-hex_text (hex_text bs ++ b'-' ∷ digit_char d ∷ []) cs [] (length bs + 1) 0 hc
            (rw (length-append, length-hex_text bs hb) (omega arith)))

    finish :
        ((hex_loop text (length bs + 1 + length cs) 0 >>= λ r. ok ((256 - d) % 256 ∷ cs ++ r))
          >>= λ r. with_front bs r)
        ≡ ok (record { raw = bs ++ (256 - d) % 256 ∷ cs })
    finish = unfold hex_loop in rw append-nil
