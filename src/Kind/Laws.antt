-- ===== src/Kind/Laws.antt =====
-- Kinds and their texts: conversions both ways, and the order of `operator<`.
use cdump.Prelude.{
  ℕ, ◌≡◌, ◌≢◌, refl, sym, ap, ◌∙◌, Bool, true, false, List, [], ◌∷◌, ok, throw, invalid_argument,
  arith, length, All, Ordering, compare, ltb,
}
use cdump.Bytes.{
  IsByte, IsWord, le_bytes, le_value, be_value, memcmp, length-le_bytes, le_bytes-IsByte,
  le_value-le_bytes, le_bytes-le_value, memcmp-be_value,
}
use cdump.Kind.{Kind, textual, from_string, to_string, htobe32, less}

-- The four characters are `raw` as a big-endian number.
pub htobe32-be_value : (w : ℕ) → IsWord w → htobe32 w ≡ be_value (le_bytes 4 w)
unfolding htobe32 be_value le_bytes
htobe32-be_value w h = omega arith

-- A `std::string` of four bytes becomes a 32-bit kind that converts back to it.
to_string-from_string :
    (s : List ℕ)
    → length s ≡ 4
    → All IsByte s
    → (k : Kind) × (from_string s ≡ ok k) × IsWord k.raw × (to_string k ≡ s)
unfolding from_string to_string
to_string-from_string (a ∷ b ∷ c ∷ d ∷ []) h v =
    (record { raw = le_value (a ∷ b ∷ c ∷ d ∷ []) }, refl, omega arith, le_bytes-le_value _ v)
to_string-from_string [] h v = absurd (omega arith)
to_string-from_string (_ ∷ []) h v = absurd (omega arith)
to_string-from_string (_ ∷ _ ∷ []) h v = absurd (omega arith)
to_string-from_string (_ ∷ _ ∷ _ ∷ []) h v = absurd (omega arith)
to_string-from_string (_ ∷ _ ∷ _ ∷ _ ∷ _ ∷ _) h v = absurd (omega arith)

-- Every kind of 32 bits is the kind that is made of its text.
from_string-to_string : (k : Kind) → IsWord k.raw → from_string (to_string k) ≡ ok k
unfolding from_string to_string
from_string-to_string k h =
    ap (λ w. ok (record { raw = w })) (le_value-le_bytes 4 k.raw (omega arith))

-- `Kind(std::string)` and `operator std::string` undo each other: a string of four bytes becomes a 32-bit
-- kind that converts back to it, and every 32-bit kind is the kind that is made of its text.
pub conversions :
    (s : List ℕ) (k : Kind)
    → length s ≡ 4
    → All IsByte s
    → IsWord k.raw
    → ((c : Kind) × (from_string s ≡ ok c) × IsWord c.raw × (to_string c ≡ s))
      × (from_string (to_string k) ≡ ok k)
conversions s k four bytes word = (to_string-from_string s four bytes, from_string-to_string k word)

-- A string of any other length is refused.
pub from_string_bad_length :
    (s : List ℕ) → length s ≢ 4 → from_string s ≡ throw (invalid_argument "Invalid kind length")
unfolding from_string
from_string_bad_length s h = ground arith

abbrev pub is_lt : Ordering → Bool
is_lt Ordering.lt = true
is_lt _ = false

-- On kinds of 32 bits `operator<` is the order of the texts, byte by byte.
pub less-memcmp :
    (a b : Kind) → IsWord a.raw → IsWord b.raw → less a b ≡ is_lt (memcmp (textual a) (textual b))
unfolding less textual
less-memcmp a b ha hb =
    rw
      (
        htobe32-be_value a.raw ha,
        htobe32-be_value b.raw hb,
        memcmp-be_value (le_bytes 4 a.raw) (le_bytes 4 b.raw) (le_bytes-IsByte 4 a.raw)
            (le_bytes-IsByte 4 b.raw) (length-le_bytes 4 a.raw ∙ sym (length-le_bytes 4 b.raw)),
      )
      (less_cases _ _)
  where
    less_cases : (m n : ℕ) → ltb m n ≡ is_lt (compare m n)
    less_cases m n = ground arith
