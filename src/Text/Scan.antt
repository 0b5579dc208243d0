-- ===== src/Text/Scan.antt =====
-- `std::istringstream >> std::hex >> unsigned`, as libstdc++ reads it: white space, a sign, `0x`, and
-- hexadecimal digits up to the first other character.
use cdump.Prelude.{
  ℕ, ◌+◌, ◌-◌, ◌*◌, ◌%◌, ◌^◌, ◌<◌, ◌≡◌, refl, ◌⊎◌, inl, inr, ◌∙◌, Bool, true, false, ◌&&◌, ◌||◌,
  Option, none, some, List, [], ◌∷◌, arith, leb, ◌==◌, if◌then◌else◌,
}
use cdump.Text.Digits.{digit_char}

-- What the variable holds afterwards (`none`: it was not assigned), and `eof()`.
pub record Scan : Type 0 where
  pub value : Option ℕ
  pub eof : Bool

abbrev pub is_space : ℕ → Bool
is_space c = c == 32 || (leb 9 c && leb c 13)

unfoldable pub skip_space : List ℕ → List ℕ
skip_space [] = []
skip_space (c ∷ cs) = let rest = skip_space cs in if is_space c then rest else c ∷ cs

unfoldable pub hex_value : ℕ → Option ℕ
hex_value c =
    if leb 48 c && leb c 57
    then some (c - 48)
    else if leb 97 c && leb c 102
    then some (c - 87)
    else if leb 65 c && leb c 70
    then some (c - 55)
    else none

-- The digits of a text too short to overflow, after those of value `acc`. A conversion with no digit
-- fails and stores 0. A minus sign negates modulo 2 ^ 32.
unfoldable pub scan_digits : Bool → ℕ → List ℕ → Scan
unfolding hex_value
scan_digits negative acc [] = record {
  value = some (if negative then (2 ^ 32 - acc) % 2 ^ 32 else acc);
  eof = true;
}
scan_digits negative acc (c ∷ cs) = elim (hex_value c) [
  | none ↦ record { value = some (if negative then (2 ^ 32 - acc) % 2 ^ 32 else acc); eof = false }
  | some d ↦ scan_digits negative (acc * 16 + d) cs
]

unfoldable pub scan_prefix : Bool → List ℕ → Scan
unfolding scan_digits
scan_prefix negative (z ∷ x ∷ cs) =
    if z == b'0' && (x == b'x' || x == b'X')
    then scan_digits negative 0 cs
    else scan_digits negative 0 (z ∷ x ∷ cs)
scan_prefix negative (c ∷ []) = scan_digits negative 0 (c ∷ [])
scan_prefix negative [] = scan_digits negative 0 []

unfoldable pub scan_sign : List ℕ → Scan
unfolding scan_prefix
scan_sign [] = record { value = none; eof = true }
scan_sign (c ∷ cs) =
    if c == b'-'
    then scan_prefix true cs
    else if c == b'+'
    then scan_prefix false cs
    else scan_prefix false (c ∷ cs)

unfoldable pub scan_hex : List ℕ → Scan
unfolding scan_sign skip_space
scan_hex s = scan_sign (skip_space s)

pub hex_value-digit_char : (d : ℕ) → d < 16 → hex_value (digit_char d) ≡ some d
unfolding hex_value digit_char
hex_value-digit_char d h = ground arith

-- A digit is no white space, no sign and no `x`.
pub digit_char_plain :
    (d : ℕ)
    → d < 16
    → (is_space (digit_char d) ≡ false)
      × ((digit_char d == b'-') ≡ false)
      × ((digit_char d == b'+') ≡ false)
      × ((digit_char d == b'x') ≡ false)
      × ((digit_char d == b'X') ≡ false)
unfolding digit_char
digit_char_plain d h = (ground arith, ground arith, ground arith, ground arith, ground arith)

scan_digits-step :
    (negative : Bool) (acc d c : ℕ) (cs : List ℕ)
    → hex_value c ≡ some d
    → scan_digits negative acc (c ∷ cs) ≡ scan_digits negative (acc * 16 + d) cs
unfolding scan_digits
scan_digits-step negative acc d c cs e = ground (arith, e)

-- Two digits behind white space and a sign that may be there.
scan_prefix-digits :
    (negative : Bool) (h l : ℕ)
    → h < 16
    → l < 16
    → scan_prefix negative (digit_char h ∷ digit_char l ∷ []) ≡ scan_digits negative (h * 16 + l) []
unfolding scan_prefix
scan_prefix-digits negative h l p q = ground (
  arith,
  digit_char_plain l q,
  scan_digits-step negative 0 h (digit_char h) (digit_char l ∷ []) (hex_value-digit_char h p),
  scan_digits-step negative (0 * 16 + h) l (digit_char l) [] (hex_value-digit_char l q),
)

-- Two digits that `put_hex` wrote are read back, to the end of the text.
pub scan_hex-digits :
    (h l : ℕ)
    → h < 16
    → l < 16
    → scan_hex (digit_char h ∷ digit_char l ∷ []) ≡ record { value = some (h * 16 + l); eof = true }
unfolding scan_hex
scan_hex-digits h l p q =
    rw
      (
        (digit_char_plain h p).0,
        (digit_char_plain h p).1,
        (digit_char_plain h p).2,
        scan_prefix-digits false h l p q,
      )
      (unfold scan_digits in refl)

-- Two characters that are not a number: the first starts nothing, or the second ends it too early.
abbrev pub IsBadPair : ℕ → ℕ → Type 0
IsBadPair c d =
    ((hex_value c ≡ none) × (is_space c ≡ false) × ((c == b'-') ≡ false) × ((c == b'+') ≡ false))
    ⊎ ((v : ℕ) × (v < 16)
        × (c ≡ digit_char v)
        × (hex_value d ≡ none)
        × ((d == b'x') ≡ false)
        × ((d == b'X') ≡ false))

scan_digits-stop :
    (negative : Bool) (acc c : ℕ) (cs : List ℕ)
    → hex_value c ≡ none
    → (scan_digits negative acc (c ∷ cs)).eof ≡ false
unfolding scan_digits
scan_digits-stop negative acc c cs e = ground (arith, e)

zero_is_digit : (c : ℕ) → hex_value c ≡ none → (c == b'0') ≡ false
unfolding hex_value
zero_is_digit c e = ground arith

-- The reader stops inside such a pair.
pub scan_hex-bad_pair : (c d : ℕ) → IsBadPair c d → (scan_hex (c ∷ d ∷ [])).eof ≡ false
unfolding scan_hex
scan_hex-bad_pair c d (inl (bad, space, minus, plus)) =
    rw (space, minus, plus, zero_is_digit c bad) (scan_digits-stop false 0 c (d ∷ []) bad)
scan_hex-bad_pair c d (inr (v, small, e, bad, x, y)) =
    let (space, minus, plus, _, _) = digit_char_plain v small in
    rw (e, space, minus, plus)
      (ground (
        arith,
        x,
        y,
        scan_digits-step false 0 v (digit_char v) (d ∷ []) (hex_value-digit_char v small),
        scan_digits-stop false (0 * 16 + v) d [] bad,
      ))

-- A minus sign and one digit are read to the end of the text, as a negative number.
pub scan_hex-minus :
    (d : ℕ)
    → d < 16
    → scan_hex (b'-' ∷ digit_char d ∷ [])
      ≡ record { value = some ((2 ^ 32 - d) % 2 ^ 32); eof = true }
unfolding scan_hex
scan_hex-minus d h =
    scan_digits-step true 0 d (digit_char d) [] (hex_value-digit_char d h)
    ∙ unfold scan_digits in ground arith
