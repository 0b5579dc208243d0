-- ===== src/Text/Digits.antt =====
-- Output of an `unsigned` with `std::setw`, `std::setfill`, in base 10 and `std::hex`.
use cdump.Prelude.{
  ℕ, zero, suc, ◌+◌, ◌-◌, ◌/◌, ◌%◌, ◌<◌, ◌≡◌, List, [], ◌∷◌, ◌++◌, arith, length, replicate, ltb,
  if◌then◌else◌,
}

-- The character of a digit below 16.
unfoldable pub digit_char : ℕ → ℕ
digit_char d = if ltb d 10 then d + 48 else d + 87

-- The digits of `n`, at most `fuel` of them; 32 are enough for an `unsigned` in any base.
unfoldable pub digits : ℕ → ℕ → ℕ → List ℕ
unfolding digit_char
digits base zero n = []
digits base (suc fuel) n =
    let rest = digits base fuel (n / base) in
    if ltb n base then digit_char n ∷ [] else rest ++ digit_char (n % base) ∷ []

-- `std::setw(width)` with `std::setfill(fill)`.
unfoldable pub pad_left : ℕ → ℕ → List ℕ → List ℕ
pad_left width fill s = replicate (width - length s) fill ++ s

-- `<< std::hex << std::setfill('0') << std::setw(width) << n`
unfoldable pub put_hex : ℕ → ℕ → List ℕ
unfolding digits pad_left
put_hex width n = pad_left width b'0' (digits 16 32 n)

-- `<< std::setfill('0') << std::setw(width) << n`
unfoldable pub put_dec : ℕ → ℕ → List ℕ
unfolding digits pad_left
put_dec width n = pad_left width b'0' (digits 10 32 n)

-- A byte is written as two digits.
pub put_hex-byte : (b : ℕ) → b < 256 → put_hex 2 b ≡ digit_char (b / 16) ∷ digit_char (b % 16) ∷ []
unfolding put_hex
put_hex-byte b h = ground arith
