-- ===== src/Pool/Names.antt =====
-- The names of pool files, read back: `decode_name` of src/pool.cc.
use cdump.Prelude.{
  ℕ, suc, ◌+◌, ◌*◌, ◌-◌, ◌/◌, ◌%◌, ◌<◌, ◌≡◌, refl, ap, ◌∙◌, ◌≤◌, Bool-cases, inl, inr, ltb→lt,
  length-append, replicate, Bool, false, ◌&&◌, Option, none, some, List, [], ◌∷◌, ◌++◌, arith,
  codes, length, take, drop, leb, ltb, ◌==◌, if◌then◌else◌,
}
use cdump.Text.Digits.{digit_char, digits, pad_left, put_dec}
use cdump.Pool.Files.{same_name, construct_name}

abbrev pub is_digit : ℕ → Bool
is_digit c = leb 48 c && leb c 57

-- The value of decimal digits behind those of value `acc`; `none` if one is none.
unfoldable pub dec_value : ℕ → List ℕ → Option ℕ
dec_value acc [] = some acc
dec_value acc (c ∷ cs) =
    let rest = dec_value (acc * 10 + (c - 48)) cs in if is_digit c then rest else none

-- `decode_name`: a match of `pool-data-(\d{4})\.data`; `none` is -1.
unfoldable pub decode_name : List ℕ → Option ℕ
unfolding same_name dec_value
decode_name name =
    if length name == 19
      && same_name (take 10 name) (codes "pool-data-")
      && same_name (drop 14 name) (codes ".data")
    then dec_value 0 (take 4 (drop 10 name))
    else none

pub four_digits :
    (pos : ℕ)
    → pos < 10000
    → put_dec 4 pos
      ≡ (pos / 1000 + 48) ∷ (pos / 100 % 10 + 48) ∷ (pos / 10 % 10 + 48) ∷ (pos % 10 + 48) ∷ []
unfolding put_dec digits digit_char pad_left
four_digits pos h = ground arith

pub four_back :
    (a b c d : ℕ)
    → a < 10
    → b < 10
    → c < 10
    → d < 10
    → dec_value 0 ((a + 48) ∷ (b + 48) ∷ (c + 48) ∷ (d + 48) ∷ [])
      ≡ some (((a * 10 + b) * 10 + c) * 10 + d)
unfolding dec_value
four_back a b c d ha hb hc hd = ground arith

short_name : (pos : ℕ) → pos < 10000 → decode_name (construct_name pos (codes ".data")) ≡ some pos
unfolding decode_name construct_name same_name
short_name pos h = rw (four_digits pos h) (
    four_back (pos / 1000) (pos / 100 % 10) (pos / 10 % 10) (pos % 10) (omega arith) (omega arith)
      (omega arith) (omega arith)
    ∙ ap some (omega arith))

one_digit : (fuel n : ℕ) → 1 ≤ length (digits 10 (suc fuel) n)
unfolding digits
one_digit fuel n = elim (Bool-cases (ltb n 10)) [
  | inl h ↦ rw h (omega arith)
  | inr h ↦ rw h (omega (arith, length-append (digits 10 fuel (n / 10)) (digit_char (n % 10) ∷ [])))
]

more_digits :
    (fuel n m : ℕ)
    → 10 ≤ n
    → m ≤ length (digits 10 fuel (n / 10))
    → suc m ≤ length (digits 10 (suc fuel) n)
unfolding digits
more_digits fuel n m h k =
    rw (below n h)
      (omega (arith, k, length-append (digits 10 fuel (n / 10)) (digit_char (n % 10) ∷ [])))
  where
    below : (n : ℕ) → 10 ≤ n → ltb n 10 ≡ false
    below n h = ground arith

five_digits : (n : ℕ) → 10000 ≤ n → 5 ≤ length (digits 10 32 n)
five_digits n h = more_digits 31 n 4 (omega arith) (
    more_digits 30 (n / 10) 3 (omega arith) (
      more_digits 29 (n / 10 / 10) 2 (omega arith)
        (more_digits 28 (n / 10 / 10 / 10) 1 (omega arith) (one_digit 27 (n / 10 / 10 / 10 / 10)))))

length-construct_name : (pos : ℕ) → 10000 ≤ pos → 20 ≤ length (construct_name pos (codes ".data"))
unfolding construct_name put_dec pad_left
length-construct_name pos h = omega (
  arith,
  five_digits pos h,
  length-append (digits 10 32 pos) (codes ".data"),
  length-append (replicate (4 - length (digits 10 32 pos)) b'0') (digits 10 32 pos),
  length-append (replicate (4 - length (digits 10 32 pos)) b'0' ++ digits 10 32 pos)
      (codes ".data"),
)

long_name : (pos : ℕ) → 10000 ≤ pos → decode_name (construct_name pos (codes ".data")) ≡ none
unfolding decode_name
long_name pos h = rw (unlike _ (length-construct_name pos h)) refl
  where
    unlike : (n : ℕ) → 20 ≤ n → (n == 19) ≡ false
    unlike n h = ground arith

-- The name that `construct_name` gives a data file is read back as its number if the number is below
-- 10000; from 10000 on `decode_name` does not take it for a data file.
pub decode_name-construct_name :
    (pos : ℕ)
    → decode_name (construct_name pos (codes ".data")) ≡ (if ltb pos 10000 then some pos else none)
decode_name-construct_name pos = elim (Bool-cases (ltb pos 10000)) [
  | inl h ↦ rw h (short_name pos (ltb→lt pos 10000 h))
  | inr h ↦ rw h (long_name pos (ground arith))
]
