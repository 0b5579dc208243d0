-- ===== src/Bytes.antt =====
-- Byte sequences: the little-endian words of a file, the big-endian value, `memcmp`.
use cdump.Prelude.{
  ℕ, zero, suc, ◌+◌, ◌*◌, ◌/◌, ◌%◌, ◌^◌, ◌<◌, compare, Ordering, ◌≡◌, refl, ap, ◌∙◌,
}
use cdump.Prelude.{List, [], ◌∷◌, arith, length, All, get_or}
use native.Mathlib.Nat.{pow-suc}

abbrev pub IsByte : ℕ → Type 0
IsByte b = b < 256

-- A `uint32_t`.
abbrev pub IsWord : ℕ → Type 0
IsWord w = w < 2 ^ 32

-- The lowest `n` bytes of a word, lowest first: its image in memory on a little-endian machine.
unfoldable pub le_bytes : ℕ → ℕ → List ℕ
le_bytes zero v = []
le_bytes (suc n) v = (v % 256) ∷ le_bytes n (v / 256)

unfoldable pub le_value : List ℕ → ℕ
le_value [] = 0
le_value (b ∷ bs) = b + 256 * le_value bs

unfoldable pub be_value : List ℕ → ℕ
be_value [] = 0
be_value (b ∷ bs) = b * 256 ^ length bs + be_value bs

pub length-le_bytes : (n v : ℕ) → length (le_bytes n v) ≡ n
unfolding le_bytes
length-le_bytes zero v = refl
length-le_bytes (suc n) v = ap suc (length-le_bytes n (v / 256))

pub le_bytes-IsByte : (n v : ℕ) → All IsByte (le_bytes n v)
unfolding le_bytes
le_bytes-IsByte zero v = tt
le_bytes-IsByte (suc n) v = (omega arith, le_bytes-IsByte n (v / 256))

pub le_value-le_bytes : (n v : ℕ) → v < 256 ^ n → le_value (le_bytes n v) ≡ v
unfolding le_bytes le_value
le_value-le_bytes zero v h = omega arith
le_value-le_bytes (suc n) v h =
    omega (arith, le_value-le_bytes n (v / 256) (omega (arith, pow-suc 256 n, h)))

low_byte : (b v : ℕ) → b < 256 → (b + 256 * v) % 256 ≡ b
low_byte b v h = omega arith

high_part : (b v : ℕ) → b < 256 → (b + 256 * v) / 256 ≡ v
high_part b v h = omega arith

pub le_bytes-le_value : (bs : List ℕ) → All IsByte bs → le_bytes (length bs) (le_value bs) ≡ bs
unfolding le_bytes le_value
le_bytes-le_value [] h = refl
le_bytes-le_value (b ∷ bs) h =
    rw (low_byte b (le_value bs) h.0, high_part b (le_value bs) h.0)
      (ap (λ t. b ∷ t) (le_bytes-le_value bs h.1))

-- A digit below 256 in front of a number below the weight `w`.
top_digit : (b v w w' : ℕ) → b < 256 → v < w → w' ≡ w * 256 → b * w + v < w'
top_digit b v w w' hb hv e = grind arith

pub be_value-lt : (bs : List ℕ) → All IsByte bs → be_value bs < 256 ^ length bs
unfolding be_value
be_value-lt [] h = omega arith
be_value-lt (b ∷ bs) h =
    top_digit b (be_value bs) (256 ^ length bs) _ h.0 (be_value-lt bs h.1) (pow-suc 256 (length bs))

-- The first byte decides, unless the two are equal.
abbrev pub first_of_two : Ordering → Ordering → Ordering
first_of_two Ordering.lt rest = Ordering.lt
first_of_two Ordering.eq rest = rest
first_of_two Ordering.gt rest = Ordering.gt

-- `memcmp` of two blocks of one length.
unfoldable pub memcmp : List ℕ → List ℕ → Ordering
memcmp (x ∷ xs) (y ∷ ys) = first_of_two (compare x y) (memcmp xs ys)
memcmp _ _ = Ordering.eq

-- Two numbers with the same weight compare by their top digits first.
top_lt : (x y v u w : ℕ) → x < y → v < w → x * w + v < y * w + u
top_lt x y v u w h hv = grind arith

compare_lt : (a b : ℕ) → a < b → compare a b ≡ Ordering.lt
compare_lt a b h = ground arith

compare_gt : (a b : ℕ) → b < a → compare a b ≡ Ordering.gt
compare_gt a b h = ground arith

compare_shift : (k a b : ℕ) → compare (k + a) (k + b) ≡ compare a b
compare_shift k a b = ground arith

first_differs :
    (x y v u w w' : ℕ)
    → v < w
    → u < w'
    → w ≡ w'
    → first_of_two (compare x y) (compare v u) ≡ compare (x * w + v) (y * w' + u)
first_differs x y v u w w' hv hu e = ground (
  arith,
  top_lt x y v u w,
  top_lt y x u v w,
  compare_lt (x * w + v) (y * w' + u),
  compare_gt (x * w + v) (y * w' + u),
  compare_shift (y * w) v u,
)

weight : (xs ys : List ℕ) → length xs ≡ length ys → 256 ^ length xs ≡ 256 ^ length ys
weight xs ys e = ap (λ n. 256 ^ n) e

-- `memcmp` compares two blocks of one length as big-endian numbers.
pub memcmp-be_value :
    (xs ys : List ℕ)
    → All IsByte xs
    → All IsByte ys
    → length xs ≡ length ys
    → memcmp xs ys ≡ compare (be_value xs) (be_value ys)
unfolding memcmp be_value
memcmp-be_value [] [] p q e = ground arith
memcmp-be_value [] (y ∷ ys) p q e = absurd (omega arith)
memcmp-be_value (x ∷ xs) [] p q e = absurd (omega arith)
memcmp-be_value (x ∷ xs) (y ∷ ys) p q e =
    ap (first_of_two (compare x y)) (memcmp-be_value xs ys p.1 q.1 (omega arith))
    ∙ first_differs x y (be_value xs) (be_value ys) _ _ (be_value-lt xs p.1) (be_value-lt ys q.1)
        (weight xs ys (omega arith))

same_digits :
    (x y v u w w' : ℕ) → v < w → u < w' → w ≡ w' → x * w + v ≡ y * w' + u → (x ≡ y) × (v ≡ u)
same_digits x y v u w w' hv hu e h = ground (arith, top_lt x y v u w, top_lt y x u v w)

pub be_value_injective :
    (xs ys : List ℕ)
    → All IsByte xs
    → All IsByte ys
    → length xs ≡ length ys
    → be_value xs ≡ be_value ys
    → xs ≡ ys
unfolding be_value
be_value_injective [] [] p q e h = refl
be_value_injective [] (y ∷ ys) p q e h = absurd (omega arith)
be_value_injective (x ∷ xs) [] p q e h = absurd (omega arith)
be_value_injective (x ∷ xs) (y ∷ ys) p q e h =
    cc (digits.0, be_value_injective xs ys p.1 q.1 (omega arith) digits.1)
  where
    digits : (x ≡ y) × (be_value xs ≡ be_value ys)
    digits =
        same_digits x y (be_value xs) (be_value ys) _ _ (be_value-lt xs p.1) (be_value-lt ys q.1)
          (weight xs ys (omega arith)) h

-- A byte that is read out of range counts as 0.
pub get_or-IsByte : (xs : List ℕ) (i : ℕ) → All IsByte xs → get_or xs i 0 < 256
get_or-IsByte [] i p = omega arith
get_or-IsByte (x ∷ xs) zero p = p.0
get_or-IsByte (x ∷ xs) (suc i) p = get_or-IsByte xs i p.1
