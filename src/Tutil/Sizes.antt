-- ===== src/Tutil/Sizes.antt =====
-- The sizes of the unit tests.
use cdump.Prelude.{
  ℕ, zero, suc, ◌+◌, ◌-◌, ◌^◌, ◌<◌, ◌≡◌, refl, ◌∙◌, Bool-cases, inl, inr, Bool, true, false, List,
  [], ◌∷◌, arith, All, ltb, ◌==◌, ◌||◌,
}
use cdump.Tutil.{set_insert, sizes_loop, build_sizes}

-- Every number is above the ones in front of it.
abbrev pub Ascends : List ℕ → Type 0
Ascends [] = Unit {0}
Ascends (x ∷ xs) = All (λ y. x < y) xs × Ascends xs

abbrev pub contains : ℕ → List ℕ → Bool
contains k [] = false
contains k (x ∷ xs) = k == x || contains k xs

above_All : (x y : ℕ) (s : List ℕ) → x < y → All (λ z. y < z) s → All (λ z. x < z) s
above_All x y [] h a = tt
above_All x y (z ∷ s) h (first, later) = (omega arith, above_All x y s h later)

set_insert-All :
    (low x : ℕ) (s : List ℕ) → low < x → All (λ z. low < z) s → All (λ z. low < z) (set_insert x s)
unfolding set_insert
set_insert-All low x [] h a = (h, tt)
set_insert-All low x (y ∷ s) h (first, later) = elim (Bool-cases (ltb x y)) [
  | inl e ↦ rw e (h, (first, later))
  | inr e ↦ elim (Bool-cases (x == y)) [
    | inl same ↦ rw (e, same) (first, later)
    | inr other ↦ rw (e, other) (first, set_insert-All low x s h later)
  ]
]

set_insert-Ascends : (x : ℕ) (s : List ℕ) → Ascends s → Ascends (set_insert x s)
unfolding set_insert
set_insert-Ascends x [] a = (tt, tt)
set_insert-Ascends x (y ∷ s) (first, later) = elim (Bool-cases (ltb x y)) [
  | inl e ↦ rw e ((ground arith, above_All x y s (ground arith) first), (first, later))
  | inr e ↦ elim (Bool-cases (x == y)) [
    | inl same ↦ rw (e, same) (first, later)
    | inr other ↦
        rw (e, other) (set_insert-All y x s (ground arith) first, set_insert-Ascends x s later)
  ]
]

contains-set_insert :
    (k x : ℕ) (s : List ℕ) → contains k (set_insert x s) ≡ (k == x || contains k s)
unfolding set_insert
contains-set_insert k x [] = refl
contains-set_insert k x (y ∷ s) = elim (Bool-cases (ltb x y)) [
  | inl e ↦ rw e refl
  | inr e ↦ elim (Bool-cases (x == y)) [
    | inl same ↦ rw (e, same) (ground arith)
    | inr other ↦ rw (e, other, contains-set_insert k x s) (ground arith)
  ]
]

-- `k` is a power of two from `2 ^ i` on, below `2 ^ (i + rounds)`, or next to one.
abbrev pub near_power : ℕ → ℕ → ℕ → Bool
near_power k zero i = false
near_power k (suc rounds) i =
    (k == 2 ^ i - 1 || (k == 2 ^ i || k == 2 ^ i + 1)) || near_power k rounds (i + 1)

loop-Ascends : (rounds i : ℕ) (s : List ℕ) → Ascends s → Ascends (sizes_loop rounds i s)
unfolding sizes_loop
loop-Ascends zero i s a = a
loop-Ascends (suc rounds) i s a = loop-Ascends rounds (i + 1) _ (
    set_insert-Ascends (2 ^ i + 1) _
      (set_insert-Ascends (2 ^ i) _ (set_insert-Ascends (2 ^ i - 1) s a)))

loop-contains :
    (k rounds i : ℕ) (s : List ℕ)
    → contains k (sizes_loop rounds i s) ≡ (near_power k rounds i || contains k s)
unfolding sizes_loop
loop-contains k zero i s = refl
loop-contains k (suc rounds) i s =
    loop-contains k rounds (i + 1) _
    ∙ rw (contains-set_insert, contains-set_insert, contains-set_insert)
        (arrange (near_power k rounds (i + 1)) (k == 2 ^ i + 1) (k == 2 ^ i) (k == 2 ^ i - 1)
          (contains k s))
  where
    arrange : (n a b c s : Bool) → (n || (a || (b || (c || s)))) ≡ (((c || (b || a)) || n) || s)
    arrange true a b c s = ground arith
    arrange false a b c s = ground arith

-- `build_sizes` returns a sorted vector without repetitions, of the powers of two below 2 ^ 19 with the
-- numbers before and behind each, and nothing else.
pub build_sizes_lem : (k : ℕ) → Ascends build_sizes × (contains k build_sizes ≡ near_power k 19 0)
unfolding build_sizes
build_sizes_lem k =
    (loop-Ascends 19 0 [] tt, loop-contains k 19 0 [] ∙ or_false (near_power k 19 0))
  where
    or_false : (b : Bool) → (b || false) ≡ b
    or_false true = refl
    or_false false = refl
