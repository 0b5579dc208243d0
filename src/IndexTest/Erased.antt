-- ===== src/IndexTest/Erased.antt =====
-- Erasing from an ascending list.
use cdump.Prelude.{
  ℕ, zero, suc, ◌+◌, ◌<◌, ◌≤◌, ◌≡◌, ◌≢◌, refl, inl, inr, Bool-cases, false, List, [], ◌∷◌, arith,
  All, ◌==◌,
}
use cdump.Index.Keys.{Has}
use cdump.IndexTest.{erase}
use cdump.IndexTest.Tracked.{range}
use cdump.Tutil.Sizes.{Ascends}

pub erase-count : (i : ℕ) (items : List ℕ) → Has i items → (erase i items).0 ≡ 1
unfolding erase
erase-count i [] h = absurd h
erase-count i (x ∷ items) h = elim (Bool-cases (i == x)) [
  | inl same ↦ rw same refl
  | inr other ↦
      rw other
        (elim h [ inl e ↦ absurd (ground (arith, e, other)) | inr m ↦ erase-count i items m ])
]

pub erase-All : (P : ℕ → Type 0) (i : ℕ) (items : List ℕ) → All P items → All P (erase i items).1
unfolding erase
erase-All P i [] p = tt
erase-All P i (x ∷ items) p = elim (Bool-cases (i == x)) [
  | inl same ↦ rw same p.1
  | inr other ↦ rw other (p.0, erase-All P i items p.1)
]

pub erase-Ascends : (i : ℕ) (items : List ℕ) → Ascends items → Ascends (erase i items).1
unfolding erase
erase-Ascends i [] a = tt
erase-Ascends i (x ∷ items) a = elim (Bool-cases (i == x)) [
  | inl same ↦ rw same a.1
  | inr other ↦ rw other (erase-All (λ y. x < y) i items a.0, erase-Ascends i items a.1)
]

pub erase-keeps : (i j : ℕ) (items : List ℕ) → j ≢ i → Has j items → Has j (erase i items).1
unfolding erase
erase-keeps i j [] differ h = absurd h
erase-keeps i j (x ∷ items) differ h = elim (Bool-cases (i == x)) [
  | inl same ↦ rw same (elim h [ inl e ↦ absurd (ground (arith, same, e, differ)) | inr m ↦ m ])
  | inr other ↦ rw other (elim h [ inl e ↦ inl e | inr m ↦ inr (erase-keeps i j items differ m) ])
]

not_among : (x i : ℕ) (items : List ℕ) → x ≡ i → All (λ y. x < y) items → Has i items → ⊥
not_among x i [] e p h = h
not_among x i (y ∷ items) e p (inl f) = omega (arith, e, f, p.0)
not_among x i (y ∷ items) e p (inr m) = not_among x i items e p.1 m

behind :
    (i j x : ℕ) (items rest : List ℕ)
    → (i == x) ≡ false
    → (Has j rest → Has j items × (j ≢ i))
    → Has j (x ∷ rest)
    → Has j (x ∷ items) × (j ≢ i)
behind i j x items rest other step (inl e) = (inl e, λ f. ground (arith, other, e, f))
behind i j x items rest other step (inr m) = let (here, differ) = step m in (inr here, differ)

-- What is left was there, and is not what was erased.
pub erase-Has :
    (i j : ℕ) (items : List ℕ) → Ascends items → Has j (erase i items).1 → Has j items × (j ≢ i)
unfolding erase
erase-Has i j [] a h = absurd h
erase-Has i j (x ∷ items) a h = elim (Bool-cases (i == x)) [
  | inl same ↦
      let m : Has j items = rw same at h in
      (inr m, λ e. not_among x j items (ground (arith, same, e)) a.0 m)
  | inr other ↦ behind i j x items (erase i items).1 other (erase-Has i j items a.1) (rw other at h)
]

range-above : (rounds i low : ℕ) → low < i → All (λ y. low < y) (range i rounds)
range-above zero i low h = tt
range-above (suc rounds) i low h = (h, range-above rounds (i + 1) low (omega arith))

pub range-Ascends : (rounds i : ℕ) → Ascends (range i rounds)
range-Ascends zero i = tt
range-Ascends (suc rounds) i =
    (range-above rounds (i + 1) i (omega arith), range-Ascends rounds (i + 1))

pub range-Has : (rounds i j : ℕ) → Has j (range i rounds) → (i ≤ j) × (j < i + rounds)
range-Has zero i j h = absurd h
range-Has (suc rounds) i j (inl e) = (omega (arith, e), omega (arith, e))
range-Has (suc rounds) i j (inr m) =
    let (low, high) = range-Has rounds (i + 1) j m in (omega (arith, low), omega (arith, high))
