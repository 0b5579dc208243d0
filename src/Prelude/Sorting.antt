-- ===== src/Prelude/Sorting.antt =====
-- `std::sort`: what it asks of a comparison, and what it promises.
use cdump.Prelude.{
  ℕ, ◌<◌, ◌≡◌, ap, subst, ◌∙◌, Bool, true, false, List, [], ◌∷◌, arith, All, ltb, lt→ltb,
}
use mathlib.Core.Bool.{Bool-set}
use mathlib.Core.Logic.Or
use mathlib.Core.List.{
  Mem, Perm, Pairwise, forall_mem-cons, mem-cons_self, eq-or-mem_of_mem-cons, not-mem-nil,
}
use mathlib.Core.List.Perm

-- A comparison that `std::sort` takes: a strict weak ordering.
pub record IsStrictWeak {A : Type 0} (less : A → A → Bool) : Type 0 where
  pub asymmetric : (a b : A) → less a b ≡ true → less b a ≡ false
  pub apart : (a b c : A) → less a b ≡ false → less b c ≡ false → less a c ≡ false

-- No entry comes before an earlier one.
abbrev pub IsSorted : {A : Type 0} → (A → A → Bool) → List A → Type 0
IsSorted less = Pairwise (λ a b. less b a ≡ false)

-- What `std::sort` promises: the same entries, sorted, if the comparison is a strict weak ordering.
pub record IsStdSort {A : Type 0} (sort : (A → A → Bool) → List A → List A) : Type 0 where
  pub permutes : (less : A → A → Bool) (xs : List A) → IsStrictWeak less → Perm (sort less xs) xs
  pub sorts : (less : A → A → Bool) (xs : List A) → IsStrictWeak less → IsSorted less (sort less xs)

-- Values in ascending order of their keys.
abbrev pub Rises : {A : Type 0} → (A → ℕ) → List A → Type 0
Rises key [] = Unit {0}
Rises key (x ∷ xs) = All (λ y. key x < key y) xs × Rises key xs

Mem-above :
    {A : Type 0} (key : A → ℕ) (n : ℕ) (xs : List A) (x : A)
    → All (λ y. n < key y) xs
    → Mem x xs
    → ltb n (key x) ≡ true
Mem-above key n [] x p m = absurd (not-mem-nil m)
Mem-above key n (y ∷ ys) x (p, ps) m =
    (forall_mem-cons (λ z. Bool-set (ltb n (key z)) true)).1
      (lt→ltb n (key y) p, λ z. Mem-above key n ys z ps) x m

-- Only one order sorts values whose keys differ.
pub sorted_unique :
    {A : Type 0} (set : IsSet A) (key : A → ℕ) (xs ys : List A)
    → Perm xs ys
    → IsSorted (λ a b. ltb (key a) (key b)) xs
    → Rises key ys
    → xs ≡ ys
sorted_unique set key xs [] p s r = Perm.eq-nil p
sorted_unique set key [] (y ∷ ys) p s r = Perm.nil-eq p
sorted_unique set key (x ∷ xs) (y ∷ ys) p (Pairwise.cons below s) (up, r) =
    ap (λ a. a ∷ xs) same
    ∙ ap (λ l. y ∷ l)
        (sorted_unique set key xs ys (Perm.cons_inv (subst (λ a. Perm (a ∷ xs) (y ∷ ys)) same p)) s
          r)
  where
    clash : Mem x ys → ⊥
    clash m =
        let later = Mem-above key (key y) ys x up m in
        Or.elim (λ a b. absurd a) (eq-or-mem_of_mem-cons ((Perm.mem_iff p).1 mem-cons_self))
          (λ e. ground (arith, later, ap key e)) (λ n. cc (later, below y n))

    same : x ≡ y
    same =
        Or.elim (set x y) (eq-or-mem_of_mem-cons ((Perm.mem_iff p).0 mem-cons_self)) (λ e. e)
          (λ m. absurd (clash m))
