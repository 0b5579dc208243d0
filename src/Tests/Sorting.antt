-- ===== src/Tests/Sorting.antt =====
-- Insertion sort, a sort that keeps the promise of `std::sort`.
use cdump.Prelude.{◌≡◌, Bool, Bool-cases, false, inl, inr, List, [], ◌∷◌, if◌then◌else◌}
use cdump.Prelude.Sorting.{IsStrictWeak, IsStdSort, IsSorted}
use mathlib.Core.Bool.{Bool-set}
use mathlib.Core.List.{Mem, Perm, Pairwise, Pairwise-singleton, forall_mem-cons}
use mathlib.Core.List.Perm

module _ {A : Type 0} (less : A → A → Bool) where
  abbrev place : A → List A → List A
  place x [] = x ∷ []
  place x (y ∷ ys) = let later = place x ys in if less y x then y ∷ later else x ∷ y ∷ ys

  abbrev pub insertion_sort : List A → List A
  insertion_sort [] = []
  insertion_sort (x ∷ xs) = place x (insertion_sort xs)

  place-Perm : (x : A) (xs : List A) → Perm (place x xs) (x ∷ xs)
  place-Perm x [] = Perm.rfl
  place-Perm x (y ∷ ys) = elim (Bool-cases (less y x)) [
    | inl e ↦ rw e (Perm.trans (Perm.cons y (place-Perm x ys)) (Perm.swap x y ys))
    | inr e ↦ rw e Perm.rfl
  ]

  insertion_sort-Perm : (xs : List A) → Perm (insertion_sort xs) xs
  insertion_sort-Perm [] = Perm.rfl
  insertion_sort-Perm (x ∷ xs) =
      Perm.trans (place-Perm x (insertion_sort xs)) (Perm.cons x (insertion_sort-Perm xs))

  -- No member comes before `a`.
  abbrev IsBelow : A → List A → Type 0
  IsBelow a xs = (x : A) → Mem x xs → less x a ≡ false

  IsBelow-cons : (a b : A) (xs : List A) → less b a ≡ false → IsBelow a xs → IsBelow a (b ∷ xs)
  IsBelow-cons a b xs p h = (forall_mem-cons (λ x. Bool-set (less x a) false)).1 (p, h)

  module _ (weak : IsStrictWeak less) where
    place-IsSorted : (x : A) {xs : List A} → IsSorted less xs → IsSorted less (place x xs)
    place-IsSorted x Pairwise.nil = Pairwise-singleton _ x
    place-IsSorted x (Pairwise.cons {a = y} {l = ys} below s) = elim (Bool-cases (less y x)) [
      | inl e ↦ rw e (
          Pairwise.cons
            (λ z mem.
              IsBelow-cons y x ys (weak.asymmetric y x e) below z
                ((Perm.mem_iff (place-Perm x ys)).0 mem))
            (place-IsSorted x s))
      | inr e ↦ rw e (
          Pairwise.cons (IsBelow-cons x y ys e (λ z mem. weak.apart z y x (below z mem) e))
            (Pairwise.cons below s))
    ]

    insertion_sort-IsSorted : (xs : List A) → IsSorted less (insertion_sort xs)
    insertion_sort-IsSorted [] = Pairwise.nil
    insertion_sort-IsSorted (x ∷ xs) = place-IsSorted x (insertion_sort-IsSorted xs)

pub insertion_sort-IsStdSort : {A : Type 0} → IsStdSort {A = A} insertion_sort
insertion_sort-IsStdSort = record {
  permutes = λ less xs weak. insertion_sort-Perm less xs;
  sorts = λ less xs weak. insertion_sort-IsSorted less weak xs;
}
