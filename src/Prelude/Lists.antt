-- ===== src/Prelude/Lists.antt =====
-- Lists measured and indexed by native numbers, under the library's names.
use Prim.Native.Nat.{ℕ, zero, suc, ◌+◌, ◌-◌, ◌<◌, min}
use mathlib.Core.Path.{◌≡◌, refl, ap, subst}
use mathlib.Core.List.{List, [], ◌∷◌, ◌++◌, map}
use mathlib.Core.Option.{Option, none, some, some-injective}
use native.Mathlib.Omega.{arith}

module _ {ℓ} {A : Type ℓ} where
  abbrev pub length : List A → ℕ
  length [] = 0
  length (x ∷ xs) = suc (length xs)

  abbrev pub get_elem? : List A → ℕ → Option A
  get_elem? [] i = none
  get_elem? (x ∷ xs) zero = some x
  get_elem? (x ∷ xs) (suc i) = get_elem? xs i

  abbrev pub get_or : List A → ℕ → A → A
  get_or [] i d = d
  get_or (x ∷ xs) zero d = x
  get_or (x ∷ xs) (suc i) d = get_or xs i d

  -- A write out of bounds changes nothing.
  abbrev pub set : List A → ℕ → A → List A
  set [] i v = []
  set (x ∷ xs) zero v = v ∷ xs
  set (x ∷ xs) (suc i) v = x ∷ set xs i v

  abbrev pub take : ℕ → List A → List A
  take zero xs = []
  take (suc n) [] = []
  take (suc n) (x ∷ xs) = x ∷ take n xs

  abbrev pub drop : ℕ → List A → List A
  drop zero xs = xs
  drop (suc n) [] = []
  drop (suc n) (x ∷ xs) = drop n xs

  abbrev pub replicate : ℕ → A → List A
  replicate zero a = []
  replicate (suc n) a = a ∷ replicate n a

  abbrev pub All {κ} : (A → Type κ) → List A → Type κ
  All P [] = Unit {κ}
  All P (x ∷ xs) = P x × All P xs

module _ {ℓ} {A : Type ℓ} where
  pub length-append : (xs ys : List A) → length (xs ++ ys) ≡ length xs + length ys
  length-append [] ys = omega arith
  length-append (x ∷ xs) ys = omega (arith, length-append xs ys)

  pub length-take : (n : ℕ) (xs : List A) → length (take n xs) ≡ min n (length xs)
  length-take zero xs = omega arith
  length-take (suc n) [] = omega arith
  length-take (suc n) (x ∷ xs) = omega (arith, length-take n xs)

  pub length-drop : (n : ℕ) (xs : List A) → length (drop n xs) ≡ length xs - n
  length-drop zero xs = omega arith
  length-drop (suc n) [] = omega arith
  length-drop (suc n) (x ∷ xs) = omega (arith, length-drop n xs)

  pub length-replicate : (n : ℕ) (a : A) → length (replicate n a) ≡ n
  length-replicate zero a = refl
  length-replicate (suc n) a = ap suc (length-replicate n a)

  pub length-map {κ} : {B : Type κ} (f : A → B) (xs : List A) → length (map f xs) ≡ length xs
  length-map f [] = refl
  length-map f (x ∷ xs) = ap suc (length-map f xs)

  -- The front of a concatenation, cut where its first part ends, and what is left.
  pub take-append : (xs ys : List A) (n : ℕ) → length xs ≡ n → take n (xs ++ ys) ≡ xs
  take-append [] ys zero h = refl
  take-append [] ys (suc n) h = absurd (omega arith)
  take-append (x ∷ xs) ys zero h = absurd (omega arith)
  take-append (x ∷ xs) ys (suc n) h = ap (λ t. x ∷ t) (take-append xs ys n (omega arith))

  pub drop-append : (xs ys : List A) (n : ℕ) → length xs ≡ n → drop n (xs ++ ys) ≡ ys
  drop-append [] ys zero h = refl
  drop-append [] ys (suc n) h = absurd (omega arith)
  drop-append (x ∷ xs) ys zero h = absurd (omega arith)
  drop-append (x ∷ xs) ys (suc n) h = drop-append xs ys n (omega arith)

  pub All-append {κ} : (P : A → Type κ) (xs ys : List A) → All P xs → All P ys → All P (xs ++ ys)
  All-append P [] ys p q = q
  All-append P (x ∷ xs) ys p q = (p.0, All-append P xs ys p.1 q)

  pub All-map {κ μ} :
      (P : A → Type κ) (Q : A → Type μ) (xs : List A) → ((x : A) → P x → Q x) → All P xs → All Q xs
  All-map P Q [] f p = tt
  All-map P Q (x ∷ xs) f p = (f x p.0, All-map P Q xs f p.1)

  pub get_elem?-lt : (xs : List A) (i : ℕ) → i < length xs → (x : A) × (get_elem? xs i ≡ some x)
  get_elem?-lt [] i h = absurd (omega arith)
  get_elem?-lt (x ∷ xs) zero h = (x, refl)
  get_elem?-lt (x ∷ xs) (suc i) h = get_elem?-lt xs i (omega arith)

  pub lt-get_elem? : (xs : List A) (i : ℕ) {x : A} → get_elem? xs i ≡ some x → i < length xs
  lt-get_elem? [] i h = cc
  lt-get_elem? (y ∷ xs) zero h = omega arith
  lt-get_elem? (y ∷ xs) (suc i) h = omega (arith, lt-get_elem? xs i h)

  pub All-get_elem? {κ} :
      (P : A → Type κ) (xs : List A) (i : ℕ) {x : A} → All P xs → get_elem? xs i ≡ some x → P x
  All-get_elem? P [] i p h = cc
  All-get_elem? P (y ∷ xs) zero p h = subst P (some-injective y _ h) p.0
  All-get_elem? P (y ∷ xs) (suc i) p h = All-get_elem? P xs i p.1 h

  pub take_all : (xs : List A) (n : ℕ) → length xs ≡ n → take n xs ≡ xs
  take_all [] zero h = refl
  take_all [] (suc n) h = refl
  take_all (x ∷ xs) zero h = absurd (omega arith)
  take_all (x ∷ xs) (suc n) h = ap (λ t. x ∷ t) (take_all xs n (omega arith))
