-- ===== src/Prelude/Tests.antt =====
-- Boolean tests on the native numbers, the conditional, and case splits that keep the equation.
use Prim.Native.Char.{code}
use Prim.Native.String.{String}
use Prim.Native.Nat.{ℕ, zero, suc, ◌<◌, compare, Ordering}
use mathlib.Core.Path.{◌≡◌, refl}
use mathlib.Core.Logic.{◌↔◌, ◌⊎◌, inl, inr}
use mathlib.Core.Bool.{Bool, true, false, ◌&&◌}
use mathlib.Core.List.{List, [], ◌∷◌}
use mathlib.Core.Option.{Option, none, some}
use native.Mathlib.Omega.{arith}

abbrev pub ltb : ℕ → ℕ → Bool
ltb a b = elim (compare a b) [ Ordering.lt ↦ true | _ ↦ false ]

abbrev pub leb : ℕ → ℕ → Bool
leb a b = elim (compare a b) [ Ordering.gt ↦ false | _ ↦ true ]

infix 50 ◌==◌
abbrev pub ◌==◌ : ℕ → ℕ → Bool
a == b = elim (compare a b) [ Ordering.eq ↦ true | _ ↦ false ]

infix 1 if◌then◌else◌
abbrev pub if◌then◌else◌ {ℓ} : {A : Type ℓ} → Bool → A → A → A
if true then x else y = x
if false then x else y = y

pub ltb→lt : (a b : ℕ) → ltb a b ≡ true → a < b
ltb→lt a b h = ground arith

pub lt→ltb : (a b : ℕ) → a < b → ltb a b ≡ true
lt→ltb a b h = ground arith

pub ==_iff : (a b : ℕ) → ((a == b) ≡ true) ↔ (a ≡ b)
==_iff a b = ground arith

pub Bool-cases : (b : Bool) → (b ≡ true) ⊎ (b ≡ false)
Bool-cases true = inl refl
Bool-cases false = inr refl

pub Option-cases {ℓ} : {A : Type ℓ} (o : Option A) → (o ≡ none) ⊎ ((a : A) × (o ≡ some a))
Option-cases none = inl refl
Option-cases (some a) = inr (a, refl)

-- The bytes of an ASCII literal.
abbrev pub codes : String → List ℕ
codes String.[] = []
codes (String.◌∷◌ c s) = code c ∷ codes s

-- A test of every number below a bound.
abbrev pub holds_below : (ℕ → Bool) → ℕ → Bool
holds_below test zero = true
holds_below test (suc bound) = holds_below test bound && test bound

pub holds_below-get :
    (test : ℕ → Bool) (bound i : ℕ) → i < bound → holds_below test bound ≡ true → test i ≡ true
holds_below-get test zero i small h = absurd (omega arith)
holds_below-get test (suc bound) i small h = ground (arith, holds_below-get test bound i)

-- The three answers of `compare`, each with what it tells.
pub compare-cases :
    (a b : ℕ)
    → ((compare a b ≡ Ordering.lt) × (a < b))
      ⊎ (((compare a b ≡ Ordering.eq) × (a ≡ b)) ⊎ ((compare a b ≡ Ordering.gt) × (b < a)))
compare-cases a b = ground arith
