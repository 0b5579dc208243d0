-- ===== src/Tutil/Tmpdir.antt =====
-- The temporary directory of the unit tests.
use cdump.Prelude.{
  ℕ, zero, suc, ◌+◌, ◌<◌, ◌≡◌, ◌⊎◌, refl, inl, inr, Bool, Bool-cases, true, false, List, subst,
  Outcome, ok, throw, runtime_error, arith,
}
use cdump.Tutil.{tmp_name, set_up_loop, set_up}

-- What making a directory comes to, after the rounds from `i` on.
abbrev MadeIn : (ℕ → List ℕ) → (List ℕ → Bool) → ℕ → ℕ → Outcome (List ℕ) → Type 0
MadeIn random create rounds i o =
    ((path : List ℕ) × (o ≡ ok path) × (create path ≡ true))
    ⊎ ((o ≡ throw (runtime_error "Unable to make tmp dir for test"))
        × ((j : ℕ) → j < rounds → create (tmp_name (random (i + j))) ≡ false))

taken_before :
    (random : ℕ → List ℕ) (create : List ℕ → Bool) (rounds i j : ℕ)
    → create (tmp_name (random i)) ≡ false
    → ((j : ℕ) → j < rounds → create (tmp_name (random (i + 1 + j))) ≡ false)
    → j < suc rounds
    → create (tmp_name (random (i + j))) ≡ false
taken_before random create rounds i zero taken rest h =
    subst (λ n. create (tmp_name (random n)) ≡ false) (omega arith) taken
taken_before random create rounds i (suc j) taken rest h =
    subst (λ n. create (tmp_name (random n)) ≡ false) (omega arith) (rest j (omega (arith, h)))

later :
    (random : ℕ → List ℕ) (create : List ℕ → Bool) (rounds i : ℕ) (o : Outcome (List ℕ))
    → create (tmp_name (random i)) ≡ false
    → MadeIn random create rounds (i + 1) o
    → MadeIn random create (suc rounds) i o
later random create rounds i o taken (inl made) = inl made
later random create rounds i o taken (inr (threw, rest)) =
    inr (threw, λ j h. taken_before random create rounds i j taken rest h)

set_up_loop-MadeIn :
    (random : ℕ → List ℕ) (create : List ℕ → Bool) (rounds i : ℕ)
    → MadeIn random create rounds i (set_up_loop random create rounds i)
unfolding set_up_loop
set_up_loop-MadeIn random create zero i = inr (refl, λ j h. absurd (omega arith))
set_up_loop-MadeIn random create (suc rounds) i = elim (Bool-cases (create (tmp_name (random i)))) [
  | inl made ↦ inl (tmp_name (random i), rw made refl, made)
  | inr taken ↦
      rw taken
        (later random create rounds i _ taken (set_up_loop-MadeIn random create rounds (i + 1)))
]

-- `SetUp` ends: it returns the path of a directory that it has made, or throws once five names were taken.
pub set_up-MadeIn :
    (random : ℕ → List ℕ) (create : List ℕ → Bool) → MadeIn random create 5 0 (set_up random create)
unfolding set_up
set_up-MadeIn random create = set_up_loop-MadeIn random create 5 0
