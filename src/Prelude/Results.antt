-- ===== src/Prelude/Results.antt =====
-- What a call of the program can end in: a value, a thrown exception, or undefined behaviour (a read
-- of memory that was never written, a null dereference, an index out of bounds).
use Prim.Native.String.{String}
use mathlib.Core.Path.{◌≡◌, refl}

-- except.hh's two exceptions, and those of the standard library that the program throws.
pub data Exception : Type 0 where
  invalid_argument runtime_error logic_error out_of_range ios_failure : String → Exception
  pool_open_error index_error : String → Exception
  -- `throw new E`: what is thrown is a pointer, which no handler of E catches.
  pointer_to : Exception → Exception

pub data Outcome {ℓ} (A : Type ℓ) : Type ℓ where
  ok : A → Outcome A
  throw : Exception → Outcome A
  undefined : Outcome A

infixl 5 ◌>>=◌
abbrev pub ◌>>=◌ {ℓ κ} : {A : Type ℓ} {B : Type κ} → Outcome A → (A → Outcome B) → Outcome B
ok a >>= f = f a
throw e >>= f = throw e
undefined >>= f = undefined

-- A call for its effect, before another.
infixl 5 ◌>>◌
abbrev pub ◌>>◌ {κ} : {B : Type κ} → Outcome (Unit {0}) → Outcome B → Outcome B
check >> next = check >>= λ done. next

pub ok-injective {ℓ} : {A : Type ℓ} (a b : A) → ok a ≡ ok b → a ≡ b
ok-injective a b h = cc

-- A chain of two calls returns only if both do.
pub ok->>= {ℓ κ} :
    {A : Type ℓ} {B : Type κ} {b : B} (f : A → Outcome B) (m : Outcome A)
    → (m >>= f) ≡ ok b
    → (a : A) × (f a ≡ ok b) × (m ≡ ok a)
ok->>= f undefined h = cc
ok->>= f (throw e) h = cc
ok->>= f (ok a) h = (a, h, refl)

pub >>=-ok {ℓ} : {A : Type ℓ} (m : Outcome A) → (m >>= λ a. ok a) ≡ m
>>=-ok (ok a) = refl
>>=-ok (throw e) = refl
>>=-ok undefined = refl

pub >>=-assoc {ℓ κ μ} :
    {A : Type ℓ} {B : Type κ} {C : Type μ} (m : Outcome A) (f : A → Outcome B) (g : B → Outcome C)
    → ((m >>= f) >>= g) ≡ (m >>= λ a. f a >>= g)
>>=-assoc (ok a) f g = refl
>>=-assoc (throw e) f g = refl
>>=-assoc undefined f g = refl

pub >>=-cong {ℓ κ} :
    {A : Type ℓ} {B : Type κ} (m : Outcome A) (f g : A → Outcome B)
    → ((a : A) → f a ≡ g a)
    → (m >>= f) ≡ (m >>= g)
>>=-cong (ok a) f g h = h a
>>=-cong (throw e) f g h = refl
>>=-cong undefined f g h = refl
