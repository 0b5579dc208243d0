-- ===== src/Oid/Laws.antt =====
-- The order and the equality of identifiers.
use cdump.Prelude.{ℕ, ◌<◌, ◌≡◌, ◌↔◌, sym, ap, ◌∙◌, true, arith, compare, ltb}
use cdump.Bytes.{be_value, memcmp, memcmp-be_value, be_value_injective}
use cdump.Oid.{Oid, IsOid, cmp, less, greater, equals}

-- The identifier as one 160-bit number, its first byte the highest.
abbrev pub number : Oid → ℕ
number o = be_value o.raw

pub cmp-number : (a b : Oid) → IsOid a → IsOid b → cmp a b ≡ compare (number a) (number b)
unfolding cmp
cmp-number a b p q = memcmp-be_value a.raw b.raw p.bytes q.bytes (p.size ∙ sym q.size)

pub number_injective : (a b : Oid) → IsOid a → IsOid b → number a ≡ number b → a ≡ b
number_injective a b p q e =
    ap (λ r. record { raw = r })
      (be_value_injective a.raw b.raw p.bytes q.bytes (p.size ∙ sym q.size) e)

-- On identifiers of 20 bytes `operator<` and `operator>` are the order of the 160-bit numbers, and
-- `operator==` is equality.
pub comparisons :
    (a b : Oid)
    → IsOid a
    → IsOid b
    → ((less a b ≡ true) ↔ (number a < number b))
      × ((greater a b ≡ true) ↔ (number b < number a))
      × ((equals a b ≡ true) ↔ (a ≡ b))
unfolding less greater equals cmp
comparisons a b p q = (
  (λ h. ground (arith, order, h), λ h. ground (arith, order, h)),
  (λ h. ground (arith, order, h), λ h. ground (arith, order, h)),
  (
    λ h. number_injective a b p q (ground (arith, order, h)),
    λ h. ground (arith, order, ap number h),
  ),
)
  where
    order : memcmp a.raw b.raw ≡ compare (number a) (number b)
    order = memcmp-be_value a.raw b.raw p.bytes q.bytes (p.size ∙ sym q.size)

pub less-number : (a b : Oid) → IsOid a → IsOid b → less a b ≡ ltb (number a) (number b)
unfolding less cmp
less-number a b p q = ground (arith, cmp-number a b p q)

pub equals-path : (a b : Oid) → IsOid a → IsOid b → equals a b ≡ true → a ≡ b
equals-path a b p q h = (comparisons a b p q).2.0 h
