-- ===== src/Index/Kinds.antt =====
-- The set of kinds of a file, and the numbers of the kinds in it.
use cdump.Prelude.{
  ℕ, zero, suc, ◌+◌, ◌≡◌, ◌≢◌, ◌⊎◌, sym, ap, ◌∙◌, inl, inr, Bool-cases, some, some-injective, true,
  false, List, [], ◌∷◌, arith, get_elem?, All,
}
use cdump.Bytes.{
  IsWord, le_bytes, be_value, be_value_injective, le_bytes-IsByte, length-le_bytes,
  le_value-le_bytes, le_value,
}
use cdump.Kind.{Kind, less, htobe32}
use cdump.Kind.Laws.{htobe32-be_value}
use cdump.Index.{Entry}
use cdump.Index.Save.{set_insert, kind_set, kind_number}
use cdump.Index.Keys.{Has, Has-insert_behind}

abbrev pub IsKind : Kind → Type 0
IsKind k = IsWord k.raw

-- Kinds of which neither is less are equal.
pub less_antisym : (a b : Kind) → IsKind a → IsKind b → less a b ≡ false → less b a ≡ false → a ≡ b
unfolding less
less_antisym a b p q h k =
    ap (λ w. record { raw = w })
      (sym (le_value-le_bytes 4 a.raw (omega arith))
        ∙ ap le_value same
        ∙ le_value-le_bytes 4 b.raw (omega arith))
  where
    numbers : be_value (le_bytes 4 a.raw) ≡ be_value (le_bytes 4 b.raw)
    numbers = ground (arith, htobe32-be_value a.raw p, htobe32-be_value b.raw q)

    same : le_bytes 4 a.raw ≡ le_bytes 4 b.raw
    same =
        be_value_injective _ _ (le_bytes-IsByte 4 a.raw) (le_bytes-IsByte 4 b.raw)
          (length-le_bytes 4 a.raw ∙ sym (length-le_bytes 4 b.raw)) numbers

set_insert-IsKind :
    (k : Kind) (ks : List Kind) → IsKind k → All IsKind ks → All IsKind (set_insert k ks)
unfolding set_insert
set_insert-IsKind k [] p q = (p, tt)
set_insert-IsKind k (j ∷ js) p q = elim (Bool-cases (less k j)) [
  | inl before ↦ rw before (p, q)
  | inr other ↦ elim (Bool-cases (less j k)) [
    | inl after ↦ rw (other, after) (q.0, set_insert-IsKind k js p q.1)
    | inr same ↦ rw (other, same) q
  ]
]

merged : (k j a : Kind) (js : List Kind) → k ≡ j → (k ≡ a) ⊎ Has a (j ∷ js) → Has a (j ∷ js)
merged k j a js e (inl f) = inl (sym e ∙ f)
merged k j a js e (inr m) = m

-- The set has the new element, and those that it had.
set_insert-Has :
    (k a : Kind) (ks : List Kind)
    → IsKind k
    → All IsKind ks
    → (k ≡ a) ⊎ Has a ks
    → Has a (set_insert k ks)
unfolding set_insert
set_insert-Has k a [] p q h = h
set_insert-Has k a (j ∷ js) p q h = elim (Bool-cases (less k j)) [
  | inl before ↦ rw before h
  | inr other ↦ elim (Bool-cases (less j k)) [
    | inl after ↦
        rw (other, after)
          (Has-insert_behind k j a js (set_insert k js) (set_insert-Has k a js p q.1) h)
    | inr same ↦ rw (other, same) (merged k j a js (less_antisym k j p q.0 other same) h)
  ]
]

pub kind_set-IsKind : (es : List Entry) → All (λ e. IsKind e.1.kind) es → All IsKind (kind_set es)
unfolding kind_set
kind_set-IsKind [] p = tt
kind_set-IsKind (e ∷ es) p = set_insert-IsKind e.1.kind (kind_set es) p.0 (kind_set-IsKind es p.1)

pub kind_set-Has :
    (es : List Entry) (i : ℕ) (e : Entry)
    → All (λ e. IsKind e.1.kind) es
    → get_elem? es i ≡ some e
    → Has e.1.kind (kind_set es)
unfolding kind_set
kind_set-Has [] i e p h = cc
kind_set-Has (x ∷ es) zero e p h =
    set_insert-Has x.1.kind e.1.kind (kind_set es) p.0 (kind_set-IsKind es p.1)
      (inl (ap (λ (y : Entry). y.1.kind) (some-injective x e h)))
kind_set-Has (x ∷ es) (suc i) e p h =
    set_insert-Has x.1.kind e.1.kind (kind_set es) p.0 (kind_set-IsKind es p.1)
      (inr (kind_set-Has es i e p.1 h))

differ_below : (k j : Kind) → less k j ≡ true → j ≢ k
unfolding less
differ_below k j h e = ground (arith, h, ap (λ (x : Kind). htobe32 x.raw) e)

differ_above : (k j : Kind) → less j k ≡ true → j ≢ k
unfolding less
differ_above k j h e = ground (arith, h, ap (λ (x : Kind). htobe32 x.raw) e)

next :
    (k j : Kind) (js : List Kind) (n : ℕ)
    → j ≢ k
    → (Has k js → (i : ℕ) × (kind_number k js (n + 1) ≡ n + 1 + i) × (get_elem? js i ≡ some k))
    → Has k (j ∷ js)
    → (i : ℕ) × (kind_number k js (n + 1) ≡ n + i) × (get_elem? (j ∷ js) i ≡ some k)
next k j js n differ rest (inl e) = absurd (differ e)
next k j js n differ rest (inr m) = let (i, e, g) = rest m in (suc i, omega (arith, e), g)

-- A kind of the set is found at its number.
pub kind_number-get_elem? :
    (k : Kind) (ks : List Kind) (n : ℕ)
    → IsKind k
    → All IsKind ks
    → Has k ks
    → (i : ℕ) × (kind_number k ks n ≡ n + i) × (get_elem? ks i ≡ some k)
unfolding kind_number
kind_number-get_elem? k [] n p q h = absurd h
kind_number-get_elem? k (j ∷ js) n p q h = elim (Bool-cases (less k j)) [
  | inl before ↦
      rw before
        (next k j js n (differ_below k j before) (kind_number-get_elem? k js (n + 1) p q.1) h)
  | inr other ↦ elim (Bool-cases (less j k)) [
    | inl after ↦
        rw (other, after)
          (next k j js n (differ_above k j after) (kind_number-get_elem? k js (n + 1) p q.1) h)
    | inr same ↦ rw (other, same) (0, omega arith, ap some (less_antisym j k q.0 p same other))
  ]
]
