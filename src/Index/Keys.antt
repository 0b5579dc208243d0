-- ===== src/Index/Keys.antt =====
-- The keys of `SortedIterator`: sorted, and the same keys as before.
use cdump.Prelude.{
  ℕ, zero, suc, ◌≤◌, ◌≡◌, ◌⊎◌, refl, ap, inl, inr, Bool-cases, some, some-injective, List, [], ◌∷◌,
  ◌++◌, arith, length, get_elem?, All,
}
use cdump.Oid.{Oid, IsOid, less}
use cdump.Oid.Laws.{number, less-number}
use cdump.Index.{sorted_insert, sort}
use cdump.Index.Search.{IsSorted}

-- `a` stands in the list.
abbrev pub Has : {A : Type 0} → A → List A → Type 0
Has a [] = ⊥
Has a (x ∷ xs) = (x ≡ a) ⊎ Has a xs

pub Has-get_elem? :
    {A : Type 0} (xs : List A) (a : A) → Has a xs → (i : ℕ) × (get_elem? xs i ≡ some a)
Has-get_elem? [] a h = absurd h
Has-get_elem? (x ∷ xs) a (inl e) = (0, ap some e)
Has-get_elem? (x ∷ xs) a (inr h) = let (i, e) = Has-get_elem? xs a h in (suc i, e)

pub get_elem?-Has : {A : Type 0} (xs : List A) (i : ℕ) (a : A) → get_elem? xs i ≡ some a → Has a xs
get_elem?-Has [] i a h = cc
get_elem?-Has (x ∷ xs) zero a h = inl (some-injective x a h)
get_elem?-Has (x ∷ xs) (suc i) a h = inr (get_elem?-Has xs i a h)

pub Has-append_left : {A : Type 0} (xs ys : List A) (a : A) → Has a xs → Has a (xs ++ ys)
Has-append_left [] ys a h = absurd h
Has-append_left (x ∷ xs) ys a (inl e) = inl e
Has-append_left (x ∷ xs) ys a (inr h) = inr (Has-append_left xs ys a h)

pub Has-append_right : {A : Type 0} (xs ys : List A) (a : A) → Has a ys → Has a (xs ++ ys)
Has-append_right [] ys a h = h
Has-append_right (x ∷ xs) ys a h = inr (Has-append_right xs ys a h)

pub append-Has : {A : Type 0} (xs ys : List A) (a : A) → Has a (xs ++ ys) → Has a xs ⊎ Has a ys
append-Has [] ys a h = inr h
append-Has (x ∷ xs) ys a (inl e) = inl (inl e)
append-Has (x ∷ xs) ys a (inr h) = first (append-Has xs ys a h)
  where
    first : Has a xs ⊎ Has a ys → Has a (x ∷ xs) ⊎ Has a ys
    first (inl m) = inl (inr m)
    first (inr m) = inr m

module _ {ℓ} (P : Oid → Type ℓ) where
  All-sorted_insert : (k : Oid) (js : List Oid) → P k → All P js → All P (sorted_insert k js)
  unfolding sorted_insert
  All-sorted_insert k [] p q = (p, tt)
  All-sorted_insert k (j ∷ js) p q = elim (Bool-cases (less j k)) [
    | inl before ↦ rw before (q.0, All-sorted_insert k js p q.1)
    | inr here ↦ rw here (p, q)
  ]

  pub All-sort : (ks : List Oid) → All P ks → All P (sort ks)
  unfolding sort
  All-sort [] p = tt
  All-sort (k ∷ ks) p = All-sorted_insert k (sort ks) p.0 (All-sort ks p.1)

-- An insertion behind the head.
pub Has-insert_behind :
    {A : Type 0} (k j a : A) (js ys : List A)
    → ((k ≡ a) ⊎ Has a js → Has a ys)
    → (k ≡ a) ⊎ Has a (j ∷ js)
    → Has a (j ∷ ys)
Has-insert_behind k j a js ys step (inl e) = inr (step (inl e))
Has-insert_behind k j a js ys step (inr (inl e)) = inl e
Has-insert_behind k j a js ys step (inr (inr m)) = inr (step (inr m))

Has-sorted_insert : (k a : Oid) (js : List Oid) → (k ≡ a) ⊎ Has a js → Has a (sorted_insert k js)
unfolding sorted_insert
Has-sorted_insert k a [] h = h
Has-sorted_insert k a (j ∷ js) h = elim (Bool-cases (less j k)) [
  | inl before ↦
      rw before (Has-insert_behind k j a js (sorted_insert k js) (Has-sorted_insert k a js) h)
  | inr here ↦ rw here h
]

pub Has-sort : (a : Oid) (ks : List Oid) → Has a ks → Has a (sort ks)
unfolding sort
Has-sort a [] h = h
Has-sort a (k ∷ ks) (inl e) = Has-sorted_insert k a (sort ks) (inl e)
Has-sort a (k ∷ ks) (inr h) = Has-sorted_insert k a (sort ks) (inr (Has-sort a ks h))

length-sorted_insert : (k : Oid) (js : List Oid) → length (sorted_insert k js) ≡ suc (length js)
unfolding sorted_insert
length-sorted_insert k [] = refl
length-sorted_insert k (j ∷ js) = ground (arith, length-sorted_insert k js)

pub length-sort : (ks : List Oid) → length (sort ks) ≡ length ks
unfolding sort
length-sort [] = refl
length-sort (k ∷ ks) = omega (arith, length-sorted_insert k (sort ks), length-sort ks)

-- Each element is at most all that follow.
abbrev Ascends : List Oid → Type 0
Ascends [] = Unit {0}
Ascends (k ∷ ks) = All (λ j. number k ≤ number j) ks × Ascends ks

All-le_trans :
    (m n : ℕ) (js : List Oid) → m ≤ n → All (λ j. n ≤ number j) js → All (λ j. m ≤ number j) js
All-le_trans m n [] h p = tt
All-le_trans m n (j ∷ js) h p = (omega (arith, p.0), All-le_trans m n js h p.1)

Ascends-sorted_insert :
    (k : Oid) (js : List Oid) → IsOid k → All IsOid js → Ascends js → Ascends (sorted_insert k js)
unfolding sorted_insert
Ascends-sorted_insert k [] g p a = (tt, tt)
Ascends-sorted_insert k (j ∷ js) g p a = elim (Bool-cases (less j k)) [
  | inl before ↦ rw before (
    All-sorted_insert (λ i. number j ≤ number i) k js
        (ground (arith, before, less-number j k p.0 g)) a.0,
    Ascends-sorted_insert k js g p.1 a.1,
  )
  | inr here ↦
      let up : number k ≤ number j = ground (arith, here, less-number j k p.0 g) in
      rw here ((up, All-le_trans (number k) (number j) js up a.0), a)
]

Ascends-sort : (ks : List Oid) → All IsOid ks → Ascends (sort ks)
unfolding sort
Ascends-sort [] p = tt
Ascends-sort (k ∷ ks) p =
    Ascends-sorted_insert k (sort ks) p.0 (All-sort IsOid ks p.1) (Ascends-sort ks p.1)

All-at :
    (m : ℕ) (js : List Oid) (i : ℕ) (b : Oid)
    → All (λ j. m ≤ number j) js
    → get_elem? js i ≡ some b
    → m ≤ number b
All-at m [] i b p e = cc
All-at m (j ∷ js) zero b p e = omega (arith, p.0, ap number (some-injective j b e))
All-at m (j ∷ js) (suc i) b p e = All-at m js i b p.1 e

Ascends-IsSorted : (ks : List Oid) → Ascends ks → IsSorted ks
Ascends-IsSorted [] h i j a b le p q = cc
Ascends-IsSorted (k ∷ ks) h zero zero a b le p q =
    omega (arith, ap number (some-injective k a p), ap number (some-injective k b q))
Ascends-IsSorted (k ∷ ks) h zero (suc j) a b le p q =
    omega (arith, ap number (some-injective k a p), All-at (number k) ks j b h.0 q)
Ascends-IsSorted (k ∷ ks) h (suc i) zero a b le p q = absurd (omega arith)
Ascends-IsSorted (k ∷ ks) h (suc i) (suc j) a b le p q =
    Ascends-IsSorted ks h.1 i j a b (omega arith) p q

-- `std::sort` sorts identifiers.
pub sort-IsSorted : (ks : List Oid) → All IsOid ks → IsSorted (sort ks)
sort-IsSorted ks p = Ascends-IsSorted (sort ks) (Ascends-sort ks p)
