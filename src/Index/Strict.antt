-- ===== src/Index/Strict.antt =====
-- Sorting keys that all differ.
use cdump.Prelude.{ℕ, ◌<◌, ◌≢◌, Bool-cases, inl, inr, List, [], ◌∷◌, arith, All}
use cdump.Oid.{Oid, IsOid, less}
use cdump.Oid.Laws.{number, less-number}
use cdump.Index.{sorted_insert, sort}
use cdump.Index.Keys.{All-sort}

-- No two identifiers of the list are the same number.
abbrev pub Apart : List Oid → Type 0
Apart [] = Unit {0}
Apart (k ∷ ks) = All (λ j. number j ≢ number k) ks × Apart ks

-- Each identifier is below all that follow.
abbrev pub Rises : List Oid → Type 0
Rises [] = Unit {0}
Rises (k ∷ ks) = All (λ j. number k < number j) ks × Rises ks

All-above :
    (m n : ℕ) (js : List Oid) → m < n → All (λ j. n < number j) js → All (λ j. m < number j) js
All-above m n [] h p = tt
All-above m n (j ∷ js) h p = (omega (arith, p.0), All-above m n js h p.1)

above_inserted :
    (n : ℕ) (k : Oid) (js : List Oid)
    → n < number k
    → All (λ j. n < number j) js
    → All (λ j. n < number j) (sorted_insert k js)
unfolding sorted_insert
above_inserted n k [] h p = (h, tt)
above_inserted n k (j ∷ js) h p = elim (Bool-cases (less j k)) [
  | inl before ↦ rw before (p.0, above_inserted n k js h p.1)
  | inr here ↦ rw here (h, p)
]

sorted_insert-Rises :
    (k : Oid) (js : List Oid)
    → IsOid k
    → All IsOid js
    → All (λ j. number j ≢ number k) js
    → Rises js
    → Rises (sorted_insert k js)
unfolding sorted_insert
sorted_insert-Rises k [] g p a r = (tt, tt)
sorted_insert-Rises k (j ∷ js) g p a r = elim (Bool-cases (less j k)) [
  | inl before ↦ rw before (
    above_inserted (number j) k js (ground (arith, before, less-number j k p.0 g)) r.0,
    sorted_insert-Rises k js g p.1 a.1 r.1,
  )
  | inr here ↦
      let up : number k < number j = ground (arith, here, a.0, less-number j k p.0 g) in
      rw here ((up, All-above (number k) (number j) js up r.0), r)
]

pub sort-Rises : (ks : List Oid) → All IsOid ks → Apart ks → Rises (sort ks)
unfolding sort
sort-Rises [] p a = tt
sort-Rises (k ∷ ks) p a =
    sorted_insert-Rises k (sort ks) p.0 (All-sort IsOid ks p.1)
      (All-sort (λ j. number j ≢ number k) ks a.0) (sort-Rises ks p.1 a.1)

differ_above :
    (k : Oid) (ks : List Oid)
    → All (λ j. number k < number j) ks
    → All (λ j. number j ≢ number k) ks
differ_above k [] p = tt
differ_above k (j ∷ js) p = (λ e. omega (arith, e, p.0), differ_above k js p.1)

pub Rises-Apart : (ks : List Oid) → Rises ks → Apart ks
Rises-Apart [] r = tt
Rises-Apart (k ∷ ks) r = (differ_above k ks r.0, Rises-Apart ks r.1)
