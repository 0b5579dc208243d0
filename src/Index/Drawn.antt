-- ===== src/Index/Drawn.antt =====
-- Indices whose kinds all stand in a short list.
use cdump.Prelude.{
  ℕ, suc, ◌≤◌, ◌<◌, ◌≡◌, ◌≢◌, refl, sym, ap, ◌∙◌, subst, inl, inr, Bool-cases, List, [], ◌∷◌, ok,
  ok->>=, ok-injective, arith, length, All,
}
use cdump.Kind.{Kind, less, htobe32}
use cdump.Oid.{Oid}
use cdump.Index.{FileIndex, Entry, deref, sorted_keys}
use cdump.Index.Few.{KindsFit}
use cdump.Index.Keys.{Has}
use cdump.Index.Save.{set_insert, kind_set, deref_all}

-- Taking an element out of a list.
without :
    {A : Type 0} (x : A) (ys : List A)
    → Has x ys
    → (rest : List A) × (length ys ≡ suc (length rest)) × ((y : A) → Has y ys → y ≢ x → Has y rest)
without x [] h = absurd h
without x (z ∷ ys) (inl e) =
    (ys, refl, λ y m differ. elim m [ inl f ↦ absurd (differ (sym f ∙ e)) | inr n ↦ n ])
without x (z ∷ ys) (inr h) =
    let (rest, size, keep) = without x ys h in
    (z ∷ rest, ap suc size, λ y m differ. elim m [ inl f ↦ inl f | inr n ↦ inr (keep y n differ) ])

-- Kinds in ascending order.
abbrev Rises : List Kind → Type 0
Rises [] = Unit {0}
Rises (k ∷ ks) = All (λ j. htobe32 k.raw < htobe32 j.raw) ks × Rises ks

All-Has :
    (ks ys rest : List Kind) (k : Kind)
    → All (λ j. htobe32 k.raw < htobe32 j.raw) ks
    → ((y : Kind) → Has y ys → y ≢ k → Has y rest)
    → All (λ j. Has j ys) ks
    → All (λ j. Has j rest) ks
All-Has [] ys rest k r keep h = tt
All-Has (j ∷ ks) ys rest k r keep h = (
  keep j h.0 (λ e. omega (arith, r.0, ap (λ (x : Kind). htobe32 x.raw) e)),
  All-Has ks ys rest k r.1 keep h.1,
)

-- Kinds in ascending order that all stand in a list are no more than the list's.
length-drawn : (ks ys : List Kind) → Rises ks → All (λ j. Has j ys) ks → length ks ≤ length ys
length-drawn [] ys r h = omega arith
length-drawn (k ∷ ks) ys r h =
    let (rest, size, keep) = without k ys h.0 in
    omega (arith, size, length-drawn ks rest r.1 (All-Has ks ys rest k r.0 keep h.1))

module _ (P : Kind → Type 0) where
  set_insert-All : (k : Kind) (ks : List Kind) → P k → All P ks → All P (set_insert k ks)
  unfolding set_insert
  set_insert-All k [] p q = (p, tt)
  set_insert-All k (j ∷ js) p q = elim (Bool-cases (less k j)) [
    | inl before ↦ rw before (p, q)
    | inr other ↦ elim (Bool-cases (less j k)) [
      | inl after ↦ rw (other, after) (q.0, set_insert-All k js p q.1)
      | inr same ↦ rw (other, same) q
    ]
  ]

  kind_set-All : (es : List Entry) → All (λ e. P e.1.kind) es → All P (kind_set es)
  unfolding kind_set
  kind_set-All [] p = tt
  kind_set-All (e ∷ es) p = set_insert-All e.1.kind (kind_set es) p.0 (kind_set-All es p.1)

All-above :
    (m n : ℕ) (js : List Kind)
    → m < n
    → All (λ j. n < htobe32 j.raw) js
    → All (λ j. m < htobe32 j.raw) js
All-above m n [] h p = tt
All-above m n (j ∷ js) h p = (omega (arith, p.0), All-above m n js h p.1)

set_insert-Rises : (k : Kind) (ks : List Kind) → Rises ks → Rises (set_insert k ks)
unfolding set_insert less
set_insert-Rises k [] r = (tt, tt)
set_insert-Rises k (j ∷ js) r = elim (Bool-cases (less k j)) [
  | inl before ↦
      let up : htobe32 k.raw < htobe32 j.raw = ground (arith, before) in
      rw before ((up, All-above (htobe32 k.raw) (htobe32 j.raw) js up r.0), r)
  | inr other ↦ elim (Bool-cases (less j k)) [
    | inl after ↦
        rw (other, after)
          (
            set_insert-All (λ i. htobe32 j.raw < htobe32 i.raw) k js (ground (arith, after)) r.0,
            set_insert-Rises k js r.1,
          )
    | inr same ↦ rw (other, same) r
  ]
]

kind_set-Rises : (es : List Entry) → Rises (kind_set es)
unfolding kind_set
kind_set-Rises [] = tt
kind_set-Rises (e ∷ es) = set_insert-Rises e.1.kind (kind_set es) (kind_set-Rises es)

-- The key's entry has a kind of the list.
abbrev pub Draws : List Kind → FileIndex → Oid → Type 0
Draws kinds index k = (e : Entry) → deref index k ≡ ok e → Has e.1.kind kinds

deref_all-All :
    (kinds : List Kind) (index : FileIndex) (ks : List Oid) (es : List Entry)
    → All (Draws kinds index) ks
    → deref_all index ks ≡ ok es
    → All (λ e. Has e.1.kind kinds) es
unfolding deref_all
deref_all-All kinds index [] es d h =
    subst (All (λ (e : Entry). Has e.1.kind kinds)) (ok-injective [] es h) tt
deref_all-All kinds index (k ∷ ks) es d h =
    let (e, h', got) = ok->>= _ (deref index k) h in
    let (es', h'', got') = ok->>= _ (deref_all index ks) h' in
    subst (All (λ (e : Entry). Has e.1.kind kinds)) (ok-injective (e ∷ es') es h'')
      (d.0 e got, deref_all-All kinds index ks es' d.1 got')

pub drawn-KindsFit :
    (kinds : List Kind) (index : FileIndex)
    → length kinds ≤ 256
    → All (Draws kinds index) (sorted_keys index)
    → KindsFit index
drawn-KindsFit kinds index few d es h = omega (
  arith,
  few,
  length-drawn (kind_set es) kinds (kind_set-Rises es)
      (kind_set-All (λ k. Has k kinds) es (deref_all-All kinds index (sorted_keys index) es d h)),
)
