-- ===== src/ChunkTest/Stored.antt =====
-- The map of the unit test, when a key is new.
use cdump.Prelude.{◌≢◌, Bool-cases, inl, inr, List, [], ◌∷◌, arith, All}
use cdump.Oid.{Oid, IsOid, less}
use cdump.Oid.Laws.{number, less-number}
use cdump.ChunkTest.{Info, store}
use mathlib.Core.List.{Perm}
use mathlib.Core.List.Perm

-- The key is none of the map's.
abbrev pub IsFresh : Oid → List (Oid × Info) → Type 0
IsFresh key stored = All (λ (e : Oid × Info). IsOid e.0 × (number e.0 ≢ number key)) stored

module _ (key : Oid) (info : Info) (good : IsOid key) where
  pub store-Perm :
      (stored : List (Oid × Info))
      → IsFresh key stored
      → Perm (store key info stored) ((key, info) ∷ stored)
  unfolding store
  store-Perm [] f = Perm.rfl
  store-Perm (e ∷ stored) ((v, differ), f) = elim (Bool-cases (less key e.0)) [
    | inl before ↦ rw before Perm.rfl
    | inr other ↦ elim (Bool-cases (less e.0 key)) [
      | inl after ↦
          rw (other, after)
            (Perm.trans (Perm.cons e (store-Perm stored f)) (Perm.swap (key, info) e stored))
      | inr same ↦ absurd (
          ground
            (arith, differ, other, same, less-number key e.0 good v, less-number e.0 key v good))
    ]
  ]

  pub store-All :
      (P : Oid × Info → Type 0) (stored : List (Oid × Info))
      → IsFresh key stored
      → P (key, info)
      → All P stored
      → All P (store key info stored)
  unfolding store
  store-All P [] f p ps = (p, tt)
  store-All P (e ∷ stored) ((v, differ), f) p (q, ps) = elim (Bool-cases (less key e.0)) [
    | inl before ↦ rw before (p, (q, ps))
    | inr other ↦ elim (Bool-cases (less e.0 key)) [
      | inl after ↦ rw (other, after) (q, store-All P stored f p ps)
      | inr same ↦ absurd (
          ground
            (arith, differ, other, same, less-number key e.0 good v, less-number e.0 key v good))
    ]
  ]
