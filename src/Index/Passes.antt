-- ===== src/Index/Passes.antt =====
-- The passes of `Saver` over the sorted keys.
use cdump.Prelude.{
  ℕ, zero, suc, ◌+◌, ◌≤◌, ◌<◌, ◌≡◌, refl, ap, subst, ◌∙◌, Bool-cases, inl, inr, some,
  some-injective, List, [], ◌∷◌, ok, arith, length, get_elem?, All, map,
}
use cdump.Prelude.{leb}
use native.Mathlib.Nat.{add-zero}
use cdump.Bytes.{IsWord}
use cdump.Oid.{Oid, IsOid, peek_first}
use cdump.Index.{FileIndex, Entry, deref}
use cdump.Index.Kinds.{IsKind}
use cdump.Index.Search.{IsSorted}
use cdump.Index.Tops.{count_le, count_le_bounds}
use cdump.Index.Save.{skip_top, tops_loop, deref_all}

-- Dereferencing the iterator at `k` gives the entry `e`, of that key and of 32-bit values.
pub record Derefs (index : FileIndex) (k : Oid) (e : Entry) : Type 0 where
  pub found : deref index k ≡ ok e
  pub same : e.0 ≡ k
  pub word : IsWord e.1.offset
  pub kind : IsKind e.1.kind

abbrev pub Known : FileIndex → Oid → Type 0
Known index k = (e : Entry) × Derefs index k e

IsSorted-behind : (k : Oid) (ks : List Oid) → IsSorted (k ∷ ks) → IsSorted ks
IsSorted-behind k ks s i j a b le p q = s (suc i) (suc j) a b (omega arith) p q

entries :
    (num m top rounds : ℕ) (ks rest : List Oid) (ts : List ℕ)
    → m ≡ num + count_le top ks
    → ((t : ℕ) → top ≤ t → m + count_le t rest ≡ num + count_le t ks)
    → ((t : ℕ) → t < rounds → get_elem? ts t ≡ some (m + count_le (top + 1 + t) rest))
    → (t : ℕ) → t < suc rounds
    → get_elem? (m ∷ ts) t ≡ some (num + count_le (top + t) ks)
entries num m top rounds ks rest ts em ec at_t zero h = rw add-zero (ap some em)
entries num m top rounds ks rest ts em ec at_t (suc t) h =
    at_t t (omega arith) ∙ ap some (ec (top + 1 + t) (omega arith) ∙ shift)
  where
    next : top + 1 + t ≡ top + suc t
    next = omega arith

    shift : num + count_le (top + 1 + t) ks ≡ num + count_le (top + suc t) ks
    shift = ap (λ n. num + count_le n ks) next

module _ (index : FileIndex) where
  -- What the inner loop leaves of the keys, and what it counts.
  skip_top_lem :
      (top : ℕ) (ks : List Oid) (num : ℕ)
      → All (Known index) ks
      → All IsOid ks
      → IsSorted ks
      → (rest : List Oid) × (m : ℕ) × (skip_top index top ks num ≡ ok (rest, m))
        × (m ≡ num + count_le top ks)
        × ((t : ℕ) → top ≤ t → m + count_le t rest ≡ num + count_le t ks)
        × All (Known index) rest
        × All IsOid rest
        × IsSorted rest
  unfolding skip_top count_le
  skip_top_lem top [] num p q s = ([], num, refl, omega arith, λ t h. refl, tt, tt, s)
  skip_top_lem top (k ∷ ks) num p q s = elim (Bool-cases (leb (peek_first k) top)) [
    | inl low ↦
        let (rest, m, e, em, ec, p', q', s') =
          skip_top_lem top ks (num + 1) p.1 q.1 (IsSorted-behind k ks s) in
        (
          rest,
          m,
          rw (p.0.1.found, p.0.1.same, low) e,
          ground (arith, low, em),
          λ t h. ground (arith, low, ec t h),
          p',
          q',
          s',
        )
    | inr high ↦
        let (_, none_le) = count_le_bounds top (k ∷ ks) 0 k q s refl in
        (
          k ∷ ks,
          num,
          rw (p.0.1.found, p.0.1.same, high) refl,
          ground (arith, none_le (ground (arith, high))),
          λ t h. refl,
          p,
          q,
          s,
        )
  ]

  -- Entry `t` of the table that the outer loop makes.
  pub tops_loop_lem :
      (rounds top : ℕ) (ks : List Oid) (num : ℕ)
      → All (Known index) ks
      → All IsOid ks
      → IsSorted ks
      → (ts : List ℕ) × (tops_loop index rounds top ks num ≡ ok ts)
        × (length ts ≡ rounds)
        × ((t : ℕ) → t < rounds → get_elem? ts t ≡ some (num + count_le (top + t) ks))
  unfolding tops_loop
  tops_loop_lem zero top ks num p q s = ([], refl, refl, λ t h. absurd (omega arith))
  tops_loop_lem (suc rounds) top ks num p q s =
      let (rest, m, e, em, ec, p', q', s') = skip_top_lem top ks num p q s in
      let (ts, et, size, at_t) = tops_loop_lem rounds (top + 1) rest m p' q' s' in
      (m ∷ ts, rw (e, et) refl, omega (arith, size), entries num m top rounds ks rest ts em ec at_t)

  abbrev pub DerefAll : List Oid → List Entry → Type 0
  DerefAll [] [] = Unit {0}
  DerefAll [] (e ∷ es) = ⊥
  DerefAll (k ∷ ks) [] = ⊥
  DerefAll (k ∷ ks) (e ∷ es) = Derefs index k e × DerefAll ks es

  pub deref_all_lem :
      (ks : List Oid)
      → All (Known index) ks
      → (es : List Entry) × (deref_all index ks ≡ ok es) × DerefAll ks es
  unfolding deref_all
  deref_all_lem [] p = ([], refl, tt)
  deref_all_lem (k ∷ ks) p =
      let (es, e, d) = deref_all_lem ks p.1 in (p.0.0 ∷ es, rw (p.0.1.found, e) refl, (p.0.1, d))

  pub DerefAll-length : (ks : List Oid) (es : List Entry) → DerefAll ks es → length es ≡ length ks
  DerefAll-length [] [] d = refl
  DerefAll-length [] (e ∷ es) d = absurd d
  DerefAll-length (k ∷ ks) [] d = absurd d
  DerefAll-length (k ∷ ks) (e ∷ es) d = ap suc (DerefAll-length ks es d.1)

  pub DerefAll-get_elem? :
      (ks : List Oid) (es : List Entry) (i : ℕ) (k : Oid)
      → DerefAll ks es
      → get_elem? ks i ≡ some k
      → (e : Entry) × (get_elem? es i ≡ some e) × Derefs index k e
  DerefAll-get_elem? [] es i k d h = cc
  DerefAll-get_elem? (j ∷ ks) [] i k d h = absurd d
  DerefAll-get_elem? (j ∷ ks) (e ∷ es) zero k d h =
      (e, refl, subst (λ x. Derefs index x e) (some-injective j k h) d.0)
  DerefAll-get_elem? (j ∷ ks) (e ∷ es) (suc i) k d h = DerefAll-get_elem? ks es i k d.1 h

  pub DerefAll-IsKind :
      (ks : List Oid) (es : List Entry) → DerefAll ks es → All (λ e. IsKind e.1.kind) es
  DerefAll-IsKind [] [] d = tt
  DerefAll-IsKind [] (e ∷ es) d = absurd d
  DerefAll-IsKind (k ∷ ks) [] d = absurd d
  DerefAll-IsKind (k ∷ ks) (e ∷ es) d = (d.0.kind, DerefAll-IsKind ks es d.1)

  pub DerefAll-IsWord :
      (ks : List Oid) (es : List Entry)
      → DerefAll ks es
      → All IsWord (map (λ (e : Entry). e.1.offset) es)
  DerefAll-IsWord [] [] d = tt
  DerefAll-IsWord [] (e ∷ es) d = absurd d
  DerefAll-IsWord (k ∷ ks) [] d = absurd d
  DerefAll-IsWord (k ∷ ks) (e ∷ es) d = (d.0.word, DerefAll-IsWord ks es d.1)
