-- ===== src/Index/Search.antt =====
-- The binary search of `FileData::find` in a sorted range.
use cdump.Prelude.{
  ℕ, zero, suc, ◌+◌, ◌-◌, ◌/◌, ◌^◌, ◌≤◌, ◌<◌, ◌≡◌, ◌≢◌, inl, inr, refl, sym, ◌∙◌, Bool-cases,
  compare-cases, Option, none, some, true, List, Outcome, ok, arith, length, get_elem?,
  get_elem?-lt, lt-get_elem?, All, Ordering, compare, lt→ltb, ltb→lt, All-get_elem?, ltb,
}
use native.Mathlib.Nat.{pow-suc}
use cdump.Oid.{Oid, IsOid, cmp}
use cdump.Oid.Laws.{number, cmp-number, number_injective}
use cdump.Index.{FileData, Entry, at, signed_le, sub32, add32, middle, row, search}

-- The hashes do not go down.
abbrev pub IsSorted : List Oid → Type 0
IsSorted hs =
    (i j : ℕ) (a b : Oid)
    → i ≤ j
    → get_elem? hs i ≡ some a
    → get_elem? hs j ≡ some b
    → number a ≤ number b

-- What a right answer for `key` is: a row whose hash is the key, or no such row.
abbrev pub Answers : FileData → Oid → Option Entry → Type 0
Answers f key none = (i : ℕ) → get_elem? f.hashes i ≢ some key
Answers f key (some e) = (i : ℕ) × (get_elem? f.hashes i ≡ some key) × (row f key i ≡ ok (some e))

pub at-get_elem? {ℓ} :
    {A : Type ℓ} (xs : List A) (i : ℕ) {x : A} → get_elem? xs i ≡ some x → at xs i ≡ ok x
unfolding at
at-get_elem? xs i h = rw (h, at) refl

signed_le-range : (lo end : ℕ) → lo ≤ end → end < 2 ^ 31 → signed_le lo (sub32 end 1) ≡ ltb lo end
unfolding signed_le
signed_le-range lo end h k = ground arith

middle-range :
    (lo end : ℕ) → lo < end → end < 2 ^ 31 → middle lo (sub32 end 1) ≡ lo + (end - 1 - lo) / 2
middle-range lo end h k = omega arith

raise : (mid : ℕ) → mid < 2 ^ 31 → add32 mid 1 ≡ mid + 1
raise mid h = omega arith

module _ (f : FileData) (key : Oid) (small : length f.hashes < 2 ^ 31) (sorted : IsSorted f.hashes)
    (oids : All IsOid f.hashes) (good : IsOid key)
    (rows : (i : ℕ) → i < length f.hashes → (e : Entry) × (row f key i ≡ ok (some e))) where
  -- What the loop does behind the comparison with the row in the middle.
  next : ℕ → ℕ → ℕ → ℕ → Ordering → Outcome (Option Entry)
  next k low high mid o = elim o [
    | Ordering.lt ↦ search f key k low (sub32 mid 1)
    | Ordering.gt ↦ search f key k (add32 mid 1) high
    | Ordering.eq ↦ row f key mid
  ]

  search-next :
      (k low high : ℕ) (h : Oid)
      → signed_le low high ≡ true
      → get_elem? f.hashes (middle low high) ≡ some h
      → search f key (suc k) low high ≡ next k low high (middle low high) (cmp key h)
  unfolding search next
  search-next k low high h more eh = rw (more, at-get_elem? f.hashes (middle low high) eh) refl

  search-round :
      (k lo mid end : ℕ) (h : Oid)
      → lo < end
      → end ≤ length f.hashes
      → mid ≡ lo + (end - 1 - lo) / 2
      → get_elem? f.hashes mid ≡ some h
      → search f key (suc k) lo (sub32 end 1)
        ≡ next k lo (sub32 end 1) mid (compare (number key) (number h))
  search-round k lo mid end h more fits em eh =
      search-next k lo (sub32 end 1) h
        (signed_le-range lo end (omega arith) (omega arith) ∙ lt→ltb lo end more) (rw middle_mid eh)
      ∙ rw (middle_mid, cmp-number key h good (All-get_elem? IsOid f.hashes mid oids eh)) refl
    where
      middle_mid : middle lo (sub32 end 1) ≡ mid
      middle_mid = middle-range lo end more (omega arith) ∙ sym em

  below :
      (mid i : ℕ) (h : Oid)
      → get_elem? f.hashes mid ≡ some h
      → number key < number h
      → get_elem? f.hashes i ≡ some key
      → i < mid
  below mid i h eh less ei = elim (Bool-cases (ltb i mid)) [
    | inl yes' ↦ ltb→lt i mid yes'
    | inr no' ↦ absurd (omega (arith, sorted mid i h key (ground arith) eh ei))
  ]

  above :
      (mid i : ℕ) (h : Oid)
      → get_elem? f.hashes mid ≡ some h
      → number h < number key
      → get_elem? f.hashes i ≡ some key
      → mid < i
  above mid i h eh less ei = elim (Bool-cases (ltb mid i)) [
    | inl yes' ↦ ltb→lt mid i yes'
    | inr no' ↦ absurd (omega (arith, sorted i mid key h (ground arith) ei eh))
  ]

  Found : Outcome (Option Entry) → Type 0
  Found m = (r : Option Entry) × (m ≡ ok r) × Answers f key r

  Found-row :
      (mid : ℕ) (h : Oid)
      → get_elem? f.hashes mid ≡ some h
      → number key ≡ number h
      → Found (row f key mid)
  unfolding Found
  Found-row mid h eh e =
      let (entry, er) = rows mid (lt-get_elem? f.hashes mid eh) in
      let same : h ≡ key =
        sym (number_injective key h good (All-get_elem? IsOid f.hashes mid oids eh) e) in
      (some entry, er, (mid, rw (← same) eh, er))

  -- The rows from `lo` up to `end` (`high` is `end - 1`) hold the key, if any row does.
  pub search-Answers :
      (k lo end : ℕ)
      → lo ≤ end
      → end ≤ length f.hashes
      → end - lo < 2 ^ k
      → ((i : ℕ) → get_elem? f.hashes i ≡ some key → (lo ≤ i) × (i < end))
      → (r : Option Entry) × (search f key (suc k) lo (sub32 end 1) ≡ ok r) × Answers f key r
  unfolding Found next
  search-Answers zero lo end h fits narrow inside = (
    none,
    unfold search in rw (signed_le-range lo end h (omega arith)) (ground arith),
    λ i e. absurd (omega (arith, inside i e)),
  )
  search-Answers (suc k) lo end h fits narrow inside = elim (Bool-cases (ltb lo end)) [
    | inr empty ↦ (
      none,
      unfold search in rw (signed_le-range lo end h (omega arith), empty),
      λ i e. ground (arith, inside i e),
    )
    | inl more ↦
        let mid : ℕ = lo + (end - 1 - lo) / 2 in
        let (hm, eh) = get_elem?-lt f.hashes mid (ground arith) in
        rw (search-round (suc k) lo mid end hm (ltb→lt lo end more) fits refl eh)
          (elim (compare-cases (number key) (number hm)) [
            | inl (c, less) ↦ rw c (
                search-Answers k lo mid (omega arith) (ground arith) (ground (arith, pow-suc 2 k))
                  (λ i e. ((inside i e).0, below mid i hm eh less e)))
            | inr (inl (c, same)) ↦ rw c (Found-row mid hm eh same)
            | inr (inr (c, more')) ↦
                rw (c, raise mid (ground arith))
                  (search-Answers k (mid + 1) end (ground arith) fits (ground (arith, pow-suc 2 k))
                    (λ i e. (omega (arith, above mid i hm eh more' e), (inside i e).1)))
          ])
  ]
