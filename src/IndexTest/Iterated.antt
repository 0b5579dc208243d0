-- ===== src/IndexTest/Iterated.antt =====
-- The sorted iterator of the test's index gives every number that was inserted, once.
use cdump.Prelude.{
  ℕ, zero, suc, ◌<◌, ◌≤◌, ◌≡◌, ◌≢◌, refl, sym, ap, subst, ◌∙◌, inl, inr, true, some, List, [], ◌∷◌,
  ok, ok-injective, arith, All, All-map, length, ◌==◌, replicate,
}
use cdump.Bytes.{IsByte, be_value}
use cdump.Kind
use cdump.Oid.{Oid, IsOid, zero_oid}
use cdump.Oid.Laws.{number, comparisons}
use cdump.Index.{FileIndex, deref, sorted_keys}
use cdump.Index.Find.{keys, keys-IsOid, FindSpec, find-FindSpec}
use cdump.Index.Keys.{Has, Has-sort, All-sort}
use cdump.Index.Strict.{Rises, sort-Rises}
use cdump.IndexTest.{IndexTracker, entry, erase, is_next, iter_loop, check_iter}
use cdump.IndexTest.Erased.{
  erase-count, erase-Ascends, erase-keeps, erase-Has, range-Ascends, range-Has,
}
use cdump.IndexTest.Tracked.{IsSpread, IsHash, Tracks, Has-range}
use cdump.Tutil.{int_oid}
use cdump.Tutil.Sizes.{Ascends}

zeros-IsByte : (n : ℕ) → All IsByte (replicate n 0)
zeros-IsByte zero = tt
zeros-IsByte (suc n) = (omega arith, zeros-IsByte n)

zero_oid-IsOid : IsOid zero_oid
unfolding zero_oid
zero_oid-IsOid = record { size = refl; bytes = zeros-IsByte 20 }

zero_oid-number : number zero_oid ≡ 0
unfolding zero_oid be_value
zero_oid-number = refl

module _ (sha1 : List ℕ → List ℕ) (bound : ℕ) (spread : IsSpread sha1 bound) where
  -- The key's entry is that of a number of the list.
  abbrev Listed : FileIndex → List ℕ → Oid → Type 0
  Listed index items k =
      (i : ℕ) × Has i items × (k ≡ int_oid sha1 i) × (deref index k ≡ ok (entry sha1 i))

  is_next-entry :
      (i : ℕ) (k last : Oid)
      → i < bound
      → IsOid last
      → k ≡ int_oid sha1 i
      → number last < number k
      → is_next sha1 (entry sha1 i) last ≡ true
  unfolding is_next entry Kind.equals
  is_next-entry i k last h g e up =
      let (_, _, (_, same)) =
        comparisons (int_oid sha1 i) (int_oid sha1 i) (spread.twenty i h) (spread.twenty i h) in
      let (_, (_, above), _) = comparisons (int_oid sha1 i) last (spread.twenty i h) g in
      ground (arith, same refl, above (omega (arith, up, ap number e)))

  without_key :
      (k : Oid) (i : ℕ) (index : FileIndex) (items : List ℕ) (ks : List Oid)
      → k ≡ int_oid sha1 i
      → All (λ j. number k < number j) ks
      → All (Listed index items) ks
      → All (Listed index (erase i items).1) ks
  without_key k i index items [] e up p = tt
  without_key k i index items (l ∷ ks) e up ((j, m, f, d), p) = (
    (
      j,
      erase-keeps i j items
          (λ same. omega (arith, up.0, ap number (e ∙ ap (int_oid sha1) (sym same) ∙ sym f))) m,
      f,
      d,
    ),
    without_key k i index items ks e up.1 p,
  )

  nothing_left : (items : List ℕ) → ((i : ℕ) → Has i items → ⊥) → (length items == 0) ≡ true
  nothing_left [] h = refl
  nothing_left (i ∷ items) h = absurd (h i (inl refl))

  remaining :
      (k : Oid) (i j : ℕ) (items : List ℕ) (ks : List Oid)
      → i < bound
      → k ≡ int_oid sha1 i
      → j ≢ i
      → (Has (int_oid sha1 j) (k ∷ ks)) × (j < bound)
      → (Has (int_oid sha1 j) ks) × (j < bound)
  remaining k i j items ks h e differ (inl f, less) =
      absurd (differ (spread.apart j i less h (sym f ∙ e)))
  remaining k i j items ks h e differ (inr m, less) = (m, less)

  iter_loop-passes :
      (index : FileIndex) (ks : List Oid) (items : List ℕ) (last : Oid)
      → IsOid last
      → All IsOid ks
      → All (λ k. number last < number k) ks
      → Rises ks
      → Ascends items
      → All (Listed index items) ks
      → ((i : ℕ) → Has i items → Has (int_oid sha1 i) ks × (i < bound))
      → iter_loop sha1 index ks items last ≡ ok true
  unfolding iter_loop entry
  iter_loop-passes index [] items last g gs up r a p back =
      ap ok (nothing_left items λ i m. (back i m).0)
  iter_loop-passes index (k ∷ ks) items last g gs up r a ((i, m, e, d), p) back =
      let h : i < bound = (back i m).1 in
      rw (d, is_next-entry i k last h g e up.0, erase-count i items m)
        (iter_loop-passes index ks (erase i items).1 (int_oid sha1 i) (spread.twenty i h) gs.1
          (subst (λ l. All (λ j. number l < number j) ks) e r.0) r.1 (erase-Ascends i items a)
          (without_key k i index items ks e r.0 p)
          (λ j n.
            let (here, differ) = erase-Has i j items a n in
            remaining k i j items ks h e differ (back j here)))

  -- The keys of a tracked index.
  keys-Listed :
      (n : ℕ) (t : IndexTracker)
      → n ≤ bound
      → Tracks sha1 n t
      → All (Listed t.index t.inserted) (sorted_keys t.index)
  unfolding sorted_keys deref
  keys-Listed n t h tr =
      All-sort (Listed t.index t.inserted) (keys t.index)
        (All-map (IsHash sha1 n) (Listed t.index t.inserted) (keys t.index) listed tr.hashes)
    where
      listed : (k : Oid) → IsHash sha1 n k → Listed t.index t.inserted k
      listed k (i, less, e) = (
        i,
        subst (Has i) (sym tr.items) (Has-range n 0 i (omega arith) (omega (arith, less))),
        e,
        rw e (rw (tr.answers i less, deref) refl),
      )

  held :
      (n i : ℕ) (t : IndexTracker)
      → n ≤ bound
      → i < n
      → Tracks sha1 n t
      → Has (int_oid sha1 i) (sorted_keys t.index)
  unfolding sorted_keys
  held n i t h less tr =
      let (q, got, s) =
        find-FindSpec t.index (int_oid sha1 i) tr.well (spread.twenty i (omega arith)) in
      let same : q ≡ some (entry sha1 i) = ok-injective q _ (sym got ∙ tr.answers i less) in
      let (_, _, _, m) = subst (FindSpec (keys t.index) (int_oid sha1 i)) same s in
      Has-sort (int_oid sha1 i) (keys t.index) m

  above_zero : (n : ℕ) (k : Oid) → n ≤ bound → IsHash sha1 n k → number zero_oid < number k
  above_zero n k h (i, less, e) =
      omega (arith, zero_oid-number, spread.nonzero i (omega arith), ap number e)

  -- `check_iter` passes on a tracked index.
  pub check_iter-passes :
      (n : ℕ) (t : IndexTracker) → n ≤ bound → Tracks sha1 n t → check_iter sha1 t ≡ ok true
  unfolding check_iter sorted_keys
  check_iter-passes n t h tr =
      iter_loop-passes t.index (sorted_keys t.index) t.inserted zero_oid zero_oid-IsOid
        (All-sort IsOid (keys t.index) (keys-IsOid t.index tr.well))
        (All-sort (λ k. number zero_oid < number k) (keys t.index)
          (All-map (IsHash sha1 n) _ (keys t.index) (λ k. above_zero n k h) tr.hashes))
        (sort-Rises (keys t.index) (keys-IsOid t.index tr.well) tr.apart)
        (subst Ascends (sym tr.items) (range-Ascends n 0)) (keys-Listed n t h tr)
        (λ i m.
          let (_, less) = range-Has n 0 i (subst (Has i) tr.items m) in
          (held n i t h (omega (arith, less)) tr, omega (arith, less)))
