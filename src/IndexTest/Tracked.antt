-- ===== src/IndexTest/Tracked.antt =====
-- What the test's index knows once the first numbers were inserted.
use cdump.Prelude.{
  All-map, All-get_elem?, ℕ, zero, suc, ◌+◌, ◌%◌, ◌^◌, ◌≤◌, ◌<◌, ◌≡◌, ◌≢◌, refl, sym, ap, subst,
  ◌∙◌, inl, inr, false, Bool-cases, Option-cases, none, some, List, [], ◌∷◌, ok, arith, length,
  get_or, All, ltb, ◌==◌, if◌then◌else◌, map,
}
use cdump.Kind.{Kind}
use cdump.Oid.{Oid, IsOid, equals, increment, decrement}
use cdump.Oid.Laws.{number, number_injective, comparisons}
use cdump.Index.{insert, find, ram_find, append_keys}
use cdump.Index.Find.{IsIndex, IsEntry, FindSpec, keys, ram_find_lem}
use cdump.Index.Insert.{insert-fresh, find-insert, after_insert, insert-IsIndex}
use cdump.Index.Keys.{Has, Has-get_elem?, Has-append_left}
use cdump.Index.Kinds.{IsKind}
use cdump.Index.Strict.{Apart}
use cdump.IndexTest.{IndexTracker, new_tracker, kind_of, kind_table, scramble, entry, add, add_loop}
use cdump.Tutil.{int_oid, set_insert}

-- What the test takes for granted of the hashes of the numbers below a bound: they are identifiers of 20
-- bytes, not zero and all different, and none is next to another.
pub record IsSpread (sha1 : List ℕ → List ℕ) (bound : ℕ) : Type 0 where
  pub twenty : (i : ℕ) → i < bound → IsOid (int_oid sha1 i)
  pub nonzero : (i : ℕ) → i < bound → 0 < number (int_oid sha1 i)
  pub apart : (i j : ℕ) → i < bound → j < bound → int_oid sha1 i ≡ int_oid sha1 j → i ≡ j
  pub above : (i j : ℕ) → i < bound → j < bound → increment (int_oid sha1 i) ≢ int_oid sha1 j
  pub below : (i j : ℕ) → i < bound → j < bound → decrement (int_oid sha1 i) ≢ int_oid sha1 j

-- The numbers from `i` on.
abbrev pub range : ℕ → ℕ → List ℕ
range i zero = []
range i (suc rounds) = i ∷ range (i + 1) rounds

set_insert-range :
    (rounds i x : ℕ) → x ≡ i + rounds → set_insert x (range i rounds) ≡ range i (suc rounds)
unfolding set_insert
set_insert-range zero i x h = ap (λ y. y ∷ []) (omega (arith, h))
set_insert-range (suc rounds) i x h =
    rw (not_less, not_same)
      (ap (λ xs. i ∷ xs) (set_insert-range rounds (i + 1) x (omega (arith, h))))
  where
    not_less : ltb x i ≡ false
    not_less = ground (arith, h)

    not_same : (x == i) ≡ false
    not_same = ground (arith, h)

pub length-range : (rounds i : ℕ) → length (range i rounds) ≡ rounds
length-range zero i = refl
length-range (suc rounds) i = ap suc (length-range rounds (i + 1))

pub Has-range : (rounds i j : ℕ) → i ≤ j → j < i + rounds → Has j (range i rounds)
Has-range zero i j low high = absurd (omega arith)
Has-range (suc rounds) i j low high = elim (Bool-cases (i == j)) [
  | inl same ↦ inl (ground arith)
  | inr other ↦ inr (Has-range rounds (i + 1) j (ground arith) (omega arith))
]

get_or-Has : (xs : List Kind) (i : ℕ) (d : Kind) → i < length xs → Has (get_or xs i d) xs
get_or-Has [] i d h = absurd (omega arith)
get_or-Has (x ∷ xs) zero d h = inl refl
get_or-Has (x ∷ xs) (suc i) d h = inr (get_or-Has xs i d (omega arith))

pub kind_of-Has : (item : ℕ) → Has (kind_of item) kind_table
unfolding kind_of
kind_of-Has item = get_or-Has kind_table (scramble item % length kind_table) _ (omega arith)

Has-IsKind : (k : Kind) (ks : List Kind) → All IsKind ks → Has k ks → IsKind k
Has-IsKind k [] p h = absurd h
Has-IsKind k (j ∷ js) p (inl e) = subst IsKind e p.0
Has-IsKind k (j ∷ js) p (inr h) = Has-IsKind k js p.1 h

kind_table-IsKind : All IsKind kind_table
unfolding cdump.Kind.load_kind
kind_table-IsKind = (
  omega arith,
  (
    omega arith,
    (
      omega arith,
      (omega arith, (omega arith, (omega arith, (omega arith, (omega arith, (omega arith, tt)))))),
    ),
  ),
)

-- An identifier is the hash of a number below the bound.
abbrev pub IsHash : (List ℕ → List ℕ) → ℕ → Oid → Type 0
IsHash sha1 n k = (i : ℕ) × (i < n) × (k ≡ int_oid sha1 i)

-- The tracker after the numbers below `n` were added.
pub record Tracks (sha1 : List ℕ → List ℕ) (n : ℕ) (t : IndexTracker) : Type 0 where
  pub well : IsIndex t.index
  pub items : t.inserted ≡ range 0 n
  pub apart : Apart (keys t.index)
  pub hashes : All (IsHash sha1 n) (keys t.index)
  pub answers : (i : ℕ) → i < n → find t.index (int_oid sha1 i) ≡ ok (some (entry sha1 i))
  pub size : length t.index.ram + length t.index.fdata.hashes ≡ n

pub new_tracker-Tracks : (sha1 : List ℕ → List ℕ) → Tracks sha1 0 new_tracker
unfolding append_keys
new_tracker-Tracks sha1 = record {
  well = record { ram_good = tt; data_good = inl refl; small = omega arith };
  items = refl;
  apart = tt;
  hashes = tt;
  answers = λ i h. absurd (omega arith);
  size = refl;
}

module _ (sha1 : List ℕ → List ℕ) (bound : ℕ) (spread : IsSpread sha1 bound)
    (small : bound < 2 ^ 31) where
  pub entry-IsEntry : (n : ℕ) → n < bound → IsEntry (entry sha1 n)
  unfolding entry
  entry-IsEntry n h = (
    spread.twenty n h,
    omega arith,
    Has-IsKind (kind_of n) kind_table kind_table-IsKind (kind_of-Has n),
  )

  -- A hash of a smaller number has another value.
  later-apart : (n : ℕ) (k : Oid) → n < bound → IsHash sha1 n k → number k ≢ number (int_oid sha1 n)
  later-apart n k h (i, less, e) same =
      let there : i ≡ n = spread.apart i n (omega arith) h (
        number_injective _ _ (spread.twenty i (omega arith)) (spread.twenty n h)
          (ap number (sym e) ∙ same)) in
      omega (arith, there, less)

  not_held :
      (n : ℕ) (t : IndexTracker)
      → n < bound
      → Tracks sha1 n t
      → ram_find (int_oid sha1 n) t.index.ram ≡ none
  unfolding append_keys
  not_held n t h tr = elim (Option-cases (ram_find (int_oid sha1 n) t.index.ram)) [
    | inl fresh ↦ fresh
    | inr (e, held) ↦
        let s = ram_find_lem (int_oid sha1 n) t.index.ram (spread.twenty n h) tr.well.ram_good in
        let (_, _, _, m) = subst (FindSpec (map (λ e. e.0) t.index.ram) (int_oid sha1 n)) held s in
        let (i, at) =
          Has-get_elem? (keys t.index) (int_oid sha1 n) (
            Has-append_left (map (λ e. e.0) t.index.ram) t.index.fdata.hashes (int_oid sha1 n) m) in
        absurd (
          later-apart n (int_oid sha1 n) h
            (All-get_elem? (IsHash sha1 n) (keys t.index) i tr.hashes at) refl)
  ]

  after_add :
      (n i : ℕ) (t : IndexTracker)
      → n < bound
      → Tracks sha1 n t
      → find (insert (entry sha1 n) t.index) (int_oid sha1 i) ≡ (
          if equals (int_oid sha1 n) (int_oid sha1 i)
          then ok (some (entry sha1 n))
          else find t.index (int_oid sha1 i))
  unfolding entry
  after_add n i t h tr =
      find-insert (entry sha1 n) t.index (int_oid sha1 i)
      ∙ ap (λ held. after_insert held (entry sha1 n) t.index (int_oid sha1 i)) (not_held n t h tr)

  later :
      (n i : ℕ) (t : IndexTracker)
      → n < bound
      → i < suc n
      → Tracks sha1 n t
      → find (insert (entry sha1 n) t.index) (int_oid sha1 i) ≡ ok (some (entry sha1 i))
  later n i t h less tr =
      let (_, _, (there, back)) =
        comparisons (int_oid sha1 n) (int_oid sha1 i) (spread.twenty n h)
          (spread.twenty i (omega arith)) in
      after_add n i t h tr ∙ elim (Bool-cases (equals (int_oid sha1 n) (int_oid sha1 i))) [
        | inl same ↦
            let e : n ≡ i = spread.apart n i h (omega arith) (there same) in
            rw same (ap (λ m. ok (some (entry sha1 m))) e)
        | inr other ↦
            let differ : i ≢ n = λ e. cc (other, back (ap (int_oid sha1) (sym e))) in
            rw other (tr.answers i (omega (arith, less, differ)))
      ]

  pub add-Tracks :
      (n : ℕ) (t : IndexTracker) → n < bound → Tracks sha1 n t → Tracks sha1 (suc n) (add sha1 n t)
  unfolding add entry append_keys
  add-Tracks n t h tr =
      let fresh = insert-fresh (entry sha1 n) t.index (not_held n t h tr) in
      record {
        well =
            insert-IsIndex (entry sha1 n) t.index (entry-IsEntry n h) tr.well
              (omega (arith, tr.size));
        items = ap (set_insert n) tr.items ∙ set_insert-range n 0 n (omega arith);
        apart =
            rw fresh (
              All-map (IsHash sha1 n) _ (keys t.index) (λ k. later-apart n k h) tr.hashes,
              tr.apart,
            );
        hashes = rw fresh (
          (n, omega arith, refl),
          All-map (IsHash sha1 n) (IsHash sha1 (suc n)) (keys t.index)
              (λ k (i, less, e). (i, omega arith, e)) tr.hashes,
        );
        answers = λ i less. later n i t h less tr;
        size = rw fresh (omega (arith, tr.size));
      }

  pub add_loop-Tracks :
      (rounds n : ℕ) (t : IndexTracker)
      → n + rounds ≤ bound
      → Tracks sha1 n t
      → Tracks sha1 (n + rounds) (add_loop sha1 rounds n t)
  unfolding add_loop
  add_loop-Tracks zero n t h tr = subst (λ m. Tracks sha1 m t) (omega arith) tr
  add_loop-Tracks (suc rounds) n t h tr =
      subst (λ m. Tracks sha1 m (add_loop sha1 rounds (n + 1) (add sha1 n t))) (omega arith)
        (add_loop-Tracks rounds (n + 1) (add sha1 n t) (omega arith) (
          subst (λ m. Tracks sha1 m (add sha1 n t)) (omega arith)
            (add-Tracks n t (omega arith) tr)))
