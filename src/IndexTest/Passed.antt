-- ===== src/IndexTest/Passed.antt =====
-- The unit test of the index passes.
use cdump.Prelude.{
  ℕ, ◌+◌, ◌*◌, ◌-◌, ◌<◌, ◌≤◌, ◌≡◌, ◌≢◌, refl, sym, ap, subst, ◌∙◌, inl, inr, true, none, some,
  Option, List, [], ◌∷◌, ◌++◌, ok, ok-injective, arith, All-map, All-get_elem?, length, ◌^◌, codes,
}
use cdump.Kind
use cdump.Kind.{Kind}
use cdump.Oid.{Oid, IsOid, increment, decrement}
use cdump.Oid.Laws.{comparisons}
use cdump.Oid.Tweak.{number-tweak}
use cdump.Index.{Entry, find, deref, sorted_keys}
use cdump.Index.Drawn.{Draws, drawn-KindsFit}
use cdump.Index.Few.{KindsFit}
use cdump.Index.Find.{keys, keys-IsOid, FindSpec, find-FindSpec}
use cdump.Index.Keys.{Has, Has-get_elem?, All-sort, length-sort}
use cdump.Index.Saved.{load-save-keys, length-keys}
use cdump.Index.Strict.{sort-Rises, Rises-Apart}
use cdump.IndexTest.{
  IndexTracker, new_tracker, entry, is_entry, check_one, check_each, check_all, check,
  saved_and_loaded, generate, kind_table, add_loop, add_range,
}
use cdump.IndexTest.Erased.{range-Has}
use cdump.IndexTest.Iterated.{check_iter-passes}
use cdump.IndexTest.Tracked.{
  IsSpread, IsHash, Tracks, length-range, kind_of-Has, new_tracker-Tracks, add_loop-Tracks,
}
use cdump.Pool.Directory.{lookup-put}
use cdump.Pool.Files.{Dir, save_index, put, remove}
use cdump.Tutil.{int_oid}

module _ (sha1 : List ℕ → List ℕ) (bound : ℕ) (spread : IsSpread sha1 bound) where
  is_entry-entry : (i : ℕ) → i < bound → is_entry sha1 i (entry sha1 i) ≡ true
  unfolding is_entry entry Kind.equals
  is_entry-entry i h =
      let (_, _, (_, same)) =
        comparisons (int_oid sha1 i) (int_oid sha1 i) (spread.twenty i h) (spread.twenty i h) in
      ground (arith, same refl)

  -- A key next to a hash is not found.
  find-nothing :
      (n : ℕ) (t : IndexTracker) (key : Oid)
      → Tracks sha1 n t
      → IsOid key
      → ((j : ℕ) → j < n → key ≢ int_oid sha1 j)
      → find t.index key ≡ ok none
  find-nothing n t key tr g differ = answered (find-FindSpec t.index key tr.well g)
    where
      answered :
          (r : Option Entry) × (find t.index key ≡ ok r) × FindSpec (keys t.index) key r
          → find t.index key ≡ ok none
      answered (none, got, s) = got
      answered (some e, got, (_, _, _, m)) =
          let (i, at) = Has-get_elem? (keys t.index) key m in
          let (j, less, same) = All-get_elem? (IsHash sha1 n) (keys t.index) i tr.hashes at in
          absurd (differ j less same)

  check_one-passes :
      (n i : ℕ) (t : IndexTracker)
      → n ≤ bound
      → i < n
      → Tracks sha1 n t
      → check_one sha1 t i ≡ ok true
  unfolding check_one
  check_one-passes n i t h less tr =
      let (up, down, _, _) = number-tweak (int_oid sha1 i) (spread.twenty i (omega arith)) in
      rw
        (
          tr.answers i less,
          is_entry-entry i (omega arith),
          find-nothing n t (increment (int_oid sha1 i)) tr up
              (λ j l. spread.above i j (omega arith) (omega arith)),
          find-nothing n t (decrement (int_oid sha1 i)) tr down
              (λ j l. spread.below i j (omega arith) (omega arith)),
        )
        refl

  check_each-passes :
      (n : ℕ) (t : IndexTracker) (items : List ℕ)
      → n ≤ bound
      → ((i : ℕ) → Has i items → i < n)
      → Tracks sha1 n t
      → check_each sha1 t items ≡ ok true
  unfolding check_each
  check_each-passes n t [] h below tr = refl
  check_each-passes n t (i ∷ items) h below tr =
      rw
        (
          check_one-passes n i t h (below i (inl refl)) tr,
          check_each-passes n t items h (λ j m. below j (inr m)) tr,
        )
        refl

  check-passes : (n : ℕ) (t : IndexTracker) → n ≤ bound → Tracks sha1 n t → check sha1 t ≡ ok true
  unfolding check check_all
  check-passes n t h tr =
      rw
        (
          check_each-passes n t t.inserted h
              (λ i m.
                let (_, less) = range-Has n 0 i (subst (Has i) tr.items m) in omega (arith, less))
              tr,
          check_iter-passes sha1 bound spread n t h tr,
        )
        refl

  Tracks-KindsFit : (n : ℕ) (t : IndexTracker) → Tracks sha1 n t → KindsFit t.index
  unfolding sorted_keys deref entry
  Tracks-KindsFit n t tr = drawn-KindsFit kind_table t.index (omega arith) (
      All-sort (Draws kind_table t.index) (keys t.index)
        (All-map (IsHash sha1 n) (Draws kind_table t.index) (keys t.index) drawn tr.hashes))
    where
      drawn : (k : Oid) → IsHash sha1 n k → Draws kind_table t.index k
      drawn k (i, less, e) x got =
          let found : deref t.index k ≡ ok (entry sha1 i) =
            rw e (rw (tr.answers i less, deref) refl) in
          subst (λ (y : Entry). Has y.1.kind kind_table)
            (ok-injective (entry sha1 i) x (sym found ∙ got)) (kind_of-Has i)

  -- A tracked index is still tracked when it was saved and loaded.
  saved_and_loaded-Tracks :
      (n : ℕ) (t : IndexTracker) (name : List ℕ) (dir : Dir)
      → n ≤ bound
      → bound < 2 ^ 31
      → Tracks sha1 n t
      → (dir' : Dir) × (t' : IndexTracker) × (saved_and_loaded name dir t ≡ ok (dir', t'))
        × Tracks sha1 n t'
  unfolding saved_and_loaded save_index sorted_keys
  saved_and_loaded-Tracks n t name dir h small tr =
      let count : length t.inserted ≡ n = ap length tr.items ∙ length-range n 0 in
      let (file, fresh, saved, loaded, well, same, sorted) =
        load-save-keys t.index (length t.inserted) tr.well (Tracks-KindsFit n t tr)
          (omega (arith, count)) in
      (
        put name file (remove (name ++ codes ".tmp") dir),
        record t { index = fresh },
        rw (saved, lookup-put, loaded) refl,
        record {
          well = well;
          items = tr.items;
          apart = rw sorted (
              Rises-Apart (sorted_keys t.index)
                (sort-Rises (keys t.index) (keys-IsOid t.index tr.well) tr.apart));
          hashes = rw sorted (All-sort (IsHash sha1 n) (keys t.index) tr.hashes);
          answers =
              λ i less. same (int_oid sha1 i) (spread.twenty i (omega arith)) ∙ tr.answers i less;
          size =
              sym (length-keys fresh)
              ∙ length-sort (keys fresh)
              ∙ ap length sorted
              ∙ length-keys t.index
              ∙ tr.size;
        },
      )

  add_range-Tracks :
      (low high : ℕ) (t : IndexTracker)
      → low ≤ high
      → high ≤ bound
      → bound < 2 ^ 31
      → Tracks sha1 low t
      → Tracks sha1 high (add_range sha1 low high t)
  unfolding add_range
  add_range-Tracks low high t le h small tr =
      let total : low + (high - low) ≡ high = omega (arith, le) in
      subst (λ m. Tracks sha1 m (add_loop sha1 (high - low) low t)) total
        (add_loop-Tracks sha1 bound spread small (high - low) low t (omega (arith, total, h)) tr)

  generated :
      (count : ℕ) (path : List ℕ) (dir : Dir)
      → count * 2 ≤ bound
      → bound < 2 ^ 31
      → generate sha1 count path dir ≡ ok true
  unfolding generate
  generated count path dir h small =
      let t1 = add_range sha1 0 count new_tracker in
      let tr1 : Tracks sha1 count t1 =
        add_range-Tracks 0 count new_tracker (omega arith) (omega arith) small
          (new_tracker-Tracks sha1) in
      let (dir2, t2, stored2, tr2) =
        saved_and_loaded-Tracks count t1 (path ++ codes "/sample.idx") dir (omega arith) small
          tr1 in
      let t3 = add_range sha1 count (count * 2) t2 in
      let tr3 : Tracks sha1 (count * 2) t3 =
        add_range-Tracks count (count * 2) t2 (omega arith) h small tr2 in
      let (dir4, t4, stored4, tr4) =
        saved_and_loaded-Tracks (count * 2) t3 (path ++ codes "/sample2.idx") dir2 h small tr3 in
      rw
        (
          check-passes count t1 (omega arith) tr1,
          stored2,
          check-passes count t2 (omega arith) tr2,
          check-passes (count * 2) t3 h tr3,
          stored4,
          check-passes (count * 2) t4 h tr4,
        )
        refl

-- Let the hashes of the numbers below twice the test's count be identifiers of 20 bytes, neither zero nor
-- the same nor next to each other (IsSpread), and let that many entries be fewer than 2^31. Then the whole
-- test `Generate` ends, and every assertion in it holds: the index finds each number that was inserted, with
-- its offset and kind, finds no key beside one, and iterates over all of them once, in ascending order, both
-- in memory and after it was saved and loaded, with more added in between.
pub generate-passes :
    (sha1 : List ℕ → List ℕ) (count : ℕ) (path : List ℕ) (dir : Dir)
    → IsSpread sha1 (count * 2)
    → count * 2 < 2 ^ 31
    → generate sha1 count path dir ≡ ok true
generate-passes sha1 count path dir spread small =
    generated sha1 (count * 2) spread count path dir (omega arith) small
