-- ===== src/Index/Refound.antt =====
-- An index whose file was written answers as the index in memory did.
use cdump.Prelude.{ℕ, ◌≤◌, ◌≡◌, refl, sym, ap, ◌∙◌, Option, none, some, List, [], ok, length}
use cdump.Oid.{Oid, IsOid}
use cdump.Index.{FileIndex, Entry, find, ram_find, deref, sorted_keys}
use cdump.Index.Find.{IsIndex, keys, FindSpec, find-FindSpec}
use cdump.Index.Keys.{Has, Has-sort, Has-get_elem?}
use cdump.Index.Passes.{DerefAll, DerefAll-get_elem?, DerefAll-IsKind}
use cdump.Index.RoundTrip.{written, written-IsRow}
use cdump.Index.Save.{kind_set}
use cdump.Index.Search.{Answers}
use cdump.Index.Tops.{IsData, row-IsRow, find_data-Answers}

deref-find :
    (index : FileIndex) (key : Oid) (r : Option Entry) (e : Entry)
    → find index key ≡ ok r
    → deref index key ≡ ok e
    → r ≡ some e
unfolding deref
deref-find index key none e f d = cc (rw f at d)
deref-find index key (some x) e f d = cc (rw f at d)

module _ (index : FileIndex) (ts : List ℕ) (es : List Entry) (v : IsIndex index)
    (shape : IsData (written ts (sorted_keys index) es)) (d : DerefAll index (sorted_keys index) es)
    (few : length (kind_set es) ≤ 256) where
  in_sorted : (key : Oid) → Has key (keys index) → Has key (sorted_keys index)
  unfolding sorted_keys
  in_sorted key h = Has-sort key (keys index) h

  -- The two answers for a key, of the written index and of the one in memory, agree.
  same_answer :
      (key : Oid) (r q : Option Entry)
      → Answers (written ts (sorted_keys index) es) key r
      → find index key ≡ ok q
      → FindSpec (keys index) key q
      → r ≡ q
  same_answer key none none a f s = refl
  same_answer key none (some x) a f s =
      let (i, at) = Has-get_elem? (sorted_keys index) key (in_sorted key s.3) in absurd (a i at)
  same_answer key (some x) q (i, at, er) f s =
      let (e, ee, de) = DerefAll-get_elem? index (sorted_keys index) es i key d at in
      let here = row-IsRow (written ts (sorted_keys index) es) key i e.1 (
        written-IsRow ts (sorted_keys index) es (DerefAll-IsKind index (sorted_keys index) es d) few
          i e ee) in
      let whole : e ≡ (key, e.1) = ap (λ (k : Oid). (k, e.1)) de.same in
      cc (here, er, whole, deref-find index key q e f de.found)

  pub find-written :
      (key : Oid)
      → IsOid key
      → find (record { ram = []; fdata = written ts (sorted_keys index) es }) key ≡ find index key
  unfolding find ram_find
  find-written key g =
      let (r, er, a) = find_data-Answers (written ts (sorted_keys index) es) key shape g in
      let (q, eq, s) = find-FindSpec index key v g in
      er ∙ ap ok (same_answer key r q a eq s) ∙ sym eq
