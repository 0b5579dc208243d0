-- ===== src/IndexTest.antt =====
-- test/test_index.cc: the unit test of the index, which keeps a set of the numbers that it has inserted
-- beside the index and compares the two. A failed assertion is `false`.
pub mod Tracked
pub mod Erased
pub mod Iterated
pub mod Passed
use Prim.Native.Nat.{bit_xor}
use cdump.Prelude.{
  ℕ, zero, suc, ◌+◌, ◌-◌, ◌*◌, ◌/◌, ◌%◌, ◌^◌, Bool, true, false, not, ◌&&◌, Option, none, some,
  List, [], ◌∷◌, ◌++◌, codes, length, get_or, Outcome, ok, ◌>>=◌, ◌==◌, if◌then◌else◌,
}
use cdump.Kind
use cdump.Oid
use cdump.Kind.{Kind, load_kind}
use cdump.Oid.{Oid, zero_oid, increment, decrement, greater}
use cdump.Index.{Entry, FileIndex, new_index, insert, find, sorted_keys, deref}
use cdump.Index.Load.{load}
use cdump.Pool.Files.{Dir, lookup, save_index}
use cdump.Tutil.{int_oid, set_insert}

-- `x` is an `unsigned` of 32 bits.
unfoldable pub scramble : ℕ → ℕ
scramble x =
    let x = bit_xor (x / 2 ^ 16) x * 73244475 % 2 ^ 32 in
    let x = bit_xor (x / 2 ^ 16) x * 73244475 % 2 ^ 32 in bit_xor (x / 2 ^ 16) x

abbrev pub kind_table : List Kind
kind_table =
    load_kind (codes "blob")
    ∷ load_kind (codes "dir ")
    ∷ load_kind (codes "dir1")
    ∷ load_kind (codes "dir2")
    ∷ load_kind (codes "dir3")
    ∷ load_kind (codes "ind0")
    ∷ load_kind (codes "ind1")
    ∷ load_kind (codes "ind2")
    ∷ load_kind (codes "back")
    ∷ []

-- `kind_of`; the position is always in the table.
unfoldable pub kind_of : ℕ → Kind
kind_of sequence =
    get_or kind_table (scramble sequence % length kind_table) (load_kind (codes "blob"))

-- `inserted`, a `std::set`, is an ascending list.
pub record IndexTracker : Type 0 where
  pub inserted : List ℕ
  pub index : FileIndex

abbrev pub new_tracker : IndexTracker
new_tracker = record { inserted = []; index = new_index }

-- `items.erase(item)`: how many were erased, and the items afterwards.
unfoldable pub erase : ℕ → List ℕ → ℕ × List ℕ
erase item [] = (0, [])
erase item (i ∷ items) =
    let (count, rest) = erase item items in if item == i then (1, items) else (count, i ∷ rest)

-- `index.index.save(name, …)` and `index.index.load(name, …)`, in the test's directory.
unfoldable pub saved_and_loaded : List ℕ → Dir → IndexTracker → Outcome (Dir × IndexTracker)
saved_and_loaded name dir t = do
  dir ← save_index name (length t.inserted) t.index dir
  index ← load (lookup name dir) (length t.inserted)
  ok (dir, record t { index = index })

module _ (sha1 : List ℕ → List ℕ) where
  -- The pair that `add` inserts for a number.
  unfoldable pub entry : ℕ → Entry
  entry item = (int_oid sha1 item, record { offset = item; kind = kind_of item })

  -- `add(item)`
  unfoldable pub add : ℕ → IndexTracker → IndexTracker
  unfolding entry
  add item t = record { inserted = set_insert item t.inserted; index = insert (entry item) t.index }

  -- The rounds of `add(lower, upper)` from `i` on.
  unfoldable pub add_loop : ℕ → ℕ → IndexTracker → IndexTracker
  add_loop zero i t = t
  add_loop (suc rounds) i t = add_loop rounds (i + 1) (add i t)

  -- `add(lower, upper)`
  unfoldable pub add_range : ℕ → ℕ → IndexTracker → IndexTracker
  unfolding add_loop
  add_range lower upper t = add_loop (upper - lower) lower t

  -- The assertions on the entry that `find` answers for a number.
  unfoldable pub is_entry : ℕ → Entry → Bool
  is_entry item e =
      Oid.equals e.0 (int_oid sha1 item)
      && e.1.offset == item
      && Kind.equals e.1.kind (kind_of item)

  -- `check_one`
  unfoldable pub check_one : IndexTracker → ℕ → Outcome Bool
  unfolding is_entry
  check_one t item = do
    let good = int_oid sha1 item
    res ← find t.index good
    elim res [
      | none ↦ ok false
      | some e ↦ if not (is_entry item e) then ok false else (do
        res ← find t.index (increment good)
        elim res [
          | some e ↦ ok false
          | none ↦ (do
            res ← find t.index (decrement good)
            elim res [ some e ↦ ok false | none ↦ ok true ])
        ])
    ]

  -- The loop of `check_all`, which goes on behind a failed assertion.
  unfoldable pub check_each : IndexTracker → List ℕ → Outcome Bool
  unfolding check_one
  check_each t [] = ok true
  check_each t (item ∷ items) = do
    passed ← check_one t item
    later ← check_each t items
    ok (passed && later)

  -- `check_all`
  unfoldable pub check_all : IndexTracker → Outcome Bool
  unfolding check_each
  check_all t = check_each t t.inserted

  -- The assertions on an entry that the iterator gives, up to the erasing.
  unfoldable pub is_next : Entry → Oid → Bool
  is_next elt last_oid =
      Kind.equals elt.1.kind (kind_of elt.1.offset)
      && Oid.equals elt.0 (int_oid sha1 elt.1.offset)
      && greater elt.0 last_oid

  -- The loop of `check_iter` over the keys that are left, with the assertion behind it.
  unfoldable pub iter_loop : FileIndex → List Oid → List ℕ → Oid → Outcome Bool
  unfolding is_next erase
  iter_loop index [] items last_oid = ok (length items == 0)
  iter_loop index (key ∷ keys) items last_oid = do
    elt ← deref index key
    let (count, rest) = erase elt.1.offset items
    let later = iter_loop index keys rest elt.0
    if not (is_next elt last_oid) then ok false else if not (count == 1) then ok false else later

  -- `check_iter`
  unfoldable pub check_iter : IndexTracker → Outcome Bool
  unfolding iter_loop
  check_iter t = iter_loop t.index (sorted_keys t.index) t.inserted zero_oid

  -- `check_all` and then `check_iter`.
  unfoldable pub check : IndexTracker → Outcome Bool
  unfolding check_all check_iter
  check t = do all ← check_all t; iter ← check_iter t; ok (all && iter)

  -- `Generate`, with the assertions that have passed.
  unfoldable pub generate : ℕ → List ℕ → Dir → Outcome Bool
  unfolding add_range check saved_and_loaded
  generate index_count path dir = do
    let t = add_range 0 index_count new_tracker
    first ← check t
    (dir, t) ← saved_and_loaded (path ++ codes "/sample.idx") dir t
    second ← check t
    let t = add_range index_count (index_count * 2) t
    third ← check t
    (dir, t) ← saved_and_loaded (path ++ codes "/sample2.idx") dir t
    fourth ← check t
    ok (first && second && third && fourth)
