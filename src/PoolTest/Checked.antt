-- ===== src/PoolTest/Checked.antt =====
-- The fixture's `check` passes after every run of its calls.
use cdump.Prelude.{
  ℕ, ◌^◌, ◌≤◌, ◌<◌, ◌≡◌, refl, subst, Bool, true, Option, none, some, List, [], ◌∷◌, ok, arith, All,
  length, take_all, compare, Ordering, ◌==◌,
}
use cdump.Bytes.{memcmp}
use cdump.Chunk.{Zlib, IsZlib, Chunk, size, chunk_data}
use cdump.Chunk.Written.{untried}
use cdump.Pool.{Pool, find}
use cdump.Pool.Files.{Dir}
use cdump.Pool.Lookup.{Reply, find_refines}
use cdump.Pool.Open.{find_pool_files}
use cdump.Pool.Run.{empty_pool, empty_pool-Represents}
use cdump.Pool.View.{Contents, nothing, Represents, Shows}
use cdump.PoolTest.{is_same, check_one, check_each, check}
use cdump.PoolTest.Script.{fixture, Script, IsKnown, Script-Knows}
use cdump.Tutil.Text.{blob, hash, make_random_chunk-untried}

memcmp_refl : (xs : List ℕ) → memcmp xs xs ≡ Ordering.eq
unfolding memcmp
memcmp_refl [] = refl
memcmp_refl (x ∷ xs) = rw (same x, memcmp_refl xs) refl
  where
    same : (n : ℕ) → compare n n ≡ Ordering.eq
    same n = ground arith

module _ (sha1 : List ℕ → List ℕ) (z : Zlib) (beyond stale : List ℕ)
    (frame : length stale ≡ 48) where
  is_same-shown :
      (text : List ℕ) (d : Chunk)
      → Shows z d (hash sha1 text) (blob, text)
      → is_same z (untried blob (hash sha1 text) text) d ≡ ok true
  unfolding is_same
  is_same-shown text d s =
      rw
        (
          sized,
          s.same_size,
          same (length text),
          opened,
          s.text_back,
          take_all text (length text) refl,
          memcmp_refl text,
        )
        refl
    where
      sized : size (untried blob (hash sha1 text) text) ≡ length text
      sized = unfold size in refl

      opened :
          chunk_data z (untried blob (hash sha1 text) text)
          ≡ ok (text, untried blob (hash sha1 text) text)
      opened = unfold chunk_data in refl

      same : (n : ℕ) → (n == n) ≡ true
      same n = ground arith

  check_one-passes :
      (dir : Dir) (p : Pool) (known : List ℕ) (m : Contents) (index : ℕ)
      → Represents z p m
      → IsKnown sha1 z beyond stale m index
      → check_one sha1 z stale index (fixture dir p known) ≡ ok (true, fixture dir p known)
  unfolding check_one
  check_one-passes dir p known m index v (text, made, twenty, has) =
      found (find_refines z stale p m (hash sha1 text) frame v twenty)
    where
      found :
          (answer : Option Chunk) × (find stale (hash sha1 text) p ≡ ok (answer, p))
            × Reply z (m (hash sha1 text)) (hash sha1 text) answer
          → check_one sha1 z stale index (fixture dir p known) ≡ ok (true, fixture dir p known)
      found (none, got, reply) = absurd (subst (λ o. Reply z o (hash sha1 text) none) has reply)
      found (some d, got, reply) =
          rw
            (
              check_one,
              make_random_chunk-untried sha1 32 index text made,
              got,
              is_same-shown text d (subst (λ o. Reply z o (hash sha1 text) (some d)) has reply),
            )
            refl

  check_each-passes :
      (dir : Dir) (p : Pool) (known ks : List ℕ) (m : Contents)
      → Represents z p m
      → All (IsKnown sha1 z beyond stale m) ks
      → check_each sha1 z stale ks (fixture dir p known) ≡ ok (true, fixture dir p known)
  unfolding check_each
  check_each-passes dir p known [] m v k = refl
  check_each-passes dir p known (i ∷ ks) m v (first, k) =
      rw (check_one-passes dir p known m i v first, check_each-passes dir p known ks m v k) refl

-- Let zlib keep its manual's promises, 14 bytes lie behind the array `padding`, and the header be read to
-- 48 bytes of memory. Take any run of the fixture's `add` and `flush`, and of its `close` followed by its
-- `open`, from a pool without files in a directory without data files; let every call have returned and
-- passed its assertions, every addition ask no more than its chunk's insertion does (IsInsertion), the latest file have
-- at most 256 kinds where it is flushed, and every limit be of 32 bits. Then `check` of all that was added ends, every
-- assertion in it holds, and the fixture is as before.
pub check-Script :
    (sha1 : List ℕ → List ℕ) (z : Zlib) (beyond stale : List ℕ) (dir : Dir) (limit : ℕ)
    (newfile : Bool) (d d' : Dir) (pool : Pool) (known : List ℕ) (m : Contents)
    → IsZlib z
    → 14 ≤ length beyond
    → length stale ≡ 48
    → limit < 2 ^ 32
    → find_pool_files dir ≡ []
    → Script sha1 z beyond stale d (empty_pool dir limit newfile) [] nothing d' pool known m
    → check sha1 z stale (fixture d' pool known) ≡ ok (true, fixture d' pool known)
unfolding check
check-Script sha1 z beyond stale dir limit newfile d d' pool known m lawful room frame word
      unnumbered script =
    let k = Script-Knows sha1 z beyond stale lawful room frame script (record {
      good = (
        empty_pool-Represents z dir limit newfile word,
        record { behind = tt; known = unnumbered },
      );
      texts = tt;
    }) in
    check_each-passes sha1 z beyond stale frame d' pool known known m k.good.0 k.texts
