-- ===== src/PoolTest.antt =====
-- test/test_pool.cc: the fixture that the unit tests of the pool share. A failed assertion is
-- `false`.
pub mod Script
pub mod Checked
use cdump.Prelude.{
  ℕ, zero, suc, ◌+◌, ◌-◌, Bool, true, false, not, ◌&&◌, Option, none, some, List, [], ◌∷◌, length,
  take, Ordering, Outcome, ok, undefined, ◌>>=◌, ◌==◌, if◌then◌else◌,
}
use cdump.Bytes.{memcmp}
use cdump.Chunk.{Zlib, Chunk, plain, size, chunk_data}
use cdump.Pool
use cdump.Pool.{Pool, insert, find}
use cdump.Pool.Files.{Dir}
use cdump.Pool.Open.{Parsed, create_pool, open_pool}
use cdump.Tutil.{make_random_chunk, set_insert}
use cdump.Tutil.Sizes.{contains}

-- The fixture `Pool`, with its directory while no pool is open. `known`, a `std::set`, is ascending.
pub record PoolFixture : Type 0 where
  pub dir : Dir
  pub pool : Option Pool
  pub known : List ℕ

-- `create`; `uuid` is the text of the identifier that `create_pool` generates.
unfoldable pub create : List ℕ → ℕ → Bool → PoolFixture → Outcome (Bool × PoolFixture)
create uuid limit newlib f = elim f.pool [
  | some pool ↦ ok (false, f)
  | none ↦ (do
    dir ← create_pool true true uuid f.dir limit newlib
    ok (true, record f { dir = dir }))
]

-- `open`, with what `Pool(path, writable)` takes from the system.
unfoldable pub open_fixture :
    (Option (List ℕ) → Outcome Parsed)
    → Bool
    → ℕ
    → ℕ
    → Bool
    → PoolFixture
    → Outcome (Bool × PoolFixture)
open_fixture parse opened fd res writable f = elim f.pool [
  | some pool ↦ ok (false, f)
  | none ↦ (do
    pool ← open_pool parse opened fd res f.dir writable
    ok (true, record f { pool = some pool }))
]

-- `close`
unfoldable pub close : PoolFixture → Outcome (Bool × PoolFixture)
close f = elim f.pool [
  | none ↦ ok (false, f)
  | some pool ↦ (do pool ← Pool.close pool; ok (true, record f { dir = pool.dir; pool = none }))
]

-- `flush`
unfoldable pub flush : PoolFixture → Outcome (Bool × PoolFixture)
flush f = elim f.pool [
  | none ↦ ok (false, f)
  | some pool ↦ (do pool ← Pool.flush pool; ok (true, record f { pool = some pool }))
]

-- The assertions on a chunk that was found.
unfoldable pub is_same : Zlib → Chunk → Chunk → Outcome Bool
is_same z ch ch2 = if not (size ch == size ch2) then ok false else (do
  (first, _) ← chunk_data z ch
  (second, _) ← chunk_data z ch2
  ok (elim (memcmp (take (size ch) first) (take (size ch) second)) [
    | Ordering.eq ↦ true
    | _ ↦ false
  ]))

module _ (sha1 : List ℕ → List ℕ) (z : Zlib) where
  -- `add(index)`
  unfoldable pub add : List ℕ → ℕ → PoolFixture → Outcome (Bool × PoolFixture)
  add beyond index f = elim f.pool [
    | none ↦ ok (false, f)
    | some pool ↦
        if contains index f.known then ok (false, f) else (elim (make_random_chunk sha1 32 index) [
          | none ↦ undefined
          | some ch ↦ (do
            (_, pool) ← insert z beyond (plain ch) pool
            ok (true, record f { pool = some pool; known = set_insert index f.known }))
        ])
  ]

  -- The rounds of `add(low, high)` from `i` on, which go on behind a failed assertion.
  unfoldable pub add_loop : List ℕ → ℕ → ℕ → PoolFixture → Outcome (Bool × PoolFixture)
  unfolding add
  add_loop beyond zero i f = ok (true, f)
  add_loop beyond (suc rounds) i f = do
    (passed, f) ← add beyond i f
    (later, f) ← add_loop beyond rounds (i + 1) f
    ok (passed && later, f)

  -- `add(low, high)`
  unfoldable pub add_range : List ℕ → ℕ → ℕ → PoolFixture → Outcome (Bool × PoolFixture)
  unfolding add_loop
  add_range beyond low high f = add_loop beyond (high - low) low f

  -- `check(index)`; without a pool it dereferences a null pointer.
  unfoldable pub check_one : List ℕ → ℕ → PoolFixture → Outcome (Bool × PoolFixture)
  unfolding is_same
  check_one stale index f = elim (make_random_chunk sha1 32 index) [
    | none ↦ undefined
    | some ch ↦ elim f.pool [
      | none ↦ undefined
      | some pool ↦ (do
        (answer, pool) ← find stale ch.oid pool
        let f = record f { pool = some pool }
        elim answer [
          | none ↦ ok (false, f)
          | some ch2 ↦ (do same ← is_same z (plain ch) ch2; ok (same, f))
        ])
    ]
  ]

  -- The loop of `check`, which goes on behind a failed assertion.
  unfoldable pub check_each : List ℕ → List ℕ → PoolFixture → Outcome (Bool × PoolFixture)
  unfolding check_one
  check_each stale [] f = ok (true, f)
  check_each stale (index ∷ known) f = do
    (passed, f) ← check_one stale index f
    (later, f) ← check_each stale known f
    ok (passed && later, f)

  -- `check()`
  unfoldable pub check : List ℕ → PoolFixture → Outcome (Bool × PoolFixture)
  unfolding check_each
  check stale f = check_each stale f.known f
