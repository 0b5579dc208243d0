-- ===== src/Pool/Run.antt =====
-- Calls of a pool one after the other, as steps of the pool and of the map that it represents.
use cdump.Prelude.{
  ℕ, ◌^◌, ◌≤◌, ◌<◌, ◌≡◌, refl, Bool, true, false, Option, List, [], Outcome, ok, length,
}
use cdump.Kind.{Kind}
use cdump.Oid.{Oid, IsOid}
use cdump.Chunk.{Zlib, IsZlib, Chunk}
use cdump.Chunk.Written.{untried}
use cdump.Pool.{Pool, flush, close, insert, find}
use cdump.Pool.Files.{Dir}
use cdump.Pool.Flush.{pool_of, FrontFits}
use cdump.Pool.Open.{Parsed, open_pool}
use cdump.Pool.View.{Contents, nothing, update, Represents}
use cdump.Pool.Steps.{
  IsInsertion, Good, insert-Good, flush-Good, find-Good, reopen-Good, Persists-Durable,
}

module _ (z : Zlib) (beyond stale : List ℕ) where
  -- Calls of `insert`, `flush` and `find` in any order, and of the destructor with another opening of the
  -- directory, each of which has returned, with the map before and behind them.
  pub data Run : Pool → Contents → Pool → Contents → Type 0 where
    done : {pool : Pool} {m : Contents} → Run pool m pool m
    inserted :
        {pool middle pool' : Pool} {m m' : Contents} (kind : Kind) (oid : Oid) (text : List ℕ)
        (c : Chunk)
        → IsInsertion z kind oid text m pool
        → insert z beyond (untried kind oid text) pool ≡ ok (c, middle)
        → Run middle (update m oid (kind, text)) pool' m'
        → Run pool m pool' m'
    flushed :
        {pool middle pool' : Pool} {m m' : Contents}
        → FrontFits pool.files
        → flush pool ≡ ok middle
        → Run middle m pool' m'
        → Run pool m pool' m'
    found :
        {pool middle pool' : Pool} {m m' : Contents} (key : Oid) (answer : Option Chunk)
        → IsOid key
        → find stale key pool ≡ ok (answer, middle)
        → Run middle m pool' m'
        → Run pool m pool' m'
    reopened :
        {pool closed_pool again pool' : Pool} {m m' : Contents}
        (parse : Option (List ℕ) → Outcome Parsed) (opened : Bool) (fd res : ℕ) (writable : Bool)
        → FrontFits pool.files
        → close pool ≡ ok closed_pool
        → open_pool parse opened fd res closed_pool.dir writable ≡ ok again
        → again.limit < 2 ^ 32
        → Run again m pool' m'
        → Run pool m pool' m'

  module _ (lawful : IsZlib z) (room : 14 ≤ length beyond) (frame : length stale ≡ 48) where
    pub Run-Represents :
        {pool pool' : Pool} {m m' : Contents}
        → Run pool m pool' m'
        → Good z beyond stale m pool
        → Good z beyond stale m' pool'
    Run-Represents done good = good
    Run-Represents
          (inserted {pool = pool} {middle = middle} {m = m} kind oid text c ins returned rest)
          good =
        Run-Represents rest (
          insert-Good z beyond stale lawful room frame kind oid text c pool middle m ins returned
            good)
    Run-Represents (flushed {pool = pool} {middle = middle} {m = m} fits returned rest) good =
        let (v, p, clean) = flush-Good z beyond stale pool middle m fits returned good in
        Run-Represents rest (v, Persists-Durable pool middle clean p)
    Run-Represents (found {pool = pool} {middle = middle} {m = m} key answer proper returned rest)
          good =
        Run-Represents rest
          (find-Good z beyond stale lawful room frame key answer pool middle m proper returned good)
    Run-Represents
          (reopened {pool = pool} {closed_pool = closed_pool} {again = again} {m = m} parse opened
            fd res writable fits closed_up returned word rest)
          good =
        Run-Represents rest (
          reopen-Good z beyond stale parse opened fd res writable pool closed_pool again m fits
            closed_up returned word good)

-- A pool without files, as `Pool(path, true)` opens it in the directory that `create_pool` has made.
abbrev pub empty_pool : Dir → ℕ → Bool → Pool
empty_pool dir limit newfile = pool_of dir true limit newfile [] false 0

pub empty_pool-Represents :
    (z : Zlib) (dir : Dir) (limit : ℕ) (newfile : Bool)
    → limit < 2 ^ 32
    → Represents z (empty_pool dir limit newfile) nothing
empty_pool-Represents z dir limit newfile word = record {
  hold = tt;
  descends = tt;
  complete = λ key b good has. cc;
  unset = refl;
  word = word;
  front_open = tt;
}
