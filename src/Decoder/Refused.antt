-- ===== src/Decoder/Refused.antt =====
-- The walk over a backup whose root is not in the pool, or is no backup.
use cdump.Prelude.{
  ℕ, suc, ◌≡◌, sym, ap, ◌⊎◌, inl, inr, false, Option, none, some, List, length, Exception,
  runtime_error, Outcome, throw, codes,
}
use cdump.Kind.{equals, load_kind}
use cdump.Oid.{Oid, IsOid}
use cdump.Chunk.{Zlib, Chunk}
use cdump.Decoder.Walk.{Backup, walk, walk_found}
use cdump.Pool.{Pool}
use cdump.Pool.Lookup.{Reply, find_refines}
use cdump.Pool.View.{Blob, Contents, Represents}

-- The exception for a root that the map does not have, or has with another kind than "back".
abbrev pub IsRefused : Contents → Oid → Exception → Type 0
IsRefused m root e =
    ((m root ≡ none) × (e ≡ runtime_error "Chunk missing from pool"))
    ⊎ ((b : Blob) × (m root ≡ some b)
        × (equals b.0 (load_kind (codes "back")) ≡ false)
        × (e ≡ runtime_error "Unsupported chunk kind"))

-- In a pool that represents a map, a walk from a root that the map does not have throws "Chunk missing
-- from pool", and one from a chunk of another kind than "back" throws "Unsupported chunk kind", whatever
-- the visitor is, without a call of it.
pub walk-IsRefused :
    {S : Type 0} (z : Zlib) (stale : List ℕ) (backup : Backup S) (fuel : ℕ) (root : Oid)
    (pool : Pool) (m : Contents) (oids : List Oid) (s : S) (e : Exception)
    → length stale ≡ 48
    → Represents z pool m
    → IsOid root
    → IsRefused m root e
    → walk z stale backup (suc fuel) root pool oids s ≡ throw e
unfolding walk walk_found
walk-IsRefused {S} z stale backup fuel root pool m oids s e frame v good refused =
    let (answer, got, reply) = find_refines z stale pool m root frame v good in
    rw got (answered _ answer reply refused)
  where
    answered :
        (handler : Chunk → Outcome (Pool × List Oid × S)) (answer : Option Chunk)
        → Reply z (m root) root answer
        → IsRefused m root e
        → walk_found z stale backup handler answer ≡ throw e
    answered handler none r (inl (missing, is)) = ap throw (sym is)
    answered handler (some d) r (inl (missing, is)) = absurd (rw missing at r)
    answered handler none r (inr (b, has, other, is)) = absurd (rw has at r)
    answered handler (some d) r (inr (b, has, other, is)) =
        let shows = rw has at r in rw (shows.same_kind, other) (ap throw (sym is))
