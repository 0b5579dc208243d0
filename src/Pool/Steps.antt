-- ===== src/Pool/Steps.antt =====
-- What a single call leaves of a pool that represents a map and can be opened again.
use cdump.Prelude.{
  ℕ, ◌+◌, ◌^◌, ◌≤◌, ◌<◌, ◌≡◌, refl, sym, ap, ◌∙◌, subst, Bool, true, false, not, Option, List,
  Outcome, ok, throw, ok-injective, length, if◌then◌else◌, Exception,
}
use cdump.Bytes.{IsWord}
use cdump.Kind.{Kind}
use cdump.Oid.{Oid, IsOid}
use cdump.Chunk.{Zlib, IsZlib, Chunk, try_compress}
use cdump.Chunk.Format.{header_size, padded}
use cdump.Chunk.Written.{untried, payload_of}
use cdump.Pool.{Pool, flush, close, insert, find}
use cdump.Pool.Cycle.{open_pool-Stores}
use cdump.Pool.Durable.{Durable, flush-Persists}
use cdump.Pool.Flush.{FrontFits, flush_refines}
use cdump.Pool.Frame.{Agrees}
use cdump.Pool.Kept.{insert-Stores}
use cdump.Pool.Lookup.{find_refines}
use cdump.Pool.Open.{Parsed, open_pool}
use cdump.Pool.Persist.{SavedBehind, Persists}
use cdump.Pool.Ready.{Room}
use cdump.Pool.Refine.{insert_refines}
use cdump.Pool.View.{Contents, update, Represents}

-- What an insertion asks: a proper identifier and kind, a text shorter than 2^31 bytes that `try_compress`
-- does not throw on, nothing else under the identifier, and room.
pub record IsInsertion (z : Zlib) (kind : Kind) (oid : Oid) (text : List ℕ) (m : Contents)
    (pool : Pool) : Type 0 where
  pub twenty : IsOid oid
  pub word : IsWord kind.raw
  pub small : length text < 2 ^ 31
  pub zdata : Option (List ℕ)
  pub compressed : try_compress z text ≡ ok zdata
  pub agrees : Agrees m oid (kind, text)
  pub room : Room (padded (header_size + length (payload_of text zdata))) pool

-- Two results of one call are the same.
moved : {A : Type 0} (o : Outcome A) (a b : A) (P : A → Type 0) → o ≡ ok a → o ≡ ok b → P a → P b
moved o a b P ea eb p = subst P (ok-injective a b (sym ea ∙ eb)) p

pub Persists-Durable :
    (pool pool' : Pool) → pool'.dirty ≡ false → Persists pool pool' → Durable pool'
Persists-Durable pool pool' clean p = record {
  behind = subst (λ b. SavedBehind b pool'.dir pool'.files) (sym clean) p.saved;
  known = p.known;
}

module _ (z : Zlib) (beyond stale : List ℕ) where
  -- What every pool of a run keeps.
  abbrev pub Good : Contents → Pool → Type 0
  Good m pool = Represents z pool m × Durable pool

  guarded :
      {A : Type 0} (writable : Bool) (e : Exception) (o : Outcome A) (a : A)
      → (if not writable then throw e else o) ≡ ok a
      → writable ≡ true
  guarded true e o a h = refl
  guarded false e o a h = cc

  insert-writable :
      (chunk : Chunk) (pool : Pool) (r : Chunk × Pool)
      → insert z beyond chunk pool ≡ ok r
      → pool.writable ≡ true
  unfolding insert
  insert-writable chunk pool r h = guarded pool.writable _ _ r h

  pub flush-Good :
      (pool middle : Pool) (m : Contents)
      → FrontFits pool.files
      → flush pool ≡ ok middle
      → Good m pool
      → Represents z middle m × Persists pool middle × (middle.dirty ≡ false)
  flush-Good pool middle m fits returned (v, d) =
      let (q, got, v', kept) = flush_refines z pool m v fits in
      let (q', got', p) = flush-Persists z m pool v fits d in
      let same : q ≡ middle = ok-injective q middle (sym got ∙ returned) in
      let same' : q' ≡ middle = ok-injective q' middle (sym got' ∙ returned) in
      (
        subst (λ (r : Pool). Represents z r m) same v',
        subst (Persists pool) same' p,
        ap (λ (r : Pool). r.dirty) (sym same) ∙ kept.clean,
      )

  pub reopen-Good :
      (parse : Option (List ℕ) → Outcome Parsed) (opened : Bool) (fd res : ℕ) (writable : Bool)
      (pool closed_pool again : Pool) (m : Contents)
      → FrontFits pool.files
      → close pool ≡ ok closed_pool
      → open_pool parse opened fd res closed_pool.dir writable ≡ ok again
      → again.limit < 2 ^ 32
      → Good m pool
      → Good m again
  unfolding flush close
  reopen-Good parse opened fd res writable pool closed_pool again m fits closed_up returned word
        good =
      let (v, p, _) = flush-Good pool closed_pool m fits closed_up good in
      let (v', s) =
        open_pool-Stores z m parse opened fd res writable closed_pool again v p.saved p.known
          returned word in
      (v', s.durable)

  module _ (lawful : IsZlib z) (room : 14 ≤ length beyond) (frame : length stale ≡ 48) where
    pub insert-Good :
        (kind : Kind) (oid : Oid) (text : List ℕ) (c : Chunk) (pool middle : Pool) (m : Contents)
        → IsInsertion z kind oid text m pool
        → insert z beyond (untried kind oid text) pool ≡ ok (c, middle)
        → Good m pool
        → Good (update m oid (kind, text)) middle
    insert-Good kind oid text c pool middle m ins returned (v, d) =
        let w = insert-writable (untried kind oid text) pool (c, middle) returned in
        let (c1, q, got, v', _, _) =
          insert_refines z beyond kind oid text lawful ins.twenty ins.word ins.small room ins.zdata
            ins.compressed pool m v ins.room w ins.agrees in
        let (c2, q', got', s) =
          insert-Stores z beyond kind oid text lawful ins.twenty ins.word ins.small room ins.zdata
            ins.compressed pool m v ins.room w d in
        (
          moved _ (c1, q) (c, middle)
              (λ (p : Chunk × Pool). Represents z p.1 (update m oid (kind, text))) got returned v',
          moved _ (c2, q') (c, middle) (λ (p : Chunk × Pool). Durable p.1) got' returned s.durable,
        )

    pub find-Good :
        (key : Oid) (answer : Option Chunk) (pool middle : Pool) (m : Contents)
        → IsOid key
        → find stale key pool ≡ ok (answer, middle)
        → Good m pool
        → Good m middle
    find-Good key answer pool middle m good returned (v, d) =
        let (a, got, _) = find_refines z stale pool m key frame v good in
        moved _ (a, pool) (answer, middle) (λ (p : Option Chunk × Pool). Good m p.1) got returned
          (v, d)
