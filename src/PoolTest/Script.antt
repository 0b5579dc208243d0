-- ===== src/PoolTest/Script.antt =====
-- Calls of the fixture, as steps of it and of the map that its pool represents.
use cdump.Prelude.{
  ℕ, ◌^◌, ◌≤◌, ◌<◌, ◌≡◌, refl, sym, ap, subst, ◌∙◌, Bool, true, false, Bool-cases, inl, inr, Option,
  none, some, some-injective, List, [], ◌∷◌, Outcome, ok, ok-injective, ok->>=, ltb, ◌==◌, All,
  All-map, length,
}
use cdump.Oid.{IsOid}
use cdump.Oid.Laws.{comparisons}
use cdump.Chunk.{Zlib, IsZlib, Chunk}
use cdump.Chunk.Written.{untried}
use cdump.Pool
use cdump.Pool.{Pool, insert}
use cdump.Pool.Files.{Dir}
use cdump.Pool.Flush.{FrontFits}
use cdump.Pool.Frame.{update-Keeps}
use cdump.Pool.Open.{Parsed, open_pool}
use cdump.Pool.Steps.{IsInsertion, Good, insert-Good, flush-Good, reopen-Good, Persists-Durable}
use cdump.Pool.View.{Contents, update}
use cdump.PoolTest.{PoolFixture, open_fixture, close, flush, add}
use cdump.Tutil.{make_random_string, set_insert}
use cdump.Tutil.Sizes.{contains}
use cdump.Tutil.Text.{blob, hash, make_random_chunk-untried}

-- A fixture with an open pool.
abbrev pub fixture : Dir → Pool → List ℕ → PoolFixture
fixture dir pool known = record { dir = dir; pool = some pool; known = known }

module _ (sha1 : List ℕ → List ℕ) (z : Zlib) (beyond stale : List ℕ) where
  -- Calls of the fixture's `add` and `flush`, and of its `close` with another `open`, each of which has passed
  -- its assertions, with the map before and behind them.
  pub data Script : Dir → Pool → List ℕ → Contents → Dir → Pool → List ℕ → Contents → Type 0 where
    done : {d : Dir} {p : Pool} {ks : List ℕ} {m : Contents} → Script d p ks m d p ks m
    added :
        {d d' e : Dir} {p p' q : Pool} {ks ks' ls : List ℕ} {m n : Contents} (index : ℕ)
        (text : List ℕ)
        → make_random_string 32 index ≡ some text
        → IsInsertion z blob (hash sha1 text) text m p
        → add sha1 z beyond index (fixture d p ks) ≡ ok (true, fixture d' p' ks')
        → Script d' p' ks' (update m (hash sha1 text) (blob, text)) e q ls n
        → Script d p ks m e q ls n
    flushed :
        {d d' e : Dir} {p p' q : Pool} {ks ks' ls : List ℕ} {m n : Contents}
        → FrontFits p.files
        → flush (fixture d p ks) ≡ ok (true, fixture d' p' ks')
        → Script d' p' ks' m e q ls n
        → Script d p ks m e q ls n
    reopened :
        {d d' e : Dir} {p p' q : Pool} {ks ks' ls : List ℕ} {m n : Contents}
        (parse : Option (List ℕ) → Outcome Parsed) (opened : Bool) (fd res : ℕ) (writable : Bool)
        (closed : PoolFixture)
        → FrontFits p.files
        → close (fixture d p ks) ≡ ok (true, closed)
        → open_fixture parse opened fd res writable closed ≡ ok (true, fixture d' p' ks')
        → p'.limit < 2 ^ 32
        → Script d' p' ks' m e q ls n
        → Script d p ks m e q ls n

  -- The map has the text of a number.
  abbrev pub IsKnown : Contents → ℕ → Type 0
  IsKnown m index =
      (text : List ℕ) × (make_random_string 32 index ≡ some text)
      × IsOid (hash sha1 text)
      × (m (hash sha1 text) ≡ some (blob, text))

  pub record Knows (p : Pool) (ks : List ℕ) (m : Contents) : Type 0 where
    pub good : Good z beyond stale m p
    pub texts : All (IsKnown m) ks

  -- What a call that returns and passes its assertions leaves.
  same_fixture :
      (b : Bool) (f g : PoolFixture)
      → ◌≡◌ {A = Outcome (Bool × PoolFixture)} (ok (b, f)) (ok (true, g))
      → (b ≡ true) × (f.pool ≡ g.pool) × (f.known ≡ g.known)
  same_fixture b f g h =
      let e : ◌≡◌ {A = Bool × PoolFixture} (b, f) (true, g) = ok-injective (b, f) (true, g) h in
      (
        ap (λ (r : Bool × PoolFixture). r.0) e,
        ap (λ (r : Bool × PoolFixture). r.1.pool) e,
        ap (λ (r : Bool × PoolFixture). r.1.known) e,
      )

  set_insert-All : (P : ℕ → Type 0) (x : ℕ) (xs : List ℕ) → P x → All P xs → All P (set_insert x xs)
  unfolding set_insert
  set_insert-All P x [] p q = (p, tt)
  set_insert-All P x (y ∷ ys) p q = elim (Bool-cases (ltb x y)) [
    | inl before ↦ rw before (p, q)
    | inr other ↦ elim (Bool-cases (x == y)) [
      | inl same ↦ rw (other, same) q
      | inr differ ↦ rw (other, differ) (q.0, set_insert-All P x ys p q.1)
    ]
  ]

  add-returned :
      (d d' : Dir) (p p' : Pool) (ks ks' : List ℕ) (index : ℕ) (text : List ℕ)
      → make_random_string 32 index ≡ some text
      → add sha1 z beyond index (fixture d p ks) ≡ ok (true, fixture d' p' ks')
      → (c : Chunk) × (insert z beyond (untried blob (hash sha1 text) text) p ≡ ok (c, p'))
        × (ks' ≡ set_insert index ks)
  unfolding add
  add-returned d d' p p' ks ks' index text made returned = elim (Bool-cases (contains index ks)) [
    | inl there ↦
        let (wrong, _, _) =
          same_fixture false (fixture d p ks) (fixture d' p' ks') (rw there at returned) in
        cc wrong
    | inr new ↦
        let h = rw (new, make_random_chunk-untried sha1 32 index text made) at returned in
        let ((c, q), h', got) =
          ok->>= _ (insert z beyond (untried blob (hash sha1 text) text) p) h in
        let (_, same, keys) =
          same_fixture true (fixture d q (set_insert index ks)) (fixture d' p' ks') h' in
        (c, got ∙ ap (λ r. ok (c, r)) (some-injective q p' same), sym keys)
  ]

  flush-returned :
      (d d' : Dir) (p p' : Pool) (ks ks' : List ℕ)
      → flush (fixture d p ks) ≡ ok (true, fixture d' p' ks')
      → (Pool.flush p ≡ ok p') × (ks' ≡ ks)
  unfolding flush
  flush-returned d d' p p' ks ks' returned =
      let (q, h, got) = ok->>= _ (Pool.flush p) returned in
      let (_, same, keys) = same_fixture true (fixture d q ks) (fixture d' p' ks') h in
      (got ∙ ap ok (some-injective q p' same), sym keys)

  reopen-returned :
      (parse : Option (List ℕ) → Outcome Parsed) (opened : Bool) (fd res : ℕ) (writable : Bool)
      (d d' : Dir) (p p' : Pool) (ks ks' : List ℕ) (closed : PoolFixture)
      → close (fixture d p ks) ≡ ok (true, closed)
      → open_fixture parse opened fd res writable closed ≡ ok (true, fixture d' p' ks')
      → (q : Pool) × (Pool.close p ≡ ok q)
        × (open_pool parse opened fd res q.dir writable ≡ ok p')
        × (ks' ≡ ks)
  unfolding close open_fixture
  reopen-returned parse opened fd res writable d d' p p' ks ks' closed closing opening =
      let (q, h, got) = ok->>= _ (Pool.close p) closing in
      let left : ◌≡◌ {A = PoolFixture} (record { dir = q.dir; pool = none; known = ks }) closed =
        ap (λ (r : Bool × PoolFixture). r.1)
          (ok-injective (true, record { dir = q.dir; pool = none; known = ks }) (true, closed) h) in
      let again =
        subst (λ f. open_fixture parse opened fd res writable f ≡ ok (true, fixture d' p' ks'))
          (sym left) opening in
      let (r, h', got') = ok->>= _ (open_pool parse opened fd res q.dir writable) again in
      let (_, same, keys) = same_fixture true (fixture q.dir r ks) (fixture d' p' ks') h' in
      (q, got, got' ∙ ap ok (some-injective r p' same), sym keys)

  module _ (lawful : IsZlib z) (room : 14 ≤ length beyond) (frame : length stale ≡ 48) where
    add-Knows :
        (d d' : Dir) (p p' : Pool) (ks ks' : List ℕ) (m : Contents) (index : ℕ) (text : List ℕ)
        → make_random_string 32 index ≡ some text
        → IsInsertion z blob (hash sha1 text) text m p
        → add sha1 z beyond index (fixture d p ks) ≡ ok (true, fixture d' p' ks')
        → Knows p ks m
        → Knows p' ks' (update m (hash sha1 text) (blob, text))
    add-Knows d d' p p' ks ks' m index text made ins returned k =
        let (c, got, keys) = add-returned d d' p p' ks ks' index text made returned in
        record {
          good =
              insert-Good z beyond stale lawful room frame blob (hash sha1 text) text c p p' m ins
                got k.good;
          texts = subst (All (IsKnown (update m (hash sha1 text) (blob, text)))) (sym keys) (
              set_insert-All (IsKnown (update m (hash sha1 text) (blob, text))) index ks
                (text, made, ins.twenty, updated)
                (All-map (IsKnown m) (IsKnown (update m (hash sha1 text) (blob, text))) ks
                  (λ i (t, built, twenty, has). (
                    t,
                    built,
                    twenty,
                    update-Keeps m (hash sha1 text) (blob, text) ins.twenty ins.agrees (hash sha1 t)
                        (blob, t) twenty has,
                  ))
                  k.texts));
        }
      where
        updated : update m (hash sha1 text) (blob, text) (hash sha1 text) ≡ some (blob, text)
        updated =
            rw ((comparisons (hash sha1 text) (hash sha1 text) ins.twenty ins.twenty).2.1 refl) refl

    pub Script-Knows :
        {d e : Dir} {p q : Pool} {ks ls : List ℕ} {m n : Contents}
        → Script d p ks m e q ls n
        → Knows p ks m
        → Knows q ls n
    Script-Knows done k = k
    Script-Knows
          (added {d = d} {d' = d'} {p = p} {p' = p'} {ks = ks} {ks' = ks'} {m = m} index text made
            ins returned rest)
          k =
        Script-Knows rest (add-Knows d d' p p' ks ks' m index text made ins returned k)
    Script-Knows
          (flushed {d = d} {d' = d'} {p = p} {p' = p'} {ks = ks} {ks' = ks'} {m = m} fits returned
            rest)
          k =
        let (got, keys) = flush-returned d d' p p' ks ks' returned in
        let (v, saved, clean) = flush-Good z beyond stale p p' m fits got k.good in
        Script-Knows rest (record {
          good = (v, Persists-Durable p p' clean saved);
          texts = subst (All (IsKnown m)) (sym keys) k.texts;
        })
    Script-Knows
          (reopened {d = d} {d' = d'} {p = p} {p' = p'} {ks = ks} {ks' = ks'} {m = m} parse opened
            fd res writable closed fits closing opening word rest)
          k =
        let (q, got, got', keys) =
          reopen-returned parse opened fd res writable d d' p p' ks ks' closed closing opening in
        Script-Knows rest (record {
          good =
              reopen-Good z beyond stale parse opened fd res writable p q p' m fits got got' word
                k.good;
          texts = subst (All (IsKnown m)) (sym keys) k.texts;
        })
