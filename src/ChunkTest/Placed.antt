-- ===== src/ChunkTest/Placed.antt =====
-- The checks of the unit test pass when the chunks lie one behind the other in the stream.
use cdump.Prelude.{
  ℕ, ◌+◌, ◌%◌, ◌^◌, ◌≤◌, ◌<◌, ◌≡◌, refl, sym, ap, subst, ◌∙◌, Bool, true, false, some, List, [],
  ◌∷◌, ◌++◌, map, drop, drop-append, length, length-append, ok, arith, All, ltb, ◌==◌, not, Option,
  none, if◌then◌else◌,
}
use cdump.Kind
use cdump.Kind.{Kind, load_kind}
use cdump.Oid.{Oid, IsOid}
use cdump.Oid.Laws.{comparisons}
use cdump.Chunk.{Zlib, Stream, chunk_kind, chunk_oid, size}
use cdump.Chunk.Format.{HeaderInfo, read_header, read}
use cdump.ChunkTest.{Info, ChunkTracker, seekg, is_header_of, offsets_loop, read_loop}
use cdump.Tutil.Text.{blob}
use cdump.Pool.View.{StoredAt, ReadsAs}

-- A tracker whose stream has not failed.
abbrev pub tracker : List (Oid × Info) → List ℕ → ChunkTracker
tracker stored buf = record { stored = stored; buf = buf; failed = false }

-- A chunk's image of `n` bytes is in the stream at its offset.
pub record IsPlaced (z : Zlib) (buf : List ℕ) (e : Oid × Info) (n : ℕ) : Type 0 where
  pub text : List ℕ
  pub place : StoredAt z buf e.1.offset e.0 (blob, text)
  pub twenty : IsOid e.0
  pub same_kind : chunk_kind e.1.chunk ≡ blob
  pub same_oid : chunk_oid e.1.chunk ≡ e.0
  pub same_size : size e.1.chunk ≡ length text
  pub measured : length place.out ≡ n
  pub written : 0 < n

-- The images lie one behind the other from `pos` on, up to the stream's end.
abbrev pub Chain : Zlib → List ℕ → ℕ → List (Oid × Info) → Type 0
Chain z buf pos [] = pos ≡ length buf
Chain z buf pos (e ∷ es) =
    (e.1.offset ≡ pos) × ((n : ℕ) × IsPlaced z buf e n × Chain z buf (pos + n) es)

pub placed_within :
    (z : Zlib) (buf : List ℕ) (e : Oid × Info) (n : ℕ) (p : IsPlaced z buf e n)
    → e.1.offset + n ≤ length buf
placed_within z buf e n p = omega (
  arith,
  p.place.starts,
  p.measured,
  ap length p.place.cut,
  length-append p.place.front (p.place.out ++ p.place.back),
  length-append p.place.out p.place.back,
)

module _ (z : Zlib) (stale : List ℕ) (frame : length stale ≡ 48) (buf : List ℕ) where
  seekg-placed :
      (stored : List (Oid × Info)) (e : Oid × Info) (n : ℕ) (p : IsPlaced z buf e n)
      → seekg e.1.offset (tracker stored buf)
        ≡ record { rest = p.place.out ++ p.place.back; failed = false }
  unfolding seekg
  seekg-placed stored e n p = rw within (
      ap (λ l. record { rest = l; failed = false })
        (ap (drop e.1.offset) p.place.cut
          ∙ drop-append p.place.front (p.place.out ++ p.place.back) e.1.offset p.place.starts))
    where
      within : ltb (length buf) e.1.offset ≡ false
      within = ground (arith, placed_within z buf e n p)

  reading :
      (e : Oid × Info) (n : ℕ) (p : IsPlaced z buf e n)
      → ReadsAs z stale p.place.out p.place.back e.0 (blob, p.text)
  reading e n p = p.place.image stale p.place.back frame

  header-placed :
      (stored : List (Oid × Info)) (e : Oid × Info) (n : ℕ) (p : IsPlaced z buf e n)
      → read_header stale (seekg e.1.offset (tracker stored buf)) ≡ (
        some (record { kind = blob; oid = e.0; size = length p.text; stored_size = n }),
        record { rest = (reading e n p).after_head; failed = false },
      )
  header-placed stored e n p =
      ap (read_header stale) (seekg-placed stored e n p) ∙ rw p.measured at (reading e n p).head

  is_header_of-placed :
      (e : Oid × Info) (n : ℕ) (p : IsPlaced z buf e n)
      → is_header_of e.1.chunk
          (record { kind = blob; oid = e.0; size = length p.text; stored_size = n })
        ≡ true
  unfolding is_header_of Kind.equals
  is_header_of-placed e n p =
      let (_, _, (_, same)) = comparisons e.0 e.0 p.twenty p.twenty in
      rw (p.same_kind, p.same_oid, p.same_size) (ground (arith, same refl))

  -- A round of the loop, from what reading the header comes to.
  abbrev round :
      List (Oid × Info)
      → (Oid × Info)
      → List (Oid × Info)
      → Option HeaderInfo × Stream
      → Bool × ChunkTracker
  round stored e log r =
      let t' : ChunkTracker = record { stored = stored; buf = buf; failed = r.1.failed } in
      if not (e.1.offset == e.1.offset) then (false, tracker stored buf) else (elim r.0 [
        | none ↦ (false, t')
        | some h ↦
            let later =
              offsets_loop stale t' (map (λ (i : Oid × Info). i.1) log)
                ((e.1.offset + h.stored_size) % 2 ^ 32) in
            if is_header_of e.1.chunk h then later else (false, t')
      ])

  -- `check_offsets` passes over images that lie one behind the other.
  pub offsets_loop-passes :
      (stored log : List (Oid × Info)) (pos : ℕ)
      → length buf < 2 ^ 32
      → Chain z buf pos log
      → offsets_loop stale (tracker stored buf) (map (λ (e : Oid × Info). e.1) log) pos
        ≡ (true, tracker stored buf)
  unfolding offsets_loop
  offsets_loop-passes stored [] pos small c = ap (λ b. (b, tracker stored buf)) (ground (arith, c))
  offsets_loop-passes stored (e ∷ log) pos small (o, (n, p, c)) =
      subst
        (λ pos.
          offsets_loop stale (tracker stored buf) (e.1 ∷ map (λ (i : Oid × Info). i.1) log) pos
          ≡ (true, tracker stored buf))
        o
        (ap (round stored e log) (header-placed stored e n p)
          ∙ rw (here, is_header_of-placed e n p)
              (ap (offsets_loop stale (tracker stored buf) (map (λ (i : Oid × Info). i.1) log)) next
                ∙ offsets_loop-passes stored log (e.1.offset + n) small
                    (subst (λ pos. Chain z buf (pos + n) log) (sym o) c)))
    where
      here : (e.1.offset == e.1.offset) ≡ true
      here = ground arith

      next : (e.1.offset + n) % 2 ^ 32 ≡ e.1.offset + n
      next = omega (arith, placed_within z buf e n p, small)

  read-placed :
      (stored : List (Oid × Info)) (e : Oid × Info) (n : ℕ) (p : IsPlaced z buf e n)
      → read stale (seekg e.1.offset (tracker stored buf))
        ≡ ok ((reading e n p).chunk, record { rest = (reading e n p).behind; failed = false })
  read-placed stored e n p = ap (read stale) (seekg-placed stored e n p) ∙ (reading e n p).got

  -- `check_read` passes over chunks that are in the stream.
  pub read_loop-passes :
      (stored es : List (Oid × Info))
      → All (λ e. (n : ℕ) × IsPlaced z buf e n) es
      → read_loop stale (tracker stored buf) es ≡ ok (true, tracker stored buf)
  unfolding read_loop Kind.equals
  read_loop-passes stored [] p = refl
  read_loop-passes stored (e ∷ es) ((n, p), ps) =
      rw (read-placed stored e n p, (reading e n p).shows.same_kind, p.same_kind, here)
        (read_loop-passes stored es ps)
    where
      here : (blob.raw == blob.raw) ≡ true
      here = ground arith
