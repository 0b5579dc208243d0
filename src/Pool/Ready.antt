-- ===== src/Pool/Ready.antt =====
-- Every branch of `prepare_write`, in a pool that represents a map.
use cdump.Prelude.{
  ℕ, ◌+◌, ◌%◌, ◌^◌, ◌≤◌, ◌<◌, ◌≡◌, refl, ap, ◌∙◌, arith, ltb, ltb→lt, ◌⊎◌, inl, inr, Bool, true,
  false, Bool-cases, none, List, [], ◌∷◌, Outcome, ok, ◌>>=◌, leb,
}
use cdump.Chunk.{Zlib}
use cdump.Pool.{Pool, flush, next_pos, open_front, front_full, prepare_write}
use cdump.Pool.Chosen.{PastLimit, new_front, Chosen, goes_on, starts_over, opens_new, opens_old}
use cdump.Pool.Files.{Dir, lookup, data_name, File}
use cdump.Pool.Flush.{FrontFits, pool_of, flush_refines}
use cdump.Pool.Prepare.{
  FrontRoom, Prepared, open_front-new, open_front-old, with_new-Prepared, writing-Prepared,
}
use cdump.Pool.View.{Contents, Represents}

-- What `prepare_write` needs of the pool: the latest file has at most 256 kinds, room for the size
-- and for one entry, and the next file's number has four digits and is not in use.
pub record Room (size : ℕ) (pool : Pool) : Type 0 where
  pub fits : FrontFits pool.files
  pub front : (pool.files ≡ []) ⊎ FrontRoom size pool.files
  pub vacant : lookup (data_name (next_pos pool.files)) pool.dir ≡ none
  pub numbered : next_pos pool.files < 10000
  pub small : size < 2 ^ 32

front_room :
    (size : ℕ) (f : File) (fs : List File)
    → ((f ∷ fs) ≡ []) ⊎ FrontRoom size (f ∷ fs)
    → FrontRoom size (f ∷ fs)
front_room size f fs (inl e) = cc
front_room size f fs (inr r) = r

-- A pool that a write can go into, chosen as `prepare_write` chooses.
abbrev Ready : Zlib → ℕ → Contents → Pool → Outcome Pool → Type 0
Ready z size m pool o =
    (pool' : Pool) × (o ≡ ok pool') × Prepared z size m pool pool' × Chosen size pool pool'

-- A new file, from any pool that has a number for it.
open_new :
    (pool : Pool)
    → lookup (data_name (next_pos pool.files)) pool.dir ≡ none
    → open_front true pool ≡ ok (new_front pool)
open_new pool vacant =
    open_front-new pool.dir pool.writable pool.limit pool.first_newfile pool.files pool.dirty
      pool.write_pos vacant

new_front-Prepared :
    (z : Zlib) (size : ℕ) (m : Contents) (pool : Pool)
    → Represents z pool m
    → next_pos pool.files < 10000
    → size < 2 ^ 32
    → Prepared z size m pool (new_front pool)
new_front-Prepared z size m pool v numbered small =
    with_new-Prepared z size m pool.dir pool.writable pool.limit pool.first_newfile pool.files
      pool.dirty pool.write_pos v numbered small

-- A clean pool gets a new file.
new-Ready :
    (z : Zlib) (size : ℕ) (m : Contents) (pool : Pool)
    → Represents z pool m
    → Room size pool
    → pool.dirty ≡ false
    → (pool.first_newfile ≡ true) ⊎ PastLimit size pool.limit pool.files
    → Ready z size m pool (open_front true pool)
new-Ready z size m pool v room clean due = (
  new_front pool,
  open_new pool room.vacant,
  new_front-Prepared z size m pool v room.numbered room.small,
  opens_new clean due refl,
)

-- The session's file is beyond the limit for this size: it is flushed and a new one opened.
flushed-Ready :
    (z : Zlib) (size : ℕ) (m : Contents) (pool : Pool)
    → Represents z pool m
    → Room size pool
    → pool.dirty ≡ true
    → pool.limit < (pool.write_pos + size) % 2 ^ 32
    → Ready z size m pool (flush pool >>= open_front true)
flushed-Ready z size m pool v room session beyond =
    let (q, flushed, v', kept) = flush_refines z pool m v room.fits in
    let vacant : lookup (data_name (next_pos q.files)) q.dir ≡ none =
      ap (λ (n : ℕ). lookup (data_name n) q.dir) kept.same_next
      ∙ kept.same_data (next_pos pool.files) room.numbered
      ∙ room.vacant in
    let p =
      new_front-Prepared z size m q v' (omega (arith, kept.same_next, room.numbered)) room.small in
    (
      new_front q,
      ap (λ o. o >>= open_front true) flushed ∙ open_new q vacant,
      record {
        represents = p.represents;
        dirty = p.dirty;
        same_writable = p.same_writable ∙ kept.same_writable;
        same_limit = p.same_limit ∙ kept.same_limit;
        room = p.room;
      },
      starts_over session beyond q flushed kept refl,
    )

module _ (z : Zlib) (size : ℕ) (m : Contents) (dir : Dir) (writable : Bool) (limit : ℕ)
    (write_pos : ℕ) where
  abbrev WriteReady : Bool → List File → Bool → Type 0
  WriteReady newfile files dirty =
      Ready z size m (pool_of dir writable limit newfile files dirty write_pos)
        (prepare_write size (pool_of dir writable limit newfile files dirty write_pos))

  -- The latest file goes on being written, or a new one is opened.
  old_or_new :
      (files : List File)
      → Represents z (pool_of dir writable limit false files false write_pos) m
      → Room size (pool_of dir writable limit false files false write_pos)
      → WriteReady false files false
  unfolding prepare_write front_full
  old_or_new [] v room =
      new-Ready z size m (pool_of dir writable limit false [] false write_pos) v room refl (inr tt)
  old_or_new (f ∷ fs) v room = elim (Bool-cases (ltb limit ((f.size + size) % 2 ^ 32))) [
    | inl full ↦ rw full (
        new-Ready z size m (pool_of dir writable limit false (f ∷ fs) false write_pos) v room refl
          (inr (ltb→lt limit ((f.size + size) % 2 ^ 32) full)))
    | inr some_room ↦ (
      _,
      rw some_room (open_front-old dir writable limit false f fs false write_pos),
      writing-Prepared z size m dir writable limit false f fs false write_pos v
          (front_room size f fs room.front),
      opens_old refl refl f fs refl (within_limit ((f.size + size) % 2 ^ 32) some_room) refl,
    )
  ]
    where
      within_limit : (n : ℕ) → ltb limit n ≡ false → n ≤ limit
      within_limit n h = ground arith

  ready :
      (newfile : Bool) (files : List File) (dirty : Bool)
      → Represents z (pool_of dir writable limit newfile files dirty write_pos) m
      → Room size (pool_of dir writable limit newfile files dirty write_pos)
      → WriteReady newfile files dirty
  unfolding prepare_write
  ready false files false v room = old_or_new files v room
  ready true files false v room =
      new-Ready z size m (pool_of dir writable limit true files false write_pos) v room refl
        (inl refl)
  ready newfile [] true v room = absurd v.front_open
  ready newfile (f ∷ fs) true v room = elim (Bool-cases (leb ((write_pos + size) % 2 ^ 32) limit)) [
    | inl within ↦ (
      pool_of dir writable limit newfile (f ∷ fs) true write_pos,
      rw within refl,
      record {
        represents = v;
        dirty = refl;
        same_writable = refl;
        same_limit = refl;
        room = front_room size f fs room.front;
      },
      goes_on refl (leb→le ((write_pos + size) % 2 ^ 32) within) refl,
    )
    | inr beyond ↦ rw beyond (
        flushed-Ready z size m (pool_of dir writable limit newfile (f ∷ fs) true write_pos) v room
          refl (past ((write_pos + size) % 2 ^ 32) beyond))
  ]
    where
      leb→le : (n : ℕ) → leb n limit ≡ true → n ≤ limit
      leb→le n h = ground arith

      past : (n : ℕ) → leb n limit ≡ false → limit < n
      past n h = ground arith

-- In a pool that represents a map and has room, `prepare_write` ends in a dirty pool that
-- represents the same map, whose latest file has room for the size in 32 bits. In a dirty pool,
-- when the write position and the size do not exceed the limit, nothing changes; when they do, the
-- pool is flushed, which saves the index of the latest file, and a new empty file with the next
-- number comes in front. In a clean pool such a file comes in front when the first write is to have
-- a new file, when there is no file, or when the latest file would be beyond the limit; otherwise
-- the latest file is opened for writing again.
pub prepare_write_refines :
    (z : Zlib) (size : ℕ) (pool : Pool) (m : Contents)
    → Represents z pool m
    → Room size pool
    → (pool' : Pool) × (prepare_write size pool ≡ ok pool')
      × Prepared z size m pool pool'
      × Chosen size pool pool'
prepare_write_refines z size pool m v room =
    ready z size m pool.dir pool.writable pool.limit pool.write_pos pool.first_newfile pool.files
      pool.dirty v room
