-- ===== src/Pool/Kept.antt =====
-- `insert` in a pool whose directory can be opened again.
use cdump.Prelude.{
  ℕ, ◌+◌, ◌%◌, ◌^◌, ◌≤◌, ◌<◌, ◌≡◌, refl, sym, ap, subst, ◌∙◌, Bool, true, false, Bool-cases, inl,
  inr, Option, List, [], ◌∷◌, ◌++◌, ok, ok-injective, leb, ltb, length,
}
use cdump.Bytes.{IsWord}
use cdump.Kind.{Kind}
use cdump.Oid.{Oid, IsOid}
use cdump.Chunk.{Zlib, IsZlib, Chunk, try_compress}
use cdump.Chunk.Format.{header_size, padded}
use cdump.Chunk.Written.{untried, payload_of}
use cdump.Pool.{Pool, open_front, front_full, prepare_write, insert}
use cdump.Index.{FileIndex}
use cdump.Pool.Beside.{metadata_name, append_data-SameMetadata, append_data-SameIndices}
use cdump.Pool.Durable.{
  Durable, Stores, IsSaved-frame, FileHolds-named, open_new-Stores, flushed-Stores,
}
use cdump.Pool.Files.{Dir, lookup, append, data_name, File}
use cdump.Pool.Flush.{pool_of}
use cdump.Pool.Numbered.{find_pool_files-append}
use cdump.Pool.Prepare.{writing, open_front-old}
use cdump.Pool.Ready.{Room, prepare_write_refines}
use cdump.Pool.Grow.{front_of}
use cdump.Pool.Image.{image_of}
use cdump.Pool.InSession.{InSession, Prepared-InSession}
use cdump.Pool.Refine.{insert-InSession}
use cdump.Pool.Session.{session}
use cdump.Pool.View.{Contents, Holds, Represents}

-- The latest file is written again, in a clean pool.
open_old-Stores :
    (z : Zlib) (m : Contents) (dir : Dir) (writable : Bool) (limit : ℕ) (f : File) (fs : List File)
    (write_pos : ℕ)
    → Represents z (pool_of dir writable limit false (f ∷ fs) false write_pos) m
    → Durable (pool_of dir writable limit false (f ∷ fs) false write_pos)
    → (pool' : Pool) × (open_front false (pool_of dir writable limit false (f ∷ fs) false write_pos)
        ≡ ok pool')
      × Stores (pool_of dir writable limit false (f ∷ fs) false write_pos) pool'
open_old-Stores z m dir writable limit f fs write_pos v d =
    let (content, h) = v.hold.0 in
    (
      pool_of (append (data_name f.pos) [] dir) writable limit false (writing f ∷ fs) true
          write_pos,
      open_front-old dir writable limit false f fs false write_pos,
      record {
        durable = record {
          behind =
              IsSaved-frame dir (append (data_name f.pos) [] dir) fs
                (append_data-SameIndices f.pos [] dir h.named) (FileHolds-named z dir m fs v.hold.1)
                d.behind.1;
          known = find_pool_files-append (data_name f.pos) [] content dir h.there ∙ d.known;
        };
        same_metadata = append_data-SameMetadata f.pos [] dir;
      },
    )

module _ (z : Zlib) (size : ℕ) (m : Contents) (dir : Dir) (writable : Bool) (limit : ℕ)
    (write_pos : ℕ) where
  abbrev Kept : Bool → List File → Bool → Type 0
  Kept newfile files dirty =
      (pool' : Pool) × (prepare_write size
          (pool_of dir writable limit newfile files dirty write_pos)
        ≡ ok pool')
      × Stores (pool_of dir writable limit newfile files dirty write_pos) pool'

  old_or_new :
      (files : List File)
      → Represents z (pool_of dir writable limit false files false write_pos) m
      → Room size (pool_of dir writable limit false files false write_pos)
      → Durable (pool_of dir writable limit false files false write_pos)
      → Kept false files false
  unfolding prepare_write front_full
  old_or_new [] v room d =
      open_new-Stores z m (pool_of dir writable limit false [] false write_pos) v d.behind d.known
        room.vacant room.numbered
  old_or_new (f ∷ fs) v room d = elim (Bool-cases (ltb limit ((f.size + size) % 2 ^ 32))) [
    | inl full ↦ rw full (
        open_new-Stores z m (pool_of dir writable limit false (f ∷ fs) false write_pos) v d.behind
          d.known room.vacant room.numbered)
    | inr some_room ↦ rw some_room (open_old-Stores z m dir writable limit f fs write_pos v d)
  ]

  kept :
      (newfile : Bool) (files : List File) (dirty : Bool)
      → Represents z (pool_of dir writable limit newfile files dirty write_pos) m
      → Room size (pool_of dir writable limit newfile files dirty write_pos)
      → Durable (pool_of dir writable limit newfile files dirty write_pos)
      → Kept newfile files dirty
  unfolding prepare_write
  kept false files false v room d = old_or_new files v room d
  kept true files false v room d =
      open_new-Stores z m (pool_of dir writable limit true files false write_pos) v d.behind d.known
        room.vacant room.numbered
  kept newfile [] true v room d = absurd v.front_open
  kept newfile (f ∷ fs) true v room d =
      elim (Bool-cases (leb ((write_pos + size) % 2 ^ 32) limit)) [
        | inl within ↦ (
          pool_of dir writable limit newfile (f ∷ fs) true write_pos,
          rw within refl,
          record { durable = d; same_metadata = λ name. refl },
        )
        | inr beyond ↦ rw beyond (
            flushed-Stores z size m (pool_of dir writable limit newfile (f ∷ fs) true write_pos) v
              room d)
      ]

-- `prepare_write`, in every branch, keeps a pool whose directory can be opened again so.
pub prepare_write-Stores :
    (z : Zlib) (size : ℕ) (pool : Pool) (m : Contents)
    → Represents z pool m
    → Room size pool
    → Durable pool
    → (pool' : Pool) × (prepare_write size pool ≡ ok pool') × Stores pool pool'
prepare_write-Stores z size pool m v room d =
    kept z size m pool.dir pool.writable pool.limit pool.write_pos pool.first_newfile pool.files
      pool.dirty v room d

-- A session can be opened again as long as its other files can.
session-Durable :
    (z : Zlib) (m : Contents) (dir : Dir) (limit pos : ℕ) (index index' : FileIndex)
    (content image : List ℕ) (fs : List File)
    → Represents z (session dir limit pos index content fs) m
    → Holds z dir m (front_of pos index content) content
    → Durable (session dir limit pos index content fs)
    → Durable (session (append (data_name pos) image dir) limit pos index' (content ++ image) fs)
session-Durable z m dir limit pos index index' content image fs v h d = record {
  behind =
      IsSaved-frame dir (append (data_name pos) image dir) fs
        (append_data-SameIndices pos image dir h.named) (FileHolds-named z dir m fs v.hold.1)
        d.behind;
  known = find_pool_files-append (data_name pos) image content dir h.there ∙ d.known;
}

module _ (z : Zlib) (beyond : List ℕ) (kind : Kind) (oid : Oid) (text : List ℕ) (lawful : IsZlib z)
    (v : IsOid oid) (kword : IsWord kind.raw) (small : length text < 2 ^ 31)
    (room : 14 ≤ length beyond) (r : Option (List ℕ))
    (compressed : try_compress z text ≡ ok r) where
  pub insert-Stores :
      (pool : Pool) (m : Contents)
      → Represents z pool m
      → Room (padded (header_size + length (payload_of text r))) pool
      → pool.writable ≡ true
      → Durable pool
      → (c : Chunk) × (pool' : Pool) × (insert z beyond (untried kind oid text) pool
          ≡ ok (c, pool'))
        × Stores pool pool'
  insert-Stores pool m rep space w d =
      let size = padded (header_size + length (payload_of text r)) in
      let (pool', prepared, p, _) = prepare_write_refines z size pool m rep space in
      let (q, prepared', k) = prepare_write-Stores z size pool m rep space d in
      let same : q ≡ pool' = ok-injective q pool' (sym prepared' ∙ prepared) in
      let s : InSession z size m pool' = Prepared-InSession z size m pool pool' p w in
      let image = image_of beyond oid (kind, text) r in
      let d' : Durable (session pool'.dir pool'.limit s.pos s.index s.content s.fs) =
        subst Durable (same ∙ s.shape) k.durable in
      (
        _,
        _,
        insert-InSession z beyond kind oid text lawful v kword small room r compressed m pool pool'
            s w prepared,
        record {
          durable =
              session-Durable z m pool'.dir pool'.limit s.pos s.index _ s.content image s.fs
                s.represents s.holds d';
          same_metadata = λ name.
              append_data-SameMetadata s.pos image pool'.dir name
              ∙ ap (λ (t : Pool). lookup (metadata_name name) t.dir) (sym same)
              ∙ k.same_metadata name;
        },
      )
