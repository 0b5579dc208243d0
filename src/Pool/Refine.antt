-- ===== src/Pool/Refine.antt =====
-- `insert` in a pool that represents a map.
use cdump.Prelude.{
  ℕ, ◌+◌, ◌^◌, ◌≤◌, ◌<◌, ◌≡◌, refl, ap, ◌∙◌, true, Option, List, ◌∷◌, ◌++◌, ok, arith, length,
}
use cdump.Bytes.{IsWord}
use cdump.Kind.{Kind}
use cdump.Oid.{Oid, IsOid}
use cdump.Index.{FileIndex}
use cdump.Chunk.{Zlib, IsZlib, Chunk, try_compress}
use cdump.Chunk.Format.{header_size, padded, write_size}
use cdump.Chunk.Written.{
  untried, settled, payload_of, uclen_of, write_size-untried, length-image, try_compress-shorter,
}
use cdump.Pool.{Pool, prepare_write, insert_front, insert}
use cdump.Pool.Files.{File, append, data_name}
use cdump.Pool.Frame.{Agrees}
use cdump.Pool.Grow.{front_of, grown-Represents}
use cdump.Pool.Image.{image_of, image-IsImage}
use cdump.Pool.Ready.{Room, prepare_write_refines}
use cdump.Pool.Session.{session, entry_at, insert_front-session, write-settled, write_size-settled}
use cdump.Pool.View.{Contents, update, Represents}
use cdump.Pool.InSession.{InSession, Prepared-InSession}

-- `insert` in a pool that is writable, once the size is known and `prepare_write` has ended.
insert_prepared :
    (z : Zlib) (beyond : List ℕ) (size : ℕ) (chunk chunk' : Chunk) (pool pool' : Pool) (file : File)
    (fs : List File)
    → pool.writable ≡ true
    → write_size z chunk ≡ ok (size, chunk')
    → prepare_write size pool ≡ ok pool'
    → pool'.files ≡ file ∷ fs
    → insert z beyond chunk pool ≡ insert_front z beyond chunk' file fs pool'
unfolding insert
insert_prepared z beyond size chunk chunk' pool pool' file fs w sized prepared front =
    simp (w, sized, prepared, front)

-- A new chunk, inserted into a pool that represents a map.
module _ (z : Zlib) (beyond : List ℕ) (kind : Kind) (oid : Oid) (text : List ℕ) (lawful : IsZlib z)
    (v : IsOid oid) (kword : IsWord kind.raw) (small : length text < 2 ^ 31)
    (room : 14 ≤ length beyond) (r : Option (List ℕ))
    (compressed : try_compress z text ≡ ok r) where
  abbrev pub size : ℕ
  size = padded (header_size + length (payload_of text r))

  sized : length (image_of beyond oid (kind, text) r) ≡ size
  sized =
      length-image beyond kind oid (uclen_of text r) (payload_of text r) v room
        (omega (arith, try_compress-shorter z text r lawful compressed, small))

  pub insert-InSession :
      (m : Contents) (pool pool' : Pool) (s : InSession z size m pool')
      → pool.writable ≡ true
      → prepare_write size pool ≡ ok pool'
      → insert z beyond (untried kind oid text) pool
        ≡ ok (
          settled kind oid text r,
          session
              (append (data_name s.pos) (image_of beyond oid (kind, text) r) pool'.dir)
              pool'.limit
              s.pos
              (cdump.Index.insert (entry_at oid s.content kind) s.index)
              (s.content ++ image_of beyond oid (kind, text) r)
              s.fs,
        )
  insert-InSession m pool pool' s w prepared =
      insert_prepared z beyond size (untried kind oid text) (settled kind oid text r) pool
        (session pool'.dir pool'.limit s.pos s.index s.content s.fs)
        (front_of s.pos s.index s.content) s.fs w
        (write_size-untried z beyond kind oid text r compressed) (prepared ∙ ap ok s.shape) refl
      ∙ insert_front-session z beyond kind oid text pool'.dir pool'.limit s.pos s.index s.content
          s.fs r (image_of beyond oid (kind, text) r) s.holds.there
          (write-settled z beyond kind oid text r)
          (rw sized (write_size-settled z beyond kind oid text r)) (omega (arith, sized, s.space))

  -- Let zlib keep its manual's promises, the chunk be new with an identifier of 20 bytes, a 32-bit kind and
  -- a text shorter than 2^31 bytes that `try_compress` does not throw on, 14 bytes lie behind the array
  -- `padding`, and the pool be writable, represent a map and have room (Room). If the map has nothing for
  -- the identifier or has this kind and text, then `insert` ends, in every branch of `prepare_write`, and the
  -- pool afterwards is writable, has the same limit, and represents the map with this kind and text for the
  -- identifier.
  pub insert_refines :
      (pool : Pool) (m : Contents)
      → Represents z pool m
      → Room size pool
      → pool.writable ≡ true
      → Agrees m oid (kind, text)
      → (c : Chunk) × (pool' : Pool) × (insert z beyond (untried kind oid text) pool
          ≡ ok (c, pool'))
        × Represents z pool' (update m oid (kind, text))
        × (pool'.writable ≡ true)
        × (pool'.limit ≡ pool.limit)
  insert_refines pool m rep space w agree =
      let (pool', prepared, p, _) = prepare_write_refines z size pool m rep space in
      let s : InSession z size m pool' = Prepared-InSession z size m pool pool' p w in
      (
        _,
        _,
        insert-InSession m pool pool' s w prepared,
        grown-Represents z m pool'.dir pool'.limit s.pos s.index s.content s.fs s.represents s.holds
            oid kind text (image_of beyond oid (kind, text) r) v kword
            (image-IsImage z beyond kind oid text lawful v kword small room r compressed) agree
            (omega (arith, sized, s.space)) s.entries,
        refl,
        p.same_limit,
      )
