-- ===== src/Pool/Session.antt =====
-- A session of writing: `insert` into a pool whose latest file is open for writing.
use cdump.Prelude.{
  ℕ, ◌+◌, ◌%◌, ◌^◌, ◌≤◌, ◌<◌, ◌≡◌, refl, true, false, Option, none, some, List, ◌∷◌, ◌++◌, ok,
  arith, length, length-append, take_all, ◌==◌, ==_iff,
}
use cdump.Kind.{Kind}
use cdump.Oid.{Oid, IsOid}
use cdump.Index.{FileIndex, Entry, ram_find}
use cdump.Chunk.{
  Zlib, IsZlib, Chunk, chunk_kind, chunk_oid, size, has_zdata, zdata, zsize, chunk_data,
  try_compress,
}
use cdump.Chunk.Format.{header_size, padded, write, write_size}
use cdump.Chunk.Image.{image}
use cdump.Chunk.Written.{
  untried, settled, payload_of, uclen_of, write-untried, write_size-untried, length-image,
  try_compress-shorter,
}
use cdump.Pool.{Pool, prepare_write, insert_front, insert}
use cdump.Pool.Directory.{lookup-append}
use cdump.Pool.Files.{Dir, lookup, append, data_name, File}

module _ (z : Zlib) (beyond : List ℕ) (kind : Kind) (oid : Oid) (text : List ℕ) where
  pub write-settled :
      (r : Option (List ℕ))
      → write z beyond (settled kind oid text r)
        ≡ ok (image beyond kind oid (uclen_of text r) (payload_of text r), settled kind oid text r)
  unfolding write has_zdata zdata zsize chunk_data size chunk_kind chunk_oid
  write-settled none = rw (take_all text (length text) refl) refl
  write-settled (some out) = rw (take_all out (length out) refl) refl

  pub write_size-settled :
      (r : Option (List ℕ))
      → write_size z (settled kind oid text r)
        ≡ ok (padded (header_size + length (payload_of text r)), settled kind oid text r)
  unfolding write_size has_zdata zsize size
  write_size-settled none = refl
  write_size-settled (some out) = refl

  oid-settled : (r : Option (List ℕ)) → chunk_oid (settled kind oid text r) ≡ oid
  unfolding chunk_oid
  oid-settled none = refl
  oid-settled (some out) = refl

  kind-settled : (r : Option (List ℕ)) → chunk_kind (settled kind oid text r) ≡ kind
  unfolding chunk_kind
  kind-settled none = refl
  kind-settled (some out) = refl

-- A pool whose latest file is open for writing and has `content`.
abbrev pub session : Dir → ℕ → ℕ → FileIndex → List ℕ → List File → Pool
session dir limit pos index content files = record {
  dir = dir;
  writable = true;
  limit = limit;
  first_newfile = false;
  files =
      record { pos = pos; index = index; size = length content; for_writing = true; failed = false }
      ∷ files;
  dirty = true;
  write_pos = 0;
}

prepare_write-session :
    (dir : Dir) (limit pos : ℕ) (index : FileIndex) (content : List ℕ) (files : List File)
    (size : ℕ)
    → size ≤ limit
    → limit < 2 ^ 32
    → prepare_write size (session dir limit pos index content files)
      ≡ ok (session dir limit pos index content files)
unfolding prepare_write
prepare_write-session dir limit pos index content files size fits word = ground arith

-- The entry that an insertion at the end of `content` adds.
abbrev pub entry_at : Oid → List ℕ → Kind → Entry
entry_at oid content kind = (oid, record { offset = length content; kind = kind })

pub insert_front-session :
    (z : Zlib) (beyond : List ℕ) (kind : Kind) (oid : Oid) (text : List ℕ) (dir : Dir)
    (limit pos : ℕ) (index : FileIndex) (content : List ℕ) (files : List File) (r : Option (List ℕ))
    (out : List ℕ)
    → lookup (data_name pos) dir ≡ some content
    → write z beyond (settled kind oid text r) ≡ ok (out, settled kind oid text r)
    → write_size z (settled kind oid text r) ≡ ok (length out, settled kind oid text r)
    → length content + length out < 2 ^ 32
    → insert_front z beyond
        (settled kind oid text r)
        (record {
          pos = pos;
          index = index;
          size = length content;
          for_writing = true;
          failed = false;
        })
        files
        (session dir limit pos index content files)
      ≡ ok (
        settled kind oid text r,
        session
            (append (data_name pos) out dir)
            limit
            pos
            (cdump.Index.insert (entry_at oid content kind) index)
            (content ++ out)
            files,
      )
unfolding insert_front
insert_front-session z beyond kind oid text dir limit pos index content files r out here ew es
      room =
    rw
      (
        ew,
        es,
        lookup-append (data_name pos) content out dir here,
        grown,
        same (length (content ++ out)),
        oid-settled z beyond kind oid text r,
        kind-settled z beyond kind oid text r,
      )
      refl
  where
    grown : (length content + length out) % 2 ^ 32 ≡ length (content ++ out)
    grown = omega (arith, length-append content out)

    same : (n : ℕ) → (n == n) ≡ true
    same n = (==_iff n n).1 refl

-- Inserting into a session.
module _ (z : Zlib) (beyond : List ℕ) (kind : Kind) (oid : Oid) (text : List ℕ) (lawful : IsZlib z)
    (v : IsOid oid) (small : length text < 2 ^ 31) (room : 14 ≤ length beyond) (dir : Dir)
    (limit pos : ℕ) (index : FileIndex) (content : List ℕ) (files : List File)
    (here : lookup (data_name pos) dir ≡ some content) (word : limit < 2 ^ 32) where
  -- Let zlib keep its manual's promises, the chunk be new with an identifier of 20 bytes and a
  -- text shorter than 2^31 bytes that `try_compress` does not throw on, and the latest file be open
  -- for writing and have `content`. If the chunk's `write_size` alone is within the limit and the file
  -- stays below 2^32 bytes, then `insert` appends the chunk to this file and enters its identifier at the
  -- old end of the file, however far beyond the limit the file is or gets.
  pub insert-session :
      (r : Option (List ℕ))
      → try_compress z text ≡ ok r
      → padded (header_size + length (payload_of text r)) ≤ limit
      → length content + padded (header_size + length (payload_of text r)) < 2 ^ 32
      → (out : List ℕ) × (c : Chunk) × ((write z beyond (untried kind oid text) ≡ ok (out, c))
          × (insert z beyond (untried kind oid text) (session dir limit pos index content files)
              ≡ ok (
                c,
                session
                    (append (data_name pos) out dir)
                    limit
                    pos
                    (cdump.Index.insert (entry_at oid content kind) index)
                    (content ++ out)
                    files,
              )))
  unfolding insert
  insert-session r h fits space = (
    image beyond kind oid (uclen_of text r) (payload_of text r),
    settled kind oid text r,
    (
      write-untried z beyond kind oid text r h,
      rw
          (
            write_size-untried z beyond kind oid text r h,
            prepare_write-session dir limit pos index content files _ fits word,
          )
          (insert_front-session z beyond kind oid text dir limit pos index content files r _ here
            (write-settled z beyond kind oid text r)
            (rw sized (write_size-settled z beyond kind oid text r)) (rw sized space)),
    ),
  )
    where
      short : length (payload_of text r) < 2 ^ 31
      short = omega (arith, try_compress-shorter z text r lawful h)

      sized :
          length (image beyond kind oid (uclen_of text r) (payload_of text r))
          ≡ padded (header_size + length (payload_of text r))
      sized = length-image beyond kind oid (uclen_of text r) (payload_of text r) v room short
