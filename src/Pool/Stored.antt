-- ===== src/Pool/Stored.antt =====
-- What was inserted in a session is found.
use cdump.Prelude.{
  ℕ, ◌+◌, ◌^◌, ◌≤◌, ◌<◌, ◌≡◌, refl, sym, ap, ◌∙◌, Bool, true, false, Option, none, some, List, [],
  ◌∷◌, ◌++◌, ok, ok-injective, length, drop-append, append-nil,
}
use cdump.Bytes.{IsWord}
use cdump.Kind.{Kind}
use cdump.Oid.{Oid, IsOid, equals}
use cdump.Oid.Laws.{comparisons}
use cdump.Index.{FileIndex, Entry, ram_find}
use cdump.Index.Insert.{find-insert}
use cdump.Chunk.{Stream, Zlib, IsZlib, Chunk, chunk_kind, chunk_oid, chunk_data, try_compress}
use cdump.Chunk.Format.{header_size, padded, read}
use cdump.Chunk.Written.{untried, payload_of}
use cdump.Chunk.RoundTrip.{read-write}
use cdump.Pool.{Pool, insert, read_entry, find_in, find}
use cdump.Pool.Directory.{lookup-append}
use cdump.Pool.Files.{Dir, lookup, append, data_name, File}
use cdump.Pool.Session.{session, entry_at, insert-session}

abbrev pub fail_front : Bool → List File → List File
fail_front failed [] = []
fail_front failed (file ∷ files) = record file { failed = failed } ∷ files

-- The pool after a search that ended in its first file.
abbrev pub after_find : Bool → Pool → Pool
after_find failed pool = record pool { files = fail_front failed pool.files }

-- Looking up what was inserted.
module _ (z : Zlib) (stale beyond : List ℕ) (kind : Kind) (oid : Oid) (text : List ℕ)
    (lawful : IsZlib z) (v : IsOid oid) (kword : IsWord kind.raw) (small : length text < 2 ^ 31)
    (room : 14 ≤ length beyond) (frame : length stale ≡ 48) (dir : Dir) (limit pos : ℕ)
    (index : FileIndex) (content : List ℕ) (files : List File)
    (here : lookup (data_name pos) dir ≡ some content) (word : limit < 2 ^ 32) where
  equals_refl : equals oid oid ≡ true
  equals_refl = (comparisons oid oid v v).2.1 refl

  found_entry :
      ram_find oid index.ram ≡ none
      → cdump.Index.find (cdump.Index.insert (entry_at oid content kind) index) oid
        ≡ ok (some (entry_at oid content kind))
  found_entry fresh =
      find-insert (entry_at oid content kind) index oid ∙ rw (fresh, equals_refl) refl

  read_entry-session :
      (out : List ℕ) (idx : FileIndex) (n : ℕ) (d : Chunk) (s : Stream)
      → read stale (record { rest = out ++ []; failed = false }) ≡ ok (d, s)
      → read_entry stale
          (append (data_name pos) out dir)
          (entry_at oid content kind)
          (record { pos = pos; index = idx; size = n; for_writing = true; failed = false })
          files
        ≡ ok (
          some d,
          record { pos = pos; index = idx; size = n; for_writing = true; failed = s.failed }
              ∷ files,
        )
  unfolding read_entry
  read_entry-session out idx n d s h =
      rw
        (
          read_entry,
          lookup-append (data_name pos) content out dir here,
          drop-append content out (length content) refl,
          rw append-nil at h,
        )
        refl

  find-session :
      (out : List ℕ) (d : Chunk) (s : Stream)
      → ram_find oid index.ram ≡ none
      → read stale (record { rest = out ++ []; failed = false }) ≡ ok (d, s)
      → find stale oid (
          session
            (append (data_name pos) out dir)
            limit
            pos
            (cdump.Index.insert (entry_at oid content kind) index)
            (content ++ out)
            files)
        ≡ ok (
          some d,
          after_find s.failed (
              session
                (append (data_name pos) out dir)
                limit
                pos
                (cdump.Index.insert (entry_at oid content kind) index)
                (content ++ out)
                files),
        )
  unfolding find find_in
  find-session out d s fresh h =
      rw
        (
          found_entry fresh,
          read_entry-session out (cdump.Index.insert (entry_at oid content kind) index)
              (length (content ++ out)) d s h,
        )
        refl

  -- Under the conditions of an insertion into the latest file, and if the entries that this file's index
  -- has in memory do not have the identifier yet: `insert` of the chunk and then `find` of its identifier
  -- return a chunk of the same kind and identifier, whose `data` is the text.
  pub find-insert-session :
      (r : Option (List ℕ))
      → try_compress z text ≡ ok r
      → padded (header_size + length (payload_of text r)) ≤ limit
      → length content + padded (header_size + length (payload_of text r)) < 2 ^ 32
      → ram_find oid index.ram ≡ none
      → (c d e : Chunk) × (grown looked : Pool) × ((insert z beyond
              (untried kind oid text)
              (session dir limit pos index content files)
            ≡ ok (c, grown))
          × (find stale oid grown ≡ ok (some d, looked))
          × (chunk_kind d ≡ kind)
          × (chunk_oid d ≡ oid)
          × (chunk_data z d ≡ ok (text, e)))
  find-insert-session r h fits space fresh =
      let (out, c, (wrote, inserted)) =
        insert-session z beyond kind oid text lawful v small room dir limit pos index content files
          here word r h fits space in
      let (out', pad, c', d, e, (wrote', _, got, same_kind, same_oid, _, _, text_back)) =
        read-write z stale beyond [] kind oid text lawful v kword small room frame r h in
      let same_out : out' ≡ out =
        ap (λ (w : List ℕ × Chunk). w.0) (ok-injective (out', c') (out, c) (sym wrote' ∙ wrote)) in
      (
        c,
        d,
        e,
        _,
        _,
        (inserted, find-session out d _ fresh (rw same_out at got), same_kind, same_oid, text_back),
      )
