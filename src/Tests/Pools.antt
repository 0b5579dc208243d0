-- ===== src/Tests/Pools.antt =====
-- A pool in a session whose latest file is already beyond the limit.
use cdump.Prelude.{
  ℕ, ◌+◌, ◌≤◌, ◌<◌, ◌^◌, ◌≡◌, refl, List, [], ◌∷◌, ◌++◌, none, some, ok, arith, replicate, length,
  codes, ltb, if◌then◌else◌,
}
use cdump.Text.Digits.{put_dec, digits, digit_char, pad_left}
use cdump.Index.{FileIndex, new_index, ram_find}
use cdump.Chunk.{Chunk, chunk_kind, chunk_oid, chunk_data}
use cdump.Chunk.Format.{write, padded}
use cdump.Chunk.Written.{untried}
use cdump.Pool.{Pool, insert, find}
use cdump.Pool.Files.{Dir, lookup, same_name, construct_name, data_name, append}
use cdump.Pool.Names.{decode_name, decode_name-construct_name}
use cdump.Pool.Session.{session, entry_at, insert-session}
use cdump.Pool.Stored.{find-insert-session}
use cdump.Tests.Values.{oid, oid-IsOid, blob}
use cdump.Tests.Chunks.{toy, toy-IsZlib, text, text_stored, stale, beyond}

abbrev content : List ℕ
content = replicate 200 0

abbrev dir : Dir
dir = (data_name 0, content) ∷ []

abbrev limit : ℕ
limit = 128

content_there : lookup (data_name 0) dir ≡ some content
unfolding lookup same_name construct_name put_dec digits digit_char pad_left
content_there = refl

fits : padded (48 + 20) ≤ limit
unfolding padded
fits = omega arith

space : length content + padded (48 + 20) < 2 ^ 32
unfolding padded
space = omega arith

nothing_there : ram_find (oid 3 1) [] ≡ none
unfolding ram_find
nothing_there = refl

insert-session_example :
    (out : List ℕ) × (c : Chunk) × ((write toy beyond (untried blob (oid 3 1) text) ≡ ok (out, c))
      × (insert toy beyond (untried blob (oid 3 1) text) (session dir limit 0 new_index content [])
          ≡ ok (
            c,
            session
                (append (data_name 0) out dir)
                limit
                0
                (cdump.Index.insert (entry_at (oid 3 1) content blob) new_index)
                (content ++ out)
                [],
          )))
insert-session_example =
    insert-session toy beyond blob (oid 3 1) text toy-IsZlib
      (oid-IsOid 3 1 (omega arith) (omega arith)) (omega arith) (omega arith) dir limit 0 new_index
      content [] content_there (omega arith) (some text) text_stored fits space

find-insert-session_example :
    (c d e : Chunk) × (grown looked : Pool) × ((insert toy beyond
          (untried blob (oid 3 1) text)
          (session dir limit 0 new_index content [])
        ≡ ok (c, grown))
      × (find stale (oid 3 1) grown ≡ ok (some d, looked))
      × (chunk_kind d ≡ blob)
      × (chunk_oid d ≡ oid 3 1)
      × (chunk_data toy d ≡ ok (text, e)))
find-insert-session_example =
    find-insert-session toy stale beyond blob (oid 3 1) text toy-IsZlib
      (oid-IsOid 3 1 (omega arith) (omega arith)) (omega arith) (omega arith) (omega arith) refl dir
      limit 0 new_index content [] content_there (omega arith) (some text) text_stored fits space
      nothing_there

decode_name-construct_name_example :
    decode_name (construct_name 10000 (codes ".data"))
    ≡ (if ltb 10000 10000 then some 10000 else none)
decode_name-construct_name_example = decode_name-construct_name 10000
