-- ===== src/Tests/Fixtures.antt =====
-- The fixture of the pool's unit tests, with one chunk.
use cdump.Prelude.{
  ℕ, ◌+◌, ◌<◌, ◌^◌, ◌≡◌, refl, inl, true, false, some, List, [], ◌∷◌, ok, arith, ltb, leb, length,
}
use cdump.Chunk.{Chunk, try_compress}
use cdump.Chunk.Format.{header_size, padded}
use cdump.Chunk.Written.{untried, payload_of}
use cdump.Kind.{load_kind}
use cdump.Pool.{Pool, insert}
use cdump.Pool.Ready.{Room}
use cdump.Pool.Refine.{insert_refines}
use cdump.Pool.Steps.{IsInsertion}
use cdump.Pool.View.{nothing, update, Represents}
use cdump.PoolTest.{add, check}
use cdump.PoolTest.Checked.{check-Script}
use cdump.PoolTest.Script.{fixture, Script}
use cdump.Tests.Chunks.{toy, toy-IsZlib, stale, beyond}
use cdump.Tests.Runs.{empty, empty-Represents, nothing_there, first_number, no_files}
use cdump.Tests.Streams.{toy_sha1, twenty}
use cdump.Tutil.{make_random_string, set_insert}
use cdump.Tutil.Text.{blob, hash, make_random_string-length, make_random_chunk-untried}

random : (text : List ℕ) × (make_random_string 32 7 ≡ some text) × (length text ≡ 32)
random = make_random_string-length 32 7

abbrev text : List ℕ
text = random.0

compressed : try_compress toy text ≡ ok (some text)
unfolding try_compress
compressed = rw (try_compress, long, same) refl
  where
    long : ltb (length text) 16 ≡ false
    long = ground (arith, random.2)

    same : leb (length text) (length text) ≡ true
    same = ground arith

word : blob.raw < 2 ^ 32
unfolding load_kind
word = omega arith

needed : padded (header_size + length (payload_of text (some text))) < 2 ^ 32
unfolding padded
needed = omega (arith, random.2)

room : Room (padded (header_size + length (payload_of text (some text)))) empty
room = record {
  fits = tt;
  front = inl refl;
  vacant = nothing_there;
  numbered = first_number;
  small = needed;
}

first_insert :
    (c : Chunk) × (pool' : Pool) × (insert toy beyond (untried blob (hash toy_sha1 text) text) empty
      ≡ ok (c, pool'))
    × Represents toy pool' (update nothing (hash toy_sha1 text) (blob, text))
    × (pool'.writable ≡ true)
    × (pool'.limit ≡ 128)
first_insert =
    insert_refines toy beyond blob (hash toy_sha1 text) text toy-IsZlib (twenty text) word
      (omega (arith, random.2)) (omega arith) (some text) compressed empty nothing empty-Represents
      room refl (inl refl)

text-IsInsertion : IsInsertion toy blob (hash toy_sha1 text) text nothing empty
text-IsInsertion = record {
  twenty = twenty text;
  word = word;
  small = omega (arith, random.2);
  zdata = some text;
  compressed = compressed;
  agrees = inl refl;
  room = room;
}

first_add :
    add toy_sha1 toy beyond 7 (fixture [] empty []) ≡ ok (true, fixture [] first_insert.1 (7 ∷ []))
unfolding add set_insert
first_add = rw (add, make_random_chunk-untried toy_sha1 32 7 text random.1, first_insert.2) refl

script :
    Script toy_sha1 toy beyond stale [] empty [] nothing [] first_insert.1
      (7 ∷ [])
      (update nothing (hash toy_sha1 text) (blob, text))
script = Script.added 7 text random.1 text-IsInsertion first_add Script.done

check-Script_example :
    check toy_sha1 toy stale (fixture [] first_insert.1 (7 ∷ []))
    ≡ ok (true, fixture [] first_insert.1 (7 ∷ []))
check-Script_example =
    check-Script toy_sha1 toy beyond stale [] 128 true [] [] first_insert.1 (7 ∷ [])
      (update nothing (hash toy_sha1 text) (blob, text)) toy-IsZlib (omega arith) refl (omega arith)
      no_files script
