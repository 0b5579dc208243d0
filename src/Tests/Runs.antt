-- ===== src/Tests/Runs.antt =====
-- A run from a pool without files: an insertion, and another opening.
use cdump.Prelude.{◌+◌, ◌<◌, ◌^◌, length, ◌≡◌, refl, inl, none, some, [], ok, arith, true, false}
use cdump.Chunk.{Chunk}
use cdump.Chunk.Format.{header_size, padded}
use cdump.Chunk.Written.{untried, settled, payload_of}
use cdump.Pool.{Pool, insert, close, next_pos, prepare_write, open_front}
use cdump.Index.{new_index}
use cdump.Pool.Files.{lookup, open_file, data_name}
use cdump.Pool.InSession.{InSession}
use cdump.Pool.Open.{default_limit, find_pool_files, open_pool}
use cdump.Pool.Persist.{open_pool-close}
use cdump.Pool.Ready.{Room}
use cdump.Pool.Refine.{insert-InSession}
use cdump.Pool.Steps.{IsInsertion}
use cdump.Pool.Run.{Run, empty_pool, empty_pool-Represents}
use cdump.Pool.View.{nothing, Represents}
use cdump.Tests.Values.{blob}
use cdump.Tests.Chunks.{toy, toy-IsZlib, text, text_stored, stale, beyond}
use cdump.Tests.Maps.{
  key, key-IsOid, start_dir, started, started_there, started-Represents, started-Holds, pool,
  contents, pool-Represents, index_fits,
}
use cdump.Tests.Reopenings.{parse, props, taken, props_read, lock_taken, one_file}

abbrev pub empty : Pool
empty = empty_pool [] 128 true

pub empty-Represents : Represents toy empty nothing
empty-Represents = empty_pool-Represents toy [] 128 true (omega arith)

pub nothing_there : lookup (data_name (next_pos [])) [] ≡ none
unfolding lookup
nothing_there = refl

pub first_number : next_pos [] < 10000
unfolding next_pos
first_number = omega arith

needed : padded (header_size + length (payload_of text (some text))) < 2 ^ 32
unfolding padded
needed = omega arith

empty-Room : Room (padded (header_size + length (payload_of text (some text)))) empty
empty-Room = record {
  fits = tt;
  front = inl refl;
  vacant = nothing_there;
  numbered = first_number;
  small = needed;
}

needed_small : padded (header_size + length (payload_of text (some text))) < 2 ^ 31
unfolding padded
needed_small = omega arith

abbrev started_InSession :
    InSession toy
      (padded (header_size + length (payload_of text (some text))))
      nothing
      (started start_dir)
started_InSession = record {
  pos = 0;
  index = new_index;
  content = [];
  fs = [];
  shape = refl;
  represents = started-Represents start_dir started_there;
  holds = started-Holds start_dir started_there;
  space = omega (arith, needed_small);
  entries = omega arith;
}

first_prepared :
    prepare_write (padded (header_size + length (payload_of text (some text)))) empty
    ≡ ok (started start_dir)
unfolding prepare_write open_front next_pos open_file
first_prepared = refl

first_insert :
    insert toy beyond (untried blob key text) empty ≡ ok (settled blob key text (some text), pool)
first_insert =
    insert-InSession toy beyond blob key text toy-IsZlib key-IsOid (omega arith) (omega arith)
      (omega arith) (some text) text_stored nothing empty (started start_dir) started_InSession refl
      first_prepared

first-IsInsertion : IsInsertion toy blob key text nothing empty
first-IsInsertion = record {
  twenty = key-IsOid;
  word = omega arith;
  small = omega arith;
  zdata = some text;
  compressed = text_stored;
  agrees = inl refl;
  room = empty-Room;
}

-- The pool after it was closed and opened again.
second_opening :
    (closed_pool again : Pool) × (close pool ≡ ok closed_pool)
    × (open_pool parse true 3 0 closed_pool.dir true ≡ ok again)
    × Represents toy again contents
    × (again.dirty ≡ false)
    × (again.writable ≡ true)
    × (again.limit ≡ default_limit)
second_opening =
    open_pool-close toy parse true 3 0 true pool contents taken props pool-Represents index_fits tt
      one_file lock_taken props_read (omega arith)

abbrev again : Pool
again = second_opening.1

run : Run toy beyond stale empty nothing again contents
run =
    Run.inserted blob key text (settled blob key text (some text)) first-IsInsertion first_insert (
      Run.reopened parse true 3 0 true index_fits second_opening.2 second_opening.3
        (omega (arith, second_opening.7)) Run.done)

pub no_files : find_pool_files [] ≡ []
unfolding find_pool_files
no_files = refl
