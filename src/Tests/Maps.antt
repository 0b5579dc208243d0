-- ===== src/Tests/Maps.antt =====
-- Pools that represent maps: one with an empty file, and the same after an insertion.
use cdump.Prelude.{
  ℕ, ◌+◌, ◌^◌, ◌<◌, ◌≡◌, refl, inl, inr, Option, none, some, List, [], ◌∷◌, ok, arith, length,
  Outcome, true,
}
use cdump.Oid.{Oid, IsOid, equals, cmp}
use cdump.Bytes.{memcmp}
use cdump.Index.{
  Entry, FileIndex, new_index, no_data, find_data, ram_find, ram_insert, append_keys, sorted_keys,
  sort, sorted_insert,
}
use cdump.Index.Few.{few-KindsFit}
use cdump.Index.Find.{IsIndex}
use cdump.Chunk.{Chunk}
use cdump.Chunk.Format.{header_size, padded}
use cdump.Chunk.Written.{untried, payload_of, uclen_of, length-image}
use cdump.Text.Digits.{put_dec, digits, digit_char, pad_left}
use cdump.Pool.{Pool, insert, flush, find, prepare_write, next_pos}
use cdump.Pool.Files.{Dir, lookup, same_name, construct_name, data_name, append}
use cdump.Pool.Chosen.{Chosen}
use cdump.Pool.Flush.{FrontFits, Flushed, flush_refines}
use cdump.Pool.Frame.{Agrees}
use cdump.Pool.Grow.{front_of, grown-Represents}
use cdump.Pool.Image.{image_of, image-IsImage}
use cdump.Pool.Prepare.{Prepared}
use cdump.Pool.Ready.{Room, prepare_write_refines}
use cdump.Pool.Refine.{insert_refines}
use cdump.Pool.Session.{session, entry_at}
use cdump.Pool.View.{Contents, nothing, update, Finds, Holds, Represents}
use cdump.Tests.Values.{oid, oid-IsOid, blob}
use cdump.Tests.Chunks.{toy, toy-IsZlib, text, text_stored, beyond}

abbrev pub key : Oid
key = oid 3 1

abbrev other : Oid
other = oid 5 2

pub key-IsOid : IsOid key
key-IsOid = oid-IsOid 3 1 (omega arith) (omega arith)

other-IsOid : IsOid other
other-IsOid = oid-IsOid 5 2 (omega arith) (omega arith)

-- A session whose file is empty.
abbrev pub start_dir : Dir
start_dir = (data_name 0, []) ∷ []

abbrev pub started : Dir → Pool
started dir = session dir 128 0 new_index [] []

pub started_there : lookup (data_name 0) start_dir ≡ some []
unfolding lookup same_name construct_name put_dec digits digit_char pad_left
started_there = refl

pub new_index-IsIndex : IsIndex new_index
new_index-IsIndex = record { ram_good = tt; data_good = inl refl; small = omega arith }

never : (e : Entry) (m : Outcome (Option Entry)) → m ≡ ok none → m ≡ ok (some e) → ⊥
never e m a b = cc

pub Finds-nothing : (k : Oid) (e : Entry) → Finds new_index k e → ⊥
unfolding cdump.Index.find find_data ram_find
Finds-nothing k e h = never e (ok none) refl h

pub started-Holds :
    (dir : Dir)
    → lookup (data_name 0) dir ≡ some []
    → Holds toy dir nothing (front_of 0 new_index []) []
started-Holds dir there = record {
  there = there;
  sized = refl;
  below = omega arith;
  intact = refl;
  named = omega arith;
  well = new_index-IsIndex;
  agrees = λ k e g h. absurd (Finds-nothing k e h);
}

pub started-Represents :
    (dir : Dir) → lookup (data_name 0) dir ≡ some [] → Represents toy (started dir) nothing
started-Represents dir there = record {
  hold = (([], started-Holds dir there), tt);
  descends = (tt, tt);
  complete = λ k b g has. cc;
  unset = refl;
  word = omega arith;
  front_open = (refl, refl);
}

-- The session after a chunk was inserted.
abbrev pub stored_image : List ℕ
stored_image = image_of beyond key (blob, text) (some text)

abbrev pub index : FileIndex
index = cdump.Index.insert (entry_at key [] blob) new_index

abbrev pub dir : Dir
dir = append (data_name 0) stored_image start_dir

abbrev pub pool : Pool
pool = session dir 128 0 index stored_image []

abbrev pub contents : Contents
contents = update nothing key (blob, text)

pub image_size : length stored_image ≡ 80
unfolding padded
image_size =
    length-image beyond blob key (uclen_of text (some text)) (payload_of text (some text)) key-IsOid
      (omega arith) (omega arith)

pub pool-Represents : Represents toy pool contents
pool-Represents =
    grown-Represents toy nothing start_dir 128 0 new_index [] []
      (started-Represents start_dir started_there) (started-Holds start_dir started_there) key blob
      text stored_image key-IsOid (omega arith)
      (image-IsImage toy beyond blob key text toy-IsZlib key-IsOid (omega arith) (omega arith)
        (omega arith) (some text) text_stored)
      (inl refl) (omega (arith, image_size)) (omega arith)

pub index_fits : FrontFits pool.files
unfolding cdump.Index.insert ram_insert ram_find sorted_keys append_keys sort sorted_insert
index_fits = few-KindsFit index (omega arith)

one_entry : length index.ram + 1 + length index.fdata.hashes < 2 ^ 31
unfolding cdump.Index.insert ram_insert ram_find
one_entry = omega arith

free_name : lookup (data_name (next_pos pool.files)) pool.dir ≡ none
unfolding lookup same_name construct_name put_dec digits digit_char pad_left append next_pos
free_name = refl

numbered : next_pos pool.files < 10000
unfolding next_pos
numbered = omega arith

pool-Room : (size : ℕ) → size < 2 ^ 31 → Room size pool
pool-Room size h = record {
  fits = index_fits;
  front = inr (omega (arith, image_size, h), one_entry);
  vacant = free_name;
  numbered = numbered;
  small = omega arith;
}

pub other_new : Agrees contents other (blob, text)
unfolding equals cmp memcmp
other_new = inl refl

needed : padded (header_size + length (payload_of text (some text))) < 2 ^ 31
unfolding padded
needed = omega arith

insert_refines_example :
    (c : Chunk) × (pool' : Pool) × (insert toy beyond (untried blob other text) pool
      ≡ ok (c, pool'))
    × Represents toy pool' (update contents other (blob, text))
    × (pool'.writable ≡ true)
    × (pool'.limit ≡ 128)
insert_refines_example =
    insert_refines toy beyond blob other text toy-IsZlib other-IsOid (omega arith) (omega arith)
      (omega arith) (some text) text_stored pool contents pool-Represents (pool-Room _ needed) refl
      other_new

flush_refines_example :
    (pool' : Pool) × (flush pool ≡ ok pool') × Represents toy pool' contents × Flushed pool pool'
flush_refines_example = flush_refines toy pool contents pool-Represents index_fits

prepare_write_refines_example :
    (pool' : Pool) × (prepare_write 80 pool ≡ ok pool')
    × Prepared toy 80 contents pool pool'
    × Chosen 80 pool pool'
prepare_write_refines_example =
    prepare_write_refines toy 80 pool contents pool-Represents (pool-Room 80 (omega arith))
