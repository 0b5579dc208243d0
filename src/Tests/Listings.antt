-- ===== src/Tests/Listings.antt =====
-- The main program in the directory of a pool with one backup.
use cdump.Prelude.{
  ℕ, ◌≡◌, ◌<◌, ◌^◌, refl, inl, some, false, List, [], ◌∷◌, ◌++◌, ok, arith, length, codes, All,
}
use cdump.Kind.{load_kind}
use cdump.Bytes.{le_value, memcmp}
use cdump.Oid.{Oid, zero_oid, equals, cmp}
use cdump.Text.Digits.{put_dec, digits, digit_char, pad_left}
use cdump.Index.{FileIndex, new_index}
use cdump.Chunk.{try_compress}
use cdump.Decoder.{decode_property, property_loop, get, get_string, get8, get16}
use cdump.Decoder.Properties.{assign}
use cdump.Text.Scan.{skip_space}
use cdump.Chunk.Format.{padded}
use cdump.Chunk.Written.{payload_of, uclen_of, length-image}
use cdump.Decoder.Blocks.{property_block}
use cdump.Decoder.Walk.{
  BackNode, new_node, back_node, add_property, stoll, stoll_sign, signed_value, dec_prefix,
}
use cdump.Lister.{Node, earlier, show_nodes, run}
use cdump.Prelude.Sorting.{IsSorted}
use cdump.Lister.Shown.{back_kind, IsBackup, all_listed, run-all_listed}
use cdump.Pool.{Pool}
use cdump.Pool.Backups.{IsLine, backup_lines, get_backups-lines}
use cdump.Pool.Files.{Dir, lookup, same_name, construct_name, data_name, append, put}
use cdump.Pool.Flush.{closed, pool_of}
use cdump.Pool.Grow.{front_of, grown-Represents}
use cdump.Pool.Image.{image_of, image-IsImage}
use cdump.Pool.Open.{get_backups}
use cdump.Pool.Session.{session, entry_at}
use cdump.Pool.View.{Contents, nothing, update, Represents}
use cdump.Tests.Maps.{key, key-IsOid, started-Holds, started-Represents}
use cdump.Tests.Sorting.{insertion_sort, insertion_sort-IsStdSort}
use cdump.Tests.Chunks.{toy, toy-IsZlib, stale, beyond}
use mathlib.Core.List.{Perm}

abbrev text : List ℕ
text =
    property_block (codes "snapshot")
      ((codes "_date", codes "42") ∷ (codes "base", codes "home") ∷ [])

text_compressed : try_compress toy text ≡ ok (some text)
unfolding try_compress
text_compressed = refl

-- The backup that the block describes.
abbrev node : BackNode
node = record {
  type_of = codes "snapshot";
  oid = zero_oid;
  date = some 42;
  props = (codes "base", codes "home") ∷ [];
}

text_decoded : decode_property back_node text new_node ≡ ok node
unfolding decode_property property_loop get8 get16 get get_string add_property stoll stoll_sign
    signed_value dec_prefix skip_space assign same_name
text_decoded = refl

-- The directory: one file of chunks, and the list of backups.
abbrev lines : List (Oid × List ℕ)
lines = (key, 10 ∷ []) ∷ []

abbrev start_dir : Dir
start_dir = (data_name 0, []) ∷ (codes "metadata/backups.txt", 32 ∷ backup_lines lines) ∷ []

there : lookup (data_name 0) start_dir ≡ some []
unfolding lookup same_name construct_name put_dec digits digit_char pad_left
there = refl

abbrev stored_image : List ℕ
stored_image = image_of beyond key (back_kind, text) (some text)

abbrev dir : Dir
dir = append (data_name 0) stored_image start_dir

abbrev index : FileIndex
index = cdump.Index.insert (entry_at key [] back_kind) new_index

abbrev contents : Contents
contents = update nothing key (back_kind, text)

kind_word : back_kind.raw < 2 ^ 32
unfolding load_kind le_value
kind_word = omega arith

image_size : length stored_image < 1000
unfolding padded
image_size = omega (
  arith,
  length-image beyond back_kind key (uclen_of text (some text)) (payload_of text (some text))
      key-IsOid (omega arith) (omega arith),
)

written : Represents toy (session dir 128 0 index stored_image []) contents
written =
    grown-Represents toy nothing start_dir 128 0 new_index [] []
      (started-Represents start_dir there) (started-Holds start_dir there) key back_kind text
      stored_image key-IsOid kind_word
      (image-IsImage toy beyond back_kind key text toy-IsZlib key-IsOid kind_word (omega arith)
        (omega arith) (some text) text_compressed)
      (inl refl) (omega (arith, image_size)) (omega arith)

-- The same files, opened for reading.
abbrev pool : Pool
pool = pool_of dir false 128 false (closed (front_of 0 index stored_image) index ∷ []) false 0

pool-Represents : Represents toy pool contents
pool-Represents =
    let (content, h) = written.hold.0 in
    record {
      hold = (
        (
          content,
          record {
            there = h.there;
            sized = h.sized;
            below = h.below;
            intact = refl;
            named = h.named;
            well = h.well;
            agrees = h.agrees;
          },
        ),
        tt,
      );
      descends = written.descends;
      complete = written.complete;
      unset = refl;
      word = written.word;
      front_open = tt;
    }

key_listed : All IsLine lines
key_listed = ((key-IsOid, (refl, tt), omega arith), tt)

listed_there : lookup (codes "metadata/backups.txt") dir ≡ some (32 ∷ [] ++ backup_lines lines)
unfolding append put lookup same_name construct_name put_dec digits digit_char pad_left
listed_there = refl

get_backups-lines_example : get_backups dir ≡ ok (key ∷ [])
get_backups-lines_example = get_backups-lines dir (32 ∷ []) lines (refl, tt) key_listed listed_there

known : get_backups dir ≡ ok (key ∷ [])
known = get_backups-lines dir (32 ∷ []) lines (refl, tt) key_listed listed_there

has_key : contents key ≡ some (back_kind, text)
unfolding equals cmp memcmp
has_key = refl

backups : All (IsBackup contents) (key ∷ [])
backups = (
  record {
    twenty = key-IsOid;
    text = text;
    has = has_key;
    node = node;
    decoded = text_decoded;
    date = 42;
    dated = refl;
  },
  tt,
)

run-all_listed_example :
    (nodes : List Node) × Perm nodes (all_listed contents (key ∷ []) backups)
    × IsSorted earlier nodes
    × (run insertion_sort toy stale 1 pool
        ≡ ok (
          codes "Hello world\n"
              ++ (codes "There are "
                  ++ (digits 10 32 1 ++ (codes " backups\n" ++ show_nodes nodes))),
          pool,
        ))
run-all_listed_example =
    run-all_listed toy stale insertion_sort 0 pool contents (key ∷ []) refl insertion_sort-IsStdSort
      pool-Represents refl known backups
