-- ===== src/Pool/Prepare.antt =====
-- `prepare_write` in a pool that represents a map.
use cdump.Prelude.{
  ℕ, ◌+◌, ◌%◌, ◌^◌, ◌<◌, ◌≡◌, refl, sym, ◌∙◌, inl, inr, Bool, true, false, Option, none, some, List,
  [], ◌∷◌, Outcome, ok, arith, All, length,
}
use cdump.Oid.{Oid}
use cdump.Index.{Entry, new_index, find, find_data, ram_find}
use cdump.Index.Find.{IsIndex}
use cdump.Chunk.{Zlib}
use cdump.Pool.{Pool, next_pos, open_front}
use cdump.Pool.Directory.{lookup-put, lookup-append_nothing}
use cdump.Pool.Files.{Dir, lookup, put, append, data_name, File, open_file, make_writable}
use cdump.Pool.Flush.{pool_of}
use cdump.Pool.Frame.{SameBelow, put_data-SameBelow, Keeps-refl, All-frame, All_below_weaken}
use cdump.Pool.View.{Contents, FileHolds, Descends, Represents}

abbrev pub new_file : ℕ → File
new_file n = record { pos = n; index = new_index; size = 0; for_writing = true; failed = false }

abbrev pub writing : File → File
writing f = record f { for_writing = true; failed = false }

-- A new latest file.
abbrev pub with_new : Dir → Bool → ℕ → List File → ℕ → Pool
with_new dir writable limit files write_pos =
    pool_of (put (data_name (next_pos files)) [] dir) writable limit false
      (new_file (next_pos files) ∷ files) true write_pos

pub open_front-new :
    (dir : Dir) (writable : Bool) (limit : ℕ) (newfile : Bool) (files : List File) (dirty : Bool)
    (write_pos : ℕ)
    → lookup (data_name (next_pos files)) dir ≡ none
    → open_front true (pool_of dir writable limit newfile files dirty write_pos)
      ≡ ok (with_new dir writable limit files write_pos)
unfolding open_front open_file
open_front-new dir writable limit newfile files dirty write_pos h = rw h refl

pub open_front-old :
    (dir : Dir) (writable : Bool) (limit : ℕ) (newfile : Bool) (f : File) (fs : List File)
    (dirty : Bool) (write_pos : ℕ)
    → open_front false (pool_of dir writable limit newfile (f ∷ fs) dirty write_pos)
      ≡ ok (
          pool_of
            (append (data_name f.pos) [] dir)
            writable
            limit
            false
            (writing f ∷ fs)
            true
            write_pos)
unfolding open_front make_writable
open_front-old dir writable limit newfile f fs dirty write_pos = refl

pub below_next :
    (z : Zlib) (dir : Dir) (m : Contents) (files : List File)
    → All (FileHolds z dir m) files
    → Descends files
    → All (λ g. g.pos < next_pos files) files
unfolding next_pos
below_next z dir m [] h d = tt
below_next z dir m (f ∷ fs) h d = (
  omega (arith, h.0.1.named),
  All_below_weaken f.pos ((f.pos + 1) % 2 ^ 32) fs (omega (arith, h.0.1.named)) d.0,
)

new_index-IsIndex : IsIndex new_index
new_index-IsIndex = record { ram_good = tt; data_good = inl refl; small = omega arith }

find-new_index : (key : Oid) → find new_index key ≡ ok none
unfolding find find_data ram_find
find-new_index key = refl

-- The size fits behind the latest file's content, and one entry more into its index.
abbrev pub FrontRoom : ℕ → List File → Type 0
FrontRoom size [] = ⊥
FrontRoom size (f ∷ fs) =
    (f.size + size < 2 ^ 32) × (length f.index.ram + 1 + length f.index.fdata.hashes < 2 ^ 31)

-- What `prepare_write` establishes.
pub record Prepared (z : Zlib) (size : ℕ) (m : Contents) (pool pool' : Pool) : Type 0 where
  pub represents : Represents z pool' m
  pub dirty : pool'.dirty ≡ true
  pub same_writable : pool'.writable ≡ pool.writable
  pub same_limit : pool'.limit ≡ pool.limit
  pub room : FrontRoom size pool'.files

pub with_new-Prepared :
    (z : Zlib) (size : ℕ) (m : Contents) (dir : Dir) (writable : Bool) (limit : ℕ) (newfile : Bool)
    (files : List File) (dirty : Bool) (write_pos : ℕ)
    → Represents z (pool_of dir writable limit newfile files dirty write_pos) m
    → next_pos files < 10000
    → size < 2 ^ 32
    → Prepared z size m
        (pool_of dir writable limit newfile files dirty write_pos)
        (with_new dir writable limit files write_pos)
with_new-Prepared z size m dir writable limit newfile files dirty write_pos v numbered small =
    record {
      represents = record {
        hold = (
          (
            [],
            record {
              there = lookup-put (data_name (next_pos files)) [] dir;
              sized = refl;
              below = omega arith;
              intact = refl;
              named = numbered;
              well = new_index-IsIndex;
              agrees = λ key e g found. absurd (unfound e (sym (find-new_index key) ∙ found));
            },
          ),
          All-frame z dir (put (data_name (next_pos files)) [] dir) m m (Keeps-refl m)
              (next_pos files) files (put_data-SameBelow (next_pos files) [] dir numbered)
              (below_next z dir m files v.hold v.descends) v.hold,
        );
        descends = (below_next z dir m files v.hold v.descends, v.descends);
        complete = λ key b g has. inr (v.complete key b g has);
        unset = v.unset;
        word = v.word;
        front_open = (refl, refl);
      };
      dirty = refl;
      same_writable = refl;
      same_limit = refl;
      room = (omega (arith, small), omega arith);
    }
  where
    unfound : (e : Entry) → ◌≡◌ {A = Outcome (Option Entry)} (ok none) (ok (some e)) → ⊥
    unfound e h = cc

pub writing-Prepared :
    (z : Zlib) (size : ℕ) (m : Contents) (dir : Dir) (writable : Bool) (limit : ℕ) (newfile : Bool)
    (f : File) (fs : List File) (dirty : Bool) (write_pos : ℕ)
    → Represents z (pool_of dir writable limit newfile (f ∷ fs) dirty write_pos) m
    → FrontRoom size (f ∷ fs)
    → Prepared z size m (pool_of dir writable limit newfile (f ∷ fs) dirty write_pos) (
        pool_of
          (append (data_name f.pos) [] dir)
          writable
          limit
          false
          (writing f ∷ fs)
          true
          write_pos)
writing-Prepared z size m dir writable limit newfile f fs dirty write_pos v room =
    let (content, h) = v.hold.0 in
    let same : SameBelow 10000 dir (append (data_name f.pos) [] dir) =
      λ q below. lookup-append_nothing (data_name q) (data_name f.pos) content dir h.there in
    record {
      represents = record {
        hold = (
          (
            content,
            record {
              there = same f.pos h.named ∙ h.there;
              sized = h.sized;
              below = h.below;
              intact = refl;
              named = h.named;
              well = h.well;
              agrees = h.agrees;
            },
          ),
          All-frame z dir (append (data_name f.pos) [] dir) m m (Keeps-refl m) 10000 fs same
              (All_below_weaken f.pos 10000 fs (omega (arith, h.named)) v.descends.0) v.hold.1,
        );
        descends = v.descends;
        complete = v.complete;
        unset = v.unset;
        word = v.word;
        front_open = (refl, refl);
      };
      dirty = refl;
      same_writable = refl;
      same_limit = refl;
      room = room;
    }
