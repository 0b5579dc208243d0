-- ===== src/Pool/InSession.antt =====
-- A pool that `prepare_write` has made ready: it is in the middle of a session of writing to its latest file.
use cdump.Prelude.{
  ℕ, ◌+◌, ◌^◌, ◌<◌, ◌≡◌, refl, subst, ◌∙◌, Bool, true, false, List, [], ◌∷◌, arith, length,
}
use cdump.Index.{FileIndex}
use cdump.Chunk.{Zlib}
use cdump.Pool.{Pool}
use cdump.Pool.Files.{Dir, File}
use cdump.Pool.Flush.{pool_of}
use cdump.Pool.Grow.{front_of}
use cdump.Pool.Prepare.{FrontRoom, Prepared}
use cdump.Pool.Session.{session}
use cdump.Pool.View.{Contents, Holds, FrontOpen, Represents}

session_path :
    (dir : Dir) (writable : Bool) (limit : ℕ) (newfile : Bool) (pos : ℕ) (index : FileIndex)
    (size : ℕ) (for_writing failed : Bool) (fs : List File) (dirty : Bool) (write_pos : ℕ)
    (content : List ℕ)
    → writable ≡ true
    → newfile ≡ false
    → size ≡ length content
    → for_writing ≡ true
    → failed ≡ false
    → dirty ≡ true
    → write_pos ≡ 0
    → pool_of dir writable limit newfile
        (record {
          pos = pos;
          index = index;
          size = size;
          for_writing = for_writing;
          failed = failed;
        }
          ∷ fs)
        dirty
        write_pos
      ≡ session dir limit pos index content fs
session_path dir writable limit newfile pos index size for_writing failed fs dirty write_pos content
      a b c d e f g =
    rw (a, b, c, d, e, f, g) refl

-- A pool that is a session, and what is known of it.
pub record InSession (z : Zlib) (size : ℕ) (m : Contents) (pool : Pool) : Type 0 where
  pub pos : ℕ
  pub index : FileIndex
  pub content : List ℕ
  pub fs : List File
  pub shape : pool ≡ session pool.dir pool.limit pos index content fs
  pub represents : Represents z (session pool.dir pool.limit pos index content fs) m
  pub holds : Holds z pool.dir m (front_of pos index content) content
  pub space : length content + size < 2 ^ 32
  pub entries : length index.ram + 1 + length index.fdata.hashes < 2 ^ 31

FrontOpen-at :
    (dirty newfile : Bool) (f : File) (fs : List File)
    → dirty ≡ true
    → FrontOpen dirty newfile (f ∷ fs)
    → (f.for_writing ≡ true) × (newfile ≡ false)
FrontOpen-at false newfile f fs d o = cc
FrontOpen-at true newfile f fs d o = o

-- The pool is open for writing at its latest file.
front-InSession :
    (z : Zlib) (size : ℕ) (m : Contents) (dir : Dir) (writable : Bool) (limit : ℕ) (newfile : Bool)
    (f : File) (fs : List File) (dirty : Bool) (write_pos : ℕ) (content : List ℕ)
    → Represents z (pool_of dir writable limit newfile (f ∷ fs) dirty write_pos) m
    → dirty ≡ true
    → FrontRoom size (f ∷ fs)
    → Holds z dir m f content
    → pool_of dir writable limit newfile (f ∷ fs) dirty write_pos
      ≡ session dir limit f.pos f.index content fs
    → InSession z size m (pool_of dir writable limit newfile (f ∷ fs) dirty write_pos)
front-InSession z size m dir writable limit newfile f fs dirty write_pos content v d room h shape =
    record {
      pos = f.pos;
      index = f.index;
      content = content;
      fs = fs;
      shape = shape;
      represents = subst (λ p. Represents z p m) shape v;
      holds = record {
        there = h.there;
        sized = refl;
        below = h.below;
        intact = refl;
        named = h.named;
        well = h.well;
        agrees = h.agrees;
      };
      space = omega (arith, h.sized, room.0);
      entries = room.1;
    }

dirty-InSession :
    (z : Zlib) (size : ℕ) (m : Contents) (dir : Dir) (writable : Bool) (limit : ℕ) (newfile : Bool)
    (files : List File) (dirty : Bool) (write_pos : ℕ)
    → Represents z (pool_of dir writable limit newfile files dirty write_pos) m
    → dirty ≡ true
    → writable ≡ true
    → FrontRoom size files
    → InSession z size m (pool_of dir writable limit newfile files dirty write_pos)
dirty-InSession z size m dir writable limit newfile [] dirty write_pos v d w room = absurd room
dirty-InSession z size m dir writable limit newfile (f ∷ fs) dirty write_pos v d w room =
    let (content, h) = v.hold.0 in
    let (writing, old) = FrontOpen-at dirty newfile f fs d v.front_open in
    front-InSession z size m dir writable limit newfile f fs dirty write_pos content v d room h (
      session_path dir writable limit newfile f.pos f.index f.size f.for_writing f.failed fs dirty
        write_pos content w old h.sized writing h.intact d v.unset)

pub Prepared-InSession :
    (z : Zlib) (size : ℕ) (m : Contents) (pool pool' : Pool)
    → Prepared z size m pool pool'
    → pool.writable ≡ true
    → InSession z size m pool'
Prepared-InSession z size m pool pool' p w =
    dirty-InSession z size m pool'.dir pool'.writable pool'.limit pool'.first_newfile pool'.files
      pool'.dirty pool'.write_pos p.represents p.dirty (p.same_writable ∙ w) p.room
