-- ===== src/Pool/Flush.antt =====
-- `flush` in a pool that represents a map.
use cdump.Prelude.{
  ℕ, ◌≡◌, refl, sym, ◌∙◌, inl, inr, Bool, true, false, some, List, [], ◌∷◌, ◌++◌, ok, arith, codes,
}
use cdump.Oid.{Oid, IsOid}
use cdump.Index.{FileIndex, find}
use cdump.Index.Few.{KindsFit}
use cdump.Index.Find.{IsIndex}
use cdump.Index.Load.{load}
use cdump.Index.Save.{save}
use cdump.Index.Saved.{load-save}
use cdump.Chunk.{Zlib}
use cdump.Pool.{Pool, flush, next_pos}
use cdump.Pool.Directory.{lookup-put}
use cdump.Pool.Files.{Dir, lookup, put, remove, index_name, save_index, File, unmake_writable}
use cdump.Pool.Frame.{SameBelow, save-SameBelow, Keeps-refl, All-frame, All_below_weaken}
use cdump.Pool.View.{Contents, Holds, Found, Represents}

-- The front file after `flush`, with the index that was loaded.
abbrev pub closed : File → FileIndex → File
closed f fresh = record {
  pos = f.pos;
  index = fresh;
  size = f.size;
  for_writing = false;
  failed = false;
}

-- The directory after the index was saved.
abbrev pub indexed : ℕ → List ℕ → Dir → Dir
indexed pos image dir = put (index_name pos) image (remove (index_name pos ++ codes ".tmp") dir)

abbrev pub pool_of : Dir → Bool → ℕ → Bool → List File → Bool → ℕ → Pool
pool_of dir writable limit newfile files dirty write_pos = record {
  dir = dir;
  writable = writable;
  limit = limit;
  first_newfile = newfile;
  files = files;
  dirty = dirty;
  write_pos = write_pos;
}

pub flush-closed :
    (dir : Dir) (writable : Bool) (limit : ℕ) (newfile : Bool) (f : File) (fs : List File)
    (write_pos : ℕ) (image : List ℕ) (fresh : FileIndex)
    → save f.index f.size ≡ ok image
    → load (some image) f.size ≡ ok fresh
    → flush (pool_of dir writable limit newfile (f ∷ fs) true write_pos)
      ≡ ok (
          pool_of
            (indexed f.pos image dir)
            writable
            limit
            newfile
            (closed f fresh ∷ fs)
            false
            write_pos)
unfolding flush save_index unmake_writable
flush-closed dir writable limit newfile f fs write_pos image fresh saved loaded =
    rw
      (
        saved,
        lookup-put (index_name f.pos) image (remove (index_name f.pos ++ codes ".tmp") dir),
        loaded,
      )
      refl

module _ (z : Zlib) (dir : Dir) (m : Contents) (f : File) (fresh : FileIndex) (image : List ℕ)
    (well : IsIndex fresh)
    (same : (key : Oid) → IsOid key → find fresh key ≡ find f.index key) where
  Holds-closed :
      (content : List ℕ)
      → Holds z dir m f content
      → Holds z (indexed f.pos image dir) m (closed f fresh) content
  Holds-closed content h = record {
    there = save-SameBelow f.pos image dir h.named f.pos h.named ∙ h.there;
    sized = h.sized;
    below = h.below;
    intact = refl;
    named = h.named;
    well = well;
    agrees = λ key e g found. h.agrees key e g (sym (same key g) ∙ found);
  }

  Found-closed :
      (key : Oid) (fs : List File)
      → IsOid key
      → Found key (f ∷ fs)
      → Found key (closed f fresh ∷ fs)
  Found-closed key fs g (inl (e, found)) = inl (e, same key g ∙ found)
  Found-closed key fs g (inr later) = inr later

-- The latest file `f` was saved: its index file holds the image of its index, and the file has the
-- index that is loaded from that image, which answers every search as before, and is not open for
-- writing.
pub record FrontSaved (f : File) (fs : List File) (pool' : Pool) : Type 0 where
  pub image : List ℕ
  pub fresh : FileIndex
  pub saved : save f.index f.size ≡ ok image
  pub written : lookup (index_name f.pos) pool'.dir ≡ some image
  pub loaded : load (some image) f.size ≡ ok fresh
  pub files : pool'.files ≡ closed f fresh ∷ fs
  pub well : IsIndex fresh
  pub same : (key : Oid) → IsOid key → find fresh key ≡ find f.index key

-- What `flush` does to a dirty pool, and to a clean one.
abbrev pub SavedAs : Bool → List File → Pool → Pool → Type 0
SavedAs true (f ∷ fs) pool pool' = FrontSaved f fs pool'
SavedAs true [] pool pool' = ⊥
SavedAs false files pool pool' = pool' ≡ pool

-- What `flush` does, and what it leaves as it is.
pub record Flushed (pool pool' : Pool) : Type 0 where
  pub saved : SavedAs pool.dirty pool.files pool pool'
  pub clean : pool'.dirty ≡ false
  pub same_writable : pool'.writable ≡ pool.writable
  pub same_limit : pool'.limit ≡ pool.limit
  pub same_next : next_pos pool'.files ≡ next_pos pool.files
  pub same_data : SameBelow 10000 pool.dir pool'.dir

-- The kinds of the latest file fit its index file.
abbrev pub FrontFits : List File → Type 0
FrontFits [] = Unit {0}
FrontFits (f ∷ fs) = KindsFit f.index

-- In a pool that represents a map, whose latest file has at most 256 kinds, `flush` ends and leaves
-- a clean pool that represents the same map. If the pool was dirty, the index file of the latest
-- file then holds what `save` writes of its index, and that file has the well-formed index that
-- `load` reads from this image, which answers every search as before, and is no longer open for
-- writing; the other files are as before. If the pool was clean, nothing changes. In both cases the
-- rights, the limit, the next number of a file and the contents of all data files stay.
pub flush_refines :
    (z : Zlib) (pool : Pool) (m : Contents)
    → Represents z pool m
    → FrontFits pool.files
    → (pool' : Pool) × (flush pool ≡ ok pool') × Represents z pool' m × Flushed pool pool'
flush_refines z pool m v fit =
    cases pool.dir pool.writable pool.limit pool.first_newfile pool.files pool.dirty pool.write_pos
      v fit
  where
    cases :
        (dir : Dir) (writable : Bool) (limit : ℕ) (newfile : Bool) (files : List File)
        (dirty : Bool) (write_pos : ℕ)
        → Represents z (pool_of dir writable limit newfile files dirty write_pos) m
        → FrontFits files
        → (pool' : Pool) × (flush (pool_of dir writable limit newfile files dirty write_pos)
            ≡ ok pool')
          × Represents z pool' m
          × Flushed (pool_of dir writable limit newfile files dirty write_pos) pool'
    cases dir writable limit newfile files false write_pos v fit = (
      pool_of dir writable limit newfile files false write_pos,
      unfold flush in refl,
      v,
      record {
        saved = refl;
        clean = refl;
        same_writable = refl;
        same_limit = refl;
        same_next = refl;
        same_data = λ q below. refl;
      },
    )
    cases dir writable limit newfile [] true write_pos v fit = absurd v.front_open
    cases dir writable limit newfile (f ∷ fs) true write_pos v fit =
        let (content, h) = v.hold.0 in
        let (image, fresh, saved, loaded, well, same) =
          load-save f.index f.size h.well fit (omega (arith, h.sized, h.below)) in
        (
          pool_of (indexed f.pos image dir) writable limit newfile (closed f fresh ∷ fs) false
              write_pos,
          flush-closed dir writable limit newfile f fs write_pos image fresh saved loaded,
          record {
            hold = (
              (content, Holds-closed z dir m f fresh image well same content h),
              All-frame z dir (indexed f.pos image dir) m m (Keeps-refl m) 10000 fs
                  (save-SameBelow f.pos image dir h.named)
                  (All_below_weaken f.pos 10000 fs (omega (arith, h.named)) v.descends.0) v.hold.1,
            );
            descends = v.descends;
            complete = λ key b g has.
                Found-closed z dir m f fresh image well same key fs g (v.complete key b g has);
            unset = v.unset;
            word = v.word;
            front_open = tt;
          },
          record {
            saved = record {
              image = image;
              fresh = fresh;
              saved = saved;
              written =
                  lookup-put (index_name f.pos) image
                    (remove (index_name f.pos ++ codes ".tmp") dir);
              loaded = loaded;
              files = refl;
              well = well;
              same = same;
            };
            clean = refl;
            same_writable = refl;
            same_limit = refl;
            same_next = unfold next_pos in refl;
            same_data = save-SameBelow f.pos image dir h.named;
          },
        )
