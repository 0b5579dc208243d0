-- ===== src/Pool/Persist.antt =====
-- A pool that is closed and opened again.
use cdump.Prelude.{
  ℕ, ◌^◌, ◌<◌, ◌≡◌, refl, sym, ap, subst, ◌∙◌, Bool, true, false, Option, some, List, [], ◌∷◌, ◌++◌,
  Outcome, ok, ok-injective, arith, All, codes,
}
use cdump.Index.{FileIndex}
use cdump.Index.Find.{IsIndex}
use cdump.Index.Load.{load}
use cdump.Index.Saved.{load-save}
use cdump.Chunk.{Zlib}
use cdump.Pool.{Pool, flush, close}
use cdump.Pool.Directory.{lookup-put}
use cdump.Pool.Files.{Dir, lookup, remove, index_name, File}
use cdump.Pool.Beside.{SameMetadata, indexed-SameMetadata}
use cdump.Pool.Flush.{closed, indexed, pool_of, flush-closed, FrontFits, flush_refines}
use cdump.Pool.Listed.{indexed-others, find_pool_files-indexed}
use cdump.Pool.Locks.{LockFile, open_lock}
use cdump.Pool.Open.{Parsed, Props, props_name, read_props, find_pool_files, open_pool}
use cdump.Pool.Reopen.{IsSaved, ascending, open_pool_refines}
use cdump.Pool.View.{Contents, Represents}

-- The index files of all files are saved, but for the latest file's while the pool is dirty.
abbrev pub SavedBehind : Bool → Dir → List File → Type 0
SavedBehind false dir files = All (IsSaved dir) files
SavedBehind true dir [] = Unit {0}
SavedBehind true dir (f ∷ fs) = All (IsSaved dir) fs

-- What opening a directory again needs.
pub record Persists (pool pool' : Pool) : Type 0 where
  pub saved : All (IsSaved pool'.dir) pool'.files
  pub known : find_pool_files pool'.dir ≡ ascending pool'.files []
  pub same_metadata : SameMetadata pool.dir pool'.dir

IsSaved-later :
    (p : ℕ) (image : List ℕ) (dir : Dir) (fs : List File)
    → p < 10000
    → All (λ g. g.pos < p) fs
    → All (IsSaved dir) fs
    → All (IsSaved (indexed p image dir)) fs
IsSaved-later p image dir [] h below s = tt
IsSaved-later p image dir (g ∷ fs) h (first, below) (s, ss) = (
  record {
    fresh = s.fresh;
    loaded =
        ap (λ (o : Option (List ℕ)). load o g.size)
          (indexed-others p g.pos image dir h (omega (arith, h, first))
            (λ e. omega (arith, first, e)))
        ∙ s.loaded;
    well = s.well;
    same = s.same;
  },
  IsSaved-later p image dir fs h below ss,
)

front-IsSaved :
    (f : File) (dir : Dir) (image : List ℕ) (fresh : FileIndex)
    → load (some image) f.size ≡ ok fresh
    → IsIndex fresh
    → IsSaved (indexed f.pos image dir) (closed f fresh)
front-IsSaved f dir image fresh loaded well = record {
  fresh = fresh;
  loaded =
      ap (λ (o : Option (List ℕ)). load o f.size)
        (lookup-put (index_name f.pos) image (remove (index_name f.pos ++ codes ".tmp") dir))
      ∙ loaded;
  well = well;
  same = λ key g. refl;
}

module _ (z : Zlib) (m : Contents) (dir : Dir) (writable : Bool) (limit : ℕ) (newfile : Bool)
    (write_pos : ℕ) where
  pub flush_saves :
      (files : List File) (dirty : Bool)
      → Represents z (pool_of dir writable limit newfile files dirty write_pos) m
      → FrontFits files
      → SavedBehind dirty dir files
      → find_pool_files dir ≡ ascending files []
      → (pool' : Pool) × (flush (pool_of dir writable limit newfile files dirty write_pos)
          ≡ ok pool')
        × Persists (pool_of dir writable limit newfile files dirty write_pos) pool'
  flush_saves files false v fit s known = (
    pool_of dir writable limit newfile files false write_pos,
    unfold flush in refl,
    record { saved = s; known = known; same_metadata = λ name. refl },
  )
  flush_saves [] true v fit s known = absurd v.front_open
  flush_saves (f ∷ fs) true v fit s known =
      let (content, h) = v.hold.0 in
      let (image, fresh, saved, loaded, well, same) =
        load-save f.index f.size h.well fit (omega (arith, h.sized, h.below)) in
      (
        pool_of (indexed f.pos image dir) writable limit newfile (closed f fresh ∷ fs) false
            write_pos,
        flush-closed dir writable limit newfile f fs write_pos image fresh saved loaded,
        record {
          saved = (
            front-IsSaved f dir image fresh loaded well,
            IsSaved-later f.pos image dir fs h.named v.descends.0 s,
          );
          known = find_pool_files-indexed f.pos image dir h.named ∙ known;
          same_metadata = indexed-SameMetadata f.pos image dir;
        },
      )

read_props-lookup :
    (parse : Option (List ℕ) → Outcome Parsed) (dir dir' : Dir)
    → lookup props_name dir' ≡ lookup props_name dir
    → read_props parse dir' ≡ read_props parse dir
unfolding read_props
read_props-lookup parse dir dir' h = rw (read_props, h) refl

-- Let a pool represent a map, its latest file have at most 256 kinds, the index files of all files but a
-- latest one that is being written be saved (SavedBehind), and the directory have the data files of the pool and no
-- others. If the lock is taken and the properties are read, with a limit of 32 bits, then the pool's
-- destructor ends, and opening the directory that it leaves ends in a clean pool that represents
-- the same map, with the rights that are asked for and this limit.
pub open_pool-close :
    (z : Zlib) (parse : Option (List ℕ) → Outcome Parsed) (opened : Bool) (fd res : ℕ)
    (writable : Bool) (pool : Pool) (m : Contents) (l : LockFile) (props : Props)
    → Represents z pool m
    → FrontFits pool.files
    → SavedBehind pool.dirty pool.dir pool.files
    → find_pool_files pool.dir ≡ ascending pool.files []
    → open_lock opened fd res ≡ ok l
    → read_props parse pool.dir ≡ ok props
    → props.limit < 2 ^ 32
    → (closed_pool again : Pool) × (close pool ≡ ok closed_pool)
      × (open_pool parse opened fd res closed_pool.dir writable ≡ ok again)
      × Represents z again m
      × (again.dirty ≡ false)
      × (again.writable ≡ writable)
      × (again.limit ≡ props.limit)
unfolding close
open_pool-close z parse opened fd res writable pool m l props v fit s known locked read word =
    let (q, flushed, p) =
      flush_saves z m pool.dir pool.writable pool.limit pool.first_newfile pool.write_pos pool.files
        pool.dirty v fit s known in
    let (q', flushed', v', _) = flush_refines z pool m v fit in
    let same : q' ≡ q = ok-injective q' q (sym flushed' ∙ flushed) in
    let (again, got, w, clean, rights, limit) =
      open_pool_refines z parse opened fd res writable q m l props
        (subst (λ (r : Pool). Represents z r m) same v') p.saved p.known locked
        (read_props-lookup parse pool.dir q.dir (p.same_metadata (codes "props.txt")) ∙ read)
        word in
    (q, again, flushed, got, w, clean, rights, limit)
