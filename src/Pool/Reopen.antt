-- ===== src/Pool/Reopen.antt =====
-- Opening the directory of a pool again.
use cdump.Prelude.{
  ℕ, ◌%◌, ◌^◌, ◌<◌, ◌≡◌, refl, sym, ap, ◌∙◌, inl, inr, Bool, false, Option, List, [], ◌∷◌, Outcome,
  ok, ◌>>=◌, arith, All, length,
}
use cdump.Oid.{Oid, IsOid}
use cdump.Index.{FileIndex, find}
use cdump.Index.Find.{IsIndex}
use cdump.Index.Load.{load}
use cdump.Chunk.{Zlib}
use cdump.Pool.{Pool}
use cdump.Pool.Files.{Dir, lookup, index_name, File, open_file}
use cdump.Pool.Flush.{closed, pool_of}
use cdump.Pool.Locks.{LockFile, open_lock}
use cdump.Pool.Open.{Parsed, Props, read_props, find_pool_files, scan_loop, scan_files, open_pool}
use cdump.Pool.View.{Contents, Holds, FileHolds, Descends, Found, Represents}

-- The file's index file is accepted, and finds what the index of the file finds.
pub record IsSaved (dir : Dir) (f : File) : Type 0 where
  pub fresh : FileIndex
  pub loaded : load (lookup (index_name f.pos) dir) f.size ≡ ok fresh
  pub well : IsIndex fresh
  pub same : (key : Oid) → IsOid key → find fresh key ≡ find f.index key

-- The files as they are opened for reading.
abbrev pub reopened : (dir : Dir) (files : List File) → All (IsSaved dir) files → List File
reopened dir [] s = []
reopened dir (f ∷ files) (s, ss) = closed f s.fresh ∷ reopened dir files ss

-- The numbers of the files, the lowest first, in front of others.
abbrev pub ascending : List File → List ℕ → List ℕ
ascending [] known = known
ascending (f ∷ files) known = ascending files (f.pos ∷ known)

module _ (z : Zlib) (dir : Dir) (m : Contents) where
  open_file-IsSaved :
      (f : File) (content : List ℕ)
      → Holds z dir m f content
      → (s : IsSaved dir f) → open_file dir f.pos false ≡ ok (dir, closed f s.fresh)
  unfolding open_file
  open_file-IsSaved f content h s = rw (open_file, h.there, sym sized, s.loaded) refl
    where
      sized : f.size ≡ length content % 2 ^ 32
      sized = omega (arith, h.sized, h.below)

  scan_loop-reopened :
      (files : List File) (s : All (IsSaved dir) files) (known : List ℕ)
      → All (FileHolds z dir m) files
      → scan_loop dir (ascending files known) [] ≡ scan_loop dir known (reopened dir files s)
  unfolding scan_loop
  scan_loop-reopened [] s known h = refl
  scan_loop-reopened (f ∷ files) (s, ss) known ((content, h), hs) =
      scan_loop-reopened files ss (f.pos ∷ known) hs
      ∙ ap
          (λ (o : Outcome (Dir × File)).
            o >>= λ (r : Dir × File). scan_loop dir known (r.1 ∷ reopened dir files ss))
          (open_file-IsSaved f content h s)

  reopened-Holds :
      (files : List File) (s : All (IsSaved dir) files)
      → All (FileHolds z dir m) files
      → All (FileHolds z dir m) (reopened dir files s)
  reopened-Holds [] s h = tt
  reopened-Holds (f ∷ files) (s, ss) ((content, h), hs) = (
    (
      content,
      record {
        there = h.there;
        sized = h.sized;
        below = h.below;
        intact = refl;
        named = h.named;
        well = s.well;
        agrees = λ key e g found. h.agrees key e g (sym (s.same key g) ∙ found);
      },
    ),
    reopened-Holds files ss hs,
  )

reopened-All :
    (n : ℕ) (dir : Dir) (files : List File) (s : All (IsSaved dir) files)
    → All (λ g. g.pos < n) files
    → All (λ g. g.pos < n) (reopened dir files s)
reopened-All n dir [] s h = tt
reopened-All n dir (f ∷ files) (s, ss) (first, h) = (first, reopened-All n dir files ss h)

reopened-Descends :
    (dir : Dir) (files : List File) (s : All (IsSaved dir) files)
    → Descends files
    → Descends (reopened dir files s)
reopened-Descends dir [] s h = tt
reopened-Descends dir (f ∷ files) (s, ss) (first, h) =
    (reopened-All f.pos dir files ss first, reopened-Descends dir files ss h)

reopened-Found :
    (dir : Dir) (key : Oid) (files : List File) (s : All (IsSaved dir) files)
    → IsOid key
    → Found key files
    → Found key (reopened dir files s)
reopened-Found dir key [] s g found = found
reopened-Found dir key (f ∷ files) (s, ss) g (inl (e, found)) = inl (e, s.same key g ∙ found)
reopened-Found dir key (f ∷ files) (s, ss) g (inr later) =
    inr (reopened-Found dir key files ss g later)

pub scan_files-reopened :
    (z : Zlib) (dir : Dir) (m : Contents) (files : List File) (s : All (IsSaved dir) files)
    → All (FileHolds z dir m) files
    → find_pool_files dir ≡ ascending files []
    → scan_files dir ≡ ok (reopened dir files s)
unfolding scan_files scan_loop
scan_files-reopened z dir m files s h known =
    ap (λ (ns : List ℕ). scan_loop dir ns []) known ∙ scan_loop-reopened z dir m files s [] h

-- The pool that is opened again represents the same map.
pub reopened-Represents :
    (z : Zlib) (pool : Pool) (m : Contents) (writable : Bool) (limit : ℕ) (newfile : Bool)
    (s : All (IsSaved pool.dir) pool.files)
    → Represents z pool m
    → limit < 2 ^ 32
    → Represents z
        (pool_of pool.dir writable limit newfile (reopened pool.dir pool.files s) false 0)
        m
reopened-Represents z pool m writable limit newfile s v word = record {
  hold = reopened-Holds z pool.dir m pool.files s v.hold;
  descends = reopened-Descends pool.dir pool.files s v.descends;
  complete = λ key b g has. reopened-Found pool.dir key pool.files s g (v.complete key b g has);
  unset = refl;
  word = word;
  front_open = tt;
}

-- Let a pool represent a map, every file's index file be accepted and find what the file's index finds
-- (IsSaved), and the directory have the data files of the pool and no others. If the lock is taken and
-- the properties are read, with a limit of 32 bits, then opening the directory again ends in a clean pool,
-- with the rights that are asked for and this limit, that represents the same map.
pub open_pool_refines :
    (z : Zlib) (parse : Option (List ℕ) → Outcome Parsed) (opened : Bool) (fd res : ℕ)
    (writable : Bool) (pool : Pool) (m : Contents) (l : LockFile) (props : Props)
    → Represents z pool m
    → All (IsSaved pool.dir) pool.files
    → find_pool_files pool.dir ≡ ascending pool.files []
    → open_lock opened fd res ≡ ok l
    → read_props parse pool.dir ≡ ok props
    → props.limit < 2 ^ 32
    → (pool' : Pool) × (open_pool parse opened fd res pool.dir writable ≡ ok pool')
      × Represents z pool' m
      × (pool'.dirty ≡ false)
      × (pool'.writable ≡ writable)
      × (pool'.limit ≡ props.limit)
unfolding open_pool
open_pool_refines z parse opened fd res writable pool m l props v s known locked read word = (
  pool_of pool.dir writable props.limit props.newfile (reopened pool.dir pool.files s) false 0,
  rw (locked, read, scan_files-reopened z pool.dir m pool.files s v.hold known) refl,
  reopened-Represents z pool m writable props.limit props.newfile s v word,
  refl,
  refl,
  refl,
)
