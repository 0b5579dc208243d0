-- ===== src/Pool/Cycle.antt =====
-- Closing a pool and opening its directory again, as a step between pools that can be opened again.
use cdump.Prelude.{
  ℕ, ◌^◌, ◌<◌, ◌≡◌, refl, sym, subst, ◌∙◌, Bool, false, Option, List, [], ◌∷◌, Outcome, ok,
  ok-injective, ok->>=, All,
}
use cdump.Chunk.{Zlib}
use cdump.Pool.{Pool}
use cdump.Pool.Durable.{Stores}
use cdump.Pool.Files.{Dir, File}
use cdump.Pool.Flush.{pool_of}
use cdump.Pool.Locks.{open_lock}
use cdump.Pool.Open.{Parsed, read_props, find_pool_files, open_pool}
use cdump.Pool.Reopen.{IsSaved, reopened, ascending, scan_files-reopened, reopened-Represents}
use cdump.Pool.View.{Contents, Represents}

reopened-IsSaved :
    (dir : Dir) (files : List File) (s : All (IsSaved dir) files)
    → All (IsSaved dir) (reopened dir files s)
reopened-IsSaved dir [] s = tt
reopened-IsSaved dir (f ∷ files) (s, ss) = (
  record { fresh = s.fresh; loaded = s.loaded; well = s.well; same = λ key g. refl },
  reopened-IsSaved dir files ss,
)

ascending-reopened :
    (dir : Dir) (files : List File) (s : All (IsSaved dir) files) (known : List ℕ)
    → ascending (reopened dir files s) known ≡ ascending files known
ascending-reopened dir [] s known = refl
ascending-reopened dir (f ∷ files) (s, ss) known = ascending-reopened dir files ss (f.pos ∷ known)

-- What an opened pool is, from what opening has returned.
open_pool-returned :
    (z : Zlib) (m : Contents) (parse : Option (List ℕ) → Outcome Parsed) (opened : Bool)
    (fd res : ℕ) (writable : Bool) (pool again : Pool) (s : All (IsSaved pool.dir) pool.files)
    → Represents z pool m
    → find_pool_files pool.dir ≡ ascending pool.files []
    → open_pool parse opened fd res pool.dir writable ≡ ok again
    → (limit : ℕ) × (newfile : Bool) × (pool_of pool.dir writable limit newfile
          (reopened pool.dir pool.files s)
          false
          0
        ≡ again)
unfolding open_pool
open_pool-returned z m parse opened fd res writable pool again s v known returned =
    let (l, rest, _) = ok->>= _ (open_lock opened fd res) returned in
    let (props, rest', _) = ok->>= _ (read_props parse pool.dir) rest in
    (
      props.limit,
      props.newfile,
      ok-injective _ again
          (rw (scan_files-reopened z pool.dir m pool.files s v.hold known) at rest'),
    )

-- Opening a pool again whose files are all saved.
pub open_pool-Stores :
    (z : Zlib) (m : Contents) (parse : Option (List ℕ) → Outcome Parsed) (opened : Bool)
    (fd res : ℕ) (writable : Bool) (pool again : Pool)
    → Represents z pool m
    → All (IsSaved pool.dir) pool.files
    → find_pool_files pool.dir ≡ ascending pool.files []
    → open_pool parse opened fd res pool.dir writable ≡ ok again
    → again.limit < 2 ^ 32
    → Represents z again m × Stores pool again
open_pool-Stores z m parse opened fd res writable pool again v s known returned word =
    let (limit, newfile, is) =
      open_pool-returned z m parse opened fd res writable pool again s v known returned in
    let word' : limit < 2 ^ 32 = subst (λ (p : Pool). p.limit < 2 ^ 32) (sym is) word in
    (
      subst (λ (p : Pool). Represents z p m) is
          (reopened-Represents z pool m writable limit newfile s v word'),
      subst (Stores pool) is (record {
        durable = record {
          behind = reopened-IsSaved pool.dir pool.files s;
          known = known ∙ sym (ascending-reopened pool.dir pool.files s []);
        };
        same_metadata = λ name. refl;
      }),
    )
