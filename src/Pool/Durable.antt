-- ===== src/Pool/Durable.antt =====
-- Pools whose directory can be opened again: what `prepare_write` does to them.
use cdump.Prelude.{
  ℕ, ◌<◌, ◌≡◌, sym, ap, subst, ◌∙◌, true, Option, none, List, [], ◌∷◌, ok, ok-injective, ◌>>=◌,
  arith, All,
}
use cdump.Index.Load.{load}
use cdump.Chunk.{Zlib}
use cdump.Pool.{Pool, flush, next_pos, open_front}
use cdump.Pool.Beside.{SameMetadata, SameIndices, put_data-SameMetadata, put_data-SameIndices}
use cdump.Pool.Files.{Dir, lookup, put, data_name, File}
use cdump.Pool.Flush.{FrontFits, flush_refines}
use cdump.Pool.Numbered.{find_pool_files-new}
use cdump.Pool.Open.{find_pool_files}
use cdump.Pool.Persist.{SavedBehind, Persists, flush_saves}
use cdump.Pool.Prepare.{with_new, below_next, open_front-new}
use cdump.Pool.Ready.{Room}
use cdump.Pool.Reopen.{IsSaved, ascending}
use cdump.Pool.View.{Contents, FileHolds, Represents}

-- The directory lists the pool's data files, and has the index files of all but a file that is being
-- written.
pub record Durable (pool : Pool) : Type 0 where
  pub behind : SavedBehind pool.dirty pool.dir pool.files
  pub known : find_pool_files pool.dir ≡ ascending pool.files []

-- The second pool can be opened again, and has the metadata of the first.
pub record Stores (pool pool' : Pool) : Type 0 where
  pub durable : Durable pool'
  pub same_metadata : SameMetadata pool.dir pool'.dir

pub IsSaved-frame :
    (dir dir' : Dir) (files : List File)
    → SameIndices dir dir'
    → All (λ g. g.pos < 10000) files
    → All (IsSaved dir) files
    → All (IsSaved dir') files
IsSaved-frame dir dir' [] same low s = tt
IsSaved-frame dir dir' (f ∷ files) same (first, low) (s, ss) = (
  record {
    fresh = s.fresh;
    loaded = ap (λ (o : Option (List ℕ)). load o f.size) (same f.pos first) ∙ s.loaded;
    well = s.well;
    same = s.same;
  },
  IsSaved-frame dir dir' files same low ss,
)

pub FileHolds-named :
    (z : Zlib) (dir : Dir) (m : Contents) (files : List File)
    → All (FileHolds z dir m) files
    → All (λ g. g.pos < 10000) files
FileHolds-named z dir m [] h = tt
FileHolds-named z dir m (f ∷ files) ((content, h), hs) = (h.named, FileHolds-named z dir m files hs)

-- A new latest file, in a pool whose files are all saved.
pub open_new-Stores :
    (z : Zlib) (m : Contents) (pool : Pool)
    → Represents z pool m
    → All (IsSaved pool.dir) pool.files
    → find_pool_files pool.dir ≡ ascending pool.files []
    → lookup (data_name (next_pos pool.files)) pool.dir ≡ none
    → next_pos pool.files < 10000
    → (pool' : Pool) × (open_front true pool ≡ ok pool') × Stores pool pool'
open_new-Stores z m pool v saved known vacant numbered = (
  with_new pool.dir pool.writable pool.limit pool.files pool.write_pos,
  open_front-new pool.dir pool.writable pool.limit pool.first_newfile pool.files pool.dirty
      pool.write_pos vacant,
  record {
    durable = record {
      behind =
          IsSaved-frame pool.dir (put (data_name (next_pos pool.files)) [] pool.dir) pool.files
            (put_data-SameIndices (next_pos pool.files) [] pool.dir numbered)
            (FileHolds-named z pool.dir m pool.files v.hold) saved;
      known =
          find_pool_files-new (next_pos pool.files) pool.files pool.dir numbered
            (below_next z pool.dir m pool.files v.hold v.descends) vacant known;
    };
    same_metadata = put_data-SameMetadata (next_pos pool.files) [] pool.dir;
  },
)

-- `flush`, in a pool that can be opened again.
pub flush-Persists :
    (z : Zlib) (m : Contents) (pool : Pool)
    → Represents z pool m
    → FrontFits pool.files
    → Durable pool
    → (pool' : Pool) × (flush pool ≡ ok pool') × Persists pool pool'
flush-Persists z m pool v fit d =
    flush_saves z m pool.dir pool.writable pool.limit pool.first_newfile pool.write_pos pool.files
      pool.dirty v fit d.behind d.known

-- The session's file is flushed and a new one opened.
pub flushed-Stores :
    (z : Zlib) (size : ℕ) (m : Contents) (pool : Pool)
    → Represents z pool m
    → Room size pool
    → Durable pool
    → (pool' : Pool) × ((flush pool >>= open_front true) ≡ ok pool') × Stores pool pool'
flushed-Stores z size m pool v room d =
    let (q, flushed, p) = flush-Persists z m pool v room.fits d in
    let (q', flushed', v', kept) = flush_refines z pool m v room.fits in
    let same : q' ≡ q = ok-injective q' q (sym flushed' ∙ flushed) in
    let next : next_pos q.files ≡ next_pos pool.files =
      ap (λ (r : Pool). next_pos r.files) (sym same) ∙ kept.same_next in
    let vacant : lookup (data_name (next_pos q.files)) q.dir ≡ none =
      ap (λ (n : ℕ). lookup (data_name n) q.dir) next
      ∙ ap (λ (r : Pool). lookup (data_name (next_pos pool.files)) r.dir) (sym same)
      ∙ kept.same_data (next_pos pool.files) room.numbered
      ∙ room.vacant in
    let (pool', opened, s) =
      open_new-Stores z m q (subst (λ (r : Pool). Represents z r m) same v') p.saved p.known vacant
        (omega (arith, next, room.numbered)) in
    (
      pool',
      ap (λ o. o >>= open_front true) flushed ∙ opened,
      record {
        durable = s.durable;
        same_metadata = λ name. s.same_metadata name ∙ p.same_metadata name;
      },
    )
