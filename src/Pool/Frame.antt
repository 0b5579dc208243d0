-- ===== src/Pool/Frame.antt =====
-- What keeps the files of a pool in accord with a directory and a map.
use cdump.Prelude.{
  ℕ, ◌<◌, ◌≤◌, ◌≡◌, ◌⊎◌, sym, ap, ◌∙◌, inl, inr, Bool-cases, none, some, List, [], ◌∷◌, ◌++◌, arith,
  codes, All,
}
use cdump.Oid.{Oid, IsOid, equals}
use cdump.Oid.Laws.{equals-path}
use cdump.Chunk.{Zlib}
use cdump.Pool.Apart.{data_apart, index_apart, tmp_apart}
use cdump.Pool.Directory.{lookup-put_other, lookup-remove_other, lookup-append_other}
use cdump.Pool.Files.{Dir, lookup, put, remove, append, data_name, index_name, File}
use cdump.Pool.View.{Blob, Contents, update, Holds, FileHolds}

-- The data files below a number have the same contents in both.
abbrev pub SameBelow : ℕ → Dir → Dir → Type 0
SameBelow n dir dir' = (q : ℕ) → q < n → lookup (data_name q) dir' ≡ lookup (data_name q) dir

pub put_data-SameBelow :
    (n : ℕ) (content : List ℕ) (dir : Dir)
    → n < 10000
    → SameBelow n dir (put (data_name n) content dir)
put_data-SameBelow n content dir h q below =
    lookup-put_other (data_name q) (data_name n) content dir
      (data_apart n q h (omega (arith, h, below)) (λ e. omega (arith, below, e)))

pub append_data-SameBelow :
    (n : ℕ) (tail : List ℕ) (dir : Dir)
    → n < 10000
    → SameBelow n dir (append (data_name n) tail dir)
append_data-SameBelow n tail dir h q below =
    lookup-append_other (data_name q) (data_name n) tail dir
      (data_apart n q h (omega (arith, h, below)) (λ e. omega (arith, below, e)))

-- Saving an index changes no data file.
pub save-SameBelow :
    (p : ℕ) (content : List ℕ) (dir : Dir)
    → p < 10000
    → SameBelow 10000 dir (put (index_name p) content (remove (index_name p ++ codes ".tmp") dir))
save-SameBelow p content dir h q below =
    lookup-put_other (data_name q) (index_name p) content
      (remove (index_name p ++ codes ".tmp") dir) (index_apart p q h below)
    ∙ lookup-remove_other (data_name q) (index_name p ++ codes ".tmp") dir (tmp_apart p q h below)

-- Whatever the first map has, the second has too.
abbrev pub Keeps : Contents → Contents → Type 0
Keeps m m' = (key : Oid) (b : Blob) → IsOid key → m key ≡ some b → m' key ≡ some b

pub Keeps-refl : (m : Contents) → Keeps m m
Keeps-refl m key b g h = h

-- The blob agrees with what the map has for the identifier, if it has anything.
abbrev pub Agrees : Contents → Oid → Blob → Type 0
Agrees m o b = (m o ≡ none) ⊎ (m o ≡ some b)

pub update-Keeps :
    (m : Contents) (o : Oid) (b : Blob) → IsOid o → Agrees m o b → Keeps m (update m o b)
update-Keeps m o b good agree key c g h = elim (Bool-cases (equals o key)) [
  | inr e ↦ rw e h
  | inl e ↦ rw e (elim agree [
    | inl vacant ↦ cc (vacant, h, equals-path o key good g e)
    | inr held ↦ sym held ∙ ap m (equals-path o key good g e) ∙ h
  ])
]

module _ (z : Zlib) (dir dir' : Dir) (m m' : Contents) (keeps : Keeps m m') where
  pub Holds-frame :
      (f : File) (content : List ℕ)
      → lookup (data_name f.pos) dir' ≡ lookup (data_name f.pos) dir
      → Holds z dir m f content
      → Holds z dir' m' f content
  Holds-frame f content same h = record {
    there = same ∙ h.there;
    sized = h.sized;
    below = h.below;
    intact = h.intact;
    named = h.named;
    well = h.well;
    agrees =
        λ key e g found. let (b, has, at) = h.agrees key e g found in (b, keeps key b g has, at);
  }

  pub All-frame :
      (n : ℕ) (fs : List File)
      → SameBelow n dir dir'
      → All (λ g. g.pos < n) fs
      → All (FileHolds z dir m) fs
      → All (FileHolds z dir' m') fs
  All-frame n [] same low h = tt
  All-frame n (f ∷ fs) same low h =
      ((h.0.0, Holds-frame f h.0.0 (same f.pos low.0) h.0.1), All-frame n fs same low.1 h.1)

pub All_below_weaken :
    (n k : ℕ) (fs : List File) → n ≤ k → All (λ g. g.pos < n) fs → All (λ g. g.pos < k) fs
All_below_weaken n k [] le h = tt
All_below_weaken n k (f ∷ fs) le h = (omega (arith, le, h.0), All_below_weaken n k fs le h.1)
