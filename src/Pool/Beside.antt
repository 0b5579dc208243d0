-- ===== src/Pool/Beside.antt =====
-- The index files and the metadata of a directory, beside its data files.
use cdump.Prelude.{ℕ, ◌<◌, ◌≡◌, ◌≢◌, sym, ap, ◌∙◌, List, ◌++◌, arith, codes, get_or}
use cdump.Pool.Apart.{index_apart}
use cdump.Pool.Directory.{lookup-put_other, lookup-remove_other, lookup-append_other}
use cdump.Pool.Files.{Dir, lookup, put, remove, append, construct_name, data_name, index_name}
use cdump.Pool.Flush.{indexed}

abbrev pub metadata_name : List ℕ → List ℕ
metadata_name name = codes "metadata/" ++ name

abbrev pub SameMetadata : Dir → Dir → Type 0
SameMetadata dir dir' =
    (name : List ℕ) → lookup (metadata_name name) dir' ≡ lookup (metadata_name name) dir

abbrev pub SameIndices : Dir → Dir → Type 0
SameIndices dir dir' = (q : ℕ) → q < 10000 → lookup (index_name q) dir' ≡ lookup (index_name q) dir

-- A name that `construct_name` makes starts with a `p`.
constructed_apart :
    (p : ℕ) (extension tail name : List ℕ) → construct_name p extension ++ tail ≢ metadata_name name
unfolding construct_name
constructed_apart p extension tail name e = omega (arith, ap (λ (n : List ℕ). get_or n 0 0) e)

construct_name_apart :
    (p : ℕ) (extension name : List ℕ) → construct_name p extension ≢ metadata_name name
unfolding construct_name
construct_name_apart p extension name e = omega (arith, ap (λ (n : List ℕ). get_or n 0 0) e)

pub indexed-SameMetadata :
    (p : ℕ) (image : List ℕ) (dir : Dir) → SameMetadata dir (indexed p image dir)
indexed-SameMetadata p image dir name =
    lookup-put_other (metadata_name name) (index_name p) image
      (remove (index_name p ++ codes ".tmp") dir) (construct_name_apart p (codes ".idx") name)
    ∙ lookup-remove_other (metadata_name name) (index_name p ++ codes ".tmp") dir
        (constructed_apart p (codes ".idx") (codes ".tmp") name)

pub put_data-SameMetadata :
    (p : ℕ) (content : List ℕ) (dir : Dir) → SameMetadata dir (put (data_name p) content dir)
put_data-SameMetadata p content dir name =
    lookup-put_other (metadata_name name) (data_name p) content dir
      (construct_name_apart p (codes ".data") name)

pub append_data-SameMetadata :
    (p : ℕ) (tail : List ℕ) (dir : Dir) → SameMetadata dir (append (data_name p) tail dir)
append_data-SameMetadata p tail dir name =
    lookup-append_other (metadata_name name) (data_name p) tail dir
      (construct_name_apart p (codes ".data") name)

pub put_data-SameIndices :
    (p : ℕ) (content : List ℕ) (dir : Dir)
    → p < 10000
    → SameIndices dir (put (data_name p) content dir)
put_data-SameIndices p content dir hp q hq =
    lookup-put_other (index_name q) (data_name p) content dir (λ e. index_apart q p hq hp (sym e))

pub append_data-SameIndices :
    (p : ℕ) (tail : List ℕ) (dir : Dir)
    → p < 10000
    → SameIndices dir (append (data_name p) tail dir)
append_data-SameIndices p tail dir hp q hq =
    lookup-append_other (index_name q) (data_name p) tail dir (λ e. index_apart q p hq hp (sym e))
