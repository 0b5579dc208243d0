-- ===== src/Pool/Numbered.antt =====
-- What writing data files does to the list of data files, the index files and the metadata of a directory.
use cdump.Prelude.{
  ℕ, ◌<◌, ◌≡◌, refl, sym, ap, ◌∙◌, Bool-cases, inl, inr, Option-cases, none, some, List, [], ◌∷◌,
  ◌++◌, arith, All,
}
use cdump.Pool.Apart.{decode_name-data}
use cdump.Pool.Directory.{same_name-path}
use cdump.Pool.Files.{Dir, same_name, lookup, put, append, data_name, File}
use cdump.Pool.Listed.{find_pool_files-skip, find_pool_files-cons}
use cdump.Pool.Names.{decode_name}
use cdump.Pool.Open.{number_insert, find_pool_files}
use cdump.Pool.Reopen.{ascending}

-- Only the names of the files count.
find_pool_files-name :
    (a b : List ℕ × List ℕ) (dir : Dir)
    → a.0 ≡ b.0
    → find_pool_files (a ∷ dir) ≡ find_pool_files (b ∷ dir)
unfolding find_pool_files
find_pool_files-name a b dir h = rw h refl

find_pool_files-more :
    (e : List ℕ × List ℕ) (dir : Dir) (n : ℕ)
    → decode_name e.0 ≡ some n
    → find_pool_files (e ∷ dir) ≡ number_insert n (find_pool_files dir)
unfolding find_pool_files
find_pool_files-more e dir n h = rw (find_pool_files, h) refl

find_pool_files-put_old :
    (name content old : List ℕ) (dir : Dir)
    → lookup name dir ≡ some old
    → find_pool_files (put name content dir) ≡ find_pool_files dir
unfolding put lookup
find_pool_files-put_old name content old [] h = cc
find_pool_files-put_old name content old (e ∷ dir) h = elim (Bool-cases (same_name e.0 name)) [
  | inl here ↦
      rw here (find_pool_files-name (name, content) e dir (sym (same_name-path e.0 name here)))
  | inr there ↦
      rw there
        (find_pool_files-cons e _ _ (find_pool_files-put_old name content old dir (rw there at h)))
]

pub find_pool_files-append :
    (name tail old : List ℕ) (dir : Dir)
    → lookup name dir ≡ some old
    → find_pool_files (append name tail dir) ≡ find_pool_files dir
unfolding append
find_pool_files-append name tail old dir h =
    ap find_pool_files (rw (append, h) refl) ∙ find_pool_files-put_old name (old ++ tail) old dir h

number_insert_comm :
    (p n : ℕ) (ks : List ℕ)
    → number_insert p (number_insert n ks) ≡ number_insert n (number_insert p ks)
unfolding number_insert
number_insert_comm p n [] = ground arith
number_insert_comm p n (k ∷ ks) = ground (arith, number_insert_comm p n ks)

find_pool_files-put_new :
    (name content : List ℕ) (n : ℕ) (dir : Dir)
    → decode_name name ≡ some n
    → lookup name dir ≡ none
    → find_pool_files (put name content dir) ≡ number_insert n (find_pool_files dir)
unfolding put lookup
find_pool_files-put_new name content n [] d h = find_pool_files-more (name, content) [] n d
find_pool_files-put_new name content n (e ∷ dir) d h = elim (Bool-cases (same_name e.0 name)) [
  | inl here ↦ cc (rw here at h)
  | inr there ↦
      let rest = find_pool_files-put_new name content n dir d (rw there at h) in
      rw there (elim (Option-cases (decode_name e.0)) [
        | inl skipped ↦
            find_pool_files-skip e _ skipped
            ∙ rest
            ∙ ap (number_insert n) (sym (find_pool_files-skip e dir skipped))
        | inr (p, is) ↦
            find_pool_files-more e _ p is
            ∙ ap (number_insert p) rest
            ∙ number_insert_comm p n (find_pool_files dir)
            ∙ ap (number_insert n) (sym (find_pool_files-more e dir p is))
      ])
]

-- A number above those of the files comes last.
number_insert-ascending :
    (n : ℕ) (files : List File) (known : List ℕ)
    → All (λ g. g.pos < n) files
    → number_insert n (ascending files known) ≡ ascending files (number_insert n known)
number_insert-ascending n [] known h = refl
number_insert-ascending n (f ∷ files) known (first, h) =
    number_insert-ascending n files (f.pos ∷ known) h ∙ ap (ascending files) (behind known)
  where
    behind : (ks : List ℕ) → number_insert n (f.pos ∷ ks) ≡ f.pos ∷ number_insert n ks
    behind ks = unfold number_insert in ground arith

-- The next data file is listed behind the others.
pub find_pool_files-new :
    (n : ℕ) (files : List File) (dir : Dir)
    → n < 10000
    → All (λ g. g.pos < n) files
    → lookup (data_name n) dir ≡ none
    → find_pool_files dir ≡ ascending files []
    → find_pool_files (put (data_name n) [] dir) ≡ ascending files (n ∷ [])
find_pool_files-new n files dir numbered above vacant known =
    find_pool_files-put_new (data_name n) [] n dir (decode_name-data n numbered) vacant
    ∙ ap (number_insert n) known
    ∙ number_insert-ascending n files [] above
    ∙ ap (ascending files) (unfold number_insert in refl)
