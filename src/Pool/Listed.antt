-- ===== src/Pool/Listed.antt =====
-- Which changes of a directory leave its list of data files, and the index files of the others, as they are.
use cdump.Prelude.{
  ℕ, ◌+◌, ◌/◌, ◌%◌, ◌<◌, ◌≡◌, ◌≢◌, refl, sym, ap, ◌∙◌, Bool-cases, inl, inr, false, Option-cases,
  none, some, some-injective, List, [], ◌∷◌, ◌++◌, arith, length, length-append, take, drop, codes,
  ◌==◌,
}
use cdump.Pool.Apart.{length-name}
use cdump.Pool.Directory.{same_name-path, lookup-put_other, lookup-remove_other}
use cdump.Pool.Files.{Dir, same_name, lookup, put, remove, construct_name, index_name}
use cdump.Pool.Flush.{indexed}
use cdump.Pool.Names.{decode_name, dec_value, four_digits, four_back}
use cdump.Pool.Open.{find_pool_files, number_insert}

-- The digits of a name of any extension.
number_back :
    (pos : ℕ) (extension : List ℕ)
    → pos < 10000
    → dec_value 0 (take 4 (drop 10 (construct_name pos extension))) ≡ some pos
unfolding construct_name
number_back pos extension h = rw (four_digits pos h) (
    four_back (pos / 1000) (pos / 100 % 10) (pos / 10 % 10) (pos % 10) (omega arith) (omega arith)
      (omega arith) (omega arith)
    ∙ ap some (omega arith))

indices_apart : (p q : ℕ) → p < 10000 → q < 10000 → p ≢ q → index_name p ≢ index_name q
indices_apart p q hp hq h e = h (
    some-injective p q (
      sym (number_back p (codes ".idx") hp)
      ∙ ap (λ (name : List ℕ). dec_value 0 (take 4 (drop 10 name))) e
      ∙ number_back q (codes ".idx") hq))

tmp_index_apart : (p q : ℕ) → p < 10000 → q < 10000 → index_name p ++ codes ".tmp" ≢ index_name q
tmp_index_apart p q hp hq e = omega (
  arith,
  ap length e,
  length-append (index_name p) (codes ".tmp"),
  length-name p (codes ".idx") hp,
  length-name q (codes ".idx") hq,
)

-- Saving one index leaves the others.
pub indexed-others :
    (p q : ℕ) (image : List ℕ) (dir : Dir)
    → p < 10000
    → q < 10000
    → p ≢ q
    → lookup (index_name q) (indexed p image dir) ≡ lookup (index_name q) dir
indexed-others p q image dir hp hq apart =
    lookup-put_other (index_name q) (index_name p) image (remove (index_name p ++ codes ".tmp") dir)
      (indices_apart p q hp hq apart)
    ∙ lookup-remove_other (index_name q) (index_name p ++ codes ".tmp") dir
        (tmp_index_apart p q hp hq)

unnumbered : (name : List ℕ) → (length name == 19) ≡ false → decode_name name ≡ none
unfolding decode_name
unnumbered name h = rw h refl

-- A file that is no data file is not listed.
pub find_pool_files-skip :
    (e : List ℕ × List ℕ) (dir : Dir)
    → decode_name e.0 ≡ none
    → find_pool_files (e ∷ dir) ≡ find_pool_files dir
unfolding find_pool_files
find_pool_files-skip e dir h = rw (find_pool_files, h) refl

pub find_pool_files-cons :
    (e : List ℕ × List ℕ) (dir dir' : Dir)
    → find_pool_files dir ≡ find_pool_files dir'
    → find_pool_files (e ∷ dir) ≡ find_pool_files (e ∷ dir')
unfolding find_pool_files
find_pool_files-cons e dir dir' h = elim (Option-cases (decode_name e.0)) [
  | inl skipped ↦ rw (find_pool_files, skipped) h
  | inr (pos, is) ↦ rw (find_pool_files, is) (ap (number_insert pos) h)
]

find_pool_files-put :
    (name content : List ℕ) (dir : Dir)
    → decode_name name ≡ none
    → find_pool_files (put name content dir) ≡ find_pool_files dir
unfolding put
find_pool_files-put name content [] h = find_pool_files-skip (name, content) [] h
find_pool_files-put name content (e ∷ dir) h = elim (Bool-cases (same_name e.0 name)) [
  | inl here ↦ rw here (
      find_pool_files-skip (name, content) dir h
      ∙ sym (find_pool_files-skip e dir (ap decode_name (same_name-path e.0 name here) ∙ h)))
  | inr there ↦ rw there (find_pool_files-cons e _ _ (find_pool_files-put name content dir h))
]

find_pool_files-remove :
    (name : List ℕ) (dir : Dir)
    → decode_name name ≡ none
    → find_pool_files (remove name dir) ≡ find_pool_files dir
unfolding remove
find_pool_files-remove name [] h = refl
find_pool_files-remove name (e ∷ dir) h = elim (Bool-cases (same_name e.0 name)) [
  | inl here ↦
      rw here (sym (find_pool_files-skip e dir (ap decode_name (same_name-path e.0 name here) ∙ h)))
  | inr there ↦ rw there (find_pool_files-cons e _ _ (find_pool_files-remove name dir h))
]

-- Saving an index changes no list of data files.
pub find_pool_files-indexed :
    (p : ℕ) (image : List ℕ) (dir : Dir)
    → p < 10000
    → find_pool_files (indexed p image dir) ≡ find_pool_files dir
find_pool_files-indexed p image dir h =
    find_pool_files-put (index_name p) image (remove (index_name p ++ codes ".tmp") dir) (
      unnumbered (index_name p)
        (other_length (length (index_name p)) 18 (length-name p (codes ".idx") h) refl))
    ∙ find_pool_files-remove (index_name p ++ codes ".tmp") dir (
        unnumbered (index_name p ++ codes ".tmp") (
          other_length (length (index_name p ++ codes ".tmp")) 22
            (length-append (index_name p) (codes ".tmp")
              ∙ ap (λ (n : ℕ). n + 4) (length-name p (codes ".idx") h))
            refl))
  where
    other_length : (n k : ℕ) → n ≡ k → (k == 19) ≡ false → (n == 19) ≡ false
    other_length n k e h = rw e h
