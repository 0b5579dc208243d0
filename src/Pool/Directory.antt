-- ===== src/Pool/Directory.antt =====
-- What the changes of a directory do to the contents of its files.
use cdump.Prelude.{
  ℕ, ◌≡◌, ◌≢◌, refl, sym, true, false, Bool-cases, inl, inr, some, Option-cases, append-nil, List,
  [], ◌∷◌, ◌++◌, ◌==◌, ==_iff,
}
use cdump.Pool.Files.{Dir, same_name, lookup, put, remove, append}

same_name_refl : (name : List ℕ) → same_name name name ≡ true
unfolding same_name
same_name_refl [] = refl
same_name_refl (x ∷ xs) = rw (same_name_refl xs, (==_iff x x).1 refl) refl

pub same_name-path : (a b : List ℕ) → same_name a b ≡ true → a ≡ b
unfolding same_name
same_name-path [] [] h = refl
same_name-path [] (y ∷ ys) h = cc
same_name-path (x ∷ xs) [] h = cc
same_name-path (x ∷ xs) (y ∷ ys) h = elim (Bool-cases (x == y)) [
  | inl e ↦ cc ((==_iff x y).0 e, same_name-path xs ys (rw e at h))
  | inr e ↦ cc (rw e at h)
]

same_name_apart : (a b : List ℕ) → a ≢ b → same_name a b ≡ false
same_name_apart a b h = elim (Bool-cases (same_name a b)) [
  | inl e ↦ absurd (h (same_name-path a b e))
  | inr e ↦ e
]

pub lookup-put :
    (name content : List ℕ) (dir : Dir) → lookup name (put name content dir) ≡ some content
unfolding lookup put
lookup-put name content [] = rw (same_name_refl name) refl
lookup-put name content (e ∷ dir) = elim (Bool-cases (same_name e.0 name)) [
  | inl h ↦ rw (h, same_name_refl name) refl
  | inr h ↦ rw (h, lookup, h) (lookup-put name content dir)
]

pub lookup-append :
    (name content tail : List ℕ) (dir : Dir)
    → lookup name dir ≡ some content
    → lookup name (append name tail dir) ≡ some (content ++ tail)
unfolding append lookup
lookup-append name content tail dir h = rw (append, h) (lookup-put name (content ++ tail) dir)

-- Files of other names keep their contents.
pub lookup-put_other :
    (name other content : List ℕ) (dir : Dir)
    → other ≢ name
    → lookup name (put other content dir) ≡ lookup name dir
unfolding lookup put
lookup-put_other name other content [] h = rw (same_name_apart other name h) refl
lookup-put_other name other content (e ∷ dir) h = elim (Bool-cases (same_name e.0 other)) [
  | inl here ↦
      rw
        (
          here,
          same_name_apart other name h,
          same_name-path e.0 other here,
          same_name_apart other name h,
        )
        refl
  | inr there ↦ rw (there, lookup-put_other name other content dir h) refl
]

pub lookup-remove_other :
    (name other : List ℕ) (dir : Dir)
    → other ≢ name
    → lookup name (remove other dir) ≡ lookup name dir
unfolding lookup remove
lookup-remove_other name other [] h = refl
lookup-remove_other name other (e ∷ dir) h = elim (Bool-cases (same_name e.0 other)) [
  | inl here ↦ rw (here, same_name-path e.0 other here, same_name_apart other name h) refl
  | inr there ↦ rw (there, lookup-remove_other name other dir h) refl
]

pub lookup-append_other :
    (name other tail : List ℕ) (dir : Dir)
    → other ≢ name
    → lookup name (append other tail dir) ≡ lookup name dir
unfolding append
lookup-append_other name other tail dir h = elim (Option-cases (lookup other dir)) [
  | inl e ↦ rw (append, e) (lookup-put_other name other tail dir h)
  | inr (content, e) ↦ rw (append, e) (lookup-put_other name other (content ++ tail) dir h)
]

-- Appending nothing to a file that is there.
pub lookup-append_nothing :
    (name other content : List ℕ) (dir : Dir)
    → lookup other dir ≡ some content
    → lookup name (append other [] dir) ≡ lookup name dir
unfolding append
lookup-append_nothing name other content dir h = elim (Bool-cases (same_name other name)) [
  | inl e ↦
      rw (append, h, append-nil, ← same_name-path other name e, lookup-put other content dir)
        (sym h)
  | inr e ↦ lookup-append_other name other [] dir (λ same. cc (e, same, same_name_refl name))
]
