-- ===== src/Decoder/Properties.antt =====
-- `std::map` from strings to strings, the `property_map` of src/decoder.hh.
use cdump.Prelude.{
  ℕ, ◌≡◌, refl, Bool, Bool-cases, inl, inr, true, false, Option, some, List, [], ◌∷◌, ltb, ◌==◌,
  if◌then◌else◌,
}
use cdump.Pool.Files.{same_name, lookup}
use cdump.Pool.Directory.{same_name-path}

-- `operator<` of two strings, by unsigned characters.
unfoldable pub text_less : List ℕ → List ℕ → Bool
text_less xs [] = false
text_less [] (y ∷ ys) = true
text_less (x ∷ xs) (y ∷ ys) =
    let rest = text_less xs ys in if ltb x y then true else if x == y then rest else false

-- `property_map`: the entries in the order of their keys.
abbrev pub PropertyMap : Type 0
PropertyMap = List (List ℕ × List ℕ)

-- `props[key] = value`
unfoldable pub assign : List ℕ → List ℕ → PropertyMap → PropertyMap
unfolding text_less same_name
assign key value [] = (key, value) ∷ []
assign key value ((k, v) ∷ props) =
    let later = assign key value props in
    if text_less key k
    then (key, value) ∷ (k, v) ∷ props
    else if same_name key k
    then (key, value) ∷ props
    else (k, v) ∷ later

-- After `props[key] = value` the value of this key is `value`, and every other key has the value it
-- had.
pub lookup-assign :
    (key value k : List ℕ) (props : PropertyMap)
    → lookup k (assign key value props) ≡ (if same_name key k then some value else lookup k props)
unfolding assign lookup
lookup-assign key value k [] = refl
lookup-assign key value k ((j, v) ∷ props) = elim (Bool-cases (text_less key j)) [
  | inl e ↦ rw e refl
  | inr e ↦ elim (Bool-cases (same_name key j)) [
    | inl same ↦
        rw (e, same)
          (rw (same_name-path key j same)
            (absorb (same_name j k) (some value) (some v) (lookup k props)))
    | inr other ↦
        rw (e, other)
          (elim (Bool-cases (same_name j k)) [
            | inl here ↦ rw (here, ← same_name-path j k here, other) refl
            | inr there ↦ rw there (lookup-assign key value k props)
          ])
  ]
]
  where
    absorb :
        (b : Bool) (x y z : Option (List ℕ))
        → (if b then x else z) ≡ (if b then x else if b then y else z)
    absorb true x y z = refl
    absorb false x y z = refl
