-- ===== src/Decoder/Blocks.antt =====
-- The blocks that `decode_property` decodes, written out without the decoder.
use cdump.Prelude.{
  ℕ, zero, suc, ◌+◌, ◌*◌, ◌/◌, ◌%◌, ◌^◌, ◌<◌, ◌≤◌, ◌≡◌, refl, List, [], ◌∷◌, ◌++◌, Outcome, ok,
  ◌>>=◌, >>=-cong, length, length-append, arith,
}
use cdump.Decoder.{get, get_string, get8, get16, Visitor, property_loop, decode_property}

-- A string behind its length, in one byte and in two.
abbrev pub string8 : List ℕ → List ℕ
string8 text = length text ∷ text

abbrev pub string16 : List ℕ → List ℕ
string16 text = length text / 256 ∷ length text % 256 ∷ text

abbrev pub Property : Type 0
Property = List ℕ × List ℕ

abbrev pub properties : List Property → List ℕ
properties [] = []
properties ((key, value) ∷ ps) = string8 key ++ (string16 value ++ properties ps)

abbrev pub property_block : List ℕ → List Property → List ℕ
property_block type ps = string8 type ++ properties ps

abbrev pub Fits : Property → Type 0
Fits (key, value) = (length key < 256) × (length value < 2 ^ 16)

-- The calls of the visitor for these properties, in order.
abbrev pub add_all : {S : Type 0} → Visitor S → List Property → S → Outcome S
add_all visitor [] s = ok s
add_all visitor ((key, value) ∷ ps) s = visitor.add_property key value s >>= add_all visitor ps

get_string-append : (text rest : List ℕ) → get_string (length text) (text ++ rest) ≡ ok (text, rest)
unfolding get_string get
get_string-append [] rest = refl
get_string-append (b ∷ text) rest = rw (get_string-append text rest) refl

get8-append : (text rest : List ℕ) → get8 (string8 text ++ rest) ≡ ok (text, rest)
unfolding get8 get
get8-append text rest = get_string-append text rest

get16-append : (text rest : List ℕ) → get16 (string16 text ++ rest) ≡ ok (text, rest)
unfolding get16 get
get16-append text rest = rw (whole (length text)) (get_string-append text rest)
  where
    whole : (n : ℕ) → n / 256 * 256 + n % 256 ≡ n
    whole n = omega arith

property_loop-properties :
    {S : Type 0} (visitor : Visitor S) (ps : List Property) (fuel : ℕ) (s : S)
    → length (properties ps) ≤ fuel
    → property_loop visitor fuel (properties ps) s ≡ add_all visitor ps s
unfolding property_loop
property_loop-properties visitor [] zero s h = refl
property_loop-properties visitor [] (suc fuel) s h = refl
property_loop-properties visitor ((key, value) ∷ ps) zero s h = absurd (omega arith)
property_loop-properties visitor ((key, value) ∷ ps) (suc fuel) s h =
    rw (get8-append key (string16 value ++ properties ps), get16-append value (properties ps))
      (>>=-cong (visitor.add_property key value s) _ _ λ s'.
        property_loop-properties visitor ps fuel s' (
          omega (
            arith,
            h,
            length-append (string8 key) (string16 value ++ properties ps),
            length-append (string16 value) (properties ps),
          )))

-- `decode_property` of a type string and properties behind their lengths makes the visitor's calls for
-- them in order and no others. (Such a block consists of bytes only if the lengths fit their fields.)
pub decode_property-block :
    {S : Type 0} (visitor : Visitor S) (type : List ℕ) (ps : List Property) (s : S)
    → decode_property visitor (property_block type ps) s
      ≡ (visitor.set_type type s >>= add_all visitor ps)
unfolding decode_property
decode_property-block visitor type ps s = rw (get8-append type (properties ps)) (
    >>=-cong (visitor.set_type type s) _ _ λ s'.
      property_loop-properties visitor ps (length (property_block type ps)) s'
        (omega (arith, length-append (string8 type) (properties ps))))
