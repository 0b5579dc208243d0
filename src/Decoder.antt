-- ===== src/Decoder.antt =====
-- src/decoder.cc: the decoder of property blocks, and the node of a backup that it fills.
pub mod Blocks
pub mod Answers
pub mod Properties
pub mod Walk
pub mod Filled
pub mod Refused
use cdump.Prelude.{
  ℕ, zero, suc, ◌+◌, ◌*◌, List, [], ◌∷◌, ◌++◌, Outcome, ok, throw, undefined, runtime_error, ◌>>=◌,
  length,
}

-- `Decoder`, as the bytes between `data` and `end`.
abbrev pub Decoder : Type 0
Decoder = List ℕ

-- `Decoder::get`
unfoldable pub get : Decoder → Outcome (ℕ × Decoder)
get [] = throw (runtime_error "Invalid encoded block")
get (b ∷ d) = ok (b, d)

-- `Decoder::get_string`
unfoldable pub get_string : ℕ → Decoder → Outcome (List ℕ × Decoder)
unfolding get
get_string zero d = ok ([], d)
get_string (suc len) d = do (b, d) ← get d; (rest, d) ← get_string len d; ok (b ∷ rest, d)

-- `Decoder::get8`
unfoldable pub get8 : Decoder → Outcome (List ℕ × Decoder)
unfolding get get_string
get8 d = do (len, d) ← get d; get_string len d

-- `Decoder::get16`
unfoldable pub get16 : Decoder → Outcome (List ℕ × Decoder)
unfolding get get_string
get16 d = do (high, d) ← get d; (low, d) ← get d; get_string (high * 256 + low) d

-- The two functions of a visitor of `decode_property`, on the visitor's state.
pub record Visitor (S : Type 0) : Type 0 where
  pub set_type : List ℕ → S → Outcome S
  pub add_property : List ℕ → List ℕ → S → Outcome S

module _ {S : Type 0} (visitor : Visitor S) where
  -- The loop of `decode_property`. A round takes three bytes at the least, so the length of the block
  -- is fuel enough; `undefined` stands for a loop that has run out of it.
  unfoldable pub property_loop : ℕ → Decoder → S → Outcome S
  unfolding get8 get16
  property_loop fuel [] s = ok s
  property_loop zero (b ∷ d) s = undefined
  property_loop (suc fuel) (b ∷ d) s = do
    (key, d) ← get8 (b ∷ d)
    (value, d) ← get16 d
    s ← visitor.add_property key value s
    property_loop fuel d s

  -- `decode_property`
  unfoldable pub decode_property : List ℕ → S → Outcome S
  unfolding get8 property_loop
  decode_property block s = do
    (type, d) ← get8 block
    s ← visitor.set_type type s
    property_loop (length block) d s
