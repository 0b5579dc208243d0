-- ===== src/Tests/Properties.antt =====
-- A property block and a dump at concrete inputs.
use cdump.Prelude.{◌+◌, ◌*◌, ◌/◌, length, ℕ, ◌≡◌, refl, List, [], ◌∷◌, ◌++◌, ok, ◌>>=◌, codes}
use cdump.Decoder.{Visitor, decode_property}
use cdump.Decoder.Blocks.{Property, property_block, add_all, decode_property-block}
use cdump.Decoder.Answers.{Decoded, decode_property-Answers}
use cdump.Pdump.{dump, dump_loop, empty_row}
use cdump.Pdump.Rows.{dump-rows}
use cdump.Tests.Values.{all_bytes_sound}

-- The visitor that keeps what it is told.
abbrev Kept : Type 0
Kept = List ℕ × List Property

abbrev keeper : Visitor Kept
keeper = record {
  set_type = λ type s. ok (type, s.1);
  add_property = λ key value s. ok (s.0, s.1 ++ ((key, value) ∷ []));
}

abbrev props : List Property
props = (codes "kind", codes "snapshot") ∷ (codes "base", codes "home") ∷ []

decode_property-block_example :
    decode_property keeper (property_block (codes "back") props) ([], [])
    ≡ (keeper.set_type (codes "back") ([], []) >>= add_all keeper props)
decode_property-block_example = decode_property-block keeper (codes "back") props ([], [])

-- A block that ends inside a value.
abbrev cut_block : List ℕ
cut_block = 1 ∷ b't' ∷ 1 ∷ b'k' ∷ 0 ∷ 2 ∷ b'v' ∷ []

decode_property-Answers_example : Decoded keeper cut_block (decode_property keeper cut_block)
decode_property-Answers_example =
    decode_property-Answers keeper cut_block (all_bytes_sound cut_block refl)

-- Six bytes: the mask leaves the lowest bit of 21.
dump-rows_example :
    dump (codes "abcdef")
    ≡ dump_loop (codes "abcdef") ((length (codes "abcdef") + 15) / 16 * 16) 0 empty_row
dump-rows_example = dump-rows (codes "abcdef")
