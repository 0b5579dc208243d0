-- ===== src/Tests/Nodes.antt =====
-- The node of a backup, decoded from a concrete block.
use cdump.Prelude.{◌≡◌, refl, List, [], ◌∷◌, ok, codes, All}
use cdump.Oid.{to_hex}
use cdump.Oid.Hex.{from_hex-to_hex}
use cdump.Decoder.{decode_property}
use cdump.Decoder.Blocks.{Property, property_block}
use cdump.Decoder.Filled.{Readable, a_date, a_hash, another, Filled, decode_property-Filled}
use cdump.Decoder.Walk.{BackNode, new_node, back_node, stoll, stoll_sign, signed_value, dec_prefix}
use cdump.Pool.Files.{same_name}
use cdump.Text.Scan.{skip_space}
use cdump.Tests.Maps.{key, key-IsOid}

-- A date before 1970, a hash, and a key that comes twice.
abbrev props : List Property
props =
    (codes "_date", codes "-42")
    ∷ (codes "base", codes "home")
    ∷ (codes "hash", to_hex key)
    ∷ (codes "base", codes "root")
    ∷ []

props-Readable : All (λ p. Readable p.0 p.1) props
unfolding same_name stoll stoll_sign signed_value dec_prefix skip_space
props-Readable = (
  a_date refl _ refl,
  (
    another refl refl,
    (a_hash refl refl key (from_hex-to_hex key key-IsOid), (another refl refl, tt)),
  ),
)

decode_property-Filled_example :
    (node : BackNode) × (decode_property back_node
        (property_block (codes "snapshot") props)
        new_node
      ≡ ok node)
    × Filled props (record new_node { type_of = codes "snapshot" }) node
decode_property-Filled_example = decode_property-Filled (codes "snapshot") props props-Readable
