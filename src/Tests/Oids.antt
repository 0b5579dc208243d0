-- ===== src/Tests/Oids.antt =====
-- Identifiers and kinds at concrete inputs.
use cdump.Prelude.{
  ℕ, ◌+◌, ◌-◌, ◌%◌, ◌^◌, ◌<◌, ◌≡◌, ◌↔◌, refl, true, List, [], ◌∷◌, ◌++◌, ok, throw,
  invalid_argument, codes, arith, inr, replicate, length-append,
}
use cdump.Bytes.{IsWord, memcmp}
use cdump.Text.Scan.{IsBadPair, hex_value}
use cdump.Text.Digits.{digit_char}
use cdump.Kind.{Kind, textual, from_string, to_string}
use cdump.Kind.Laws.{conversions, less-memcmp, is_lt}
use cdump.Oid.{IsOid, increment, decrement, from_hex, to_hex, hex_text, less, greater, equals}
use cdump.Oid.Tweak.{number-tweak, decrement-increment}
use cdump.Oid.Laws.{number, comparisons}
use cdump.Oid.Hex.{from_hex-to_hex, from_hex_bad_pair, from_hex_minus, length-hex_text}
use cdump.Tests.Values.{oid, oid-IsOid, blob, back, all_bytes_sound}

-- A last byte of 255 carries.
number-tweak_example :
    IsOid (increment (oid 3 255))
    × IsOid (decrement (oid 3 255))
    × (number (increment (oid 3 255)) ≡ (number (oid 3 255) + 1) % 256 ^ 20)
    × (number (decrement (oid 3 255)) ≡ (number (oid 3 255) + (256 ^ 20 - 1)) % 256 ^ 20)
number-tweak_example = number-tweak (oid 3 255) (oid-IsOid 3 255 (omega arith) (omega arith))

decrement-increment_example :
    (decrement (increment (oid 3 255)) ≡ oid 3 255)
    × (increment (decrement (oid 3 255)) ≡ oid 3 255)
decrement-increment_example =
    decrement-increment (oid 3 255) (oid-IsOid 3 255 (omega arith) (omega arith))

comparisons_example :
    ((less (oid 3 200) (oid 3 201) ≡ true) ↔ (number (oid 3 200) < number (oid 3 201)))
    × ((greater (oid 3 200) (oid 3 201) ≡ true) ↔ (number (oid 3 201) < number (oid 3 200)))
    × ((equals (oid 3 200) (oid 3 201) ≡ true) ↔ (oid 3 200 ≡ oid 3 201))
comparisons_example =
    comparisons (oid 3 200) (oid 3 201) (oid-IsOid 3 200 (omega arith) (omega arith))
      (oid-IsOid 3 201 (omega arith) (omega arith))

from_hex-to_hex_example : from_hex (to_hex (oid 3 255)) ≡ ok (oid 3 255)
from_hex-to_hex_example = from_hex-to_hex (oid 3 255) (oid-IsOid 3 255 (omega arith) (omega arith))

abbrev nines : ℕ → List ℕ
nines n = replicate n b'9'

bad_pair : IsBadPair b'4' b'g'
unfolding hex_value digit_char
bad_pair = inr (4, omega arith, refl, refl, refl, refl)

from_hex_bad_pair_example :
    from_hex (hex_text (171 ∷ []) ++ b'4' ∷ b'g' ∷ nines 36)
    ≡ throw (invalid_argument "Invalid hex character in OID hex string")
from_hex_bad_pair_example =
    from_hex_bad_pair (171 ∷ []) b'4' b'g' (nines 36) (all_bytes_sound (171 ∷ []) refl)
      (omega arith)
      (omega (
        arith,
        length-append (hex_text (171 ∷ [])) (b'4' ∷ b'g' ∷ nines 36),
        length-hex_text (171 ∷ []) (all_bytes_sound (171 ∷ []) refl),
      ))
      bad_pair

from_hex_minus_example :
    from_hex (hex_text (171 ∷ []) ++ b'-' ∷ digit_char 1 ∷ hex_text (replicate 18 9))
    ≡ ok (record { raw = 171 ∷ [] ++ (256 - 1) % 256 ∷ replicate 18 9 })
from_hex_minus_example =
    from_hex_minus (171 ∷ []) (replicate 18 9) 1 (all_bytes_sound (171 ∷ []) refl)
      (all_bytes_sound (replicate 18 9) refl) refl (omega arith)

conversions_example :
    ((c : Kind) × (from_string (codes "blob") ≡ ok c) × IsWord c.raw × (to_string c ≡ codes "blob"))
    × (from_string (to_string back) ≡ ok back)
conversions_example =
    conversions (codes "blob") back refl (all_bytes_sound (codes "blob") refl) (omega arith)

less-memcmp_example : cdump.Kind.less back blob ≡ is_lt (memcmp (textual back) (textual blob))
less-memcmp_example = less-memcmp back blob (omega arith) (omega arith)
