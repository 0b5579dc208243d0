-- ===== src/Oid.antt =====
-- src/oid.hh and src/oid.cc: object identifiers. SHA-1 is OpenSSL's and enters as a parameter.
pub mod Laws
pub mod Carry
pub mod Tweak
pub mod Hex
use cdump.Prelude.{
  ℕ, zero, suc, ◌+◌, ◌-◌, ◌*◌, ◌%◌, ◌<◌, ◌≡◌, Bool, true, false, ◌&&◌, not, none, some, List, [],
  ◌∷◌, ◌++◌, Outcome, ok, throw, undefined, invalid_argument, ◌>>=◌, length, take, drop, get_or,
  set, replicate, All, Ordering, ltb, ◌==◌, if◌then◌else◌,
}
use cdump.Bytes.{IsByte, le_value, memcmp}
use cdump.Kind.{Kind, textual}
use cdump.Text.Digits.{put_hex}
use cdump.Text.Scan.{Scan, scan_hex}

abbrev pub hash_length : ℕ
hash_length = 20

abbrev pub textual_length : ℕ
textual_length = 2 * hash_length

pub record Oid : Type 0 where
  pub raw : List ℕ

pub record IsOid (o : Oid) : Type 0 where
  pub size : length o.raw ≡ hash_length
  pub bytes : All IsByte o.raw

-- `OID()`: all zeros.
unfoldable pub zero_oid : Oid
zero_oid = record { raw = replicate hash_length 0 }

-- The constructors that hash. `sha1` is the digest of the concatenation of all updates.
module _ (sha1 : List ℕ → List ℕ) where
  -- `OID(Kind kind, std::string data)`
  unfoldable pub hash_string : Kind → List ℕ → Oid
  unfolding textual
  hash_string kind text = record { raw = sha1 (textual kind ++ text) }

  -- `OID(Kind kind, const void* data, size_t size)`
  unfoldable pub hash_block : Kind → List ℕ → ℕ → Oid
  unfolding textual
  hash_block kind block size = record { raw = sha1 (textual kind ++ take size block) }

-- One round of the loop in `OID(std::string hex)`: the byte at `i`, from the two characters there.
unfoldable pub hex_byte : List ℕ → ℕ → Outcome ℕ
unfolding scan_hex
hex_byte hex i =
    let buf = scan_hex (take 2 (drop (i * 2) hex)) in
    if buf.eof
    then (elim buf.value [ none ↦ undefined | some ch ↦ ok (ch % 256) ])
    else throw (invalid_argument "Invalid hex character in OID hex string")

-- The rounds from `i` on.
unfoldable pub hex_loop : List ℕ → ℕ → ℕ → Outcome (List ℕ)
unfolding hex_byte
hex_loop hex i zero = ok []
hex_loop hex i (suc rounds) = do
  b ← hex_byte hex i
  rest ← hex_loop hex (i + 1) rounds
  ok (b ∷ rest)

-- `OID(std::string hex)`
unfoldable pub from_hex : List ℕ → Outcome Oid
from_hex hex =
    if not (length hex == textual_length)
    then throw (invalid_argument "OID should be 40-character hex string")
    else (do raw ← hex_loop hex 0 hash_length; ok (record { raw = raw }))

unfoldable pub hex_text : List ℕ → List ℕ
unfolding put_hex
hex_text [] = []
hex_text (b ∷ bs) = put_hex 2 b ++ hex_text bs

-- `to_hex()`
unfoldable pub to_hex : Oid → List ℕ
unfolding hex_text
to_hex o = hex_text o.raw

-- `uint8_t tmp = raw[pos] + adjust`, where `adjust` is 1 or -1 as a byte, 1 or 255.
abbrev pub add_byte : ℕ → ℕ → ℕ
add_byte b adjust = (b + adjust) % 256

-- The loop of `tweak` at `pos`.
unfoldable pub tweak_loop : ℕ → ℕ → ℕ → List ℕ → List ℕ
tweak_loop adjust stop zero raw = set raw 0 (add_byte (get_or raw 0 0) adjust)
tweak_loop adjust stop (suc pos) raw =
    let tmp = add_byte (get_or raw (suc pos) 0) adjust in
    let raw' = set raw (suc pos) tmp in
    let next = tweak_loop adjust stop pos raw' in if tmp == stop then next else raw'

unfoldable pub tweak : ℕ → ℕ → Oid → Oid
unfolding tweak_loop
tweak adjust stop o = record { raw = tweak_loop adjust stop (hash_length - 1) o.raw }

-- `operator++` and `operator--`
unfoldable pub increment : Oid → Oid
unfolding tweak
increment o = tweak 1 0 o

unfoldable pub decrement : Oid → Oid
unfolding tweak
decrement o = tweak 255 255 o

-- `cmp`: the sign of the answer.
unfoldable pub cmp : Oid → Oid → Ordering
unfolding memcmp
cmp a b = memcmp a.raw b.raw

-- `operator<`, `operator>`, `operator==`
unfoldable pub less : Oid → Oid → Bool
unfolding memcmp
less a b = elim (memcmp a.raw b.raw) [ Ordering.lt ↦ true | _ ↦ false ]

unfoldable pub greater : Oid → Oid → Bool
unfolding memcmp
greater a b = elim (memcmp a.raw b.raw) [ Ordering.gt ↦ true | _ ↦ false ]

unfoldable pub equals : Oid → Oid → Bool
unfolding memcmp
equals a b = elim (memcmp a.raw b.raw) [ Ordering.eq ↦ true | _ ↦ false ]

-- `peek_first()`
unfoldable pub peek_first : Oid → ℕ
peek_first o = get_or o.raw 0 0

-- `std::hash<OID>`: the first four bytes, as the machine reads them.
unfoldable pub user_hash : Oid → ℕ
unfolding le_value
user_hash o = le_value (take 4 o.raw)
