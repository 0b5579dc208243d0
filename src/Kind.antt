-- ===== src/Kind.antt =====
-- src/kind.hh and src/kind.cc: the four-character kind of a chunk. The machine is little-endian.
pub mod Laws
use cdump.Prelude.{
  ℕ, suc, ◌+◌, ◌*◌, ◌/◌, ◌%◌, ◌^◌, Bool, Option, none, some, List, [], ◌∷◌, Outcome, ok, throw,
  invalid_argument, ◌>>◌, length, take, ltb, ◌==◌, if◌then◌else◌,
}
use cdump.Bytes.{le_bytes, le_value}

-- The union of `uint32_t raw` and `char textual[4]`.
pub record Kind : Type 0 where
  pub raw : ℕ

-- The member `textual` of the union.
unfoldable pub textual : Kind → List ℕ
unfolding le_bytes
textual k = le_bytes 4 k.raw

-- `strlen` of an array, which is given without its last NUL.
unfoldable pub strlen : List ℕ → ℕ
strlen [] = 0
strlen (c ∷ cs) = if c == 0 then 0 else suc (strlen cs)

-- `kind_check(const char*)`; `none` is the null pointer.
unfoldable pub kind_check_cstr : Option (List ℕ) → Outcome (Unit {0})
unfolding strlen
kind_check_cstr none = throw (invalid_argument "Invalid kind")
kind_check_cstr (some cstr) =
    if strlen cstr == 4 then ok tt else throw (invalid_argument "Invalid kind")

-- `kind_check(const std::string&)`
unfoldable pub kind_check : List ℕ → Outcome (Unit {0})
kind_check str = if length str == 4 then ok tt else throw (invalid_argument "Invalid kind length")

-- `std::memcpy(&raw, …, 4)`
unfoldable pub load_kind : List ℕ → Kind
unfolding le_value
load_kind text = record { raw = le_value (take 4 text) }

-- `Kind(const char*)`
unfoldable pub from_cstr : Option (List ℕ) → Outcome Kind
unfolding kind_check_cstr load_kind
from_cstr none = do kind_check_cstr none; ok (load_kind [])
from_cstr (some cstr) = do kind_check_cstr (some cstr); ok (load_kind cstr)

-- `Kind(const std::string&)`
unfoldable pub from_string : List ℕ → Outcome Kind
unfolding kind_check load_kind
from_string str = do kind_check str; ok (load_kind str)

-- `operator std::string`
unfoldable pub to_string : Kind → List ℕ
unfolding textual
to_string k = textual k

-- `htobe32` on a little-endian machine: the four bytes in the other order.
unfoldable pub htobe32 : ℕ → ℕ
htobe32 x =
    x % 256 * 2 ^ 24 + x / 2 ^ 8 % 256 * 2 ^ 16 + x / 2 ^ 16 % 256 * 2 ^ 8 + x / 2 ^ 24 % 256

-- `operator==`
unfoldable pub equals : Kind → Kind → Bool
equals a b = a.raw == b.raw

-- `operator<`
unfoldable pub less : Kind → Kind → Bool
unfolding htobe32
less a b = ltb (htobe32 a.raw) (htobe32 b.raw)
