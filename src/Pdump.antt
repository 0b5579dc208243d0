-- ===== src/Pdump.antt =====
-- src/pdump.cc: the hex dump of a block of bytes, of fewer than 2 ^ 32 - 16 of them.
pub mod Rows
use cdump.Prelude.{
  ℕ, zero, suc, ◌+◌, ◌*◌, ◌-◌, ◌/◌, ◌%◌, Bool, true, false, not, ◌&&◌, List, [], ◌∷◌, ◌++◌, codes,
  length, get_or, leb, ltb, ◌==◌, if◌then◌else◌,
}
use cdump.Text.Digits.{put_hex}

-- `std::isprint` in the C locale.
abbrev pub is_print : ℕ → Bool
is_print c = leb 32 c && leb c 126

-- `hex` and `ascii`, what was written to the two string streams.
pub record Row : Type 0 where
  pub hex : List ℕ
  pub ascii : List ℕ

abbrev pub empty_row : Row
empty_row = record { hex = []; ascii = [] }

-- `Dumper::add`
unfoldable pub add : List ℕ → ℕ → Row → Row
unfolding put_hex
add block pos row =
    if ltb pos (length block)
    then record {
      hex = row.hex ++ (b' ' ∷ put_hex 2 (get_or block pos 0));
      ascii =
          row.ascii
          ++ (if is_print (get_or block pos 0) then get_or block pos 0 ∷ [] else b'.' ∷ []);
    }
    else record { hex = row.hex ++ codes "   "; ascii = row.ascii ++ codes " " }

-- What `Dumper::ship` prints.
unfoldable pub ship : ℕ → Row → List ℕ
unfolding put_hex
ship pos row = put_hex 6 pos ++ (b' ' ∷ row.hex ++ (codes " |" ++ (row.ascii ++ (b'|' ∷ 10 ∷ []))))

-- `hex << ' '` behind the eighth byte.
unfoldable pub gap : ℕ → Row → Row
gap pos row = if pos % 16 == 7 then record row { hex = row.hex ++ codes " " } else row

-- The loop of `Dumper::dump`, for the rounds that are left: what is printed from `pos` on. `pos` is
-- an `unsigned` there, which the model does not wrap: the block has fewer than 2 ^ 32 - 16 bytes.
unfoldable pub dump_loop : List ℕ → ℕ → ℕ → Row → List ℕ
unfolding add ship gap
dump_loop block zero pos row = []
dump_loop block (suc rounds) pos row =
    let next = gap pos (add block pos row) in
    let fresh = dump_loop block rounds (pos + 1) empty_row in
    let same = dump_loop block rounds (pos + 1) next in
    if pos % 16 == 15 then ship (pos / 16 * 16) next ++ fresh else same

-- `(size + 15) & -15`, which leaves the lowest bit as it is.
unfoldable pub ending : ℕ → ℕ
ending size = (size + 15) / 16 * 16 + (size + 15) % 2

-- `dump`
unfoldable pub dump : List ℕ → List ℕ
unfolding dump_loop ending
dump block = dump_loop block (ending (length block)) 0 empty_row
