-- ===== src/Pool/Fresh.antt =====
-- A pool that was just made is opened as a pool without files.
use cdump.Prelude.{
  ℕ, ◌≤◌, ◌<◌, ◌≡◌, refl, Bool, true, false, Option, some, List, [], ◌∷◌, Outcome, ok, arith, ltb,
  leb,
}
use cdump.Chunk.{Zlib}
use cdump.Pool.Files.{Dir, put, lookup, same_name}
use cdump.Pool.Locks.{LockFile, open_lock}
use cdump.Pool.Names.{decode_name}
use cdump.Pool.Open.{
  Parsed, limit_lower_bound, limit_upper_bound, props_name, props_text, is_nil, create_pool,
  read_props, find_pool_files, scan_loop, scan_files, open_pool,
}
use cdump.Pool.Run.{empty_pool, empty_pool-Represents}
use cdump.Pool.View.{nothing, Represents}

-- The directory that `create_pool` leaves.
abbrev pub made_dir : List ℕ → ℕ → Bool → Dir
made_dir uuid limit newlib = (props_name, props_text uuid limit newlib) ∷ []

create_pool-made :
    (uuid : List ℕ) (limit : ℕ) (newlib : Bool)
    → limit_lower_bound ≤ limit
    → limit < limit_upper_bound
    → create_pool true true uuid [] limit newlib ≡ ok (made_dir uuid limit newlib)
unfolding create_pool put
create_pool-made uuid limit newlib low high = rw (not_below, not_above) refl
  where
    not_below : ltb limit limit_lower_bound ≡ false
    not_below = ground arith

    not_above : leb limit_upper_bound limit ≡ false
    not_above = ground arith

props_there : (text : List ℕ) → lookup props_name ((props_name, text) ∷ []) ≡ some text
unfolding lookup same_name
props_there text = refl

-- `to_string` and `parse` are Boost's: the text of an identifier of 16 bytes, and the reading of
-- the three options of a properties file. Let the limit be in the range that `create_pool` takes,
-- the generated identifier not be zero, the lock be taken, and the parser find in the file that
-- `create_pool` writes, where the identifier stands as a text, that identifier's bytes, the mode
-- and the limit. Then `create_pool` in an empty directory ends, and opening the directory for
-- writing ends in a pool without files, with the limit and the mode that were asked for, which
-- represents the empty map.
pub open_pool-create_pool :
    (z : Zlib) (to_string : List ℕ → List ℕ) (parse : Option (List ℕ) → Outcome Parsed)
    (opened : Bool) (fd res : ℕ) (id : List ℕ) (limit : ℕ) (newlib : Bool) (l : LockFile)
    → limit_lower_bound ≤ limit
    → limit < limit_upper_bound
    → is_nil id ≡ false
    → open_lock opened fd res ≡ ok l
    → parse (some (props_text (to_string id) limit newlib))
      ≡ ok (record { uuid = some id; newfile = some newlib; limit = some limit })
    → (dir : Dir) × (create_pool true true (to_string id) [] limit newlib ≡ ok dir)
      × (open_pool parse opened fd res dir true ≡ ok (empty_pool dir limit newlib))
      × Represents z (empty_pool dir limit newlib) nothing
unfolding open_pool read_props scan_files scan_loop find_pool_files decode_name
open_pool-create_pool z to_string parse opened fd res id limit newlib l low high set locked parsed =
    (
      made_dir (to_string id) limit newlib,
      create_pool-made (to_string id) limit newlib low high,
      rw (locked, props_there (props_text (to_string id) limit newlib), parsed, set) refl,
      empty_pool-Represents z (made_dir (to_string id) limit newlib) limit newlib (omega arith),
    )
