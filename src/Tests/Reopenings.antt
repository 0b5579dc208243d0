-- ===== src/Tests/Reopenings.antt =====
-- A session with one chunk is closed and its directory opened again; a pool is made and opened.
use cdump.Prelude.{
  ℕ, ◌+◌, ◌*◌, ◌-◌, ◌/◌, ◌%◌, ◌^◌, ◌≡◌, refl, true, false, Option, none, some, List, [], ◌∷◌, ◌++◌,
  Outcome, ok, throw, invalid_argument, arith, codes, take, drop, get_or, ltb, ◌==◌, if◌then◌else◌,
}
use cdump.Text.Digits.{put_dec, digits, digit_char, pad_left}
use cdump.Pool.{Pool, close}
use cdump.Pool.Files.{Dir, append, put, lookup, same_name, construct_name}
use cdump.Pool.Locks.{LockFile, lock, open_lock}
use cdump.Pool.Names.{decode_name, dec_value}
use cdump.Pool.Open.{
  Parsed, Props, read_props, is_nil, default_limit, find_pool_files, number_insert, props_text,
  create_pool, open_pool,
}
use cdump.Pool.Persist.{open_pool-close}
use cdump.Pool.View.{nothing, Represents}
use cdump.Pool.Fresh.{open_pool-create_pool}
use cdump.Pool.Run.{empty_pool}
use cdump.Tests.Maps.{dir, pool, contents, pool-Represents, index_fits}
use cdump.Tests.Chunks.{toy}

-- A parser that finds the identifier of the pool only.
abbrev pub parse : Option (List ℕ) → Outcome Parsed
parse file = ok (record { uuid = some (1 ∷ []); newfile = none; limit = none })

abbrev pub props : Props
props = record { uuid = 1 ∷ []; newfile = false; limit = default_limit }

pub props_read : read_props parse dir ≡ ok props
unfolding read_props is_nil
props_read = refl

abbrev pub taken : LockFile
taken = record { fd = 3; locked = true }

pub lock_taken : open_lock true 3 0 ≡ ok taken
unfolding open_lock lock
lock_taken = refl

pub one_file : find_pool_files dir ≡ 0 ∷ []
unfolding find_pool_files number_insert decode_name dec_value append put lookup same_name
    construct_name put_dec digits digit_char pad_left
one_file = refl

open_pool-close_example :
    (closed_pool again : Pool) × (close pool ≡ ok closed_pool)
    × (open_pool parse true 3 0 closed_pool.dir true ≡ ok again)
    × Represents toy again contents
    × (again.dirty ≡ false)
    × (again.writable ≡ true)
    × (again.limit ≡ default_limit)
open_pool-close_example =
    open_pool-close toy parse true 3 0 true pool contents taken props pool-Represents index_fits tt
      one_file lock_taken props_read (omega arith)

-- An identifier of 16 bytes, as hexadecimal digits in groups of 8, 4, 4, 4 and 12.
abbrev id : List ℕ
id = 58 ∷ 1 ∷ 170 ∷ 0 ∷ 255 ∷ 16 ∷ 65 ∷ 2 ∷ 128 ∷ 9 ∷ 7 ∷ 99 ∷ 200 ∷ 31 ∷ 13 ∷ 254 ∷ []

abbrev hex : List ℕ → List ℕ
hex [] = []
hex (b ∷ bs) = digit_char (b / 16) ∷ digit_char (b % 16) ∷ hex bs

abbrev uuid_text : List ℕ → List ℕ
uuid_text bs =
    hex (take 4 bs)
    ++ (45 ∷ hex (take 2 (drop 4 bs))
        ++ (45 ∷ hex (take 2 (drop 6 bs))
            ++ (45 ∷ hex (take 2 (drop 8 bs)) ++ (45 ∷ hex (drop 10 bs)))))

uuid_text-id : uuid_text id ≡ codes "3a01aa00-ff10-4102-8009-0763c81f0dfe"
unfolding digit_char
uuid_text-id = refl

-- The value of a hexadecimal digit.
abbrev nibble : ℕ → ℕ
nibble c = if ltb c 97 then c - 48 else c - 87

-- The bytes that a text spells, without its dashes.
abbrev unhex : List ℕ → List ℕ
unhex [] = []
unhex (c ∷ []) = []
unhex (c ∷ d ∷ rest) =
    let tail = unhex rest in
    let skipped = unhex (d ∷ rest) in if c == 45 then skipped else (nibble c * 16 + nibble d) ∷ tail

-- The number in front of the end of a line.
abbrev number : ℕ → List ℕ → ℕ
number n [] = n
number n (c ∷ rest) = let more = number (n * 10 + (c - 48)) rest in if c == 10 then n else more

-- A parser for the four lines of a properties file, each option where `create_pool` writes it.
abbrev parse_lines : Option (List ℕ) → Outcome Parsed
parse_lines none = throw (invalid_argument "no such file")
parse_lines (some file) =
    let mode = drop 86 file in
    let is_new = get_or mode 0 0 == b't' in
    ok (record {
      uuid = some (unhex (take 36 (drop 41 file)));
      newfile = some is_new;
      limit = some (number 0 (drop (if is_new then 11 else 12) mode));
    })

id-parsed :
    parse_lines (some (props_text (uuid_text id) (2 ^ 20) true))
    ≡ ok (record { uuid = some id; newfile = some true; limit = some (2 ^ 20) })
unfolding props_text put_dec digits digit_char pad_left
id-parsed = refl

id_set : is_nil id ≡ false
unfolding is_nil
id_set = refl

open_pool-create_pool_example :
    (made : Dir) × (create_pool true true (uuid_text id) [] (2 ^ 20) true ≡ ok made)
    × (open_pool parse_lines true 3 0 made true ≡ ok (empty_pool made (2 ^ 20) true))
    × Represents toy (empty_pool made (2 ^ 20) true) nothing
open_pool-create_pool_example =
    open_pool-create_pool toy uuid_text parse_lines true 3 0 id (2 ^ 20) true taken (omega arith)
      (omega arith) id_set lock_taken id-parsed
