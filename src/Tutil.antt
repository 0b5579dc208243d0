-- ===== src/Tutil.antt =====
-- test/tutil.cc and test/tutil.hh: the data that the unit tests and their pools are made of.
pub mod Sizes
pub mod Text
pub mod Tmpdir
use cdump.Prelude.{
  ℕ, zero, suc, ◌+◌, ◌*◌, ◌-◌, ◌%◌, ◌^◌, Bool, Option, none, some, List, [], ◌∷◌, ◌++◌, codes,
  length, take, replicate, get_or, map, Outcome, ok, throw, runtime_error, ltb, ◌==◌, if◌then◌else◌,
}
use cdump.Bytes.{le_bytes}
use cdump.Kind.{Kind, load_kind}
use cdump.Oid.{Oid, hash_block}
use cdump.Chunk.{PlainChunk, new_plain}
use cdump.Text.Digits.{digits}

-- `SimpleRandom::next`: the number, and the state afterwards.
unfoldable pub next : ℕ → ℕ → ℕ × ℕ
next limit state =
    let state = ((state * 1103515245) % 2 ^ 32 + 12345) % 2 ^ 32 % 2 ^ 27 in (state % limit, state)

abbrev pub word_list : List (List ℕ)
word_list =
    codes "the"
    ∷ codes "be"
    ∷ codes "to"
    ∷ codes "of"
    ∷ codes "and"
    ∷ codes "a"
    ∷ codes "in"
    ∷ codes "that"
    ∷ codes "have"
    ∷ codes "I"
    ∷ codes "it"
    ∷ codes "for"
    ∷ codes "not"
    ∷ codes "on"
    ∷ codes "with"
    ∷ codes "he"
    ∷ codes "as"
    ∷ codes "you"
    ∷ codes "do"
    ∷ codes "at"
    ∷ codes "this"
    ∷ codes "but"
    ∷ codes "his"
    ∷ codes "by"
    ∷ codes "from"
    ∷ codes "they"
    ∷ codes "we"
    ∷ codes "say"
    ∷ codes "her"
    ∷ codes "she"
    ∷ codes "or"
    ∷ codes "an"
    ∷ codes "will"
    ∷ codes "my"
    ∷ codes "one"
    ∷ codes "all"
    ∷ codes "would"
    ∷ codes "there"
    ∷ codes "their"
    ∷ codes "what"
    ∷ codes "so"
    ∷ codes "up"
    ∷ codes "out"
    ∷ codes "if"
    ∷ codes "about"
    ∷ codes "who"
    ∷ codes "get"
    ∷ codes "which"
    ∷ codes "go"
    ∷ codes "me"
    ∷ codes "when"
    ∷ codes "make"
    ∷ codes "can"
    ∷ codes "like"
    ∷ codes "time"
    ∷ codes "no"
    ∷ codes "just"
    ∷ codes "him"
    ∷ codes "know"
    ∷ codes "take"
    ∷ codes "person"
    ∷ codes "into"
    ∷ codes "year"
    ∷ codes "your"
    ∷ codes "good"
    ∷ codes "some"
    ∷ codes "could"
    ∷ codes "them"
    ∷ codes "see"
    ∷ codes "other"
    ∷ codes "than"
    ∷ codes "then"
    ∷ codes "now"
    ∷ codes "look"
    ∷ codes "only"
    ∷ codes "come"
    ∷ codes "its"
    ∷ codes "over"
    ∷ codes "think"
    ∷ codes "also"
    ∷ []

-- The loop of `make_random_string`, on fuel; `none` stands for a loop that has run out of it.
unfoldable pub random_loop : ℕ → ℕ → ℕ → List ℕ → Option (List ℕ)
unfolding next
random_loop zero size state result = if ltb (length result) size then none else some result
random_loop (suc fuel) size state result =
    let (choice, after) = next (length word_list) state in
    let rest = random_loop fuel size after (result ++ (b' ' ∷ get_or word_list choice [])) in
    if ltb (length result) size then rest else some result

-- `buf.resize(size)`
unfoldable pub resize : ℕ → List ℕ → List ℕ
resize size buf = take size buf ++ replicate (size - length buf) 0

-- `make_random_string`. A round writes a character at the least, so `size` rounds are enough.
unfoldable pub make_random_string : ℕ → ℕ → Option (List ℕ)
unfolding random_loop resize digits
make_random_string size index =
    elim (random_loop size size index (digits 10 32 index ++ (b'-' ∷ digits 10 32 size))) [
      | none ↦ none
      | some buf ↦ some (resize size buf)
    ]

-- `int_oid`, of the 32-bit pattern of an `int`.
unfoldable pub int_oid : (List ℕ → List ℕ) → ℕ → Oid
unfolding hash_block le_bytes
int_oid sha1 index = hash_block sha1 (load_kind (codes "blob")) (le_bytes 4 index) 4

-- `make_random_chunk`
unfoldable pub make_random_chunk : (List ℕ → List ℕ) → ℕ → ℕ → Option PlainChunk
unfolding make_random_string new_plain
make_random_chunk sha1 size index = elim (make_random_string size index) [
  | none ↦ none
  | some buf ↦ some (new_plain sha1 (load_kind (codes "blob")) buf (length buf))
]

-- `result.insert` of a `std::set`, kept in ascending order.
unfoldable pub set_insert : ℕ → List ℕ → List ℕ
set_insert x [] = x ∷ []
set_insert x (y ∷ ys) =
    let later = set_insert x ys in
    if ltb x y then x ∷ y ∷ ys else if x == y then y ∷ ys else y ∷ later

-- The rounds of `build_sizes` from `i` on; no `bit` is 0.
unfoldable pub sizes_loop : ℕ → ℕ → List ℕ → List ℕ
unfolding set_insert
sizes_loop zero i result = result
sizes_loop (suc rounds) i result =
    sizes_loop rounds (i + 1)
      (set_insert (2 ^ i + 1) (set_insert (2 ^ i) (set_insert (2 ^ i - 1) result)))

-- `build_sizes`
unfoldable pub build_sizes : List ℕ
unfolding sizes_loop
build_sizes = sizes_loop 19 0 []

-- The name of a temporary directory, from ten numbers of `std::random_device`.
unfoldable pub tmp_name : List ℕ → List ℕ
tmp_name numbers = codes "/var/tmp/test-" ++ map (λ n. n % 26 + b'a') numbers

-- The rounds of `Tmpdir::SetUp` from `i` on: `random i` are the numbers of the round, and `create` is what
-- `create_directory` answers for a name.
unfoldable pub set_up_loop : (ℕ → List ℕ) → (List ℕ → Bool) → ℕ → ℕ → Outcome (List ℕ)
unfolding tmp_name
set_up_loop random create zero i = throw (runtime_error "Unable to make tmp dir for test")
set_up_loop random create (suc rounds) i =
    let later = set_up_loop random create rounds (i + 1) in
    if create (tmp_name (random i)) then ok (tmp_name (random i)) else later

-- `Tmpdir::SetUp`: the path of the directory.
unfoldable pub set_up : (ℕ → List ℕ) → (List ℕ → Bool) → Outcome (List ℕ)
unfolding set_up_loop
set_up random create = set_up_loop random create 5 0
