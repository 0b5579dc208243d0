-- ===== src/Index.antt =====
-- src/index.hh and src/index.cc: the index of one pool file, `FileIndex`.
pub mod Search
pub mod Tops
pub mod Keys
pub mod Save
pub mod Kinds
pub mod Blocks
pub mod Passes
pub mod Find
pub mod RoundTrip
pub mod Few
pub mod Strict
pub mod Drawn
pub mod Refound
pub mod Saved
pub mod Insert
pub mod Reloaded
pub mod Load
use cdump.Prelude.{
  ℕ, zero, suc, ◌+◌, ◌-◌, ◌/◌, ◌%◌, ◌^◌, Bool, true, false, not, Option, none, some, List, [], ◌∷◌,
  ◌++◌, Outcome, ok, throw, undefined, ◌>>=◌, length, get_elem?, get_or, map, Ordering, ltb, leb,
  ◌==◌, if◌then◌else◌,
}
use cdump.Kind.{Kind}
use cdump.Oid.{Oid, cmp, less, equals, peek_first}

pub record Node : Type 0 where
  pub offset : ℕ
  pub kind : Kind

-- `value_type`
abbrev pub Entry : Type 0
Entry = Oid × Node

-- `FileData`: what was loaded from a file.
pub record FileData : Type 0 where
  pub tops : List ℕ
  pub hashes : List Oid
  pub offsets : List ℕ
  pub kind_map : List Kind
  pub kinds : List ℕ

abbrev pub no_data : FileData
no_data = record { tops = []; hashes = []; offsets = []; kind_map = []; kinds = [] }

-- `ram`, an `unordered_map`, is a list of its entries in the order of its iteration.
pub record FileIndex : Type 0 where
  pub ram : List Entry
  pub fdata : FileData

abbrev pub new_index : FileIndex
new_index = record { ram = []; fdata = no_data }

-- `ram.find(key)`
unfoldable pub ram_find : Oid → List Entry → Option Entry
ram_find key [] = none
ram_find key (e ∷ es) = if equals e.0 key then some e else ram_find key es

-- `ram.insert(value)`: an entry with that key stays as it is.
unfoldable pub ram_insert : Entry → List Entry → List Entry
ram_insert e ram = elim (ram_find e.0 ram) [ some old ↦ ram | none ↦ e ∷ ram ]

unfoldable pub insert : Entry → FileIndex → FileIndex
insert e index = record index { ram = ram_insert e index.ram }

-- `vec[i]`; past the end it is undefined.
unfoldable pub at {ℓ} : {A : Type ℓ} → List A → ℕ → Outcome A
at xs i = elim (get_elem? xs i) [ none ↦ undefined | some x ↦ ok x ]

-- An `int` is its 32-bit pattern; `a >= b` on such patterns.
unfoldable pub signed_le : ℕ → ℕ → Bool
signed_le b a = leb ((b + 2 ^ 31) % 2 ^ 32) ((a + 2 ^ 31) % 2 ^ 32)

-- `a - b` and `a + b` on 32 bits.
abbrev pub sub32 : ℕ → ℕ → ℕ
sub32 a b = (a + 2 ^ 32 - b) % 2 ^ 32

abbrev pub add32 : ℕ → ℕ → ℕ
add32 a b = (a + b) % 2 ^ 32

-- `low + ((high - low) / 2)`, for `high >= low`.
abbrev pub middle : ℕ → ℕ → ℕ
middle low high = add32 low (sub32 high low / 2)

-- The row at `mid`, when its hash is the key.
unfoldable pub row : FileData → Oid → ℕ → Outcome (Option Entry)
unfolding at
row f key mid = do
  offset ← at f.offsets mid
  k ← at f.kinds mid
  kind ← at f.kind_map k
  ok (some (key, record { offset = offset; kind = kind }))

-- The `while` loop of `FileData::find`, on fuel.
unfoldable pub search : FileData → Oid → ℕ → ℕ → ℕ → Outcome (Option Entry)
unfolding at
search f key zero low high = undefined
search f key (suc fuel) low high = if not (signed_le low high) then ok none else (do
  h ← at f.hashes (middle low high)
  elim (cmp key h) [
    | Ordering.lt ↦ search f key fuel low (sub32 (middle low high) 1)
    | Ordering.gt ↦ search f key fuel (add32 (middle low high) 1) high
    | Ordering.eq ↦ row f key (middle low high)
  ])

-- `FileData::find`. The range at least halves in a round, so 33 rounds are enough.
unfoldable pub find_data : FileData → Oid → Outcome (Option Entry)
unfolding at
find_data f key = if not (length f.tops == 256) then ok none else (do
  let first = peek_first key
  low ← if ltb 0 first then at f.tops (first - 1) else ok 0
  top ← at f.tops first
  search f key 33 low (sub32 top 1))

-- `FileIndex::find`; `none` is `end()`.
unfoldable pub find : FileIndex → Oid → Outcome (Option Entry)
find index key = elim (ram_find key index.ram) [
  | none ↦ find_data index.fdata key
  | some e ↦ ok (some e)
]

-- `append_keys`, behind the keys that are there.
unfoldable pub append_keys : FileData → List Oid → List Oid
append_keys f keys = keys ++ f.hashes

-- `FileData::size()`
unfoldable pub data_size : FileData → ℕ
data_size f = length f.hashes

-- `std::sort` by `operator<`.
unfoldable pub sorted_insert : Oid → List Oid → List Oid
sorted_insert k [] = k ∷ []
sorted_insert k (j ∷ js) = if less j k then j ∷ sorted_insert k js else k ∷ j ∷ js

unfoldable pub sort : List Oid → List Oid
unfolding sorted_insert
sort [] = []
sort (k ∷ ks) = sorted_insert k (sort ks)

-- The keys of `SortedIterator`.
unfoldable pub sorted_keys : FileIndex → List Oid
unfolding sort append_keys
sorted_keys index = sort (append_keys index.fdata (map (λ e. e.0) index.ram))

-- `*it`: what `parent->find` points to, and a null dereference if it found nothing.
unfoldable pub deref : FileIndex → Oid → Outcome Entry
deref index key = do r ← find index key; elim r [ none ↦ undefined | some e ↦ ok e ]
