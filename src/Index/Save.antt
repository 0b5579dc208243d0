-- ===== src/Index/Save.antt =====
-- Writing an index: `Saver` of src/index.cc. The machine is little-endian, as is the file.
use cdump.Prelude.{
  ℕ, zero, suc, ◌+◌, ◌%◌, not, ◌&&◌, List, [], ◌∷◌, ◌++◌, Outcome, ok, ◌>>=◌, length, map, codes,
  leb, if◌then◌else◌,
}
use cdump.Bytes.{le_bytes}
use cdump.Kind
use cdump.Kind.{Kind, textual}
use cdump.Oid.{Oid, peek_first}
use cdump.Index.{FileIndex, Entry, deref, sorted_keys}

abbrev pub magic : List ℕ
magic = codes "ldumpidx"

abbrev pub magic_version : ℕ
magic_version = 4

-- `vector_write` of each of the element types.
unfoldable pub write_words : List ℕ → List ℕ
write_words [] = []
write_words (w ∷ ws) = le_bytes 4 w ++ write_words ws

unfoldable pub write_oids : List Oid → List ℕ
write_oids [] = []
write_oids (o ∷ os) = o.raw ++ write_oids os

unfoldable pub write_names : List Kind → List ℕ
write_names [] = []
write_names (k ∷ ks) = textual k ++ write_names ks

-- `Header`
unfoldable pub header : ℕ → List ℕ
header size = magic ++ (le_bytes 4 magic_version ++ le_bytes 4 size)

-- The inner loop of `compute_tops`: the keys that are left, and `num`.
unfoldable pub skip_top : FileIndex → ℕ → List Oid → ℕ → Outcome (List Oid × ℕ)
skip_top index top [] num = ok ([], num)
skip_top index top (k ∷ ks) num =
    let rest = skip_top index top ks (num + 1) in
    (do e ← deref index k; if leb (peek_first e.0) top then rest else ok (k ∷ ks, num))

-- The outer loop, for the `rounds` values of `top` that are left.
unfoldable pub tops_loop : FileIndex → ℕ → ℕ → List Oid → ℕ → Outcome (List ℕ)
tops_loop index zero top ks num = ok []
tops_loop index (suc rounds) top ks num = do
  (ks', num') ← skip_top index top ks num
  rest ← tops_loop index rounds (top + 1) ks' num'
  ok (num' ∷ rest)

unfoldable pub compute_tops : FileIndex → Outcome (List ℕ)
compute_tops index = tops_loop index 256 0 (sorted_keys index) 0

-- `for (const auto& elt : iter)`
unfoldable pub deref_all : FileIndex → List Oid → Outcome (List Entry)
deref_all index [] = ok []
deref_all index (k ∷ ks) = do e ← deref index k; es ← deref_all index ks; ok (e ∷ es)

-- `kinds`, a `std::set<Kind>`, in its order.
unfoldable pub set_insert : Kind → List Kind → List Kind
set_insert k [] = k ∷ []
set_insert k (j ∷ js) =
    if Kind.less k j then k ∷ j ∷ js else if Kind.less j k then j ∷ set_insert k js else j ∷ js

unfoldable pub kind_set : List Entry → List Kind
kind_set [] = []
kind_set (e ∷ es) = set_insert e.1.kind (kind_set es)

-- `kind_map[kind]` of the map that numbers the set from `k` on; a new key reads 0.
unfoldable pub kind_number : Kind → List Kind → ℕ → ℕ
kind_number kind [] k = 0
kind_number kind (j ∷ js) k =
    if not (Kind.less kind j) && not (Kind.less j kind) then k else kind_number kind js (k + 1)

-- `kbytes`: the numbers, as `uint8_t`.
unfoldable pub kind_bytes : List Kind → List Entry → List ℕ
kind_bytes kinds [] = []
kind_bytes kinds (e ∷ es) = kind_number e.1.kind kinds 0 % 256 ∷ kind_bytes kinds es

-- `write_kinds`, for the set that `first_pass` made.
unfoldable pub write_kinds : FileIndex → List Kind → Outcome (List ℕ)
write_kinds index kinds = do
  es ← deref_all index (sorted_keys index)
  ok (le_bytes 4 (length kinds) ++ (write_names kinds ++ kind_bytes kinds es))

-- `first_pass`: the offsets, and the set of kinds.
unfoldable pub first_pass : FileIndex → Outcome (List ℕ × List Kind)
first_pass index = do
  es ← deref_all index (sorted_keys index)
  ok (map (λ (e : Entry). e.1.offset) es, kind_set es)

-- `Saver`'s constructor and `save`: the contents of the file.
unfoldable pub save : FileIndex → ℕ → Outcome (List ℕ)
save index size = do
  tops ← compute_tops index
  (offsets, kinds) ← first_pass index
  tail ← write_kinds index kinds
  ok (
      header size
      ++ (write_words tops ++ (write_oids (sorted_keys index) ++ (write_words offsets ++ tail))))
