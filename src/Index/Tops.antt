-- ===== src/Index/Tops.antt =====
-- The table `tops`: entry `t` counts the hashes whose first byte is at most `t`. `find` searches
-- between two of its entries.
use cdump.Prelude.{
  ℕ, zero, suc, ◌+◌, ◌-◌, ◌*◌, ◌^◌, ◌≤◌, ◌<◌, ◌≡◌, refl, ap, inl, inr, Bool-cases, Option, some,
  List, [], ◌∷◌, ok, arith, length, get_elem?, get_or, All, some-injective, All-get_elem?,
  get_elem?-lt, ltb, leb, if◌then◌else◌,
}
use cdump.Oid.{Oid, IsOid, peek_first}
use cdump.Oid.Laws.{number}
use cdump.Bytes.{IsByte, be_value, be_value-lt, get_or-IsByte}
use cdump.Index.{FileData, Entry, Node, at, row, find_data}
use cdump.Index.Search.{IsSorted, Answers, at-get_elem?, search-Answers}

unfoldable pub count_le : ℕ → List Oid → ℕ
count_le t [] = 0
count_le t (h ∷ hs) = (if leb (peek_first h) t then 1 else 0) + count_le t hs

top_byte : (x y v u w : ℕ) → u < w → x * w + v ≤ y * w + u → x ≤ y
top_byte x y v u w h e = grind arith

first_le :
    (xs ys : List ℕ)
    → length xs ≡ 20
    → length ys ≡ 20
    → All IsByte ys
    → be_value xs ≤ be_value ys
    → get_or xs 0 0 ≤ get_or ys 0 0
unfolding be_value
first_le [] ys p q b h = absurd (omega arith)
first_le (x ∷ xs) [] p q b h = absurd (omega arith)
first_le (x ∷ xs) (y ∷ ys) p q b h =
    top_byte x y (be_value xs) (be_value ys) (256 ^ 19) (rw same at (be_value-lt ys b.1))
      (rw (weight, same) at h)
  where
    nineteen : length ys ≡ 19
    nineteen = omega arith

    same : 256 ^ length ys ≡ 256 ^ 19
    same = ap (λ n. 256 ^ n) nineteen

    other : length xs ≡ 19
    other = omega arith

    weight : 256 ^ length xs ≡ 256 ^ 19
    weight = ap (λ n. 256 ^ n) other

-- The order of the identifiers is first that of their first bytes.
pub peek_first-le :
    (a b : Oid) → IsOid a → IsOid b → number a ≤ number b → peek_first a ≤ peek_first b
unfolding peek_first
peek_first-le a b p q h = first_le a.raw b.raw p.size q.size q.bytes h

IsSorted-tail : (h : Oid) (hs : List Oid) → IsSorted (h ∷ hs) → IsSorted hs
IsSorted-tail h hs s i j a b le p q = s (suc i) (suc j) a b (omega arith) p q

count_le-zero :
    (t : ℕ) (hs : List Oid)
    → ((j : ℕ) (b : Oid) → get_elem? hs j ≡ some b → t < peek_first b)
    → count_le t hs ≡ 0
unfolding count_le
count_le-zero t [] h = refl
count_le-zero t (b ∷ hs) h = ground (arith, h 0 b refl, count_le-zero t hs (λ j c e. h (suc j) c e))

later :
    (h : Oid) (hs : List Oid)
    → All IsOid (h ∷ hs)
    → IsSorted (h ∷ hs)
    → (j : ℕ) (b : Oid) → get_elem? hs j ≡ some b
    → peek_first h ≤ peek_first b
later h hs p s j b e =
    peek_first-le h b p.0 (All-get_elem? IsOid hs j p.1 e) (s 0 (suc j) h b (omega arith) refl e)

-- In a sorted list the hashes up to first byte `t` stand in front.
pub count_le_bounds :
    (t : ℕ) (hs : List Oid) (i : ℕ) (a : Oid)
    → All IsOid hs
    → IsSorted hs
    → get_elem? hs i ≡ some a
    → (peek_first a ≤ t → i < count_le t hs) × (t < peek_first a → count_le t hs ≤ i)
unfolding count_le
count_le_bounds t [] i a p s e = cc
count_le_bounds t (h ∷ hs) zero a p s e = (
  λ le. ground (arith, ap peek_first same),
  λ over. ground (
    arith,
    ap peek_first same,
    count_le-zero t hs (λ j b eb. omega (arith, later h hs p s j b eb, ap peek_first same)),
  ),
)
  where
    same : h ≡ a
    same = some-injective h a e
count_le_bounds t (h ∷ hs) (suc i) a p s e =
    let (up, down) = count_le_bounds t hs i a p.1 (IsSorted-tail h hs s) e in
    (λ le. ground (arith, up le, later h hs p s i a e), λ over. ground (arith, down over))

count_le_mono : (t u : ℕ) (hs : List Oid) → t ≤ u → count_le t hs ≤ count_le u hs
unfolding count_le
count_le_mono t u [] h = omega arith
count_le_mono t u (b ∷ hs) h = ground (arith, count_le_mono t u hs h)

pub count_le-length : (t : ℕ) (hs : List Oid) → count_le t hs ≤ length hs
unfolding count_le
count_le-length t [] = omega arith
count_le-length t (b ∷ hs) = ground (arith, count_le-length t hs)

-- A loaded index as `load` should leave it.
pub record IsData (f : FileData) : Type 0 where
  pub tops_size : length f.tops ≡ 256
  pub tops_count : (t : ℕ) → t < 256 → get_elem? f.tops t ≡ some (count_le t f.hashes)
  pub small : length f.hashes < 2 ^ 31
  pub sorted : IsSorted f.hashes
  pub oids : All IsOid f.hashes
  pub offsets_size : length f.offsets ≡ length f.hashes
  pub kinds_size : length f.kinds ≡ length f.hashes
  pub kinds_known : All (λ k. k < length f.kind_map) f.kinds

-- What `row` reads at `i`.
pub record IsRow (f : FileData) (i : ℕ) (n : Node) : Type 0 where
  pub number : ℕ
  pub offset_at : get_elem? f.offsets i ≡ some n.offset
  pub number_at : get_elem? f.kinds i ≡ some number
  pub kind_at : get_elem? f.kind_map number ≡ some n.kind

pub row-IsRow :
    (f : FileData) (key : Oid) (i : ℕ) (n : Node) → IsRow f i n → row f key i ≡ ok (some (key, n))
unfolding row
row-IsRow f key i n r =
    rw
      (
        at-get_elem? f.offsets i r.offset_at,
        at-get_elem? f.kinds i r.number_at,
        at-get_elem? f.kind_map r.number r.kind_at,
      )
      refl

pub IsData-IsRow :
    (f : FileData) → IsData f → (i : ℕ) → i < length f.hashes → (n : Node) × IsRow f i n
IsData-IsRow f v i h =
    let (offset, eo) = get_elem?-lt f.offsets i (omega (arith, v.offsets_size)) in
    let (k, ek) = get_elem?-lt f.kinds i (omega (arith, v.kinds_size)) in
    let (kind, ea) =
      get_elem?-lt f.kind_map k
        (All-get_elem? (λ k. k < length f.kind_map) f.kinds i v.kinds_known ek) in
    (
      record { offset = offset; kind = kind },
      record { number = k; offset_at = eo; number_at = ek; kind_at = ea },
    )

row_lem :
    (f : FileData)
    → IsData f
    → (key : Oid) (i : ℕ) → i < length f.hashes
    → (e : Entry) × (row f key i ≡ ok (some e))
row_lem f v key i h = let (n, r) = IsData-IsRow f v i h in ((key, n), row-IsRow f key i n r)

-- Where the search starts.
low_count : ℕ → List Oid → ℕ
low_count first hs = if ltb 0 first then count_le (first - 1) hs else 0

low_lem :
    (f : FileData) (first : ℕ)
    → IsData f
    → first < 256
    → (if ltb 0 first then at f.tops (first - 1) else ok 0) ≡ ok (low_count first f.hashes)
unfolding low_count
low_lem f first v h = elim (Bool-cases (ltb 0 first)) [
  | inl some' ↦
      rw (some', at-get_elem? f.tops (first - 1) (v.tops_count (first - 1) (omega arith))) refl
  | inr zero' ↦ rw zero' refl
]

low_count-le : (first : ℕ) (hs : List Oid) → low_count first hs ≤ count_le first hs
unfolding low_count
low_count-le first hs = ground (arith, count_le_mono (first - 1) first hs)

-- A row whose hash is the key lies between the two entries.
key_between :
    (f : FileData) (key : Oid)
    → IsData f
    → (i : ℕ) → get_elem? f.hashes i ≡ some key
    → (low_count (peek_first key) f.hashes ≤ i) × (i < count_le (peek_first key) f.hashes)
unfolding low_count
key_between f key v i e =
    let (_, down) = count_le_bounds (peek_first key - 1) f.hashes i key v.oids v.sorted e in
    let (up, _) = count_le_bounds (peek_first key) f.hashes i key v.oids v.sorted e in
    (ground (arith, down), up (omega arith))

-- On a well-formed loaded index the binary search for an identifier of 20 bytes ends and its answer is
-- right: a row with that hash, or none when no row has it.
pub find_data-Answers :
    (f : FileData) (key : Oid)
    → IsData f
    → IsOid key
    → (r : Option Entry) × (find_data f key ≡ ok r) × Answers f key r
unfolding find_data
find_data-Answers f key v good =
    rw
      (
        v.tops_size,
        low_lem f (peek_first key) v byte,
        at-get_elem? f.tops (peek_first key) (v.tops_count (peek_first key) byte),
      )
      (search-Answers f key v.small v.sorted v.oids good (row_lem f v key) 32
        (low_count (peek_first key) f.hashes) (count_le (peek_first key) f.hashes)
        (low_count-le (peek_first key) f.hashes) (count_le-length (peek_first key) f.hashes)
        (omega (arith, count_le-length (peek_first key) f.hashes, v.small)) (key_between f key v))
  where
    byte : peek_first key < 256
    byte = unfold peek_first in get_or-IsByte key.raw 0 good.bytes
