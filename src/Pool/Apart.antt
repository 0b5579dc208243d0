-- ===== src/Pool/Apart.antt =====
-- The names of a pool's files differ: data files from one another, and index files from data files.
use cdump.Prelude.{
  ℕ, ◌+◌, ◌<◌, ◌≡◌, ◌≢◌, refl, sym, ap, ◌∙◌, some, some-injective, List, ◌++◌, arith, codes, length,
  length-append, lt→ltb,
}
use cdump.Pool.Files.{construct_name, data_name, index_name}
use cdump.Pool.Names.{decode_name, decode_name-construct_name, four_digits}

pub decode_name-data : (pos : ℕ) → pos < 10000 → decode_name (data_name pos) ≡ some pos
decode_name-data pos h = decode_name-construct_name pos ∙ rw (lt→ltb pos 10000 h) refl

pub data_apart : (p q : ℕ) → p < 10000 → q < 10000 → p ≢ q → data_name p ≢ data_name q
data_apart p q hp hq h e =
    h (some-injective p q (sym (decode_name-data p hp) ∙ ap decode_name e ∙ decode_name-data q hq))

pub length-name :
    (pos : ℕ) (extension : List ℕ)
    → pos < 10000
    → length (construct_name pos extension) ≡ 14 + length extension
unfolding construct_name
length-name pos extension h = rw (four_digits pos h) (omega arith)

pub index_apart : (p q : ℕ) → p < 10000 → q < 10000 → index_name p ≢ data_name q
index_apart p q hp hq e =
    omega (arith, ap length e, length-name p (codes ".idx") hp, length-name q (codes ".data") hq)

pub tmp_apart : (p q : ℕ) → p < 10000 → q < 10000 → index_name p ++ codes ".tmp" ≢ data_name q
tmp_apart p q hp hq e = omega (
  arith,
  ap length e,
  length-append (index_name p) (codes ".tmp"),
  length-name p (codes ".idx") hp,
  length-name q (codes ".data") hq,
)
