-- ===== src/Tutil/Text.antt =====
-- The text of the unit tests has the length that was asked for.
use cdump.Prelude.{
  ℕ, zero, suc, ◌+◌, ◌-◌, ◌≤◌, ◌≡◌, refl, Bool-cases, inl, inr, some, List, [], ◌∷◌, ◌++◌, arith,
  length, length-append, length-replicate, length-take, take, take_all, codes, ltb, get_or,
}
use cdump.Text.Digits.{digits}
use cdump.Chunk.{new_plain, z_untried}
use cdump.Kind.{Kind, load_kind}
use cdump.Oid.{Oid, hash_block}
use cdump.Tutil.{make_random_chunk, next, word_list, random_loop, resize, make_random_string}

-- With a round for every character that is missing, the loop ends with `size` characters at the least.
random_loop-ends :
    (fuel size state : ℕ) (result : List ℕ)
    → size ≤ length result + fuel
    → (buf : List ℕ) × (random_loop fuel size state result ≡ some buf) × (size ≤ length buf)
unfolding random_loop
random_loop-ends zero size state result h = elim (Bool-cases (ltb (length result) size)) [
  | inl e ↦ absurd (ground arith)
  | inr e ↦ (result, rw e refl, ground arith)
]
random_loop-ends (suc fuel) size state result h = elim (Bool-cases (ltb (length result) size)) [
  | inl e ↦
      let (choice, after) = next (length word_list) state in
      let longer = result ++ (b' ' ∷ get_or word_list choice []) in
      rw e (
        random_loop-ends fuel size after longer
          (omega (arith, length-append result (b' ' ∷ get_or word_list choice []), h)))
  | inr e ↦ (result, rw e refl, ground arith)
]

-- For every size and index, `make_random_string` ends, in no more rounds than `size`, and returns a text
-- of exactly `size` characters.
pub make_random_string-length :
    (size index : ℕ)
    → (buf : List ℕ) × (make_random_string size index ≡ some buf) × (length buf ≡ size)
unfolding make_random_string resize
make_random_string-length size index =
    let start = digits 10 32 index ++ (b'-' ∷ digits 10 32 size) in
    let (buf, ended, long) = random_loop-ends size size index start (omega arith) in
    (
      resize size buf,
      rw (make_random_string, ended) refl,
      omega (
        arith,
        length-append (take size buf) _,
        length-take size buf,
        length-replicate {A = ℕ} (size - length buf) 0,
        long,
      ),
    )

abbrev pub blob : Kind
blob = load_kind (codes "blob")

-- The identifier of a text.
abbrev pub hash : (List ℕ → List ℕ) → List ℕ → Oid
hash sha1 text = hash_block sha1 blob text (length text)

-- The chunk of a text, which was not yet compressed.
pub make_random_chunk-untried :
    (sha1 : List ℕ → List ℕ) (size index : ℕ) (text : List ℕ)
    → make_random_string size index ≡ some text
    → make_random_chunk sha1 size index
      ≡ some (record {
        kind = blob;
        oid = hash sha1 text;
        plain_data = text;
        compressed_data = [];
        zdata_info = z_untried;
      })
unfolding make_random_chunk new_plain
make_random_chunk-untried sha1 size index text made =
    rw (make_random_chunk, made, take_all text (length text) refl) refl
