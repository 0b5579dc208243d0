-- ===== src/Tests/Generated.antt =====
-- The unit test of the index with two numbers and a toy hash.
use cdump.Prelude.{
  ℕ, zero, suc, ◌*◌, ◌<◌, ◌≡◌, refl, ap, true, List, [], ◌∷◌, ◌++◌, ok, arith, take, drop,
  replicate, codes, get_or,
}
use cdump.Bytes.{le_bytes, be_value}
use cdump.Kind.{textual, load_kind}
use cdump.Oid.{Oid, IsOid, hash_block, increment, decrement, tweak, tweak_loop}
use cdump.Oid.Laws.{number}
use cdump.IndexTest.{generate}
use cdump.IndexTest.Passed.{generate-passes}
use cdump.IndexTest.Tracked.{IsSpread}
use cdump.Tests.Values.{oid-IsOid}
use cdump.Tutil.{int_oid}

-- The first byte behind the kind, and a last byte that no neighbour has.
abbrev toy_sha1 : List ℕ → List ℕ
toy_sha1 input = take 1 (drop 4 input) ++ (replicate 18 7 ++ 128 ∷ [])

below_two : (P : ℕ → Type 0) → P 0 → P 1 → (i : ℕ) → i < 2 → P i
below_two P p q zero h = p
below_two P p q (suc zero) h = q
below_two P p q (suc (suc i)) h = absurd (omega arith)

twenty : (i : ℕ) → i < 2 → IsOid (int_oid toy_sha1 i)
unfolding int_oid hash_block le_bytes textual load_kind
twenty =
    below_two _ (oid-IsOid 0 128 (omega arith) (omega arith))
      (oid-IsOid 1 128 (omega arith) (omega arith))

nonzero : (i : ℕ) → i < 2 → 0 < number (int_oid toy_sha1 i)
unfolding int_oid hash_block le_bytes textual load_kind be_value
nonzero = below_two _ (omega arith) (omega arith)

-- The first byte is the number.
first_byte : (i : ℕ) → i < 2 → get_or (int_oid toy_sha1 i).raw 0 0 ≡ i
unfolding int_oid hash_block le_bytes textual load_kind
first_byte = below_two _ refl refl

last_byte : (i : ℕ) → i < 2 → get_or (int_oid toy_sha1 i).raw 19 0 ≡ 128
unfolding int_oid hash_block le_bytes textual load_kind
last_byte = below_two _ refl refl

last_above : (i : ℕ) → i < 2 → get_or (increment (int_oid toy_sha1 i)).raw 19 0 ≡ 129
unfolding int_oid hash_block le_bytes textual load_kind increment tweak tweak_loop
last_above = below_two _ refl refl

last_below : (i : ℕ) → i < 2 → get_or (decrement (int_oid toy_sha1 i)).raw 19 0 ≡ 127
unfolding int_oid hash_block le_bytes textual load_kind decrement tweak tweak_loop
last_below = below_two _ refl refl

toy_sha1-IsSpread : IsSpread toy_sha1 (1 * 2)
toy_sha1-IsSpread = record {
  twenty = twenty;
  nonzero = nonzero;
  apart = λ i j h k e.
      omega (arith, first_byte i h, first_byte j k, ap (λ (o : Oid). get_or o.raw 0 0) e);
  above = λ i j h k e.
      omega (arith, last_above i h, last_byte j k, ap (λ (o : Oid). get_or o.raw 19 0) e);
  below = λ i j h k e.
      omega (arith, last_below i h, last_byte j k, ap (λ (o : Oid). get_or o.raw 19 0) e);
}

generate-passes_example : generate toy_sha1 1 (codes "/var/tmp/test-a") [] ≡ ok true
generate-passes_example =
    generate-passes toy_sha1 1 (codes "/var/tmp/test-a") [] toy_sha1-IsSpread (omega arith)
