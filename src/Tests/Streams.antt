-- ===== src/Tests/Streams.antt =====
-- The unit test of chunks with the toy zlib, and a toy hash of the length.
use cdump.Prelude.{
  ℕ, ◌+◌, ◌<◌, ◌^◌, ◌≡◌, refl, sym, ap, subst, ◌∙◌, Bool, true, ◌&&◌, Bool-cases, inl, inr, Option,
  none, some, some-injective, List, [], ◌∷◌, ok, arith, length, length-append, take_all, ltb, leb,
}
use cdump.Bytes.{le_bytes, le_value, length-le_bytes, le_bytes-IsByte, le_value-le_bytes}
use cdump.Kind.{textual, load_kind}
use cdump.Oid.{Oid, IsOid, hash_block}
use cdump.Chunk.{try_compress}
use cdump.ChunkTest.{io}
use cdump.ChunkTest.Passed.{io-passes}
use cdump.ChunkTest.Tracked.{IsFit, length-text}
use cdump.Index.Keys.{Has}
use cdump.Tests.Chunks.{toy, toy-IsZlib, stale, beyond}
use cdump.Tests.Sorting.{insertion_sort, insertion_sort-IsStdSort}
use cdump.Tutil.Text.{blob, hash}
use cdump.Tutil.{build_sizes, sizes_loop, set_insert, make_random_string}

-- The length of what is hashed.
abbrev pub toy_sha1 : List ℕ → List ℕ
toy_sha1 input = le_bytes 20 (length input)

hash-toy : (text : List ℕ) → hash toy_sha1 text ≡ record { raw = le_bytes 20 (4 + length text) }
unfolding hash_block textual load_kind
hash-toy text =
    ap (λ n. record { raw = le_bytes 20 n })
      (length-append (le_bytes 4 blob.raw) _
        ∙ ap (λ l. 4 + length l) (take_all text (length text) refl))

pub twenty : (text : List ℕ) → IsOid (hash toy_sha1 text)
twenty text = subst IsOid (sym (hash-toy text)) (record {
  size = length-le_bytes 20 (4 + length text);
  bytes = le_bytes-IsByte 20 (4 + length text);
})

abbrev all_small : List ℕ → Bool
all_small [] = true
all_small (s ∷ sizes) = ltb s (2 ^ 20) && all_small sizes

all_small-get : (sizes : List ℕ) (s : ℕ) → all_small sizes ≡ true → Has s sizes → s < 2 ^ 20
all_small-get [] s h m = absurd m
all_small-get (t ∷ sizes) s h (inl e) = ground (arith, e, h)
all_small-get (t ∷ sizes) s h (inr m) = all_small-get sizes s (ground (arith, h)) m

sizes_small : all_small build_sizes ≡ true
unfolding build_sizes sizes_loop set_insert
sizes_small = refl

tries : (text : List ℕ) → (r : Option (List ℕ)) × (try_compress toy text ≡ ok r)
unfolding try_compress
tries text = elim (Bool-cases (ltb (length text) 16)) [
  | inl short ↦ (none, rw (try_compress, short) refl)
  | inr long ↦ (some text, rw (try_compress, long, same) refl)
]
  where
    same : leb (length text) (length text) ≡ true
    same = ground arith

toy-IsFit : IsFit toy_sha1 toy build_sizes
toy-IsFit = record {
  twenty = twenty;
  apart = λ s t a b there here made built same.
      let small = all_small-get build_sizes s sizes_small there in
      let low = all_small-get build_sizes t sizes_small here in
      let one = length-text s a made in
      let two = length-text t b built in
      let values : le_value (le_bytes 20 (4 + length a)) ≡ le_value (le_bytes 20 (4 + length b)) =
        ap (λ (o : Oid). le_value o.raw) (sym (hash-toy a) ∙ same ∙ hash-toy b) in
      let e : s ≡ t = omega (
        arith,
        one,
        two,
        values,
        small,
        low,
        le_value-le_bytes 20 (4 + length a) (omega (arith, one, small)),
        le_value-le_bytes 20 (4 + length b) (omega (arith, two, low)),
      ) in
      some-injective a b (sym made ∙ ap (λ n. make_random_string n n) e ∙ built);
  tries = λ s text there made. tries text;
}

io-passes_example : io toy_sha1 toy beyond stale insertion_sort ≡ ok true
io-passes_example =
    io-passes toy_sha1 toy beyond stale insertion_sort toy-IsZlib toy-IsFit (omega arith) refl
      insertion_sort-IsStdSort
