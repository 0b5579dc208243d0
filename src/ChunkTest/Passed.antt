-- ===== src/ChunkTest/Passed.antt =====
-- The unit test of chunks passes.
use cdump.Prelude.{
  ℕ, ◌+◌, ◌^◌, ◌≤◌, ◌<◌, ◌≡◌, refl, Bool, true, inl, inr, List, [], ◌∷◌, map, length, length-append,
  ok, arith, All, All-map,
}
use cdump.Prelude.Sorting.{IsStrictWeak, IsStdSort, Rises, sorted_unique}
use cdump.Oid.{Oid}
use cdump.Chunk.{Zlib, IsZlib}
use cdump.ChunkTest.{Info, earlier, check_offsets, check_read, add_all, io}
use cdump.ChunkTest.Placed.{tracker, Chain, offsets_loop-passes, read_loop-passes}
use cdump.ChunkTest.Tracked.{IsFit, Tracks, added, add-lem, image_size, add-Tracks}
use cdump.Index.Keys.{Has}
use cdump.Pool.Image.{image_of}
use cdump.Tutil.{build_sizes, sizes_loop, set_insert}
use cdump.Tutil.Sizes.{Ascends, build_sizes_lem}
use cdump.Tutil.Text.{blob, hash, make_random_string-length}
use mathlib.Core.List.Perm

Info_set : IsSet Info
Info_set = hlevel

earlier-IsStrictWeak : IsStrictWeak earlier
unfolding earlier
earlier-IsStrictWeak = record {
  asymmetric = λ a b h. ground arith;
  apart = λ a b c h k. ground arith;
}

abbrev offset_of : Info → ℕ
offset_of i = i.offset

abbrev infos : List (Oid × Info) → List Info
infos = map (λ (e : Oid × Info). e.1)

above_pos :
    (z : Zlib) (buf : List ℕ) (low pos : ℕ) (log : List (Oid × Info))
    → low < pos
    → Chain z buf pos log
    → All (λ i. low < offset_of i) (infos log)
above_pos z buf low pos [] h c = tt
above_pos z buf low pos (e ∷ log) h (o, (n, p, c)) =
    (omega (arith, o, h), above_pos z buf low (pos + n) log (omega arith) c)

Chain-Rises :
    (z : Zlib) (buf : List ℕ) (pos : ℕ) (log : List (Oid × Info))
    → Chain z buf pos log
    → Rises offset_of (infos log)
Chain-Rises z buf pos [] c = tt
Chain-Rises z buf pos (e ∷ log) (o, (n, p, c)) = (
  above_pos z buf e.1.offset (pos + n) log (omega (arith, o, p.written)) c,
  Chain-Rises z buf (pos + n) log c,
)

module _ (sha1 : List ℕ → List ℕ) (z : Zlib) (stale : List ℕ) (frame : length stale ≡ 48)
    (sizes : List ℕ) (sort : (Info → Info → Bool) → List Info → List Info)
    (std : IsStdSort sort) where
  check_offsets-passes :
      (low : ℕ) (stored : List (Oid × Info)) (buf : List ℕ)
      → length buf < 2 ^ 32
      → Tracks sha1 z sizes low stored buf
      → check_offsets stale sort (tracker stored buf) ≡ (true, tracker stored buf)
  unfolding check_offsets earlier
  check_offsets-passes low stored buf small tr =
      rw same (offsets_loop-passes z stale frame buf stored tr.log 0 small tr.chain)
    where
      same : sort earlier (infos stored) ≡ infos tr.log
      same =
          sorted_unique Info_set offset_of (sort earlier (infos stored)) (infos tr.log)
            (Perm.trans (std.permutes earlier (infos stored) earlier-IsStrictWeak)
              (Perm.map (λ (e : Oid × Info). e.1) tr.perm))
            (std.sorts earlier (infos stored) earlier-IsStrictWeak)
            (Chain-Rises z buf 0 tr.log tr.chain)

  check_read-passes :
      (low : ℕ) (stored : List (Oid × Info)) (buf : List ℕ)
      → Tracks sha1 z sizes low stored buf
      → check_read stale (tracker stored buf) ≡ ok (true, tracker stored buf)
  unfolding check_read
  check_read-passes low stored buf tr = read_loop-passes z stale frame buf stored stored tr.placed

-- The bytes that the chunks of the sizes take at most.
abbrev needed : List ℕ → ℕ
needed [] = 0
needed (s ∷ sizes) = s + 64 + needed sizes

module _ (sha1 : List ℕ → List ℕ) (z : Zlib) (beyond sizes : List ℕ) (lawful : IsZlib z)
    (room : 14 ≤ length beyond) (fit : IsFit sha1 z sizes) where
  add_all-passes :
      (rest : List ℕ) (low : ℕ) (stored : List (Oid × Info)) (buf : List ℕ)
      → Ascends rest
      → All (λ s. low ≤ s) rest
      → ((s : ℕ) → Has s rest → Has s sizes)
      → length buf + needed rest < 2 ^ 31
      → Tracks sha1 z sizes low stored buf
      → (stored' : List (Oid × Info)) × (buf' : List ℕ) × (low' : ℕ) × (add_all sha1 z beyond rest
            (tracker stored buf)
          ≡ ok (tracker stored' buf'))
        × (length buf' < 2 ^ 31)
        × Tracks sha1 z sizes low' stored' buf'
  unfolding add_all
  add_all-passes [] low stored buf up above inside space tr =
      (stored, buf, low, refl, omega (arith, space), tr)
  add_all-passes (s ∷ rest) low stored buf (first, up) (le, above) inside space tr =
      let (text, made, _) = make_random_string-length s s in
      let member = inside s (inl refl) in
      let small : s < 2 ^ 31 = omega (arith, space) in
      let (r, compressed) = fit.tries s text member made in
      let fits : length buf < 2 ^ 32 = omega (arith, space) in
      let (_, size) =
        image_size sha1 z beyond sizes lawful room fit s text member made small r compressed stored
          buf fits in
      let (stored', buf', low', added', space', tr') =
        add_all-passes rest (s + 1) _ _ up
          (All-map (λ t. s < t) (λ t. s + 1 ≤ t) rest (λ t h. omega (arith, h)) first)
          (λ t h. inside t (inr h))
          (omega (
            arith,
            space,
            size,
            length-append buf (image_of beyond (hash sha1 text) (blob, text) r),
          ))
          (add-Tracks sha1 z beyond sizes lawful room fit s text member made small r compressed
            stored buf fits low le tr) in
      (
        stored',
        buf',
        low',
        rw
            (add-lem sha1 z beyond sizes lawful room fit s text member made small r compressed
              stored buf fits)
            added',
        space',
        tr',
      )

new_tracker-Tracks :
    (sha1 : List ℕ → List ℕ) (z : Zlib) (sizes : List ℕ) → Tracks sha1 z sizes 0 [] []
new_tracker-Tracks sha1 z sizes = record {
  log = [];
  chain = refl;
  perm = Perm.rfl;
  placed = tt;
  texts = tt;
}

from_zero : (sizes : List ℕ) → All (λ s. 0 ≤ s) sizes
from_zero [] = tt
from_zero (s ∷ sizes) = (omega arith, from_zero sizes)

needed-build_sizes : needed build_sizes < 2 ^ 31
unfolding build_sizes sizes_loop set_insert
needed-build_sizes = omega arith

-- Let zlib keep its manual's promises and have no error but a lack of space on the test's texts, let digests
-- have 20 bytes and differ for different texts of the test (IsFit), 14 bytes lie behind the array `padding`,
-- the header be read to 48 bytes of memory, and `std::sort` keep its promise. Then the whole test `IO` ends,
-- and every assertion in it holds: the chunks of all sizes that it writes one behind the other to a stream
-- have their headers where the sizes stored in the headers before say, up to the stream's end, and each is
-- read back with its kind.
pub io-passes :
    (sha1 : List ℕ → List ℕ) (z : Zlib) (beyond stale : List ℕ)
    (sort : (Info → Info → Bool) → List Info → List Info)
    → IsZlib z
    → IsFit sha1 z build_sizes
    → 14 ≤ length beyond
    → length stale ≡ 48
    → IsStdSort sort
    → io sha1 z beyond stale sort ≡ ok true
unfolding io
io-passes sha1 z beyond stale sort lawful fit room frame std =
    let (stored, buf, low, added, space, tr) =
      add_all-passes sha1 z beyond build_sizes lawful room fit build_sizes 0 [] []
        (build_sizes_lem 0).0 (from_zero build_sizes) (λ s h. h) (omega (arith, needed-build_sizes))
        (new_tracker-Tracks sha1 z build_sizes) in
    rw
      (
        added,
        check_offsets-passes sha1 z stale frame build_sizes sort std low stored buf
            (omega (arith, space)) tr,
        check_read-passes sha1 z stale frame build_sizes sort std low stored buf tr,
      )
      refl
