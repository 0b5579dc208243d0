-- ===== src/Oid/Tweak.antt =====
-- `operator++` and `operator--` count in the 160-bit numbers, modulo 256 ^ 20.
use cdump.Prelude.{
  ℕ, zero, suc, ◌+◌, ◌-◌, ◌%◌, ◌^◌, ◌<◌, ◌≡◌, refl, ◌∙◌, List, arith, length, get_or, set, All,
}
use cdump.Bytes.{IsByte, be_value-lt}
use cdump.Oid.{Oid, IsOid, add_byte, tweak_loop, tweak, increment, decrement}
use cdump.Oid.Laws.{number, number_injective}
use cdump.Oid.Carry.{length-set, set-IsByte, tweak_loop-up, tweak_loop-down}

-- The loop keeps the shape.
tweak_loop-IsOid :
    (adjust stop pos : ℕ) (xs : List ℕ)
    → All IsByte xs
    → (length (tweak_loop adjust stop pos xs) ≡ length xs)
      × All IsByte (tweak_loop adjust stop pos xs)
unfolding tweak_loop
tweak_loop-IsOid adjust stop zero xs p = (length-set xs 0 _, set-IsByte xs 0 _ (omega arith) p)
tweak_loop-IsOid adjust stop (suc pos) xs p =
    let tmp = add_byte (get_or xs (suc pos) 0) adjust in
    ground (
      arith,
      length-set xs (suc pos) tmp,
      set-IsByte xs (suc pos) tmp,
      tweak_loop-IsOid adjust stop pos (set xs (suc pos) tmp),
    )

pub tweak-IsOid : (adjust stop : ℕ) (o : Oid) → IsOid o → IsOid (tweak adjust stop o)
unfolding tweak
tweak-IsOid adjust stop o v =
    let (size, bytes) = tweak_loop-IsOid adjust stop 19 o.raw v.bytes in
    record { size = size ∙ v.size; bytes = bytes }

-- On an identifier of 20 bytes `++` adds one to the 160-bit number and `--` takes one away, modulo
-- 256 ^ 20; both give an identifier of 20 bytes again.
pub number-tweak :
    (o : Oid)
    → IsOid o
    → IsOid (increment o)
      × IsOid (decrement o)
      × (number (increment o) ≡ (number o + 1) % 256 ^ 20)
      × (number (decrement o) ≡ (number o + (256 ^ 20 - 1)) % 256 ^ 20)
unfolding increment decrement tweak
number-tweak o v = (
  tweak-IsOid 1 0 o v,
  tweak-IsOid 255 255 o v,
  rw v.size at (tweak_loop-up 19 1 o.raw v.bytes (omega (arith, v.size)) (rw v.size refl)),
  rw v.size at (
      tweak_loop-down 19 1 (256 ^ 20 - 1) o.raw v.bytes (omega (arith, v.size)) (rw v.size refl)
        (rw v.size refl)),
)

number-lt : (o : Oid) → IsOid o → number o < 256 ^ 20
number-lt o v = rw v.size at (be_value-lt o.raw v.bytes)

-- On an identifier of 20 bytes `--` undoes `++`, and `++` undoes `--`.
pub decrement-increment :
    (o : Oid) → IsOid o → (decrement (increment o) ≡ o) × (increment (decrement o) ≡ o)
decrement-increment o v =
    let (up, down, e, f) = number-tweak o v in
    let (_, du, _, g) = number-tweak (increment o) up in
    let (ud, _, h, _) = number-tweak (decrement o) down in
    (
      number_injective _ o du v (omega (arith, e, g, number-lt o v)),
      number_injective _ o ud v (omega (arith, f, h, number-lt o v)),
    )
