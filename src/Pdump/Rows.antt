-- ===== src/Pdump/Rows.antt =====
-- The rows of a dump.
use cdump.Prelude.{
  ℕ, zero, suc, ◌+◌, ◌*◌, ◌/◌, ◌%◌, ◌≡◌, ◌⊎◌, inl, inr, refl, ap, ◌∙◌, Bool-cases, false, List,
  arith, length, ◌==◌,
}
use cdump.Pdump.{Row, empty_row, add, gap, dump_loop, ending, dump}

-- A round at the start of a row prints nothing if it is the last.
last_round :
    (block : List ℕ) (rounds pos : ℕ) (row : Row)
    → (pos + rounds) % 16 ≡ 0
    → dump_loop block (suc rounds) pos row ≡ dump_loop block rounds pos row
unfolding dump_loop
last_round block zero pos row h = rw (unshipped pos h) refl
  where
    unshipped : (pos : ℕ) → (pos + 0) % 16 ≡ 0 → (pos % 16 == 15) ≡ false
    unshipped pos h = ground arith
last_round block (suc rounds) pos row h =
    rw
      (
        last_round block rounds (pos + 1) empty_row (omega (arith, h)),
        last_round block rounds (pos + 1) (gap pos (add block pos row)) (omega (arith, h)),
      )
      refl

-- The mask -15 in place of ~15 makes no difference: `dump` prints what its loop prints when it ends
-- at the length of the block rounded up to a whole row. The counter of the model does not wrap, as
-- that of the code does not for a block of fewer than 2 ^ 32 - 16 bytes.
pub dump-rows :
    (block : List ℕ) → dump block ≡ dump_loop block ((length block + 15) / 16 * 16) 0 empty_row
unfolding dump ending
dump-rows block = elim (parity (length block + 15)) [
  | inl even ↦ rw even (ap (λ n. dump_loop block n 0 empty_row) (omega arith))
  | inr odd ↦ rw odd (
      ap (λ n. dump_loop block n 0 empty_row) (one_more ((length block + 15) / 16 * 16))
      ∙ last_round block ((length block + 15) / 16 * 16) 0 empty_row (omega arith))
]
  where
    one_more : (n : ℕ) → n + 1 ≡ suc n
    one_more n = omega arith

    parity : (n : ℕ) → (n % 2 ≡ 0) ⊎ (n % 2 ≡ 1)
    parity n = elim (Bool-cases (n % 2 == 0)) [
      | inl h ↦ inl (ground arith)
      | inr h ↦ inr (ground arith)
    ]
