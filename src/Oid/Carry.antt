-- ===== src/Oid/Carry.antt =====
-- The loop of `tweak` carries and borrows from byte to byte.
use cdump.Prelude.{
  ℕ, zero, suc, ◌+◌, ◌-◌, ◌*◌, ◌%◌, ◌^◌, ◌<◌, ◌≤◌, ◌≡◌, refl, ap, sym, inl, inr, Bool-cases, ltb,
  ◌∙◌, List, [], ◌∷◌, arith, length, get_or, set, All, ◌==◌,
}
use native.Mathlib.Nat.{pow-suc, mod-eq_of_lt, add-mod_right, le-mul_of_pos_right, one-le-pow}
use cdump.Bytes.{IsByte, be_value, be_value-lt, get_or-IsByte}
use cdump.Oid.{add_byte, tweak_loop}

pub length-set : (xs : List ℕ) (i v : ℕ) → length (set xs i v) ≡ length xs
length-set [] i v = refl
length-set (x ∷ xs) zero v = refl
length-set (x ∷ xs) (suc i) v = ap suc (length-set xs i v)

pub set-IsByte : (xs : List ℕ) (i v : ℕ) → v < 256 → All IsByte xs → All IsByte (set xs i v)
set-IsByte [] i v h p = p
set-IsByte (x ∷ xs) zero v h p = (h, p.1)
set-IsByte (x ∷ xs) (suc i) v h p = (p.0, set-IsByte xs i v h p.1)

cancel : (a b : ℕ) → a * 256 ≡ b * 256 → a ≡ b
cancel a b h = omega arith

weight_tail : (i w n : ℕ) → w * 256 ^ suc (suc i) ≡ 256 ^ suc n → w * 256 ^ suc i ≡ 256 ^ n
weight_tail i w n e = omega (arith, e, ap (λ (t : ℕ). w * t) (pow-suc 256 (suc i)), pow-suc 256 n)

weight_up : (i w k : ℕ) → w * 256 ^ suc (suc i) ≡ k → w * 256 * 256 ^ suc i ≡ k
weight_up i w k e = omega (arith, e, ap (λ (t : ℕ). w * t) (pow-suc 256 (suc i)))

-- `w` is the weight of the byte at `i`: writing there moves the number by a multiple of it.
be_value-set :
    (xs : List ℕ) (i v w : ℕ)
    → i < length xs
    → w * 256 ^ suc i ≡ 256 ^ length xs
    → be_value (set xs i v) + get_or xs i 0 * w ≡ be_value xs + v * w
unfolding be_value
be_value-set [] i v w h e = absurd (omega arith)
be_value-set (x ∷ xs) zero v w h e =
    rw (cancel w (256 ^ length xs) (e ∙ pow-suc 256 (length xs))) (omega arith)
be_value-set (x ∷ xs) (suc i) v w h e =
    rw (length-set xs i v)
      (omega (arith, be_value-set xs i v w (omega arith) (weight_tail i w (length xs) e)))

-- The new byte `v` at weight `w` in place of `x`, and what the whole number becomes.
up_stop : (n m x v w k : ℕ) → n + x * w ≡ m + v * w → v ≡ x + 1 → n < k → n ≡ (m + w) % k
up_stop n m x v w k e ev h =
    let step : m + w ≡ n = omega (arith, ap (λ (t : ℕ). t * w) ev) in rw step (sym (mod-eq_of_lt h))

up_wrap :
    (n m x v w k : ℕ)
    → n + x * w ≡ m + v * w
    → x ≡ 255
    → v ≡ 0
    → w * 256 ≡ k
    → n < k
    → n ≡ (m + w) % k
up_wrap n m x v w k e ex ev ek h =
    let step : m + w ≡ n + k = omega (arith, ap (λ (t : ℕ). t * w) ev, ap (λ (t : ℕ). t * w) ex) in
    rw step (grind arith)

up_carry :
    (r n m x v w k : ℕ)
    → n + x * w ≡ m + v * w
    → x ≡ 255
    → v ≡ 0
    → r ≡ (n + w * 256) % k
    → r ≡ (m + w) % k
up_carry r n m x v w k e ex ev er =
    let step : n + w * 256 ≡ m + w =
      omega (arith, ap (λ (t : ℕ). t * w) ev, ap (λ (t : ℕ). t * w) ex) in
    er ∙ ap (λ (t : ℕ). t % k) step

set-lt : (xs : List ℕ) (i v : ℕ) → All IsByte xs → v < 256 → be_value (set xs i v) < 256 ^ length xs
set-lt xs i v p h = rw (length-set xs i v) at (be_value-lt (set xs i v) (set-IsByte xs i v h p))

-- A carry into the byte of weight `w` adds `w`, modulo the range of all bytes.
pub tweak_loop-up :
    (pos w : ℕ) (xs : List ℕ)
    → All IsByte xs
    → pos < length xs
    → w * 256 ^ suc pos ≡ 256 ^ length xs
    → be_value (tweak_loop 1 0 pos xs) ≡ (be_value xs + w) % 256 ^ length xs
unfolding tweak_loop
tweak_loop-up zero w xs p h e = elim (Bool-cases (ltb (get_or xs 0 0) 255)) [
  | inl stop ↦ up_stop _ _ x _ w _ written (ground arith) bound
  | inr wrap ↦
      up_wrap _ _ x _ w _ written (ground (arith, get_or-IsByte xs 0 p))
        (ground (arith, get_or-IsByte xs 0 p)) (omega arith) bound
]
  where
    x : ℕ
    x = get_or xs 0 0

    written : be_value (set xs 0 (add_byte x 1)) + x * w ≡ be_value xs + add_byte x 1 * w
    written = be_value-set xs 0 (add_byte x 1) w h e

    bound : be_value (set xs 0 (add_byte x 1)) < 256 ^ length xs
    bound = set-lt xs 0 (add_byte x 1) p (omega arith)
tweak_loop-up (suc pos) w xs p h e = elim (Bool-cases (add_byte x 1 == 0)) [
  | inl carry ↦ rw carry (
      up_carry _ _ _ x _ w _ written (ground (arith, get_or-IsByte xs (suc pos) p)) (ground arith) (
        rw (length-set xs (suc pos) (add_byte x 1)) at (
          tweak_loop-up pos (w * 256) (set xs (suc pos) (add_byte x 1))
            (set-IsByte xs (suc pos) (add_byte x 1) (omega arith) p) (rw length-set (omega arith))
            (rw length-set (weight_up pos w _ e)))))
  | inr stop ↦
      rw stop (up_stop _ _ x _ w _ written (ground (arith, get_or-IsByte xs (suc pos) p)) bound)
]
  where
    x : ℕ
    x = get_or xs (suc pos) 0

    written : be_value (set xs (suc pos) (add_byte x 1)) + x * w ≡ be_value xs + add_byte x 1 * w
    written = be_value-set xs (suc pos) (add_byte x 1) w h e

    bound : be_value (set xs (suc pos) (add_byte x 1)) < 256 ^ length xs
    bound = set-lt xs (suc pos) (add_byte x 1) p (omega arith)

down_stop :
    (n m x v w d k : ℕ) → n + x * w ≡ m + v * w → x ≡ v + 1 → d + w ≡ k → n < k → n ≡ (m + d) % k
down_stop n m x v w d k e ex ed h =
    let step : m + d ≡ n + k = omega (arith, ap (λ (t : ℕ). t * w) ex) in
    rw step (sym (add-mod_right n k ∙ mod-eq_of_lt h))

down_wrap :
    (n m x v w d k : ℕ)
    → n + x * w ≡ m + v * w
    → x ≡ 0
    → v ≡ 255
    → d + w ≡ k
    → w * 256 ≡ k
    → n < k
    → n ≡ (m + d) % k
down_wrap n m x v w d k e ex ev ed ek h =
    let step : m + d ≡ n = omega (arith, ap (λ (t : ℕ). t * w) ex, ap (λ (t : ℕ). t * w) ev) in
    rw step (sym (mod-eq_of_lt h))

down_carry :
    (r n m x v w d c k : ℕ)
    → n + x * w ≡ m + v * w
    → x ≡ 0
    → v ≡ 255
    → d + w ≡ k
    → c + w * 256 ≡ k
    → r ≡ (n + c) % k
    → r ≡ (m + d) % k
down_carry r n m x v w d c k e ex ev ed ec er =
    let step : n + c ≡ m + d = omega (arith, ap (λ (t : ℕ). t * w) ex, ap (λ (t : ℕ). t * w) ev) in
    er ∙ ap (λ (t : ℕ). t % k) step

weight_le : (i w k : ℕ) → w * 256 ^ suc i ≡ k → w ≤ k
weight_le i w k e = rw e at (le-mul_of_pos_right w (one-le-pow (suc i) 256 (omega arith)))

-- A borrow from the byte of weight `w` takes `w` away, modulo the range of all bytes.
pub tweak_loop-down :
    (pos w d : ℕ) (xs : List ℕ)
    → All IsByte xs
    → pos < length xs
    → w * 256 ^ suc pos ≡ 256 ^ length xs
    → d + w ≡ 256 ^ length xs
    → be_value (tweak_loop 255 255 pos xs) ≡ (be_value xs + d) % 256 ^ length xs
unfolding tweak_loop
tweak_loop-down zero w d xs p h e ed = elim (Bool-cases (ltb 0 (get_or xs 0 0))) [
  | inl stop ↦ down_stop _ _ x _ w d _ written (ground (arith, get_or-IsByte xs 0 p)) ed bound
  | inr wrap ↦ down_wrap _ _ x _ w d _ written (ground arith) (ground arith) ed (omega arith) bound
]
  where
    x : ℕ
    x = get_or xs 0 0

    written : be_value (set xs 0 (add_byte x 255)) + x * w ≡ be_value xs + add_byte x 255 * w
    written = be_value-set xs 0 (add_byte x 255) w h e

    bound : be_value (set xs 0 (add_byte x 255)) < 256 ^ length xs
    bound = set-lt xs 0 (add_byte x 255) p (omega arith)
tweak_loop-down (suc pos) w d xs p h e ed = elim (Bool-cases (add_byte x 255 == 255)) [
  | inl borrow ↦ rw borrow (
      down_carry _ _ _ x _ w d c _ written (ground (arith, get_or-IsByte xs (suc pos) p))
        (ground arith) ed lower
        (rw (length-set xs (suc pos) (add_byte x 255)) at (
          tweak_loop-down pos (w * 256) c (set xs (suc pos) (add_byte x 255))
            (set-IsByte xs (suc pos) (add_byte x 255) (omega arith) p) (rw length-set (omega arith))
            (rw length-set up) (rw length-set lower))))
  | inr stop ↦
      rw stop
        (down_stop _ _ x _ w d _ written (ground (arith, get_or-IsByte xs (suc pos) p)) ed bound)
]
  where
    x : ℕ
    x = get_or xs (suc pos) 0

    c : ℕ
    c = 256 ^ length xs - w * 256

    up : w * 256 * 256 ^ suc pos ≡ 256 ^ length xs
    up = weight_up pos w _ e

    lower : c + w * 256 ≡ 256 ^ length xs
    lower = omega (arith, weight_le pos (w * 256) _ up)

    written :
        be_value (set xs (suc pos) (add_byte x 255)) + x * w ≡ be_value xs + add_byte x 255 * w
    written = be_value-set xs (suc pos) (add_byte x 255) w h e

    bound : be_value (set xs (suc pos) (add_byte x 255)) < 256 ^ length xs
    bound = set-lt xs (suc pos) (add_byte x 255) p (omega arith)
