-- ===== src/Bits/Append.antt =====
-- `|` of a number shifted to the left and one that fits below it, where it is `+`.
use Prim.Native.Nat.{bit_or, max}
use native.Mathlib.Nat.{pow-suc}
use dashcash_wallet.Bits.Step.{or_step}
use dashcash_wallet.Prelude.{ℕ, zero, suc, ◌+◌, ◌*◌, ◌/◌, ◌%◌, ◌^◌, ◌≤◌, ◌<◌, ◌≡◌, ap, arith}

or-zero_below : (n a : ℕ) → a ≤ n → bit_or a 0 ≡ a
or-zero_below n zero h = omega (arith, or_step 0 0)
or-zero_below zero (suc a) h = absurd (omega arith)
or-zero_below (suc n) (suc a) h =
    omega (arith, or_step (suc a) 0, or-zero_below n (suc a / 2) (omega arith))

pub or_append : (k p s : ℕ) → s < 2 ^ k → bit_or (p * 2 ^ k) s ≡ p * 2 ^ k + s
or_append zero p zero h = omega (arith, or-zero_below (p * 1) (p * 1) (omega arith))
or_append zero p (suc s) h = absurd (omega arith)
or_append (suc k) p s h =
    let two : 2 ^ suc k ≡ 2 * 2 ^ k = omega (arith, pow-suc 2 k) in
    let double : p * 2 ^ suc k ≡ 2 * (p * 2 ^ k) = omega (arith, ap (λ (t : ℕ). p * t) two) in
    let half : p * 2 ^ suc k / 2 ≡ p * 2 ^ k = omega (arith, double) in
    let even : p * 2 ^ suc k % 2 ≡ 0 = omega (arith, double) in
    let high : bit_or (p * 2 ^ suc k / 2) (s / 2) ≡ p * 2 ^ k + s / 2 =
      rw half (or_append k p (s / 2) (omega arith)) in
    let low : max (p * 2 ^ suc k % 2) (s % 2) ≡ s % 2 = rw even (omega arith) in
    omega (arith, or_step (p * 2 ^ suc k) s, high, low, double)
