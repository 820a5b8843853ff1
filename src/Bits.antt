-- ===== src/Bits.antt =====
-- Laws of `^`, `&` with a low mask, and shifts, at variables: what the checksum of util/bech32.go
-- computes with. A shift by `k` is `*` or `/` by `2 ^ k`.
mod Step
pub mod Append
use Step.{xor_step, and_step}
use Prim.Native.Nat.{bit_and, bit_xor}
use native.Mathlib.Nat.{pow-suc, one-le-pow, div-add-mod', mod-lt}
use dashcash_wallet.Prelude.{
  ℕ, zero, suc, ◌+◌, ◌-◌, ◌*◌, ◌/◌, ◌%◌, ◌^◌, ◌≤◌, ◌<◌, ◌≡◌, refl, sym, ap, ◌∙◌, arith,
}

-- Each law goes from the halves to the numbers, so it recurs on a bound.
xor-zero_below : (n a : ℕ) → a ≤ n → bit_xor a 0 ≡ a
xor-zero_below n zero h = omega (arith, xor_step 0 0)
xor-zero_below zero (suc a) h = absurd (omega arith)
xor-zero_below (suc n) (suc a) h =
    omega (arith, xor_step (suc a) 0, xor-zero_below n (suc a / 2) (omega arith))

pub xor-zero : (a : ℕ) → bit_xor a 0 ≡ a
xor-zero a = xor-zero_below a a (omega arith)

xor_comm_below : (n a b : ℕ) → a ≤ n → b ≤ n → bit_xor a b ≡ bit_xor b a
xor_comm_below zero zero zero h k = refl
xor_comm_below zero zero (suc b) h k = absurd (omega arith)
xor_comm_below zero (suc a) b h k = absurd (omega arith)
xor_comm_below (suc n) a b h k = omega (
  arith,
  xor_step a b,
  xor_step b a,
  xor_comm_below n (a / 2) (b / 2) (omega arith) (omega arith),
)

pub xor_comm : (a b : ℕ) → bit_xor a b ≡ bit_xor b a
xor_comm a b = xor_comm_below (a + b) a b (omega arith) (omega arith)

pub zero-xor : (a : ℕ) → bit_xor 0 a ≡ a
zero-xor a = omega (arith, xor_comm 0 a, xor-zero a)

xor_halves : (a b : ℕ) → bit_xor a b / 2 ≡ bit_xor (a / 2) (b / 2)
xor_halves a b = omega (arith, xor_step a b)

xor_parity : (a b : ℕ) → bit_xor a b % 2 ≡ (a % 2 + b % 2) % 2
xor_parity a b = omega (arith, xor_step a b)

xor_assoc_below :
    (n a b c : ℕ) → a ≤ n → b ≤ n → c ≤ n → bit_xor (bit_xor a b) c ≡ bit_xor a (bit_xor b c)
xor_assoc_below zero zero zero zero h k l = refl
xor_assoc_below zero zero zero (suc c) h k l = absurd (omega arith)
xor_assoc_below zero zero (suc b) c h k l = absurd (omega arith)
xor_assoc_below zero (suc a) b c h k l = absurd (omega arith)
xor_assoc_below (suc n) a b c h k l =
    let left : bit_xor (bit_xor a b) c / 2 ≡ bit_xor (bit_xor (a / 2) (b / 2)) (c / 2) =
      rw (xor_halves (bit_xor a b) c, xor_halves a b) in
    let right : bit_xor a (bit_xor b c) / 2 ≡ bit_xor (a / 2) (bit_xor (b / 2) (c / 2)) =
      rw (xor_halves a (bit_xor b c), xor_halves b c) in
    omega (
      arith,
      left,
      right,
      xor_parity (bit_xor a b) c,
      xor_parity a (bit_xor b c),
      xor_parity a b,
      xor_parity b c,
      xor_assoc_below n (a / 2) (b / 2) (c / 2) (omega arith) (omega arith) (omega arith),
    )

pub xor_assoc : (a b c : ℕ) → bit_xor (bit_xor a b) c ≡ bit_xor a (bit_xor b c)
xor_assoc a b c = xor_assoc_below (a + b + c) a b c (omega arith) (omega arith) (omega arith)

xor_self_below : (n a : ℕ) → a ≤ n → bit_xor a a ≡ 0
xor_self_below n zero h = refl
xor_self_below zero (suc a) h = absurd (omega arith)
xor_self_below (suc n) (suc a) h =
    omega (arith, xor_step (suc a) (suc a), xor_self_below n (suc a / 2) (omega arith))

pub xor_self : (a : ℕ) → bit_xor a a ≡ 0
xor_self a = xor_self_below a a (omega arith)

mul-two_pow-suc : (q k : ℕ) → q * 2 ^ suc k ≡ 2 * (q * 2 ^ k)
mul-two_pow-suc q k = omega (arith, ap (λ (t : ℕ). q * t) (pow-suc 2 k))

pub xor-lt : (k a b : ℕ) → a < 2 ^ k → b < 2 ^ k → bit_xor a b < 2 ^ k
xor-lt zero zero zero h l = omega (arith, xor_self 0)
xor-lt zero zero (suc b) h l = absurd (omega arith)
xor-lt zero (suc a) b h l = absurd (omega arith)
xor-lt (suc k) a b h l =
    let two : 2 ^ suc k ≡ 2 * 2 ^ k = omega (arith, pow-suc 2 k) in
    omega (arith, xor_step a b, xor-lt k (a / 2) (b / 2) (omega arith) (omega arith))

-- Above and below bit `k` the operation works on its own.
pub xor_fields :
    (k p q r s : ℕ)
    → r < 2 ^ k
    → s < 2 ^ k
    → bit_xor (p * 2 ^ k + r) (q * 2 ^ k + s) ≡ bit_xor p q * 2 ^ k + bit_xor r s
xor_fields zero p q zero zero h l =
    let e : p * 1 + 0 ≡ p = omega arith in
    let f : q * 1 + 0 ≡ q = omega arith in rw (e, f) (omega (arith, xor_self 0))
xor_fields zero p q zero (suc s) h l = absurd (omega arith)
xor_fields zero p q (suc r) s h l = absurd (omega arith)
xor_fields (suc k) p q r s h l =
    let two : 2 ^ suc k ≡ 2 * 2 ^ k = omega (arith, pow-suc 2 k) in
    let left : (p * 2 ^ suc k + r) / 2 ≡ p * 2 ^ k + r / 2 = omega (arith, mul-two_pow-suc p k) in
    let right : (q * 2 ^ suc k + s) / 2 ≡ q * 2 ^ k + s / 2 = omega (arith, mul-two_pow-suc q k) in
    let high : bit_xor ((p * 2 ^ suc k + r) / 2) ((q * 2 ^ suc k + s) / 2)
        ≡ bit_xor p q * 2 ^ k + bit_xor (r / 2) (s / 2) =
      rw (left, right) (xor_fields k p q (r / 2) (s / 2) (omega arith) (omega arith)) in
    omega (
      arith,
      xor_step (p * 2 ^ suc k + r) (q * 2 ^ suc k + s),
      high,
      xor_step r s,
      mul-two_pow-suc p k,
      mul-two_pow-suc q k,
      mul-two_pow-suc (bit_xor p q) k,
    )

-- The cases where one field is zero.
pub xor_low :
    (k p r s : ℕ) → r < 2 ^ k → s < 2 ^ k → bit_xor (p * 2 ^ k + r) s ≡ p * 2 ^ k + bit_xor r s
xor_low k p r s h l =
    let e : 0 * 2 ^ k + s ≡ s = omega arith in
    ap (bit_xor (p * 2 ^ k + r)) (sym e)
    ∙ xor_fields k p 0 r s h l
    ∙ ap (λ n. n * 2 ^ k + bit_xor r s) (xor-zero p)

pub xor_append : (k p s : ℕ) → s < 2 ^ k → bit_xor (p * 2 ^ k) s ≡ p * 2 ^ k + s
xor_append k p s l =
    let e : p * 2 ^ k + 0 ≡ p * 2 ^ k = omega arith in
    ap (λ n. bit_xor n s) (sym e)
    ∙ xor_low k p 0 s (one-le-pow k 2 (omega arith)) l
    ∙ ap (λ n. p * 2 ^ k + n) (zero-xor s)

pub xor_high :
    (k p q s : ℕ) → s < 2 ^ k → bit_xor (p * 2 ^ k) (q * 2 ^ k + s) ≡ bit_xor p q * 2 ^ k + s
xor_high k p q s l =
    let e : p * 2 ^ k + 0 ≡ p * 2 ^ k = omega arith in
    ap (λ n. bit_xor n (q * 2 ^ k + s)) (sym e)
    ∙ xor_fields k p q 0 s (one-le-pow k 2 (omega arith)) l
    ∙ ap (λ n. bit_xor p q * 2 ^ k + n) (zero-xor s)

and-zero_below : (n a : ℕ) → a ≤ n → bit_and a 0 ≡ 0
and-zero_below n zero h = omega (arith, and_step 0 0)
and-zero_below zero (suc a) h = absurd (omega arith)
and-zero_below (suc n) (suc a) h =
    omega (arith, and_step (suc a) 0, and-zero_below n (suc a / 2) (omega arith))

and_low : (k q r : ℕ) → r < 2 ^ k → bit_and (q * 2 ^ k + r) (2 ^ k - 1) ≡ r
and_low zero q zero h = omega (arith, and-zero_below (q * 1 + 0) (q * 1 + 0) (omega arith))
and_low zero q (suc r) h = absurd (omega arith)
and_low (suc k) q r h =
    let two : 2 ^ suc k ≡ 2 * 2 ^ k = omega (arith, pow-suc 2 k) in
    let one : 1 ≤ 2 ^ k = one-le-pow k 2 (omega arith) in
    let half : (2 ^ suc k - 1) / 2 ≡ 2 ^ k - 1 = omega arith in
    let left : (q * 2 ^ suc k + r) / 2 ≡ q * 2 ^ k + r / 2 = omega (arith, mul-two_pow-suc q k) in
    let high : bit_and ((q * 2 ^ suc k + r) / 2) ((2 ^ suc k - 1) / 2) ≡ r / 2 =
      rw (left, half) (and_low k q (r / 2) (omega arith)) in
    omega (arith, and_step (q * 2 ^ suc k + r) (2 ^ suc k - 1), high, mul-two_pow-suc q k)

-- A mask of `k` ones takes the remainder by `2 ^ k`.
pub and_mask : (k a : ℕ) → bit_and a (2 ^ k - 1) ≡ a % 2 ^ k
and_mask k a =
    let one : 1 ≤ 2 ^ k = one-le-pow k 2 (omega arith) in
    let split : a / 2 ^ k * 2 ^ k + a % 2 ^ k ≡ a = div-add-mod' a (2 ^ k) in
    ap (λ n. bit_and n (2 ^ k - 1)) (sym split) ∙ and_low k (a / 2 ^ k) (a % 2 ^ k) (mod-lt a one)
