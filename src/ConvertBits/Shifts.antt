-- ===== src/ConvertBits/Shifts.antt =====
-- Shifts of a byte that holds `e + q` bits at its upper end, for `ConvertBits` of util/bech32.go.
use native.Mathlib.Nat.{
  add-mul, div-add-mod', div-eq_of_lt, div-lt_iff_lt-mul, mod-lt, mod-eq_of_lt, mul-add-div_right,
  mul-add-mod_self_right, mul-div-mul_right, mul-le-mul_right, mul-lt-mul_of_pos_right, mul_assoc,
  mul_comm, one-le-pow, pow-suc,
}
use dashcash_wallet.Prelude.{
  ℕ, zero, suc, ◌+◌, ◌-◌, ◌*◌, ◌/◌, ◌%◌, ◌^◌, ◌≤◌, ◌<◌, ◌≡◌, sym, ap, ◌∙◌, arith,
}

pub power : {a b : ℕ} → a ≡ b → 2 ^ a ≡ 2 ^ b
power h = ap (λ n. 2 ^ n) h

pub pow_add : (a b : ℕ) → 2 ^ (a + b) ≡ 2 ^ a * 2 ^ b
pow_add zero b = let shorter : 2 ^ (0 + b) ≡ 2 ^ b = power (omega arith) in omega (arith, shorter)
pow_add (suc a) b =
    let longer : 2 ^ (suc a + b) ≡ 2 ^ suc (a + b) = power (omega arith) in
    let double : 2 ^ suc a * 2 ^ b ≡ 2 * (2 ^ a * 2 ^ b) =
      ap (λ n. n * 2 ^ b) (pow-suc 2 a ∙ mul_comm (2 ^ a) 2) ∙ mul_assoc 2 (2 ^ a) (2 ^ b) in
    omega (arith, longer, double, pow-suc 2 (a + b), pow_add a b)

pub pow_pos : (a : ℕ) → 1 ≤ 2 ^ a
pow_pos a = one-le-pow a 2 (omega arith)

-- `e` bits and then `q` bits behind a number are `e + q` bits behind it.
pub append_twice : (e q n v l : ℕ) → (n * 2 ^ e + v) * 2 ^ q + l ≡ n * 2 ^ (e + q) + (v * 2 ^ q + l)
append_twice e q n v l = omega (
  arith,
  add-mul (n * 2 ^ e) v (2 ^ q),
  mul_assoc n (2 ^ e) (2 ^ q),
  ap (λ (t : ℕ). n * t) (pow_add e q),
)

pub append-lt : (e q v l : ℕ) → v < 2 ^ e → l < 2 ^ q → v * 2 ^ q + l < 2 ^ (e + q)
append-lt e q v l h k =
    let room : suc v * 2 ^ q ≤ 2 ^ e * 2 ^ q = mul-le-mul_right (2 ^ q) (omega arith) in
    let next : suc v * 2 ^ q ≡ v * 2 ^ q + 2 ^ q =
      ap (λ n. n * 2 ^ q) (omega arith) ∙ add-mul v 1 (2 ^ q) ∙ omega arith in
    omega (arith, room, next, pow_add e q)

-- A quotient and a remainder are those of their number only.
pub quotient_unique : (k a b x y : ℕ) → x < k → y < k → a * k + x ≡ b * k + y → (a ≡ b) × (x ≡ y)
quotient_unique k a b x y h i e =
    let positive : 1 ≤ k = omega (arith, h) in
    let part : (n l : ℕ) → l < k → (n * k + l) % k ≡ l =
      λ n l j. mul-add-mod_self_right n k l ∙ mod-eq_of_lt j in
    let quotient : (n l : ℕ) → l < k → (n * k + l) / k ≡ n = λ n l j.
      mul-add-div_right {m = k} positive n l ∙ ap (λ m. n + m) (div-eq_of_lt j) ∙ omega arith in
    (
      sym (quotient a x h) ∙ ap (λ n. n / k) e ∙ quotient b y i,
      sym (part a x h) ∙ ap (λ n. n % k) e ∙ part b y i,
    )

module _ (e q d x : ℕ) (whole : e + q + d ≡ 8) where
  pub top_bits : x * 2 ^ d / 2 ^ (8 - e) ≡ x / 2 ^ q
  top_bits =
      let split : 2 ^ (8 - e) ≡ 2 ^ q * 2 ^ d = power (omega arith) ∙ pow_add q d in
      rw split (mul-div-mul_right x (2 ^ q) (pow_pos d))

  pub top_bits-lt : x < 2 ^ (e + q) → x / 2 ^ q < 2 ^ e
  top_bits-lt h =
      (div-lt_iff_lt-mul {k = 2 ^ q} {x = x} {y = 2 ^ e} (pow_pos q)).1
        (omega (arith, h, pow_add e q))

  pub low_bits : x * 2 ^ d * 2 ^ e % 256 ≡ x % 2 ^ q * 2 ^ (8 - q)
  low_bits =
      let t = 2 ^ (8 - q) in
      let scale : 2 ^ d * 2 ^ e ≡ t =
        sym (pow_add d e) ∙ power {a = d + e} {b = 8 - q} (omega arith) in
      let byte : 256 ≡ 2 ^ q * t =
        power {a = 8} {b = q + (8 - q)} (omega arith) ∙ pow_add q (8 - q) in
      let low = x % 2 ^ q * t in
      let high = x / 2 ^ q in
      let fits : low < 256 =
        rw byte (mul-lt-mul_of_pos_right (mod-lt x (pow_pos q)) (pow_pos (8 - q))) in
      let split : x * t ≡ high * 256 + low =
        ap (λ n. n * t) (sym (div-add-mod' x (2 ^ q)))
        ∙ add-mul (high * 2 ^ q) (x % 2 ^ q) t
        ∙ ap (λ n. n + low) (mul_assoc high (2 ^ q) t ∙ ap (λ n. high * n) (sym byte)) in
      ap (λ n. n % 256) (mul_assoc x (2 ^ d) (2 ^ e) ∙ ap (λ n. x * n) scale ∙ split)
      ∙ mul-add-mod_self_right high 256 low
      ∙ mod-eq_of_lt fits
