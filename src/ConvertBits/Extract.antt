-- ===== src/ConvertBits/Extract.antt =====
-- The inner loop of `ConvertBits` of util/bech32.go: the rounds that its fuel allows take every bit
-- of a byte.
use native.Mathlib.Nat.{mod-lt}
use mathlib.Core.Path.{subst}
use dashcash_wallet.ConvertBits.{Regroup, extract_bits}
use dashcash_wallet.ConvertBits.Shifts.{low_bits, pow_pos, power, top_bits}
use dashcash_wallet.Prelude.{
  ℕ, zero, suc, ◌+◌, ◌-◌, ◌*◌, ◌/◌, ◌%◌, ◌^◌, ◌≤◌, ◌<◌, ◌≡◌, arith, ◌==◌, ltb, false, if◌then◌else◌,
}
use dashcash_wallet.ConvertBits.Value.{IsOpen, Takes, Takes-nothing, filled, round_lem}

-- How many bits a round takes: those that are missing or those that are left.
abbrev to_extract : ℕ → ℕ → ℕ
to_extract missing left = if ltb missing left then missing else left

to_extract_lem :
    (missing left : ℕ)
    → (to_extract missing left ≤ missing)
      × (to_extract missing left ≤ left)
      × (1 ≤ missing → 1 ≤ left → 1 ≤ to_extract missing left)
to_extract_lem missing left = ground arith

abbrev Extracts : ℕ → ℕ → Type 0
Extracts w fuel =
    (left x : ℕ) (r : Regroup)
    → left ≤ fuel
    → left ≤ 8
    → x < 2 ^ left
    → IsOpen w r
    → Takes w left x r (extract_bits fuel w (x * 2 ^ (8 - left)) left r)

extract_step :
    (w fuel e left x : ℕ) (r : Regroup)
    → 1 ≤ w
    → w ≤ 8
    → Extracts w fuel
    → 1 ≤ e
    → e ≤ left
    → left ≤ suc fuel
    → left ≤ 8
    → r.filled_bits + e ≤ w
    → x < 2 ^ left
    → IsOpen w r
    → Takes w left x r (
        extract_bits fuel w
          (x * 2 ^ (8 - left) * 2 ^ e % 256)
          (left - e)
          (filled w e (x * 2 ^ (8 - left) / 2 ^ (8 - e)) r))
extract_step w fuel e left x r one eight ih some_bits within more byte room h open_r =
    let q = left - e in
    let d = 8 - left in
    let whole : e + q + d ≡ 8 = omega arith in
    let sum : e + q ≡ left = omega arith in
    let all : x < 2 ^ (e + q) = omega (arith, h, power sum) in
    let rest = extract_bits fuel w (x % 2 ^ q * 2 ^ (8 - q)) q (filled w e (x / 2 ^ q) r) in
    rw (top_bits e q d x whole, low_bits e q d x whole)
      (subst (λ k. Takes w k x r rest) sum
        (round_lem w e q d x r rest one eight whole all room open_r
          (λ o. ih q (x % 2 ^ q) _ (omega arith) (omega arith) (mod-lt x (pow_pos q)) o)))

suc-==-zero : (n : ℕ) → (suc n == 0) ≡ false
suc-==-zero n = ground arith

pub extract_bits-Takes : (w fuel : ℕ) → 1 ≤ w → w ≤ 8 → Extracts w fuel
unfolding extract_bits
extract_bits-Takes w zero one eight zero x r more byte h o = Takes-nothing w x r o h
extract_bits-Takes w zero one eight (suc left) x r more byte h o = absurd (omega arith)
extract_bits-Takes w (suc fuel) one eight zero x r more byte h o = Takes-nothing w x r o h
extract_bits-Takes w (suc fuel) one eight (suc left) x r more byte h o =
    let e = to_extract (w - r.filled_bits) (suc left) in
    let size = to_extract_lem (w - r.filled_bits) (suc left) in
    rw (suc-==-zero left) (
      extract_step w fuel e (suc left) x r one eight (extract_bits-Takes w fuel one eight)
        (size.2 (omega arith) (omega arith)) size.1 more byte (omega (arith, size.0)) h o)
