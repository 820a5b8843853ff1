-- ===== src/Fees/Bounds.antt =====
-- What the fee of a transaction covers, and what it cannot exceed.
use dashcash_wallet.Prelude.{
  ℕ, ◌+◌, ◌*◌, ◌/◌, ◌%◌, ◌^◌, ◌≤◌, ◌<◌, ◌≡◌, ◌⊎◌, ◌↔◌, arith, ltb, if◌then◌else◌,
}
use dashcash_wallet.Fees.{min_output_amount, tx_fee}

-- The fee that the rounding of `txFee` makes of a price.
pub IsRoundedUp : ℕ → ℕ → Type 0
IsRoundedUp price fee = (price ≤ fee) × (fee < price + 100) × (fee % 100 ≡ 0)

rounded :
    (size product : ℕ)
    → size * 1000 < 2 ^ 32
    → product < 2 ^ 32
    → let standard = size * 1000 % 2 ^ 32 / 1000 in
      let fee = (product % 2 ^ 32 / 1000 + 99) / 100 * 100 in
      let chosen = if ltb standard fee then fee else standard in
      (size ≤ chosen)
      × (product / 1000 ≤ chosen)
      × ((chosen ≡ size) ⊎ (IsRoundedUp (product / 1000) chosen))
unfolding IsRoundedUp
rounded size product h k = ground arith

-- Where neither product leaves uint32, the fee is at least one satoshi for each byte and at least
-- the price of the bytes at the rate, and it is the first of these or the second rounded up to a
-- multiple of 100.
pub tx_fee-covers :
    (fee_per_kb size : ℕ)
    → size * 1000 < 2 ^ 32
    → size * fee_per_kb < 2 ^ 32
    → (size ≤ tx_fee fee_per_kb size)
      × (size * fee_per_kb / 1000 ≤ tx_fee fee_per_kb size)
      × ((tx_fee fee_per_kb size ≡ size)
          ⊎ (IsRoundedUp (size * fee_per_kb / 1000) (tx_fee fee_per_kb size)))
unfolding tx_fee
tx_fee-covers fee_per_kb size h k = rounded size (size * fee_per_kb) h k

-- Whatever the rate and the size, the fee is at most 4295000 satoshi: the products wrap around.
pub tx_fee-le : (fee_per_kb size : ℕ) → tx_fee fee_per_kb size ≤ 4295000
unfolding tx_fee
tx_fee-le fee_per_kb size = ground arith

-- No output may be below 546 satoshi; where the product fits a uint32 the bound is the least amount
-- that is at least that and at least 0.546 times the rate.
pub min_output_amount-least :
    (fee_per_kb amount : ℕ)
    → 546 * fee_per_kb < 2 ^ 32
    → (min_output_amount fee_per_kb ≤ amount)
      ↔ ((546 ≤ amount) × (546 * fee_per_kb ≤ 1000 * amount))
unfolding min_output_amount
min_output_amount-least fee_per_kb amount h = (ground arith, ground arith)
