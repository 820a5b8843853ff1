-- ===== src/Fees.antt =====
-- `txFee` and `minOutputAmount` of db.go, and the constants of db.go on fees and sizes.
pub mod Bounds
mod Tests
use dashcash_wallet.Prelude.{ℕ, ◌+◌, ◌-◌, ◌*◌, ◌/◌, ◌%◌, ◌^◌, ltb, if◌then◌else◌}

abbrev pub tx_fee_per_kb : ℕ
tx_fee_per_kb = 1000

abbrev pub min_fee_per_kb : ℕ
min_fee_per_kb = tx_fee_per_kb

abbrev pub tx_output_size : ℕ
tx_output_size = 34

abbrev pub tx_input_size : ℕ
tx_input_size = 148

abbrev pub tx_min_output_amount : ℕ
tx_min_output_amount = tx_fee_per_kb * 3 * (tx_output_size + tx_input_size) / 1000

abbrev pub tx_max_size : ℕ
tx_max_size = 100000

-- The products are uint32 before they become int64.
unfoldable pub tx_fee : ℕ → ℕ → ℕ
tx_fee fee_per_kb size =
    let standard_fee = size * tx_fee_per_kb % 2 ^ 32 / 1000 in
    let fee = (size * fee_per_kb % 2 ^ 32 / 1000 + 99) / 100 * 100 in
    if ltb standard_fee fee then fee else standard_fee

unfoldable pub min_output_amount : ℕ → ℕ
min_output_amount fee_per_kb =
    let amount =
      (tx_min_output_amount * fee_per_kb % 2 ^ 32 + min_fee_per_kb - 1) / min_fee_per_kb in
    if ltb tx_min_output_amount amount then amount else tx_min_output_amount
