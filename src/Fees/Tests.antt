-- ===== src/Fees/Tests.antt =====
-- Runs of the fees, and the theorems at concrete inputs.
use dashcash_wallet.Prelude.{◌≡◌, ◌≤◌, ◌↔◌, ◌⊎◌, ◌*◌, ◌/◌, refl, arith}
use dashcash_wallet.Fees.{min_output_amount, tx_fee}
use dashcash_wallet.Fees.Bounds.{IsRoundedUp, min_output_amount-least, tx_fee-covers, tx_fee-le}

fee_runs : (tx_fee 20000 226 ≡ 4600) × (tx_fee 10 226 ≡ 226) × (min_output_amount 20000 ≡ 10920)
unfolding tx_fee min_output_amount
fee_runs = (refl, refl, refl)

-- The largest transaction, at the last rate whose product fits and at the next one.
wrapped_fee_run : (tx_fee 42949 100000 ≡ 4294900) × (tx_fee 42950 100000 ≡ 100000)
unfolding tx_fee
wrapped_fee_run = (refl, refl)

tx_fee-covers_example :
    (226 ≤ tx_fee 20000 226)
    × (226 * 20000 / 1000 ≤ tx_fee 20000 226)
    × ((tx_fee 20000 226 ≡ 226) ⊎ (IsRoundedUp (226 * 20000 / 1000) (tx_fee 20000 226)))
tx_fee-covers_example = tx_fee-covers 20000 226 (omega arith) (omega arith)

tx_fee-le_example : tx_fee 1000000 100000 ≤ 4295000
tx_fee-le_example = tx_fee-le 1000000 100000

min_output_amount-least_example :
    (min_output_amount 20000 ≤ 10920) ↔ ((546 ≤ 10920) × (546 * 20000 ≤ 1000 * 10920))
min_output_amount-least_example = min_output_amount-least 20000 10920 (omega arith)
