-- ===== src/Notifier/Tests.antt =====
-- A run of the notifier, and the theorem at a concrete deposit.
use dashcash_wallet.Prelude.{◌≡◌, refl, none, some, [], ◌∷◌, arith}
use dashcash_wallet.Prelude.Int.{pos}
use dashcash_wallet.Text.{Bytes, codes}
use dashcash_wallet.Decimal.{parse_int, parsed}
use dashcash_wallet.Shift.{right_shift}
use dashcash_wallet.Notifier.{enter_fundflow, is_settled, notify, store_deposit, without_test}
use dashcash_wallet.Notifier.Deposits.{deposit_of, notify-deposit_of}

without_test_run : without_test (codes "BCHTEST") ≡ codes "BCH"
unfolding without_test
without_test_run = refl

notify-deposit_of_example :
    (amount : Bytes) × (fee_text : Bytes) × (text : Bytes) × (notify
        (λ h. none)
        (deposit_of (codes "a") 250000 (codes "t") (pos 226) (codes "BTCTEST") 9)
      ≡ store_deposit (without_test (codes "BTCTEST")) (codes "t") (codes "a") amount
        ∷ enter_fundflow
            (deposit_of (codes "a") 250000 (codes "t") (pos 226) (codes "BTCTEST") 9)
            (without_test (codes "BTCTEST"))
            fee_text
        ∷ [])
    × (right_shift amount 8 ≡ some text)
    × (parse_int 64 text ≡ parsed (pos 250000))
unfolding is_settled without_test
notify-deposit_of_example =
    notify-deposit_of (λ h. none) (codes "a") 250000 (codes "t") (pos 226) (codes "BTCTEST") 9
      (omega arith) refl refl
