-- ===== src/Notifier/Deposits.antt =====
-- What the notifier hands on of the deposit of a user.
use dashcash_wallet.Prelude.{
  ℕ, ◌^◌, ◌<◌, ◌≡◌, Bool, true, false, ◌&&◌, Option, some, [], ◌∷◌, arith, ltb,
}
use dashcash_wallet.Prelude.Int.{ℤ, pos}
use dashcash_wallet.Text.{Bytes, bytes_eq, codes}
use dashcash_wallet.Decimal.{format_int, format_uint, parse_int, parsed}
use dashcash_wallet.Shift.{left_shift, right_shift}
use dashcash_wallet.Shift.RoundTrip.{right_shift-left_shift}
use dashcash_wallet.Notify.{MessageType, NotifyMessage, TxType}
use dashcash_wallet.Utxos.{low_bits}
use dashcash_wallet.Notifier.{
  enter_fundflow, is_settled, min_btc_amount, notify, store_deposit, token_calls, without_test,
}

-- The message of a deposit of a user.
abbrev pub deposit_of : Bytes → ℕ → Bytes → ℤ → Bytes → ℕ → NotifyMessage
deposit_of address n tx_hash fee coin block_time = record {
  message_type = MessageType.tx;
  address = address;
  amount = pos n;
  tx_hash = tx_hash;
  fee = fee;
  coin = coin;
  tx_type = TxType.user_deposit;
  block_time = block_time;
}

-- A settled deposit of a user that is no small amount of BTC is stored and then entered in the cash
-- flow, with an amount in text that RightShift and strconv.ParseInt read as the amount of the
-- message.
pub notify-deposit_of :
    (omni_tx_status : Bytes → Option Bool) (address : Bytes) (n : ℕ) (tx_hash : Bytes) (fee : ℤ)
    (coin : Bytes) (block_time : ℕ)
    → let message = deposit_of address n tx_hash fee coin block_time in
      let symbol = without_test coin in
      n < 2 ^ 63
      → is_settled omni_tx_status message symbol ≡ true
      → (bytes_eq symbol (codes "BTC") && ltb n min_btc_amount) ≡ false
      → (amount : Bytes) × (fee_text : Bytes) × (text : Bytes) × (notify omni_tx_status message
          ≡ store_deposit symbol tx_hash address amount
            ∷ enter_fundflow message symbol fee_text
            ∷ [])
        × (right_shift amount 8 ≡ some text)
        × (parse_int 64 text ≡ parsed (pos n))
unfolding notify token_calls format_int
notify-deposit_of omni_tx_status address n tx_hash fee coin block_time fits settled large =
    let (text, shifted, same) = right_shift-left_shift n 8 fits (omega arith) in
    let low : low_bits (pos n) ≡ n = omega arith in
    (
      left_shift (format_uint n) 8,
      left_shift (format_int fee) 8,
      text,
      rw (settled, low, large),
      shifted,
      same,
    )
