-- ===== src/Notifier.antt =====
-- `Notifier` of subscriber.go: the calls that a message leads to. GetOmniTxStatus is a parameter,
-- whose `none` is an error.
pub mod Deposits
mod Tests
use dashcash_wallet.Prelude.{
  ℕ, ◌*◌, Bool, true, false, ◌&&◌, Option, none, some, List, [], ◌∷◌, ◌++◌, ltb, if◌then◌else◌,
}
use dashcash_wallet.Text.{Bytes, bytes_eq, codes, has_prefix}
use dashcash_wallet.Decimal.{format_int}
use dashcash_wallet.Shift.{left_shift}
use dashcash_wallet.Notify.{MessageType, NotifyMessage, TxType}
use dashcash_wallet.Utxos.{low_bits}

abbrev pub min_btc_amount : ℕ
min_btc_amount = 100000

-- storeTokenDepositTx, storeTokenWithdrawTx and EnterFundflowDB, with their arguments.
pub data Call : Type 0 where
  store_deposit : Bytes → Bytes → Bytes → Bytes → Call
  store_withdraw : Bytes → Bytes → Bytes → Bytes → Bytes → Call
  enter_fundflow : NotifyMessage → Bytes → Bytes → Call

-- strings.ReplaceAll(symbol, "TEST", "").
unfoldable pub without_test : Bytes → Bytes
without_test [] = []
without_test (a ∷ []) = a ∷ []
without_test (a ∷ b ∷ []) = a ∷ b ∷ []
without_test (a ∷ b ∷ c ∷ []) = a ∷ b ∷ c ∷ []
without_test (a ∷ b ∷ c ∷ d ∷ rest) =
    let cut = without_test rest in
    let kept = a ∷ without_test (b ∷ c ∷ d ∷ rest) in
    if bytes_eq (a ∷ b ∷ c ∷ d ∷ []) (codes "TEST") then cut else kept

-- The switch on the type of the transaction.
unfoldable pub token_calls : NotifyMessage → Bytes → Bytes → Bytes → List Call
token_calls message symbol amount fee = elim (message.tx_type) [
  | TxType.user_deposit ↦
      if bytes_eq symbol (codes "BTC") && ltb (low_bits message.amount) min_btc_amount
      then []
      else store_deposit symbol message.tx_hash message.address amount ∷ []
  | TxType.user_withdraw ↦ store_withdraw symbol message.tx_hash message.address amount fee ∷ []
  | TxType.unset ↦ []
  | TxType.none ↦ []
  | TxType.admin_deposit ↦ []
  | TxType.admin_withdraw ↦ []
  | TxType.fund_collection ↦ []
]

module _ (omni_tx_status : Bytes → Option Bool) where
  unfoldable pub is_settled : NotifyMessage → Bytes → Bool
  is_settled message symbol =
      if bytes_eq symbol (codes "USDT")
      then elim (omni_tx_status message.tx_hash) [ none ↦ false | some status ↦ status ]
      else true

  -- What `Notifier` does with a message.
  unfoldable pub notify : NotifyMessage → List Call
  notify message =
      let symbol = without_test message.coin in
      let amount = left_shift (format_int message.amount) 8 in
      let fee = left_shift (format_int message.fee) 8 in
      elim (message.message_type) [
        | MessageType.none ↦ []
        | MessageType.admin ↦ []
        | MessageType.tx ↦
            if is_settled message symbol
            then token_calls message symbol amount fee ++ enter_fundflow message symbol fee ∷ []
            else []
      ]
