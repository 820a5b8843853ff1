-- ===== src/Handlers/Tokens.antt =====
-- `SendOmniCoinHandler` of handlers.go, which sends USDT of an address.
use dashcash_wallet.Prelude.{
  Bool, true, not, none, some, List, [], ◌∷◌, length, ◌==◌, if◌then◌else◌,
}
use dashcash_wallet.Prelude.Int.{ℤ, ltb_ℤ, pos, word64}
use dashcash_wallet.Text.{Bytes, bytes_eq, codes, to_lower}
use dashcash_wallet.Utxos.{TxOut}
use dashcash_wallet.Params.{ChainParams}
use dashcash_wallet.Payment.{add64, created, panicked, refused}
use dashcash_wallet.Addresses.{get_new_change_addr, is_native_seg_wit_address, verify_address}
use dashcash_wallet.Signing.{crash, failure, value}
use dashcash_wallet.Usdt.{get_omni_pending_amount, get_usdt_balance, read_amount}
use dashcash_wallet.Omni.{get_omni_usdt_script, omni_token}
use dashcash_wallet.Handlers.{
  Outcome, Request, Services, Wallet, aborted, create_tx, refuse, sign_and_send,
}

-- The outputs of a token transfer: the script with the amount, and the least coins to the receiver.
unfoldable pub omni_outputs : (Bytes → Bytes) → Bytes → ℤ → List TxOut
omni_outputs add_data to amount =
    record { address = []; amount = pos 0; script = get_omni_usdt_script add_data (word64 amount) }
    ∷ record { address = to; amount = pos 546; script = [] }
    ∷ []

-- Whether tokens are served on the wallet's chain.
abbrev pub is_btc : {D : Type 0} → Wallet D → Bool
is_btc w = bytes_eq (to_lower w.config.chain_name) (codes "btc")

module _ {D : Type 0} (services : Services D) (param : ChainParams) where
  -- The handler behind its checks of the balance.
  unfoldable pub send_tokens : Wallet D → Bytes → Bytes → ℤ → Outcome D
  send_tokens w from to amount =
      elim (create_tx services param w from (omni_outputs services.outside.add_data to amount) []
        true true) [
          | panicked ↦ aborted []
          | refused ↦ refuse w 500 "utxo out of balance"
          | created tx has_change ↦ sign_and_send services param w tx
        ]

  -- The checks of the balance.
  unfoldable pub send_covered : Wallet D → Bytes → Bytes → ℤ → Outcome D
  send_covered w from to amount = elim (get_omni_pending_amount services.omni from omni_token) [
    | crash ↦ aborted []
    | failure ↦ refuse w 400 "get pending transactions error"
    | value pending ↦ elim (get_usdt_balance services.omni from) [
      | crash ↦ aborted []
      | failure ↦ refuse w 400 "get usdt balance error"
      | value balance ↦
          if ltb_ℤ balance amount
          then refuse w 400 "No enough balance for transfer"
          else if ltb_ℤ balance (add64 pending amount)
          then refuse w 400 "So many pending transactions that balance is less"
          else send_tokens w from to amount
    ]
  ]

  -- The checks of the receiver and the amount.
  unfoldable pub send_omni_from : Wallet D → Bytes → Bytes → Bytes → Outcome D
  send_omni_from w from to amount_str =
      if length to == 0
      then refuse w 400 "Missing to field"
      else if not (verify_address services.keys param w.config.chain_name to)
      then refuse w 400 "Invalid to address"
      else if is_native_seg_wit_address services.keys param to
      then refuse w 400 "cannot be segwit address"
      else if length amount_str == 0
      then refuse w 400 "Missing amount field"
      else elim (read_amount amount_str) [
        | crash ↦ aborted []
        | failure ↦ refuse w 400 "invalid amount"
        | value amount ↦ send_covered w from to amount
      ]

  -- The sender of a request: the first inner address if none is given, nothing if it has none.
  unfoldable pub sender_of : Wallet D → Bytes → Bytes × Wallet D
  sender_of w from =
      if length from == 0
      then elim (get_new_change_addr services.keys param w.config.xpub 0 w.addrs) [
        | none ↦ ([], w)
        | some (addr, addrs) ↦ (addr, record w { addrs = addrs })
      ]
      else (from, w)

  unfoldable pub send_omni_coin_handler : Wallet D → Request → Outcome D
  send_omni_coin_handler w r =
      if not (is_btc w)
      then refuse w 400 "omni coin not supported in the chain"
      else elim (r.form) [
        | none ↦ refuse w 400 "Could not parse parameters"
        | some get ↦
            if not (bytes_eq (get (codes "token")) (codes "USDT"))
            then refuse w 400 "invalid token"
            else (let (from, w') = sender_of w (get (codes "from")) in
                send_omni_from w' from (get (codes "to")) (get (codes "amount")))
      ]
