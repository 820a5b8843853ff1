-- ===== src/Handlers/Prepare.antt =====
-- `PrepareTrezorSignHandler` and `PrepareOmniTrezorSignHandler` of handlers.go, which make a
-- transaction for a hardware wallet to sign. They serve the next inner address as change.
use dashcash_wallet.Prelude.{
  ◌+◌, ◌%◌, ◌^◌, Bool, true, false, ◌&&◌, not, Option, none, some, List, [], ◌∷◌, length, ◌==◌,
  if◌then◌else◌,
}
use dashcash_wallet.Prelude.Int.{ℤ}
use dashcash_wallet.Text.{Bytes, bytes_eq, codes}
use dashcash_wallet.Utxos.{TxOut}
use dashcash_wallet.Params.{ChainParams}
use dashcash_wallet.Payment.{MsgTx, WireOut, created, panicked, refused}
use dashcash_wallet.Addresses.{
  get_new_change_addr, is_native_seg_wit_address, path_text, store_addr_path, verify_address,
  wallet_form,
}
use dashcash_wallet.Signing.{crash, failure, value}
use dashcash_wallet.Trezor.{prepare_trezor_sign}
use dashcash_wallet.Usdt.{read_amount}
use dashcash_wallet.Handlers.{
  Outcome, Request, Services, Wallet, aborted, answered, create_tx, refuse, refuse_of, respond,
  to_legacy, trezor_tx, unanswered,
}
use dashcash_wallet.Handlers.Tokens.{is_btc, omni_outputs}

-- The second and the third output change places; `none` is the panic where there is no third.
unfoldable pub swap_outputs : List WireOut → Option (List WireOut)
swap_outputs [] = none
swap_outputs (a ∷ []) = none
swap_outputs (a ∷ b ∷ []) = none
swap_outputs (a ∷ b ∷ c ∷ outs) = some (a ∷ c ∷ b ∷ outs)

-- The wallet once the change address is in use.
unfoldable pub use_change : {D : Type 0} → Bytes → Bool → Wallet D → Wallet D
use_change change_address has_change w =
    if has_change
    then record w {
      config = record w.config { in_index = (w.config.in_index + 1) % 2 ^ 32 };
      addrs = store_addr_path change_address (path_text 1 w.config.in_index) w.addrs;
    }
    else w

module _ {D : Type 0} (services : Services D) (param : ChainParams) where
  -- The ends of the handlers.
  unfoldable pub reply_prepared : Wallet D → Bytes → Bool → MsgTx → Outcome D
  reply_prepared w change_address has_change tx =
      elim (prepare_trezor_sign services.keys param services.trezor w.config.chain_name
        services.badger w.db w.addrs tx) [
          | crash ↦ aborted []
          | failure ↦ refuse_of w 500 "prepare trezor sign err:"
          | value t ↦ answered (respond 0 (trezor_tx t)) (use_change change_address has_change w) []
        ]

  -- The handler for coins with a receiver and an address for the change.
  unfoldable pub prepare_payment : Wallet D → Bytes → Bytes → ℤ → Outcome D
  prepare_payment w to change_address amount =
      let output : TxOut = record { address = to; amount = amount; script = [] } in
      elim (create_tx services param w [] (output ∷ []) change_address false false) [
        | panicked ↦ aborted []
        | refused ↦ refuse w 500 "utxo out of balance"
        | created tx has_change ↦ reply_prepared w change_address has_change tx
      ]

  -- The handler behind its checks, with a receiver in the form of the wallet.
  unfoldable pub prepare_to : Wallet D → Bytes → ℤ → Outcome D
  prepare_to w to amount =
      elim (get_new_change_addr services.keys param w.config.xpub w.config.in_index w.addrs) [
        | none ↦ unanswered w
        | some (change_address, addrs) ↦
            let w' : Wallet D = record w { addrs = addrs } in
            prepare_payment w' (to_legacy services param w to)
              (to_legacy services param w change_address) amount
      ]

  unfoldable pub prepare_trezor_sign_handler : Wallet D → Request → Outcome D
  prepare_trezor_sign_handler w r = elim (r.form) [
    | none ↦ refuse w 400 "Could not parse parameters"
    | some get ↦
        let to = get (codes "to") in
        let amount_str = get (codes "amount") in
        if not (length to == 0) && not (verify_address services.keys param w.config.chain_name to)
        then refuse w 400 "Invalid to address"
        else if length amount_str == 0
        then refuse w 400 "Missing amount field"
        else elim (read_amount amount_str) [
          | crash ↦ aborted []
          | failure ↦ refuse w 400 "invalid amount"
          | value amount ↦
              if length to == 0
              then elim (get_new_change_addr services.keys param w.config.xpub 0 w.addrs) [
                | none ↦ refuse_of w 500 "get change addr err:"
                | some (legacy, addrs) ↦
                    elim (wallet_form services.keys param w.config.chain_name legacy) [
                      | none ↦ aborted []
                      | some addr ↦ prepare_to (record w { addrs = addrs }) addr amount
                    ]
              ]
              else prepare_to w to amount
        ]
  ]

  -- The handler for tokens with its transaction, whose last outputs change places.
  unfoldable pub prepare_swapped : Wallet D → Bytes → Bool → MsgTx → Outcome D
  prepare_swapped w change_address has_change tx = elim (swap_outputs tx.tx_out) [
    | none ↦ aborted []
    | some outs ↦ reply_prepared w change_address has_change (record tx { tx_out = outs })
  ]

  unfoldable pub prepare_tokens : Wallet D → Bytes → Bytes → ℤ → Outcome D
  prepare_tokens w from to amount =
      elim (get_new_change_addr services.keys param w.config.xpub w.config.in_index w.addrs) [
        | none ↦ unanswered w
        | some (change_address, addrs) ↦
            let w' : Wallet D = record w { addrs = addrs } in
            elim (create_tx services param w' from
              (omni_outputs services.outside.add_data to amount) change_address false true) [
                | panicked ↦ aborted []
                | refused ↦ refuse w' 500 "utxo out of balance"
                | created tx has_change ↦ prepare_swapped w' change_address has_change tx
              ]
      ]

  -- The checks of the receiver and the amount.
  unfoldable pub prepare_omni_from : Wallet D → Bytes → Bytes → Bytes → Outcome D
  prepare_omni_from w from to amount_str =
      if not (length to == 0) && not (verify_address services.keys param w.config.chain_name to)
      then refuse w 400 "Invalid to address"
      else if not (length to == 0) && is_native_seg_wit_address services.keys param to
      then refuse w 400 "cannot be segwit address"
      else if length amount_str == 0
      then refuse w 400 "Missing amount field"
      else elim (read_amount amount_str) [
        | crash ↦ aborted []
        | failure ↦ refuse w 400 "invalid amount"
        | value amount ↦
            if length to == 0
            then elim (get_new_change_addr services.keys param w.config.xpub 0 w.addrs) [
              | none ↦ refuse_of w 500 "get change addr err:"
              | some (addr, addrs) ↦ prepare_tokens (record w { addrs = addrs }) from addr amount
            ]
            else prepare_tokens w from to amount
      ]

  unfoldable pub prepare_omni_trezor_sign_handler : Wallet D → Request → Outcome D
  prepare_omni_trezor_sign_handler w r =
      if not (is_btc w)
      then refuse w 400 "omni coin not supported in the chain"
      else elim (r.form) [
        | none ↦ refuse w 400 "Could not parse parameters"
        | some get ↦
            let from = get (codes "from") in
            if not (bytes_eq (get (codes "token")) (codes "USDT"))
            then refuse w 400 "invalid token"
            else if length from == 0
            then refuse w 400 "missing from"
            else if not (verify_address services.keys param w.config.chain_name from)
            then refuse w 400 "Invalid from address"
            else prepare_omni_from w from (get (codes "to")) (get (codes "amount"))
      ]
