-- ===== src/Handlers/Keeps/NewAddrs.antt =====
-- The handlers that may take a new address keep the paths of the wallet readable.
use dashcash_wallet.Prelude.{
  Bool, true, false, ◌&&◌, not, Bool-cases, Option-cases, inl, inr, length, ◌==◌,
}
use dashcash_wallet.Prelude.Int.{ℤ, ltb_ℤ}
use dashcash_wallet.Text.{Bytes, bytes_eq, codes}
use dashcash_wallet.Params.{ChainParams}
use dashcash_wallet.Payment.{MsgTx, add64}
use dashcash_wallet.Addresses.{
  get_new_addr_by_branch, get_new_change_addr, is_native_seg_wit_address, verify_address,
  wallet_form,
}
use dashcash_wallet.Addresses.Paths.{HasPaths, store_addr_path-HasPaths}
use dashcash_wallet.Omni.{omni_token}
use dashcash_wallet.Usdt.{get_omni_pending_amount, get_usdt_balance, read_amount}
use dashcash_wallet.Handlers.{Request, Services, Wallet, create_tx}
use dashcash_wallet.Handlers.Tokens.{
  is_btc, omni_outputs, send_covered, send_omni_coin_handler, send_omni_from, send_tokens,
  sender_of,
}
use dashcash_wallet.Handlers.Prepare.{
  prepare_omni_from, prepare_omni_trezor_sign_handler, prepare_payment, prepare_swapped, prepare_to,
  prepare_tokens, prepare_trezor_sign_handler, reply_prepared, swap_outputs, use_change,
}
use dashcash_wallet.Handlers.Keeps.{
  Keeps, answers, silent, aborts, on_option, on_result, on_created, on_if, on_new,
  new_addr-HasPaths, sign_and_send-Keeps,
}

-- The handlers of tokens and of hardware wallets, which take new addresses.
module _ {D : Type 0} (services : Services D) (param : ChainParams) where
  send_covered-Keeps :
      (w : Wallet D) (from to : Bytes) (amount : ℤ)
      → HasPaths w.addrs
      → Keeps (send_covered services param w from to amount)
  unfolding send_covered send_tokens
  send_covered-Keeps w from to amount h =
      on_result (get_omni_pending_amount services.omni from omni_token) _ _ (answers h) (λ pending.
        on_result (get_usdt_balance services.omni from) _ _ (answers h) (λ balance.
          on_if (ltb_ℤ balance amount) _ _ (answers h) (
            on_if (ltb_ℤ balance (add64 pending amount)) _ _ (answers h) (
              on_created _ _ _ (answers h)
                (λ tx has_change. sign_and_send-Keeps services param w h tx)))))

  send_omni_from-Keeps :
      (w : Wallet D) (from to amount_str : Bytes)
      → HasPaths w.addrs
      → Keeps (send_omni_from services param w from to amount_str)
  unfolding send_omni_from
  send_omni_from-Keeps w from to amount_str h = on_if (length to == 0) _ _ (answers h) (
      on_if (not (verify_address services.keys param w.config.chain_name to)) _ _ (answers h) (
        on_if (is_native_seg_wit_address services.keys param to) _ _ (answers h) (
          on_if (length amount_str == 0) _ _ (answers h) (
            on_result (read_amount amount_str) _ _ (answers h)
              (λ amount. send_covered-Keeps w from to amount h)))))

  sender_of-HasPaths :
      (w : Wallet D) (from : Bytes)
      → HasPaths w.addrs
      → HasPaths (sender_of services param w from).1.addrs
  unfolding sender_of get_new_change_addr
  sender_of-HasPaths w from h = elim (Bool-cases (length from == 0)) [
    | inr e ↦ rw (sender_of, e) h
    | inl e ↦
        elim (Option-cases (get_new_addr_by_branch services.keys param w.config.xpub 1 0 w.addrs)) [
          | inl f ↦ rw (sender_of, e, f) h
          | inr ((addr, addrs), f) ↦
              rw (sender_of, e, f) (rw f at (new_addr-HasPaths services param w h 1 0))
        ]
  ]

  pub send_omni_coin_handler-Keeps :
      (w : Wallet D) (r : Request)
      → HasPaths w.addrs
      → Keeps (send_omni_coin_handler services param w r)
  unfolding send_omni_coin_handler
  send_omni_coin_handler-Keeps w r h = on_if (not (is_btc w)) _ _ (answers h) (
      on_option (r.form) _ _ (answers h) (λ get.
        on_if (not (bytes_eq (get (codes "token")) (codes "USDT"))) _ _ (answers h)
          (send_omni_from-Keeps _ _ _ _ (sender_of-HasPaths w (get (codes "from")) h))))

  use_change-HasPaths :
      (w : Wallet D) (addr : Bytes) (has_change : Bool)
      → HasPaths w.addrs
      → HasPaths (use_change addr has_change w).addrs
  unfolding use_change
  use_change-HasPaths w addr true h = store_addr_path-HasPaths w.addrs addr 1 w.config.in_index h
  use_change-HasPaths w addr false h = h

  reply_prepared-Keeps :
      (w : Wallet D) (addr : Bytes) (has_change : Bool) (tx : MsgTx)
      → HasPaths w.addrs
      → Keeps (reply_prepared services param w addr has_change tx)
  unfolding reply_prepared
  reply_prepared-Keeps w addr has_change tx h =
      on_result _ _ _ (answers h) (λ t. answers (use_change-HasPaths w addr has_change h))

  prepare_to-Keeps :
      (w : Wallet D) (to : Bytes) (amount : ℤ)
      → HasPaths w.addrs
      → Keeps (prepare_to services param w to amount)
  unfolding prepare_to prepare_payment get_new_change_addr
  prepare_to-Keeps w to amount h =
      on_new _ _ _ (new_addr-HasPaths services param w h 1 w.config.in_index) (silent h)
        (λ addr addrs h'. on_created _ _ _ (answers h') (λ tx b. reply_prepared-Keeps _ _ b tx h'))

  pub prepare_trezor_sign_handler-Keeps :
      (w : Wallet D) (r : Request)
      → HasPaths w.addrs
      → Keeps (prepare_trezor_sign_handler services param w r)
  unfolding prepare_trezor_sign_handler get_new_change_addr
  prepare_trezor_sign_handler-Keeps w r h = on_option (r.form) _ _ (answers h) (λ get.
      let to = get (codes "to") in
      on_if
        (not (length to == 0) && not (verify_address services.keys param w.config.chain_name to)) _
        _ (answers h)
        (on_if (length (get (codes "amount")) == 0) _ _ (answers h) (
          on_result (read_amount (get (codes "amount"))) _ _ (answers h) (λ amount.
            on_if (length to == 0) _ _
              (on_new (get_new_change_addr services.keys param w.config.xpub 0 w.addrs) _ _
                (new_addr-HasPaths services param w h 1 0) (answers h)
                (λ legacy addrs h'.
                  on_option (wallet_form services.keys param w.config.chain_name legacy) _ _ aborts
                    (λ addr. prepare_to-Keeps (record w { addrs = addrs }) addr amount h')))
              (prepare_to-Keeps w to amount h)))))

  prepare_tokens-Keeps :
      (w : Wallet D) (from to : Bytes) (amount : ℤ)
      → HasPaths w.addrs
      → Keeps (prepare_tokens services param w from to amount)
  unfolding prepare_tokens prepare_swapped get_new_change_addr
  prepare_tokens-Keeps w from to amount h =
      on_new _ _ _ (new_addr-HasPaths services param w h 1 w.config.in_index) (silent h)
        (λ addr addrs h'.
          on_created
            (create_tx services param (record w { addrs = addrs }) from
              (omni_outputs services.outside.add_data to amount) addr false true)
            _ _ (answers h')
            (λ tx b. on_option (swap_outputs tx.tx_out) _ _ aborts (λ outs.
              reply_prepared-Keeps (record w { addrs = addrs }) addr b (record tx { tx_out = outs })
                h')))

  prepare_omni_from-Keeps :
      (w : Wallet D) (from to amount_str : Bytes)
      → HasPaths w.addrs
      → Keeps (prepare_omni_from services param w from to amount_str)
  unfolding prepare_omni_from get_new_change_addr
  prepare_omni_from-Keeps w from to amount_str h =
      on_if
        (not (length to == 0) && not (verify_address services.keys param w.config.chain_name to)) _
        _ (answers h)
        (on_if (not (length to == 0) && is_native_seg_wit_address services.keys param to) _ _
          (answers h)
          (on_if (length amount_str == 0) _ _ (answers h) (
            on_result (read_amount amount_str) _ _ (answers h) (λ amount.
              on_if (length to == 0) _ _
                (on_new (get_new_change_addr services.keys param w.config.xpub 0 w.addrs) _ _
                  (new_addr-HasPaths services param w h 1 0) (answers h)
                  (λ addr addrs h'.
                    prepare_tokens-Keeps (record w { addrs = addrs }) from addr amount h'))
                (prepare_tokens-Keeps w from to amount h)))))

  pub prepare_omni_trezor_sign_handler-Keeps :
      (w : Wallet D) (r : Request)
      → HasPaths w.addrs
      → Keeps (prepare_omni_trezor_sign_handler services param w r)
  unfolding prepare_omni_trezor_sign_handler
  prepare_omni_trezor_sign_handler-Keeps w r h = on_if (not (is_btc w)) _ _ (answers h) (
      on_option (r.form) _ _ (answers h) (λ get.
        let from = get (codes "from") in
        on_if (not (bytes_eq (get (codes "token")) (codes "USDT"))) _ _ (answers h) (
          on_if (length from == 0) _ _ (answers h) (
            on_if (not (verify_address services.keys param w.config.chain_name from)) _ _
              (answers h)
              (prepare_omni_from-Keeps w from (get (codes "to")) (get (codes "amount")) h)))))
