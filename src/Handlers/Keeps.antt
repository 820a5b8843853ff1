-- ===== src/Handlers/Keeps.antt =====
-- What all the requests keep of the wallet: its paths are read without a panic.
pub mod NewAddrs
use dashcash_wallet.Prelude.{
  ℕ, Bool, true, false, ◌&&◌, not, Option, none, some, List, [], Bool-cases, Option-cases, inl, inr,
  length, ◌==◌, if◌then◌else◌,
}
use dashcash_wallet.Prelude.Int.{ℤ, ltb_ℤ}
use dashcash_wallet.Text.{Bytes, bytes_eq, codes}
use dashcash_wallet.Params.{ChainParams}
use dashcash_wallet.Payment.{Created, MsgTx, created, panicked, refused, add64, sub64}
use dashcash_wallet.Addresses.{
  Addrs, get_new_addr_by_branch, get_new_change_addr, get_new_external_addr,
  is_native_seg_wit_address, verify_address, wallet_form,
}
use dashcash_wallet.Addresses.Paths.{
  HasPaths, HasPathsNew, get_new_addr_by_branch-HasPaths, store_addr_path-HasPaths,
}
use dashcash_wallet.Signing.{Result, SignedTx, crash, failure, sign_msg_tx, value}
use dashcash_wallet.Hex.{decode_hex}
use dashcash_wallet.Omni.{omni_token}
use dashcash_wallet.Usdt.{get_omni_pending_amount, get_usdt_balance, read_amount}
use dashcash_wallet.Handlers.{
  Outcome, Reply, Request, Services, Wallet, aborted, answered, balance_reply, check_addr_handler,
  dump_utxo_handler, get_addr_handler, get_balance_handler, get_inner_balance_handler,
  get_omni_balance_handler, not_found_handler, reply_sent, send_coin, send_coin_handler,
  send_signed_tx_handler, send_transaction, sign_and_send, create_tx, token_balance, unanswered,
}
use dashcash_wallet.Handlers.Tokens.{
  is_btc, omni_outputs, send_covered, send_omni_coin_handler, send_omni_from, send_tokens,
  sender_of,
}
use dashcash_wallet.Handlers.Prepare.{
  prepare_omni_from, prepare_omni_trezor_sign_handler, prepare_payment, prepare_swapped, prepare_to,
  prepare_tokens, prepare_trezor_sign_handler, reply_prepared, swap_outputs, use_change,
}

-- The wallet behind a request that does not panic has readable paths.
pub data Keeps {D : Type 0} : Outcome D → Type 0 where
  answers :
      {reply : Reply} {w : Wallet D} {sent : List SignedTx}
      → HasPaths w.addrs
      → Keeps (answered reply w sent)
  silent : {w : Wallet D} → HasPaths w.addrs → Keeps (unanswered w)
  aborts : {sent : List SignedTx} → Keeps (aborted sent)

module _ {D : Type 0} where
  pub on_option :
      {A : Type 0} (o : Option A) (n : Outcome D) (f : A → Outcome D)
      → Keeps n
      → ((a : A) → Keeps (f a))
      → Keeps (elim o [ none ↦ n | some a ↦ f a ])
  on_option none n f hn hf = hn
  on_option (some a) n f hn hf = hf a

  pub on_result :
      {A : Type 0} (r : Result A) (n : Outcome D) (f : A → Outcome D)
      → Keeps n
      → ((a : A) → Keeps (f a))
      → Keeps (elim r [ crash ↦ aborted [] | failure ↦ n | value a ↦ f a ])
  on_result crash n f hn hf = aborts
  on_result failure n f hn hf = hn
  on_result (value a) n f hn hf = hf a

  pub on_created :
      (c : Created) (n : Outcome D) (f : MsgTx → Bool → Outcome D)
      → Keeps n
      → ((tx : MsgTx) (has_change : Bool) → Keeps (f tx has_change))
      → Keeps (elim c [ panicked ↦ aborted [] | refused ↦ n | created tx b ↦ f tx b ])
  on_created panicked n f hn hf = aborts
  on_created refused n f hn hf = hn
  on_created (created tx b) n f hn hf = hf tx b

  pub on_if : (b : Bool) (x y : Outcome D) → Keeps x → Keeps y → Keeps (if b then x else y)
  on_if true x y hx hy = hx
  on_if false x y hx hy = hy

  pub on_new :
      (o : Option (Bytes × Addrs)) (n : Outcome D) (f : Bytes → Addrs → Outcome D)
      → HasPathsNew o
      → Keeps n
      → ((addr : Bytes) (addrs : Addrs) → HasPaths addrs → Keeps (f addr addrs))
      → Keeps (elim o [ none ↦ n | some (addr, addrs) ↦ f addr addrs ])
  on_new none n f h hn hf = hn
  on_new (some (addr, addrs)) n f h hn hf = hf addr addrs h

module _ {D : Type 0} (services : Services D) (param : ChainParams) (w : Wallet D)
    (h : HasPaths w.addrs) where
  pub new_addr-HasPaths :
      (branch index : ℕ)
      → HasPathsNew (get_new_addr_by_branch services.keys param w.config.xpub branch index w.addrs)
  new_addr-HasPaths branch index =
      get_new_addr_by_branch-HasPaths services.keys param w.config.xpub branch index w.addrs h

  balance_reply-Keeps : (balance : ℤ) → Keeps (balance_reply services param w balance)
  unfolding balance_reply
  balance_reply-Keeps balance = answers h

  reply_sent-Keeps :
      (signed : SignedTx) (name hash : Bytes) → Keeps (reply_sent services param w signed name hash)
  unfolding reply_sent
  reply_sent-Keeps signed name hash =
      on_if _ _ _ (on_option _ _ _ aborts (λ db. answers h)) (answers h)

  pub sign_and_send-Keeps : (tx : MsgTx) → Keeps (sign_and_send services param w tx)
  unfolding sign_and_send
  sign_and_send-Keeps tx =
      on_result
        (sign_msg_tx services.keys param services.signer w.config.chain_name w.config.xpriv
          services.badger w.db w.addrs tx)
        _ _ (answers h)
        (λ signed.
          on_result (send_transaction services param signed) _ _ (answers h)
            (λ hash. reply_sent-Keeps signed (codes "txhash") hash))

  send_coin-Keeps : (to : Bytes) (amount : ℤ) → Keeps (send_coin services param w to amount)
  unfolding send_coin
  send_coin-Keeps to amount = on_created _ _ _ (answers h) (λ tx has_change. sign_and_send-Keeps tx)

  token_balance-Keeps : (address : Bytes) → Keeps (token_balance services param w address)
  unfolding token_balance
  token_balance-Keeps address =
      on_result (get_omni_pending_amount services.omni address omni_token) _ _ (answers h)
        (λ pending.
          on_result (get_usdt_balance services.omni address) _ _ (answers h)
            (λ balance. balance_reply-Keeps (sub64 balance pending)))

  module _ (r : Request) where
    pub get_addr_handler-Keeps : Keeps (get_addr_handler services param w r)
    unfolding get_addr_handler get_new_external_addr
    get_addr_handler-Keeps =
        on_new _ _ _ (new_addr-HasPaths 0 w.config.index) (answers h) (λ legacy addrs h'.
          on_option _ _ _ aborts
            (λ addr. answers (store_addr_path-HasPaths addrs addr 0 w.config.index h')))

    pub check_addr_handler-Keeps : Keeps (check_addr_handler services param w r)
    unfolding check_addr_handler
    check_addr_handler-Keeps = on_if _ _ _ (answers h) (answers h)

    pub dump_utxo_handler-Keeps : Keeps (dump_utxo_handler services param w r)
    unfolding dump_utxo_handler
    dump_utxo_handler-Keeps = on_option _ _ _ aborts (λ utxos. answers h)

    pub get_balance_handler-Keeps : Keeps (get_balance_handler services param w r)
    unfolding get_balance_handler
    get_balance_handler-Keeps =
        on_if _ _ _ (answers h) (on_option _ _ _ aborts (λ balance. balance_reply-Keeps balance))

    pub get_inner_balance_handler-Keeps : Keeps (get_inner_balance_handler services param w r)
    unfolding get_inner_balance_handler
    get_inner_balance_handler-Keeps =
        on_option _ _ _ aborts (λ balance. balance_reply-Keeps balance)

    pub get_omni_balance_handler-Keeps : Keeps (get_omni_balance_handler services param w r)
    unfolding get_omni_balance_handler
    get_omni_balance_handler-Keeps =
        let address = r.query (codes "address") in
        on_if (not (is_btc w)) _ _ (answers h) (
          on_if (length address == 0) _ _ (answers h) (
            on_if (not (verify_address services.keys param w.config.chain_name address)) _ _
              (answers h) (token_balance-Keeps address)))

    pub send_coin_handler-Keeps : Keeps (send_coin_handler services param w r)
    unfolding send_coin_handler
    send_coin_handler-Keeps = on_option (r.form) _ _ (answers h) (λ get.
        let to = get (codes "to") in
        on_if (length to == 0) _ _ (answers h) (
          on_if (not (verify_address services.keys param w.config.chain_name to)) _ _ (answers h) (
            on_if (length (get (codes "amount")) == 0) _ _ (answers h) (
              on_result (read_amount (get (codes "amount"))) _ _ (answers h)
                (λ amount. send_coin-Keeps _ amount)))))

    pub send_signed_tx_handler-Keeps : Keeps (send_signed_tx_handler services param w r)
    unfolding send_signed_tx_handler
    send_signed_tx_handler-Keeps = on_option (r.form) _ _ (answers h) (λ get.
        on_if _ _ _ (answers h) (
          on_option (decode_hex (get (codes "hex"))) _ _ (answers h) (λ buf.
            on_option (services.deserialize buf) _ _ (answers h) (λ tx.
              on_result (send_transaction services param tx) _ _ (answers h)
                (λ hash. reply_sent-Keeps tx (codes "hash") hash)))))

    pub not_found_handler-Keeps : Keeps (not_found_handler w r)
    unfolding not_found_handler
    not_found_handler-Keeps = answers h
