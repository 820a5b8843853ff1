-- ===== src/Handlers/Sent.antt =====
-- What the handlers that sign send to the node, and on which conditions.
use dashcash_wallet.Prelude.{
  ◌≡◌, refl, Bool, true, false, not, some, Bool-cases, Option-cases, inl, inr, List, [], ◌∷◌,
  length, arith, ◌==◌,
}
use dashcash_wallet.Prelude.Int.{ℤ, ltb_ℤ, ◌≤ℤ◌}
use dashcash_wallet.Text.{Bytes, bytes_eq, codes}
use dashcash_wallet.Utxos.{TxOut}
use dashcash_wallet.Params.{ChainParams}
use dashcash_wallet.Payment.{MsgTx, add64, created}
use dashcash_wallet.Addresses.{is_native_seg_wit_address, verify_address}
use dashcash_wallet.Omni.{omni_token}
use dashcash_wallet.Usdt.{get_omni_pending_amount, get_usdt_balance, read_amount}
use dashcash_wallet.Signing.{SignedTx, sign_msg_tx, value}
use dashcash_wallet.Signing.Signed.{sign_msg_tx-IsSignedFrom}
use dashcash_wallet.Signing.Inner.{sign_msg_tx-IsInner}
use dashcash_wallet.Chain.Blocks.{parse_mempool_transaction}
use dashcash_wallet.Handlers.{
  Request, Services, Wallet, create_tx, outside_of, reply_sent, send_coin, send_coin_handler,
  send_transaction, sign_and_send, to_legacy,
}
use dashcash_wallet.Handlers.Tokens.{
  is_btc, omni_outputs, send_covered, send_omni_coin_handler, send_omni_from, send_tokens,
  sender_of,
}
use dashcash_wallet.Handlers.Outputs.{create_tx-IsPaidOut}
use dashcash_wallet.Handlers.Sends.{
  Sends, answered_none, answered_one, aborted_one, on_option, on_result, on_created, on_if,
  Sends-map, IsPayment, IsCoinOrder, IsTokenOrder, IsTokenRequest,
}

le_of_ltb : (a b : ℤ) → ltb_ℤ b a ≡ false → a ≤ℤ b
le_of_ltb a b h = ground arith

not-false : {b : Bool} → not b ≡ false → b ≡ true
not-false {b = true} e = refl
not-false {b = false} e = ground arith

module _ {D : Type 0} (services : Services D) (param : ChainParams) where
  module _ (w : Wallet D) (P : SignedTx → Type 0) where
    reply_sent-Sends :
        (s : SignedTx) (name hash : Bytes) → P s → Sends P (reply_sent services param w s name hash)
    unfolding reply_sent
    reply_sent-Sends s name hash h = elim (Bool-cases services.connect_mempool) [
      | inr e ↦ rw (reply_sent, e) (answered_one h)
      | inl e ↦
          elim (Option-cases (
            parse_mempool_transaction services.badger (outside_of services param w)
              (services.tx_chain s) w.db)) [
                | inl f ↦ rw (reply_sent, e, f) (aborted_one h)
                | inr (db, f) ↦ rw (reply_sent, e, f) (answered_one h)
              ]
    ]

    sign_and_send-Sends :
        (tx : MsgTx)
        → ((s : SignedTx)
            → sign_msg_tx services.keys param services.signer w.config.chain_name w.config.xpriv
                services.badger w.db w.addrs tx
              ≡ value s
            → P s)
        → Sends P (sign_and_send services param w tx)
    unfolding sign_and_send
    sign_and_send-Sends tx h =
        on_result
          (sign_msg_tx services.keys param services.signer w.config.chain_name w.config.xpriv
            services.badger w.db w.addrs tx)
          _ _ answered_none
          (λ s e.
            on_result (send_transaction services param s) _ _ answered_none
              (λ hash f. reply_sent-Sends s (codes "txhash") hash (h s e)))

  -- A transaction that was made for `outputs`, once it is signed.
  payment_of :
      (w : Wallet D) (sender : Bytes) (outputs : List TxOut) (use_tiny : Bool) (tx : MsgTx)
      (change : Bool) (s : SignedTx)
      → create_tx services param w sender outputs [] true use_tiny ≡ created tx change
      → sign_msg_tx services.keys param services.signer w.config.chain_name w.config.xpriv
          services.badger w.db w.addrs tx
        ≡ value s
      → IsPayment services param w outputs s
  payment_of w sender outputs use_tiny tx change s made signed =
      let (same, count, inner) =
        sign_msg_tx-IsInner services.keys param services.signer w.config.chain_name w.config.xpriv
          services.badger w.db w.addrs tx s signed in
      record {
        change = change;
        paid =
            rw same
              (create_tx-IsPaidOut services param w sender outputs [] true use_tiny tx change made);
        scripts = rw same count;
        inner = rw same inner;
        signed = rw same (
            sign_msg_tx-IsSignedFrom services.keys param services.signer w.config.chain_name
              w.config.xpriv services.badger w.db w.addrs tx s signed);
      }

  send_coin-Sends :
      (w : Wallet D) (to : Bytes) (amount : ℤ) (P : SignedTx → Type 0)
      → ((s : SignedTx)
          → IsPayment services param w
              (record { address = to; amount = amount; script = [] } ∷ [])
              s
          → P s)
      → Sends P (send_coin services param w to amount)
  unfolding send_coin
  send_coin-Sends w to amount P h =
      let outputs : List TxOut = record { address = to; amount = amount; script = [] } ∷ [] in
      on_created (create_tx services param w [] outputs [] true false) _ _ answered_none
        (λ tx change e.
          sign_and_send-Sends w P tx (λ s f. h s (payment_of w [] outputs false tx change s e f)))

  send_covered-Sends :
      (w : Wallet D) (get : Bytes → Bytes) (from : Bytes) (amount : ℤ)
      → verify_address services.keys param w.config.chain_name (get (codes "to")) ≡ true
      → is_native_seg_wit_address services.keys param (get (codes "to")) ≡ false
      → read_amount (get (codes "amount")) ≡ value amount
      → Sends
          (IsTokenOrder services param w from get)
          (send_covered services param w from (get (codes "to")) amount)
  unfolding send_covered send_tokens
  send_covered-Sends w get from amount valid legacy read =
      let outputs = omni_outputs services.outside.add_data (get (codes "to")) amount in
      on_result (get_omni_pending_amount services.omni from omni_token) _ _ answered_none
        (λ pending e.
          on_result (get_usdt_balance services.omni from) _ _ answered_none (λ balance f.
            on_if (ltb_ℤ balance amount) _ _ answered_none (λ enough.
              on_if (ltb_ℤ balance (add64 pending amount)) _ _ answered_none (λ rest.
                on_created (create_tx services param w from outputs [] true true) _ _ answered_none
                  (λ tx change made.
                    sign_and_send-Sends w (IsTokenOrder services param w from get) tx (λ s signed.
                      record {
                        amount = amount;
                        pending = pending;
                        balance = balance;
                        valid = valid;
                        legacy = legacy;
                        read = read;
                        listed = e;
                        owned = f;
                        enough = le_of_ltb amount balance enough;
                        rest = le_of_ltb (add64 pending amount) balance rest;
                        payment = payment_of w from outputs true tx change s made signed;
                      }))))))

  send_omni_from-Sends :
      (w : Wallet D) (get : Bytes → Bytes) (from : Bytes)
      → Sends
          (IsTokenOrder services param w from get)
          (send_omni_from services param w from (get (codes "to")) (get (codes "amount")))
  unfolding send_omni_from
  send_omni_from-Sends w get from =
      let to = get (codes "to") in
      on_if (length to == 0) _ _ answered_none (λ some_to.
        on_if (not (verify_address services.keys param w.config.chain_name to)) _ _ answered_none
          (λ valid.
            on_if (is_native_seg_wit_address services.keys param to) _ _ answered_none (λ legacy.
              on_if (length (get (codes "amount")) == 0) _ _ answered_none (λ some_amount.
                on_result (read_amount (get (codes "amount"))) _ _ answered_none (λ amount read.
                  send_covered-Sends w get from amount (not-false valid) legacy read)))))

  send_omni_from-request :
      (w : Wallet D) (r : Request) (get : Bytes → Bytes)
      → r.form ≡ some get
      → is_btc w ≡ true
      → bytes_eq (get (codes "token")) (codes "USDT") ≡ true
      → Sends (IsTokenRequest services param w r) (
          send_omni_from services param
            (sender_of services param w (get (codes "from"))).1
            (sender_of services param w (get (codes "from"))).0
            (get (codes "to"))
            (get (codes "amount")))
  send_omni_from-request w r get form chain token =
      Sends-map
        (λ s order. record { get = get; form = form; chain = chain; token = token; order = order })
        (send_omni_from-Sends (sender_of services param w (get (codes "from"))).1 get
          (sender_of services param w (get (codes "from"))).0)

-- `SendOmniCoinHandler` sends at most one transaction, and that only on the btc chain, for USDT, a
-- valid receiver that is no native segwit address and an amount that it could read; the balance of
-- the sender covers the amount and, as int64, the amount on top of what is pending. The transaction
-- holds the script with the amount taken as a uint64, then 546 satoshi to the receiver, and at most a
-- change more, to the address of the output that its first input spends. All its inputs spend outputs
-- of the inner addresses, and each has the script that the library made for that output with the key
-- of its path.
pub send_omni_coin_handler-Sends :
    {D : Type 0} (services : Services D) (param : ChainParams) (w : Wallet D) (r : Request)
    → Sends (IsTokenRequest services param w r) (send_omni_coin_handler services param w r)
unfolding send_omni_coin_handler
send_omni_coin_handler-Sends services param w r = on_if (not (is_btc w)) _ _ answered_none (λ chain.
    on_option (r.form) _ _ answered_none (λ get form.
      on_if (not (bytes_eq (get (codes "token")) (codes "USDT"))) _ _ answered_none (λ token.
        send_omni_from-request services param w r get form (not-false chain) (not-false token))))

-- `SendCoinHandler` sends at most one transaction, and that only for a valid receiver and an
-- amount that it could read; the transaction pays that amount to the receiver and holds at most a
-- change more, to the address of the output that its first input spends. All its inputs spend outputs
-- of the inner addresses, and each has the script that the library made for that output with the key
-- of its path; on a bsv chain the script is empty where the library failed.
pub send_coin_handler-Sends :
    {D : Type 0} (services : Services D) (param : ChainParams) (w : Wallet D) (r : Request)
    → Sends (IsCoinOrder services param w r) (send_coin_handler services param w r)
unfolding send_coin_handler
send_coin_handler-Sends services param w r = on_option (r.form) _ _ answered_none (λ get form.
    let to = get (codes "to") in
    on_if (length to == 0) _ _ answered_none (λ some_to.
      on_if (not (verify_address services.keys param w.config.chain_name to)) _ _ answered_none
        (λ valid. on_if (length (get (codes "amount")) == 0) _ _ answered_none (λ some_amount.
          on_result (read_amount (get (codes "amount"))) _ _ answered_none (λ amount read.
            send_coin-Sends services param w (to_legacy services param w to) amount
              (IsCoinOrder services param w r)
              (λ s payment. record {
                get = get;
                amount = amount;
                form = form;
                valid = not-false valid;
                read = read;
                payment = payment;
              }))))))
