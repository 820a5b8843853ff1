-- ===== src/Handlers.antt =====
-- handlers.go: the requests of the HTTP interface. A handler takes the wallet and a request, and
-- leaves an answer with the wallet behind it and what was sent to the node. What a panic leaves of
-- the wallet is no part of its outcome.
pub mod Tokens
pub mod Prepare
pub mod Keeps
pub mod Routes
pub mod Outputs
pub mod Sends
pub mod Sent
pub mod Served
pub mod Restart
mod Tests
use dashcash_wallet.Prelude.{
  ℕ, suc, ◌+◌, ◌%◌, ◌^◌, Bool, true, false, ◌&&◌, not, Option, none, some, List, [], ◌∷◌, ◌++◌,
  length, String, ltb, ◌==◌, if◌then◌else◌,
}
use dashcash_wallet.Prelude.Int.{ℤ, pos}
use dashcash_wallet.Text.{Bytes, bytes_eq, codes, to_lower}
use dashcash_wallet.Decimal.{format_int, format_uint}
use dashcash_wallet.Hex.{decode_hex}
use dashcash_wallet.Shift.{left_shift}
use dashcash_wallet.Config.{Config}
use dashcash_wallet.Utxos.{Badger, TxOut, get_all_utxo, get_balance, get_inner_balance}
use dashcash_wallet.Params.{ChainParams}
use dashcash_wallet.Payment.{
  Created, MsgTx, create_tx_for_outputs, created, panicked, refused, sub64,
}
use dashcash_wallet.Addresses.{
  Addrs, Keys, convert_cash_addr_to_legacy, get_new_external_addr, load_addr_path, on_bch, or_empty,
  path_text, store_addr_path, verify_address, wallet_form,
}
use dashcash_wallet.Signing.{Result, SignedTx, Signer, crash, failure, sign_msg_tx, value}
use dashcash_wallet.Trezor.{TrezorNode, TrezorTx}
use dashcash_wallet.Usdt.{OmniNode, get_omni_pending_amount, get_usdt_balance, read_amount}
use dashcash_wallet.Omni.{omni_token}
use dashcash_wallet.Chain.{ChainTx, Outside}
use dashcash_wallet.Chain.Blocks.{parse_mempool_transaction}

-- What is served: the settings with the indexes of the next addresses, the store of outputs, and
-- the paths of the addresses.
pub record Wallet (D : Type 0) : Type 0 where
  pub config : Config
  pub db : D
  pub addrs : Addrs

-- The fields of a form or a query; `form` is `none` where ParseForm fails.
pub record Request : Type 0 where
  pub form : Option (Bytes → Bytes)
  pub query : Bytes → Bytes

-- The data of a reply. An error may end with the text of a library's error, which is left out.
pub data Payload : Type 0 where
  no_data : Payload
  text : Bytes → Payload
  field : Bytes → Bytes → Payload
  error_of : Bytes → Payload
  trezor_tx : TrezorTx → Payload

pub record Reply : Type 0 where
  pub code : ℕ
  pub msg : Bytes
  pub payload : Payload

pub data Outcome (D : Type 0) : Type 0 where
  answered : Reply → Wallet D → List SignedTx → Outcome D
  unanswered : Wallet D → Outcome D
  aborted : List SignedTx → Outcome D

-- What the handlers call beyond the program. `connect_mempool` is the connection that
-- `ParseMempoolTransaction` makes; `tx_chain` is a transaction with its hash.
pub record Services (D : Type 0) : Type 0 where
  pub badger : Badger D
  pub keys : Keys
  pub signer : Signer
  pub trezor : TrezorNode
  pub omni : OmniNode
  pub outside : Outside
  pub serialize_size : MsgTx → ℕ
  pub connect_rpc : Bool
  pub connect_mempool : Bool
  pub send_raw_transaction : SignedTx → Option Bytes
  pub tx_chain : SignedTx → ChainTx
  pub deserialize : Bytes → Option SignedTx

unfoldable pub respond : ℕ → Payload → Reply
respond code payload = record {
  code = code;
  msg = if ltb code 300 then codes "success" else codes "failure";
  payload = payload;
}

unfoldable pub respond_with_error : ℕ → Bytes → Reply
respond_with_error code msg = respond code (field (codes "error") msg)

module _ {D : Type 0} where
  abbrev pub refuse : Wallet D → ℕ → String → Outcome D
  refuse w code msg = answered (respond_with_error code (codes msg)) w []

  -- An error that ends with the text of a library's error.
  abbrev pub refuse_of : Wallet D → ℕ → String → Outcome D
  refuse_of w code msg = answered (respond code (error_of (codes msg))) w []

  unfoldable pub not_found_handler : Wallet D → Request → Outcome D
  not_found_handler w r = refuse w 404 "Not found"

module _ {D : Type 0} (services : Services D) (param : ChainParams) where
  -- `CreateTxForOutputs`, with the addresses of the wallet.
  unfoldable pub create_tx : Wallet D → Bytes → List TxOut → Bytes → Bool → Bool → Created
  create_tx w sender outputs change_address use_inner use_tiny =
      create_tx_for_outputs services.keys.decode_address services.signer.add_data services.badger
        w.db
        (λ address.
          if on_bch param.name
          then or_empty (convert_cash_addr_to_legacy services.keys param address)
          else address)
        (load_addr_path w.addrs) services.serialize_size w.config.fee_rate sender outputs
        change_address use_inner use_tiny

  -- `SendTransaction`, which panics where the node cannot be reached.
  unfoldable pub send_transaction : SignedTx → Result Bytes
  send_transaction signed =
      if services.connect_rpc
      then elim (services.send_raw_transaction signed) [ none ↦ failure | some hash ↦ value hash ]
      else crash

  -- The libraries of `ParseMempoolTransaction`, with the addresses of the wallet and their form.
  abbrev pub outside_of : Wallet D → Outside
  outside_of w = record services.outside {
    load_addr_path = load_addr_path w.addrs;
    show_address = wallet_form services.keys param w.config.chain_name;
  }

  -- The end of a handler that has sent a transaction: the store follows, and the hash is returned.
  unfoldable pub reply_sent : Wallet D → SignedTx → Bytes → Bytes → Outcome D
  reply_sent w signed name hash =
      if services.connect_mempool
      then elim (parse_mempool_transaction services.badger (outside_of w) (services.tx_chain signed)
          w.db) [
            | none ↦ aborted (signed ∷ [])
            | some db ↦ answered (respond 0 (field name hash)) (record w { db = db }) (signed ∷ [])
          ]
      else answered (respond 0 (field name hash)) w (signed ∷ [])

  -- The end of the handlers that sign and send.
  unfoldable pub sign_and_send : Wallet D → MsgTx → Outcome D
  sign_and_send w tx =
      elim (sign_msg_tx services.keys param services.signer w.config.chain_name w.config.xpriv
        services.badger w.db w.addrs tx) [
          | crash ↦ aborted []
          | failure ↦ refuse w 500 "tx cannot be signed"
          | value signed ↦ elim (send_transaction signed) [
            | crash ↦ aborted []
            | failure ↦ refuse_of w 500 "send tx err:"
            | value hash ↦ reply_sent w signed (codes "txhash") hash
          ]
        ]

  -- `SendCoinHandler` behind its checks, with the legacy address and the amount.
  unfoldable pub send_coin : Wallet D → Bytes → ℤ → Outcome D
  send_coin w to amount =
      elim (create_tx w [] (record { address = to; amount = amount; script = [] } ∷ []) [] true
        false) [
          | panicked ↦ aborted []
          | refused ↦ refuse w 500 "utxo out of balance"
          | created tx has_change ↦ sign_and_send w tx
        ]

  -- An address as `CreateTxForOutputs` takes it.
  unfoldable pub to_legacy : Wallet D → Bytes → Bytes
  to_legacy w to =
      if on_bch w.config.chain_name
      then or_empty (convert_cash_addr_to_legacy services.keys param to)
      else to

  unfoldable pub send_coin_handler : Wallet D → Request → Outcome D
  send_coin_handler w r = elim (r.form) [
    | none ↦ refuse w 400 "Could not parse parameters"
    | some get ↦
        let to = get (codes "to") in
        let amount_str = get (codes "amount") in
        if length to == 0
        then refuse w 400 "Missing to field"
        else if not (verify_address services.keys param w.config.chain_name to)
        then refuse w 400 "Invalid to address"
        else if length amount_str == 0
        then refuse w 400 "Missing amount field"
        else elim (read_amount amount_str) [
          | crash ↦ aborted []
          | failure ↦ refuse w 400 "invalid amount"
          | value amount ↦ send_coin w (to_legacy w to) amount
        ]
  ]

  unfoldable pub get_addr_handler : Wallet D → Request → Outcome D
  get_addr_handler w r =
      elim (get_new_external_addr services.keys param w.config.xpub w.config.index w.addrs) [
        | none ↦ refuse w 500 "Couldn't create eth address"
        | some (legacy, addrs) ↦ elim (wallet_form services.keys param w.config.chain_name legacy) [
          | none ↦ aborted []
          | some addr ↦
              answered (respond 0 (text addr))
                (record w {
                  config = record w.config { index = (w.config.index + 1) % 2 ^ 32 };
                  addrs = store_addr_path addr (path_text 0 w.config.index) addrs;
                })
                []
        ]
      ]

  unfoldable pub balance_reply : Wallet D → ℤ → Outcome D
  balance_reply w balance =
      answered (respond 0 (field (codes "balance") (left_shift (format_int balance) 8))) w []

  -- The balances of the store never fail but by a panic.
  unfoldable pub get_inner_balance_handler : Wallet D → Request → Outcome D
  get_inner_balance_handler w r =
      elim (get_inner_balance services.badger (load_addr_path w.addrs) w.db false) [
        | none ↦ aborted []
        | some balance ↦ balance_reply w balance
      ]

  unfoldable pub get_balance_handler : Wallet D → Request → Outcome D
  get_balance_handler w r =
      let address = r.query (codes "address") in
      if not (length address == 0)
        && not (verify_address services.keys param w.config.chain_name address)
      then refuse w 400 "Invalid address"
      else elim (get_balance services.badger w.db address false) [
        | none ↦ aborted []
        | some balance ↦ balance_reply w balance
      ]

  unfoldable pub dump_utxo_handler : Wallet D → Request → Outcome D
  dump_utxo_handler w r = elim (get_all_utxo services.badger w.db [] true) [
    | none ↦ aborted []
    | some utxos ↦ answered (respond 0 (text (codes "Done"))) w []
  ]

  unfoldable pub send_signed_tx_handler : Wallet D → Request → Outcome D
  send_signed_tx_handler w r = elim (r.form) [
    | none ↦ refuse w 400 "Could not parse parameters"
    | some get ↦
        let str = get (codes "hex") in
        if length str == 0 then refuse w 400 "Missing hex" else elim (decode_hex str) [
          | none ↦ refuse w 400 "invalid hex string"
          | some buf ↦ elim (services.deserialize buf) [
            | none ↦ refuse w 400 "invalid serialized transaction"
            | some tx ↦ elim (send_transaction tx) [
              | crash ↦ aborted []
              | failure ↦ refuse_of w 500 "send signed tx err: "
              | value hash ↦ reply_sent w tx (codes "hash") hash
            ]
          ]
        ]
  ]

  unfoldable pub check_addr_handler : Wallet D → Request → Outcome D
  check_addr_handler w r =
      let addr = r.query (codes "address") in
      if length addr == 0
      then refuse w 400 "missing address"
      else answered
          (respond 0 (
            field (codes "result") (
              if verify_address services.keys param w.config.chain_name addr
              then codes "valid"
              else codes "invalid")))
          w []

  -- The balance of a token without what is pending.
  unfoldable pub token_balance : Wallet D → Bytes → Outcome D
  token_balance w address = elim (get_omni_pending_amount services.omni address omni_token) [
    | crash ↦ aborted []
    | failure ↦ refuse w 400 "get pending transactions error"
    | value pending ↦ elim (get_usdt_balance services.omni address) [
      | crash ↦ aborted []
      | failure ↦ refuse w 400 "get usdt balance error"
      | value balance ↦ balance_reply w (sub64 balance pending)
    ]
  ]

  unfoldable pub get_omni_balance_handler : Wallet D → Request → Outcome D
  get_omni_balance_handler w r =
      let address = r.query (codes "address") in
      if not (bytes_eq (to_lower w.config.chain_name) (codes "btc"))
      then refuse w 400 "omni coin not supported in the chain"
      else if length address == 0
      then refuse w 400 "missing address"
      else if not (verify_address services.keys param w.config.chain_name address)
      then refuse w 400 "Invalid address"
      else token_balance w address
