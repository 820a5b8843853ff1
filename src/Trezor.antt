-- ===== src/Trezor.antt =====
-- `PrepareTrezorSign` of payment.go, which lists what a hardware wallet needs to sign a transaction.
-- The calls of the node are parameters; the text that json.Marshal makes of a `TrezorTx` is left
-- out.
use Prim.Native.Nat.{bit_or}
use dashcash_wallet.Prelude.{
  ℕ, ◌%◌, ◌^◌, Bool, false, Option, none, some, List, [], ◌∷◌, map, length, drop, ltb,
  if◌then◌else◌,
}
use dashcash_wallet.Prelude.Int.{ℤ, word64}
use dashcash_wallet.Text.{Bytes, codes}
use dashcash_wallet.Hex.{hex_text}
use dashcash_wallet.Decimal.{format_int}
use dashcash_wallet.Utxos.{Badger, TxOut, error, fetched, get_utxo_by_key, panic}
use dashcash_wallet.Params.{ChainParams}
use dashcash_wallet.Payment.{MsgTx, OutPoint, WireOut}
use dashcash_wallet.Addresses.{
  Addrs, Keys, convert_legacy_to_cash_addr, load_addr_path, on_bch, or_empty,
}
use dashcash_wallet.Signing.{Result, crash, failure, read_path, value}

pub record TrezorInput : Type 0 where
  pub address_n : List ℕ
  pub prev_index : ℕ
  pub prev_hash : Bytes
  pub amount : Bytes

pub record TrezorRefInput : Type 0 where
  pub prev_hash : Bytes
  pub prev_index : ℕ
  pub script_sig : Bytes
  pub sequence : ℕ

pub record TrezorRefOutput : Type 0 where
  pub amount : ℤ
  pub pk_script : Bytes

pub record TrezorRefTx : Type 0 where
  pub hash : Bytes
  pub inputs : List TrezorRefInput
  pub outputs : List TrezorRefOutput
  pub version : ℤ
  pub lock_time : ℕ

-- An output is a map from texts to texts.
pub record TrezorTx : Type 0 where
  pub coin : Bytes
  pub push : Bool
  pub inputs : List TrezorInput
  pub outputs : List (List (Bytes × Bytes))
  pub ref_txs : List TrezorRefTx

-- A transaction as the node gives it.
pub record PrevIn : Type 0 where
  pub point : OutPoint
  pub signature_script : Bytes
  pub sequence : ℕ

pub record PrevTx : Type 0 where
  pub version : ℤ
  pub lock_time : ℕ
  pub ins : List PrevIn
  pub outs : List WireOut

unfoldable pub ref_tx : Bytes → PrevTx → TrezorRefTx
ref_tx hash prev = record {
  hash = hash;
  inputs =
      map
        (λ i. record {
          prev_hash = i.point.hash;
          prev_index = i.point.index;
          script_sig = hex_text i.signature_script;
          sequence = i.sequence;
        })
        prev.ins;
  outputs = map (λ o. record { amount = o.value; pk_script = hex_text o.pk_script }) prev.outs;
  version = prev.version;
  lock_time = prev.lock_time;
}

-- The node of `PrepareTrezorSign`, with the texts of the addresses of a script.
pub record TrezorNode : Type 0 where
  pub connect_rpc : Bool
  pub raw_transaction : Bytes → Option PrevTx
  pub script_addrs : Bytes → Option (List Bytes)

unfoldable pub trezor_path : ChainParams → ℤ → ℤ → List ℕ
trezor_path param branch index =
    bit_or 44 0x80000000
    ∷ bit_or param.hd_coin_type 0x80000000
    ∷ bit_or 0 0x80000000
    ∷ word64 branch % 2 ^ 32
    ∷ word64 index % 2 ^ 32
    ∷ []

module _ (keys : Keys) (param : ChainParams) (node : TrezorNode) (chain : Bytes) where
  -- The address of an output, on a bch chain in its cash form.
  unfoldable pub trezor_address : Bytes → Bytes
  trezor_address addr =
      if on_bch chain then or_empty (convert_legacy_to_cash_addr keys param addr) else addr

  unfoldable pub trezor_output : WireOut → Result (List (Bytes × Bytes))
  trezor_output out = elim (node.script_addrs out.pk_script) [
    | none ↦ failure
    | some addrs ↦ elim addrs [
      | [] ↦
          if ltb (length out.pk_script) 2
          then crash
          else value (
              (codes "amount", codes "0")
              ∷ (codes "script_type", codes "PAYTOOPRETURN")
              ∷ (codes "op_return_data", hex_text (drop 2 out.pk_script))
              ∷ [])
      | ◌∷◌ addr _ ↦ value (
          (codes "address", trezor_address addr)
          ∷ (codes "amount", format_int out.value)
          ∷ (codes "script_type", codes "PAYTOADDRESS")
          ∷ [])
    ]
  ]

  unfoldable pub trezor_outputs : List WireOut → Result (List (List (Bytes × Bytes)))
  trezor_outputs [] = value []
  trezor_outputs (out ∷ outs) = elim (trezor_output out) [
    | failure ↦ failure
    | crash ↦ crash
    | value o ↦ elim (trezor_outputs outs) [
      | failure ↦ failure
      | crash ↦ crash
      | value os ↦ value (o ∷ os)
    ]
  ]

  module _ {D : Type 0} (badger : Badger D) (db : D) (addrs : Addrs) where
    unfoldable pub trezor_input_of : OutPoint → TxOut → Result (TrezorInput × TrezorRefTx)
    trezor_input_of point out = elim (read_path (or_empty (load_addr_path addrs out.address))) [
      | none ↦ crash
      | some (branch, index) ↦ elim (node.raw_transaction point.hash) [
        | none ↦ failure
        | some prev ↦ value (
          record {
            address_n = trezor_path param branch index;
            prev_index = point.index;
            prev_hash = point.hash;
            amount = format_int out.amount;
          },
          ref_tx point.hash prev,
        )
      ]
    ]

    unfoldable pub trezor_input : OutPoint → Result (TrezorInput × TrezorRefTx)
    trezor_input point = elim (get_utxo_by_key badger db point.hash point.index) [
      | error ↦ failure
      | panic ↦ crash
      | fetched out ↦ trezor_input_of point out
    ]

    unfoldable pub trezor_inputs : List OutPoint → Result (List TrezorInput × List TrezorRefTx)
    trezor_inputs [] = value ([], [])
    trezor_inputs (point ∷ points) = elim (trezor_input point) [
      | failure ↦ failure
      | crash ↦ crash
      | value (i, r) ↦ elim (trezor_inputs points) [
        | failure ↦ failure
        | crash ↦ crash
        | value (is, rs) ↦ value (i ∷ is, r ∷ rs)
      ]
    ]

    unfoldable pub prepare_trezor_sign : MsgTx → Result TrezorTx
    prepare_trezor_sign tx =
        if node.connect_rpc
        then elim (trezor_inputs tx.tx_in) [
          | failure ↦ failure
          | crash ↦ crash
          | value (is, rs) ↦ elim (trezor_outputs tx.tx_out) [
            | failure ↦ failure
            | crash ↦ crash
            | value os ↦
                value
                  (record { coin = chain; push = false; inputs = is; outputs = os; ref_txs = rs })
          ]
        ]
        else failure
