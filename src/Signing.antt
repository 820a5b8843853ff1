-- ===== src/Signing.antt =====
-- `SignMsgTx` of payment.go, which signs the inputs of a transaction. The signatures of the script
-- libraries are parameters.
pub mod Inner
pub mod Unsigned
pub mod Calm
pub mod Signed
mod Tests
use dashcash_wallet.Prelude.{
  ℕ, ◌+◌, ◌%◌, ◌^◌, Option, none, some, List, [], ◌∷◌, ◌++◌, if◌then◌else◌,
}
use dashcash_wallet.Prelude.Int.{ℤ, eqb_ℤ, pos, word64}
use dashcash_wallet.Text.{Bytes}
use dashcash_wallet.Decimal.{int_value, parse_int}
use dashcash_wallet.Utxos.{Badger, TxOut, error, fetched, get_utxo_by_key, panic, split_at}
use dashcash_wallet.Params.{ChainParams}
use dashcash_wallet.Payment.{MsgTx, OutPoint, get_script_from_address}
use dashcash_wallet.Addresses.{
  Addrs, Keys, convert_cash_addr_to_legacy, get_private_key, load_addr_path, on_bch, on_bsv,
  or_empty,
}

-- What a call returns: a value, an error, or nothing because it panics.
pub data Result (A : Type 0) : Type 0 where
  value : A → Result A
  failure crash : Result A

-- A transaction with the signature scripts of its inputs.
pub record SignedTx : Type 0 where
  pub tx : MsgTx
  pub scripts : List Bytes

-- The script libraries. A transaction comes with the scripts of the inputs already signed; then
-- the input, and of it the script, the key, if one was derived, and the amount. `bsv_script` makes
-- a script of a signature and of the public key of a private one.
pub record Signer : Type 0 where
  pub add_data : Bytes → Bytes
  pub btc_sign : SignedTx → ℕ → Bytes → Option Bytes → Result Bytes
  pub bch_sign : SignedTx → ℕ → Bytes → Option Bytes → ℤ → Result Bytes
  pub bsv_sign : SignedTx → ℕ → Bytes → Option Bytes → ℤ → Result Bytes
  pub bsv_script : Bytes → Bytes → Result Bytes

-- The branch and the index of a path; `none` is the panic at a path without separator.
unfoldable pub read_path : Bytes → Option (ℤ × ℤ)
read_path path = elim (split_at b'/' path) [
  | none ↦ none
  | some (branch, index) ↦ some (int_value (parse_int 32 branch), int_value (parse_int 32 index))
]

module _ (keys : Keys) (param : ChainParams) (signer : Signer) (chain xpriv : Bytes) where
  -- The script of a bsv input. Its errors stay in the block of the branch, where nothing reads
  -- them, and the script is then the empty one of the copy. Without a private key, the expression
  -- &privKey.PublicKey panics.
  unfoldable pub bsv_input : SignedTx → ℕ → Bytes → Option Bytes → ℤ → Result Bytes
  bsv_input signed i script key amount = elim (signer.bsv_sign signed i script key amount) [
    | crash ↦ crash
    | failure ↦ value []
    | value sig ↦ elim key [
      | none ↦ crash
      | some priv ↦ elim (signer.bsv_script sig priv) [
        | crash ↦ crash
        | failure ↦ value []
        | value s ↦ value s
      ]
    ]
  ]

  unfoldable pub signature_of : SignedTx → ℕ → Bytes → Option Bytes → ℤ → Result Bytes
  signature_of signed i script key amount =
      if on_bch chain
      then signer.bch_sign signed i script key amount
      else if on_bsv chain
      then bsv_input signed i script key amount
      else signer.btc_sign signed i script key

  -- The script that an output of the wallet is locked with.
  unfoldable pub locking_script : Bytes → Bytes
  locking_script address =
      get_script_from_address keys.decode_address signer.add_data (
        if on_bch chain then or_empty (convert_cash_addr_to_legacy keys param address) else address)

  module _ {D : Type 0} (badger : Badger D) (db : D) (addrs : Addrs) where
    -- An input that spends `out`, whose address has the path `path`.
    unfoldable pub sign_output : SignedTx → ℕ → TxOut → Bytes → Result Bytes
    sign_output signed i out path = elim (read_path path) [
      | none ↦ crash
      | some (branch, index) ↦
          if eqb_ℤ branch (pos 1)
          then signature_of signed i (locking_script out.address)
              (get_private_key keys param xpriv 1 (word64 index % 2 ^ 32)) out.amount
          else failure
    ]

    -- A round of the loop of `SignMsgTx`.
    unfoldable pub sign_input : SignedTx → ℕ → OutPoint → Result Bytes
    sign_input signed i point = elim (get_utxo_by_key badger db point.hash point.index) [
      | error ↦ failure
      | panic ↦ crash
      | fetched out ↦ elim (load_addr_path addrs out.address) [
        | none ↦ failure
        | some path ↦ sign_output signed i out path
      ]
    ]

    unfoldable pub sign_inputs : MsgTx → List Bytes → ℕ → List OutPoint → Result SignedTx
    sign_inputs tx scripts i [] = value (record { tx = tx; scripts = scripts })
    sign_inputs tx scripts i (point ∷ points) =
        elim (sign_input (record { tx = tx; scripts = scripts }) i point) [
          | failure ↦ failure
          | crash ↦ crash
          | value s ↦ sign_inputs tx (scripts ++ s ∷ []) (i + 1) points
        ]

    unfoldable pub sign_msg_tx : MsgTx → Result SignedTx
    sign_msg_tx tx = sign_inputs tx [] 0 tx.tx_in
