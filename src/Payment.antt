-- ===== src/Payment.antt =====
-- `BuildRawMsgTx` and `getScriptFromAddress` of payment.go, and `CreateTxForOutputs` of db.go. The
-- libraries for addresses, scripts, hashes and the size of a transaction are parameters. The
-- texts of hashes come from the store, for which NewHashFromStr succeeds.
pub mod Spending
pub mod Value
mod Tests
use dashcash_wallet.Prelude.{
  ℕ, ◌+◌, ◌%◌, ◌^◌, Bool, true, false, ◌&&◌, ◌||◌, not, Option, none, some, List, [], ◌∷◌, ◌++◌,
  map, length, drop, ltb, ◌==◌, if◌then◌else◌,
}
use dashcash_wallet.Prelude.Int.{ℤ, pos, negsuc, ◌+ℤ◌, ◌-ℤ◌, eqb_ℤ, leb_ℤ, ltb_ℤ, sub_ℕ, wrap64}
use dashcash_wallet.Text.{Bytes, bytes_eq}
use dashcash_wallet.Fees.{min_output_amount, tx_fee, tx_max_size, tx_output_size}
use dashcash_wallet.Utxos.{
  Badger, Fetched, TxOut, Utxo, error, fetched, get_all_utxo, get_all_utxo_by_branch,
  get_utxo_by_key, panic,
}

-- What btcutil.DecodeAddress makes of a text: the kinds of addresses with their data, or none of
-- them.
pub data Address : Type 0 where
  witness_pub_key_hash witness_script_hash pub_key pub_key_hash script_hash : Bytes → Address
  no_address : Address

pub record OutPoint : Type 0 where
  pub hash : Bytes
  pub index : ℕ

pub record WireOut : Type 0 where
  pub value : ℤ
  pub pk_script : Bytes

-- The inputs and outputs of a wire.MsgTx.
pub record MsgTx : Type 0 where
  pub tx_in : List OutPoint
  pub tx_out : List WireOut

-- int64 arithmetic.
abbrev pub add64 : ℤ → ℤ → ℤ
add64 a b = wrap64 (a +ℤ b)

abbrev pub sub64 : ℤ → ℤ → ℤ
sub64 a b = wrap64 (a -ℤ b)

-- Go's remainder by 100, which has the sign of the number.
abbrev pub rem100 : ℤ → ℤ
rem100 (pos n) = pos (n % 100)
rem100 (negsuc n) = sub_ℕ 0 ((n + 1) % 100)

unfoldable pub add_tx_in : Utxo → MsgTx → MsgTx
add_tx_in o tx = record tx { tx_in = tx.tx_in ++ record { hash = o.hash; index = o.index } ∷ [] }

abbrev pub utxo_eq : Utxo → Utxo → Bool
utxo_eq o p =
    bytes_eq o.hash p.hash
    && (o.index == p.index && (bytes_eq o.address p.address && eqb_ℤ o.value p.value))

unfoldable pub total_amount : ℤ → List TxOut → ℤ
total_amount amount [] = amount
total_amount amount (out ∷ outs) = total_amount (add64 amount out.amount) outs

-- The variables of the first loop of `CreateTxForOutputs`; `kept` is what it has written to the
-- front of `utxos`, and `has_input` says that `inputs` is no longer empty.
pub record Choice : Type 0 where
  pub kept : List Utxo
  pub total_balance : ℤ
  pub has_input : Bool
  pub used_utxo : Utxo
  pub balance : ℤ
  pub tx : MsgTx

unfoldable pub keep : Bytes → Bool → Utxo → Choice → Choice
keep sender use_tiny o c =
    if (length sender == 0 && (leb_ℤ o.value (pos 546) && use_tiny)) || ltb_ℤ (pos 546) o.value
    then record c { kept = c.kept ++ o ∷ []; total_balance = add64 c.total_balance o.value }
    else c

-- The first output of the sender is spent whatever its value.
unfoldable pub take_sender : Bytes → Utxo → Choice → Choice
take_sender sender o c =
    if not c.has_input && bytes_eq o.address sender
    then record c {
      used_utxo = o;
      balance = add64 c.balance o.value;
      tx = add_tx_in o c.tx;
      has_input = true;
      total_balance =
          if leb_ℤ o.value (pos 546) then add64 c.total_balance o.value else c.total_balance;
    }
    else c

unfoldable pub choose : Bytes → Bool → List Utxo → Choice → Choice
choose sender use_tiny [] c = c
choose sender use_tiny (o ∷ utxos) c =
    choose sender use_tiny utxos (take_sender sender o (keep sender use_tiny o c))

-- The variables of the second loop; `none` is the nil that it leaves for a transaction too large.
pub record Spend : Type 0 where
  pub tx : Option MsgTx
  pub balance : ℤ
  pub fee_amount : ℤ

unfoldable pub start_choice : MsgTx → Choice
start_choice tx = record {
  kept = [];
  total_balance = pos 0;
  has_input = false;
  used_utxo = record { hash = []; index = 0; address = []; value = pos 0 };
  balance = pos 0;
  tx = tx;
}

-- `utxos` behind the first loop.
unfoldable pub candidates : Bytes → List Utxo → List Utxo → List Utxo
candidates sender utxos kept = if length sender == 0 then kept ++ drop (length kept) utxos else kept

-- The fee of the second loop, raised so that the rest of the wallet is a multiple of 100.
unfoldable pub round_fee : ℤ → ℤ → ℤ → ℤ
round_fee total amount fee =
    if ltb_ℤ (add64 amount fee) total
    then add64 fee (rem100 (sub64 total (add64 amount fee)))
    else fee

module _ (serialize_size : MsgTx → ℕ) (fee_per_kb : ℕ) where
  unfoldable pub add_inputs : ℤ → ℤ → Utxo → List Utxo → MsgTx → ℤ → ℤ → Spend
  add_inputs total amount used [] tx balance fee = record {
    tx = some tx;
    balance = balance;
    fee_amount = fee;
  }
  add_inputs total amount used (o ∷ utxos) tx balance fee =
      let tx' = add_tx_in o tx in
      let size = serialize_size tx' + tx_output_size in
      let balance' = add64 balance o.value in
      let fee' = round_fee total amount (pos (tx_fee fee_per_kb (size % 2 ^ 32))) in
      let skip = add_inputs total amount used utxos tx balance fee in
      let more = add_inputs total amount used utxos tx' balance' fee' in
      if utxo_eq o used
      then skip
      else if ltb tx_max_size size
      then record { tx = none; balance = balance; fee_amount = fee }
      else if eqb_ℤ balance' (add64 amount fee')
          || leb_ℤ (add64 (add64 amount fee') (pos (min_output_amount fee_per_kb))) balance'
      then record { tx = some tx'; balance = balance'; fee_amount = fee' }
      else more

-- What `CreateTxForOutputs` returns: nil, or a transaction and whether change was added.
pub data Created : Type 0 where
  refused panicked : Created
  created : MsgTx → Bool → Created

-- The libraries, and the functions on addresses of the cash chains. `Bytes → Address` decodes,
-- and `add_data` is the push of some data in a script.
module _ (decode_address : Bytes → Address) (add_data : Bytes → Bytes) where
  unfoldable pub get_script_from_address : Bytes → Bytes
  get_script_from_address address = elim (decode_address address) [
    | witness_pub_key_hash d ↦ 0 ∷ add_data d
    | witness_script_hash d ↦ 0 ∷ add_data d
    | pub_key d ↦ add_data d ++ 172 ∷ []
    | pub_key_hash d ↦ 118 ∷ 169 ∷ (add_data d ++ 136 ∷ 172 ∷ [])
    | script_hash d ↦ 169 ∷ (add_data d ++ 135 ∷ [])
    | no_address ↦ []
  ]

  unfoldable pub wire_out : TxOut → WireOut
  wire_out out = record {
    value = out.amount;
    pk_script = if length out.address == 0 then out.script else get_script_from_address out.address;
  }

  -- `BuildRawMsgTx` without inputs, as `CreateTxForOutputs` calls it.
  unfoldable pub build_raw_msg_tx : List TxOut → MsgTx
  build_raw_msg_tx outputs = record { tx_in = []; tx_out = map wire_out outputs }

  unfoldable pub add_change : Bytes → ℤ → MsgTx → Created
  add_change address value tx =
      created
        (record tx {
          tx_out =
              tx.tx_out
              ++ record { value = value; pk_script = get_script_from_address address } ∷ [];
        })
        true

  module _ {D : Type 0} (badger : Badger D) (db : D) (to_legacy : Bytes → Bytes) where
    -- Without a change address the change goes to the address of the first input; `to_legacy` is
    -- ConvertCashAddrToLegacy on a bch chain and nothing on the others.
    unfoldable pub change_output : Bytes → ℤ → MsgTx → Created
    change_output change_address value tx =
        if length change_address == 0
        then elim (tx.tx_in) [
          | [] ↦ panicked
          | ◌∷◌ point _ ↦ elim (get_utxo_by_key badger db point.hash point.index) [
            | error ↦ refused
            | panic ↦ panicked
            | fetched out ↦ add_change (to_legacy out.address) value tx
          ]
        ]
        else add_change change_address value tx

    -- `CreateTxForOutputs` behind its loops.
    unfoldable pub finish : ℕ → List TxOut → ℤ → Bytes → Spend → Created
    finish fee_per_kb outputs amount change_address s = elim (s.tx) [
      | none ↦ refused
      | some tx ↦
          if length outputs == 0 || ltb_ℤ s.balance (add64 amount s.fee_amount)
          then refused
          else if leb_ℤ (pos (min_output_amount fee_per_kb))
              (sub64 s.balance (add64 amount s.fee_amount))
          then change_output change_address (sub64 s.balance (add64 amount s.fee_amount)) tx
          else created tx false
    ]

    module _ (load_addr_path : Bytes → Option Bytes) (serialize_size : MsgTx → ℕ) where
      -- `CreateTxForOutputs` with the outputs of the wallet that it may spend.
      unfoldable pub create_from : ℕ → Bytes → List TxOut → Bytes → Bool → List Utxo → Created
      create_from fee_per_kb sender outputs change_address use_tiny utxos =
          let amount = total_amount (pos 0) outputs in
          let c = choose sender use_tiny utxos (start_choice (build_raw_msg_tx outputs)) in
          let size = (serialize_size c.tx % 2 ^ 32 + tx_output_size) % 2 ^ 32 in
          if length utxos == 0
          then refused
          else finish fee_per_kb outputs amount change_address (
              add_inputs serialize_size fee_per_kb c.total_balance amount c.used_utxo
                (candidates sender utxos c.kept) c.tx c.balance (pos (tx_fee fee_per_kb size)))

      unfoldable pub create_tx_for_outputs : ℕ → Bytes → List TxOut → Bytes → Bool → Bool → Created
      create_tx_for_outputs fee_per_kb sender outputs change_address use_inner use_tiny =
          elim (if use_inner
            then get_all_utxo_by_branch badger load_addr_path db 1 use_tiny
            else get_all_utxo badger db [] use_tiny) [
              | none ↦ panicked
              | some utxos ↦ create_from fee_per_kb sender outputs change_address use_tiny utxos
            ]
