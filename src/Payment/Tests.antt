-- ===== src/Payment/Tests.antt =====
-- A run of `CreateTxForOutputs`, and the theorem at its input.
use dashcash_wallet.Prelude.{
  ℕ, ◌+◌, ◌*◌, ◌≡◌, ◌≤◌, refl, true, none, List, [], ◌∷◌, map, arith, length, All,
}
use dashcash_wallet.Prelude.Int.{ℤ, pos, wrap64, ◌+ℤ◌, ◌-ℤ◌}
use dashcash_wallet.Text.{Bytes, codes}
use dashcash_wallet.Fees.{min_output_amount, tx_fee}
use dashcash_wallet.Utxos.{Badger, TxOut, Utxo, key_not_found}
use dashcash_wallet.Payment.{
  MsgTx, add64, add_change, add_inputs, add_tx_in, build_raw_msg_tx, candidates, change_output,
  choose, create_from, created, finish, get_script_from_address, keep, pub_key_hash, round_fee,
  start_choice, take_sender, total_amount, wire_out,
}
use dashcash_wallet.Payment.Spending.{IsFee, point_of, spent_value}
use dashcash_wallet.Payment.Value.{IsChangeScript, IsPaid, create_from-IsPaid}

abbrev no_store : Badger ℕ
no_store = record {
  get = λ d k. key_not_found;
  put = λ d k v. none;
  delete = λ d k. none;
  items = λ d. [];
}

abbrev push : Bytes → Bytes
push d = 20 ∷ d

-- The size of a transaction with plain inputs and outputs.
abbrev plain_size : MsgTx → ℕ
plain_size tx = 10 + 148 * length tx.tx_in + 34 * length tx.tx_out

abbrev coin : Utxo
coin = record { hash = codes "ab"; index = 1; address = codes "m"; value = pos 1000000 }

abbrev payee : TxOut
payee = record { address = codes "p"; amount = pos 500000; script = [] }

abbrev paid : MsgTx
paid = record {
  tx_in = record { hash = codes "ab"; index = 1 } ∷ [];
  tx_out =
      record { value = pos 500000; pk_script = 118 ∷ 169 ∷ 20 ∷ 112 ∷ 136 ∷ 172 ∷ [] }
      ∷ record { value = pos 497700; pk_script = 118 ∷ 169 ∷ 20 ∷ 99 ∷ 136 ∷ 172 ∷ [] }
      ∷ [];
}

create_run :
    create_from pub_key_hash push no_store 0
      (λ a. a)
      (λ a. none)
      plain_size
      10000
      []
      (payee ∷ [])
      (codes "c")
      true
      (coin ∷ [])
    ≡ created paid true
unfolding create_from total_amount choose keep take_sender start_choice build_raw_msg_tx wire_out
    get_script_from_address candidates add_inputs add_tx_in round_fee tx_fee min_output_amount
    finish change_output add_change wrap64 ◌+ℤ◌ ◌-ℤ◌
create_run = refl

create_from-IsPaid_example :
    (spent : List Utxo) × (fee : ℤ) × (total : ℤ) × (before : MsgTx) × (paid.tx_in
      ≡ map point_of spent)
    × All (λ o. o.index ≤ 1) spent
    × (before.tx_in ≡ paid.tx_in)
    × (before.tx_out ≡ map (wire_out pub_key_hash push) (payee ∷ []))
    × IsFee plain_size 10000 total (total_amount (pos 0) (payee ∷ [])) before fee
    × IsPaid
        (IsChangeScript pub_key_hash push no_store 0 (λ a. a) (codes "c") paid.tx_in)
        (map (wire_out pub_key_hash push) (payee ∷ []))
        (spent_value (pos 0) spent)
        (add64 (total_amount (pos 0) (payee ∷ [])) fee)
        (pos (min_output_amount 10000))
        paid
        true
create_from-IsPaid_example =
    create_from-IsPaid pub_key_hash push no_store 0 (λ a. a) (λ a. none) plain_size
      (λ o. o.index ≤ 1) 10000 [] (payee ∷ []) (codes "c") true (coin ∷ []) paid true
      (omega arith, record {}) create_run
