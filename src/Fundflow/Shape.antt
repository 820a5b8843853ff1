-- ===== src/Fundflow/Shape.antt =====
-- The shape of what fundflow.go stores.
use dashcash_wallet.Prelude.{
  ℕ, ◌≡◌, refl, sym, none, some, Option-cases, Bool-cases, ◌⊎◌, inl, inr, List, arith, get_elem?,
  length,
}
use dashcash_wallet.Prelude.Int.{ℤ}
use dashcash_wallet.Text.{Bytes}
use dashcash_wallet.Notify.{NotifyMessage, TxType}
use dashcash_wallet.Fundflow.{
  Civil, CoinIds, FlowDb, ask, coin_id, quote, row, save_fun_flow, save_with_coin, stop, two_rows,
}
use dashcash_wallet.Fundflow.Rows.{
  admin_fee_fields, admin_withdraw_fields, deposit_fields, deposit_sys_fields, enter_fundflow_db,
  inner_fields, inner_rows, save_admin_withdraw_tx_flow, save_by_type, save_deposit_tx_flow,
  save_inner_tx_flow, save_inner_unknown, save_user_withdraw_tx_flow, user_fee_fields,
  user_withdraw_fields,
}

-- The fields of the first row of a transaction: fifteen, with the symbol and the hash in place.
pub record IsRow (message : NotifyMessage) (symbol : Bytes) (fields : List Bytes) : Type 0 where
  pub count : length fields ≡ 15
  pub symbol_field : get_elem? fields 7 ≡ some (quote symbol)
  pub hash_field : get_elem? fields 9 ≡ some (quote message.tx_hash)

-- One such row, or two, the second of which has as many fields.
abbrev pub IsFlow : NotifyMessage → Bytes → Bytes → Type 0
IsFlow message symbol text =
    ((fields : List Bytes) × IsRow message symbol fields × (text ≡ row fields))
    ⊎ ((fields : List Bytes) × (second : List Bytes) × IsRow message symbol fields
        × (length second ≡ 15)
        × (text ≡ two_rows fields second))

module _ (db : FlowDb) (civil : ℕ → Civil) (rand : ℕ → ℕ) where
  save_with_coin-inserted :
      (symbol : Bytes) (ids : CoinIds) (rows : ℤ → Bytes) (P : Bytes → Type 0) (text : Bytes)
      → ((coin : ℤ) → P (rows coin))
      → (save_with_coin db civil rand symbol ids rows).inserted ≡ some text
      → P text
  unfolding save_with_coin save_fun_flow stop
  save_with_coin-inserted symbol ids rows P text h e =
      elim (Option-cases (coin_id db civil rand symbol ids).0) [
        | inl f ↦ not_none (rw (save_with_coin, f) at e)
        | inr (coin, f) ↦ same (rows coin) (h coin) (rw (save_with_coin, f) at e)
      ]
    where
      not_none : {A : Type 0} → none ≡ some text → A
      not_none e = ground arith

      same : (t : Bytes) → P t → some t ≡ some text → P text
      same t h e = let e' : t ≡ text = ground arith in rw (sym e') h

  stop-inserted :
      (ids : CoinIds) (A : Type 0) (text : Bytes)
      → (stop db civil rand ids).inserted ≡ some text
      → A
  unfolding stop
  stop-inserted ids A text e = ground arith

  module _ (message : NotifyMessage) (symbol fee : Bytes) where
    module _ (user : ℤ) (flow_id sys_flow_id : Bytes) (coin : ℤ) where
      one_row :
          IsFlow message symbol
            (row (inner_fields message symbol fee user flow_id sys_flow_id coin))
      unfolding inner_fields
      one_row = inl (_, record { count = refl; symbol_field = refl; hash_field = refl }, refl)

      inner_rows-IsFlow :
          (t : TxType)
          → IsFlow message symbol (inner_rows message symbol fee user flow_id sys_flow_id coin t)
      unfolding inner_rows inner_fields admin_fee_fields
      inner_rows-IsFlow TxType.fund_collection =
          inr (_, _, record { count = refl; symbol_field = refl; hash_field = refl }, refl, refl)
      inner_rows-IsFlow TxType.unset = one_row
      inner_rows-IsFlow TxType.none = one_row
      inner_rows-IsFlow TxType.user_deposit = one_row
      inner_rows-IsFlow TxType.admin_deposit = one_row
      inner_rows-IsFlow TxType.user_withdraw = one_row
      inner_rows-IsFlow TxType.admin_withdraw = one_row

    module _ (ids : CoinIds) (text : Bytes) where
      abbrev IsSaved : (ℤ → Bytes) → Type 0
      IsSaved rows = (save_with_coin db civil rand symbol ids rows).inserted ≡ some text

      inner_of-IsFlow :
          (user : ℤ) (flow_id sys_flow_id : Bytes)
          → IsSaved
              (λ coin. inner_rows message symbol fee user flow_id sys_flow_id coin message.tx_type)
          → IsFlow message symbol text
      inner_of-IsFlow user flow_id sys_flow_id e =
          save_with_coin-inserted symbol ids _ (IsFlow message symbol) text
            (λ coin. inner_rows-IsFlow user flow_id sys_flow_id coin message.tx_type) e

      unknown-IsFlow :
          (t : TxType)
          → (save_inner_unknown db civil rand message symbol fee ids t).inserted ≡ some text
          → IsFlow message symbol text
      unfolding save_inner_unknown
      unknown-IsFlow TxType.admin_deposit e = inner_of-IsFlow _ _ _ e
      unknown-IsFlow TxType.fund_collection e = stop-inserted ids _ text e
      unknown-IsFlow TxType.user_deposit e = stop-inserted ids _ text e
      unknown-IsFlow TxType.user_withdraw e = stop-inserted ids _ text e
      unknown-IsFlow TxType.admin_withdraw e = stop-inserted ids _ text e
      unknown-IsFlow TxType.unset e = stop-inserted ids _ text e
      unknown-IsFlow TxType.none e = stop-inserted ids _ text e

      inner-IsFlow :
          (save_inner_tx_flow db civil rand message symbol fee ids).inserted ≡ some text
          → IsFlow message symbol text
      unfolding save_inner_tx_flow
      inner-IsFlow e = elim (Bool-cases (ask db.sys_user_id_by_sweep_hash message.tx_hash).1) [
        | inl f ↦ inner_of-IsFlow _ _ _ (rw (save_inner_tx_flow, f) at e)
        | inr f ↦ unknown-IsFlow message.tx_type (rw (save_inner_tx_flow, f) at e)
      ]

      deposit-IsFlow :
          (save_deposit_tx_flow db civil rand message symbol fee ids).inserted ≡ some text
          → IsFlow message symbol text
      unfolding save_deposit_tx_flow deposit_fields deposit_sys_fields
      deposit-IsFlow e = elim (Bool-cases (ask db.user_id_by_recharge_address message.address).1) [
        | inl f ↦
            save_with_coin-inserted symbol ids _ (IsFlow message symbol) text
              (λ coin.
                inr (
                  _,
                  _,
                  record { count = refl; symbol_field = refl; hash_field = refl },
                  refl,
                  refl,
                ))
              (rw (save_deposit_tx_flow, f) at e)
        | inr f ↦ stop-inserted ids _ text (rw (save_deposit_tx_flow, f) at e)
      ]

      by_type-IsFlow :
          (t : TxType)
          → (save_by_type db civil rand message symbol fee ids t).inserted ≡ some text
          → IsFlow message symbol text
      unfolding save_by_type save_user_withdraw_tx_flow save_admin_withdraw_tx_flow
          user_withdraw_fields user_fee_fields admin_withdraw_fields admin_fee_fields
      by_type-IsFlow TxType.fund_collection e = inner-IsFlow e
      by_type-IsFlow TxType.admin_deposit e = inner-IsFlow e
      by_type-IsFlow TxType.user_deposit e = deposit-IsFlow e
      by_type-IsFlow TxType.user_withdraw e =
          save_with_coin-inserted symbol ids _ (IsFlow message symbol) text
            (λ coin.
              inr
                (_, _, record { count = refl; symbol_field = refl; hash_field = refl }, refl, refl))
            e
      by_type-IsFlow TxType.admin_withdraw e =
          save_with_coin-inserted symbol ids _ (IsFlow message symbol) text
            (λ coin.
              inr
                (_, _, record { count = refl; symbol_field = refl; hash_field = refl }, refl, refl))
            e
      by_type-IsFlow TxType.unset e = ground arith
      by_type-IsFlow TxType.none e = ground arith

-- What `EnterFundflowDB` stores is one row or two, of fifteen fields each; the first holds the
-- quoted symbol and the quoted hash of the transaction in its eighth and tenth field.
pub enter_fundflow_db-IsFlow :
    (db : FlowDb) (civil : ℕ → Civil) (rand : ℕ → ℕ) (message : NotifyMessage) (symbol fee : Bytes)
    (ids : CoinIds) (text : Bytes)
    → (enter_fundflow_db db civil rand message symbol fee ids).inserted ≡ some text
    → IsFlow message symbol text
unfolding enter_fundflow_db
enter_fundflow_db-IsFlow db civil rand message symbol fee ids text e =
    by_type-IsFlow db civil rand message symbol fee ids text message.tx_type e
