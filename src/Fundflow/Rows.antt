-- ===== src/Fundflow/Rows.antt =====
-- The functions of fundflow.go that make the rows of a transaction, one for each of its kinds, and
-- `EnterFundflowDB`, which chooses among them.
use dashcash_wallet.Prelude.{ℕ, true, none, List, [], ◌∷◌, ◌++◌, String, if◌then◌else◌}
use dashcash_wallet.Prelude.Int.{ℤ, pos}
use dashcash_wallet.Text.{Bytes, codes, utf8}
use dashcash_wallet.Decimal.{format_int, format_uint}
use dashcash_wallet.Shift.{left_shift}
use dashcash_wallet.Notify.{NotifyMessage, TxType}
use dashcash_wallet.Fundflow.{
  Civil, CoinIds, FlowDb, Saved, ask, first_of, generate_flow_id, quote, rest_of, row,
  save_with_coin, stop, two_rows,
}

-- The code of an entry for a coin.
unfoldable pub coin_code : String → ℤ → Bytes
coin_code kind coin = codes kind ++ format_int coin

unfoldable pub shown_amount : NotifyMessage → Bytes
shown_amount message = left_shift (format_int message.amount) 8

-- "@%d@0" of a user.
unfoldable pub only_user : ℤ → Bytes
only_user user = codes "@" ++ (format_int user ++ codes "@0")

abbrev category : Bytes
category = quote (utf8 "资产充提")

-- The message with what is looked up for it, and the two flow numbers.
module _ (message : NotifyMessage) (symbol fee : Bytes) (user : ℤ) (flow_id sys_flow_id : Bytes)
    (coin : ℤ) where
  unfoldable pub inner_fields : List Bytes
  inner_fields =
      format_int user
      ∷ quote flow_id
      ∷ quote (format_uint message.block_time)
      ∷ category
      ∷ quote (coin_code "1.3.1." coin)
      ∷ quote (utf8 "管理员充币")
      ∷ quote (only_user user)
      ∷ quote symbol
      ∷ quote (shown_amount message)
      ∷ quote message.tx_hash
      ∷ quote message.address
      ∷ quote (codes "SYS.A")
      ∷ codes "1"
      ∷ codes "1"
      ∷ codes "1"
      ∷ []

  -- The row of the fee that an administrator pays.
  unfoldable pub admin_fee_fields : List Bytes
  admin_fee_fields =
      format_int user
      ∷ quote sys_flow_id
      ∷ format_uint message.block_time
      ∷ category
      ∷ quote (coin_code "1.4.2." coin)
      ∷ quote (utf8 "管理员提币链上手续费")
      ∷ quote (only_user user)
      ∷ quote symbol
      ∷ fee
      ∷ quote message.tx_hash
      ∷ quote (codes "SYS.A")
      ∷ quote message.address
      ∷ codes "1"
      ∷ codes "2"
      ∷ codes "1"
      ∷ []

  -- A collection comes with its fee.
  unfoldable pub inner_rows : TxType → Bytes
  inner_rows TxType.fund_collection = two_rows inner_fields admin_fee_fields
  inner_rows _ = row inner_fields

  unfoldable pub admin_withdraw_fields : List Bytes
  admin_withdraw_fields =
      format_int user
      ∷ quote flow_id
      ∷ format_uint message.block_time
      ∷ category
      ∷ quote (coin_code "1.4.1." coin)
      ∷ quote (utf8 "管理员提币")
      ∷ quote (only_user user)
      ∷ quote symbol
      ∷ shown_amount message
      ∷ quote message.tx_hash
      ∷ quote (codes "SYS.A")
      ∷ quote message.address
      ∷ codes "1"
      ∷ codes "2"
      ∷ codes "1"
      ∷ []

  -- A withdrawal of a user, with those who checked it.
  unfoldable pub user_withdraw_fields : ℤ → ℤ → List Bytes
  user_withdraw_fields checker1 checker2 =
      format_int user
      ∷ quote flow_id
      ∷ format_uint message.block_time
      ∷ category
      ∷ quote (coin_code "1.2.1." coin)
      ∷ quote (utf8 "用户普通提币")
      ∷ quote (
          format_int user
          ++ (codes "@"
              ++ (format_int checker1 ++ (codes "@" ++ (format_int checker2 ++ codes "@0")))))
      ∷ quote symbol
      ∷ shown_amount message
      ∷ quote message.tx_hash
      ∷ quote (format_int user ++ codes ".0")
      ∷ quote message.address
      ∷ codes "1"
      ∷ codes "2"
      ∷ codes "1"
      ∷ []

  unfoldable pub user_fee_fields : ℤ → List Bytes
  user_fee_fields checker2 =
      format_int user
      ∷ quote sys_flow_id
      ∷ format_uint message.block_time
      ∷ category
      ∷ quote (coin_code "1.2.3." coin)
      ∷ quote (utf8 "用户提币链上手续费")
      ∷ quote (only_user checker2)
      ∷ quote symbol
      ∷ fee
      ∷ quote message.tx_hash
      ∷ quote (codes "SYS.A")
      ∷ quote message.address
      ∷ codes "1"
      ∷ codes "2"
      ∷ codes "1"
      ∷ []

  unfoldable pub deposit_fields : List Bytes
  deposit_fields =
      format_int user
      ∷ quote flow_id
      ∷ format_uint message.block_time
      ∷ category
      ∷ quote (coin_code "1.1.0." coin)
      ∷ quote (utf8 "用户普通充币到钱包(到钱包)")
      ∷ quote (format_int user ++ codes "@0")
      ∷ quote symbol
      ∷ shown_amount message
      ∷ quote message.tx_hash
      ∷ quote message.address
      ∷ quote (codes "SYS.A")
      ∷ codes "1"
      ∷ codes "1"
      ∷ codes "1"
      ∷ []

  unfoldable pub deposit_sys_fields : List Bytes
  deposit_sys_fields =
      format_int user
      ∷ quote sys_flow_id
      ∷ format_uint message.block_time
      ∷ category
      ∷ quote (coin_code "1.1.1." coin)
      ∷ quote (utf8 "用户普通充币到钱包(到系统)")
      ∷ quote (format_int user)
      ∷ quote symbol
      ∷ shown_amount message
      ∷ quote flow_id
      ∷ quote (codes "SYS.A")
      ∷ quote (format_int user ++ codes ".0")
      ∷ codes "1"
      ∷ codes "1"
      ∷ codes "1"
      ∷ []

-- The functions that save a transaction, which draw at most two random numbers each.
module _ (db : FlowDb) (civil : ℕ → Civil) (rand : ℕ → ℕ) (message : NotifyMessage)
    (symbol fee : Bytes) (ids : CoinIds) where
  abbrev flow_id : ℤ → Bytes
  flow_id user = generate_flow_id db civil rand 0 message user

  abbrev sys_flow_id : ℤ → Bytes
  sys_flow_id user = generate_flow_id db civil rand 1 message user

  abbrev save : (ℤ → Bytes) → Saved
  save = save_with_coin db civil rand symbol ids

  abbrev save_inner_of : ℤ → Saved
  save_inner_of user = save (λ coin.
      inner_rows message symbol fee user (flow_id user) (sys_flow_id user) coin message.tx_type)

  -- A transfer to the inner addresses whose user is not found: only a deposit of an administrator
  -- goes on.
  unfoldable pub save_inner_unknown : TxType → Saved
  save_inner_unknown TxType.admin_deposit = save_inner_of (pos 0)
  save_inner_unknown _ = stop db civil rand ids

  unfoldable pub save_inner_tx_flow : Saved
  save_inner_tx_flow =
      let (values, known) = ask db.sys_user_id_by_sweep_hash message.tx_hash in
      if known then save_inner_of (first_of values) else save_inner_unknown message.tx_type

  -- Both withdrawals go on where their users are not found.
  unfoldable pub save_admin_withdraw_tx_flow : Saved
  save_admin_withdraw_tx_flow =
      let user = first_of (ask db.sys_user_id_by_sweep_hash message.tx_hash).0 in
      save (λ coin.
        two_rows
          (admin_withdraw_fields message symbol fee user (flow_id user) (sys_flow_id user) coin)
          (admin_fee_fields message symbol fee user (flow_id user) (sys_flow_id user) coin))

  unfoldable pub save_user_withdraw_tx_flow : Saved
  save_user_withdraw_tx_flow =
      let values = (ask db.user_ids_by_withdraw_hash message.tx_hash).0 in
      let user = first_of values in
      let checker1 = first_of (rest_of values) in
      let checker2 = first_of (rest_of (rest_of values)) in
      save (λ coin.
        two_rows
          (user_withdraw_fields message symbol fee user (flow_id user) (sys_flow_id user) coin
            checker1 checker2)
          (user_fee_fields message symbol fee user (flow_id user) (sys_flow_id user) coin checker2))

  unfoldable pub save_deposit_tx_flow : Saved
  save_deposit_tx_flow =
      let (values, known) = ask db.user_id_by_recharge_address message.address in
      let user = first_of values in
      if known
      then save (λ coin.
        two_rows (deposit_fields message symbol fee user (flow_id user) (sys_flow_id user) coin)
          (deposit_sys_fields message symbol fee user (flow_id user) (sys_flow_id user) coin))
      else stop db civil rand ids

  -- `EnterFundflowDB` for a type, which is no error for a transaction of no kind.
  unfoldable pub save_by_type : TxType → Saved
  save_by_type TxType.fund_collection = save_inner_tx_flow
  save_by_type TxType.admin_deposit = save_inner_tx_flow
  save_by_type TxType.user_deposit = save_deposit_tx_flow
  save_by_type TxType.user_withdraw = save_user_withdraw_tx_flow
  save_by_type TxType.admin_withdraw = save_admin_withdraw_tx_flow
  save_by_type TxType.unset = record { coin_ids = ids; inserted = none; succeeded = true }
  save_by_type TxType.none = record { coin_ids = ids; inserted = none; succeeded = true }

  unfoldable pub enter_fundflow_db : Saved
  enter_fundflow_db = save_by_type message.tx_type
