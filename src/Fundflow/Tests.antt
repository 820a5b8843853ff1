-- ===== src/Fundflow/Tests.antt =====
-- Flow numbers and rows of concrete transactions, and the theorems at them.
use dashcash_wallet.Prelude.{ℕ, ◌≡◌, refl, some, [], ◌∷◌, ◌&&◌}
use dashcash_wallet.Prelude.Int.{ℤ, negsuc, pos}
use dashcash_wallet.Text.{Bytes, codes}
use dashcash_wallet.Decimal.{format_uint}
use dashcash_wallet.Notify.{MessageType, NotifyMessage, TxType}
use dashcash_wallet.Fundflow.{
  Civil, CoinIds, FlowDb, Procedure, ask, coin_id, find_coin, generate_flow_id, get_coin_id_by_name,
  join, pad_int, quote, quote_byte, quote_bytes, row, save_fun_flow, save_with_coin, two_rows,
}
use dashcash_wallet.Fundflow.Rows.{
  enter_fundflow_db, save_by_type, save_user_withdraw_tx_flow, user_fee_fields,
  user_withdraw_fields,
}
use dashcash_wallet.Fundflow.Cache.{
  IsCached, IsLike, enter_fundflow_db-IsLike, enter_fundflow_db-has_user, has_user, is_some,
  nil-IsCached,
}
use dashcash_wallet.Fundflow.Shape.{IsFlow, enter_fundflow_db-IsFlow}

abbrev answers : ℤ → Procedure
answers status = λ arg. some (pos 7 ∷ pos 8 ∷ pos 9 ∷ [], status)

-- A database without the users of withdrawals.
abbrev flow_db : FlowDb
flow_db = record {
  currency_id_by_symbol = answers (pos 1000);
  user_id_by_recharge_address = answers (pos 1000);
  user_ids_by_withdraw_hash = λ arg. some ([], pos 1001);
  sys_user_id_by_sweep_hash = answers (pos 1001);
  ins_flow_record = λ text. some (pos 1000);
}

abbrev one_time : ℕ → Civil
one_time t = record {
  year = pos 2019;
  month = pos 5;
  day = pos 31;
  hour = pos 9;
  minute = pos 0;
  second = pos 12;
}

abbrev dice : ℕ → ℕ
dice n = 42

abbrev withdrawal : NotifyMessage
withdrawal = record {
  message_type = MessageType.tx;
  address = codes "qq";
  amount = pos 100000000;
  tx_hash = codes "ab";
  fee = pos 200;
  coin = codes "BTC";
  tx_type = TxType.user_withdraw;
  block_time = 1559293212;
}

flow_id_run :
    generate_flow_id flow_db one_time dice 0 withdrawal (pos 7) ≡ codes "2019053100000070900120042"
unfolding generate_flow_id pad_int format_uint
flow_id_run = refl

pad_int_run : pad_int 4 (negsuc 0) ≡ codes "-001"
unfolding pad_int format_uint
pad_int_run = refl

row_run : row (quote (codes "a\"b") ∷ codes "1" ∷ []) ≡ codes "(\"a\\\"b\",1)"
unfolding row join quote quote_bytes quote_byte
row_run = refl

abbrev flow_number : Bytes
flow_number = generate_flow_id flow_db one_time dice 0 withdrawal (pos 0)

abbrev sys_flow_number : Bytes
sys_flow_number = generate_flow_id flow_db one_time dice 1 withdrawal (pos 0)

-- What is stored of a withdrawal whose users are not found.
abbrev stored : Bytes
stored =
    two_rows
      (user_withdraw_fields withdrawal (codes "BTC") (codes "0.1") (pos 0) flow_number
        sys_flow_number (pos 7) (pos 0) (pos 0))
      (user_fee_fields withdrawal (codes "BTC") (codes "0.1") (pos 0) flow_number sys_flow_number
        (pos 7) (pos 0))

stored_run :
    (enter_fundflow_db flow_db one_time dice withdrawal (codes "BTC") (codes "0.1") []).inserted
    ≡ some stored
unfolding enter_fundflow_db save_by_type save_user_withdraw_tx_flow save_with_coin coin_id find_coin
    get_coin_id_by_name ask save_fun_flow
stored_run = refl

enter_fundflow_db-IsFlow_example : IsFlow withdrawal (codes "BTC") stored
enter_fundflow_db-IsFlow_example =
    enter_fundflow_db-IsFlow flow_db one_time dice withdrawal (codes "BTC") (codes "0.1") [] stored
      stored_run

-- The identifiers that the first withdrawal leaves.
abbrev kept : CoinIds
kept = (enter_fundflow_db flow_db one_time dice withdrawal (codes "BTC") (codes "0.1") []).coin_ids

kept-IsCached : IsCached flow_db one_time dice kept
kept-IsCached =
    (enter_fundflow_db-IsLike flow_db one_time dice withdrawal (codes "BTC") (codes "0.1") []
      (nil-IsCached flow_db one_time dice)).cached

enter_fundflow_db-IsLike_example :
    IsLike flow_db one_time dice
      (enter_fundflow_db flow_db one_time dice withdrawal (codes "BTC") (codes "0.1") kept)
      (enter_fundflow_db flow_db one_time dice withdrawal (codes "BTC") (codes "0.1") [])
enter_fundflow_db-IsLike_example =
    enter_fundflow_db-IsLike flow_db one_time dice withdrawal (codes "BTC") (codes "0.1") kept
      kept-IsCached

enter_fundflow_db-has_user_example :
    is_some
      (enter_fundflow_db flow_db one_time dice withdrawal (codes "BTC") (codes "0.1") kept).inserted
    ≡ (has_user flow_db withdrawal TxType.user_withdraw
        && is_some (get_coin_id_by_name flow_db one_time dice (codes "BTC")))
enter_fundflow_db-has_user_example =
    enter_fundflow_db-has_user flow_db one_time dice withdrawal (codes "BTC") (codes "0.1") kept
      kept-IsCached
