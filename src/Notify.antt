-- ===== src/Notify.antt =====
-- `NotifyMessage` of main.go and the constants of main.go and subscriber.go that go with it.
use dashcash_wallet.Prelude.{ℕ, []}
use dashcash_wallet.Prelude.Int.{ℤ, pos}
use dashcash_wallet.Text.{Bytes}

-- NOTIFY_TYPE_NONE, NOTIFY_TYPE_TX, NOTIFY_TYPE_ADMIN.
pub data MessageType : Type 0 where
  none tx admin : MessageType

-- TYPE_NONE to TYPE_FUND_COLLECTION; `unset` is the zero that a message has at first, which is
-- none of them, since the constants begin at 3.
pub data TxType : Type 0 where
  unset none user_deposit admin_deposit user_withdraw admin_withdraw fund_collection : TxType

pub record NotifyMessage : Type 0 where
  pub message_type : MessageType
  pub address : Bytes
  pub amount : ℤ
  pub tx_hash : Bytes
  pub fee : ℤ
  pub coin : Bytes
  pub tx_type : TxType
  pub block_time : ℕ

-- The message by which the listener reports a height.
abbrev pub admin_message : ℤ → NotifyMessage
admin_message height = record {
  message_type = MessageType.admin;
  address = [];
  amount = height;
  tx_hash = [];
  fee = pos 0;
  coin = [];
  tx_type = TxType.unset;
  block_time = 0;
}
