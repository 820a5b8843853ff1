-- ===== src/Chain/Tests.antt =====
-- A transaction that pays one address of the wallet twice, and the theorem at it.
use dashcash_wallet.Prelude.{
  ℕ, ◌-◌, ◌^◌, ◌≡◌, refl, none, some, List, [], ◌∷◌, map, All, length, false,
}
use mathlib.Core.Option
use dashcash_wallet.Prelude.Int.{pos}
use dashcash_wallet.Text.{codes, lower_byte}
use dashcash_wallet.Notify.{MessageType, NotifyMessage, TxType}
use dashcash_wallet.Utxos.{Badger, create_utxo, key_not_found}
use dashcash_wallet.Chain.{
  ChainOut, ChainTx, Inputs, Outputs, Outside, address_of, coin_messages, find_receiver,
  note_output, omni_messages, parse_transaction, tx_message, take_inputs, take_output, take_outputs,
  value_of,
}
use dashcash_wallet.Chain.Blocks.{
  mempool_input, mempool_inputs, mempool_output, mempool_outputs, parse_mempool_transaction,
  read_block, read_txs,
}
use dashcash_wallet.Chain.Amounts.{coin_messages-first_value, first_value}

abbrev no_store : Badger ℕ
no_store = record {
  get = λ d k. key_not_found;
  put = λ d k v. none;
  delete = λ d k. none;
  items = λ d. [];
}

-- Every script is its address, and all addresses are external.
abbrev outside : Outside
outside = record {
  previous_output = λ h i. none;
  extract_addresses = λ s. some (s ∷ []);
  is_null_data = λ s. false;
  show_address = λ a. some a;
  load_addr_path = λ a. some (codes "0/3");
  add_data = λ d. length d ∷ d;
}

abbrev outs : List ChainOut
outs =
    record { value = pos 700; pk_script = codes "a" }
    ∷ record { value = pos 900; pk_script = codes "a" }
    ∷ []

abbrev twice : ChainTx
twice = record { hash = codes "t"; ins = []; outs = outs }

-- Both messages say 700.
twice_run :
    Option.map
      (λ r. map (λ m. m.amount) r.0)
      (parse_transaction no_store outside (codes "bch") 0 twice 0)
    ≡ some (pos 700 ∷ pos 700 ∷ [])
unfolding parse_transaction take_inputs take_outputs take_output address_of note_output
    find_receiver omni_messages coin_messages value_of lower_byte tx_message
twice_run = refl

abbrev no_inputs : Inputs ℕ
no_inputs = record {
  db = 0;
  fee = 0;
  input_addrs = [];
  input_addrs2 = [];
  ext_input_addr_num = 0;
  omni_sender = [];
}

abbrev no_outputs : Outputs ℕ
no_outputs = record {
  db = 0;
  fee = 0;
  output_addrs = [];
  output_addrs2 = [];
  output_value = [];
  op_return_num = 0;
  first_op_return = [];
  omni_receiver = [];
  found_sender = false;
}

abbrev blank : NotifyMessage
blank = record {
  message_type = MessageType.tx;
  address = [];
  amount = pos 0;
  tx_hash = [];
  fee = pos 0;
  coin = [];
  tx_type = TxType.unset;
  block_time = 0;
}

abbrev last_outputs : Outputs ℕ
last_outputs = record no_outputs {
  fee = 2 ^ 64 - 1600;
  output_addrs = codes "a" ∷ codes "a" ∷ [];
  output_value = (codes "a", pos 700) ∷ (codes "a", pos 900) ∷ [];
  omni_receiver = codes "a";
}

last_run : take_outputs no_store outside (codes "t") [] 0 outs no_outputs ≡ some last_outputs
unfolding take_outputs take_output address_of note_output find_receiver create_utxo
last_run = refl

coin_messages-first_value_example :
    All
      (λ m. m.amount ≡ first_value no_store outside outs (pos 0) m.address)
      (coin_messages no_store outside no_inputs last_outputs blank)
coin_messages-first_value_example =
    coin_messages-first_value no_store outside (codes "t") [] no_inputs outs no_outputs last_outputs
      blank refl last_run

-- A node that knows one output, whose script has no address.
abbrev bare : Outside
bare = record outside {
  previous_output = λ h i. some (record { value = pos 5; pk_script = [] });
  extract_addresses = λ s. some [];
}

abbrev spends_bare : ChainTx
spends_bare = record {
  hash = codes "t";
  ins = record { prev_hash = codes "p"; prev_index = 0 } ∷ [];
  outs = [];
}

bare_run : parse_mempool_transaction no_store bare spends_bare 0 ≡ none
unfolding parse_mempool_transaction mempool_inputs mempool_input
bare_run = refl

-- An output whose address has no form.
formless_run :
    parse_mempool_transaction no_store (record outside { show_address = λ a. none }) twice 0 ≡ none
unfolding parse_mempool_transaction mempool_inputs mempool_outputs mempool_output address_of
formless_run = refl

-- A block of a coinbase and one payment.
read_block_run :
    (read_block no_store outside []
      (codes "bch")
      (λ h. some (9, record { hash = codes "c"; ins = []; outs = outs } ∷ twice ∷ []))
      7
      (some 0)).1
    ≡ some 0
unfolding read_block read_txs parse_transaction take_inputs take_outputs take_output address_of
    note_output find_receiver create_utxo tx_message
read_block_run = refl
