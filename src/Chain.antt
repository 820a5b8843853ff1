-- ===== src/Chain.antt =====
-- `ParseTransaction` of chain.go: what a transaction does to the store of unspent outputs, and the
-- messages that it becomes. The node, txscript and the map of addresses are parameters.
pub mod Amounts
pub mod Blocks
pub mod Mempool
mod Tests
use dashcash_wallet.Prelude.{
  ℕ, suc, ◌+◌, ◌-◌, ◌%◌, ◌^◌, Bool, true, false, ◌&&◌, not, Option, none, some, List, [], ◌∷◌, ◌++◌,
  map, length, ltb, ◌==◌, if◌then◌else◌,
}
use dashcash_wallet.Prelude.Int.{ℤ, pos, eqb_ℤ, signed64, word64}
use dashcash_wallet.Text.{Bytes, bytes_eq, codes, has_prefix, to_lower, to_upper}
use dashcash_wallet.Notify.{MessageType, NotifyMessage, TxType}
use dashcash_wallet.Omni.{omni_amount}
use dashcash_wallet.Utxos.{Badger, create_utxo, remove_utxo}

pub record ChainIn : Type 0 where
  pub prev_hash : Bytes
  pub prev_index : ℕ

pub record ChainOut : Type 0 where
  pub value : ℤ
  pub pk_script : Bytes

pub record ChainTx : Type 0 where
  pub hash : Bytes
  pub ins : List ChainIn
  pub outs : List ChainOut

-- What is called: GetRawTransaction with the output of an index, the addresses of a script, the
-- test for a data script, the form of an address in which the wallet keeps it (`none` is a panic, at
-- an address that has no such form), and LoadAddrPath.
pub record Outside : Type 0 where
  pub previous_output : Bytes → ℕ → Option ChainOut
  pub extract_addresses : Bytes → Option (List Bytes)
  pub is_null_data : Bytes → Bool
  pub show_address : Bytes → Option Bytes
  pub load_addr_path : Bytes → Option Bytes
  pub add_data : Bytes → Bytes

-- A change of the store whose error is dropped.
abbrev pub or_same : {D : Type 0} → D → Option D → D
or_same db none = db
or_same db (some db') = db'

-- The variables of `ParseTransaction` behind its inputs.
pub record Inputs (D : Type 0) : Type 0 where
  pub db : D
  pub fee : ℕ
  pub input_addrs : List Bytes
  pub input_addrs2 : List Bytes
  pub ext_input_addr_num : ℕ
  pub omni_sender : Bytes

-- Those behind its outputs; `output_value` is a map whose last entry for a key comes first.
pub record Outputs (D : Type 0) : Type 0 where
  pub db : D
  pub fee : ℕ
  pub output_addrs : List Bytes
  pub output_addrs2 : List Bytes
  pub output_value : List (Bytes × ℤ)
  pub op_return_num : ℕ
  pub first_op_return : Bytes
  pub omni_receiver : Bytes
  pub found_sender : Bool

unfoldable pub value_of : List (Bytes × ℤ) → Bytes → ℤ
value_of [] addr = pos 0
value_of ((key, value) ∷ rest) addr = if bytes_eq key addr then value else value_of rest addr

module _ {D : Type 0} (badger : Badger D) (outside : Outside) where
  -- The address of a script, if it has one; the outer `none` is a panic.
  unfoldable pub address_of : Bytes → Option (Option Bytes)
  address_of script = elim (outside.extract_addresses script) [
    | none ↦ some none
    | some addrs ↦ elim addrs [
      | [] ↦ some none
      | ◌∷◌ a _ ↦ elim (outside.show_address a) [ none ↦ none | some addr ↦ some (some addr) ]
    ]
  ]

  abbrev path_of : Bytes → Bytes
  path_of addr = elim (outside.load_addr_path addr) [ none ↦ [] | some path ↦ path ]

  abbrev is_external : Bytes → Bool
  is_external addr = has_prefix (path_of addr) (codes "0/")

  abbrev is_known : Bytes → Bool
  is_known addr = elim (outside.load_addr_path addr) [ none ↦ false | some path ↦ true ]

  -- An input whose previous output is known, of an address.
  unfoldable pub note_input : ℕ → ChainIn → Bytes → Inputs D → Inputs D
  note_input i txin addr st =
      let sender = if i == 0 then addr else st.omni_sender in
      if is_known addr
      then record st {
        db = or_same st.db (remove_utxo badger st.db txin.prev_hash txin.prev_index);
        input_addrs = st.input_addrs ++ addr ∷ [];
        ext_input_addr_num =
            if is_external addr then suc st.ext_input_addr_num else st.ext_input_addr_num;
        omni_sender = sender;
      }
      else record st { input_addrs2 = st.input_addrs2 ++ addr ∷ []; omni_sender = sender }

  -- A round of the loop over the inputs; here and below `none` is a panic.
  unfoldable pub take_input : ℕ → ChainIn → Inputs D → Option (Inputs D)
  take_input i txin st =
      if txin.prev_index == 4294967295
      then some st
      else elim (outside.previous_output txin.prev_hash txin.prev_index) [
        | none ↦ some st
        | some out ↦
            let paid = record st { fee = (st.fee + word64 out.value) % 2 ^ 64 } in
            elim (address_of out.pk_script) [
              | none ↦ none
              | some found ↦ elim found [
                | none ↦ some paid
                | some addr ↦ some (note_input i txin addr paid)
              ]
            ]
      ]

  unfoldable pub take_inputs : ℕ → List ChainIn → Inputs D → Option (Inputs D)
  take_inputs i [] st = some st
  take_inputs i (txin ∷ txins) st = elim (take_input i txin st) [
    | none ↦ none
    | some next ↦ take_inputs (i + 1) txins next
  ]

  -- The search for the receiver of a token transfer.
  unfoldable pub find_receiver : Bytes → Bytes → Outputs D → Outputs D
  find_receiver sender addr st =
      if length st.omni_receiver == 0
      then (if bytes_eq addr sender
          then (if st.found_sender
              then record st { omni_receiver = addr }
              else record st { found_sender = true })
          else record st { omni_receiver = addr })
      else st

  unfoldable pub note_output : Bytes → Bytes → ℕ → ChainOut → Bytes → Outputs D → Outputs D
  note_output hash sender i out addr st = find_receiver sender addr (
      if is_known addr
      then record st {
        db = or_same st.db (create_utxo badger st.db hash i addr out.value);
        output_addrs = st.output_addrs ++ addr ∷ [];
        output_value = (addr, out.value) ∷ st.output_value;
      }
      else record st {
        output_addrs2 = st.output_addrs2 ++ addr ∷ [];
        output_value = (addr, out.value) ∷ st.output_value;
      })

  unfoldable pub take_output : Bytes → Bytes → ℕ → ChainOut → Outputs D → Option (Outputs D)
  take_output hash sender i out st =
      let spent = record st { fee = (st.fee + (2 ^ 64 - word64 out.value)) % 2 ^ 64 } in
      if eqb_ℤ out.value (pos 0) && outside.is_null_data out.pk_script
      then some (record spent {
        op_return_num = suc st.op_return_num;
        first_op_return = if st.op_return_num == 0 then out.pk_script else st.first_op_return;
      })
      else elim (address_of out.pk_script) [
        | none ↦ none
        | some found ↦ elim found [
          | none ↦ some spent
          | some addr ↦ some (note_output hash sender i out addr spent)
        ]
      ]

  -- The loop over the outputs, which begins at the last.
  unfoldable pub take_outputs : Bytes → Bytes → ℕ → List ChainOut → Outputs D → Option (Outputs D)
  take_outputs hash sender i [] st = some st
  take_outputs hash sender i (out ∷ outs) st = elim (take_outputs hash sender (i + 1) outs st) [
    | none ↦ none
    | some next ↦ take_output hash sender i out next
  ]

  -- The type of a token transfer; `none` is TYPE_NONE.
  unfoldable pub omni_type : Bytes → Bytes → Option TxType
  omni_type sender receiver =
      if is_known sender
      then (if is_known receiver
          then some TxType.fund_collection
          else some (if is_external sender then TxType.admin_withdraw else TxType.user_withdraw))
      else if is_known receiver
      then some (if is_external receiver then TxType.user_deposit else TxType.admin_deposit)
      else none

  unfoldable pub omni_messages : Bytes → Bytes → Outputs D → NotifyMessage → List NotifyMessage
  omni_messages chain_name sender st message =
      if bytes_eq (to_lower chain_name) (codes "btc")
        && (st.op_return_num == 1 && not (length st.omni_receiver == 0))
      then elim (omni_type sender st.omni_receiver) [
        | none ↦ []
        | some tx_type ↦ elim (omni_amount outside.add_data st.first_op_return) [
          | none ↦ []
          | some amount ↦
              record message {
                tx_type = tx_type;
                coin = codes "USDT";
                address = st.omni_receiver;
                amount = pos amount;
              }
              ∷ []
        ]
      ]
      else []

  -- One message for each address.
  abbrev pub message_to :
      List (Bytes × ℤ) → (Bytes → TxType) → NotifyMessage → Bytes → NotifyMessage
  message_to values type_of message addr = record message {
    tx_type = type_of addr;
    address = addr;
    amount = value_of values addr;
  }

  unfoldable pub coin_messages : Inputs D → Outputs D → NotifyMessage → List NotifyMessage
  coin_messages i o message =
      let deposits =
        map
          (message_to o.output_value
            (λ addr. if is_external addr then TxType.user_deposit else TxType.admin_deposit)
            message)
          o.output_addrs in
      let withdraws =
        map
          (message_to o.output_value
            (λ _. if i.ext_input_addr_num == 0 then TxType.user_withdraw else TxType.admin_withdraw)
            message)
          o.output_addrs2 in
      let inner =
        map (message_to o.output_value (λ _. TxType.fund_collection) message) o.output_addrs in
      if length i.input_addrs == 0 && ltb 0 (length o.output_addrs)
      then deposits
      else if ltb 0 (length i.input_addrs)
          && (length i.input_addrs2 == 0 && ltb 0 (length o.output_addrs2))
      then withdraws
      else if length i.input_addrs2 == 0 && length o.output_addrs2 == 0
      then inner
      else []

  -- The variables that the loops begin with.
  abbrev pub start_inputs : D → Inputs D
  start_inputs db = record {
    db = db;
    fee = 0;
    input_addrs = [];
    input_addrs2 = [];
    ext_input_addr_num = 0;
    omni_sender = [];
  }

  abbrev pub start_outputs : Inputs D → Outputs D
  start_outputs i = record {
    db = i.db;
    fee = i.fee;
    output_addrs = [];
    output_addrs2 = [];
    output_value = [];
    op_return_num = 0;
    first_op_return = [];
    omni_receiver = [];
    found_sender = false;
  }

  unfoldable pub tx_message : Bytes → ℕ → Bytes → Outputs D → NotifyMessage
  tx_message chain_name block_time hash o = record {
    message_type = MessageType.tx;
    address = [];
    amount = pos 0;
    tx_hash = hash;
    fee = signed64 o.fee;
    coin = to_upper chain_name;
    tx_type = TxType.unset;
    block_time = block_time;
  }

  unfoldable pub parse_transaction : Bytes → ℕ → ChainTx → D → Option (List NotifyMessage × D)
  parse_transaction chain_name block_time tx db = elim (take_inputs 0 tx.ins (start_inputs db)) [
    | none ↦ none
    | some i ↦ elim (take_outputs tx.hash i.omni_sender 0 tx.outs (start_outputs i)) [
      | none ↦ none
      | some o ↦
          let message = tx_message chain_name block_time tx.hash o in
          some (omni_messages chain_name i.omni_sender o message ++ coin_messages i o message, o.db)
    ]
  ]
