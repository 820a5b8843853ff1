-- ===== src/Handlers/Tests.antt =====
-- Requests to a wallet of one output, and the theorems at them.
use dashcash_wallet.Prelude.{
  ℕ, ap, ◌+◌, ◌≤◌, ◌≡◌, ◌≢◌, refl, true, false, some, List, [], ◌∷◌, arith,
}
use dashcash_wallet.Prelude.Int.{pos, wrap64, ◌+ℤ◌, ◌-ℤ◌}
use dashcash_wallet.Text.{Bytes, codes, has_prefix, index_byte, lower_byte}
use dashcash_wallet.Decimal.{format_int, format_uint, parse_int, parse_uint, scan_digits, signed}
use dashcash_wallet.Params.{btc_main_net}
use dashcash_wallet.Fees.{min_output_amount, tx_fee}
use dashcash_wallet.Utxos.{
  Utxo, found, get_all_utxo, get_utxo_by_key, is_address, panic, read_out, read_utxo, scan_utxos,
  split_at, utxo_key, utxo_val,
}
use dashcash_wallet.Utxos.Holds.{Holds, value_from}
use dashcash_wallet.Signing.{crash, sign_msg_tx, value}
use dashcash_wallet.Signing.Calm.{IsCalm}
use dashcash_wallet.Usdt.{read_amount}
use dashcash_wallet.Handlers.Routes.{Reachable, Reachable-sign_msg_tx, start_addrs}
use dashcash_wallet.Payment.{
  MsgTx, WireOut, add_change, add_inputs, add_tx_in, build_raw_msg_tx, candidates, change_output,
  choose, create_from, create_tx_for_outputs, created, finish, get_script_from_address, keep,
  round_fee, start_choice, take_sender, total_amount, wire_out,
}
use dashcash_wallet.Omni.{get_omni_usdt_script}
use dashcash_wallet.Addresses.{
  load_addr_path, Addrs, address_init, address_init_from, get_addr_by_pub_key,
  get_new_addr_by_branch, get_new_change_addr, check_text, hash160, on_bch, path_text,
  store_addr_path, wallet_form,
}
use dashcash_wallet.Sample.{request, services, spending, wallet}
use dashcash_wallet.Handlers.{
  Services, Wallet, aborted, answered, create_tx, field, get_addr_handler, get_balance_handler,
  respond, send_coin_handler, text,
}
use dashcash_wallet.Handlers.Tokens.{omni_outputs, send_omni_coin_handler}
use dashcash_wallet.Handlers.Prepare.{prepare_tokens}
use dashcash_wallet.Handlers.Sends.{IsCoinOrder, IsTokenRequest, Sends}
use dashcash_wallet.Handlers.Sent.{send_coin_handler-Sends, send_omni_coin_handler-Sends}
use dashcash_wallet.Handlers.Outputs.{prepare_tokens-aborted}
use dashcash_wallet.Handlers.Served.{get_balance_handler-shown}
use dashcash_wallet.Handlers.Restart.{get_addr_handler-start_addrs}
use dashcash_wallet.Addresses.Known.{IsDerived}

abbrev btc : Wallet ℕ
btc = wallet (codes "btc")

send_coin_handler-Sends_example :
    Sends
      (IsCoinOrder services btc_main_net btc (request (codes "0.001")))
      (send_coin_handler services btc_main_net btc (request (codes "0.001")))
send_coin_handler-Sends_example =
    send_coin_handler-Sends services btc_main_net btc (request (codes "0.001"))

send_omni_coin_handler-Sends_example :
    Sends
      (IsTokenRequest services btc_main_net btc (request (codes "3")))
      (send_omni_coin_handler services btc_main_net btc (request (codes "3")))
send_omni_coin_handler-Sends_example =
    send_omni_coin_handler-Sends services btc_main_net btc (request (codes "3"))

-- The outer and the inner addresses of the libraries of Sample.antt.
abbrev outer_address : ℕ → Bytes
outer_address i = 0 ∷ b'a' ∷ (b'a' + i) ∷ 0 ∷ b'a' ∷ (b'a' + i) ∷ []

abbrev inner_address : ℕ → Bytes
inner_address i = 0 ∷ b'b' ∷ (b'a' + i) ∷ 0 ∷ b'b' ∷ (b'a' + i) ∷ []

abbrev second : Bytes → ℕ
second (a ∷ b ∷ rest) = b
second s = 0

abbrev third : Bytes → ℕ
third (a ∷ b ∷ c ∷ rest) = c
third s = 0

outer_address-IsDerived :
    (i : ℕ) → IsDerived services.keys btc_main_net btc.config.xpub 0 outer_address i
unfolding wallet_form get_addr_by_pub_key check_text hash160 on_bch has_prefix lower_byte
outer_address-IsDerived i = (b'a' ∷ (b'a' + i) ∷ [], refl, refl)

inner_address-IsDerived :
    (i : ℕ) → IsDerived services.keys btc_main_net btc.config.xpub 1 inner_address i
unfolding wallet_form get_addr_by_pub_key check_text hash160 on_bch has_prefix lower_byte
inner_address-IsDerived i = (b'b' ∷ (b'a' + i) ∷ [], refl, refl)

get_addr_handler-start_addrs_example :
    (left : Wallet ℕ) × (after : Addrs) × (get_addr_handler services btc_main_net btc (request [])
      ≡ answered (respond 0 (text (outer_address 3))) left [])
    × (start_addrs services btc_main_net left.config ≡ some after)
    × ((i : ℕ) → i ≤ 3 → load_addr_path after (outer_address i) ≡ some (path_text 0 i))
unfolding on_bch has_prefix lower_byte
get_addr_handler-start_addrs_example =
    get_addr_handler-start_addrs services btc_main_net btc (request []) outer_address inner_address
      refl (omega arith) (λ i h. outer_address-IsDerived i) (λ i h. inner_address-IsDerived i)
      (λ i j h k e. omega (arith, ap third e)) (λ i j h k e. omega (arith, ap third e))
      (λ i j h k e. omega (arith, ap second e))

-- A wallet that holds what a token transfer costs, and no change.
abbrev poor : Services ℕ
poor = record services {
  badger = record services.badger {
    get = λ d k. found (codes "q:3500");
    items = λ d. (codes "ab/0", codes "q:3500") ∷ [];
  };
}

abbrev inner : Bytes
inner = 0 ∷ b'b' ∷ b'b' ∷ 0 ∷ b'b' ∷ b'b' ∷ []

abbrev inner_addrs : Addrs
inner_addrs = store_addr_path inner (path_text 1 1) btc.addrs

inner_run :
    get_new_change_addr poor.keys btc_main_net btc.config.xpub btc.config.in_index btc.addrs
    ≡ some (inner, inner_addrs)
unfolding get_new_change_addr get_new_addr_by_branch get_addr_by_pub_key check_text hash160
inner_run = refl

-- What is made of the one output for a transfer of 3 tokens to the address "p".
abbrev transfer : List WireOut → MsgTx
transfer rest = record {
  tx_in = record { hash = codes "ab"; index = 0 } ∷ [];
  tx_out =
      record { value = pos 0; pk_script = get_omni_usdt_script services.outside.add_data 300000000 }
      ∷ record { value = pos 546; pk_script = 118 ∷ 169 ∷ 1 ∷ 112 ∷ 136 ∷ 172 ∷ [] }
      ∷ rest;
}

poor_run :
    create_tx poor btc_main_net
      (record btc { addrs = inner_addrs })
      (codes "q")
      (omni_outputs poor.outside.add_data (codes "p") (pos 300000000))
      inner
      false
      true
    ≡ created (transfer []) false
unfolding create_tx create_tx_for_outputs get_all_utxo scan_utxos read_utxo split_at index_byte
    parse_int parse_uint scan_digits signed create_from total_amount choose keep take_sender
    start_choice build_raw_msg_tx wire_out get_script_from_address candidates add_inputs add_tx_in
    round_fee tx_fee min_output_amount finish change_output add_change wrap64 ◌+ℤ◌ ◌-ℤ◌ omni_outputs
    is_address
poor_run = refl

prepare_tokens-aborted_example :
    prepare_tokens poor btc_main_net btc (codes "q") (codes "p") (pos 300000000) ≡ aborted []
prepare_tokens-aborted_example =
    prepare_tokens-aborted poor btc_main_net btc (codes "q") (codes "p") (pos 300000000) inner
      inner_addrs (transfer []) inner_run poor_run

-- The change of the wallet with more coins.
abbrev change : WireOut
change = record {
  value = pos 996854;
  pk_script = 118 ∷ 169 ∷ 6 ∷ 0 ∷ b'b' ∷ b'b' ∷ 0 ∷ b'b' ∷ b'b' ∷ 136 ∷ 172 ∷ [];
}

abbrev coin : Utxo
coin = record { hash = codes "ab"; index = 0; address = codes "q"; value = pos 1000000 }

coin-Holds : Holds services.badger btc.db (coin ∷ [])
unfolding index_byte utxo_key utxo_val format_int format_uint
coin-Holds = record {
  entries = refl;
  sound = (
    (
      1000000,
      record { hash = refl; index = omega arith; address = refl; value = refl; fits = omega arith },
    ),
    record {},
  );
}

listed_run : get_all_utxo services.badger btc.db [] false ≡ some (coin ∷ [])
unfolding get_all_utxo is_address scan_utxos read_utxo split_at index_byte parse_int parse_uint
    scan_digits signed
listed_run = refl

get_balance_handler-shown_example :
    (shown : Bytes) × (get_balance_handler services btc_main_net btc (request [])
      ≡ answered (respond 0 (field (codes "balance") shown)) btc [])
    × (read_amount shown ≡ value (pos 1000000))
unfolding value_from ◌+ℤ◌
get_balance_handler-shown_example =
    get_balance_handler-shown services btc_main_net btc (request []) (coin ∷ []) (coin ∷ []) 1000000
      coin-Holds refl listed_run refl (omega arith)

-- A process that starts with one inner address.
abbrev first_inner : Bytes
first_inner = 0 ∷ b'b' ∷ b'a' ∷ 0 ∷ b'b' ∷ b'a' ∷ []

abbrev fresh : Wallet ℕ
fresh = record btc {
  config = record btc.config { index = 0 };
  addrs = store_addr_path first_inner (path_text 1 0) [];
}

fresh_run : start_addrs services btc_main_net fresh.config ≡ some fresh.addrs
unfolding start_addrs address_init address_init_from wallet_form on_bch has_prefix lower_byte
    get_addr_by_pub_key check_text hash160
fresh_run = refl

signer-IsCalm : IsCalm services.signer
signer-IsCalm = record {
  btc = λ s i script key e. ground arith;
  bch = λ s i script key amount e. ground arith;
  bsv = λ s i script key amount e. ground arith;
  script = λ sig key e. ground arith;
}

point_ne : get_utxo_by_key services.badger fresh.db (codes "ab") 0 ≢ panic
unfolding get_utxo_by_key read_out split_at index_byte parse_int parse_uint scan_digits signed
point_ne e = ground arith

Reachable-sign_msg_tx_example :
    sign_msg_tx services.keys btc_main_net services.signer fresh.config.chain_name
      fresh.config.xpriv services.badger fresh.db fresh.addrs spending
    ≢ crash
Reachable-sign_msg_tx_example =
    Reachable-sign_msg_tx services btc_main_net fresh spending (Reachable.started fresh fresh_run)
      signer-IsCalm (λ index h. (index ∷ [], refl)) (point_ne, record {})
