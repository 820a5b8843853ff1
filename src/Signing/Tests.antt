-- ===== src/Signing/Tests.antt =====
-- A transaction that is signed, and the theorems at it.
use dashcash_wallet.Prelude.{◌≡◌, refl, [], ◌∷◌, All, length}
use dashcash_wallet.Text.{codes, has_prefix, index_byte, lower_byte}
use dashcash_wallet.Decimal.{parse_int, parse_uint, scan_digits, signed}
use dashcash_wallet.Utxos.{get_utxo_by_key, read_out, split_at}
use dashcash_wallet.Params.{btc_main_net, bsv_main_net}
use dashcash_wallet.Addresses.{load_addr_path, on_bch, on_bsv}
use dashcash_wallet.Sample.{addrs, keys, one_output, signer, spending}
use dashcash_wallet.Signing.{
  SignedTx, read_path, sign_input, sign_inputs, sign_msg_tx, sign_output, signature_of, value,
}
use dashcash_wallet.Signing.Inner.{IsInner, sign_msg_tx-IsInner}
use dashcash_wallet.Signing.Unsigned.{sign_msg_tx-unsigned}

abbrev signed_spending : SignedTx
signed_spending = record { tx = spending; scripts = codes "s" ∷ [] }

signed_run :
    sign_msg_tx keys btc_main_net signer (codes "btc") [] one_output 0 addrs spending
    ≡ value signed_spending
unfolding sign_msg_tx sign_inputs sign_input sign_output signature_of get_utxo_by_key read_out
    split_at index_byte load_addr_path read_path parse_int parse_uint scan_digits signed on_bch
    on_bsv has_prefix lower_byte
signed_run = refl

sign_msg_tx-IsInner_example :
    (signed_spending.tx ≡ spending)
    × (length signed_spending.scripts ≡ length spending.tx_in)
    × All (IsInner one_output 0 addrs) spending.tx_in
sign_msg_tx-IsInner_example =
    sign_msg_tx-IsInner keys btc_main_net signer (codes "btc") [] one_output 0 addrs spending
      signed_spending signed_run

spending-IsInner : All (IsInner one_output 0 addrs) spending.tx_in
spending-IsInner =
    let (same, count, inner) =
      sign_msg_tx-IsInner keys btc_main_net signer (codes "btc") [] one_output 0 addrs spending
        signed_spending signed_run in
    inner

sign_msg_tx-unsigned_example :
    sign_msg_tx keys bsv_main_net signer (codes "bsv") [] one_output 0 addrs spending
    ≡ value (record { tx = spending; scripts = [] ∷ [] })
unfolding on_bch on_bsv has_prefix lower_byte
sign_msg_tx-unsigned_example =
    sign_msg_tx-unsigned keys bsv_main_net signer (codes "bsv") [] one_output 0 addrs spending refl
      refl (λ signed i script key amount. refl) spending-IsInner
