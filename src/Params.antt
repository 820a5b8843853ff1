-- ===== src/Params.antt =====
-- util/param.go: the parameters of the chains, and their names.
pub mod Found
mod Tests
use dashcash_wallet.Prelude.{ℕ, Option, none, some, List, [], ◌∷◌, if◌then◌else◌}
use dashcash_wallet.Text.{Bytes, bytes_eq, codes, to_lower}

-- The fields of chaincfg.Params that the program sets.
pub record ChainParams : Type 0 where
  pub name : Bytes
  pub bech32_hrp_segwit : Bytes
  pub pub_key_hash_addr_id : ℕ
  pub script_hash_addr_id : ℕ
  pub private_key_id : ℕ
  pub hd_private_key_id : Bytes
  pub hd_public_key_id : Bytes
  pub hd_coin_type : ℕ

abbrev pub btc_main_net : ChainParams
btc_main_net = record {
  name = codes "btc";
  bech32_hrp_segwit = codes "bc";
  pub_key_hash_addr_id = 0;
  script_hash_addr_id = 5;
  private_key_id = 128;
  hd_private_key_id = 4 ∷ 136 ∷ 173 ∷ 228 ∷ [];
  hd_public_key_id = 4 ∷ 136 ∷ 178 ∷ 30 ∷ [];
  hd_coin_type = 0;
}

abbrev pub btc_test_net3 : ChainParams
btc_test_net3 = record {
  name = codes "testnet3";
  bech32_hrp_segwit = codes "tb";
  pub_key_hash_addr_id = 111;
  script_hash_addr_id = 196;
  private_key_id = 239;
  hd_private_key_id = 4 ∷ 53 ∷ 131 ∷ 148 ∷ [];
  hd_public_key_id = 4 ∷ 53 ∷ 135 ∷ 207 ∷ [];
  hd_coin_type = 1;
}

abbrev pub dsc_main_net : ChainParams
dsc_main_net = record {
  name = codes "dsc";
  bech32_hrp_segwit = codes "bc";
  pub_key_hash_addr_id = 30;
  script_hash_addr_id = 16;
  private_key_id = 204;
  hd_private_key_id = 4 ∷ 136 ∷ 173 ∷ 228 ∷ [];
  hd_public_key_id = 4 ∷ 136 ∷ 178 ∷ 30 ∷ [];
  hd_coin_type = 1208;
}

abbrev pub bch_main_net : ChainParams
bch_main_net = record {
  name = codes "bch";
  bech32_hrp_segwit = codes "bitcoincash";
  pub_key_hash_addr_id = 0;
  script_hash_addr_id = 5;
  private_key_id = 128;
  hd_private_key_id = 4 ∷ 136 ∷ 173 ∷ 228 ∷ [];
  hd_public_key_id = 4 ∷ 136 ∷ 178 ∷ 30 ∷ [];
  hd_coin_type = 145;
}

abbrev pub bch_test_net : ChainParams
bch_test_net = record {
  name = codes "bchtest";
  bech32_hrp_segwit = codes "bchtest";
  pub_key_hash_addr_id = 111;
  script_hash_addr_id = 196;
  private_key_id = 239;
  hd_private_key_id = 4 ∷ 53 ∷ 131 ∷ 148 ∷ [];
  hd_public_key_id = 4 ∷ 53 ∷ 135 ∷ 207 ∷ [];
  hd_coin_type = 145;
}

abbrev pub bsv_main_net : ChainParams
bsv_main_net = record {
  name = codes "bsv";
  bech32_hrp_segwit = [];
  pub_key_hash_addr_id = 0;
  script_hash_addr_id = 5;
  private_key_id = 128;
  hd_private_key_id = 4 ∷ 136 ∷ 173 ∷ 228 ∷ [];
  hd_public_key_id = 4 ∷ 136 ∷ 178 ∷ 30 ∷ [];
  hd_coin_type = 0;
}

abbrev pub bsv_test_net : ChainParams
bsv_test_net = record {
  name = codes "bsvtest";
  bech32_hrp_segwit = [];
  pub_key_hash_addr_id = 111;
  script_hash_addr_id = 196;
  private_key_id = 239;
  hd_private_key_id = 4 ∷ 53 ∷ 131 ∷ 148 ∷ [];
  hd_public_key_id = 4 ∷ 53 ∷ 135 ∷ 207 ∷ [];
  hd_coin_type = 1;
}

-- The map that `GetParamByName` fills before its first lookup.
abbrev pub chain_params : List (Bytes × ChainParams)
chain_params =
    (codes "btc", btc_main_net)
    ∷ (codes "dsc", dsc_main_net)
    ∷ (codes "btctest", btc_test_net3)
    ∷ (codes "bch", bch_main_net)
    ∷ (codes "bchtest", bch_test_net)
    ∷ (codes "bsv", bsv_main_net)
    ∷ (codes "bsvtest", bsv_test_net)
    ∷ []

unfoldable pub find_param : List (Bytes × ChainParams) → Bytes → Option ChainParams
find_param [] name = none
find_param ((key, param) ∷ rest) name =
    if bytes_eq key name then some param else find_param rest name

unfoldable pub get_param_by_name : Bytes → Option ChainParams
get_param_by_name name = find_param chain_params (to_lower name)
