-- ===== src/Params/Tests.antt =====
-- Runs of GetParamByName, and the theorem at a concrete name.
use mathlib.Core.List.{Memᴰ}
use dashcash_wallet.Prelude.{◌≡◌, ◌↔◌, refl, some, none}
use dashcash_wallet.Text.{codes, lower_byte, to_lower}
use dashcash_wallet.Params.{ChainParams, bch_test_net, find_param, get_param_by_name}
use dashcash_wallet.Addresses.{on_bch, on_bsv}
use dashcash_wallet.Params.Found.{IsChain, chain_names, get_param_by_name-found}

get_param_by_name_runs :
    (get_param_by_name (codes "BchTest") ≡ some bch_test_net)
    × (get_param_by_name (codes "doge") ≡ none)
unfolding get_param_by_name find_param lower_byte
get_param_by_name_runs = (refl, refl)

get_param_by_name-found_example : Memᴰ (to_lower (codes "BSVtest")) chain_names ↔ (
    (param : ChainParams) × (get_param_by_name (codes "BSVtest") ≡ some param)
    × IsChain (on_bch (codes "BSVtest")) (on_bsv (codes "BSVtest")) param)
get_param_by_name-found_example = get_param_by_name-found (codes "BSVtest")
