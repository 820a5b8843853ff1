-- ===== src/Omni/Tests.antt =====
-- A run of the scripts, and the theorem at a concrete amount.
use dashcash_wallet.Prelude.{◌≡◌, refl, some, none, [], ◌∷◌, arith, length}
use dashcash_wallet.Text.{Bytes}
use dashcash_wallet.Omni.{get_omni_usdt_script, omni_amount}
use dashcash_wallet.Omni.RoundTrip.{omni_amount-get_omni_usdt_script}

abbrev push : Bytes → Bytes
push d = length d ∷ d

omni_run : omni_amount push (106 ∷ 20 ∷ []) ≡ none
unfolding omni_amount
omni_run = refl

omni_amount-get_omni_usdt_script_example :
    omni_amount push (get_omni_usdt_script push 150000000) ≡ some 150000000
omni_amount-get_omni_usdt_script_example =
    omni_amount-get_omni_usdt_script push 150000000 (λ d h. refl) (omega arith)
