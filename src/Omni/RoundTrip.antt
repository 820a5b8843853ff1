-- ===== src/Omni/RoundTrip.antt =====
-- The amount that a USDT script is made with is the amount that is read from it.
use dashcash_wallet.Prelude.{ℕ, ◌^◌, ◌<◌, ◌≡◌, ap, some, ◌∷◌, arith, length}
use dashcash_wallet.Text.{Bytes}
use dashcash_wallet.Omni.{
  big_endian_from, get_omni_usdt_script, omni_amount, omni_payload, put_big_endian,
}

big_endian_8 : (n : ℕ) → n < 2 ^ 64 → big_endian_from 0 (put_big_endian 8 n) ≡ n
unfolding put_big_endian big_endian_from
big_endian_8 n h = omega arith

-- Where a push of at most 75 bytes is their number before them, the script of any uint64 amount is
-- recognized as a transfer of that amount.
pub omni_amount-get_omni_usdt_script :
    (add_data : Bytes → Bytes) (amount : ℕ)
    → ((d : Bytes) → length d < 76 → add_data d ≡ length d ∷ d)
    → amount < 2 ^ 64
    → omni_amount add_data (get_omni_usdt_script add_data amount) ≡ some amount
unfolding get_omni_usdt_script omni_payload omni_amount put_big_endian
omni_amount-get_omni_usdt_script add_data amount push h =
    let none_pushed = push (omni_payload 0) (omega arith) in
    let pushed = push (omni_payload amount) (omega arith) in
    rw (none_pushed, pushed) (ap some (big_endian_8 amount h))
