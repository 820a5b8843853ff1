-- ===== src/Omni.antt =====
-- The scripts of USDT transfers: `GetOmniUsdtScript` of usdt/usdt.go makes them, and
-- `ParseTransaction` of chain.go reads them.
pub mod RoundTrip
mod Tests
use dashcash_wallet.Prelude.{
  ℕ, zero, suc, ◌+◌, ◌*◌, ◌/◌, ◌%◌, ◌^◌, Bool, Option, none, some, List, [], ◌∷◌, ◌++◌, length,
  take, drop, not, ◌==◌, if◌then◌else◌,
}
use dashcash_wallet.Text.{Bytes, bytes_eq, codes}

abbrev pub omni_token : ℕ
omni_token = 31

-- binary.BigEndian: the lowest `count` bytes of a number, the highest first.
unfoldable pub put_big_endian : ℕ → ℕ → Bytes
put_big_endian zero n = []
put_big_endian (suc count) n = put_big_endian count (n / 256) ++ n % 256 ∷ []

unfoldable pub big_endian_from : ℕ → Bytes → ℕ
big_endian_from acc [] = acc
big_endian_from acc (b ∷ bs) = big_endian_from (acc * 256 + b) bs

unfoldable pub omni_payload : ℕ → Bytes
omni_payload amount =
    codes "omni"
    ++ (put_big_endian 2 0
        ++ (put_big_endian 2 0 ++ (put_big_endian 4 omni_token ++ put_big_endian 8 amount)))

-- `add_data` is the push of some data by txscript.
module _ (add_data : Bytes → Bytes) where
  unfoldable pub get_omni_usdt_script : ℕ → Bytes
  get_omni_usdt_script amount = 106 ∷ add_data (omni_payload amount)

  -- The amount of a transfer, for a script of its length and beginning.
  unfoldable pub omni_amount : Bytes → Option ℕ
  omni_amount script =
      if not (length script == 22)
      then none
      else if not (bytes_eq (take 14 script) (take 14 (get_omni_usdt_script 0)))
      then none
      else some (big_endian_from 0 (drop 14 script))
