-- ===== src/Decimal/Tests.antt =====
-- Runs of the printing and the reading of numbers.
use dashcash_wallet.Prelude.{◌≡◌, refl}
use dashcash_wallet.Prelude.Int.{negsuc, pos}
use dashcash_wallet.Text.{codes}
use dashcash_wallet.Decimal.{
  format_int, format_uint, parse_int, parse_uint, parsed, scan_digits, signed,
}

decimal_runs :
    (parse_int 64 (codes "-9223372036854775808") ≡ parsed (negsuc 9223372036854775807))
    × (parse_int 64 (codes "+17") ≡ parsed (pos 17))
    × (format_int (negsuc 41) ≡ codes "-42")
unfolding parse_int parse_uint scan_digits signed format_int format_uint
decimal_runs = (refl, refl, refl)
