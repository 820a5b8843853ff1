-- ===== src/Shift/Tests.antt =====
-- Runs of the code on inputs of util/util_test.go, and the theorems at concrete inputs.
use dashcash_wallet.Prelude.{◌≡◌, ◌↔◌, refl, some, none, arith}
use dashcash_wallet.Prelude.Int.{pos}
use dashcash_wallet.Text.{Bytes, codes, index_byte}
use dashcash_wallet.Decimal.{format_uint, parse_int, parsed}
use dashcash_wallet.Shift.{
  left_shift, left_shift_point, left_shift_whole, right_shift, moved, trim_zeros, cut_at,
  first_nonzero,
}
use dashcash_wallet.Shift.RoundTrip.{right_shift-left_shift}
use dashcash_wallet.Shift.Panic.{TwoPoints, right_shift-panic}

left_shift_runs :
    (left_shift (codes "25893180161173005034") 18 ≡ codes "25.893180161173005034")
    × (left_shift (codes "0") 18 ≡ codes "0.000000000000000000")
    × (left_shift (codes "12343434.55555") 4 ≡ codes "1234.343455555")
    × (left_shift (codes "12343434.55555") 10 ≡ codes "0.001234343455555")
unfolding left_shift left_shift_point left_shift_whole index_byte
left_shift_runs = (refl, refl, refl, refl)

right_shift_runs :
    (right_shift (codes "0.00000000000005") 8 ≡ some (codes "0.000005"))
    × (right_shift (codes "0.005") 18 ≡ some (codes "5000000000000000"))
    × (right_shift (codes "1111333.0059") 8 ≡ some (codes "111133300590000"))
    × (right_shift (codes "1111") 8 ≡ some (codes "111100000000"))
unfolding right_shift moved trim_zeros cut_at first_nonzero index_byte
right_shift_runs = (refl, refl, refl, refl)

right_shift-left_shift_example :
    (t : Bytes) × (right_shift (left_shift (format_uint 123) 8) 8 ≡ some t)
    × (parse_int 64 t ≡ parsed (pos 123))
right_shift-left_shift_example = right_shift-left_shift 123 8 (omega arith) (omega arith)

right_shift-panic_example : (right_shift (codes "..5") 8 ≡ none) ↔ TwoPoints (codes "..5")
right_shift-panic_example = right_shift-panic (codes "..5") 8 (omega arith)
