-- ===== src/Decimal.antt =====
-- Decimal numbers as the program prints and reads them with fmt and strconv.
pub mod RoundTrip
mod Tests
use mathlib.Core.Logic.{dite}
use mathlib.Core.Option
use mathlib.Core.WellFounded.{Acc, WellFounded}
use native.Mathlib.Decide.{dec_lt}
use dashcash_wallet.Prelude.{
  ℕ, suc, ◌+◌, ◌-◌, ◌*◌, ◌/◌, ◌%◌, ◌^◌, ◌<◌, Bool, true, false, ◌&&◌, Option, none, some, List, [],
  ◌∷◌, ◌++◌, arith, ltb, leb, ◌==◌, if◌then◌else◌,
}
use dashcash_wallet.Prelude.Int.{ℤ, pos, negsuc}
use dashcash_wallet.Prelude.Order.{lt_wf}
use dashcash_wallet.Text.{Bytes}

abbrev pub is_digit : ℕ → Bool
is_digit c = leb b'0' c && leb c b'9'

print_acc : (n : ℕ) → Acc ◌<◌ n → Bytes
print_acc n (Acc.intro _ smaller) =
    dite (dec_lt 9 n)
      (λ h. print_acc (n / 10) (smaller (n / 10) (omega arith)) ++ (b'0' + n % 10) ∷ [])
      (λ _. (b'0' + n) ∷ [])

-- strconv.FormatUint in base 10, `%d` of a natural number.
unfoldable pub format_uint : ℕ → Bytes
unfolding print_acc lt_wf dec_lt
format_uint n = print_acc n (lt_wf.apply n)

-- strconv.FormatInt in base 10, `%d`.
unfoldable pub format_int : ℤ → Bytes
format_int (pos n) = format_uint n
format_int (negsuc n) = b'-' ∷ format_uint (suc n)

pub data Scan : Type 0 where
  scanned : ℕ → Scan
  bad_syntax out_of_range : Scan

-- The loop of strconv.ParseUint in base 10: it stops at the first byte that is no digit, or that
-- takes the number above `limit`.
unfoldable pub scan_digits : ℕ → ℕ → Bytes → Scan
scan_digits limit n [] = scanned n
scan_digits limit n (c ∷ cs) =
    let m = n * 10 + (c - b'0') in
    let rest = scan_digits limit m cs in
    if is_digit c then (if ltb limit m then out_of_range else rest) else bad_syntax

-- strconv.ParseUint in base 10 with the largest number `limit`.
unfoldable pub parse_uint : ℕ → Bytes → Scan
parse_uint limit [] = bad_syntax
parse_uint limit (c ∷ cs) = scan_digits limit 0 (c ∷ cs)

-- What strconv.ParseInt returns: a number, an error, or an error with the nearest number in range.
pub data Parsed : Type 0 where
  parsed : ℤ → Parsed
  syntax_error : Parsed
  range_error : ℤ → Parsed

unfoldable pub signed : ℕ → Bool → Scan → Parsed
signed bits negative bad_syntax = syntax_error
signed bits negative out_of_range =
    range_error (if negative then negsuc (2 ^ (bits - 1) - 1) else pos (2 ^ (bits - 1) - 1))
signed bits negative (scanned n) =
    if negative
    then (if ltb (2 ^ (bits - 1)) n
        then range_error (negsuc (2 ^ (bits - 1) - 1))
        else if n == 0
        then parsed (pos 0)
        else parsed (negsuc (n - 1)))
    else if ltb n (2 ^ (bits - 1))
    then parsed (pos n)
    else range_error (pos (2 ^ (bits - 1) - 1))

-- strconv.ParseInt in base 10.
unfoldable pub parse_int : ℕ → Bytes → Parsed
parse_int bits [] = syntax_error
parse_int bits (c ∷ cs) =
    if c == b'+'
    then signed bits false (parse_uint (2 ^ bits - 1) cs)
    else if c == b'-'
    then signed bits true (parse_uint (2 ^ bits - 1) cs)
    else signed bits false (parse_uint (2 ^ bits - 1) (c ∷ cs))

-- The number that a caller uses which drops the error.
abbrev pub int_value : Parsed → ℤ
int_value (parsed z) = z
int_value syntax_error = pos 0
int_value (range_error z) = z

-- big.Int.SetString in base 10; `none` is its failure.
unfoldable pub scan_big : ℕ → Bytes → Option ℕ
scan_big n [] = some n
scan_big n (c ∷ cs) =
    let rest = scan_big (n * 10 + (c - b'0')) cs in if is_digit c then rest else none

unfoldable pub big_digits : Bytes → Option ℕ
big_digits [] = none
big_digits (c ∷ cs) = scan_big 0 (c ∷ cs)

unfoldable pub big_of_text : Bytes → Option ℤ
big_of_text [] = none
big_of_text (c ∷ cs) =
    if c == b'+'
    then Option.map pos (big_digits cs)
    else if c == b'-'
    then Option.map (λ n. if n == 0 then pos 0 else negsuc (n - 1)) (big_digits cs)
    else Option.map pos (big_digits (c ∷ cs))
