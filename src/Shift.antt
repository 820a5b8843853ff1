-- ===== src/Shift.antt =====
-- `LeftShift` and `RightShift` of util/util.go: a decimal point moved in a text. The callers use
-- them, with eight places, between an amount in the smallest unit and the amount that users see.
mod Trims
pub mod RoundTrip
pub mod Panic
mod Tests
use dashcash_wallet.Prelude.{
  ℕ, suc, ◌+◌, ◌-◌, Bool, Option, none, some, [], ◌∷◌, ◌++◌, length, take, drop, replicate,
  get_elem?, ltb, leb, ◌==◌, if◌then◌else◌,
}
use dashcash_wallet.Text.{Bytes, index_byte}
use mathlib.Core.Option

abbrev zero_dot : Bytes
zero_dot = b'0' ∷ b'.' ∷ []

-- The branches of `LeftShift`, with a point at `index` and with none.
unfoldable pub left_shift_point : Bytes → ℕ → ℕ → Bytes
left_shift_point str size index =
    let raw = take index str ++ drop (index + 1) str in
    if ltb size index
    then take (index - size) str ++ (b'.' ∷ drop (index - size) raw)
    else zero_dot ++ (replicate (size - index) b'0' ++ raw)

unfoldable pub left_shift_whole : Bytes → ℕ → Bytes
left_shift_whole str size =
    if leb (length str) size
    then zero_dot ++ (replicate (size - length str) b'0' ++ str)
    else take (length str - size) str ++ (b'.' ∷ drop (length str - size) str)

-- `LeftShift`, for a size of at least zero: the code returns the text at zero and below.
unfoldable pub left_shift : Bytes → ℕ → Bytes
left_shift str size =
    if length str == 0 then str else if size == 0 then str else elim (index_byte str b'.') [
      | some index ↦ left_shift_point str size index
      | none ↦ left_shift_whole str size
    ]

-- The loop that looks for the first byte that is no zero.
unfoldable pub first_nonzero : Bytes → Option ℕ
first_nonzero [] = none
first_nonzero (c ∷ cs) = if c == b'0' then Option.map suc (first_nonzero cs) else some 0

-- What follows the trimming: `none` is a panic, a slice that begins at -1.
unfoldable pub cut_at : Bytes → ℕ → Option Bytes
cut_at bytes stop = elim (get_elem? bytes stop) [
  | none ↦ none
  | some c ↦
      if c == b'.'
      then (if stop == 0 then none else some (drop (stop - 1) bytes))
      else some (drop stop bytes)
]

unfoldable pub trim_zeros : Bytes → Option Bytes
trim_zeros bytes = elim (first_nonzero bytes) [ none ↦ some bytes | some stop ↦ cut_at bytes stop ]

-- The bytes of `RightShift` before the zeros at the head are trimmed, with the point at `index`.
unfoldable pub moved : Bytes → ℕ → ℕ → Bytes
moved str size index =
    let bytes = take index str ++ drop (index + 1) str in
    if leb (length str - 1) (index + size)
    then bytes ++ replicate (index + size + 1 - length str) b'0'
    else take (index + size) bytes ++ (b'.' ∷ drop (index + size) bytes)

-- `RightShift`; `none` is a panic.
unfoldable pub right_shift : Bytes → ℕ → Option Bytes
right_shift str size =
    if length str == 0
    then some str
    else if size == 0
    then some str
    else elim (index_byte str b'.') [
      | none ↦ some (str ++ replicate size b'0')
      | some index ↦ trim_zeros (moved str size index)
    ]
