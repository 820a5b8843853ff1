-- ===== src/Bech32.antt =====
-- util/bech32.go: the base 32 text of an address with its human-readable part and checksum, and
-- the regrouping of bits between bytes of different widths. The proofs are in the modules below.
pub mod Polymod
pub mod Checksum
pub mod Charset
pub mod RoundTrip
mod Tests
use Prim.Native.Nat.{bit_and, bit_or, bit_xor}
use dashcash_wallet.Prelude.{
  ℕ, zero, suc, ◌+◌, ◌-◌, ◌*◌, ◌/◌, ◌%◌, ◌^◌, Bool, true, false, ◌&&◌, ◌||◌, not, Option, none,
  some, List, [], ◌∷◌, ◌++◌, map, length, get_elem?, take, drop, ltb, leb, ◌==◌, if◌then◌else◌,
}
use dashcash_wallet.Text.{Bytes, codes, bytes_eq, index_byte, last_index_byte, to_lower, to_upper}
use mathlib.Core.Option

unfoldable pub charset : Bytes
charset = codes "qpzry9x8gf2tvdw0s3jn54khce6mua7l"

unfoldable pub gen : List ℕ
gen = 0x98f2bc8e61 ∷ 0x79b76d99e2 ∷ 0xf33e5fb3c4 ∷ 0xae2eabe2a8 ∷ 0x1e4f43e470 ∷ []

pub data DecodeError : Type 0 where
  invalid_length : ℕ → DecodeError
  invalid_character : ℕ → DecodeError
  mixed_case : DecodeError
  invalid_separator : DecodeError
  not_in_charset : ℕ → DecodeError
  -- the text that the checksum should be, where it can be printed, and the one that was read
  checksum_failed : Option Bytes → Bytes → DecodeError

pub data Decoded (A : Type 0) : Type 0 where
  ok : A → Decoded A
  err : DecodeError → Decoded A

-- `toBytes`: the values of the characters.
unfoldable pub to_bytes : Bytes → Decoded Bytes
to_bytes [] = ok []
to_bytes (c ∷ cs) =
    let rest = to_bytes cs in
    elim (index_byte charset c) [
      | none ↦ err (not_in_charset c)
      | some v ↦ elim rest [ ok vs ↦ ok (v ∷ vs) | err e ↦ err e ]
    ]

-- `toChars`: `none` is the error for a value of 32 or more.
unfoldable pub to_chars : Bytes → Option Bytes
to_chars [] = some []
to_chars (b ∷ bs) = elim (get_elem? charset b) [
  | none ↦ none
  | some c ↦ Option.map (λ cs. c ∷ cs) (to_chars bs)
]

-- The inner loop of `bech32Polymod`, from index `i` on.
unfoldable pub add_generators : ℕ → ℕ → List ℕ → ℕ → ℕ
add_generators b i [] chk = chk
add_generators b i (g ∷ gs) chk =
    add_generators b (i + 1) gs (if bit_and b (2 ^ i) == 0 then chk else bit_xor chk g)

-- One round of `bech32Polymod`.
unfoldable pub polymod_step : ℕ → ℕ → ℕ
polymod_step chk v =
    add_generators (chk / 2 ^ 35) 0 gen (bit_xor (bit_and chk 0x07ffffffff * 2 ^ 5) v)

unfoldable pub polymod_from : ℕ → List ℕ → ℕ
polymod_from chk [] = chk
polymod_from chk (v ∷ vs) = polymod_from (polymod_step chk v) vs

unfoldable pub bech32_polymod : List ℕ → ℕ
bech32_polymod values = polymod_from 1 values

unfoldable pub hrp_expand : Bytes → List ℕ
hrp_expand hrp = map (λ c. bit_and c 31) hrp ++ 0 ∷ []

-- The last `k` rounds of the loop that cuts the checksum into groups of five bits.
unfoldable pub checksum_groups : ℕ → ℕ → Bytes
checksum_groups polymod zero = []
checksum_groups polymod (suc k) =
    bit_and (polymod / 2 ^ (5 * k)) 31 % 256 ∷ checksum_groups polymod k

unfoldable pub bech32_checksum : Bytes → Bytes → Bytes
bech32_checksum hrp bytes =
    let values = hrp_expand hrp ++ bytes ++ (0 ∷ 0 ∷ 0 ∷ 0 ∷ 0 ∷ 0 ∷ 0 ∷ 0 ∷ []) in
    checksum_groups (bit_xor (bech32_polymod values) 1) 8

unfoldable pub verify_checksum : Bytes → Bytes → Bool
verify_checksum hrp bytes = bech32_polymod (hrp_expand hrp ++ bytes) == 1

-- `Encode`; `none` is the error of `toChars`.
unfoldable pub encode : Bytes → Bytes → Option Bytes
encode hrp bytes =
    Option.map (λ chars. hrp ++ (b':' ∷ chars)) (to_chars (bytes ++ bech32_checksum hrp bytes))

-- The first byte outside 33 to 126.
unfoldable pub first_unprintable : Bytes → Option ℕ
first_unprintable [] = none
first_unprintable (c ∷ cs) = if ltb c 33 || ltb 126 c then some c else first_unprintable cs

-- `Decode` behind the checks on the whole text, on the lowercase text and its parts.
unfoldable pub decode_parts : Bytes → Bytes → Bytes → Decoded (Bytes × Bytes)
decode_parts lower hrp chars = elim (to_bytes chars) [
  | err e ↦ err e
  | ok decoded ↦
      let payload = take (length decoded - 8) decoded in
      if not (verify_checksum hrp decoded)
      then err
          (checksum_failed (to_chars (bech32_checksum hrp payload)) (drop (length lower - 8) lower))
      else ok (hrp, payload)
]

unfoldable pub decode_lower : Bytes → Decoded (Bytes × Bytes)
decode_lower lower = elim (last_index_byte lower b':') [
  | none ↦ err invalid_separator
  | some one ↦
      if ltb one 1 || ltb (length lower) (one + 9)
      then err invalid_separator
      else decode_parts lower (take one lower) (drop (one + 1) lower)
]

unfoldable pub decode : Bytes → Decoded (Bytes × Bytes)
decode bech =
    if ltb (length bech) 10 || ltb 90 (length bech)
    then err (invalid_length (length bech))
    else elim (first_unprintable bech) [
      | some c ↦ err (invalid_character c)
      | none ↦
          if not (bytes_eq bech (to_lower bech)) && not (bytes_eq bech (to_upper bech))
          then err mixed_case
          else decode_lower (to_lower bech)
    ]
