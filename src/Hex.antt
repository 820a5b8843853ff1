-- ===== src/Hex.antt =====
-- Texts of bytes in base 16, as encoding/hex writes and reads them.

use dashcash_wallet.Prelude.{
  ℕ, ◌+◌, ◌-◌, ◌*◌, ◌/◌, ◌%◌, ◌<◌, ◌≡◌, refl, ◌&&◌, Option, none, some, [], ◌∷◌, arith, All, ltb,
  leb, if◌then◌else◌,
}
use dashcash_wallet.Text.{Bytes}

unfoldable pub hex_digit : ℕ → ℕ
hex_digit n = if ltb n 10 then b'0' + n else 87 + n

-- hex.EncodeToString.
unfoldable pub hex_text : Bytes → Bytes
hex_text [] = []
hex_text (b ∷ bytes) = hex_digit (b / 16) ∷ hex_digit (b % 16) ∷ hex_text bytes

unfoldable pub hex_value : ℕ → Option ℕ
hex_value c =
    if leb b'0' c && leb c b'9'
    then some (c - b'0')
    else if leb b'a' c && leb c b'f'
    then some (c - 87)
    else if leb b'A' c && leb c b'F'
    then some (c - 55)
    else none

-- hex.DecodeString; `none` is an error.
unfoldable pub decode_hex : Bytes → Option Bytes
decode_hex [] = some []
decode_hex (c ∷ []) = none
decode_hex (c ∷ d ∷ s) =
    let rest = decode_hex s in
    elim (hex_value c) [
      | none ↦ none
      | some high ↦ elim (hex_value d) [
        | none ↦ none
        | some low ↦ elim rest [ none ↦ none | some bytes ↦ some ((high * 16 + low) ∷ bytes) ]
      ]
    ]

hex_value-hex_digit : (n : ℕ) → n < 16 → hex_value (hex_digit n) ≡ some n
unfolding hex_value hex_digit
hex_value-hex_digit n h = ground arith

byte_eq : (b : ℕ) → b / 16 * 16 + b % 16 ≡ b
byte_eq b = omega arith

-- A text that was made of bytes is read as those bytes.
pub decode_hex-hex_text :
    (bytes : Bytes) → All (λ b. b < 256) bytes → decode_hex (hex_text bytes) ≡ some bytes
unfolding decode_hex hex_text
decode_hex-hex_text [] h = refl
decode_hex-hex_text (b ∷ bytes) h =
    rw
      (
        decode_hex,
        hex_value-hex_digit (b / 16) (omega (arith, h.0)),
        hex_value-hex_digit (b % 16) (omega arith),
        decode_hex-hex_text bytes h.1,
        byte_eq b,
      )
      refl
