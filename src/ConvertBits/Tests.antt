-- ===== src/ConvertBits/Tests.antt =====
-- Runs of `ConvertBits`, from bytes to groups of five bits and back.
use dashcash_wallet.Prelude.{ℕ, ◌≡◌, refl, true, false, none, some, List, [], ◌∷◌, arith}
use dashcash_wallet.ConvertBits.{close_group, convert_bits, extract_bits, pad_group, regroup}
use dashcash_wallet.ConvertBits.RoundTrip.{
  IsPadded, convert_bits-IsPadded, convert_bits-convert_bits,
}

convert_bits_runs :
    (convert_bits (0 ∷ 255 ∷ 16 ∷ []) 8 5 true ≡ some (0 ∷ 3 ∷ 31 ∷ 17 ∷ 0 ∷ []))
    × (convert_bits (0 ∷ 3 ∷ 31 ∷ 17 ∷ 0 ∷ []) 5 8 false ≡ some (0 ∷ 255 ∷ 16 ∷ []))
    × (convert_bits (0 ∷ 3 ∷ 31 ∷ 17 ∷ 1 ∷ []) 5 8 false ≡ none)
unfolding convert_bits regroup extract_bits close_group pad_group
convert_bits_runs = (refl, refl, refl)

abbrev bytes : List ℕ
bytes = 0 ∷ 255 ∷ 16 ∷ []

convert_bits-IsPadded_example :
    (groups : List ℕ) × (p : ℕ) × (convert_bits bytes 8 3 true ≡ some groups)
    × IsPadded 8 3 p bytes groups
convert_bits-IsPadded_example =
    convert_bits-IsPadded bytes 8 3 (omega arith) (omega arith) (omega arith) (omega arith)
      (omega arith)

convert_bits-convert_bits_example :
    (groups : List ℕ) × (p : ℕ) × (convert_bits bytes 8 5 true ≡ some groups)
    × IsPadded 8 5 p bytes groups
    × (convert_bits groups 5 8 false ≡ some bytes)
convert_bits-convert_bits_example =
    convert_bits-convert_bits bytes 8 5 (omega arith) (omega arith) (omega arith) (omega arith)
      (omega arith)
