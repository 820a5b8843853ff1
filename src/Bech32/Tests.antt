-- ===== src/Bech32/Tests.antt =====
-- Runs of the code on the addresses of util/util_test.go, and the theorems at those inputs.
use dashcash_wallet.Prelude.{◌≡◌, refl, some, [], ◌∷◌, arith, true, ◌↔◌, ◌++◌}
use dashcash_wallet.Text.{
  Bytes, codes, index_byte, last_index_byte, lower_byte, upper_byte, to_lower,
}
use dashcash_wallet.Bech32.{
  charset, gen, to_bytes, to_chars, add_generators, polymod_step, polymod_from, bech32_polymod,
  hrp_expand, checksum_groups, bech32_checksum, verify_checksum, encode, first_unprintable,
  decode_parts, decode_lower, decode, ok,
}
use dashcash_wallet.Bech32.Checksum.{verify_checksum-bech32_checksum}
use dashcash_wallet.Bech32.RoundTrip.{decode-encode, encode-decode}

-- The 5-bit values of a public key hash.
abbrev values : Bytes
values =
    0 ∷ 0 ∷ 3 ∷ 6 ∷ 29 ∷ 15 ∷ 23 ∷ 5 ∷ 18 ∷ 0 ∷ 19 ∷ 24 ∷ 30 ∷ 12 ∷ 21 ∷ 14 ∷ 27 ∷ 18 ∷ 5 ∷ 4 ∷ 16
    ∷ 25 ∷ 11 ∷ 16 ∷ 1 ∷ 17 ∷ 4 ∷ 30 ∷ 14 ∷ 5 ∷ 31 ∷ 17 ∷ 26 ∷ 28 ∷ []

abbrev address : Bytes
address = codes "bitcoincash:qqrxa0h9jqnc7v4wmj9ysetsp3y7w9l36u8gnnjulq"

encode_run : encode (codes "bitcoincash") values ≡ some address
unfolding encode to_chars charset bech32_checksum hrp_expand bech32_polymod polymod_from
    polymod_step add_generators gen checksum_groups
encode_run = refl

decode_run : decode address ≡ ok (codes "bitcoincash", values)
unfolding decode first_unprintable lower_byte upper_byte decode_lower last_index_byte decode_parts
    to_bytes index_byte charset verify_checksum hrp_expand bech32_polymod polymod_from polymod_step
    add_generators gen
decode_run = refl

decode-encode_example : decode address ≡ ok (codes "bitcoincash", values)
unfolding lower_byte
decode-encode_example =
    decode-encode (codes "bitcoincash") values address (omega arith) (omega arith) (omega arith)
      encode_run

encode-decode_example : encode (codes "bitcoincash") values ≡ some (to_lower address)
encode-decode_example = encode-decode address (codes "bitcoincash") values decode_run

verify_checksum-bech32_checksum_example :
    (verify_checksum (codes "bchtest") (values ++ (1 ∷ 2 ∷ 3 ∷ 4 ∷ 5 ∷ 6 ∷ 7 ∷ 8 ∷ [])) ≡ true)
    ↔ ((1 ∷ 2 ∷ 3 ∷ 4 ∷ 5 ∷ 6 ∷ 7 ∷ 8 ∷ []) ≡ bech32_checksum (codes "bchtest") values)
verify_checksum-bech32_checksum_example =
    verify_checksum-bech32_checksum (codes "bchtest") values (1 ∷ 2 ∷ 3 ∷ 4 ∷ 5 ∷ 6 ∷ 7 ∷ 8 ∷ [])
      (omega arith) (omega arith) refl
