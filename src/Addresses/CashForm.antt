-- ===== src/Addresses/CashForm.antt =====
-- The two forms of an address: ConvertLegacyToCashAddr and ConvertCashAddrToLegacy of
-- util/bech32.go, one after the other.
use mathlib.Core.Path.{subst}
use dashcash_wallet.Prelude.{
  ℕ, suc, ◌<◌, ◌≤◌, ◌≡◌, refl, sym, ap, ◌∙◌, false, Option, none, some, ◌∷◌, ◌++◌, All, All-append,
  arith, length, ==_iff,
}
use dashcash_wallet.Text.{Bytes, bytes_eq_refl}
use dashcash_wallet.Bech32.{bech32_checksum, decode, encode, ok}
use dashcash_wallet.Bech32.Charset.{to_bytes-to_chars, to_chars-Fits}
use dashcash_wallet.Bech32.Checksum.{bech32_checksum-Fits, Fits}
use dashcash_wallet.Bech32.RoundTrip.{IsHrpChar, decode-encode, last_index_byte-append}
use dashcash_wallet.ConvertBits.{convert_bits}
use dashcash_wallet.ConvertBits.RoundTrip.{convert_bits-convert_bits}
use dashcash_wallet.Params.{ChainParams}
use dashcash_wallet.Payment.{
  Address, no_address, pub_key, pub_key_hash, script_hash, witness_pub_key_hash,
  witness_script_hash,
}
use dashcash_wallet.Addresses.{
  Keys, cash_text, check_text, convert_cash_addr_to_legacy, convert_legacy_to_cash_addr,
  legacy_text, or_empty, with_prefix,
}

-- A human-readable part that `Decode` takes, short enough for 34 values behind it.
pub record IsHrp (hrp : Bytes) : Type 0 where
  pub filled : 1 ≤ length hrp
  pub short : length hrp ≤ 47
  pub printed : All IsHrpChar hrp

-- `Encode` makes a text of such a part and values that fit, and the text has its prefix.
encode-with_prefix :
    (keys : Keys) (param : ChainParams) (values : Bytes)
    → Fits values
    → (s : Bytes) × (encode param.bech32_hrp_segwit values ≡ some s)
      × (with_prefix keys param s ≡ s)
unfolding encode with_prefix
encode-with_prefix keys param values h =
    let hrp = param.bech32_hrp_segwit in
    let sum = bech32_checksum hrp values in
    let (chars, e) =
      to_chars-Fits (values ++ sum)
        (All-append (λ v. v < 32) values sum h (bech32_checksum-Fits hrp values)) in
    let (read, fits, plain, len) = to_bytes-to_chars (values ++ sum) chars e in
    (
      hrp ++ (b':' ∷ chars),
      rw e refl,
      rw (with_prefix, last_index_byte-append hrp chars plain) refl,
    )

-- The payload of a legacy address: the version byte of its kind and the hash.
abbrev pub payload : ChainParams → Address → Option Bytes
payload param (pub_key_hash d) = some (param.pub_key_hash_addr_id ∷ d)
payload param (script_hash d) = some (param.script_hash_addr_id ∷ d)
payload param (witness_pub_key_hash d) = none
payload param (witness_script_hash d) = none
payload param (pub_key d) = none
payload param no_address = none

module _ (keys : Keys) (param : ChainParams) (part : IsHrp param.bech32_hrp_segwit) where
  convert_decoded :
      (cash groups hash : Bytes) (version : ℕ)
      → with_prefix keys param cash ≡ cash
      → decode cash ≡ ok (param.bech32_hrp_segwit, groups)
      → convert_bits groups 5 8 false ≡ some (version ∷ hash)
      → length hash ≡ 20
      → convert_cash_addr_to_legacy keys param cash ≡ legacy_text keys param (version ∷ hash)
  unfolding convert_cash_addr_to_legacy
  convert_decoded cash groups hash version prefixed decoded back len =
      rw
        (
          convert_cash_addr_to_legacy,
          prefixed,
          decoded,
          back,
          bytes_eq_refl param.bech32_hrp_segwit,
          (==_iff (suc (length hash)) 21).1 (ap suc len),
        )
        refl

  cash_text-round_trip :
      (version : ℕ) (hash : Bytes)
      → version < 256
      → length hash ≡ 20
      → All (λ b. b < 256) hash
      → (cash : Bytes) × (cash_text keys param version hash ≡ some cash)
        × (convert_cash_addr_to_legacy keys param cash ≡ legacy_text keys param (version ∷ hash))
  unfolding cash_text
  cash_text-round_trip version hash small len h =
      let hrp = param.bech32_hrp_segwit in
      let (groups, p, made, padded, back) =
        convert_bits-convert_bits (version ∷ hash) 8 5 (omega arith) (omega arith) (omega arith)
          (omega arith) (small, h) in
      let (cash, encoded, prefixed) = encode-with_prefix keys param groups padded.1 in
      let decoded : decode cash ≡ ok (hrp, groups) =
        decode-encode hrp groups cash part.filled part.printed
          (let bound = part.short in omega (arith, padded.0, padded.2, len, bound)) encoded in
      (
        cash,
        rw (cash_text, (==_iff (length hash) 20).1 len, made, encoded) refl,
        convert_decoded cash groups hash version prefixed decoded back len,
      )

  -- The round trip of a text whose version byte gives back the payload.
  round_trip_from :
      (legacy bytes hash : Bytes) (version id : ℕ)
      → version < 256
      → id ∷ hash ≡ bytes
      → length bytes ≡ 21
      → All (λ b. b < 256) bytes
      → convert_legacy_to_cash_addr keys param legacy ≡ cash_text keys param version hash
      → legacy_text keys param (version ∷ hash) ≡ some (check_text keys param (id ∷ hash))
      → check_text keys param bytes ≡ legacy
      → (cash : Bytes) × (convert_legacy_to_cash_addr keys param legacy ≡ some cash)
        × (convert_cash_addr_to_legacy keys param cash ≡ some legacy)
  round_trip_from legacy bytes hash version id small e len h there back text =
      let (cash, made, again) =
        cash_text-round_trip version hash small (omega (arith, ap length e, len))
          (subst (All (λ b. b < 256)) (sym e) h).1 in
      (cash, there ∙ made, again ∙ back ∙ ap (λ b. some (check_text keys param b)) e ∙ ap some text)

  by_kind :
      (legacy bytes : Bytes) (addr : Address)
      → keys.decode_address legacy ≡ addr
      → payload param addr ≡ some bytes
      → length bytes ≡ 21
      → All (λ b. b < 256) bytes
      → check_text keys param bytes ≡ legacy
      → (cash : Bytes) × (convert_legacy_to_cash_addr keys param legacy ≡ some cash)
        × (convert_cash_addr_to_legacy keys param cash ≡ some legacy)
  unfolding convert_legacy_to_cash_addr legacy_text
  by_kind legacy bytes (pub_key_hash d) k e len h text =
      round_trip_from legacy bytes d 0 param.pub_key_hash_addr_id (omega arith) (ap or_empty e) len
        h (rw (convert_legacy_to_cash_addr, k) refl) refl text
  by_kind legacy bytes (script_hash d) k e len h text =
      round_trip_from legacy bytes d 8 param.script_hash_addr_id (omega arith) (ap or_empty e) len h
        (rw (convert_legacy_to_cash_addr, k) refl) refl text
  by_kind legacy bytes (witness_pub_key_hash d) k e len h text = ground arith
  by_kind legacy bytes (witness_script_hash d) k e len h text = ground arith
  by_kind legacy bytes (pub_key d) k e len h text = ground arith
  by_kind legacy bytes no_address k e len h text = ground arith

  -- On a chain whose human-readable part has at most 47 characters, all printable and none an
  -- uppercase letter: a legacy address that the library decodes to a hash of a key or of a script,
  -- with 20 bytes, and that is the text of that payload, has a cash form, and
  -- ConvertCashAddrToLegacy turns it back into the address.
  pub convert_cash_addr_to_legacy-convert_legacy_to_cash_addr :
      (legacy bytes : Bytes)
      → payload param (keys.decode_address legacy) ≡ some bytes
      → length bytes ≡ 21
      → All (λ b. b < 256) bytes
      → check_text keys param bytes ≡ legacy
      → (cash : Bytes) × (convert_legacy_to_cash_addr keys param legacy ≡ some cash)
        × (convert_cash_addr_to_legacy keys param cash ≡ some legacy)
  convert_cash_addr_to_legacy-convert_legacy_to_cash_addr legacy bytes =
      by_kind legacy bytes (keys.decode_address legacy) refl
