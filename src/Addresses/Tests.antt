-- ===== src/Addresses/Tests.antt =====
-- Addresses of the libraries of Sample.antt. One is a legacy address whose hash is twenty times the byte 7, on the main chain with cash addresses. The
-- hash of the library is the identity, and so is its base 58.
use dashcash_wallet.Prelude.{
  ℕ, ap, ◌+◌, ◌≡◌, refl, some, [], ◌∷◌, ◌++◌, arith, drop, replicate, take,
}
use dashcash_wallet.Text.{Bytes, has_prefix, lower_byte}
use dashcash_wallet.Params.{bch_main_net, btc_main_net}
use dashcash_wallet.Payment.{pub_key_hash}
use dashcash_wallet.Sample
use dashcash_wallet.Addresses.{
  Addrs, Keys, address_init, check_text, get_addr_by_pub_key, hash160, on_bch, path_text,
  wallet_form, convert_cash_addr_to_legacy, convert_legacy_to_cash_addr,
}
use dashcash_wallet.Addresses.CashForm.{
  IsHrp, convert_cash_addr_to_legacy-convert_legacy_to_cash_addr,
}
use dashcash_wallet.Addresses.Known.{IsDerived, IsFilled, address_init-IsFilled}

abbrev keys : Keys
keys = record Sample.keys { decode_address = λ s. pub_key_hash (drop 1 (take 21 s)) }

abbrev hash : Bytes
hash = replicate 20 7

abbrev legacy : Bytes
legacy = 0 ∷ hash ++ (0 ∷ 7 ∷ 7 ∷ 7 ∷ [])

bitcoincash-IsHrp : IsHrp bch_main_net.bech32_hrp_segwit
unfolding lower_byte
bitcoincash-IsHrp = record { filled = omega arith; short = omega arith; printed = omega arith }

legacy_text_lem : check_text keys bch_main_net (0 ∷ hash) ≡ legacy
unfolding check_text
legacy_text_lem = refl

convert_cash_addr_to_legacy-convert_legacy_to_cash_addr_example :
    (cash : Bytes) × (convert_legacy_to_cash_addr keys bch_main_net legacy ≡ some cash)
    × (convert_cash_addr_to_legacy keys bch_main_net cash ≡ some legacy)
convert_cash_addr_to_legacy-convert_legacy_to_cash_addr_example =
    convert_cash_addr_to_legacy-convert_legacy_to_cash_addr keys bch_main_net bitcoincash-IsHrp
      legacy (0 ∷ hash) refl refl (omega arith) legacy_text_lem

-- The outer address of an index on the main chain of Bitcoin.
abbrev outer : ℕ → Bytes
outer i = 0 ∷ b'a' ∷ (b'a' + i) ∷ 0 ∷ b'a' ∷ (b'a' + i) ∷ []

abbrev third : Bytes → ℕ
third (a ∷ b ∷ c ∷ rest) = c
third s = 0

outer-IsDerived : (i : ℕ) → IsDerived Sample.keys btc_main_net [] 0 outer i
unfolding wallet_form get_addr_by_pub_key check_text hash160 on_bch has_prefix lower_byte
outer-IsDerived i = (b'a' ∷ (b'a' + i) ∷ [], refl, refl)

address_init-IsFilled_example :
    (after : Addrs) × (address_init Sample.keys btc_main_net [] 0 3 ((hash, path_text 1 5) ∷ [])
      ≡ some after)
    × IsFilled Sample.keys btc_main_net [] 0 outer 0 3 ((hash, path_text 1 5) ∷ []) after
address_init-IsFilled_example =
    address_init-IsFilled Sample.keys btc_main_net [] 0 outer 3 ((hash, path_text 1 5) ∷ [])
      (λ i h. outer-IsDerived i) (λ i j h k e. omega (arith, ap third e))
