-- ===== src/Addresses.antt =====
-- Addresses of the wallet: util/util.go but for its two shifts, and the conversions between the
-- legacy and the cash form of an address in util/bech32.go. The libraries for keys, hashes, base 58
-- and addresses are parameters, for the parameters of one chain.

pub mod Paths
pub mod CashForm
pub mod Known
mod Tests
use dashcash_wallet.Prelude.{
  ℕ, zero, suc, ◌+◌, Bool, true, false, ◌&&◌, ◌||◌, not, Option, none, some, List, [], ◌∷◌, ◌++◌,
  length, take, drop, ltb, ◌==◌, if◌then◌else◌,
}
use dashcash_wallet.Text.{Bytes, bytes_eq, codes, has_prefix, last_index_byte, to_lower}
use dashcash_wallet.Decimal.{format_uint}
use dashcash_wallet.Bech32.{decode, encode, err, ok}
use dashcash_wallet.ConvertBits.{convert_bits}
use dashcash_wallet.Params.{ChainParams}
use dashcash_wallet.Payment.{
  Address, no_address, pub_key, pub_key_hash, script_hash, witness_pub_key_hash,
  witness_script_hash,
}

-- The libraries. `public_key` is the compressed key of a child of a child of an extended key in
-- text, `private_key` that of a child of an extended private key; `none` is an error.
pub record Keys : Type 0 where
  pub public_key : Bytes → ℕ → ℕ → Option Bytes
  pub private_key : Bytes → ℕ → Option Bytes
  pub sha256 : Bytes → Bytes
  pub ripemd160 : Bytes → Bytes
  pub base58 : Bytes → Bytes
  pub decode_address : Bytes → Address
  pub is_for_net : Address → Bool

-- The map `addrs` from addresses to their paths; what was stored last comes first.
abbrev pub Addrs : Type 0
Addrs = List (Bytes × Bytes)

unfoldable pub load_addr_path : Addrs → Bytes → Option Bytes
load_addr_path [] addr = none
load_addr_path ((key, path) ∷ addrs) addr =
    if bytes_eq key addr then some path else load_addr_path addrs addr

unfoldable pub store_addr_path : Bytes → Bytes → Addrs → Addrs
store_addr_path addr path addrs = (addr, path) ∷ addrs

-- fmt.Sprintf("%d/%d", branch, index).
unfoldable pub path_text : ℕ → ℕ → Bytes
path_text branch index = format_uint branch ++ (b'/' ∷ format_uint index)

-- The test for a chain with cash addresses, of a chain's name.
unfoldable pub on_bch : Bytes → Bool
on_bch name = has_prefix (to_lower name) (codes "bch")

unfoldable pub on_bsv : Bytes → Bool
on_bsv name = has_prefix (to_lower name) (codes "bsv")

abbrev pub or_empty : Option Bytes → Bytes
or_empty none = []
or_empty (some s) = s

module _ (keys : Keys) (param : ChainParams) where
  unfoldable pub hash160 : Bytes → Bytes
  hash160 bytes = keys.ripemd160 (keys.sha256 bytes)

  -- A payload with its checksum, in base 58.
  unfoldable pub check_text : Bytes → Bytes
  check_text payload = keys.base58 (payload ++ take 4 (keys.sha256 (keys.sha256 payload)))

  unfoldable pub get_addr_by_pub_key : Bytes → Bytes
  get_addr_by_pub_key key = check_text (param.pub_key_hash_addr_id ∷ hash160 key)

  -- The text of a hash of 20 bytes with the byte of its version. A failure of `ConvertBits` or of
  -- `Encode` leaves nothing.
  unfoldable pub cash_text : ℕ → Bytes → Option Bytes
  cash_text version hash =
      if length hash == 20
      then some (
          or_empty
            (encode param.bech32_hrp_segwit (or_empty (convert_bits (version ∷ hash) 8 5 true))))
      else none

  -- `ConvertLegacyToCashAddr`; `none` is an error, which goes with the empty text.
  unfoldable pub convert_legacy_to_cash_addr : Bytes → Option Bytes
  convert_legacy_to_cash_addr legacy_addr = elim (keys.decode_address legacy_addr) [
    | witness_pub_key_hash d ↦ none
    | witness_script_hash d ↦ none
    | pub_key d ↦ none
    | pub_key_hash d ↦ cash_text 0 d
    | script_hash d ↦ cash_text 8 d
    | no_address ↦ none
  ]

  -- The legacy address of the bytes of a cash address: the version and the hash.
  unfoldable pub legacy_text : Bytes → Option Bytes
  legacy_text [] = none
  legacy_text (version ∷ hash) =
      if version == 0
      then some (check_text (param.pub_key_hash_addr_id ∷ hash))
      else if version == 8
      then some (check_text (param.script_hash_addr_id ∷ hash))
      else none

  -- An address with the prefix of the chain, if it has none.
  unfoldable pub with_prefix : Bytes → Bytes
  with_prefix cash_addr = elim (last_index_byte cash_addr b':') [
    | none ↦ param.bech32_hrp_segwit ++ (b':' ∷ cash_addr)
    | some i ↦ cash_addr
  ]

  -- `ConvertCashAddrToLegacy`; `none` is an error, which goes with the empty text.
  unfoldable pub convert_cash_addr_to_legacy : Bytes → Option Bytes
  convert_cash_addr_to_legacy cash_addr = elim (decode (with_prefix cash_addr)) [
    | err e ↦ none
    | ok (hrp, decoded) ↦
        let conv = or_empty (convert_bits decoded 5 8 false) in
        if not (bytes_eq hrp param.bech32_hrp_segwit) || not (length conv == 21)
        then none
        else legacy_text conv
  ]

  -- addr[len(hrp)+1:]; `none` is the panic at a text that is too short.
  unfoldable pub drop_prefix : Bytes → Option Bytes
  drop_prefix addr =
      if ltb (length addr) (length param.bech32_hrp_segwit + 1)
      then none
      else some (drop (length param.bech32_hrp_segwit + 1) addr)

  -- The form in which the wallet shows and keeps an address; `none` is a panic.
  unfoldable pub wallet_form : Bytes → Bytes → Option Bytes
  wallet_form name addr =
      if on_bch name then drop_prefix (or_empty (convert_legacy_to_cash_addr addr)) else some addr

  -- `getNewAddrByBranch`; `none` is an error.
  unfoldable pub get_new_addr_by_branch : Bytes → ℕ → ℕ → Addrs → Option (Bytes × Addrs)
  get_new_addr_by_branch xpub branch index addrs = elim (keys.public_key xpub branch index) [
    | none ↦ none
    | some key ↦ some (
      get_addr_by_pub_key key,
      store_addr_path (get_addr_by_pub_key key) (path_text branch index) addrs,
    )
  ]

  unfoldable pub get_new_external_addr : Bytes → ℕ → Addrs → Option (Bytes × Addrs)
  get_new_external_addr xpub index addrs = get_new_addr_by_branch xpub 0 index addrs

  unfoldable pub get_new_change_addr : Bytes → ℕ → Addrs → Option (Bytes × Addrs)
  get_new_change_addr xpub index addrs = get_new_addr_by_branch xpub 1 index addrs

  -- The last `count` rounds of the loop of `AddressInit`, from round `i`; `none` is a panic.
  unfoldable pub address_init_from : Bytes → ℕ → ℕ → ℕ → Addrs → Option Addrs
  address_init_from xpub branch zero i addrs = some addrs
  address_init_from xpub branch (suc count) i addrs = elim (keys.public_key xpub branch i) [
    | none ↦ some addrs
    | some key ↦ elim (wallet_form param.name (get_addr_by_pub_key key)) [
      | none ↦ none
      | some addr ↦
          address_init_from xpub branch count (i + 1)
            (store_addr_path addr (path_text branch i) addrs)
    ]
  ]

  unfoldable pub address_init : Bytes → ℕ → ℕ → Addrs → Option Addrs
  address_init xpub branch total addrs = address_init_from xpub branch total 0 addrs

  -- `GetPrivateKey`, which does not use its branch.
  unfoldable pub get_private_key : Bytes → ℕ → ℕ → Option Bytes
  get_private_key xpriv branch index = keys.private_key xpriv index

  abbrev is_witness : Address → Bool
  is_witness (witness_pub_key_hash d) = true
  is_witness (witness_script_hash d) = true
  is_witness (pub_key d) = false
  is_witness (pub_key_hash d) = false
  is_witness (script_hash d) = false
  is_witness no_address = false

  abbrev is_pub_key_hash : Address → Bool
  is_pub_key_hash (witness_pub_key_hash d) = false
  is_pub_key_hash (witness_script_hash d) = false
  is_pub_key_hash (pub_key d) = false
  is_pub_key_hash (pub_key_hash d) = true
  is_pub_key_hash (script_hash d) = false
  is_pub_key_hash no_address = false

  abbrev is_decoded : Address → Bool
  is_decoded (witness_pub_key_hash d) = true
  is_decoded (witness_script_hash d) = true
  is_decoded (pub_key d) = true
  is_decoded (pub_key_hash d) = true
  is_decoded (script_hash d) = true
  is_decoded no_address = false

  -- `VerifyAddress` on the legacy form.
  unfoldable pub verify_legacy : Bytes → Address → Bool
  verify_legacy chain addr =
      is_decoded addr && (keys.is_for_net addr && (not (on_bsv chain) || is_pub_key_hash addr))

  unfoldable pub verify_address : Bytes → Bytes → Bool
  verify_address chain address =
      if on_bch chain
      then elim (convert_cash_addr_to_legacy address) [
        | none ↦ false
        | some legacy ↦ verify_legacy chain (keys.decode_address legacy)
      ]
      else verify_legacy chain (keys.decode_address address)

  unfoldable pub is_native_seg_wit_address : Bytes → Bool
  is_native_seg_wit_address address =
      let addr = keys.decode_address address in
      is_decoded addr && (keys.is_for_net addr && is_witness addr)
