-- ===== src/Addresses/Paths.antt =====
-- The paths that the map of addresses holds.
use dashcash_wallet.Prelude.{
  ℕ, zero, suc, ◌+◌, ◌≡◌, refl, sym, false, Option, none, some, Option-cases, Bool-cases, inl, inr,
  [], ◌∷◌, arith, All, ◌==◌,
}
use dashcash_wallet.Text.{Bytes, bytes_eq, bytes_eq_refl, index_byte}
use dashcash_wallet.Decimal.{format_uint}
use dashcash_wallet.Decimal.RoundTrip.{IsDigits, format_uint-IsDigits}
use dashcash_wallet.Utxos.{split_at}
use dashcash_wallet.Utxos.Entries.{split_at-append}
use dashcash_wallet.Params.{ChainParams}
use dashcash_wallet.Addresses.{
  Addrs, Keys, address_init_from, get_addr_by_pub_key, get_new_addr_by_branch, load_addr_path,
  path_text, store_addr_path, wallet_form,
}

-- A path as the wallet writes it.
abbrev pub IsPath : Bytes → Type 0
IsPath path = (branch : ℕ) × (index : ℕ) × (path ≡ path_text branch index)

abbrev pub HasPaths : Addrs → Type 0
HasPaths addrs = All (λ e. IsPath e.1) addrs

pub load_addr_path-IsPath :
    (addrs : Addrs) (addr path : Bytes)
    → HasPaths addrs
    → load_addr_path addrs addr ≡ some path
    → IsPath path
unfolding load_addr_path
load_addr_path-IsPath [] addr path h e = ground arith
load_addr_path-IsPath ((key, p) ∷ addrs) addr path (h, hs) e =
    elim (Bool-cases (bytes_eq key addr)) [
      | inl f ↦
          let same : p ≡ path = some_injective (rw (load_addr_path, f) at e) in rw (sym same) h
      | inr f ↦ load_addr_path-IsPath addrs addr path hs (rw (load_addr_path, f) at e)
    ]
  where
    some_injective : {a b : Bytes} → some a ≡ some b → a ≡ b
    some_injective e = ground arith

pub store_addr_path-HasPaths :
    (addrs : Addrs) (addr : Bytes) (branch index : ℕ)
    → HasPaths addrs
    → HasPaths (store_addr_path addr (path_text branch index) addrs)
unfolding store_addr_path
store_addr_path-HasPaths addrs addr branch index h = ((branch, index, refl), h)

-- What was stored is loaded, and the other addresses keep their paths.
pub load_addr_path-store_addr_path :
    (addrs : Addrs) (addr path : Bytes)
    → load_addr_path (store_addr_path addr path addrs) addr ≡ some path
unfolding load_addr_path store_addr_path
load_addr_path-store_addr_path addrs addr path = rw (load_addr_path, bytes_eq_refl addr) refl

pub load_addr_path-other :
    (addrs : Addrs) (addr path other : Bytes)
    → bytes_eq addr other ≡ false
    → load_addr_path (store_addr_path addr path addrs) other ≡ load_addr_path addrs other
unfolding load_addr_path store_addr_path
load_addr_path-other addrs addr path other h = rw (load_addr_path, h) refl

-- The map of a new address, if there is one, and the map of a loop, if it does not panic.
abbrev pub HasPathsNew : Option (Bytes × Addrs) → Type 0
HasPathsNew none = Unit
HasPathsNew (some (addr, addrs)) = HasPaths addrs

abbrev pub HasPathsIf : Option Addrs → Type 0
HasPathsIf none = Unit
HasPathsIf (some addrs) = HasPaths addrs

module _ (keys : Keys) (param : ChainParams) (xpub : Bytes) (branch : ℕ) where
  pub get_new_addr_by_branch-HasPaths :
      (index : ℕ) (addrs : Addrs)
      → HasPaths addrs
      → HasPathsNew (get_new_addr_by_branch keys param xpub branch index addrs)
  unfolding get_new_addr_by_branch
  get_new_addr_by_branch-HasPaths index addrs h =
      elim (Option-cases (keys.public_key xpub branch index)) [
        | inl f ↦ rw (get_new_addr_by_branch, f) (record {})
        | inr (key, f) ↦
            rw (get_new_addr_by_branch, f)
              (store_addr_path-HasPaths addrs (get_addr_by_pub_key keys param key) branch index h)
      ]

  pub address_init_from-HasPaths :
      (count i : ℕ) (addrs : Addrs)
      → HasPaths addrs
      → HasPathsIf (address_init_from keys param xpub branch count i addrs)
  unfolding address_init_from
  address_init_from-HasPaths zero i addrs h = h
  address_init_from-HasPaths (suc count) i addrs h =
      elim (Option-cases (keys.public_key xpub branch i)) [
        | inl f ↦ rw (address_init_from, f) h
        | inr (key, f) ↦
            elim (Option-cases
              (wallet_form keys param param.name (get_addr_by_pub_key keys param key))) [
                | inl g ↦ rw (address_init_from, f, g) (record {})
                | inr (addr, g) ↦
                    rw (address_init_from, f, g)
                      (address_init_from-HasPaths count (i + 1)
                        (store_addr_path addr (path_text branch i) addrs)
                        (store_addr_path-HasPaths addrs addr branch i h))
              ]
      ]

index_byte-digits : (s : Bytes) → IsDigits s → index_byte s b'/' ≡ none
unfolding index_byte
index_byte-digits [] h = refl
index_byte-digits (c ∷ s) (h, hs) =
    let other : (c == b'/') ≡ false = ground arith in
    rw (index_byte, other, index_byte-digits s hs) refl

-- A path of the wallet is split into its branch and its index.
pub split_at-path_text :
    (branch index : ℕ)
    → split_at b'/' (path_text branch index) ≡ some (format_uint branch, format_uint index)
unfolding path_text
split_at-path_text branch index =
    split_at-append b'/' (format_uint branch) (format_uint index)
      (index_byte-digits (format_uint branch) (format_uint-IsDigits branch))
