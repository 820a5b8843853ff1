-- ===== src/Utxos/Holds.antt =====
-- The store as the list of outputs that it holds: what the scans and the balances are in terms of
-- that list.
use dashcash_wallet.Prelude.{
  ℕ, ◌^◌, ◌<◌, ◌≡◌, refl, sym, Bool, false, ◌&&◌, ◌||◌, Option, none, some, List, [], ◌∷◌, ◌++◌,
  map, arith, All, ltb, if◌then◌else◌, Bool-cases, inl, inr,
}
use dashcash_wallet.Prelude.Int.{ℤ, pos, ltb_ℤ, ◌+ℤ◌}
use dashcash_wallet.Text.{Bytes, codes, has_prefix}
use dashcash_wallet.Decimal.{big_of_text, format_int}
use dashcash_wallet.Decimal.RoundTrip.{big_of_text-format_uint, format_uint-one}
use dashcash_wallet.Utxos.{
  Badger, Utxo, get_all_utxo, get_all_utxo_by_branch, get_balance, get_inner_balance, is_address,
  is_inner, is_on_branch, low_bits, scan_balance, scan_utxos, utxo_val,
}
use dashcash_wallet.Utxos.Entries.{IsOutput, entry_of, read_utxo-entry_of, split_at-append}

abbrev pub IsSound : Utxo → Type 0
IsSound u = (n : ℕ) × IsOutput u n

-- The store `db` holds the outputs `us`, in the order of its keys.
pub record Holds {D : Type 0} (badger : Badger D) (db : D) (us : List Utxo) : Type 0 where
  pub entries : badger.items db ≡ map entry_of us
  pub sound : All IsSound us

abbrev pub is_wanted : (Bytes → Bool) → Bool → Utxo → Bool
is_wanted keep use_tiny u = keep u.address && (use_tiny || ltb_ℤ (pos 546) u.value)

-- The outputs that a scan is after.
unfoldable pub wanted : (Bytes → Bool) → Bool → List Utxo → List Utxo
wanted keep use_tiny [] = []
wanted keep use_tiny (u ∷ us) =
    let rest = wanted keep use_tiny us in if is_wanted keep use_tiny u then u ∷ rest else rest

-- The value of outputs, on top of a balance.
unfoldable pub value_from : ℤ → List Utxo → ℤ
value_from balance [] = balance
value_from balance (u ∷ us) = value_from (balance +ℤ u.value) us

module _ (keep : Bytes → Bool) (use_tiny : Bool) where
  pub scan_utxos-wanted :
      (us : List Utxo)
      → All IsSound us
      → scan_utxos keep use_tiny (map entry_of us) ≡ some (wanted keep use_tiny us)
  unfolding scan_utxos wanted
  scan_utxos-wanted [] h = refl
  scan_utxos-wanted (u ∷ us) (h, hs) =
      rw (scan_utxos, read_utxo-entry_of u h.0 h.1, scan_utxos-wanted us hs) refl

  pub scan_balance-wanted :
      (balance : ℤ) (us : List Utxo)
      → All IsSound us
      → scan_balance keep use_tiny balance (map entry_of us)
        ≡ some (value_from balance (wanted keep use_tiny us))
  unfolding scan_balance wanted value_from utxo_val
  scan_balance-wanted balance [] h = refl
  scan_balance-wanted balance (u ∷ us) (h, hs) =
      let o = h.1 in
      rw
        (
          scan_balance,
          split_at-append b':' u.address (format_int u.value) o.address,
          amount_read u.value h.0 o.value,
          large u.value h.0 o.value o.fits,
        )
        (elim (Bool-cases (keep u.address)) [
          | inr foreign ↦ rw foreign (scan_balance-wanted balance us hs)
          | inl own ↦ elim (Bool-cases (use_tiny || ltb_ℤ (pos 546) u.value)) [
            | inr small ↦ rw (own, small) (scan_balance-wanted balance us hs)
            | inl enough ↦ rw (own, enough) (scan_balance-wanted (balance +ℤ u.value) us hs)
          ]
        ])
    where
      amount_read : (z : ℤ) (n : ℕ) → z ≡ pos n → big_of_text (format_int z) ≡ some z
      amount_read z n e = rw e (unfold format_int in big_of_text-format_uint n)

      large : (z : ℤ) (n : ℕ) → z ≡ pos n → n < 2 ^ 63 → ltb 546 (low_bits z) ≡ ltb_ℤ (pos 546) z
      large z n e k = rw e (ground arith)

module _ {D : Type 0} (badger : Badger D) (db : D) (us : List Utxo)
    (holds : Holds badger db us) where
  get_all_utxo-wanted :
      (address : Bytes) (use_tiny : Bool)
      → get_all_utxo badger db address use_tiny ≡ some (wanted (is_address address) use_tiny us)
  unfolding get_all_utxo
  get_all_utxo-wanted address use_tiny =
      rw (holds.entries) (scan_utxos-wanted (is_address address) use_tiny us holds.sound)

  pub get_balance-wanted :
      (address : Bytes) (use_tiny : Bool)
      → get_balance badger db address use_tiny
        ≡ some (value_from (pos 0) (wanted (is_address address) use_tiny us))
  unfolding get_balance
  get_balance-wanted address use_tiny =
      rw (holds.entries) (scan_balance-wanted (is_address address) use_tiny (pos 0) us holds.sound)

-- The balance of an address, or of the wallet, is the sum of the values of the outputs that
-- `GetAllUtxo` returns for it, and neither panics, whether tiny outputs count or not.
pub get_balance-get_all_utxo :
    {D : Type 0} (badger : Badger D) (db : D) (us : List Utxo) (address : Bytes) (use_tiny : Bool)
    → Holds badger db us
    → (utxos : List Utxo) × (get_all_utxo badger db address use_tiny ≡ some utxos)
      × (get_balance badger db address use_tiny ≡ some (value_from (pos 0) utxos))
get_balance-get_all_utxo badger db us address use_tiny holds = (
  wanted (is_address address) use_tiny us,
  get_all_utxo-wanted badger db us holds address use_tiny,
  get_balance-wanted badger db us holds address use_tiny,
)

is_inner-is_on_branch :
    {D : Type 0} (badger : Badger D) (load_addr_path : Bytes → Option Bytes)
    → is_inner badger load_addr_path ≡ is_on_branch badger load_addr_path 1
unfolding is_inner is_on_branch
is_inner-is_on_branch badger load_addr_path = λ i addr. elim (load_addr_path addr) [
  | none ↦ false
  | some path ↦ has_prefix path (sym format_uint-one i ++ codes "/")
]

-- The inner balance is the sum of the values of the outputs that `GetAllUtxoByBranch` returns for
-- branch 1, and neither panics, whatever the paths of the addresses.
pub get_inner_balance-get_all_utxo_by_branch :
    {D : Type 0} (badger : Badger D) (load_addr_path : Bytes → Option Bytes) (db : D)
    (us : List Utxo) (use_tiny : Bool)
    → Holds badger db us
    → (utxos : List Utxo) × (get_all_utxo_by_branch badger load_addr_path db 1 use_tiny
        ≡ some utxos)
      × (get_inner_balance badger load_addr_path db use_tiny ≡ some (value_from (pos 0) utxos))
unfolding get_inner_balance get_all_utxo_by_branch
get_inner_balance-get_all_utxo_by_branch badger load_addr_path db us use_tiny holds =
    let keep = is_on_branch badger load_addr_path 1 in
    (
      wanted keep use_tiny us,
      rw (holds.entries) (scan_utxos-wanted keep use_tiny us holds.sound),
      rw (holds.entries, is_inner-is_on_branch badger load_addr_path)
          (scan_balance-wanted keep use_tiny (pos 0) us holds.sound),
    )
