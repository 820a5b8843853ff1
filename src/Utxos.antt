-- ===== src/Utxos.antt =====
-- The store of unspent outputs of db.go, with the records of payment.go that go through it. Badger
-- is a parameter, a map from keys to values that is read in the order of its keys.
pub mod Entries
pub mod Holds
pub mod Changes
pub mod Balance
mod Tests
use dashcash_wallet.Prelude.{
  ℕ, ◌+◌, ◌%◌, ◌^◌, Bool, true, false, ◌&&◌, ◌||◌, Option, none, some, List, [], ◌∷◌, ◌++◌, length,
  take, drop, ltb, ◌==◌, if◌then◌else◌,
}
use dashcash_wallet.Prelude.Int.{ℤ, pos, neg_part, pos_part, word64, ltb_ℤ, ◌+ℤ◌}
use dashcash_wallet.Text.{Bytes, bytes_eq, codes, has_prefix, index_byte}
use dashcash_wallet.Decimal.{big_of_text, format_int, format_uint, int_value, parse_int}

pub record TxOut : Type 0 where
  pub address : Bytes
  pub amount : ℤ
  pub script : Bytes

pub record Utxo : Type 0 where
  pub hash : Bytes
  pub index : ℕ
  pub address : Bytes
  pub value : ℤ

-- What Badger answers to a read: the value, ErrKeyNotFound, or another error.
pub data Lookup : Type 0 where
  found : Bytes → Lookup
  key_not_found failed : Lookup

-- The operations of Badger in use. A change is `none` when it, or the commit behind it, fails; the
-- store is then what it was.
pub record Badger (D : Type 0) : Type 0 where
  pub get : D → Bytes → Lookup
  pub put : D → Bytes → Bytes → Option D
  pub delete : D → Bytes → Option D
  pub items : D → List (Bytes × Bytes)

unfoldable pub utxo_key : Bytes → ℕ → Bytes
utxo_key hash index = hash ++ (b'/' ∷ format_uint index)

unfoldable pub utxo_val : Bytes → ℤ → Bytes
utxo_val address value = address ++ (b':' ∷ format_int value)

-- s[:pos] and s[pos+1:] at the first separator; `none` is the panic when there is none.
unfoldable pub split_at : ℕ → Bytes → Option (Bytes × Bytes)
split_at c s = elim (index_byte s c) [ none ↦ none | some i ↦ some (take i s, drop (i + 1) s) ]

-- The value of an entry as `GetUtxoByKey` reads it.
unfoldable pub read_out : Bytes → Option TxOut
read_out v = elim (split_at b':' v) [
  | none ↦ none
  | some (address, val) ↦
      some (record { address = address; amount = int_value (parse_int 64 val); script = [] })
]

-- An entry as the loops of `GetAllUtxo` and `GetAllUtxoByBranch` read it.
unfoldable pub read_utxo : Bytes → Bytes → Option Utxo
read_utxo k v = elim (split_at b'/' k) [
  | none ↦ none
  | some (hash, index) ↦ elim (split_at b':' v) [
    | none ↦ none
    | some (address, val) ↦ some (record {
      hash = hash;
      index = word64 (int_value (parse_int 32 index)) % 2 ^ 32;
      address = address;
      value = int_value (parse_int 64 val);
    })
  ]
]

-- The loops of `GetAllUtxo` and `GetAllUtxoByBranch`, which differ in the addresses that they keep.
unfoldable pub scan_utxos : (Bytes → Bool) → Bool → List (Bytes × Bytes) → Option (List Utxo)
scan_utxos keep use_tiny [] = some []
scan_utxos keep use_tiny ((k, v) ∷ items) =
    let rest = scan_utxos keep use_tiny items in
    elim (read_utxo k v) [
      | none ↦ none
      | some utxo ↦ elim rest [
        | none ↦ none
        | some utxos ↦ some (
            if keep utxo.address && (use_tiny || ltb_ℤ (pos 546) utxo.value)
            then utxo ∷ utxos
            else utxos)
      ]
    ]

-- big.Int.Uint64, which gives the low bits of the absolute value.
abbrev pub low_bits : ℤ → ℕ
low_bits z = (pos_part z + neg_part z) % 2 ^ 64

-- The loops of `getBalance` and `getInnerBalance`; `none` is a panic, at a value without separator
-- or at the nil that SetString returns for a text that is no number.
unfoldable pub scan_balance : (Bytes → Bool) → Bool → ℤ → List (Bytes × Bytes) → Option ℤ
scan_balance keep use_tiny balance [] = some balance
scan_balance keep use_tiny balance ((k, v) ∷ items) =
    let same = scan_balance keep use_tiny balance items in
    elim (split_at b':' v) [
      | none ↦ none
      | some (address, val) ↦
          if keep address
          then elim (big_of_text val) [
            | none ↦ none
            | some amount ↦
                if use_tiny || ltb 546 (low_bits amount)
                then scan_balance keep use_tiny (balance +ℤ amount) items
                else same
          ]
          else same
    ]

-- What the caller of `GetUtxoByKey` gets.
pub data Fetched : Type 0 where
  fetched : TxOut → Fetched
  error panic : Fetched

-- The addresses of a scan: all of them for the empty text.
unfoldable pub is_address : Bytes → Bytes → Bool
is_address address addr = length address == 0 || bytes_eq address addr

module _ {D : Type 0} (badger : Badger D) where
  -- `createUtxo`, with the store that it leaves; `none` is an error.
  unfoldable pub create_utxo : D → Bytes → ℕ → Bytes → ℤ → Option D
  create_utxo db hash index address value = elim (badger.get db (utxo_key hash index)) [
    | key_not_found ↦ badger.put db (utxo_key hash index) (utxo_val address value)
    | found v ↦ some db
    | failed ↦ none
  ]

  unfoldable pub remove_utxo : D → Bytes → ℕ → Option D
  remove_utxo db hash index = elim (badger.get db (utxo_key hash index)) [
    | found v ↦ badger.delete db (utxo_key hash index)
    | key_not_found ↦ none
    | failed ↦ none
  ]

  unfoldable pub get_utxo_by_key : D → Bytes → ℕ → Fetched
  get_utxo_by_key db hash index = elim (badger.get db (utxo_key hash index)) [
    | found v ↦ elim (read_out v) [ none ↦ panic | some out ↦ fetched out ]
    | key_not_found ↦ error
    | failed ↦ error
  ]

  unfoldable pub get_all_utxo : D → Bytes → Bool → Option (List Utxo)
  get_all_utxo db address use_tiny = scan_utxos (is_address address) use_tiny (badger.items db)

  unfoldable pub get_balance : D → Bytes → Bool → Option ℤ
  get_balance db address use_tiny =
      scan_balance (is_address address) use_tiny (pos 0) (badger.items db)

  module _ (load_addr_path : Bytes → Option Bytes) where
    -- The addresses on a branch of the wallet.
    unfoldable pub is_on_branch : ℕ → Bytes → Bool
    is_on_branch branch addr = elim (load_addr_path addr) [
      | none ↦ false
      | some path ↦ has_prefix path (format_uint branch ++ codes "/")
    ]

    unfoldable pub get_all_utxo_by_branch : D → ℕ → Bool → Option (List Utxo)
    get_all_utxo_by_branch db branch use_tiny =
        scan_utxos (is_on_branch branch) use_tiny (badger.items db)

    -- The addresses on the inner branch.
    unfoldable pub is_inner : Bytes → Bool
    is_inner addr = elim (load_addr_path addr) [
      | none ↦ false
      | some path ↦ has_prefix path (codes "1/")
    ]

    unfoldable pub get_inner_balance : D → Bool → Option ℤ
    get_inner_balance db use_tiny = scan_balance is_inner use_tiny (pos 0) (badger.items db)
