-- ===== src/Utxos/Changes.antt =====
-- What `createUtxo` and `removeUtxo` do to the store, where Badger is a map that is read in the
-- order of its keys.
use dashcash_wallet.Prelude.{
  ℕ, ◌≡◌, refl, sym, ap, ◌∙◌, false, none, some, List, [], ◌∷◌, ◌++◌, arith, if◌then◌else◌,
  Bool-cases, inl, inr, ◌⊎◌,
}
use dashcash_wallet.Prelude.Int.{ℤ, InInt64}
use dashcash_wallet.Text.{Bytes, bytes_eq, bytes_eq_iff, bytes_eq_refl, index_byte}
use dashcash_wallet.Utxos.{
  Badger, Lookup, create_utxo, failed, fetched, found, get_utxo_by_key, key_not_found, remove_utxo,
  utxo_key, utxo_val,
}
use dashcash_wallet.Utxos.Entries.{read_out-utxo_val}

-- What Badger documents: it is a map, and an iterator visits its entries in the order of the keys,
-- so that a change of one key takes an entry into the sequence or out of it.
pub record IsMap {D : Type 0} (badger : Badger D) : Type 0 where
  pub get_put :
      (d d' : D) (k v j : Bytes)
      → badger.put d k v ≡ some d'
      → badger.get d' j ≡ (if bytes_eq j k then found v else badger.get d j)
  pub get_delete :
      (d d' : D) (k j : Bytes)
      → badger.delete d k ≡ some d'
      → badger.get d' j ≡ (if bytes_eq j k then key_not_found else badger.get d j)
  pub items_put :
      (d d' : D) (k v : Bytes)
      → badger.get d k ≡ key_not_found
      → badger.put d k v ≡ some d'
      → (before : List (Bytes × Bytes)) × (after : List (Bytes × Bytes)) × (badger.items d
          ≡ before ++ after)
        × (badger.items d' ≡ before ++ ((k, v) ∷ after))
  pub items_delete :
      (d d' : D) (k v : Bytes)
      → badger.get d k ≡ found v
      → badger.delete d k ≡ some d'
      → (before : List (Bytes × Bytes)) × (after : List (Bytes × Bytes)) × (badger.items d
          ≡ before ++ ((k, v) ∷ after))
        × (badger.items d' ≡ before ++ after)

Lookup-cases : (l : Lookup) → ((v : Bytes) × (l ≡ found v)) ⊎ ((l ≡ key_not_found) ⊎ (l ≡ failed))
Lookup-cases (found v) = inl (v, refl)
Lookup-cases key_not_found = inr (inl refl)
Lookup-cases failed = inr (inr refl)

module _ {D : Type 0} (badger : Badger D) where
  -- A new output is written.
  pub create_utxo-new :
      (db : D) (hash : Bytes) (index : ℕ) (address : Bytes) (value : ℤ)
      → badger.get db (utxo_key hash index) ≡ key_not_found
      → create_utxo badger db hash index address value
        ≡ badger.put db (utxo_key hash index) (utxo_val address value)
  unfolding create_utxo
  create_utxo-new db hash index address value h = rw (create_utxo, h)

  create_utxo-old :
      (db : D) (hash : Bytes) (index : ℕ) (address : Bytes) (value : ℤ) (v : Bytes)
      → badger.get db (utxo_key hash index) ≡ found v
      → create_utxo badger db hash index address value ≡ some db
  unfolding create_utxo
  create_utxo-old db hash index address value v h = rw (create_utxo, h)

  create_utxo-failed :
      (db : D) (hash : Bytes) (index : ℕ) (address : Bytes) (value : ℤ)
      → badger.get db (utxo_key hash index) ≡ failed
      → create_utxo badger db hash index address value ≡ none
  unfolding create_utxo
  create_utxo-failed db hash index address value h = rw (create_utxo, h)

  pub remove_utxo-old :
      (db : D) (hash : Bytes) (index : ℕ) (v : Bytes)
      → badger.get db (utxo_key hash index) ≡ found v
      → remove_utxo badger db hash index ≡ badger.delete db (utxo_key hash index)
  unfolding remove_utxo
  remove_utxo-old db hash index v h = rw (remove_utxo, h)

  fetch_same :
      (db db' : D) (hash : Bytes) (index : ℕ)
      → badger.get db' (utxo_key hash index) ≡ badger.get db (utxo_key hash index)
      → get_utxo_by_key badger db' hash index ≡ get_utxo_by_key badger db hash index
  unfolding get_utxo_by_key
  fetch_same db db' hash index e = rw (get_utxo_by_key, e)

-- An output that is created is found under its transaction and index with its address and value,
-- and all other keys read as before; it must be new, its address without colon and its value an
-- int64.
pub get_utxo_by_key-create_utxo :
    {D : Type 0} (badger : Badger D) (db db' : D) (hash : Bytes) (index : ℕ) (address : Bytes)
    (value : ℤ)
    → IsMap badger
    → badger.get db (utxo_key hash index) ≡ key_not_found
    → index_byte address b':' ≡ none
    → InInt64 value
    → create_utxo badger db hash index address value ≡ some db'
    → (get_utxo_by_key badger db' hash index
        ≡ fetched (record { address = address; amount = value; script = [] }))
      × ((hash' : Bytes) (index' : ℕ)
          → bytes_eq (utxo_key hash' index') (utxo_key hash index) ≡ false
          → get_utxo_by_key badger db' hash' index' ≡ get_utxo_by_key badger db hash' index')
unfolding get_utxo_by_key
get_utxo_by_key-create_utxo badger db db' hash index address value laws new plain fits done =
    let key = utxo_key hash index in
    let stored = sym (create_utxo-new badger db hash index address value new) ∙ done in
    let read : badger.get db' key ≡ found (utxo_val address value) =
      laws.get_put db db' key (utxo_val address value) key stored ∙ rw (bytes_eq_refl key) in
    (
      rw (get_utxo_by_key, read, read_out-utxo_val address value plain fits),
      λ hash' index' other. fetch_same badger db db' hash' index' (
          laws.get_put db db' key (utxo_val address value) (utxo_key hash' index') stored
          ∙ rw other),
    )

-- To create an output that was just created a second time, with whatever address and value, changes
-- nothing.
pub create_utxo-create_utxo :
    {D : Type 0} (badger : Badger D) (db db' : D) (hash : Bytes) (index : ℕ)
    (address address' : Bytes) (value value' : ℤ)
    → IsMap badger
    → create_utxo badger db hash index address value ≡ some db'
    → create_utxo badger db' hash index address' value' ≡ some db'
create_utxo-create_utxo badger db db' hash index address address' value value' laws done =
    let key = utxo_key hash index in
    elim (Lookup-cases (badger.get db key)) [
      | inl (v, old) ↦
          let kept : some db ≡ some db' =
            sym (create_utxo-old badger db hash index address value v old) ∙ done in
          let same : db ≡ db' = ground arith in
          create_utxo-old badger db' hash index address' value' v
            (ap (λ d. badger.get d key) (sym same) ∙ old)
      | inr (inl new) ↦
          let stored = sym (create_utxo-new badger db hash index address value new) ∙ done in
          create_utxo-old badger db' hash index address' value' (utxo_val address value)
            (laws.get_put db db' key (utxo_val address value) key stored ∙ rw (bytes_eq_refl key))
      | inr (inr bad) ↦
          let refused = sym (create_utxo-failed badger db hash index address value bad) ∙ done in
          ground arith
    ]

-- An output that was new, created and then removed leaves no trace: every key reads as before.
pub remove_utxo-create_utxo :
    {D : Type 0} (badger : Badger D) (db db' db'' : D) (hash : Bytes) (index : ℕ) (address : Bytes)
    (value : ℤ)
    → IsMap badger
    → badger.get db (utxo_key hash index) ≡ key_not_found
    → create_utxo badger db hash index address value ≡ some db'
    → remove_utxo badger db' hash index ≡ some db''
    → (hash' : Bytes) (index' : ℕ)
    → get_utxo_by_key badger db'' hash' index' ≡ get_utxo_by_key badger db hash' index'
remove_utxo-create_utxo badger db db' db'' hash index address value laws new made gone hash'
      index' =
    let key = utxo_key hash index in
    let key' = utxo_key hash' index' in
    let stored = sym (create_utxo-new badger db hash index address value new) ∙ made in
    let read : badger.get db' key ≡ found (utxo_val address value) =
      laws.get_put db db' key (utxo_val address value) key stored ∙ rw (bytes_eq_refl key) in
    let removed =
      sym (remove_utxo-old badger db' hash index (utxo_val address value) read) ∙ gone in
    let last = laws.get_delete db' db'' key key' removed in
    let first = laws.get_put db db' key (utxo_val address value) key' stored in
    fetch_same badger db db'' hash' index' (elim (Bool-cases (bytes_eq key' key)) [
      | inr other ↦ last ∙ rw other (first ∙ rw other)
      | inl same ↦
          let at : key' ≡ key = (bytes_eq_iff key' key).0 same in
          last ∙ rw same (sym (ap (badger.get db) at ∙ new))
    ])
