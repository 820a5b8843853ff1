-- ===== src/Utxos/Tests.antt =====
-- Runs of the store, and the theorems at concrete inputs, over a store with room for one entry.
use dashcash_wallet.Prelude.{
  ℕ, ◌≡◌, refl, sym, ap, ◌∙◌, Bool, false, Option, none, some, List, [], ◌∷◌, ◌++◌, arith,
  if◌then◌else◌, Bool-cases, inl, inr,
}
use dashcash_wallet.Prelude.Int.{ℤ, pos, ◌+ℤ◌}
use dashcash_wallet.Text.{Bytes, bytes_eq, bytes_eq_iff, bytes_eq_refl, codes, index_byte}
use dashcash_wallet.Utxos.{
  Badger, Lookup, Utxo, create_utxo, fetched, found, get_all_utxo, get_all_utxo_by_branch,
  get_balance, get_inner_balance, get_utxo_by_key, is_address, key_not_found, remove_utxo, utxo_key,
  utxo_val,
}
use dashcash_wallet.Utxos.Entries.{entry_of}
use dashcash_wallet.Utxos.Holds.{
  Holds, IsSound, get_balance-get_all_utxo, get_inner_balance-get_all_utxo_by_branch, value_from,
}
use dashcash_wallet.Utxos.Changes.{
  IsMap, create_utxo-create_utxo, get_utxo_by_key-create_utxo, remove_utxo-create_utxo,
}
use dashcash_wallet.Utxos.Balance.{get_balance-create_utxo, get_balance-remove_utxo, share}

abbrev Slot : Type 0
Slot = Option (Bytes × Bytes)

abbrev slot_get : Slot → Bytes → Lookup
slot_get none j = key_not_found
slot_get (some (k, v)) j = if bytes_eq j k then found v else key_not_found

-- A second key does not fit.
abbrev slot_put : Slot → Bytes → Bytes → Option Slot
slot_put none k v = some (some (k, v))
slot_put (some (k', v')) k v = if bytes_eq k k' then some (some (k, v)) else none

abbrev slot_delete : Slot → Bytes → Option Slot
slot_delete none k = some none
slot_delete (some (k', v')) k = if bytes_eq k k' then some none else some (some (k', v'))

abbrev slot_items : Slot → List (Bytes × Bytes)
slot_items none = []
slot_items (some e) = e ∷ []

abbrev one_slot : Badger Slot
one_slot = record { get = slot_get; put = slot_put; delete = slot_delete; items = slot_items }

slot_get-put :
    (d d' : Slot) (k v j : Bytes)
    → slot_put d k v ≡ some d'
    → slot_get d' j ≡ (if bytes_eq j k then found v else slot_get d j)
slot_get-put none d' k v j e = let now : some (k, v) ≡ d' = ground arith in rw (sym now) refl
slot_get-put (some (k', v')) d' k v j e = elim (Bool-cases (bytes_eq k k')) [
  | inl same ↦
      let at : k ≡ k' = (bytes_eq_iff k k').0 same in
      let now : some (k, v) ≡ d' = ground arith in
      rw (sym now, sym at) (elim (Bool-cases (bytes_eq j k)) [ inl e ↦ rw e | inr e ↦ rw e ])
  | inr other ↦ ground arith
]

slot_get-delete :
    (d d' : Slot) (k j : Bytes)
    → slot_delete d k ≡ some d'
    → slot_get d' j ≡ (if bytes_eq j k then key_not_found else slot_get d j)
slot_get-delete none d' k j e =
    let now : none ≡ d' = ground arith in
    rw (sym now) (elim (Bool-cases (bytes_eq j k)) [ inl e ↦ rw e | inr e ↦ rw e ])
slot_get-delete (some (k', v')) d' k j e = elim (Bool-cases (bytes_eq k k')) [
  | inl same ↦
      let at : k ≡ k' = (bytes_eq_iff k k').0 same in
      let now : none ≡ d' = ground arith in
      rw (sym now, sym at) (elim (Bool-cases (bytes_eq j k)) [ inl e ↦ rw e | inr e ↦ rw e ])
  | inr other ↦
      let now : some (k', v') ≡ d' = ground arith in
      rw (sym now) (elim (Bool-cases (bytes_eq j k)) [
        | inl e ↦
            let at : j ≡ k = (bytes_eq_iff j k).0 e in
            let apart : bytes_eq j k' ≡ false = ap (λ b. bytes_eq b k') at ∙ other in rw (e, apart)
        | inr e ↦ rw e
      ])
]

slot_items-put :
    (d d' : Slot) (k v : Bytes)
    → slot_get d k ≡ key_not_found
    → slot_put d k v ≡ some d'
    → (before : List (Bytes × Bytes)) × (after : List (Bytes × Bytes)) × (slot_items d
        ≡ before ++ after)
      × (slot_items d' ≡ before ++ ((k, v) ∷ after))
slot_items-put none d' k v missing e =
    let now : some (k, v) ≡ d' = ground arith in ([], [], refl, rw (sym now) refl)
slot_items-put (some (k', v')) d' k v missing e = elim (Bool-cases (bytes_eq k k')) [
  | inl same ↦ ground arith
  | inr other ↦ ground arith
]

slot_items-delete :
    (d d' : Slot) (k v : Bytes)
    → slot_get d k ≡ found v
    → slot_delete d k ≡ some d'
    → (before : List (Bytes × Bytes)) × (after : List (Bytes × Bytes)) × (slot_items d
        ≡ before ++ ((k, v) ∷ after))
      × (slot_items d' ≡ before ++ after)
slot_items-delete none d' k v there e = ground arith
slot_items-delete (some (k', v')) d' k v there e = elim (Bool-cases (bytes_eq k k')) [
  | inl same ↦
      let at : k ≡ k' = (bytes_eq_iff k k').0 same in
      let now : none ≡ d' = ground arith in
      let value : v' ≡ v = ground arith in ([], [], rw (sym at, value) refl, rw (sym now) refl)
  | inr other ↦ ground arith
]

one_slot-IsMap : IsMap one_slot
one_slot-IsMap = record {
  get_put = slot_get-put;
  get_delete = slot_get-delete;
  items_put = slot_items-put;
  items_delete = slot_items-delete;
}

-- An output of 1000 satoshi, and the store that holds it.
abbrev output : Utxo
output = record { hash = codes "ab"; index = 0; address = codes "qq"; value = pos 1000 }

abbrev full : Slot
full = some (entry_of output)

output-IsSound : IsSound output
unfolding index_byte
output-IsSound = (
  1000,
  record { hash = refl; index = omega arith; address = refl; value = refl; fits = omega arith },
)

none-Holds : Holds one_slot none []
none-Holds = record { entries = refl; sound = record {} }

full-Holds : Holds one_slot full (output ∷ [])
full-Holds = record { entries = refl; sound = (output-IsSound, record {}) }

created : create_utxo one_slot none (codes "ab") 0 (codes "qq") (pos 1000) ≡ some full
unfolding create_utxo
created = refl

stored : slot_get full (utxo_key (codes "ab") 0) ≡ found (utxo_val (codes "qq") (pos 1000))
stored = rw (bytes_eq_refl (utxo_key (codes "ab") 0))

slot_delete-same : (k v : Bytes) → slot_delete (some (k, v)) k ≡ some none
slot_delete-same k v = rw (bytes_eq_refl k)

removed : remove_utxo one_slot full (codes "ab") 0 ≡ some none
unfolding remove_utxo
removed =
    rw (remove_utxo, bytes_eq_refl (utxo_key (codes "ab") 0))
      (slot_delete-same (utxo_key (codes "ab") 0) (utxo_val (codes "qq") (pos 1000)))

get_balance-get_all_utxo_example :
    (utxos : List Utxo) × (get_all_utxo one_slot full (codes "qq") false ≡ some utxos)
    × (get_balance one_slot full (codes "qq") false ≡ some (value_from (pos 0) utxos))
get_balance-get_all_utxo_example =
    get_balance-get_all_utxo one_slot full (output ∷ []) (codes "qq") false full-Holds

get_inner_balance-get_all_utxo_by_branch_example :
    (utxos : List Utxo) × (get_all_utxo_by_branch one_slot (λ a. some (codes "1/7")) full 1 false
      ≡ some utxos)
    × (get_inner_balance one_slot (λ a. some (codes "1/7")) full false
        ≡ some (value_from (pos 0) utxos))
get_inner_balance-get_all_utxo_by_branch_example =
    get_inner_balance-get_all_utxo_by_branch one_slot (λ a. some (codes "1/7")) full (output ∷ [])
      false full-Holds

get_utxo_by_key-create_utxo_example :
    (get_utxo_by_key one_slot full (codes "ab") 0
      ≡ fetched (record { address = codes "qq"; amount = pos 1000; script = [] }))
    × ((hash' : Bytes) (index' : ℕ)
        → bytes_eq (utxo_key hash' index') (utxo_key (codes "ab") 0) ≡ false
        → get_utxo_by_key one_slot full hash' index' ≡ get_utxo_by_key one_slot none hash' index')
unfolding index_byte
get_utxo_by_key-create_utxo_example =
    get_utxo_by_key-create_utxo one_slot none full (codes "ab") 0 (codes "qq") (pos 1000)
      one_slot-IsMap refl refl (omega arith, omega arith) created

create_utxo-create_utxo_example :
    create_utxo one_slot full (codes "ab") 0 (codes "pp") (pos 9) ≡ some full
create_utxo-create_utxo_example =
    create_utxo-create_utxo one_slot none full (codes "ab") 0 (codes "qq") (codes "pp") (pos 1000)
      (pos 9) one_slot-IsMap created

remove_utxo-create_utxo_example :
    get_utxo_by_key one_slot none (codes "ab") 0 ≡ get_utxo_by_key one_slot none (codes "ab") 0
remove_utxo-create_utxo_example =
    remove_utxo-create_utxo one_slot none full none (codes "ab") 0 (codes "qq") (pos 1000)
      one_slot-IsMap refl created removed (codes "ab") 0

get_balance-create_utxo_example :
    ((us' : List Utxo) × Holds one_slot full us')
    × ((address : Bytes) (use_tiny : Bool)
        → (balance : ℤ) × (get_balance one_slot none address use_tiny ≡ some balance)
          × (get_balance one_slot full address use_tiny
              ≡ some (balance +ℤ share (is_address address) use_tiny output)))
get_balance-create_utxo_example =
    get_balance-create_utxo one_slot none full [] output one_slot-IsMap none-Holds output-IsSound
      refl created

get_balance-remove_utxo_example :
    (u : Utxo) × (entry_of u ≡ (utxo_key (codes "ab") 0, utxo_val (codes "qq") (pos 1000)))
    × ((us' : List Utxo) × Holds one_slot none us')
    × ((address : Bytes) (use_tiny : Bool)
        → (balance : ℤ) × (get_balance one_slot none address use_tiny ≡ some balance)
          × (get_balance one_slot full address use_tiny
              ≡ some (balance +ℤ share (is_address address) use_tiny u)))
get_balance-remove_utxo_example =
    get_balance-remove_utxo one_slot full none (output ∷ []) (codes "ab") 0
      (utxo_val (codes "qq") (pos 1000)) one_slot-IsMap full-Holds stored removed
