-- ===== src/Utxos/Balance.antt =====
-- How the list of outputs that the store holds, and with it the balances, change when an output is
-- created or removed.
use mathlib.Core.Path.{ap₂}
use dashcash_wallet.Prelude.{
  ℕ, ◌≡◌, refl, sym, ap, ◌∙◌, Bool, some, List, [], ◌∷◌, ◌++◌, map, arith, All, if◌then◌else◌,
  Bool-cases, inl, inr,
}
use dashcash_wallet.Prelude.Int.{ℤ, pos, ◌+ℤ◌, int_laws}
use dashcash_wallet.Text.{Bytes}
use dashcash_wallet.Utxos.{
  Badger, Utxo, create_utxo, found, get_balance, is_address, key_not_found, remove_utxo, utxo_key,
}
use dashcash_wallet.Utxos.Entries.{entry_of}
use dashcash_wallet.Utxos.Holds.{Holds, IsSound, get_balance-wanted, is_wanted, value_from, wanted}
use dashcash_wallet.Utxos.Changes.{IsMap, create_utxo-new, remove_utxo-old}

-- The entries of a list of outputs are split where the list is.
map_split :
    (us : List Utxo) (before after : List (Bytes × Bytes))
    → map entry_of us ≡ before ++ after
    → (first : List Utxo) × (last : List Utxo) × (us ≡ first ++ last)
      × (map entry_of first ≡ before)
      × (map entry_of last ≡ after)
map_split us [] after e = ([], us, refl, refl, e)
map_split [] (b ∷ before) after e = ground arith
map_split (u ∷ us) (b ∷ before) after e =
    let tails : map entry_of us ≡ before ++ after = ground arith in
    let heads : entry_of u ≡ b = ground arith in
    let (first, last, whole, front, back) = map_split us before after tails in
    (u ∷ first, last, ap (λ l. u ∷ l) whole, ap₂ (λ h t. h ∷ t) heads front, back)

map-append :
    (first last : List Utxo)
    → map entry_of (first ++ last) ≡ map entry_of first ++ map entry_of last
map-append [] last = refl
map-append (u ∷ first) last = ap (λ l. entry_of u ∷ l) (map-append first last)

map_split_at :
    (us : List Utxo) (before after : List (Bytes × Bytes)) (e : Bytes × Bytes)
    → map entry_of us ≡ before ++ (e ∷ after)
    → (first : List Utxo) × (u : Utxo) × (last : List Utxo) × (us ≡ first ++ (u ∷ last))
      × (map entry_of first ≡ before)
      × (entry_of u ≡ e)
      × (map entry_of last ≡ after)
map_split_at us before after e h = pick (map_split us before (e ∷ after) h)
  where
    pick :
        (first : List Utxo) × (last : List Utxo) × (us ≡ first ++ last)
          × (map entry_of first ≡ before)
          × (map entry_of last ≡ e ∷ after)
        → (first : List Utxo) × (u : Utxo) × (last : List Utxo) × (us ≡ first ++ (u ∷ last))
          × (map entry_of first ≡ before)
          × (entry_of u ≡ e)
          × (map entry_of last ≡ after)
    pick (first, [], whole, front, back) = ground arith
    pick (first, u ∷ last, whole, front, back) =
        let at : entry_of u ≡ e = ground arith in
        let rest : map entry_of last ≡ after = ground arith in
        (first, u, last, whole, front, at, rest)

All-insert :
    (first last : List Utxo) (u : Utxo)
    → IsSound u
    → All IsSound (first ++ last)
    → All IsSound (first ++ (u ∷ last))
All-insert [] last u h hs = (h, hs)
All-insert (v ∷ first) last u h hs = (hs.0, All-insert first last u h hs.1)

All-delete :
    (first last : List Utxo) (u : Utxo)
    → All IsSound (first ++ (u ∷ last))
    → All IsSound (first ++ last)
All-delete [] last u hs = hs.1
All-delete (v ∷ first) last u hs = (hs.0, All-delete first last u hs.1)

-- What an output adds to a balance.
abbrev pub share : (Bytes → Bool) → Bool → Utxo → ℤ
share keep use_tiny u = if is_wanted keep use_tiny u then u.value else pos 0

swap : (a b c : ℤ) → a +ℤ b +ℤ c ≡ a +ℤ c +ℤ b
swap a b c = grind int_laws

add-zero : (a : ℤ) → a +ℤ pos 0 ≡ a
add-zero a = grind int_laws

value_from-add : (a b : ℤ) (us : List Utxo) → value_from (a +ℤ b) us ≡ value_from a us +ℤ b
unfolding value_from
value_from-add a b [] = refl
value_from-add a b (u ∷ us) =
    ap (λ n. value_from n us) (swap a b u.value) ∙ value_from-add (a +ℤ u.value) b us

value_from-insert :
    (keep : Bytes → Bool) (use_tiny : Bool) (balance : ℤ) (first last : List Utxo) (u : Utxo)
    → value_from balance (wanted keep use_tiny (first ++ (u ∷ last)))
      ≡ value_from balance (wanted keep use_tiny (first ++ last)) +ℤ share keep use_tiny u
unfolding wanted value_from
value_from-insert keep use_tiny balance [] last u = elim (Bool-cases (is_wanted keep use_tiny u)) [
  | inl e ↦ rw e (value_from-add balance u.value (wanted keep use_tiny last))
  | inr e ↦ rw e (sym (add-zero (value_from balance (wanted keep use_tiny last))))
]
value_from-insert keep use_tiny balance (v ∷ first) last u =
    elim (Bool-cases (is_wanted keep use_tiny v)) [
      | inl e ↦ rw e (value_from-insert keep use_tiny (balance +ℤ v.value) first last u)
      | inr e ↦ rw e (value_from-insert keep use_tiny balance first last u)
    ]

module _ {D : Type 0} (badger : Badger D) (laws : IsMap badger) where
  create_utxo-Holds :
      (db db' : D) (us : List Utxo) (u : Utxo)
      → Holds badger db us
      → IsSound u
      → badger.get db (utxo_key u.hash u.index) ≡ key_not_found
      → create_utxo badger db u.hash u.index u.address u.value ≡ some db'
      → (first : List Utxo) × (last : List Utxo) × (us ≡ first ++ last)
        × Holds badger db' (first ++ (u ∷ last))
  create_utxo-Holds db db' us u holds sound new done =
      let stored = sym (create_utxo-new badger db u.hash u.index u.address u.value new) ∙ done in
      let (before, after, old, now) = laws.items_put db db' _ _ new stored in
      let (first, last, whole, front, back) = map_split us before after (sym holds.entries ∙ old) in
      (
        first,
        last,
        whole,
        record {
          entries =
              now
              ∙ (ap₂ (λ f l. f ++ (entry_of u ∷ l)) (sym front) (sym back)
                  ∙ sym (map-append first (u ∷ last)));
          sound = All-insert first last u sound (rw (sym whole) holds.sound);
        },
      )

  remove_utxo-Holds :
      (db db' : D) (us : List Utxo) (hash : Bytes) (index : ℕ) (v : Bytes)
      → Holds badger db us
      → badger.get db (utxo_key hash index) ≡ found v
      → remove_utxo badger db hash index ≡ some db'
      → (first : List Utxo) × (u : Utxo) × (last : List Utxo) × (us ≡ first ++ (u ∷ last))
        × (entry_of u ≡ (utxo_key hash index, v))
        × Holds badger db' (first ++ last)
  remove_utxo-Holds db db' us hash index v holds old done =
      let removed = sym (remove_utxo-old badger db hash index v old) ∙ done in
      let (before, after, was, now) = laws.items_delete db db' _ v old removed in
      let (first, u, last, whole, front, at, back) =
        map_split_at us before after _ (sym holds.entries ∙ was) in
      (
        first,
        u,
        last,
        whole,
        at,
        record {
          entries = now ∙ ap₂ (λ f l. f ++ l) (sym front) (sym back) ∙ sym (map-append first last);
          sound = All-delete first last u (rw (sym whole) holds.sound);
        },
      )

-- A new output that is created adds its value to the balance of its address and of the wallet, and
-- to no other, if it is more than 546 or tiny outputs count; the store holds lists of sound outputs
-- before and after.
pub get_balance-create_utxo :
    {D : Type 0} (badger : Badger D) (db db' : D) (us : List Utxo) (u : Utxo)
    → IsMap badger
    → Holds badger db us
    → IsSound u
    → badger.get db (utxo_key u.hash u.index) ≡ key_not_found
    → create_utxo badger db u.hash u.index u.address u.value ≡ some db'
    → ((us' : List Utxo) × Holds badger db' us')
      × ((address : Bytes) (use_tiny : Bool)
          → (balance : ℤ) × (get_balance badger db address use_tiny ≡ some balance)
            × (get_balance badger db' address use_tiny
                ≡ some (balance +ℤ share (is_address address) use_tiny u)))
get_balance-create_utxo badger db db' us u laws holds sound new done =
    let (first, last, whole, holds') =
      create_utxo-Holds badger laws db db' us u holds sound new done in
    (
      (_, holds'),
      λ address use_tiny. (
        _,
        get_balance-wanted badger db us holds address use_tiny
            ∙ ap (λ l. some (value_from (pos 0) (wanted (is_address address) use_tiny l))) whole,
        get_balance-wanted badger db' _ holds' address use_tiny
            ∙ ap some (value_from-insert (is_address address) use_tiny (pos 0) first last u),
      ),
    )

-- An output that is removed takes its value off the same balances that it counted in, and leaves
-- all others; the store holds lists of sound outputs before and after.
pub get_balance-remove_utxo :
    {D : Type 0} (badger : Badger D) (db db' : D) (us : List Utxo) (hash : Bytes) (index : ℕ)
    (v : Bytes)
    → IsMap badger
    → Holds badger db us
    → badger.get db (utxo_key hash index) ≡ found v
    → remove_utxo badger db hash index ≡ some db'
    → (u : Utxo) × (entry_of u ≡ (utxo_key hash index, v))
      × ((us' : List Utxo) × Holds badger db' us')
      × ((address : Bytes) (use_tiny : Bool)
          → (balance : ℤ) × (get_balance badger db' address use_tiny ≡ some balance)
            × (get_balance badger db address use_tiny
                ≡ some (balance +ℤ share (is_address address) use_tiny u)))
get_balance-remove_utxo badger db db' us hash index v laws holds old done =
    let (first, u, last, whole, at, holds') =
      remove_utxo-Holds badger laws db db' us hash index v holds old done in
    (
      u,
      at,
      (_, holds'),
      λ address use_tiny. (
        _,
        get_balance-wanted badger db' _ holds' address use_tiny,
        get_balance-wanted badger db us holds address use_tiny
            ∙ ap (λ l. some (value_from (pos 0) (wanted (is_address address) use_tiny l))) whole
            ∙ ap some (value_from-insert (is_address address) use_tiny (pos 0) first last u),
      ),
    )
