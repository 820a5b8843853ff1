-- ===== src/Addresses/Known.antt =====
-- `AddressInit` of util/util.go fills the map of addresses.
use dashcash_wallet.Prelude.{
  ℕ, zero, suc, ◌+◌, ◌<◌, ◌≤◌, ◌≡◌, ◌≢◌, refl, sym, ◌∙◌, Bool-cases, ◌==◌, ==_iff, false, some, inl,
  inr, arith,
}
use mathlib.Core.Path.{subst}
use dashcash_wallet.Text.{Bytes, bytes_eq, bytes_eq→eq}
use dashcash_wallet.Params.{ChainParams}
use dashcash_wallet.Addresses.{
  Addrs, Keys, address_init, address_init_from, get_addr_by_pub_key, load_addr_path, path_text,
  store_addr_path, wallet_form,
}
use dashcash_wallet.Addresses.Paths.{load_addr_path-other, load_addr_path-store_addr_path}

not_equal : (xs ys : Bytes) → xs ≢ ys → bytes_eq xs ys ≡ false
not_equal xs ys h = elim (Bool-cases (bytes_eq xs ys)) [
  | inl e ↦ absurd (h (bytes_eq→eq xs ys e))
  | inr e ↦ e
]

module _ (keys : Keys) (param : ChainParams) (xpub : Bytes) (branch : ℕ) (addr : ℕ → Bytes) where
  -- The key of an index can be derived, and `addr` is its address as the wallet keeps it.
  abbrev pub IsDerived : ℕ → Type 0
  IsDerived i =
      (key : Bytes) × (keys.public_key xpub branch i ≡ some key)
      × (wallet_form keys param param.name (get_addr_by_pub_key keys param key) ≡ some (addr i))

  -- The entries from `first` on are added, and no others.
  abbrev pub IsFilled : ℕ → ℕ → Addrs → Addrs → Type 0
  IsFilled first end before after =
      ((i : ℕ) → first ≤ i → i < end → load_addr_path after (addr i) ≡ some (path_text branch i))
      × ((a : Bytes)
          → ((i : ℕ) → first ≤ i → i < end → addr i ≢ a)
          → load_addr_path after a ≡ load_addr_path before a)

  address_init_from-IsFilled :
      (count first : ℕ) (addrs : Addrs)
      → ((i : ℕ) → i < first + count → IsDerived i)
      → ((i j : ℕ) → i < first + count → j < first + count → addr i ≡ addr j → i ≡ j)
      → (after : Addrs) × (address_init_from keys param xpub branch count first addrs ≡ some after)
        × IsFilled first (first + count) addrs after
  unfolding address_init_from
  address_init_from-IsFilled zero first addrs derived distinct =
      (addrs, refl, ((λ i h k. absurd (omega arith)), (λ a h. refl)))
  address_init_from-IsFilled (suc count) first addrs derived distinct =
      let (key, made, shown) = derived first (omega arith) in
      let stored = store_addr_path (addr first) (path_text branch first) addrs in
      let (after, run, (found, kept)) =
        address_init_from-IsFilled count (first + 1) stored (λ i h. derived i (omega arith))
          (λ i j h k. distinct i j (omega arith) (omega arith)) in
      let at_first : load_addr_path after (addr first) ≡ some (path_text branch first) =
        kept (addr first)
          (λ i h k e. absurd (omega (arith, distinct i first (omega arith) (omega arith) e)))
        ∙ load_addr_path-store_addr_path addrs (addr first) (path_text branch first) in
      (
        after,
        rw (address_init_from, made, shown) run,
        (
          (λ i h k. elim (Bool-cases (i == first)) [
            | inl e ↦
                subst (λ n. load_addr_path after (addr n) ≡ some (path_text branch n))
                  (sym ((==_iff i first).0 e)) at_first
            | inr e ↦ found i (ground arith) (omega arith)
          ]),
          (λ a h.
              kept a (λ i m k. h i (omega arith) (omega arith))
              ∙ load_addr_path-other addrs (addr first) (path_text branch first) a
                  (not_equal (addr first) a (h first (omega arith) (omega arith)))),
        ),
      )

  -- Where the keys of all indexes below `count` can be derived, and their addresses are different
  -- and have the form of the wallet, AddressInit ends, knows the address of each index with its
  -- path, and leaves all other addresses as they were.
  pub address_init-IsFilled :
      (count : ℕ) (addrs : Addrs)
      → ((i : ℕ) → i < count → IsDerived i)
      → ((i j : ℕ) → i < count → j < count → addr i ≡ addr j → i ≡ j)
      → (after : Addrs) × (address_init keys param xpub branch count addrs ≡ some after)
        × IsFilled 0 count addrs after
  unfolding address_init
  address_init-IsFilled count addrs derived distinct =
      subst
        (λ n.
          (after : Addrs) × (address_init_from keys param xpub branch count 0 addrs ≡ some after)
          × IsFilled 0 n addrs after)
        sum
        (address_init_from-IsFilled count 0 addrs (λ i h. derived i (omega arith))
          (λ i j h k. distinct i j (omega arith) (omega arith)))
    where
      sum : 0 + count ≡ count
      sum = omega arith
