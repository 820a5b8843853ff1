-- ===== src/Handlers/Restart.antt =====
-- The addresses that GetAddrHandler hands out, after a restart of the process: main.go reads the
-- index that was saved and makes the addresses below it again.
use dashcash_wallet.Prelude.{
  ℕ, ◌+◌, ◌%◌, ◌^◌, ◌<◌, ◌≤◌, ◌≡◌, ◌≢◌, refl, ap, ◌∙◌, some, [], arith, if◌then◌else◌,
}
use mathlib.Core.Path.{subst}
use dashcash_wallet.Text.{Bytes}
use dashcash_wallet.Params.{ChainParams}
use dashcash_wallet.Addresses.{
  Addrs, Keys, address_init, convert_legacy_to_cash_addr, drop_prefix, get_addr_by_pub_key,
  get_new_addr_by_branch, get_new_external_addr, load_addr_path, on_bch, or_empty, path_text,
  store_addr_path, wallet_form,
}
use dashcash_wallet.Addresses.Known.{IsDerived, address_init-IsFilled}
use dashcash_wallet.Handlers.{Request, Services, Wallet, answered, get_addr_handler, respond, text}
use dashcash_wallet.Handlers.Routes.{start_addrs}

-- Two names that say the same of cash addresses give the same form.
wallet_form_agrees :
    (keys : Keys) (param : ChainParams) (a b addr : Bytes)
    → on_bch a ≡ on_bch b
    → wallet_form keys param a addr ≡ wallet_form keys param b addr
unfolding wallet_form
wallet_form_agrees keys param a b addr = ap (λ c.
    if c
    then drop_prefix keys param (or_empty (convert_legacy_to_cash_addr keys param addr))
    else some addr)

-- The wallet that a served address leaves.
abbrev pub served : {D : Type 0} → Wallet D → Bytes → Addrs → Wallet D
served w addr addrs = record w {
  config = record w.config { index = (w.config.index + 1) % 2 ^ 32 };
  addrs = store_addr_path addr (path_text 0 w.config.index) addrs;
}

module _ {D : Type 0} (services : Services D) (param : ChainParams) (w : Wallet D) (r : Request)
    (outer inner : ℕ → Bytes) where
  get_addr_handler-served :
      on_bch w.config.chain_name ≡ on_bch param.name
      → IsDerived services.keys param w.config.xpub 0 outer w.config.index
      → (addrs : Addrs) × (get_addr_handler services param w r
          ≡ answered
              (respond 0 (text (outer w.config.index)))
              (served w (outer w.config.index) addrs)
              [])
  unfolding get_addr_handler get_new_external_addr get_new_addr_by_branch
  get_addr_handler-served names (key, made, shown) =
      let legacy = get_addr_by_pub_key services.keys param key in
      let form =
        wallet_form_agrees services.keys param w.config.chain_name param.name legacy names in
      (
        store_addr_path legacy (path_text 0 w.config.index) w.addrs,
        rw (get_addr_handler, get_new_external_addr, get_new_addr_by_branch, made, form ∙ shown)
            refl,
      )

  -- Where the wallet can derive the outer addresses up to its next index and its inner addresses,
  -- and no two of them are the same: GetAddrHandler replies with the outer address of that index; a
  -- process that starts with the settings left by it ends its two loops over the addresses, and
  -- knows that address, and all outer ones before it, with their paths.
  pub get_addr_handler-start_addrs :
      on_bch w.config.chain_name ≡ on_bch param.name
      → w.config.index + 1 < 2 ^ 32
      → ((i : ℕ) → i ≤ w.config.index → IsDerived services.keys param w.config.xpub 0 outer i)
      → ((i : ℕ) → i < w.config.in_index → IsDerived services.keys param w.config.xpub 1 inner i)
      → ((i j : ℕ) → i ≤ w.config.index → j ≤ w.config.index → outer i ≡ outer j → i ≡ j)
      → ((i j : ℕ) → i < w.config.in_index → j < w.config.in_index → inner i ≡ inner j → i ≡ j)
      → ((i j : ℕ) → i ≤ w.config.index → j < w.config.in_index → inner j ≢ outer i)
      → (left : Wallet D) × (after : Addrs) × (get_addr_handler services param w r
          ≡ answered (respond 0 (text (outer w.config.index))) left [])
        × (start_addrs services param left.config ≡ some after)
        × ((i : ℕ) → i ≤ w.config.index → load_addr_path after (outer i) ≡ some (path_text 0 i))
  unfolding start_addrs
  get_addr_handler-start_addrs names small out ins out_apart in_apart apart =
      let n = w.config.index in
      let (addrs, reply) = get_addr_handler-served names (out n (omega arith)) in
      let next : n + 1 ≡ (n + 1) % 2 ^ 32 = omega arith in
      let (first, first_run, (found, others)) =
        address_init-IsFilled services.keys param w.config.xpub 0 outer (n + 1) []
          (λ i h. out i (omega arith)) (λ i j h k. out_apart i j (omega arith) (omega arith)) in
      let (after, after_run, (inner_found, kept)) =
        address_init-IsFilled services.keys param w.config.xpub 1 inner w.config.in_index first ins
          in_apart in
      let counted : address_init services.keys param w.config.xpub 0 ((n + 1) % 2 ^ 32) []
          ≡ some first =
        subst (λ k. address_init services.keys param w.config.xpub 0 k [] ≡ some first) next
          first_run in
      (
        served w (outer n) addrs,
        after,
        reply,
        rw (start_addrs, counted, after_run) refl,
        (λ i h.
            kept (outer i) (λ j low high. apart i j h high) ∙ found i (omega arith) (omega arith)),
      )
