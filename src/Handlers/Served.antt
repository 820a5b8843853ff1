-- ===== src/Handlers/Served.antt =====
-- The balances that the handlers serve.
use dashcash_wallet.Prelude.{
  ℕ, ◌^◌, ◌<◌, ◌≡◌, refl, sym, ap, ◌∙◌, Bool, true, false, ◌&&◌, ◌||◌, not, none, some, List, [],
  arith, length, ◌==◌,
}
use dashcash_wallet.Prelude.Int.{pos}
use dashcash_wallet.Text.{Bytes, codes}
use dashcash_wallet.Decimal.{format_int}
use dashcash_wallet.Shift.{left_shift}
use dashcash_wallet.Shift.RoundTrip.{right_shift-left_shift}
use dashcash_wallet.Params.{ChainParams}
use dashcash_wallet.Utxos.{Utxo, get_all_utxo, get_balance}
use dashcash_wallet.Utxos.Holds.{Holds, get_balance-get_all_utxo, value_from}
use dashcash_wallet.Addresses.{verify_address}
use dashcash_wallet.Signing.{value}
use dashcash_wallet.Usdt.{read_amount}
use dashcash_wallet.Handlers.{
  Request, Services, Wallet, answered, balance_reply, field, get_balance_handler, respond,
}

-- An amount that fits an int64 is read back from the text that shows it.
read_amount-left_shift :
    (n : ℕ) → n < 2 ^ 63 → read_amount (left_shift (format_int (pos n)) 8) ≡ value (pos n)
unfolding read_amount format_int
read_amount-left_shift n fits =
    let (digits, shifted, same) = right_shift-left_shift n 8 fits (omega arith) in
    rw (read_amount, shifted, same) refl

-- `GetBalanceHandler` replies, for a valid address or none, where the store holds sound outputs,
-- with a text that is read as the sum of the values of the outputs of that address that are more
-- than 546, if the sum is a number that fits an int64.
pub get_balance_handler-shown :
    {D : Type 0} (services : Services D) (param : ChainParams) (w : Wallet D) (r : Request)
    (us utxos : List Utxo) (n : ℕ)
    → Holds services.badger w.db us
    → (length (r.query (codes "address")) == 0
        || verify_address services.keys param w.config.chain_name (r.query (codes "address")))
      ≡ true
    → get_all_utxo services.badger w.db (r.query (codes "address")) false ≡ some utxos
    → value_from (pos 0) utxos ≡ pos n
    → n < 2 ^ 63
    → (shown : Bytes) × (get_balance_handler services param w r
        ≡ answered (respond 0 (field (codes "balance") shown)) w [])
      × (read_amount shown ≡ value (pos n))
unfolding get_balance_handler balance_reply
get_balance_handler-shown services param w r us utxos n holds valid listed sum fits =
    let address = r.query (codes "address") in
    let (found, all, balance) =
      get_balance-get_all_utxo services.badger w.db us address false holds in
    let same : found ≡ utxos = some_injective (sym all ∙ listed) in
    let total : get_balance services.badger w.db address false ≡ some (pos n) =
      balance ∙ ap (λ l. some (value_from (pos 0) l)) same ∙ ap some sum in
    let passes : (not (length address == 0)
          && not (verify_address services.keys param w.config.chain_name address))
        ≡ false =
      passes_of (length address == 0)
        (verify_address services.keys param w.config.chain_name address) valid in
    (
      left_shift (format_int (pos n)) 8,
      rw (get_balance_handler, passes, total) refl,
      read_amount-left_shift n fits,
    )
  where
    some_injective : {a b : List Utxo} → some a ≡ some b → a ≡ b
    some_injective {a} e = ap (λ o. elim o [ none ↦ a | some x ↦ x ]) e

    passes_of : (a b : Bool) → (a || b) ≡ true → (not a && not b) ≡ false
    passes_of a b h = ground arith
