-- ===== src/Usdt.antt =====
-- `GetUSDTBalance` and `GetOMNIPendingAmount` of usdt/usdt.go. The answers of the omni node are
-- parameters.
use dashcash_wallet.Prelude.{
  ℕ, Bool, false, not, Option, none, some, List, [], ◌∷◌, ◌==◌, if◌then◌else◌,
}
use dashcash_wallet.Prelude.Int.{ℤ, ltb_ℤ, pos}
use dashcash_wallet.Text.{Bytes, bytes_eq, codes}
use dashcash_wallet.Decimal.{int_value, parse_int, parsed, range_error, syntax_error}
use dashcash_wallet.Shift.{right_shift}
use dashcash_wallet.Payment.{add64}
use dashcash_wallet.Signing.{Result, crash, failure, value}

-- A transaction that OmniListPendingTransactions lists.
pub record Pending : Type 0 where
  pub from : Bytes
  pub confirmations : ℤ
  pub property_id : ℕ
  pub kind : Bytes
  pub amount : Bytes

-- The answers for an address; `none` is an error.
pub record OmniNode : Type 0 where
  pub omni_get_balance : Bytes → Option Bytes
  pub omni_list_pending : Bytes → Option (List Pending)

-- The smallest units of an amount in text, as the handlers and `GetUSDTBalance` read them.
unfoldable pub read_amount : Bytes → Result ℤ
read_amount text = elim (right_shift text 8) [
  | none ↦ crash
  | some digits ↦ elim (parse_int 64 digits) [
    | parsed z ↦ value z
    | syntax_error ↦ failure
    | range_error z ↦ failure
  ]
]

unfoldable pub is_pending : Bytes → ℕ → Pending → Bool
is_pending addr token v =
    if not (bytes_eq v.from addr)
    then false
    else if ltb_ℤ (pos 0) v.confirmations
    then false
    else if not (v.property_id == token)
    then false
    else bytes_eq v.kind (codes "Simple Send")

-- The loop of `GetOMNIPendingAmount`, which drops the errors of the amounts; `none` is a panic.
unfoldable pub sum_pending : Bytes → ℕ → ℤ → List Pending → Option ℤ
sum_pending addr token amount [] = some amount
sum_pending addr token amount (v ∷ result) =
    let skip = sum_pending addr token amount result in
    if is_pending addr token v
    then elim (right_shift v.amount 8) [
      | none ↦ none
      | some digits ↦ sum_pending addr token (add64 amount (int_value (parse_int 64 digits))) result
    ]
    else skip

module _ (omni : OmniNode) where
  unfoldable pub get_usdt_balance : Bytes → Result ℤ
  get_usdt_balance addr = elim (omni.omni_get_balance addr) [
    | none ↦ failure
    | some balance ↦ read_amount balance
  ]

  unfoldable pub get_omni_pending_amount : Bytes → ℕ → Result ℤ
  get_omni_pending_amount addr token = elim (omni.omni_list_pending addr) [
    | none ↦ failure
    | some result ↦ elim (sum_pending addr token (pos 0) result) [
      | none ↦ crash
      | some amount ↦ value amount
    ]
  ]
