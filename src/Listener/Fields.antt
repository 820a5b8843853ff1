-- ===== src/Listener/Fields.antt =====
-- What the steps of a round near the tip do to the variables of the listener.
use mathlib.Core.Path.{ap₂}
use dashcash_wallet.Prelude.{
  ℕ, ◌+◌, ◌-◌, ◌^◌, ◌≤◌, ◌<◌, ◌≡◌, refl, ap, ◌∙◌, inl, inr, ◌&&◌, Option, none, some, List, [], ◌∷◌,
  ◌++◌, arith, Bool-cases, Option-cases, length, ltb, leb, leb→le, ◌⊎◌, ◌==◌, ==_iff, if◌then◌else◌,
}
use dashcash_wallet.Notify.{NotifyMessage}
use dashcash_wallet.Listener.{Listener, confirmed_height, report_confirmed, keep_in_pool}
use dashcash_wallet.Listener.Tracking.{is_kept, AreTxs, tx_reports, tx_reports-block}

pub kept_none :
    (base last h : ℕ) (txns : List NotifyMessage)
    → base ≤ h
    → h < last
    → last ≤ h + 2
    → (if is_kept base last txns h then some txns else none) ≡ none
    → txns ≡ []
kept_none base last h [] a b c e = refl
kept_none base last h (m ∷ ms) a b c e = ground arith

pub kept_some :
    (base last h : ℕ) (txns found : List NotifyMessage)
    → (if is_kept base last txns h then some txns else none) ≡ some found
    → (found ≡ txns) × (base ≤ h) × (h < last)
kept_some base last h txns found e = ground arith

-- The height whose confirmations are complete.
pub confirmed_height_eq : (last : ℕ) → last < 2 ^ 32 → 2 ≤ last → confirmed_height last ≡ last - 2
unfolding confirmed_height
confirmed_height_eq last h k = omega arith

pub confirmed_height_high : (last : ℕ) → last < 2 → last < confirmed_height last
unfolding confirmed_height
confirmed_height_high last h = omega arith

pub confirmed_height_cases :
    (last : ℕ)
    → last < 2 ^ 32
    → ((2 ≤ last) × (confirmed_height last ≡ last - 2))
      ⊎ ((last < 2) × (last < confirmed_height last))
confirmed_height_cases last h = elim (Bool-cases (leb 2 last)) [
  | inl e ↦ inl (leb→le 2 last e, confirmed_height_eq last h (leb→le 2 last e))
  | inr e ↦ let low : last < 2 = ground arith in inr (low, confirmed_height_high last low)
]

module _ {S : Type 0} (read_block : ℕ → S → Option (List NotifyMessage) × S) where
  pub keep_pool :
      (txns : List NotifyMessage) (l : Listener S) (k : ℕ)
      → (keep_in_pool read_block txns l).pool k
        ≡ (if k == l.last && ltb 0 (length txns) then some txns else l.pool k)
  unfolding keep_in_pool
  keep_pool txns l k = elim (Bool-cases (ltb 0 (length txns))) [
    | inl e ↦ rw e (ground arith)
    | inr e ↦ rw e (ground arith)
  ]

  confirm_pool :
      (l : Listener S) (k : ℕ)
      → (report_confirmed read_block l).pool k
        ≡ (if k == confirmed_height l.last then none else l.pool k)
  unfolding report_confirmed
  confirm_pool l k = elim (Option-cases (l.pool (confirmed_height l.last))) [
    | inl e ↦ elim (Bool-cases (k == confirmed_height l.last)) [
      | inl same ↦
          let at : k ≡ confirmed_height l.last = (==_iff k (confirmed_height l.last)).0 same in
          rw (e, report_confirmed, same) (ap l.pool at ∙ e)
      | inr other ↦ rw (e, report_confirmed, other)
    ]
    | inr (txns, e) ↦ rw (e, report_confirmed)
  ]

  pub keep_fields :
      (txns : List NotifyMessage) (l : Listener S)
      → ((keep_in_pool read_block txns l).last ≡ l.last)
        × ((keep_in_pool read_block txns l).sent ≡ l.sent)
  unfolding keep_in_pool
  keep_fields txns l = ground arith

  confirm_last : (l : Listener S) → (report_confirmed read_block l).last ≡ l.last
  unfolding report_confirmed
  confirm_last l = ground arith

  -- The reports behind the check of the pool.
  pub confirm_sent :
      (l : Listener S)
      → ((l.pool (confirmed_height l.last) ≡ none)
          × (tx_reports (report_confirmed read_block l).sent ≡ tx_reports l.sent))
        ⊎ ((txns : List NotifyMessage) × (l.pool (confirmed_height l.last) ≡ some txns)
            × (AreTxs txns
                → tx_reports (report_confirmed read_block l).sent ≡ tx_reports l.sent ++ txns))
  unfolding report_confirmed
  confirm_sent l = elim (Option-cases (l.pool (confirmed_height l.last))) [
    | inl e ↦ inl (e, rw (e, report_confirmed))
    | inr (txns, e) ↦
        inr (txns, e, λ h. rw (e, report_confirmed) (tx_reports-block l.sent txns _ h refl))
  ]

  -- A round near the tip.
  unfoldable pub near : (ℕ → List NotifyMessage) → Listener S → Listener S
  near txs l = report_confirmed read_block (keep_in_pool read_block (txs l.last) l)

  pub near_last : (txs : ℕ → List NotifyMessage) (l : Listener S) → (near txs l).last ≡ l.last
  unfolding near
  near_last txs l =
      confirm_last (keep_in_pool read_block (txs l.last) l) ∙ (keep_fields (txs l.last) l).0

  pub near_pool :
      (txs : ℕ → List NotifyMessage) (l : Listener S) (k : ℕ)
      → (near txs l).pool k ≡ (
          if k == confirmed_height l.last
          then none
          else if k == l.last && ltb 0 (length (txs l.last))
          then some (txs l.last)
          else l.pool k)
  unfolding near
  near_pool txs l k =
      confirm_pool (keep_in_pool read_block (txs l.last) l) k
      ∙ ap₂ (λ n p. if k == confirmed_height n then none else p) (keep_fields (txs l.last) l).0
          (keep_pool (txs l.last) l k)
