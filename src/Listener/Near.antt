-- ===== src/Listener/Near.antt =====
-- A round near the tip keeps the reports in order.
use Prim.Native.Nat.{max}
use mathlib.Core.Path.{ap₂}
use dashcash_wallet.Prelude.{
  ℕ, suc, ◌+◌, ◌-◌, ◌≤◌, ◌<◌, ◌≡◌, sym, ap, ◌∙◌, inl, inr, false, Option, none, some, List, [],
  ◌++◌, append-nil, arith, Bool-cases, leb, leb→le, ◌⊎◌, ◌==◌, ==_iff, if◌then◌else◌,
}
use dashcash_wallet.Notify.{NotifyMessage}
use dashcash_wallet.Listener.{Listener, confirmed_height, keep_in_pool}
use dashcash_wallet.Listener.Tracking.{is_kept, IsTracking, AreTxs, tx_reports, blocks, blocks-suc}
use dashcash_wallet.Listener.Fields.{
  kept_none, kept_some, confirmed_height_eq, confirmed_height_cases, keep_pool, keep_fields,
  confirm_sent, near, near_pool,
}

module _ {S : Type 0} (read_block : ℕ → S → Option (List NotifyMessage) × S) where
  module _ (txs : ℕ → List NotifyMessage) (start base : ℕ) (l : Listener S)
      (t : IsTracking txs start base l) where
    pub near_kept :
        (h : ℕ)
        → (near read_block txs l).pool h
          ≡ (if is_kept base (l.last + 1) (txs h) h then some (txs h) else none)
    near_kept h =
        let here = t.pooled h in
        let reached = t.reached in
        elim (confirmed_height_cases l.last t.range) [
          | inl (low, c) ↦ near_pool read_block txs l h ∙ elim (Bool-cases (h == l.last)) [
            | inl e ↦
                let same : h ≡ l.last = (==_iff h l.last).0 e in
                let here' : txs h ≡ txs l.last = ap txs same in ground arith
            | inr e ↦ ground arith
          ]
          | inr (low, c) ↦ near_pool read_block txs l h ∙ elim (Bool-cases (h == l.last)) [
            | inl e ↦
                let same : h ≡ l.last = (==_iff h l.last).0 e in
                let here' : txs h ≡ txs l.last = ap txs same in ground arith
            | inr e ↦ ground arith
          ]
        ]

    -- What the pool holds at the confirmed height is not touched by what the round puts there.
    kept_at :
        (k : ℕ) → (k == l.last) ≡ false → (keep_in_pool read_block (txs l.last) l).pool k ≡ l.pool k
    kept_at k h = keep_pool read_block (txs l.last) l k ∙ rw h

    -- The confirmed height is another than the one that the round reads.
    confirmed_other : (confirmed_height l.last == l.last) ≡ false
    confirmed_other = elim (confirmed_height_cases l.last t.range) [
      | inl (low, c) ↦ ground arith
      | inr (low, c) ↦ ground arith
    ]

    confirmed_held :
        (keep_in_pool read_block (txs l.last) l).pool
          (confirmed_height (keep_in_pool read_block (txs l.last) l).last)
        ≡ (if is_kept base l.last (txs (confirmed_height l.last)) (confirmed_height l.last)
            then some (txs (confirmed_height l.last))
            else none)
    confirmed_held =
        ap (λ n. (keep_in_pool read_block (txs l.last) l).pool (confirmed_height n))
          (keep_fields read_block (txs l.last) l).0
        ∙ kept_at (confirmed_height l.last) confirmed_other
        ∙ t.pooled (confirmed_height l.last)

    near_sent_more :
        ((h : ℕ) → AreTxs (txs h))
        → 2 ≤ l.last
        → base ≤ l.last - 2
        → tx_reports (near read_block txs l).sent ≡ tx_reports l.sent ++ txs (l.last - 2)
    unfolding near
    near_sent_more are_txs low inside =
        let c = confirmed_height_eq l.last t.range low in
        let held = confirmed_held in
        elim (confirm_sent read_block (keep_in_pool read_block (txs l.last) l)) [
          | inl (nothing, same) ↦
              let empty : txs (confirmed_height l.last) ≡ [] =
                kept_none base l.last (confirmed_height l.last) (txs (confirmed_height l.last))
                  (omega arith) (omega arith) (omega arith) (sym held ∙ nothing) in
              same
              ∙ ap tx_reports (keep_fields read_block (txs l.last) l).1
              ∙ sym (append-nil (tx_reports l.sent))
              ∙ ap (λ e. tx_reports l.sent ++ e) (sym empty ∙ ap txs c)
          | inr (txns, found, more) ↦
              let (which', _, _) =
                kept_some base l.last (confirmed_height l.last) (txs (confirmed_height l.last)) txns
                  (sym held ∙ found) in
              let which : txns ≡ txs (l.last - 2) = which' ∙ ap txs c in
              more (rw which (are_txs (l.last - 2)))
              ∙ ap₂ (λ s e. tx_reports s ++ e) (keep_fields read_block (txs l.last) l).1 which
        ]

    outside :
        (l.last < 2) ⊎ (l.last - 2 < base)
        → base ≤ confirmed_height l.last
        → ¬ (confirmed_height l.last < l.last)
    outside h inside below = elim (confirmed_height_cases l.last t.range) [
      | inl (low, c) ↦ ground arith
      | inr (low, c) ↦ omega arith
    ]

    near_sent_same :
        (l.last < 2) ⊎ (l.last - 2 < base)
        → tx_reports (near read_block txs l).sent ≡ tx_reports l.sent
    unfolding near
    near_sent_same h =
        let held = confirmed_held in
        elim (confirm_sent read_block (keep_in_pool read_block (txs l.last) l)) [
          | inl (nothing, same) ↦ same ∙ ap tx_reports (keep_fields read_block (txs l.last) l).1
          | inr (txns, found, more) ↦
              let (_, inside, below) =
                kept_some base l.last (confirmed_height l.last) (txs (confirmed_height l.last)) txns
                  (sym held ∙ found) in
              absurd (outside h inside below)
        ]

    pub near_reported :
        ((h : ℕ) → AreTxs (txs h))
        → tx_reports (near read_block txs l).sent
          ≡ blocks txs start (max base (l.last + 1 - 2) - start)
    near_reported are_txs = elim (Bool-cases (leb (base + 2) l.last)) [
      | inl e ↦
          let deep : base + 2 ≤ l.last = leb→le (base + 2) l.last e in
          let order = t.order in
          let before : max base (l.last - 2) - start ≡ l.last - 2 - start = omega arith in
          let after : max base (l.last + 1 - 2) - start ≡ suc (l.last - 2 - start) = omega arith in
          let which : start + (l.last - 2 - start) ≡ l.last - 2 = omega arith in
          near_sent_more are_txs (omega arith) (omega arith)
          ∙ ap (λ r. r ++ txs (l.last - 2)) (t.reported ∙ ap (blocks txs start) before)
          ∙ ap (λ h. blocks txs start (l.last - 2 - start) ++ txs h) (sym which)
          ∙ sym (blocks-suc txs start (l.last - 2 - start))
          ∙ ap (blocks txs start) (sym after)
      | inr e ↦
          let shallow : l.last < base + 2 = ground arith in
          let reached = t.reached in
          let same : max base (l.last - 2) - start ≡ max base (l.last + 1 - 2) - start =
            omega arith in
          near_sent_same (omega arith) ∙ t.reported ∙ ap (blocks txs start) same
    ]
