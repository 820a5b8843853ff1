-- ===== src/Listener/Rounds.antt =====
-- A message on the channel of the listener: its rounds, near the tip and far below it.
use Prim.Native.Nat.{max}
use dashcash_wallet.Prelude.{
  ℕ, zero, suc, ◌+◌, ◌-◌, ◌%◌, ◌^◌, ◌≤◌, ◌<◌, ◌≡◌, refl, sym, ap, ◌∙◌, inl, inr, true, false,
  Option, none, some, List, ◌++◌, arith, Bool-cases, ltb, leb, leb→le, ltb→lt, lt→ltb,
  if◌then◌else◌,
}
use dashcash_wallet.Prelude.Int.{pos}
use dashcash_wallet.Notify.{NotifyMessage, admin_message}
use dashcash_wallet.Listener.{Listener, min_confirmation, report_now, advance, handle_block, rounds}
use dashcash_wallet.Listener.Tracking.{
  is_kept, IsTracking, IsStable, tx_reports, tx_reports-block, blocks, blocks-suc,
}
use dashcash_wallet.Listener.Fields.{near, near_last}
use dashcash_wallet.Listener.Near.{near_kept, near_reported}

module _ {S : Type 0} (read_block : ℕ → S → Option (List NotifyMessage) × S)
    (txs : ℕ → List NotifyMessage) (stable : IsStable read_block txs) where
  advance-IsTracking :
      (start base : ℕ) (l : Listener S) (last : ℕ)
      → l.last ≡ last
      → last < 2 ^ 32 - 1
      → start ≤ base
      → base ≤ last + 1
      → ((h : ℕ) → l.pool h ≡ (if is_kept base (last + 1) (txs h) h then some (txs h) else none))
      → tx_reports l.sent ≡ blocks txs start (max base (last + 1 - 2) - start)
      → IsTracking txs start base (advance read_block l) × ((advance read_block l).last ≡ last + 1)
  unfolding advance
  advance-IsTracking start base l last here range order reached pooled reported =
      let next : (l.last + 1) % 2 ^ 64 ≡ last + 1 = omega arith in
      (
        record {
          order = order;
          reached = rw next reached;
          range = rw next (omega arith);
          pooled = λ h. rw next (pooled h);
          reported = rw next reported;
        },
        next,
      )

  near_round :
      (start base number : ℕ) (l : Listener S)
      → IsTracking txs start base l
      → number ≤ l.last + 2
      → l.last ≤ number
      → number < 2 ^ 31
      → IsTracking txs start base (handle_block read_block number (txs l.last) l)
        × ((handle_block read_block number (txs l.last) l).last ≡ l.last + 1)
  unfolding handle_block
  near_round start base number l t close more range =
      let test : ltb (l.last + (min_confirmation - 1)) number ≡ false = ground arith in
      let reached = t.reached in
      rw test (
        unfold near in
        advance-IsTracking start base (near read_block txs l) l.last (near_last read_block txs l)
          (omega arith) t.order (omega arith) (near_kept read_block txs start base l t)
          (near_reported read_block txs start base l t stable.are_txs))

  far_round :
      (start number : ℕ) (l : Listener S)
      → IsTracking txs start l.last l
      → l.last + 2 < number
      → number < 2 ^ 31
      → IsTracking txs start (l.last + 1) (handle_block read_block number (txs l.last) l)
        × ((handle_block read_block number (txs l.last) l).last ≡ l.last + 1)
  unfolding handle_block report_now
  far_round start number l t far range =
      let test : ltb (l.last + (min_confirmation - 1)) number ≡ true = ground arith in
      let order = t.order in
      let count : l.last - start ≡ max l.last (l.last - 2) - start = omega arith in
      let count' : max (l.last + 1) (l.last + 1 - 2) - start ≡ suc (l.last - start) = omega arith in
      let which : start + (l.last - start) ≡ l.last = omega arith in
      rw test (
        advance-IsTracking start (l.last + 1) (report_now read_block (txs l.last) l) l.last refl
          (omega arith) (omega arith) (omega arith) (λ h. let here = t.pooled h in ground arith)
          (tx_reports-block l.sent (txs l.last) (admin_message (pos l.last)) (stable.are_txs l.last)
              refl
            ∙ ap (λ r. r ++ txs l.last) (t.reported ∙ ap (blocks txs start) (sym count))
            ∙ ap (λ h. blocks txs start (l.last - start) ++ txs h) (sym which)
            ∙ sym (blocks-suc txs start (l.last - start))
            ∙ ap (blocks txs start) (sym count')))

  -- The state that a round leaves, its read included.
  after_round : ℕ → Listener S → Listener S
  after_round number l =
      handle_block read_block number (txs l.last)
        (record l { world = (read_block l.last l.world).1 })

  rounds_stop :
      (fuel number : ℕ) (l : Listener S) → number < l.last → rounds read_block fuel number l ≡ l
  unfolding rounds
  rounds_stop zero number l h = refl
  rounds_stop (suc fuel) number l h = let test = lt→ltb number l.last h in rw (test, rounds)

  rounds_step :
      (fuel number : ℕ) (l : Listener S)
      → l.last ≤ number
      → rounds read_block (suc fuel) number l ≡ rounds read_block fuel number (after_round number l)
  unfolding rounds after_round
  rounds_step fuel number l h =
      let test : ltb number l.last ≡ false = ground arith in
      rw (test, rounds, stable.reads l.last l.world)

  near_after :
      (start base number : ℕ) (l : Listener S)
      → IsTracking txs start base l
      → number ≤ l.last + 2
      → l.last ≤ number
      → number < 2 ^ 31
      → IsTracking txs start base (after_round number l)
        × ((after_round number l).last ≡ l.last + 1)
  unfolding after_round
  near_after start base number l t =
      near_round start base number (record l { world = (read_block l.last l.world).1 })
        (record {
          order = t.order;
          reached = t.reached;
          range = t.range;
          pooled = t.pooled;
          reported = t.reported;
        })

  far_after :
      (start number : ℕ) (l : Listener S)
      → IsTracking txs start l.last l
      → l.last + 2 < number
      → number < 2 ^ 31
      → IsTracking txs start (l.last + 1) (after_round number l)
        × ((after_round number l).last ≡ l.last + 1)
  unfolding after_round
  far_after start number l t =
      far_round start number (record l { world = (read_block l.last l.world).1 })
        (record {
          order = t.order;
          reached = t.reached;
          range = t.range;
          pooled = t.pooled;
          reported = t.reported;
        })

  -- The loop near the tip, with fuel for its rounds.
  pub rounds_near :
      (fuel start base number : ℕ) (l : Listener S)
      → IsTracking txs start base l
      → number ≤ l.last + 2
      → number < 2 ^ 31
      → number + 1 ≤ l.last + fuel
      → IsTracking txs start base (rounds read_block fuel number l)
        × ((rounds read_block fuel number l).last ≡ max l.last (number + 1))
  rounds_near zero start base number l t close range enough =
      rw (rounds_stop zero number l (omega arith)) (t, omega arith)
  rounds_near (suc fuel) start base number l t close range enough =
      elim (Bool-cases (ltb number l.last)) [
        | inl done ↦
            let past : number < l.last = ltb→lt number l.last done in
            rw (rounds_stop (suc fuel) number l past) (t, omega arith)
        | inr more ↦
            let left : l.last ≤ number = ground arith in
            let (t', next) = near_after start base number l t close left range in
            let (done, last) =
              rounds_near fuel start base number (after_round number l) t' (omega arith) range
                (omega arith) in
            rw (rounds_step fuel number l left) (done, omega (arith, last, next))
      ]

  rebase :
      {start base base' : ℕ}
      → base ≡ base'
      → (l : Listener S) → IsTracking txs start base l
      → IsTracking txs start base' l
  rebase {start} e l t = rw (sym e) t

  -- The loop from an empty pool: the blocks far below the tip first.
  pub rounds_far :
      (fuel start number : ℕ) (l : Listener S)
      → IsTracking txs start l.last l
      → number < 2 ^ 31
      → number + 1 ≤ l.last + fuel
      → IsTracking txs start (max l.last (number - 2)) (rounds read_block fuel number l)
        × ((rounds read_block fuel number l).last ≡ max l.last (number + 1))
  rounds_far zero start number l t range enough =
      let base : max l.last (number - 2) ≡ l.last = omega arith in
      rw base (rounds_near zero start l.last number l t (omega arith) range enough)
  rounds_far (suc fuel) start number l t range enough =
      elim (Bool-cases (leb number (l.last + 2))) [
        | inl close ↦
            let close' = leb→le number (l.last + 2) close in
            let base : max l.last (number - 2) ≡ l.last = omega arith in
            rw base (rounds_near (suc fuel) start l.last number l t close' range enough)
        | inr far ↦
            let deep : l.last + 2 < number = ground arith in
            let (t', next) = far_after start number l t deep range in
            let (done, last) =
              rounds_far fuel start number (after_round number l) (rebase (sym next) _ t') range
                (omega arith) in
            let base : max (after_round number l).last (number - 2) ≡ max l.last (number - 2) =
              omega arith in
            rw (rounds_step fuel number l (omega arith))
              (rebase base _ done, omega (arith, last, next))
      ]
