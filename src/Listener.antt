-- ===== src/Listener.antt =====
-- `Listener` of subscriber.go: it reads blocks up to the tip, reports the transactions of deep
-- blocks at once, and keeps those of the last blocks in a pool until they have three
-- confirmations. `ReadBlock` is a parameter here, over a state of its own.
mod Tracking
mod Fields
mod Near
mod Rounds
pub mod Delivery
pub mod Lost
mod Tests
use dashcash_wallet.Prelude.{
  ℕ, zero, suc, ◌+◌, ◌-◌, ◌%◌, ◌^◌, Bool, true, false, Option, none, some, List, [], ◌∷◌, ◌++◌,
  length, ltb, ◌==◌, if◌then◌else◌,
}
use dashcash_wallet.Prelude.Int.{pos, ◌-ℤ◌}
use dashcash_wallet.Notify.{NotifyMessage, admin_message}

abbrev pub min_confirmation : ℕ
min_confirmation = 3

-- `blkPool`.
abbrev pub Pool : Type 0
Pool = ℕ → Option (List NotifyMessage)

abbrev pub pool_set : Pool → ℕ → List NotifyMessage → Pool
pool_set pool h txns k = if k == h then some txns else pool k

abbrev pub pool_delete : Pool → ℕ → Pool
pool_delete pool h k = if k == h then none else pool k

-- The variables of `Listener`, with what it has sent on its channel and the height that it leaves
-- in the configuration.
pub record Listener (S : Type 0) : Type 0 where
  pub world : S
  pub pool : Pool
  pub last : ℕ
  pub sent : List NotifyMessage
  pub last_block : ℕ

-- last.Uint64() - MIN_CONFIRMATION + 1 in uint64.
unfoldable pub confirmed_height : ℕ → ℕ
confirmed_height last = ((last + 2 ^ 64 - min_confirmation) % 2 ^ 64 + 1) % 2 ^ 64

module _ {S : Type 0} (read_block : ℕ → S → Option (List NotifyMessage) × S) where
  -- A block below `stop`: everything is reported at once. The code sends the pointer `last` in the
  -- message for administrators, which the next round changes; here the message has the value that
  -- `last` had when it was sent.
  unfoldable pub report_now : List NotifyMessage → Listener S → Listener S
  report_now txns l = record l { sent = l.sent ++ (txns ++ admin_message (pos l.last) ∷ []) }

  -- The transactions of a block that has its confirmations now, if it is in the pool.
  unfoldable pub report_confirmed : Listener S → Listener S
  report_confirmed l = elim (l.pool (confirmed_height l.last)) [
    | none ↦ l
    | some txns ↦ record l {
      sent = l.sent ++ (txns ++ admin_message (pos l.last -ℤ pos (min_confirmation - 1)) ∷ []);
      pool = pool_delete l.pool (confirmed_height l.last);
    }
  ]

  -- A block near the tip: its transactions go to the pool.
  unfoldable pub keep_in_pool : List NotifyMessage → Listener S → Listener S
  keep_in_pool txns l =
      if ltb 0 (length txns) then record l { pool = pool_set l.pool l.last txns } else l

  -- The end of a round: the next height, noted in the configuration.
  unfoldable pub advance : Listener S → Listener S
  advance l = record l { last = (l.last + 1) % 2 ^ 64; last_block = (l.last + 1) % 2 ^ 64 }

  -- One round behind the read of its block. `last < stop`, with `stop` two below the tip, is
  -- written without the subtraction, which big.Int makes in the integers.
  unfoldable pub handle_block : ℕ → List NotifyMessage → Listener S → Listener S
  handle_block number txns l = advance (
      if ltb (l.last + (min_confirmation - 1)) number
      then report_now txns l
      else report_confirmed (keep_in_pool txns l))

  -- The loop over the heights up to `number`, for at most `fuel` rounds; it ends at a failed read.
  unfoldable pub rounds : ℕ → ℕ → Listener S → Listener S
  rounds zero number l = l
  rounds (suc fuel) number l = elim (ltb number l.last) [
    | true ↦ l
    | false ↦
        let (block, world) = read_block l.last l.world in
        elim block [
          | none ↦ record l { world = world }
          | some txns ↦ rounds fuel number (handle_block number txns (record l { world = world }))
        ]
  ]

  -- What one message on the channel of new blocks makes the listener do.
  unfoldable pub on_new_block : ℕ → Listener S → Listener S
  on_new_block number l = rounds (number + 1 - l.last) number l

  -- The messages of the channel, in order.
  unfoldable pub listen : List ℕ → Listener S → Listener S
  listen [] l = l
  listen (number ∷ numbers) l = listen numbers (on_new_block number l)
