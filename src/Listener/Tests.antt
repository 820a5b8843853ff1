-- ===== src/Listener/Tests.antt =====
-- Runs of the listener over a small chain, and the theorems at concrete inputs.
use dashcash_wallet.Prelude.{
  ℕ, ◌+◌, ◌-◌, ◌≡◌, refl, Option, some, none, List, [], ◌∷◌, arith, if◌then◌else◌, ◌==◌,
}
use dashcash_wallet.Prelude.Int.{pos}
use dashcash_wallet.Text.{codes}
use dashcash_wallet.Notify.{MessageType, TxType, NotifyMessage}
use dashcash_wallet.Listener.{
  Listener, listen, on_new_block, rounds, handle_block, advance, report_now, report_confirmed,
  keep_in_pool, confirmed_height,
}
use dashcash_wallet.Listener.Tracking.{tx_reports, blocks, IsStable}
use dashcash_wallet.Listener.Delivery.{listener_at, listen-delivers, next_height}
use dashcash_wallet.Listener.Lost.{listen-strands}

-- A payment in the block at a height.
abbrev payment : ℕ → NotifyMessage
payment h = record {
  message_type = MessageType.tx;
  address = codes "a";
  amount = pos h;
  tx_hash = [];
  fee = pos 0;
  coin = codes "btc";
  tx_type = TxType.user_deposit;
  block_time = 0;
}

-- A chain with one payment in each block, and a node that counts the calls.
abbrev chain : ℕ → List NotifyMessage
chain h = payment h ∷ []

abbrev read_chain : ℕ → ℕ → Option (List NotifyMessage) × ℕ
read_chain h calls = (some (chain h), calls + 1)

read_chain-IsStable : IsStable read_chain chain
read_chain-IsStable = record { reads = λ h s. refl; are_txs = λ h. (refl, record {}) }

listener_run :
    tx_reports (listen read_chain (8 ∷ 9 ∷ []) (listener_at 0 5)).sent
    ≡ payment 5 ∷ payment 6 ∷ payment 7 ∷ []
unfolding listen on_new_block rounds handle_block advance report_now report_confirmed keep_in_pool
    confirmed_height tx_reports
listener_run = refl

listen-delivers_example :
    let l = listen read_chain (8 ∷ 9 ∷ 12 ∷ []) (listener_at 0 5) in
    (tx_reports l.sent ≡ blocks chain 5 (l.last - 2 - 5))
    × (l.last ≡ next_height 5 (8 ∷ 9 ∷ 12 ∷ []))
listen-delivers_example =
    listen-delivers read_chain chain 0 5 8 (9 ∷ 12 ∷ []) read_chain-IsStable (omega arith)
      (omega arith) (omega arith, omega arith, (omega arith, omega arith, record {}))

-- A listener in whose pool the block 8 waits, when the block 9 is the next.
abbrev waiting : Listener ℕ
waiting = record {
  world = 0;
  pool = λ h. if h == 8 then some (chain 8) else none;
  last = 9;
  sent = [];
  last_block = 9;
}

listen-strands_example : (listen read_chain (13 ∷ 14 ∷ 15 ∷ []) waiting).pool 8 ≡ some (chain 8)
listen-strands_example =
    listen-strands read_chain 8 (chain 8) 13 (14 ∷ 15 ∷ []) waiting (λ k s. (chain k, refl)) refl
      (omega arith) (omega arith) (omega arith) (omega arith)
      (omega arith, (omega arith, record {}))
