-- ===== src/Listener/Tracking.antt =====
-- What it means that the listener has reported a chain of blocks in order, once each.
use Prim.Native.Nat.{max}
use mathlib.Core.Path.{ap₂}
use dashcash_wallet.Prelude.{
  ℕ, zero, suc, ◌+◌, ◌-◌, ◌^◌, ◌≤◌, ◌<◌, ◌≡◌, refl, ap, ◌∙◌, inl, inr, Bool, true, false, ◌&&◌,
  Option, none, some, List, [], ◌∷◌, ◌++◌, append-nil, Bool-cases, All, length, ltb, leb,
  if◌then◌else◌,
}
use dashcash_wallet.Notify.{MessageType, NotifyMessage}
use dashcash_wallet.Listener.{Listener}

abbrev is_tx : MessageType → Bool
is_tx MessageType.tx = true
is_tx _ = false

-- The reports on transactions, without those on heights.
unfoldable pub tx_reports : List NotifyMessage → List NotifyMessage
tx_reports [] = []
tx_reports (m ∷ ms) = if is_tx m.message_type then m ∷ tx_reports ms else tx_reports ms

abbrev pub AreTxs : List NotifyMessage → Type 0
AreTxs = All (λ m. m.message_type ≡ MessageType.tx)

pub tx_reports-append :
    (ms ns : List NotifyMessage) → tx_reports (ms ++ ns) ≡ tx_reports ms ++ tx_reports ns
unfolding tx_reports
tx_reports-append [] ns = refl
tx_reports-append (m ∷ ms) ns = elim (Bool-cases (is_tx m.message_type)) [
  | inl e ↦ rw e (ap (λ l. m ∷ l) (tx_reports-append ms ns))
  | inr e ↦ rw e (tx_reports-append ms ns)
]

pub tx_reports-AreTxs : (ms : List NotifyMessage) → AreTxs ms → tx_reports ms ≡ ms
unfolding tx_reports
tx_reports-AreTxs [] h = refl
tx_reports-AreTxs (m ∷ ms) h =
    let e : is_tx m.message_type ≡ true = ap is_tx h.0 in
    rw e (ap (λ l. m ∷ l) (tx_reports-AreTxs ms h.1))

-- One report of a block: its transactions and its height.
pub tx_reports-block :
    (sent txns : List NotifyMessage) (m : NotifyMessage)
    → AreTxs txns
    → m.message_type ≡ MessageType.admin
    → tx_reports (sent ++ (txns ++ m ∷ [])) ≡ tx_reports sent ++ txns
tx_reports-block sent txns m h k =
    tx_reports-append sent (txns ++ m ∷ [])
    ∙ ap (λ l. tx_reports sent ++ l)
        (tx_reports-append txns (m ∷ [])
          ∙ ap₂ (λ l r. l ++ r) (tx_reports-AreTxs txns h) (admin_alone m k)
          ∙ append-nil txns)
  where
    admin_alone :
        (a : NotifyMessage) → a.message_type ≡ MessageType.admin → tx_reports (a ∷ []) ≡ []
    admin_alone a e = unfold tx_reports in rw (ap is_tx e)

module _ {S : Type 0} (read_block : ℕ → S → Option (List NotifyMessage) × S) where
  -- Each height always reads as the same transactions: the node answers, and no block is replaced.
  pub record IsStable (txs : ℕ → List NotifyMessage) : Type 0 where
    pub reads : (h : ℕ) (s : S) → (read_block h s).0 ≡ some (txs h)
    pub are_txs : (h : ℕ) → AreTxs (txs h)

-- The transactions of `count` blocks from height `start` on.
unfoldable pub blocks : (ℕ → List NotifyMessage) → ℕ → ℕ → List NotifyMessage
blocks txs start zero = []
blocks txs start (suc count) = blocks txs start count ++ txs (start + count)

pub blocks-suc :
    (txs : ℕ → List NotifyMessage) (start count : ℕ)
    → blocks txs start (suc count) ≡ blocks txs start count ++ txs (start + count)
unfolding blocks
blocks-suc txs start count = refl

abbrev pub is_kept : ℕ → ℕ → List NotifyMessage → ℕ → Bool
is_kept base last txns h = leb base h && (ltb h last && (leb last (h + 2) && ltb 0 (length txns)))

-- The transactions from `start` on are reported, once and in order, up to two blocks below the last
-- that was read; from `base` on those two wait in the pool, and nothing else is there.
pub record IsTracking {S : Type 0} (txs : ℕ → List NotifyMessage) (start base : ℕ) (l : Listener S)
    : Type 0 where
  pub order : start ≤ base
  pub reached : base ≤ l.last
  pub range : l.last < 2 ^ 32
  pub pooled : (h : ℕ) → l.pool h ≡ (if is_kept base l.last (txs h) h then some (txs h) else none)
  pub reported : tx_reports l.sent ≡ blocks txs start (max base (l.last - 2) - start)
