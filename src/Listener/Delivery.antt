-- ===== src/Listener/Delivery.antt =====
-- What the listener has reported, as long as the tip moves by at most three blocks at a time.
use Prim.Native.Nat.{max}
use dashcash_wallet.Prelude.{
  ℕ, ◌+◌, ◌-◌, ◌^◌, ◌≤◌, ◌<◌, ◌≡◌, refl, ap, ◌∙◌, Bool, false, Option, none, some, List, [], ◌∷◌,
  arith, if◌then◌else◌,
}
use dashcash_wallet.Notify.{NotifyMessage}
use dashcash_wallet.Listener.{Listener, on_new_block, listen}
use dashcash_wallet.Listener.Tracking.{IsTracking, IsStable, tx_reports, blocks}
use dashcash_wallet.Listener.Rounds.{rounds_near, rounds_far}

-- How far the chain is read after the messages on the channel of new blocks.
abbrev pub next_height : ℕ → List ℕ → ℕ
next_height last [] = last
next_height last (number ∷ numbers) = next_height (max last (number + 1)) numbers

-- Each new tip is at most three blocks above the one before, `last - 1`.
abbrev pub IsGradual : ℕ → List ℕ → Type 0
IsGradual last [] = Unit {0}
IsGradual last (number ∷ numbers) =
    (number ≤ last + 2) × (number < 2 ^ 31) × IsGradual (max last (number + 1)) numbers

module _ {S : Type 0} (read_block : ℕ → S → Option (List NotifyMessage) × S)
    (txs : ℕ → List NotifyMessage) (stable : IsStable read_block txs) where
  -- The messages after the first, each near the tip that was reached.
  listen_near :
      (start base : ℕ) (numbers : List ℕ) (l : Listener S)
      → IsTracking txs start base l
      → IsGradual l.last numbers
      → IsTracking txs start base (listen read_block numbers l)
        × ((listen read_block numbers l).last ≡ next_height l.last numbers)
  unfolding listen on_new_block
  listen_near start base [] l t h = (t, refl)
  listen_near start base (number ∷ numbers) l t h =
      let (t', last) =
        rounds_near read_block txs stable (number + 1 - l.last) start base number l t h.0 h.1
          (omega arith) in
      let (done, reached) = listen_near start base numbers _ t' (rw last h.2) in
      (done, reached ∙ ap (λ n. next_height n numbers) last)

next_height_le : (last : ℕ) (numbers : List ℕ) → last ≤ next_height last numbers
next_height_le last [] = omega arith
next_height_le last (number ∷ numbers) =
    let rest = next_height_le (max last (number + 1)) numbers in omega arith

-- The state in which the listener begins to read at `start`.
abbrev pub listener_at : {S : Type 0} → S → ℕ → Listener S
listener_at world start = record {
  world = world;
  pool = λ h. none;
  last = start;
  sent = [];
  last_block = start;
}

-- Where every read succeeds and no block is replaced: after a first tip at any height, and further
-- tips that are each at most three blocks above the last, the listener has reported the
-- transactions of exactly the blocks from `start` up to two below the tip, each once and in the
-- order of the blocks; and it goes on with the block after the highest tip.
pub listen-delivers :
    {S : Type 0} (read_block : ℕ → S → Option (List NotifyMessage) × S)
    (txs : ℕ → List NotifyMessage) (world : S) (start number : ℕ) (numbers : List ℕ)
    → IsStable read_block txs
    → start < 2 ^ 31
    → number < 2 ^ 31
    → IsGradual (max start (number + 1)) numbers
    → let l = listen read_block (number ∷ numbers) (listener_at world start) in
      (tx_reports l.sent ≡ blocks txs start (l.last - 2 - start))
      × (l.last ≡ next_height start (number ∷ numbers))
unfolding listen on_new_block
listen-delivers read_block txs world start number numbers stable low range gradual =
    let (first, last) =
      rounds_far read_block txs stable (number + 1 - start) start number (listener_at world start)
        (fresh txs world start low) range (omega arith) in
    let (done, reached) =
      listen_near read_block txs stable start (max start (number - 2)) numbers _ first
        (rw last gradual) in
    let top = reached ∙ ap (λ n. next_height n numbers) last in
    let above = next_height_le (max start (number + 1)) numbers in
    let reach : max start (number + 1)
        ≤ (listen read_block (number ∷ numbers) (listener_at world start)).last =
      omega (arith, top, above) in
    let count = count_eq start number _ reach in (done.reported ∙ ap (blocks txs start) count, top)
  where
    no_blocks : (start : ℕ) → 0 ≡ max start (start - 2) - start
    no_blocks start = omega arith

    count_eq :
        (start number last : ℕ)
        → max start (number + 1) ≤ last
        → max (max start (number - 2)) (last - 2) - start ≡ last - 2 - start
    count_eq start number last h = omega arith

    none-if : (b : Bool) (x : List NotifyMessage) → b ≡ false → none ≡ (if b then some x else none)
    none-if b x e = rw e

    fresh :
        {S : Type 0} (txs : ℕ → List NotifyMessage) (world : S) (start : ℕ)
        → start < 2 ^ 31
        → IsTracking txs start start (listener_at world start)
    fresh txs world start low = record {
      order = omega arith;
      reached = omega arith;
      range = omega arith;
      pooled = λ h. none-if _ _ (ground arith);
      reported = unfold tx_reports blocks in ap (blocks txs start) (no_blocks start);
    }
