-- ===== src/Listener/Lost.antt =====
-- What becomes of the pool of the listener when the tip moves by four blocks or more at once.
use dashcash_wallet.Prelude.{
  ℕ, zero, suc, ◌+◌, ◌-◌, ◌%◌, ◌^◌, ◌≤◌, ◌<◌, ◌≡◌, refl, ◌∙◌, inl, inr, true, false, Option, some,
  List, [], ◌∷◌, arith, Bool-cases, All, ltb, ◌⊎◌, ◌==◌,
}
use dashcash_wallet.Notify.{NotifyMessage}
use dashcash_wallet.Listener.{
  Listener, confirmed_height, min_confirmation, report_now, report_confirmed, keep_in_pool, advance,
  handle_block, rounds, on_new_block, listen,
}
use dashcash_wallet.Listener.Fields.{confirmed_height_eq, near, near_last, near_pool}

module _ {S : Type 0} (read_block : ℕ → S → Option (List NotifyMessage) × S) (h : ℕ)
    (ts : List NotifyMessage) where
  -- The block `h` waits in the pool, behind the next height to read.
  record IsWaiting (l : Listener S) : Type 0 where
    held : l.pool h ≡ some ts
    behind : h < l.last
    range : l.last ≤ 2 ^ 31

  near_round-IsWaiting :
      (number : ℕ) (txns : List NotifyMessage) (l : Listener S)
      → IsWaiting l
      → h + 2 < l.last
      → l.last < 2 ^ 31
      → ltb (l.last + (min_confirmation - 1)) number ≡ false
      → IsWaiting (handle_block read_block number txns l)
        × ((handle_block read_block number txns l).last ≡ l.last + 1)
  unfolding handle_block advance
  near_round-IsWaiting number txns l w past low test =
      let held = w.held in
      let behind = w.behind in
      let round = report_confirmed read_block (keep_in_pool read_block txns l) in
      let here : round.last ≡ l.last = unfold near in near_last read_block (λ _. txns) l in
      let pool = near_pool read_block (λ _. txns) l h in
      let which = confirmed_height_eq l.last (omega arith) (omega arith) in
      let other : (h == confirmed_height l.last) ≡ false = ground arith in
      let other' : (h == l.last) ≡ false = ground arith in
      let next : (l.last + 1) % 2 ^ 64 ≡ l.last + 1 = omega arith in
      rw (test, here, next)
        (
          record {
            held = unfold near in pool ∙ rw (other, other') held;
            behind = omega arith;
            range = omega arith;
          },
          refl,
        )

  far_round-IsWaiting :
      (number : ℕ) (txns : List NotifyMessage) (l : Listener S)
      → IsWaiting l
      → l.last < 2 ^ 31
      → ltb (l.last + (min_confirmation - 1)) number ≡ true
      → IsWaiting (handle_block read_block number txns l)
        × ((handle_block read_block number txns l).last ≡ l.last + 1)
  unfolding handle_block advance report_now
  far_round-IsWaiting number txns l w low test =
      let behind = w.behind in
      let next : (l.last + 1) % 2 ^ 64 ≡ l.last + 1 = omega arith in
      rw (test, next) (record { held = w.held; behind = omega arith; range = omega arith }, refl)

  round-IsWaiting :
      (number : ℕ) (txns : List NotifyMessage) (l : Listener S)
      → IsWaiting l
      → l.last < 2 ^ 31
      → (h + 2 < l.last) ⊎ (h + 4 < number)
      → IsWaiting (handle_block read_block number txns l)
        × ((handle_block read_block number txns l).last ≡ l.last + 1)
  round-IsWaiting number txns l w low far =
      elim (Bool-cases (ltb (l.last + (min_confirmation - 1)) number)) [
        | inl e ↦ far_round-IsWaiting number txns l w low e
        | inr e ↦ near_round-IsWaiting number txns l w (ground arith) low e
      ]

  module _
      (answers : (k : ℕ) (s : S)
        → (txns : List NotifyMessage) × ((read_block k s).0 ≡ some txns)) where
    rounds-IsWaiting :
        (fuel number : ℕ) (l : Listener S)
        → IsWaiting l
        → (h + 2 < l.last) ⊎ (h + 4 < number)
        → number < 2 ^ 31
        → number + 1 ≤ l.last + fuel
        → IsWaiting (rounds read_block fuel number l)
          × (h + 2 < (rounds read_block fuel number l).last)
    unfolding rounds
    rounds-IsWaiting zero number l w far low enough = (w, omega arith)
    rounds-IsWaiting (suc fuel) number l w far low enough = elim (Bool-cases (ltb number l.last)) [
      | inl done ↦ rw (done, rounds) (w, ground arith)
      | inr more ↦
          let (txns, read) = answers l.last l.world in
          let (w', next) =
            round-IsWaiting number txns (record l { world = (read_block l.last l.world).1 })
              (record { held = w.held; behind = w.behind; range = w.range }) (ground arith) far in
          rw (more, rounds, read)
            (rounds-IsWaiting fuel number _ w' (omega arith) low (ground arith))
    ]

    listen-IsWaiting :
        (numbers : List ℕ) (l : Listener S)
        → IsWaiting l
        → h + 2 < l.last
        → All (λ n. n < 2 ^ 31) numbers
        → IsWaiting (listen read_block numbers l)
    unfolding listen on_new_block
    listen-IsWaiting [] l w past low = w
    listen-IsWaiting (number ∷ numbers) l w past low =
        let (w', past') =
          rounds-IsWaiting (number + 1 - l.last) number l w (inl past) low.0 (omega arith) in
        listen-IsWaiting numbers _ w' past' low.1

-- Where every read succeeds, transactions that wait in the pool for a block `h` when the tip gets to
-- more than four blocks above `h` are in the pool still after that tip and all the tips that follow:
-- they are never taken out to be reported.
pub listen-strands :
    {S : Type 0} (read_block : ℕ → S → Option (List NotifyMessage) × S) (h : ℕ)
    (ts : List NotifyMessage) (number : ℕ) (numbers : List ℕ) (l : Listener S)
    → ((k : ℕ) (s : S) → (txns : List NotifyMessage) × ((read_block k s).0 ≡ some txns))
    → l.pool h ≡ some ts
    → h < l.last
    → l.last ≤ 2 ^ 31
    → h + 4 < number
    → number < 2 ^ 31
    → All (λ n. n < 2 ^ 31) numbers
    → (listen read_block (number ∷ numbers) l).pool h ≡ some ts
unfolding listen on_new_block
listen-strands read_block h ts number numbers l answers held behind range far low lows =
    let (w, past) =
      rounds-IsWaiting read_block h ts answers (number + 1 - l.last) number l
        (record { held = held; behind = behind; range = range }) (inr far) low (omega arith) in
    let kept = listen-IsWaiting read_block h ts answers numbers _ w past lows in kept.held
