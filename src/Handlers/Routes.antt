-- ===== src/Handlers/Routes.antt =====
-- The routes of main.go, the wallets that a process can come to, and what all of them keep.
use dashcash_wallet.Prelude.{
  ℕ, ◌≡◌, ◌≢◌, Bool-cases, Option, none, some, Option-cases, inl, inr, List, [], ◌∷◌, All,
  if◌then◌else◌,
}
use dashcash_wallet.Text.{Bytes, bytes_eq, codes}
use dashcash_wallet.Config.{Config}
use dashcash_wallet.Params.{ChainParams}
use dashcash_wallet.Addresses.{Addrs, address_init, address_init_from, path_text, store_addr_path}
use dashcash_wallet.Addresses.Paths.{
  HasPaths, HasPathsIf, address_init_from-HasPaths, store_addr_path-HasPaths,
}
use dashcash_wallet.Utxos.{get_utxo_by_key, panic}
use dashcash_wallet.Payment.{MsgTx}
use dashcash_wallet.Signing.{SignedTx, crash, sign_msg_tx}
use dashcash_wallet.Signing.Calm.{HasKeys, IsCalm, sign_msg_tx-ne}
use dashcash_wallet.Handlers.{
  Outcome, Reply, Request, Services, Wallet, aborted, answered, check_addr_handler,
  dump_utxo_handler, get_addr_handler, get_balance_handler, get_inner_balance_handler,
  get_omni_balance_handler, not_found_handler, send_coin_handler, send_signed_tx_handler,
  unanswered,
}
use dashcash_wallet.Handlers.Tokens.{send_omni_coin_handler}
use dashcash_wallet.Handlers.Prepare.{prepare_omni_trezor_sign_handler, prepare_trezor_sign_handler}
use dashcash_wallet.Handlers.Keeps.{
  Keeps, check_addr_handler-Keeps, dump_utxo_handler-Keeps, get_addr_handler-Keeps,
  get_balance_handler-Keeps, get_inner_balance_handler-Keeps, get_omni_balance_handler-Keeps,
  not_found_handler-Keeps, send_coin_handler-Keeps, send_signed_tx_handler-Keeps,
}
use dashcash_wallet.Handlers.Keeps.NewAddrs.{
  prepare_omni_trezor_sign_handler-Keeps, prepare_trezor_sign_handler-Keeps,
  send_omni_coin_handler-Keeps,
}

abbrev pub Handler : Type 0 → Type 0
Handler D = Wallet D → Request → Outcome D

unfoldable pub find_handler : {D : Type 0} → List (Bytes × Handler D) → Bytes → Handler D
find_handler [] path = not_found_handler
find_handler ((key, handler) ∷ routes) path =
    if bytes_eq key path then handler else find_handler routes path

-- Addresses with more entries in front, all with the paths of branches and indexes.
pub data Grows (addrs : Addrs) : Addrs → Type 0 where
  same : Grows addrs addrs
  more :
      (after : Addrs) (addr : Bytes) (branch index : ℕ)
      → Grows addrs after
      → Grows addrs (store_addr_path addr (path_text branch index) after)

-- A wallet that may be left by a panic: its settings are the same but for the indexes and the height.
pub record IsLeft {D : Type 0} (w w' : Wallet D) : Type 0 where
  pub addrs : Grows w.addrs w'.addrs
  pub config : w'.config ≡ record w.config {
    index = w'.config.index;
    in_index = w'.config.in_index;
    last_block = w'.config.last_block;
  }

Grows-HasPaths : (addrs after : Addrs) → HasPaths addrs → Grows addrs after → HasPaths after
Grows-HasPaths addrs _ h Grows.same = h
Grows-HasPaths addrs _ h (Grows.more after addr branch index g) =
    store_addr_path-HasPaths after addr branch index (Grows-HasPaths addrs after h g)

module _ {D : Type 0} (services : Services D) (param : ChainParams) where
  unfoldable pub routes : List (Bytes × Handler D)
  routes =
      (codes "/getAddress", get_addr_handler services param)
      ∷ (codes "/sendCoin", send_coin_handler services param)
      ∷ (codes "/getBalance", get_balance_handler services param)
      ∷ (codes "/prepareTrezorSign", prepare_trezor_sign_handler services param)
      ∷ (codes "/sendSignedTx", send_signed_tx_handler services param)
      ∷ (codes "/getInnerBalance", get_inner_balance_handler services param)
      ∷ (codes "/sendOmniCoin", send_omni_coin_handler services param)
      ∷ (codes "/prepareOmniTrezorSign", prepare_omni_trezor_sign_handler services param)
      ∷ (codes "/getOmniBalance", get_omni_balance_handler services param)
      ∷ (codes "/checkAddr", check_addr_handler services param)
      ∷ (codes "/dumpUtxo", dump_utxo_handler services param)
      ∷ []

  unfoldable pub serve : Bytes → Handler D
  serve path = find_handler routes path

  -- The addresses that `main` begins with.
  unfoldable pub start_addrs : Config → Option Addrs
  start_addrs config = elim (address_init services.keys param config.xpub 0 config.index []) [
    | none ↦ none
    | some addrs ↦ address_init services.keys param config.xpub 1 config.in_index addrs
  ]

  -- The wallets that a process can come to, one step after the other: it starts, a request is
  -- answered or not, the listener changes the store and the height, or a request ends in a panic from
  -- which the server goes on. What a panic leaves is taken as wide as a handler could leave it: any
  -- store, any indexes, and the addresses with any more that have the paths of the wallet.
  pub data Reachable : Wallet D → Type 0 where
    started : (w : Wallet D) → start_addrs w.config ≡ some w.addrs → Reachable w
    replied :
        (w w' : Wallet D) (path : Bytes) (r : Request) (reply : Reply) (sent : List SignedTx)
        → Reachable w
        → serve path w r ≡ answered reply w' sent
        → Reachable w'
    dropped :
        (w w' : Wallet D) (path : Bytes) (r : Request)
        → Reachable w
        → serve path w r ≡ unanswered w'
        → Reachable w'
    listened :
        (w : Wallet D) (db : D) (last_block : ℕ)
        → Reachable w
        → Reachable (record w { db = db; config = record w.config { last_block = last_block } })
    recovered :
        (w w' : Wallet D) (path : Bytes) (r : Request) (sent : List SignedTx)
        → Reachable w
        → serve path w r ≡ aborted sent
        → IsLeft w w'
        → Reachable w'

  abbrev AllKeep : List (Bytes × Handler D) → Type 0
  AllKeep [] = Unit
  AllKeep ((key, handler) ∷ routes) =
      ((w : Wallet D) (r : Request) → HasPaths w.addrs → Keeps (handler w r)) × AllKeep routes

  routes-AllKeep : AllKeep routes
  unfolding routes
  routes-AllKeep = (
    λ w r h. get_addr_handler-Keeps services param w h r,
    (
      λ w r h. send_coin_handler-Keeps services param w h r,
      (
        λ w r h. get_balance_handler-Keeps services param w h r,
        (
          prepare_trezor_sign_handler-Keeps services param,
          (
            λ w r h. send_signed_tx_handler-Keeps services param w h r,
            (
              λ w r h. get_inner_balance_handler-Keeps services param w h r,
              (
                send_omni_coin_handler-Keeps services param,
                (
                  prepare_omni_trezor_sign_handler-Keeps services param,
                  (
                    λ w r h. get_omni_balance_handler-Keeps services param w h r,
                    (
                      λ w r h. check_addr_handler-Keeps services param w h r,
                      (λ w r h. dump_utxo_handler-Keeps services param w h r, tt),
                    ),
                  ),
                ),
              ),
            ),
          ),
        ),
      ),
    ),
  )

  find_handler-Keeps :
      (rs : List (Bytes × Handler D)) (path : Bytes) (w : Wallet D) (r : Request)
      → AllKeep rs
      → HasPaths w.addrs
      → Keeps (find_handler rs path w r)
  unfolding find_handler
  find_handler-Keeps [] path w r hs h = not_found_handler-Keeps services param w h r
  find_handler-Keeps ((key, handler) ∷ rs) path w r (k, ks) h =
      elim (Bool-cases (bytes_eq key path)) [
        | inl e ↦ rw (find_handler, e) (k w r h)
        | inr e ↦ rw (find_handler, e) (find_handler-Keeps rs path w r ks h)
      ]

  kept_answer :
      {reply : Reply} {w : Wallet D} {sent : List SignedTx}
      → Keeps (answered reply w sent)
      → HasPaths w.addrs
  kept_answer (Keeps.answers h) = h

  kept_silent : {w : Wallet D} → Keeps (unanswered w) → HasPaths w.addrs
  kept_silent (Keeps.silent h) = h

  start_addrs-HasPaths : (config : Config) → HasPathsIf (start_addrs config)
  unfolding start_addrs address_init
  start_addrs-HasPaths config =
      elim (Option-cases (address_init_from services.keys param config.xpub 0 config.index 0 [])) [
        | inl f ↦ rw (start_addrs, f) tt
        | inr (first, f) ↦
            rw (start_addrs, f)
              (address_init_from-HasPaths services.keys param config.xpub 1 config.in_index 0 first
                (rw f at (
                  address_init_from-HasPaths services.keys param config.xpub 0 config.index 0 []
                    tt)))
      ]

  pub Reachable-HasPaths : (w : Wallet D) → Reachable w → HasPaths w.addrs
  unfolding serve
  Reachable-HasPaths _ (Reachable.started w e) = rw e at (start_addrs-HasPaths w.config)
  Reachable-HasPaths _ (Reachable.replied v w path r reply sent before e) =
      kept_answer
        (rw e at (find_handler-Keeps routes path v r routes-AllKeep (Reachable-HasPaths v before)))
  Reachable-HasPaths _ (Reachable.dropped v w path r before e) =
      kept_silent
        (rw e at (find_handler-Keeps routes path v r routes-AllKeep (Reachable-HasPaths v before)))
  Reachable-HasPaths _ (Reachable.listened v db last_block before) = Reachable-HasPaths v before
  Reachable-HasPaths _ (Reachable.recovered v w path r sent before e left) =
      Grows-HasPaths v.addrs w.addrs (Reachable-HasPaths v before) left.addrs

-- In every wallet that a process can come to by starting, by requests one after the other, also such
-- that panic, and by the listener: where the private keys of all indexes below 2^32 can be derived,
-- and the libraries do not panic when they are given a key, `SignMsgTx` does not panic on a
-- transaction whose inputs' values in the store are readable. (Without a derived key it hands a nil
-- key to the library, and on a bsv chain it reads the field of a nil key itself.)
pub Reachable-sign_msg_tx :
    {D : Type 0} (services : Services D) (param : ChainParams) (w : Wallet D) (tx : MsgTx)
    → Reachable services param w
    → IsCalm services.signer
    → HasKeys services.keys w.config.xpriv
    → All (λ point. get_utxo_by_key services.badger w.db point.hash point.index ≢ panic) tx.tx_in
    → sign_msg_tx services.keys param services.signer w.config.chain_name w.config.xpriv
        services.badger w.db w.addrs tx
      ≢ crash
Reachable-sign_msg_tx services param w tx reached calm derived stored =
    sign_msg_tx-ne services.keys param services.signer w.config.chain_name w.config.xpriv
      services.badger w.db w.addrs calm derived (Reachable-HasPaths services param w reached) tx
      stored
