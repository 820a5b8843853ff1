-- ===== src/Handlers/Sends.antt =====
-- What a request sends to the node, and what is said of a transaction that was sent.
use dashcash_wallet.Prelude.{
  ◌≡◌, refl, Bool, true, false, Option, none, some, List, [], ◌∷◌, map, length, All, if◌then◌else◌,
}
use dashcash_wallet.Prelude.Int.{ℤ, ◌≤ℤ◌}
use dashcash_wallet.Text.{Bytes, bytes_eq, codes}
use dashcash_wallet.Utxos.{TxOut}
use dashcash_wallet.Params.{ChainParams}
use dashcash_wallet.Payment.{Created, MsgTx, add64, created, panicked, refused, wire_out}
use dashcash_wallet.Addresses.{is_native_seg_wit_address, verify_address}
use dashcash_wallet.Omni.{omni_token}
use dashcash_wallet.Usdt.{get_omni_pending_amount, get_usdt_balance, read_amount}
use dashcash_wallet.Signing.{Result, SignedTx, crash, failure, value}
use dashcash_wallet.Signing.Signed.{IsSignedFrom}
use dashcash_wallet.Signing.Inner.{IsInner}
use dashcash_wallet.Handlers.{
  Outcome, Reply, Request, Services, Wallet, aborted, answered, to_legacy, unanswered,
}
use dashcash_wallet.Handlers.Tokens.{is_btc, omni_outputs, sender_of}
use dashcash_wallet.Handlers.Outputs.{IsChange, IsPaidOut}

-- A request sends nothing, or one transaction of which `P` holds.
pub data Sends {D : Type 0} (P : SignedTx → Type 0) : Outcome D → Type 0 where
  answered_none : {reply : Reply} {w : Wallet D} → Sends P (answered reply w [])
  answered_one :
      {reply : Reply} {w : Wallet D} {s : SignedTx} → P s → Sends P (answered reply w (s ∷ []))
  dropped : {w : Wallet D} → Sends P (unanswered w)
  aborted_none : Sends P (aborted [])
  aborted_one : {s : SignedTx} → P s → Sends P (aborted (s ∷ []))

module _ {D : Type 0} {P : SignedTx → Type 0} where
  pub on_option :
      {A : Type 0} (o : Option A) (n : Outcome D) (f : A → Outcome D)
      → Sends P n
      → ((a : A) → o ≡ some a → Sends P (f a))
      → Sends P (elim o [ none ↦ n | some a ↦ f a ])
  on_option none n f hn hf = hn
  on_option (some a) n f hn hf = hf a refl

  pub on_result :
      {A : Type 0} (r : Result A) (n : Outcome D) (f : A → Outcome D)
      → Sends P n
      → ((a : A) → r ≡ value a → Sends P (f a))
      → Sends P (elim r [ crash ↦ aborted [] | failure ↦ n | value a ↦ f a ])
  on_result crash n f hn hf = aborted_none
  on_result failure n f hn hf = hn
  on_result (value a) n f hn hf = hf a refl

  pub on_created :
      (c : Created) (n : Outcome D) (f : MsgTx → Bool → Outcome D)
      → Sends P n
      → ((tx : MsgTx) (change : Bool) → c ≡ created tx change → Sends P (f tx change))
      → Sends P (elim c [ panicked ↦ aborted [] | refused ↦ n | created tx b ↦ f tx b ])
  on_created panicked n f hn hf = aborted_none
  on_created refused n f hn hf = hn
  on_created (created tx b) n f hn hf = hf tx b refl

  pub on_if :
      (b : Bool) (x y : Outcome D)
      → Sends P x
      → (b ≡ false → Sends P y)
      → Sends P (if b then x else y)
  on_if true x y hx hy = hx
  on_if false x y hx hy = hy refl

pub Sends-map :
    {D : Type 0} {P Q : SignedTx → Type 0} {o : Outcome D}
    → ((s : SignedTx) → P s → Q s)
    → Sends P o
    → Sends Q o
Sends-map f answered_none = answered_none
Sends-map f (answered_one h) = answered_one (f _ h)
Sends-map f dropped = dropped
Sends-map f aborted_none = aborted_none
Sends-map f (aborted_one h) = aborted_one (f _ h)

-- The transaction pays the outputs that were asked for, in their order and with at most one more
-- behind them, and spends outputs of the inner addresses; each input has the script that the library
-- made for it, which on a bsv chain is empty where the library failed.
pub record IsPayment {D : Type 0} (services : Services D) (param : ChainParams) (w : Wallet D)
    (outputs : List TxOut) (s : SignedTx) : Type 0 where
  pub change : Bool
  pub paid :
      IsPaidOut
        (IsChange services param w [] s.tx)
        (map (wire_out services.keys.decode_address services.signer.add_data) outputs)
        s.tx.tx_out
        change
  pub scripts : length s.scripts ≡ length s.tx.tx_in
  pub inner : All (IsInner services.badger w.db w.addrs) s.tx.tx_in
  pub signed :
      IsSignedFrom services.keys param services.signer w.config.chain_name w.config.xpriv
        services.badger w.db w.addrs s.tx [] 0 s.tx.tx_in s.scripts

-- An order of coins that was carried out.
pub record IsCoinOrder {D : Type 0} (services : Services D) (param : ChainParams) (w : Wallet D)
    (r : Request) (s : SignedTx) : Type 0 where
  pub get : Bytes → Bytes
  pub amount : ℤ
  pub form : r.form ≡ some get
  pub valid : verify_address services.keys param w.config.chain_name (get (codes "to")) ≡ true
  pub read : read_amount (get (codes "amount")) ≡ value amount
  pub payment :
      IsPayment services param w
        (record {
          address = to_legacy services param w (get (codes "to"));
          amount = amount;
          script = [];
        }
          ∷ [])
        s

-- An order of tokens that was carried out, of the sender `from` by the wallet `w'`.
pub record IsTokenOrder {D : Type 0} (services : Services D) (param : ChainParams) (w : Wallet D)
    (from : Bytes) (get : Bytes → Bytes) (s : SignedTx) : Type 0 where
  pub amount : ℤ
  pub pending : ℤ
  pub balance : ℤ
  pub valid : verify_address services.keys param w.config.chain_name (get (codes "to")) ≡ true
  pub legacy : is_native_seg_wit_address services.keys param (get (codes "to")) ≡ false
  pub read : read_amount (get (codes "amount")) ≡ value amount
  pub listed : get_omni_pending_amount services.omni from omni_token ≡ value pending
  pub owned : get_usdt_balance services.omni from ≡ value balance
  pub enough : amount ≤ℤ balance
  pub rest : add64 pending amount ≤ℤ balance
  pub payment :
      IsPayment services param w
        (omni_outputs services.outside.add_data (get (codes "to")) amount)
        s

-- A request for tokens that was carried out, on the btc chain and for the one token; the sender is
-- the one of the request or the first inner address.
pub record IsTokenRequest {D : Type 0} (services : Services D) (param : ChainParams) (w : Wallet D)
    (r : Request) (s : SignedTx) : Type 0 where
  pub get : Bytes → Bytes
  pub form : r.form ≡ some get
  pub chain : is_btc w ≡ true
  pub token : bytes_eq (get (codes "token")) (codes "USDT") ≡ true
  pub order :
      IsTokenOrder services param
        (sender_of services param w (get (codes "from"))).1
        (sender_of services param w (get (codes "from"))).0
        get
        s
