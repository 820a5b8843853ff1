-- ===== src/Signing/Calm.antt =====
-- When `SignMsgTx` does not panic.
use native.Mathlib.Nat.{mod-lt}
use dashcash_wallet.Prelude.{
  ℕ, ◌+◌, ◌%◌, ◌^◌, ◌<◌, ◌≡◌, ◌≢◌, refl, some, Option-cases, Bool-cases, inl, inr, List, [], ◌∷◌,
  ◌++◌, arith, All,
}
use dashcash_wallet.Prelude.Int.{ℤ, eqb_ℤ, pos, word64}
use dashcash_wallet.Text.{Bytes}
use dashcash_wallet.Decimal.{format_uint, int_value, parse_int}
use dashcash_wallet.Utxos.{Badger, TxOut, get_utxo_by_key, panic}
use dashcash_wallet.Params.{ChainParams}
use dashcash_wallet.Payment.{MsgTx, OutPoint}
use dashcash_wallet.Payment.Value.{Fetched-cases}
use dashcash_wallet.Addresses.{Addrs, Keys, get_private_key, load_addr_path, on_bch, on_bsv}
use dashcash_wallet.Addresses.Paths.{HasPaths, IsPath, load_addr_path-IsPath, split_at-path_text}
use dashcash_wallet.Signing.{
  Result, SignedTx, Signer, bsv_input, crash, failure, read_path, sign_input, sign_inputs,
  sign_msg_tx, sign_output, signature_of, value,
}
use dashcash_wallet.Signing.Inner.{Result-cases}

-- With a private key, the libraries do not panic. (Without one, SignMsgTx hands them a nil key.)
pub record IsCalm (signer : Signer) : Type 0 where
  pub btc :
      (signed : SignedTx) (i : ℕ) (script key : Bytes)
      → signer.btc_sign signed i script (some key) ≢ crash
  pub bch :
      (signed : SignedTx) (i : ℕ) (script key : Bytes) (amount : ℤ)
      → signer.bch_sign signed i script (some key) amount ≢ crash
  pub bsv :
      (signed : SignedTx) (i : ℕ) (script key : Bytes) (amount : ℤ)
      → signer.bsv_sign signed i script (some key) amount ≢ crash
  pub script : (sig key : Bytes) → signer.bsv_script sig key ≢ crash

-- Every child of the extended private key that the wallet may ask for can be derived.
abbrev pub HasKeys : Keys → Bytes → Type 0
HasKeys keys xpriv =
    (index : ℕ) → index < 2 ^ 32 → (key : Bytes) × (keys.private_key xpriv index ≡ some key)

value_ne : {A : Type 0} {a : A} → value a ≢ crash
value_ne e = ground arith

failure_ne : {A : Type 0} → ◌≢◌ {A = Result A} failure crash
failure_ne e = ground arith

-- A path of the wallet is read.
pub read_path-IsPath : (path : Bytes) → IsPath path → (r : ℤ × ℤ) × (read_path path ≡ some r)
unfolding read_path
read_path-IsPath path (branch, index, e) = (
  (int_value (parse_int 32 (format_uint branch)), int_value (parse_int 32 (format_uint index))),
  rw (read_path, e, split_at-path_text branch index) refl,
)

module _ (keys : Keys) (param : ChainParams) (signer : Signer) (chain xpriv : Bytes) {D : Type 0}
    (badger : Badger D) (db : D) (addrs : Addrs) (calm : IsCalm signer)
    (derived : HasKeys keys xpriv) (paths : HasPaths addrs) where
  bsv_input-ne :
      (signed : SignedTx) (i : ℕ) (s key : Bytes) (amount : ℤ)
      → bsv_input keys param signer chain xpriv signed i s (some key) amount ≢ crash
  unfolding bsv_input
  bsv_input-ne signed i s key amount e =
      elim (Result-cases (signer.bsv_sign signed i s (some key) amount)) [
        | inr (inr f) ↦ calm.bsv signed i s key amount f
        | inr (inl f) ↦ value_ne (rw (bsv_input, f) at e)
        | inl (sig, f) ↦ elim (Result-cases (signer.bsv_script sig key)) [
          | inr (inr g) ↦ calm.script sig key g
          | inr (inl g) ↦ value_ne (rw (bsv_input, f, g) at e)
          | inl (t, g) ↦ value_ne (rw (bsv_input, f, g) at e)
        ]
      ]

  signature_of-ne :
      (signed : SignedTx) (i : ℕ) (s key : Bytes) (amount : ℤ)
      → signature_of keys param signer chain xpriv signed i s (some key) amount ≢ crash
  unfolding signature_of
  signature_of-ne signed i s key amount e = elim (Bool-cases (on_bch chain)) [
    | inl f ↦ calm.bch signed i s key amount (rw (signature_of, f) at e)
    | inr f ↦ elim (Bool-cases (on_bsv chain)) [
      | inl g ↦ bsv_input-ne signed i s key amount (rw (signature_of, f, g) at e)
      | inr g ↦ calm.btc signed i s key (rw (signature_of, f, g) at e)
    ]
  ]

  sign_output-ne :
      (signed : SignedTx) (i : ℕ) (out : TxOut) (path : Bytes)
      → IsPath path
      → sign_output keys param signer chain xpriv badger db addrs signed i out path ≢ crash
  unfolding sign_output get_private_key
  sign_output-ne signed i out path h e =
      let ((branch, index), f) = read_path-IsPath path h in
      elim (Bool-cases (eqb_ℤ branch (pos 1))) [
        | inl g ↦
            let (key, k) = derived (word64 index % 2 ^ 32) (mod-lt (word64 index) (omega arith)) in
            signature_of-ne signed i _ key _ (rw (sign_output, f, g, get_private_key, k) at e)
        | inr g ↦ failure_ne (rw (sign_output, f, g) at e)
      ]

  sign_input-ne :
      (signed : SignedTx) (i : ℕ) (point : OutPoint)
      → get_utxo_by_key badger db point.hash point.index ≢ panic
      → sign_input keys param signer chain xpriv badger db addrs signed i point ≢ crash
  unfolding sign_input
  sign_input-ne signed i point stored e =
      elim (Fetched-cases (get_utxo_by_key badger db point.hash point.index)) [
        | inr (inl f) ↦ failure_ne (rw (sign_input, f) at e)
        | inr (inr f) ↦ stored f
        | inl (out, f) ↦ elim (Option-cases (load_addr_path addrs out.address)) [
          | inl g ↦ failure_ne (rw (sign_input, f, g) at e)
          | inr (path, g) ↦
              sign_output-ne signed i out path
                (load_addr_path-IsPath addrs out.address path paths g) (rw (sign_input, f, g) at e)
        ]
      ]

  sign_inputs-ne :
      (tx : MsgTx) (scripts : List Bytes) (i : ℕ) (points : List OutPoint)
      → All (λ point. get_utxo_by_key badger db point.hash point.index ≢ panic) points
      → sign_inputs keys param signer chain xpriv badger db addrs tx scripts i points ≢ crash
  unfolding sign_inputs
  sign_inputs-ne tx scripts i [] h e = value_ne e
  sign_inputs-ne tx scripts i (point ∷ points) (h, hs) e =
      let signed : SignedTx = record { tx = tx; scripts = scripts } in
      elim (Result-cases
        (sign_input keys param signer chain xpriv badger db addrs signed i point)) [
          | inr (inr f) ↦ sign_input-ne signed i point h f
          | inr (inl f) ↦ failure_ne (rw (sign_inputs, f) at e)
          | inl (s, f) ↦
              sign_inputs-ne tx (scripts ++ s ∷ []) (i + 1) points hs (rw (sign_inputs, f) at e)
        ]

  pub sign_msg_tx-ne :
      (tx : MsgTx)
      → All (λ point. get_utxo_by_key badger db point.hash point.index ≢ panic) tx.tx_in
      → sign_msg_tx keys param signer chain xpriv badger db addrs tx ≢ crash
  unfolding sign_msg_tx
  sign_msg_tx-ne tx h = sign_inputs-ne tx [] 0 tx.tx_in h
