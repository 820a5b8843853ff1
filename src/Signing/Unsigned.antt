-- ===== src/Signing/Unsigned.antt =====
-- What `SignMsgTx` makes on a bsv chain of a transaction that the library cannot sign.
use dashcash_wallet.Prelude.{
  ℕ, ◌+◌, ◌≡◌, refl, sym, ◌∙◌, true, false, Option, List, [], ◌∷◌, ◌++◌, All, append-nil,
  append_assoc, length, replicate,
}
use dashcash_wallet.Prelude.Int.{ℤ}
use dashcash_wallet.Text.{Bytes}
use dashcash_wallet.Utxos.{Badger}
use dashcash_wallet.Params.{ChainParams}
use dashcash_wallet.Payment.{MsgTx, OutPoint}
use dashcash_wallet.Addresses.{Addrs, Keys, on_bch, on_bsv}
use dashcash_wallet.Signing.{
  SignedTx, Signer, bsv_input, failure, sign_input, sign_inputs, sign_msg_tx, sign_output,
  signature_of, value,
}
use dashcash_wallet.Signing.Inner.{IsInner}

-- The library that refuses to sign on bsv chains.
abbrev pub CannotSign : Signer → Type 0
CannotSign signer =
    (signed : SignedTx) (i : ℕ) (script : Bytes) (key : Option Bytes) (amount : ℤ)
    → signer.bsv_sign signed i script key amount ≡ failure

module _ (keys : Keys) (param : ChainParams) (signer : Signer) (chain xpriv : Bytes) {D : Type 0}
    (badger : Badger D) (db : D) (addrs : Addrs) (plain : on_bch chain ≡ false)
    (bsv : on_bsv chain ≡ true) (refuses : CannotSign signer) where
  sign_input-empty :
      (signed : SignedTx) (i : ℕ) (point : OutPoint)
      → IsInner badger db addrs point
      → sign_input keys param signer chain xpriv badger db addrs signed i point ≡ value []
  unfolding sign_input sign_output signature_of bsv_input
  sign_input-empty signed i point h =
      rw
        (
          sign_input,
          h.stored,
          h.known,
          sign_output,
          h.on_branch,
          signature_of,
          plain,
          bsv,
          bsv_input,
          refuses signed i _ _ _,
        )
        refl

  sign_inputs-empty :
      (tx : MsgTx) (scripts : List Bytes) (i : ℕ) (points : List OutPoint)
      → All (IsInner badger db addrs) points
      → sign_inputs keys param signer chain xpriv badger db addrs tx scripts i points
        ≡ value (record { tx = tx; scripts = scripts ++ replicate (length points) [] })
  unfolding sign_inputs
  sign_inputs-empty tx scripts i [] h =
      λ j. value (record { tx = tx; scripts = sym (append-nil scripts) j })
  sign_inputs-empty tx scripts i (point ∷ points) h =
      rw (sign_inputs, sign_input-empty (record { tx = tx; scripts = scripts }) i point h.0)
        (sign_inputs-empty tx (scripts ++ [] ∷ []) (i + 1) points h.1)
      ∙ λ j. value (record {
        tx = tx;
        scripts = append_assoc scripts ([] ∷ []) (replicate (length points) []) j;
      })

-- On a bsv chain, where the library signs nothing, `SignMsgTx` still returns the transaction of
-- inputs from the inner addresses, with an empty script for each.
pub sign_msg_tx-unsigned :
    (keys : Keys) (param : ChainParams) (signer : Signer) (chain xpriv : Bytes) {D : Type 0}
    (badger : Badger D) (db : D) (addrs : Addrs) (tx : MsgTx)
    → on_bch chain ≡ false
    → on_bsv chain ≡ true
    → CannotSign signer
    → All (IsInner badger db addrs) tx.tx_in
    → sign_msg_tx keys param signer chain xpriv badger db addrs tx
      ≡ value (record { tx = tx; scripts = replicate (length tx.tx_in) [] })
unfolding sign_msg_tx
sign_msg_tx-unsigned keys param signer chain xpriv badger db addrs tx plain bsv refuses h =
    sign_inputs-empty keys param signer chain xpriv badger db addrs plain bsv refuses tx [] 0
      tx.tx_in h
