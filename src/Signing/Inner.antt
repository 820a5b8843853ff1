-- ===== src/Signing/Inner.antt =====
-- What `SignMsgTx` signs: only transactions that spend outputs of the inner addresses of the wallet.
use dashcash_wallet.Prelude.{
  ℕ, ◌+◌, ◌≡◌, refl, sym, ap, ◌∙◌, some, Option-cases, Bool-cases, ◌⊎◌, inl, inr, List, [], ◌∷◌,
  ◌++◌, arith, All, length, length-append,
}
use dashcash_wallet.Prelude.Int.{ℤ, eqb_ℤ, eq_of_parts, pos}
use dashcash_wallet.Text.{Bytes}
use dashcash_wallet.Utxos.{Badger, TxOut, fetched, get_utxo_by_key}
use dashcash_wallet.Params.{ChainParams}
use dashcash_wallet.Payment.{MsgTx, OutPoint}
use dashcash_wallet.Payment.Value.{Fetched-cases}
use dashcash_wallet.Addresses.{Addrs, Keys, load_addr_path}
use dashcash_wallet.Signing.{
  Result, SignedTx, Signer, crash, failure, read_path, sign_input, sign_inputs, sign_msg_tx,
  sign_output, value,
}

-- An input that spends an output of the store whose address has a path on the inner branch.
pub record IsInner {D : Type 0} (badger : Badger D) (db : D) (addrs : Addrs) (point : OutPoint)
    : Type 0 where
  pub out : TxOut
  pub path : Bytes
  pub child : ℤ
  pub stored : get_utxo_by_key badger db point.hash point.index ≡ fetched out
  pub known : load_addr_path addrs out.address ≡ some path
  pub on_branch : read_path path ≡ some (pos 1, child)

pub not_failure : {A B : Type 0} {a : A} → failure ≡ value a → B
not_failure e = ground arith

pub not_crash : {A B : Type 0} {a : A} → crash ≡ value a → B
not_crash e = ground arith

pub Result-cases :
    {A : Type 0} (r : Result A) → ((a : A) × (r ≡ value a)) ⊎ ((r ≡ failure) ⊎ (r ≡ crash))
Result-cases (value a) = inl (a, refl)
Result-cases failure = inr (inl refl)
Result-cases crash = inr (inr refl)

pub value_injective : {A : Type 0} {a b : A} → value a ≡ value b → a ≡ b
value_injective {a = a} e = ap (λ r. elim r [ value x ↦ x | failure ↦ a | crash ↦ a ]) e

module _ (keys : Keys) (param : ChainParams) (signer : Signer) (chain xpriv : Bytes) {D : Type 0}
    (badger : Badger D) (db : D) (addrs : Addrs) where
  sign_output-inner :
      (signed : SignedTx) (i : ℕ) (out : TxOut) (path s : Bytes)
      → sign_output keys param signer chain xpriv badger db addrs signed i out path ≡ value s
      → (child : ℤ) × (read_path path ≡ some (pos 1, child))
  unfolding sign_output
  sign_output-inner signed i out path s e = elim (Option-cases (read_path path)) [
    | inl f ↦ not_crash (rw (sign_output, f) at e)
    | inr ((branch, child), f) ↦ elim (Bool-cases (eqb_ℤ branch (pos 1))) [
      | inr g ↦ not_failure (rw (sign_output, f, g) at e)
      | inl g ↦
          let one : branch ≡ pos 1 = eq_of_parts branch (pos 1) (ground arith) in
          (child, f ∙ ap (λ b. some (b, child)) one)
    ]
  ]

  sign_input-IsInner :
      (signed : SignedTx) (i : ℕ) (point : OutPoint) (s : Bytes)
      → sign_input keys param signer chain xpriv badger db addrs signed i point ≡ value s
      → IsInner badger db addrs point
  unfolding sign_input
  sign_input-IsInner signed i point s e =
      elim (Fetched-cases (get_utxo_by_key badger db point.hash point.index)) [
        | inr (inl f) ↦ not_failure (rw (sign_input, f) at e)
        | inr (inr f) ↦ not_crash (rw (sign_input, f) at e)
        | inl (out, f) ↦ elim (Option-cases (load_addr_path addrs out.address)) [
          | inl g ↦ not_failure (rw (sign_input, f, g) at e)
          | inr (path, g) ↦
              let (child, on_branch) =
                sign_output-inner signed i out path s (rw (sign_input, f, g) at e) in
              record {
                out = out;
                path = path;
                child = child;
                stored = f;
                known = g;
                on_branch = on_branch;
              }
        ]
      ]

  sign_inputs-IsInner :
      (tx : MsgTx) (scripts : List Bytes) (i : ℕ) (points : List OutPoint) (signed : SignedTx)
      → sign_inputs keys param signer chain xpriv badger db addrs tx scripts i points ≡ value signed
      → (signed.tx ≡ tx)
        × (length signed.scripts ≡ length scripts + length points)
        × All (IsInner badger db addrs) points
  unfolding sign_inputs
  sign_inputs-IsInner tx scripts i [] signed e =
      let e' = value_injective e in
      (sym (ap (λ s. s.tx) e'), omega (arith, ap (λ s. length s.scripts) e'), record {})
  sign_inputs-IsInner tx scripts i (point ∷ points) signed e =
      elim (Result-cases (
        sign_input keys param signer chain xpriv badger db addrs
          (record { tx = tx; scripts = scripts }) i point)) [
            | inr (inl f) ↦ not_failure (rw (sign_inputs, f) at e)
            | inr (inr f) ↦ not_crash (rw (sign_inputs, f) at e)
            | inl (s, f) ↦
                let (same, count, inner) =
                  sign_inputs-IsInner tx (scripts ++ s ∷ []) (i + 1) points signed
                    (rw (sign_inputs, f) at e) in
                (
                  same,
                  omega (arith, count, length-append scripts (s ∷ [])),
                  (sign_input-IsInner _ i point s f, inner),
                )
          ]

-- `SignMsgTx` returns only the transaction that it was given, with a script for each input, and
-- only if every input spends an output of the store whose address has a path on the inner branch.
pub sign_msg_tx-IsInner :
    (keys : Keys) (param : ChainParams) (signer : Signer) (chain xpriv : Bytes) {D : Type 0}
    (badger : Badger D) (db : D) (addrs : Addrs) (tx : MsgTx) (signed : SignedTx)
    → sign_msg_tx keys param signer chain xpriv badger db addrs tx ≡ value signed
    → (signed.tx ≡ tx)
      × (length signed.scripts ≡ length tx.tx_in)
      × All (IsInner badger db addrs) tx.tx_in
unfolding sign_msg_tx
sign_msg_tx-IsInner keys param signer chain xpriv badger db addrs tx signed e =
    let (same, count, inner) =
      sign_inputs-IsInner keys param signer chain xpriv badger db addrs tx [] 0 tx.tx_in signed e in
    (same, omega (arith, count), inner)
