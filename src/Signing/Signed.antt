-- ===== src/Signing/Signed.antt =====
-- What the scripts of `SignMsgTx` are: those of the libraries, for the output that is spent, the key
-- of its path and the input signed, behind the scripts before it.
use dashcash_wallet.Prelude.{
  ℕ, ◌+◌, ◌%◌, ◌^◌, ◌≡◌, refl, sym, ap, ◌∙◌, true, false, Option, none, some, Option-cases,
  Bool-cases, ◌⊎◌, inl, inr, List, [], ◌∷◌, ◌++◌, append-nil, append_assoc,
}
use mathlib.Core.Path.{subst}
use dashcash_wallet.Prelude.Int.{ℤ, eqb_ℤ, pos, word64}
use dashcash_wallet.Text.{Bytes}
use dashcash_wallet.Utxos.{Badger, TxOut, fetched, get_utxo_by_key}
use dashcash_wallet.Params.{ChainParams}
use dashcash_wallet.Payment.{MsgTx, OutPoint}
use dashcash_wallet.Payment.Value.{Fetched-cases}
use dashcash_wallet.Addresses.{Addrs, Keys, get_private_key, load_addr_path, on_bch, on_bsv}
use dashcash_wallet.Signing.{
  SignedTx, Signer, bsv_input, failure, locking_script, read_path, sign_input, sign_inputs,
  sign_msg_tx, sign_output, signature_of, value,
}
use dashcash_wallet.Signing.Inner.{Result-cases, not_crash, not_failure, value_injective}

-- On a bsv chain: the script of a signature, or none where the library failed.
abbrev pub IsBsvScript : Signer → SignedTx → ℕ → Bytes → Option Bytes → ℤ → Bytes → Type 0
IsBsvScript signer signed i script key amount s =
    ((s ≡ [])
      × ((signer.bsv_sign signed i script key amount ≡ failure)
          ⊎ ((sig : Bytes) × (priv : Bytes) × (signer.bsv_sign signed i script key amount
                ≡ value sig)
              × (key ≡ some priv)
              × (signer.bsv_script sig priv ≡ failure))))
    ⊎ ((sig : Bytes) × (priv : Bytes) × (signer.bsv_sign signed i script key amount ≡ value sig)
        × (key ≡ some priv)
        × (signer.bsv_script sig priv ≡ value s))

-- What the library of the chain returns for an input.
abbrev pub IsLibraryScript :
    Signer → Bytes → SignedTx → ℕ → Bytes → Option Bytes → ℤ → Bytes → Type 0
IsLibraryScript signer chain signed i script key amount s =
    ((on_bch chain ≡ true) × (signer.bch_sign signed i script key amount ≡ value s))
    ⊎ (((on_bch chain ≡ false)
          × (on_bsv chain ≡ true)
          × IsBsvScript signer signed i script key amount s)
        ⊎ ((on_bch chain ≡ false)
            × (on_bsv chain ≡ false)
            × (signer.btc_sign signed i script key ≡ value s)))

module _ (keys : Keys) (param : ChainParams) (signer : Signer) (chain xpriv : Bytes) {D : Type 0}
    (badger : Badger D) (db : D) (addrs : Addrs) where
  -- The script `s` of input `i`, which spends `point`, where `signed` has the scripts before it.
  pub record IsSignature (signed : SignedTx) (i : ℕ) (point : OutPoint) (s : Bytes) : Type 0 where
    pub out : TxOut
    pub path : Bytes
    pub branch : ℤ
    pub child : ℤ
    pub stored : get_utxo_by_key badger db point.hash point.index ≡ fetched out
    pub known : load_addr_path addrs out.address ≡ some path
    pub read : read_path path ≡ some (branch, child)
    pub made :
        IsLibraryScript signer chain signed i
          (locking_script keys param signer chain xpriv out.address)
          (keys.private_key xpriv (word64 child % 2 ^ 32))
          out.amount
          s

  -- All inputs of `points` are signed, the first of them as input `i` behind the scripts `before`.
  abbrev pub IsSignedFrom : MsgTx → List Bytes → ℕ → List OutPoint → List Bytes → Type 0
  IsSignedFrom tx before i [] [] = Unit {0}
  IsSignedFrom tx before i [] (s ∷ scripts) = ⊥
  IsSignedFrom tx before i (point ∷ points) [] = ⊥
  IsSignedFrom tx before i (point ∷ points) (s ∷ scripts) =
      IsSignature (record { tx = tx; scripts = before }) i point s
      × IsSignedFrom tx (before ++ s ∷ []) (i + 1) points scripts

  bsv_input-IsBsvScript :
      (signed : SignedTx) (i : ℕ) (script : Bytes) (key : Option Bytes) (amount : ℤ) (s : Bytes)
      → bsv_input keys param signer chain xpriv signed i script key amount ≡ value s
      → IsBsvScript signer signed i script key amount s
  unfolding bsv_input
  bsv_input-IsBsvScript signed i script none amount s e =
      elim (Result-cases (signer.bsv_sign signed i script none amount)) [
        | inr (inr f) ↦ not_crash (rw (bsv_input, f) at e)
        | inr (inl f) ↦ inl (sym (value_injective (rw (bsv_input, f) at e)), inl f)
        | inl (sig, f) ↦ not_crash (rw (bsv_input, f) at e)
      ]
  bsv_input-IsBsvScript signed i script (some priv) amount s e =
      elim (Result-cases (signer.bsv_sign signed i script (some priv) amount)) [
        | inr (inr f) ↦ not_crash (rw (bsv_input, f) at e)
        | inr (inl f) ↦ inl (sym (value_injective (rw (bsv_input, f) at e)), inl f)
        | inl (sig, f) ↦ elim (Result-cases (signer.bsv_script sig priv)) [
          | inr (inr g) ↦ not_crash (rw (bsv_input, f, g) at e)
          | inr (inl g) ↦
              inl (sym (value_injective (rw (bsv_input, f, g) at e)), inr (sig, priv, f, refl, g))
          | inl (t, g) ↦ inr (sig, priv, f, refl, g ∙ rw (bsv_input, f, g) at e)
        ]
      ]

  signature_of-IsLibraryScript :
      (signed : SignedTx) (i : ℕ) (script : Bytes) (key : Option Bytes) (amount : ℤ) (s : Bytes)
      → signature_of keys param signer chain xpriv signed i script key amount ≡ value s
      → IsLibraryScript signer chain signed i script key amount s
  unfolding signature_of
  signature_of-IsLibraryScript signed i script key amount s e = elim (Bool-cases (on_bch chain)) [
    | inl f ↦ inl (f, rw (signature_of, f) at e)
    | inr f ↦ elim (Bool-cases (on_bsv chain)) [
      | inl g ↦ inr (
          inl (
            f,
            g,
            bsv_input-IsBsvScript signed i script key amount s (rw (signature_of, f, g) at e),
          ))
      | inr g ↦ inr (inr (f, g, rw (signature_of, f, g) at e))
    ]
  ]

  sign_input-IsSignature :
      (signed : SignedTx) (i : ℕ) (point : OutPoint) (s : Bytes)
      → sign_input keys param signer chain xpriv badger db addrs signed i point ≡ value s
      → IsSignature signed i point s
  unfolding sign_input sign_output get_private_key
  sign_input-IsSignature signed i point s e =
      elim (Fetched-cases (get_utxo_by_key badger db point.hash point.index)) [
        | inr (inl f) ↦ not_failure (rw (sign_input, f) at e)
        | inr (inr f) ↦ not_crash (rw (sign_input, f) at e)
        | inl (out, f) ↦ elim (Option-cases (load_addr_path addrs out.address)) [
          | inl g ↦ not_failure (rw (sign_input, f, g) at e)
          | inr (path, g) ↦ elim (Option-cases (read_path path)) [
            | inl r ↦ not_crash (rw (sign_input, f, g, sign_output, r) at e)
            | inr ((branch, child), r) ↦ elim (Bool-cases (eqb_ℤ branch (pos 1))) [
              | inr b ↦ not_failure (rw (sign_input, f, g, sign_output, r, b) at e)
              | inl b ↦ record {
                out = out;
                path = path;
                branch = branch;
                child = child;
                stored = f;
                known = g;
                read = r;
                made =
                    signature_of-IsLibraryScript signed i _ _ _ s
                      (rw (sign_input, f, g, sign_output, r, b, get_private_key) at e);
              }
            ]
          ]
        ]
      ]

  sign_inputs-IsSignedFrom :
      (tx : MsgTx) (before : List Bytes) (i : ℕ) (points : List OutPoint) (signed : SignedTx)
      → sign_inputs keys param signer chain xpriv badger db addrs tx before i points ≡ value signed
      → (scripts : List Bytes) × (signed.scripts ≡ before ++ scripts)
        × IsSignedFrom tx before i points scripts
  unfolding sign_inputs
  sign_inputs-IsSignedFrom tx before i [] signed e =
      ([], sym (ap (λ s. s.scripts) (value_injective e)) ∙ sym (append-nil before), tt)
  sign_inputs-IsSignedFrom tx before i (point ∷ points) signed e =
      elim (Result-cases (
        sign_input keys param signer chain xpriv badger db addrs
          (record { tx = tx; scripts = before }) i point)) [
            | inr (inl f) ↦ not_failure (rw (sign_inputs, f) at e)
            | inr (inr f) ↦ not_crash (rw (sign_inputs, f) at e)
            | inl (s, f) ↦
                let (scripts, same, rest) =
                  sign_inputs-IsSignedFrom tx (before ++ s ∷ []) (i + 1) points signed
                    (rw (sign_inputs, f) at e) in
                (
                  s ∷ scripts,
                  same ∙ append_assoc before (s ∷ []) scripts,
                  (sign_input-IsSignature _ i point s f, rest),
                )
          ]

  -- The scripts of a transaction that `SignMsgTx` returns are those of the library, input by input.
  pub sign_msg_tx-IsSignedFrom :
      (tx : MsgTx) (signed : SignedTx)
      → sign_msg_tx keys param signer chain xpriv badger db addrs tx ≡ value signed
      → IsSignedFrom tx [] 0 tx.tx_in signed.scripts
  unfolding sign_msg_tx
  sign_msg_tx-IsSignedFrom tx signed e =
      let (scripts, same, all) = sign_inputs-IsSignedFrom tx [] 0 tx.tx_in signed e in
      subst (IsSignedFrom tx [] 0 tx.tx_in) (sym same) all
