-- ===== src/Payment/Spending.antt =====
-- What a transaction of `CreateTxForOutputs` spends, and where the value goes.
use dashcash_wallet.Prelude.{
  ℕ, ◌+◌, ◌%◌, ◌^◌, ◌≡◌, refl, sym, ap, ◌∙◌, Bool, ◌&&◌, ◌||◌, not, some, List, [], ◌∷◌, ◌++◌, map,
  arith, All, All-append, length, drop, zero, suc, ltb, ◌==◌, Bool-cases, inl, inr, ◌⊎◌,
}
use dashcash_wallet.Prelude.Int.{ℤ, pos, eqb_ℤ, leb_ℤ, ltb_ℤ}
use dashcash_wallet.Text.{Bytes, bytes_eq}
use dashcash_wallet.Fees.{min_output_amount, tx_fee, tx_max_size, tx_output_size}
use dashcash_wallet.Utxos.{Utxo}
use dashcash_wallet.Payment.{
  Choice, MsgTx, OutPoint, Spend, WireOut, add64, add_inputs, add_tx_in, candidates, choose, keep,
  round_fee, take_sender, utxo_eq,
}

abbrev pub point_of : Utxo → OutPoint
point_of o = record { hash = o.hash; index = o.index }

-- The value of outputs, in int64.
unfoldable pub spent_value : ℤ → List Utxo → ℤ
spent_value balance [] = balance
spent_value balance (o ∷ os) = spent_value (add64 balance o.value) os

spent_value-append :
    (balance : ℤ) (os : List Utxo) (o : Utxo)
    → spent_value balance (os ++ o ∷ []) ≡ add64 (spent_value balance os) o.value
unfolding spent_value
spent_value-append balance [] o = refl
spent_value-append balance (p ∷ os) o = spent_value-append (add64 balance p.value) os o

All-drop : (P : Utxo → Type 0) (n : ℕ) (os : List Utxo) → All P os → All P (drop n os)
All-drop P zero os h = h
All-drop P (suc n) [] h = h
All-drop P (suc n) (o ∷ os) h = All-drop P n os h.1

map_points-append :
    (os : List Utxo) (o : Utxo) → map point_of (os ++ o ∷ []) ≡ map point_of os ++ point_of o ∷ []
map_points-append [] o = refl
map_points-append (p ∷ os) o = ap (λ l. point_of p ∷ l) (map_points-append os o)

-- The fee of a transaction, as it is and with one more output, or rounded by the total.
abbrev pub IsFee : (MsgTx → ℕ) → ℕ → ℤ → ℤ → MsgTx → ℤ → Type 0
IsFee serialize_size fee_per_kb total amount tx fee =
    let base = pos (tx_fee fee_per_kb ((serialize_size tx + tx_output_size) % 2 ^ 32)) in
    (fee ≡ base) ⊎ (fee ≡ round_fee total amount base)

module _ (P : Utxo → Type 0) where
  -- A transaction under way: it spends `spent`, of which `balance` is the value.
  pub record IsSpending (outs : List WireOut) (balance : ℤ) (tx : MsgTx) (spent : List Utxo)
      : Type 0 where
    pub ins : tx.tx_in ≡ map point_of spent
    pub unchanged : tx.tx_out ≡ outs
    pub value : balance ≡ spent_value (pos 0) spent
    pub allowed : All P spent

  abbrev pub Spends : List WireOut → ℤ → MsgTx → Type 0
  Spends outs balance tx = (spent : List Utxo) × IsSpending outs balance tx spent

  -- One more input.
  add_tx_in-Spends :
      (outs : List WireOut) (balance : ℤ) (tx : MsgTx) (o : Utxo)
      → P o
      → Spends outs balance tx
      → Spends outs (add64 balance o.value) (add_tx_in o tx)
  unfolding add_tx_in
  add_tx_in-Spends outs balance tx o h (spent, s) = (
    spent ++ o ∷ [],
    record {
      ins = ap (λ l. l ++ point_of o ∷ []) s.ins ∙ sym (map_points-append spent o);
      unchanged = s.unchanged;
      value = ap (λ b. add64 b o.value) s.value ∙ sym (spent_value-append (pos 0) spent o);
      allowed = All-append P spent (o ∷ []) s.allowed (h, record {});
    },
  )

  abbrev pub Chooses : List WireOut → Choice → Type 0
  Chooses outs c = All P c.kept × Spends outs c.balance c.tx

  keep-Chooses :
      (outs : List WireOut) (sender : Bytes) (use_tiny : Bool) (o : Utxo) (c : Choice)
      → P o
      → Chooses outs c
      → Chooses outs (keep sender use_tiny o c)
  unfolding keep
  keep-Chooses outs sender use_tiny o c h (kept, s) =
      elim (Bool-cases (
        (length sender == 0 && (leb_ℤ o.value (pos 546) && use_tiny)) || ltb_ℤ (pos 546) o.value)) [
          | inl e ↦ rw e (All-append P c.kept (o ∷ []) kept (h, record {}), s)
          | inr e ↦ rw e (kept, s)
        ]

  take_sender-Chooses :
      (outs : List WireOut) (sender : Bytes) (o : Utxo) (c : Choice)
      → P o
      → Chooses outs c
      → Chooses outs (take_sender sender o c)
  unfolding take_sender
  take_sender-Chooses outs sender o c h (kept, s) =
      elim (Bool-cases (not c.has_input && bytes_eq o.address sender)) [
        | inl e ↦ rw e (kept, add_tx_in-Spends outs c.balance c.tx o h s)
        | inr e ↦ rw e (kept, s)
      ]

  pub choose-Chooses :
      (outs : List WireOut) (sender : Bytes) (use_tiny : Bool) (utxos : List Utxo) (c : Choice)
      → All P utxos
      → Chooses outs c
      → Chooses outs (choose sender use_tiny utxos c)
  unfolding choose
  choose-Chooses outs sender use_tiny [] c h s = s
  choose-Chooses outs sender use_tiny (o ∷ utxos) c (h, hs) s =
      choose-Chooses outs sender use_tiny utxos _ hs
        (take_sender-Chooses outs sender o _ h (keep-Chooses outs sender use_tiny o c h s))

  pub candidates-All :
      (sender : Bytes) (utxos kept : List Utxo)
      → All P utxos
      → All P kept
      → All P (candidates sender utxos kept)
  unfolding candidates
  candidates-All sender utxos kept h k = elim (Bool-cases (length sender == 0)) [
    | inl e ↦ rw e (All-append P kept _ k (All-drop P (length kept) utxos h))
    | inr e ↦ rw e k
  ]

  module _ (serialize_size : MsgTx → ℕ) (fee_per_kb : ℕ) (total amount : ℤ) (used : Utxo)
      (outs : List WireOut) where
    abbrev IsFeeOf : MsgTx → ℤ → Type 0
    IsFeeOf = IsFee serialize_size fee_per_kb total amount

    -- What the second loop leaves, unless it gives up.
    abbrev pub Leaves : Spend → Type 0
    Leaves s = (tx : MsgTx) → s.tx ≡ some tx → Spends outs s.balance tx × IsFeeOf tx s.fee_amount

    stop-Leaves :
        (tx : MsgTx) (balance fee : ℤ)
        → Spends outs balance tx
        → IsFeeOf tx fee
        → Leaves (record { tx = some tx; balance = balance; fee_amount = fee })
    stop-Leaves tx balance fee s f tx' e =
        let same : tx ≡ tx' = ground arith in rw (sym same) (s, f)

    pub add_inputs-Leaves :
        (utxos : List Utxo) (tx : MsgTx) (balance fee : ℤ)
        → All P utxos
        → Spends outs balance tx
        → IsFeeOf tx fee
        → Leaves (add_inputs serialize_size fee_per_kb total amount used utxos tx balance fee)
    unfolding add_inputs
    add_inputs-Leaves [] tx balance fee h s f = stop-Leaves tx balance fee s f
    add_inputs-Leaves (o ∷ utxos) tx balance fee (h, hs) s f =
        let tx' = add_tx_in o tx in
        let size = serialize_size tx' + tx_output_size in
        let balance' = add64 balance o.value in
        let fee' = round_fee total amount (pos (tx_fee fee_per_kb (size % 2 ^ 32))) in
        let s' = add_tx_in-Spends outs balance tx o h s in
        elim (Bool-cases (utxo_eq o used)) [
          | inl e ↦ rw e (add_inputs-Leaves utxos tx balance fee hs s f)
          | inr e ↦ elim (Bool-cases (ltb tx_max_size size)) [
            | inl large ↦ rw (e, large) (λ tx none. absurd (ground arith))
            | inr fits ↦
                elim (Bool-cases (
                  eqb_ℤ balance' (add64 amount fee')
                  || leb_ℤ (add64 (add64 amount fee') (pos (min_output_amount fee_per_kb)))
                      balance')) [
                        | inl enough ↦
                            rw (e, fits, enough) (stop-Leaves tx' balance' fee' s' (inr refl))
                        | inr short ↦
                            rw (e, fits, short)
                              (add_inputs-Leaves utxos tx' balance' fee' hs s' (inr refl))
                      ]
          ]
        ]
