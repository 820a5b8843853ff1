-- ===== src/Payment/Value.antt =====
-- The value of a transaction of `CreateTxForOutputs`: what it spends is what it pays, the fee and the
-- change.
use mathlib.Core.Path.{subst}
use dashcash_wallet.Prelude.{
  ℕ, ◌+◌, ◌%◌, ◌^◌, ◌≡◌, refl, sym, ap, ◌∙◌, Bool, true, false, ◌||◌, Option, some, Option-cases,
  List, [], ◌∷◌, ◌++◌, map, arith, All, length, ◌==◌, Bool-cases, inl, inr, ◌⊎◌,
}
use dashcash_wallet.Prelude.Int.{ℤ, pos, leb_ℤ, ltb_ℤ}
use dashcash_wallet.Text.{Bytes}
use dashcash_wallet.Fees.{min_output_amount, tx_fee, tx_output_size}
use dashcash_wallet.Utxos.{Badger, Fetched, TxOut, Utxo, error, fetched, get_utxo_by_key, panic}
use dashcash_wallet.Payment.{
  Address, MsgTx, Spend, WireOut, add64, add_change, add_inputs, build_raw_msg_tx, candidates,
  OutPoint, change_output, choose, create_from, created, finish, get_script_from_address, panicked,
  refused, start_choice, sub64, total_amount, wire_out,
}
use dashcash_wallet.Payment.Spending.{
  IsFee, IsSpending, add_inputs-Leaves, candidates-All, choose-Chooses, point_of, spent_value,
}

-- The transaction pays `outs`, and a change if there is one to pay, out of the outputs `spent`,
-- which are worth `balance`; `due` is the amount with the fee, `least` the least change, and `locks`
-- says which scripts the change may have.
pub record IsPaid (locks : Bytes → Type 0) (outs : List WireOut) (balance due least : ℤ)
    (tx : MsgTx) (change : Bool) : Type 0 where
  pub covered : ltb_ℤ balance due ≡ false
  pub rest :
      ((change ≡ false) × (leb_ℤ least (sub64 balance due) ≡ false) × (tx.tx_out ≡ outs))
      ⊎ ((change ≡ true)
          × (leb_ℤ least (sub64 balance due) ≡ true)
          × ((script : Bytes) × locks script
              × (tx.tx_out
                  ≡ outs ++ record { value = sub64 balance due; pk_script = script } ∷ [])))

created_injective : {a b : MsgTx} {c d : Bool} → created a c ≡ created b d → (a ≡ b) × (c ≡ d)
created_injective {a} {b} {c} {d} e = (
  ap (λ x. elim x [ refused ↦ a | panicked ↦ a | created t _ ↦ t ]) e,
  ap (λ x. elim x [ refused ↦ c | panicked ↦ c | created _ f ↦ f ]) e,
)

not_refused : {a : MsgTx} {c : Bool} {A : Type 0} → refused ≡ created a c → A
not_refused e = ground arith

not_panicked : {a : MsgTx} {c : Bool} {A : Type 0} → panicked ≡ created a c → A
not_panicked e = ground arith

pub Fetched-cases :
    (f : Fetched) → ((out : TxOut) × (f ≡ fetched out)) ⊎ ((f ≡ error) ⊎ (f ≡ panic))
Fetched-cases (fetched out) = inl (out, refl)
Fetched-cases error = inr (inl refl)
Fetched-cases panic = inr (inr refl)

List-cases : {A : Type 0} (xs : List A) → (xs ≡ []) ⊎ ((x : A) × ((ys : List A) × (xs ≡ x ∷ ys)))
List-cases [] = inl refl
List-cases (x ∷ ys) = inr (x, (ys, refl))

module _ (decode_address : Bytes → Address) (add_data : Bytes → Bytes) where
  -- A transaction with change differs from the one before in this output alone.
  abbrev AddsChange : (Bytes → Type 0) → ℤ → MsgTx → MsgTx → Bool → Type 0
  AddsChange locks value tx tx' change =
      (change ≡ true)
      × (tx'.tx_in ≡ tx.tx_in)
      × ((script : Bytes) × locks script
          × (tx'.tx_out ≡ tx.tx_out ++ record { value = value; pk_script = script } ∷ []))

  add_change-created :
      (address : Bytes) (value : ℤ) (tx tx' : MsgTx) (change : Bool)
      → add_change decode_address add_data address value tx ≡ created tx' change
      → AddsChange
          (λ s. s ≡ get_script_from_address decode_address add_data address)
          value
          tx
          tx'
          change
  unfolding add_change
  add_change-created address value tx tx' change e =
      let (same, flag) = created_injective e in
      (
        sym flag,
        sym (ap (λ t. t.tx_in) same),
        (
          get_script_from_address decode_address add_data address,
          refl,
          sym (ap (λ t. t.tx_out) same),
        ),
      )

  module _ {D : Type 0} (badger : Badger D) (db : D) (to_legacy : Bytes → Bytes) where
    -- The change goes to the address that was given, or else to that of the output that the first
    -- input spends, in its legacy form.
    abbrev pub IsChangeScript : Bytes → List OutPoint → Bytes → Type 0
    IsChangeScript address points script =
        (((length address == 0) ≡ false)
          × (script ≡ get_script_from_address decode_address add_data address))
        ⊎ (((length address == 0) ≡ true)
            × ((point : OutPoint) × (rest : List OutPoint) × (out : TxOut) × (points ≡ point ∷ rest)
                × (get_utxo_by_key badger db point.hash point.index ≡ fetched out)
                × (script
                    ≡ get_script_from_address decode_address add_data (to_legacy out.address))))

    with_locks :
        {P Q : Bytes → Type 0} (value : ℤ) (tx tx' : MsgTx) (change : Bool)
        → ((s : Bytes) → P s → Q s)
        → AddsChange P value tx tx' change
        → AddsChange Q value tx tx' change
    with_locks value tx tx' change f (flag, ins, (script, h, outs)) =
        (flag, ins, (script, f script h, outs))

    change_output-created :
        (address : Bytes) (value : ℤ) (tx tx' : MsgTx) (change : Bool)
        → change_output decode_address add_data badger db to_legacy address value tx
          ≡ created tx' change
        → AddsChange (IsChangeScript address tx.tx_in) value tx tx' change
    unfolding change_output
    change_output-created address value tx tx' change e = elim (Bool-cases (length address == 0)) [
      | inr given ↦
          with_locks value tx tx' change (λ s h. inl (given, h))
            (add_change-created address value tx tx' change (sym (rw (change_output, given)) ∙ e))
      | inl empty ↦ elim (List-cases (tx.tx_in)) [
        | inl alone ↦ not_panicked (sym (rw (change_output, empty, alone)) ∙ e)
        | inr (point, (points, at)) ↦
            elim (Fetched-cases (get_utxo_by_key badger db point.hash point.index)) [
              | inl (out, got) ↦
                  with_locks value tx tx' change
                    (λ s h. inr (empty, (point, points, out, at, got, h)))
                    (add_change-created (to_legacy out.address) value tx tx' change (
                      sym (
                        rw (change_output, empty, at, got)
                          (ap
                            (λ i.
                              add_change decode_address add_data (to_legacy out.address) value
                                (record tx { tx_in = i }))
                            at))
                      ∙ e))
              | inr (inl got) ↦ not_refused (sym (rw (change_output, empty, at, got)) ∙ e)
              | inr (inr got) ↦ not_panicked (sym (rw (change_output, empty, at, got)) ∙ e)
            ]
      ]
    ]

    finish-IsPaid :
        (fee_per_kb : ℕ) (outputs : List TxOut) (amount : ℤ) (address : Bytes) (s : Spend)
        (tx : MsgTx) (change : Bool)
        → finish decode_address add_data badger db to_legacy fee_per_kb outputs amount address s
          ≡ created tx change
        → (before : MsgTx) × (s.tx ≡ some before)
          × (tx.tx_in ≡ before.tx_in)
          × IsPaid
              (IsChangeScript address tx.tx_in)
              before.tx_out
              s.balance
              (add64 amount s.fee_amount)
              (pos (min_output_amount fee_per_kb))
              tx
              change
    unfolding finish
    finish-IsPaid fee_per_kb outputs amount address s tx change e =
        let due = add64 amount s.fee_amount in
        let least = pos (min_output_amount fee_per_kb) in
        elim (Option-cases (s.tx)) [
          | inl large ↦ not_refused (sym (rw (finish, large)) ∙ e)
          | inr (before, at) ↦ elim (Bool-cases (length outputs == 0 || ltb_ℤ s.balance due)) [
            | inl short ↦ not_refused (sym (rw (finish, at, short)) ∙ e)
            | inr enough ↦ elim (Bool-cases (leb_ℤ least (sub64 s.balance due))) [
              | inl more ↦
                  let (flag, ins, (script, locked, outs)) =
                    change_output-created address (sub64 s.balance due) before tx change
                      (sym (rw (finish, at, enough, more)) ∙ e) in
                  (
                    before,
                    at,
                    ins,
                    record {
                      covered = covers (length outputs == 0) _ enough;
                      rest = inr (
                        flag,
                        more,
                        (
                          script,
                          subst (λ p. IsChangeScript address p script) (sym ins) locked,
                          outs,
                        ),
                      );
                    },
                  )
              | inr even ↦
                  let (same, flag) = created_injective (sym (rw (finish, at, enough, even)) ∙ e) in
                  (
                    before,
                    at,
                    sym (ap (λ t. t.tx_in) same),
                    record {
                      covered = covers (length outputs == 0) _ enough;
                      rest = inl (sym flag, even, sym (ap (λ t. t.tx_out) same));
                    },
                  )
            ]
          ]
        ]
      where
        covers : (a b : Bool) → (a || b) ≡ false → b ≡ false
        covers a b e = ground arith

-- A transaction that `CreateTxForOutputs` makes spends outputs of its list and no others, in the
-- order of its inputs. The fee is `txFee` of the size of the transaction, without change, and one
-- output more, or that fee rounded for some total of the wallet. With the value spent as balance, all in
-- int64: the balance is not below the amount and the fee; either what is left is less than the
-- least output, and the transaction has the requested outputs alone, or there is one more output
-- of exactly what is left, to the change address or, without one, to the address of the output
-- that the first input spends.
pub create_from-IsPaid :
    {D : Type 0} (decode_address : Bytes → Address) (add_data : Bytes → Bytes) (badger : Badger D)
    (db : D) (to_legacy : Bytes → Bytes) (load_addr_path : Bytes → Option Bytes)
    (serialize_size : MsgTx → ℕ) (P : Utxo → Type 0) (fee_per_kb : ℕ) (sender : Bytes)
    (outputs : List TxOut) (change_address : Bytes) (use_tiny : Bool) (utxos : List Utxo)
    (tx : MsgTx) (change : Bool)
    → All P utxos
    → create_from decode_address add_data badger db to_legacy load_addr_path serialize_size
        fee_per_kb sender outputs change_address use_tiny utxos
      ≡ created tx change
    → (spent : List Utxo) × (fee : ℤ) × (total : ℤ) × (before : MsgTx) × (tx.tx_in
        ≡ map point_of spent)
      × All P spent
      × (before.tx_in ≡ tx.tx_in)
      × (before.tx_out ≡ map (wire_out decode_address add_data) outputs)
      × IsFee serialize_size fee_per_kb total (total_amount (pos 0) outputs) before fee
      × IsPaid
          (IsChangeScript decode_address add_data badger db to_legacy change_address tx.tx_in)
          (map (wire_out decode_address add_data) outputs)
          (spent_value (pos 0) spent)
          (add64 (total_amount (pos 0) outputs) fee)
          (pos (min_output_amount fee_per_kb))
          tx
          change
unfolding create_from build_raw_msg_tx start_choice
create_from-IsPaid decode_address add_data badger db to_legacy load_addr_path serialize_size P
      fee_per_kb sender outputs change_address use_tiny utxos tx change h e =
    let outs = map (wire_out decode_address add_data) outputs in
    let amount = total_amount (pos 0) outputs in
    let c =
      choose sender use_tiny utxos
        (start_choice (build_raw_msg_tx decode_address add_data outputs)) in
    let (kept, spends) =
      choose-Chooses P outs sender use_tiny utxos
        (start_choice (build_raw_msg_tx decode_address add_data outputs)) h
        (
          record {},
          (
            [],
            record {
              ins = refl;
              unchanged = refl;
              value = unfold spent_value in refl;
              allowed = record {};
            },
          ),
        ) in
    let size = (serialize_size c.tx % 2 ^ 32 + tx_output_size) % 2 ^ 32 in
    let s =
      add_inputs serialize_size fee_per_kb c.total_balance amount c.used_utxo
        (candidates sender utxos c.kept) c.tx c.balance (pos (tx_fee fee_per_kb size)) in
    let leaves =
      add_inputs-Leaves P serialize_size fee_per_kb c.total_balance amount c.used_utxo outs
        (candidates sender utxos c.kept) c.tx c.balance (pos (tx_fee fee_per_kb size))
        (candidates-All P sender utxos c.kept h kept) spends
        (inl (ap (λ n. pos (tx_fee fee_per_kb n)) (size_eq (serialize_size c.tx)))) in
    elim (Bool-cases (length utxos == 0)) [
      | inl empty ↦ not_refused (sym (rw (create_from, empty)) ∙ e)
      | inr some_utxos ↦
          let (before, at, ins, paid) =
            finish-IsPaid decode_address add_data badger db to_legacy fee_per_kb outputs amount
              change_address s tx change (sym (rw (create_from, some_utxos)) ∙ e) in
          let ((spent, w), fee) = leaves before at in
          (
            spent,
            s.fee_amount,
            c.total_balance,
            before,
            ins ∙ w.ins,
            w.allowed,
            sym ins,
            w.unchanged,
            fee,
            paid_out w paid,
          )
    ]
  where
    size_eq : (n : ℕ) → (n % 2 ^ 32 + tx_output_size) % 2 ^ 32 ≡ (n + tx_output_size) % 2 ^ 32
    size_eq n = omega arith

    paid_out :
        {P : Utxo → Type 0} {locks : Bytes → Type 0} {outs : List WireOut} {balance due least : ℤ}
        {before tx : MsgTx} {change : Bool} {spent : List Utxo}
        → IsSpending P outs balance before spent
        → IsPaid locks before.tx_out balance due least tx change
        → IsPaid locks outs (spent_value (pos 0) spent) due least tx change
    paid_out w paid = rw (sym w.value, sym w.unchanged) paid
