-- ===== src/Chain/Amounts.antt =====
-- The amounts in the messages of a transaction.
use dashcash_wallet.Prelude.{
  ℕ, ◌+◌, ◌≡◌, refl, sym, ap, Option, ◌∙◌, ◌&&◌, none, some, Option-cases, List, [], ◌∷◌, map,
  arith, All, length, ltb, ◌==◌, if◌then◌else◌, Bool-cases, inl, inr,
}
use dashcash_wallet.Prelude.Int.{ℤ, pos, eqb_ℤ}
use dashcash_wallet.Text.{Bytes, bytes_eq}
use dashcash_wallet.Notify.{NotifyMessage, TxType}
use dashcash_wallet.Utxos.{Badger}
use dashcash_wallet.Chain.{
  ChainOut, Inputs, Outputs, Outside, address_of, coin_messages, find_receiver, message_to,
  note_output, take_output, take_outputs, value_of,
}

value_of-cons :
    (key addr : Bytes) (value : ℤ) (rest : List (Bytes × ℤ))
    → value_of ((key, value) ∷ rest) addr
      ≡ (if bytes_eq key addr then value else value_of rest addr)
unfolding value_of
value_of-cons key addr value rest = refl

not_some : {A B : Type 0} {a : A} → none ≡ some a → B
not_some e = ground arith

output_value_of :
    {D : Type 0} {st last : Outputs D}
    → some st ≡ some last
    → (addr : Bytes) → value_of st.output_value addr ≡ value_of last.output_value addr
output_value_of {D} {st} e addr =
    ap (λ o. value_of (elim o as (λ _. Outputs D) [ none ↦ st | some x ↦ x ]).output_value addr) e

module _ {D : Type 0} (badger : Badger D) (outside : Outside) where
  -- The address that is shown for a script, if there is one.
  abbrev pub shown_address : Bytes → Option Bytes
  shown_address script = elim (address_of badger outside script) [
    | none ↦ none
    | some found ↦ found
  ]

  -- The value of the first output, in the order of the transaction, that pays an address.
  unfoldable pub first_value : List ChainOut → ℤ → Bytes → ℤ
  first_value [] other addr = other
  first_value (out ∷ outs) other addr =
      let rest = first_value outs other addr in
      if eqb_ℤ out.value (pos 0) && outside.is_null_data out.pk_script
      then rest
      else elim (shown_address out.pk_script) [
        | none ↦ rest
        | some a ↦ if bytes_eq a addr then out.value else rest
      ]

  find_receiver-output_value :
      (sender a : Bytes) (st : Outputs D)
      → (find_receiver badger outside sender a st).output_value ≡ st.output_value
  unfolding find_receiver
  find_receiver-output_value sender a st = ground arith

  note_output-output_value :
      (hash sender : Bytes) (i : ℕ) (out : ChainOut) (a : Bytes) (st : Outputs D)
      → (note_output badger outside hash sender i out a st).output_value
        ≡ (a, out.value) ∷ st.output_value
  unfolding note_output
  note_output-output_value hash sender i out a st =
      find_receiver-output_value sender a _ ∙ ground arith

  take_output-first_value :
      (hash sender : Bytes) (i : ℕ) (out : ChainOut) (outs : List ChainOut) (st next : Outputs D)
      (addr : Bytes) (other : ℤ)
      → value_of st.output_value addr ≡ first_value outs other addr
      → take_output badger outside hash sender i out st ≡ some next
      → value_of next.output_value addr ≡ first_value (out ∷ outs) other addr
  unfolding take_output first_value
  take_output-first_value hash sender i out outs st next addr other rest e =
      elim (Bool-cases (eqb_ℤ out.value (pos 0) && outside.is_null_data out.pk_script)) [
        | inl nulled ↦ rw nulled (sym (output_value_of (rw (take_output, nulled) at e) addr) ∙ rest)
        | inr paying ↦ elim (Option-cases (address_of badger outside out.pk_script)) [
          | inl panics ↦ not_some (rw (take_output, paying, panics) at e)
          | inr (none, hidden) ↦
              rw (paying, hidden)
                (sym (output_value_of (rw (take_output, paying, hidden) at e) addr) ∙ rest)
          | inr (some a, shown) ↦
              rw (paying, shown)
                (sym (output_value_of (rw (take_output, paying, shown) at e) addr)
                  ∙ ap (λ vs. value_of vs addr) (note_output-output_value hash sender i out a _)
                  ∙ value_of-cons a addr out.value _
                  ∙ ap (λ r. if bytes_eq a addr then out.value else r) rest)
        ]
      ]

  take_outputs-first_value :
      (hash sender : Bytes) (i : ℕ) (outs : List ChainOut) (st last : Outputs D) (addr : Bytes)
      → take_outputs badger outside hash sender i outs st ≡ some last
      → value_of last.output_value addr ≡ first_value outs (value_of st.output_value addr) addr
  unfolding take_outputs first_value
  take_outputs-first_value hash sender i [] st last addr e = sym (output_value_of e addr)
  take_outputs-first_value hash sender i (out ∷ outs) st last addr e =
      elim (Option-cases (take_outputs badger outside hash sender (i + 1) outs st)) [
        | inl panics ↦ not_some (rw (take_outputs, panics) at e)
        | inr (next, reached) ↦
            take_output-first_value hash sender i out outs next last addr
              (value_of st.output_value addr)
              (take_outputs-first_value hash sender (i + 1) outs st next addr reached)
              (rw (take_outputs, reached) at e)
      ]

  messages-All :
      (values : List (Bytes × ℤ)) (type_of : Bytes → TxType) (message : NotifyMessage)
      (f : Bytes → ℤ) (addrs : List Bytes)
      → ((a : Bytes) → value_of values a ≡ f a)
      → All
          (λ m. m.amount ≡ f m.address)
          (map (message_to badger outside values type_of message) addrs)
  messages-All values type_of message f [] h = record {}
  messages-All values type_of message f (a ∷ addrs) h =
      (h a, messages-All values type_of message f addrs h)

-- Where the loop over the outputs does not panic, every message of a coin transaction, whatever its
-- inputs, carries as amount the value of the
-- first output that pays its address, also where several outputs pay it.
pub coin_messages-first_value :
    {D : Type 0} (badger : Badger D) (outside : Outside) (hash sender : Bytes) (i : Inputs D)
    (outs : List ChainOut) (st o : Outputs D) (message : NotifyMessage)
    → st.output_value ≡ []
    → take_outputs badger outside hash sender 0 outs st ≡ some o
    → All
        (λ m. m.amount ≡ first_value badger outside outs (pos 0) m.address)
        (coin_messages badger outside i o message)
unfolding coin_messages
coin_messages-first_value badger outside hash sender i outs st o message empty reached =
    let amounts : (a : Bytes)
        → value_of o.output_value a ≡ first_value badger outside outs (pos 0) a =
      λ a.
        take_outputs-first_value badger outside hash sender 0 outs st o a reached
        ∙ ap (λ vs. first_value badger outside outs (value_of vs a) a) empty
        ∙ (unfold value_of in refl) in
    elim (Bool-cases (length i.input_addrs == 0 && ltb 0 (length o.output_addrs))) [
      | inl deposit ↦
          rw deposit (messages-All badger outside o.output_value _ message _ o.output_addrs amounts)
      | inr other ↦
          elim (Bool-cases (
            ltb 0 (length i.input_addrs)
            && (length i.input_addrs2 == 0 && ltb 0 (length o.output_addrs2)))) [
              | inl withdraw ↦
                  rw (other, withdraw)
                    (messages-All badger outside o.output_value _ message _ o.output_addrs2 amounts)
              | inr unpaid ↦
                  elim (Bool-cases (length i.input_addrs2 == 0 && length o.output_addrs2 == 0)) [
                    | inl inner ↦
                        rw (other, unpaid, inner)
                          (messages-All badger outside o.output_value _ message _ o.output_addrs
                            amounts)
                    | inr mixed ↦ rw (other, unpaid, mixed) (record {})
                  ]
            ]
    ]
