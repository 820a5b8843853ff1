-- ===== src/Handlers/Outputs.antt =====
-- The outputs of the transactions that the handlers make, and what the hardware wallet of a token
-- transfer gets.
use dashcash_wallet.Prelude.{
  ◌≡◌, refl, ap, Bool, true, false, Option, none, some, Option-cases, ◌⊎◌, inl, inr, List, [], ◌∷◌,
  ◌++◌, map, arith, All, if◌then◌else◌,
}
use dashcash_wallet.Prelude.Int.{ℤ, pos, word64}
use dashcash_wallet.Text.{Bytes}
use dashcash_wallet.Utxos.{TxOut, Utxo, get_all_utxo, get_all_utxo_by_branch}
use dashcash_wallet.Params.{ChainParams}
use dashcash_wallet.Payment.{MsgTx, WireOut, create_tx_for_outputs, created, panicked, wire_out}
use dashcash_wallet.Payment.Value.{IsChangeScript, create_from-IsPaid}
use dashcash_wallet.Addresses.{
  Addrs, convert_cash_addr_to_legacy, get_new_change_addr, load_addr_path, on_bch, or_empty,
}
use dashcash_wallet.Omni.{get_omni_usdt_script}
use dashcash_wallet.Handlers.{Services, Wallet, aborted, create_tx}
use dashcash_wallet.Handlers.Tokens.{omni_outputs}
use dashcash_wallet.Handlers.Prepare.{prepare_swapped, prepare_tokens, swap_outputs}

-- The outputs asked for, and behind them the change, if there is one; `locks` is said of its script.
abbrev pub IsPaidOut : (Bytes → Type 0) → List WireOut → List WireOut → Bool → Type 0
IsPaidOut locks outs tx_out change =
    ((change ≡ false) × (tx_out ≡ outs))
    ⊎ ((change ≡ true) × (rest : WireOut) × locks rest.pk_script × (tx_out ≡ outs ++ rest ∷ []))

abbrev IsAny : Utxo → Type 0
IsAny u = Unit

All-IsAny : (us : List Utxo) → All IsAny us
All-IsAny [] = tt
All-IsAny (u ∷ us) = (tt, All-IsAny us)

panicked_ne : {tx : MsgTx} {change : Bool} {A : Type 0} → panicked ≡ created tx change → A
panicked_ne e = ground arith

module _ {D : Type 0} (services : Services D) (param : ChainParams) where
  -- The script of the change: that of the change address, or without one that of the address of the
  -- output that the first input spends.
  abbrev pub IsChange : Wallet D → Bytes → MsgTx → Bytes → Type 0
  IsChange w change_address tx =
      IsChangeScript services.keys.decode_address services.signer.add_data services.badger w.db
        (λ address.
          if on_bch param.name
          then or_empty (convert_cash_addr_to_legacy services.keys param address)
          else address)
        change_address tx.tx_in

  pub create_tx-IsPaidOut :
      (w : Wallet D) (sender : Bytes) (outputs : List TxOut) (change_address : Bytes)
      (use_inner use_tiny : Bool) (tx : MsgTx) (change : Bool)
      → create_tx services param w sender outputs change_address use_inner use_tiny
        ≡ created tx change
      → IsPaidOut
          (IsChange w change_address tx)
          (map (wire_out services.keys.decode_address services.signer.add_data) outputs)
          tx.tx_out
          change
  unfolding create_tx create_tx_for_outputs
  create_tx-IsPaidOut w sender outputs change_address use_inner use_tiny tx change e =
      let spendable : Option (List Utxo) =
        if use_inner
        then get_all_utxo_by_branch services.badger (load_addr_path w.addrs) w.db 1 use_tiny
        else get_all_utxo services.badger w.db [] use_tiny in
      elim (Option-cases spendable) [
        | inl f ↦ panicked_ne (rw (create_tx_for_outputs, f) at e)
        | inr (utxos, f) ↦
            let (spent, fee, total, before, ins, any, same_ins, same_outs, is_fee, paid) =
              create_from-IsPaid services.keys.decode_address services.signer.add_data
                services.badger w.db _ (load_addr_path w.addrs) services.serialize_size IsAny
                w.config.fee_rate sender outputs change_address use_tiny utxos tx change
                (All-IsAny utxos) (rw (create_tx_for_outputs, f) at e) in
            elim (paid.rest) [
              | inl (without, small, outs) ↦ inl (without, outs)
              | inr (with_change, large, (script, locked, outs)) ↦
                  inr (with_change, _, locked, outs)
            ]
      ]

-- A transaction for a hardware wallet that moves tokens needs a change: without one, the handler
-- panics when it puts the outputs in their order.
pub prepare_tokens-aborted :
    {D : Type 0} (services : Services D) (param : ChainParams) (w : Wallet D) (from to : Bytes)
    (amount : ℤ) (addr : Bytes) (addrs : Addrs) (tx : MsgTx)
    → get_new_change_addr services.keys param w.config.xpub w.config.in_index w.addrs
      ≡ some (addr, addrs)
    → create_tx services param
        (record w { addrs = addrs })
        from
        (omni_outputs services.outside.add_data to amount)
        addr
        false
        true
      ≡ created tx false
    → prepare_tokens services param w from to amount ≡ aborted []
unfolding prepare_tokens prepare_swapped omni_outputs swap_outputs
prepare_tokens-aborted services param w from to amount addr addrs tx new made =
    elim (create_tx-IsPaidOut services param (record w { addrs = addrs }) from
      (omni_outputs services.outside.add_data to amount) addr false true tx false made) [
        | inr (with_change, rest, locked, outs) ↦ ground arith
        | inl (without, outs) ↦
            let short : swap_outputs tx.tx_out ≡ none = ap swap_outputs outs in
            rw (prepare_tokens, new, made, prepare_swapped, short) refl
      ]

-- The output with the script of the tokens, and the one to the receiver.
abbrev pub script_output : {D : Type 0} → Services D → ℤ → WireOut
script_output services amount =
    wire_out services.keys.decode_address services.signer.add_data (record {
      address = [];
      amount = pos 0;
      script = get_omni_usdt_script services.outside.add_data (word64 amount);
    })

abbrev pub receiver_output : {D : Type 0} → Services D → Bytes → WireOut
receiver_output services to =
    wire_out services.keys.decode_address services.signer.add_data
      (record { address = to; amount = pos 546; script = [] })
