-- ===== src/Chain/Mempool.antt =====
-- When `ParseMempoolTransaction` panics.
use dashcash_wallet.Prelude.{
  not, Bool, true, false, ◌||◌, Option, none, some, List, [], ◌∷◌, ◌==◌, if◌then◌else◌,
}
use dashcash_wallet.Text.{Bytes}
use dashcash_wallet.Utxos.{Badger}
use dashcash_wallet.Chain.{ChainIn, ChainOut, Outside}

module _ (outside : Outside) where
  -- An address of a script that the wallet has a form for.
  abbrev pub has_form : Option Bytes → Bool
  has_form none = false
  has_form (some addr) = true

  -- The input spends an output that the node knows and whose script is read, and the script has no
  -- address, or its first address has no form.
  unfoldable pub is_bare : ChainIn → Bool
  is_bare txin =
      if txin.prev_index == 4294967295
      then false
      else elim (outside.previous_output txin.prev_hash txin.prev_index) [
        | none ↦ false
        | some out ↦ elim (outside.extract_addresses out.pk_script) [
          | none ↦ false
          | some addrs ↦ elim addrs [
            | [] ↦ true
            | ◌∷◌ a _ ↦ not (has_form (outside.show_address a))
          ]
        ]
      ]

  unfoldable pub has_bare : List ChainIn → Bool
  has_bare [] = false
  has_bare (txin ∷ txins) = is_bare txin || has_bare txins

  -- The output has an address, the first of its script, which has no form.
  unfoldable pub is_formless : ChainOut → Bool
  is_formless out =
      if outside.is_null_data out.pk_script
      then false
      else elim (outside.extract_addresses out.pk_script) [
        | none ↦ false
        | some addrs ↦ elim addrs [ [] ↦ false | ◌∷◌ a _ ↦ not (has_form (outside.show_address a)) ]
      ]

  unfoldable pub has_formless : List ChainOut → Bool
  has_formless [] = false
  has_formless (out ∷ outs) = is_formless out || has_formless outs

  module _ {D : Type 0} (badger : Badger D) where
    is_none : Option D → Bool
    is_none none = true
    is_none (some db) = false
