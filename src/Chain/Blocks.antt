-- ===== src/Chain/Blocks.antt =====
-- `ReadBlock` and `ParseMempoolTransaction` of chain.go. The node's blocks are a parameter.
use dashcash_wallet.Prelude.{
  ℕ, ◌+◌, ◌||◌, Option, none, some, List, [], ◌∷◌, ◌++◌, drop, length, ◌==◌, if◌then◌else◌,
}
use dashcash_wallet.Text.{Bytes, bytes_eq}
use dashcash_wallet.Notify.{NotifyMessage}
use dashcash_wallet.Utxos.{Badger, create_utxo, remove_utxo}
use dashcash_wallet.Chain.{
  ChainIn, ChainOut, ChainTx, Outside, address_of, is_known, or_same, parse_transaction,
}

module _ {D : Type 0} (badger : Badger D) (outside : Outside) where
  module _ (pack_hash chain_name : Bytes) where
    -- The loop of `ReadBlock` behind the coinbase; `none` is a panic.
    unfoldable pub read_txs : ℕ → List ChainTx → D → Option (List NotifyMessage × D)
    read_txs time [] db = some ([], db)
    read_txs time (tx ∷ txs) db =
        if length pack_hash == 0 || bytes_eq pack_hash tx.hash
        then elim (parse_transaction badger outside chain_name time tx db) [
          | none ↦ none
          | some (messages, db') ↦ elim (read_txs time txs db') [
            | none ↦ none
            | some (rest, last) ↦ some (messages ++ rest, last)
          ]
        ]
        else read_txs time txs db

    -- `ReadBlock`, with the time and the transactions of a height, or `none` where a call fails. The
    -- state is the store, or `none` once the process has ended with a panic.
    unfoldable pub read_block :
        (ℕ → Option (ℕ × List ChainTx)) → ℕ → Option D → Option (List NotifyMessage) × Option D
    read_block get_block height none = (none, none)
    read_block get_block height (some db) = elim (get_block height) [
      | none ↦ (none, some db)
      | some (time, txs) ↦ elim (read_txs time (drop 1 txs) db) [
        | none ↦ (none, none)
        | some (messages, last) ↦ (some messages, some last)
      ]
    ]

  -- An input in `ParseMempoolTransaction`; `none` is a panic, at a script without address and at an
  -- address without the form of the wallet.
  unfoldable pub mempool_input : ChainIn → D → Option D
  mempool_input txin db =
      if txin.prev_index == 4294967295
      then some db
      else elim (outside.previous_output txin.prev_hash txin.prev_index) [
        | none ↦ some db
        | some out ↦ elim (outside.extract_addresses out.pk_script) [
          | none ↦ some db
          | some addrs ↦ elim addrs [
            | [] ↦ none
            | ◌∷◌ a _ ↦ elim (outside.show_address a) [
              | none ↦ none
              | some addr ↦ some (
                  if is_known badger outside addr
                  then or_same db (remove_utxo badger db txin.prev_hash txin.prev_index)
                  else db)
            ]
          ]
        ]
      ]

  unfoldable pub mempool_inputs : List ChainIn → D → Option D
  mempool_inputs [] db = some db
  mempool_inputs (txin ∷ txins) db = elim (mempool_input txin db) [
    | none ↦ none
    | some db' ↦ mempool_inputs txins db'
  ]

  -- An output; `none` is the panic at an address without the form of the wallet.
  unfoldable pub mempool_output : Bytes → ℕ → ChainOut → D → Option D
  mempool_output hash i out db =
      if outside.is_null_data out.pk_script
      then some db
      else elim (address_of badger outside out.pk_script) [
        | none ↦ none
        | some found ↦ elim found [
          | none ↦ some db
          | some addr ↦ some (
              if is_known badger outside addr
              then or_same db (create_utxo badger db hash i addr out.value)
              else db)
        ]
      ]

  unfoldable pub mempool_outputs : Bytes → ℕ → List ChainOut → D → Option D
  mempool_outputs hash i [] db = some db
  mempool_outputs hash i (out ∷ outs) db = elim (mempool_output hash i out db) [
    | none ↦ none
    | some next ↦ mempool_outputs hash (i + 1) outs next
  ]

  unfoldable pub parse_mempool_transaction : ChainTx → D → Option D
  parse_mempool_transaction tx db = elim (mempool_inputs tx.ins db) [
    | none ↦ none
    | some next ↦ mempool_outputs tx.hash 0 tx.outs next
  ]
