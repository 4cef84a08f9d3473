-- ===== src/Chain/Truncate.antt =====
-- block.go: TruncateToHeight, addGenesisBlock and addBlockInternal.
use blocknet_core.Prelude.{
  ℕ, zero, suc, ◌+◌, ◌-◌, List, [], ◌∷◌, ◌++◌, Bytes, true, false, none, some, ok, err,
  if◌then◌else◌, leb, ◌==◌,
}
use blocknet_core.Prelude.Maps.{insert}
use blocknet_core.Tx.{Transaction, TxInput, is_coinbase}
use blocknet_core.Block.{Block}
use blocknet_core.Block.Difficulty.{lwma_window}
use blocknet_core.Block.Forks.{add_cumulative_work}
use blocknet_core.Block.Validate.{Network}
use blocknet_core.Store.{
  KeyValue, Utxo, is_some, block_hash, txid_of, get_tip, remove_main_chain_block,
}
use blocknet_core.Store.Commit.{commit_block, set_tip, unmark_txs, utxos_of}
use blocknet_core.Chain.{
  Chain, ChainError, set_height, clear_height, push_timestamp, set_images, unset_images, get_block,
  get_block_by_height, cumulative_work_at,
}
use blocknet_core.Chain.Process.{Outcome, forget, validate_for_process}

unfoldable pub image_list : List TxInput → List Bytes
image_list [] = []
image_list (x ∷ xs) = x.key_image ∷ image_list xs

-- The key images that addBlockInternal collects.
unfoldable pub spent_images : List Transaction → List Bytes
spent_images [] = []
spent_images (tx ∷ txs) = (if is_coinbase tx then [] else image_list tx.inputs) ++ spent_images txs

module _ (net : Network) (kv : KeyValue) where
  open net use {crypto}

  unfoldable pub new_outputs : ℕ → List Transaction → List Utxo
  new_outputs height [] = []
  new_outputs height (tx ∷ txs) =
      utxos_of (txid_of crypto tx) height 0 tx.outputs ++ new_outputs height txs

  -- One round of the loop that disconnects from the top.
  unfoldable pub truncate_at : ℕ → Chain kv → Chain kv
  truncate_at h c = elim (get_block_by_height kv c h) [
    | none ↦ record c {
      store = remove_main_chain_block kv h c.store;
      by_height = clear_height h c.by_height;
    }
    | some b ↦ forget net kv (block_hash crypto b) (record c {
      store = remove_main_chain_block kv h (unmark_txs kv crypto b.transactions c.store);
      by_height = clear_height h c.by_height;
      key_images = unset_images b.transactions c.key_images;
    })
  ]

  -- The loop over n heights, from h down.
  unfoldable pub truncate_loop : ℕ → ℕ → Chain kv → Chain kv
  truncate_loop zero h c = c
  truncate_loop (suc n) h c = truncate_loop n (h - 1) (truncate_at h c)

  -- The timestamps of n heights from h on.
  unfoldable pub timestamps_from : ℕ → ℕ → Chain kv → List ℕ
  timestamps_from zero h c = []
  timestamps_from (suc n) h c = elim (get_block_by_height kv c h) [
    | none ↦ timestamps_from n (h + 1) c
    | some b ↦ b.header.timestamp ∷ timestamps_from n (h + 1) c
  ]

  -- What TruncateToHeight does after the loop.
  unfoldable pub settle : ℕ → Chain kv → Outcome kv (Unit {0})
  settle keep c = elim (get_block_by_height kv c keep) [
    | none ↦ (c, err (ChainError.missing_height keep))
    | some b ↦
        let h = block_hash crypto b in
        let works = cumulative_work_at (get_block kv c) h c.work_at in
        elim works.1 [
          | err e ↦ (record c { work_at = works.0 }, err e)
          | ok work ↦ (
            record c {
              store = set_tip kv h keep work c.store;
              work_at = works.0;
              best_hash = h;
              height = keep;
              total_work = work;
              ring_index_dirty = true;
              timestamps = timestamps_from (keep + 1 - (keep - lwma_window)) (keep - lwma_window) c;
            },
            ok tt,
          )
        ]
  ]

  -- TruncateToHeight
  unfoldable pub truncate_to_height : ℕ → Chain kv → Outcome kv (Unit {0})
  truncate_to_height keep c = elim (leb c.height keep) [
    | true ↦ (c, ok tt)
    | false ↦ settle keep (truncate_loop (c.height - keep) c.height c)
  ]

  -- addBlockInternal, which has put the key images in memory before it commits.
  unfoldable pub add_block_internal : Block → Chain kv → Outcome kv (Unit {0})
  add_block_internal b c = elim (b.header.height == 0) [
    | false ↦ (c, err (ChainError.not_genesis b.header.height))
    | true ↦ elim (is_some (get_tip kv c.store).0) [
      | true ↦ (c, err ChainError.genesis_exists)
      | false ↦
          let h = block_hash crypto b in
          elim (add_cumulative_work 0 b.header.difficulty) [
            | none ↦ (c, err ChainError.work_overflow)
            | some work ↦
                let images = set_images b.header.height b.transactions c.key_images in
                elim (commit_block kv crypto
                  (record {
                    block = b;
                    height = b.header.height;
                    hash = h;
                    work = work;
                    is_main_tip = true;
                    new_outputs = new_outputs b.header.height b.transactions;
                    spent_key_images = spent_images b.transactions;
                  })
                  c.store) [
                    | err e ↦ (record c { key_images = images }, err (ChainError.storage e))
                    | ok store ↦ (
                      record c {
                        store = store;
                        blocks = insert h b c.blocks;
                        work_at = insert h work c.work_at;
                        by_height = set_height b.header.height h c.by_height;
                        best_hash = h;
                        height = b.header.height;
                        total_work = work;
                        ring_index_dirty = true;
                        timestamps = push_timestamp b.header.timestamp c.timestamps;
                        key_images = images;
                      },
                      ok tt,
                    )
                  ]
          ]
    ]
  ]

  -- addGenesisBlock
  unfoldable pub add_genesis_block : Block → Chain kv → Outcome kv (Unit {0})
  add_genesis_block b c = elim (b.header.height == 0) [
    | false ↦ (c, err (ChainError.not_genesis b.header.height))
    | true ↦ elim (is_some (get_tip kv c.store).0) [
      | true ↦ (c, err ChainError.genesis_exists)
      | false ↦ elim (validate_for_process net kv c b) [
        | err e ↦ (c, err e)
        | ok done ↦ add_block_internal b c
      ]
    ]
  ]
