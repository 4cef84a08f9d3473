-- ===== src/Store/Commit.antt =====
-- storage.go: CommitBlock and CommitReorg, each one transaction of the database.
use blocknet_core.Prelude.{
  ℕ, ◌+◌, ◌-◌, ◌%◌, List, [], ◌∷◌, Bytes, Bool, ◌&&◌, not, Option, none, some, Result, ok, err,
  ◌>>=◌, ◌>>◌, refuse_if, if◌then◌else◌, ltb, ◌==◌, bytes_eq, length,
}
use blocknet_core.Tx.{Transaction, TxInput, TxOutput, is_coinbase}
use blocknet_core.Tx.Crypto.{Crypto}
use blocknet_core.Block.{Block, ltb_i64}
use blocknet_core.Store.{
  KeyValue, Utxo, Store, StoreError, height_key, is_some, sub_u64, block_hash, txid_of, read_tip,
  write_tip, save_output, mark_spent, unmark_spent, set_main_chain_block, remove_main_chain_block,
}

pub record BlockCommit : Type 0 where
  pub block : Block
  pub height : ℕ
  pub hash : Bytes
  pub work : ℕ
  pub is_main_tip : Bool
  pub new_outputs : List Utxo
  pub spent_key_images : List Bytes

pub record ReorgCommit : Type 0 where
  pub disconnect : List Block
  pub connect : List Block
  pub new_tip : Bytes
  pub new_height : ℕ
  pub new_work : ℕ

-- The outputs of a transaction with their places, from index i on.
unfoldable pub utxos_of : Bytes → ℕ → ℕ → List TxOutput → List Utxo
utxos_of txid height i [] = []
utxos_of txid height i (o ∷ os) =
    record { txid = txid; output_index = i % 4294967296; output = o; block_height = height }
    ∷ utxos_of txid height (i + 1) os

-- The last of the blocks to disconnect.
unfoldable pub lowest : Block → List Block → Block
lowest b [] = b
lowest b (below ∷ bs) = lowest below bs

module _ (kv : KeyValue) where
  open kv use {Bucket, get, put}

  unfoldable pub save_outputs : List Utxo → Store kv → Store kv
  save_outputs [] s = s
  save_outputs (u ∷ us) s = save_outputs us (save_output kv u s)

  unfoldable pub mark_all : ℕ → List Bytes → Store kv → Store kv
  mark_all height [] s = s
  mark_all height (k ∷ ks) s = mark_all height ks (mark_spent kv height k s)

  unfoldable pub set_tip : Bytes → ℕ → ℕ → Store kv → Store kv
  set_tip hash height work s = record s { meta = write_tip kv hash height work s.meta }

  -- The checks of a new tip against the tip that is stored.
  unfoldable pub check_extends : Option (Bytes × ℕ) → BlockCommit → Result StoreError (Unit {0})
  check_extends none commit = refuse_if (not (commit.height == 0)) StoreError.not_genesis
  check_extends (some tip) commit = do
    refuse_if (not (commit.height == (tip.1 + 1) % 18446744073709551616))
        StoreError.tip_height_mismatch
    refuse_if (not (bytes_eq commit.block.header.prev_hash tip.0)) StoreError.tip_hash_mismatch

  module _ (c : Crypto) where
    unfoldable pub put_block : Bytes → Block → Store kv → Store kv
    put_block hash b s = record s { blocks = put hash b s.blocks }

    -- The writes of CommitBlock for a new tip, after its checks.
    unfoldable pub commit_main_tip : BlockCommit → Store kv → Result StoreError (Store kv)
    commit_main_tip commit s = do
      tip ← read_tip kv s.meta
      check_extends tip commit
      ok (
          set_tip commit.hash commit.height commit.work (
            mark_all commit.height commit.spent_key_images (
              save_outputs commit.new_outputs (
                set_main_chain_block kv commit.height commit.hash
                  (put_block commit.hash commit.block s)))))

    -- CommitBlock
    unfoldable pub commit_block : BlockCommit → Store kv → Result StoreError (Store kv)
    commit_block commit s = do
      refuse_if (not (commit.height == commit.block.header.height))
          StoreError.commit_height_mismatch
      refuse_if (not (bytes_eq commit.hash (block_hash c commit.block)))
          StoreError.commit_hash_mismatch
      refuse_if
          (ltb 0 commit.block.header.height
            && not (is_some (get commit.block.header.prev_hash s.blocks)))
          (StoreError.missing_parent commit.block.header.height)
      if commit.is_main_tip
          then commit_main_tip commit s
          else ok (put_block commit.hash commit.block s)

    -- A block to disconnect is the parent of the one before it.
    unfoldable pub check_link : Option Block → Block → ℕ → Result StoreError (Unit {0})
    check_link none b i = ok tt
    check_link (some a) b i =
        refuse_if (not (bytes_eq a.header.prev_hash (block_hash c b)))
          (StoreError.disconnect_linkage i)

    -- The loop over the blocks to disconnect, the highest first; `above` is the one before.
    unfoldable pub check_disconnect :
        Bucket Bytes → ℕ → ℕ → Option Block → List Block → Result StoreError (Unit {0})
    check_disconnect heights current i above [] = ok tt
    check_disconnect heights current i above (b ∷ bs) = do
      refuse_if (not (b.header.height == sub_u64 current i)) (StoreError.disconnect_height i)
      elim (get (height_key (sub_u64 current i)) heights) [
        | none ↦ err (StoreError.disconnect_not_indexed i)
        | some indexed ↦ do
          refuse_if (not (bytes_eq indexed (block_hash c b))) (StoreError.disconnect_hash i)
          check_link above b i
          check_disconnect heights current (i + 1) (some b) bs
      ]

    -- The block that the new branch starts from.
    unfoldable pub base_of : List Block → Bytes → ℕ → Result StoreError (Bytes × ℕ)
    base_of [] tip height = ok (tip, height)
    base_of (b ∷ bs) tip height = do
      refuse_if ((lowest b bs).header.height == 0) StoreError.disconnects_genesis
      ok ((lowest b bs).header.prev_hash, (lowest b bs).header.height - 1)

    -- The loop over the blocks to connect, the lowest first; it ends with the hash of the last.
    unfoldable pub check_connect : Bytes → ℕ → ℕ → List Block → Result StoreError Bytes
    check_connect prev height i [] = ok prev
    check_connect prev height i (b ∷ bs) = do
      refuse_if (not (b.header.height == height)) (StoreError.connect_height i)
      refuse_if (not (bytes_eq b.header.prev_hash prev)) (StoreError.connect_parent i)
      check_connect (block_hash c b) ((height + 1) % 18446744073709551616) (i + 1) bs

    unfoldable pub unmark_inputs : List TxInput → Store kv → Store kv
    unmark_inputs [] s = s
    unmark_inputs (x ∷ xs) s = unmark_inputs xs (unmark_spent kv x.key_image s)

    unfoldable pub unmark_txs : List Transaction → Store kv → Store kv
    unmark_txs [] s = s
    unmark_txs (tx ∷ txs) s =
        unmark_txs txs (if is_coinbase tx then s else unmark_inputs tx.inputs s)

    -- The loop that disconnects, from the last of the list to the first.
    unfoldable pub disconnect_blocks : List Block → Store kv → Store kv
    disconnect_blocks [] s = s
    disconnect_blocks (b ∷ bs) s =
        unmark_txs b.transactions
          (remove_main_chain_block kv b.header.height (disconnect_blocks bs s))

    unfoldable pub save_txs : ℕ → List Transaction → Store kv → Store kv
    save_txs height [] s = s
    save_txs height (tx ∷ txs) s =
        save_txs height txs (save_outputs (utxos_of (txid_of c tx) height 0 tx.outputs) s)

    unfoldable pub mark_inputs : ℕ → List TxInput → Store kv → Store kv
    mark_inputs height [] s = s
    mark_inputs height (x ∷ xs) s = mark_inputs height xs (mark_spent kv height x.key_image s)

    unfoldable pub mark_txs : ℕ → List Transaction → Store kv → Store kv
    mark_txs height [] s = s
    mark_txs height (tx ∷ txs) s =
        mark_txs height txs (if is_coinbase tx then s else mark_inputs height tx.inputs s)

    unfoldable pub connect_block : Block → Store kv → Store kv
    connect_block b s = mark_txs b.header.height b.transactions (
        save_txs b.header.height b.transactions (
          set_main_chain_block kv b.header.height (block_hash c b)
            (put_block (block_hash c b) b s)))

    unfoldable pub connect_blocks : List Block → Store kv → Store kv
    connect_blocks [] s = s
    connect_blocks (b ∷ bs) s = connect_blocks bs (connect_block b s)

    -- The checks of CommitReorg on a chain with this tip and height.
    unfoldable pub check_reorg : ReorgCommit → Bytes → ℕ → Store kv → Result StoreError (Unit {0})
    check_reorg r tip height s = do
      refuse_if (ltb_i64 ((height + 1) % 18446744073709551616) (length r.disconnect))
          StoreError.too_deep
      refuse_if
          (not (
            r.new_height
            == (sub_u64 height (length r.disconnect) + length r.connect) % 18446744073709551616))
          StoreError.new_height_mismatch
      check_disconnect s.heights height 0 none r.disconnect
      base ← base_of r.disconnect tip height
      refuse_if (not (is_some (get base.0 s.blocks))) StoreError.base_not_found
      last ← check_connect base.0 ((base.1 + 1) % 18446744073709551616) 0 r.connect
      refuse_if (not (bytes_eq r.new_tip last)) StoreError.new_tip_mismatch

    -- CommitReorg
    unfoldable pub commit_reorg : ReorgCommit → Store kv → Result StoreError (Store kv)
    commit_reorg r s = do
      refuse_if (length r.connect == 0) StoreError.nothing_to_connect
      tip ← read_tip kv s.meta
      elim tip [
        | none ↦ err StoreError.empty_chain
        | some t ↦
            check_reorg r t.0 t.1 s
            >> ok (
                set_tip r.new_tip r.new_height r.new_work
                  (connect_blocks r.connect (disconnect_blocks r.disconnect s)))
      ]
