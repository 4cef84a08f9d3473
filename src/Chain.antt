-- ===== src/Chain.antt =====
-- block.go: the state of a chain, its lookups, and the work of a branch.
pub mod Spent
pub mod Process
pub mod Choice
pub mod Truncate
pub mod Agreement
pub mod Branches
use blocknet_core.Prelude.{
  ℕ, zero, suc, ◌+◌, List, [], ◌∷◌, ◌++◌, Bytes, Bool, true, false, ◌&&◌, ◌||◌, not, Option, none,
  some, Result, ok, err, if◌then◌else◌, ltb, leb, ◌==◌, bytes_eq, length, drop, contains,
}
use blocknet_core.Prelude.Maps.{lookup, insert, delete}
use blocknet_core.Tx.{Transaction, TxInput, TxOutput, is_coinbase}
use blocknet_core.Tx.Crypto.{Crypto}
use blocknet_core.Block.{Block}
use blocknet_core.Block.Difficulty.{lwma_window}
use blocknet_core.Block.Forks.{ForkError, add_cumulative_work}
use blocknet_core.Block.Validate.{BlockError}
use blocknet_core.Store.{
  KeyValue, Store, StoreError, is_some, key_image_spent, hash_by_height, get_tip,
}

-- The fields of Chain. `blocks` and `work_at` are caches that lose old entries, and
-- refill from the database; the model keeps the entries.
pub record Chain (kv : KeyValue) : Type 0 where
  pub store : Store kv
  pub blocks : List (Bytes × Block)
  pub work_at : List (Bytes × ℕ)
  pub by_height : ℕ → Option Bytes
  pub timestamps : List ℕ
  pub best_hash : Bytes
  pub height : ℕ
  pub total_work : ℕ
  pub key_images : List (Bytes × ℕ)
  pub ring_index : List Bytes
  pub ring_index_dirty : Bool
  pub ring_index_tip : Bytes
  pub ring_index_ready : Bool
  pub trusted_checkpoints : Option (ℕ → Option Bytes)
  pub fast_sync_until : ℕ

pub data ChainError : Type 0 where
  invalid : BlockError → ChainError
  storage : StoreError → ChainError
  fork : ForkError → ChainError
  reorg_failed : ChainError → ChainError
  no_work_at : Bytes → ChainError
  checkpoint_mismatch not_genesis missing_height : ℕ → ChainError
  orphan_block tip_not_found incomplete_chain work_overflow genesis_exists out_of_fuel : ChainError

-- m[height] = hash, and delete(m, height).
unfoldable pub set_height {ℓ} : {A : Type ℓ} → ℕ → A → (ℕ → Option A) → ℕ → Option A
set_height height a m h = if height == h then some a else m h

unfoldable pub clear_height {ℓ} : {A : Type ℓ} → ℕ → (ℕ → Option A) → ℕ → Option A
clear_height height m h = if height == h then none else m h

-- Append, then drop the oldest beyond the window.
unfoldable pub push_timestamp : ℕ → List ℕ → List ℕ
push_timestamp t ts =
    if ltb (lwma_window + 1) (length (ts ++ (t ∷ [])))
    then drop 1 (ts ++ (t ∷ []))
    else ts ++ (t ∷ [])

-- The loops over the key images of transactions that are not coinbases.
unfoldable pub set_inputs : ℕ → List TxInput → List (Bytes × ℕ) → List (Bytes × ℕ)
set_inputs height [] m = m
set_inputs height (x ∷ xs) m = set_inputs height xs (insert x.key_image height m)

unfoldable pub set_images : ℕ → List Transaction → List (Bytes × ℕ) → List (Bytes × ℕ)
set_images height [] m = m
set_images height (tx ∷ txs) m =
    set_images height txs (if is_coinbase tx then m else set_inputs height tx.inputs m)

unfoldable pub delete_inputs : List TxInput → List (Bytes × ℕ) → List (Bytes × ℕ)
delete_inputs [] m = m
delete_inputs (x ∷ xs) m = delete_inputs xs (delete x.key_image m)

unfoldable pub unset_images : List Transaction → List (Bytes × ℕ) → List (Bytes × ℕ)
unset_images [] m = m
unset_images (tx ∷ txs) m =
    unset_images txs (if is_coinbase tx then m else delete_inputs tx.inputs m)

module _ (kv : KeyValue) where
  -- getBlockByHashLocked: the memory, then the database.
  unfoldable pub get_block : Chain kv → Bytes → Option Block
  get_block c h = elim (lookup h c.blocks) [ some b ↦ some b | none ↦ kv.get h c.store.blocks ]

  -- getBlockByHeightLocked
  unfoldable pub stored_at : Chain kv → ℕ → Option Block
  stored_at c height = elim (hash_by_height kv height c.store) [
    | none ↦ none
    | some h ↦ kv.get h c.store.blocks
  ]

  unfoldable pub get_block_by_height : Chain kv → ℕ → Option Block
  get_block_by_height c height = elim (c.by_height height) [
    | none ↦ stored_at c height
    | some h ↦ elim (lookup h c.blocks) [ some b ↦ some b | none ↦ stored_at c height ]
  ]

  -- isKeyImageSpentLocked
  unfoldable pub image_spent : Chain kv → Bytes → Bool
  image_spent c k = is_some (lookup k c.key_images) || (key_image_spent kv c.store k).0

-- cumulativeWorkAtLocked, on fuel: the works that are known from now on, and the result.
abbrev pub Works : Type 0
Works = List (Bytes × ℕ) × Result ChainError ℕ

unfoldable pub add_work : Bytes → Block → Works → Works
add_work h b (known, err e) = (known, err e)
add_work h b (known, ok parent) = elim (add_cumulative_work parent b.header.difficulty) [
  | none ↦ (known, err work_overflow)
  | some work ↦ (insert h work known, ok work)
]

unfoldable pub cumulative_work : (Bytes → Option Block) → ℕ → Bytes → List (Bytes × ℕ) → Works
cumulative_work get zero h known = (known, err out_of_fuel)
cumulative_work get (suc n) h known = elim (lookup h known) [
  | some work ↦ (known, ok work)
  | none ↦ elim (get h) [
    | none ↦ (known, err (no_work_at h))
    | some b ↦ elim (b.header.height == 0) [
      | true ↦ add_work h b (known, ok 0)
      | false ↦ add_work h b (cumulative_work get n b.header.prev_hash known)
    ]
  ]
]

-- One more round than the block is high.
unfoldable pub cumulative_work_at : (Bytes → Option Block) → Bytes → List (Bytes × ℕ) → Works
cumulative_work_at get h known = elim (get h) [
  | none ↦ cumulative_work get 1 h known
  | some b ↦ cumulative_work get (b.header.height + 1) h known
]
