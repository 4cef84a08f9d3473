-- ===== src/Store.antt =====
-- storage.go: the chain database, over the buckets of a key-value store.
pub mod Commit
pub mod Chains
pub mod Effects
pub mod Steps
pub mod Checks
pub mod Refines
pub mod Completes
pub mod Extends
use blocknet_core.Prelude.{
  ℕ, ◌+◌, ◌-◌, ◌%◌, ◌≡◌, List, [], ◌∷◌, Bytes, Bool, true, false, ◌&&◌, not, Option, none, some,
  Result, ok, err, ◌>>=◌, ◌>>◌, refuse_if, if◌then◌else◌, ltb, ◌==◌, ◌++◌, bytes_eq, length, put_be,
  get_be, replicate,
}
use blocknet_core.Tx.{Transaction, TxInput, TxOutput, is_coinbase}
use blocknet_core.Tx.Crypto.{Crypto, tx_id}
use blocknet_core.Block.{Block}
use blocknet_core.Block.Wire.{serialize_full}

-- The buckets of go.etcd.io/bbolt: what a Put and a Delete do to a later Get. Values are kept as they are
-- where the code encodes them as JSON.
pub record KeyValue : Type 1 where
  pub Bucket : Type 0 → Type 0
  pub get : {V : Type 0} → Bytes → Bucket V → Option V
  pub put : {V : Type 0} → Bytes → V → Bucket V → Bucket V
  pub delete : {V : Type 0} → Bytes → Bucket V → Bucket V
  pub get-put :
      {V : Type 0} (k j : Bytes) (v : V) (m : Bucket V)
      → get j (put k v m) ≡ (if bytes_eq k j then some v else get j m)
  pub get-delete :
      {V : Type 0} (k j : Bytes) (m : Bucket V)
      → get j (delete k m) ≡ (if bytes_eq k j then none else get j m)

-- An output with its place (transaction.go).
pub record Utxo : Type 0 where
  pub txid : Bytes
  pub output_index : ℕ
  pub output : TxOutput
  pub block_height : ℕ

pub record Store (kv : KeyValue) : Type 0 where
  pub blocks : kv.Bucket Block
  pub heights : kv.Bucket Bytes
  pub outputs : kv.Bucket Utxo
  pub key_images : kv.Bucket Bytes
  pub meta : kv.Bucket Bytes

pub data StoreError : Type 0 where
  missing_parent : ℕ → StoreError
  height_without_tip bad_tip_length bad_height_length : StoreError
  commit_height_mismatch commit_hash_mismatch : StoreError
  not_genesis tip_height_mismatch tip_hash_mismatch : StoreError
  nothing_to_connect empty_chain too_deep : StoreError
  new_height_mismatch new_tip_mismatch base_not_found disconnects_genesis : StoreError
  disconnect_height disconnect_not_indexed disconnect_hash disconnect_linkage : ℕ → StoreError
  connect_height connect_parent : ℕ → StoreError

-- "tip", "height" and "work"
abbrev pub meta_key_tip : Bytes
meta_key_tip = 116 ∷ 105 ∷ 112 ∷ []

abbrev pub meta_key_height : Bytes
meta_key_height = 104 ∷ 101 ∷ 105 ∷ 103 ∷ 104 ∷ 116 ∷ []

abbrev pub meta_key_work : Bytes
meta_key_work = 119 ∷ 111 ∷ 114 ∷ 107 ∷ []

unfoldable pub height_key : ℕ → Bytes
height_key height = put_be 8 height

unfoldable pub outpoint_key : Bytes → ℕ → Bytes
outpoint_key txid index = txid ++ put_be 4 index

unfoldable pub is_some {ℓ} : {A : Type ℓ} → Option A → Bool
is_some none = false
is_some (some a) = true

-- x - y on uint64.
abbrev pub sub_u64 : ℕ → ℕ → ℕ
sub_u64 x y = (x + (18446744073709551616 - y)) % 18446744073709551616

module _ (c : Crypto) where
  -- Block.Hash; a header of Go's types has no panic.
  unfoldable pub block_hash : Block → Bytes
  block_hash b = elim (serialize_full b.header) [ err p ↦ [] | ok bs ↦ c.sha3_256 bs ]

  -- `txid, _ := txn.TxID()`
  unfoldable pub txid_of : Transaction → Bytes
  txid_of tx = elim (tx_id c tx) [ err p ↦ replicate 32 0 | ok h ↦ h ]

module _ (kv : KeyValue) where
  open kv use {Bucket, get, put, delete}

  -- readTipMeta
  unfoldable pub read_tip : Bucket Bytes → Result StoreError (Option (Bytes × ℕ))
  read_tip meta = elim (get meta_key_tip meta) [
    | none ↦ refuse_if (is_some (get meta_key_height meta)) height_without_tip >> ok none
    | some tip ↦ do
      refuse_if (not (length tip == 32)) bad_tip_length
      elim (get meta_key_height meta) [
        | none ↦ err bad_height_length
        | some height ↦ do
          refuse_if (not (length height == 8)) bad_height_length
          ok (some (tip, get_be height))
      ]
  ]

  -- The three writes of SetTip, and those at the end of CommitBlock and CommitReorg.
  unfoldable pub write_tip : Bytes → ℕ → ℕ → Bucket Bytes → Bucket Bytes
  write_tip hash height work meta =
      put meta_key_work (put_be 8 work)
        (put meta_key_height (put_be 8 height) (put meta_key_tip hash meta))

  -- GetTip: the hash, the height and the work.
  abbrev uint_or_zero : Option Bytes → ℕ
  uint_or_zero none = 0
  uint_or_zero (some bs) = if length bs == 8 then get_be bs else 0

  unfoldable pub get_tip : Store kv → Option Bytes × (ℕ × ℕ)
  get_tip s = (
    get meta_key_tip s.meta,
    (uint_or_zero (get meta_key_height s.meta), uint_or_zero (get meta_key_work s.meta)),
  )

  -- SaveBlock
  unfoldable pub save_block : Crypto → Block → Store kv → Result StoreError (Store kv)
  save_block c b s =
      refuse_if (ltb 0 b.header.height && not (is_some (get b.header.prev_hash s.blocks)))
        (missing_parent b.header.height)
      >> ok (record s { blocks = put (block_hash c b) b s.blocks })

  -- GetBlockHashByHeight
  unfoldable pub hash_by_height : ℕ → Store kv → Option Bytes
  hash_by_height height s = get (height_key height) s.heights

  -- SetMainChainBlock and RemoveMainChainBlock
  unfoldable pub set_main_chain_block : ℕ → Bytes → Store kv → Store kv
  set_main_chain_block height hash s = record s { heights = put (height_key height) hash s.heights }

  unfoldable pub remove_main_chain_block : ℕ → Store kv → Store kv
  remove_main_chain_block height s = record s { heights = delete (height_key height) s.heights }

  -- MarkKeyImageSpent, IsKeyImageSpent and UnmarkKeyImageSpent
  unfoldable pub mark_spent : ℕ → Bytes → Store kv → Store kv
  mark_spent height image s = record s { key_images = put image (height_key height) s.key_images }

  unfoldable pub key_image_spent : Store kv → Bytes → Bool × ℕ
  key_image_spent s image = elim (get image s.key_images) [
    | none ↦ (false, 0)
    | some height ↦ (true, uint_or_zero (some height))
  ]

  unfoldable pub unmark_spent : Bytes → Store kv → Store kv
  unmark_spent image s = record s { key_images = delete image s.key_images }

  -- SaveOutput
  unfoldable pub save_output : Utxo → Store kv → Store kv
  save_output u s = record s { outputs = put (outpoint_key u.txid u.output_index) u s.outputs }
