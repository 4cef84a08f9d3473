-- ===== src/Mempool.antt =====
-- mempool.go: the pool of unconfirmed transactions, its removal, eviction and admission.
-- A map is an association list, visited in its own order where the source ranges over it; Go leaves
-- the order open, and the theorems hold for every list. The heap is seen as the list of the entries
-- (by ID) that it holds: only its length is read, and an entry is removed at its own index. Times
-- are numbers, and the clock is an argument.
pub mod Operations
pub mod Images
pub mod Remove
pub mod Keep
pub mod Admission
pub mod Admit
pub mod Blocks
pub mod Disconnect
pub mod Evict
pub mod Bounds
pub mod Limits
pub mod Outcome
pub mod Select
pub mod Histories
use blocknet_core.Prelude.{
  ℕ, zero, suc, ◌+◌, ◌-◌, ◌/◌, ◌<◌, List, [], ◌∷◌, Bytes, Bool, true, false, ◌&&◌, ◌||◌, not,
  Option, none, some, Result, ok, err, ◌>>=◌, ◌>>◌, refuse_if, ltb, leb, ◌==◌, if◌then◌else◌,
  length, bytes_eq, contains, map,
}
use blocknet_core.Prelude.Maps.{lookup, delete, insert, keys}
use blocknet_core.Tx.{Transaction, TxInput, is_coinbase}
use blocknet_core.Tx.Encode.{Panic}
use blocknet_core.Tx.Decode.{TxError, deserialize}
use blocknet_core.Tx.Crypto.{Crypto, tx_id}
use blocknet_core.Tx.Validate.{ValidationError, validate_transaction}

pub record Config : Type 0 where
  pub max_size : ℕ
  pub max_size_bytes : ℕ
  pub min_fee_rate : ℕ
  pub expiration : ℕ

pub record Entry : Type 0 where
  pub tx : Transaction
  pub id : Bytes
  pub tx_data : Bytes
  pub fee : ℕ
  pub fee_rate : ℕ
  pub size : ℕ
  pub added_at : ℕ

pub record Mempool : Type 0 where
  pub config : Config
  pub tx_by_id : List (Bytes × Entry)
  pub tx_by_image : List (Bytes × Bytes)
  pub priority_queue : List Bytes
  pub total_size : ℕ

-- What the pool is built with: the chain's checkers, and the cryptography that validation calls.
pub record Env : Type 0 where
  pub crypto : Crypto
  pub is_spent : Bytes → Bool
  pub checker : Option (Bytes → Bytes → Bool)

pub data AddError : Type 0 where
  invalid_data : TxError → AddError
  validation_failed : ValidationError → AddError
  double_spend : Bytes → AddError
  fee_rate_too_low : ℕ → AddError
  coinbase_refused id_failed mempool_full size_limit out_of_fuel : AddError

-- NewMempool, and the state that Clear leaves.
unfoldable pub new_mempool : Config → Mempool
new_mempool cfg = record {
  config = cfg;
  tx_by_id = [];
  tx_by_image = [];
  priority_queue = [];
  total_size = 0;
}

unfoldable pub clear : Mempool → Mempool
clear m = record m { tx_by_id = []; tx_by_image = []; priority_queue = []; total_size = 0 }

-- heap.Remove at the entry's index.
unfoldable pub dequeue : Bytes → List Bytes → List Bytes
dequeue k [] = []
dequeue k (j ∷ q) = if bytes_eq j k then dequeue k q else j ∷ dequeue k q

unfoldable pub delete_images : List TxInput → List (Bytes × Bytes) → List (Bytes × Bytes)
delete_images [] m = m
delete_images (x ∷ xs) m = delete_images xs (delete x.key_image m)

unfoldable pub insert_images : Bytes → List TxInput → List (Bytes × Bytes) → List (Bytes × Bytes)
insert_images id [] m = m
insert_images id (x ∷ xs) m = insert_images id xs (insert x.key_image id m)

unfoldable pub remove_tx_by_id : Bytes → Mempool → Mempool
remove_tx_by_id id m = elim (lookup id m.tx_by_id) [
  | none ↦ m
  | some e ↦ record m {
    tx_by_id = delete id m.tx_by_id;
    tx_by_image = delete_images e.tx.inputs m.tx_by_image;
    total_size = m.total_size - e.size;
    priority_queue = dequeue id m.priority_queue;
  }
]

-- The loop of evictLowest: the entry with the earliest time, the first one among equals.
unfoldable pub oldest_from : Option (Bytes × Entry) → List (Bytes × Entry) → Option (Bytes × Entry)
oldest_from best [] = best
oldest_from none ((id, e) ∷ m) = oldest_from (some (id, e)) m
oldest_from (some (bid, b)) ((id, e) ∷ m) =
    oldest_from (if ltb e.added_at b.added_at then some (id, e) else some (bid, b)) m

-- The new pool, and whether an entry was evicted.
unfoldable pub evict_lowest : ℕ → Mempool → Mempool × Bool
evict_lowest min_fee_rate m =
    if length m.priority_queue == 0 then (m, false) else elim (oldest_from none m.tx_by_id) [
      | none ↦ (m, false)
      | some (id, e) ↦
          if ltb e.fee_rate min_fee_rate then (remove_tx_by_id id m, true) else (m, false)
    ]

-- The loop that makes room for `size` bytes; `none` is lack of fuel, and the flag tells whether the
-- loop ended by its own test.
unfoldable pub evict_until : ℕ → ℕ → ℕ → Mempool → Option (Mempool × Bool)
evict_until zero size rate m = none
evict_until (suc fuel) size rate m =
    elim (ltb m.config.max_size_bytes (m.total_size + size) && ltb 0 (length m.priority_queue)) [
      | false ↦ some (m, true)
      | true ↦
          let (m', evicted) = evict_lowest rate m in
          elim evicted [ true ↦ evict_until fuel size rate m' | false ↦ some (m', false) ]
    ]
