-- ===== src/Mempool/Operations.antt =====
-- mempool.go: AddTransaction, the other removals, and what happens when a block is connected or
-- disconnected.
use blocknet_core.Prelude.{
  ℕ, suc, ◌+◌, ◌-◌, ◌/◌, List, [], ◌∷◌, Bytes, Bool, false, ◌||◌, not, Option, none, some, Result,
  ok, err, ◌>>=◌, ◌>>◌, refuse_if, ltb, leb, ◌==◌, if◌then◌else◌, length, bytes_eq,
}
use blocknet_core.Prelude.Maps.{lookup, insert}
use blocknet_core.Tx.{Transaction, TxInput, is_coinbase}
use blocknet_core.Tx.Encode.{Panic, serialize}
use blocknet_core.Tx.Decode.{deserialize}
use blocknet_core.Tx.Crypto.{tx_id}
use blocknet_core.Tx.Validate.{validate_transaction}
use blocknet_core.Mempool.{
  Mempool, Entry, Env, AddError, invalid_data, validation_failed, double_spend, fee_rate_too_low,
  coinbase_refused, id_failed, mempool_full, size_limit, out_of_fuel, insert_images,
  remove_tx_by_id, evict_lowest, evict_until,
}

-- A Go error wrapped by the caller.
unfoldable pub wrap {ℓ} :
    {E : Type 0} {A : Type ℓ} → (E → AddError) → Result E A → Result AddError A
wrap f (ok a) = ok a
wrap f (err e) = err (f e)

-- A parsed transaction that has passed every check, with its ID, fee rate and size.
pub record Candidate : Type 0 where
  pub tx : Transaction
  pub id : Bytes
  pub fee_rate : ℕ
  pub size : ℕ

-- The first input whose key image is in the pool already.
unfoldable pub find_conflict : List (Bytes × Bytes) → List TxInput → Option Bytes
find_conflict images [] = none
find_conflict images (x ∷ xs) = elim (lookup x.key_image images) [
  | some id ↦ some id
  | none ↦ find_conflict images xs
]

unfoldable pub check_conflicts : List (Bytes × Bytes) → List TxInput → Result AddError (Unit {0})
check_conflicts images xs = elim (find_conflict images xs) [
  | some id ↦ err (double_spend id)
  | none ↦ ok tt
]

-- The checks behind the test for a known ID, up to the minimal fee rate. The rate is that of the
-- caller's transaction, whose fee is `fee`.
unfoldable pub check_new :
    Env → Mempool → ℕ → Bytes → Transaction → Bytes → Result AddError Candidate
check_new env m fee tx_data tx id = do
  check_conflicts m.tx_by_image tx.inputs
  wrap validation_failed (validate_transaction env.crypto env.is_spent env.checker tx)
  let size = length tx_data
  let rate = fee / size
  refuse_if (ltb rate m.config.min_fee_rate) (fee_rate_too_low rate)
  ok (record { tx = tx; id = id; fee_rate = rate; size = size })

-- `none` is a transaction that the pool has already.
unfoldable pub check_known :
    Env → Mempool → ℕ → Bytes → Transaction → Bytes → Result AddError (Option Candidate)
check_known env m fee tx_data tx id = elim (lookup id m.tx_by_id) [
  | some e ↦ ok none
  | none ↦ check_new env m fee tx_data tx id >>= λ c. ok (some c)
]

-- The checks of AddTransaction, which change nothing.
unfoldable pub check_admission : Env → Mempool → ℕ → Bytes → Result AddError (Option Candidate)
check_admission env m fee tx_data = do
  tx ← wrap invalid_data (deserialize tx_data)
  refuse_if (is_coinbase tx) coinbase_refused
  id ← wrap (λ (p : Panic). id_failed) (tx_id env.crypto tx)
  check_known env m fee tx_data tx id

unfoldable pub store : ℕ → Bytes → ℕ → Candidate → Mempool → Mempool
store now tx_data fee c m =
    let entry : Entry = record {
      tx = c.tx;
      id = c.id;
      tx_data = tx_data;
      fee = fee;
      fee_rate = c.fee_rate;
      size = c.size;
      added_at = now;
    } in
    record m {
      tx_by_id = insert c.id entry m.tx_by_id;
      tx_by_image = insert_images c.id c.tx.inputs m.tx_by_image;
      priority_queue = c.id ∷ m.priority_queue;
      total_size = m.total_size + c.size;
    }

-- The second limit: the loop runs only if the bytes do not fit, and then until they do.
unfoldable pub admit_bytes : ℕ → Bytes → Candidate → Mempool → Mempool × Result AddError (Unit {0})
admit_bytes now tx_data c m =
    elim (evict_until (suc (length m.priority_queue)) c.size c.fee_rate m) [
      | none ↦ (m, err out_of_fuel)
      | some r ↦ (if r.1 then (store now tx_data c.tx.fee c r.0, ok tt) else (r.0, err size_limit))
    ]

-- The first limit: one entry makes room in a full pool.
unfoldable pub admit : ℕ → Bytes → Candidate → Mempool → Mempool × Result AddError (Unit {0})
admit now tx_data c m =
    if leb m.config.max_size (length m.tx_by_id)
    then (let (m', evicted) = evict_lowest c.fee_rate m in
        if evicted then admit_bytes now tx_data c m' else (m', err mempool_full))
    else admit_bytes now tx_data c m

-- AddTransaction.
unfoldable pub add_transaction :
    Env → ℕ → ℕ → Bytes → Mempool → Mempool × Result AddError (Unit {0})
add_transaction env now fee tx_data m = elim (check_admission env m fee tx_data) [
  | err e ↦ (m, err e)
  | ok found ↦ elim found [ none ↦ (m, ok tt) | some c ↦ admit now tx_data c m ]
]

unfoldable pub remove_transactions : List Bytes → Mempool → Mempool
remove_transactions [] m = m
remove_transactions (id ∷ ids) m = remove_transactions ids (remove_tx_by_id id m)

unfoldable pub remove_by_key_image : Bytes → Mempool → Mempool
remove_by_key_image k m = elim (lookup k m.tx_by_image) [
  | none ↦ m
  | some id ↦ remove_tx_by_id id m
]

-- The IDs that RemoveExpired collects: the entries added before `cutoff`.
unfoldable pub expired_ids : ℕ → List (Bytes × Entry) → List Bytes
expired_ids cutoff [] = []
expired_ids cutoff ((id, e) ∷ m) =
    let rest = expired_ids cutoff m in if ltb e.added_at cutoff then id ∷ rest else rest

-- With the number of removed entries. A time before the clock's zero holds no entry.
unfoldable pub remove_expired : ℕ → Mempool → Mempool × ℕ
remove_expired now m =
    let ids = expired_ids (now - m.config.expiration) m.tx_by_id in
    (remove_transactions ids m, length ids)

unfoldable pub remove_spent : List TxInput → Mempool → Mempool
remove_spent [] m = m
remove_spent (x ∷ xs) m = remove_spent xs (remove_by_key_image x.key_image m)

-- OnBlockConnected, for one transaction and for all; removing an absent ID does nothing.
-- TxID never returns an error; a panic of Serialize takes the place of one.
unfoldable pub connect_tx : Env → Transaction → Mempool → Mempool
connect_tx env tx m = elim (tx_id env.crypto tx) [
  | err p ↦ m
  | ok id ↦ remove_spent tx.inputs (remove_tx_by_id id m)
]

unfoldable pub connect_txs : Env → List Transaction → Mempool → Mempool
connect_txs env [] m = m
connect_txs env (tx ∷ txs) m = connect_txs env txs (connect_tx env tx m)

-- Whether an input stands in the way of its transaction `id` coming back.
unfoldable pub blocked : Env → Bytes → List TxInput → Mempool → Bool
blocked env id [] m = false
blocked env id (x ∷ xs) m =
    (elim (lookup x.key_image m.tx_by_image) [
      | none ↦ false
      | some other ↦ not (bytes_eq other id)
    ])
    || env.is_spent x.key_image
    || blocked env id xs m

-- The serialized transaction: the one at hand, or a new one.
unfoldable pub tx_bytes : List (Bytes × Bytes) → Bytes → Transaction → Result Panic Bytes
tx_bytes data_map id tx = elim (lookup id data_map) [ some found ↦ ok found | none ↦ serialize tx ]

-- OnBlockDisconnected, for one transaction; `data_map` holds serialized transactions by ID.
unfoldable pub disconnect_tx : Env → ℕ → List (Bytes × Bytes) → Transaction → Mempool → Mempool
disconnect_tx env now data_map tx m = if is_coinbase tx then m else elim (tx_id env.crypto tx) [
  | err p ↦ m
  | ok id ↦ elim (lookup id m.tx_by_id) [
    | some e ↦ m
    | none ↦ elim (tx_bytes data_map id tx) [
      | err p ↦ m
      | ok tx_data ↦
          if blocked env id tx.inputs m || length tx_data == 0
          then m
          else store now tx_data tx.fee
              (record {
                tx = tx;
                id = id;
                fee_rate = tx.fee / length tx_data;
                size = length tx_data;
              })
              m
    ]
  ]
]

unfoldable pub disconnect_txs :
    Env → ℕ → List (Bytes × Bytes) → List Transaction → Mempool → Mempool
disconnect_txs env now data_map [] m = m
disconnect_txs env now data_map (tx ∷ txs) m =
    disconnect_txs env now data_map txs (disconnect_tx env now data_map tx m)
