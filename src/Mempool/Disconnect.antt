-- ===== src/Mempool/Disconnect.antt =====
-- mempool.go: OnBlockDisconnected brings a transaction back only where nothing conflicts.
use blocknet_core.Prelude.{
  ℕ, ◌/◌, ◌≡◌, subst, ◌⊎◌, inl, inr, List, [], ◌∷◌, Bytes, true, false, ◌||◌, none, some, arith,
  ◌==◌, length, bytes_eq, bytes_eq_iff, contains, map, Bool-cases, Option-cases, Result-cases,
}
use blocknet_core.Prelude.Maps.{lookup}
use blocknet_core.Tx.{Transaction, TxInput, is_coinbase}
use blocknet_core.Tx.Crypto.{tx_id}
use blocknet_core.Mempool.{Mempool, Env}
use blocknet_core.Mempool.Operations.{Candidate, blocked, tx_bytes, disconnect_tx, disconnect_txs}
use blocknet_core.Mempool.Images.{Inv}
use blocknet_core.Mempool.Admit.{Fresh, store-Inv}

-- An input that does not stand in the way: its image is in no other entry, and it is not spent.
blocked-false :
    (env : Env) (id : Bytes) (xs : List TxInput) (m : Mempool) (k : Bytes)
    → blocked env id xs m ≡ false
    → contains (map (λ x. x.key_image) xs) k ≡ true
    → ((lookup k m.tx_by_image ≡ none) ⊎ (lookup k m.tx_by_image ≡ some id))
      × (env.is_spent k ≡ false)
unfolding blocked contains
blocked-false env id [] m k h s = cc
blocked-false env id (x ∷ xs) m k h s = elim (Bool-cases (bytes_eq x.key_image k)) [
  | inl same ↦
      subst
        (λ j.
          ((lookup j m.tx_by_image ≡ none) ⊎ (lookup j m.tx_by_image ≡ some id))
          × (env.is_spent j ≡ false))
        ((bytes_eq_iff x.key_image k).0 same)
        (elim (Option-cases (lookup x.key_image m.tx_by_image)) [
          | inl absent ↦ (inl absent, ground arith)
          | inr (other, e) ↦ (inr (ground (arith, bytes_eq_iff other id)), ground arith)
        ])
  | inr differ ↦ blocked-false env id xs m k (ground arith) (ground arith)
]

blocked-Fresh :
    (env : Env) (m : Mempool) (c : Candidate)
    → Inv m
    → lookup c.id m.tx_by_id ≡ none
    → blocked env c.id c.tx.inputs m ≡ false
    → Fresh m c
blocked-Fresh env m c v absent h =
    (absent, λ k s. free k (blocked-false env c.id c.tx.inputs m k h s).0)
  where
    free :
        (k : Bytes)
        → (lookup k m.tx_by_image ≡ none) ⊎ (lookup k m.tx_by_image ≡ some c.id)
        → lookup k m.tx_by_image ≡ none
    free k (inl e) = e
    free k (inr e) = let (d, l, s) = v.owner k c.id e in absurd (cc (l, absent))

-- A disconnected block's transactions never make the pool inconsistent.
pub disconnect_tx-Inv :
    (env : Env) (now : ℕ) (data_map : List (Bytes × Bytes)) (tx : Transaction) (m : Mempool)
    → Inv m
    → Inv (disconnect_tx env now data_map tx m)
unfolding disconnect_tx
disconnect_tx-Inv env now data_map tx m v = elim (Bool-cases (is_coinbase tx)) [
  | inl e ↦ rw (e, disconnect_tx) v
  | inr spend ↦ elim (Result-cases (tx_id env.crypto tx)) [
    | inl (p, e) ↦ rw (spend, e, disconnect_tx) v
    | inr (id, own) ↦ elim (Option-cases (lookup id m.tx_by_id)) [
      | inr (d, e) ↦ rw (spend, own, e, disconnect_tx) v
      | inl absent ↦ elim (Result-cases (tx_bytes data_map id tx)) [
        | inl (p, e) ↦ rw (spend, own, absent, e, disconnect_tx) v
        | inr (tx_data, e) ↦
            let c : Candidate = record {
              tx = tx;
              id = id;
              fee_rate = tx.fee / length tx_data;
              size = length tx_data;
            } in
            rw (spend, own, absent, e, disconnect_tx)
              (elim (Bool-cases (blocked env id tx.inputs m || length tx_data == 0)) [
                | inl stop ↦ rw stop v
                | inr go ↦ rw go (
                    store-Inv now tx.fee tx_data c m v
                      (blocked-Fresh env m c v absent (ground arith)))
              ])
      ]
    ]
  ]
]

pub disconnect_txs-Inv :
    (env : Env) (now : ℕ) (data_map : List (Bytes × Bytes)) (txs : List Transaction) (m : Mempool)
    → Inv m
    → Inv (disconnect_txs env now data_map txs m)
unfolding disconnect_txs
disconnect_txs-Inv env now data_map [] m v = v
disconnect_txs-Inv env now data_map (tx ∷ txs) m v =
    disconnect_txs-Inv env now data_map txs (disconnect_tx env now data_map tx m)
      (disconnect_tx-Inv env now data_map tx m v)
