-- ===== src/Mempool/Outcome.antt =====
-- mempool.go: the results of AddTransaction.
use blocknet_core.Prelude.{
  ℕ, suc, ◌≡◌, ◌≢◌, ap, ◌∙◌, inl, inr, Bytes, none, some, ok, err, arith, leb, length,
  bytes_eq_refl, Bool-cases, Option-cases, Result-cases, err_eq,
}
use blocknet_core.Prelude.Maps.{lookup}
use blocknet_core.Tx.{Transaction}
use blocknet_core.Tx.Decode.{deserialize}
use blocknet_core.Tx.Crypto.{tx_id}
use blocknet_core.Mempool.{Mempool, Env, out_of_fuel, evict_lowest, evict_until}
use blocknet_core.Mempool.Operations.{
  Candidate, wrap, check_conflicts, check_new, check_known, check_admission, admit_bytes, admit,
  add_transaction,
}
use blocknet_core.Mempool.Images.{Inv}
use blocknet_core.Mempool.Remove.{remove_tx_by_id-Inv}
use blocknet_core.Mempool.Keep.{evict_lowest-keeps}
use blocknet_core.Mempool.Admit.{new_entry, store-lookup}
use blocknet_core.Mempool.Bounds.{admit_bytes-fuel}

admit-fuel :
    (now : ℕ) (tx_data : Bytes) (c : Candidate) (m : Mempool)
    → Inv m
    → (admit now tx_data c m).1 ≢ err out_of_fuel
unfolding admit
admit-fuel now tx_data c m v = elim (Bool-cases (leb m.config.max_size (length m.tx_by_id))) [
  | inr room ↦ rw room (admit_bytes-fuel now tx_data c m v)
  | inl full ↦
      let m' = (evict_lowest c.fee_rate m).0 in
      rw full (elim (Bool-cases (evict_lowest c.fee_rate m).1) [
        | inr kept ↦ rw kept (λ q. cc q)
        | inl evicted ↦ rw evicted (
            admit_bytes-fuel now tx_data c m'
              (evict_lowest-keeps Inv remove_tx_by_id-Inv c.fee_rate m v))
      ])
]

admit_bytes-stores :
    (now : ℕ) (tx_data : Bytes) (c : Candidate) (m : Mempool)
    → (admit_bytes now tx_data c m).1 ≡ ok tt
    → lookup c.id (admit_bytes now tx_data c m).0.tx_by_id
      ≡ some (new_entry now c.tx.fee tx_data c m)
unfolding admit_bytes
admit_bytes-stores now tx_data c m h =
    elim (Option-cases (evict_until (suc (length m.priority_queue)) c.size c.fee_rate m)) [
      | inl e ↦ absurd (cc (rw (e, admit_bytes) at h))
      | inr ((m', fits), e) ↦ elim (Bool-cases fits) [
        | inr stopped ↦ absurd (cc (rw (e, stopped, admit_bytes) at h))
        | inl done ↦
            rw (e, done, admit_bytes)
              (ground (arith, store-lookup now c.tx.fee tx_data c m' c.id, bytes_eq_refl c.id))
      ]
    ]

admit-stores :
    (now : ℕ) (tx_data : Bytes) (c : Candidate) (m : Mempool)
    → (admit now tx_data c m).1 ≡ ok tt
    → lookup c.id (admit now tx_data c m).0.tx_by_id ≡ some (new_entry now c.tx.fee tx_data c m)
unfolding admit
admit-stores now tx_data c m h = elim (Bool-cases (leb m.config.max_size (length m.tx_by_id))) [
  | inr room ↦ rw (room, admit) (admit_bytes-stores now tx_data c m (rw (room, admit) at h))
  | inl full ↦ elim (Bool-cases (evict_lowest c.fee_rate m).1) [
    | inr kept ↦ absurd (cc (rw (full, kept, admit) at h))
    | inl evicted ↦
        rw (full, evicted, admit)
          (admit_bytes-stores now tx_data c (evict_lowest c.fee_rate m).0
            (rw (full, evicted, admit) at h))
  ]
]

check_new-fuel :
    (env : Env) (m : Mempool) (fee : ℕ) (tx_data : Bytes) (tx : Transaction) (id : Bytes)
    → check_new env m fee tx_data tx id ≢ err out_of_fuel
unfolding check_new check_conflicts wrap
check_new-fuel env m fee tx_data tx id h = ground arith

check_known-fuel :
    (env : Env) (m : Mempool) (fee : ℕ) (tx_data : Bytes) (tx : Transaction) (id : Bytes)
    → check_known env m fee tx_data tx id ≢ err out_of_fuel
unfolding check_known
check_known-fuel env m fee tx_data tx id h = ground (arith, check_new-fuel env m fee tx_data tx id)

check_admission-fuel :
    (env : Env) (m : Mempool) (fee : ℕ) (tx_data : Bytes)
    → check_admission env m fee tx_data ≢ err out_of_fuel
unfolding check_admission wrap
check_admission-fuel env m fee tx_data h = elim (Result-cases (deserialize tx_data)) [
  | inl (e, bad) ↦ ground arith
  | inr (tx, parsed) ↦ elim (Result-cases (tx_id env.crypto tx)) [
    | inl (p, e) ↦ ground arith
    | inr (id, own) ↦ ground (arith, check_known-fuel env m fee tx_data tx id)
  ]
]

-- On a consistent pool AddTransaction always comes to an end: the loop that evicts never runs out of
-- its fuel.
pub add_transaction-fuel :
    (env : Env) (now fee : ℕ) (tx_data : Bytes) (m : Mempool)
    → Inv m
    → (add_transaction env now fee tx_data m).1 ≢ err out_of_fuel
unfolding add_transaction
add_transaction-fuel env now fee tx_data m v =
    elim (Result-cases (check_admission env m fee tx_data)) [
      | inl (e, refused) ↦
          rw (refused, add_transaction)
            (λ q. check_admission-fuel env m fee tx_data (refused ∙ ap err (err_eq q)))
      | inr (none, known) ↦ rw (known, add_transaction) (λ q. cc q)
      | inr (some c, new) ↦ rw (new, add_transaction) (admit-fuel now tx_data c m v)
    ]

-- Where AddTransaction returns nil for a transaction that was new, the pool holds that transaction, with the
-- bytes that were given, its own fee, and the time of the call.
pub add_transaction-stores :
    (env : Env) (now fee : ℕ) (tx_data : Bytes) (m : Mempool) (c : Candidate)
    → check_admission env m fee tx_data ≡ ok (some c)
    → (add_transaction env now fee tx_data m).1 ≡ ok tt
    → lookup c.id (add_transaction env now fee tx_data m).0.tx_by_id
      ≡ some (new_entry now c.tx.fee tx_data c m)
unfolding add_transaction
add_transaction-stores env now fee tx_data m c new h =
    rw (new, add_transaction) (admit-stores now tx_data c m (rw (new, add_transaction) at h))
