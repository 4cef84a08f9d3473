-- ===== src/Mempool/Keep.antt =====
-- mempool.go: what every removal keeps, every operation keeps that only removes.
use blocknet_core.Prelude.{
  ℕ, zero, suc, ◌+◌, ◌≡◌, sym, subst, ◌∙◌, some_eq, List, [], ◌∷◌, Bytes, Bool, true, false, ◌&&◌,
  Option, none, some, if◌then◌else◌, ltb, ◌==◌, length, Bool-cases, Option-cases, Result-cases, inl,
  inr,
}
use blocknet_core.Prelude.Maps.{lookup}
use blocknet_core.Tx.{Transaction, TxInput}
use blocknet_core.Tx.Crypto.{tx_id}
use blocknet_core.Mempool.{
  Mempool, Entry, Env, remove_tx_by_id, oldest_from, evict_lowest, evict_until,
}
use blocknet_core.Mempool.Operations.{
  remove_transactions, remove_by_key_image, remove_expired, remove_spent, connect_tx, connect_txs,
}

-- The loop condition: the bytes do not fit, and something is left to evict.
abbrev pub needs_room : ℕ → Mempool → Bool
needs_room size m =
    ltb m.config.max_size_bytes (m.total_size + size) && ltb 0 (length m.priority_queue)

module _ (fuel size rate : ℕ) (m : Mempool) where
  pub evict_until-stop :
      needs_room size m ≡ false → evict_until (suc fuel) size rate m ≡ some (m, true)
  unfolding evict_until
  evict_until-stop e = rw (e, evict_until)

  pub evict_until-fail :
      needs_room size m ≡ true
      → (evict_lowest rate m).1 ≡ false
      → evict_until (suc fuel) size rate m ≡ some ((evict_lowest rate m).0, false)
  unfolding evict_until
  evict_until-fail e f = rw (e, f, evict_until)

  pub evict_until-step :
      needs_room size m ≡ true
      → (evict_lowest rate m).1 ≡ true
      → evict_until (suc fuel) size rate m ≡ evict_until fuel size rate (evict_lowest rate m).0
  unfolding evict_until
  evict_until-step e f = rw (e, f, evict_until)

module _ {ℓ} (P : Mempool → Type ℓ)
    (keep : (id : Bytes) (m : Mempool) → P m → P (remove_tx_by_id id m)) where
  pub evict_lowest-keeps : (rate : ℕ) (m : Mempool) → P m → P (evict_lowest rate m).0
  unfolding evict_lowest
  evict_lowest-keeps rate m p = elim (Bool-cases (length m.priority_queue == 0)) [
    | inl e ↦ rw e p
    | inr e ↦ rw e (victim (oldest_from none m.tx_by_id))
  ]
    where
      victim :
          (o : Option (Bytes × Entry))
          → P (
              let r : Mempool × Bool = elim o [
                | none ↦ (m, false)
                | some (id, d) ↦
                    if ltb d.fee_rate rate then (remove_tx_by_id id m, true) else (m, false)
              ] in
              r.0)
      victim none = p
      victim (some (id, d)) = elim (Bool-cases (ltb d.fee_rate rate)) [
        | inl e ↦ rw e (keep id m p)
        | inr e ↦ rw e p
      ]

  pub evict_until-keeps :
      (fuel size rate : ℕ) (m : Mempool) {r : Mempool × Bool}
      → P m
      → evict_until fuel size rate m ≡ some r
      → P r.0
  evict_until-keeps zero size rate m p h = absurd (unfold evict_until in cc h)
  evict_until-keeps (suc fuel) size rate m p h = elim (Bool-cases (needs_room size m)) [
    | inr fits ↦
        subst (λ (r : Mempool × Bool). P r.0)
          (some_eq (sym (evict_until-stop fuel size rate m fits) ∙ h)) p
    | inl more ↦ elim (Bool-cases (evict_lowest rate m).1) [
      | inr stuck ↦
          subst (λ (r : Mempool × Bool). P r.0)
            (some_eq (sym (evict_until-fail fuel size rate m more stuck) ∙ h))
            (evict_lowest-keeps rate m p)
      | inl evicted ↦
          evict_until-keeps fuel size rate (evict_lowest rate m).0 (evict_lowest-keeps rate m p)
            (sym (evict_until-step fuel size rate m more evicted) ∙ h)
    ]
  ]

  pub remove_transactions-keeps :
      (ids : List Bytes) (m : Mempool) → P m → P (remove_transactions ids m)
  unfolding remove_transactions
  remove_transactions-keeps [] m p = p
  remove_transactions-keeps (id ∷ ids) m p =
      remove_transactions-keeps ids (remove_tx_by_id id m) (keep id m p)

  pub remove_by_key_image-keeps : (k : Bytes) (m : Mempool) → P m → P (remove_by_key_image k m)
  unfolding remove_by_key_image
  remove_by_key_image-keeps k m p = elim (Option-cases (lookup k m.tx_by_image)) [
    | inl e ↦ rw (e, remove_by_key_image) p
    | inr (id, e) ↦ rw (e, remove_by_key_image) (keep id m p)
  ]

  pub remove_expired-keeps : (now : ℕ) (m : Mempool) → P m → P (remove_expired now m).0
  unfolding remove_expired
  remove_expired-keeps now m p = remove_transactions-keeps _ m p

  pub remove_spent-keeps : (xs : List TxInput) (m : Mempool) → P m → P (remove_spent xs m)
  unfolding remove_spent
  remove_spent-keeps [] m p = p
  remove_spent-keeps (x ∷ xs) m p =
      remove_spent-keeps xs (remove_by_key_image x.key_image m)
        (remove_by_key_image-keeps x.key_image m p)

  pub connect_tx-keeps :
      (env : Env) (tx : Transaction) (m : Mempool) → P m → P (connect_tx env tx m)
  unfolding connect_tx
  connect_tx-keeps env tx m p = elim (Result-cases (tx_id env.crypto tx)) [
    | inl (e, q) ↦ rw (q, connect_tx) p
    | inr (id, q) ↦
        rw (q, connect_tx) (remove_spent-keeps tx.inputs (remove_tx_by_id id m) (keep id m p))
  ]

  pub connect_txs-keeps :
      (env : Env) (txs : List Transaction) (m : Mempool) → P m → P (connect_txs env txs m)
  unfolding connect_txs
  connect_txs-keeps env [] m p = p
  connect_txs-keeps env (tx ∷ txs) m p =
      connect_txs-keeps env txs (connect_tx env tx m) (connect_tx-keeps env tx m p)
