-- ===== src/Mempool/Blocks.antt =====
-- mempool.go: OnBlockConnected and OnBlockDisconnected.
use blocknet_core.Prelude.{
  ℕ, ◌≡◌, subst, inl, inr, List, [], ◌∷◌, Bytes, true, none, some, ok, arith, bytes_eq,
  bytes_eq_iff, bytes_eq_refl, contains, map, All, get_elem?, some_eq, zero, suc, Bool-cases,
  Option-cases, Result-cases,
}
use blocknet_core.Prelude.Maps.{lookup, lookup-delete}
use blocknet_core.Tx.{Transaction, TxInput}
use blocknet_core.Tx.Crypto.{tx_id}
use blocknet_core.Mempool.{Mempool, Env, remove_tx_by_id}
use blocknet_core.Mempool.Operations.{remove_by_key_image, remove_spent, connect_tx, connect_txs}
use blocknet_core.Mempool.Images.{Inv, spends, lookup-delete_images}
use blocknet_core.Mempool.Remove.{remove_tx_by_id-Inv}
use blocknet_core.Mempool.Keep.{
  remove_by_key_image-keeps, remove_spent-keeps, connect_tx-keeps, connect_txs-keeps,
}

-- Neither the ID nor a key image of the transaction is in the pool.
pub record Cleared (env : Env) (tx : Transaction) (m : Mempool) : Type 0 where
  pub gone : (id : Bytes) → tx_id env.crypto tx ≡ ok id → lookup id m.tx_by_id ≡ none
  pub images :
      (id k : Bytes)
      → tx_id env.crypto tx ≡ ok id
      → spends tx k ≡ true
      → lookup k m.tx_by_image ≡ none

module _ (id : Bytes) (m : Mempool) where
  remove_absent : lookup id (remove_tx_by_id id m).tx_by_id ≡ none
  unfolding remove_tx_by_id
  remove_absent = ground (arith, lookup-delete id id m.tx_by_id, bytes_eq_refl id)

  remove-keeps_absent :
      (j : Bytes) → lookup j m.tx_by_id ≡ none → lookup j (remove_tx_by_id id m).tx_by_id ≡ none
  unfolding remove_tx_by_id
  remove-keeps_absent j h = ground (arith, lookup-delete id j m.tx_by_id)

  remove-keeps_image :
      (k : Bytes)
      → lookup k m.tx_by_image ≡ none
      → lookup k (remove_tx_by_id id m).tx_by_image ≡ none
  unfolding remove_tx_by_id
  remove-keeps_image k h = elim (Option-cases (lookup id m.tx_by_id)) [
    | inl e ↦ rw (e, remove_tx_by_id) h
    | inr (d, e) ↦
        rw (e, remove_tx_by_id) (ground (arith, lookup-delete_images d.tx.inputs k m.tx_by_image))
  ]

remove-Cleared :
    (env : Env) (tx : Transaction) (id : Bytes) (m : Mempool)
    → Cleared env tx m
    → Cleared env tx (remove_tx_by_id id m)
remove-Cleared env tx id m h = record {
  gone = λ j e. remove-keeps_absent id m j (h.gone j e);
  images = λ j k e s. remove-keeps_image id m k (h.images j k e s);
}

-- With a consistent pool, the entry that an image leads to takes the image with it.
remove_by_key_image_clears :
    (k : Bytes) (m : Mempool) → Inv m → lookup k (remove_by_key_image k m).tx_by_image ≡ none
unfolding remove_by_key_image
remove_by_key_image_clears k m v = elim (Option-cases (lookup k m.tx_by_image)) [
  | inl e ↦ rw (e, remove_by_key_image) e
  | inr (id, e) ↦
      let (d, l, s) = v.owner k id e in
      unfold remove_tx_by_id in
      rw (e, remove_by_key_image, l, remove_tx_by_id)
        (ground (arith, lookup-delete_images d.tx.inputs k m.tx_by_image))
]

remove_spent_clears :
    (xs : List TxInput) (k : Bytes) (m : Mempool)
    → Inv m
    → contains (map (λ x. x.key_image) xs) k ≡ true
    → lookup k (remove_spent xs m).tx_by_image ≡ none
unfolding remove_spent contains
remove_spent_clears [] k m v s = cc
remove_spent_clears (x ∷ xs) k m v s = elim (Bool-cases (bytes_eq x.key_image k)) [
  | inl e ↦
      remove_spent-keeps (λ n. lookup k n.tx_by_image ≡ none) (λ id n. remove-keeps_image id n k) xs
        (remove_by_key_image x.key_image m)
        (subst (λ j. lookup j (remove_by_key_image x.key_image m).tx_by_image ≡ none)
          ((bytes_eq_iff x.key_image k).0 e) (remove_by_key_image_clears x.key_image m v))
  | inr e ↦
      remove_spent_clears xs k (remove_by_key_image x.key_image m)
        (remove_by_key_image-keeps Inv remove_tx_by_id-Inv x.key_image m v) (ground arith)
]

connect_tx-Cleared :
    (env : Env) (tx : Transaction) (m : Mempool) → Inv m → Cleared env tx (connect_tx env tx m)
unfolding connect_tx
connect_tx-Cleared env tx m v = elim (Result-cases (tx_id env.crypto tx)) [
  | inl (p, e) ↦ record {
    gone = λ id f. absurd (cc (e, f));
    images = λ id k f s. absurd (cc (e, f));
  }
  | inr (id, e) ↦
      let m' = remove_tx_by_id id m in
      rw (e, connect_tx)
        (record {
          gone = λ j f.
              let same : id ≡ j = cc (e, f) in
              subst (λ i. lookup i (remove_spent tx.inputs m').tx_by_id ≡ none) same
                (remove_spent-keeps (λ n. lookup id n.tx_by_id ≡ none)
                  (λ i n. remove-keeps_absent i n id) tx.inputs m' (remove_absent id m));
          images = λ j k f s. remove_spent_clears tx.inputs k m' (remove_tx_by_id-Inv id m v) s;
        })
]

connect_txs-Cleared :
    (env : Env) (txs : List Transaction) (m : Mempool)
    → Inv m
    → All (λ tx. Cleared env tx (connect_txs env txs m)) txs
unfolding connect_txs
connect_txs-Cleared env [] m v = tt
connect_txs-Cleared env (tx ∷ txs) m v =
    let m' = connect_tx env tx m in
    (
      connect_txs-keeps (Cleared env tx) (remove-Cleared env tx) env txs m'
          (connect_tx-Cleared env tx m v),
      connect_txs-Cleared env txs m' (connect_tx-keeps Inv remove_tx_by_id-Inv env tx m v),
    )

All-get_elem? {ℓ κ} :
    {A : Type ℓ} (P : A → Type κ) (xs : List A) (i : ℕ) {a : A}
    → All P xs
    → get_elem? xs i ≡ some a
    → P a
All-get_elem? P [] i h e = absurd (cc e)
All-get_elem? P (x ∷ xs) zero h e = subst P (some_eq e) h.0
All-get_elem? P (x ∷ xs) (suc i) h e = All-get_elem? P xs i h.1 e

-- After a block is connected to a consistent pool, the pool holds none of the block's transactions
-- that has an ID and inputs, and no key image which such a transaction spends.
pub connect_txs_clears :
    (env : Env) (txs : List Transaction) (m : Mempool) (i : ℕ) (tx : Transaction) (id k : Bytes)
    → Inv m
    → get_elem? txs i ≡ some tx
    → tx_id env.crypto tx ≡ ok id
    → spends tx k ≡ true
    → (lookup id (connect_txs env txs m).tx_by_id ≡ none)
      × (lookup k (connect_txs env txs m).tx_by_image ≡ none)
connect_txs_clears env txs m i tx id k v at_i own s =
    let c =
      All-get_elem? (λ t. Cleared env t (connect_txs env txs m)) txs i
        (connect_txs-Cleared env txs m v) at_i in
    (c.gone id own, c.images id k own s)
