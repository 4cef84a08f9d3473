-- ===== src/Chain/Spent.antt =====
-- block.go: branchAwareSpentCheckerLocked and isCanonicalRingMemberLocked.
use blocknet_core.Prelude.{
  ℕ, zero, suc, ◌+◌, List, [], ◌∷◌, ◌++◌, Bytes, Bool, true, false, ◌||◌, not, ◌&&◌, Option, none,
  some, Result, ok, err, if◌then◌else◌, ◌==◌, bytes_eq, contains,
}
use blocknet_core.Tx.{Transaction, TxInput, TxOutput, is_coinbase}
use blocknet_core.Block.{Block}
use blocknet_core.Store.{KeyValue, get_tip, hash_by_height}
use blocknet_core.Chain.{Chain, ChainError, get_block, image_spent}

unfoldable pub add_inputs : List TxInput → List Bytes → List Bytes
add_inputs [] seen = seen
add_inputs (x ∷ xs) seen = add_inputs xs (x.key_image ∷ seen)

unfoldable pub add_images : List Transaction → List Bytes → List Bytes
add_images [] seen = seen
add_images (tx ∷ txs) seen =
    add_images txs (if is_coinbase tx then seen else add_inputs tx.inputs seen)

-- canonicalRingIndexKey
unfoldable pub ring_key : Bytes → Bytes → Bytes
ring_key public_key commitment = public_key ++ commitment

unfoldable pub add_ring_outputs : List TxOutput → List Bytes → List Bytes
add_ring_outputs [] index = index
add_ring_outputs (o ∷ os) index = add_ring_outputs os (ring_key o.public_key o.commitment ∷ index)

unfoldable pub add_ring_txs : List Transaction → List Bytes → List Bytes
add_ring_txs [] index = index
add_ring_txs (tx ∷ txs) index = add_ring_txs txs (add_ring_outputs tx.outputs index)

module _ (kv : KeyValue) (c : Chain kv) where
  -- A block is on the main chain.
  unfoldable pub on_main : Bytes → Block → Bool
  on_main h b = elim (c.by_height b.header.height) [ none ↦ false | some main ↦ bytes_eq main h ]

  -- The loop from the parent down to the main chain, on fuel.
  unfoldable pub branch_images : ℕ → Bytes → List Bytes → Result ChainError (List Bytes)
  branch_images zero h seen = err ChainError.out_of_fuel
  branch_images (suc n) h seen = elim (get_block kv c h) [
    | none ↦ err ChainError.orphan_block
    | some b ↦ elim (on_main h b) [
      | true ↦ ok seen
      | false ↦ elim (b.header.height == 0) [
        | true ↦ ok (add_images b.transactions seen)
        | false ↦ branch_images n b.header.prev_hash (add_images b.transactions seen)
      ]
    ]
  ]

  -- branchAwareSpentCheckerLocked
  unfoldable pub branch_spent : Bytes → Result ChainError (Bytes → Bool)
  branch_spent parent = elim (get_block kv c parent) [
    | none ↦ err ChainError.orphan_block
    | some b ↦ elim (branch_images (b.header.height + 1) parent []) [
      | err e ↦ err e
      | ok seen ↦ ok (λ k. contains seen k || image_spent kv c k)
    ]
  ]

  -- The loop of ensureCanonicalRingIndexLocked over n heights from h on.
  unfoldable pub ring_loop : ℕ → ℕ → List Bytes → Option (List Bytes)
  ring_loop zero h index = some index
  ring_loop (suc n) h index = elim (hash_by_height kv h c.store) [
    | none ↦ none
    | some hash ↦ elim (get_block kv c hash) [
      | none ↦ none
      | some b ↦ ring_loop n (h + 1) (add_ring_txs b.transactions index)
    ]
  ]

  -- The index that ensureCanonicalRingIndexLocked leaves; none where it fails. The code also stores it, with
  -- its tip, for the next call, which finds it up to date; here it is computed again.
  unfoldable pub canonical_ring_index : Option (List Bytes)
  canonical_ring_index = elim (get_tip kv c.store).0 [
    | none ↦ some []
    | some tip ↦
        if not c.ring_index_dirty && c.ring_index_ready && bytes_eq c.ring_index_tip tip
        then some c.ring_index
        else ring_loop ((get_tip kv c.store).1.0 + 1) 0 []
  ]

  -- isCanonicalRingMemberLocked
  unfoldable pub is_ring_member : Bytes → Bytes → Bool
  is_ring_member public_key commitment = elim canonical_ring_index [
    | none ↦ false
    | some index ↦ contains index (ring_key public_key commitment)
  ]
