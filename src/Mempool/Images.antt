-- ===== src/Mempool/Images.antt =====
-- mempool.go: how the pool's two maps, its queue and its size hang together.
use blocknet_core.Prelude.{
  ℕ, suc, ◌+◌, ◌≡◌, refl, ap, List, [], ◌∷◌, Bytes, Bool, true, none, some, arith, if◌then◌else◌,
  length, bytes_eq_iff, contains, map,
}
use blocknet_core.Prelude.Maps.{
  lookup, delete, insert, keys, IsMap, lookup-delete, lookup-insert, delete_absent,
}
use blocknet_core.Tx.{Transaction, TxInput}
use blocknet_core.Mempool.{Mempool, Entry, dequeue, delete_images, insert_images}

-- The transaction uses the key image.
abbrev pub spends : Transaction → Bytes → Bool
spends tx k = contains (map (λ x. x.key_image) tx.inputs) k

unfoldable pub sum_sizes : List (Bytes × Entry) → ℕ
sum_sizes [] = 0
sum_sizes ((id, e) ∷ m) = e.size + sum_sizes m

-- Every key image in the pool belongs to exactly one entry, which the image map names; entries stand
-- under their own IDs, the queue holds the same IDs, and the total is the sum of the sizes.
pub record Inv (m : Mempool) : Type 0 where
  pub is_map : IsMap m.tx_by_id
  pub own_id : (id : Bytes) (e : Entry) → lookup id m.tx_by_id ≡ some e → e.id ≡ id
  pub owner :
      (k id : Bytes)
      → lookup k m.tx_by_image ≡ some id
      → (e : Entry) × (lookup id m.tx_by_id ≡ some e) × (spends e.tx k ≡ true)
  pub image :
      (id k : Bytes) (e : Entry)
      → lookup id m.tx_by_id ≡ some e
      → spends e.tx k ≡ true
      → lookup k m.tx_by_image ≡ some id
  pub total : m.total_size ≡ sum_sizes m.tx_by_id
  pub queue : m.priority_queue ≡ keys m.tx_by_id

pub lookup-delete_images :
    (xs : List TxInput) (k : Bytes) (m : List (Bytes × Bytes))
    → lookup k (delete_images xs m)
      ≡ (if contains (map (λ x. x.key_image) xs) k then none else lookup k m)
unfolding delete_images contains
lookup-delete_images [] k m = refl
lookup-delete_images (x ∷ xs) k m =
    ground (arith, lookup-delete_images xs k (delete x.key_image m), lookup-delete x.key_image k m)

pub lookup-insert_images :
    (id : Bytes) (xs : List TxInput) (k : Bytes) (m : List (Bytes × Bytes))
    → lookup k (insert_images id xs m)
      ≡ (if contains (map (λ x. x.key_image) xs) k then some id else lookup k m)
unfolding insert_images contains
lookup-insert_images id [] k m = refl
lookup-insert_images id (x ∷ xs) k m = ground (
  arith,
  lookup-insert_images id xs k (insert x.key_image id m),
  lookup-insert x.key_image k id m,
)

pub keys-delete : (id : Bytes) (m : List (Bytes × Entry)) → keys (delete id m) ≡ dequeue id (keys m)
unfolding keys delete dequeue
keys-delete id [] = refl
keys-delete id ((j, e) ∷ m) = ground (arith, keys-delete id m)

pub length-keys : (m : List (Bytes × Entry)) → length (keys m) ≡ length m
unfolding keys
length-keys [] = refl
length-keys ((j, e) ∷ m) = ap suc (length-keys m)

pub sum_sizes-delete :
    (id : Bytes) (e : Entry) (m : List (Bytes × Entry))
    → IsMap m
    → lookup id m ≡ some e
    → sum_sizes (delete id m) + e.size ≡ sum_sizes m
unfolding sum_sizes delete lookup
sum_sizes-delete id e [] h l = cc
sum_sizes-delete id e ((j, d) ∷ m) h l =
    ground (arith, bytes_eq_iff j id, delete_absent id m, sum_sizes-delete id e m h.1)
