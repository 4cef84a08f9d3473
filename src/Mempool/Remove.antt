-- ===== src/Mempool/Remove.antt =====
-- mempool.go: removal and eviction keep the pool consistent.
use blocknet_core.Prelude.{
  ◌-◌, ◌≡◌, refl, ap, subst, sym, ◌∙◌, ◌≢◌, inl, inr, Bytes, true, false, some, arith, bytes_eq_iff,
  Option-cases,
}
use blocknet_core.Prelude.Maps.{lookup, delete, keys, lookup-delete, delete-IsMap}
use blocknet_core.Mempool.{
  Mempool, Entry, Config, new_mempool, delete_images, dequeue, remove_tx_by_id,
}
use blocknet_core.Mempool.Images.{
  Inv, spends, sum_sizes, lookup-delete_images, keys-delete, sum_sizes-delete,
}

pub new_mempool-Inv : (cfg : Config) → Inv (new_mempool cfg)
unfolding new_mempool sum_sizes keys lookup
new_mempool-Inv cfg = record {
  is_map = tt;
  own_id = λ id e h. cc;
  owner = λ k id h. cc;
  image = λ id k e h s. cc;
  total = refl;
  queue = refl;
}

-- A removed entry, and what the pool is without it.
module _ (m : Mempool) (id : Bytes) (e : Entry) (found : lookup id m.tx_by_id ≡ some e) where
  unfoldable pub removed : Mempool
  removed = record m {
    tx_by_id = delete id m.tx_by_id;
    tx_by_image = delete_images e.tx.inputs m.tx_by_image;
    total_size = m.total_size - e.size;
    priority_queue = dequeue id m.priority_queue;
  }

  pub remove-removed : remove_tx_by_id id m ≡ removed
  unfolding remove_tx_by_id removed
  remove-removed = rw (found, remove_tx_by_id)

  -- What is left under another ID was there before.
  other_entry :
      (j : Bytes) (d : Entry)
      → lookup j (delete id m.tx_by_id) ≡ some d
      → (id ≢ j) × (lookup j m.tx_by_id ≡ some d)
  other_entry j d h = (
    λ same. ground (arith, lookup-delete id j m.tx_by_id, bytes_eq_iff id j),
    ground (arith, lookup-delete id j m.tx_by_id),
  )

  other_image :
      (k j : Bytes)
      → lookup k (delete_images e.tx.inputs m.tx_by_image) ≡ some j
      → (spends e.tx k ≡ false) × (lookup k m.tx_by_image ≡ some j)
  other_image k j h = (
    ground (arith, lookup-delete_images e.tx.inputs k m.tx_by_image),
    ground (arith, lookup-delete_images e.tx.inputs k m.tx_by_image),
  )

  removed-owner :
      Inv m
      → (k j : Bytes) → lookup k removed.tx_by_image ≡ some j
      → (d : Entry) × (lookup j removed.tx_by_id ≡ some d) × (spends d.tx k ≡ true)
  unfolding removed
  removed-owner v k j h =
      let (unspent, before) = other_image k j h in
      let (d, l, s) = v.owner k j before in
      let differ : id ≢ j =
        λ same. cc (subst (λ i. lookup i m.tx_by_id ≡ some e) same found, l, unspent, s) in
      (d, ground (arith, lookup-delete id j m.tx_by_id, bytes_eq_iff id j), s)

  removed-image :
      Inv m
      → (j k : Bytes) (d : Entry) → lookup j removed.tx_by_id ≡ some d
      → spends d.tx k ≡ true
      → lookup k removed.tx_by_image ≡ some j
  unfolding removed
  removed-image v j k d h s =
      let (differ, before) = other_entry j d h in
      let now = v.image j k d before s in
      ground (arith, lookup-delete_images e.tx.inputs k m.tx_by_image, v.image id k e found)

  removed-Inv : Inv m → Inv removed
  unfolding removed
  removed-Inv v = record {
    is_map = delete-IsMap id m.tx_by_id v.is_map;
    own_id = λ j d h. v.own_id j d (other_entry j d h).1;
    owner = removed-owner v;
    image = removed-image v;
    total = omega (arith, sum_sizes-delete id e m.tx_by_id v.is_map found, v.total);
    queue = ap (dequeue id) v.queue ∙ sym (keys-delete id m.tx_by_id);
  }

pub remove_tx_by_id-Inv : (id : Bytes) (m : Mempool) → Inv m → Inv (remove_tx_by_id id m)
unfolding remove_tx_by_id
remove_tx_by_id-Inv id m v = elim (Option-cases (lookup id m.tx_by_id)) [
  | inl absent ↦ rw (absent, remove_tx_by_id) v
  | inr (e, found) ↦ rw (remove-removed m id e found) (removed-Inv m id e found v)
]
