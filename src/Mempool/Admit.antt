-- ===== src/Mempool/Admit.antt =====
-- mempool.go: AddTransaction keeps the pool consistent, and what a result of it means.
use blocknet_core.Prelude.{
  ℕ, suc, ◌≡◌, sym, ap, subst, ◌∙◌, ◌≢◌, ◌∷◌, Bytes, true, none, some, arith, if◌then◌else◌, leb,
  length, bytes_eq, bytes_eq_iff, Bool-cases, Option-cases, inl, inr, some_eq,
}
use blocknet_core.Prelude.Maps.{
  lookup, insert, keys, lookup-insert, lookup-delete, insert-IsMap, delete_absent,
}
use blocknet_core.Mempool.{Mempool, Entry, remove_tx_by_id, evict_lowest, evict_until}
use blocknet_core.Mempool.Operations.{Candidate, store, admit_bytes, admit}
use blocknet_core.Mempool.Images.{
  Inv, spends, sum_sizes, lookup-insert_images, lookup-delete_images,
}
use blocknet_core.Mempool.Remove.{remove_tx_by_id-Inv}
use blocknet_core.Mempool.Keep.{evict_lowest-keeps, evict_until-keeps}

-- No entry of the pool uses a key image of these inputs.
abbrev pub Fresh : Mempool → Candidate → Type 0
Fresh m c =
    (lookup c.id m.tx_by_id ≡ none)
    × ((k : Bytes) → spends c.tx k ≡ true → lookup k m.tx_by_image ≡ none)

module _ (now fee : ℕ) (tx_data : Bytes) (c : Candidate) (m : Mempool) where
  abbrev pub new_entry : Entry
  new_entry = record {
    tx = c.tx;
    id = c.id;
    tx_data = tx_data;
    fee = fee;
    fee_rate = c.fee_rate;
    size = c.size;
    added_at = now;
  }

  pub store-lookup :
      (j : Bytes)
      → lookup j (store now tx_data fee c m).tx_by_id
        ≡ (if bytes_eq c.id j then some new_entry else lookup j m.tx_by_id)
  unfolding store
  store-lookup j = lookup-insert c.id j new_entry m.tx_by_id

  store-image :
      (k : Bytes)
      → lookup k (store now tx_data fee c m).tx_by_image
        ≡ (if spends c.tx k then some c.id else lookup k m.tx_by_image)
  unfolding store
  store-image k = lookup-insert_images c.id c.tx.inputs k m.tx_by_image

  module _ (v : Inv m) (fresh : Fresh m c) where
    store-owner :
        (k id : Bytes)
        → lookup k (store now tx_data fee c m).tx_by_image ≡ some id
        → (e : Entry) × (lookup id (store now tx_data fee c m).tx_by_id ≡ some e)
          × (spends e.tx k ≡ true)
    store-owner k id h = elim (Bool-cases (spends c.tx k)) [
      | inl s ↦
          let same : c.id ≡ id = ground (arith, store-image k) in
          (new_entry, ground (arith, store-lookup id, bytes_eq_iff c.id id), s)
      | inr s ↦
          let (e, l, t) = v.owner k id (ground (arith, store-image k)) in
          let differ : c.id ≢ id =
            λ same. cc (subst (λ j. lookup j m.tx_by_id ≡ none) same fresh.0, l) in
          (e, ground (arith, store-lookup id, bytes_eq_iff c.id id), t)
    ]

    store-image_of :
        (id k : Bytes) (e : Entry)
        → lookup id (store now tx_data fee c m).tx_by_id ≡ some e
        → spends e.tx k ≡ true
        → lookup k (store now tx_data fee c m).tx_by_image ≡ some id
    store-image_of id k e h s = elim (Bool-cases (bytes_eq c.id id)) [
      | inl same ↦
          let e' : new_entry ≡ e = some_eq (ground (arith, store-lookup id)) in
          let s' : spends c.tx k ≡ true = subst (λ (d : Entry). spends d.tx k ≡ true) (sym e') s in
          ground (arith, store-image k, bytes_eq_iff c.id id)
      | inr differ ↦
          let old : lookup id m.tx_by_id ≡ some e = ground (arith, store-lookup id) in
          let image = v.image id k e old s in ground (arith, store-image k, fresh.1 k)
    ]

    pub store-Inv : Inv (store now tx_data fee c m)
    store-Inv = record {
      is_map = unfold store in insert-IsMap c.id new_entry m.tx_by_id v.is_map;
      own_id = λ id e h. own id e h;
      owner = store-owner;
      image = store-image_of;
      total =
          unfold store insert sum_sizes in
          rw (delete_absent c.id m.tx_by_id fresh.0) (omega (arith, v.total));
      queue =
          unfold store insert keys in
          rw (delete_absent c.id m.tx_by_id fresh.0) (ap (◌∷◌ c.id) v.queue);
    }
      where
        own :
            (id : Bytes) (e : Entry)
            → lookup id (store now tx_data fee c m).tx_by_id ≡ some e
            → e.id ≡ id
        own id e h = elim (Bool-cases (bytes_eq c.id id)) [
          | inl same ↦
              let e' : new_entry ≡ e = some_eq (ground (arith, store-lookup id)) in
              ap (λ (d : Entry). d.id) (sym e') ∙ (bytes_eq_iff c.id id).0 same
          | inr differ ↦ v.own_id id e (ground (arith, store-lookup id))
        ]

pub remove-Fresh :
    (c : Candidate) (id : Bytes) (m : Mempool) → Fresh m c → Fresh (remove_tx_by_id id m) c
unfolding remove_tx_by_id
remove-Fresh c id m fresh = elim (Option-cases (lookup id m.tx_by_id)) [
  | inl absent ↦ rw (absent, remove_tx_by_id) fresh
  | inr (e, found) ↦
      rw (found, remove_tx_by_id)
        (
          ground (arith, lookup-delete id c.id m.tx_by_id, fresh.0),
          λ k s. ground (arith, lookup-delete_images e.tx.inputs k m.tx_by_image, fresh.1 k s),
        )
]

-- A pool that is consistent and has neither the candidate's ID nor any of its key images.
abbrev pub Ready : Candidate → Mempool → Type 0
Ready c m = Inv m × Fresh m c

pub remove-Ready :
    (c : Candidate) (id : Bytes) (m : Mempool) → Ready c m → Ready c (remove_tx_by_id id m)
remove-Ready c id m h = (remove_tx_by_id-Inv id m h.0, remove-Fresh c id m h.1)

module _ (now : ℕ) (tx_data : Bytes) (c : Candidate) (m : Mempool) where
  admit_bytes-Inv : Ready c m → Inv (admit_bytes now tx_data c m).0
  unfolding admit_bytes
  admit_bytes-Inv h =
      elim (Option-cases (evict_until (suc (length m.priority_queue)) c.size c.fee_rate m)) [
        | inl e ↦ rw (e, admit_bytes) h.0
        | inr ((m', fits), e) ↦
            let ready = evict_until-keeps (Ready c) (remove-Ready c) _ c.size c.fee_rate m h e in
            rw (e, admit_bytes)
              (elim (Bool-cases fits) [
                | inl yes_fits ↦ rw yes_fits (store-Inv now c.tx.fee tx_data c m' ready.0 ready.1)
                | inr no_fits ↦ rw no_fits ready.0
              ])
      ]

pub admit-Inv :
    (now : ℕ) (tx_data : Bytes) (c : Candidate) (m : Mempool)
    → Ready c m
    → Inv (admit now tx_data c m).0
unfolding admit
admit-Inv now tx_data c m h = elim (Bool-cases (leb m.config.max_size (length m.tx_by_id))) [
  | inr room ↦ rw room (admit_bytes-Inv now tx_data c m h)
  | inl full ↦
      let m' = (evict_lowest c.fee_rate m).0 in
      let ready : Ready c m' = evict_lowest-keeps (Ready c) (remove-Ready c) c.fee_rate m h in
      rw full (elim (Bool-cases (evict_lowest c.fee_rate m).1) [
        | inl evicted ↦ rw evicted (admit_bytes-Inv now tx_data c m' ready)
        | inr kept ↦ rw kept ready.0
      ])
]
