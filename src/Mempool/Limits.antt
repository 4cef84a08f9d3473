-- ===== src/Mempool/Limits.antt =====
-- mempool.go: the limits on entries and bytes hold after AddTransaction.
use blocknet_core.Prelude.{
  ℕ, suc, ◌+◌, ◌≤◌, ◌<◌, ◌≡◌, refl, sym, subst, inl, inr, List, [], ◌∷◌, Bytes, false, none, some,
  arith, leb, length, Bool-cases, Result-cases,
}
use blocknet_core.Prelude.Maps.{insert, delete_absent}
use blocknet_core.Mempool.{Mempool, Entry, Env, Config, remove_tx_by_id, evict_lowest}
use blocknet_core.Mempool.Operations.{
  Candidate, check_admission, store, admit_bytes, admit, add_transaction,
}
use blocknet_core.Mempool.Images.{Inv, sum_sizes}
use blocknet_core.Mempool.Keep.{needs_room, evict_lowest-keeps, evict_until-keeps}
use blocknet_core.Mempool.Admit.{Ready, Fresh, remove-Ready, remove-Fresh, store-Inv}
use blocknet_core.Mempool.Admission.{check_admission-Admissible}
use blocknet_core.Mempool.Bounds.{
  Within, remove-Within, evict_until-total, queue-length, evict_lowest-count, remove-count,
}

empty_sum : (m : List (Bytes × Entry)) → length m ≡ 0 → sum_sizes m ≡ 0
unfolding sum_sizes
empty_sum [] h = refl
empty_sum (p ∷ m) h = absurd (omega arith)

-- Where the loop test fails, the new bytes fit, since an empty pool has no bytes.
fits_after :
    (size : ℕ) (m : Mempool)
    → Inv m
    → size ≤ m.config.max_size_bytes
    → needs_room size m ≡ false
    → m.total_size + size ≤ m.config.max_size_bytes
fits_after size m v small h = ground (arith, empty_sum m.tx_by_id, queue-length m v, v.total)

module _ (cfg : Config) (now : ℕ) (tx_data : Bytes) (c : Candidate) where
  -- The candidate can be stored: the pool is within its limits, with a free place.
  record Room (m : Mempool) : Type 0 where
    within : Within cfg m
    fresh : Fresh m c
    free : length m.tx_by_id < cfg.max_size

  remove-Room : (id : Bytes) (m : Mempool) → Room m → Room (remove_tx_by_id id m)
  remove-Room id m r = record {
    within = remove-Within cfg id m r.within;
    fresh = remove-Fresh c id m r.fresh;
    free = omega (arith, remove-count id m, r.free);
  }

  store-Within :
      (m : Mempool)
      → Room m
      → c.size ≤ cfg.max_size_bytes
      → needs_room c.size m ≡ false
      → Within cfg (store now tx_data c.tx.fee c m)
  store-Within m r small h = record {
    inv = store-Inv now c.tx.fee tx_data c m r.within.inv r.fresh;
    same = unfold store in r.within.same;
    count = unfold store insert in rw (delete_absent c.id m.tx_by_id r.fresh.0) r.free;
    bytes =
        unfold store in
        subst (λ (g : Config). m.total_size + c.size ≤ g.max_size_bytes) r.within.same
          (fits_after c.size m r.within.inv
            (subst (λ (g : Config). c.size ≤ g.max_size_bytes) (sym r.within.same) small) h);
  }

  admit_bytes-Within :
      (m : Mempool)
      → Room m
      → c.size ≤ cfg.max_size_bytes
      → Within cfg (admit_bytes now tx_data c m).0
  unfolding admit_bytes
  admit_bytes-Within m r small =
      let ((m', fits), e, f) =
        evict_until-total (suc (length m.priority_queue)) c.size c.fee_rate m r.within.inv
          (omega (arith, queue-length m r.within.inv)) in
      let room = evict_until-keeps Room remove-Room _ c.size c.fee_rate m r e in
      rw (e, admit_bytes)
        (elim (Bool-cases fits) [
          | inl done ↦ rw done (store-Within m' room small (f done))
          | inr stopped ↦ rw stopped room.within
        ])

  admit-Within :
      (m : Mempool)
      → Within cfg m
      → Fresh m c
      → c.size ≤ cfg.max_size_bytes
      → Within cfg (admit now tx_data c m).0
  unfolding admit
  admit-Within m w fresh small = elim (Bool-cases (leb m.config.max_size (length m.tx_by_id))) [
    | inr room ↦
        let free : length m.tx_by_id < cfg.max_size =
          subst (λ (g : Config). length m.tx_by_id < g.max_size) w.same (ground arith) in
        rw room (admit_bytes-Within m (record { within = w; fresh = fresh; free = free }) small)
    | inl full ↦
        let m' = (evict_lowest c.fee_rate m).0 in
        let w' : Within cfg m' =
          evict_lowest-keeps (Within cfg) (remove-Within cfg) c.fee_rate m w in
        rw full (elim (Bool-cases (evict_lowest c.fee_rate m).1) [
          | inr kept ↦ rw kept w'
          | inl evicted ↦ rw evicted (
              admit_bytes-Within m'
                (record {
                  within = w';
                  fresh =
                      (evict_lowest-keeps (Ready c) (remove-Ready c) c.fee_rate m (w.inv, fresh)).1;
                  free = omega (arith, evict_lowest-count c.fee_rate m w.inv evicted, w.count);
                })
                small)
        ])
  ]

-- On a consistent pool that keeps its limits, a call of AddTransaction with bytes that by themselves
-- fit leaves a consistent pool that keeps the limit on its entries and the one on its bytes.
pub add_transaction-Within :
    (env : Env) (cfg : Config) (now fee : ℕ) (tx_data : Bytes) (m : Mempool)
    → Within cfg m
    → length tx_data ≤ cfg.max_size_bytes
    → Within cfg (add_transaction env now fee tx_data m).0
unfolding add_transaction
add_transaction-Within env cfg now fee tx_data m w small =
    elim (Result-cases (check_admission env m fee tx_data)) [
      | inl (e, refused) ↦ rw (refused, add_transaction) w
      | inr (none, known) ↦ rw (known, add_transaction) w
      | inr (some c, new) ↦
          let a = check_admission-Admissible env m fee tx_data c new in
          rw (new, add_transaction)
            (admit-Within cfg now tx_data c m w a.fresh (omega (arith, a.size)))
    ]
