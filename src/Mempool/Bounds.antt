-- ===== src/Mempool/Bounds.antt =====
-- mempool.go: AddTransaction respects both limits, and its eviction loop ends.
use blocknet_core.Prelude.{
  ℕ, zero, suc, ◌+◌, ◌≤◌, ◌<◌, ◌≡◌, ◌≢◌, ap, ◌∙◌, inl, inr, Bytes, Bool, true, false, some, err,
  arith, length, Bool-cases,
}
use blocknet_core.Prelude.Maps.{length-delete, length-delete-le}
use blocknet_core.Mempool.{Mempool, Config, out_of_fuel, remove_tx_by_id, evict_lowest, evict_until}
use blocknet_core.Mempool.Operations.{Candidate, admit_bytes}
use blocknet_core.Mempool.Images.{Inv, length-keys}
use blocknet_core.Mempool.Remove.{remove_tx_by_id-Inv}
use blocknet_core.Mempool.Keep.{
  needs_room, evict_until-stop, evict_until-fail, evict_until-step, evict_lowest-keeps,
}
use blocknet_core.Mempool.Evict.{evict_lowest-Evicts}

-- The limits, for a pool whose configuration is `cfg`.
pub record Within (cfg : Config) (m : Mempool) : Type 0 where
  pub inv : Inv m
  pub same : m.config ≡ cfg
  pub count : length m.tx_by_id ≤ cfg.max_size
  pub bytes : m.total_size ≤ cfg.max_size_bytes

remove-config : (id : Bytes) (m : Mempool) → (remove_tx_by_id id m).config ≡ m.config
unfolding remove_tx_by_id
remove-config id m = ground arith

pub remove-count :
    (id : Bytes) (m : Mempool) → length (remove_tx_by_id id m).tx_by_id ≤ length m.tx_by_id
unfolding remove_tx_by_id
remove-count id m = ground (arith, length-delete-le id m.tx_by_id)

remove-total : (id : Bytes) (m : Mempool) → (remove_tx_by_id id m).total_size ≤ m.total_size
unfolding remove_tx_by_id
remove-total id m = ground arith

pub remove-Within :
    (cfg : Config) (id : Bytes) (m : Mempool) → Within cfg m → Within cfg (remove_tx_by_id id m)
remove-Within cfg id m w = record {
  inv = remove_tx_by_id-Inv id m w.inv;
  same = remove-config id m ∙ w.same;
  count = omega (arith, remove-count id m, w.count);
  bytes = omega (arith, remove-total id m, w.bytes);
}

-- An eviction lowers the number of entries by one.
pub evict_lowest-count :
    (rate : ℕ) (m : Mempool)
    → Inv m
    → (evict_lowest rate m).1 ≡ true
    → length (evict_lowest rate m).0.tx_by_id + 1 ≡ length m.tx_by_id
evict_lowest-count rate m v h = elim (evict_lowest-Evicts rate m v.is_map) [
  | inl e ↦ absurd (cc (h, ap (λ (r : Mempool × Bool). r.1) e))
  | inr (id, d, w) ↦
      ap (λ (r : Mempool × Bool). length r.0.tx_by_id + 1) w.result
      ∙ unfold remove_tx_by_id in
        rw (w.found, remove_tx_by_id) (length-delete id d m.tx_by_id v.is_map w.found)
]

pub queue-length : (m : Mempool) → Inv m → length m.priority_queue ≡ length m.tx_by_id
queue-length m v = ap length v.queue ∙ length-keys m.tx_by_id

-- With fuel for one round more than there are entries, the loop ends, and where it ends by its own
-- test the bytes fit, unless the pool is empty.
pub evict_until-total :
    (fuel size rate : ℕ) (m : Mempool)
    → Inv m
    → length m.tx_by_id < fuel
    → (r : Mempool × Bool) × (evict_until fuel size rate m ≡ some r)
      × (r.1 ≡ true → needs_room size r.0 ≡ false)
evict_until-total zero size rate m v h = absurd (omega arith)
evict_until-total (suc fuel) size rate m v h = elim (Bool-cases (needs_room size m)) [
  | inr fits ↦ ((m, true), evict_until-stop fuel size rate m fits, λ e. fits)
  | inl more ↦ elim (Bool-cases (evict_lowest rate m).1) [
    | inr stuck ↦ (
      ((evict_lowest rate m).0, false),
      evict_until-fail fuel size rate m more stuck,
      λ e. absurd (cc e),
    )
    | inl evicted ↦
        let m' = (evict_lowest rate m).0 in
        let (r, e, f) =
          evict_until-total fuel size rate m' (evict_lowest-keeps Inv remove_tx_by_id-Inv rate m v)
            (omega (arith, evict_lowest-count rate m v evicted)) in
        (r, evict_until-step fuel size rate m more evicted ∙ e, f)
  ]
]

-- The eviction loop of AddTransaction always ends within its fuel, on a consistent pool.
pub admit_bytes-fuel :
    (now : ℕ) (tx_data : Bytes) (c : Candidate) (m : Mempool)
    → Inv m
    → (admit_bytes now tx_data c m).1 ≢ err out_of_fuel
unfolding admit_bytes
admit_bytes-fuel now tx_data c m v =
    let (r, e, f) =
      evict_until-total (suc (length m.priority_queue)) c.size c.fee_rate m v
        (omega (arith, queue-length m v)) in
    rw (e, admit_bytes)
      (elim (Bool-cases r.1) [ inl a ↦ rw a (λ q. cc q) | inr a ↦ rw a (λ q. cc q) ])
