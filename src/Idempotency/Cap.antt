-- ===== src/Idempotency/Cap.antt =====
-- api_idempotency.go: about the eviction of enforceCapLocked.
use blocknet_core.Prelude.{
  ℕ, zero, suc, ◌≤◌, ◌<◌, ◌≡◌, ap, subst, [], ◌∷◌, Bytes, true, false, Option, none, some, ltb,
  ltb-false→le, ◌==◌, bytes_eq, bytes_eq_iff, length, All, arith, inl, inr, Bool-cases,
  Option-cases, some_eq, ◌⊎◌,
}
use blocknet_core.Prelude.Maps.{delete, length-delete-le}
use blocknet_core.Idempotency.{IdempotencyEntry, Entries, Cache, older, oldest, evict, enforce_cap}
use blocknet_core.Idempotency.Flying.{has_key}

abbrev pub InFlight : Bytes × IdempotencyEntry → Type 0
InFlight p = p.1.in_flight ≡ true

abbrev pub Named : Bytes × IdempotencyEntry → Type 0
Named p = (length p.0 == 0) ≡ false

older-some :
    (k : Bytes) (e : IdempotencyEntry) (best : Option (Bytes × ℕ))
    → older k e best ≡ none
    → Unit {0}
    → ⊥
unfolding older
older-some k e none h u = cc h
older-some k e (some b) h u = elim (Bool-cases (ltb e.created_at b.1)) [
  | inl newer ↦ cc (rw (older, newer) at h)
  | inr not_newer ↦ cc (rw (older, not_newer) at h)
]

oldest-none :
    (m : Entries) (best : Option (Bytes × ℕ))
    → oldest best m ≡ none
    → (best ≡ none) × All InFlight m
unfolding oldest older
oldest-none [] best h = (h, tt)
oldest-none ((k, e) ∷ m) best h = elim (Bool-cases e.in_flight) [
  | inl flying ↦
      let (first, rest) = oldest-none m best (rw (oldest, flying) at h) in (first, (flying, rest))
  | inr done ↦
      let (first, rest) = oldest-none m (older k e best) (rw (oldest, done) at h) in
      absurd (older-some k e best first tt)
]

older_cases :
    (k : Bytes) (e : IdempotencyEntry) (best : Option (Bytes × ℕ)) {b : Bytes × ℕ}
    → older k e best ≡ some b
    → (best ≡ some b) ⊎ (k ≡ b.0)
unfolding older
older_cases k e none h = inr (ap (λ (p : Bytes × ℕ). p.0) (some_eq h))
older_cases k e (some d) h = elim (Bool-cases (ltb e.created_at d.1)) [
  | inl newer ↦ inr (ap (λ (p : Bytes × ℕ). p.0) (some_eq (rw (older, newer) at h)))
  | inr not_newer ↦ inl (rw (older, not_newer) at h)
]

-- The key that is found belongs to an entry.
oldest-has_key :
    (m : Entries) (best : Option (Bytes × ℕ)) {b : Bytes × ℕ}
    → oldest best m ≡ some b
    → (best ≡ some b) ⊎ (has_key b.0 m ≡ true)
unfolding oldest has_key older
oldest-has_key [] best h = inl h
oldest-has_key ((k, e) ∷ m) best {b} h = elim (Bool-cases e.in_flight) [
  | inl flying ↦ elim (oldest-has_key m best (rw (oldest, flying) at h)) [
    | inl first ↦ inl first
    | inr there ↦ inr (ground (arith, there))
  ]
  | inr done ↦ elim (oldest-has_key m (older k e best) (rw (oldest, done) at h)) [
    | inr there ↦ inr (ground (arith, there))
    | inl first ↦ elim (older_cases k e best first) [
      | inl before ↦ inl before
      | inr same ↦ inr (ground (arith, (bytes_eq_iff k b.0).1 same))
    ]
  ]
]

pub length-delete-lt :
    (k : Bytes) (m : Entries) → has_key k m ≡ true → length (delete k m) < length m
unfolding delete has_key
length-delete-lt k [] h = absurd (cc h)
length-delete-lt k ((j, e) ∷ m) h = elim (Bool-cases (bytes_eq j k)) [
  | inl same ↦ rw (same, delete) (omega (arith, length-delete-le k m))
  | inr other ↦ rw (other, delete) (omega (arith, length-delete-lt k m (rw other at h)))
]

has_key-Named :
    (m : Entries) (k : Bytes) → All Named m → has_key k m ≡ true → (length k == 0) ≡ false
unfolding has_key
has_key-Named [] k named h = absurd (cc h)
has_key-Named ((j, e) ∷ m) k named h = elim (Bool-cases (bytes_eq j k)) [
  | inl same ↦ subst (λ (x : Bytes). (length x == 0) ≡ false) ((bytes_eq_iff j k).0 same) named.0
  | inr other ↦ has_key-Named m k named.1 (rw other at h)
]

delete-Named : (k : Bytes) (m : Entries) → All Named m → All Named (delete k m)
unfolding delete
delete-Named k [] named = tt
delete-Named k ((j, e) ∷ m) named = elim (Bool-cases (bytes_eq j k)) [
  | inl same ↦ rw (same, delete) (delete-Named k m named.1)
  | inr other ↦ rw (other, delete) (named.0, delete-Named k m named.1)
]

evict_bound :
    (n max : ℕ) (m : Entries)
    → length m ≤ n
    → All Named m
    → (length (evict n max m) ≤ max) ⊎ All InFlight (evict n max m)
unfolding evict
evict_bound zero max m fuel named = inl (omega (arith, fuel))
evict_bound (suc n) max m fuel named = elim (Bool-cases (ltb max (length m))) [
  | inr small ↦ inl (rw (evict, small) (ltb-false→le max (length m) small))
  | inl big ↦ elim (Option-cases (oldest none m)) [
    | inl all_flying ↦ inr (rw (evict, big) (rw all_flying (oldest-none m none all_flying).1))
    | inr (b, found) ↦ elim (oldest-has_key m none found) [
      | inl never ↦ absurd (cc never)
      | inr there ↦
          rw (evict, big)
            (rw (found, has_key-Named m b.0 named there)
              (evict_bound n max (delete b.0 m) (omega (arith, fuel, length-delete-lt b.0 m there))
                (delete-Named b.0 m named)))
    ]
  ]
]

-- enforceCapLocked ends within as many rounds as there are entries: the cache is then within its limit, or
-- every entry left is in flight. No key is empty.
pub enforce_cap_bound :
    (c : Cache)
    → 0 < c.max_entries
    → All Named c.entries
    → (length (enforce_cap c).entries ≤ c.max_entries) ⊎ All InFlight (enforce_cap c).entries
unfolding enforce_cap
enforce_cap_bound c limited named =
    let on : (c.max_entries == 0) ≡ false = ground (arith, limited) in
    rw (enforce_cap, on)
      (evict_bound (length c.entries) c.max_entries c.entries (omega arith) named)
