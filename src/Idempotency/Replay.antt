-- ===== src/Idempotency/Replay.antt =====
-- api_idempotency.go: about completed requests that are repeated.
use blocknet_core.Prelude.{
  ℕ, zero, suc, ◌+◌, ◌≤◌, ◌<◌, ◌≡◌, refl, ap, ◌∙◌, [], ◌∷◌, Bytes, true, false, some, le→ltb-false,
  ◌==◌, bytes_eq, bytes_eq_iff, bytes_eq_refl, length, arith, inl, inr, Bool-cases, some_eq, ◌⊎◌,
}
use blocknet_core.Prelude.Maps.{lookup, insert, delete, lookup-insert}
use blocknet_core.Idempotency.{
  Answer, IdempotencyEntry, Entries, Cache, replay, expired, drop_expired, prune, evict,
  enforce_cap, answer_for, get_or_start, complete,
}
use blocknet_core.Idempotency.Flying.{has_key}
use blocknet_core.Idempotency.Cap.{length-delete-lt}

-- Within the ttl, or without one.
abbrev pub InTime : Cache → ℕ → ℕ → Type 0
InTime c now later = (c.ttl ≡ 0) ⊎ (later ≤ now + c.ttl)

-- The cache has room, or no limit.
abbrev pub HasRoom : Cache → Type 0
HasRoom c = (c.max_entries ≡ 0) ⊎ (length c.entries ≤ c.max_entries)

lookup-drop_expired :
    (ttl now : ℕ) (key : Bytes) (m : Entries) {e : IdempotencyEntry}
    → lookup key m ≡ some e
    → expired ttl now e ≡ false
    → lookup key (drop_expired ttl now m) ≡ some e
unfolding lookup drop_expired
lookup-drop_expired ttl now key [] there young = there
lookup-drop_expired ttl now key ((k, d) ∷ m) {e} there young = elim (Bool-cases (bytes_eq k key)) [
  | inl same ↦
      let first : d ≡ e = some_eq (rw (lookup, same) at there) in
      let keep : expired ttl now d ≡ false = ap (expired ttl now) first ∙ young in
      rw (drop_expired, keep) (rw (lookup, same) (ap some first))
  | inr other ↦
      let rest = lookup-drop_expired ttl now key m (rw (lookup, other) at there) young in
      elim (Bool-cases (expired ttl now d)) [
        | inl old ↦ rw (drop_expired, old) rest
        | inr keep ↦ rw (drop_expired, keep) (rw (lookup, other) rest)
      ]
]

length-drop_expired-le : (ttl now : ℕ) (m : Entries) → length (drop_expired ttl now m) ≤ length m
unfolding drop_expired
length-drop_expired-le ttl now [] = omega arith
length-drop_expired-le ttl now ((k, e) ∷ m) = elim (Bool-cases (expired ttl now e)) [
  | inl old ↦ rw (drop_expired, old) (omega (arith, length-drop_expired-le ttl now m))
  | inr keep ↦ rw (drop_expired, keep) (omega (arith, length-drop_expired-le ttl now m))
]

pub lookup-has_key :
    (key : Bytes) (m : Entries) {e : IdempotencyEntry}
    → lookup key m ≡ some e
    → has_key key m ≡ true
unfolding lookup has_key
lookup-has_key key [] h = absurd (cc h)
lookup-has_key key ((k, d) ∷ m) h = elim (Bool-cases (bytes_eq k key)) [
  | inl same ↦ ground (arith, same)
  | inr other ↦ ground (arith, lookup-has_key key m (rw (lookup, other) at h))
]

lookup-prune :
    (now : ℕ) (key : Bytes) (c : Cache) {e : IdempotencyEntry}
    → lookup key c.entries ≡ some e
    → (c.ttl ≡ 0) ⊎ (expired c.ttl now e ≡ false)
    → lookup key (prune now c).entries ≡ some e
unfolding prune
lookup-prune now key c there (inl off) =
    let test : (c.ttl == 0) ≡ true = ground (arith, off) in rw (prune, test) there
lookup-prune now key c there (inr young) = elim (Bool-cases (c.ttl == 0)) [
  | inl off ↦ rw (prune, off) there
  | inr on ↦ rw (prune, on) (lookup-drop_expired c.ttl now key c.entries there young)
]

-- What pruning leaves of the rest of the cache.
prune_rest :
    (now : ℕ) (c : Cache)
    → ((prune now c).ttl ≡ c.ttl)
      × (((prune now c).max_entries ≡ c.max_entries)
          × (length (prune now c).entries ≤ length c.entries))
unfolding prune
prune_rest now c = elim (Bool-cases (c.ttl == 0)) [
  | inl off ↦ rw (prune, off) (refl, (refl, omega arith))
  | inr on ↦ rw (prune, on) (refl, (refl, length-drop_expired-le c.ttl now c.entries))
]

evict_room : (n max : ℕ) (m : Entries) → length m ≤ max → evict n max m ≡ m
unfolding evict
evict_room zero max m room = refl
evict_room (suc n) max m room = rw (evict, le→ltb-false max (length m) room) refl

flying_young : (ttl now : ℕ) (e : IdempotencyEntry) → e.in_flight ≡ true → expired ttl now e ≡ false
unfolding expired
flying_young ttl now e flying = ground (arith, flying)

enforce_cap_room : (c : Cache) → HasRoom c → enforce_cap c ≡ c
unfolding enforce_cap
enforce_cap_room c (inl off) =
    let test : (c.max_entries == 0) ≡ true = ground (arith, off) in rw (enforce_cap, test) refl
enforce_cap_room c (inr room) = elim (Bool-cases (c.max_entries == 0)) [
  | inl off ↦ rw (enforce_cap, off) refl
  | inr on ↦
      rw (enforce_cap, on)
        (ap (λ (m : Entries). record c { entries = m })
          (evict_room (length c.entries) c.max_entries c.entries room))
]

answer_done :
    (e : IdempotencyEntry) (h : Bytes)
    → e.in_flight ≡ false
    → e.req_hash ≡ h
    → answer_for e h ≡ replay e.result
unfolding answer_for
answer_done e h done same = ground (arith, done, bytes_eq_refl h, same)

soon_young :
    (ttl later : ℕ) (e : IdempotencyEntry)
    → later ≤ e.created_at + ttl
    → expired ttl later e ≡ false
unfolding expired
soon_young ttl later e soon =
    let test = le→ltb-false (e.created_at + ttl) later soon in ground (arith, test)

filled_length :
    {max : ℕ} (key : Bytes) (e : IdempotencyEntry) (m : Entries)
    → length (delete key m) < length m
    → length m ≤ max
    → length (insert key e m) ≤ max
unfolding insert
filled_length key e m shorter fits = omega (arith, shorter, fits)

-- A request in flight that completes is replayed: within the ttl, getOrStart answers the same key and
-- hash with the status and body that complete was given. The cache has room.
pub get_or_start-complete :
    (now later : ℕ) (key req_hash : Bytes) (result : Answer) (c : Cache) (e : IdempotencyEntry)
    → lookup key c.entries ≡ some e
    → e.in_flight ≡ true
    → e.req_hash ≡ req_hash
    → HasRoom c
    → InTime c now later
    → (get_or_start later key req_hash (complete now key req_hash result c)).0 ≡ replay result
unfolding get_or_start complete
get_or_start-complete now later key req_hash result c e there flying same room time =
    let pruned = prune now c in
    let found : lookup key pruned.entries ≡ some e =
      lookup-prune now key c there (inr (flying_young c.ttl now e flying)) in
    let agrees : bytes_eq e.req_hash req_hash ≡ true = (bytes_eq_iff _ _).1 same in
    let done : IdempotencyEntry = record e {
      created_at = now;
      in_flight = false;
      result = result;
    } in
    let filled : Cache = record pruned { entries = insert key done pruned.entries } in
    let (ttl, (max, size)) = prune_rest now c in
    let shorter = length-delete-lt key pruned.entries (lookup-has_key key pruned.entries found) in
    let roomy : HasRoom filled = elim room [
      | inl off ↦ inl (max ∙ off)
      | inr fits ↦
          inr (filled_length key done pruned.entries shorter (omega (arith, size, fits, max)))
    ] in
    let young : (filled.ttl ≡ 0) ⊎ (expired filled.ttl later done ≡ false) = elim time [
      | inl off ↦ inl (ttl ∙ off)
      | inr soon ↦ inr (soon_young filled.ttl later done (omega (arith, soon, ttl)))
    ] in
    let completed : complete now key req_hash result c ≡ filled =
      rw (complete, found) (rw agrees (enforce_cap_room filled roomy)) in
    let stays =
      lookup-prune later key filled
        (lookup-insert key key done pruned.entries ∙ rw (bytes_eq_refl key) refl) young in
    rw (get_or_start, completed) (rw stays (answer_done done req_hash refl same))
