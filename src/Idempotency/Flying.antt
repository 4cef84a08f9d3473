-- ===== src/Idempotency/Flying.antt =====
-- api_idempotency.go: requests in flight, through expiry and eviction.
use blocknet_core.Prelude.{
  ℕ, zero, suc, ◌≡◌, refl, ◌∙◌, subst, [], ◌∷◌, Bytes, Bool, true, false, Option, none, some, ltb,
  ◌==◌, bytes_eq, bytes_eq_iff, length, All, ◌||◌, arith, inl, inr, Bool-cases, Option-cases,
  some_eq,
}
use blocknet_core.Prelude.Maps.{lookup, insert, delete}
use blocknet_core.Idempotency.{
  IdempotencyEntry, Entries, Cache, expired, drop_expired, prune, older, oldest, evict, enforce_cap,
}

abbrev pub Fits : Bytes → Bytes → Bytes × IdempotencyEntry → Type 0
Fits key req_hash p = bytes_eq p.0 key ≡ true → (p.1.in_flight ≡ true) × (p.1.req_hash ≡ req_hash)

unfoldable pub has_key : Bytes → Entries → Bool
has_key key [] = false
has_key key ((k, e) ∷ m) = bytes_eq k key || has_key key m

-- The key is in flight for the request of this hash.
abbrev pub Flying : Bytes → Bytes → Entries → Type 0
Flying key req_hash m = (has_key key m ≡ true) × All (Fits key req_hash) m

module _ (key req_hash : Bytes) where
  pub Flying-lookup :
      (m : Entries)
      → Flying key req_hash m
      → (e : IdempotencyEntry) × (lookup key m ≡ some e)
        × ((e.in_flight ≡ true) × (e.req_hash ≡ req_hash))
  unfolding has_key lookup
  Flying-lookup [] (there, fits) = absurd (cc there)
  Flying-lookup ((k, e) ∷ m) (there, fits) = elim (Bool-cases (bytes_eq k key)) [
    | inl first ↦ (e, rw first refl, fits.0 first)
    | inr other ↦
        let (d, found, flags) = Flying-lookup m (rw other at there, fits.1) in
        (d, rw other found, flags)
  ]

  drop_expired-has_key :
      (ttl now : ℕ) (m : Entries)
      → has_key key m ≡ true
      → All (Fits key req_hash) m
      → has_key key (drop_expired ttl now m) ≡ true
  unfolding has_key drop_expired expired
  drop_expired-has_key ttl now [] there fits = there
  drop_expired-has_key ttl now ((k, e) ∷ m) there fits = elim (Bool-cases (bytes_eq k key)) [
    | inl first ↦ ground (arith, first, fits.0 first)
    | inr other ↦
        ground (arith, other, there, drop_expired-has_key ttl now m (rw other at there) fits.1)
  ]

  drop_expired-All :
      (ttl now : ℕ) (m : Entries)
      → All (Fits key req_hash) m
      → All (Fits key req_hash) (drop_expired ttl now m)
  unfolding drop_expired
  drop_expired-All ttl now [] fits = tt
  drop_expired-All ttl now ((k, e) ∷ m) fits = elim (Bool-cases (expired ttl now e)) [
    | inl old ↦ rw (old, drop_expired) (drop_expired-All ttl now m fits.1)
    | inr young ↦ rw (young, drop_expired) (fits.0, drop_expired-All ttl now m fits.1)
  ]

  pub prune-Flying :
      (now : ℕ) (c : Cache)
      → Flying key req_hash c.entries
      → Flying key req_hash (prune now c).entries
  unfolding prune
  prune-Flying now c f = elim (Bool-cases (c.ttl == 0)) [
    | inl off ↦ rw (off, prune) f
    | inr on ↦
        rw (on, prune)
          (
            drop_expired-has_key c.ttl now c.entries f.0 f.1,
            drop_expired-All c.ttl now c.entries f.1,
          )
  ]

  pub delete-has_key :
      (k : Bytes) (m : Entries) → bytes_eq k key ≡ false → has_key key (delete k m) ≡ has_key key m
  unfolding has_key delete
  delete-has_key k [] other = refl
  delete-has_key k ((j, e) ∷ m) other = ground (
    arith,
    other,
    delete-has_key k m other,
    bytes_eq_iff j k,
    bytes_eq_iff k key,
    bytes_eq_iff j key,
  )

  pub delete-All :
      (k : Bytes) (m : Entries) → All (Fits key req_hash) m → All (Fits key req_hash) (delete k m)
  unfolding delete
  delete-All k [] fits = tt
  delete-All k ((j, e) ∷ m) fits = elim (Bool-cases (bytes_eq j k)) [
    | inl same ↦ rw (same, delete) (delete-All k m fits.1)
    | inr other ↦ rw (other, delete) (fits.0, delete-All k m fits.1)
  ]

  pub insert-Flying :
      (k : Bytes) (e : IdempotencyEntry) (m : Entries)
      → bytes_eq k key ≡ false
      → Flying key req_hash m
      → Flying key req_hash (insert k e m)
  unfolding insert has_key
  insert-Flying k e m other f = (
    ground (arith, other, delete-has_key k m other, f.0),
    ((λ same. absurd (cc (same, other))), delete-All k m f.1),
  )

  not_this :
      (k : Bytes) (e : IdempotencyEntry)
      → Fits key req_hash (k, e)
      → e.in_flight ≡ false
      → bytes_eq k key ≡ false
  not_this k e fits done = elim (Bool-cases (bytes_eq k key)) [
    | inl same ↦ absurd (cc (done, (fits same).0))
    | inr other ↦ other
  ]

  older_other :
      (k : Bytes) (e : IdempotencyEntry) (best : Option (Bytes × ℕ)) {d : Bytes × ℕ}
      → bytes_eq k key ≡ false
      → ((b : Bytes × ℕ) → best ≡ some b → bytes_eq b.0 key ≡ false)
      → older k e best ≡ some d
      → bytes_eq d.0 key ≡ false
  unfolding older
  older_other k e none {d} other so_far h =
      subst (λ (p : Bytes × ℕ). bytes_eq p.0 key ≡ false) (some_eq h) other
  older_other k e (some b) {d} other so_far h = elim (Bool-cases (ltb e.created_at b.1)) [
    | inl newer ↦
        subst (λ (p : Bytes × ℕ). bytes_eq p.0 key ≡ false) (some_eq (rw (newer, older) at h)) other
    | inr not_newer ↦ so_far d (rw (not_newer, older) at h)
  ]

  -- The oldest completed entry has another key.
  oldest-other :
      (m : Entries) (best : Option (Bytes × ℕ)) {b : Bytes × ℕ}
      → All (Fits key req_hash) m
      → ((d : Bytes × ℕ) → best ≡ some d → bytes_eq d.0 key ≡ false)
      → oldest best m ≡ some b
      → bytes_eq b.0 key ≡ false
  unfolding oldest older
  oldest-other [] best {b} fits so_far h = so_far b h
  oldest-other ((k, e) ∷ m) best {b} fits so_far h = elim (Bool-cases e.in_flight) [
    | inl flying ↦ oldest-other m best fits.1 so_far (rw (flying, oldest) at h)
    | inr done ↦
        oldest-other m (older k e best) fits.1
          (λ d g. older_other k e best (not_this k e fits.0 done) so_far g) (rw (done, oldest) at h)
  ]

  evict-Flying :
      (n max : ℕ) (m : Entries) → Flying key req_hash m → Flying key req_hash (evict n max m)
  unfolding evict
  evict-Flying zero max m f = f
  evict-Flying (suc n) max m f = elim (Bool-cases (ltb max (length m))) [
    | inr small ↦ rw (small, evict) f
    | inl big ↦ elim (Option-cases (oldest none m)) [
      | inl all_flying ↦ rw (big, evict) (rw all_flying f)
      | inr (b, found) ↦ elim (Bool-cases (length b.0 == 0)) [
        | inl empty ↦ rw (big, evict) (rw (found, empty) f)
        | inr named ↦
            let other = oldest-other m none f.1 (λ d h. absurd (cc h)) found in
            rw (big, evict)
              (rw (found, named)
                (evict-Flying n max (delete b.0 m)
                  (delete-has_key b.0 m other ∙ f.0, delete-All b.0 m f.1)))
      ]
    ]
  ]

  pub enforce_cap-Flying :
      (c : Cache) → Flying key req_hash c.entries → Flying key req_hash (enforce_cap c).entries
  unfolding enforce_cap
  enforce_cap-Flying c f = elim (Bool-cases (c.max_entries == 0)) [
    | inl off ↦ rw (off, enforce_cap) f
    | inr on ↦ rw (on, enforce_cap) (evict-Flying (length c.entries) c.max_entries c.entries f)
  ]
