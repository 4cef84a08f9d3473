-- ===== src/Idempotency/Histories.antt =====
-- api_idempotency.go: sequences of calls, about requests in flight.
use blocknet_core.Prelude.{
  ℕ, ◌≡◌, ◌≢◌, refl, ap, ◌∙◌, subst, [], ◌∷◌, Bytes, true, false, none, if◌then◌else◌, bytes_eq,
  bytes_eq_iff, bytes_eq_refl, All, arith, inl, inr, Bool-cases, Option-cases,
}
use blocknet_core.Prelude.Maps.{lookup, insert}
use blocknet_core.Idempotency.{
  Answer, IdempotencyEntry, Entries, Cache, State, inflight, mismatch, start, no_answer, prune,
  answer_for, get_or_start, complete, abandon,
}
use blocknet_core.Idempotency.Flying.{
  Fits, has_key, Flying, Flying-lookup, prune-Flying, delete-has_key, delete-All, insert-Flying,
  enforce_cap-Flying,
}

answer_not_start : (e : IdempotencyEntry) (h : Bytes) → answer_for e h ≢ start
unfolding answer_for
answer_not_start e h = elim (Bool-cases (bytes_eq e.req_hash h)) [
  | inr differs ↦ λ p. cc (rw (answer_for, differs) at p)
  | inl agrees ↦ elim (Bool-cases e.in_flight) [
    | inl flying ↦ λ p. cc (rw (answer_for, agrees, flying) at p)
    | inr done ↦ λ p. cc (rw (answer_for, agrees, done) at p)
  ]
]

answer_flying :
    (e : IdempotencyEntry) (h other : Bytes)
    → e.in_flight ≡ true
    → e.req_hash ≡ h
    → answer_for e other ≡ (if bytes_eq h other then inflight else mismatch)
unfolding answer_for
answer_flying e h other flying same = elim (Bool-cases (bytes_eq h other)) [
  | inl agrees ↦ ground (arith, agrees, same, flying)
  | inr differs ↦ ground (arith, differs, same)
]

-- A call of the cache: getOrStart, complete or abandon.
pub data Call : Type 0 where
  asks : ℕ → Bytes → Bytes → Call
  completes : ℕ → Bytes → Bytes → Answer → Call
  abandons : Bytes → Call

abbrev pub apply : Call → Cache → Cache
apply (asks now key req_hash) c = (get_or_start now key req_hash c).1
apply (completes now key req_hash result) c = complete now key req_hash result c
apply (abandons key) c = abandon key c

-- A call that does not end the request of this key.
abbrev pub LeavesAlone : Bytes → Call → Type 0
LeavesAlone key (asks now k req_hash) = Unit {0}
LeavesAlone key (completes now k req_hash result) = k ≢ key
LeavesAlone key (abandons k) = k ≢ key

-- Caches that calls lead to, none of which ends the request of this key.
pub data Leads (key : Bytes) : Cache → Cache → Type 0 where
  stay : (c : Cache) → Leads key c c
  call :
      (c d : Cache) (step : Call)
      → LeavesAlone key step
      → Leads key (apply step c) d
      → Leads key c d

module _ (key req_hash : Bytes) where
  other_key : (k : Bytes) → k ≢ key → bytes_eq k key ≡ false
  other_key k apart = ground (arith, bytes_eq_iff k key, apart)

  get_or_start-Flying :
      (now : ℕ) (k h : Bytes) (c : Cache)
      → Flying key req_hash c.entries
      → Flying key req_hash (get_or_start now k h c).1.entries
  unfolding get_or_start
  get_or_start-Flying now k h c f =
      let pruned = prune now c in
      let g = prune-Flying key req_hash now c f in
      elim (Option-cases (lookup k pruned.entries)) [
        | inr (e, there) ↦ rw (there, get_or_start) g
        | inl absent ↦
            let (e, found, flags) = Flying-lookup key req_hash pruned.entries g in
            let other : bytes_eq k key ≡ false = other_key k (λ same. cc (same, absent, found)) in
            rw (absent, get_or_start)
              (enforce_cap-Flying key req_hash
                (record pruned {
                  entries =
                      insert k
                        (record {
                          created_at = now;
                          req_hash = h;
                          in_flight = true;
                          result = no_answer;
                        })
                        pruned.entries;
                })
                (insert-Flying key req_hash k _ pruned.entries other g))
      ]

  complete-Flying :
      (now : ℕ) (k h : Bytes) (a : Answer) (c : Cache)
      → k ≢ key
      → Flying key req_hash c.entries
      → Flying key req_hash (complete now k h a c).entries
  unfolding complete
  complete-Flying now k h a c apart f =
      let pruned = prune now c in
      let g = prune-Flying key req_hash now c f in
      let other = other_key k apart in
      elim (Option-cases (lookup k pruned.entries)) [
        | inl absent ↦ rw (absent, complete) g
        | inr (e, there) ↦ elim (Bool-cases (bytes_eq e.req_hash h)) [
          | inr differs ↦
              rw (there, complete)
                (rw differs (
                  delete-has_key key req_hash k pruned.entries other ∙ g.0,
                  delete-All key req_hash k pruned.entries g.1,
                ))
          | inl agrees ↦
              rw (there, complete)
                (rw agrees (
                  enforce_cap-Flying key req_hash
                    (record pruned {
                      entries =
                          insert k (record e { created_at = now; in_flight = false; result = a })
                            pruned.entries;
                    })
                    (insert-Flying key req_hash k _ pruned.entries other g)))
        ]
      ]

  abandon-Flying :
      (k : Bytes) (c : Cache)
      → k ≢ key
      → Flying key req_hash c.entries
      → Flying key req_hash (abandon k c).entries
  unfolding abandon
  abandon-Flying k c apart f = elim (Option-cases (lookup k c.entries)) [
    | inl absent ↦ rw (absent, abandon) f
    | inr (e, there) ↦
        rw (there, abandon)
          (
            delete-has_key key req_hash k c.entries (other_key k apart) ∙ f.0,
            delete-All key req_hash k c.entries f.1,
          )
  ]

  apply-Flying :
      (step : Call) (c : Cache)
      → LeavesAlone key step
      → Flying key req_hash c.entries
      → Flying key req_hash (apply step c).entries
  apply-Flying (asks now k h) c alone f = get_or_start-Flying now k h c f
  apply-Flying (completes now k h a) c alone f = complete-Flying now k h a c alone f
  apply-Flying (abandons k) c alone f = abandon-Flying k c alone f

  Leads-Flying :
      {c d : Cache} → Leads key c d → Flying key req_hash c.entries → Flying key req_hash d.entries
  Leads-Flying (stay c) f = f
  Leads-Flying (call c d step alone rest) f = Leads-Flying rest (apply-Flying step c alone f)

  absent-All : (m : Entries) → lookup key m ≡ none → All (Fits key req_hash) m
  unfolding lookup
  absent-All [] h = tt
  absent-All ((k, e) ∷ m) h = elim (Bool-cases (bytes_eq k key)) [
    | inl same ↦ absurd (cc (rw (same, lookup) at h))
    | inr other ↦ ((λ same. absurd (cc (same, other))), absent-All m (rw (other, lookup) at h))
  ]

  inserted-Flying :
      (e : IdempotencyEntry) (m : Entries)
      → e.in_flight ≡ true
      → e.req_hash ≡ req_hash
      → lookup key m ≡ none
      → Flying key req_hash (insert key e m)
  unfolding insert has_key
  inserted-Flying e m flying same absent = (
    ground (arith, bytes_eq_refl key),
    ((λ this. (flying, same)), delete-All key req_hash key m (absent-All m absent)),
  )

  started-Flying :
      (now : ℕ) (c : Cache) {d : Cache}
      → get_or_start now key req_hash c ≡ (start, d)
      → Flying key req_hash d.entries
  unfolding get_or_start answer_for
  started-Flying now c {d} e =
      let pruned = prune now c in
      let fresh : IdempotencyEntry = record {
        created_at = now;
        req_hash = req_hash;
        in_flight = true;
        result = no_answer;
      } in
      elim (Option-cases (lookup key pruned.entries)) [
        | inr (x, there) ↦ absurd (
            answer_not_start x req_hash
              (ap (λ (p : State × Cache). p.0) (rw (there, get_or_start) at e)))
        | inl absent ↦
            subst (λ (x : Cache). Flying key req_hash x.entries)
              (ap (λ (p : State × Cache). p.1) (rw (absent, get_or_start) at e))
              (enforce_cap-Flying key req_hash
                (record pruned { entries = insert key fresh pruned.entries })
                (inserted-Flying fresh pruned.entries refl refl absent))
      ]

-- Once getOrStart has told a request to start, every later call with the same key, whatever other calls come between
-- and however much time passes, is told that the request is in flight, or that the requests differ when
-- it comes with another hash, until the key is completed or abandoned.
pub one_start :
    (now : ℕ) (key req_hash : Bytes) (c : Cache) {d e : Cache}
    → get_or_start now key req_hash c ≡ (start, d)
    → Leads key d e
    → (later : ℕ) (other : Bytes)
    → (get_or_start later key other e).0 ≡ (if bytes_eq req_hash other then inflight else mismatch)
unfolding get_or_start answer_for
one_start now key req_hash c {d} {e} began reach later other =
    let f = Leads-Flying key req_hash reach (started-Flying key req_hash now c began) in
    let (x, found, (flying, same)) =
      Flying-lookup key req_hash (prune later e).entries (prune-Flying key req_hash later e f) in
    rw (found, get_or_start) (answer_flying x req_hash other flying same)
