-- ===== src/Reservations/Calls.antt =====
-- wallet/wallet.go: sequences of calls that reserve and release, and what they leave of a reservation.
use blocknet_core.Prelude.{
  ℕ, ◌+◌, ◌≤◌, ◌<◌, ◌≡◌, ◌≢◌, ◌⊎◌, refl, sym, ap, subst, List, [], ◌∷◌, Bytes, Bool, false, some,
  Result, ok, err, ◌>>=◌, ◌==◌, bytes_eq, bytes_eq_iff, All, All_weaken, arith, inl, inr,
  Bool-cases, Result-cases, some_eq, >>=-eq-ok,
}
use blocknet_core.Prelude.Maps.{lookup, insert, lookup-insert}
use blocknet_core.CoinSelect.{OwnedOutput, Orders, select_inputs}
use blocknet_core.Reservations.{
  Reservation, Reserved, Wallet, ReserveError, outpoint, lease_ttl, drop_stale, drop_lease,
  candidates, reserve_each, is_held, reserve_selected, take_lease, Lease, reserve_mature_inputs,
  reserve_all_mature_inputs, release_input_lease,
}
use blocknet_core.Reservations.Specific.{
  outputs_by_key, check_duplicates, check_refs, reserve_specific_inputs,
}
use blocknet_core.Reservations.Held.{
  granted_at, count-All, unfit, candidates_fit, selected_fit, lookup-drop_stale, unfit_reserved,
}
use blocknet_core.Reservations.Chosen.{check_refs_asked, outputs_by_key-Keyed, nothing-Keyed}

-- A call that reserves inputs; `filtered` is the input filter and `now` the time of the call.
pub data Attempt : Type 0 where
  mature : (orders : Orders) (filtered : OwnedOutput → Bool) (now height target ttl : ℕ) → Attempt
  every : (filtered : OwnedOutput → Bool) (now height ttl : ℕ) → Attempt
  named : (filtered : OwnedOutput → Bool) (now : ℕ) (refs : List Bytes) (height ttl : ℕ) → Attempt

abbrev pub attempt : Attempt → Wallet → Result ReserveError Lease × Wallet
attempt (mature orders filtered now height target ttl) w =
    reserve_mature_inputs orders filtered now height target ttl w
attempt (every filtered now height ttl) w = reserve_all_mature_inputs filtered now height ttl w
attempt (named filtered now refs height ttl) w =
    reserve_specific_inputs filtered now refs height ttl w

abbrev pub made_at : Attempt → ℕ
made_at (mature orders filtered now height target ttl) = now
made_at (every filtered now height ttl) = now
made_at (named filtered now refs height ttl) = now

-- The time at which what it reserves is over.
abbrev pub over_at : Attempt → ℕ
over_at (mature orders filtered now height target ttl) = now + lease_ttl ttl
over_at (every filtered now height ttl) = now + lease_ttl ttl
over_at (named filtered now refs height ttl) = now + lease_ttl ttl

-- What may happen to a wallet until a time, other than the release of this lease: calls that reserve, before the
-- counter of leases overflows, the release of other leases, and changes of the outputs.
pub data Between (lease until : ℕ) : Wallet → Wallet → Type 0 where
  done : (w : Wallet) → Between lease until w w
  reserves :
      (w v : Wallet) (a : Attempt)
      → made_at a ≤ until
      → w.next_lease + 1 < 18446744073709551616
      → Between lease until (attempt a w).1 v
      → Between lease until w v
  releases :
      (w v : Wallet) (other : ℕ)
      → other ≢ lease
      → Between lease until (release_input_lease other w) v
      → Between lease until w v
  updates :
      (w v : Wallet) (outputs : List OwnedOutput)
      → Between lease until (record w { outputs = outputs }) v
      → Between lease until w v

lookup-drop_lease :
    (lease : ℕ) (m : Reserved) (k : Bytes) {r : Reservation}
    → lookup k m ≡ some r
    → (r.lease == lease) ≡ false
    → lookup k (drop_lease lease m) ≡ some r
unfolding lookup drop_lease
lookup-drop_lease lease [] k h other = absurd (cc h)
lookup-drop_lease lease ((j, s) ∷ m) k {r} h other = elim (Bool-cases (bytes_eq j k)) [
  | inl same ↦
      let here : s ≡ r = some_eq (rw same at h) in
      rw (subst (λ (z : Reservation). (z.lease == lease) ≡ false) (sym here) other)
        (rw same (ap some here))
  | inr apart ↦ elim (Bool-cases (s.lease == lease)) [
    | inl dropped ↦ rw (drop_lease, dropped) (lookup-drop_lease lease m k (rw apart at h) other)
    | inr kept ↦
        rw (drop_lease, kept) (rw apart (lookup-drop_lease lease m k (rw apart at h) other))
  ]
]

-- The reservations after the loop, whether it went through or gave up.
abbrev reserved_then : Result Reserved Reserved → Reserved
reserved_then (ok m) = m
reserved_then (err m) = m

pub List-cases : {A : Type 0} (xs : List A) → (xs ≡ []) ⊎ ((y : A) × (ys : List A) × (xs ≡ y ∷ ys))
List-cases [] = inl refl
List-cases (y ∷ ys) = inr (y, ys, refl)

module _ (k : Bytes) (r : Reservation) where
  abbrev Apart : OwnedOutput → Type 0
  Apart o = bytes_eq (outpoint o) k ≡ false

  -- An output that is fit to be reserved is not the one under k.
  fit-Apart :
      (filtered : OwnedOutput → Bool) (height : ℕ) (m : Reserved) (os : List OwnedOutput)
      → lookup k m ≡ some r
      → All (λ o. unfit filtered height m o ≡ false) os
      → All Apart os
  fit-Apart filtered height m os held fit =
      All_weaken (λ o. unfit filtered height m o ≡ false) Apart os
        (λ o f. elim (Bool-cases (bytes_eq (outpoint o) k)) [
          | inr apart ↦ apart
          | inl same ↦ absurd (
              cc (
                held,
                unfit_reserved filtered height m o f,
                ap (λ j. lookup j m) ((bytes_eq_iff (outpoint o) k).0 same),
              ))
        ])
        fit

  lookup-reserve_each :
      (g : Reservation) (os : List OwnedOutput) (m : Reserved)
      → All Apart os
      → lookup k m ≡ some r
      → lookup k (reserve_each g os m) ≡ some r
  unfolding reserve_each
  lookup-reserve_each g [] m apart held = held
  lookup-reserve_each g (o ∷ os) m apart held =
      lookup-reserve_each g os (insert (outpoint o) g m) apart.1
        (rw (lookup-insert (outpoint o) k g m, apart.0) held)

  lookup-reserve_selected :
      (now : ℕ) (g : Reservation) (os : List OwnedOutput) (m : Reserved)
      → All Apart os
      → (r.lease == g.lease) ≡ false
      → lookup k m ≡ some r
      → lookup k (reserved_then (reserve_selected now g os m)) ≡ some r
  unfolding reserve_selected
  lookup-reserve_selected now g [] m apart other held = held
  lookup-reserve_selected now g (o ∷ os) m apart other held = elim (Bool-cases (is_held now m o)) [
    | inl taken ↦ rw (reserve_selected, taken) (lookup-drop_lease g.lease m k held other)
    | inr free ↦
        rw (reserve_selected, free)
          (lookup-reserve_selected now g os (insert (outpoint o) g m) apart.1 other
            (rw (lookup-insert (outpoint o) k g m, apart.0) held))
  ]

  abbrev pub Kept : Wallet → Type 0
  Kept w = (lookup k w.reservations ≡ some r) × (r.lease ≤ w.next_lease)

  new_lease :
      (w : Wallet)
      → Kept w
      → w.next_lease + 1 < 18446744073709551616
      → ((r.lease == take_lease w) ≡ false) × (r.lease ≤ take_lease w)
  new_lease w kept room =
      let next : take_lease w ≡ w.next_lease + 1 = omega (arith, room) in
      (ground (arith, next, kept.1), omega (arith, next, kept.1))

  mature-Kept :
      (orders : Orders) (filtered : OwnedOutput → Bool) (now height target ttl : ℕ) (w : Wallet)
      → Kept w
      → now ≤ r.expires_at
      → w.next_lease + 1 < 18446744073709551616
      → Kept (reserve_mature_inputs orders filtered now height target ttl w).1
  unfolding reserve_mature_inputs
  mature-Kept orders filtered now height target ttl w kept live room =
      let m = drop_stale now w.reservations in
      let held = lookup-drop_stale now w.reservations k kept.0 live in
      let (other, later) = new_lease w kept room in
      let granted : Reservation = granted_at (take_lease w) now ttl in
      elim (Result-cases (select_inputs orders (candidates filtered height m w.outputs) target)) [
        | inl (e, failed) ↦ rw (failed, reserve_mature_inputs) (held, kept.1)
        | inr (selected, chosen) ↦
            let apart =
              fit-Apart filtered height m selected held
                (selected_fit orders filtered height target m w.outputs chosen) in
            let then = lookup-reserve_selected now granted selected m apart other held in
            elim (Result-cases (reserve_selected now granted selected m)) [
              | inl (n, refused) ↦
                  rw (chosen, reserve_mature_inputs) (rw refused ((rw refused at then), later))
              | inr (n, reserved) ↦
                  rw (chosen, reserve_mature_inputs) (rw reserved ((rw reserved at then), later))
            ]
      ]

  every-Kept :
      (filtered : OwnedOutput → Bool) (now height ttl : ℕ) (w : Wallet)
      → Kept w
      → now ≤ r.expires_at
      → w.next_lease + 1 < 18446744073709551616
      → Kept (reserve_all_mature_inputs filtered now height ttl w).1
  unfolding reserve_all_mature_inputs
  every-Kept filtered now height ttl w kept live room =
      let m = drop_stale now w.reservations in
      let held = lookup-drop_stale now w.reservations k kept.0 live in
      let pool = candidates filtered height m w.outputs in
      let apart =
        fit-Apart filtered height m pool held
          (count-All (unfit filtered height m) pool (candidates_fit filtered height m w.outputs)) in
      let granted : Reservation = granted_at (take_lease w) now ttl in
      let then = lookup-reserve_each granted pool m apart held in
      elim (List-cases pool) [
        | inl empty ↦ rw (empty, reserve_all_mature_inputs) (held, kept.1)
        | inr (o, os, filled) ↦
            rw (filled, reserve_all_mature_inputs) ((rw filled at then), (new_lease w kept room).1)
      ]

  named-Kept :
      (filtered : OwnedOutput → Bool) (now : ℕ) (refs : List Bytes) (height ttl : ℕ) (w : Wallet)
      → Kept w
      → now ≤ r.expires_at
      → w.next_lease + 1 < 18446744073709551616
      → Kept (reserve_specific_inputs filtered now refs height ttl w).1
  unfolding reserve_specific_inputs
  named-Kept filtered now [] height ttl w kept live room = kept
  named-Kept filtered now (ref ∷ refs) height ttl w kept live room =
      let m = drop_stale now w.reservations in
      let held = lookup-drop_stale now w.reservations k kept.0 live in
      let known = outputs_by_key w.outputs [] in
      let checks = check_duplicates 0 (ref ∷ refs) [] >>= λ _.
      check_refs filtered height m known 0 (ref ∷ refs) in
      elim (Result-cases checks) [
        | inl (e, failed) ↦ rw (failed, reserve_specific_inputs) (held, kept.1)
        | inr (selected, passed) ↦
            let (u, distinct, found) = >>=-eq-ok (check_duplicates 0 (ref ∷ refs) []) _ passed in
            let (asked, fit) =
              check_refs_asked filtered height m known 0 (ref ∷ refs)
                (outputs_by_key-Keyed w.outputs [] nothing-Keyed) found in
            rw (passed, reserve_specific_inputs)
              (
                lookup-reserve_each (granted_at (take_lease w) now ttl) selected m
                    (fit-Apart filtered height m selected held fit) held,
                (new_lease w kept room).1,
              )
      ]

  attempt-Kept :
      (a : Attempt) (w : Wallet)
      → Kept w
      → made_at a ≤ r.expires_at
      → w.next_lease + 1 < 18446744073709551616
      → Kept (attempt a w).1
  attempt-Kept (mature orders filtered now height target ttl) w kept live room =
      mature-Kept orders filtered now height target ttl w kept live room
  attempt-Kept (every filtered now height ttl) w kept live room =
      every-Kept filtered now height ttl w kept live room
  attempt-Kept (named filtered now refs height ttl) w kept live room =
      named-Kept filtered now refs height ttl w kept live room

  release-Kept :
      (other : ℕ) (w : Wallet) → Kept w → other ≢ r.lease → Kept (release_input_lease other w)
  unfolding release_input_lease
  release-Kept other w kept apart =
      let differs : (r.lease == other) ≡ false = ground (arith, apart) in
      elim (Bool-cases (other == 0)) [
        | inl none_given ↦ rw (release_input_lease, none_given) kept
        | inr given ↦
            rw (release_input_lease, given)
              (lookup-drop_lease other w.reservations k kept.0 differs, kept.1)
      ]

  -- The reservation stands as long as its lease is not released and its time is not over.
  pub Between-Kept : {w v : Wallet} → Between r.lease r.expires_at w v → Kept w → Kept v
  Between-Kept (done w) kept = kept
  Between-Kept (reserves w v a live room rest) kept =
      Between-Kept rest (attempt-Kept a w kept live room)
  Between-Kept (releases w v other apart rest) kept =
      Between-Kept rest (release-Kept other w kept apart)
  Between-Kept (updates w v outputs rest) kept = Between-Kept rest kept
