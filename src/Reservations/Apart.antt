-- ===== src/Reservations/Apart.antt =====
-- wallet/wallet.go: sequences of calls that reserve and release, about payments under way together.
use blocknet_core.Prelude.{
  ℕ, ◌≤◌, ◌≡◌, ◌≢◌, refl, ap, subst, List, [], ◌∷◌, Bool, false, some, none, Result, ok, err, ◌>>=◌,
  All, All_weaken, arith, inl, inr, Result-cases, ok-injective, pair_eq,
}
use blocknet_core.Prelude.Maps.{lookup}
use blocknet_core.CoinSelect.{OwnedOutput, select_inputs}
use blocknet_core.Reservations.{
  Reservation, Reserved, Wallet, ReserveError, outpoint, drop_stale, candidates, reserve_selected,
  take_lease, Lease, reserve_mature_inputs, reserve_all_mature_inputs,
}
use blocknet_core.Reservations.Specific.{
  outputs_by_key, check_duplicates, check_refs, reserve_specific_inputs,
}
use blocknet_core.Reservations.Held.{
  granted_at, count-All, unfit, candidates_fit, lookup-drop_stale, unfit_reserved,
  reserve_mature_inputs-Reserves,
}
use blocknet_core.Reservations.Chosen.{reserve_each_all, reserve_specific_inputs-Reserves}
use blocknet_core.Reservations.Calls.{
  Attempt, mature, every, named, attempt, made_at, over_at, Between, List-cases, Between-Kept,
}

-- A lease that is given out is the counter's new value.
abbrev Numbered : Result ReserveError Lease × Wallet → Type 0
Numbered (err e, v) = Unit {0}
Numbered (ok given, v) = given.0 ≡ v.next_lease

attempt-Numbered : (a : Attempt) (w : Wallet) → Numbered (attempt a w)
unfolding reserve_mature_inputs reserve_all_mature_inputs reserve_specific_inputs
attempt-Numbered (mature orders filtered now height target ttl) w =
    let m = drop_stale now w.reservations in
    elim (Result-cases (select_inputs orders (candidates filtered height m w.outputs) target)) [
      | inl (e, failed) ↦ rw (failed, reserve_mature_inputs) tt
      | inr (selected, chosen) ↦
          elim (Result-cases
            (reserve_selected now (granted_at (take_lease w) now ttl) selected m)) [
              | inl (n, refused) ↦ rw (chosen, reserve_mature_inputs) (rw refused tt)
              | inr (n, reserved) ↦ rw (chosen, reserve_mature_inputs) (rw reserved refl)
            ]
    ]
attempt-Numbered (every filtered now height ttl) w =
    elim (List-cases (candidates filtered height (drop_stale now w.reservations) w.outputs)) [
      | inl empty ↦ rw (empty, reserve_all_mature_inputs) tt
      | inr (o, os, filled) ↦ rw (filled, reserve_all_mature_inputs) refl
    ]
attempt-Numbered (named filtered now [] height ttl) w = tt
attempt-Numbered (named filtered now (ref ∷ refs) height ttl) w =
    let m = drop_stale now w.reservations in
    let checks = check_duplicates 0 (ref ∷ refs) [] >>= λ _.
    check_refs filtered height m (outputs_by_key w.outputs []) 0 (ref ∷ refs) in
    elim (Result-cases checks) [
      | inl (e, failed) ↦ rw (failed, reserve_specific_inputs) tt
      | inr (selected, passed) ↦ rw (passed, reserve_specific_inputs) refl
    ]

-- ReserveAllMatureInputs, where it succeeds, as for the other two.
reserve_all_mature_inputs-Reserves :
    (filtered : OwnedOutput → Bool) (now height ttl : ℕ) (w : Wallet) {lease : ℕ}
    {inputs : List OwnedOutput} {after : Wallet}
    → reserve_all_mature_inputs filtered now height ttl w ≡ (ok (lease, inputs), after)
    → All (λ o. unfit filtered height (drop_stale now w.reservations) o ≡ false) inputs
      × All (λ o. lookup (outpoint o) after.reservations ≡ some (granted_at lease now ttl)) inputs
unfolding reserve_all_mature_inputs
reserve_all_mature_inputs-Reserves filtered now height ttl w {lease} {inputs} {after} h =
    let m = drop_stale now w.reservations in
    let pool = candidates filtered height m w.outputs in
    let fit =
      count-All (unfit filtered height m) pool (candidates_fit filtered height m w.outputs) in
    let held = reserve_each_all (granted_at (take_lease w) now ttl) pool m in
    elim (List-cases pool) [
      | inl empty ↦ cc (rw (empty, reserve_all_mature_inputs) at h)
      | inr (o, os, filled) ↦
          let same = rw (filled, reserve_all_mature_inputs) at h in
          let given = ok-injective (ap (λ (x : Result ReserveError Lease × Wallet). x.0) same) in
          let m_same = ap (λ (x : Result ReserveError Lease × Wallet). x.1.reservations) same in
          subst
            (λ (z : Lease × Reserved).
              All (λ o. unfit filtered height m o ≡ false) z.0.1
              × All (λ o. lookup (outpoint o) z.1 ≡ some (granted_at z.0.0 now ttl)) z.0.1)
            (pair_eq given m_same) ((rw filled at fit), (rw filled at held))
    ]

abbrev Unreserved : Reserved → List OwnedOutput → Type 0
Unreserved m inputs = All (λ o. lookup (outpoint o) m ≡ none) inputs

fit-Unreserved :
    (filtered : OwnedOutput → Bool) (height : ℕ) (m : Reserved) (inputs : List OwnedOutput)
    → All (λ o. unfit filtered height m o ≡ false) inputs
    → Unreserved m inputs
fit-Unreserved filtered height m inputs =
    All_weaken (λ o. unfit filtered height m o ≡ false) (λ o. lookup (outpoint o) m ≡ none) inputs
      (unfit_reserved filtered height m)

attempt-Reserves :
    (a : Attempt) (w : Wallet) {lease : ℕ} {inputs : List OwnedOutput} {after : Wallet}
    → attempt a w ≡ (ok (lease, inputs), after)
    → Unreserved (drop_stale (made_at a) w.reservations) inputs
      × All
          (λ o.
            lookup (outpoint o) after.reservations
            ≡ some (record { lease = lease; expires_at = over_at a }))
          inputs
attempt-Reserves (mature orders filtered now height target ttl) w {inputs = inputs} h =
    let (paid, fit, held) =
      reserve_mature_inputs-Reserves orders filtered now height target ttl w h in
    (fit-Unreserved filtered height (drop_stale now w.reservations) inputs fit, held)
attempt-Reserves (every filtered now height ttl) w {inputs = inputs} h =
    let (fit, held) = reserve_all_mature_inputs-Reserves filtered now height ttl w h in
    (fit-Unreserved filtered height (drop_stale now w.reservations) inputs fit, held)
attempt-Reserves (named filtered now refs height ttl) w {inputs = inputs} h =
    let (asked, fit, held) = reserve_specific_inputs-Reserves filtered now refs height ttl w h in
    (fit-Unreserved filtered height (drop_stale now w.reservations) inputs fit, held)

-- Two calls that reserve inputs, each of any of the three kinds, share no output if the second comes no
-- later than the time at which the reservations of the first are over. Between them may lie, in any
-- order, calls of the three kinds no later than that time and made before the counter of leases
-- overflows, releases of other leases, and changes of the list of outputs. (A release of the first
-- lease is not among them, nor is the removal of a reservation as an output is marked as spent.)
pub leases_apart :
    (a b : Attempt) (w v : Wallet) {lease lease2 : ℕ} {inputs inputs2 : List OwnedOutput}
    {after after2 : Wallet}
    → attempt a w ≡ (ok (lease, inputs), after)
    → Between lease (over_at a) after v
    → attempt b v ≡ (ok (lease2, inputs2), after2)
    → made_at b ≤ over_at a
    → All (λ x. All (λ y. outpoint x ≢ outpoint y) inputs2) inputs
leases_apart a b w v {lease} {lease2} {inputs} {inputs2} {after} {after2} first path second live =
    let granted : Reservation = record { lease = lease; expires_at = over_at a } in
    let live_then = drop_stale (made_at b) v.reservations in
    let (was_free, held) = attempt-Reserves a w first in
    let (free, held2) = attempt-Reserves b v second in
    let number : lease ≡ after.next_lease = subst Numbered first (attempt-Numbered a w) in
    All_weaken (λ x. lookup (outpoint x) after.reservations ≡ some granted)
      (λ x. All (λ y. outpoint x ≢ outpoint y) inputs2) inputs
      (λ x h.
        let kept = Between-Kept (outpoint x) granted path (h, omega (arith, number)) in
        All_weaken (λ y. lookup (outpoint y) live_then ≡ none) (λ y. outpoint x ≢ outpoint y)
          inputs2
          (λ y f same. absurd (
            cc (
              lookup-drop_stale (made_at b) v.reservations (outpoint x) kept.0 live,
              ap (λ k. lookup k live_then) same,
              f,
            )))
          free)
      held
