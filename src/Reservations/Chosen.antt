-- ===== src/Reservations/Chosen.antt =====
-- wallet/wallet.go: about the outputs that ReserveSpecificInputs reserves.
use blocknet_core.Prelude.{
  ℕ, ◌+◌, ◌≡◌, refl, sym, ap, ◌∙◌, subst, List, [], ◌∷◌, map, Bytes, Bool, false, ◌||◌, not, some,
  Result, ok, ◌>>=◌, >>=-eq-ok, refuse_if-eq-ok, refuse_if_ok, bytes_eq, bytes_eq_iff, All, arith,
  inl, inr, Bool-cases, Option-cases, Result-cases, some_eq, pair_eq, ok-injective,
}
use blocknet_core.Prelude.Maps.{lookup, insert, lookup-insert}
use blocknet_core.CoinSelect.{OwnedOutput}
use blocknet_core.Reservations.{
  Reservation, Reserved, Wallet, ReserveError, outpoint, drop_stale, is_output_mature, is_reserved,
  reserve_each, take_lease, Lease,
}
use blocknet_core.Reservations.Held.{unfit, granted_at}
use blocknet_core.Reservations.Specific.{
  outputs_by_key, check_duplicates, check_output, check_refs, reserve_specific_inputs,
}

abbrev pub Keyed : List (Bytes × OwnedOutput) → Type 0
Keyed known = (k : Bytes) (o : OwnedOutput) → lookup k known ≡ some o → outpoint o ≡ k

insert-Keyed :
    (out : OwnedOutput) (known : List (Bytes × OwnedOutput))
    → Keyed known
    → Keyed (insert (outpoint out) out known)
insert-Keyed out known keyed k o h = elim (Bool-cases (bytes_eq (outpoint out) k)) [
  | inl same ↦
      let found : some out ≡ some o = rw (lookup-insert (outpoint out) k out known, same) at h in
      ap outpoint (sym (some_eq found)) ∙ (bytes_eq_iff (outpoint out) k).0 same
  | inr other ↦ keyed k o (rw (lookup-insert (outpoint out) k out known, other) at h)
]

pub outputs_by_key-Keyed :
    (outs : List OwnedOutput) (known : List (Bytes × OwnedOutput))
    → Keyed known
    → Keyed (outputs_by_key outs known)
unfolding outputs_by_key
outputs_by_key-Keyed [] known keyed = keyed
outputs_by_key-Keyed (out ∷ outs) known keyed =
    outputs_by_key-Keyed outs (insert (outpoint out) out known) (insert-Keyed out known keyed)

pub nothing-Keyed : Keyed []
unfolding lookup
nothing-Keyed k o h = absurd (cc h)

none_holds :
    (a b c d : Bool)
    → a ≡ false
    → not b ≡ false
    → c ≡ false
    → d ≡ false
    → (a || (not b || (c || d))) ≡ false
none_holds a b c d p q r s = rw (p, q) (rw (r, s) refl)

module _ (filtered : OwnedOutput → Bool) (height : ℕ) (m : Reserved) where
  check_output_fit :
      (i : ℕ) (out : OwnedOutput)
      → check_output filtered height m i out ≡ ok tt
      → unfit filtered height m out ≡ false
  unfolding check_output
  check_output_fit i out h =
      let (unspent, h1) = refuse_if-eq-ok out.spent _ _ h in
      let (mature, h2) = refuse_if-eq-ok (not (is_output_mature out height)) _ _ h1 in
      let (free, h3) = refuse_if-eq-ok (is_reserved m out) _ _ h2 in
      none_holds out.spent (is_output_mature out height) (is_reserved m out) (filtered out) unspent
        mature free (refuse_if_ok (filtered out) _ h3)

  pub check_refs_asked :
      (known : List (Bytes × OwnedOutput)) (i : ℕ) (refs : List Bytes) {outs : List OwnedOutput}
      → Keyed known
      → check_refs filtered height m known i refs ≡ ok outs
      → (map outpoint outs ≡ refs) × All (λ o. unfit filtered height m o ≡ false) outs
  unfolding check_refs
  check_refs_asked known i [] keyed h =
      subst (λ z. (map outpoint z ≡ []) × All (λ o. unfit filtered height m o ≡ false) z)
        (ok-injective h) (refl, tt)
  check_refs_asked known i (ref ∷ refs) keyed h = elim (Option-cases (lookup ref known)) [
    | inl missing ↦ cc (rw (check_refs, missing) at h)
    | inr (out, found) ↦
        let (u, passes, rest) =
          >>=-eq-ok (check_output filtered height m i out) _ (rw (check_refs, found) at h) in
        let (later, checked, whole) =
          >>=-eq-ok (check_refs filtered height m known (i + 1) refs) _ rest in
        let (asked, fit) = check_refs_asked known (i + 1) refs keyed checked in
        subst (λ z. (map outpoint z ≡ ref ∷ refs) × All (λ o. unfit filtered height m o ≡ false) z)
          (ok-injective whole)
          (cc (keyed ref out found, asked), (check_output_fit i out passes, fit))
  ]

reserve_each_keeps :
    (r : Reservation) (os : List OwnedOutput) (m : Reserved) (k : Bytes)
    → lookup k m ≡ some r
    → lookup k (reserve_each r os m) ≡ some r
unfolding reserve_each
reserve_each_keeps r [] m k h = h
reserve_each_keeps r (o ∷ os) m k h =
    reserve_each_keeps r os (insert (outpoint o) r m) k
      (ground (arith, lookup-insert (outpoint o) k r m))

pub reserve_each_all :
    (r : Reservation) (os : List OwnedOutput) (m : Reserved)
    → All (λ o. lookup (outpoint o) (reserve_each r os m) ≡ some r) os
unfolding reserve_each
reserve_each_all r [] m = tt
reserve_each_all r (o ∷ os) m = (
  reserve_each_keeps r os (insert (outpoint o) r m) (outpoint o) (
      ground (
        arith,
        lookup-insert (outpoint o) (outpoint o) r m,
        (bytes_eq_iff (outpoint o) (outpoint o)).1 refl,
      )),
  reserve_each_all r os (insert (outpoint o) r m),
)

-- ReserveSpecificInputs, where it succeeds, returns the outputs that were asked for, in their order; each was
-- unspent, mature and free, and is reserved afterwards under the new lease.
pub reserve_specific_inputs-Reserves :
    (filtered : OwnedOutput → Bool) (now : ℕ) (refs : List Bytes) (height ttl : ℕ) (w : Wallet)
    {lease : ℕ} {inputs : List OwnedOutput} {after : Wallet}
    → reserve_specific_inputs filtered now refs height ttl w ≡ (ok (lease, inputs), after)
    → (map outpoint inputs ≡ refs)
      × All (λ o. unfit filtered height (drop_stale now w.reservations) o ≡ false) inputs
      × All (λ o. lookup (outpoint o) after.reservations ≡ some (granted_at lease now ttl)) inputs
unfolding reserve_specific_inputs
reserve_specific_inputs-Reserves filtered now [] height ttl w h = cc h
reserve_specific_inputs-Reserves filtered now (ref ∷ refs) height ttl w {lease} {inputs} {after} h =
    let live = drop_stale now w.reservations in
    let known = outputs_by_key w.outputs [] in
    let checks = check_duplicates 0 (ref ∷ refs) [] >>= λ _.
    check_refs filtered height live known 0 (ref ∷ refs) in
    elim (Result-cases checks) [
      | inl (e, failed) ↦ cc (rw (reserve_specific_inputs, failed) at h)
      | inr (selected, passed) ↦
          let same = rw (reserve_specific_inputs, passed) at h in
          let given = ok-injective (ap (λ (x : Result ReserveError Lease × Wallet). x.0) same) in
          let m_same = ap (λ (x : Result ReserveError Lease × Wallet). x.1.reservations) same in
          let (u, distinct, found) = >>=-eq-ok (check_duplicates 0 (ref ∷ refs) []) _ passed in
          let (asked, fit) =
            check_refs_asked filtered height live known 0 (ref ∷ refs)
              (outputs_by_key-Keyed w.outputs [] nothing-Keyed) found in
          let held = reserve_each_all (granted_at (take_lease w) now ttl) selected live in
          subst
            (λ (z : Lease × Reserved).
              (map outpoint z.0.1 ≡ ref ∷ refs)
              × All (λ o. unfit filtered height live o ≡ false) z.0.1
              × All (λ o. lookup (outpoint o) z.1 ≡ some (granted_at z.0.0 now ttl)) z.0.1)
            (pair_eq given m_same) (asked, fit, held)
    ]
