-- ===== src/Reservations/Held.antt =====
-- wallet/wallet.go: about what a lease of ReserveMatureInputs holds.
use blocknet_core.Prelude.{
  ℕ, ◌+◌, ◌≤◌, ◌≡◌, refl, sym, ap, ◌∙◌, subst, List, [], ◌∷◌, Bytes, Bool, false, ◌||◌, not, none,
  some, Result, ok, ltb, bytes_eq, bytes_eq_iff, le→ltb-false, All, arith, inl, inr, Bool-cases,
  Option-cases, Result-cases, some_eq, ok-injective,
}
use blocknet_core.Prelude.Counts.{count}
use blocknet_core.Prelude.Maps.{lookup, insert, lookup-insert}
use blocknet_core.CoinSelect.{OwnedOutput, Orders, select_inputs}
use blocknet_core.CoinSelect.Loops.{amounts, count-unspent-le}
use blocknet_core.CoinSelect.Covers.{select_inputs-Pays}
use blocknet_core.Reservations.{
  Reservation, Reserved, Wallet, ReserveError, outpoint, lease_ttl, is_output_mature, drop_stale,
  is_reserved, candidates, is_held, reserve_selected, take_lease, Lease, reserve_mature_inputs,
}

-- The reservation that a call at this time makes.
abbrev pub granted_at : ℕ → ℕ → ℕ → Reservation
granted_at lease now ttl = record { lease = lease; expires_at = now + lease_ttl ttl }

pub count-All :
    (p : OwnedOutput → Bool) (os : List OwnedOutput) → count p os ≡ 0 → All (λ o. p o ≡ false) os
count-All p [] h = tt
count-All p (o ∷ os) h = elim (Bool-cases (p o)) [
  | inl e ↦ absurd (omega (arith, (rw e at h)))
  | inr e ↦ (e, count-All p os (omega (arith, (rw e at h))))
]

abbrev pub unfit : (OwnedOutput → Bool) → ℕ → Reserved → OwnedOutput → Bool
unfit filtered height m out =
    out.spent || (not (is_output_mature out height) || (is_reserved m out || filtered out))

pub candidates_fit :
    (filtered : OwnedOutput → Bool) (height : ℕ) (m : Reserved) (outs : List OwnedOutput)
    → count (unfit filtered height m) (candidates filtered height m outs) ≡ 0
unfolding candidates
candidates_fit filtered height m [] = refl
candidates_fit filtered height m (out ∷ outs) = elim (Bool-cases (unfit filtered height m out)) [
  | inl e ↦ rw (candidates, e) (candidates_fit filtered height m outs)
  | inr e ↦ rw (candidates, e) (rw e (omega (arith, candidates_fit filtered height m outs)))
]

-- What is selected from the candidates was fit to be one.
pub selected_fit :
    (orders : Orders) (filtered : OwnedOutput → Bool) (height target : ℕ) (m : Reserved)
    (outs : List OwnedOutput) {r : List OwnedOutput}
    → select_inputs orders (candidates filtered height m outs) target ≡ ok r
    → All (λ o. unfit filtered height m o ≡ false) r
selected_fit orders filtered height target m outs {r} h =
    let pool = candidates filtered height m outs in
    let (covers, short, within) = select_inputs-Pays orders pool target h in
    count-All (unfit filtered height m) r (
      omega (
        arith,
        within (unfit filtered height m),
        count-unspent-le (unfit filtered height m) pool,
        candidates_fit filtered height m outs,
      ))

reserve_selected_keeps :
    (now : ℕ) (r : Reservation) (os : List OwnedOutput) (m : Reserved) {n : Reserved} (k : Bytes)
    → reserve_selected now r os m ≡ ok n
    → lookup k m ≡ some r
    → lookup k n ≡ some r
unfolding reserve_selected
reserve_selected_keeps now r [] m k h e = subst (λ z. lookup k z ≡ some r) (ok-injective h) e
reserve_selected_keeps now r (o ∷ os) m k h e = elim (Bool-cases (is_held now m o)) [
  | inl held ↦ cc (rw (reserve_selected, held) at h)
  | inr free ↦
      reserve_selected_keeps now r os (insert (outpoint o) r m) k (rw (reserve_selected, free) at h)
        (ground (arith, lookup-insert (outpoint o) k r m))
]

reserve_selected_all :
    (now : ℕ) (r : Reservation) (os : List OwnedOutput) (m : Reserved) {n : Reserved}
    → reserve_selected now r os m ≡ ok n
    → All (λ o. lookup (outpoint o) n ≡ some r) os
unfolding reserve_selected
reserve_selected_all now r [] m h = tt
reserve_selected_all now r (o ∷ os) m h = elim (Bool-cases (is_held now m o)) [
  | inl held ↦ cc (rw (reserve_selected, held) at h)
  | inr free ↦
      let rest = rw (reserve_selected, free) at h in
      (
        reserve_selected_keeps now r os (insert (outpoint o) r m) (outpoint o) rest (
            ground (
              arith,
              lookup-insert (outpoint o) (outpoint o) r m,
              (bytes_eq_iff (outpoint o) (outpoint o)).1 refl,
            )),
        reserve_selected_all now r os (insert (outpoint o) r m) rest,
      )
]

pub lookup-drop_stale :
    (now : ℕ) (m : Reserved) (k : Bytes) {r : Reservation}
    → lookup k m ≡ some r
    → now ≤ r.expires_at
    → lookup k (drop_stale now m) ≡ some r
unfolding lookup drop_stale
lookup-drop_stale now [] k h live = absurd (cc h)
lookup-drop_stale now ((j, s) ∷ m) k {r} h live = elim (Bool-cases (bytes_eq j k)) [
  | inl same ↦
      let here : s ≡ r = some_eq (rw same at h) in
      rw
        (subst (λ (z : Reservation). ltb z.expires_at now ≡ false) (sym here)
          (le→ltb-false r.expires_at now live))
        (rw same (ap some here))
  | inr other ↦ elim (Bool-cases (ltb s.expires_at now)) [
    | inl stale ↦ rw (drop_stale, stale) (lookup-drop_stale now m k (rw other at h) live)
    | inr fresh ↦ rw (drop_stale, fresh) (rw other (lookup-drop_stale now m k (rw other at h) live))
  ]
]

-- A call that succeeds: what it selected, and what it reserved.
granted_lease :
    (orders : Orders) (filtered : OwnedOutput → Bool) (now height target ttl : ℕ) (w : Wallet)
    {lease : ℕ} {inputs : List OwnedOutput} {after : Wallet}
    → reserve_mature_inputs orders filtered now height target ttl w ≡ (ok (lease, inputs), after)
    → (select_inputs orders
          (candidates filtered height (drop_stale now w.reservations) w.outputs)
          target
        ≡ ok inputs)
      × (reserve_selected now (granted_at lease now ttl) inputs (drop_stale now w.reservations)
          ≡ ok after.reservations)
unfolding reserve_mature_inputs
granted_lease orders filtered now height target ttl w {lease} {inputs} {after} h =
    let live = drop_stale now w.reservations in
    let pool = candidates filtered height live w.outputs in
    elim (Result-cases (select_inputs orders pool target)) [
      | inl (e, failed) ↦ cc (rw (reserve_mature_inputs, failed) at h)
      | inr (selected, chosen) ↦
          let granted : Reservation = record {
            lease = take_lease w;
            expires_at = now + lease_ttl ttl;
          } in
          elim (Result-cases (reserve_selected now granted selected live)) [
            | inl (m, refused) ↦ cc (rw (reserve_mature_inputs, chosen, refused) at h)
            | inr (m, reserved) ↦
                let same = rw (reserve_mature_inputs, chosen, reserved) at h in
                let given =
                  ok-injective (ap (λ (x : Result ReserveError Lease × Wallet). x.0) same) in
                let inputs_same : selected ≡ inputs = ap (λ (l : Lease). l.1) given in
                let m_same =
                  ap (λ (x : Result ReserveError Lease × Wallet). x.1.reservations) same in
                (
                  chosen ∙ ap ok inputs_same,
                  ap
                        (λ (l : Lease).
                          reserve_selected now
                            (record { lease = l.0; expires_at = now + lease_ttl ttl }) l.1 live)
                        (sym given)
                      ∙ (reserved ∙ ap ok m_same),
                )
          ]
    ]

pub is_reserved-none :
    (m : Reserved) (o : OwnedOutput) → is_reserved m o ≡ false → lookup (outpoint o) m ≡ none
unfolding is_reserved
is_reserved-none m o h = elim (Option-cases (lookup (outpoint o) m)) [
  | inl e ↦ e
  | inr (r, e) ↦ cc (rw (is_reserved, e) at h)
]

pub unfit_reserved :
    (filtered : OwnedOutput → Bool) (height : ℕ) (m : Reserved) (o : OwnedOutput)
    → unfit filtered height m o ≡ false
    → lookup (outpoint o) m ≡ none
unfit_reserved filtered height m o h = is_reserved-none m o (ground (arith, h))

-- ReserveMatureInputs, where it succeeds: the inputs pay the target; each is an output that no lease in force
-- reserved, and is reserved afterwards under the new lease until its time is over.
pub reserve_mature_inputs-Reserves :
    (orders : Orders) (filtered : OwnedOutput → Bool) (now height target ttl : ℕ) (w : Wallet)
    {lease : ℕ} {inputs : List OwnedOutput} {after : Wallet}
    → reserve_mature_inputs orders filtered now height target ttl w ≡ (ok (lease, inputs), after)
    → (target ≤ amounts inputs)
      × All (λ o. unfit filtered height (drop_stale now w.reservations) o ≡ false) inputs
      × All (λ o. lookup (outpoint o) after.reservations ≡ some (granted_at lease now ttl)) inputs
reserve_mature_inputs-Reserves orders filtered now height target ttl w {lease} {inputs} {after} h =
    let live = drop_stale now w.reservations in
    let (chosen, reserved) = granted_lease orders filtered now height target ttl w h in
    (
      (select_inputs-Pays orders (candidates filtered height live w.outputs) target chosen).0,
      selected_fit orders filtered height target live w.outputs chosen,
      reserve_selected_all now (granted_at lease now ttl) inputs live reserved,
    )
