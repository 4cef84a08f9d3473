-- ===== src/Reservations/Specific.antt =====
-- wallet/wallet.go: ReserveSpecificInputs, for inputs that the caller chooses.
use blocknet_core.Prelude.{
  ℕ, ◌+◌, List, [], ◌∷◌, Bytes, Bool, not, none, some, Result, ok, err, ◌>>=◌, ◌>>◌, refuse_if,
}
use blocknet_core.Prelude.Maps.{lookup, insert}
use blocknet_core.CoinSelect.{OwnedOutput}
use blocknet_core.Reservations.{
  Reservation, Reserved, Wallet, ReserveError, no_inputs, duplicate_input, output_missing,
  output_spent, output_immature, input_reserved, input_filtered, outpoint, lease_ttl,
  is_output_mature, drop_stale, is_reserved, reserve_each, take_lease, Lease,
}

-- The outputs by their outpoints; of two with the same one, the later is kept.
unfoldable pub outputs_by_key :
    List OwnedOutput → List (Bytes × OwnedOutput) → List (Bytes × OwnedOutput)
outputs_by_key [] known = known
outputs_by_key (out ∷ outs) known = outputs_by_key outs (insert (outpoint out) out known)

unfoldable pub check_duplicates : ℕ → List Bytes → List (Bytes × ℕ) → Result ReserveError (Unit {0})
check_duplicates i [] seen = ok tt
check_duplicates i (ref ∷ refs) seen = elim (lookup ref seen) [
  | some prev ↦ err (duplicate_input i prev)
  | none ↦ check_duplicates (i + 1) refs (insert ref i seen)
]

module _ (filtered : OwnedOutput → Bool) (height : ℕ) (m : Reserved) where
  unfoldable pub check_output : ℕ → OwnedOutput → Result ReserveError (Unit {0})
  check_output i out = do
    refuse_if out.spent (output_spent i)
    refuse_if (not (is_output_mature out height)) (output_immature i)
    refuse_if (is_reserved m out) (input_reserved i)
    refuse_if (filtered out) (input_filtered i)

  unfoldable pub check_refs :
      List (Bytes × OwnedOutput) → ℕ → List Bytes → Result ReserveError (List OwnedOutput)
  check_refs known i [] = ok []
  check_refs known i (ref ∷ refs) = elim (lookup ref known) [
    | none ↦ err (output_missing i)
    | some out ↦
        check_output i out >>= λ _. check_refs known (i + 1) refs >>= λ outs. ok (out ∷ outs)
  ]

-- ReserveSpecificInputs
unfoldable pub reserve_specific_inputs :
    (OwnedOutput → Bool) → ℕ → List Bytes → ℕ → ℕ → Wallet → Result ReserveError Lease × Wallet
reserve_specific_inputs filtered now [] height ttl w = (err no_inputs, w)
reserve_specific_inputs filtered now (ref ∷ refs) height ttl w =
    let live = drop_stale now w.reservations in
    elim (check_duplicates 0 (ref ∷ refs) [] >>= λ _.
    check_refs filtered height live (outputs_by_key w.outputs []) 0 (ref ∷ refs)) [
      | err e ↦ (err e, record w { reservations = live })
      | ok selected ↦
          let granted : Reservation = record {
            lease = take_lease w;
            expires_at = now + lease_ttl ttl;
          } in
          (
            ok (take_lease w, selected),
            record w {
              reservations = reserve_each granted selected live;
              next_lease = take_lease w;
            },
          )
    ]
