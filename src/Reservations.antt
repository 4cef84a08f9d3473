-- ===== src/Reservations.antt =====
-- wallet/wallet.go: the inputs that are reserved for payments under way.
pub mod Specific
pub mod Held
pub mod Chosen
pub mod Calls
pub mod Apart
use blocknet_core.Prelude.{
  ℕ, suc, ◌+◌, ◌-◌, ◌%◌, List, [], ◌∷◌, Bytes, Bool, true, false, ◌&&◌, ◌||◌, not, Option, none,
  some, Result, ok, err, if◌then◌else◌, ltb, leb, ◌==◌, bytes_eq,
}
use blocknet_core.Prelude.Maps.{lookup, insert}
use blocknet_core.CoinSelect.{OwnedOutput, SelectError, Orders, select_inputs}

pub record Reservation : Type 0 where
  pub lease : ℕ
  pub expires_at : ℕ

abbrev pub Reserved : Type 0
Reserved = List (Bytes × Reservation)

-- The fields of Wallet that the reservations concern. An outpoint is the key of the map: its index
-- in front of its transaction ID. No entry of the list of outputs is nil.
pub record Wallet : Type 0 where
  pub outputs : List OwnedOutput
  pub reservations : Reserved
  pub next_lease : ℕ

pub data ReserveError : Type 0 where
  selection_failed : SelectError → ReserveError
  selected_reserved none_spendable no_inputs : ReserveError
  duplicate_input : ℕ → ℕ → ReserveError
  output_missing output_spent output_immature input_reserved input_filtered : ℕ → ReserveError

abbrev pub outpoint : OwnedOutput → Bytes
outpoint o = o.output_index ∷ o.tx_id

-- A duration that is not positive is 0 here.
unfoldable pub lease_ttl : ℕ → ℕ
lease_ttl ttl = if ttl == 0 then 120000000000 else ttl

unfoldable pub is_output_mature : OwnedOutput → ℕ → Bool
is_output_mature out height =
    if out.spent
    then false
    else if out.is_coinbase
    then leb 60 (height - out.block_height)
    else leb 10 (height - out.block_height)

unfoldable pub drop_stale : ℕ → Reserved → Reserved
drop_stale now [] = []
drop_stale now ((k, r) ∷ m) =
    if ltb r.expires_at now then drop_stale now m else (k, r) ∷ drop_stale now m

unfoldable pub drop_lease : ℕ → Reserved → Reserved
drop_lease lease [] = []
drop_lease lease ((k, r) ∷ m) =
    if r.lease == lease then drop_lease lease m else (k, r) ∷ drop_lease lease m

unfoldable pub is_reserved : Reserved → OwnedOutput → Bool
is_reserved m out = elim (lookup (outpoint out) m) [ none ↦ false | some r ↦ true ]

-- The outputs that may be selected: unspent, mature, unreserved and not filtered out.
unfoldable pub candidates :
    (OwnedOutput → Bool) → ℕ → Reserved → List OwnedOutput → List OwnedOutput
candidates filtered height m [] = []
candidates filtered height m (out ∷ outs) =
    let later = candidates filtered height m outs in
    if out.spent || (not (is_output_mature out height) || (is_reserved m out || filtered out))
    then later
    else out ∷ later

-- m[op] = r for each output.
unfoldable pub reserve_each : Reservation → List OwnedOutput → Reserved → Reserved
reserve_each r [] m = m
reserve_each r (out ∷ outs) m = reserve_each r outs (insert (outpoint out) r m)

unfoldable pub is_held : ℕ → Reserved → OwnedOutput → Bool
is_held now m out = elim (lookup (outpoint out) m) [ none ↦ false | some r ↦ ltb now r.expires_at ]

-- The same, given up with what was reserved for the lease where an output is reserved already.
unfoldable pub reserve_selected :
    ℕ → Reservation → List OwnedOutput → Reserved → Result Reserved Reserved
reserve_selected now r [] m = ok m
reserve_selected now r (out ∷ outs) m = elim (is_held now m out) [
  | true ↦ err (drop_lease r.lease m)
  | false ↦ reserve_selected now r outs (insert (outpoint out) r m)
]

abbrev pub take_lease : Wallet → ℕ
take_lease w = (w.next_lease + 1) % 18446744073709551616

abbrev pub Lease : Type 0
Lease = ℕ × List OwnedOutput

-- ReserveMatureInputs
unfoldable pub reserve_mature_inputs :
    Orders → (OwnedOutput → Bool) → ℕ → ℕ → ℕ → ℕ → Wallet → Result ReserveError Lease × Wallet
reserve_mature_inputs orders filtered now height target ttl w =
    let live = drop_stale now w.reservations in
    elim (select_inputs orders (candidates filtered height live w.outputs) target) [
      | err e ↦ (err (selection_failed e), record w { reservations = live })
      | ok selected ↦
          let granted : Reservation = record {
            lease = take_lease w;
            expires_at = now + lease_ttl ttl;
          } in
          elim (reserve_selected now granted selected live) [
            | err m ↦
                (err selected_reserved, record w { reservations = m; next_lease = take_lease w })
            | ok m ↦ (
              ok (take_lease w, selected),
              record w { reservations = m; next_lease = take_lease w },
            )
          ]
    ]

-- ReserveAllMatureInputs
unfoldable pub reserve_all_mature_inputs :
    (OwnedOutput → Bool) → ℕ → ℕ → ℕ → Wallet → Result ReserveError Lease × Wallet
reserve_all_mature_inputs filtered now height ttl w =
    let live = drop_stale now w.reservations in
    elim (candidates filtered height live w.outputs) [
      | [] ↦ (err none_spendable, record w { reservations = live })
      | out ∷ outs ↦
          let granted : Reservation = record {
            lease = take_lease w;
            expires_at = now + lease_ttl ttl;
          } in
          (
            ok (take_lease w, out ∷ outs),
            record w {
              reservations = reserve_each granted (out ∷ outs) live;
              next_lease = take_lease w;
            },
          )
    ]

-- ReleaseInputLease
unfoldable pub release_input_lease : ℕ → Wallet → Wallet
release_input_lease lease w =
    if lease == 0 then w else record w { reservations = drop_lease lease w.reservations }
