-- ===== src/Tests/SelectRuns.antt =====
-- wallet/coinselect.go and wallet/wallet.go: runs of the selection and the reservations, and the
-- theorems on them.
use blocknet_core.Prelude.{
  ℕ, ◌+◌, ◌≤◌, ◌<◌, ◌≢◌, Result, All, arith, ◌≡◌, refl, List, [], ◌∷◌, Bytes, Bool, true, false,
  some, ok, err, bytes_eq, if◌then◌else◌,
}
use blocknet_core.Prelude.Sorting as Sorting
use blocknet_core.Prelude.Sorting.{exchange_sort, exchange_sort-perm}
use mathlib.Core.List.Perm
use blocknet_core.Prelude.Maps.{lookup, delete, insert}
use blocknet_core.Reservations.{
  Wallet, ReserveError, none_spendable, duplicate_input, output_missing, output_spent,
  input_reserved, Lease, outpoint, lease_ttl, is_output_mature, drop_stale, drop_lease, is_reserved,
  candidates, reserve_each, is_held, reserve_selected, reserve_mature_inputs,
  reserve_all_mature_inputs, release_input_lease,
}
use blocknet_core.Reservations.Specific.{
  outputs_by_key, check_duplicates, check_output, check_refs, reserve_specific_inputs,
}
use blocknet_core.Reservations.Calls.{
  Attempt, mature, every, named, attempt, over_at, Between, done, reserves, releases,
}
use blocknet_core.Reservations.Apart.{leases_apart}
use blocknet_core.CoinSelect.{
  OwnedOutput, Orders, insufficient_funds, unspent, total_from, singles, pairs_with, pairs,
  take_until, chosen, not_chosen, replace_first, replace_all, draw, find_exact_match,
  select_smallest_first_capped, select_largest_first_capped, select_mixed, select_strategies,
  select_inputs, with_decoys, select_inputs_with_decoys,
}
use blocknet_core.CoinSelect.Loops.{Pays}
use blocknet_core.CoinSelect.Covers.{select_inputs-Pays}

unfoldable pub selection : Unit {0}
unfolding unspent total_from singles pairs_with pairs take_until chosen not_chosen replace_first
    replace_all draw find_exact_match select_smallest_first_capped select_largest_first_capped
    select_mixed select_strategies select_inputs with_decoys select_inputs_with_decoys
    Sorting.exchange_pass Sorting.exchange_rounds exchange_sort
selection = tt

-- No shuffle, the first of the candidates, and the exchange sort by amount.
abbrev plain_orders : Orders
plain_orders = record {
  shuffle = λ os. os;
  rand_index = λ n. some 0;
  ascending = exchange_sort (Sorting.ascending (λ (o : OwnedOutput). o.amount));
  descending = exchange_sort (Sorting.descending (λ (o : OwnedOutput). o.amount));
  shuffle-Perm = λ os. Perm.refl os;
  ascending-Perm = exchange_sort-perm (Sorting.ascending (λ (o : OwnedOutput). o.amount));
  descending-Perm = exchange_sort-perm (Sorting.descending (λ (o : OwnedOutput). o.amount));
}

abbrev owned : ℕ → ℕ → Bool → OwnedOutput
owned pointer amount spent = record {
  pointer = pointer;
  amount = amount;
  commitment = pointer ∷ [];
  spent = spent;
  tx_id = pointer ∷ [];
  output_index = 0;
  block_height = 5;
  is_coinbase = false;
}

abbrev purse : List OwnedOutput
purse = owned 1 50 false ∷ owned 2 7 true ∷ owned 3 20 false ∷ owned 4 5 false ∷ []

-- The smallest first, the pair that fits exactly, and too little.
smallest_run : select_inputs plain_orders purse 24 ≡ ok (owned 4 5 false ∷ owned 3 20 false ∷ [])
unfolding selection
smallest_run = refl

pair_run : select_inputs plain_orders purse 70 ≡ ok (owned 1 50 false ∷ owned 3 20 false ∷ [])
unfolding selection
pair_run = refl

poor_run : select_inputs plain_orders purse 76 ≡ err insufficient_funds
unfolding selection
poor_run = refl

-- A limit of two, which no outputs of the smallest amounts meet: the largest two, of which the second is
-- replaced by a smaller one.
mixed_run :
    select_mixed plain_orders (owned 1 50 false ∷ owned 3 20 false ∷ owned 4 5 false ∷ []) 53 2
    ≡ some (owned 1 50 false ∷ owned 4 5 false ∷ [])
unfolding selection
mixed_run = refl

decoys_run :
    select_inputs_with_decoys plain_orders purse 20
      (λ (c : Bytes). if bytes_eq c (3 ∷ []) then 0 else 9)
      5
    ≡ ok (owned 4 5 false ∷ owned 1 50 false ∷ [])
unfolding selection bytes_eq
decoys_run = refl

select_inputs-Pays_example : Pays 24 (unspent purse) (owned 4 5 false ∷ owned 3 20 false ∷ [])
select_inputs-Pays_example = select_inputs-Pays plain_orders purse 24 smallest_run

unfoldable pub reserving : Unit {0}
unfolding selection bytes_eq lookup delete insert lease_ttl is_output_mature drop_stale drop_lease
    is_reserved candidates reserve_each is_held reserve_selected reserve_mature_inputs
    reserve_all_mature_inputs release_input_lease
reserving = tt

unfoldable pub specific : Unit {0}
unfolding outputs_by_key check_duplicates check_output check_refs reserve_specific_inputs
specific = tt

abbrev keep_all : OwnedOutput → Bool
keep_all o = false

abbrev fresh_wallet : Wallet
fresh_wallet = record { outputs = purse; reservations = []; next_lease = 0 }

first_reserve : Result ReserveError Lease × Wallet
unfolding reserving
first_reserve = reserve_mature_inputs plain_orders keep_all 100 20 24 1000 fresh_wallet

first_run :
    reserve_mature_inputs plain_orders keep_all 100 20 24 1000 fresh_wallet
    ≡ (ok (1, owned 4 5 false ∷ owned 3 20 false ∷ []), first_reserve.1)
unfolding reserving first_reserve
first_run = refl

second_reserve : Result ReserveError Lease × Wallet
unfolding reserving first_reserve
second_reserve = reserve_mature_inputs plain_orders keep_all 500 20 30 0 first_reserve.1

second_run :
    reserve_mature_inputs plain_orders keep_all 500 20 30 0 first_reserve.1
    ≡ (ok (2, owned 1 50 false ∷ []), second_reserve.1)
unfolding reserving first_reserve second_reserve
second_run = refl

-- While both run, nothing is left; an output is free again once its lease is released or over.
nothing_left : (reserve_all_mature_inputs keep_all 600 20 0 second_reserve.1).0 ≡ err none_spendable
unfolding reserving first_reserve second_reserve
nothing_left = refl

released_run :
    (reserve_all_mature_inputs keep_all 600 20 0 (release_input_lease 2 second_reserve.1)).0
    ≡ ok (3, owned 1 50 false ∷ [])
unfolding reserving first_reserve second_reserve
released_run = refl

over_run :
    (reserve_all_mature_inputs keep_all 1101 20 0 second_reserve.1).0
    ≡ ok (3, owned 3 20 false ∷ owned 4 5 false ∷ [])
unfolding reserving first_reserve second_reserve
over_run = refl

-- Inputs that the caller names: reserved, named twice, unknown, spent, and reserved already.
specific_run :
    (reserve_specific_inputs keep_all 100 ((0 ∷ 4 ∷ []) ∷ (0 ∷ 1 ∷ []) ∷ []) 20 0 fresh_wallet).0
    ≡ ok (1, owned 4 5 false ∷ owned 1 50 false ∷ [])
unfolding reserving specific
specific_run = refl

twice_run :
    (reserve_specific_inputs keep_all 100 ((0 ∷ 4 ∷ []) ∷ (0 ∷ 4 ∷ []) ∷ []) 20 0 fresh_wallet).0
    ≡ err (duplicate_input 1 0)
unfolding reserving specific
twice_run = refl

missing_run :
    (reserve_specific_inputs keep_all 100 ((1 ∷ 4 ∷ []) ∷ []) 20 0 fresh_wallet).0
    ≡ err (output_missing 0)
unfolding reserving specific
missing_run = refl

spent_run :
    (reserve_specific_inputs keep_all 100 ((0 ∷ 4 ∷ []) ∷ (0 ∷ 2 ∷ []) ∷ []) 20 0 fresh_wallet).0
    ≡ err (output_spent 1)
unfolding reserving specific
spent_run = refl

reserved_run :
    (reserve_specific_inputs keep_all 600 ((0 ∷ 4 ∷ []) ∷ []) 20 0 second_reserve.1).0
    ≡ err (input_reserved 0)
unfolding reserving specific first_reserve second_reserve
reserved_run = refl

abbrev first_attempt : Attempt
first_attempt = mature plain_orders keep_all 100 20 24 1000

abbrev failed_attempt : Attempt
failed_attempt = named keep_all 300 ((0 ∷ 4 ∷ []) ∷ []) 20 0

abbrev last_attempt : Attempt
last_attempt = every keep_all 500 20 0

between_wallet : Wallet
unfolding reserving specific first_reserve
between_wallet = release_input_lease 7 (attempt failed_attempt first_reserve.1).1

last_wallet : Wallet
unfolding reserving specific first_reserve between_wallet
last_wallet = (attempt last_attempt between_wallet).1

last_run : attempt last_attempt between_wallet ≡ (ok (2, owned 1 50 false ∷ []), last_wallet)
unfolding reserving specific first_reserve between_wallet last_wallet
last_run = refl

in_time : (t : ℕ) → t ≤ 1100 → t ≤ over_at first_attempt
unfolding reserving
in_time t h = omega (arith, h)

has_room : first_reserve.1.next_lease + 1 < 18446744073709551616
unfolding reserving first_reserve
has_room = omega arith

another : ◌≢◌ {A = ℕ} 7 1
another e = absurd (omega (arith, e))

between : Between 1 (over_at first_attempt) first_reserve.1 between_wallet
unfolding between_wallet
between =
    reserves first_reserve.1 between_wallet failed_attempt (in_time 300 (omega arith)) has_room (
      releases (attempt failed_attempt first_reserve.1).1 between_wallet 7 another
        (done between_wallet))

leases_apart_example :
    All
      (λ a. All (λ b. outpoint a ≢ outpoint b) (owned 1 50 false ∷ []))
      (owned 4 5 false ∷ owned 3 20 false ∷ [])
leases_apart_example =
    leases_apart first_attempt last_attempt fresh_wallet between_wallet first_run between last_run
      (in_time 500 (omega arith))
