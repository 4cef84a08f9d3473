-- ===== src/Tests/MempoolRuns.antt =====
-- The mempool: runs, and its theorems on a pool with one transaction.
use mathlib.Core.List.{Perm}
use blocknet_core.Prelude.{
  ◌≡◌, ◌≢◌, ◌⊎◌, ◌≤◌, refl, List, [], ◌∷◌, Bytes, true, false, some, none, ok, err, arith, length,
  take, drop, put_le, get_le, bytes_eq, contains, replicate,
}
use blocknet_core.Prelude.Maps.{lookup, delete, insert, keys}
use blocknet_core.Prelude.Sorting.{
  descending, exchange_pass, exchange_rounds, exchange_sort, IsSorted,
}
use blocknet_core.Tx.{is_coinbase}
use blocknet_core.Tx.Decode.{
  deserialize, parse_output, parse_outputs, read_arrays, parse_input, parse_inputs,
}
use blocknet_core.Tx.Encode.{
  serialize, copy_bytes, put_uint, finish, outputs_size, inputs_size, write_output, write_outputs,
  write_arrays, write_input, write_inputs, write_prefix, hashed_size, hash_output, hash_outputs,
  hash_prefix, signing_prefix,
}
use blocknet_core.Tx.Layout.{
  encode, encode_prefix, encode_output, encode_outputs, encode_arrays, encode_input, encode_inputs,
}
use blocknet_core.Tx.Crypto.{
  tx_id, signing_hash, verify_ringct, verify_range_proof, extract_binding,
}
use blocknet_core.Tx.Validate.{
  check_each, or_fail, or_panic, zero_memo, check_memo, check_distinct, check_ring,
  check_range_proof, check_input, add_all, sum_commitments, check_balance, validate_coinbase,
  validate_spend, validate_transaction,
}
use blocknet_core.Mempool.{
  Mempool, Entry, Env, new_mempool, delete_images, insert_images, dequeue, remove_tx_by_id,
  oldest_from, evict_lowest, evict_until, out_of_fuel,
}
use blocknet_core.Mempool.Operations.{
  Candidate, wrap, find_conflict, check_conflicts, check_new, check_known, check_admission, store,
  admit_bytes, admit, add_transaction, connect_txs, connect_tx, remove_spent, remove_by_key_image,
}
use blocknet_core.Mempool.Images.{Inv, spends}
use blocknet_core.Mempool.Remove.{new_mempool-Inv}
use blocknet_core.Mempool.Admit.{new_entry}
use blocknet_core.Mempool.Admission.{Admissible, check_admission-Admissible, add_transaction-Inv}
use blocknet_core.Mempool.Blocks.{connect_txs_clears}
use blocknet_core.Mempool.Evict.{Evicts, evict_lowest-Evicts}
use blocknet_core.Mempool.Bounds.{Within}
use blocknet_core.Mempool.Limits.{add_transaction-Within}
use blocknet_core.Mempool.Outcome.{add_transaction-fuel, add_transaction-stores}
use blocknet_core.Mempool.Select.{
  values, get_all_entries, select_entries, total_of, select_entries_bounds, select_entries-perm,
}
use blocknet_core.Mempool.Histories.{
  Call, adds, run, step, run-new_mempool-Inv, run-no_double_spend,
}
use blocknet_core.Tests.Samples.{sample_tx, toy_env, toy_config}

unfoldable pub program : Unit {0}
unfolding encode encode_prefix encode_output encode_outputs encode_arrays encode_input encode_inputs
    put_le take drop deserialize parse_output parse_outputs read_arrays parse_input parse_inputs
    get_le serialize copy_bytes put_uint finish outputs_size inputs_size write_output write_outputs
    write_arrays write_input write_inputs write_prefix hashed_size hash_output hash_outputs
    hash_prefix signing_prefix tx_id signing_hash verify_ringct verify_range_proof extract_binding
    check_each or_fail or_panic zero_memo check_memo check_distinct check_ring check_range_proof
    check_input add_all sum_commitments check_balance validate_coinbase validate_spend
    validate_transaction is_coinbase bytes_eq contains lookup delete insert keys new_mempool
    delete_images insert_images dequeue remove_tx_by_id oldest_from evict_lowest evict_until wrap
    find_conflict check_conflicts check_new check_known check_admission store admit_bytes admit
    add_transaction run step connect_txs connect_tx remove_spent remove_by_key_image
program = tt

pool_data : Bytes
unfolding program
pool_data = encode sample_tx

abbrev candidate : Candidate
candidate = record { tx = sample_tx; id = pool_data; fee_rate = 2; size = length pool_data }

-- The pool after the transaction has been added to a new one.
pool : Mempool
unfolding program
pool = (add_transaction toy_env 10 5000 pool_data (new_mempool toy_config)).0

admission : check_admission toy_env (new_mempool toy_config) 5000 pool_data ≡ ok (some candidate)
unfolding program pool_data
admission = refl

calls : List (Env × Call)
calls = (toy_env, adds 10 5000 pool_data) ∷ []

pool-run : run calls (new_mempool toy_config) ≡ pool
unfolding program pool calls
pool-run = refl

pool_entry :
    lookup pool_data pool.tx_by_id
    ≡ some (new_entry 10 5000 pool_data candidate (new_mempool toy_config))
unfolding program pool pool_data
pool_entry = refl

pool-Inv : Inv pool
unfolding pool
pool-Inv =
    add_transaction-Inv toy_env 10 5000 pool_data (new_mempool toy_config)
      (new_mempool-Inv toy_config)

image : Bytes
image = replicate 32 7

pool_spends : spends sample_tx image ≡ true
unfolding contains bytes_eq image
pool_spends = refl

run-new_mempool-Inv_example : Inv (run calls (new_mempool toy_config))
run-new_mempool-Inv_example = run-new_mempool-Inv toy_config calls

run_entry :
    lookup pool_data (run calls (new_mempool toy_config)).tx_by_id
    ≡ some (new_entry 10 5000 pool_data candidate (new_mempool toy_config))
unfolding program calls pool_data
run_entry = refl

run-no_double_spend_example : pool_data ≡ pool_data
run-no_double_spend_example =
    run-no_double_spend toy_config calls pool_data pool_data image
      (new_entry 10 5000 pool_data candidate (new_mempool toy_config))
      (new_entry 10 5000 pool_data candidate (new_mempool toy_config)) run_entry run_entry
      pool_spends pool_spends

new_mempool-Within : Within toy_config (new_mempool toy_config)
unfolding new_mempool
new_mempool-Within = record {
  inv = new_mempool-Inv toy_config;
  same = refl;
  count = omega arith;
  bytes = omega arith;
}

pool_data_fits : length pool_data ≤ toy_config.max_size_bytes
unfolding program pool_data
pool_data_fits = omega arith

add_transaction-Within_example :
    Within toy_config (add_transaction toy_env 10 5000 pool_data (new_mempool toy_config)).0
add_transaction-Within_example =
    add_transaction-Within toy_env toy_config 10 5000 pool_data (new_mempool toy_config)
      new_mempool-Within pool_data_fits

add_transaction-fuel_example :
    (add_transaction toy_env 10 5000 pool_data (new_mempool toy_config)).1 ≢ err out_of_fuel
add_transaction-fuel_example =
    add_transaction-fuel toy_env 10 5000 pool_data (new_mempool toy_config)
      (new_mempool-Inv toy_config)

added : (add_transaction toy_env 10 5000 pool_data (new_mempool toy_config)).1 ≡ ok tt
unfolding program pool_data
added = refl

add_transaction-stores_example :
    lookup pool_data (add_transaction toy_env 10 5000 pool_data (new_mempool toy_config)).0.tx_by_id
    ≡ some (new_entry 10 5000 pool_data candidate (new_mempool toy_config))
add_transaction-stores_example =
    add_transaction-stores toy_env 10 5000 pool_data (new_mempool toy_config) candidate admission
      added

check_admission-Admissible_example :
    Admissible toy_env (new_mempool toy_config) 5000 pool_data candidate
check_admission-Admissible_example =
    check_admission-Admissible toy_env (new_mempool toy_config) 5000 pool_data candidate admission

own_id : tx_id toy_env.crypto sample_tx ≡ ok pool_data
unfolding program pool_data
own_id = refl

connect_txs_clears_example :
    (lookup pool_data (connect_txs toy_env (sample_tx ∷ []) pool).tx_by_id ≡ none)
    × (lookup image (connect_txs toy_env (sample_tx ∷ []) pool).tx_by_image ≡ none)
connect_txs_clears_example =
    connect_txs_clears toy_env (sample_tx ∷ []) pool 0 sample_tx pool_data image pool-Inv refl
      own_id pool_spends

evict_lowest-Evicts_example :
    (evict_lowest 3 pool ≡ (pool, false)) ⊎ ((id : Bytes) × (e : Entry) × Evicts 3 pool id e)
evict_lowest-Evicts_example = evict_lowest-Evicts 3 pool pool-Inv.is_map

select_entries_bounds_example :
    (length (select_entries 4000 5 pool) ≤ 5)
    × (total_of (select_entries 4000 5 pool) ≤ 4000)
    × IsSorted (descending (λ (e : Entry). e.fee_rate)) (select_entries 4000 5 pool)
select_entries_bounds_example = select_entries_bounds 4000 5 pool

pool_size : length (values pool.tx_by_id) ≡ 1
unfolding program pool pool_data values
pool_size = refl

pool_total : total_of (get_all_entries pool) ≡ length pool_data
unfolding program pool pool_data values get_all_entries total_of exchange_sort exchange_rounds
    exchange_pass
pool_total = refl

pool_data_size : length pool_data ≤ 4000
unfolding program pool_data
pool_data_size = omega arith

select_entries-perm_example : Perm (select_entries 4000 5 pool) (values pool.tx_by_id)
select_entries-perm_example =
    select_entries-perm 4000 5 pool (omega (arith, pool_size))
      (omega (arith, pool_total, pool_data_size))
