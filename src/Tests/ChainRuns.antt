-- ===== src/Tests/ChainRuns.antt =====
-- The chain state: a block that becomes the tip, a branch beside the main chain, and the theorems on them.
use blocknet_core.Prelude.{
  ℕ, ◌<◌, ◌≡◌, ◌⊎◌, ◌↔◌, refl, sym, ap, ◌∙◌, subst, some_eq, inl, inr, Bool-cases, Option-cases,
  bytes_eq, bytes_eq_iff, arith, length, List, [], ◌∷◌, Bytes, true, false, ◌||◌, Option, none,
  some, ok, replicate, contains, if◌then◌else◌, ◌==◌,
}
use blocknet_core.Prelude.Sorting.{exchange_pass, exchange_rounds, exchange_sort}
use blocknet_core.Tx.{Transaction}
use blocknet_core.Block.{Block, block_size, txs_size, tx_size, size_of_outputs, size_of_inputs}
use blocknet_core.Block.Wire.{serialize_for_pow}
use blocknet_core.Block.Merkle.{tx_ids, block_root, merkle_root, merkle_rounds}
use blocknet_core.Block.Difficulty.{expected_difficulty}
use blocknet_core.Block.Median.{collect_timestamps, median_of, median_from_parent}
use blocknet_core.Block.Forks.{add_cumulative_work}
use blocknet_core.Block.Validate.{
  Network, or_block, check_coinbase, coinbase_blinding, check_timestamp, check_pow,
  check_no_coinbase, check_first, check_root, check_coinbase_of, see_images, check_txs,
}
use blocknet_core.Block.Validate.Context.{check_header, check_body, validate_with_context}
use blocknet_core.Store.Chains.{chain_spends, hash_at, tip_of, SpendsOnce}
use blocknet_core.Chain.Agreement.{Agrees}
use blocknet_core.Chain.Agreement.Process.{Sound, process_block-Sound}
use blocknet_core.Prelude.Maps.{lookup}
use blocknet_core.Store.{block_hash, get_tip, save_block, key_image_spent}
use blocknet_core.Chain.{
  Chain, get_block, stored_at, get_block_by_height, image_spent, add_work, cumulative_work,
  cumulative_work_at, set_height, push_timestamp, set_inputs, set_images,
}
use blocknet_core.Chain.Spent.{
  add_inputs, add_images, ring_key, add_ring_outputs, add_ring_txs, on_main, branch_images,
  branch_spent, ring_loop, canonical_ring_index, is_ring_member,
}
use blocknet_core.Chain.Process.{
  should_skip_pow, check_checkpoint, spent_checker, validate_for_process, note_extension, commit_to,
  reorganize_to, after_reorg, place_block, parent_work, weigh_block, process_block,
}
use blocknet_core.Chain.Choice.{Chosen, process_block-Chosen}
use blocknet_core.Chain.Branches.{SpentOff, branch_spent_iff}
use blocknet_core.Tests.Samples.{sample_coinbase}
use blocknet_core.Tests.BlockRuns.{toy_network}
use blocknet_core.Tests.StoreRuns.{
  toy_kv, nonce_crypto, numbered_block, block_0, block_1, fork_1, fork_2, store_0,
  store_0-Represents, store_1, database,
}

unfoldable pub chain_calls : Unit {0}
unfolding database get_tip save_block key_image_spent get_block stored_at get_block_by_height
    image_spent add_work cumulative_work cumulative_work_at set_height push_timestamp set_inputs
    set_images add_inputs add_images ring_key add_ring_outputs add_ring_txs on_main branch_images
    branch_spent ring_loop canonical_ring_index is_ring_member should_skip_pow check_checkpoint
    spent_checker validate_for_process note_extension commit_to reorganize_to after_reorg
    place_block parent_work weigh_block process_block validate_with_context check_header check_body
    or_block check_coinbase coinbase_blinding check_timestamp check_pow check_no_coinbase
    check_first check_root check_coinbase_of see_images check_txs expected_difficulty
    collect_timestamps median_of median_from_parent block_root tx_ids merkle_root merkle_rounds
    block_size txs_size tx_size size_of_outputs size_of_inputs exchange_sort exchange_rounds
    exchange_pass serialize_for_pow add_cumulative_work
chain_calls = tt

abbrev nonce_network : Network
nonce_network = record toy_network { crypto = nonce_crypto }

abbrev heights_0 : ℕ → Option Bytes
heights_0 h = if h == 0 then some (replicate 32 1) else none

abbrev heights_1 : ℕ → Option Bytes
heights_1 h = if h == 1 then some (replicate 32 2) else heights_0 h

-- The chain that has its first block only.
chain_0 : Chain toy_kv
unfolding store_0
chain_0 = record {
  store = store_0;
  blocks = (replicate 32 1, block_0) ∷ [];
  work_at = (replicate 32 1, 10) ∷ [];
  by_height = heights_0;
  timestamps = 100 ∷ [];
  best_hash = replicate 32 1;
  height = 0;
  total_work = 10;
  key_images = [];
  ring_index = [];
  ring_index_dirty = true;
  ring_index_tip = replicate 32 0;
  ring_index_ready = false;
  trusted_checkpoints = none;
  fast_sync_until = 0;
}

root_of : List Transaction → Bytes
unfolding chain_calls
root_of txs = elim (block_root nonce_crypto (numbered_block 1 1 5 txs)) [
  | ok (some root) ↦ root
  | _ ↦ []
]

next_block : Block
unfolding chain_calls root_of
next_block =
    let b = numbered_block 1 1 5 (sample_coinbase ∷ []) in
    record b {
      header = record b.header { difficulty = 4; merkle_root = root_of (sample_coinbase ∷ []) };
    }

next_accepted : (process_block nonce_network toy_kv next_block chain_0).1 ≡ ok (true, true)
unfolding chain_calls chain_0 next_block root_of store_0
next_accepted = refl

process_block-Chosen_example :
    Chosen toy_kv nonce_network chain_0 (process_block nonce_network toy_kv next_block chain_0)
process_block-Chosen_example = process_block-Chosen toy_kv nonce_network next_block chain_0

-- Two blocks on the main chain, and a branch of two beside the second.
chain_1 : Chain toy_kv
unfolding store_1
chain_1 = record chain_0 {
  store = store_1;
  blocks =
      (replicate 32 1, block_0)
      ∷ (replicate 32 2, block_1)
      ∷ (replicate 32 3, fork_1)
      ∷ (replicate 32 4, fork_2)
      ∷ [];
  by_height = heights_1;
  best_hash = replicate 32 2;
  height = 1;
  key_images = (replicate 32 7, 1) ∷ [];
}

branch_run :
    branch_spent toy_kv chain_1 (replicate 32 4)
    ≡ ok (λ k. contains (replicate 32 7 ∷ []) k || image_spent toy_kv chain_1 k)
unfolding chain_calls chain_1 chain_0
branch_run = refl

branch_spent_iff_example :
    ((contains (replicate 32 7 ∷ []) (replicate 32 7)
        || image_spent toy_kv chain_1 (replicate 32 7))
      ≡ true)
    ↔ (SpentOff toy_kv chain_1 (replicate 32 4) (replicate 32 7)
        ⊎ (image_spent toy_kv chain_1 (replicate 32 7) ≡ true))
branch_spent_iff_example =
    branch_spent_iff toy_kv chain_1 (replicate 32 4) (replicate 32 7) branch_run

-- A block beside the second one may not repeat its transaction.
refuses_above :
    branch_spent toy_kv chain_1 (replicate 32 1)
    ≡ ok (λ k. contains [] k || image_spent toy_kv chain_1 k)
unfolding chain_calls chain_1 chain_0
refuses_above = refl

spent_above : image_spent toy_kv chain_1 (replicate 32 7) ≡ true
unfolding chain_calls chain_1 chain_0 store_1 store_0
spent_above = refl

hash_0 : block_hash nonce_crypto block_0 ≡ replicate 32 1
unfolding chain_calls
hash_0 = refl

store_0-blocks : store_0.blocks ≡ (replicate 32 1, block_0) ∷ []
unfolding chain_calls store_0
store_0-blocks = refl

one_key :
    (h : Bytes) (b : Block)
    → lookup h ((replicate 32 1, block_0) ∷ []) ≡ some b
    → (replicate 32 1 ≡ h) × (block_0 ≡ b)
unfolding lookup
one_key h b e = elim (Bool-cases (bytes_eq (replicate 32 1) h)) [
  | inl same ↦ ((bytes_eq_iff _ _).0 same, some_eq (rw (lookup, same) at e))
  | inr other ↦ absurd (cc (rw (lookup, other) at e))
]

chain_0-reads : (h : Bytes) → get_block toy_kv chain_0 h ≡ lookup h ((replicate 32 1, block_0) ∷ [])
unfolding get_block chain_0
chain_0-reads h = elim (Option-cases (lookup h ((replicate 32 1, block_0) ∷ []))) [
  | inl lost ↦ rw (get_block, lost) (ap (lookup h) store_0-blocks ∙ lost)
  | inr (b, there) ↦ rw (get_block, there) refl
]

store_0-holds : lookup (block_hash nonce_crypto block_0) store_0.blocks ≡ some block_0
unfolding chain_calls store_0
store_0-holds = refl

noted : (h : ℕ) (x : Bytes) → heights_0 h ≡ some x → hash_at nonce_crypto (block_0 ∷ []) h ≡ some x
unfolding hash_at
noted h x e = elim (Bool-cases (h == 0)) [
  | inl bottom ↦
      let zero_high : (0 == h) ≡ true = ground (arith, bottom) in
      rw zero_high (ap some hash_0 ∙ rw bottom at e)
  | inr above ↦ absurd (cc (rw above at e))
]

chain_0-Agrees : Agrees nonce_crypto toy_kv chain_0 (block_0 ∷ [])
unfolding chain_0 tip_of hash_at chain_spends
chain_0-Agrees = record {
  represents = store_0-Represents;
  tip = ap (λ h. some (h, 0)) hash_0;
  kept = (store_0-holds, tt);
  keyed = λ h b e.
      let (key, one) = one_key h b (sym (chain_0-reads h) ∙ e) in
      subst (λ (y : Block). block_hash nonce_crypto y ≡ h) one (hash_0 ∙ key);
  one_block = λ h b e. chain_0-reads h ∙ (ap (lookup h) (sym store_0-blocks) ∙ e);
  within = record { heights = noted; spent = λ k n e. absurd (cc e) };
}

chain_0-SpendsOnce : SpendsOnce (block_0 ∷ [])
unfolding chain_spends
chain_0-SpendsOnce = ((λ k h. refl), tt)

next_hash : length (block_hash nonce_crypto next_block) ≡ 32
unfolding chain_calls next_block root_of
next_hash = refl

next_height : next_block.header.height < 2305843009213693952
unfolding chain_calls next_block root_of
next_height = omega arith

process_block-Sound_example :
    Sound nonce_network toy_kv (process_block nonce_network toy_kv next_block chain_0).0
process_block-Sound_example =
    process_block-Sound nonce_network toy_kv next_block chain_0 (block_0 ∷ []) chain_0-Agrees
      chain_0-SpendsOnce next_hash next_height (omega arith)
