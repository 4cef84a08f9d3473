-- ===== src/Tests/StoreRuns.antt =====
-- The chain database: blocks committed, a reorganization, and the theorems on them.
use blocknet_core.Prelude.{
  ℕ, ◌≡◌, ◌*◌, refl, List, [], ◌∷◌, ◌++◌, Bytes, true, Result, ok, err, arith, replicate, take,
  drop, get_le, contains, put_be_onto, put_be, get_be_from, get_be,
}
use blocknet_core.Prelude.Maps.{lookup, insert, delete, lookup-insert, lookup-delete}
use blocknet_core.Tx.{Transaction, is_coinbase}
use blocknet_core.Tx.Crypto.{Crypto}
use blocknet_core.Block.{Block}
use blocknet_core.Block.Wire.{serialize_full, write_fields}
use blocknet_core.Store.{
  KeyValue, Store, is_some, read_tip, write_tip, height_key, outpoint_key, block_hash, txid_of,
  save_output, mark_spent, unmark_spent, set_main_chain_block, remove_main_chain_block,
  hash_by_height,
}
use blocknet_core.Store.Commit.{
  BlockCommit, ReorgCommit, utxos_of, lowest, save_outputs, mark_all, set_tip, check_extends,
  put_block, commit_main_tip, commit_block, check_link, check_disconnect, base_of, check_connect,
  unmark_inputs, unmark_txs, disconnect_blocks, save_txs, mark_inputs, mark_txs, connect_block,
  connect_blocks, check_reorg, commit_reorg,
}
use blocknet_core.Store.Chains.{
  inputs_spend, txs_spend, chain_spends, SpendsOnce, extend, hash_at, tip_of, Represents,
}
use blocknet_core.Store.Extends.{commit_block_refines}
use blocknet_core.Store.Checks.{NoCollision}
use blocknet_core.Store.Refines.{commit_reorg_refines}
use blocknet_core.Tests.Samples.{toy_crypto, sample_tx, sample_input}
use blocknet_core.Tests.MempoolRuns.{program}

-- Buckets as association lists.
abbrev pub toy_kv : KeyValue
toy_kv = record {
  Bucket = λ V. List (Bytes × V);
  get = lookup;
  put = insert;
  delete = delete;
  get-put = lookup-insert;
  get-delete = λ k j m. lookup-delete k j m;
}

-- The hash of a block is told by its nonce.
abbrev pub nonce_crypto : Crypto
nonce_crypto = record toy_crypto { sha3_256 = λ bs. replicate 32 (get_le (take 1 (drop 92 bs))) }

abbrev pub spend_tx : Transaction
spend_tx = record sample_tx {
  inputs =
      record sample_input { ring_members = []; ring_commitments = []; ring_signature = [] } ∷ [];
  outputs = [];
}

abbrev pub numbered_block : ℕ → ℕ → ℕ → List Transaction → Block
numbered_block height parent nonce txs = record {
  header = record {
    version = 1;
    height = height;
    prev_hash = replicate 32 parent;
    merkle_root = replicate 32 0;
    timestamp = 100 * nonce;
    difficulty = 10;
    nonce = nonce;
  };
  transactions = txs;
}

abbrev pub block_0 : Block
block_0 = numbered_block 0 0 1 []

abbrev pub block_1 : Block
block_1 = numbered_block 1 1 2 (spend_tx ∷ [])

abbrev pub fork_1 : Block
fork_1 = numbered_block 1 1 3 []

abbrev pub fork_2 : Block
fork_2 = numbered_block 2 3 4 (spend_tx ∷ [])

unfoldable pub database : Unit {0}
unfolding program serialize_full write_fields put_be_onto put_be get_be_from get_be is_some read_tip
    write_tip height_key outpoint_key block_hash txid_of save_output mark_spent unmark_spent
    set_main_chain_block remove_main_chain_block hash_by_height utxos_of lowest save_outputs
    mark_all set_tip check_extends put_block commit_main_tip commit_block check_link
    check_disconnect base_of check_connect unmark_inputs unmark_txs disconnect_blocks save_txs
    mark_inputs mark_txs connect_block connect_blocks check_reorg commit_reorg inputs_spend
    txs_spend chain_spends extend hash_at tip_of
database = tt

abbrev pub empty_store : Store toy_kv
empty_store = record { blocks = []; heights = []; outputs = []; key_images = []; meta = [] }

abbrev value_or_empty : {E : Type 0} → Result E (Store toy_kv) → Store toy_kv
value_or_empty (ok s) = s
value_or_empty (err e) = empty_store

abbrev commit_0 : BlockCommit
commit_0 = record {
  block = block_0;
  height = 0;
  hash = replicate 32 1;
  work = 10;
  is_main_tip = true;
  new_outputs = [];
  spent_key_images = [];
}

abbrev commit_1 : BlockCommit
commit_1 = record {
  block = block_1;
  height = 1;
  hash = replicate 32 2;
  work = 20;
  is_main_tip = true;
  new_outputs = [];
  spent_key_images = replicate 32 7 ∷ [];
}

unfoldable pub store_0 : Store toy_kv
unfolding database
store_0 = value_or_empty (commit_block toy_kv nonce_crypto commit_0 empty_store)

unfoldable pub store_1 : Store toy_kv
unfolding database
store_1 = value_or_empty (commit_block toy_kv nonce_crypto commit_1 store_0)

run_0 : commit_block toy_kv nonce_crypto commit_0 empty_store ≡ ok store_0
unfolding database store_0
run_0 = refl

run_1 : commit_block toy_kv nonce_crypto commit_1 store_0 ≡ ok store_1
unfolding database store_0 store_1
run_1 = refl

empty-Represents : Represents nonce_crypto toy_kv empty_store []
unfolding database
empty-Represents = record {
  branch = tt;
  short = omega arith;
  tip = refl;
  indexes = record { heights = λ h small. refl; images = λ k. refl; stored = tt };
}

pub store_0-Represents : Represents nonce_crypto toy_kv store_0 (block_0 ∷ [])
unfolding database
store_0-Represents =
    commit_block_refines nonce_crypto toy_kv commit_0 empty_store [] empty-Represents (omega arith)
      refl (λ k. refl) refl run_0

spends_1 : (k : Bytes) → contains commit_1.spent_key_images k ≡ txs_spend block_1.transactions k
unfolding contains txs_spend inputs_spend is_coinbase
spends_1 k = ground arith

commit_block_refines_example : Represents nonce_crypto toy_kv store_1 (block_1 ∷ block_0 ∷ [])
commit_block_refines_example =
    commit_block_refines nonce_crypto toy_kv commit_1 store_0 (block_0 ∷ []) store_0-Represents
      (omega arith) refl spends_1 refl run_1

abbrev fork : ReorgCommit
fork = record {
  disconnect = block_1 ∷ [];
  connect = fork_1 ∷ fork_2 ∷ [];
  new_tip = replicate 32 4;
  new_height = 2;
  new_work = 30;
}

store_2 : Store toy_kv
unfolding database store_0 store_1
store_2 = value_or_empty (commit_reorg toy_kv nonce_crypto fork store_1)

run_2 : commit_reorg toy_kv nonce_crypto fork store_1 ≡ ok store_2
unfolding database store_0 store_1 store_2
run_2 = refl

pub store_1-Represents : Represents nonce_crypto toy_kv store_1 (block_1 ∷ block_0 ∷ [])
store_1-Represents =
    commit_block_refines nonce_crypto toy_kv commit_1 store_0 (block_0 ∷ []) store_0-Represents
      (omega arith) refl spends_1 refl run_1

pub chain-SpendsOnce : SpendsOnce (block_1 ∷ block_0 ∷ [])
unfolding database
chain-SpendsOnce = ((λ k h. refl), ((λ k h. refl), tt))

hash_0 : block_hash nonce_crypto block_0 ≡ replicate 32 1
unfolding database
hash_0 = refl

hash_1 : block_hash nonce_crypto block_1 ≡ replicate 32 2
unfolding database
hash_1 = refl

no_collision : NoCollision nonce_crypto toy_kv fork.disconnect (block_1 ∷ block_0 ∷ [])
no_collision = (((λ same. refl), ((λ same. absurd (cc (same, hash_0, hash_1))), tt)), tt)

commit_reorg_refines_example :
    (top : Block) × (below : List Block) × (block_1 ∷ block_0 ∷ []
      ≡ fork.disconnect ++ (top ∷ below))
    × Represents nonce_crypto toy_kv store_2 (extend fork.connect (top ∷ below))
commit_reorg_refines_example =
    commit_reorg_refines nonce_crypto toy_kv fork store_1 (block_1 ∷ block_0 ∷ [])
      store_1-Represents chain-SpendsOnce no_collision refl (omega arith) (omega arith) run_2
