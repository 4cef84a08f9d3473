-- ===== src/Tests/BlockRuns.antt =====
-- Headers, Merkle roots and block validation: theorems on a block with one coinbase.
use blocknet_core.Prelude.{
  ◌≡◌, ◌≢◌, ◌⊎◌, refl, List, [], ◌∷◌, Bytes, none, some, ok, arith, length, replicate,
  length-replicate, true, false,
}
use blocknet_core.Tx.Encode.{serialize}
use blocknet_core.Block.{
  ltb_i64, Header, Block, IsHeader, tx_size, size_of_outputs, size_of_inputs, txs_size, block_size,
}
use blocknet_core.Block.Wire.{write_fields, serialize_for_pow, serialize_full-injective}
use blocknet_core.Block.Merkle.{
  merkle_rounds, merkle_root, tx_ids, block_root, Collision, merkle_root-binding,
  merkle_root_repeats,
}
use blocknet_core.Block.Sizes.{length-serialize}
use blocknet_core.Block.Difficulty.{expected_difficulty}
use blocknet_core.Block.Median.{collect_timestamps, median_of, median_from_parent}
use blocknet_core.Block.Validate.{
  Network, or_block, check_coinbase, coinbase_blinding, check_timestamp, check_pow,
  check_no_coinbase, check_first, check_root, check_coinbase_of, see_images, check_txs,
  check_each_tx,
}
use blocknet_core.Block.Validate.Context.{
  View, check_header, check_body, validate_with_context, validate_block,
}
use blocknet_core.Block.Validate.Rules.{all_images}
use blocknet_core.Block.Validate.Tip.{validate_block-validate_with_context}
use blocknet_core.Tx.Accepts.{Distinct}
use blocknet_core.Block.Validate.Acceptance.{FitsParent, FitsBody, validate_with_context_sound}
use blocknet_core.Tests.Samples.{
  toy_crypto, sample_coinbase, sample_tx, sample_tx-IsTx, replicate-IsArray,
}
use blocknet_core.Tx.Layout.{encode}
use blocknet_core.Prelude.Sorting.{exchange_sort, exchange_rounds, exchange_pass}
use blocknet_core.Tests.MempoolRuns.{program}

abbrev sample_header : Header
sample_header = record {
  version = 1;
  height = 7;
  prev_hash = replicate 32 1;
  merkle_root = replicate 32 2;
  timestamp = 1771207118;
  difficulty = 4;
  nonce = 9;
}

sample_header-IsHeader : IsHeader sample_header
sample_header-IsHeader = record {
  version = omega arith;
  height = omega arith;
  prev_hash = replicate-IsArray 32 1 (omega arith);
  merkle_root = replicate-IsArray 32 2 (omega arith);
  timestamp = omega arith;
  difficulty = omega arith;
  nonce = omega arith;
}

serialize_full-injective_example : sample_header ≡ sample_header
serialize_full-injective_example =
    serialize_full-injective sample_header sample_header sample_header-IsHeader
      sample_header-IsHeader refl

abbrev toy_hash : Bytes → Bytes
toy_hash bs = replicate 32 (length bs)

abbrev hashes : List Bytes
hashes = replicate 32 1 ∷ replicate 32 2 ∷ replicate 32 3 ∷ []

merkle_root-binding_example : (hashes ≡ hashes) ⊎ Collision toy_hash
merkle_root-binding_example =
    merkle_root-binding toy_hash (λ a. length-replicate 32 (length a)) hashes hashes refl
      (refl, (refl, (refl, tt))) (refl, (refl, (refl, tt))) refl

merkle_root_repeats_example :
    merkle_root toy_hash (replicate 32 1 ∷ replicate 32 2 ∷ replicate 32 3 ∷ replicate 32 3 ∷ [])
    ≡ merkle_root toy_hash hashes
merkle_root_repeats_example =
    merkle_root_repeats toy_hash 0 (replicate 32 1 ∷ replicate 32 2 ∷ []) (replicate 32 3) refl

length-serialize_example :
    (serialize sample_tx ≡ ok (encode sample_tx)) × (length (encode sample_tx) ≡ tx_size sample_tx)
length-serialize_example = length-serialize sample_tx sample_tx-IsTx

abbrev pub toy_network : Network
toy_network = record {
  crypto = toy_crypto;
  pow_meets = λ bs nonce difficulty. true;
  now = 1000;
  genesis_prev_hash = [];
  genesis_timestamp = 0;
  block_reward = λ height. 50;
  commit = λ amount blinding. some (replicate 32 4);
  encrypt_amount = λ amount blinding index. replicate 8 6;
  memo_is_empty = λ memo blinding index. true;
}

abbrev parent_block : Block
parent_block = record {
  header = record {
    version = 1;
    height = 0;
    prev_hash = [];
    merkle_root = [];
    timestamp = 500;
    difficulty = 4;
    nonce = 0;
  };
  transactions = [];
}

abbrev toy_view : View
toy_view = record {
  best_hash = 1 ∷ [];
  tip_height = 0;
  get_parent = λ h. some parent_block;
  is_spent = λ k. false;
  checker = none;
}

-- A block with one coinbase on top of the parent.
toy_block : Block
unfolding program
toy_block = record {
  header = record {
    version = 1;
    height = 1;
    prev_hash = 1 ∷ [];
    merkle_root = encode sample_coinbase;
    timestamp = 800;
    difficulty = 4;
    nonce = 0;
  };
  transactions = sample_coinbase ∷ [];
}

toy_block_valid : validate_with_context toy_network toy_view true toy_block ≡ ok tt
unfolding program toy_block validate_with_context check_header check_body or_block check_coinbase
    coinbase_blinding check_timestamp check_pow check_no_coinbase check_first check_root
    check_coinbase_of see_images check_txs expected_difficulty collect_timestamps median_of
    median_from_parent block_root tx_ids merkle_root merkle_rounds block_size txs_size tx_size
    size_of_outputs size_of_inputs exchange_sort exchange_rounds exchange_pass
toy_block_valid = refl

above_genesis : toy_block.header.height ≢ 0
unfolding toy_block
above_genesis e = absurd (omega (arith, e))

validate_with_context_sound_example :
    (parent : Block) × (toy_view.get_parent toy_block.header.prev_hash ≡ some parent)
    × FitsParent toy_network toy_view toy_block.header parent
    × FitsBody toy_network toy_view toy_block
validate_with_context_sound_example =
    validate_with_context_sound toy_network toy_view true toy_block toy_block_valid above_genesis

-- For a run with the proof of work, hashes of 32 bytes.
abbrev tip_network : Network
tip_network = record toy_network { crypto = record toy_crypto { sha3_256 = λ bs. replicate 32 1 } }

abbrev toy_tip : View
toy_tip = record toy_view { best_hash = replicate 32 1 }

abbrev tip_block : Block
tip_block = record {
  header = record {
    version = 1;
    height = 1;
    prev_hash = replicate 32 1;
    merkle_root = replicate 32 1;
    timestamp = 800;
    difficulty = 4;
    nonce = 0;
  };
  transactions = sample_coinbase ∷ [];
}

tip_block_valid : validate_block tip_network toy_tip 500 4 tip_block ≡ ok tt
unfolding program validate_block or_block check_coinbase coinbase_blinding check_timestamp check_pow
    check_no_coinbase check_first check_root check_coinbase_of check_each_tx block_root tx_ids
    merkle_root merkle_rounds block_size txs_size tx_size size_of_outputs size_of_inputs
    serialize_for_pow write_fields
tip_block_valid = refl

tip-Distinct : Distinct (all_images tip_block.transactions)
unfolding all_images
tip-Distinct = tt

tip_difficulty : expected_difficulty (some parent_block) toy_tip.get_parent ≡ ok 4
unfolding expected_difficulty
tip_difficulty = refl

tip_median : median_from_parent (some parent_block) toy_tip.get_parent 11 ≡ ok 500
unfolding collect_timestamps median_of median_from_parent exchange_sort exchange_rounds
    exchange_pass
tip_median = refl

tip_later : ltb_i64 500 tip_block.header.timestamp ≡ true
tip_later = refl

validate_block-validate_with_context_example :
    validate_with_context tip_network toy_tip false tip_block ≡ ok tt
validate_block-validate_with_context_example =
    validate_block-validate_with_context tip_network toy_tip tip_block parent_block 500 4 refl refl
      tip_difficulty tip_median (omega arith) tip_block_valid tip_later tip-Distinct
