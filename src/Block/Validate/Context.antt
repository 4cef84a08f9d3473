-- ===== src/Block/Validate/Context.antt =====
-- block.go: validateBlockWithContext, which blocks of every branch pass, and ValidateBlock, for
-- blocks on the tip.
use blocknet_core.Prelude.{
  ℕ, ◌+◌, Bytes, Bool, false, not, Option, none, some, err, ◌>>=◌, ◌>>◌, refuse_if, if◌then◌else◌,
  ltb, leb, ◌==◌, bytes_eq, ◌&&◌, [], ◌%◌,
}
use blocknet_core.Block.{Header, Block, ltb_i64, block_size, max_block_size}
use blocknet_core.Block.Difficulty.{expected_difficulty, min_difficulty}
use blocknet_core.Block.Median.{median_from_parent}
use blocknet_core.Block.Validate.{
  Network, BlockCheck, bad_version, orphan, stale_height, stale_parent, bad_height,
  not_after_parent, no_difficulty, no_median, wrong_difficulty, below_minimum, too_far_in_future,
  too_large, or_block, check_timestamp, check_pow, check_first, check_txs, check_each_tx,
  check_coinbase_of, check_root, validate_genesis,
}

-- What validateBlockWithContext asks of the chain.
pub record View : Type 0 where
  pub best_hash : Bytes
  pub tip_height : ℕ
  pub get_parent : Bytes → Option Block
  pub is_spent : Bytes → Bool
  pub checker : Option (Bytes → Bytes → Bool)

module _ (net : Network) (view : View) where
  open view use {best_hash, tip_height, get_parent, is_spent, checker}

  -- The rules on the header, given the parent.
  unfoldable pub check_header : Bool → Header → Block → BlockCheck
  check_header skip_pow h parent = do
    refuse_if (not (h.height == parent.header.height + 1)) bad_height
    refuse_if (not (ltb_i64 parent.header.timestamp h.timestamp)) not_after_parent
    refuse_if (bytes_eq h.prev_hash best_hash && not (h.height == tip_height + 1)) bad_height
    expected ← or_block no_difficulty (expected_difficulty (some parent) get_parent)
    refuse_if (not (h.difficulty == expected)) wrong_difficulty
    median ← or_block no_median (median_from_parent (some parent) get_parent 11)
    check_timestamp net h median
    refuse_if (ltb h.difficulty min_difficulty) below_minimum
    refuse_if (ltb_i64 ((net.now + 7200) % 18446744073709551616) h.timestamp) too_far_in_future
    check_pow net skip_pow h

  -- The rules on the transactions.
  unfoldable pub check_body : Block → BlockCheck
  check_body b = do
    refuse_if (ltb max_block_size (block_size b)) too_large
    check_first net b.transactions
    check_txs net is_spent checker 0 [] b.transactions
    check_coinbase_of net b.transactions b.header.height
    check_root net b

  unfoldable pub validate_with_context : Bool → Block → BlockCheck
  validate_with_context skip_pow b =
      refuse_if (b.header.version == 0) bad_version
      >> (if b.header.height == 0
          then validate_genesis net b
          else elim (get_parent b.header.prev_hash) [
            | none ↦ err orphan
            | some parent ↦ check_header skip_pow b.header parent >> check_body b
          ])

  -- ValidateBlock, with the chain's median timestamp and next difficulty.
  unfoldable pub validate_block : ℕ → ℕ → Block → BlockCheck
  validate_block median next_difficulty b = do
    refuse_if (b.header.version == 0) bad_version
    refuse_if (not (b.header.height == tip_height + 1))
        (if leb b.header.height tip_height then stale_height else bad_height)
    refuse_if (not (bytes_eq b.header.prev_hash best_hash)) stale_parent
    check_timestamp net b.header median
    refuse_if (not (b.header.difficulty == next_difficulty)) wrong_difficulty
    check_pow net false b.header
    refuse_if (ltb max_block_size (block_size b)) too_large
    check_first net b.transactions
    check_root net b
    check_each_tx net is_spent checker 0 b.transactions
    check_coinbase_of net b.transactions b.header.height
