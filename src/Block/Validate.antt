-- ===== src/Block/Validate.antt =====
-- block.go: ValidateBlock, validateBlockWithContext, validateGenesisBlock and
-- validateCoinbaseConsensus.
pub mod Context
pub mod Rules
pub mod Acceptance
pub mod Tip
use blocknet_core.Prelude.{
  ℕ, zero, suc, ◌+◌, ◌%◌, List, [], ◌∷◌, ◌++◌, Bytes, Bool, true, false, ◌&&◌, ◌||◌, not, Option,
  none, some, Result, ok, err, ◌>>=◌, ◌>>◌, refuse_if, if◌then◌else◌, ltb, leb, ◌==◌, length,
  replicate, put_le, bytes_eq, contains,
}
use blocknet_core.Tx.{TxOutput, TxInput, Transaction, is_coinbase}
use blocknet_core.Tx.Crypto.{Crypto}
use blocknet_core.Tx.Validate.{ValidationError, validate_transaction}
use blocknet_core.Block.{Header, Block, ltb_i64, block_size, max_block_size}
use blocknet_core.Block.Wire.{serialize_for_pow}
use blocknet_core.Block.Merkle.{block_root}
use blocknet_core.Block.Difficulty.{ContextError, expected_difficulty, min_difficulty}
use blocknet_core.Block.Median.{MedianError, median_from_parent}

-- What validation calls outside: the cryptography; PowHash with PowCheckTarget on a serialized header,
-- a nonce and a difficulty; the clock; the active network's genesis; and for the coinbase GetBlockReward,
-- which computes in floating point, the commitment, the mask of the amount, and whether DecryptMemo
-- finds an empty memo.
pub record Network : Type 0 where
  pub crypto : Crypto
  pub pow_meets : Bytes → ℕ → ℕ → Bool
  pub now : ℕ
  pub genesis_prev_hash : Bytes
  pub genesis_timestamp : ℕ
  pub block_reward : ℕ → ℕ
  pub commit : ℕ → Bytes → Option Bytes
  pub encrypt_amount : ℕ → Bytes → ℕ → Bytes
  pub memo_is_empty : Bytes → Bytes → ℕ → Bool

pub data BlockError : Type 0 where
  bad_version orphan stale_height stale_parent bad_height not_after_parent : BlockError
  no_difficulty : ContextError → BlockError
  no_median : MedianError → BlockError
  wrong_difficulty below_minimum not_after_median too_far_in_future bad_pow too_large : BlockError
  no_transactions first_not_coinbase second_coinbase panicked wrong_root : BlockError
  bad_transaction : ℕ → ValidationError → BlockError
  duplicate_key_image : ℕ → ℕ → BlockError
  coinbase_outputs commitment_failed wrong_commitment wrong_amount coinbase_memo : BlockError
  genesis_height genesis_parent genesis_time genesis_difficulty genesis_nonce : BlockError
  genesis_transactions genesis_root : BlockError

abbrev pub BlockCheck : Type 0
BlockCheck = Result BlockError (Unit {0})

unfoldable pub or_block {ℓ κ} :
    {E : Type ℓ} {A : Type κ} → (E → BlockError) → Result E A → Result BlockError A
or_block f (ok a) = ok a
or_block f (err e) = err (f e)

-- "blocknet_coinbase_consensus_blinding"
unfoldable pub blinding_tag : Bytes
blinding_tag =
    98 ∷ 108 ∷ 111 ∷ 99 ∷ 107 ∷ 110 ∷ 101 ∷ 116 ∷ 95 ∷ 99 ∷ 111 ∷ 105 ∷ 110 ∷ 98 ∷ 97 ∷ 115 ∷ 101
    ∷ 95 ∷ 99 ∷ 111 ∷ 110 ∷ 115 ∷ 101 ∷ 110 ∷ 115 ∷ 117 ∷ 115 ∷ 95 ∷ 98 ∷ 108 ∷ 105 ∷ 110 ∷ 100
    ∷ 105 ∷ 110 ∷ 103 ∷ []

-- The loop over the inputs of transaction `i`, with the map seenKeyImages.
unfoldable pub see_images : ℕ → ℕ → List Bytes → List TxInput → Result BlockError (List Bytes)
see_images i j seen [] = ok seen
see_images i j seen (x ∷ xs) =
    refuse_if (contains seen x.key_image) (duplicate_key_image i j)
    >> see_images i (j + 1) (x.key_image ∷ seen) xs

module _ (net : Network) where
  open net use {crypto, pow_meets, now}

  -- deriveCoinbaseConsensusBlinding
  unfoldable pub coinbase_blinding : Bytes → ℕ → ℕ → Bytes
  coinbase_blinding tx_public_key height index =
      crypto.sha3_256 (blinding_tag ++ (tx_public_key ++ (put_le 8 height ++ put_le 4 index)))

  -- validateCoinbaseConsensus
  unfoldable pub check_coinbase : Transaction → ℕ → BlockCheck
  check_coinbase tx height = elim tx.outputs [
    | [] ↦ err coinbase_outputs
    | o ∷ others ↦
        let reward = net.block_reward height in
        let blinding = coinbase_blinding tx.tx_public_key height 0 in
        refuse_if (not (length (o ∷ others) == 1)) coinbase_outputs
        >> elim (net.commit reward blinding) [
          | none ↦ err commitment_failed
          | some expected ↦
              refuse_if (not (bytes_eq o.commitment expected)) wrong_commitment
              >> (refuse_if
                    (not (bytes_eq o.encrypted_amount (net.encrypt_amount reward blinding 0)))
                    wrong_amount
                  >> refuse_if (not (net.memo_is_empty o.encrypted_memo blinding 0)) coinbase_memo)
        ]
  ]

  -- validateTimestampWithMedian
  unfoldable pub check_timestamp : Header → ℕ → BlockCheck
  check_timestamp h median = do
    refuse_if (not (ltb_i64 median h.timestamp)) not_after_median
    refuse_if (ltb_i64 ((now + 7200) % 18446744073709551616) h.timestamp) too_far_in_future

  -- validatePoW, where it is asked for.
  unfoldable pub check_pow : Bool → Header → BlockCheck
  check_pow skip h = if skip then ok tt else elim (serialize_for_pow h) [
    | err p ↦ err panicked
    | ok bs ↦ refuse_if (not (pow_meets bs h.nonce h.difficulty)) bad_pow
  ]

  -- The first transaction is the only coinbase.
  unfoldable pub check_no_coinbase : List Transaction → BlockCheck
  check_no_coinbase [] = ok tt
  check_no_coinbase (tx ∷ txs) = refuse_if (is_coinbase tx) second_coinbase >> check_no_coinbase txs

  unfoldable pub check_first : List Transaction → BlockCheck
  check_first [] = err no_transactions
  check_first (tx ∷ txs) =
      refuse_if (not (is_coinbase tx)) first_not_coinbase >> check_no_coinbase txs

  unfoldable pub check_root : Block → BlockCheck
  check_root b = elim (block_root crypto b) [
    | err p ↦ err panicked
    | ok none ↦ err panicked
    | ok (some root) ↦ refuse_if (not (bytes_eq root b.header.merkle_root)) wrong_root
  ]

  unfoldable pub check_coinbase_of : List Transaction → ℕ → BlockCheck
  check_coinbase_of [] height = err no_transactions
  check_coinbase_of (tx ∷ txs) height = check_coinbase tx height

  module _ (is_spent : Bytes → Bool) (checker : Option (Bytes → Bytes → Bool)) where
    unfoldable pub check_txs : ℕ → List Bytes → List Transaction → BlockCheck
    check_txs i seen [] = ok tt
    check_txs i seen (tx ∷ txs) = do
      or_block (bad_transaction i) (validate_transaction crypto is_spent checker tx)
      seen ← (if is_coinbase tx then ok seen else see_images i 0 seen tx.inputs)
      check_txs (i + 1) seen txs

    -- ValidateBlock's loop, which looks at each transaction by itself.
    unfoldable pub check_each_tx : ℕ → List Transaction → BlockCheck
    check_each_tx i [] = ok tt
    check_each_tx i (tx ∷ txs) =
        or_block (bad_transaction i) (validate_transaction crypto is_spent checker tx)
        >> check_each_tx (i + 1) txs

  unfoldable pub validate_genesis : Block → BlockCheck
  validate_genesis b = do
    refuse_if (not (b.header.height == 0)) genesis_height
    refuse_if (not (bytes_eq b.header.prev_hash net.genesis_prev_hash)) genesis_parent
    refuse_if (not (b.header.timestamp == net.genesis_timestamp)) genesis_time
    refuse_if (not (b.header.difficulty == min_difficulty)) genesis_difficulty
    refuse_if (not (b.header.nonce == 0)) genesis_nonce
    refuse_if (not (length b.transactions == 0)) genesis_transactions
    refuse_if (not (bytes_eq b.header.merkle_root (replicate 32 0))) genesis_root
    refuse_if (ltb max_block_size (block_size b)) too_large
