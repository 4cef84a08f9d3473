-- ===== src/Lib.antt =====
-- The consensus core of a Blocknet node: transactions, the memory pool, blocks, branches, the
-- chain state and its database; the cache of request results, and the wallet's inputs.
--
-- The node keeps a pool of transactions that wait for a block. A transaction arrives as bytes,
-- which transaction.go parses and validates; mempool.go admits it, evicts others for it, and
-- follows the chain: a connected block clears its transactions and their conflicts, a
-- disconnected one brings its transactions back. block.go validates blocks: each has its
-- transactions validated by the same function, the difficulty and time that its ancestors ask
-- for, and a Merkle root. Where a branch overtakes the main chain, block.go looks for the last
-- block both share, and refuses to go back further than 100 blocks. ProcessBlock keeps the chain:
-- it weighs each new block, and where its branch is heavier has storage.go disconnect and connect
-- blocks in one transaction of the database, then updates its own indices. The HTTP interface
-- sends a payment once for one idempotency key: api_idempotency.go remembers which requests run
-- and what they answered. For a payment, wallet/coinselect.go chooses the outputs that it spends,
-- and wallet/wallet.go reserves them while the payment is built.
--
-- Files, each with the code it models:
--   Prelude: shared tests, lists, results, byte strings, maps, the exchange sort, counts and
--     sums.
--   Tx: the data of transaction.go (TxOutput, TxInput, Transaction) and the wire limits.
--     Tx/Encode: Serialize and SigningHash, which fill a buffer of a size computed before; a write
--       beyond it is the panic it is in Go. Tx/Decode: DeserializeTx with every error.
--     Tx/Layout, Tx/RoundTrip, Tx/Canonical: the wire format as one expression, and what both
--       directions have to do with it.
--     Tx/Crypto: VerifyRingCT, ExtractRingCTBinding and VerifyRangeProof of crypto.go up to their
--       calls of C functions; the calls are the fields of the record Crypto.
--     Tx/Validate: ValidateTransaction, verifyCommitmentBalance, validateCoinbase.
--     Tx/Accepts, Tx/Acceptance: the rules themselves, without order and errors, against the code.
--   Mempool: the state of mempool.go and the operations on its maps; Mempool/Operations: the calls
--       AddTransaction, RemoveTransactions, RemoveByKeyImage, RemoveExpired, OnBlockConnected,
--       OnBlockDisconnected; Mempool/Select: GetTransactionsForBlock and GetAllEntries. The other
--       files below Mempool are named for what they prove.
--   Block: the data of block.go (BlockHeader, Block) and Size.
--     Block/Wire: serializeFull and SerializeForPoW. Block/Merkle: computeMerkleRoot and
--       ComputeMerkleRoot. Block/Sizes: Transaction.Size against Serialize.
--     Block/Difficulty: computeLWMA, expectedDifficultyFromParent, nextDifficultyLocked; Agreement
--       compares the three, Bounds says how far they move.
--     Block/Median: medianTimestampFromParent and medianTimestampLocked; Middle is about the
--       place of the median.
--     Block/Validate: the checks of validateBlockWithContext, ValidateBlock, validateGenesisBlock and
--       validateCoinbaseConsensus; Block/Validate/Context puts the first two together,
--       Rules, Acceptance and Tip prove what they decide.
--     Block/Forks: addCumulativeWork, findCommonAncestorLocked, collectConnectPathLocked,
--       enforceReorgFinalityLocked. Ancestry, Common, Totality and Connect below it
--       hold the proofs.
--   Store: the buckets of storage.go, over a key-value store (record KeyValue), and the methods that
--       read and write one of them. Store/Commit: CommitBlock and CommitReorg.
--     Store/Chains: the chain that the buckets stand for. Store/Effects, Store/Steps: what the loops
--       of CommitReorg do to the buckets and to the chain. Store/Checks, Store/Refines,
--       Store/Completes, Store/Extends: what the checks and the two commits mean for the chain.
--   Chain: the fields of Chain in block.go, its lookups and cumulativeWorkAtLocked.
--     Chain/Spent: branchAwareSpentCheckerLocked and the canonical ring index. Chain/Process:
--       ProcessBlock, validateBlockForProcessLocked and reorganizeTo. Chain/Truncate:
--       TruncateToHeight, addGenesisBlock and addBlockInternal. Chain/Choice and Chain/Branches are
--       about the fork choice and the spent checker, Chain/Agreement about memory and database.
--   Idempotency: the cache of api_idempotency.go: getOrStart, complete, abandon. Flying and Histories
--       below it are about requests in flight and sequences of calls, Cap about eviction, Replay about
--       results.
--   CoinSelect: SelectInputs and SelectInputsWithDecoys of wallet/coinselect.go. Loops below it is
--       about its loops, Covers about what is selected.
--   Reservations: the leases of wallet/wallet.go: ReserveMatureInputs, ReserveAllMatureInputs,
--       ReleaseInputLease; Reservations/Specific: ReserveSpecificInputs. Held and Chosen
--       are about what a lease holds, Calls and Apart about sequences of calls.
--   Tests: concrete runs.
--
-- Bytes are lists of natural numbers; a byte is below 256 where a theorem needs it (IsByte). Go
-- maps are association lists; a Go map has no order, and the theorems hold for each order. The
-- time of a call and the answers of the chain are arguments. An int64 is the uint64 with the same
-- bits, and sums of machine integers keep their wrap-around where it can happen; the height after
-- the tip's is tip_height + 1 without it, which differs at a height of 2^64 - 1 only. The index
-- of ring members is computed anew where the code stores it for the next call. Where TxID panics
-- in the pool's handlers of blocks, the model takes the branch for its error. The fuel of the
-- loop that evicts is one more than the number of entries, since each round takes one out; that
-- of the Merkle recursion is one more than the number of hashes, and that of the loops over a
-- branch at most two more than the height they start from. A database error leaves the database
-- as it was: an error result has no new store. The memory's caches of blocks and works keep every
-- entry, where the code drops old ones and reads them again from the database. SHA3-256, the
-- proof of work, the ring signature, the curve operations, the block reward (which the code
-- computes in floating point) and the encryption of a coinbase's amount and memo are parameters.
-- So are the shuffle and the two sorts of the coin selection, each a permutation of its list
-- (record Orders).
--
-- Not modelled: locks, files and I/O errors, the eviction from the block cache, the start from a
-- database on disk, the peer to peer network, the rest of the wallet, the HTTP handlers, and the
-- order inside the pool's priority queue, which nothing reads but its length.
pub mod Prelude
pub mod Tx
pub mod Mempool
pub mod Block
pub mod Store
pub mod Chain
pub mod Idempotency
pub mod CoinSelect
pub mod Reservations
mod Tests
