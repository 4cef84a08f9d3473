-- ===== src/Tests.antt =====
-- Runs of the definitions, and each theorem at a concrete input.
mod Samples
mod TxRuns
mod MempoolRuns
mod BlockRuns
mod BranchRuns
mod StoreRuns
mod CacheRuns
mod ChainRuns
mod SelectRuns
