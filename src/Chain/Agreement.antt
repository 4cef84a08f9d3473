-- ===== src/Chain/Agreement.antt =====
-- block.go: the memory and the database of a chain state stand for one chain.
pub mod Memory
pub mod Blocks
pub mod Reorg
pub mod Process
use blocknet_core.Prelude.{
  ℕ, ◌≡◌, refl, sym, ap, ◌∙◌, subst, List, [], ◌∷◌, Bytes, Bool, true, false, Option, none, some,
  All, ◌==◌, length, if◌then◌else◌, Bool-cases, Option-cases, inl, inr, some_eq, arith,
}
use blocknet_core.Prelude.Maps.{lookup}
use blocknet_core.Tx.Crypto.{Crypto}
use blocknet_core.Block.{Block}
use blocknet_core.Store.{KeyValue, Store, block_hash}
use blocknet_core.Store.Chains.{Represents, hash_at, tip_of, chain_spends}
use blocknet_core.Chain.{Chain, get_block}

module _ (crypto : Crypto) (kv : KeyValue) where
  -- Each block of the chain is the one stored under its hash.
  abbrev pub Kept : Store kv → List Block → Type 0
  Kept s chain = All (λ (b : Block). kv.get (block_hash crypto b) s.blocks ≡ some b) chain

  -- A height index and a set of key images that may lack entries of the chain, but have no others.
  pub record Within (by_height : ℕ → Option Bytes) (images : List (Bytes × ℕ)) (chain : List Block)
      : Type 0 where
    pub heights : (h : ℕ) (x : Bytes) → by_height h ≡ some x → hash_at crypto chain h ≡ some x
    pub spent : (k : Bytes) (n : ℕ) → lookup k images ≡ some n → chain_spends chain k ≡ true

  -- The database stands for the chain, the best block is its tip, memory and database hold one
  -- block for one hash, and the indices in memory have only entries of the chain.
  pub record Agrees (c : Chain kv) (chain : List Block) : Type 0 where
    pub represents : Represents crypto kv c.store chain
    pub tip : tip_of crypto chain ≡ some (c.best_hash, c.height)
    pub kept : Kept c.store chain
    pub keyed : (h : Bytes) (b : Block) → get_block kv c h ≡ some b → block_hash crypto b ≡ h
    pub one_block :
        (h : Bytes) (b : Block) → kv.get h c.store.blocks ≡ some b → get_block kv c h ≡ some b
    pub within : Within c.by_height c.key_images chain
