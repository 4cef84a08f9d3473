-- ===== src/Store/Chains.antt =====
-- The main chain that the indices of the database stand for: its blocks, the newest first.
use blocknet_core.Prelude.{
  ℕ, ◌<◌, ◌^◌, ◌≡◌, refl, List, [], ◌∷◌, Bytes, Bool, true, false, ◌||◌, Option, none, some, ok,
  if◌then◌else◌, ◌==◌, bytes_eq, length, All, arith, inl, inr, Option-cases,
}
use blocknet_core.Tx.{Transaction, TxInput, is_coinbase}
use blocknet_core.Tx.Crypto.{Crypto}
use blocknet_core.Block.{Block}
use blocknet_core.Store.{
  KeyValue, Store, is_some, block_hash, read_tip, hash_by_height, key_image_spent,
}

-- Whether a key image is spent by these inputs, transactions or blocks. A coinbase spends nothing.
unfoldable pub inputs_spend : List TxInput → Bytes → Bool
inputs_spend [] k = false
inputs_spend (x ∷ xs) k = bytes_eq x.key_image k || inputs_spend xs k

unfoldable pub txs_spend : List Transaction → Bytes → Bool
txs_spend [] k = false
txs_spend (tx ∷ txs) k =
    (if is_coinbase tx then false else inputs_spend tx.inputs k) || txs_spend txs k

unfoldable pub chain_spends : List Block → Bytes → Bool
chain_spends [] k = false
chain_spends (b ∷ bs) k = txs_spend b.transactions k || chain_spends bs k

-- No key image is spent in two blocks.
abbrev pub SpendsOnce : List Block → Type 0
SpendsOnce [] = Unit {0}
SpendsOnce (b ∷ bs) =
    ((k : Bytes) → txs_spend b.transactions k ≡ true → chain_spends bs k ≡ false) × SpendsOnce bs

-- The chain after blocks, the lowest first, are connected to it.
unfoldable pub extend : List Block → List Block → List Block
extend [] chain = chain
extend (b ∷ bs) chain = extend bs (b ∷ chain)

module _ (c : Crypto) where
  abbrev pub LinksTo : Block → List Block → Type 0
  LinksTo b [] = Unit {0}
  LinksTo b (below ∷ rest) = b.header.prev_hash ≡ block_hash c below

  -- Each block is one higher than the one below it and names it as its parent; the lowest has height 0.
  abbrev pub IsBranch : List Block → Type 0
  IsBranch [] = Unit {0}
  IsBranch (b ∷ bs) = (b.header.height ≡ length bs) × (LinksTo b bs × IsBranch bs)

  -- The hash of the block at a height.
  unfoldable pub hash_at : List Block → ℕ → Option Bytes
  hash_at [] h = none
  hash_at (b ∷ bs) h = if length bs == h then some (block_hash c b) else hash_at bs h

  unfoldable pub tip_of : List Block → Option (Bytes × ℕ)
  tip_of [] = none
  tip_of (b ∷ bs) = some (block_hash c b, length bs)

  -- A height index, a set of key images and a set of blocks that belong to this chain.
  pub record Indexes (at_height : ℕ → Option Bytes) (spent has : Bytes → Bool) (chain : List Block)
      : Type 0 where
    pub heights : (h : ℕ) → h < 256 ^ 8 → at_height h ≡ hash_at chain h
    pub images : (k : Bytes) → spent k ≡ chain_spends chain k
    pub stored : All (λ (b : Block). has (block_hash c b) ≡ true) chain

  module _ (kv : KeyValue) where
    abbrev pub spent_in : Store kv → Bytes → Bool
    spent_in s k = is_some (kv.get k s.key_images)

    abbrev pub has_in : Store kv → Bytes → Bool
    has_in s h = is_some (kv.get h s.blocks)

    -- The buckets hold this chain: the tip is its newest block, the height index maps each of its
    -- heights to the block there and no other height, and the key images are those it spends.
    pub record Represents (s : Store kv) (chain : List Block) : Type 0 where
      pub branch : IsBranch chain
      pub short : length chain < 9223372036854775808
      pub tip : read_tip kv s.meta ≡ ok (tip_of chain)
      pub indexes : Indexes (λ h. hash_by_height kv h s) (spent_in s) (has_in s) chain

    pub key_image_spent_iff : (s : Store kv) (k : Bytes) → (key_image_spent kv s k).0 ≡ spent_in s k
    unfolding key_image_spent is_some
    key_image_spent_iff s k = elim (Option-cases (kv.get k s.key_images)) [
      | inl e ↦ rw (e, key_image_spent) refl
      | inr (v, e) ↦ rw (e, key_image_spent) refl
    ]

  -- Heights from the top of a chain on are free.
  pub hash_at_above : (chain : List Block) (h : ℕ) → ¬ (h < length chain) → hash_at chain h ≡ none
  unfolding hash_at
  hash_at_above [] h n = refl
  hash_at_above (b ∷ bs) h n = ground (arith, hash_at_above bs h (λ l. n (omega (arith, l))))
