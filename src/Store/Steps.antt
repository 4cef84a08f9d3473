-- ===== src/Store/Steps.antt =====
-- storage.go: disconnecting and connecting blocks, as steps on the chain that the indices stand for.
use blocknet_core.Prelude.{
  ℕ, ◌+◌, ◌<◌, ◌^◌, ◌≡◌, refl, sym, ap, ◌∙◌, List, [], ◌∷◌, ◌++◌, Bytes, true, false, ◌||◌, none,
  if◌then◌else◌, ◌==◌, ==_iff, bytes_eq_refl, length, length-append, All, All_weaken,
  All-append_right, arith, inl, inr, Bool-cases,
}
use blocknet_core.Tx.Crypto.{Crypto}
use blocknet_core.Block.{Block}
use blocknet_core.Store.{KeyValue, Store, is_some, block_hash, hash_by_height}
use blocknet_core.Store.Commit.{disconnect_blocks, connect_block, connect_blocks}
use blocknet_core.Store.Chains.{
  txs_spend, chain_spends, SpendsOnce, extend, IsBranch, hash_at, hash_at_above, Indexes, spent_in,
  has_in,
}
use blocknet_core.Store.Effects.{
  has_height, disconnect_blocks-blocks, disconnect_blocks-spent, disconnect_blocks-heights,
  connect_block-spent, connect_block-heights, connect_block-has,
}

pub chain_spends-append :
    (bs tail : List Block) (k : Bytes)
    → chain_spends (bs ++ tail) k ≡ (chain_spends bs k || chain_spends tail k)
unfolding chain_spends
chain_spends-append [] tail k = refl
chain_spends-append (b ∷ bs) tail k = ground (arith, chain_spends-append bs tail k)

-- What a removed part spends, what is left does not.
pub spends_apart :
    (bs tail : List Block) (k : Bytes)
    → SpendsOnce (bs ++ tail)
    → chain_spends bs k ≡ true
    → chain_spends tail k ≡ false
unfolding chain_spends
spends_apart [] tail k once h = absurd (cc h)
spends_apart (b ∷ bs) tail k once h = elim (Bool-cases (txs_spend b.transactions k)) [
  | inl e ↦ ground (arith, once.0 k e, chain_spends-append bs tail k)
  | inr e ↦ spends_apart bs tail k once.1 (ground (arith, h, e))
]

module _ (c : Crypto) (kv : KeyValue) where
  abbrev pub Holds : Store kv → List Block → Type 0
  Holds s chain = Indexes c (λ h. hash_by_height kv h s) (spent_in c kv s) (has_in c kv s) chain

  pub branch_tail : (bs tail : List Block) → IsBranch c (bs ++ tail) → IsBranch c tail
  branch_tail [] tail v = v
  branch_tail (b ∷ bs) tail v = branch_tail bs tail v.1.1

  branch_heights :
      (bs tail : List Block)
      → IsBranch c (bs ++ tail)
      → length (bs ++ tail) < 256 ^ 8
      → All (λ (b : Block). b.header.height < 256 ^ 8) bs
  branch_heights [] tail v small = tt
  branch_heights (b ∷ bs) tail v small =
      (omega (arith, v.0, small), branch_heights bs tail v.1.1 (omega (arith, small)))

  above_tail :
      (bs tail : List Block) (h : ℕ) (b : Block)
      → b.header.height ≡ length (bs ++ tail)
      → (b.header.height == h) ≡ true
      → ¬ (h < length tail)
  above_tail bs tail h b high same l =
      omega (arith, high, (==_iff b.header.height h).0 same, length-append bs tail, l)

  pub cut_heights :
      (bs tail : List Block) (h : ℕ)
      → IsBranch c (bs ++ tail)
      → (if has_height kv c bs h then none else hash_at c (bs ++ tail) h) ≡ hash_at c tail h
  unfolding hash_at
  cut_heights [] tail h v = refl
  cut_heights (b ∷ bs) tail h v = elim (Bool-cases (b.header.height == h)) [
    | inl e ↦ rw e (sym (hash_at_above c tail h (above_tail bs tail h b v.0 e)))
    | inr e ↦ ground (arith, v.0, e, cut_heights bs tail h v.1.1)
  ]

  -- Taking the newest blocks off.
  pub disconnect_blocks-Holds :
      (bs tail : List Block) (s : Store kv)
      → IsBranch c (bs ++ tail)
      → length (bs ++ tail) < 256 ^ 8
      → SpendsOnce (bs ++ tail)
      → Holds s (bs ++ tail)
      → Holds (disconnect_blocks kv c bs s) tail
  disconnect_blocks-Holds bs tail s v small once holds = record {
    heights = λ h bound.
        disconnect_blocks-heights kv c bs s h bound (branch_heights bs tail v small)
        ∙ ap (λ o. if has_height kv c bs h then none else o) (holds.heights h bound)
        ∙ cut_heights bs tail h v;
    images = λ k.
        disconnect_blocks-spent kv c bs s k
        ∙ ground
            (arith, holds.images k, chain_spends-append bs tail k, spends_apart bs tail k once);
    stored =
        All_weaken _ _ tail
          (λ d h.
            ap (λ m. is_some (kv.get (block_hash c d) m)) (disconnect_blocks-blocks kv c bs s).0
            ∙ h)
          (All-append_right _ bs tail holds.stored);
  }

  -- Putting one block on top.
  pub connect_block-Holds :
      (b : Block) (chain : List Block) (s : Store kv)
      → b.header.height ≡ length chain
      → length chain < 256 ^ 8
      → Holds s chain
      → Holds (connect_block kv c b s) (b ∷ chain)
  unfolding chain_spends hash_at
  connect_block-Holds b chain s high small holds = record {
    heights = λ h bound.
        connect_block-heights kv c b s h bound (omega (arith, high, small))
        ∙ ground (arith, high, holds.heights h bound);
    images = λ k.
        connect_block-spent kv c b s k ∙ ap (◌||◌ (txs_spend b.transactions k)) (holds.images k);
    stored = (
      connect_block-has kv c b s (block_hash c b) ∙ ground (arith, bytes_eq_refl (block_hash c b)),
      All_weaken _ _ chain (λ d h. connect_block-has kv c b s (block_hash c d) ∙ ground (arith, h))
          holds.stored,
    );
  }

  pub extend_branch : (bs chain : List Block) → IsBranch c (extend bs chain) → IsBranch c chain
  unfolding extend
  extend_branch [] chain v = v
  extend_branch (b ∷ bs) chain v = (extend_branch bs (b ∷ chain) v).1.1

  pub connect_blocks-Holds :
      (bs chain : List Block) (s : Store kv)
      → IsBranch c (extend bs chain)
      → length chain + length bs < 256 ^ 8
      → Holds s chain
      → Holds (connect_blocks kv c bs s) (extend bs chain)
  unfolding connect_blocks extend
  connect_blocks-Holds [] chain s v small holds = holds
  connect_blocks-Holds (b ∷ bs) chain s v small holds =
      connect_blocks-Holds bs (b ∷ chain) (connect_block kv c b s) v (omega (arith, small)) (
        connect_block-Holds b chain s (extend_branch bs (b ∷ chain) v).0 (omega (arith, small))
          holds)
