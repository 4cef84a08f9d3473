-- ===== src/Chain/Agreement/Memory.antt =====
-- block.go: the indices in memory after reorganizeTo disconnects and connects blocks.
use blocknet_core.Prelude.{
  ℕ, ◌≡◌, refl, sym, ◌∙◌, List, [], ◌∷◌, ◌++◌, Bytes, none, some, ◌==◌, length, if◌then◌else◌,
  bytes_eq, Bool-cases, inl, inr, arith,
}
use blocknet_core.Prelude.Maps.{lookup, insert, delete, lookup-insert, lookup-delete}
use blocknet_core.Tx.{Transaction, TxInput, is_coinbase}
use blocknet_core.Block.{Block}
use blocknet_core.Block.Validate.{Network}
use blocknet_core.Store.{KeyValue, block_hash}
use blocknet_core.Store.Chains.{inputs_spend, txs_spend, chain_spends, extend, IsBranch, hash_at}
use blocknet_core.Store.Effects.{has_height}
use blocknet_core.Store.Steps.{cut_heights, chain_spends-append, extend_branch}
use blocknet_core.Chain.{
  Chain, set_height, push_timestamp, clear_height, set_inputs, set_images, delete_inputs,
  unset_images,
}
use blocknet_core.Chain.Process.{forget_blocks, note_blocks}
use blocknet_core.Chain.Agreement.{Within}

set_inputs-lookup :
    (h : ℕ) (xs : List TxInput) (m : List (Bytes × ℕ)) (k : Bytes)
    → lookup k (set_inputs h xs m) ≡ (if inputs_spend xs k then some h else lookup k m)
unfolding set_inputs inputs_spend
set_inputs-lookup h [] m k = refl
set_inputs-lookup h (x ∷ xs) m k =
    set_inputs-lookup h xs (insert x.key_image h m) k
    ∙ ground (arith, lookup-insert x.key_image k h m, Bool-cases (bytes_eq x.key_image k))

set_images-lookup :
    (h : ℕ) (txs : List Transaction) (m : List (Bytes × ℕ)) (k : Bytes)
    → lookup k (set_images h txs m) ≡ (if txs_spend txs k then some h else lookup k m)
unfolding set_images txs_spend
set_images-lookup h [] m k = refl
set_images-lookup h (tx ∷ txs) m k = elim (Bool-cases (is_coinbase tx)) [
  | inl e ↦ rw (e, set_images, txs_spend) (set_images-lookup h txs m k)
  | inr e ↦
      rw (e, set_images, txs_spend)
        (set_images-lookup h txs (set_inputs h tx.inputs m) k
          ∙ ground (arith, set_inputs-lookup h tx.inputs m k))
]

delete_inputs-lookup :
    (xs : List TxInput) (m : List (Bytes × ℕ)) (k : Bytes)
    → lookup k (delete_inputs xs m) ≡ (if inputs_spend xs k then none else lookup k m)
unfolding delete_inputs inputs_spend
delete_inputs-lookup [] m k = refl
delete_inputs-lookup (x ∷ xs) m k =
    delete_inputs-lookup xs (delete x.key_image m) k
    ∙ ground (arith, lookup-delete x.key_image k m, Bool-cases (bytes_eq x.key_image k))

unset_images-lookup :
    (txs : List Transaction) (m : List (Bytes × ℕ)) (k : Bytes)
    → lookup k (unset_images txs m) ≡ (if txs_spend txs k then none else lookup k m)
unfolding unset_images txs_spend
unset_images-lookup [] m k = refl
unset_images-lookup (tx ∷ txs) m k = elim (Bool-cases (is_coinbase tx)) [
  | inl e ↦ rw (e, unset_images, txs_spend) (unset_images-lookup txs m k)
  | inr e ↦
      rw (e, unset_images, txs_spend)
        (unset_images-lookup txs (delete_inputs tx.inputs m) k
          ∙ ground (arith, delete_inputs-lookup tx.inputs m k))
]

module _ (net : Network) (kv : KeyValue) where
  forget_blocks-by_height :
      (ds : List Block) (c : Chain kv) (h : ℕ)
      → (forget_blocks net kv ds c).by_height h
        ≡ (if has_height kv net.crypto ds h then none else c.by_height h)
  unfolding forget_blocks clear_height
  forget_blocks-by_height [] c h = refl
  forget_blocks-by_height (b ∷ bs) c h =
      forget_blocks-by_height bs
        (record c {
          by_height = clear_height b.header.height c.by_height;
          key_images = unset_images b.transactions c.key_images;
        })
        h
      ∙ ground (arith, Bool-cases (b.header.height == h))

  forget_blocks-lookup :
      (ds : List Block) (c : Chain kv) (k : Bytes)
      → lookup k (forget_blocks net kv ds c).key_images
        ≡ (if chain_spends ds k then none else lookup k c.key_images)
  unfolding forget_blocks chain_spends
  forget_blocks-lookup [] c k = refl
  forget_blocks-lookup (b ∷ bs) c k =
      forget_blocks-lookup bs
        (record c {
          by_height = clear_height b.header.height c.by_height;
          key_images = unset_images b.transactions c.key_images;
        })
        k
      ∙ ground (arith, unset_images-lookup b.transactions c.key_images k)

  pub forget_blocks-Within :
      (ds tail : List Block) (c : Chain kv)
      → IsBranch net.crypto (ds ++ tail)
      → Within net.crypto kv c.by_height c.key_images (ds ++ tail)
      → Within net.crypto kv
          (forget_blocks net kv ds c).by_height
          (forget_blocks net kv ds c).key_images
          tail
  forget_blocks-Within ds tail c v w = record {
    heights = λ h x e.
        let e1 = sym (forget_blocks-by_height ds c h) ∙ e in
        elim (Bool-cases (has_height kv net.crypto ds h)) [
          | inl gone ↦ absurd (cc (rw gone at e1))
          | inr left ↦
              sym (cut_heights net.crypto kv ds tail h v) ∙ rw left (w.heights h x (rw left at e1))
        ];
    spent = λ k n e.
        let e1 = sym (forget_blocks-lookup ds c k) ∙ e in
        elim (Bool-cases (chain_spends ds k)) [
          | inl gone ↦ absurd (cc (rw gone at e1))
          | inr left ↦
              ground (arith, left, chain_spends-append ds tail k, w.spent k n (rw left at e1))
        ];
  }

  pub note_blocks-Within :
      (bs chain : List Block) (c : Chain kv)
      → IsBranch net.crypto (extend bs chain)
      → Within net.crypto kv c.by_height c.key_images chain
      → Within net.crypto kv
          (note_blocks net kv bs c).by_height
          (note_blocks net kv bs c).key_images
          (extend bs chain)
  unfolding note_blocks extend set_height hash_at chain_spends
  note_blocks-Within [] chain c v w = w
  note_blocks-Within (b ∷ bs) chain c v w =
      let level : b.header.height ≡ length chain =
        (extend_branch net.crypto kv bs (b ∷ chain) v).0 in
      note_blocks-Within bs (b ∷ chain)
        (record c {
          by_height = set_height b.header.height (block_hash net.crypto b) c.by_height;
          timestamps = push_timestamp b.header.timestamp c.timestamps;
          key_images = set_images b.header.height b.transactions c.key_images;
        })
        v
        (record {
          heights = λ h x e. elim (Bool-cases (b.header.height == h)) [
            | inl here ↦ ground (arith, here, level, e)
            | inr other ↦ ground (arith, other, level, e, w.heights h x)
          ];
          spent = λ k n e.
              let e1 = sym (set_images-lookup b.header.height b.transactions c.key_images k) ∙ e in
              elim (Bool-cases (txs_spend b.transactions k)) [
                | inl here ↦ ground (arith, here)
                | inr other ↦ ground (arith, other, w.spent k n (rw other at e1))
              ];
        })
