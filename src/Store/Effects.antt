-- ===== src/Store/Effects.antt =====
-- What the loops of CommitReorg do to the buckets, read back with Get.
use blocknet_core.Prelude.{
  ℕ, ◌<◌, ◌^◌, ◌≡◌, refl, sym, ap, ◌∙◌, List, [], ◌∷◌, Bytes, Bool, false, ◌&&◌, ◌||◌, not, none,
  some, ok, if◌then◌else◌, ◌==◌, bytes_eq, bytes_eq_iff, length, All, arith, inl, inr, Bool-cases,
  get_be, put_be, get_be-put_be, length-put_be,
}
use blocknet_core.Tx.{Transaction, TxInput, is_coinbase}
use blocknet_core.Tx.Crypto.{Crypto}
use blocknet_core.Block.{Block}
use blocknet_core.Store.{
  KeyValue, Utxo, Store, height_key, is_some, block_hash, txid_of, read_tip, write_tip, save_output,
  mark_spent, unmark_spent, set_main_chain_block, remove_main_chain_block, hash_by_height,
  meta_key_tip, meta_key_height, meta_key_work,
}
use blocknet_core.Store.Commit.{
  save_outputs, put_block, unmark_inputs, unmark_txs, disconnect_blocks, save_txs, mark_inputs,
  mark_txs, connect_block, connect_blocks, utxos_of,
}
use blocknet_core.Store.Chains.{inputs_spend, txs_spend, chain_spends, spent_in, has_in}

-- Keys of different heights differ.
pub height_key_eq :
    (h k : ℕ) → h < 256 ^ 8 → k < 256 ^ 8 → bytes_eq (height_key h) (height_key k) ≡ (h == k)
unfolding height_key
height_key_eq h k a b =
    let there : put_be 8 h ≡ put_be 8 k → h ≡ k =
      λ e. sym (get_be-put_be 8 h a) ∙ ap get_be e ∙ get_be-put_be 8 k b in
    let back : h ≡ k → put_be 8 h ≡ put_be 8 k = ap (put_be 8) in
    ground (arith, bytes_eq_iff (put_be 8 h) (put_be 8 k), there, back)

module _ (kv : KeyValue) where
  open kv use {get, get-put, get-delete}

  -- A step that leaves the height index, the blocks and the tip alone.
  abbrev pub Keeps : Store kv → Store kv → Type 0
  Keeps s t = (t.heights ≡ s.heights) × ((t.blocks ≡ s.blocks) × (t.meta ≡ s.meta))

  abbrev keeps_all : (s : Store kv) → Keeps s s
  keeps_all s = (refl, (refl, refl))

  pub keeps_trans : (s t u : Store kv) → Keeps s t → Keeps t u → Keeps s u
  keeps_trans s t u a b = (b.0 ∙ a.0, (b.1.0 ∙ a.1.0, b.1.1 ∙ a.1.1))

  module _ (c : Crypto) where
    unmark_inputs-Keeps : (xs : List TxInput) (s : Store kv) → Keeps s (unmark_inputs kv c xs s)
    unfolding unmark_inputs unmark_spent
    unmark_inputs-Keeps [] s = keeps_all s
    unmark_inputs-Keeps (x ∷ xs) s = unmark_inputs-Keeps xs (unmark_spent kv x.key_image s)

    mark_inputs-Keeps :
        (h : ℕ) (xs : List TxInput) (s : Store kv) → Keeps s (mark_inputs kv c h xs s)
    unfolding mark_inputs mark_spent
    mark_inputs-Keeps h [] s = keeps_all s
    mark_inputs-Keeps h (x ∷ xs) s = mark_inputs-Keeps h xs (mark_spent kv h x.key_image s)

    unmark_txs-Keeps : (txs : List Transaction) (s : Store kv) → Keeps s (unmark_txs kv c txs s)
    unfolding unmark_txs
    unmark_txs-Keeps [] s = keeps_all s
    unmark_txs-Keeps (tx ∷ txs) s = elim (Bool-cases (is_coinbase tx)) [
      | inl e ↦ rw (e, unmark_txs) (unmark_txs-Keeps txs s)
      | inr e ↦
          rw (e, unmark_txs)
            (keeps_trans s (unmark_inputs kv c tx.inputs s)
              (unmark_txs kv c txs (unmark_inputs kv c tx.inputs s))
              (unmark_inputs-Keeps tx.inputs s)
              (unmark_txs-Keeps txs (unmark_inputs kv c tx.inputs s)))
    ]

    mark_txs-Keeps :
        (h : ℕ) (txs : List Transaction) (s : Store kv) → Keeps s (mark_txs kv c h txs s)
    unfolding mark_txs
    mark_txs-Keeps h [] s = keeps_all s
    mark_txs-Keeps h (tx ∷ txs) s = elim (Bool-cases (is_coinbase tx)) [
      | inl e ↦ rw (e, mark_txs) (mark_txs-Keeps h txs s)
      | inr e ↦
          rw (e, mark_txs)
            (keeps_trans s (mark_inputs kv c h tx.inputs s)
              (mark_txs kv c h txs (mark_inputs kv c h tx.inputs s))
              (mark_inputs-Keeps h tx.inputs s)
              (mark_txs-Keeps h txs (mark_inputs kv c h tx.inputs s)))
    ]

    pub save_outputs-Keeps :
        (us : List Utxo) (s : Store kv)
        → Keeps s (save_outputs kv us s) × ((save_outputs kv us s).key_images ≡ s.key_images)
    unfolding save_outputs save_output
    save_outputs-Keeps [] s = (keeps_all s, refl)
    save_outputs-Keeps (u ∷ us) s = save_outputs-Keeps us (save_output kv u s)

    save_txs-Keeps :
        (h : ℕ) (txs : List Transaction) (s : Store kv)
        → Keeps s (save_txs kv c h txs s) × ((save_txs kv c h txs s).key_images ≡ s.key_images)
    unfolding save_txs
    save_txs-Keeps h [] s = (keeps_all s, refl)
    save_txs-Keeps h (tx ∷ txs) s =
        let us = utxos_of (txid_of c tx) h 0 tx.outputs in
        let one = save_outputs-Keeps us s in
        let more = save_txs-Keeps h txs (save_outputs kv us s) in
        (
          keeps_trans s (save_outputs kv us s) (save_txs kv c h txs (save_outputs kv us s)) one.0
              more.0,
          more.1 ∙ one.1,
        )

    -- The key images that the loops take out and put in.
    unmark_inputs-spent :
        (xs : List TxInput) (s : Store kv) (k : Bytes)
        → spent_in c kv (unmark_inputs kv c xs s) k ≡ (not (inputs_spend xs k) && spent_in c kv s k)
    unfolding unmark_inputs unmark_spent inputs_spend is_some
    unmark_inputs-spent [] s k = refl
    unmark_inputs-spent (x ∷ xs) s k =
        unmark_inputs-spent xs (unmark_spent kv x.key_image s) k
        ∙ rw get-delete (elim (Bool-cases (bytes_eq x.key_image k)) [
          | inl e ↦ ground (arith, e)
          | inr e ↦ ground (arith, e)
        ])

    mark_inputs-spent :
        (h : ℕ) (xs : List TxInput) (s : Store kv) (k : Bytes)
        → spent_in c kv (mark_inputs kv c h xs s) k ≡ (inputs_spend xs k || spent_in c kv s k)
    unfolding mark_inputs mark_spent inputs_spend is_some
    mark_inputs-spent h [] s k = refl
    mark_inputs-spent h (x ∷ xs) s k =
        mark_inputs-spent h xs (mark_spent kv h x.key_image s) k
        ∙ rw get-put (elim (Bool-cases (bytes_eq x.key_image k)) [
          | inl e ↦ ground (arith, e)
          | inr e ↦ ground (arith, e)
        ])

    unmark_txs-spent :
        (txs : List Transaction) (s : Store kv) (k : Bytes)
        → spent_in c kv (unmark_txs kv c txs s) k ≡ (not (txs_spend txs k) && spent_in c kv s k)
    unfolding unmark_txs txs_spend
    unmark_txs-spent [] s k = refl
    unmark_txs-spent (tx ∷ txs) s k = elim (Bool-cases (is_coinbase tx)) [
      | inl e ↦ rw (e, unmark_txs, txs_spend) (unmark_txs-spent txs s k)
      | inr e ↦
          rw (e, unmark_txs, txs_spend)
            (unmark_txs-spent txs (unmark_inputs kv c tx.inputs s) k
              ∙ ground (arith, unmark_inputs-spent tx.inputs s k))
    ]

    mark_txs-spent :
        (h : ℕ) (txs : List Transaction) (s : Store kv) (k : Bytes)
        → spent_in c kv (mark_txs kv c h txs s) k ≡ (txs_spend txs k || spent_in c kv s k)
    unfolding mark_txs txs_spend
    mark_txs-spent h [] s k = refl
    mark_txs-spent h (tx ∷ txs) s k = elim (Bool-cases (is_coinbase tx)) [
      | inl e ↦ rw (e, mark_txs, txs_spend) (mark_txs-spent h txs s k)
      | inr e ↦
          rw (e, mark_txs, txs_spend)
            (mark_txs-spent h txs (mark_inputs kv c h tx.inputs s) k
              ∙ ground (arith, mark_inputs-spent h tx.inputs s k))
    ]

    pub disconnect_blocks-spent :
        (bs : List Block) (s : Store kv) (k : Bytes)
        → spent_in c kv (disconnect_blocks kv c bs s) k
          ≡ (not (chain_spends bs k) && spent_in c kv s k)
    unfolding disconnect_blocks chain_spends remove_main_chain_block
    disconnect_blocks-spent [] s k = refl
    disconnect_blocks-spent (b ∷ bs) s k =
        let below = disconnect_blocks kv c bs s in
        unmark_txs-spent b.transactions (remove_main_chain_block kv b.header.height below) k
        ∙ ground (arith, disconnect_blocks-spent bs s k)

    pub connect_block-spent :
        (b : Block) (s : Store kv) (k : Bytes)
        → spent_in c kv (connect_block kv c b s) k
          ≡ (txs_spend b.transactions k || spent_in c kv s k)
    unfolding connect_block put_block set_main_chain_block
    connect_block-spent b s k =
        let first =
          set_main_chain_block kv b.header.height (block_hash c b)
            (put_block kv c (block_hash c b) b s) in
        let saved = save_txs kv c b.header.height b.transactions first in
        mark_txs-spent b.header.height b.transactions saved k
        ∙ ap (λ m. txs_spend b.transactions k || is_some (get k m))
            (save_txs-Keeps b.header.height b.transactions first).1

    -- The height index and the blocks after a block is disconnected or connected.
    pub disconnect_one-Keeps :
        (b : Block) (bs : List Block) (s : Store kv)
        → Keeps
            (remove_main_chain_block kv b.header.height (disconnect_blocks kv c bs s))
            (disconnect_blocks kv c (b ∷ bs) s)
    unfolding disconnect_blocks
    disconnect_one-Keeps b bs s =
        unmark_txs-Keeps b.transactions
          (remove_main_chain_block kv b.header.height (disconnect_blocks kv c bs s))

    pub connect_block-Keeps :
        (b : Block) (s : Store kv)
        → Keeps
            (set_main_chain_block kv b.header.height
              (block_hash c b)
              (put_block kv c (block_hash c b) b s))
            (connect_block kv c b s)
    unfolding connect_block
    connect_block-Keeps b s =
        let first =
          set_main_chain_block kv b.header.height (block_hash c b)
            (put_block kv c (block_hash c b) b s) in
        let saved = save_txs kv c b.header.height b.transactions first in
        keeps_trans first saved (mark_txs kv c b.header.height b.transactions saved)
          (save_txs-Keeps b.header.height b.transactions first).0
          (mark_txs-Keeps b.header.height b.transactions saved)

    pub disconnect_blocks-blocks :
        (bs : List Block) (s : Store kv)
        → ((disconnect_blocks kv c bs s).blocks ≡ s.blocks)
          × ((disconnect_blocks kv c bs s).meta ≡ s.meta)
    unfolding disconnect_blocks remove_main_chain_block
    disconnect_blocks-blocks [] s = (refl, refl)
    disconnect_blocks-blocks (b ∷ bs) s =
        let one = disconnect_one-Keeps b bs s in
        let rest = disconnect_blocks-blocks bs s in (one.1.0 ∙ rest.0, one.1.1 ∙ rest.1)

    pub connect_blocks-meta :
        (bs : List Block) (s : Store kv) → (connect_blocks kv c bs s).meta ≡ s.meta
    unfolding connect_blocks set_main_chain_block put_block
    connect_blocks-meta [] s = refl
    connect_blocks-meta (b ∷ bs) s =
        connect_blocks-meta bs (connect_block kv c b s) ∙ (connect_block-Keeps b s).1.1

    -- Heights that the blocks to disconnect have.
    abbrev pub has_height : List Block → ℕ → Bool
    has_height [] h = false
    has_height (b ∷ bs) h = b.header.height == h || has_height bs h

    pub disconnect_blocks-heights :
        (bs : List Block) (s : Store kv) (h : ℕ)
        → h < 256 ^ 8
        → All (λ (b : Block). b.header.height < 256 ^ 8) bs
        → hash_by_height kv h (disconnect_blocks kv c bs s)
          ≡ (if has_height bs h then none else hash_by_height kv h s)
    unfolding disconnect_blocks remove_main_chain_block hash_by_height
    disconnect_blocks-heights [] s h small bound = refl
    disconnect_blocks-heights (b ∷ bs) s h small bound =
        let below = disconnect_blocks kv c bs s in
        ap (get (height_key h)) (disconnect_one-Keeps b bs s).0
        ∙ get-delete (height_key b.header.height) (height_key h) below.heights
        ∙ ground (
          arith,
          height_key_eq b.header.height h bound.0 small,
          disconnect_blocks-heights bs s h small bound.1,
        )

    pub connect_block-heights :
        (b : Block) (s : Store kv) (h : ℕ)
        → h < 256 ^ 8
        → b.header.height < 256 ^ 8
        → hash_by_height kv h (connect_block kv c b s)
          ≡ (if b.header.height == h then some (block_hash c b) else hash_by_height kv h s)
    unfolding set_main_chain_block hash_by_height put_block
    connect_block-heights b s h small bound =
        ap (get (height_key h)) (connect_block-Keeps b s).0
        ∙ get-put (height_key b.header.height) (height_key h) (block_hash c b) s.heights
        ∙ ground (arith, height_key_eq b.header.height h bound small)

    pub connect_block-has :
        (b : Block) (s : Store kv) (h : Bytes)
        → has_in c kv (connect_block kv c b s) h ≡ (bytes_eq (block_hash c b) h || has_in c kv s h)
    unfolding set_main_chain_block put_block is_some
    connect_block-has b s h =
        ap (λ m. is_some (get h m)) (connect_block-Keeps b s).1.0
        ∙ ap is_some (get-put (block_hash c b) h b s.blocks)
        ∙ ground (arith, Bool-cases (bytes_eq (block_hash c b) h))

  read_tip_found :
      (m : kv.Bucket Bytes) (hash height : Bytes)
      → get meta_key_tip m ≡ some hash
      → get meta_key_height m ≡ some height
      → length hash ≡ 32
      → length height ≡ 8
      → read_tip kv m ≡ ok (some (hash, get_be height))
  unfolding read_tip
  read_tip_found m hash height t h a b = rw (t, read_tip, a) (rw (h, b) refl)

  -- The tip that the three writes leave.
  pub read_tip-write_tip :
      (hash : Bytes) (height work : ℕ) (m : kv.Bucket Bytes)
      → length hash ≡ 32
      → height < 256 ^ 8
      → read_tip kv (write_tip kv hash height work m) ≡ ok (some (hash, height))
  unfolding write_tip bytes_eq
  read_tip-write_tip hash height work m size small =
      let tipped = kv.put meta_key_tip hash m in
      let high = kv.put meta_key_height (put_be 8 height) tipped in
      read_tip_found (write_tip kv hash height work m) hash (put_be 8 height)
        (get-put meta_key_work meta_key_tip (put_be 8 work) high
          ∙ get-put meta_key_height meta_key_tip (put_be 8 height) tipped
          ∙ get-put meta_key_tip meta_key_tip hash m)
        (get-put meta_key_work meta_key_height (put_be 8 work) high
          ∙ get-put meta_key_height meta_key_height (put_be 8 height) tipped)
        size (length-put_be 8 height)
      ∙ ap (λ n. ok (some (hash, n))) (get_be-put_be 8 height small)
