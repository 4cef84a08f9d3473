-- ===== src/Chain/Agreement/Process.antt =====
-- block.go: after ProcessBlock, however it ends, memory and database stand for one chain.
use blocknet_core.Prelude.{
  ℕ, ◌<◌, ◌≡◌, refl, sym, ap, ◌∙◌, subst, List, Bytes, false, ◌||◌, ◌&&◌, not, Option, none, some,
  ok, err, length, if◌then◌else◌, ltb, bytes_eq, bytes_eq_iff, bytes_eq_refl, Bool-cases,
  Option-cases, Result-cases, inl, inr, some_eq, ok-injective, refuse_if-eq-ok, All_weaken,
}
use blocknet_core.Prelude.Maps.{lookup, insert, delete, lookup-insert, lookup-delete}
use blocknet_core.Block.{Block}
use blocknet_core.Block.Validate.{Network}
use blocknet_core.Block.Forks.{add_cumulative_work}
use blocknet_core.Store.{KeyValue, Store, is_some, block_hash, hash_by_height, save_block}
use blocknet_core.Store.Chains.{SpendsOnce, extend}
use blocknet_core.Chain.{Chain, get_block}
use blocknet_core.Chain.Process.{
  Outcome, reorganize_to, forget, after_reorg, place_block, parent_work, weigh_block,
  validate_for_process, process_block,
}
use blocknet_core.Chain.Choice.{Moves, reorganize_to-Moves}
use blocknet_core.Chain.Agreement.{Agrees}
use blocknet_core.Chain.Agreement.Reorg.{reorganize_to-Agrees}

none_left : {A : Type 0} (o p : Option A) → (is_some o || is_some p) ≡ false → o ≡ none
unfolding is_some
none_left none p h = refl
none_left (some a) p h = absurd (cc h)

none_right : {A : Type 0} (o p : Option A) → (is_some o || is_some p) ≡ false → p ≡ none
unfolding is_some
none_right none none h = refl
none_right none (some a) h = absurd (cc h)
none_right (some b) p h = absurd (cc h)

module _ (net : Network) (kv : KeyValue) where
  open net use {crypto}
  open kv use {get, get-put}

  -- The state stands for some chain.
  abbrev pub Sound : Chain kv → Type 0
  Sound c = (chain : List Block) × Agrees crypto kv c chain

  -- A state that differs in its caches, and reads the same blocks.
  reads_same :
      (c : Chain kv) (chain : List Block) (blocks : List (Bytes × Block)) (known : List (Bytes × ℕ))
      → ((h : Bytes) → lookup h blocks ≡ lookup h c.blocks)
      → Agrees crypto kv c chain
      → Agrees crypto kv (record c { blocks = blocks; work_at = known }) chain
  unfolding get_block
  reads_same c chain blocks known same agrees =
      let reads : (h : Bytes)
          → get_block kv (record c { blocks = blocks; work_at = known }) h ≡ get_block kv c h =
        λ h. rw (get_block, same h) refl in
      record {
        represents = agrees.represents;
        tip = agrees.tip;
        kept = agrees.kept;
        keyed = λ h b e. agrees.keyed h b (sym (reads h) ∙ e);
        one_block = λ h b e. reads h ∙ agrees.one_block h b e;
        within = agrees.within;
      }

  -- The memory takes a block that is new to it and to the database.
  held-Agrees :
      (c : Chain kv) (chain : List Block) (b : Block) (known : List (Bytes × ℕ))
      → get (block_hash crypto b) c.store.blocks ≡ none
      → Agrees crypto kv c chain
      → Agrees crypto kv
          (record c { blocks = insert (block_hash crypto b) b c.blocks; work_at = known })
          chain
  unfolding get_block
  held-Agrees c chain b known fresh agrees =
      let key = block_hash crypto b in
      let d : Chain kv = record c { blocks = insert key b c.blocks; work_at = known } in
      let first : (h : Bytes) → key ≡ h → get_block kv d h ≡ some b = λ h same.
        rw (get_block, lookup-insert key h b c.blocks) (rw ((bytes_eq_iff key h).1 same) refl) in
      let others : (h : Bytes) → bytes_eq key h ≡ false → get_block kv d h ≡ get_block kv c h =
        λ h other. rw (get_block, lookup-insert key h b c.blocks) (rw other refl) in
      record {
        represents = agrees.represents;
        tip = agrees.tip;
        kept = agrees.kept;
        keyed = λ h x e. elim (Bool-cases (bytes_eq key h)) [
          | inl same ↦
              let this : key ≡ h = (bytes_eq_iff key h).0 same in
              let one : b ≡ x = some_eq (sym (first h this) ∙ e) in
              subst (λ (y : Block). block_hash crypto y ≡ h) one this
          | inr other ↦ agrees.keyed h x (sym (others h other) ∙ e)
        ];
        one_block = λ h x e. elim (Bool-cases (bytes_eq key h)) [
          | inl same ↦
              let free : get h c.store.blocks ≡ none =
                subst (λ j. get j c.store.blocks ≡ none) ((bytes_eq_iff key h).0 same) fresh in
              absurd (cc (free, e))
          | inr other ↦ others h other ∙ agrees.one_block h x e
        ];
        within = agrees.within;
      }

  abbrev put_in : Block → Store kv → kv.Bucket Block
  put_in b s = kv.put (block_hash crypto b) b s.blocks

  put_there :
      (s : Store kv) (b : Block) (h : Bytes)
      → get h (put_in b s) ≡ (if bytes_eq (block_hash crypto b) h then some b else get h s.blocks)
  put_there s b h = get-put (block_hash crypto b) h b s.blocks

  -- The database stores the block that the memory holds.
  saved-Agrees :
      (c : Chain kv) (chain : List Block) (b : Block)
      → get (block_hash crypto b) c.store.blocks ≡ none
      → lookup (block_hash crypto b) c.blocks ≡ some b
      → Agrees crypto kv c chain
      → Agrees crypto kv (record c { store = record c.store { blocks = put_in b c.store } }) chain
  unfolding get_block hash_by_height is_some
  saved-Agrees c chain b fresh held agrees =
      let key = block_hash crypto b in
      let d : Chain kv = record c { store = record c.store { blocks = put_in b c.store } } in
      let mine : get_block kv c key ≡ some b = rw (get_block, held) refl in
      let stays : (h : Bytes) (x : Block)
          → get h c.store.blocks ≡ some x
          → get h d.store.blocks ≡ some x =
        λ h x e. put_there c.store b h ∙ (elim (Bool-cases (bytes_eq key h)) [
          | inl same ↦
              absurd (
                cc
                  (subst (λ j. get j c.store.blocks ≡ none) ((bytes_eq_iff key h).0 same) fresh, e))
          | inr other ↦ rw other e
        ]) in
      let reads : (h : Bytes) → get_block kv d h ≡ get_block kv c h = λ h.
        elim (Option-cases (lookup h c.blocks)) [
          | inr (x, there) ↦ rw (get_block, there) refl
          | inl lost ↦
              rw (get_block, lost)
                (put_there c.store b h ∙ (elim (Bool-cases (bytes_eq key h)) [
                  | inl same ↦ absurd (
                      cc (
                        subst (λ j. lookup j c.blocks ≡ some b) ((bytes_eq_iff key h).0 same) held,
                        lost,
                      ))
                  | inr other ↦ rw other refl
                ]))
        ] in
      record {
        represents = record {
          branch = agrees.represents.branch;
          short = agrees.represents.short;
          tip = agrees.represents.tip;
          indexes = record {
            heights = agrees.represents.indexes.heights;
            images = agrees.represents.indexes.images;
            stored =
                All_weaken _ _ chain (λ x e. ap is_some (stays (block_hash crypto x) x e))
                  agrees.kept;
          };
        };
        tip = agrees.tip;
        kept = All_weaken _ _ chain (λ x e. stays (block_hash crypto x) x e) agrees.kept;
        keyed = λ h x e. agrees.keyed h x (sym (reads h) ∙ e);
        one_block = λ h x e. reads h ∙ (elim (Bool-cases (bytes_eq key h)) [
          | inl same ↦
              let one : b ≡ x = some_eq (rw same at (sym (put_there c.store b h) ∙ e)) in
              subst (λ j. get_block kv c j ≡ some x) ((bytes_eq_iff key h).0 same)
                (mine ∙ ap some one)
          | inr other ↦ agrees.one_block h x (rw other at (sym (put_there c.store b h) ∙ e))
        ]);
        within = agrees.within;
      }

  module _ (b : Block) (size : length (block_hash crypto b) ≡ 32)
      (high : b.header.height < 2305843009213693952) where
    after_reorg-Sound :
        (c : Chain kv) (chain : List Block) (known : List (Bytes × ℕ)) (r : Outcome kv (Unit {0}))
        → Agrees crypto kv c chain
        → lookup (block_hash crypto b) c.blocks ≡ none
        → ((d : Chain kv) → r ≡ (d, ok tt) → Sound d)
        → Moves kv net
            (block_hash crypto b)
            (record c { blocks = insert (block_hash crypto b) b c.blocks; work_at = known })
            r
        → Sound (after_reorg net kv (block_hash crypto b) r).0
    unfolding after_reorg forget
    after_reorg-Sound c chain known (d, err e) agrees unheld done (works, moved) =
        let key = block_hash crypto b in
        rw moved (
          chain,
          reads_same c chain (delete key (insert key b c.blocks)) (delete key works)
              (λ h.
                lookup-delete key h (insert key b c.blocks) ∙ (elim (Bool-cases (bytes_eq key h)) [
                  | inl same ↦ rw same (
                      sym (
                        subst (λ j. lookup j c.blocks ≡ none) ((bytes_eq_iff key h).0 same) unheld))
                  | inr other ↦ rw other (lookup-insert key h b c.blocks ∙ rw other refl)
                ]))
              agrees,
        )
    after_reorg-Sound c chain known (d, ok u) agrees unheld done moved = done d refl

    place_block-Sound :
        (c : Chain kv) (chain : List Block) (work : ℕ)
        → Agrees crypto kv c chain
        → SpendsOnce chain
        → length chain < 2305843009213693952
        → lookup (block_hash crypto b) c.blocks ≡ none
        → get (block_hash crypto b) c.store.blocks ≡ none
        → Sound (place_block net kv (block_hash crypto b) b work c).0
    unfolding place_block save_block after_reorg forget get_block
    place_block-Sound c chain work agrees once short unheld fresh =
        let key = block_hash crypto b in
        let known = insert key work c.work_at in
        let held : Chain kv = record c { blocks = insert key b c.blocks; work_at = known } in
        let with_it = held-Agrees c chain b known fresh agrees in
        let there : lookup key (insert key b c.blocks) ≡ some b =
          lookup-insert key key b c.blocks ∙ rw (bytes_eq_refl key) refl in
        elim (Bool-cases (ltb c.total_work work)) [
          | inl heavier ↦
              rw (heavier, place_block)
                (after_reorg-Sound c chain known (reorganize_to net kv key held) agrees unheld
                  (λ d e.
                    let (gone, added, kept, cut, (sound, tip)) =
                      reorganize_to-Agrees net kv key b held chain with_it once
                        (rw (get_block, there) refl) size high short e in
                    (extend added kept, sound))
                  (reorganize_to-Moves kv net key held))
          | inr lighter ↦ elim (Result-cases (save_block kv crypto b c.store)) [
            | inl (e, refused) ↦ rw (lighter, place_block) (rw refused (chain, with_it))
            | inr (store, saved) ↦
                let (orphan, put_it) =
                  refuse_if-eq-ok
                    (ltb 0 b.header.height && not (is_some (get b.header.prev_hash c.store.blocks)))
                    _ _ saved in
                rw (lighter, place_block)
                  (rw saved (
                    subst (λ (s : Store kv). Sound (record held { store = s }))
                      (ok-injective put_it) (chain, saved-Agrees held chain b fresh there with_it)))
          ]
        ]

    weigh_block-Sound :
        (c : Chain kv) (chain : List Block)
        → Agrees crypto kv c chain
        → SpendsOnce chain
        → length chain < 2305843009213693952
        → lookup (block_hash crypto b) c.blocks ≡ none
        → get (block_hash crypto b) c.store.blocks ≡ none
        → Sound (weigh_block net kv (block_hash crypto b) b c).0
    unfolding weigh_block
    weigh_block-Sound c chain agrees once short unheld fresh =
        let works = parent_work net kv b c in
        let c' : Chain kv = record c { work_at = works.0 } in
        let same : Agrees crypto kv c' chain =
          reads_same c chain c.blocks works.0 (λ h. refl) agrees in
        elim (Result-cases works.1) [
          | inl (e, failed) ↦ rw (failed, weigh_block) (chain, same)
          | inr (parent, found) ↦
              elim (Option-cases (add_cumulative_work parent b.header.difficulty)) [
                | inl overflow ↦ rw (found, weigh_block) (rw overflow (chain, same))
                | inr (work, sum) ↦
                    rw (found, weigh_block)
                      (rw sum (place_block-Sound c' chain work same once short unheld fresh))
              ]
        ]

  -- On a state whose memory and database stand for one chain, in which no key image is spent twice,
  -- ProcessBlock leaves, however it ends, a state whose memory and database stand for one chain: the tip,
  -- the height index and the key images of both are those of its blocks, as far as the memory has them. The block's
  -- hash has 32 bytes, and the heights are below 2 ^ 61.
  pub process_block-Sound :
      (b : Block) (c : Chain kv) (chain : List Block)
      → Agrees crypto kv c chain
      → SpendsOnce chain
      → length (block_hash crypto b) ≡ 32
      → b.header.height < 2305843009213693952
      → length chain < 2305843009213693952
      → Sound (process_block net kv b c).0
  unfolding process_block
  process_block-Sound b c chain agrees once size high short =
      let key = block_hash crypto b in
      elim (Bool-cases (is_some (lookup key c.blocks) || is_some (get key c.store.blocks))) [
        | inl known ↦ rw (known, process_block) (chain, agrees)
        | inr fresh ↦ elim (Result-cases (validate_for_process net kv c b)) [
          | inl (e, invalid) ↦ rw (fresh, process_block) (rw invalid (chain, agrees))
          | inr (done, valid) ↦
              rw (fresh, process_block)
                (rw valid (
                  weigh_block-Sound b size high c chain agrees once short
                    (none_left (lookup key c.blocks) _ fresh)
                    (none_right _ (get key c.store.blocks) fresh)))
        ]
      ]
