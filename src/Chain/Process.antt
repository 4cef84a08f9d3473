-- ===== src/Chain/Process.antt =====
-- block.go: ProcessBlock, validateBlockForProcessLocked and reorganizeTo.
use blocknet_core.Prelude.{
  ℕ, zero, suc, ◌-◌, List, [], ◌∷◌, Bytes, Bool, true, false, ◌&&◌, ◌||◌, not, none, some, Result,
  ok, err, ◌>>=◌, ◌>>◌, refuse_if, if◌then◌else◌, ltb, leb, ◌==◌, bytes_eq,
}
use blocknet_core.Prelude.Maps.{lookup, insert, delete}
use blocknet_core.Block.{Block}
use blocknet_core.Block.Forks.{
  ForkError, add_cumulative_work, find_common_ancestor, collect_connect_path, enforce_finality,
}
use blocknet_core.Block.Validate.{Network}
use blocknet_core.Block.Validate.Context.{validate_with_context}
use blocknet_core.Store.{KeyValue, is_some, block_hash, save_block}
use blocknet_core.Store.Commit.{commit_reorg}
use blocknet_core.Chain.{
  Chain, ChainError, Works, set_height, clear_height, push_timestamp, set_images, unset_images,
  get_block, get_block_by_height, image_spent, cumulative_work_at,
}
use blocknet_core.Chain.Spent.{branch_spent, is_ring_member}

abbrev pub Outcome : KeyValue → Type 0 → Type 0
Outcome kv A = Chain kv × Result ChainError A

unfoldable pub or_fork {ℓ} : {A : Type ℓ} → Result ForkError A → Result ChainError A
or_fork (ok a) = ok a
or_fork (err e) = err (ChainError.fork e)

module _ (net : Network) (kv : KeyValue) where
  open net use {crypto}

  -- shouldSkipPoWLocked
  unfoldable pub should_skip_pow : Chain kv → ℕ → Bool → Bool
  should_skip_pow c height extends_tip =
      extends_tip
      && is_some c.trusted_checkpoints
      && not (c.fast_sync_until == 0)
      && ltb c.height c.fast_sync_until
      && ltb 0 height
      && leb height c.fast_sync_until

  -- The checkpoint at the height of the block.
  unfoldable pub check_checkpoint : Chain kv → Block → Result ChainError (Unit {0})
  check_checkpoint c b = elim c.trusted_checkpoints [
    | none ↦ ok tt
    | some checkpoints ↦
        if ltb 0 c.fast_sync_until
          && ltb c.height c.fast_sync_until
          && leb b.header.height c.fast_sync_until
        then elim (checkpoints b.header.height) [
          | none ↦ ok tt
          | some want ↦
              refuse_if (not (bytes_eq (block_hash crypto b) want))
                (ChainError.checkpoint_mismatch b.header.height)
        ]
        else ok tt
  ]

  unfoldable pub spent_checker : Chain kv → Block → Result ChainError (Bytes → Bool)
  spent_checker c b =
      if ltb 0 b.header.height then branch_spent kv c b.header.prev_hash else ok (image_spent kv c)

  -- validateBlockForProcessLocked
  unfoldable pub validate_for_process : Chain kv → Block → Result ChainError (Unit {0})
  validate_for_process c b = do
    spent ← spent_checker c b
    check_checkpoint c b
    elim (validate_with_context net
        (record {
          best_hash = c.best_hash;
          tip_height = c.height;
          get_parent = get_block kv c;
          is_spent = spent;
          checker = some (is_ring_member kv c);
        })
        (should_skip_pow c b.header.height (bytes_eq b.header.prev_hash c.best_hash)) b) [
          | err e ↦ err (ChainError.invalid e)
          | ok done ↦ ok tt
        ]

  -- The memory after a block is put on the tip.
  unfoldable pub note_extension : Bytes → Block → ℕ → Chain kv → Chain kv
  note_extension tip b work c = record c {
    best_hash = tip;
    height = b.header.height;
    total_work = work;
    by_height = set_height b.header.height tip c.by_height;
    timestamps = push_timestamp b.header.timestamp c.timestamps;
    key_images = set_images b.header.height b.transactions c.key_images;
    ring_index_dirty = true;
  }

  unfoldable pub forget_blocks : List Block → Chain kv → Chain kv
  forget_blocks [] c = c
  forget_blocks (b ∷ bs) c = forget_blocks bs (record c {
    by_height = clear_height b.header.height c.by_height;
    key_images = unset_images b.transactions c.key_images;
  })

  unfoldable pub note_blocks : List Block → Chain kv → Chain kv
  note_blocks [] c = c
  note_blocks (b ∷ bs) c = note_blocks bs (record c {
    by_height = set_height b.header.height (block_hash crypto b) c.by_height;
    timestamps = push_timestamp b.header.timestamp c.timestamps;
    key_images = set_images b.header.height b.transactions c.key_images;
  })

  unfoldable pub note_reorg : List Block → List Block → Bytes → Block → ℕ → Chain kv → Chain kv
  note_reorg disconnect connect tip b work c =
      record (note_blocks connect (forget_blocks disconnect c)) {
        best_hash = tip;
        height = b.header.height;
        total_work = work;
        ring_index_dirty = true;
      }

  -- The commit of a reorganization and what follows it: `note` is told the work of the new tip.
  unfoldable pub commit_to :
      Bytes
      → Block
      → List Block
      → List Block
      → (ℕ → Chain kv → Chain kv)
      → Chain kv
      → Outcome kv (Unit {0})
  commit_to tip b disconnect connect note c =
      let works = cumulative_work_at (get_block kv c) tip c.work_at in
      elim works.1 [
        | err e ↦ (record c { work_at = works.0 }, err e)
        | ok work ↦
            elim (commit_reorg kv crypto
              (record {
                disconnect = disconnect;
                connect = connect;
                new_tip = tip;
                new_height = b.header.height;
                new_work = work;
              })
              c.store) [
                | err e ↦ (record c { work_at = works.0 }, err (ChainError.storage e))
                | ok store ↦ (note work (record c { work_at = works.0; store = store }), ok tt)
              ]
      ]

  -- The blocks of the main chain above the common one, from n blocks below height on, on fuel.
  unfoldable pub disconnect_loop : ℕ → Chain kv → ℕ → Result ChainError (List Block)
  disconnect_loop zero c h = ok []
  disconnect_loop (suc n) c h = elim (get_block_by_height kv c h) [
    | none ↦ err ChainError.incomplete_chain
    | some b ↦ elim (disconnect_loop n c (h - 1)) [ err e ↦ err e | ok bs ↦ ok (b ∷ bs) ]
  ]

  -- What the slow path of reorganizeTo disconnects and connects.
  unfoldable pub plan_reorg : Bytes → Chain kv → Result ChainError (List Block × List Block)
  plan_reorg tip c = do
    or_fork (enforce_finality (get_block kv c) c.height c.best_hash tip)
    common ← or_fork (find_common_ancestor (get_block kv c) c.best_hash tip)
    disconnect ← disconnect_loop (c.height - common.1) c c.height
    connect ← or_fork (collect_connect_path (get_block kv c) common.0 tip)
    ok (disconnect, connect)

  -- reorganizeTo
  unfoldable pub reorganize_to : Bytes → Chain kv → Outcome kv (Unit {0})
  reorganize_to tip c = elim (get_block kv c tip) [
    | none ↦ (c, err ChainError.tip_not_found)
    | some b ↦ elim (bytes_eq b.header.prev_hash c.best_hash) [
      | true ↦ commit_to tip b [] (b ∷ []) (note_extension tip b) c
      | false ↦ elim (plan_reorg tip c) [
        | err e ↦ (c, err e)
        | ok plan ↦ commit_to tip b plan.0 plan.1 (note_reorg plan.0 plan.1 tip b) c
      ]
    ]
  ]

  -- cacheForgetLocked
  unfoldable pub forget : Bytes → Chain kv → Chain kv
  forget h c = record c { blocks = delete h c.blocks; work_at = delete h c.work_at }

  unfoldable pub after_reorg : Bytes → Outcome kv (Unit {0}) → Outcome kv (Bool × Bool)
  after_reorg h (c, err e) = (forget h c, err (ChainError.reorg_failed e))
  after_reorg h (c, ok done) = (c, ok (true, true))

  -- ProcessBlock from where the work of the block is known.
  unfoldable pub place_block : Bytes → Block → ℕ → Chain kv → Outcome kv (Bool × Bool)
  place_block h b work c =
      let held = record c { blocks = insert h b c.blocks; work_at = insert h work c.work_at } in
      elim (ltb c.total_work work) [
        | true ↦ after_reorg h (reorganize_to h held)
        | false ↦ elim (save_block kv crypto b c.store) [
          | err e ↦ (held, err (ChainError.storage e))
          | ok store ↦ (record held { store = store }, ok (true, false))
        ]
      ]

  unfoldable pub parent_work : Block → Chain kv → Works
  parent_work b c =
      if ltb 0 b.header.height
      then cumulative_work_at (get_block kv c) b.header.prev_hash c.work_at
      else (c.work_at, ok 0)

  unfoldable pub weigh_block : Bytes → Block → Chain kv → Outcome kv (Bool × Bool)
  weigh_block h b c =
      let works = parent_work b c in
      let c' = record c { work_at = works.0 } in
      elim works.1 [
        | err e ↦ (c', err e)
        | ok parent ↦ elim (add_cumulative_work parent b.header.difficulty) [
          | none ↦ (c', err ChainError.work_overflow)
          | some work ↦ place_block h b work c'
        ]
      ]

  -- ProcessBlock: whether the block was accepted, and whether it is on the main chain.
  unfoldable pub process_block : Block → Chain kv → Outcome kv (Bool × Bool)
  process_block b c =
      let h = block_hash crypto b in
      elim (is_some (lookup h c.blocks) || is_some (kv.get h c.store.blocks)) [
        | true ↦ (c, ok (false, false))
        | false ↦ elim (validate_for_process c b) [
          | err e ↦ (c, err e)
          | ok done ↦ weigh_block h b c
        ]
      ]
