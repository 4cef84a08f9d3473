-- ===== src/Chain/Choice.antt =====
-- block.go: what ProcessBlock does to the main chain, branch by branch.
use blocknet_core.Prelude.{
  ℕ, zero, suc, ◌+◌, ◌<◌, ◌≡◌, refl, sym, ap, ◌∙◌, subst, List, [], ◌∷◌, Bytes, Bool, true, false,
  ◌||◌, ◌&&◌, not, Option, some, ok, err, ltb, ltb→lt, bytes_eq, bytes_eq_refl, Bool-cases,
  Option-cases, Result-cases, ok-injective, inl, inr, arith, refuse_if-eq-ok,
}
use blocknet_core.Prelude.Maps.{lookup, insert, delete, lookup-insert}
use blocknet_core.Block.{Block}
use blocknet_core.Block.Forks.{add_cumulative_work}
use blocknet_core.Block.Validate.{Network}
use blocknet_core.Store.{KeyValue, is_some, block_hash, save_block}
use blocknet_core.Store.Commit.{commit_reorg}
use blocknet_core.Chain.{Chain, get_block, cumulative_work, cumulative_work_at}
use blocknet_core.Chain.Process.{
  Outcome, note_extension, note_reorg, commit_to, plan_reorg, reorganize_to, forget, after_reorg,
  place_block, parent_work, weigh_block, validate_for_process, process_block,
}

module _ (kv : KeyValue) where
  -- Two states with the same main chain, in memory and in the database: the database differs at most in
  -- the blocks that it keeps, the memory in its caches.
  pub record SameMain (c d : Chain kv) : Type 0 where
    pub best_hash : d.best_hash ≡ c.best_hash
    pub height : d.height ≡ c.height
    pub total_work : d.total_work ≡ c.total_work
    pub by_height : d.by_height ≡ c.by_height
    pub timestamps : d.timestamps ≡ c.timestamps
    pub key_images : d.key_images ≡ c.key_images
    pub stored_heights : d.store.heights ≡ c.store.heights
    pub stored_images : d.store.key_images ≡ c.store.key_images
    pub stored_outputs : d.store.outputs ≡ c.store.outputs
    pub stored_tip : d.store.meta ≡ c.store.meta

  abbrev pub same_main : (c : Chain kv) → SameMain c c
  same_main c = record {
    best_hash = refl;
    height = refl;
    total_work = refl;
    by_height = refl;
    timestamps = refl;
    key_images = refl;
    stored_heights = refl;
    stored_images = refl;
    stored_outputs = refl;
    stored_tip = refl;
  }

  -- States that differ in their caches only.
  abbrev pub Caches : Chain kv → Chain kv → Type 0
  Caches c d =
      (blocks : List (Bytes × Block)) × (known : List (Bytes × ℕ)) × (d
        ≡ record c { blocks = blocks; work_at = known })

  pub Caches-SameMain : (c d : Chain kv) → Caches c d → SameMain c d
  Caches-SameMain c d (blocks, known, e) = subst (SameMain c) (sym e) (record {
    best_hash = refl;
    height = refl;
    total_work = refl;
    by_height = refl;
    timestamps = refl;
    key_images = refl;
    stored_heights = refl;
    stored_images = refl;
    stored_outputs = refl;
    stored_tip = refl;
  })

  SameMain_trans : (c d e : Chain kv) → SameMain c d → SameMain d e → SameMain c e
  SameMain_trans c d e p q = record {
    best_hash = q.best_hash ∙ p.best_hash;
    height = q.height ∙ p.height;
    total_work = q.total_work ∙ p.total_work;
    by_height = q.by_height ∙ p.by_height;
    timestamps = q.timestamps ∙ p.timestamps;
    key_images = q.key_images ∙ p.key_images;
    stored_heights = q.stored_heights ∙ p.stored_heights;
    stored_images = q.stored_images ∙ p.stored_images;
    stored_outputs = q.stored_outputs ∙ p.stored_outputs;
    stored_tip = q.stored_tip ∙ p.stored_tip;
  }

  module _ (net : Network) where
    -- Either the call fails and changes the caches only, or the work of the chain is that of the new tip.
    abbrev pub Moves : Bytes → Chain kv → Outcome kv (Unit {0}) → Type 0
    Moves tip c (d, err e) = (known : List (Bytes × ℕ)) × (d ≡ record c { work_at = known })
    Moves tip c (d, ok done) =
        (cumulative_work_at (get_block kv c) tip c.work_at).1 ≡ ok d.total_work

    commit_to-Moves :
        (tip : Bytes) (b : Block) (disconnect connect : List Block) (note : ℕ → Chain kv → Chain kv)
        (c : Chain kv)
        → ((work : ℕ) (d : Chain kv) → (note work d).total_work ≡ work)
        → Moves tip c (commit_to net kv tip b disconnect connect note c)
    unfolding commit_to
    commit_to-Moves tip b disconnect connect note c noted =
        let works = cumulative_work_at (get_block kv c) tip c.work_at in
        elim (Result-cases works.1) [
          | inl (e, failed) ↦ rw (failed, commit_to) (works.0, refl)
          | inr (work, found) ↦
              elim (Result-cases (
                commit_reorg kv net.crypto
                  (record {
                    disconnect = disconnect;
                    connect = connect;
                    new_tip = tip;
                    new_height = b.header.height;
                    new_work = work;
                  })
                  c.store)) [
                    | inl (e, refused) ↦ rw (found, commit_to) (rw refused (works.0, refl))
                    | inr (store, written) ↦
                        rw (found, commit_to)
                          (rw written (
                            found
                            ∙ ap ok
                                (sym (noted work (record c { work_at = works.0; store = store })))))
                  ]
        ]

    pub reorganize_to-Moves :
        (tip : Bytes) (c : Chain kv) → Moves tip c (reorganize_to net kv tip c)
    unfolding reorganize_to note_extension note_reorg
    reorganize_to-Moves tip c = elim (Option-cases (get_block kv c tip)) [
      | inl none_there ↦ rw (none_there, reorganize_to) (c.work_at, refl)
      | inr (b, there) ↦ elim (Bool-cases (bytes_eq b.header.prev_hash c.best_hash)) [
        | inl extends ↦
            rw (there, reorganize_to)
              (rw extends (
                commit_to-Moves tip b [] (b ∷ []) (note_extension net kv tip b) c (λ work d. refl)))
        | inr forks ↦ elim (Result-cases (plan_reorg net kv tip c)) [
          | inl (e, failed) ↦ rw (there, reorganize_to) (rw (forks, failed) (c.work_at, refl))
          | inr (plan, found) ↦
              rw (there, reorganize_to)
                (rw (forks, found)
                  (commit_to-Moves tip b plan.0 plan.1 (note_reorg net kv plan.0 plan.1 tip b) c
                    (λ work d. refl)))
        ]
      ]
    ]

    -- The new tip is heavier than the old one, or nothing of the main chain changed.
    abbrev pub Chosen : Chain kv → Outcome kv (Bool × Bool) → Type 0
    Chosen c (d, err e) = SameMain c d
    Chosen c (d, ok (accepted, true)) = (accepted ≡ true) × (c.total_work < d.total_work)
    Chosen c (d, ok (accepted, false)) = SameMain c d

    known_work :
        (get : Bytes → Option Block) (n : ℕ) (h : Bytes) (work : ℕ) (known : List (Bytes × ℕ))
        → 0 < n
        → lookup h known ≡ some work
        → (cumulative_work get n h known).1 ≡ ok work
    unfolding cumulative_work
    known_work get zero h work known some_fuel e = absurd (omega (arith, some_fuel))
    known_work get (suc n) h work known some_fuel e = rw (e, cumulative_work) refl

    -- The work of a block that the memory holds is the one noted for it.
    pub noted_work :
        (get : Bytes → Option Block) (h : Bytes) (work : ℕ) (known : List (Bytes × ℕ))
        → lookup h known ≡ some work
        → (cumulative_work_at get h known).1 ≡ ok work
    unfolding cumulative_work_at
    noted_work get h work known e = elim (Option-cases (get h)) [
      | inl g ↦ rw (g, cumulative_work_at) (known_work get 1 h work known (omega arith) e)
      | inr (b, g) ↦
          rw (g, cumulative_work_at)
            (known_work get (b.header.height + 1) h work known (omega arith) e)
    ]

    after_reorg-Chosen :
        (h : Bytes) (work : ℕ) (c held : Chain kv) (r : Outcome kv (Unit {0}))
        → SameMain c held
        → c.total_work < work
        → (cumulative_work_at (get_block kv held) h held.work_at).1 ≡ ok work
        → Moves h held r
        → Chosen c (after_reorg net kv h r)
    unfolding after_reorg forget
    after_reorg-Chosen h work c held (d, err e) same heavier known (works, moved) =
        SameMain_trans c held (forget net kv h d) same (
          Caches-SameMain held (forget net kv h d)
            (delete h d.blocks, delete h d.work_at, rw moved refl))
    after_reorg-Chosen h work c held (d, ok done) same heavier known moved =
        let reached : work ≡ d.total_work = ok-injective (sym known ∙ moved) in
        (refl, omega (arith, heavier, reached))

    place_block-Chosen :
        (h : Bytes) (b : Block) (work : ℕ) (c : Chain kv) → Chosen c (place_block net kv h b work c)
    unfolding place_block save_block
    place_block-Chosen h b work c =
        let held = record c { blocks = insert h b c.blocks; work_at = insert h work c.work_at } in
        let same : SameMain c held =
          Caches-SameMain c held (insert h b c.blocks, insert h work c.work_at, refl) in
        elim (Bool-cases (ltb c.total_work work)) [
          | inl heavier ↦
              rw (heavier, place_block)
                (after_reorg-Chosen h work c held (reorganize_to net kv h held) same
                  (ltb→lt c.total_work work heavier)
                  (noted_work (get_block kv held) h work held.work_at
                    (lookup-insert h h work c.work_at ∙ ground (arith, bytes_eq_refl h)))
                  (reorganize_to-Moves h held))
          | inr lighter ↦ elim (Result-cases (save_block kv net.crypto b c.store)) [
            | inl (e, refused) ↦ rw (lighter, place_block) (rw refused same)
            | inr (store, saved) ↦
                rw (lighter, place_block)
                  (rw saved (
                    let (orphan, put_there) =
                      refuse_if-eq-ok
                        (ltb 0 b.header.height
                          && not (is_some (kv.get b.header.prev_hash c.store.blocks)))
                        _ _ saved in
                    subst (λ s. SameMain c (record held { store = s })) (ok-injective put_there)
                      (record {
                        best_hash = refl;
                        height = refl;
                        total_work = refl;
                        by_height = refl;
                        timestamps = refl;
                        key_images = refl;
                        stored_heights = refl;
                        stored_images = refl;
                        stored_outputs = refl;
                        stored_tip = refl;
                      })))
          ]
        ]

    Chosen-trans :
        (c d : Chain kv) (r : Outcome kv (Bool × Bool)) → SameMain c d → Chosen d r → Chosen c r
    Chosen-trans c d (e, err x) same q = SameMain_trans c d e same q
    Chosen-trans c d (e, ok (accepted, true)) same q = (q.0, omega (arith, q.1, same.total_work))
    Chosen-trans c d (e, ok (accepted, false)) same q = SameMain_trans c d e same q

    weigh_block-Chosen :
        (h : Bytes) (b : Block) (c : Chain kv) → Chosen c (weigh_block net kv h b c)
    unfolding weigh_block
    weigh_block-Chosen h b c =
        let works = parent_work net kv b c in
        let c' = record c { work_at = works.0 } in
        let same : SameMain c c' = Caches-SameMain c c' (c.blocks, works.0, refl) in
        elim (Result-cases works.1) [
          | inl (e, failed) ↦ rw (failed, weigh_block) same
          | inr (parent, found) ↦
              elim (Option-cases (add_cumulative_work parent b.header.difficulty)) [
                | inl overflow ↦ rw (found, weigh_block) (rw overflow same)
                | inr (work, sum) ↦
                    rw (found, weigh_block)
                      (rw sum (
                        Chosen-trans c c' (place_block net kv h b work c') same
                          (place_block-Chosen h b work c')))
              ]
        ]

    -- Where ProcessBlock reports that the main chain has changed, its tip has more cumulative work. In
    -- every other case, with an error or without, the main chain stays as it is: the best block, the height and
    -- the work, the indices and timestamps in memory, and the heights, key images, outputs and tip in the
    -- database. Where the report says that the block is now on the main chain, it also says that it is
    -- accepted.
    pub process_block-Chosen : (b : Block) (c : Chain kv) → Chosen c (process_block net kv b c)
    unfolding process_block
    process_block-Chosen b c =
        let h = block_hash net.crypto b in
        elim (Bool-cases (is_some (lookup h c.blocks) || is_some (kv.get h c.store.blocks))) [
          | inl known ↦ rw (known, process_block) (same_main c)
          | inr fresh ↦ elim (Result-cases (validate_for_process net kv c b)) [
            | inl (e, invalid) ↦ rw (fresh, process_block) (rw invalid (same_main c))
            | inr (done, valid) ↦ rw (fresh, process_block) (rw valid (weigh_block-Chosen h b c))
          ]
        ]
