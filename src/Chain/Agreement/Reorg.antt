-- ===== src/Chain/Agreement/Reorg.antt =====
-- block.go: reorganizeTo takes a state that stands for a chain to one that stands for the new chain.
use blocknet_core.Prelude.{
  ℕ, ◌+◌, ◌-◌, ◌≤◌, ◌<◌, ◌≡◌, refl, sym, ap, ◌∙◌, subst, List, [], ◌∷◌, ◌++◌, Bytes, some, Result,
  ok, err, length, bytes_eq, Bool-cases, Option-cases, Result-cases, inl, inr, some_eq,
  ok-injective, >>=-eq-ok, arith, All_weaken, All-append_right,
}
use blocknet_core.Prelude.Maps.{lookup}
use blocknet_core.Block.{Block}
use blocknet_core.Block.Validate.{Network}
use blocknet_core.Block.Forks.{
  ForkError, find_common_ancestor, collect_connect_path, enforce_finality,
}
use blocknet_core.Block.Forks.Connect.{collect_connect_path-Connects}
use blocknet_core.Store.{KeyValue, Store, block_hash}
use blocknet_core.Store.Commit.{
  ReorgCommit, commit_reorg, set_tip, disconnect_blocks, connect_blocks,
}
use blocknet_core.Store.Chains.{SpendsOnce, extend, Represents, tip_of}
use blocknet_core.Store.Effects.{disconnect_blocks-blocks}
use blocknet_core.Store.Completes.{tip_height}
use blocknet_core.Store.Refines.{commit_reorg_parts}
use blocknet_core.Chain.{Chain, ChainError, get_block, cumulative_work_at}
use blocknet_core.Chain.Process.{
  note_extension, note_reorg, note_blocks, forget_blocks, commit_to, or_fork, disconnect_loop,
  plan_reorg, reorganize_to,
}
use blocknet_core.Chain.Agreement.{Kept, Agrees}
use blocknet_core.Chain.Agreement.Memory.{forget_blocks-Within, note_blocks-Within}
use blocknet_core.Chain.Agreement.Blocks.{
  Part, Known, connect_blocks-Kept, Kept-NoCollision, disconnect_loop-Kept, Connects-Known,
  collect_connect_path-length,
}

module _ (net : Network) (kv : KeyValue) where
  open net use {crypto}

  -- The memory's indices change, its blocks and the database do not.
  note_blocks-store :
      (bs : List Block) (c : Chain kv)
      → ((note_blocks net kv bs c).store ≡ c.store) × ((note_blocks net kv bs c).blocks ≡ c.blocks)
  unfolding note_blocks
  note_blocks-store [] c = (refl, refl)
  note_blocks-store (b ∷ bs) c = note_blocks-store bs _

  forget_blocks-store :
      (bs : List Block) (c : Chain kv)
      → ((forget_blocks net kv bs c).store ≡ c.store)
        × ((forget_blocks net kv bs c).blocks ≡ c.blocks)
  unfolding forget_blocks
  forget_blocks-store [] c = (refl, refl)
  forget_blocks-store (b ∷ bs) c = forget_blocks-store bs _

  -- A state with the memory's blocks of another and a database that holds more of the known blocks.
  known_after :
      (c d : Chain kv)
      → d.blocks ≡ c.blocks
      → Part crypto kv (get_block kv c) d.store
      → (h : Bytes) (x : Block) → kv.get h d.store.blocks ≡ some x
      → get_block kv d h ≡ some x
  unfolding get_block
  known_after c d same part h x e = elim (Option-cases (lookup h c.blocks)) [
    | inl lost ↦ rw (get_block, same) (rw lost e)
    | inr (b, held) ↦
        let one : b ≡ x = some_eq (rw (held, get_block) at (part h x e)) in
        rw (get_block, same) (rw held (ap some one))
  ]

  keyed_after :
      (c d : Chain kv)
      → d.blocks ≡ c.blocks
      → Part crypto kv (get_block kv c) d.store
      → ((h : Bytes) (b : Block) → get_block kv c h ≡ some b → block_hash crypto b ≡ h)
      → (h : Bytes) (b : Block) → get_block kv d h ≡ some b
      → block_hash crypto b ≡ h
  unfolding get_block
  keyed_after c d same part keyed h b e = elim (Option-cases (lookup h c.blocks)) [
    | inl lost ↦ keyed h b (part h b (rw lost at (rw (get_block, same) at e)))
    | inr (x, held) ↦
        let one : x ≡ b = some_eq (rw held at (rw (get_block, same) at e)) in
        keyed h b (rw (get_block, held) (ap some one))
  ]

  note_reorg-Agrees :
      (c : Chain kv) (ds bs tail : List Block) (tip : Bytes) (b : Block) (work : ℕ)
      (works : List (Bytes × ℕ)) (store : Store kv)
      → Agrees crypto kv c (ds ++ tail)
      → Known crypto kv (get_block kv c) bs
      → Represents crypto kv store (extend bs tail)
      → tip_of crypto (extend bs tail) ≡ some (tip, b.header.height)
      → set_tip kv tip b.header.height work
          (connect_blocks kv crypto bs (disconnect_blocks kv crypto ds c.store))
        ≡ store
      → Agrees crypto kv
          (note_reorg net kv ds bs tip b work (record c { work_at = works; store = store }))
          (extend bs tail)
  unfolding note_reorg set_tip
  note_reorg-Agrees c ds bs tail tip b work works store agrees known represents top written =
      let loaded : Chain kv = record c { work_at = works; store = store } in
      let left = forget_blocks net kv ds loaded in
      let disconnected = disconnect_blocks kv crypto ds c.store in
      let same = (disconnect_blocks-blocks kv crypto ds c.store).0 in
      let (part, kept) =
        connect_blocks-Kept crypto kv (get_block kv c) bs tail disconnected known
          (λ h x e. agrees.one_block h x (ap (kv.get h) (sym same) ∙ e))
          (All_weaken _ _ tail (λ d e. ap (kv.get (block_hash crypto d)) same ∙ e)
            (All-append_right _ ds tail agrees.kept)) in
      let stored = ap (λ (s : Store kv). s.blocks) written in
      let store_same = (note_blocks-store bs left).0 ∙ (forget_blocks-store ds loaded).0 in
      let blocks_same = (note_blocks-store bs left).1 ∙ (forget_blocks-store ds loaded).1 in
      let d = note_reorg net kv ds bs tip b work loaded in
      let put : d.store.blocks ≡ (connect_blocks kv crypto bs disconnected).blocks =
        ap (λ (s : Store kv). s.blocks) store_same ∙ sym stored in
      let part_d : Part crypto kv (get_block kv c) d.store =
        λ h x e. part h x (ap (kv.get h) (sym put) ∙ e) in
      record {
        represents =
            subst (λ (s : Store kv). Represents crypto kv s (extend bs tail)) (sym store_same)
              represents;
        tip = top;
        kept =
            All_weaken _ _ (extend bs tail) (λ x e. ap (kv.get (block_hash crypto x)) put ∙ e) kept;
        keyed = keyed_after c d blocks_same part_d agrees.keyed;
        one_block = known_after c d blocks_same part_d;
        within =
            note_blocks-Within net kv bs tail left represents.branch
              (forget_blocks-Within net kv ds tail loaded agrees.represents.branch agrees.within);
      }

  -- The states that commit_to returns without an error.
  commit_to-Agrees :
      (c : Chain kv) (chain ds bs : List Block) (tip : Bytes) (b : Block)
      (note : ℕ → Chain kv → Chain kv) {d : Chain kv}
      → Agrees crypto kv c chain
      → SpendsOnce chain
      → Kept crypto kv c.store ds
      → Known crypto kv (get_block kv c) bs
      → ((work : ℕ) (e : Chain kv) → note_reorg net kv ds bs tip b work e ≡ note work e)
      → length tip ≡ 32
      → length ds < 9223372036854775808
      → length chain + length bs < 9223372036854775808
      → commit_to net kv tip b ds bs note c ≡ (d, ok tt)
      → (tail : List Block) × (chain ≡ ds ++ tail)
        × (Agrees crypto kv d (extend bs tail)
            × (tip_of crypto (extend bs tail) ≡ some (tip, b.header.height)))
  unfolding commit_to
  commit_to-Agrees c chain ds bs tip b note {d} agrees once kept known noted size slice small e =
      let works = cumulative_work_at (get_block kv c) tip c.work_at in
      elim (Result-cases works.1) [
        | inl (x, failed) ↦ absurd (cc (rw (failed, commit_to) at e))
        | inr (work, found) ↦
            let r : ReorgCommit = record {
              disconnect = ds;
              connect = bs;
              new_tip = tip;
              new_height = b.header.height;
              new_work = work;
            } in
            let e1 = rw (found, commit_to) at e in
            elim (Result-cases (commit_reorg kv crypto r c.store)) [
              | inl (x, refused) ↦ absurd (cc (rw refused at e1))
              | inr (store, written) ↦
                  let after : note work (record c { work_at = works.0; store = store }) ≡ d =
                    ap (λ (p : Chain kv × Result ChainError (Unit {0})). p.0) (rw written at e1) in
                  let (top, below, cut, (represents, (reached, put))) =
                    commit_reorg_parts crypto kv r c.store chain agrees.represents once
                      (Kept-NoCollision crypto kv c.store ds chain kept agrees.kept) size slice
                      small written in
                  (
                    top ∷ below,
                    cut,
                    (
                      subst (λ (x : Chain kv). Agrees crypto kv x (extend bs (top ∷ below)))
                          (noted work (record c { work_at = works.0; store = store }) ∙ after)
                          (note_reorg-Agrees c ds bs (top ∷ below) tip b work works.0 store
                            (subst (Agrees crypto kv c) cut agrees) known represents reached put),
                      reached,
                    ),
                  )
            ]
      ]

  or_fork_ok : {A : Type 0} (r : Result ForkError A) {a : A} → or_fork r ≡ ok a → r ≡ ok a
  unfolding or_fork
  or_fork_ok (ok x) e = ap ok (ok-injective e)
  or_fork_ok (err x) e = absurd (cc e)

  plan_reorg_sound :
      (c : Chain kv) (chain : List Block) (tip : Bytes) (b : Block) {plan : List Block × List Block}
      → Agrees crypto kv c chain
      → get_block kv c tip ≡ some b
      → plan_reorg net kv tip c ≡ ok plan
      → Kept crypto kv c.store plan.0
        × (Known crypto kv (get_block kv c) plan.1
            × ((length plan.0 ≤ c.height) × (length plan.1 ≤ b.header.height + 2)))
  unfolding plan_reorg or_fork
  plan_reorg_sound c chain tip b {plan} agrees there e =
      let (done, final, e1) =
        >>=-eq-ok (or_fork (enforce_finality (get_block kv c) c.height c.best_hash tip)) _ e in
      let (common, meets, e2) =
        >>=-eq-ok (or_fork (find_common_ancestor (get_block kv c) c.best_hash tip)) _ e1 in
      let (ds, lost, e3) =
        >>=-eq-ok (disconnect_loop net kv (c.height - common.1) c c.height) _ e2 in
      let (bs, gained, e4) =
        >>=-eq-ok (or_fork (collect_connect_path (get_block kv c) common.0 tip)) _ e3 in
      let path : collect_connect_path (get_block kv c) common.0 tip ≡ ok bs = or_fork_ok _ gained in
      let (kept, size) =
        disconnect_loop-Kept crypto kv c chain agrees net (c.height - common.1) c.height lost in
      subst
        (λ (p : List Block × List Block).
          Kept crypto kv c.store p.0
          × (Known crypto kv (get_block kv c) p.1
              × ((length p.0 ≤ c.height) × (length p.1 ≤ b.header.height + 2))))
        (ok-injective e4)
        (
          kept,
          (
            Connects-Known crypto kv c chain agrees common.0 tip bs
                (collect_connect_path-Connects (get_block kv c) common.0 tip path),
            (
              omega (arith, size),
              collect_connect_path-length (get_block kv c) common.0 tip b there path,
            ),
          ),
        )

  height_bound :
      (c : Chain kv) (chain : List Block) → Agrees crypto kv c chain → c.height ≤ length chain
  height_bound c chain agrees = omega (arith, tip_height crypto kv chain agrees.tip)

  -- On a state whose memory and database stand for one chain, in which no key image is spent twice, a reorganizeTo that
  -- succeeds leaves a state whose memory and database stand for one chain again: the new tip is its newest
  -- block and the rest shares its lower part with the old chain. The heights are below 2 ^ 61.
  pub reorganize_to-Agrees :
      (tip : Bytes) (b : Block) (c : Chain kv) (chain : List Block) {d : Chain kv}
      → Agrees crypto kv c chain
      → SpendsOnce chain
      → get_block kv c tip ≡ some b
      → length tip ≡ 32
      → b.header.height < 2305843009213693952
      → length chain < 2305843009213693952
      → reorganize_to net kv tip c ≡ (d, ok tt)
      → (gone : List Block) × (added : List Block) × (kept : List Block) × (chain ≡ gone ++ kept)
        × (Agrees crypto kv d (extend added kept)
            × (tip_of crypto (extend added kept) ≡ some (tip, b.header.height)))
  unfolding reorganize_to note_extension note_reorg note_blocks forget_blocks
  reorganize_to-Agrees tip b c chain {d} agrees once there size high short e =
      let named : block_hash crypto b ≡ tip = agrees.keyed tip b there in
      let e1 = rw (there, reorganize_to) at e in
      elim (Bool-cases (bytes_eq b.header.prev_hash c.best_hash)) [
        | inl extends ↦
            let (tail, cut, more) =
              commit_to-Agrees c chain [] (b ∷ []) tip b (note_extension net kv tip b) agrees once
                tt (subst (λ h. get_block kv c h ≡ some b) (sym named) there, tt)
                (λ work x.
                  subst
                    (λ t.
                      note_reorg net kv [] (b ∷ []) t b work x ≡ note_extension net kv t b work x)
                    named refl)
                size (omega arith) (omega (arith, short)) (rw extends at e1) in
            ([], b ∷ [], tail, cut, more)
        | inr forks ↦ elim (Result-cases (plan_reorg net kv tip c)) [
          | inl (x, failed) ↦ absurd (cc (rw (forks, failed) at e1))
          | inr (plan, found) ↦
              let (kept, (known, (less, few))) =
                plan_reorg_sound c chain tip b agrees there found in
              let (tail, cut, more) =
                commit_to-Agrees c chain plan.0 plan.1 tip b (note_reorg net kv plan.0 plan.1 tip b)
                  agrees once kept known (λ work x. refl) size
                  (omega (arith, less, height_bound c chain agrees, short))
                  (omega (arith, few, high, short)) (rw (forks, found) at e1) in
              (plan.0, plan.1, tail, cut, more)
        ]
      ]
