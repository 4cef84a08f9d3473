-- ===== src/Store/Extends.antt =====
-- storage.go: CommitBlock puts one block on the chain that the buckets stand for.
use blocknet_core.Prelude.{
  ℕ, suc, ◌+◌, ◌%◌, ◌<◌, ◌≡◌, refl, sym, ap, ◌∙◌, subst, List, [], ◌∷◌, Bytes, true, ◌&&◌, ◌||◌,
  not, ok, if◌then◌else◌, ltb, ◌==◌, ==_iff, bytes_eq, bytes_eq_iff, bytes_eq_refl, contains,
  length, All_weaken, arith, inl, inr, Bool-cases, refuse_if-eq-ok, refuse_if_ok, >>=-eq-ok,
  ok-injective,
}
use blocknet_core.Tx.Crypto.{Crypto}
use blocknet_core.Block.{Block}
use blocknet_core.Store.{
  KeyValue, Store, height_key, is_some, block_hash, mark_spent, set_main_chain_block,
  hash_by_height,
}
use blocknet_core.Store.Commit.{
  BlockCommit, save_outputs, mark_all, set_tip, put_block, check_extends, commit_main_tip,
  commit_block,
}
use blocknet_core.Store.Chains.{
  txs_spend, chain_spends, IsBranch, hash_at, tip_of, Represents, spent_in, has_in,
}
use blocknet_core.Store.Effects.{
  Keeps, keeps_trans, save_outputs-Keeps, read_tip-write_tip, height_key_eq,
}
use blocknet_core.Store.Steps.{Holds}
use blocknet_core.Store.Checks.{not-false}

module _ (c : Crypto) (kv : KeyValue) where
  open kv use {get, get-put}

  mark_all-Keeps : (h : ℕ) (ks : List Bytes) (s : Store kv) → Keeps kv s (mark_all kv h ks s)
  unfolding mark_all mark_spent
  mark_all-Keeps h [] s = (refl, (refl, refl))
  mark_all-Keeps h (k ∷ ks) s = mark_all-Keeps h ks (mark_spent kv h k s)

  mark_all-spent :
      (h : ℕ) (ks : List Bytes) (s : Store kv) (k : Bytes)
      → spent_in c kv (mark_all kv h ks s) k ≡ (contains ks k || spent_in c kv s k)
  unfolding mark_all mark_spent contains is_some
  mark_all-spent h [] s k = refl
  mark_all-spent h (x ∷ xs) s k =
      mark_all-spent h xs (mark_spent kv h x s) k
      ∙ rw get-put (elim (Bool-cases (bytes_eq x k)) [
        | inl e ↦ ground (arith, e)
        | inr e ↦ ground (arith, e)
      ])

  -- A block that CommitBlock accepts as the new tip is the next one of the chain.
  next_block :
      (commit : BlockCommit) (chain : List Block)
      → IsBranch c chain
      → length chain < 9223372036854775807
      → (commit.height == commit.block.header.height) ≡ true
      → check_extends kv (tip_of c chain) commit ≡ ok tt
      → (commit.height ≡ length chain) × IsBranch c (commit.block ∷ chain)
  unfolding check_extends tip_of
  next_block commit [] v small same e =
      let first = refuse_if_ok (not (commit.height == 0)) _ e in
      let zero_high : commit.height ≡ 0 = (==_iff _ _).0 (not-false _ first) in
      (zero_high, (sym ((==_iff _ _).0 same) ∙ zero_high, (tt, tt)))
  next_block commit (a ∷ rest) v small same e =
      let (next, e1) =
        refuse_if-eq-ok (not (commit.height == (length rest + 1) % 18446744073709551616)) _ _ e in
      let link =
        refuse_if_ok (not (bytes_eq commit.block.header.prev_hash (block_hash c a))) _ e1 in
      let high : commit.height ≡ suc (length rest) =
        omega (arith, small, (==_iff _ _).0 (not-false _ next)) in
      (high, (sym ((==_iff _ _).0 same) ∙ high, ((bytes_eq_iff _ _).0 (not-false _ link), v)))

  abbrev written : BlockCommit → Store kv → Store kv
  written commit s = mark_all kv commit.height commit.spent_key_images (
      save_outputs kv commit.new_outputs (
        set_main_chain_block kv commit.height commit.hash
          (put_block kv c commit.hash commit.block s)))

  written-Keeps :
      (commit : BlockCommit) (s : Store kv)
      → Keeps kv
          (set_main_chain_block kv commit.height commit.hash
            (put_block kv c commit.hash commit.block s))
          (written commit s)
  written-Keeps commit s =
      let first =
        set_main_chain_block kv commit.height commit.hash
          (put_block kv c commit.hash commit.block s) in
      keeps_trans kv first (save_outputs kv commit.new_outputs first) (written commit s)
        (save_outputs-Keeps kv c commit.new_outputs first).0
        (mark_all-Keeps commit.height commit.spent_key_images
          (save_outputs kv commit.new_outputs first))

  written-has :
      (commit : BlockCommit) (s : Store kv) (h : Bytes)
      → has_in c kv (written commit s) h ≡ (bytes_eq commit.hash h || has_in c kv s h)
  unfolding set_main_chain_block put_block is_some
  written-has commit s h =
      ap (λ m. is_some (get h m)) (written-Keeps commit s).1.0
      ∙ ap is_some (get-put commit.hash h commit.block s.blocks)
      ∙ ground (arith, Bool-cases (bytes_eq commit.hash h))

  written-Holds :
      (commit : BlockCommit) (s : Store kv) (chain : List Block)
      → commit.height ≡ length chain
      → length chain < 9223372036854775807
      → commit.hash ≡ block_hash c commit.block
      → ((k : Bytes) → contains commit.spent_key_images k ≡ txs_spend commit.block.transactions k)
      → Holds c kv s chain
      → Holds c kv (written commit s) (commit.block ∷ chain)
  unfolding set_main_chain_block put_block hash_by_height chain_spends hash_at is_some
  written-Holds commit s chain high small same images holds =
      let keeps = written-Keeps commit s in
      let first =
        set_main_chain_block kv commit.height commit.hash
          (put_block kv c commit.hash commit.block s) in
      record {
        heights = λ h bound.
            ap (get (height_key h)) keeps.0
            ∙ get-put (height_key commit.height) (height_key h) commit.hash s.heights
            ∙ ground (
              arith,
              height_key_eq commit.height h (omega (arith, high, small)) bound,
              high,
              same,
              holds.heights h bound,
            );
        images = λ k.
            mark_all-spent commit.height commit.spent_key_images
              (save_outputs kv commit.new_outputs first) k
            ∙ ap (λ m. contains commit.spent_key_images k || is_some (get k m))
                (save_outputs-Keeps kv c commit.new_outputs first).1
            ∙ ground (arith, images k, holds.images k);
        stored = (
          written-has commit s (block_hash c commit.block)
              ∙ ground (arith, same, bytes_eq_refl (block_hash c commit.block)),
          All_weaken _ _ chain (λ d h. written-has commit s (block_hash c d) ∙ ground (arith, h))
              holds.stored,
        );
      }

  -- On buckets that stand for a chain, a block that CommitBlock accepts as the new tip is the next block of the
  -- chain, and the buckets then stand for the chain with it on top. The commit names the key images that
  -- the block spends.
  pub commit_block_refines :
      (commit : BlockCommit) (s : Store kv) (chain : List Block) {t : Store kv}
      → Represents c kv s chain
      → length chain < 9223372036854775807
      → length commit.hash ≡ 32
      → ((k : Bytes) → contains commit.spent_key_images k ≡ txs_spend commit.block.transactions k)
      → commit.is_main_tip ≡ true
      → commit_block kv c commit s ≡ ok t
      → Represents c kv t (commit.block ∷ chain)
  unfolding commit_block commit_main_tip set_tip tip_of hash_by_height
  commit_block_refines commit s chain {t} rep small size images main e =
      let (high, e1) = refuse_if-eq-ok (not (commit.height == commit.block.header.height)) _ _ e in
      let (hashed, e2) =
        refuse_if-eq-ok (not (bytes_eq commit.hash (block_hash c commit.block))) _ _ e1 in
      let (parent, e3) = refuse_if-eq-ok (ltb 0 commit.block.header.height && _) _ _ e2 in
      let accepted : commit_main_tip kv c commit s ≡ ok t =
        subst
          (λ m.
            (if m
              then commit_main_tip kv c commit s
              else ok (put_block kv c commit.hash commit.block s))
            ≡ ok t)
          main e3 in
      let e4 = rw (rep.tip, commit_main_tip) at accepted in
      let (done, next, e5) = >>=-eq-ok (check_extends kv (tip_of c chain) commit) _ e4 in
      let (level, branch) = next_block commit chain rep.branch small (not-false _ high) next in
      let same : commit.hash ≡ block_hash c commit.block =
        (bytes_eq_iff _ _).0 (not-false _ hashed) in
      subst (λ u. Represents c kv u (commit.block ∷ chain)) (ok-injective e5)
        (record {
          branch = branch;
          short = omega (arith, small);
          tip =
              read_tip-write_tip kv commit.hash commit.height commit.work (written commit s).meta
                size (omega (arith, level, small))
              ∙ cc (same, level);
          indexes = written-Holds commit s chain level small same images rep.indexes;
        })
