-- ===== src/Store/Refines.antt =====
-- storage.go: CommitReorg on the buckets is a reorganization of the chain they stand for.
use blocknet_core.Prelude.{
  ℕ, suc, ◌+◌, ◌%◌, ◌<◌, ◌≤◌, ◌≡◌, refl, sym, ap, ◌∙◌, subst, List, [], ◌∷◌, ◌++◌, Bytes, true,
  false, not, none, some, ok, refuse_if, ltb-false→le, ◌==◌, ==_iff, bytes_eq, bytes_eq_iff, length,
  length-append, arith, inl, inr, Bool-cases, refuse_if-eq-ok, >>=-eq-ok, ok-injective, some_eq,
  pair_eq,
}
use blocknet_core.Tx.Crypto.{Crypto}
use blocknet_core.Block.{Block, ltb_i64}
use blocknet_core.Store.{KeyValue, Store, StoreError, block_hash, is_some, hash_by_height, sub_u64}
use blocknet_core.Store.Commit.{
  ReorgCommit, set_tip, check_disconnect, base_of, check_connect, check_reorg, commit_reorg,
  disconnect_blocks, connect_blocks,
}
use blocknet_core.Store.Chains.{SpendsOnce, IsBranch, tip_of, extend, Represents}
use blocknet_core.Store.Effects.{read_tip-write_tip}
use blocknet_core.Store.Steps.{branch_tail, disconnect_blocks-Holds, connect_blocks-Holds}
use blocknet_core.Store.Checks.{
  NoCollision, check_connect_sound, base_of_sound, check_disconnect_sound, not-false,
}

depth_bound :
    (n d : ℕ)
    → n < 9223372036854775807
    → d < 9223372036854775808
    → ltb_i64 ((n + 1) % 18446744073709551616) d ≡ false
    → d ≤ suc n
depth_bound n d small slice h = omega (
  arith,
  ltb-false→le (((n + 1) % 18446744073709551616 + 9223372036854775808) % 18446744073709551616)
      ((d + 9223372036854775808) % 18446744073709551616) h,
)

module _ (c : Crypto) (kv : KeyValue) where
  pub length-extend : (bs chain : List Block) → length (extend bs chain) ≡ length bs + length chain
  unfolding extend
  length-extend [] chain = omega arith
  length-extend (b ∷ bs) chain = omega (arith, length-extend bs (b ∷ chain))

  new_tip_eq :
      (x y : Bytes) → refuse_if (not (bytes_eq x y)) StoreError.new_tip_mismatch ≡ ok tt → x ≡ y
  new_tip_eq x y e = elim (Bool-cases (bytes_eq x y)) [
    | inl same ↦ (bytes_eq_iff x y).0 same
    | inr other ↦ absurd (cc (rw other at e))
  ]

  check_reorg_steps :
      (r : ReorgCommit) (s : Store kv) (tip : Bytes) (n : ℕ)
      → check_reorg kv c r tip n s ≡ ok tt
      → (ltb_i64 ((n + 1) % 18446744073709551616) (length r.disconnect) ≡ false)
        × ((r.new_height
              == (sub_u64 n (length r.disconnect) + length r.connect) % 18446744073709551616)
            ≡ true)
        × (check_disconnect kv c s.heights n 0 none r.disconnect ≡ ok tt)
        × ((base : Bytes × ℕ) × (base_of kv c r.disconnect tip n ≡ ok base)
            × (check_connect kv c base.0 ((base.1 + 1) % 18446744073709551616) 0 r.connect
                ≡ ok r.new_tip))
  unfolding check_reorg
  check_reorg_steps r s tip n e =
      let (depth, e1) =
        refuse_if-eq-ok (ltb_i64 ((n + 1) % 18446744073709551616) (length r.disconnect)) _ _ e in
      let (height, e2) = refuse_if-eq-ok (not (r.new_height == _)) _ _ e1 in
      let (done, c1, e3) = >>=-eq-ok (check_disconnect kv c s.heights n 0 none r.disconnect) _ e2 in
      let (base, c2, e4) = >>=-eq-ok (base_of kv c r.disconnect tip n) _ e3 in
      let (there, e5) = refuse_if-eq-ok (not (is_some (kv.get base.0 s.blocks))) _ _ e4 in
      let (last, c3, e6) =
        >>=-eq-ok (check_connect kv c base.0 ((base.1 + 1) % 18446744073709551616) 0 r.connect) _
          e5 in
      (depth, not-false _ height, c1, (base, c2, c3 ∙ ap ok (sym (new_tip_eq r.new_tip last e6))))

  -- What the checks leave: the parts of the chain and the new tip.
  pub check_reorg_sound :
      (r : ReorgCommit) (s : Store kv) (a : Block) (rest : List Block)
      → Represents c kv s (a ∷ rest)
      → NoCollision c kv r.disconnect (a ∷ rest)
      → length r.disconnect < 9223372036854775808
      → length rest + length r.connect < 9223372036854775807
      → check_reorg kv c r (block_hash c a) (length rest) s ≡ ok tt
      → (top : Block) × (below : List Block) × (a ∷ rest ≡ r.disconnect ++ (top ∷ below))
        × (IsBranch c (extend r.connect (top ∷ below))
            × (tip_of c (extend r.connect (top ∷ below)) ≡ some (r.new_tip, r.new_height)))
  unfolding hash_by_height tip_of
  check_reorg_sound r s a rest rep apart slice small e =
      let (depth, height, d, (base, b, k)) =
        check_reorg_steps r s (block_hash c a) (length rest) e in
      let (tail, cut) =
        check_disconnect_sound c kv s.heights (length rest) 0 none r.disconnect (a ∷ rest)
          (λ h l. rep.indexes.heights h (omega (arith, l, small))) (omega arith)
          (omega (arith, small))
          (depth_bound (length rest) (length r.disconnect) (omega (arith, small)) slice depth) apart
          d in
      let branch : IsBranch c (r.disconnect ++ tail) = subst (IsBranch c) cut rep.branch in
      let (top, below, whole, start) =
        base_of_sound c kv r.disconnect tail (block_hash c a) (length rest) branch
          (ap (tip_of c) (sym cut)) b in
      let total : length rest + 1 ≡ length r.disconnect + suc (length below) = omega (
        arith,
        length-append r.disconnect (top ∷ below),
        ap length cut,
        ap length whole,
        length-append r.disconnect tail,
      ) in
      let from_base : check_connect kv c (block_hash c top)
            ((length below + 1) % 18446744073709551616) 0 r.connect
          ≡ ok r.new_tip =
        subst
          (λ (p : Bytes × ℕ).
            check_connect kv c p.0 ((p.1 + 1) % 18446744073709551616) 0 r.connect ≡ ok r.new_tip)
          start k in
      let walk : check_connect kv c (block_hash c top) (suc (length below)) 0 r.connect
          ≡ ok r.new_tip =
        subst (λ n. check_connect kv c (block_hash c top) n 0 r.connect ≡ ok r.new_tip)
          (omega (arith, total, small)) from_base in
      let (longer, tip) =
        check_connect_sound c kv r.connect top below 0
          (branch_tail c kv r.disconnect (top ∷ below)
            (subst (λ t. IsBranch c (r.disconnect ++ t)) whole branch))
          (omega (arith, total, small)) walk in
      (
        top,
        below,
        cut ∙ ap (◌++◌ r.disconnect) whole,
        (longer, tip ∙ ap some (pair_eq refl (omega (arith, (==_iff _ _).0 height, total, small)))),
      )

  pub tip_bound :
      (chain : List Block) {tip : Bytes} {n : ℕ}
      → tip_of c chain ≡ some (tip, n)
      → length chain < 9223372036854775808
      → n < 9223372036854775808
  unfolding tip_of
  tip_bound [] e small = absurd (cc e)
  tip_bound (b ∷ bs) e small = omega (arith, small, ap (λ (p : Bytes × ℕ). p.1) (some_eq e))

  -- The three parts of CommitReorg that write, on the chain.
  pub reorg_Represents :
      (r : ReorgCommit) (s : Store kv) (tail : List Block)
      → Represents c kv s (r.disconnect ++ tail)
      → SpendsOnce (r.disconnect ++ tail)
      → length r.new_tip ≡ 32
      → length tail + length r.connect < 9223372036854775808
      → r.new_height < 9223372036854775808
      → IsBranch c (extend r.connect tail)
      → tip_of c (extend r.connect tail) ≡ some (r.new_tip, r.new_height)
      → Represents c kv
          (set_tip kv r.new_tip r.new_height r.new_work
            (connect_blocks kv c r.connect (disconnect_blocks kv c r.disconnect s)))
          (extend r.connect tail)
  unfolding set_tip hash_by_height
  reorg_Represents r s tail rep once size small high branch tip = record {
    branch = branch;
    short = omega (arith, small, length-extend r.connect tail);
    tip =
        read_tip-write_tip kv r.new_tip r.new_height r.new_work
          (connect_blocks kv c r.connect (disconnect_blocks kv c r.disconnect s)).meta size
          (omega (arith, high))
        ∙ ap ok (sym tip);
    indexes =
        ((connect_blocks-Holds c kv r.connect tail (disconnect_blocks kv c r.disconnect s) branch
          (omega (arith, small))
          (disconnect_blocks-Holds c kv r.disconnect tail s rep.branch (omega (arith, rep.short))
            once rep.indexes)));
  }

  pub commit_reorg_parts :
      (r : ReorgCommit) (s : Store kv) (chain : List Block) {t : Store kv}
      → Represents c kv s chain
      → SpendsOnce chain
      → NoCollision c kv r.disconnect chain
      → length r.new_tip ≡ 32
      → length r.disconnect < 9223372036854775808
      → length chain + length r.connect < 9223372036854775808
      → commit_reorg kv c r s ≡ ok t
      → (top : Block) × (below : List Block) × (chain ≡ r.disconnect ++ (top ∷ below))
        × (Represents c kv t (extend r.connect (top ∷ below))
            × ((tip_of c (extend r.connect (top ∷ below)) ≡ some (r.new_tip, r.new_height))
                × (set_tip kv r.new_tip r.new_height r.new_work
                      (connect_blocks kv c r.connect (disconnect_blocks kv c r.disconnect s))
                    ≡ t)))
  unfolding commit_reorg tip_of
  commit_reorg_parts r s [] rep once apart size slice small e =
      let (some_block, e1) = refuse_if-eq-ok (length r.connect == 0) _ _ e in
      absurd (cc (rw rep.tip at e1))
  commit_reorg_parts r s (a ∷ rest) {t} rep once apart size slice small e =
      let (some_block, e1) = refuse_if-eq-ok (length r.connect == 0) _ _ e in
      let e2 = rw rep.tip at e1 in
      let (done, checked, e3) =
        >>=-eq-ok (check_reorg kv c r (block_hash c a) (length rest) s) _ e2 in
      let (top, below, cut, (branch, tip)) =
        check_reorg_sound r s a rest rep apart slice (omega (arith, small)) checked in
      let fits : length (top ∷ below) + length r.connect < 9223372036854775808 =
        omega (arith, small, ap length cut, length-append r.disconnect (top ∷ below)) in
      (
        top,
        below,
        cut,
        (
          subst (λ u. Represents c kv u (extend r.connect (top ∷ below))) (ok-injective e3)
              (reorg_Represents r s (top ∷ below) (subst (Represents c kv s) cut rep)
                (subst SpendsOnce cut once) size fits
                (tip_bound (extend r.connect (top ∷ below)) tip
                  (omega (arith, fits, length-extend r.connect (top ∷ below))))
                branch tip),
          (tip, ok-injective e3),
        ),
      )

  -- On buckets that stand for a chain, where no key image is spent twice, a reorganization that
  -- CommitReorg accepts takes its disconnected blocks off the top of the chain, never the last, puts the
  -- connected blocks on what is left, and leaves buckets that stand for exactly this chain: the tip, each
  -- height and each spent key image. The blocks to disconnect have no collision of hashes with the chain.
  pub commit_reorg_refines :
      (r : ReorgCommit) (s : Store kv) (chain : List Block) {t : Store kv}
      → Represents c kv s chain
      → SpendsOnce chain
      → NoCollision c kv r.disconnect chain
      → length r.new_tip ≡ 32
      → length r.disconnect < 9223372036854775808
      → length chain + length r.connect < 9223372036854775808
      → commit_reorg kv c r s ≡ ok t
      → (top : Block) × (below : List Block) × (chain ≡ r.disconnect ++ (top ∷ below))
        × Represents c kv t (extend r.connect (top ∷ below))
  commit_reorg_refines r s chain rep once apart size slice small e =
      let (top, below, cut, (represents, more)) =
        commit_reorg_parts r s chain rep once apart size slice small e in
      (top, below, cut, represents)
