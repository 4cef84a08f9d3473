-- ===== src/Block/Validate/Tip.antt =====
-- block.go: what ValidateBlock leaves to validateBlockWithContext.
use blocknet_core.Prelude.{
  ℕ, ◌+◌, ◌≤◌, ◌≡◌, refl, sym, ap, ◌∙◌, List, [], ◌∷◌, ◌++◌, Bytes, Bool, true, false, not, Option,
  some, ok, refuse_if, >>=-eq-ok, refuse_if-eq-ok, arith, ltb, ◌==◌, bytes_eq, bytes_eq_iff, map,
  if◌then◌else◌, Bool-cases, ==_iff, le→ltb-false, subst, inl, inr, leb, ◌&&◌, ◌%◌,
}
use blocknet_core.Tx.{Transaction, TxInput, is_coinbase}
use blocknet_core.Tx.Accepts.{Distinct, Unseen-cons, All-unseen}
use blocknet_core.Tx.Validate.{validate_transaction}
use blocknet_core.Block.{Header, Block, ltb_i64, block_size, max_block_size}
use blocknet_core.Block.Difficulty.{expected_difficulty, min_difficulty}
use blocknet_core.Block.Median.{median_from_parent}
use blocknet_core.Block.Validate.{
  Network, BlockError, or_block, bad_transaction, see_images, check_first, check_txs, check_each_tx,
  check_root, check_timestamp, check_pow, bad_version, stale_height, bad_height,
}
use blocknet_core.Block.Validate.Context.{
  View, check_header, check_body, validate_with_context, validate_block,
}
use blocknet_core.Block.Validate.Rules.{all_images, New, coinbase_images}

see_images_complete :
    (i j : ℕ) (seen : List Bytes) (xs : List TxInput) (ks : List Bytes)
    → New seen (map (λ x. x.key_image) xs ++ ks)
    → (later : List Bytes) × (see_images i j seen xs ≡ ok later) × New later ks
unfolding see_images
see_images_complete i j seen [] ks n = (seen, refl, n)
see_images_complete i j seen (x ∷ xs) ks n =
    let k = x.key_image in
    let ((other, distinct), (fresh, old)) = n in
    let (later, e, m) =
      see_images_complete i (j + 1) (k ∷ seen) xs ks
        (distinct, (Unseen-cons k seen (map (λ t. t.key_image) xs ++ ks)).1 (other, old)) in
    (later, rw fresh e, m)

module _ (net : Network) (is_spent : Bytes → Bool) (checker : Option (Bytes → Bytes → Bool)) where
  check_txs_complete :
      (i : ℕ) (seen : List Bytes) (txs : List Transaction)
      → check_each_tx net is_spent checker i txs ≡ ok tt
      → New seen (all_images txs)
      → check_txs net is_spent checker i seen txs ≡ ok tt
  unfolding check_txs check_each_tx all_images
  check_txs_complete i seen [] h n = refl
  check_txs_complete i seen (tx ∷ txs) h n =
      let check = validate_transaction net.crypto is_spent checker tx in
      let (u, valid, h1) = >>=-eq-ok (or_block (bad_transaction i) check) _ h in
      elim (Bool-cases (is_coinbase tx)) [
        | inl c ↦
            let bare : New seen (all_images txs) =
              subst (λ ks. New seen (ks ++ all_images txs)) (coinbase_images tx c) n in
            rw (valid, c) (check_txs_complete (i + 1) seen txs h1 bare)
        | inr c ↦
            let (later, e, m) = see_images_complete i 0 seen tx.inputs (all_images txs) n in
            rw (valid, c) (rw e (check_txs_complete (i + 1) later txs h1 m))
      ]

refused_no : (t : Bool) (e : BlockError) → refuse_if t e ≡ ok tt → t ≡ false
refused_no true e h = absurd (cc h)
refused_no false e h = refl

true_of_not : (t : Bool) → not t ≡ false → t ≡ true
true_of_not true h = refl
true_of_not false h = cc

timely_now :
    (net : Network) (h : Header) (median : ℕ)
    → check_timestamp net h median ≡ ok tt
    → ltb_i64 ((net.now + 7200) % 18446744073709551616) h.timestamp ≡ false
unfolding check_timestamp
timely_now net h median e =
    let (after, e1) = refuse_if-eq-ok (not (ltb_i64 median h.timestamp)) _ _ e in refused_no _ _ e1

module _ (net : Network) (view : View) (b parent : Block) where
  open view use {best_hash, tip_height, get_parent}

  header_complete :
      (median : ℕ)
      → parent.header.height ≡ tip_height
      → expected_difficulty (some parent) get_parent ≡ ok b.header.difficulty
      → median_from_parent (some parent) get_parent 11 ≡ ok median
      → min_difficulty ≤ b.header.difficulty
      → b.header.height ≡ tip_height + 1
      → check_timestamp net b.header median ≡ ok tt
      → check_pow net false b.header ≡ ok tt
      → ltb_i64 parent.header.timestamp b.header.timestamp ≡ true
      → check_header net view false b.header parent ≡ ok tt
  unfolding check_header or_block
  header_complete median tip expected middle floor height timely pow later =
      let follows : (b.header.height == parent.header.height + 1) ≡ true =
        (==_iff _ _).1 (omega (arith, tip, height)) in
      let on_tip : (b.header.height == tip_height + 1) ≡ true = (==_iff _ _).1 height in
      let no_conflict : (bytes_eq b.header.prev_hash best_hash && false) ≡ false =
        elim (Bool-cases (bytes_eq b.header.prev_hash best_hash)) [
          | inl e ↦ rw e refl
          | inr e ↦ rw e refl
        ] in
      let same : (b.header.difficulty == b.header.difficulty) ≡ true = (==_iff _ _).1 refl in
      let high : ltb b.header.difficulty min_difficulty ≡ false = le→ltb-false _ _ floor in
      let near = timely_now net b.header median timely in
      rw follows (
        rw later (
          rw on_tip (
            rw no_conflict
              (rw expected (rw same (rw middle (rw timely (rw high (rw near pow)))))))))

  -- A block on the tip that ValidateBlock accepts, with the median and the difficulty that the tip's
  -- ancestors ask for, passes validateBlockWithContext as well, if two things hold that ValidateBlock
  -- does not look at: it is later than its parent, and no key image stands in two of its
  -- transactions. (The chain's view is that of its tip, and the difficulty is not below the floor.)
  pub validate_block-validate_with_context :
      (median difficulty : ℕ)
      → get_parent best_hash ≡ some parent
      → parent.header.height ≡ tip_height
      → expected_difficulty (some parent) get_parent ≡ ok difficulty
      → median_from_parent (some parent) get_parent 11 ≡ ok median
      → min_difficulty ≤ difficulty
      → validate_block net view median difficulty b ≡ ok tt
      → ltb_i64 parent.header.timestamp b.header.timestamp ≡ true
      → Distinct (all_images b.transactions)
      → validate_with_context net view false b ≡ ok tt
  unfolding validate_block validate_with_context check_body
  validate_block-validate_with_context median difficulty found tip expected middle floor e later
        distinct =
      let (version, e1) = refuse_if-eq-ok (b.header.version == 0) bad_version _ e in
      let (height, e2) =
        refuse_if-eq-ok (not (b.header.height == tip_height + 1))
          (if leb b.header.height tip_height then stale_height else bad_height) _ e1 in
      let (on_best, e3) = refuse_if-eq-ok (not (bytes_eq b.header.prev_hash best_hash)) _ _ e2 in
      let (u, timely, e4) = >>=-eq-ok (check_timestamp net b.header median) _ e3 in
      let (same, e5) = refuse_if-eq-ok (not (b.header.difficulty == difficulty)) _ _ e4 in
      let (v, pow, e6) = >>=-eq-ok (check_pow net false b.header) _ e5 in
      let (size, e7) = refuse_if-eq-ok (ltb max_block_size (block_size b)) _ _ e6 in
      let (w, first, e8) = >>=-eq-ok (check_first net b.transactions) _ e7 in
      let (x, root, e9) = >>=-eq-ok (check_root net b) _ e8 in
      let (y, each, paid) =
        >>=-eq-ok (check_each_tx net view.is_spent view.checker 0 b.transactions) _ e9 in
      let at_height : b.header.height ≡ tip_height + 1 = (==_iff _ _).0 (true_of_not _ height) in
      let at_best : b.header.prev_hash ≡ best_hash = (bytes_eq_iff _ _).0 (true_of_not _ on_best) in
      let asked : b.header.difficulty ≡ difficulty = (==_iff _ _).0 (true_of_not _ same) in
      let above : (b.header.height == 0) ≡ false = ground (arith, at_height) in
      let there : get_parent b.header.prev_hash ≡ some parent = ap get_parent at_best ∙ found in
      let txs =
        check_txs_complete net view.is_spent view.checker 0 [] b.transactions each
          (distinct, All-unseen (all_images b.transactions)) in
      let header =
        header_complete median tip (expected ∙ ap ok (sym asked)) middle
          (omega (arith, asked, floor)) at_height timely pow later in
      rw version (rw above (rw there (rw header (rw size (rw first (rw txs (rw paid root)))))))
