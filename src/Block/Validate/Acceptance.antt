-- ===== src/Block/Validate/Acceptance.antt =====
-- block.go: what a block that passes validateBlockWithContext fulfils.
use blocknet_core.Prelude.{
  ℕ, ◌+◌, ◌%◌, ◌≤◌, ◌≡◌, ◌≢◌, refl, List, [], ◌∷◌, Bool, true, false, not, some, none, ok,
  refuse_if, >>=-eq-ok, refuse_if-eq-ok, arith, ltb, ◌==◌, bytes_eq, bytes_eq_iff, All,
  Option-cases, ltb-false→le, ==_iff, ◌&&◌, subst, sym, ap, ◌∙◌, inl, inr, Result-cases,
}
use blocknet_core.Tx.{Transaction, is_coinbase}
use blocknet_core.Tx.Accepts.{Distinct}
use blocknet_core.Tx.Validate.{validate_transaction}
use blocknet_core.Block.{Header, Block, ltb_i64, block_size, max_block_size}
use blocknet_core.Block.Merkle.{block_root}
use blocknet_core.Block.Difficulty.{expected_difficulty, min_difficulty}
use blocknet_core.Block.Median.{median_from_parent}
use blocknet_core.Block.Validate.{
  Network, BlockError, or_block, no_difficulty, no_median, check_first, check_no_coinbase,
  check_txs, check_coinbase_of, check_root, check_timestamp, bad_version,
}
use blocknet_core.Block.Validate.Context.{View, check_header, check_body, validate_with_context}
use blocknet_core.Block.Validate.Rules.{all_images, check_txs_sound, or_block-eq-ok}

module _ (net : Network) (view : View) where
  -- The header fits its parent: its height and time follow, and its difficulty and time are what the
  -- parent's ancestors ask for.
  pub record FitsParent (h : Header) (parent : Block) : Type 0 where
    pub height : h.height ≡ parent.header.height + 1
    pub later : ltb_i64 parent.header.timestamp h.timestamp ≡ true
    pub difficulty : expected_difficulty (some parent) view.get_parent ≡ ok h.difficulty
    pub floor : min_difficulty ≤ h.difficulty
    pub median :
        (m : ℕ) × (median_from_parent (some parent) view.get_parent 11 ≡ ok m)
        × (ltb_i64 m h.timestamp ≡ true)
    pub not_in_future : ltb_i64 ((net.now + 7200) % 18446744073709551616) h.timestamp ≡ false

  -- The transactions: within the size, one coinbase, which comes first, each of them valid, no key
  -- image twice in the whole block, and under the header's root.
  pub record FitsBody (b : Block) : Type 0 where
    pub size : block_size b ≤ max_block_size
    pub coinbase_first :
        (tx : Transaction) × (txs : List Transaction) × (b.transactions ≡ tx ∷ txs)
        × (is_coinbase tx ≡ true)
        × All (λ t. is_coinbase t ≡ false) txs
    pub valid :
        All
          (λ tx. validate_transaction net.crypto view.is_spent view.checker tx ≡ ok tt)
          b.transactions
    pub distinct : Distinct (all_images b.transactions)
    pub root : block_root net.crypto b ≡ ok (some b.header.merkle_root)

  not-false : (t : Bool) → not t ≡ false → t ≡ true
  not-false true h = refl
  not-false false h = cc

  check_header_sound :
      (skip : Bool) (h : Header) (parent : Block)
      → check_header net view skip h parent ≡ ok tt
      → FitsParent h parent
  unfolding check_header check_timestamp
  check_header_sound skip h parent e =
      let (height, e1) = refuse_if-eq-ok (not (h.height == parent.header.height + 1)) _ _ e in
      let (later, e2) =
        refuse_if-eq-ok (not (ltb_i64 parent.header.timestamp h.timestamp)) _ _ e1 in
      let (tip, e3) =
        refuse_if-eq-ok
          (bytes_eq h.prev_hash view.best_hash && not (h.height == view.tip_height + 1)) _ _ e2 in
      let (expected, difficulty, e4) =
        >>=-eq-ok (or_block no_difficulty (expected_difficulty (some parent) view.get_parent)) _
          e3 in
      let (same, e5) = refuse_if-eq-ok (not (h.difficulty == expected)) _ _ e4 in
      let (m, median, e6) =
        >>=-eq-ok (or_block no_median (median_from_parent (some parent) view.get_parent 11)) _ e5 in
      let (u, timely, e7) = >>=-eq-ok (check_timestamp net h m) _ e6 in
      let (after, e8) = refuse_if-eq-ok (not (ltb_i64 m h.timestamp)) _ _ timely in
      let (floor, e9) = refuse_if-eq-ok (ltb h.difficulty min_difficulty) _ _ e7 in
      let (future, e10) =
        refuse_if-eq-ok (ltb_i64 ((net.now + 7200) % 18446744073709551616) h.timestamp) _ _ e9 in
      record {
        height = (==_iff _ _).0 (not-false _ height);
        later = not-false _ later;
        difficulty =
            subst (λ d. expected_difficulty (some parent) view.get_parent ≡ ok d)
              (sym ((==_iff _ _).0 (not-false _ same)))
              (or_block-eq-ok no_difficulty (expected_difficulty (some parent) view.get_parent)
                difficulty);
        floor = ltb-false→le _ _ floor;
        median = (
          m,
          or_block-eq-ok no_median (median_from_parent (some parent) view.get_parent 11) median,
          not-false _ after,
        );
        not_in_future = future;
      }

  no_coinbase_sound :
      (txs : List Transaction)
      → check_no_coinbase net txs ≡ ok tt
      → All (λ t. is_coinbase t ≡ false) txs
  unfolding check_no_coinbase
  no_coinbase_sound [] e = tt
  no_coinbase_sound (tx ∷ txs) e =
      let (other, e1) = refuse_if-eq-ok (is_coinbase tx) _ _ e in (other, no_coinbase_sound txs e1)

  first_sound :
      (txs : List Transaction)
      → check_first net txs ≡ ok tt
      → (tx : Transaction) × (others : List Transaction) × (txs ≡ tx ∷ others)
        × (is_coinbase tx ≡ true)
        × All (λ t. is_coinbase t ≡ false) others
  unfolding check_first
  first_sound [] e = absurd (cc e)
  first_sound (tx ∷ txs) e =
      let (first, e1) = refuse_if-eq-ok (not (is_coinbase tx)) _ _ e in
      (tx, txs, refl, not-false _ first, no_coinbase_sound txs e1)

  root_sound :
      (b : Block)
      → check_root net b ≡ ok tt
      → block_root net.crypto b ≡ ok (some b.header.merkle_root)
  unfolding check_root
  root_sound b e = elim (Result-cases (block_root net.crypto b)) [
    | inl (p, q) ↦ absurd (cc (rw (q, check_root) at e))
    | inr (none, q) ↦ absurd (cc (rw (q, check_root) at e))
    | inr (some root, q) ↦
        let same : not (bytes_eq root b.header.merkle_root) ≡ false =
          refused_no _ _ (rw (q, check_root) at e) in
        q ∙ ap (λ r. ok (some r)) ((bytes_eq_iff _ _).0 (not-false _ same))
  ]
    where
      refused_no : (t : Bool) (x : BlockError) → refuse_if t x ≡ ok tt → t ≡ false
      refused_no true x h = absurd (cc h)
      refused_no false x h = refl

  check_body_sound : (b : Block) → check_body net view b ≡ ok tt → FitsBody b
  unfolding check_body
  check_body_sound b e =
      let (size, e1) = refuse_if-eq-ok (ltb max_block_size (block_size b)) _ _ e in
      let (u, first, e2) = >>=-eq-ok (check_first net b.transactions) _ e1 in
      let (v, txs, e3) =
        >>=-eq-ok (check_txs net view.is_spent view.checker 0 [] b.transactions) _ e2 in
      let (w, paid, e4) = >>=-eq-ok (check_coinbase_of net b.transactions b.header.height) _ e3 in
      let (valid, (distinct, unseen)) =
        check_txs_sound net view.is_spent view.checker 0 [] b.transactions txs in
      record {
        size = ltb-false→le _ _ size;
        coinbase_first = first_sound b.transactions first;
        valid = valid;
        distinct = distinct;
        root = root_sound b e4;
      }

  -- A block above height 0 that passes validateBlockWithContext has its parent at hand, follows it by
  -- the rules on heights, times and difficulty, and holds one coinbase and valid transactions, within
  -- the size and under its Merkle root, no two inputs of which share a key image.
  pub validate_with_context_sound :
      (skip : Bool) (b : Block)
      → validate_with_context net view skip b ≡ ok tt
      → b.header.height ≢ 0
      → (parent : Block) × (view.get_parent b.header.prev_hash ≡ some parent)
        × FitsParent b.header parent
        × FitsBody b
  unfolding validate_with_context
  validate_with_context_sound skip b e above =
      let (version, e1) = refuse_if-eq-ok (b.header.version == 0) bad_version _ e in
      let high : (b.header.height == 0) ≡ false = ground (arith, above) in
      elim (Option-cases (view.get_parent b.header.prev_hash)) [
        | inl q ↦ absurd (cc (rw (high, q) at e1))
        | inr (parent, q) ↦
            let (u, fits, body) =
              >>=-eq-ok (check_header net view skip b.header parent) _ (rw (high, q) at e1) in
            (parent, q, check_header_sound skip b.header parent fits, check_body_sound b body)
      ]
