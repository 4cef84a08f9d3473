-- ===== src/Block/Forks/Common.antt =====
-- block.go: findCommonAncestorLocked finds the last block that two branches share, and
-- enforceReorgFinalityLocked bounds how far back it may lie.
use blocknet_core.Prelude.{
  ℕ, zero, suc, ◌+◌, ◌-◌, ◌≤◌, ◌≡◌, ◌≢◌, refl, sym, ap, ◌∙◌, subst, inl, inr, Bytes, Bool, true,
  false, ◌||◌, Option, some, ok, >>=-eq-ok, ok-injective, arith, ltb, ◌==◌, bytes_eq, bytes_eq_iff,
  bytes_eq-false_iff, Bool-cases, Option-cases, Result-cases, some_eq, refuse_if, ltb-false→le,
  le→ltb-false,
}
use blocknet_core.Block.{Block}
use blocknet_core.Block.Forks.{
  ForkError, get_or_missing, to_parent, lower, meet, find_common_ancestor, enforce_finality,
  max_reorg_depth,
}
use blocknet_core.Block.Forks.Ancestry.{
  ancestor, Linked, Lowered, ancestor-height, lower-Lowered, to_parent-eq-ok, ancestor-step,
}

module _ (get : Bytes → Option Block) where
  -- A stored block below both hashes, and the highest of those.
  pub record Meets (a b : Bytes) (r : Bytes × ℕ) : Type 0 where
    pub block : Block
    pub stored : get r.0 ≡ some block
    pub height : block.header.height ≡ r.1
    pub below_first : (n : ℕ) × (ancestor get n a ≡ some r.0)
    pub below_second : (n : ℕ) × (ancestor get n b ≡ some r.0)
    pub highest :
        (d : Bytes) (e : Block) (m n : ℕ)
        → get d ≡ some e
        → ancestor get m a ≡ some d
        → ancestor get n b ≡ some d
        → e.header.height ≤ r.1

  -- Two hashes that differ reach a common ancestor by a step of each at least.
  pub both_step :
      (i j : ℕ) (p q d : Bytes)
      → i ≡ j
      → p ≢ q
      → ancestor get i p ≡ some d
      → ancestor get j q ≡ some d
      → (k : ℕ) × (i ≡ suc k) × (j ≡ suc k)
  unfolding ancestor
  both_step zero zero p q d e apart x y = absurd (apart (some_eq x ∙ sym (some_eq y)))
  both_step zero (suc j) p q d e apart x y = absurd (omega (arith, e))
  both_step (suc i) zero p q d e apart x y = absurd (omega (arith, e))
  both_step (suc i) (suc j) p q d e apart x y = (i, refl, omega (arith, e))

  meet-Meets :
      Linked get
      → (n : ℕ) (p q : Bytes × Block) {r : Bytes × ℕ} → get p.0 ≡ some p.1
      → get q.0 ≡ some q.1
      → p.1.header.height ≡ q.1.header.height
      → meet get n p q ≡ ok r
      → Meets p.0 q.0 r
  unfolding meet ancestor
  meet-Meets v zero p q sp sq level h = absurd (cc h)
  meet-Meets v (suc n) p q {r} sp sq level h = elim (Bool-cases (bytes_eq p.0 q.0)) [
    | inl met ↦
        let same : (p.0, p.1.header.height) ≡ r = ok-injective (rw (met, meet) at h) in
        subst (Meets p.0 q.0) same (record {
          block = p.1;
          stored = sp;
          height = refl;
          below_first = (0, refl);
          below_second = (0, ap some (sym ((bytes_eq_iff _ _).0 met)));
          highest = λ d e i j de x y.
              let up = ancestor-height get v i p.0 d p.1 e sp de x in omega (arith, up);
        })
    | inr apart ↦ elim (Bool-cases (p.1.header.height == 0 || q.1.header.height == 0)) [
      | inl bottom ↦ absurd (cc (rw (apart, bottom, meet) at h))
      | inr above ↦ elim (Result-cases (to_parent get p.1)) [
        | inl (x, s) ↦ absurd (cc (rw (apart, above, s, meet) at h))
        | inr (p', s) ↦ elim (Result-cases (to_parent get q.1)) [
          | inl (x, t) ↦ absurd (cc (rw (apart, above, s, t, meet) at h))
          | inr (q', t) ↦
              let (p_high, p_prev, p_found) = to_parent-eq-ok get p.1 s in
              let (q_high, q_prev, q_found) = to_parent-eq-ok get q.1 t in
              let sp' : get p'.0 ≡ some p'.1 = subst (λ g. get g ≡ some p'.1) p_prev p_found in
              let sq' : get q'.0 ≡ some q'.1 = subst (λ g. get g ≡ some q'.1) q_prev q_found in
              let p_down = v p.0 p.1 p'.1 sp p_high p_found in
              let q_down = v q.0 q.1 q'.1 sq q_high q_found in
              let up_first : (i : ℕ) → ancestor get (suc i) p.0 ≡ ancestor get i p'.0 =
                λ i. ancestor-step get i p.0 p.1 sp p_high ∙ ap (ancestor get i) p_prev in
              let up_second : (i : ℕ) → ancestor get (suc i) q.0 ≡ ancestor get i q'.0 =
                λ i. ancestor-step get i q.0 q.1 sq q_high ∙ ap (ancestor get i) q_prev in
              let m =
                meet-Meets v n p' q' sp' sq' (omega (arith, level, p_down, q_down))
                  (rw (apart, above, s, t, meet) at h) in
              record {
                block = m.block;
                stored = m.stored;
                height = m.height;
                below_first = (suc m.below_first.0, up_first m.below_first.0 ∙ m.below_first.1);
                below_second =
                    (suc m.below_second.0, up_second m.below_second.0 ∙ m.below_second.1);
                highest = λ d e i j de x y.
                    let first = ancestor-height get v i p.0 d p.1 e sp de x in
                    let second = ancestor-height get v j q.0 d q.1 e sq de y in
                    let (k, i_eq, j_eq) =
                      both_step i j p.0 q.0 d (omega (arith, level, first, second))
                        ((bytes_eq-false_iff _ _).0 apart) x y in
                    m.highest d e k k de
                      (sym (up_first k) ∙ ap (λ z. ancestor get z p.0) (sym i_eq) ∙ x)
                      (sym (up_second k) ∙ ap (λ z. ancestor get z q.0) (sym j_eq) ∙ y);
              }
        ]
      ]
    ]
  ]

  pub stored_block : (g : Bytes) {k : Block} → get_or_missing get g ≡ ok k → get g ≡ some k
  unfolding get_or_missing
  stored_block g {k} e = elim (Option-cases (get g)) [
    | inl x ↦ absurd (cc (rw (x, get_or_missing) at e))
    | inr (b, x) ↦ x ∙ ap some (ok-injective (rw (x, get_or_missing) at e))
  ]

  -- The two loops lead to one height, and not past what both tips share.
  module _ (a b : Bytes) (first second : Block) (p q : Bytes × Block)
      (la : Lowered get second.header.height (a, first) p)
      (lb : Lowered get p.1.header.height (b, second) q) where
    pub lowered_level : p.1.header.height ≡ q.1.header.height
    lowered_level = elim lb.not_past [
      | inl none_left ↦ omega (arith, none_left, lb.height, lb.low, la.low)
      | inr at ↦ omega (arith, at, lb.low)
    ]

    pub lowered_far :
        (i j height : ℕ)
        → first.header.height ≡ height + i
        → second.header.height ≡ height + j
        → (la.steps ≤ i) × (lb.steps ≤ j)
    lowered_far i j height x y =
        let i_far : la.steps ≤ i = elim la.not_past [
          | inl none_left ↦ omega (arith, none_left)
          | inr at ↦ omega (arith, at, la.height, x, y)
        ] in
        (i_far, omega (arith, lowered_level, lb.height, la.height, x, y, i_far))

    pub lowered_first : (i : ℕ) → la.steps ≤ i → ancestor get (i - la.steps) p.0 ≡ ancestor get i a
    lowered_first i far =
        sym (la.path (i - la.steps)) ∙ ap (λ z. ancestor get z a) (omega (arith, far))

    pub lowered_second : (j : ℕ) → lb.steps ≤ j → ancestor get (j - lb.steps) q.0 ≡ ancestor get j b
    lowered_second j far =
        sym (lb.path (j - lb.steps)) ∙ ap (λ z. ancestor get z b) (omega (arith, far))

    -- What `meet` finds from there is what the tips share.
    lowered-Meets :
        (n : ℕ) {r : Bytes × ℕ}
        → Linked get
        → get a ≡ some first
        → get b ≡ some second
        → meet get n p q ≡ ok r
        → Meets a b r
    lowered-Meets n v sa sb h =
        let m = meet-Meets v n p q la.stored lb.stored lowered_level h in
        record {
          block = m.block;
          stored = m.stored;
          height = m.height;
          below_first = (la.steps + m.below_first.0, la.path m.below_first.0 ∙ m.below_first.1);
          below_second = (lb.steps + m.below_second.0, lb.path m.below_second.0 ∙ m.below_second.1);
          highest = λ d e i j de x y.
              let (i_far, j_far) =
                lowered_far i j e.header.height (ancestor-height get v i a d first e sa de x)
                  (ancestor-height get v j b d second e sb de y) in
              m.highest d e (i - la.steps) (j - lb.steps) de (lowered_first i i_far ∙ x)
                (lowered_second j j_far ∙ y);
        }

  -- In a store of linked blocks the ancestor that findCommonAncestorLocked returns lies below both
  -- tips, with its own height, and no stored block that lies below both is higher.
  pub find_common_ancestor-Meets :
      (a b : Bytes) {r : Bytes × ℕ} → Linked get → find_common_ancestor get a b ≡ ok r → Meets a b r
  unfolding find_common_ancestor
  find_common_ancestor-Meets a b {r} v h =
      let (first, fa, h1) = >>=-eq-ok (get_or_missing get a) _ h in
      let (second, fb, h2) = >>=-eq-ok (get_or_missing get b) _ h1 in
      let (p, lp, h3) =
        >>=-eq-ok (lower get (first.header.height + 1) second.header.height (a, first)) _ h2 in
      let (q, lq, h4) =
        >>=-eq-ok (lower get (second.header.height + 1) p.1.header.height (b, second)) _ h3 in
      let sa = stored_block a fa in
      let sb = stored_block b fb in
      lowered-Meets a b first second p q
        (lower-Lowered get v (first.header.height + 1) second.header.height (a, first) sa lp)
        (lower-Lowered get v (second.header.height + 1) p.1.header.height (b, second) sb lq)
        (p.1.header.height + 1) v sa sb h4

  -- A reorganization to `tip` that enforceReorgFinalityLocked lets through leaves the main chain at
  -- most 100 blocks below its height: the last block that the chain shares with the new branch is
  -- there, if the stored blocks are linked and the chain is that high.
  pub enforce_finality_sound :
      (height : ℕ) (best tip : Bytes)
      → Linked get
      → max_reorg_depth ≤ height
      → enforce_finality get height best tip ≡ ok tt
      → (r : Bytes × ℕ) × Meets best tip r × (height ≤ r.1 + max_reorg_depth)
  unfolding enforce_finality
  enforce_finality_sound height best tip v high h =
      let deep : ltb height max_reorg_depth ≡ false = le→ltb-false _ _ high in
      elim (Option-cases (get tip)) [
        | inl x ↦ absurd (cc (rw (deep, x, enforce_finality) at h))
        | inr (b, x) ↦ elim (Result-cases (find_common_ancestor get best tip)) [
          | inl (e, y) ↦ absurd (cc (rw (deep, x, y, enforce_finality) at h))
          | inr (r, y) ↦
              let near : ltb r.1 (height - max_reorg_depth) ≡ false =
                passed _ _ (rw (deep, x, y, enforce_finality) at h) in
              (
                r,
                find_common_ancestor-Meets best tip v y,
                omega (arith, ltb-false→le _ _ near, high),
              )
        ]
      ]
    where
      passed : (t : Bool) (e : ForkError) → refuse_if t e ≡ ok tt → t ≡ false
      passed true e q = absurd (cc q)
      passed false e q = refl
