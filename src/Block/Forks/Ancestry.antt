-- ===== src/Block/Forks/Ancestry.antt =====
-- block.go: findCommonAncestorLocked finds the last block that two branches share.
use blocknet_core.Prelude.{
  ℕ, zero, suc, ◌+◌, ◌≤◌, ◌≡◌, ◌≢◌, refl, sym, ap, ◌∙◌, subst, inl, inr, Bytes, true, false, Option,
  none, some, ok, refuse_if-eq-ok, ok-injective, arith, ltb, ◌==◌, Bool-cases, Option-cases,
  Result-cases, some_eq, ltb→lt, ltb-false→le, ◌⊎◌,
}
use blocknet_core.Block.{Block}
use blocknet_core.Block.Forks.{incomplete, get_or_missing, to_parent, lower}

module _ (get : Bytes → Option Block) where
  -- The hash that stands n steps below `h`, and none past the first block.
  unfoldable pub ancestor : ℕ → Bytes → Option Bytes
  ancestor zero h = some h
  ancestor (suc n) h = elim (get h) [
    | none ↦ none
    | some b ↦ elim (b.header.height == 0) [ true ↦ none | false ↦ ancestor n b.header.prev_hash ]
  ]

  -- A block in the store is one higher than its parent.
  abbrev pub Linked : Type 0
  Linked =
      (h : Bytes) (b p : Block)
      → get h ≡ some b
      → b.header.height ≢ 0
      → get b.header.prev_hash ≡ some p
      → b.header.height ≡ p.header.height + 1

  pub to_parent-eq-ok :
      (b : Block) {q : Bytes × Block}
      → to_parent get b ≡ ok q
      → (b.header.height ≢ 0) × (b.header.prev_hash ≡ q.0) × (get b.header.prev_hash ≡ some q.1)
  unfolding to_parent get_or_missing
  to_parent-eq-ok b {q} e =
      let (high, e1) = refuse_if-eq-ok (b.header.height == 0) incomplete _ e in
      elim (Option-cases (get b.header.prev_hash)) [
        | inl x ↦ absurd (cc (rw (x, get_or_missing) at e1))
        | inr (p, x) ↦
            let same : (b.header.prev_hash, p) ≡ q = ok-injective (rw (x, get_or_missing) at e1) in
            (
              ground (arith, high),
              ap (λ (r : Bytes × Block). r.0) same,
              x ∙ ap (λ (r : Bytes × Block). some r.1) same,
            )
      ]

  pub ancestor-step :
      (n : ℕ) (h : Bytes) (b : Block)
      → get h ≡ some b
      → b.header.height ≢ 0
      → ancestor (suc n) h ≡ ancestor n b.header.prev_hash
  unfolding ancestor
  ancestor-step n h b e high =
      let up : (b.header.height == 0) ≡ false = ground (arith, high) in rw (e, up, ancestor) refl

  pub ancestor-height :
      Linked
      → (n : ℕ) (h d : Bytes) (b e : Block) → get h ≡ some b
      → get d ≡ some e
      → ancestor n h ≡ some d
      → b.header.height ≡ e.header.height + n
  unfolding ancestor
  ancestor-height v zero h d b e hb de a =
      let same : b ≡ e = some_eq (sym hb ∙ ap get (some_eq a) ∙ de) in rw same (omega arith)
  ancestor-height v (suc n) h d b e hb de a = elim (Bool-cases (b.header.height == 0)) [
    | inl low ↦ absurd (cc (rw (hb, low, ancestor) at a))
    | inr high ↦
        let rest : ancestor n b.header.prev_hash ≡ some d = rw (hb, high, ancestor) at a in
        elim (Option-cases (get b.header.prev_hash)) [
          | inl x ↦ absurd (unknown n b.header.prev_hash x rest)
          | inr (p, x) ↦
              let ih = ancestor-height v n b.header.prev_hash d p e x de rest in
              omega (arith, ih, v h b p hb (ground (arith, high)) x)
        ]
  ]
    where
      unknown : (n : ℕ) (g : Bytes) → get g ≡ none → ancestor n g ≡ some d → ⊥
      unknown zero g x r = cc (sym x ∙ ap get (some_eq r) ∙ de)
      unknown (suc n) g x r = cc (rw (x, ancestor) at r)

  -- What `lower` has done: it has gone down `steps` blocks, not past the target.
  pub record Lowered (target : ℕ) (p q : Bytes × Block) : Type 0 where
    pub stored : get q.0 ≡ some q.1
    pub steps : ℕ
    pub path : (j : ℕ) → ancestor (steps + j) p.0 ≡ ancestor j q.0
    pub height : p.1.header.height ≡ q.1.header.height + steps
    pub low : q.1.header.height ≤ target
    pub not_past : (steps ≡ 0) ⊎ (target ≤ q.1.header.height)

  pub lower-Lowered :
      Linked
      → (n target : ℕ) (p : Bytes × Block) {q : Bytes × Block} → get p.0 ≡ some p.1
      → lower get n target p ≡ ok q
      → Lowered target p q
  unfolding lower
  lower-Lowered v zero target p sp e = absurd (cc e)
  lower-Lowered v (suc n) target p {q} sp e = elim (Bool-cases (ltb target p.1.header.height)) [
    | inr small ↦
        let same : p ≡ q = ok-injective (rw (small, lower) at e) in
        subst (Lowered target p) same (record {
          stored = sp;
          steps = 0;
          path = λ j. ap (λ m. ancestor m p.0) (omega arith);
          height = omega arith;
          low = ltb-false→le _ _ small;
          not_past = inl refl;
        })
    | inl big ↦ elim (Result-cases (to_parent get p.1)) [
      | inl (x, r) ↦ absurd (cc (rw (big, r, lower) at e))
      | inr (p', r) ↦
          let (high, prev, found) = to_parent-eq-ok p.1 r in
          let sp' : get p'.0 ≡ some p'.1 = subst (λ g. get g ≡ some p'.1) prev found in
          let down = v p.0 p.1 p'.1 sp high found in
          let l = lower-Lowered v n target p' sp' (rw (big, r, lower) at e) in
          record {
            stored = l.stored;
            steps = suc l.steps;
            path = λ j.
                ap (λ m. ancestor m p.0) (omega arith)
                ∙ ancestor-step (l.steps + j) p.0 p.1 sp high
                ∙ ap (ancestor (l.steps + j)) prev
                ∙ l.path j;
            height = omega (arith, down, l.height);
            low = l.low;
            not_past = inr (elim l.not_past [
              | inl none_left ↦ omega (arith, none_left, l.height, down, ltb→lt _ _ big)
              | inr at ↦ at
            ]);
          }
    ]
  ]
