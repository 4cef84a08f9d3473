-- ===== src/Block/Forks/Totality.antt =====
-- block.go: findCommonAncestorLocked finds a block wherever two branches share a stored one.
use blocknet_core.Prelude.{
  ℕ, zero, suc, ◌+◌, ◌-◌, ◌≤◌, ◌<◌, ◌≡◌, ◌≢◌, refl, sym, ap, ◌∙◌, subst, inl, inr, Bytes, false,
  ◌||◌, Option, some, ok, arith, ltb, ◌==◌, bytes_eq, bytes_eq-false_iff, Bool-cases, Option-cases,
  some_eq, ltb→lt,
}
use blocknet_core.Block.{Block}
use blocknet_core.Block.Forks.{get_or_missing, to_parent, lower, meet, find_common_ancestor}
use blocknet_core.Block.Forks.Ancestry.{
  ancestor, Linked, Lowered, ancestor-height, lower-Lowered, ancestor-step,
}
use blocknet_core.Block.Forks.Common.{
  both_step, lowered_level, lowered_far, lowered_first, lowered_second,
}

pub get_or_missing_ok :
    (get : Bytes → Option Block) (g : Bytes) (b : Block)
    → get g ≡ some b
    → get_or_missing get g ≡ ok b
unfolding get_or_missing
get_or_missing_ok get g b there = rw (there, get_or_missing) refl

to_parent_ok :
    (get : Bytes → Option Block) (b p : Block)
    → b.header.height ≢ 0
    → get b.header.prev_hash ≡ some p
    → to_parent get b ≡ ok (b.header.prev_hash, p)
unfolding to_parent
to_parent_ok get b p high there =
    let positive : (b.header.height == 0) ≡ false = ground (arith, high) in
    let found = get_or_missing_ok get b.header.prev_hash p there in rw positive (rw found refl)

module _ (get : Bytes → Option Block) (v : Linked get) (d : Bytes) (e : Block)
    (de : get d ≡ some e) where
  -- Every hash on the way down to a stored block is that of a stored block.
  known : (n : ℕ) (g : Bytes) → ancestor get n g ≡ some d → (b : Block) × (get g ≡ some b)
  unfolding ancestor
  known zero g x = (e, ap get (some_eq x) ∙ de)
  known (suc n) g x = elim (Option-cases (get g)) [
    | inl none_there ↦ absurd (cc (rw (none_there, ancestor) at x))
    | inr (b, there) ↦ (b, there)
  ]

  -- A step down towards `d`.
  step_down :
      (k : ℕ) (g : Bytes) (b : Block)
      → get g ≡ some b
      → ancestor get (suc k) g ≡ some d
      → (b.header.height ≢ 0)
        × ((p : Block) × (to_parent get b ≡ ok (b.header.prev_hash, p))
            × (get b.header.prev_hash ≡ some p)
            × (ancestor get k b.header.prev_hash ≡ some d))
  step_down k g b gb x =
      let height = ancestor-height get v (suc k) g d b e gb de x in
      let high : b.header.height ≢ 0 = λ z. absurd (omega (arith, height, z)) in
      let rest = sym (ancestor-step get k g b gb high) ∙ x in
      let (p, there) = known k b.header.prev_hash rest in
      (high, (p, to_parent_ok get b p high there, there, rest))

  lower_total :
      (n target i : ℕ) (g : Bytes) (b : Block)
      → get g ≡ some b
      → ancestor get i g ≡ some d
      → e.header.height ≤ target
      → b.header.height < n
      → (q : Bytes × Block) × (lower get n target (g, b) ≡ ok q)
  unfolding lower
  lower_total zero target i g b gb x low fuel = absurd (omega (arith, fuel))
  lower_total (suc n) target i g b gb x low fuel = elim (Bool-cases (ltb target b.header.height)) [
    | inr small ↦ ((g, b), rw (small, lower) refl)
    | inl big ↦
        let height = ancestor-height get v i g d b e gb de x in
        let i_eq : i ≡ suc (i - 1) = omega (arith, height, ltb→lt _ _ big, low) in
        let (high, (p, up, there, rest)) =
          step_down (i - 1) g b gb (subst (λ z. ancestor get z g ≡ some d) i_eq x) in
        let down = v g b p gb high there in
        let (q, r) =
          lower_total n target (i - 1) b.header.prev_hash p there rest low
            (omega (arith, down, fuel)) in
        (q, rw (big, up, lower) r)
  ]

  meet_total :
      (n i j : ℕ) (g h : Bytes) (b c : Block)
      → get g ≡ some b
      → get h ≡ some c
      → b.header.height ≡ c.header.height
      → ancestor get i g ≡ some d
      → ancestor get j h ≡ some d
      → b.header.height < n
      → (r : Bytes × ℕ) × (meet get n (g, b) (h, c) ≡ ok r)
  unfolding meet
  meet_total zero i j g h b c gb hc level x y fuel = absurd (omega (arith, fuel))
  meet_total (suc n) i j g h b c gb hc level x y fuel = elim (Bool-cases (bytes_eq g h)) [
    | inl met ↦ ((g, b.header.height), rw (met, meet) refl)
    | inr apart ↦
        let first = ancestor-height get v i g d b e gb de x in
        let second = ancestor-height get v j h d c e hc de y in
        let (k, i_eq, j_eq) =
          both_step get i j g h d (omega (arith, level, first, second))
            ((bytes_eq-false_iff _ _).0 apart) x y in
        let (b_high, (p, b_up, b_there, b_rest)) =
          step_down k g b gb (subst (λ z. ancestor get z g ≡ some d) i_eq x) in
        let (c_high, (q, c_up, c_there, c_rest)) =
          step_down k h c hc (subst (λ z. ancestor get z h ≡ some d) j_eq y) in
        let above : (b.header.height == 0 || c.header.height == 0) ≡ false =
          ground (arith, b_high, c_high) in
        let b_down = v g b p gb b_high b_there in
        let c_down = v h c q hc c_high c_there in
        let (r, s) =
          meet_total n k k b.header.prev_hash c.header.prev_hash p q b_there c_there
            (omega (arith, level, b_down, c_down)) b_rest c_rest (omega (arith, b_down, fuel)) in
        (r, rw (apart, above, b_up, c_up, meet) s)
  ]

  -- From the higher tip's block `p` on, the other loops return as well.
  second_total :
      (i j : ℕ) (a b : Bytes) (first second : Block) (p : Bytes × Block)
      → get a ≡ some first
      → get b ≡ some second
      → ancestor get i a ≡ some d
      → ancestor get j b ≡ some d
      → Lowered get second.header.height (a, first) p
      → (q : Bytes × Block) × (lower get (second.header.height + 1) p.1.header.height (b, second)
          ≡ ok q)
        × ((r : Bytes × ℕ) × (meet get (p.1.header.height + 1) p q ≡ ok r))
  second_total i j a b first second p fa fb x y la =
      let i_height = ancestor-height get v i a d first e fa de x in
      let j_height = ancestor-height get v j b d second e fb de y in
      let low : e.header.height ≤ p.1.header.height = elim la.not_past [
        | inl none_left ↦ omega (arith, none_left, la.height, i_height)
        | inr at ↦ omega (arith, at, j_height)
      ] in
      let (q, lq) =
        lower_total (second.header.height + 1) p.1.header.height j b second fb y low
          (omega arith) in
      (
        q,
        lq,
        meeting q
            (lower-Lowered get v (second.header.height + 1) p.1.header.height (b, second) fb lq)
            i_height j_height,
      )
    where
      meeting :
          (q : Bytes × Block)
          → Lowered get p.1.header.height (b, second) q
          → first.header.height ≡ e.header.height + i
          → second.header.height ≡ e.header.height + j
          → (r : Bytes × ℕ) × (meet get (p.1.header.height + 1) p q ≡ ok r)
      meeting q lb i_height j_height =
          let (i_far, j_far) =
            lowered_far get a b first second p q la lb i j e.header.height i_height j_height in
          meet_total (p.1.header.height + 1) (i - la.steps) (j - lb.steps) p.0 q.0 p.1 q.1 la.stored
            lb.stored (lowered_level get a b first second p q la lb)
            (lowered_first get a b first second p q la lb i i_far ∙ x)
            (lowered_second get a b first second p q la lb j j_far ∙ y) (omega arith)

  -- If two hashes of stored blocks have a stored block below both of them, and stored blocks are
  -- linked, findCommonAncestorLocked returns a block: none of its loops runs out of its fuel or into
  -- a block that is missing.
  pub find_common_ancestor_total :
      (i j : ℕ) (a b : Bytes)
      → ancestor get i a ≡ some d
      → ancestor get j b ≡ some d
      → (r : Bytes × ℕ) × (find_common_ancestor get a b ≡ ok r)
  unfolding find_common_ancestor
  find_common_ancestor_total i j a b x y =
      let (first, fa) = known i a x in
      let (second, fb) = known j b y in
      let j_height = ancestor-height get v j b d second e fb de y in
      let (p, lp) =
        lower_total (first.header.height + 1) second.header.height i a first fa x
          (omega (arith, j_height)) (omega arith) in
      let la =
        lower-Lowered get v (first.header.height + 1) second.header.height (a, first) fa lp in
      let (q, lq, (r, m)) = second_total i j a b first second p fa fb x y la in
      (
        r,
        rw (get_or_missing_ok get a first fa)
            (rw (get_or_missing_ok get b second fb) (rw lp (rw lq m))),
      )
