-- ===== src/Block/Difficulty/Agreement.antt =====
-- block.go: the three computations of the difficulty give one result on one chain.
use blocknet_core.Prelude.{
  ℕ, zero, suc, ◌+◌, ◌-◌, ◌≤◌, ◌<◌, ◌≡◌, refl, sym, ap, ◌∙◌, subst, inl, inr, List, [], ◌∷◌, Bytes,
  false, Option, some, ok, arith, ltb, ◌==◌, get_elem?, Bool-cases, Option-cases, le→ltb-false,
  ltb-false→le, leb, leb→le,
}
use blocknet_core.Block.{Header, Block}
use blocknet_core.Block.Difficulty.{
  lwma_window, min_difficulty, lwma_loop, lwma_result, lwma, header_of, compute_lwma,
  collect_window, expected_difficulty, next_difficulty, window_difficulty,
}

-- A chain from its first block on, whose blocks are found by the hashes that their children hold.
pub record IsChain (get_parent : Bytes → Option Block) (blocks : List Block) : Type 0 where
  pub linked :
      (k : ℕ) (b : Block)
      → get_elem? blocks (suc k) ≡ some b
      → (a : Block) × (get_elem? blocks k ≡ some a) × (get_parent b.header.prev_hash ≡ some a)
  pub heights : (k : ℕ) (b : Block) → get_elem? blocks k ≡ some b → b.header.height ≡ k

lwma_loop_same :
    (at by : ℕ → Option Header) (n i weighted difficulties : ℕ)
    → 1 ≤ i
    → ((k : ℕ) → k < n + i → at k ≡ by k)
    → lwma_loop at n i weighted difficulties ≡ lwma_loop by n i weighted difficulties
unfolding lwma_loop
lwma_loop_same at by zero i ws ds one same = refl
lwma_loop_same at by (suc n) i ws ds one same =
    let before = same (i - 1) (omega (arith, one)) in
    let here = same i (omega arith) in
    elim (Option-cases (by (i - 1))) [
      | inl p ↦ rw (before ∙ p, p, lwma_loop) refl
      | inr (prev, p) ↦ elim (Option-cases (by i)) [
        | inl q ↦ rw (before ∙ p, here ∙ q, p, q, lwma_loop) refl
        | inr (cur, q) ↦
            rw (before ∙ p, here ∙ q, p, q, lwma_loop)
              (lwma_loop_same at by n (i + 1) _ _ (omega arith) (λ k h. same k (omega (arith, h))))
      ]
    ]

lwma_same :
    (at by : ℕ → Option Header) → ((k : ℕ) → k ≤ lwma_window → at k ≡ by k) → lwma at ≡ lwma by
unfolding lwma
lwma_same at by same =
    rw (lwma_loop_same at by 60 1 0 0 (omega arith) (λ k h. same k (omega (arith, h))), lwma) refl

lwma_loop_total :
    (at : ℕ → Option Header) (n i weighted difficulties : ℕ)
    → 1 ≤ i
    → ((k : ℕ) → k < n + i → (h : Header) × (at k ≡ some h))
    → (r : ℕ × ℕ) × (lwma_loop at n i weighted difficulties ≡ some r)
unfolding lwma_loop
lwma_loop_total at zero i ws ds one all = ((ws, ds), refl)
lwma_loop_total at (suc n) i ws ds one all =
    let (prev, p) = all (i - 1) (omega (arith, one)) in
    let (cur, q) = all i (omega arith) in
    rw (p, q, lwma_loop)
      (lwma_loop_total at n (i + 1) _ _ (omega arith) (λ k h. all k (omega (arith, h))))

lwma_total :
    (at : ℕ → Option Header)
    → ((k : ℕ) → k ≤ lwma_window → (h : Header) × (at k ≡ some h))
    → (d : ℕ) × (lwma at ≡ some d)
unfolding lwma
lwma_total at all =
    let t = lwma_loop_total at 60 1 0 0 (omega arith) (λ k h. all k (omega (arith, h))) in
    (lwma_result t.0.0 t.0.1, rw (t.1, lwma) refl)

module _ (get_parent : Bytes → Option Block) (blocks : List Block)
    (v : IsChain get_parent blocks) where
  -- The window that the loop over the parents collects is the stretch of the chain.
  abbrev Window : ℕ → ℕ → List Block → List Block → Type 0
  Window n k later window =
      ((i : ℕ) → i ≤ n → get_elem? window i ≡ get_elem? blocks (k - n + i))
      × ((i : ℕ) → get_elem? window (suc (n + i)) ≡ get_elem? later i)

  collect_window_eq :
      (n k : ℕ) (current : Block) (later : List Block)
      → get_elem? blocks k ≡ some current
      → n ≤ k
      → (window : List Block) × (collect_window get_parent n current later ≡ ok window)
        × Window n k later window
  unfolding collect_window
  collect_window_eq zero k current later here le = (
    current ∷ later,
    refl,
    (
      (λ i h.
          let first : i ≡ 0 = omega (arith, h) in
          let at_k : k ≡ k - 0 + 0 = omega arith in
          subst (λ j. get_elem? (current ∷ later) j ≡ get_elem? blocks (k - 0 + j)) (sym first)
            (sym (subst (λ m. get_elem? blocks m ≡ some current) at_k here))),
      λ i. ap (get_elem? later) (omega arith),
    ),
  )
  collect_window_eq (suc n) zero current later here le = absurd (omega arith)
  collect_window_eq (suc n) (suc k) current later here le =
      let (parent, there, found) = v.linked k current here in
      let (window, e, (inside, outside)) =
        collect_window_eq n k parent (current ∷ later) there (omega arith) in
      let higher : (current.header.height == 0) ≡ false =
        rw (v.heights (suc k) current here) (ground arith) in
      (
        window,
        rw (higher, found, collect_window) e,
        (
          (λ i h. elim (Bool-cases (leb i n)) [
            | inl le ↦
                let same : k - n + i ≡ suc k - suc n + i = omega arith in
                subst (λ m. get_elem? window i ≡ get_elem? blocks m) same (inside i (leb→le _ _ le))
            | inr gt ↦
                let last : i ≡ suc (n + 0) = ground (arith, h) in
                let top : suc k ≡ suc k - suc n + i = omega (arith, last, le) in
                subst (λ m. get_elem? window i ≡ get_elem? blocks m) top
                  (ap (get_elem? window) last ∙ outside 0 ∙ sym here)
          ]),
          λ i. subst (λ m. get_elem? window m ≡ get_elem? later i) (omega arith) (outside (suc i)),
        ),
      )

  earlier :
      (k i : ℕ) (b : Block)
      → get_elem? blocks k ≡ some b
      → i ≤ k
      → (a : Block) × (get_elem? blocks (k - i) ≡ some a)
  earlier k zero b here le = (b, subst (λ m. get_elem? blocks m ≡ some b) (omega arith) here)
  earlier zero (suc i) b here le = absurd (omega arith)
  earlier (suc k) (suc i) b here le =
      let (a, there, _) = v.linked k b here in
      let (c, found) = earlier k i a there (omega arith) in
      (c, subst (λ m. get_elem? blocks m ≡ some c) (omega arith) found)

  -- The stretch of the chain that ends at height h, as all three computations read it.
  abbrev stretch : ℕ → ℕ → Option Header
  stretch h i = header_of (get_elem? blocks (h - lwma_window + i))

  stretch_total :
      (h : ℕ) (parent : Block)
      → get_elem? blocks h ≡ some parent
      → lwma_window ≤ h
      → (k : ℕ) → k ≤ lwma_window
      → (a : Header) × (stretch h k ≡ some a)
  stretch_total h parent here le k small =
      let (a, found) = earlier h (60 - k) parent here (omega arith) in
      (
        a.header,
        ap header_of (subst (λ m. get_elem? blocks m ≡ some a) (omega (arith, small, le)) found),
      )

  expected-stretch :
      (h : ℕ) (parent : Block)
      → get_elem? blocks h ≡ some parent
      → lwma_window ≤ h
      → (d : ℕ) × (expected_difficulty (some parent) get_parent ≡ ok d)
        × (lwma (stretch h) ≡ some d)
  unfolding expected_difficulty
  expected-stretch h parent here le =
      let (d, e) = lwma_total (stretch h) (stretch_total h parent here le) in
      let (window, w, (inside, outside)) = collect_window_eq 60 h parent [] here le in
      let high : ltb parent.header.height lwma_window ≡ false =
        rw (v.heights h parent here) (le→ltb-false _ _ le) in
      let same : lwma (λ i. header_of (get_elem? window i)) ≡ some d =
        lwma_same (λ i. header_of (get_elem? window i)) (stretch h)
          (λ k small. ap header_of (inside k small))
        ∙ e in
      let last : window_difficulty window ≡ ok d =
        unfold window_difficulty in rw (same, window_difficulty) refl in
      (d, rw (high, w, expected_difficulty) last, e)

  -- On a chain whose blocks know their parents, the difficulty that a block from a peer must have by
  -- its parent's ancestors is the one that computeLWMA finds in the list of blocks, at every height
  -- from the window on and below 2^64; both exist.
  pub expected_difficulty-compute_lwma :
      (h : ℕ) (parent : Block)
      → get_elem? blocks h ≡ some parent
      → lwma_window ≤ h
      → h < 18446744073709551616
      → (d : ℕ) × (expected_difficulty (some parent) get_parent ≡ ok d)
        × (compute_lwma blocks h ≡ some d)
  unfolding compute_lwma
  expected_difficulty-compute_lwma h parent here le fits =
      let (d, x, e) = expected-stretch h parent here le in
      (
        d,
        x,
        lwma_same _ (stretch h)
              (λ k small. ap (λ m. header_of (get_elem? blocks m)) (omega (arith, le, fits, small)))
            ∙ e,
      )

  -- On a chain whose blocks know their parents, the difficulty by the parent's ancestors is also the one that the chain's own state
  -- gives for the next block, at every height, if the last 61 blocks are cached under the hashes of
  -- their heights; both exist.
  pub expected_difficulty-next_difficulty :
      (by_height : ℕ → Bytes) (cache : Bytes → Option Block) (h : ℕ) (parent : Block)
      → get_elem? blocks h ≡ some parent
      → ((k : ℕ) → k ≤ h → h ≤ k + lwma_window → cache (by_height k) ≡ get_elem? blocks k)
      → (d : ℕ) × (expected_difficulty (some parent) get_parent ≡ ok d)
        × (next_difficulty h by_height cache ≡ some d)
  unfolding expected_difficulty next_difficulty
  expected_difficulty-next_difficulty by_height cache h parent here cached =
      elim (Bool-cases (ltb h lwma_window)) [
        | inl low ↦ (
          min_difficulty,
          rw (v.heights h parent here, low, expected_difficulty) refl,
          rw (low, next_difficulty) refl,
        )
        | inr high ↦
            let (d, x, e) = expected-stretch h parent here (ltb-false→le _ _ high) in
            (
              d,
              x,
              rw (high, next_difficulty)
                  (lwma_same _ (stretch h) (λ k small. ap header_of (
                      cached (h - 60 + k) (omega (arith, ltb-false→le _ _ high, small))
                        (omega arith)))
                    ∙ e),
            )
      ]
