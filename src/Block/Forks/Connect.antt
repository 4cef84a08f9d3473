-- ===== src/Block/Forks/Connect.antt =====
-- block.go: collectConnectPathLocked returns the blocks between the common block and the new tip.
use blocknet_core.Prelude.{
  ℕ, zero, suc, ◌+◌, ◌≤◌, ◌<◌, ◌≡◌, ◌≢◌, refl, subst, inl, inr, List, [], ◌∷◌, Bytes, Option, none,
  some, ok, arith, ◌==◌, bytes_eq, bytes_eq_iff, Bool-cases, Option-cases, Result-cases, some_eq,
  ok-injective,
}
use blocknet_core.Block.{Block}
use blocknet_core.Block.Forks.{get_or_missing, connect_loop, collect_connect_path}
use blocknet_core.Block.Forks.Ancestry.{ancestor, Linked}
use blocknet_core.Block.Forks.Common.{stored_block}
use blocknet_core.Block.Forks.Totality.{get_or_missing_ok}

module _ (get : Bytes → Option Block) where
  -- Stored blocks, each the child of the one before, from a child of `from` up to `tip`.
  abbrev pub Connects : Bytes → List Block → Bytes → Type 0
  Connects from [] tip = from ≡ tip
  Connects from (b ∷ bs) tip =
      (b.header.prev_hash ≡ from) × ((h : Bytes) × (get h ≡ some b) × Connects h bs tip)

  connect_loop-Connects :
      (n : ℕ) (common current tip : Bytes) (later : List Block) {path : List Block}
      → Connects current later tip
      → connect_loop get n common current later ≡ ok path
      → Connects common path tip
  unfolding connect_loop
  connect_loop-Connects zero common current tip later c e = absurd (cc e)
  connect_loop-Connects (suc n) common current tip later {path} c e =
      elim (Bool-cases (bytes_eq current common)) [
        | inl met ↦
            let same : current ≡ common = (bytes_eq_iff _ _).0 met in
            subst (λ p. Connects common p tip) (ok-injective (rw (met, connect_loop) at e))
              (subst (λ h. Connects h later tip) same c)
        | inr apart ↦ elim (Result-cases (get_or_missing get current)) [
          | inl (x, g) ↦ absurd (cc (rw (apart, g, connect_loop) at e))
          | inr (b, g) ↦ elim (Bool-cases (b.header.height == 0)) [
            | inl bottom ↦ absurd (cc (rw (apart, g, bottom, connect_loop) at e))
            | inr above ↦
                connect_loop-Connects n common b.header.prev_hash tip (b ∷ later)
                  (refl, (current, stored_block get current g, c))
                  (rw (apart, g, above, connect_loop) at e)
          ]
        ]
      ]

  -- The path that collectConnectPathLocked returns leads from the common block to the new tip: its
  -- blocks are stored, each is the child of the one before, the first is a child of the common block
  -- and the last is the tip.
  pub collect_connect_path-Connects :
      (common tip : Bytes) {path : List Block}
      → collect_connect_path get common tip ≡ ok path
      → Connects common path tip
  unfolding collect_connect_path
  collect_connect_path-Connects common tip e = elim (Option-cases (get tip)) [
    | inl g ↦ connect_loop-Connects 1 common tip tip [] refl (rw (g, collect_connect_path) at e)
    | inr (b, g) ↦
        connect_loop-Connects (b.header.height + 2) common tip tip [] refl
          (rw (g, collect_connect_path) at e)
  ]

  -- A hash has no more ancestors than its block is high.
  ancestor_bound :
      Linked get
      → (i : ℕ) (h d : Bytes) (b : Block) → get h ≡ some b
      → ancestor get i h ≡ some d
      → i ≤ b.header.height
  unfolding ancestor
  ancestor_bound v zero h d b g x = omega arith
  ancestor_bound v (suc i) h d b g x = elim (Bool-cases (b.header.height == 0)) [
    | inl low ↦ absurd (cc (rw (g, low, ancestor) at x))
    | inr high ↦
        let rest : ancestor get i b.header.prev_hash ≡ some d = rw (g, high, ancestor) at x in
        elim (Option-cases (get b.header.prev_hash)) [
          | inl none_there ↦ first_only i none_there rest (ground (arith, high))
          | inr (p, there) ↦ omega (
            arith,
            ancestor_bound v i b.header.prev_hash d p there rest,
            v h b p g (ground (arith, high)) there,
          )
        ]
  ]
    where
      first_only :
          (i : ℕ)
          → get b.header.prev_hash ≡ none
          → ancestor get i b.header.prev_hash ≡ some d
          → b.header.height ≢ 0
          → suc i ≤ b.header.height
      first_only zero n r high = omega (arith, high)
      first_only (suc i) n r high = absurd (cc (rw (n, ancestor) at r))

  connect_loop_total :
      (n i : ℕ) (common current : Bytes) (later : List Block)
      → ancestor get i current ≡ some common
      → i < n
      → (path : List Block) × (connect_loop get n common current later ≡ ok path)
  unfolding connect_loop ancestor
  connect_loop_total zero i common current later x fuel = absurd (omega (arith, fuel))
  connect_loop_total (suc n) zero common current later x fuel =
      (later, rw ((bytes_eq_iff _ _).1 (some_eq x), connect_loop) refl)
  connect_loop_total (suc n) (suc i) common current later x fuel =
      elim (Bool-cases (bytes_eq current common)) [
        | inl met ↦ (later, rw (met, connect_loop) refl)
        | inr apart ↦ elim (Option-cases (get current)) [
          | inl none_there ↦ absurd (cc (rw (none_there, ancestor) at x))
          | inr (b, g) ↦ elim (Bool-cases (b.header.height == 0)) [
            | inl bottom ↦ absurd (cc (rw (g, bottom, ancestor) at x))
            | inr above ↦
                let rest : ancestor get i b.header.prev_hash ≡ some common =
                  rw (g, above, ancestor) at x in
                let (path, e) =
                  connect_loop_total n i common b.header.prev_hash (b ∷ later) rest
                    (omega (arith, fuel)) in
                (path, rw (apart, get_or_missing_ok get current b g, above, connect_loop) e)
          ]
        ]
      ]

  -- In a store of linked blocks collectConnectPathLocked returns a path from every hash that lies
  -- below a stored tip; the path is then one that connects them.
  pub collect_connect_path_total :
      (i : ℕ) (common tip : Bytes) (b : Block)
      → Linked get
      → get tip ≡ some b
      → ancestor get i tip ≡ some common
      → (path : List Block) × (collect_connect_path get common tip ≡ ok path)
        × Connects common path tip
  unfolding collect_connect_path
  collect_connect_path_total i common tip b v g x =
      let bound = ancestor_bound v i tip common b g x in
      let (path, e) =
        connect_loop_total (b.header.height + 2) i common tip [] x (omega (arith, bound)) in
      let whole : collect_connect_path get common tip ≡ ok path = rw (g, collect_connect_path) e in
      (path, whole, collect_connect_path-Connects common tip whole)
