-- ===== src/Block/Difficulty/Bounds.antt =====
-- block.go: how far one step of LWMA moves the difficulty.
use native.Mathlib.Nat.{mul-le-mul, le-div_iff_mul-le, div-le_of_le-mul, suc-mul}
use blocknet_core.Prelude.{
  ℕ, zero, suc, ◌+◌, ◌-◌, ◌*◌, ◌/◌, ◌%◌, ◌≤◌, ◌<◌, ◌≡◌, Option, some, arith, ltb, Option-cases,
  some_eq, ap, inl, inr, ◌⊎◌, subst, Bool-cases, false, le→ltb-false, ltb→lt, ltb-false→le,
}
use blocknet_core.Block.{Header, ltb_i64}
use blocknet_core.Block.Difficulty.{
  lwma_window, min_difficulty, solvetime, lwma_loop, lwma_result, lwma,
}

solvetime_bounds : (prev cur : Header) → (1 ≤ solvetime prev cur) × (solvetime prev cur ≤ 1800)
unfolding solvetime
solvetime_bounds prev cur = (ground arith, ground arith)

-- The weights of `n` rounds from round `i` on.
abbrev weights : ℕ → ℕ → ℕ
weights zero i = 0
weights (suc n) i = i + weights n (i + 1)

module _ (at : ℕ → Option Header) (lo hi : ℕ) where
  abbrev Bounded : Type 0
  Bounded = (k : ℕ) (h : Header) → at k ≡ some h → (lo ≤ h.difficulty) × (h.difficulty ≤ hi)

  lwma_loop_bounds :
      (n i weighted difficulties : ℕ) {w d : ℕ}
      → Bounded
      → weighted + 1800 * weights n i < 18446744073709551616
      → difficulties + n * hi < 18446744073709551616
      → lwma_loop at n i weighted difficulties ≡ some (w, d)
      → (weighted + weights n i ≤ w)
        × (w ≤ weighted + 1800 * weights n i)
        × (difficulties + n * lo ≤ d)
        × (d ≤ difficulties + n * hi)
  unfolding lwma_loop
  lwma_loop_bounds zero i ws ds {w = w} {d = d} b small fits e =
      let first : ws ≡ w = ap (λ (p : ℕ × ℕ). p.0) (some_eq e) in
      let second : ds ≡ d = ap (λ (p : ℕ × ℕ). p.1) (some_eq e) in
      (omega (arith, first), omega (arith, first), omega (arith, second), omega (arith, second))
  lwma_loop_bounds (suc n) i ws ds b small fits e = elim (Option-cases (at (i - 1))) [
    | inl p ↦ absurd (cc (rw (p, lwma_loop) at e))
    | inr (prev, p) ↦ elim (Option-cases (at i)) [
      | inl q ↦ absurd (cc (rw (p, q, lwma_loop) at e))
      | inr (cur, q) ↦
          let t = solvetime_bounds prev cur in
          let c = b i cur q in
          let up : solvetime prev cur * i ≤ 1800 * i = mul-le-mul t.1 (omega arith) in
          let down : 1 * i ≤ solvetime prev cur * i = mul-le-mul t.0 (omega arith) in
          let hs = suc-mul n hi in
          let ls = suc-mul n lo in
          let we : (ws + solvetime prev cur * i) % 18446744073709551616
              ≡ ws + solvetime prev cur * i =
            omega (arith, up, small) in
          let de : (ds + cur.difficulty) % 18446744073709551616 ≡ ds + cur.difficulty =
            omega (arith, c, fits, hs) in
          let r =
            lwma_loop_bounds n (i + 1) (ws + solvetime prev cur * i) (ds + cur.difficulty) b
              (omega (arith, up, small)) (omega (arith, c, fits, hs))
              (rw (we, de) at (rw (p, q, lwma_loop) at e)) in
          (
            omega (arith, r, down),
            omega (arith, r, up),
            omega (arith, r, c, ls),
            omega (arith, r, c, hs),
          )
    ]
  ]

-- A number that a quotient with bounded parts cannot leave.
quotient_bounds :
    (lo hi average w : ℕ)
    → 1830 ≤ w
    → w ≤ 3294000
    → lo ≤ average
    → average ≤ hi
    → (lo / 6 ≤ average * 549000 / w) × (average * 549000 / w ≤ 300 * hi)
quotient_bounds lo hi average w w_lo w_hi a_lo a_hi =
    let up : 1830 * (300 * hi) ≤ w * (300 * hi) = mul-le-mul w_lo (omega arith) in
    let down : lo / 6 * w ≤ lo / 6 * 3294000 = mul-le-mul {n₁ = lo / 6} (omega arith) w_hi in
    (
      (le-div_iff_mul-le (omega (arith, w_lo))).1 (omega (arith, down, a_lo)),
      div-le_of_le-mul w (omega (arith, up, a_hi)),
    )

lwma_result_bounds :
    (lo hi w d : ℕ)
    → 1830 ≤ w
    → w ≤ 3294000
    → 60 * lo ≤ d
    → d ≤ 60 * hi
    → hi * 549000 < 18446744073709551616
    → (lo / 6 ≤ lwma_result w d)
      × (min_difficulty ≤ lwma_result w d)
      × ((lwma_result w d ≤ min_difficulty) ⊎ (lwma_result w d ≤ 300 * hi))
unfolding lwma_result
lwma_result_bounds lo hi w d w_lo w_hi d_lo d_hi fits =
    let q =
      quotient_bounds lo hi (d / 60) w w_lo w_hi (omega (arith, d_lo)) (omega (arith, d_hi)) in
    let same : d / 60 * 549000 % 18446744073709551616 ≡ d / 60 * 549000 =
      omega (arith, d_hi, fits) in
    let positive : ltb_i64 w 1 ≡ false = le→ltb-false _ _ (omega (arith, w_lo, w_hi)) in
    rw (same, positive)
      (elim (Bool-cases (ltb (d / 60 * 549000 / w) 4)) [
        | inl low ↦ rw low (omega (arith, q, ltb→lt _ _ low), omega arith, inl (omega arith))
        | inr high ↦ rw high (q.0, ltb-false→le _ _ high, inr q.1)
      ])

-- If the blocks of the window have difficulties from `lo` to `hi`, `hi` is small enough for the
-- product in uint64, and the computation gives a difficulty, then that is at least the floor of 4 and a
-- sixth of `lo`, rounded down, and it is the floor or at most 300 times `hi`, whatever the timestamps.
pub lwma_bounds :
    (at : ℕ → Option Header) (lo hi : ℕ) {next : ℕ}
    → Bounded at lo hi
    → hi * 549000 < 18446744073709551616
    → lwma at ≡ some next
    → (lo / 6 ≤ next) × (min_difficulty ≤ next) × ((next ≤ min_difficulty) ⊎ (next ≤ 300 * hi))
unfolding lwma
lwma_bounds at lo hi b fits e = elim (Option-cases (lwma_loop at lwma_window 1 0 0)) [
  | inl p ↦ absurd (cc (rw (p, lwma) at e))
  | inr ((w, d), p) ↦
      let r = lwma_loop_bounds at lo hi 60 1 0 0 b (omega arith) (omega (arith, fits)) p in
      subst
        (λ next.
          (lo / 6 ≤ next) × (min_difficulty ≤ next) × ((next ≤ min_difficulty) ⊎ (next ≤ 300 * hi)))
        (some_eq (rw (p, lwma) at e))
        (lwma_result_bounds lo hi w d (omega (arith, r)) (omega (arith, r)) (omega (arith, r))
          (omega (arith, r)) fits)
]
