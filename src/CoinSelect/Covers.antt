-- ===== src/CoinSelect/Covers.antt =====
-- wallet/coinselect.go: about what SelectInputs returns.
use blocknet_core.Prelude.{
  ℕ, zero, suc, ◌≤◌, ◌≡◌, refl, subst, List, [], ◌∷◌, Bytes, Bool, none, some, ok, ltb, ◌==◌,
  ==_iff, length, get_elem?, All, All_weaken, All-append, arith, inl, inr, Bool-cases, Option-cases,
  some_eq, ok-injective,
}
use blocknet_core.Prelude.Counts.{count}
use blocknet_core.Prelude.Weights.{weigh-Perm, count-Perm, length-Perm}
use blocknet_core.CoinSelect.{
  OwnedOutput, Orders, add_u64, unspent, total_from, singles, pairs_with, pairs, not_chosen, draw,
  find_exact_match, select_smallest_first_capped, select_largest_first_capped, select_mixed,
  select_strategies, select_inputs, with_decoys, select_inputs_with_decoys,
}
use blocknet_core.CoinSelect.Loops.{
  Pays, total_from-amounts, take_until-Pays, count-unspent-le, count_split, replace_all-Pays,
}

larger_pool :
    (target : ℕ) (o : OwnedOutput) (os selected : List OwnedOutput)
    → Pays target os selected
    → Pays target (o ∷ os) selected
larger_pool target o os selected (covers, short, within) =
    (covers, short, λ p. omega (arith, within p))

abbrev PaysAlone : ℕ → List OwnedOutput → OwnedOutput → Type 0
PaysAlone target os o = Pays target os (o ∷ [])

abbrev PaysPaired : ℕ → List OwnedOutput → OwnedOutput × OwnedOutput → Type 0
PaysPaired target os p = Pays target os (p.0 ∷ p.1 ∷ [])

singles-PaysAlone :
    (target : ℕ) (os : List OwnedOutput) → All (PaysAlone target os) (singles target os)
unfolding singles
singles-PaysAlone target [] = tt
singles-PaysAlone target (o ∷ os) =
    let rest =
      All_weaken (PaysAlone target os) (PaysAlone target (o ∷ os)) (singles target os)
        (λ a. larger_pool target o os (a ∷ [])) (singles-PaysAlone target os) in
    elim (Bool-cases (o.amount == target)) [
      | inr other ↦ rw (singles, other) rest
      | inl exact ↦
          rw (singles, exact)
            ((omega (arith, (==_iff o.amount target).0 exact), omega arith, λ p. omega arith), rest)
    ]

pairs_with-PaysPaired :
    (target : ℕ) (a : OwnedOutput) (os : List OwnedOutput)
    → All (PaysPaired target (a ∷ os)) (pairs_with target a os)
unfolding pairs_with
pairs_with-PaysPaired target a [] = tt
pairs_with-PaysPaired target a (b ∷ bs) =
    let rest =
      All_weaken (PaysPaired target (a ∷ bs)) (PaysPaired target (a ∷ b ∷ bs))
        (pairs_with target a bs)
        (λ q (covers, short, within). (covers, short, λ p. omega (arith, within p)))
        (pairs_with-PaysPaired target a bs) in
    elim (Bool-cases (add_u64 a.amount b.amount == target)) [
      | inr other ↦ rw (pairs_with, other) rest
      | inl exact ↦
          rw (pairs_with, exact)
            (
              (
                omega (arith, (==_iff (add_u64 a.amount b.amount) target).0 exact),
                omega arith,
                λ p. omega arith,
              ),
              rest,
            )
    ]

pairs-PaysPaired :
    (target : ℕ) (os : List OwnedOutput) → All (PaysPaired target os) (pairs target os)
unfolding pairs
pairs-PaysPaired target [] = tt
pairs-PaysPaired target (a ∷ later) =
    All-append (PaysPaired target (a ∷ later)) (pairs_with target a later) (pairs target later)
      (pairs_with-PaysPaired target a later)
      (All_weaken (PaysPaired target later) (PaysPaired target (a ∷ later)) (pairs target later)
        (λ q. larger_pool target a later (q.0 ∷ q.1 ∷ [])) (pairs-PaysPaired target later))

All-get_elem? {ℓ κ} :
    {A : Type ℓ} (P : A → Type κ) (xs : List A) (i : ℕ) {a : A}
    → All P xs
    → get_elem? xs i ≡ some a
    → P a
All-get_elem? P [] i h e = absurd (cc e)
All-get_elem? P (x ∷ xs) zero h e = subst P (some_eq e) h.0
All-get_elem? P (x ∷ xs) (suc i) h e = All-get_elem? P xs i h.1 e

module _ (orders : Orders) where
  open orders use {shuffle, rand_index, ascending, descending}

  draw_one {ℓ κ} :
      {A : Type ℓ} (P : A → Type κ) (first : A) (rest : List A)
      → All P (first ∷ rest)
      → P (draw orders first rest)
  unfolding draw
  draw_one P first rest h = elim (Option-cases (rand_index (length (first ∷ rest)))) [
    | inl failed ↦ rw (draw, failed) h.0
    | inr (j, drawn) ↦ elim (Option-cases (get_elem? (first ∷ rest) j)) [
      | inl out ↦ rw (draw, drawn, out) h.0
      | inr (a, there) ↦ rw (draw, drawn) (rw there (All-get_elem? P (first ∷ rest) j h there))
    ]
  ]

  pairs_drawn :
      (target : ℕ) (os : List OwnedOutput) (found : List (OwnedOutput × OwnedOutput))
      {r : List OwnedOutput}
      → All (PaysPaired target os) found
      → (elim found [
        | p ∷ more ↦ some ((draw orders p more).0 ∷ (draw orders p more).1 ∷ [])
        | [] ↦ none
      ])
        ≡ some r
      → Pays target os r
  pairs_drawn target os [] h e = absurd (cc e)
  pairs_drawn target os (p ∷ more) h e =
      subst (Pays target os) (some_eq e) (draw_one (PaysPaired target os) p more h)

  find_exact_match-Pays :
      (target : ℕ) (os : List OwnedOutput) {r : List OwnedOutput}
      → find_exact_match orders os target ≡ some r
      → Pays target os r
  unfolding find_exact_match
  find_exact_match-Pays target os h = go (singles target os) (singles-PaysAlone target os) h
    where
      go :
          (found : List OwnedOutput) {r : List OwnedOutput}
          → All (PaysAlone target os) found
          → (elim found [
            | s ∷ more ↦ some (draw orders s more ∷ [])
            | [] ↦ elim (pairs target os) [
              | p ∷ more ↦ some ((draw orders p more).0 ∷ (draw orders p more).1 ∷ [])
              | [] ↦ none
            ]
          ])
            ≡ some r
          → Pays target os r
      go [] every e = pairs_drawn target os (pairs target os) (pairs-PaysPaired target os) e
      go (s ∷ more) every e =
          subst (Pays target os) (some_eq e) (draw_one (PaysAlone target os) s more every)

  smallest-Pays :
      (target : ℕ) (os : List OwnedOutput) {r : List OwnedOutput}
      → select_smallest_first_capped orders os target 256 ≡ some r
      → Pays target os r
  unfolding select_smallest_first_capped
  smallest-Pays target os {r} h =
      let (covers, short, within) = take_until-Pays target (ascending os) [] 0 refl h in
      (
        omega (arith, covers),
        short,
        λ p. omega (arith, within p, count-Perm p (ascending os) os (orders.ascending-Perm os)),
      )

  select_mixed-Pays :
      (target : ℕ) (os : List OwnedOutput) {r : List OwnedOutput}
      → select_mixed orders os target 256 ≡ some r
      → Pays target os r
  unfolding select_mixed select_largest_first_capped
  select_mixed-Pays target os {r} h =
      elim (Option-cases (select_largest_first_capped orders os target 256)) [
        | inl none_fit ↦ cc (rw (select_mixed, none_fit) at h)
        | inr (base, fits) ↦
            let (covers, short, within) = take_until-Pays target (descending os) [] 0 refl fits in
            let sorted = orders.descending-Perm base in
            let same_sum = weigh-Perm (λ o. o.amount) (descending base) base sorted in
            let total = total_from-amounts base 0 0 refl in
            let base_within : (p : OwnedOutput → Bool) → count p base ≤ count p os = λ p.
              omega
                (arith, within p, count-Perm p (descending os) os (orders.descending-Perm os)) in
            subst (Pays target os) (some_eq (rw (select_mixed, fits) at h)) (
              replace_all-Pays target (total_from 0 base) (descending base)
                (ascending (not_chosen base os)) os (omega (arith, total, same_sum))
                (omega (arith, total, covers))
                (omega (arith, length-Perm (descending base) base sorted, short))
                (λ p. omega (
                  arith,
                  count_split base os base_within p,
                  count-Perm p (descending base) base sorted,
                  count-Perm p (ascending (not_chosen base os)) (not_chosen base os)
                      (orders.ascending-Perm (not_chosen base os)),
                )))
      ]

  select_strategies-Pays :
      (target : ℕ) (os : List OwnedOutput) {r : List OwnedOutput}
      → select_strategies orders os target ≡ ok r
      → Pays target os r
  unfolding select_strategies
  select_strategies-Pays target os {r} h = elim (Option-cases (find_exact_match orders os target)) [
    | inr (x, exact) ↦
        subst (Pays target os) (ok-injective (rw (select_strategies, exact) at h))
          (find_exact_match-Pays target os exact)
    | inl inexact ↦ elim (Option-cases (select_smallest_first_capped orders os target 256)) [
      | inr (x, fits) ↦
          subst (Pays target os) (ok-injective (rw (select_strategies, inexact, fits) at h))
            (smallest-Pays target os fits)
      | inl too_many ↦ elim (Option-cases (select_mixed orders os target 256)) [
        | inr (x, fits) ↦
            subst (Pays target os)
              (ok-injective (rw (select_strategies, inexact, too_many, fits) at h))
              (select_mixed-Pays target os fits)
        | inl never ↦ cc (rw (select_strategies, inexact, too_many, never) at h)
      ]
    ]
  ]

  -- A selection that SelectInputs returns pays the target: the true sum of its amounts reaches it, although the
  -- code adds on uint64, it has at most 256 inputs, and each output of it is an unspent one of the wallet's,
  -- none of them twice.
  pub select_inputs-Pays :
      (available : List OwnedOutput) (target : ℕ) {r : List OwnedOutput}
      → select_inputs orders available target ≡ ok r
      → Pays target (unspent available) r
  unfolding select_inputs
  select_inputs-Pays [] target h = cc h
  select_inputs-Pays (o ∷ os) target {r} h =
      elim (Bool-cases (ltb (total_from 0 (unspent (o ∷ os))) target)) [
        | inl poor ↦ cc (rw (select_inputs, poor) at h)
        | inr rich ↦
            let (covers, short, within) =
              select_strategies-Pays target (shuffle (unspent (o ∷ os)))
                (rw (select_inputs, rich) at h) in
            (
              covers,
              short,
              λ p. omega (
                arith,
                within p,
                count-Perm p (shuffle (unspent (o ∷ os))) (unspent (o ∷ os))
                    (orders.shuffle-Perm (unspent (o ∷ os))),
              ),
            )
      ]

  -- With the test for decoys, a selection pays from the outputs that are unspent and have decoys enough.
  pub select_inputs_with_decoys-Pays :
      (available : List OwnedOutput) (target : ℕ) (count_decoys : Bytes → ℕ) (min_decoys : ℕ)
      {r : List OwnedOutput}
      → select_inputs_with_decoys orders available target count_decoys min_decoys ≡ ok r
      → Pays target (with_decoys count_decoys min_decoys available) r
  unfolding select_inputs_with_decoys
  select_inputs_with_decoys-Pays [] target count_decoys min_decoys h = cc h
  select_inputs_with_decoys-Pays (o ∷ os) target count_decoys min_decoys {r} h =
      let pool = with_decoys count_decoys min_decoys (o ∷ os) in
      elim (Bool-cases (ltb (total_from 0 pool) target)) [
        | inl poor ↦ cc (rw (select_inputs_with_decoys, poor) at h)
        | inr rich ↦
            let (covers, short, within) =
              select_inputs-Pays pool target (rw (select_inputs_with_decoys, rich) at h) in
            (covers, short, λ p. omega (arith, within p, count-unspent-le p pool))
      ]
