-- ===== src/Prelude/Counts.antt =====
-- How many elements of a list pass a test, before and after the exchange sort.
use Prim.Native.Nat.{ℕ, zero, suc, ◌+◌, ◌≤◌, ◌<◌}
use mathlib.Core.Path.{◌≡◌, refl, subst}
use mathlib.Core.Logic.{inl, inr}
use mathlib.Core.Bool.{Bool, true, false, not}
use mathlib.Core.List.{List, [], ◌∷◌}
use mathlib.Core.Option.{some}
use native.Mathlib.Omega.{arith}
use blocknet_core.Prelude.Tests.{Bool-cases, some_eq}
use blocknet_core.Prelude.Lists.{length, get_elem?, All}
use blocknet_core.Prelude.Sorting.{
  WeakOrder, exchange_pass, exchange_rounds, exchange_sort, IsSorted,
}

abbrev pub bit : Bool → ℕ
bit true = 1
bit false = 0

abbrev pub count {ℓ} : {A : Type ℓ} → (A → Bool) → List A → ℕ
count test [] = 0
count test (x ∷ xs) = bit (test x) + count test xs

module _ {ℓ} {A : Type ℓ} (o : WeakOrder A) where
  open o use {lt}

  module _ (test : A → Bool) where
    count-exchange_pass :
        (x : A) (xs : List A)
        → count test ((exchange_pass o x xs).0 ∷ (exchange_pass o x xs).1) ≡ count test (x ∷ xs)
    unfolding exchange_pass
    count-exchange_pass x [] = refl
    count-exchange_pass x (y ∷ ys) = elim (Bool-cases (lt y x)) [
      | inl e ↦ rw e (omega (arith, count-exchange_pass y ys))
      | inr e ↦ rw e (omega (arith, count-exchange_pass x ys))
    ]

    count-exchange_rounds :
        (n : ℕ) (xs : List A) → count test (exchange_rounds o n xs) ≡ count test xs
    unfolding exchange_rounds
    count-exchange_rounds zero xs = refl
    count-exchange_rounds (suc n) [] = refl
    count-exchange_rounds (suc n) (x ∷ xs) =
        omega (arith, count-exchange_rounds n (exchange_pass o x xs).1, count-exchange_pass x xs)

    pub count-exchange_sort : (xs : List A) → count test (exchange_sort o xs) ≡ count test xs
    unfolding exchange_sort
    count-exchange_sort xs = count-exchange_rounds (length xs) xs

  head_first :
      (x : A) (xs : List A) (k : ℕ) (m : A)
      → All (λ y. lt y x ≡ false) xs
      → get_elem? xs k ≡ some m
      → lt m x ≡ false
  head_first x [] k m h e = absurd (cc e)
  head_first x (y ∷ ys) zero m h e = subst (λ z. lt z x ≡ false) (some_eq e) h.0
  head_first x (y ∷ ys) (suc k) m h e = head_first x ys k m h.1 e

  same_place : (x m : A) → x ≡ m → lt m x ≡ false
  same_place x m e =
      subst (λ z. lt z x ≡ false) e
        (elim (Bool-cases (lt x x)) [ inl p ↦ o.asym x x p | inr p ↦ p ])

  -- In a sorted list the element at place k has k others at least that are not after it.
  pub count_before :
      (xs : List A) (k : ℕ) (m : A)
      → IsSorted o xs
      → get_elem? xs k ≡ some m
      → k < count (λ x. not (lt m x)) xs
  count_before [] k m s e = absurd (cc e)
  count_before (x ∷ xs) zero m s e = rw (same_place x m (some_eq e)) (omega arith)
  count_before (x ∷ xs) (suc k) m s e =
      rw (head_first x xs k m s.0 e) (omega (arith, count_before xs k m s.1 e))

  rest_counted :
      (xs : List A) (m : A)
      → All (λ y. lt y m ≡ false) xs
      → count (λ x. not (lt x m)) xs ≡ length xs
  rest_counted [] m h = refl
  rest_counted (x ∷ xs) m h = rw h.0 (omega (arith, rest_counted xs m h.1))

  -- And all from place k on are not before it.
  pub count_after :
      (xs : List A) (k : ℕ) (m : A)
      → IsSorted o xs
      → get_elem? xs k ≡ some m
      → length xs ≤ k + count (λ x. not (lt x m)) xs
  count_after [] k m s e = absurd (cc e)
  count_after (x ∷ xs) zero m s e =
      let here = some_eq e in
      let rest = rest_counted xs m (subst (λ z. All (λ y. lt y z ≡ false) xs) here s.0) in
      rw (subst (λ z. lt x z ≡ false) here (same_place x x refl)) (omega (arith, rest))
  count_after (x ∷ xs) (suc k) m s e = omega (arith, count_after xs k m s.1 e)
