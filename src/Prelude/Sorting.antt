-- ===== src/Prelude/Sorting.antt =====
-- The exchange sort that the sources write out where they sort a small slice:
--   for i { for j := i + 1 .. { if s[j] < s[i] { s[i], s[j] = s[j], s[i] } } }
use Prim.Native.Nat.{ℕ, zero, suc, ◌≤◌}
use mathlib.Core.Path.{◌≡◌, refl, sym, subst, ap, ◌∙◌}
use mathlib.Core.Logic.{inl, inr}
use mathlib.Core.Bool.{Bool, true, false}
use mathlib.Core.List.{List, [], ◌∷◌, Perm}
use mathlib.Core.List.Perm
use native.Mathlib.Omega.{arith}
use blocknet_core.Prelude.Tests.{ltb, if◌then◌else◌, Bool-cases}
use blocknet_core.Prelude.Lists.{length, All}

-- `lt a b`: a stands before b.
pub record WeakOrder {ℓ} (A : Type ℓ) : Type ℓ where
  pub lt : A → A → Bool
  pub asym : (a b : A) → lt a b ≡ true → lt b a ≡ false
  pub trans : (a b c : A) → lt a b ≡ false → lt b c ≡ false → lt a c ≡ false

module _ {ℓ} {A : Type ℓ} (o : WeakOrder A) where
  open o use {lt, asym, trans}

  -- The inner loop: `x` is s[i], and the result is s[i] with the slice behind it afterwards.
  unfoldable pub exchange_pass : A → List A → A × List A
  exchange_pass x [] = (x, [])
  exchange_pass x (y ∷ ys) =
      let (least, rest) = exchange_pass (if lt y x then y else x) ys in
      (least, (if lt y x then x else y) ∷ rest)

  -- The outer loop, with the number of rounds left.
  unfoldable pub exchange_rounds : ℕ → List A → List A
  exchange_rounds zero xs = xs
  exchange_rounds (suc n) [] = []
  exchange_rounds (suc n) (x ∷ xs) =
      let (least, rest) = exchange_pass x xs in least ∷ exchange_rounds n rest

  unfoldable pub exchange_sort : List A → List A
  exchange_sort xs = exchange_rounds (length xs) xs

  -- No element stands before one that precedes it.
  abbrev pub IsSorted : List A → Type 0
  IsSorted [] = Unit {0}
  IsSorted (x ∷ xs) = All (λ y. lt y x ≡ false) xs × IsSorted xs

  irrefl : (a : A) → lt a a ≡ false
  irrefl a = elim (Bool-cases (lt a a)) [ inl e ↦ asym a a e | inr e ↦ e ]

  exchange_pass-perm :
      (x : A) (xs : List A) → Perm ((exchange_pass x xs).0 ∷ (exchange_pass x xs).1) (x ∷ xs)
  unfolding exchange_pass
  exchange_pass-perm x [] = Perm.refl (x ∷ [])
  exchange_pass-perm x (y ∷ ys) = elim (Bool-cases (lt y x)) [
    | inl e ↦ rw e (Perm.trans (Perm.swap x _ _) (Perm.cons x (exchange_pass-perm y ys)))
    | inr e ↦ rw e (
        Perm.trans (Perm.swap y _ _)
          (Perm.trans (Perm.cons y (exchange_pass-perm x ys)) (Perm.swap x y ys)))
  ]

  exchange_pass-All {κ} :
      (P : A → Type κ) (x : A) (xs : List A)
      → P x
      → All P xs
      → P (exchange_pass x xs).0 × All P (exchange_pass x xs).1
  unfolding exchange_pass
  exchange_pass-All P x [] p h = (p, tt)
  exchange_pass-All P x (y ∷ ys) p h = elim (Bool-cases (lt y x)) [
    | inl e ↦ rw e (let (a, b) = exchange_pass-All P y ys h.0 h.1 in (a, (p, b)))
    | inr e ↦ rw e (let (a, b) = exchange_pass-All P x ys p h.1 in (a, (h.0, b)))
  ]

  exchange_pass-swap :
      (x y : A) (ys : List A)
      → lt y x ≡ true
      → exchange_pass x (y ∷ ys) ≡ ((exchange_pass y ys).0, x ∷ (exchange_pass y ys).1)
  unfolding exchange_pass
  exchange_pass-swap x y ys e = rw e

  exchange_pass-keep :
      (x y : A) (ys : List A)
      → lt y x ≡ false
      → exchange_pass x (y ∷ ys) ≡ ((exchange_pass x ys).0, y ∷ (exchange_pass x ys).1)
  unfolding exchange_pass
  exchange_pass-keep x y ys e = rw e

  -- Neither `x` nor anything left behind stands before the first part.
  abbrev IsLeast : A → A × List A → Type 0
  IsLeast x p = (lt x p.0 ≡ false) × All (λ y. lt y p.0 ≡ false) p.1

  exchange_pass-IsLeast : (x : A) (xs : List A) → IsLeast x (exchange_pass x xs)
  unfolding exchange_pass
  exchange_pass-IsLeast x [] = (irrefl x, tt)
  exchange_pass-IsLeast x (y ∷ ys) = elim (Bool-cases (lt y x)) [
    | inl e ↦
        let (a, b) = exchange_pass-IsLeast y ys in
        let c = trans x y (exchange_pass y ys).0 (asym y x e) a in
        subst (IsLeast x) (sym (exchange_pass-swap x y ys e)) (c, (c, b))
    | inr e ↦
        let (a, b) = exchange_pass-IsLeast x ys in
        subst (IsLeast x) (sym (exchange_pass-keep x y ys e))
          (a, (trans y x (exchange_pass x ys).0 e a, b))
  ]

  length-exchange_pass : (x : A) (xs : List A) → length (exchange_pass x xs).1 ≡ length xs
  unfolding exchange_pass
  length-exchange_pass x [] = refl
  length-exchange_pass x (y ∷ ys) = ap suc (length-exchange_pass (if lt y x then y else x) ys)

  exchange_rounds-perm : (n : ℕ) (xs : List A) → Perm (exchange_rounds n xs) xs
  unfolding exchange_rounds
  exchange_rounds-perm zero xs = Perm.refl xs
  exchange_rounds-perm (suc n) [] = Perm.refl []
  exchange_rounds-perm (suc n) (x ∷ xs) =
      Perm.trans (Perm.cons _ (exchange_rounds-perm n (exchange_pass x xs).1))
        (exchange_pass-perm x xs)

  exchange_rounds-All {κ} :
      (P : A → Type κ) (n : ℕ) (xs : List A) → All P xs → All P (exchange_rounds n xs)
  unfolding exchange_rounds
  exchange_rounds-All P zero xs h = h
  exchange_rounds-All P (suc n) [] h = tt
  exchange_rounds-All P (suc n) (x ∷ xs) h =
      let (a, b) = exchange_pass-All P x xs h.0 h.1 in
      (a, exchange_rounds-All P n (exchange_pass x xs).1 b)

  exchange_rounds-IsSorted : (n : ℕ) (xs : List A) → length xs ≤ n → IsSorted (exchange_rounds n xs)
  unfolding exchange_rounds
  exchange_rounds-IsSorted zero [] h = tt
  exchange_rounds-IsSorted zero (x ∷ xs) h = absurd (omega arith)
  exchange_rounds-IsSorted (suc n) [] h = tt
  exchange_rounds-IsSorted (suc n) (x ∷ xs) h =
      let rest = (exchange_pass x xs).1 in
      (
        exchange_rounds-All (λ y. lt y (exchange_pass x xs).0 ≡ false) n rest
            (exchange_pass-IsLeast x xs).1,
        exchange_rounds-IsSorted n rest (omega (arith, length-exchange_pass x xs)),
      )

  length-rounds : (n : ℕ) (xs : List A) → length (exchange_rounds n xs) ≡ length xs
  unfolding exchange_rounds
  length-rounds zero xs = refl
  length-rounds (suc n) [] = refl
  length-rounds (suc n) (x ∷ xs) =
      ap suc (length-rounds n (exchange_pass x xs).1 ∙ length-exchange_pass x xs)

  pub exchange_sort-perm : (xs : List A) → Perm (exchange_sort xs) xs
  unfolding exchange_sort
  exchange_sort-perm xs = exchange_rounds-perm (length xs) xs

  pub exchange_sort-All {κ} : (P : A → Type κ) (xs : List A) → All P xs → All P (exchange_sort xs)
  unfolding exchange_sort
  exchange_sort-All P xs = exchange_rounds-All P (length xs) xs

  pub exchange_sort-IsSorted : (xs : List A) → IsSorted (exchange_sort xs)
  unfolding exchange_sort
  exchange_sort-IsSorted xs = exchange_rounds-IsSorted (length xs) xs (omega arith)

  pub length-exchange_sort : (xs : List A) → length (exchange_sort xs) ≡ length xs
  unfolding exchange_sort
  length-exchange_sort xs = length-rounds (length xs) xs

pub ltb_asym : (m n : ℕ) → ltb m n ≡ true → ltb n m ≡ false
ltb_asym m n h = ground arith

pub ltb_trans : (m n k : ℕ) → ltb m n ≡ false → ltb n k ≡ false → ltb m k ≡ false
ltb_trans m n k h e = ground arith

-- By a number: the larger first.
abbrev pub descending {ℓ} : {A : Type ℓ} → (A → ℕ) → WeakOrder A
descending f = record {
  lt = λ a b. ltb (f b) (f a);
  asym = λ a b h. ltb_asym (f b) (f a) h;
  trans = λ a b c h k. ltb_trans (f c) (f b) (f a) k h;
}

-- By a number: the smaller first.
abbrev pub ascending {ℓ} : {A : Type ℓ} → (A → ℕ) → WeakOrder A
ascending f = record {
  lt = λ a b. ltb (f a) (f b);
  asym = λ a b h. ltb_asym (f a) (f b) h;
  trans = λ a b c h k. ltb_trans (f a) (f b) (f c) h k;
}
