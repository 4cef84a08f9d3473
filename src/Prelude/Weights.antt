-- ===== src/Prelude/Weights.antt =====
-- Sums over a list, which the order of the list does not change.
use Prim.Native.Nat.{ℕ, ◌+◌}
use mathlib.Core.Path.{◌≡◌, refl, ap, ◌∙◌}
use mathlib.Core.Logic.{∥∥₁_elim}
use mathlib.Core.Bool.{Bool}
use mathlib.Core.List.{List, [], ◌∷◌, Perm, Permᴰ}
use native.Mathlib.Nat.{ℕ_set}
use native.Mathlib.Omega.{arith}
use blocknet_core.Prelude.Lists.{length}
use blocknet_core.Prelude.Counts.{bit, count}

module _ {ℓ} {A : Type ℓ} where
  abbrev pub weigh : (A → ℕ) → List A → ℕ
  weigh f [] = 0
  weigh f (x ∷ xs) = f x + weigh f xs

  weigh-Permᴰ : (f : A → ℕ) {a b : List A} → Permᴰ a b → weigh f a ≡ weigh f b
  weigh-Permᴰ f Permᴰ.nil = refl
  weigh-Permᴰ f (Permᴰ.cons e p) = omega (arith, ap f e, weigh-Permᴰ f p)
  weigh-Permᴰ f (Permᴰ.swap d e) = omega (arith, ap f d, ap f e)
  weigh-Permᴰ f (Permᴰ.trans p q) = weigh-Permᴰ f p ∙ weigh-Permᴰ f q

  pub weigh-Perm : (f : A → ℕ) (a b : List A) → Perm a b → weigh f a ≡ weigh f b
  weigh-Perm f a b p = ∥∥₁_elim p (ℕ_set _ _) (weigh-Permᴰ f)

  count-weigh : (test : A → Bool) (xs : List A) → count test xs ≡ weigh (λ x. bit (test x)) xs
  count-weigh test [] = refl
  count-weigh test (x ∷ xs) = omega (arith, count-weigh test xs)

  length-weigh : (xs : List A) → length xs ≡ weigh (λ x. 1) xs
  length-weigh [] = refl
  length-weigh (x ∷ xs) = omega (arith, length-weigh xs)

  pub count-Perm : (test : A → Bool) (a b : List A) → Perm a b → count test a ≡ count test b
  count-Perm test a b p =
      omega (arith, count-weigh test a, count-weigh test b, weigh-Perm (λ x. bit (test x)) a b p)

  pub length-Perm : (a b : List A) → Perm a b → length a ≡ length b
  length-Perm a b p = omega (arith, length-weigh a, length-weigh b, weigh-Perm (λ x. 1) a b p)
