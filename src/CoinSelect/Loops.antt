-- ===== src/CoinSelect/Loops.antt =====
-- wallet/coinselect.go: what each loop of the selection keeps.
use blocknet_core.Prelude.{
  ℕ, suc, ◌+◌, ◌%◌, ◌≤◌, ◌<◌, ◌≡◌, refl, ap, ◌∙◌, subst, List, [], ◌∷◌, ◌++◌, Bool, true, false,
  ◌&&◌, Option, none, some, ltb, leb, ◌==◌, ==_refl, leb→le, ltb-false→le, length, All, All_weaken,
  arith, inl, inr, Bool-cases, Option-cases, some_eq,
}
use blocknet_core.Prelude.Counts.{count}
use blocknet_core.Prelude.Weights.{weigh}
use blocknet_core.CoinSelect.{
  OwnedOutput, add_u64, minus_u64, unspent, total_from, take_until, chosen, not_chosen, with_first,
  replace_first, replace_all,
}

-- The sum of the amounts, without wrap-around.
abbrev pub amounts : List OwnedOutput → ℕ
amounts os = weigh (λ o. o.amount) os

-- A selection from a pool that pays the target: its sum reaches the target, it has at most as many inputs
-- as a transaction may have, and it holds no output that the pool lacks and none twice.
abbrev pub Pays : ℕ → List OwnedOutput → List OwnedOutput → Type 0
Pays target pool selected =
    (target ≤ amounts selected)
    × (length selected ≤ 256)
    × ((p : OwnedOutput → Bool) → count p selected ≤ count p pool)

abbrev pub within_u64 : ℕ → ℕ
within_u64 n = n % 18446744073709551616

pub total_from-amounts :
    (os : List OwnedOutput) (total known : ℕ)
    → total ≡ within_u64 known
    → total_from total os ≡ within_u64 (known + amounts os)
unfolding total_from
total_from-amounts [] total known e = omega (arith, e)
total_from-amounts (o ∷ os) total known e =
    total_from-amounts os (add_u64 total o.amount) (known + o.amount) (omega (arith, e))
    ∙ ap within_u64 (omega arith)

leb-false→lt : (a b : ℕ) → leb a b ≡ false → b < a
leb-false→lt a b h = ground arith

count_last :
    (p : OwnedOutput → Bool) (xs : List OwnedOutput) (o : OwnedOutput)
    → count p (xs ++ (o ∷ [])) ≡ count p (o ∷ xs)
count_last p [] o = refl
count_last p (x ∷ xs) o = omega (arith, count_last p xs o)

amounts_last :
    (xs : List OwnedOutput) (o : OwnedOutput) → amounts (xs ++ (o ∷ [])) ≡ amounts xs + o.amount
amounts_last [] o = omega arith
amounts_last (x ∷ xs) o = omega (arith, amounts_last xs o)

length_last : (xs : List OwnedOutput) (o : OwnedOutput) → length (xs ++ (o ∷ [])) ≡ suc (length xs)
length_last [] o = refl
length_last (x ∷ xs) o = ap suc (length_last xs o)

-- What the loop returns reaches the target within the limit, and takes each output it goes over at most
-- once.
pub take_until-Pays :
    (target : ℕ) (os selected : List OwnedOutput) (total : ℕ) {r : List OwnedOutput}
    → total ≡ within_u64 (amounts selected)
    → take_until 256 target selected total os ≡ some r
    → (target ≤ within_u64 (amounts r))
      × (length r ≤ 256)
      × ((p : OwnedOutput → Bool) → count p r ≤ count p selected + count p os)
unfolding take_until
take_until-Pays target [] selected total e h = absurd (cc h)
take_until-Pays target (o ∷ os) selected total {r} e h =
    elim (Bool-cases (leb 256 (length selected))) [
      | inl full ↦ cc (rw (take_until, full) at h)
      | inr room ↦
          let total_next : add_u64 total o.amount ≡ within_u64 (amounts (selected ++ (o ∷ []))) =
            rw (amounts_last selected o) (omega (arith, e)) in
          elim (Bool-cases (leb target (add_u64 total o.amount))) [
            | inl reached ↦
                subst
                  (λ z.
                    (target ≤ within_u64 (amounts z))
                    × (length z ≤ 256)
                    × ((p : OwnedOutput → Bool) → count p z ≤ count p selected + count p (o ∷ os)))
                  (some_eq (rw (take_until, room, reached) at h))
                  (
                    omega (arith, total_next, leb→le target (add_u64 total o.amount) reached),
                    omega (arith, length_last selected o, leb-false→lt 256 (length selected) room),
                    λ p. omega (arith, count_last p selected o),
                  )
            | inr below ↦
                let (covers, short, once) =
                  take_until-Pays target os (selected ++ (o ∷ [])) (add_u64 total o.amount)
                    total_next (rw (take_until, room, below) at h) in
                (covers, short, λ p. omega (arith, once p, count_last p selected o))
          ]
    ]

pub count-unspent-le :
    (p : OwnedOutput → Bool) (os : List OwnedOutput) → count p (unspent os) ≤ count p os
unfolding unspent
count-unspent-le p [] = omega arith
count-unspent-le p (o ∷ os) = elim (Bool-cases o.spent) [
  | inl spent ↦ rw (unspent, spent) (omega (arith, count-unspent-le p os))
  | inr free ↦ rw (unspent, free) (omega (arith, count-unspent-le p os))
]

abbrev both : (OwnedOutput → Bool) → (OwnedOutput → Bool) → OwnedOutput → Bool
both p q o = p o && q o

-- A selection that only has outputs it names takes none of the candidates.
count-not_chosen :
    (p : OwnedOutput → Bool) (base os : List OwnedOutput)
    → count p (not_chosen base os) + count (both p (chosen base)) os ≡ count p os
unfolding not_chosen
count-not_chosen p base [] = refl
count-not_chosen p base (o ∷ os) = elim (Bool-cases (p o)) [
  | inl picked ↦ elim (Bool-cases (chosen base o)) [
    | inl taken ↦ rw (not_chosen, taken, picked) (omega (arith, count-not_chosen p base os))
    | inr left ↦ rw (not_chosen, left) (rw picked (omega (arith, count-not_chosen p base os)))
  ]
  | inr passed ↦ elim (Bool-cases (chosen base o)) [
    | inl taken ↦ rw (not_chosen, taken, passed) (omega (arith, count-not_chosen p base os))
    | inr left ↦ rw (not_chosen, left) (rw passed (omega (arith, count-not_chosen p base os)))
  ]
]

chosen_later :
    (c : OwnedOutput) (cs : List OwnedOutput) (o : OwnedOutput)
    → chosen cs o ≡ true
    → chosen (c ∷ cs) o ≡ true
unfolding chosen
chosen_later c cs o h = elim (Bool-cases (c.pointer == o.pointer)) [
  | inl same ↦ rw (chosen, same) refl
  | inr other ↦ rw (chosen, other) h
]

chosen_all : (cs : List OwnedOutput) → All (λ o. chosen cs o ≡ true) cs
unfolding chosen
chosen_all [] = tt
chosen_all (c ∷ cs) = (
  rw (==_refl c.pointer) refl,
  All_weaken (λ o. chosen cs o ≡ true) (λ o. chosen (c ∷ cs) o ≡ true) cs (chosen_later c cs)
      (chosen_all cs),
)

count_both :
    (p q : OwnedOutput → Bool) (os : List OwnedOutput)
    → All (λ o. q o ≡ true) os
    → count (both p q) os ≡ count p os
count_both p q [] h = refl
count_both p q (o ∷ os) h = elim (Bool-cases (p o)) [
  | inl picked ↦ rw (picked, h.0) (omega (arith, count_both p q os h.1))
  | inr passed ↦ rw passed (omega (arith, count_both p q os h.1))
]

-- The selection and the candidates that are left are together among the outputs.
pub count_split :
    (base os : List OwnedOutput)
    → ((p : OwnedOutput → Bool) → count p base ≤ count p os)
    → (p : OwnedOutput → Bool) → count p base + count p (not_chosen base os) ≤ count p os
count_split base os within p = omega (
  arith,
  count-not_chosen p base os,
  count_both p (chosen base) base (chosen_all base),
  within (both p (chosen base)),
)

-- A replacement keeps the length, reaches the target, and holds the small output beside what there was.
abbrev Replaces : ℕ → ℕ → OwnedOutput → List OwnedOutput → List OwnedOutput × ℕ → Type 0
Replaces target before small selected r =
    (r.1 ≡ within_u64 (before + amounts r.0))
    × (target ≤ r.1)
    × (length r.0 ≡ length selected)
    × ((p : OwnedOutput → Bool) → count p r.0 ≤ count p (small ∷ selected))

with_first-some :
    (o : OwnedOutput) (found : Option (List OwnedOutput × ℕ)) {r : List OwnedOutput × ℕ}
    → with_first o found ≡ some r
    → (q : List OwnedOutput × ℕ) × (found ≡ some q) × ((o ∷ q.0, q.1) ≡ r)
with_first-some o none h = absurd (cc h)
with_first-some o (some q) h = (q, refl, some_eq h)

-- Where the first one stays, the replacement is among the others.
pass_first :
    (target before : ℕ) (small large : OwnedOutput) (rest : List OwnedOutput)
    (found : Option (List OwnedOutput × ℕ)) {r : List OwnedOutput × ℕ}
    → ((q : List OwnedOutput × ℕ)
        → found ≡ some q
        → Replaces target (before + large.amount) small rest q)
    → with_first large found ≡ some r
    → Replaces target before small (large ∷ rest) r
pass_first target before small large rest found {r} later h =
    let (q, e, same) = with_first-some large found h in
    let (sum, covers, long, once) = later q e in
    subst (Replaces target before small (large ∷ rest)) same
      (sum ∙ ap within_u64 (omega arith), covers, ap suc long, λ p. omega (arith, once p))

exchange_sum :
    (total before large small rest : ℕ)
    → total ≡ within_u64 (before + (large + rest))
    → add_u64 (minus_u64 total large) small ≡ within_u64 (before + (small + rest))
exchange_sum total before large small rest e = omega (arith, e)

replace_first-Replaces :
    (target total before : ℕ) (small : OwnedOutput) (selected : List OwnedOutput)
    {r : List OwnedOutput × ℕ}
    → total ≡ within_u64 (before + amounts selected)
    → replace_first target total small selected ≡ some r
    → Replaces target before small selected r
unfolding replace_first
replace_first-Replaces target total before small [] e h = absurd (cc h)
replace_first-Replaces target total before small (large ∷ rest) {r} e h =
    let pass =
      pass_first target before small large rest (replace_first target total small rest) {r = r}
        (λ q.
          replace_first-Replaces target total (before + large.amount) small rest {r = q}
            (e ∙ ap within_u64 (omega arith))) in
    elim (Bool-cases (leb large.amount small.amount)) [
      | inl no_larger ↦ pass (rw (replace_first, no_larger) at h)
      | inr larger ↦
          elim (Bool-cases (ltb (add_u64 (minus_u64 total large.amount) small.amount) target)) [
            | inl below ↦ pass (rw (replace_first, larger, below) at h)
            | inr enough ↦
                subst (Replaces target before small (large ∷ rest))
                  (some_eq (rw (replace_first, larger, enough) at h))
                  (
                    exchange_sum total before large.amount small.amount (amounts rest) e,
                    ltb-false→le (add_u64 (minus_u64 total large.amount) small.amount) target
                        enough,
                    refl,
                    λ p. omega arith,
                  )
          ]
    ]

-- All the replacements together, from the candidates that are left.
pub replace_all-Pays :
    (target total : ℕ) (selected candidates pool : List OwnedOutput)
    → total ≡ within_u64 (amounts selected)
    → target ≤ total
    → length selected ≤ 256
    → ((p : OwnedOutput → Bool) → count p selected + count p candidates ≤ count p pool)
    → Pays target pool (replace_all target total selected candidates)
unfolding replace_all
replace_all-Pays target total selected [] pool e covers short within =
    (omega (arith, e, covers), short, λ p. omega (arith, within p))
replace_all-Pays target total selected (small ∷ more) pool e covers short within =
    elim (Option-cases (replace_first target total small selected)) [
      | inl none_found ↦
          rw (replace_all, none_found)
            (replace_all-Pays target total selected more pool e covers short
              (λ p. omega (arith, within p)))
      | inr (r, found) ↦
          let (sum, reaches, long, once) =
            replace_first-Replaces target total 0 small selected (omega (arith, e)) found in
          rw (replace_all, found)
            (replace_all-Pays target r.1 r.0 more pool (omega (arith, sum)) reaches
              (omega (arith, long, short)) (λ p. omega (arith, within p, once p)))
    ]
