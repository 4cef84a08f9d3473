-- ===== src/CoinSelect.antt =====
-- wallet/coinselect.go: the choice of the outputs that a payment spends.
pub mod Loops
pub mod Covers
use blocknet_core.Prelude.{
  ℕ, zero, suc, ◌+◌, ◌-◌, ◌%◌, ◌≡◌, List, [], ◌∷◌, ◌++◌, Bytes, Bool, true, false, ◌&&◌, ◌||◌, not,
  Option, none, some, Result, ok, err, if◌then◌else◌, ltb, leb, ◌==◌, length, get_elem?,
}
use mathlib.Core.List.{Perm}

-- The fields of OwnedOutput that selection and reservation read. `pointer` is the identity of the object.
pub record OwnedOutput : Type 0 where
  pub pointer : ℕ
  pub amount : ℕ
  pub commitment : Bytes
  pub spent : Bool
  pub tx_id : Bytes
  pub output_index : ℕ
  pub block_height : ℕ
  pub is_coinbase : Bool

pub data SelectError : Type 0 where
  no_spendable_outputs insufficient_funds input_limit_exceeded : SelectError

abbrev pub max_selected_inputs : ℕ
max_selected_inputs = 256

-- What the selection draws and leaves open: RandomShuffle, randIndex (none where the
-- random source fails), and sort.Slice by amount, which may put equal amounts in any order. Each
-- result is a permutation of the list.
pub record Orders : Type 0 where
  pub shuffle : List OwnedOutput → List OwnedOutput
  pub rand_index : ℕ → Option ℕ
  pub ascending : List OwnedOutput → List OwnedOutput
  pub descending : List OwnedOutput → List OwnedOutput
  pub shuffle-Perm : (os : List OwnedOutput) → Perm (shuffle os) os
  pub ascending-Perm : (os : List OwnedOutput) → Perm (ascending os) os
  pub descending-Perm : (os : List OwnedOutput) → Perm (descending os) os

-- a + b and a - b on uint64.
abbrev pub add_u64 : ℕ → ℕ → ℕ
add_u64 a b = (a + b) % 18446744073709551616

abbrev pub minus_u64 : ℕ → ℕ → ℕ
minus_u64 a b = (a + (18446744073709551616 - b % 18446744073709551616)) % 18446744073709551616

unfoldable pub unspent : List OwnedOutput → List OwnedOutput
unspent [] = []
unspent (o ∷ os) = if o.spent then unspent os else o ∷ unspent os

unfoldable pub total_from : ℕ → List OwnedOutput → ℕ
total_from total [] = total
total_from total (o ∷ os) = total_from (add_u64 total o.amount) os

-- The outputs of exactly this amount.
unfoldable pub singles : ℕ → List OwnedOutput → List OwnedOutput
singles target [] = []
singles target (o ∷ os) = if o.amount == target then o ∷ singles target os else singles target os

unfoldable pub pairs_with : ℕ → OwnedOutput → List OwnedOutput → List (OwnedOutput × OwnedOutput)
pairs_with target a [] = []
pairs_with target a (b ∷ bs) =
    if add_u64 a.amount b.amount == target
    then (a, b) ∷ pairs_with target a bs
    else pairs_with target a bs

unfoldable pub pairs : ℕ → List OwnedOutput → List (OwnedOutput × OwnedOutput)
pairs target [] = []
pairs target (a ∷ later) = pairs_with target a later ++ pairs target later

-- The loop that adds outputs until the target is reached or the limit stands in the way.
unfoldable pub take_until :
    ℕ → ℕ → List OwnedOutput → ℕ → List OwnedOutput → Option (List OwnedOutput)
take_until limit target selected total [] = none
take_until limit target selected total (o ∷ os) = elim (leb limit (length selected)) [
  | true ↦ none
  | false ↦ elim (leb target (add_u64 total o.amount)) [
    | true ↦ some (selected ++ (o ∷ []))
    | false ↦ take_until limit target (selected ++ (o ∷ [])) (add_u64 total o.amount) os
  ]
]

unfoldable pub chosen : List OwnedOutput → OwnedOutput → Bool
chosen [] o = false
chosen (c ∷ cs) o = c.pointer == o.pointer || chosen cs o

unfoldable pub not_chosen : List OwnedOutput → List OwnedOutput → List OwnedOutput
not_chosen base [] = []
not_chosen base (o ∷ os) = if chosen base o then not_chosen base os else o ∷ not_chosen base os

abbrev pub with_first : OwnedOutput → Option (List OwnedOutput × ℕ) → Option (List OwnedOutput × ℕ)
with_first o none = none
with_first o (some r) = some (o ∷ r.0, r.1)

-- The first large output that the small one can replace; the new list and its total.
unfoldable pub replace_first :
    ℕ → ℕ → OwnedOutput → List OwnedOutput → Option (List OwnedOutput × ℕ)
replace_first target total small [] = none
replace_first target total small (large ∷ rest) = elim (leb large.amount small.amount) [
  | true ↦ with_first large (replace_first target total small rest)
  | false ↦ elim (ltb (add_u64 (minus_u64 total large.amount) small.amount) target) [
    | true ↦ with_first large (replace_first target total small rest)
    | false ↦ some (small ∷ rest, add_u64 (minus_u64 total large.amount) small.amount)
  ]
]

unfoldable pub replace_all : ℕ → ℕ → List OwnedOutput → List OwnedOutput → List OwnedOutput
replace_all target total selected [] = selected
replace_all target total selected (small ∷ more) =
    elim (replace_first target total small selected) [
      | none ↦ replace_all target total selected more
      | some r ↦ replace_all target r.1 r.0 more
    ]

unfoldable pub with_decoys : (Bytes → ℕ) → ℕ → List OwnedOutput → List OwnedOutput
with_decoys count_decoys min_decoys [] = []
with_decoys count_decoys min_decoys (o ∷ os) =
    if not o.spent && leb min_decoys (count_decoys o.commitment)
    then o ∷ with_decoys count_decoys min_decoys os
    else with_decoys count_decoys min_decoys os

module _ (orders : Orders) where
  open orders use {shuffle, rand_index, ascending, descending}

  unfoldable pub draw {ℓ} : {A : Type ℓ} → A → List A → A
  draw first rest = elim (rand_index (length (first ∷ rest))) [
    | none ↦ first
    | some j ↦ elim (get_elem? (first ∷ rest) j) [ none ↦ first | some a ↦ a ]
  ]

  -- findExactMatch
  unfoldable pub find_exact_match : List OwnedOutput → ℕ → Option (List OwnedOutput)
  find_exact_match os target = elim (singles target os) [
    | s ∷ more ↦ some (draw s more ∷ [])
    | [] ↦ elim (pairs target os) [
      | p ∷ more ↦ some ((draw p more).0 ∷ (draw p more).1 ∷ [])
      | [] ↦ none
    ]
  ]

  -- selectSmallestFirstCapped
  unfoldable pub select_smallest_first_capped : List OwnedOutput → ℕ → ℕ → Option (List OwnedOutput)
  select_smallest_first_capped os target limit =
      if limit == 0 then none else take_until limit target [] 0 (ascending os)

  -- selectLargestFirstCapped
  unfoldable pub select_largest_first_capped : List OwnedOutput → ℕ → ℕ → Option (List OwnedOutput)
  select_largest_first_capped os target limit =
      if limit == 0 then none else take_until limit target [] 0 (descending os)

  -- selectMixed
  unfoldable pub select_mixed : List OwnedOutput → ℕ → ℕ → Option (List OwnedOutput)
  select_mixed os target limit = elim (select_largest_first_capped os target limit) [
    | none ↦ none
    | some base ↦
        some (
          replace_all target (total_from 0 base) (descending base) (ascending (not_chosen base os)))
  ]

  -- SelectInputs
  unfoldable pub select_strategies : List OwnedOutput → ℕ → Result SelectError (List OwnedOutput)
  select_strategies os target = elim (find_exact_match os target) [
    | some exact ↦ ok exact
    | none ↦ elim (select_smallest_first_capped os target max_selected_inputs) [
      | some small ↦ ok small
      | none ↦ elim (select_mixed os target max_selected_inputs) [
        | some mixed ↦ ok mixed
        | none ↦ err input_limit_exceeded
      ]
    ]
  ]

  unfoldable pub select_inputs : List OwnedOutput → ℕ → Result SelectError (List OwnedOutput)
  select_inputs available target = elim available [
    | [] ↦ err no_spendable_outputs
    | o ∷ os ↦
        let spendable = unspent (o ∷ os) in
        if ltb (total_from 0 spendable) target
        then err insufficient_funds
        else select_strategies (shuffle spendable) target
  ]

  -- SelectInputsWithDecoys
  unfoldable pub select_inputs_with_decoys :
      List OwnedOutput → ℕ → (Bytes → ℕ) → ℕ → Result SelectError (List OwnedOutput)
  select_inputs_with_decoys available target count_decoys min_decoys = elim available [
    | [] ↦ err no_spendable_outputs
    | o ∷ os ↦
        let spendable = with_decoys count_decoys min_decoys (o ∷ os) in
        if ltb (total_from 0 spendable) target
        then err insufficient_funds
        else select_inputs spendable target
  ]
