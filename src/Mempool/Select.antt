-- ===== src/Mempool/Select.antt =====
-- mempool.go: GetTransactionsForBlock and GetAllEntries.
use mathlib.Core.List.{Perm}
use blocknet_core.Prelude.{
  ℕ, ◌+◌, ◌≤◌, ◌≡◌, refl, sym, subst, inl, inr, List, [], ◌∷◌, Bytes, false, arith, if◌then◌else◌,
  ltb, leb, length, map, All, Bool-cases,
}
use blocknet_core.Prelude.Sorting.{
  descending, exchange_sort, IsSorted, exchange_sort-perm, exchange_sort-IsSorted,
  exchange_sort-All, length-exchange_sort,
}
use blocknet_core.Tx.{Transaction}
use blocknet_core.Mempool.{Mempool, Entry}

unfoldable pub values : List (Bytes × Entry) → List Entry
values [] = []
values ((id, e) ∷ m) = e ∷ values m

-- GetAllEntries: the highest fee rate first.
unfoldable pub get_all_entries : Mempool → List Entry
get_all_entries m = exchange_sort (descending (λ (e : Entry). e.fee_rate)) (values m.tx_by_id)

-- The selection loop; `count` and `total` are the number and the bytes of what is selected so far.
unfoldable pub pick : ℕ → ℕ → ℕ → ℕ → List Entry → List Entry
pick max_size max_count count total [] = []
pick max_size max_count count total (e ∷ es) =
    let skipped = pick max_size max_count count total es in
    let picked = e ∷ pick max_size max_count (count + 1) (total + e.size) es in
    if leb max_count count then [] else if ltb max_size (total + e.size) then skipped else picked

unfoldable pub select_entries : ℕ → ℕ → Mempool → List Entry
select_entries max_size max_count m = pick max_size max_count 0 0 (get_all_entries m)

unfoldable pub get_transactions_for_block : ℕ → ℕ → Mempool → List Transaction
get_transactions_for_block max_size max_count m =
    map (λ (e : Entry). e.tx) (select_entries max_size max_count m)

unfoldable pub total_of : List Entry → ℕ
total_of [] = 0
total_of (e ∷ es) = e.size + total_of es

sorted_length : (m : Mempool) → length (get_all_entries m) ≡ length (values m.tx_by_id)
unfolding get_all_entries
sorted_length m = length-exchange_sort _ (values m.tx_by_id)

module _ (max_size max_count : ℕ) where
  pick_bounds :
      (count total : ℕ) (es : List Entry)
      → count ≤ max_count
      → total ≤ max_size
      → (count + length (pick max_size max_count count total es) ≤ max_count)
        × (total + total_of (pick max_size max_count count total es) ≤ max_size)
  unfolding pick total_of
  pick_bounds count total [] h k = omega arith
  pick_bounds count total (e ∷ es) h k =
      ground (arith, pick_bounds count total es h k, pick_bounds (count + 1) (total + e.size) es)

  pick-All {κ} :
      (P : Entry → Type κ) (count total : ℕ) (es : List Entry)
      → All P es
      → All P (pick max_size max_count count total es)
  unfolding pick
  pick-All P count total [] h = tt
  pick-All P count total (e ∷ es) h = elim (Bool-cases (leb max_count count)) [
    | inl full ↦ rw full tt
    | inr room ↦ elim (Bool-cases (ltb max_size (total + e.size))) [
      | inl big ↦ rw (room, big) (pick-All P count total es h.1)
      | inr fits ↦ rw (room, fits) (h.0, pick-All P (count + 1) (total + e.size) es h.1)
    ]
  ]

  pick-IsSorted :
      (count total : ℕ) (es : List Entry)
      → IsSorted (descending (λ (e : Entry). e.fee_rate)) es
      → IsSorted (descending (λ (e : Entry). e.fee_rate)) (pick max_size max_count count total es)
  unfolding pick
  pick-IsSorted count total [] h = tt
  pick-IsSorted count total (e ∷ es) h = elim (Bool-cases (leb max_count count)) [
    | inl full ↦ rw full tt
    | inr room ↦ elim (Bool-cases (ltb max_size (total + e.size))) [
      | inl big ↦ rw (room, big) (pick-IsSorted count total es h.1)
      | inr fits ↦
          rw (room, fits)
            (
              pick-All (λ d. ltb e.fee_rate d.fee_rate ≡ false) (count + 1) (total + e.size) es h.0,
              pick-IsSorted (count + 1) (total + e.size) es h.1,
            )
    ]
  ]

  -- Where all of it fits, all of it is picked.
  pick_all :
      (count total : ℕ) (es : List Entry)
      → count + length es ≤ max_count
      → total + total_of es ≤ max_size
      → pick max_size max_count count total es ≡ es
  unfolding pick total_of
  pick_all count total [] h k = refl
  pick_all count total (e ∷ es) h k = ground (arith, pick_all (count + 1) (total + e.size) es)

  pub select_entries-All {κ} :
      (P : Entry → Type κ) (m : Mempool)
      → All P (values m.tx_by_id)
      → All P (select_entries max_size max_count m)
  unfolding select_entries get_all_entries
  select_entries-All P m h =
      pick-All P 0 0 (get_all_entries m) (exchange_sort-All _ P (values m.tx_by_id) h)

  -- The entries selected for a block keep the limits on their number and their bytes, and stand with
  -- the highest fee rate first.
  pub select_entries_bounds :
      (m : Mempool)
      → (length (select_entries max_size max_count m) ≤ max_count)
        × (total_of (select_entries max_size max_count m) ≤ max_size)
        × IsSorted (descending (λ (e : Entry). e.fee_rate)) (select_entries max_size max_count m)
  unfolding select_entries
  select_entries_bounds m =
      let es = get_all_entries m in
      let (a, b) = pick_bounds 0 0 es (omega arith) (omega arith) in
      (
        omega (arith, a),
        omega (arith, b),
        pick-IsSorted 0 0 es (unfold get_all_entries in exchange_sort-IsSorted _ _),
      )

  -- If the entries of the pool keep both limits together, all of them are selected.
  pub select_entries-perm :
      (m : Mempool)
      → length (values m.tx_by_id) ≤ max_count
      → total_of (get_all_entries m) ≤ max_size
      → Perm (select_entries max_size max_count m) (values m.tx_by_id)
  unfolding select_entries
  select_entries-perm m h k =
      subst (λ xs. Perm xs (values m.tx_by_id))
        (sym (pick_all 0 0 (get_all_entries m) (omega (arith, sorted_length m)) (omega (arith, k))))
        (unfold get_all_entries in exchange_sort-perm _ _)
