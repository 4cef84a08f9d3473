-- ===== src/Block/Median/Middle.antt =====
-- block.go: the median timestamp stands in the middle.
use blocknet_core.Prelude.{
  ℕ, zero, suc, ◌*◌, ◌/◌, ◌≤◌, ◌<◌, ◌≡◌, refl, List, [], ◌∷◌, Bytes, not, false, Option, some, ok,
  arith, ◌==◌, length, get_elem?, Bool,
}
use blocknet_core.Prelude.Sorting.{exchange_sort, exchange_sort-IsSorted, length-exchange_sort}
use blocknet_core.Prelude.Counts.{count, count-exchange_sort, count_before, count_after}
use blocknet_core.Block.{Block, ltb_i64}
use blocknet_core.Block.Median.{by_time, collect_timestamps, median_of, median_from_parent}

in_range {ℓ} :
    {A : Type ℓ} (xs : List A) (k : ℕ) → k < length xs → (a : A) × (get_elem? xs k ≡ some a)
in_range [] k h = absurd (omega arith)
in_range (x ∷ xs) zero h = (x, refl)
in_range (x ∷ xs) (suc k) h = in_range xs k (omega (arith, h))

-- Not after m, and not before it.
abbrev pub not_after : ℕ → ℕ → Bool
not_after m t = not (ltb_i64 m t)

abbrev pub not_before : ℕ → ℕ → Bool
not_before m t = not (ltb_i64 t m)

median_of_middle :
    (ts : List ℕ)
    → 1 ≤ length ts
    → (m : ℕ) × (median_of ts ≡ some m)
      × (length ts < 2 * count (not_after m) ts)
      × (length ts ≤ 2 * count (not_before m) ts)
unfolding median_of
median_of_middle ts some_there =
    let sorted = exchange_sort by_time ts in
    let size : length sorted ≡ length ts = length-exchange_sort by_time ts in
    let (m, e) = in_range sorted (length ts / 2) (omega (arith, size, some_there)) in
    let s = exchange_sort-IsSorted by_time ts in
    let low = count_before by_time sorted (length ts / 2) m s e in
    let high = count_after by_time sorted (length ts / 2) m s e in
    let same_low = count-exchange_sort by_time (not_after m) ts in
    let same_high = count-exchange_sort by_time (not_before m) ts in
    (m, e, omega (arith, low, same_low), omega (arith, high, same_high, size))

-- For a parent and a window of at least one block there is a median timestamp: more than half of the
-- timestamps that the loop collects are not after it, and at least half are not before it.
pub median_from_parent_middle :
    (parent : Block) (get_parent : Bytes → Option Block) (n : ℕ)
    → 1 ≤ n
    → (m : ℕ) × (median_from_parent (some parent) get_parent n ≡ ok m)
      × (length (collect_timestamps get_parent n (some parent))
          < 2 * count (not_after m) (collect_timestamps get_parent n (some parent)))
      × (length (collect_timestamps get_parent n (some parent))
          ≤ 2 * count (not_before m) (collect_timestamps get_parent n (some parent)))
unfolding median_from_parent
median_from_parent_middle parent get_parent n h =
    let ts = collect_timestamps get_parent n (some parent) in
    let there = one_there n h in
    let (m, e, low, high) = median_of_middle ts there in
    let window : (n == 0) ≡ false = ground (arith, h) in
    let filled : (length ts == 0) ≡ false = ground (arith, there) in
    (m, rw window (rw filled (rw e refl)), low, high)
  where
    one_there : (n : ℕ) → 1 ≤ n → 1 ≤ length (collect_timestamps get_parent n (some parent))
    one_there zero h = absurd (omega (arith, h))
    one_there (suc n) h = unfold collect_timestamps in omega arith
