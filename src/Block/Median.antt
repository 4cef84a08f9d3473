-- ===== src/Block/Median.antt =====
-- block.go: medianTimestampFromParent and medianTimestampLocked.

pub mod Middle
use blocknet_core.Prelude.{
  ℕ, zero, suc, ◌+◌, ◌-◌, ◌/◌, ◌%◌, List, [], ◌∷◌, Bytes, Option, none, some, Result, ok, err,
  if◌then◌else◌, ◌==◌, length, drop, get_elem?, min,
}
use blocknet_core.Prelude.Sorting.{WeakOrder, ascending, exchange_sort}
use blocknet_core.Block.{Block}

-- An int64 from its bits, in the order of int64.
abbrev pub i64_rank : ℕ → ℕ
i64_rank t = (t + 9223372036854775808) % 18446744073709551616

abbrev pub by_time : WeakOrder ℕ
by_time = ascending i64_rank

-- The loop over at most `n` blocks back from `current`.
unfoldable pub collect_timestamps : (Bytes → Option Block) → ℕ → Option Block → List ℕ
collect_timestamps get_parent zero current = []
collect_timestamps get_parent (suc n) none = []
collect_timestamps get_parent (suc n) (some b) =
    let earlier = collect_timestamps get_parent n (get_parent b.header.prev_hash) in
    b.header.timestamp ∷ (if b.header.height == 0 then [] else earlier)

-- The middle of the sorted slice.
unfoldable pub median_of : List ℕ → Option ℕ
median_of timestamps = get_elem? (exchange_sort by_time timestamps) (length timestamps / 2)

pub data MedianError : Type 0 where
  no_parent invalid_window no_timestamps index_panic : MedianError

unfoldable pub median_from_parent : Option Block → (Bytes → Option Block) → ℕ → Result MedianError ℕ
median_from_parent none get_parent n = err no_parent
median_from_parent (some parent) get_parent n =
    let timestamps = collect_timestamps get_parent n (some parent) in
    if n == 0
    then err invalid_window
    else if length timestamps == 0
    then err no_timestamps
    else elim (median_of timestamps) [ none ↦ err index_panic | some t ↦ ok t ]

-- medianTimestampLocked, on the timestamps of the main chain, and 0 for an empty chain.
unfoldable pub median_locked : List ℕ → ℕ → Option ℕ
median_locked timestamps n =
    if length timestamps == 0
    then some 0
    else median_of (drop (length timestamps - min n (length timestamps)) timestamps)
