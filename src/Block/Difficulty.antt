-- ===== src/Block/Difficulty.antt =====
-- block.go: the difficulty of the next block, which computeLWMA, expectedDifficultyFromParent and
-- nextDifficultyLocked each compute from their own view of the last 61 blocks.
pub mod Bounds
pub mod Agreement
use blocknet_core.Prelude.{
  ℕ, zero, suc, ◌+◌, ◌-◌, ◌*◌, ◌/◌, ◌%◌, List, [], ◌∷◌, Bytes, Option, none, some, Result, ok, err,
  ◌>>=◌, ◌>>◌, refuse_if, if◌then◌else◌, ltb, leb, ◌==◌, get_elem?,
}
use blocknet_core.Block.{Header, Block, ltb_i64}

abbrev pub lwma_window : ℕ
lwma_window = 60

abbrev pub block_interval : ℕ
block_interval = 300

abbrev pub min_difficulty : ℕ
min_difficulty = 4

abbrev pub min_solvetime : ℕ
min_solvetime = 1

abbrev pub max_solvetime : ℕ
max_solvetime = block_interval * 6

abbrev pub weight_total : ℕ
weight_total = lwma_window * (lwma_window + 1) / 2

-- x - y on int64.
abbrev pub sub_i64 : ℕ → ℕ → ℕ
sub_i64 x y = (x + (18446744073709551616 - y)) % 18446744073709551616

-- The time between two blocks, within its limits.
unfoldable pub solvetime : Header → Header → ℕ
solvetime prev cur =
    let t = sub_i64 cur.timestamp prev.timestamp in
    let raised = if ltb_i64 t min_solvetime then min_solvetime else t in
    if ltb_i64 max_solvetime raised then max_solvetime else raised

-- The loop, `n` rounds from round `i` on, with both sums; `at k` is the header of blocks[k], and
-- without one the access panics.
unfoldable pub lwma_loop : (ℕ → Option Header) → ℕ → ℕ → ℕ → ℕ → Option (ℕ × ℕ)
lwma_loop at zero i weighted difficulties = some (weighted, difficulties)
lwma_loop at (suc n) i weighted difficulties = elim (at (i - 1)) [
  | none ↦ none
  | some prev ↦ elim (at i) [
    | none ↦ none
    | some cur ↦
        lwma_loop at n (i + 1) ((weighted + solvetime prev cur * i) % 18446744073709551616)
          ((difficulties + cur.difficulty) % 18446744073709551616)
  ]
]

-- What follows the loop.
unfoldable pub lwma_result : ℕ → ℕ → ℕ
lwma_result weighted difficulties =
    let average = difficulties / lwma_window in
    let divisor = if ltb_i64 weighted 1 then 1 else weighted in
    let next = average * (block_interval * weight_total) % 18446744073709551616 / divisor in
    if ltb next min_difficulty then min_difficulty else next

unfoldable pub lwma : (ℕ → Option Header) → Option ℕ
lwma at = elim (lwma_loop at lwma_window 1 0 0) [
  | none ↦ none
  | some (w, d) ↦ some (lwma_result w d)
]

abbrev pub header_of : Option Block → Option Header
header_of none = none
header_of (some b) = some b.header

-- computeLWMA, on uint64 indices.
unfoldable pub compute_lwma : List Block → ℕ → Option ℕ
compute_lwma blocks height = lwma (λ i.
    header_of (
      get_elem? blocks
        ((height + (18446744073709551616 - lwma_window) + i) % 18446744073709551616)))

pub data ContextError : Type 0 where
  nil_parent insufficient_ancestors panicked : ContextError
  missing_ancestor : ℕ → ContextError

-- The loop that fills blocks[n], .., blocks[0] from a block and its ancestors.
unfoldable pub collect_window :
    (Bytes → Option Block) → ℕ → Block → List Block → Result ContextError (List Block)
collect_window get_parent zero current later = ok (current ∷ later)
collect_window get_parent (suc n) current later =
    refuse_if (current.header.height == 0) insufficient_ancestors
    >> elim (get_parent current.header.prev_hash) [
      | none ↦ err (missing_ancestor (current.header.height - 1))
      | some parent ↦ collect_window get_parent n parent (current ∷ later)
    ]

-- The computation on the window that has been collected.
unfoldable pub window_difficulty : List Block → Result ContextError ℕ
window_difficulty blocks = elim (lwma (λ i. header_of (get_elem? blocks i))) [
  | none ↦ err panicked
  | some d ↦ ok d
]

unfoldable pub expected_difficulty : Option Block → (Bytes → Option Block) → Result ContextError ℕ
expected_difficulty none get_parent = err nil_parent
expected_difficulty (some parent) get_parent =
    if ltb parent.header.height lwma_window
    then ok min_difficulty
    else (collect_window get_parent lwma_window parent [] >>= window_difficulty)

-- nextDifficultyLocked: the chain's height, its hashes by height and its blocks by hash.
unfoldable pub next_difficulty : ℕ → (ℕ → Bytes) → (Bytes → Option Block) → Option ℕ
next_difficulty height by_height blocks =
    if ltb height lwma_window
    then some min_difficulty
    else lwma (λ i. header_of (blocks (by_height (height - lwma_window + i))))
