-- ===== src/Tests/BranchRuns.antt =====
-- Difficulty and forks: theorems on one long branch of made-up blocks.
use blocknet_core.Prelude.{
  length, ℕ, zero, suc, ◌+◌, ◌*◌, ◌/◌, ◌<◌, ◌≤◌, ◌≡◌, ◌⊎◌, refl, sym, ap, ◌∙◌, subst, List, [], ◌∷◌,
  Bytes, Option, none, some, ok, arith, get_elem?, some_eq, bytes_eq,
}
use blocknet_core.Block.{Header, Block}
use blocknet_core.Block.Difficulty.{
  expected_difficulty, compute_lwma, next_difficulty, lwma, lwma_loop, lwma_result, solvetime,
  min_difficulty,
}
use blocknet_core.Block.Difficulty.Agreement.{
  IsChain, expected_difficulty-compute_lwma, expected_difficulty-next_difficulty,
}
use blocknet_core.Block.Difficulty.Bounds.{lwma_bounds}
use blocknet_core.Block.Median.{collect_timestamps, median_from_parent}
use blocknet_core.Block.Median.Middle.{not_after, not_before, median_from_parent_middle}
use blocknet_core.Prelude.Counts.{count}
use blocknet_core.Block.Forks.{
  find_common_ancestor, enforce_finality, collect_connect_path, get_or_missing, to_parent, lower,
  meet,
}
use blocknet_core.Block.Forks.Ancestry.{ancestor, Linked}
use blocknet_core.Block.Forks.Common.{Meets, find_common_ancestor-Meets, enforce_finality_sound}
use blocknet_core.Block.Forks.Connect.{Connects, collect_connect_path_total}
use blocknet_core.Block.Forks.Totality.{find_common_ancestor_total}

-- The block of height k has the hash k + 1.
abbrev hash_of : ℕ → Bytes
hash_of k = suc k ∷ []

abbrev block_at : ℕ → Block
block_at k = record {
  header = record {
    version = 1;
    height = k;
    prev_hash = k ∷ [];
    merkle_root = [];
    timestamp = 100 * k;
    difficulty = 10;
    nonce = 0;
  };
  transactions = [];
}

abbrev stored : Bytes → Option Block
stored [] = none
stored (zero ∷ h) = none
stored (suc k ∷ h) = some (block_at k)

abbrev branch : ℕ → ℕ → List Block
branch k zero = []
branch k (suc n) = block_at k ∷ branch (suc k) n

branch_at :
    (k n i : ℕ) (b : Block) → get_elem? (branch k n) i ≡ some b → (b ≡ block_at (k + i)) × (i < n)
branch_at k zero i b e = absurd (cc e)
branch_at k (suc n) zero b e = (sym (some_eq e) ∙ ap block_at (omega arith), omega arith)
branch_at k (suc n) (suc i) b e =
    let (same, small) = branch_at (suc k) n i b e in
    (same ∙ ap block_at (omega arith), omega (arith, small))

branch_has : (k n i : ℕ) → i < n → get_elem? (branch k n) i ≡ some (block_at (k + i))
branch_has k zero i h = absurd (omega arith)
branch_has k (suc n) zero h = ap (λ m. some (block_at m)) (omega arith)
branch_has k (suc n) (suc i) h =
    branch_has (suc k) n i (omega (arith, h)) ∙ ap (λ m. some (block_at m)) (omega arith)

has : (n i : ℕ) → i < n → get_elem? (branch 0 n) i ≡ some (block_at i)
has n i h = branch_has 0 n i h ∙ ap (λ m. some (block_at m)) (omega arith)

at : (n i : ℕ) (b : Block) → get_elem? (branch 0 n) i ≡ some b → (b ≡ block_at i) × (i < n)
at n i b e = let (same, small) = branch_at 0 n i b e in (same ∙ ap block_at (omega arith), small)

branch-IsChain : (n : ℕ) → IsChain stored (branch 0 n)
branch-IsChain n = record {
  linked = λ k b e.
      let (same, small) = at n (suc k) b e in
      (block_at k, has n k (omega (arith, small)), rw same refl);
  heights = λ k b e. rw (at n k b e).0 refl;
}

expected_difficulty-compute_lwma_example :
    (d : ℕ) × (expected_difficulty (some (block_at 65)) stored ≡ ok d)
    × (compute_lwma (branch 0 70) 65 ≡ some d)
expected_difficulty-compute_lwma_example =
    expected_difficulty-compute_lwma stored (branch 0 70) (branch-IsChain 70) 65 (block_at 65) refl
      (omega arith) (omega arith)

cached : (k : ℕ) → k ≤ 65 → 65 ≤ k + 60 → stored (hash_of k) ≡ get_elem? (branch 0 70) k
cached k h i = sym (has 70 k (omega (arith, h)))

expected_difficulty-next_difficulty_example :
    (d : ℕ) × (expected_difficulty (some (block_at 65)) stored ≡ ok d)
    × (next_difficulty 65 hash_of stored ≡ some d)
expected_difficulty-next_difficulty_example =
    expected_difficulty-next_difficulty stored (branch 0 70) (branch-IsChain 70) hash_of stored 65
      (block_at 65) refl cached

abbrev window_at : ℕ → Option Header
window_at i = some (block_at i).header

window_difficulties :
    (k : ℕ) (h : Header) → window_at k ≡ some h → (10 ≤ h.difficulty) × (h.difficulty ≤ 10)
window_difficulties k h e =
    let same : (block_at k).header ≡ h = some_eq e in
    subst (λ (x : Header). (10 ≤ x.difficulty) × (x.difficulty ≤ 10)) same
      (omega arith, omega arith)

window_lwma : lwma window_at ≡ some 30
unfolding lwma lwma_loop lwma_result solvetime
window_lwma = refl

lwma_bounds_example :
    (10 / 6 ≤ 30) × (min_difficulty ≤ 30) × ((30 ≤ min_difficulty) ⊎ (30 ≤ 300 * 10))
lwma_bounds_example = lwma_bounds window_at 10 10 window_difficulties (omega arith) window_lwma

stored-Linked : Linked stored
stored-Linked [] b p hb high e = absurd (cc hb)
stored-Linked (zero ∷ h) b p hb high e = absurd (cc hb)
stored-Linked (suc zero ∷ h) b p hb high e =
    absurd (high (ap (λ (x : Block). x.header.height) (sym (some_eq hb))))
stored-Linked (suc (suc k) ∷ h) b p hb high e =
    let here : block_at (suc k) ≡ b = some_eq hb in
    let there : block_at k ≡ p = some_eq (ap (λ (x : Block). stored x.header.prev_hash) here ∙ e) in
    sym (ap (λ (x : Block). x.header.height) here)
    ∙ omega arith
    ∙ ap (λ (x : Block). x.header.height + 1) there

ancestor_found : find_common_ancestor stored (hash_of 9) (hash_of 4) ≡ ok (hash_of 4, 4)
unfolding find_common_ancestor get_or_missing to_parent lower meet bytes_eq
ancestor_found = refl

find_common_ancestor-Meets_example : Meets stored (hash_of 9) (hash_of 4) (hash_of 4, 4)
find_common_ancestor-Meets_example =
    find_common_ancestor-Meets stored (hash_of 9) (hash_of 4) stored-Linked ancestor_found

far_below : ancestor stored 7 (hash_of 9) ≡ some (hash_of 2)
unfolding ancestor
far_below = refl

near_below : ancestor stored 2 (hash_of 4) ≡ some (hash_of 2)
unfolding ancestor
near_below = refl

find_common_ancestor_total_example :
    (r : Bytes × ℕ) × (find_common_ancestor stored (hash_of 9) (hash_of 4) ≡ ok r)
find_common_ancestor_total_example =
    find_common_ancestor_total stored stored-Linked (hash_of 2) (block_at 2) refl 7 2 (hash_of 9)
      (hash_of 4) far_below near_below

final : enforce_finality stored 103 (hash_of 103) (hash_of 5) ≡ ok tt
unfolding enforce_finality find_common_ancestor get_or_missing to_parent lower meet bytes_eq
final = refl

enforce_finality_sound_example :
    (r : Bytes × ℕ) × Meets stored (hash_of 103) (hash_of 5) r × (103 ≤ r.1 + 100)
enforce_finality_sound_example =
    enforce_finality_sound stored 103 (hash_of 103) (hash_of 5) stored-Linked (omega arith) final

collect_connect_path_total_example :
    (path : List Block) × (collect_connect_path stored (hash_of 2) (hash_of 9) ≡ ok path)
    × Connects stored (hash_of 2) path (hash_of 9)
collect_connect_path_total_example =
    collect_connect_path_total stored 7 (hash_of 2) (hash_of 9) (block_at 9) stored-Linked refl
      far_below

median_from_parent_middle_example :
    (m : ℕ) × (median_from_parent (some (block_at 20)) stored 11 ≡ ok m)
    × (length (collect_timestamps stored 11 (some (block_at 20)))
        < 2 * count (not_after m) (collect_timestamps stored 11 (some (block_at 20))))
    × (length (collect_timestamps stored 11 (some (block_at 20)))
        ≤ 2 * count (not_before m) (collect_timestamps stored 11 (some (block_at 20))))
median_from_parent_middle_example = median_from_parent_middle (block_at 20) stored 11 (omega arith)
