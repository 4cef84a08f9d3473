-- ===== src/Block/Forks.antt =====
-- block.go: findCommonAncestorLocked, collectConnectPathLocked, enforceReorgFinalityLocked and
-- addCumulativeWork.
pub mod Ancestry
pub mod Common
pub mod Totality
pub mod Connect
use blocknet_core.Prelude.{
  ℕ, zero, suc, ◌+◌, ◌-◌, ◌*◌, List, [], ◌∷◌, Bytes, Bool, true, false, ◌||◌, Option, none, some,
  Result, ok, err, ◌>>=◌, ◌>>◌, refuse_if, if◌then◌else◌, ltb, ◌==◌, bytes_eq,
}
use blocknet_core.Block.{Block}

abbrev pub max_reorg_depth : ℕ
max_reorg_depth = 100

pub data ForkError : Type 0 where
  missing : Bytes → ForkError
  incomplete unknown_tip out_of_fuel : ForkError
  crosses_finality : ℕ → ℕ → ForkError

-- addCumulativeWork
unfoldable pub add_cumulative_work : ℕ → ℕ → Option ℕ
add_cumulative_work parent_work difficulty =
    if ltb (18446744073709551615 - parent_work) difficulty
    then none
    else some (parent_work + difficulty)

module _ (get : Bytes → Option Block) where
  unfoldable pub get_or_missing : Bytes → Result ForkError Block
  get_or_missing h = elim (get h) [ none ↦ err (missing h) | some b ↦ ok b ]

  -- One step to the parent.
  unfoldable pub to_parent : Block → Result ForkError (Bytes × Block)
  to_parent b = do
    refuse_if (b.header.height == 0) incomplete
    parent ← get_or_missing b.header.prev_hash
    ok (b.header.prev_hash, parent)

  -- The loops that bring the higher tip down to `target`, on fuel.
  unfoldable pub lower : ℕ → ℕ → Bytes × Block → Result ForkError (Bytes × Block)
  lower zero target p = err out_of_fuel
  lower (suc n) target p = elim (ltb target p.1.header.height) [
    | false ↦ ok p
    | true ↦ elim (to_parent p.1) [ err e ↦ err e | ok q ↦ lower n target q ]
  ]

  -- The loop that takes both down until they meet.
  unfoldable pub meet : ℕ → Bytes × Block → Bytes × Block → Result ForkError (Bytes × ℕ)
  meet zero p q = err out_of_fuel
  meet (suc n) p q = elim (bytes_eq p.0 q.0) [
    | true ↦ ok (p.0, p.1.header.height)
    | false ↦ elim (p.1.header.height == 0 || q.1.header.height == 0) [
      | true ↦ err incomplete
      | false ↦ elim (to_parent p.1) [
        | err e ↦ err e
        | ok p' ↦ elim (to_parent q.1) [ err e ↦ err e | ok q' ↦ meet n p' q' ]
      ]
    ]
  ]

  unfoldable pub find_common_ancestor : Bytes → Bytes → Result ForkError (Bytes × ℕ)
  find_common_ancestor a b = do
    first ← get_or_missing a
    second ← get_or_missing b
    p ← lower (first.header.height + 1) second.header.height (a, first)
    q ← lower (second.header.height + 1) p.1.header.height (b, second)
    meet (p.1.header.height + 1) p q

  -- The loop from the new tip down to the common block; what it has found so far comes after.
  unfoldable pub connect_loop : ℕ → Bytes → Bytes → List Block → Result ForkError (List Block)
  connect_loop zero common current later = err out_of_fuel
  connect_loop (suc n) common current later = elim (bytes_eq current common) [
    | true ↦ ok later
    | false ↦ elim (get_or_missing current) [
      | err e ↦ err e
      | ok b ↦ elim (b.header.height == 0) [
        | true ↦ err incomplete
        | false ↦ connect_loop n common b.header.prev_hash (b ∷ later)
      ]
    ]
  ]

  -- collectConnectPathLocked; a block of height h has at most h + 1 blocks on its branch.
  unfoldable pub collect_connect_path : Bytes → Bytes → Result ForkError (List Block)
  collect_connect_path common tip = elim (get tip) [
    | none ↦ connect_loop 1 common tip []
    | some b ↦ connect_loop (b.header.height + 2) common tip []
  ]

  -- enforceReorgFinalityLocked, on a chain of this height and best hash.
  unfoldable pub enforce_finality : ℕ → Bytes → Bytes → Result ForkError (Unit {0})
  enforce_finality height best tip = if ltb height max_reorg_depth then ok tt else elim (get tip) [
    | none ↦ err unknown_tip
    | some b ↦ elim (find_common_ancestor best tip) [
      | err e ↦ err e
      | ok p ↦
          refuse_if (ltb p.1 (height - max_reorg_depth))
            (crosses_finality p.1 (height - max_reorg_depth))
    ]
  ]
