-- ===== src/Store/Completes.antt =====
-- storage.go: CommitReorg accepts each reorganization of the chain that is one.
use blocknet_core.Prelude.{
  ℕ, suc, ◌≡◌, ap, List, [], ◌∷◌, Bytes, Option, none, some, length, arith, some_eq,
}
use blocknet_core.Tx.Crypto.{Crypto}
use blocknet_core.Block.{Block}
use blocknet_core.Store.{KeyValue, Store}
use blocknet_core.Store.Chains.{LinksTo, tip_of}

module _ (c : Crypto) (kv : KeyValue) where
  open kv use {Bucket, get}

  pub tip_height :
      (chain : List Block) {tip : Bytes} {n : ℕ}
      → tip_of c chain ≡ some (tip, n)
      → suc n ≡ length chain
  unfolding tip_of
  tip_height [] e = absurd (cc e)
  tip_height (b ∷ bs) e = omega (arith, ap (λ (p : Bytes × ℕ). p.1) (some_eq e))

  abbrev Above : Option Block → List Block → Type 0
  Above none chain = Unit {0}
  Above (some a) chain = LinksTo c a chain
