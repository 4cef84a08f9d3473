-- ===== src/Chain/Agreement/Blocks.antt =====
-- block.go and storage.go: the blocks that a reorganization disconnects, connects and stores.
use blocknet_core.Prelude.{
  ℕ, zero, suc, ◌+◌, ◌-◌, ◌≤◌, ◌≡◌, refl, sym, ap, ◌∙◌, subst, List, [], ◌∷◌, Bytes, Option, some,
  ok, ◌==◌, length, if◌then◌else◌, bytes_eq, bytes_eq_iff, bytes_eq_refl, Bool-cases, Option-cases,
  Result-cases, inl, inr, some_eq, ok-injective, arith, All, All_weaken,
}
use blocknet_core.Prelude.Maps.{lookup}
use blocknet_core.Tx.Crypto.{Crypto}
use blocknet_core.Block.{Block}
use blocknet_core.Block.Validate.{Network}
use blocknet_core.Block.Forks.{connect_loop, collect_connect_path, get_or_missing}
use blocknet_core.Block.Forks.Connect.{Connects}
use blocknet_core.Store.{KeyValue, Store, block_hash, hash_by_height, set_main_chain_block}
use blocknet_core.Store.Commit.{put_block, connect_block, connect_blocks}
use blocknet_core.Store.Chains.{hash_at, extend}
use blocknet_core.Store.Checks.{NoCollision}
use blocknet_core.Store.Effects.{connect_block-Keeps}
use blocknet_core.Chain.{Chain, get_block, stored_at, get_block_by_height}
use blocknet_core.Chain.Process.{disconnect_loop}
use blocknet_core.Chain.Agreement.{Kept, Agrees}

module _ (crypto : Crypto) (kv : KeyValue) where
  open kv use {get, get-put}

  -- Every stored block is the one that `known` gives for its hash.
  abbrev pub Part : (Bytes → Option Block) → Store kv → Type 0
  Part known s = (h : Bytes) (x : Block) → get h s.blocks ≡ some x → known h ≡ some x

  -- Each of the blocks is the one that `known` gives for its hash.
  abbrev pub Known : (Bytes → Option Block) → List Block → Type 0
  Known known bs = All (λ (b : Block). known (block_hash crypto b) ≡ some b) bs

  connect_block-get :
      (b : Block) (s : Store kv) (h : Bytes)
      → get h (connect_block kv crypto b s).blocks
        ≡ (if bytes_eq (block_hash crypto b) h then some b else get h s.blocks)
  unfolding set_main_chain_block put_block
  connect_block-get b s h =
      ap (get h) (connect_block-Keeps kv crypto b s).1.0
      ∙ get-put (block_hash crypto b) h b s.blocks

  connect_block-Part :
      (known : Bytes → Option Block) (b : Block) (s : Store kv)
      → known (block_hash crypto b) ≡ some b
      → Part known s
      → Part known (connect_block kv crypto b s)
  connect_block-Part known b s here part h x e =
      let e1 = sym (connect_block-get b s h) ∙ e in
      elim (Bool-cases (bytes_eq (block_hash crypto b) h)) [
        | inl same ↦
            subst (λ j. known j ≡ some x) ((bytes_eq_iff _ _).0 same) (here ∙ (rw same at e1))
        | inr other ↦ part h x (rw other at e1)
      ]

  -- What was stored stays.
  connect_block-stays :
      (known : Bytes → Option Block) (b : Block) (s : Store kv) (h : Bytes) (x : Block)
      → known (block_hash crypto b) ≡ some b
      → Part known s
      → get h s.blocks ≡ some x
      → get h (connect_block kv crypto b s).blocks ≡ some x
  connect_block-stays known b s h x here part there =
      connect_block-get b s h ∙ (elim (Bool-cases (bytes_eq (block_hash crypto b) h)) [
        | inl same ↦ rw same (
            sym here
            ∙ subst (λ j. known j ≡ some x) (sym ((bytes_eq_iff _ _).0 same)) (part h x there))
        | inr other ↦ rw other there
      ])

  pub connect_blocks-Kept :
      (known : Bytes → Option Block) (bs chain : List Block) (s : Store kv)
      → Known known bs
      → Part known s
      → Kept crypto kv s chain
      → Part known (connect_blocks kv crypto bs s)
        × Kept crypto kv (connect_blocks kv crypto bs s) (extend bs chain)
  unfolding connect_blocks extend
  connect_blocks-Kept known [] chain s here part kept = (part, kept)
  connect_blocks-Kept known (b ∷ bs) chain s here part kept =
      connect_blocks-Kept known bs (b ∷ chain) (connect_block kv crypto b s) here.1
        (connect_block-Part known b s here.0 part)
        (
          (connect_block-get b s (block_hash crypto b)
              ∙ rw (bytes_eq_refl (block_hash crypto b)) refl),
          All_weaken _ _ chain
              (λ d h. connect_block-stays known b s (block_hash crypto d) d here.0 part h) kept,
        )

  -- The block that stands at a height of the chain.
  Kept-hash_at :
      (s : Store kv) (chain : List Block) (h : ℕ) {x : Bytes}
      → Kept crypto kv s chain
      → hash_at crypto chain h ≡ some x
      → (b : Block) × (block_hash crypto b ≡ x) × (get x s.blocks ≡ some b)
  unfolding hash_at
  Kept-hash_at s [] h kept e = absurd (cc e)
  Kept-hash_at s (b ∷ bs) h {x} kept e = elim (Bool-cases (length bs == h)) [
    | inl here ↦
        let same : block_hash crypto b ≡ x = some_eq (rw (here, hash_at) at e) in
        (b, same, subst (λ j. get j s.blocks ≡ some b) same kept.0)
    | inr other ↦ Kept-hash_at s bs h kept.1 (rw (other, hash_at) at e)
  ]

  pub Kept-NoCollision :
      (s : Store kv) (bs chain : List Block)
      → Kept crypto kv s bs
      → Kept crypto kv s chain
      → NoCollision crypto kv bs chain
  Kept-NoCollision s bs chain a k =
      All_weaken _ _ bs
        (λ b h.
          All_weaken _ _ chain
            (λ d g same. some_eq (sym h ∙ subst (λ j. get j s.blocks ≡ some d) same g)) k)
        a

  module _ (c : Chain kv) (chain : List Block) (agrees : Agrees crypto kv c chain) where
    stored_at-Kept :
        (h : ℕ) {b : Block}
        → stored_at kv c h ≡ some b
        → get (block_hash crypto b) c.store.blocks ≡ some b
    unfolding stored_at
    stored_at-Kept h {b} e = elim (Option-cases (hash_by_height kv h c.store)) [
      | inl free ↦ absurd (cc (rw (free, stored_at) at e))
      | inr (x, there) ↦
          let found : get x c.store.blocks ≡ some b = rw (there, stored_at) at e in
          subst (λ j. get j c.store.blocks ≡ some b)
            (sym (agrees.keyed x b (agrees.one_block x b found))) found
    ]

    pub get_block_by_height-Kept :
        (h : ℕ) {b : Block}
        → get_block_by_height kv c h ≡ some b
        → get (block_hash crypto b) c.store.blocks ≡ some b
    unfolding get_block_by_height get_block
    get_block_by_height-Kept h {b} e = elim (Option-cases (c.by_height h)) [
      | inl free ↦ stored_at-Kept h (rw (free, get_block_by_height) at e)
      | inr (x, noted) ↦ elim (Option-cases (lookup x c.blocks)) [
        | inl lost ↦ stored_at-Kept h (rw lost at (rw (noted, get_block_by_height) at e))
        | inr (d, held) ↦
            let same : d ≡ b = some_eq (rw held at (rw (noted, get_block_by_height) at e)) in
            let (k, keyed, there) =
              Kept-hash_at c.store chain h agrees.kept (agrees.within.heights h x noted) in
            let loaded : get_block kv c x ≡ some d = rw (get_block, held) refl in
            let one : k ≡ b = some_eq (sym (agrees.one_block x k there) ∙ loaded) ∙ same in
            subst (λ (y : Block). get (block_hash crypto y) c.store.blocks ≡ some y) one
              (subst (λ j. get j c.store.blocks ≡ some k) (sym keyed) there)
      ]
    ]

    pub disconnect_loop-Kept :
        (net : Network) (n h : ℕ) {bs : List Block}
        → disconnect_loop net kv n c h ≡ ok bs
        → Kept crypto kv c.store bs × (length bs ≡ n)
    unfolding disconnect_loop
    disconnect_loop-Kept net zero h {bs} e =
        let none_there : [] ≡ bs = ok-injective e in
        subst (λ (ds : List Block). Kept crypto kv c.store ds × (length ds ≡ 0)) none_there
          (tt, refl)
    disconnect_loop-Kept net (suc n) h {bs} e = elim (Option-cases (get_block_by_height kv c h)) [
      | inl lost ↦ absurd (cc (rw (lost, disconnect_loop) at e))
      | inr (b, there) ↦ elim (Result-cases (disconnect_loop net kv n c (h - 1))) [
        | inl (x, failed) ↦ absurd (cc (rw failed at (rw (there, disconnect_loop) at e)))
        | inr (ds, below) ↦
            let whole : b ∷ ds ≡ bs =
              ok-injective (rw below at (rw (there, disconnect_loop) at e)) in
            let (kept, size) = disconnect_loop-Kept net n (h - 1) below in
            subst (λ (xs : List Block). Kept crypto kv c.store xs × (length xs ≡ suc n)) whole
              ((get_block_by_height-Kept h there, kept), omega (arith, size))
      ]
    ]

    pub Connects-Known :
        (from tip : Bytes) (bs : List Block)
        → Connects (get_block kv c) from bs tip
        → Known (get_block kv c) bs
    Connects-Known from tip [] walk = tt
    Connects-Known from tip (b ∷ bs) (up, (h, there, rest)) = (
      subst (λ j. get_block kv c j ≡ some b) (sym (agrees.keyed h b there)) there,
      Connects-Known h tip bs rest,
    )

connect_loop-length :
    (get : Bytes → Option Block) (n : ℕ) (common current : Bytes) (later : List Block)
    {path : List Block}
    → connect_loop get n common current later ≡ ok path
    → length path ≤ n + length later
unfolding connect_loop
connect_loop-length get zero common current later e = absurd (cc e)
connect_loop-length get (suc n) common current later {path} e =
    elim (Bool-cases (bytes_eq current common)) [
      | inl met ↦
          let same : later ≡ path = ok-injective (rw (met, connect_loop) at e) in
          omega (arith, ap length same)
      | inr apart ↦ elim (Result-cases (get_or_missing get current)) [
        | inl (x, g) ↦ absurd (cc (rw (apart, g, connect_loop) at e))
        | inr (b, g) ↦ elim (Bool-cases (b.header.height == 0)) [
          | inl bottom ↦ absurd (cc (rw (apart, g, bottom, connect_loop) at e))
          | inr above ↦ omega (
            arith,
            connect_loop-length get n common b.header.prev_hash (b ∷ later)
                (rw (apart, g, above, connect_loop) at e),
          )
        ]
      ]
    ]

pub collect_connect_path-length :
    (get : Bytes → Option Block) (common tip : Bytes) (b : Block) {path : List Block}
    → get tip ≡ some b
    → collect_connect_path get common tip ≡ ok path
    → length path ≤ b.header.height + 2
unfolding collect_connect_path
collect_connect_path-length get common tip b g e = omega (
  arith,
  connect_loop-length get (b.header.height + 2) common tip [] (rw (g, collect_connect_path) at e),
)
