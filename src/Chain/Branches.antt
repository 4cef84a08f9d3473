-- ===== src/Chain/Branches.antt =====
-- block.go: the key images that branchAwareSpentCheckerLocked refuses.
use blocknet_core.Prelude.{
  ℕ, zero, suc, ◌+◌, ◌≡◌, ◌↔◌, ◌⊎◌, inl, inr, refl, sym, ap, ◌∙◌, subst, List, [], ◌∷◌, Bytes, Bool,
  true, false, ◌||◌, some, ok, ◌==◌, bytes_eq, contains, arith, Bool-cases, Option-cases,
  Result-cases, ok-injective, some_eq,
}
use blocknet_core.Tx.{Transaction, TxInput, is_coinbase}
use blocknet_core.Block.{Block}
use blocknet_core.Store.{KeyValue}
use blocknet_core.Store.Chains.{inputs_spend, txs_spend}
use blocknet_core.Chain.{Chain, get_block, image_spent}
use blocknet_core.Chain.Spent.{add_inputs, add_images, on_main, branch_images, branch_spent}

add_inputs_lem :
    (xs : List TxInput) (seen : List Bytes) (k : Bytes)
    → contains (add_inputs xs seen) k ≡ (inputs_spend xs k || contains seen k)
unfolding add_inputs inputs_spend contains
add_inputs_lem [] seen k = refl
add_inputs_lem (x ∷ xs) seen k =
    add_inputs_lem xs (x.key_image ∷ seen) k ∙ ground (arith, Bool-cases (bytes_eq x.key_image k))

add_images_lem :
    (txs : List Transaction) (seen : List Bytes) (k : Bytes)
    → contains (add_images txs seen) k ≡ (txs_spend txs k || contains seen k)
unfolding add_images txs_spend
add_images_lem [] seen k = refl
add_images_lem (tx ∷ txs) seen k = elim (Bool-cases (is_coinbase tx)) [
  | inl e ↦ rw (e, add_images, txs_spend) (add_images_lem txs seen k)
  | inr e ↦
      rw (e, add_images, txs_spend)
        (add_images_lem txs (add_inputs tx.inputs seen) k
          ∙ ground (arith, add_inputs_lem tx.inputs seen k))
]

added :
    (txs : List Transaction) (seen : List Bytes) (k : Bytes)
    → contains (add_images txs seen) k ≡ true
    → (txs_spend txs k ≡ true) ⊎ (contains seen k ≡ true)
added txs seen k t = elim (Bool-cases (txs_spend txs k)) [
  | inl spent ↦ inl spent
  | inr unspent ↦ inr (ground (arith, t, unspent, add_images_lem txs seen k))
]

adds :
    (txs : List Transaction) (seen : List Bytes) (k : Bytes)
    → (txs_spend txs k ≡ true) ⊎ (contains seen k ≡ true)
    → contains (add_images txs seen) k ≡ true
adds txs seen k (inl spent) = ground (arith, spent, add_images_lem txs seen k)
adds txs seen k (inr before) = ground (arith, before, add_images_lem txs seen k)

module _ (kv : KeyValue) (c : Chain kv) where
  -- The blocks of the branch that ends in a hash, from its last block down to before the main chain.
  pub data OffMain : Bytes → Block → Type 0 where
    here :
        (h : Bytes) (b : Block) → get_block kv c h ≡ some b → on_main kv c h b ≡ false → OffMain h b
    below :
        (h : Bytes) (b d : Block)
        → get_block kv c h ≡ some b
        → on_main kv c h b ≡ false
        → (b.header.height == 0) ≡ false
        → OffMain b.header.prev_hash d
        → OffMain h d

  -- A block of the branch spends this key image.
  abbrev pub SpentOff : Bytes → Bytes → Type 0
  SpentOff h k = (d : Block) × OffMain h d × (txs_spend d.transactions k ≡ true)

  off_cases :
      {h : Bytes} {d : Block}
      → OffMain h d
      → (b : Block) → get_block kv c h ≡ some b
      → (on_main kv c h b ≡ false)
        × ((d ≡ b) ⊎ (((b.header.height == 0) ≡ false) × OffMain b.header.prev_hash d))
  off_cases (here h d g off) b g' =
      let same : d ≡ b = some_eq (sym g ∙ g') in
      (subst (λ x. on_main kv c h x ≡ false) same off, inl same)
  off_cases (below h a d g off above rest) b g' =
      let same : a ≡ b = some_eq (sym g ∙ g') in
      (
        subst (λ x. on_main kv c h x ≡ false) same off,
        inr (
          subst (λ (x : Block). (x.header.height == 0) ≡ false) same above,
          subst (λ (x : Block). OffMain x.header.prev_hash d) same rest,
        ),
      )

  branch_images_iff :
      (n : ℕ) (h : Bytes) (seen : List Bytes) {images : List Bytes} (k : Bytes)
      → branch_images kv c n h seen ≡ ok images
      → (contains images k ≡ true) ↔ (SpentOff h k ⊎ (contains seen k ≡ true))
  unfolding branch_images
  branch_images_iff zero h seen k e = absurd (cc e)
  branch_images_iff (suc n) h seen {images} k e = elim (Option-cases (get_block kv c h)) [
    | inl g ↦ absurd (cc (rw (g, branch_images) at e))
    | inr (b, g) ↦ elim (Bool-cases (on_main kv c h b)) [
      | inl main ↦
          let e1 = rw (g, branch_images) at e in
          let same : seen ≡ images = ok-injective (rw main at e1) in
          (
            λ t. inr (rw same t),
            λ s. elim s [
              | inl (d, off, spent) ↦ absurd (cc (main, (off_cases off b g).0))
              | inr t ↦ rw (← same) t
            ],
          )
      | inr off ↦ elim (Bool-cases (b.header.height == 0)) [
        | inl bottom ↦
            let e1 = rw (g, branch_images) at e in
            let same : add_images b.transactions seen ≡ images =
              ok-injective (rw (off, bottom) at e1) in
            (
              λ t. elim (added b.transactions seen k (rw same t)) [
                | inl spent ↦ inl (b, here h b g off, spent)
                | inr before ↦ inr before
              ],
              λ s. rw (← same) (elim s [
                | inl (d, there, spent) ↦ elim (off_cases there b g).1 [
                  | inl first ↦
                      adds b.transactions seen k
                        (inl (subst (λ (x : Block). txs_spend x.transactions k ≡ true) first spent))
                  | inr (above, rest) ↦ absurd (cc (bottom, above))
                ]
                | inr before ↦ adds b.transactions seen k (inr before)
              ]),
            )
        | inr above ↦
            let e1 = rw (g, branch_images) at e in
            let (there, back) =
              branch_images_iff n b.header.prev_hash (add_images b.transactions seen) k
                (rw (off, above) at e1) in
            (
              λ t. elim (there t) [
                | inl (d, lower, spent) ↦ inl (d, below h b d g off above lower, spent)
                | inr more ↦ elim (added b.transactions seen k more) [
                  | inl spent ↦ inl (b, here h b g off, spent)
                  | inr before ↦ inr before
                ]
              ],
              λ s. elim s [
                | inl (d, inside, spent) ↦ elim (off_cases inside b g).1 [
                  | inl first ↦ back (
                      inr (
                        adds b.transactions seen k (
                          inl (
                            subst (λ (x : Block). txs_spend x.transactions k ≡ true) first spent))))
                  | inr (high, rest) ↦ back (inl (d, rest, spent))
                ]
                | inr before ↦ back (inr (adds b.transactions seen k (inr before)))
              ],
            )
      ]
    ]
  ]

  -- A checker that branchAwareSpentCheckerLocked returns for a parent refuses exactly the key images that a
  -- block of the parent's branch spends, down to where it meets the main chain, and those spent on the
  -- whole main chain, above that point as well as below it.
  pub branch_spent_iff :
      (parent : Bytes) (k : Bytes) {spent : Bytes → Bool}
      → branch_spent kv c parent ≡ ok spent
      → (spent k ≡ true) ↔ (SpentOff parent k ⊎ (image_spent kv c k ≡ true))
  unfolding branch_spent contains
  branch_spent_iff parent k {spent} e = elim (Option-cases (get_block kv c parent)) [
    | inl g ↦ absurd (cc (rw (g, branch_spent) at e))
    | inr (b, g) ↦ elim (Result-cases (branch_images kv c (b.header.height + 1) parent [])) [
      | inl (x, failed) ↦ absurd (cc (rw failed at (rw (g, branch_spent) at e)))
      | inr (images, found) ↦
          let e1 = rw (g, branch_spent) at e in
          let same : (λ (j : Bytes). contains images j || image_spent kv c j) ≡ spent =
            ok-injective (rw found at e1) in
          let test : (contains images k || image_spent kv c k) ≡ spent k = ap (λ f. f k) same in
          let (there, back) = branch_images_iff (b.header.height + 1) parent [] k found in
          (
            λ t. elim (Bool-cases (image_spent kv c k)) [
              | inl main ↦ inr main
              | inr free ↦ elim (there (ground (arith, test, t, free))) [
                | inl off ↦ inl off
                | inr nothing ↦ absurd (cc nothing)
              ]
            ],
            λ s. sym test ∙ (elim s [
              | inl off ↦ ground (arith, back (inl off))
              | inr main ↦ ground (arith, main)
            ]),
          )
    ]
  ]
