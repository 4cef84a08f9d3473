-- ===== src/Block/Validate/Rules.antt =====
-- block.go: what a block that passes validateBlockWithContext fulfils.
use blocknet_core.Prelude.{
  ℕ, ◌+◌, ◌≡◌, refl, List, [], ◌∷◌, ◌++◌, Bytes, Bool, true, false, ok, err, Result, >>=-eq-ok,
  refuse_if-eq-ok, contains, map, All, if◌then◌else◌, Bool-cases, subst, sym, ok-injective, inl,
  inr, Option,
}
use blocknet_core.Tx.{Transaction, TxInput, is_coinbase}
use blocknet_core.Tx.Accepts.{Distinct, Unseen-cons}
use blocknet_core.Tx.Validate.{validate_transaction}
use blocknet_core.Block.Validate.{
  Network, BlockError, or_block, bad_transaction, duplicate_key_image, see_images, check_txs,
}

-- The key images of all inputs of all transactions.
unfoldable pub all_images : List Transaction → List Bytes
all_images [] = []
all_images (tx ∷ txs) = map (λ x. x.key_image) tx.inputs ++ all_images txs

-- A list whose members are distinct and not among `seen`.
abbrev pub New : List Bytes → List Bytes → Type 0
New seen xs = Distinct xs × All (λ k. contains seen k ≡ false) xs

pub or_block-eq-ok {ℓ κ} :
    {E : Type ℓ} {A : Type κ} (f : E → BlockError) (r : Result E A) {a : A}
    → or_block f r ≡ ok a
    → r ≡ ok a
unfolding or_block
or_block-eq-ok f (ok a) h = cc
or_block-eq-ok f (err e) h = cc

see_images-New :
    (i j : ℕ) (seen : List Bytes) (xs : List TxInput) {later : List Bytes} (ks : List Bytes)
    → see_images i j seen xs ≡ ok later
    → New later ks
    → New seen (map (λ x. x.key_image) xs ++ ks)
unfolding see_images
see_images-New i j seen [] ks h n = subst (λ s. New s ks) (sym (ok-injective h)) n
see_images-New i j seen (x ∷ xs) ks h n =
    let k = x.key_image in
    let (fresh, h1) = refuse_if-eq-ok (contains seen k) (duplicate_key_image i j) _ h in
    let (distinct, unseen) = see_images-New i (j + 1) (k ∷ seen) xs ks h1 n in
    let (other, old) = (Unseen-cons k seen (map (λ x. x.key_image) xs ++ ks)).0 unseen in
    ((other, distinct), (fresh, old))

pub coinbase_images :
    (tx : Transaction) → is_coinbase tx ≡ true → map (λ x. x.key_image) tx.inputs ≡ []
unfolding is_coinbase
coinbase_images tx h = no_images tx.inputs h
  where
    no_images :
        (xs : List TxInput)
        → (elim xs [ List.[] ↦ true | _ ↦ false ]) ≡ true
        → map (λ x. x.key_image) xs ≡ []
    no_images [] e = refl
    no_images (x ∷ xs) e = absurd (cc e)

module _ (net : Network) (is_spent : Bytes → Bool) (checker : Option (Bytes → Bytes → Bool)) where
  -- All transactions are valid by themselves, and no key image stands twice, in one or in two.
  pub check_txs_sound :
      (i : ℕ) (seen : List Bytes) (txs : List Transaction)
      → check_txs net is_spent checker i seen txs ≡ ok tt
      → All (λ tx. validate_transaction net.crypto is_spent checker tx ≡ ok tt) txs
        × New seen (all_images txs)
  unfolding check_txs all_images
  check_txs_sound i seen [] h = (tt, (tt, tt))
  check_txs_sound i seen (tx ∷ txs) h =
      let check = validate_transaction net.crypto is_spent checker tx in
      let (u, valid, h1) = >>=-eq-ok (or_block (bad_transaction i) check) _ h in
      let see : Result BlockError (List Bytes) =
        if is_coinbase tx then ok seen else see_images i 0 seen tx.inputs in
      let (later, seen_by, h2) = >>=-eq-ok see _ h1 in
      let (all, n) = check_txs_sound (i + 1) later txs h2 in
      (
        (or_block-eq-ok (bad_transaction i) check valid, all),
        elim (Bool-cases (is_coinbase tx)) [
          | inl c ↦
              rw (coinbase_images tx c)
                (subst (λ s. New s (all_images txs)) (sym (ok-injective (rw c at seen_by))) n)
          | inr c ↦ see_images-New i 0 seen tx.inputs (all_images txs) (rw c at seen_by) n
        ],
      )
