-- ===== src/Block/Merkle.antt =====
-- block.go: computeMerkleRoot and ComputeMerkleRoot.
use blocknet_core.Prelude.{
  ℕ, zero, suc, ◌*◌, ◌≤◌, ◌<◌, ◌≡◌, ◌≢◌, refl, sym, ap, ◌∙◌, ◌⊎◌, inl, inr, List, [], ◌∷◌, ◌++◌,
  Bytes, Option, none, some, Result, ok, ◌>>=◌, arith, length, length-append, replicate, take, drop,
  take_exact, drop_exact, All, bytes_eq, bytes_eq_iff, bytes_eq-false_iff, Bool-cases, some_eq,
  subst,
}
use blocknet_core.Tx.{Transaction}
use blocknet_core.Tx.Crypto.{Crypto, tx_id}
use blocknet_core.Tx.Encode.{Panic}
use blocknet_core.Block.{Block}

-- `append(hashes, hashes[len(hashes)-1])` where their number is odd.
unfoldable pub pad_even : List Bytes → List Bytes
pad_even [] = []
pad_even (x ∷ []) = x ∷ x ∷ []
pad_even (x ∷ y ∷ hashes) = x ∷ y ∷ pad_even hashes

module _ (sha : Bytes → Bytes) where
  -- The loop over the pairs.
  unfoldable pub combine : List Bytes → List Bytes
  combine [] = []
  combine (x ∷ []) = []
  combine (x ∷ y ∷ hashes) = sha (x ++ y) ∷ combine hashes

  -- The recursion of computeMerkleRoot, on fuel.
  unfoldable pub merkle_rounds : ℕ → List Bytes → Option Bytes
  merkle_rounds zero hashes = none
  merkle_rounds (suc n) [] = some (replicate 32 0)
  merkle_rounds (suc n) (x ∷ []) = some x
  merkle_rounds (suc n) (x ∷ y ∷ hashes) = merkle_rounds n (combine (pad_even (x ∷ y ∷ hashes)))

  unfoldable pub merkle_root : List Bytes → Option Bytes
  merkle_root hashes = merkle_rounds (suc (length hashes)) hashes

unfoldable pub tx_ids : Crypto → List Transaction → Result Panic (List Bytes)
tx_ids c [] = ok []
tx_ids c (tx ∷ txs) = do id ← tx_id c tx; ids ← tx_ids c txs; ok (id ∷ ids)

-- Block.ComputeMerkleRoot
unfoldable pub block_root : Crypto → Block → Result Panic (Option Bytes)
block_root c b = do ids ← tx_ids c b.transactions; ok (merkle_root c.sha3_256 ids)

module _ (sha : Bytes → Bytes) where
  length-combine :
      (x y : Bytes) (hashes : List Bytes)
      → length (combine sha (pad_even (x ∷ y ∷ hashes))) < length (x ∷ y ∷ hashes)
  unfolding combine pad_even
  length-combine x y [] = omega arith
  length-combine x y (z ∷ []) = omega arith
  length-combine x y (z ∷ w ∷ hashes) = omega (arith, length-combine z w hashes)

  merkle_rounds_total :
      (n : ℕ) (hashes : List Bytes)
      → length hashes < n
      → (root : Bytes) × (merkle_rounds sha n hashes ≡ some root)
  unfolding merkle_rounds
  merkle_rounds_total zero hashes h = absurd (omega arith)
  merkle_rounds_total (suc n) [] h = (replicate 32 0, refl)
  merkle_rounds_total (suc n) (x ∷ []) h = (x, refl)
  merkle_rounds_total (suc n) (x ∷ y ∷ hashes) h =
      merkle_rounds_total n (combine sha (pad_even (x ∷ y ∷ hashes)))
        (omega (arith, length-combine x y hashes))

  -- The recursion of computeMerkleRoot comes to an end for every list of hashes.
  pub merkle_root_total :
      (hashes : List Bytes) → (root : Bytes) × (merkle_root sha hashes ≡ some root)
  unfolding merkle_root
  merkle_root_total hashes = merkle_rounds_total (suc (length hashes)) hashes (omega arith)

  -- Two inputs with one hash.
  abbrev pub Collision : Type 0
  Collision = (a : Bytes) × (b : Bytes) × (a ≢ b) × (sha a ≡ sha b)

  abbrev pub IsHash : Bytes → Type 0
  IsHash x = length x ≡ 32

  same_or_collision :
      (x y u v : Bytes)
      → IsHash x
      → IsHash u
      → sha (x ++ y) ≡ sha (u ++ v)
      → ((x ≡ u) × (y ≡ v)) ⊎ Collision
  same_or_collision x y u v hx hu e = elim (Bool-cases (bytes_eq (x ++ y) (u ++ v))) [
    | inr other ↦ inr (x ++ y, u ++ v, (bytes_eq-false_iff _ _).0 other, e)
    | inl same ↦
        let p = (bytes_eq_iff _ _).0 same in
        inl (
          sym (take_exact x hx y) ∙ ap (take 32) p ∙ take_exact u hu v,
          sym (drop_exact x hx y) ∙ ap (drop 32) p ∙ drop_exact u hu v,
        )
  ]

  head_eq : {x u : Bytes} {xs us : List Bytes} → x ∷ xs ≡ u ∷ us → (x ≡ u) × (xs ≡ us)
  head_eq e = (cc e, cc e)

  combine-binding :
      (xs us : List Bytes)
      → length xs ≡ length us
      → All IsHash xs
      → All IsHash us
      → combine sha (pad_even xs) ≡ combine sha (pad_even us)
      → (xs ≡ us) ⊎ Collision
  unfolding combine pad_even
  combine-binding [] [] l h k e = inl refl
  combine-binding [] (u ∷ us) l h k e = absurd (omega arith)
  combine-binding (x ∷ xs) [] l h k e = absurd (omega arith)
  combine-binding (x ∷ []) (u ∷ v ∷ us) l h k e = absurd (omega arith)
  combine-binding (x ∷ y ∷ xs) (u ∷ []) l h k e = absurd (omega arith)
  combine-binding (x ∷ []) (u ∷ []) l h k e =
      elim (same_or_collision x x u u h.0 k.0 (head_eq e).0) [
        | inl p ↦ inl (cc p.0)
        | inr c ↦ inr c
      ]
  combine-binding (x ∷ y ∷ xs) (u ∷ v ∷ us) l h k e =
      elim (same_or_collision x y u v h.0 k.0 (head_eq e).0) [
        | inr c ↦ inr c
        | inl p ↦ elim (combine-binding xs us (omega (arith, l)) h.1.1 k.1.1 (head_eq e).1) [
          | inr c ↦ inr c
          | inl q ↦ inl (cc (p.0, p.1, q))
        ]
      ]

  length-combine_eq :
      (xs us : List Bytes)
      → length xs ≡ length us
      → length (combine sha (pad_even xs)) ≡ length (combine sha (pad_even us))
  unfolding combine pad_even
  length-combine_eq [] [] l = refl
  length-combine_eq [] (u ∷ us) l = absurd (omega arith)
  length-combine_eq (x ∷ xs) [] l = absurd (omega arith)
  length-combine_eq (x ∷ []) (u ∷ v ∷ us) l = absurd (omega arith)
  length-combine_eq (x ∷ y ∷ xs) (u ∷ []) l = absurd (omega arith)
  length-combine_eq (x ∷ []) (u ∷ []) l = refl
  length-combine_eq (x ∷ y ∷ xs) (u ∷ v ∷ us) l =
      ap suc (length-combine_eq xs us (omega (arith, l)))

  module _ (sized : (a : Bytes) → IsHash (sha a)) where
    combine-All : (xs : List Bytes) → All IsHash (combine sha xs)
    unfolding combine
    combine-All [] = tt
    combine-All (x ∷ []) = tt
    combine-All (x ∷ y ∷ xs) = (sized (x ++ y), combine-All xs)

    merkle_rounds-binding :
        (n : ℕ) (xs us : List Bytes) {root : Bytes}
        → length xs ≡ length us
        → All IsHash xs
        → All IsHash us
        → merkle_rounds sha n xs ≡ some root
        → merkle_rounds sha n us ≡ some root
        → (xs ≡ us) ⊎ Collision
    unfolding merkle_rounds
    merkle_rounds-binding zero xs us l h k p q = absurd (cc p)
    merkle_rounds-binding (suc n) [] [] l h k p q = inl refl
    merkle_rounds-binding (suc n) [] (u ∷ us) l h k p q = absurd (omega arith)
    merkle_rounds-binding (suc n) (x ∷ xs) [] l h k p q = absurd (omega arith)
    merkle_rounds-binding (suc n) (x ∷ []) (u ∷ v ∷ us) l h k p q = absurd (omega arith)
    merkle_rounds-binding (suc n) (x ∷ y ∷ xs) (u ∷ []) l h k p q = absurd (omega arith)
    merkle_rounds-binding (suc n) (x ∷ []) (u ∷ []) l h k p q = inl (cc (some_eq p, some_eq q))
    merkle_rounds-binding (suc n) (x ∷ y ∷ xs) (u ∷ v ∷ us) l h k p q =
        elim (merkle_rounds-binding n (combine sha (pad_even (x ∷ y ∷ xs)))
          (combine sha (pad_even (u ∷ v ∷ us))) (length-combine_eq (x ∷ y ∷ xs) (u ∷ v ∷ us) l)
          (combine-All _) (combine-All _) p q) [
            | inr c ↦ inr c
            | inl e ↦ combine-binding (x ∷ y ∷ xs) (u ∷ v ∷ us) l h k e
          ]

    -- If the hash function returns 32 bytes, a root binds the hashes under it: two lists of as many
    -- 32-byte hashes with the same root are the same list, or show two inputs with one hash.
    pub merkle_root-binding :
        (xs us : List Bytes)
        → length xs ≡ length us
        → All IsHash xs
        → All IsHash us
        → merkle_root sha xs ≡ merkle_root sha us
        → (xs ≡ us) ⊎ Collision
    unfolding merkle_root
    merkle_root-binding xs us l h k e =
        let (root, p) = merkle_rounds_total (suc (length xs)) xs (omega arith) in
        merkle_rounds-binding (suc (length xs)) xs us l h k p
          (subst (λ n. merkle_rounds sha (suc n) us ≡ some root) (sym l) (sym e ∙ p))

  rounds_enough :
      (n m : ℕ) (xs : List Bytes)
      → length xs < n
      → length xs < m
      → merkle_rounds sha n xs ≡ merkle_rounds sha m xs
  unfolding merkle_rounds
  rounds_enough zero m xs h k = absurd (omega arith)
  rounds_enough (suc n) zero xs h k = absurd (omega arith)
  rounds_enough (suc n) (suc m) [] h k = refl
  rounds_enough (suc n) (suc m) (x ∷ []) h k = refl
  rounds_enough (suc n) (suc m) (x ∷ y ∷ xs) h k =
      let l = length-combine x y xs in
      rounds_enough n m (combine sha (pad_even (x ∷ y ∷ xs))) (omega (arith, l, h))
        (omega (arith, l, k))

  pad_even_twice : (xs : List Bytes) → pad_even (pad_even xs) ≡ pad_even xs
  unfolding pad_even
  pad_even_twice [] = refl
  pad_even_twice (x ∷ []) = refl
  pad_even_twice (x ∷ y ∷ xs) = ap (λ r. x ∷ y ∷ r) (pad_even_twice xs)

  length-pad_even : (xs : List Bytes) → length xs ≤ length (pad_even xs)
  unfolding pad_even
  length-pad_even [] = omega arith
  length-pad_even (x ∷ []) = omega arith
  length-pad_even (x ∷ y ∷ xs) = omega (arith, length-pad_even xs)

  merkle_root-pad_even :
      (xs : List Bytes) → 2 ≤ length xs → merkle_root sha (pad_even xs) ≡ merkle_root sha xs
  unfolding merkle_root merkle_rounds pad_even combine
  merkle_root-pad_even [] h = absurd (omega arith)
  merkle_root-pad_even (x ∷ []) h = absurd (omega arith)
  merkle_root-pad_even (x ∷ y ∷ xs) h =
      let l = length-combine x y xs in
      let rest = combine sha (pad_even (x ∷ y ∷ xs)) in
      let twice : combine sha (pad_even (pad_even (x ∷ y ∷ xs))) ≡ rest =
        ap (combine sha) (pad_even_twice (x ∷ y ∷ xs)) in
      let grows = length-pad_even (x ∷ y ∷ xs) in
      subst
        (λ q.
          merkle_rounds sha (length (pad_even (x ∷ y ∷ xs))) q
          ≡ merkle_rounds sha (length (x ∷ y ∷ xs)) rest)
        (sym twice)
        (rounds_enough (length (pad_even (x ∷ y ∷ xs))) (length (x ∷ y ∷ xs)) rest
          (omega (arith, l, grows)) l)

  pad_even_odd :
      (n : ℕ) (xs : List Bytes) (z : Bytes)
      → length xs ≡ n * 2
      → pad_even (xs ++ (z ∷ [])) ≡ xs ++ (z ∷ z ∷ [])
  unfolding pad_even
  pad_even_odd n [] z e = refl
  pad_even_odd n (x ∷ []) z e = absurd (omega (arith, e))
  pad_even_odd zero (x ∷ y ∷ xs) z e = absurd (omega (arith, e))
  pad_even_odd (suc n) (x ∷ y ∷ xs) z e =
      ap (λ r. x ∷ y ∷ r) (pad_even_odd n xs z (omega (arith, e)))

  -- Two lists of different lengths have one root: an odd number of hashes, three or more, and the
  -- same hashes with the last one written twice. (CVE-2012-2459 of Bitcoin.)
  pub merkle_root_repeats :
      (n : ℕ) (xs : List Bytes) (last : Bytes)
      → length xs ≡ suc n * 2
      → merkle_root sha (xs ++ (last ∷ last ∷ [])) ≡ merkle_root sha (xs ++ (last ∷ []))
  merkle_root_repeats n xs last e =
      ap (merkle_root sha) (sym (pad_even_odd (suc n) xs last e))
      ∙ merkle_root-pad_even (xs ++ (last ∷ [])) (omega (arith, e, length-append xs (last ∷ [])))
