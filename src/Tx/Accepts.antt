-- ===== src/Tx/Accepts.antt =====
-- transaction.go: what ValidateTransaction accepts, stated without its order of checks.
use blocknet_core.Prelude.{
  ℕ, ◌+◌, ◌≡◌, ◌≢◌, refl, ◌↔◌, List, [], ◌∷◌, Bytes, Bool, true, false, not, some, ok, err, ◌>>◌,
  refuse_if, arith, ltb, if◌then◌else◌, length, map, All, bytes_eq-false_iff, contains, iff_trans,
  lt→ltb,
}
use blocknet_core.Tx.{Transaction, TxInput, TxOutput, ring_size}
use blocknet_core.Tx.Crypto.{
  Crypto, signing_hash, verify_ringct, verify_range_proof, extract_binding,
}
use blocknet_core.Tx.Validate.{
  ValidationError, bad_pseudo_output, bad_output, no_inputs, no_outputs, Check, check_each,
  zero_memo, check_memo, check_distinct, check_ring, sum_commitments,
}

abbrev pub Distinct : List Bytes → Type 0
Distinct [] = Unit {0}
Distinct (x ∷ xs) = All (λ y. x ≢ y) xs × Distinct xs

abbrev pub AllCanonical : (Bytes → Bytes → Bool) → List Bytes → List Bytes → Type 0
AllCanonical canonical [] cs = Unit {0}
AllCanonical canonical (m ∷ ms) [] = ⊥
AllCanonical canonical (m ∷ ms) (c ∷ cs) = (canonical m c ≡ true) × AllCanonical canonical ms cs

-- The ring has the protocol's size and is on the chain, the signature over the prefix verifies and
-- carries the input's own key image and pseudo-output, and the key image is not spent.
pub record AcceptsInput (c : Crypto) (is_spent : Bytes → Bool) (canonical : Bytes → Bytes → Bool)
    (tx : Transaction) (x : TxInput) : Type 0 where
  pub members_size : length x.ring_members ≡ ring_size
  pub commitments_size : length x.ring_commitments ≡ ring_size
  pub on_chain : AllCanonical canonical x.ring_members x.ring_commitments
  pub signed :
      (h : Bytes) × (signing_hash c tx ≡ ok h)
      × (verify_ringct c x.ring_members x.ring_commitments h x.ring_signature
            (length x.ring_members)
          ≡ true)
  pub bound :
      extract_binding x.ring_signature (length x.ring_members) ≡ some (x.key_image, x.pseudo_output)
  pub unspent : is_spent x.key_image ≡ false

-- The pseudo-outputs sum to the outputs and the fee.
abbrev pub Balanced : Crypto → Transaction → Type 0
Balanced c tx =
    (pseudo_sum output_sum fee with_fee difference : Bytes) × (sum_commitments c bad_pseudo_output
        no_inputs (map (λ x. x.pseudo_output) tx.inputs)
      ≡ ok pseudo_sum)
    × (sum_commitments c bad_output no_outputs (map (λ o. o.commitment) tx.outputs) ≡ ok output_sum)
    × (c.fee_commitment tx.fee ≡ some fee)
    × (c.commitment_add output_sum fee ≡ some with_fee)
    × (c.commitment_sub pseudo_sum with_fee ≡ some difference)
    × (c.commitment_is_zero difference ≡ true)

pub record AcceptsSpend (c : Crypto) (is_spent : Bytes → Bool) (canonical : Bytes → Bytes → Bool)
    (tx : Transaction) : Type 0 where
  pub version : tx.version ≡ 1
  pub memos : All (λ o. o.encrypted_memo ≢ zero_memo) tx.outputs
  pub distinct : Distinct (map (λ x. x.key_image) tx.inputs)
  pub inputs : All (AcceptsInput c is_spent canonical tx) tx.inputs
  pub proofs : All (λ o. verify_range_proof c o.commitment o.range_proof ≡ true) tx.outputs
  pub has_outputs : tx.outputs ≢ []
  pub balanced : Balanced c tx

abbrev pub Passes : Check → Type 0
Passes m = m ≡ ok tt

pub Passes-then : (m k : Check) → Passes (m >> k) ↔ (Passes m × Passes k)
Passes-then (ok tt) k = (λ h. (refl, h), λ h. h.1)
Passes-then (err e) k = (λ h. cc, λ h. cc (h.0))

pub Passes-refuse_if : (t : Bool) (e : ValidationError) → Passes (refuse_if t e) ↔ (t ≡ false)
Passes-refuse_if true e = (λ h. cc, λ h. cc)
Passes-refuse_if false e = (λ h. refl, λ h. refl)

pub not_iff : (t : Bool) → (not t ≡ false) ↔ (t ≡ true)
not_iff true = (λ h. refl, λ h. refl)
not_iff false = (λ h. cc, λ h. cc)

pub check_each_iff {ℓ} :
    {A : Type ℓ} (P : A → Type 0) (f : ℕ → A → Check)
    → ((i : ℕ) (a : A) → Passes (f i a) ↔ P a)
    → (i : ℕ) (xs : List A) → Passes (check_each f i xs) ↔ All P xs
unfolding check_each
check_each_iff P f e i [] = (λ h. tt, λ h. refl)
check_each_iff P f e i (x ∷ xs) =
    let rest = check_each_iff P f e (i + 1) xs in
    let both = Passes-then (f i x) (check_each f (i + 1) xs) in
    (λ h. ((e i x).0 (both.0 h).0, rest.0 (both.0 h).1), λ h. both.1 ((e i x).1 h.0, rest.1 h.1))

pub check_memo_iff :
    (i : ℕ) (o : TxOutput) → Passes (check_memo i o) ↔ (o.encrypted_memo ≢ zero_memo)
unfolding check_memo
check_memo_iff i o =
    iff_trans (Passes-refuse_if _ _) (bytes_eq-false_iff o.encrypted_memo zero_memo)

contains-false :
    (seen : List Bytes) (k x : Bytes)
    → (contains (k ∷ seen) x ≡ false) ↔ ((k ≢ x) × (contains seen x ≡ false))
unfolding contains
contains-false seen k x = (
  λ h. ((bytes_eq-false_iff k x).0 (ground arith), ground arith),
  λ h. ground (arith, (bytes_eq-false_iff k x).1 h.0),
)

pub Unseen-cons :
    (k : Bytes) (seen xs : List Bytes)
    → All (λ x. contains (k ∷ seen) x ≡ false) xs
      ↔ (All (λ x. k ≢ x) xs × All (λ x. contains seen x ≡ false) xs)
Unseen-cons k seen [] = (λ h. (tt, tt), λ h. tt)
Unseen-cons k seen (x ∷ xs) =
    let here = contains-false seen k x in
    let rest = Unseen-cons k seen xs in
    (
      λ h. (((here.0 h.0).0, (rest.0 h.1).0), ((here.0 h.0).1, (rest.0 h.1).1)),
      λ h. (here.1 (h.0.0, h.1.0), rest.1 (h.0.1, h.1.1)),
    )

check_distinct_iff :
    (i : ℕ) (seen : List Bytes) (xs : List TxInput)
    → Passes (check_distinct i seen xs) ↔ (
        All (λ k. contains seen k ≡ false) (map (λ x. x.key_image) xs)
        × Distinct (map (λ x. x.key_image) xs))
unfolding check_distinct
check_distinct_iff i seen [] = (λ h. (tt, tt), λ h. refl)
check_distinct_iff i seen (x ∷ xs) =
    let k = x.key_image in
    let here = Passes-refuse_if (contains seen k) _ in
    let both = Passes-then _ (check_distinct (i + 1) (k ∷ seen) xs) in
    let rest = check_distinct_iff (i + 1) (k ∷ seen) xs in
    let cut = Unseen-cons k seen (map (λ x. x.key_image) xs) in
    (
      λ h.
          let q = rest.0 (both.0 h).1 in
          ((here.0 (both.0 h).0, (cut.0 q.0).1), ((cut.0 q.0).0, q.1)),
      λ h. both.1 (here.1 h.0.0, rest.1 (cut.1 (h.1.0, h.0.1), h.1.1)),
    )

pub All-unseen : (xs : List Bytes) → All (λ k. contains [] k ≡ false) xs
unfolding contains
All-unseen [] = tt
All-unseen (x ∷ xs) = (refl, All-unseen xs)

-- The guard `len(tx.Inputs) > 1` changes nothing: a single key image is distinct.
pub Distinct-iff :
    (xs : List TxInput)
    → Passes (if ltb 1 (length xs) then check_distinct 0 [] xs else ok tt)
      ↔ Distinct (map (λ x. x.key_image) xs)
Distinct-iff [] = (λ h. tt, λ h. refl)
Distinct-iff (x ∷ []) = (λ h. (tt, tt), λ h. refl)
Distinct-iff (x ∷ y ∷ xs) =
    let e = lt→ltb 1 (length (x ∷ y ∷ xs)) (omega arith) in
    let d = check_distinct_iff 0 [] (x ∷ y ∷ xs) in
    rw e (λ h. (d.0 h).1, λ h. d.1 (All-unseen (map (λ t. t.key_image) (x ∷ y ∷ xs)), h))

pub check_ring_iff :
    (canonical : Bytes → Bytes → Bool) (i j : ℕ) (ms cs : List Bytes)
    → Passes (check_ring canonical i j ms cs) ↔ AllCanonical canonical ms cs
unfolding check_ring
check_ring_iff canonical i j [] cs = (λ h. tt, λ h. refl)
check_ring_iff canonical i j (m ∷ ms) [] = (λ h. cc, λ h. absurd h)
check_ring_iff canonical i j (m ∷ ms) (c ∷ cs) =
    let here = iff_trans (Passes-refuse_if (not (canonical m c)) _) (not_iff (canonical m c)) in
    let both = Passes-then _ (check_ring canonical i (j + 1) ms cs) in
    let rest = check_ring_iff canonical i (j + 1) ms cs in
    (λ h. (here.0 (both.0 h).0, rest.0 (both.0 h).1), λ h. both.1 (here.1 h.0, rest.1 h.1))
