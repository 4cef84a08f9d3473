-- ===== src/Tx/Validate.antt =====
-- transaction.go: ValidateTransaction, validateCoinbase and verifyCommitmentBalance.
use blocknet_core.Prelude.{
  ℕ, ◌+◌, List, [], ◌∷◌, Bytes, Bool, not, Option, none, some, Result, ok, err, ◌>>=◌, ◌>>◌,
  refuse_if, ltb, ◌==◌, if◌then◌else◌, length, replicate, bytes_eq, map, contains,
}
use blocknet_core.Tx.{Transaction, TxInput, TxOutput, is_coinbase, memo_size, ring_size}
use blocknet_core.Tx.Encode.{Panic}
use blocknet_core.Tx.Crypto.{
  Crypto, signing_hash, verify_ringct, verify_range_proof, extract_binding,
}

pub data ValidationError : Type 0 where
  unsupported_version : ℕ → ValidationError
  checker_missing panicked : ValidationError
  memo_zero duplicate_key_image : ℕ → ValidationError
  wrong_ring_size wrong_commitments_size not_canonical : ℕ → ℕ → ValidationError
  bad_signature bad_payload key_image_mismatch pseudo_output_mismatch : ℕ → ValidationError
  already_spent bad_range_proof bad_pseudo_output bad_output : ℕ → ValidationError
  no_outputs no_inputs fee_failed add_fee_failed difference_failed unbalanced : ValidationError
  coinbase_inputs coinbase_fee coinbase_outputs : ValidationError

abbrev pub Check : Type 0
Check = Result ValidationError (Unit {0})

-- A `for i := range` loop whose body may return an error.
unfoldable pub check_each {ℓ} : {A : Type ℓ} → (ℕ → A → Check) → ℕ → List A → Check
check_each f i [] = ok tt
check_each f i (x ∷ xs) = f i x >> check_each f (i + 1) xs

-- A Go call that returns (value, error), with the caller's own error.
unfoldable pub or_fail {ℓ} : {A : Type ℓ} → Option A → ValidationError → Result ValidationError A
or_fail none e = err e
or_fail (some a) e = ok a

unfoldable pub or_panic {ℓ} : {A : Type ℓ} → Result Panic A → Result ValidationError A
or_panic (ok a) = ok a
or_panic (err p) = err panicked

unfoldable pub zero_memo : Bytes
zero_memo = replicate memo_size 0

unfoldable pub check_memo : ℕ → TxOutput → Check
check_memo i o = refuse_if (bytes_eq o.encrypted_memo zero_memo) (memo_zero i)

-- The loop with the map `seen`.
unfoldable pub check_distinct : ℕ → List Bytes → List TxInput → Check
check_distinct i seen [] = ok tt
check_distinct i seen (x ∷ xs) =
    refuse_if (contains seen x.key_image) (duplicate_key_image i)
    >> check_distinct (i + 1) (x.key_image ∷ seen) xs

-- The loop over the ring; with fewer commitments than members it would index out of range.
unfoldable pub check_ring : (Bytes → Bytes → Bool) → ℕ → ℕ → List Bytes → List Bytes → Check
check_ring canonical i j [] cs = ok tt
check_ring canonical i j (m ∷ ms) [] = err panicked
check_ring canonical i j (m ∷ ms) (c ∷ cs) =
    refuse_if (not (canonical m c)) (not_canonical i j) >> check_ring canonical i (j + 1) ms cs

module _ (c : Crypto) where
  open c use {commitment_add, commitment_sub, commitment_is_zero, fee_commitment}

  unfoldable pub check_range_proof : ℕ → TxOutput → Check
  check_range_proof i o =
      refuse_if (not (verify_range_proof c o.commitment o.range_proof)) (bad_range_proof i)

  unfoldable pub check_input :
      (Bytes → Bool) → (Bytes → Bytes → Bool) → Transaction → ℕ → TxInput → Check
  check_input is_spent canonical tx i x = do
    refuse_if (not (length x.ring_members == ring_size)) (wrong_ring_size i (length x.ring_members))
    refuse_if (not (length x.ring_commitments == ring_size))
        (wrong_commitments_size i (length x.ring_commitments))
    check_ring canonical i 0 x.ring_members x.ring_commitments
    sig_hash ← or_panic (signing_hash c tx)
    let n = length x.ring_members
    refuse_if (not (verify_ringct c x.ring_members x.ring_commitments sig_hash x.ring_signature n))
        (bad_signature i)
    (sig_key_image, sig_pseudo) ← or_fail (extract_binding x.ring_signature n) (bad_payload i)
    refuse_if (not (bytes_eq sig_key_image x.key_image)) (key_image_mismatch i)
    refuse_if (not (bytes_eq sig_pseudo x.pseudo_output)) (pseudo_output_mismatch i)
    refuse_if (is_spent sig_key_image) (already_spent i)

  -- The sum of commitments: the first one, then CommitmentAdd of the others in turn.
  unfoldable pub add_all :
      (ℕ → ValidationError) → ℕ → Bytes → List Bytes → Result ValidationError Bytes
  add_all e i sum [] = ok sum
  add_all e i sum (x ∷ xs) = do sum ← or_fail (commitment_add sum x) (e i); add_all e (i + 1) sum xs

  -- `empty` is the error of an empty list, which the caller has refused before.
  unfoldable pub sum_commitments :
      (ℕ → ValidationError) → ValidationError → List Bytes → Result ValidationError Bytes
  sum_commitments e empty [] = err empty
  sum_commitments e empty (x ∷ xs) = add_all e 1 x xs

  unfoldable pub check_balance : Transaction → Check
  check_balance tx = do
    refuse_if (length tx.outputs == 0) no_outputs
    refuse_if (length tx.inputs == 0) no_inputs
    pseudo_sum ← sum_commitments bad_pseudo_output no_inputs (map (λ x. x.pseudo_output) tx.inputs)
    output_sum ← sum_commitments bad_output no_outputs (map (λ o. o.commitment) tx.outputs)
    fee ← or_fail (fee_commitment tx.fee) fee_failed
    with_fee ← or_fail (commitment_add output_sum fee) add_fee_failed
    difference ← or_fail (commitment_sub pseudo_sum with_fee) difference_failed
    refuse_if (not (commitment_is_zero difference)) unbalanced

  unfoldable pub validate_coinbase : Transaction → Check
  validate_coinbase tx = do
    refuse_if (not (length tx.inputs == 0)) coinbase_inputs
    refuse_if (not (tx.fee == 0)) coinbase_fee
    refuse_if (not (length tx.outputs == 1)) coinbase_outputs
    check_each check_memo 0 tx.outputs
    check_each check_range_proof 0 tx.outputs

  -- What ValidateTransaction does once it knows its ring member checker.
  unfoldable pub validate_spend : (Bytes → Bool) → (Bytes → Bytes → Bool) → Transaction → Check
  validate_spend is_spent canonical tx = do
    check_each check_memo 0 tx.outputs
    (if ltb 1 (length tx.inputs) then check_distinct 0 [] tx.inputs else ok tt)
    check_each (check_input is_spent canonical tx) 0 tx.inputs
    check_each check_range_proof 0 tx.outputs
    check_balance tx

  unfoldable pub validate_transaction :
      (Bytes → Bool) → Option (Bytes → Bytes → Bool) → Transaction → Check
  validate_transaction is_spent checker tx = do
    refuse_if (not (tx.version == 1)) (unsupported_version tx.version)
    (if is_coinbase tx
        then validate_coinbase tx
        else (or_fail checker checker_missing >>= λ canonical.
            validate_spend is_spent canonical tx))
