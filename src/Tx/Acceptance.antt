-- ===== src/Tx/Acceptance.antt =====
-- transaction.go: ValidateTransaction accepts exactly what Accepts describes.
use blocknet_core.Prelude.{
  ℕ, ◌≡◌, ◌≢◌, refl, subst, ap, ◌↔◌, List, [], ◌∷◌, Bytes, Bool, true, false, not, Option, none,
  some, Result, ok, err, ◌>>◌, refuse_if, arith, ◌==◌, length, All, bytes_eq_iff, bytes_eq_refl,
  iff_trans, ==_iff, refuse_if-eq-ok, >>=-eq-ok,
}
use blocknet_core.Tx.{Transaction, TxInput, TxOutput, is_coinbase}
use blocknet_core.Tx.Encode.{Panic}
use blocknet_core.Tx.Crypto.{Crypto, verify_range_proof}
use blocknet_core.Tx.Validate.{
  ValidationError, check_each, or_fail, or_panic, zero_memo, check_memo, check_range_proof,
  check_input, check_balance, validate_coinbase, validate_spend, validate_transaction,
  unsupported_version,
}
use blocknet_core.Tx.Accepts.{
  AcceptsInput, Balanced, AcceptsSpend, Passes, Passes-then, Passes-refuse_if, not_iff,
  check_each_iff, check_memo_iff, Distinct-iff, check_ring_iff,
}

module _ (c : Crypto) where
  check_range_proof_iff :
      (i : ℕ) (o : TxOutput)
      → Passes (check_range_proof c i o) ↔ (verify_range_proof c o.commitment o.range_proof ≡ true)
  unfolding check_range_proof
  check_range_proof_iff i o = iff_trans (Passes-refuse_if _ _) (not_iff _)

  or_panic-eq-ok : {A : Type 0} (r : Result Panic A) {a : A} → or_panic r ≡ ok a → r ≡ ok a
  unfolding or_panic
  or_panic-eq-ok (ok a) h = cc
  or_panic-eq-ok (err p) h = cc

  or_fail-eq-ok :
      {A : Type 0} (o : Option A) (e : ValidationError) {a : A} → or_fail o e ≡ ok a → o ≡ some a
  unfolding or_fail
  or_fail-eq-ok none e h = cc
  or_fail-eq-ok (some a) e h = cc

  module _ (is_spent : Bytes → Bool) (canonical : Bytes → Bytes → Bool) (tx : Transaction) where
    check_input_sound :
        (i : ℕ) (x : TxInput)
        → Passes (check_input c is_spent canonical tx i x)
        → AcceptsInput c is_spent canonical tx x
    unfolding check_input
    check_input_sound i x h =
        let (t1, h1) = refuse_if-eq-ok _ _ _ h in
        let (t2, h2) = refuse_if-eq-ok _ _ _ h1 in
        let (t3, h3) = (Passes-then _ _).0 h2 in
        let (hash, t4, h4) = >>=-eq-ok _ _ h3 in
        let (t5, h5) = refuse_if-eq-ok _ _ _ h4 in
        let ((ki, po), t6, h6) = >>=-eq-ok _ _ h5 in
        let (t7, h7) = refuse_if-eq-ok _ _ _ h6 in
        let (t8, h8) = refuse_if-eq-ok _ _ _ h7 in
        let t9 = (Passes-refuse_if _ _).0 h8 in
        let same_key : ki ≡ x.key_image = (bytes_eq_iff _ _).0 ((not_iff _).0 t7) in
        let same_pseudo : po ≡ x.pseudo_output = (bytes_eq_iff _ _).0 ((not_iff _).0 t8) in
        record {
          members_size = (==_iff _ _).0 ((not_iff _).0 t1);
          commitments_size = (==_iff _ _).0 ((not_iff _).0 t2);
          on_chain = (check_ring_iff canonical i 0 _ _).0 t3;
          signed = (hash, or_panic-eq-ok _ t4, (not_iff _).0 t5);
          bound = cc (or_fail-eq-ok _ _ t6);
          unspent = subst (λ k. is_spent k ≡ false) same_key t9;
        }

    check_input_complete :
        (i : ℕ) (x : TxInput)
        → AcceptsInput c is_spent canonical tx x
        → Passes (check_input c is_spent canonical tx i x)
    unfolding check_input or_panic or_fail
    check_input_complete i x w =
        let (hash, hashed, verified) = w.signed in
        let n16 = (==_iff _ _).1 w.members_size in
        let c16 = (==_iff _ _).1 w.commitments_size in
        rw (
          n16,
          c16,
          (check_ring_iff canonical i 0 _ _).1 w.on_chain,
          hashed,
          verified,
          w.bound,
          bytes_eq_refl x.key_image,
          bytes_eq_refl x.pseudo_output,
          w.unspent,
        )

  check_balance_sound :
      (tx : Transaction) → Passes (check_balance c tx) → (tx.outputs ≢ []) × Balanced c tx
  unfolding check_balance
  check_balance_sound tx h =
      let (t1, h1) = refuse_if-eq-ok (length tx.outputs == 0) _ _ h in
      let (t2, h2) = refuse_if-eq-ok _ _ _ h1 in
      let (pseudo_sum, t3, h3) = >>=-eq-ok _ _ h2 in
      let (output_sum, t4, h4) = >>=-eq-ok _ _ h3 in
      let (fee, t5, h5) = >>=-eq-ok _ _ h4 in
      let (with_fee, t6, h6) = >>=-eq-ok _ _ h5 in
      let (difference, t7, h7) = >>=-eq-ok _ _ h6 in
      (
        (λ e. cc (t1, ap (λ l. length l == 0) e)),
        (
          pseudo_sum,
          output_sum,
          fee,
          with_fee,
          difference,
          t3,
          t4,
          or_fail-eq-ok _ _ t5,
          or_fail-eq-ok _ _ t6,
          or_fail-eq-ok _ _ t7,
          (not_iff _).0 ((Passes-refuse_if _ _).0 h7),
        ),
      )

  check_balance_complete :
      (tx : Transaction)
      → tx.outputs ≢ []
      → is_coinbase tx ≡ false
      → Balanced c tx
      → Passes (check_balance c tx)
  unfolding check_balance or_fail is_coinbase
  check_balance_complete tx some_out spend (p, o, f, w, d, e1, e2, e3, e4, e5, e6) =
      let n1 : (length tx.outputs == 0) ≡ false = ground arith in
      let n2 : (length tx.inputs == 0) ≡ false = ground arith in rw (n1, n2, e1, e2, e3, e4, e5, e6)

  module _ (is_spent : Bytes → Bool) (canonical : Bytes → Bytes → Bool) (tx : Transaction) where
    memos_iff :
        Passes (check_each check_memo 0 tx.outputs)
        ↔ All (λ o. o.encrypted_memo ≢ zero_memo) tx.outputs
    memos_iff =
        check_each_iff (λ o. o.encrypted_memo ≢ zero_memo) check_memo check_memo_iff 0 tx.outputs

    inputs_iff :
        Passes (check_each (check_input c is_spent canonical tx) 0 tx.inputs)
        ↔ All (AcceptsInput c is_spent canonical tx) tx.inputs
    inputs_iff =
        check_each_iff (AcceptsInput c is_spent canonical tx) (check_input c is_spent canonical tx)
          (λ i x. (
            check_input_sound is_spent canonical tx i x,
            check_input_complete is_spent canonical tx i x,
          ))
          0 tx.inputs

    proofs_iff :
        Passes (check_each (check_range_proof c) 0 tx.outputs)
        ↔ All (λ o. verify_range_proof c o.commitment o.range_proof ≡ true) tx.outputs
    proofs_iff =
        check_each_iff (λ o. verify_range_proof c o.commitment o.range_proof ≡ true)
          (check_range_proof c) check_range_proof_iff 0 tx.outputs

  -- A transaction with inputs is accepted exactly when it has the version, has no blank memo, no
  -- output without a verifying range proof, no key image twice, at least one output, commitments
  -- that balance with the fee, and inputs each of which has a full ring on the chain, a verifying
  -- signature bound to its key image and pseudo-output, and an unspent key image.
  pub validate_spend_iff :
      (is_spent : Bytes → Bool) (canonical : Bytes → Bytes → Bool) (tx : Transaction)
      → is_coinbase tx ≡ false
      → (validate_transaction c is_spent (some canonical) tx ≡ ok tt)
        ↔ AcceptsSpend c is_spent canonical tx
  unfolding validate_transaction validate_spend or_fail
  validate_spend_iff is_spent canonical tx spend = rw spend (sound, complete)
    where
      sound :
          Passes (
            refuse_if (not (tx.version == 1)) (unsupported_version tx.version)
            >> validate_spend c is_spent canonical tx)
          → AcceptsSpend c is_spent canonical tx
      sound h =
          let (t1, h1) = refuse_if-eq-ok _ _ _ h in
          let (t2, h2) = (Passes-then _ _).0 h1 in
          let (t3, h3) = (Passes-then _ _).0 h2 in
          let (t4, h4) = (Passes-then _ _).0 h3 in
          let (t5, h5) = (Passes-then _ _).0 h4 in
          let (t6, t7) = check_balance_sound tx h5 in
          record {
            version = (==_iff _ _).0 ((not_iff _).0 t1);
            memos = (memos_iff is_spent canonical tx).0 t2;
            distinct = (Distinct-iff tx.inputs).0 t3;
            inputs = (inputs_iff is_spent canonical tx).0 t4;
            proofs = (proofs_iff is_spent canonical tx).0 t5;
            has_outputs = t6;
            balanced = t7;
          }

      complete :
          AcceptsSpend c is_spent canonical tx
          → Passes (
              refuse_if (not (tx.version == 1)) (unsupported_version tx.version)
              >> validate_spend c is_spent canonical tx)
      complete w =
          rw
            (
              (==_iff _ _).1 w.version,
              (memos_iff is_spent canonical tx).1 w.memos,
              (Distinct-iff tx.inputs).1 w.distinct,
              (inputs_iff is_spent canonical tx).1 w.inputs,
              (proofs_iff is_spent canonical tx).1 w.proofs,
            )
            (check_balance_complete tx w.has_outputs spend w.balanced)

one_output : (os : List TxOutput) → (length os == 1) ≡ true → (o : TxOutput) × (os ≡ o ∷ [])
one_output [] h = absurd (ground arith)
one_output (o ∷ []) h = (o, refl)
one_output (o ∷ p ∷ os) h = absurd (ground arith)

-- What the coinbase rules say of the outputs and the fee.
abbrev pub CoinbaseRules : Crypto → Transaction → Type 0
CoinbaseRules c tx =
    (tx.fee ≡ 0)
    × ((o : TxOutput) × (tx.outputs ≡ o ∷ [])
        × (o.encrypted_memo ≢ zero_memo)
        × (verify_range_proof c o.commitment o.range_proof ≡ true))

module _ (c : Crypto) (tx : Transaction) (none_in : tx.inputs ≡ []) where
  coinbase_sound : Passes (validate_coinbase c tx) → CoinbaseRules c tx
  unfolding validate_coinbase
  coinbase_sound h =
      let (t1, h1) = refuse_if-eq-ok (not (length tx.inputs == 0)) _ _ h in
      let (t2, h2) = refuse_if-eq-ok _ _ _ h1 in
      let (t3, h3) = refuse_if-eq-ok _ _ _ h2 in
      let (t4, t5) = (Passes-then _ _).0 h3 in
      let (o, one) = one_output tx.outputs ((not_iff _).0 t3) in
      let memos = (check_each_iff _ check_memo check_memo_iff 0 tx.outputs).0 t4 in
      let proofs =
        (check_each_iff _ (check_range_proof c) (check_range_proof_iff c) 0 tx.outputs).0 t5 in
      (
        (==_iff _ _).0 ((not_iff _).0 t2),
        (
          o,
          one,
          (subst (All (λ o. o.encrypted_memo ≢ zero_memo)) one memos).0,
          (subst (All (λ o. verify_range_proof c o.commitment o.range_proof ≡ true)) one proofs).0,
        ),
      )

  coinbase_complete : CoinbaseRules c tx → Passes (validate_coinbase c tx)
  unfolding validate_coinbase check_each
  coinbase_complete (fee, (o, one, memo, proof)) = rw (
    none_in,
    (==_iff _ _).1 fee,
    one,
    (check_memo_iff 0 o).1 memo,
    (check_range_proof_iff c 0 o).1 proof,
  )

-- A transaction without inputs is accepted exactly when it has the version, no fee, and one output,
-- whose memo is not blank and whose range proof verifies. No checker is needed.
pub validate_coinbase_iff :
    (c : Crypto) (is_spent : Bytes → Bool) (checker : Option (Bytes → Bytes → Bool))
    (tx : Transaction)
    → tx.inputs ≡ []
    → (validate_transaction c is_spent checker tx ≡ ok tt) ↔ ((tx.version ≡ 1) × CoinbaseRules c tx)
unfolding validate_transaction
validate_coinbase_iff c is_spent checker tx none_in = rw coinbase (sound, complete)
  where
    coinbase : is_coinbase tx ≡ true
    coinbase = unfold is_coinbase in rw none_in

    sound :
        Passes (
          refuse_if (not (tx.version == 1)) (unsupported_version tx.version)
          >> validate_coinbase c tx)
        → (tx.version ≡ 1) × CoinbaseRules c tx
    sound h =
        let (t1, h1) = refuse_if-eq-ok _ _ _ h in
        ((==_iff _ _).0 ((not_iff _).0 t1), coinbase_sound c tx none_in h1)

    complete :
        (tx.version ≡ 1) × CoinbaseRules c tx
        → Passes (
            refuse_if (not (tx.version == 1)) (unsupported_version tx.version)
            >> validate_coinbase c tx)
    complete w = rw ((==_iff _ _).1 w.0) (coinbase_complete c tx none_in w.1)
