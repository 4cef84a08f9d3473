-- ===== src/Mempool/Admission.antt =====
-- mempool.go: what AddTransaction has checked of a transaction that it goes on to store.
use blocknet_core.Prelude.{
  ℕ, ◌/◌, ◌≤◌, ◌≡◌, refl, subst, List, [], ◌∷◌, Bytes, true, false, none, some, Result, ok, err,
  arith, length, bytes_eq_iff, contains, map, Option-cases, Result-cases, inl, inr, some_eq,
  >>=-eq-ok, refuse_if-eq-ok, ok-injective, ltb-false→le,
}
use blocknet_core.Prelude.Maps.{lookup}
use blocknet_core.Tx.{Transaction, TxInput, is_coinbase}
use blocknet_core.Tx.Encode.{Panic}
use blocknet_core.Tx.Decode.{deserialize}
use blocknet_core.Tx.Crypto.{tx_id}
use blocknet_core.Tx.Validate.{validate_transaction}
use blocknet_core.Mempool.{Mempool, Env, AddError, invalid_data, id_failed}
use blocknet_core.Mempool.Operations.{
  Candidate, wrap, find_conflict, check_conflicts, check_new, check_known, check_admission,
  add_transaction,
}
use blocknet_core.Mempool.Images.{Inv}
use blocknet_core.Mempool.Admit.{Fresh, admit-Inv}

pub record Admissible (env : Env) (m : Mempool) (fee : ℕ) (tx_data : Bytes) (c : Candidate)
    : Type 0 where
  pub parsed : deserialize tx_data ≡ ok c.tx
  pub spends_inputs : is_coinbase c.tx ≡ false
  pub own_id : tx_id env.crypto c.tx ≡ ok c.id
  pub valid : validate_transaction env.crypto env.is_spent env.checker c.tx ≡ ok tt
  pub fresh : Fresh m c
  pub rate : c.fee_rate ≡ fee / length tx_data
  pub size : c.size ≡ length tx_data
  pub pays : m.config.min_fee_rate ≤ c.fee_rate

wrap-eq-ok : {E A : Type 0} (f : E → AddError) (r : Result E A) {a : A} → wrap f r ≡ ok a → r ≡ ok a
unfolding wrap
wrap-eq-ok f (ok a) h = cc
wrap-eq-ok f (err e) h = cc

find_conflict-none :
    (images : List (Bytes × Bytes)) (xs : List TxInput) (k : Bytes)
    → find_conflict images xs ≡ none
    → contains (map (λ x. x.key_image) xs) k ≡ true
    → lookup k images ≡ none
unfolding find_conflict contains
find_conflict-none images [] k h s = cc
find_conflict-none images (x ∷ xs) k h s =
    ground (arith, bytes_eq_iff x.key_image k, find_conflict-none images xs k)

check_conflicts-eq-ok :
    (images : List (Bytes × Bytes)) (xs : List TxInput)
    → check_conflicts images xs ≡ ok tt
    → find_conflict images xs ≡ none
unfolding check_conflicts
check_conflicts-eq-ok images xs h = ground arith

check_new-Admissible :
    (env : Env) (m : Mempool) (fee : ℕ) (tx_data : Bytes) (tx : Transaction) (id : Bytes)
    (c : Candidate)
    → deserialize tx_data ≡ ok tx
    → is_coinbase tx ≡ false
    → tx_id env.crypto tx ≡ ok id
    → lookup id m.tx_by_id ≡ none
    → check_new env m fee tx_data tx id ≡ ok c
    → Admissible env m fee tx_data c
unfolding check_new
check_new-Admissible env m fee tx_data tx id c parsed spend own absent h =
    let (_, no_conflict, h1) = >>=-eq-ok (check_conflicts m.tx_by_image tx.inputs) _ h in
    let (_, valid, h2) = >>=-eq-ok _ _ h1 in
    let (pays, h3) = refuse_if-eq-ok _ _ _ h2 in
    let free = check_conflicts-eq-ok m.tx_by_image tx.inputs no_conflict in
    subst (Admissible env m fee tx_data) (ok-injective h3) (record {
      parsed = parsed;
      spends_inputs = spend;
      own_id = own;
      valid = wrap-eq-ok _ _ valid;
      fresh = (absent, λ k. find_conflict-none m.tx_by_image tx.inputs k free);
      rate = refl;
      size = refl;
      pays = ltb-false→le _ _ pays;
    })

check_known-Admissible :
    (env : Env) (m : Mempool) (fee : ℕ) (tx_data : Bytes) (tx : Transaction) (id : Bytes)
    (c : Candidate)
    → deserialize tx_data ≡ ok tx
    → is_coinbase tx ≡ false
    → tx_id env.crypto tx ≡ ok id
    → check_known env m fee tx_data tx id ≡ ok (some c)
    → Admissible env m fee tx_data c
unfolding check_known
check_known-Admissible env m fee tx_data tx id c parsed spend own h =
    elim (Option-cases (lookup id m.tx_by_id)) [
      | inr (e, known) ↦ absurd (cc (rw (known, check_known) at h))
      | inl absent ↦
          let (c', new, h') =
            >>=-eq-ok (check_new env m fee tx_data tx id) _ (rw (absent, check_known) at h) in
          subst (Admissible env m fee tx_data) (some_eq (ok-injective h'))
            (check_new-Admissible env m fee tx_data tx id c' parsed spend own absent new)
    ]

-- What the first part of AddTransaction lets through: bytes that parse as a transaction with inputs,
-- which passes validation under its own ID and conflicts with no entry of the pool. The fee that the
-- caller names beside the bytes, divided by their number, reaches the configured rate; it need not be
-- the fee that the bytes hold.
pub check_admission-Admissible :
    (env : Env) (m : Mempool) (fee : ℕ) (tx_data : Bytes) (c : Candidate)
    → check_admission env m fee tx_data ≡ ok (some c)
    → Admissible env m fee tx_data c
unfolding check_admission
check_admission-Admissible env m fee tx_data c h =
    let (tx, parsed, h1) = >>=-eq-ok (wrap invalid_data (deserialize tx_data)) _ h in
    let (spend, h2) = refuse_if-eq-ok (is_coinbase tx) _ _ h1 in
    let (id, own, h3) = >>=-eq-ok (wrap (λ (p : Panic). id_failed) (tx_id env.crypto tx)) _ h2 in
    check_known-Admissible env m fee tx_data tx id c (wrap-eq-ok _ _ parsed) spend
      (wrap-eq-ok _ _ own) h3

-- AddTransaction keeps the pool consistent, whatever it returns.
pub add_transaction-Inv :
    (env : Env) (now fee : ℕ) (tx_data : Bytes) (m : Mempool)
    → Inv m
    → Inv (add_transaction env now fee tx_data m).0
unfolding add_transaction
add_transaction-Inv env now fee tx_data m v =
    elim (Result-cases (check_admission env m fee tx_data)) [
      | inl (e, refused) ↦ rw (refused, add_transaction) v
      | inr (none, known) ↦ rw (known, add_transaction) v
      | inr (some c, new) ↦
          rw (new, add_transaction)
            (admit-Inv now tx_data c m
              (v, (check_admission-Admissible env m fee tx_data c new).fresh))
    ]
