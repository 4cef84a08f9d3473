-- ===== src/Block/Sizes.antt =====
-- block.go: Transaction.Size against Serialize of transaction.go.
use blocknet_core.Prelude.{
  ℕ, ◌+◌, ◌-◌, ◌≡◌, refl, List, [], ◌∷◌, sym, ap, ◌∙◌, ◌++◌, Bytes, ok, >>=-eq-ok, ok-injective,
  arith, length, replicate, length-append, length-take, length-replicate,
}
use blocknet_core.Tx.{Transaction, TxOutput, TxInput, IsTx}
use blocknet_core.Tx.Layout.{encode, serialize-encode}
use blocknet_core.Tx.Encode.{
  serialize, finish, outputs_size, inputs_size, write_prefix, write_inputs,
}
use blocknet_core.Block.{tx_size, size_of_outputs, size_of_inputs}

length-finish : (size : ℕ) (out : Bytes) → length (finish size out) ≡ size
unfolding finish
length-finish size out = omega (
  arith,
  length-take size (out ++ replicate (size - length out) 0),
  length-append out (replicate (size - length out) 0),
  length-replicate {A = ℕ} (size - length out) 0,
)

size_of_outputs_eq : (os : List TxOutput) → size_of_outputs os ≡ outputs_size os
unfolding size_of_outputs outputs_size
size_of_outputs_eq [] = refl
size_of_outputs_eq (o ∷ os) = omega (arith, size_of_outputs_eq os)

size_of_inputs_eq : (is : List TxInput) → size_of_inputs is ≡ inputs_size is
unfolding size_of_inputs inputs_size
size_of_inputs_eq [] = refl
size_of_inputs_eq (i ∷ is) = omega (arith, size_of_inputs_eq is)

-- Whatever Serialize returns has the length that Size says, also beyond the wire limits.
size_of_buffer : (tx : Transaction) {bs : Bytes} → serialize tx ≡ ok bs → length bs ≡ tx_size tx
unfolding serialize tx_size
size_of_buffer tx h =
    let size = 49 + outputs_size tx.outputs + inputs_size tx.inputs in
    let (out, _, h1) = >>=-eq-ok (write_prefix size tx) _ h in
    let (full, _, h2) = >>=-eq-ok (write_inputs size tx.inputs out) _ h1 in
    let whole = ap length (sym (ok-injective h2)) ∙ length-finish size full in
    omega (arith, whole, size_of_outputs_eq tx.outputs, size_of_inputs_eq tx.inputs)

-- For a transaction that keeps the wire limits, Serialize returns the whole wire format, with nothing cut
-- off and nothing filled up, and Size, which computes the size by loops of its own, is its length.
pub length-serialize :
    (tx : Transaction)
    → IsTx tx
    → (serialize tx ≡ ok (encode tx)) × (length (encode tx) ≡ tx_size tx)
length-serialize tx valid =
    let written = serialize-encode tx valid in (written, size_of_buffer tx {bs = encode tx} written)
