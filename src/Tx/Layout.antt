-- ===== src/Tx/Layout.antt =====
-- The wire format as plain concatenation, and that the buffer code of Serialize writes it.
use mathlib.Core.List.{append_assoc, append-nil}
use blocknet_core.Prelude.{
  ℕ, ◌+◌, ◌*◌, ◌≤◌, ◌≡◌, refl, sym, ap, ◌∙◌, List, [], ◌∷◌, ◌++◌, Bytes, Result, ok, ◌>>=◌, arith,
  length, length-append, take_exact, put_le, length-put_le, All, IsArray, le→ltb-false,
}
use blocknet_core.Tx.{TxOutput, TxInput, Transaction, IsOutput, IsInput, IsTx}
use blocknet_core.Tx.Encode.{
  Panic, u32, copy_bytes, put_uint, finish, outputs_size, inputs_size, write_output, write_outputs,
  write_arrays, write_input, write_inputs, write_prefix, serialize, hashed_size, hash_output,
  hash_outputs, hash_prefix, signing_prefix,
}

unfoldable pub encode_output : TxOutput → Bytes
encode_output o =
    o.public_key
    ++ (o.commitment
        ++ (o.encrypted_amount
            ++ (o.encrypted_memo ++ (put_le 4 (u32 (length o.range_proof)) ++ o.range_proof))))

unfoldable pub encode_outputs : List TxOutput → Bytes
encode_outputs [] = []
encode_outputs (o ∷ os) = encode_output o ++ encode_outputs os

unfoldable pub encode_arrays : List Bytes → Bytes
encode_arrays [] = []
encode_arrays (x ∷ xs) = x ++ encode_arrays xs

unfoldable pub encode_input : TxInput → Bytes
encode_input i =
    i.key_image
    ++ (i.pseudo_output
        ++ (put_le 4 (u32 (length i.ring_members))
            ++ (encode_arrays i.ring_members
                ++ (encode_arrays i.ring_commitments
                    ++ (put_le 4 (u32 (length i.ring_signature)) ++ i.ring_signature)))))

unfoldable pub encode_inputs : List TxInput → Bytes
encode_inputs [] = []
encode_inputs (i ∷ is) = encode_input i ++ encode_inputs is

unfoldable pub encode_prefix : Transaction → Bytes
encode_prefix tx =
    put_le 1 tx.version
    ++ (tx.tx_public_key
        ++ (put_le 4 (u32 (length tx.inputs))
            ++ (put_le 4 (u32 (length tx.outputs))
                ++ (put_le 8 tx.fee ++ encode_outputs tx.outputs))))

unfoldable pub encode : Transaction → Bytes
encode tx = encode_prefix tx ++ encode_inputs tx.inputs

-- A writer that appends `x` wherever `x` fits.
abbrev pub Writes : ℕ → (Bytes → Result Panic Bytes) → Bytes → Type 0
Writes size m x = (out : Bytes) → length out + length x ≤ size → m out ≡ ok (out ++ x)

module _ (size : ℕ) where
  pub Writes-seq :
      (m n : Bytes → Result Panic Bytes) (x y : Bytes)
      → Writes size m x
      → Writes size n y
      → Writes size (λ out. m out >>= n) (x ++ y)
  Writes-seq m n x y p q out h =
      let hx : length out + length x ≤ size = omega (arith, length-append x y) in
      let hy : length (out ++ x) + length y ≤ size =
        omega (arith, length-append x y, length-append out x) in
      rw (p out hx) (q (out ++ x) hy ∙ ap ok (append_assoc out x y))

  pub copy_bytes-Writes : (x : Bytes) → Writes size (copy_bytes size x) x
  unfolding copy_bytes
  copy_bytes-Writes x out h = rw (le→ltb-false size (length out) (omega arith))

  pub put_uint-Writes : (n v : ℕ) → Writes size (put_uint size n v) (put_le n v)
  unfolding put_uint
  put_uint-Writes n v out h =
      rw (le→ltb-false size (length out + n) (omega (arith, length-put_le n v)))

  write_output-Writes : (o : TxOutput) → Writes size (write_output size o) (encode_output o)
  unfolding write_output encode_output
  write_output-Writes o = Writes-seq _ _ o.public_key _ (copy_bytes-Writes o.public_key) (
      Writes-seq _ _ o.commitment _ (copy_bytes-Writes o.commitment) (
        Writes-seq _ _ o.encrypted_amount _ (copy_bytes-Writes o.encrypted_amount) (
          Writes-seq _ _ o.encrypted_memo _ (copy_bytes-Writes o.encrypted_memo) (
            Writes-seq _ _ (put_le 4 (u32 (length o.range_proof))) _ (put_uint-Writes 4 _)
              (copy_bytes-Writes o.range_proof)))))

  write_outputs-Writes :
      (os : List TxOutput) → Writes size (write_outputs size os) (encode_outputs os)
  unfolding write_outputs encode_outputs
  write_outputs-Writes [] = λ out h. ap ok (sym (append-nil out))
  write_outputs-Writes (o ∷ os) =
      Writes-seq _ _ (encode_output o) _ (write_output-Writes o) (write_outputs-Writes os)

  write_arrays-Writes : (xs : List Bytes) → Writes size (write_arrays size xs) (encode_arrays xs)
  unfolding write_arrays encode_arrays
  write_arrays-Writes [] = λ out h. ap ok (sym (append-nil out))
  write_arrays-Writes (x ∷ xs) = Writes-seq _ _ x _ (copy_bytes-Writes x) (write_arrays-Writes xs)

  write_input-Writes : (i : TxInput) → Writes size (write_input size i) (encode_input i)
  unfolding write_input encode_input
  write_input-Writes i = Writes-seq _ _ i.key_image _ (copy_bytes-Writes i.key_image) (
      Writes-seq _ _ i.pseudo_output _ (copy_bytes-Writes i.pseudo_output) (
        Writes-seq _ _ (put_le 4 (u32 (length i.ring_members))) _ (put_uint-Writes 4 _) (
          Writes-seq _ _ (encode_arrays i.ring_members) _ (write_arrays-Writes i.ring_members) (
            Writes-seq _ _ (encode_arrays i.ring_commitments) _
              (write_arrays-Writes i.ring_commitments)
              (Writes-seq _ _ (put_le 4 (u32 (length i.ring_signature))) _ (put_uint-Writes 4 _)
                (copy_bytes-Writes i.ring_signature))))))

  write_inputs-Writes : (is : List TxInput) → Writes size (write_inputs size is) (encode_inputs is)
  unfolding write_inputs encode_inputs
  write_inputs-Writes [] = λ out h. ap ok (sym (append-nil out))
  write_inputs-Writes (i ∷ is) =
      Writes-seq _ _ (encode_input i) _ (write_input-Writes i) (write_inputs-Writes is)

  prefix_tail-Writes :
      (tx : Transaction) (outputs : Bytes → Result Panic Bytes)
      → Writes size outputs (encode_outputs tx.outputs)
      → Writes size
          (λ out. copy_bytes size tx.tx_public_key out >>= λ out.
            put_uint size 4 (u32 (length tx.inputs)) out >>= λ out.
            put_uint size 4 (u32 (length tx.outputs)) out >>= λ out.
            put_uint size 8 tx.fee out >>= outputs)
          (tx.tx_public_key
            ++ (put_le 4 (u32 (length tx.inputs))
                ++ (put_le 4 (u32 (length tx.outputs))
                    ++ (put_le 8 tx.fee ++ encode_outputs tx.outputs))))
  prefix_tail-Writes tx outputs written =
      Writes-seq _ _ tx.tx_public_key _ (copy_bytes-Writes tx.tx_public_key) (
        Writes-seq _ _ (put_le 4 (u32 (length tx.inputs))) _ (put_uint-Writes 4 _) (
          Writes-seq _ _ (put_le 4 (u32 (length tx.outputs))) _ (put_uint-Writes 4 _)
            (Writes-seq _ _ (put_le 8 tx.fee) _ (put_uint-Writes 8 _) written)))

  write_prefix-eq :
      (tx : Transaction)
      → length (encode_prefix tx) ≤ size
      → write_prefix size tx ≡ ok (encode_prefix tx)
  unfolding write_prefix encode_prefix
  write_prefix-eq tx h =
      Writes-seq _ _ (put_le 1 tx.version) _ (put_uint-Writes 1 _)
        (prefix_tail-Writes tx (write_outputs size tx.outputs) (write_outputs-Writes tx.outputs)) []
        (omega (arith, h))

pub length-encode_arrays :
    (xs : List Bytes) → All (IsArray 32) xs → length (encode_arrays xs) ≡ length xs * 32
unfolding encode_arrays
length-encode_arrays [] h = omega arith
length-encode_arrays (x ∷ xs) h =
    omega (arith, h.0.size, length-append x (encode_arrays xs), length-encode_arrays xs h.1)

pub length-encode_output :
    (o : TxOutput) → IsOutput o → length (encode_output o) ≡ 204 + length o.range_proof
unfolding encode_output
length-encode_output o h =
    simp (length-append, length-put_le)
      (omega (
        arith, h.public_key.size, h.commitment.size, h.encrypted_amount.size, h.encrypted_memo.size,
      ))

pub length-encode_input :
    (i : TxInput)
    → IsInput i
    → length (encode_input i) ≡ 72 + length i.ring_members * 64 + length i.ring_signature
unfolding encode_input
length-encode_input i h =
    simp (length-append, length-put_le)
      (omega (
        arith,
        h.key_image.size,
        h.pseudo_output.size,
        h.same_size,
        length-encode_arrays i.ring_members h.members,
        length-encode_arrays i.ring_commitments h.commitments,
      ))

pub length-encode_outputs :
    (os : List TxOutput) → All IsOutput os → length (encode_outputs os) ≡ outputs_size os
unfolding encode_outputs outputs_size
length-encode_outputs [] h = refl
length-encode_outputs (o ∷ os) h = omega (
  arith,
  length-append (encode_output o) (encode_outputs os),
  length-encode_output o h.0,
  length-encode_outputs os h.1,
)

pub length-encode_inputs :
    (is : List TxInput) → All IsInput is → length (encode_inputs is) ≡ inputs_size is
unfolding encode_inputs inputs_size
length-encode_inputs [] h = refl
length-encode_inputs (i ∷ is) h = omega (
  arith,
  length-append (encode_input i) (encode_inputs is),
  length-encode_input i h.0,
  length-encode_inputs is h.1,
)

pub length-encode_prefix :
    (tx : Transaction) → IsTx tx → length (encode_prefix tx) ≡ 49 + outputs_size tx.outputs
unfolding encode_prefix
length-encode_prefix tx h =
    simp (length-append, length-put_le)
      (omega (arith, h.tx_public_key.size, length-encode_outputs tx.outputs h.outputs))

pub finish_full : (size : ℕ) (out : Bytes) → length out ≡ size → finish size out ≡ out
unfolding finish
finish_full size out e = take_exact out e _

-- Serialize never panics and writes the wire format, with no byte left over.
pub serialize-encode : (tx : Transaction) → IsTx tx → serialize tx ≡ ok (encode tx)
unfolding serialize encode
serialize-encode tx h =
    let size = 49 + outputs_size tx.outputs + inputs_size tx.inputs in
    let p = length-encode_prefix tx h in
    let q = length-encode_inputs tx.inputs h.inputs in
    let r = length-append (encode_prefix tx) (encode_inputs tx.inputs) in
    let w : write_prefix size tx ≡ ok (encode_prefix tx) =
      write_prefix-eq size tx (omega (arith, p)) in
    let v : write_inputs size tx.inputs (encode_prefix tx) ≡ ok (encode tx) =
      write_inputs-Writes size tx.inputs (encode_prefix tx) (omega (arith, p, q)) in
    rw (w, v) (ap ok (finish_full size (encode tx) (omega (arith, p, q, r))))

hashed_size-outputs_size : (os : List TxOutput) → hashed_size os ≡ outputs_size os
unfolding hashed_size outputs_size
hashed_size-outputs_size [] = refl
hashed_size-outputs_size (o ∷ os) = omega (arith, hashed_size-outputs_size os)

hash_outputs-Writes :
    (size : ℕ) (os : List TxOutput) → Writes size (hash_outputs size os) (encode_outputs os)
unfolding hash_outputs hash_output encode_outputs write_output
hash_outputs-Writes size [] = λ out h. ap ok (sym (append-nil out))
hash_outputs-Writes size (o ∷ os) =
    Writes-seq size _ _ (encode_output o) _ (write_output-Writes size o)
      (hash_outputs-Writes size os)

hash_prefix-eq :
    (size : ℕ) (tx : Transaction)
    → length (encode_prefix tx) ≤ size
    → hash_prefix size tx ≡ ok (encode_prefix tx)
unfolding hash_prefix encode_prefix
hash_prefix-eq size tx h =
    Writes-seq size _ _ (put_le 1 tx.version) _ (put_uint-Writes size 1 _)
      (prefix_tail-Writes size tx (hash_outputs size tx.outputs)
        (hash_outputs-Writes size tx.outputs))
      [] (omega (arith, h))

-- SigningHash, for a transaction that keeps the wire limits, hashes exactly the part of the wire format
-- that stands before the inputs: no key image, ring, pseudo-output or signature is hashed.
pub signing_prefix-encode : (tx : Transaction) → IsTx tx → signing_prefix tx ≡ ok (encode_prefix tx)
unfolding signing_prefix
signing_prefix-encode tx h =
    let size = 49 + hashed_size tx.outputs in
    let p : length (encode_prefix tx) ≡ size =
      omega (arith, length-encode_prefix tx h, hashed_size-outputs_size tx.outputs) in
    let w : hash_prefix size tx ≡ ok (encode_prefix tx) =
      hash_prefix-eq size tx (omega (arith, p)) in
    rw w (ap ok (finish_full size (encode_prefix tx) p))
