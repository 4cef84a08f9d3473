-- ===== src/Tx/RoundTrip.antt =====
-- transaction.go: DeserializeTx undoes Serialize.
use mathlib.Core.List.{append_assoc, append-nil}
use blocknet_core.Prelude.{
  ℕ, ◌*◌, ◌≤◌, ◌<◌, ◌^◌, ◌≡◌, refl, ap, ◌∙◌, List, [], ◌∷◌, ◌++◌, Bytes, ok, arith, length,
  length-append, take_exact, drop_exact, put_le, get_le, length-put_le, get_le-put_le, All, IsArray,
  le→ltb-false, ltb, false,
}
use blocknet_core.Tx.{
  TxOutput, TxInput, Transaction, IsOutput, IsInput, IsTx, ring_size, max_proof_size, max_sig_size,
  max_inputs, max_outputs,
}
use blocknet_core.Tx.Encode.{u32, serialize}
use blocknet_core.Tx.Decode.{
  parse_output, parse_outputs, read_arrays, parse_input, parse_inputs, deserialize,
}
use blocknet_core.Tx.Layout.{
  encode_output, encode_outputs, encode_arrays, encode_input, encode_inputs, encode_prefix, encode,
  serialize-encode, length-encode_arrays, length-encode_output, length-encode_input,
  length-encode_prefix,
}

get_le-u32 : (n : ℕ) → n ≤ 2000 → get_le (put_le 4 (u32 n)) ≡ n
get_le-u32 n h = rw (get_le-put_le 4 (u32 n) (omega arith)) (omega arith)

-- A field of the stated size leaves no test for missing bytes true.
fits : (n : ℕ) (x : Bytes) → length x ≡ n → (r : Bytes) → ltb (length (x ++ r)) n ≡ false
fits n x e r = le→ltb-false (length (x ++ r)) n (omega (arith, length-append x r))

read_arrays-encode :
    (xs : List Bytes)
    → All (IsArray 32) xs
    → (r : Bytes) → read_arrays (length xs) (encode_arrays xs ++ r) ≡ xs
unfolding read_arrays encode_arrays
read_arrays-encode [] h r = refl
read_arrays-encode (x ∷ xs) h r =
    simp (append_assoc, take_exact x h.0.size, drop_exact x h.0.size, read_arrays-encode xs h.1)

module _ (i : ℕ) (rest : Bytes) where
  parse_output-encode :
      (o : TxOutput) → IsOutput o → parse_output i (encode_output o ++ rest) ≡ ok (o, rest)
  unfolding parse_output encode_output
  parse_output-encode o h =
      let proof = o.range_proof in
      let size_field : Bytes = put_le 4 (u32 (length proof)) in
      let long =
        le→ltb-false (length (encode_output o ++ rest)) 204
          (omega (arith, length-append (encode_output o) rest, length-encode_output o h)) in
      rw long (
        simp (
          append_assoc,
          take_exact o.public_key h.public_key.size,
          drop_exact o.public_key h.public_key.size,
          take_exact o.commitment h.commitment.size,
          drop_exact o.commitment h.commitment.size,
          take_exact o.encrypted_amount h.encrypted_amount.size,
          drop_exact o.encrypted_amount h.encrypted_amount.size,
          take_exact o.encrypted_memo h.encrypted_memo.size,
          drop_exact o.encrypted_memo h.encrypted_memo.size,
          take_exact size_field (length-put_le 4 _),
          drop_exact size_field (length-put_le 4 _),
          get_le-u32 (length proof) (omega (arith, h.proof_size)),
          take_exact proof refl,
          drop_exact proof refl,
          le→ltb-false max_proof_size (length proof) h.proof_size,
          le→ltb-false (length (proof ++ rest)) (length proof)
              (omega (arith, length-append proof rest)),
        ))

  parse_input-encode :
      (x : TxInput) → IsInput x → parse_input i (encode_input x ++ rest) ≡ ok (x, rest)
  unfolding parse_input encode_input
  parse_input-encode x h =
      let ring_field : Bytes = put_le 4 (u32 (length x.ring_members)) in
      let sig = x.ring_signature in
      let sig_field : Bytes = put_le 4 (u32 (length sig)) in
      let members = encode_arrays x.ring_members in
      let commitments = encode_arrays x.ring_commitments in
      let members_size : length members ≡ length x.ring_members * 32 =
        length-encode_arrays x.ring_members h.members in
      let commitments_size : length commitments ≡ length x.ring_members * 32 =
        length-encode_arrays x.ring_commitments h.commitments ∙ ap (λ n. n * 32) h.same_size in
      let long =
        le→ltb-false (length (encode_input x ++ rest)) 68
          (omega (arith, length-append (encode_input x) rest, length-encode_input x h)) in
      rw long (
        simp (
          append_assoc,
          take_exact x.key_image h.key_image.size,
          drop_exact x.key_image h.key_image.size,
          take_exact x.pseudo_output h.pseudo_output.size,
          drop_exact x.pseudo_output h.pseudo_output.size,
          take_exact ring_field (length-put_le 4 _),
          drop_exact ring_field (length-put_le 4 _),
          get_le-u32 (length x.ring_members) (omega (arith, h.ring_bound)),
          le→ltb-false ring_size (length x.ring_members) h.ring_bound,
          fits (length x.ring_members * 32) members members_size,
          drop_exact members members_size,
          read_arrays-encode x.ring_members h.members,
          fits (length x.ring_members * 32) commitments commitments_size,
          drop_exact commitments commitments_size,
          read_commitments,
          fits 4 sig_field (length-put_le 4 _),
          take_exact sig_field (length-put_le 4 _),
          drop_exact sig_field (length-put_le 4 _),
          get_le-u32 (length sig) (omega (arith, h.sig_size)),
          le→ltb-false max_sig_size (length sig) h.sig_size,
          fits (length sig) sig refl,
          take_exact sig refl,
          drop_exact sig refl,
        ))
    where
      read_commitments :
          (r : Bytes)
          → read_arrays (length x.ring_members) (encode_arrays x.ring_commitments ++ r)
            ≡ x.ring_commitments
      read_commitments r =
          rw (← h.same_size) (read_arrays-encode x.ring_commitments h.commitments r)

parse_outputs-encode :
    (os : List TxOutput)
    → All IsOutput os
    → (i : ℕ) (rest : Bytes)
    → parse_outputs (length os) i (encode_outputs os ++ rest) ≡ ok (os, rest)
unfolding parse_outputs encode_outputs
parse_outputs-encode [] h i rest = refl
parse_outputs-encode (o ∷ os) h i rest = simp (
  append_assoc,
  parse_output-encode i (encode_outputs os ++ rest) o h.0,
  parse_outputs-encode os h.1,
)

parse_inputs-encode :
    (xs : List TxInput)
    → All IsInput xs
    → (i : ℕ) (rest : Bytes) → parse_inputs (length xs) i (encode_inputs xs ++ rest) ≡ ok (xs, rest)
unfolding parse_inputs encode_inputs
parse_inputs-encode [] h i rest = refl
parse_inputs-encode (x ∷ xs) h i rest = simp (
  append_assoc,
  parse_input-encode i (encode_inputs xs ++ rest) x h.0,
  parse_inputs-encode xs h.1,
)

pub deserialize-encode : (tx : Transaction) → IsTx tx → deserialize (encode tx) ≡ ok tx
unfolding deserialize encode encode_prefix
deserialize-encode tx h =
    let version_field : Bytes = put_le 1 tx.version in
    let inputs_field : Bytes = put_le 4 (u32 (length tx.inputs)) in
    let outputs_field : Bytes = put_le 4 (u32 (length tx.outputs)) in
    let fee_field : Bytes = put_le 8 tx.fee in
    let long = le→ltb-false (length (encode tx)) 49 (
      omega (
        arith,
        length-append (encode_prefix tx) (encode_inputs tx.inputs),
        length-encode_prefix tx h,
      )) in
    rw long (
      simp (
        append_assoc,
        take_exact version_field (length-put_le 1 _),
        drop_exact version_field (length-put_le 1 _),
        get_le-put_le 1 tx.version h.version,
        take_exact tx.tx_public_key h.tx_public_key.size,
        drop_exact tx.tx_public_key h.tx_public_key.size,
        take_exact inputs_field (length-put_le 4 _),
        drop_exact inputs_field (length-put_le 4 _),
        get_le-u32 (length tx.inputs) (omega (arith, h.input_count)),
        le→ltb-false max_inputs (length tx.inputs) h.input_count,
        take_exact outputs_field (length-put_le 4 _),
        drop_exact outputs_field (length-put_le 4 _),
        get_le-u32 (length tx.outputs) (omega (arith, h.output_count)),
        le→ltb-false max_outputs (length tx.outputs) h.output_count,
        take_exact fee_field (length-put_le 8 _),
        drop_exact fee_field (length-put_le 8 _),
        get_le-put_le 8 tx.fee fee_bound,
        parse_outputs-encode tx.outputs h.outputs,
        inputs_parse,
      ))
  where
    fee_bound : tx.fee < 256 ^ 8
    fee_bound = h.fee

    inputs_parse : parse_inputs (length tx.inputs) 0 (encode_inputs tx.inputs) ≡ ok (tx.inputs, [])
    inputs_parse =
        rw (append-nil (encode_inputs tx.inputs)) at (parse_inputs-encode tx.inputs h.inputs 0 [])

-- Serialize produces bytes for every transaction that keeps the wire limits, and DeserializeTx reads
-- exactly that transaction back from them.
pub deserialize-serialize :
    (tx : Transaction) → IsTx tx → (bs : Bytes) × (serialize tx ≡ ok bs) × (deserialize bs ≡ ok tx)
deserialize-serialize tx h = (encode tx, serialize-encode tx h, deserialize-encode tx h)
