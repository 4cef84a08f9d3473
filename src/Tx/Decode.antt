-- ===== src/Tx/Decode.antt =====
-- transaction.go: DeserializeTx. Each function takes `data[off:]` and returns what is left of it.
use blocknet_core.Prelude.{
  ℕ, zero, suc, ◌+◌, ◌*◌, List, [], ◌∷◌, Bytes, Result, ok, ◌>>=◌, ◌>>◌, refuse_if, ltb, not, ◌==◌,
  length, take, drop, get_le,
}
use blocknet_core.Tx.{
  TxOutput, TxInput, Transaction, memo_size, ring_size, max_inputs, max_outputs, max_proof_size,
  max_sig_size, min_header_size,
}

pub data TxError : Type 0 where
  too_short : ℕ → TxError
  too_many_inputs too_many_outputs : ℕ → TxError
  output_truncated proof_truncated : ℕ → TxError
  proof_too_big : ℕ → ℕ → TxError
  input_truncated members_truncated commitments_truncated : ℕ → TxError
  sig_length_truncated sig_truncated : ℕ → TxError
  ring_too_big sig_too_big : ℕ → ℕ → TxError
  trailing_bytes : ℕ → TxError

unfoldable pub parse_output : ℕ → Bytes → Result TxError (TxOutput × Bytes)
parse_output i r0 = do
  refuse_if (ltb (length r0) (32 + 32 + 8 + memo_size + 4)) (output_truncated i)
  let r1 = drop 32 r0
  let r2 = drop 32 r1
  let r3 = drop 8 r2
  let r4 = drop memo_size r3
  let proof_len = get_le (take 4 r4)
  let r5 = drop 4 r4
  refuse_if (ltb max_proof_size proof_len) (proof_too_big i proof_len)
  refuse_if (ltb (length r5) proof_len) (proof_truncated i)
  ok (
    record {
      public_key = take 32 r0;
      commitment = take 32 r1;
      encrypted_amount = take 8 r2;
      encrypted_memo = take memo_size r3;
      range_proof = take proof_len r5;
    },
    drop proof_len r5,
  )

-- The loop over outputs: `n` are left and `i` is the index.
unfoldable pub parse_outputs : ℕ → ℕ → Bytes → Result TxError (List TxOutput × Bytes)
parse_outputs zero i r = ok ([], r)
parse_outputs (suc n) i r = do
  (o, r) ← parse_output i r
  (os, r) ← parse_outputs n (i + 1) r
  ok (o ∷ os, r)

unfoldable pub read_arrays : ℕ → Bytes → List Bytes
read_arrays zero r = []
read_arrays (suc n) r = take 32 r ∷ read_arrays n (drop 32 r)

unfoldable pub parse_input : ℕ → Bytes → Result TxError (TxInput × Bytes)
parse_input i r0 = do
  refuse_if (ltb (length r0) (32 + 32 + 4)) (input_truncated i)
  let r1 = drop 32 r0
  let r2 = drop 32 r1
  let ring = get_le (take 4 r2)
  let r3 = drop 4 r2
  refuse_if (ltb ring_size ring) (ring_too_big i ring)
  let needed = ring * 32
  refuse_if (ltb (length r3) needed) (members_truncated i)
  let r4 = drop needed r3
  refuse_if (ltb (length r4) needed) (commitments_truncated i)
  let r5 = drop needed r4
  refuse_if (ltb (length r5) 4) (sig_length_truncated i)
  let sig_len = get_le (take 4 r5)
  let r6 = drop 4 r5
  refuse_if (ltb max_sig_size sig_len) (sig_too_big i sig_len)
  refuse_if (ltb (length r6) sig_len) (sig_truncated i)
  ok (
    record {
      key_image = take 32 r0;
      pseudo_output = take 32 r1;
      ring_members = read_arrays ring r3;
      ring_commitments = read_arrays ring r4;
      ring_signature = take sig_len r6;
    },
    drop sig_len r6,
  )

unfoldable pub parse_inputs : ℕ → ℕ → Bytes → Result TxError (List TxInput × Bytes)
parse_inputs zero i r = ok ([], r)
parse_inputs (suc n) i r = do
  (x, r) ← parse_input i r
  (xs, r) ← parse_inputs n (i + 1) r
  ok (x ∷ xs, r)

unfoldable pub deserialize : Bytes → Result TxError Transaction
deserialize r0 = do
  refuse_if (ltb (length r0) min_header_size) (too_short (length r0))
  let r1 = drop 1 r0
  let r2 = drop 32 r1
  let input_count = get_le (take 4 r2)
  let r3 = drop 4 r2
  refuse_if (ltb max_inputs input_count) (too_many_inputs input_count)
  let output_count = get_le (take 4 r3)
  let r4 = drop 4 r3
  refuse_if (ltb max_outputs output_count) (too_many_outputs output_count)
  let r5 = drop 8 r4
  (outputs, r6) ← parse_outputs output_count 0 r5
  (inputs, r7) ← parse_inputs input_count 0 r6
  refuse_if (not (length r7 == 0)) (trailing_bytes (length r7))
  ok (record {
    version = get_le (take 1 r0);
    tx_public_key = take 32 r1;
    fee = get_le (take 8 r4);
    inputs = inputs;
    outputs = outputs;
  })
