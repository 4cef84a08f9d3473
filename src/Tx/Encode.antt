-- ===== src/Tx/Encode.antt =====
-- transaction.go: Transaction.Serialize and the prefix of SigningHash.
-- The buffer has its computed size from the start. `out` is what has been written so far, so `off` is
-- its length; a write at `buf[off:]` panics if `off` is past the end, and `copy` cuts off what does
-- not fit, though `off` moves on by the whole length.
use blocknet_core.Prelude.{
  ℕ, ◌+◌, ◌-◌, ◌*◌, ◌%◌, ◌^◌, List, [], ◌∷◌, ◌++◌, Bytes, Result, ok, err, ◌>>=◌, if◌then◌else◌,
  ltb, length, take, replicate, put_le,
}
use blocknet_core.Tx.{TxOutput, TxInput, Transaction, memo_size}

pub data Panic : Type 0 where
  out_of_range : Panic

-- uint32(n).
abbrev pub u32 : ℕ → ℕ
u32 n = n % 2 ^ 32

-- copy(buf[off:], x); off += len(x)
unfoldable pub copy_bytes : ℕ → Bytes → Bytes → Result Panic Bytes
copy_bytes size x out = if ltb size (length out) then err out_of_range else ok (out ++ x)

-- binary.LittleEndian.PutUintN(buf[off:], v); off += n. It also writes the version, with n = 1.
unfoldable pub put_uint : ℕ → ℕ → ℕ → Bytes → Result Panic Bytes
put_uint size n v out =
    if ltb size (length out + n) then err out_of_range else ok (out ++ put_le n v)

-- The buffer at the end: zeros where nothing was written.
unfoldable pub finish : ℕ → Bytes → Bytes
finish size out = take size (out ++ replicate (size - length out) 0)

unfoldable pub outputs_size : List TxOutput → ℕ
outputs_size [] = 0
outputs_size (o ∷ os) = 32 + 32 + 8 + memo_size + 4 + length o.range_proof + outputs_size os

unfoldable pub inputs_size : List TxInput → ℕ
inputs_size [] = 0
inputs_size (i ∷ is) =
    let ring = length i.ring_members in
    32 + 32 + 4 + ring * 32 + ring * 32 + 4 + length i.ring_signature + inputs_size is

unfoldable pub write_output : ℕ → TxOutput → Bytes → Result Panic Bytes
write_output size o out = do
  out ← copy_bytes size o.public_key out
  out ← copy_bytes size o.commitment out
  out ← copy_bytes size o.encrypted_amount out
  out ← copy_bytes size o.encrypted_memo out
  out ← put_uint size 4 (u32 (length o.range_proof)) out
  copy_bytes size o.range_proof out

unfoldable pub write_outputs : ℕ → List TxOutput → Bytes → Result Panic Bytes
write_outputs size [] out = ok out
write_outputs size (o ∷ os) out = do out ← write_output size o out; write_outputs size os out

unfoldable pub write_arrays : ℕ → List Bytes → Bytes → Result Panic Bytes
write_arrays size [] out = ok out
write_arrays size (x ∷ xs) out = do out ← copy_bytes size x out; write_arrays size xs out

unfoldable pub write_input : ℕ → TxInput → Bytes → Result Panic Bytes
write_input size i out = do
  out ← copy_bytes size i.key_image out
  out ← copy_bytes size i.pseudo_output out
  out ← put_uint size 4 (u32 (length i.ring_members)) out
  out ← write_arrays size i.ring_members out
  out ← write_arrays size i.ring_commitments out
  out ← put_uint size 4 (u32 (length i.ring_signature)) out
  copy_bytes size i.ring_signature out

unfoldable pub write_inputs : ℕ → List TxInput → Bytes → Result Panic Bytes
write_inputs size [] out = ok out
write_inputs size (i ∷ is) out = do out ← write_input size i out; write_inputs size is out

-- The prefix in Serialize: everything but the inputs.
unfoldable pub write_prefix : ℕ → Transaction → Result Panic Bytes
write_prefix size tx = do
  out ← put_uint size 1 tx.version []
  out ← copy_bytes size tx.tx_public_key out
  out ← put_uint size 4 (u32 (length tx.inputs)) out
  out ← put_uint size 4 (u32 (length tx.outputs)) out
  out ← put_uint size 8 tx.fee out
  write_outputs size tx.outputs out

unfoldable pub serialize : Transaction → Result Panic Bytes
serialize tx = do
  let size = 1 + 32 + 4 + 4 + 8 + outputs_size tx.outputs + inputs_size tx.inputs
  out ← write_prefix size tx
  out ← write_inputs size tx.inputs out
  ok (finish size out)

-- SigningHash has loops of its own for the size and the outputs.
unfoldable pub hashed_size : List TxOutput → ℕ
hashed_size [] = 0
hashed_size (o ∷ os) = 32 + 32 + 8 + memo_size + 4 + length o.range_proof + hashed_size os

unfoldable pub hash_output : ℕ → TxOutput → Bytes → Result Panic Bytes
hash_output size o out = do
  out ← copy_bytes size o.public_key out
  out ← copy_bytes size o.commitment out
  out ← copy_bytes size o.encrypted_amount out
  out ← copy_bytes size o.encrypted_memo out
  out ← put_uint size 4 (u32 (length o.range_proof)) out
  copy_bytes size o.range_proof out

unfoldable pub hash_outputs : ℕ → List TxOutput → Bytes → Result Panic Bytes
hash_outputs size [] out = ok out
hash_outputs size (o ∷ os) out = do out ← hash_output size o out; hash_outputs size os out

unfoldable pub hash_prefix : ℕ → Transaction → Result Panic Bytes
hash_prefix size tx = do
  out ← put_uint size 1 tx.version []
  out ← copy_bytes size tx.tx_public_key out
  out ← put_uint size 4 (u32 (length tx.inputs)) out
  out ← put_uint size 4 (u32 (length tx.outputs)) out
  out ← put_uint size 8 tx.fee out
  hash_outputs size tx.outputs out

-- The bytes that SigningHash hashes.
unfoldable pub signing_prefix : Transaction → Result Panic Bytes
signing_prefix tx = do
  let size = 1 + 32 + 4 + 4 + 8 + hashed_size tx.outputs
  out ← hash_prefix size tx
  ok (finish size out)
