-- ===== src/Tx/Crypto.antt =====
-- crypto.go: the checks around the foreign calls of the Rust library, and the calls themselves as
-- an interface. transaction.go: TxID and SigningHash.
use blocknet_core.Prelude.{
  ℕ, ◌+◌, ◌*◌, List, Bytes, Bool, false, ◌||◌, not, Option, none, some, Result, ok, ◌>>=◌, ◌==◌,
  if◌then◌else◌, length, take, drop,
}
use blocknet_core.Tx.{Transaction}
use blocknet_core.Tx.Encode.{Panic, serialize, signing_prefix}
use blocknet_core.Tx.Layout.{encode_arrays}

-- What the program calls and does not implement in Go: SHA3-256 and the functions of
-- blocknet_crypto.h. `none` is a result code other than 0.
pub record Crypto : Type 0 where
  pub sha3_256 : Bytes → Bytes
  pub ringct_verify : Bytes → Bytes → ℕ → Bytes → Bytes → Bool
  pub range_proof_verify : Bytes → Bytes → Bool
  pub commitment_add : Bytes → Bytes → Option Bytes
  pub commitment_sub : Bytes → Bytes → Option Bytes
  pub commitment_is_zero : Bytes → Bool
  pub fee_commitment : ℕ → Option Bytes

module _ (c : Crypto) where
  open c use {sha3_256, ringct_verify, range_proof_verify}

  -- Transaction.TxID.
  unfoldable pub tx_id : Transaction → Result Panic Bytes
  tx_id tx = do data_bytes ← serialize tx; ok (sha3_256 data_bytes)

  -- Transaction.SigningHash.
  unfoldable pub signing_hash : Transaction → Result Panic Bytes
  signing_hash tx = do prefix ← signing_prefix tx; ok (sha3_256 prefix)

  -- VerifyRingCT for a signature whose RingSize is `n`: whether it returns nil.
  unfoldable pub verify_ringct : List Bytes → List Bytes → Bytes → Bytes → ℕ → Bool
  verify_ringct keys commitments message sig n =
      if length keys == 0
        || not (length keys == length commitments)
        || not (length keys == n)
        || length message == 0
        || length sig == 0
      then false
      else ringct_verify (encode_arrays keys) (encode_arrays commitments) (length keys) message sig

  -- VerifyRangeProof.
  unfoldable pub verify_range_proof : Bytes → Bytes → Bool
  verify_range_proof commitment proof =
      if length proof == 0 then false else range_proof_verify commitment proof

-- ExtractRingCTBinding: the key image and the pseudo-output at the end of the signature.
unfoldable pub extract_binding : Bytes → ℕ → Option (Bytes × Bytes)
extract_binding sig n =
    if n == 0 || not (length sig == 32 + n * 32 + n * 32 + 32 + 32)
    then none
    else let offset = 32 + n * 32 + n * 32 in
      some (take 32 (drop offset sig), take 32 (drop (offset + 32) sig))
