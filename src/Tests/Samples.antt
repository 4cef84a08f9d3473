-- ===== src/Tests/Samples.antt =====
-- A transaction with a full ring, a coinbase, and stand-ins for the cryptography.
use blocknet_core.Prelude.{
  ℕ, zero, suc, ◌<◌, refl, [], ◌∷◌, ◌++◌, IsByte, IsArray, true, false, some, arith, replicate,
  length-replicate, All, All-append,
}
use blocknet_core.Tx.{TxOutput, TxInput, Transaction, IsOutput, IsInput, IsTx}
use blocknet_core.Tx.Crypto.{Crypto}
use blocknet_core.Mempool.{Env, Config}

-- Every check passes; a hash is the start of what is hashed, and a sum is its first part.
abbrev pub toy_crypto : Crypto
toy_crypto = record {
  sha3_256 = λ bs. bs;
  ringct_verify = λ keys commitments n message sig. true;
  range_proof_verify = λ commitment proof. true;
  commitment_add = λ a b. some a;
  commitment_sub = λ a b. some a;
  commitment_is_zero = λ c. true;
  fee_commitment = λ fee. some [];
}

abbrev pub toy_env : Env
toy_env = record {
  crypto = toy_crypto;
  is_spent = λ k. false;
  checker = some (λ member commitment. true);
}

abbrev pub toy_config : Config
toy_config = record { max_size = 2; max_size_bytes = 10000; min_fee_rate = 1; expiration = 100 }

abbrev pub sample_output : TxOutput
sample_output = record {
  commitment = replicate 32 4;
  public_key = replicate 32 5;
  range_proof = 1 ∷ 2 ∷ 3 ∷ [];
  encrypted_amount = replicate 8 6;
  encrypted_memo = replicate 128 8;
}

abbrev pub sample_input : TxInput
sample_input = record {
  key_image = replicate 32 7;
  ring_members = replicate 16 (replicate 32 1);
  ring_commitments = replicate 16 (replicate 32 2);
  pseudo_output = replicate 32 3;
  ring_signature = replicate 1056 9 ++ (replicate 32 7 ++ replicate 32 3);
}

abbrev pub sample_tx : Transaction
sample_tx = record {
  version = 1;
  inputs = sample_input ∷ [];
  outputs = sample_output ∷ [];
  fee = 5000;
  tx_public_key = replicate 32 10;
}

abbrev pub sample_coinbase : Transaction
sample_coinbase = record sample_tx { inputs = []; fee = 0 }

replicate-All {ℓ κ} : {A : Type ℓ} (P : A → Type κ) (n : ℕ) (a : A) → P a → All P (replicate n a)
replicate-All P zero a h = tt
replicate-All P (suc n) a h = (h, replicate-All P n a h)

pub replicate-IsArray : (n b : ℕ) → b < 256 → IsArray n (replicate n b)
replicate-IsArray n b h = record { size = length-replicate n b; bytes = replicate-All IsByte n b h }

pub sample_output-IsOutput : IsOutput sample_output
sample_output-IsOutput = record {
  commitment = replicate-IsArray 32 4 (omega arith);
  public_key = replicate-IsArray 32 5 (omega arith);
  encrypted_amount = replicate-IsArray 8 6 (omega arith);
  encrypted_memo = replicate-IsArray 128 8 (omega arith);
  proof_bytes = omega arith;
  proof_size = omega arith;
}

sample_signature-All : All IsByte sample_input.ring_signature
sample_signature-All =
    All-append IsByte (replicate 1056 9) (replicate 32 7 ++ replicate 32 3)
      (replicate-All IsByte 1056 9 (omega arith))
      (All-append IsByte (replicate 32 7) (replicate 32 3) (replicate-All IsByte 32 7 (omega arith))
        (replicate-All IsByte 32 3 (omega arith)))

pub sample_input-IsInput : IsInput sample_input
sample_input-IsInput = record {
  key_image = replicate-IsArray 32 7 (omega arith);
  pseudo_output = replicate-IsArray 32 3 (omega arith);
  members = replicate-All (IsArray 32) 16 (replicate 32 1) (replicate-IsArray 32 1 (omega arith));
  commitments =
      replicate-All (IsArray 32) 16 (replicate 32 2) (replicate-IsArray 32 2 (omega arith));
  same_size = refl;
  ring_bound = omega arith;
  sig_bytes = sample_signature-All;
  sig_size = omega arith;
}

pub sample_tx-IsTx : IsTx sample_tx
sample_tx-IsTx = record {
  version = omega arith;
  tx_public_key = replicate-IsArray 32 10 (omega arith);
  fee = omega arith;
  inputs = (sample_input-IsInput, tt);
  outputs = (sample_output-IsOutput, tt);
  input_count = omega arith;
  output_count = omega arith;
}
