-- ===== src/Tx.antt =====
-- transaction.go: the data of a transaction. A `[32]byte` is a byte list of length 32, a nil slice
-- and an empty one are both the empty list.
pub mod Encode
pub mod Decode
pub mod Layout
pub mod RoundTrip
pub mod Canonical
pub mod Crypto
pub mod Validate
pub mod Accepts
pub mod Acceptance
use blocknet_core.Prelude.{
  ℕ, ◌*◌, ◌+◌, ◌≤◌, ◌<◌, ◌^◌, ◌≡◌, List, Bool, true, false, Bytes, IsArray, IsByte, All, length,
}

-- params.MemoSize, and the ceilings of DeserializeTx.
abbrev pub memo_size : ℕ
memo_size = 128

abbrev pub ring_size : ℕ
ring_size = 16

abbrev pub max_inputs : ℕ
max_inputs = 256

abbrev pub max_outputs : ℕ
max_outputs = 256

abbrev pub max_proof_size : ℕ
max_proof_size = 1024

abbrev pub max_sig_size : ℕ
max_sig_size = 96 + 64 * ring_size

abbrev pub min_header_size : ℕ
min_header_size = 1 + 32 + 4 + 4 + 8

pub record TxOutput : Type 0 where
  pub commitment : Bytes
  pub public_key : Bytes
  pub range_proof : Bytes
  pub encrypted_amount : Bytes
  pub encrypted_memo : Bytes

pub record TxInput : Type 0 where
  pub key_image : Bytes
  pub ring_members : List Bytes
  pub ring_commitments : List Bytes
  pub pseudo_output : Bytes
  pub ring_signature : Bytes

pub record Transaction : Type 0 where
  pub version : ℕ
  pub inputs : List TxInput
  pub outputs : List TxOutput
  pub fee : ℕ
  pub tx_public_key : Bytes

-- Transaction.IsCoinbase.
unfoldable pub is_coinbase : Transaction → Bool
is_coinbase tx = elim tx.inputs [ List.[] ↦ true | _ ↦ false ]

-- What Go's types say of a value, and the ceilings that DeserializeTx enforces.
pub record IsOutput (o : TxOutput) : Type 0 where
  pub commitment : IsArray 32 o.commitment
  pub public_key : IsArray 32 o.public_key
  pub encrypted_amount : IsArray 8 o.encrypted_amount
  pub encrypted_memo : IsArray memo_size o.encrypted_memo
  pub proof_bytes : All IsByte o.range_proof
  pub proof_size : length o.range_proof ≤ max_proof_size

pub record IsInput (i : TxInput) : Type 0 where
  pub key_image : IsArray 32 i.key_image
  pub pseudo_output : IsArray 32 i.pseudo_output
  pub members : All (IsArray 32) i.ring_members
  pub commitments : All (IsArray 32) i.ring_commitments
  pub same_size : length i.ring_commitments ≡ length i.ring_members
  pub ring_bound : length i.ring_members ≤ ring_size
  pub sig_bytes : All IsByte i.ring_signature
  pub sig_size : length i.ring_signature ≤ max_sig_size

pub record IsTx (tx : Transaction) : Type 0 where
  pub version : tx.version < 256
  pub tx_public_key : IsArray 32 tx.tx_public_key
  pub fee : tx.fee < 2 ^ 64
  pub inputs : All IsInput tx.inputs
  pub outputs : All IsOutput tx.outputs
  pub input_count : length tx.inputs ≤ max_inputs
  pub output_count : length tx.outputs ≤ max_outputs
