-- ===== src/Block.antt =====
-- block.go: blocks and their headers.
pub mod Wire
pub mod Merkle
pub mod Difficulty
pub mod Median
pub mod Validate
pub mod Forks
pub mod Sizes
use blocknet_core.Prelude.{
  ℕ, ◌+◌, ◌*◌, ◌<◌, ◌^◌, ◌%◌, List, [], ◌∷◌, Bytes, Bool, IsArray, length, ltb,
}
use blocknet_core.Tx.{Transaction, TxOutput, TxInput, memo_size}

abbrev pub max_block_size : ℕ
max_block_size = 1048576

abbrev pub header_size : ℕ
header_size = 4 + 8 + 32 + 32 + 8 + 8 + 8

abbrev pub header_size_no_nonce : ℕ
header_size_no_nonce = 4 + 8 + 32 + 32 + 8 + 8

-- An int64 is the uint64 with the same bits.
pub record Header : Type 0 where
  pub version : ℕ
  pub height : ℕ
  pub prev_hash : Bytes
  pub merkle_root : Bytes
  pub timestamp : ℕ
  pub difficulty : ℕ
  pub nonce : ℕ

pub record Block : Type 0 where
  pub header : Header
  pub transactions : List Transaction

-- The types' own bounds.
pub record IsHeader (h : Header) : Type 0 where
  pub version : h.version < 256 ^ 4
  pub height : h.height < 256 ^ 8
  pub prev_hash : IsArray 32 h.prev_hash
  pub merkle_root : IsArray 32 h.merkle_root
  pub timestamp : h.timestamp < 256 ^ 8
  pub difficulty : h.difficulty < 256 ^ 8
  pub nonce : h.nonce < 256 ^ 8

-- x < y on int64.
abbrev pub ltb_i64 : ℕ → ℕ → Bool
ltb_i64 x y =
    ltb ((x + 9223372036854775808) % 18446744073709551616)
      ((y + 9223372036854775808) % 18446744073709551616)

-- The two loops of Transaction.Size, which computes the size anew.
unfoldable pub size_of_outputs : List TxOutput → ℕ
size_of_outputs [] = 0
size_of_outputs (o ∷ os) = 32 + 32 + 8 + memo_size + 4 + length o.range_proof + size_of_outputs os

unfoldable pub size_of_inputs : List TxInput → ℕ
size_of_inputs [] = 0
size_of_inputs (i ∷ is) =
    let ring = length i.ring_members in
    32 + 32 + 4 + ring * 32 + ring * 32 + 4 + length i.ring_signature + size_of_inputs is

-- Transaction.Size
unfoldable pub tx_size : Transaction → ℕ
tx_size tx = 1 + 32 + 4 + 4 + 8 + size_of_outputs tx.outputs + size_of_inputs tx.inputs

unfoldable pub txs_size : List Transaction → ℕ
txs_size [] = 0
txs_size (tx ∷ txs) = tx_size tx + txs_size txs

-- Block.Size
unfoldable pub block_size : Block → ℕ
block_size b = header_size + txs_size b.transactions
