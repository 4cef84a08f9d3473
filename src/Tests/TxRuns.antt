-- ===== src/Tests/TxRuns.antt =====
-- Transactions: runs of the codec and of validation.
use blocknet_core.Prelude.{
  ◌≡◌, ◌↔◌, refl, [], ◌∷◌, Bytes, Bool, true, false, ◌&&◌, some, none, ok, err, arith, ltb, take,
  drop, put_le, get_le, bytes_eq, contains, All, IsByte,
}
use blocknet_core.Tx.{is_coinbase, IsTx}
use blocknet_core.Tx.Encode.{
  serialize, copy_bytes, put_uint, finish, outputs_size, inputs_size, write_output, write_outputs,
  write_arrays, write_input, write_inputs, write_prefix, hashed_size, hash_output, hash_outputs,
  hash_prefix, signing_prefix,
}
use blocknet_core.Tx.Decode.{
  deserialize, parse_output, parse_outputs, read_arrays, parse_input, parse_inputs, too_short,
}
use blocknet_core.Tx.Layout.{
  encode, encode_prefix, encode_output, encode_outputs, encode_arrays, encode_input, encode_inputs,
  signing_prefix-encode,
}
use blocknet_core.Tx.RoundTrip.{deserialize-serialize}
use blocknet_core.Tx.Canonical.{serialize-deserialize}
use blocknet_core.Tx.Crypto.{signing_hash, verify_ringct, verify_range_proof, extract_binding}
use blocknet_core.Tx.Validate.{
  check_each, or_fail, or_panic, zero_memo, check_memo, check_distinct, check_ring,
  check_range_proof, check_input, add_all, sum_commitments, check_balance, validate_coinbase,
  validate_spend, validate_transaction, already_spent,
}
use blocknet_core.Tx.Accepts.{AcceptsSpend}
use blocknet_core.Tx.Acceptance.{CoinbaseRules, validate_spend_iff, validate_coinbase_iff}
use blocknet_core.Tests.Samples.{sample_tx, sample_coinbase, sample_tx-IsTx, toy_crypto}

decoder : Unit {0}
unfolding deserialize parse_output parse_outputs read_arrays parse_input parse_inputs take drop
    get_le
decoder = tt

encoder : Unit {0}
unfolding encode encode_prefix encode_output encode_outputs encode_arrays encode_input encode_inputs
    put_le take drop
encoder = tt

writer : Unit {0}
unfolding serialize copy_bytes put_uint finish outputs_size inputs_size write_output write_outputs
    write_arrays write_input write_inputs write_prefix hashed_size hash_output hash_outputs
    hash_prefix signing_prefix encoder
writer = tt

validator : Unit {0}
unfolding signing_hash verify_ringct verify_range_proof extract_binding check_each or_fail or_panic
    zero_memo check_memo check_distinct check_ring check_range_proof check_input add_all
    sum_commitments check_balance validate_coinbase validate_spend validate_transaction is_coinbase
    bytes_eq contains writer
validator = tt

deserialize_short : deserialize [] ≡ err (too_short 0)
unfolding decoder
deserialize_short = refl

sample_serializes : serialize sample_tx ≡ ok (encode sample_tx)
unfolding writer
sample_serializes = refl

sample_parses : deserialize (encode sample_tx) ≡ ok sample_tx
unfolding decoder encoder
sample_parses = refl

sample_is_valid :
    validate_transaction toy_crypto (λ k. false) (some (λ m c. true)) sample_tx ≡ ok tt
unfolding validator
sample_is_valid = refl

sample_spent_twice :
    validate_transaction toy_crypto (λ k. true) (some (λ m c. true)) sample_tx
    ≡ err (already_spent 0)
unfolding validator
sample_spent_twice = refl

all_bytes : Bytes → Bool
all_bytes [] = true
all_bytes (b ∷ bs) = ltb b 256 && all_bytes bs

all_bytes_sound : (bs : Bytes) → all_bytes bs ≡ true → All IsByte bs
unfolding all_bytes
all_bytes_sound [] h = tt
all_bytes_sound (b ∷ bs) h = (ground arith, all_bytes_sound bs (ground arith))

sample_bytes : all_bytes (encode sample_tx) ≡ true
unfolding all_bytes encoder
sample_bytes = refl

deserialize-serialize_example :
    (bs : Bytes) × (serialize sample_tx ≡ ok bs) × (deserialize bs ≡ ok sample_tx)
deserialize-serialize_example = deserialize-serialize sample_tx sample_tx-IsTx

serialize-deserialize_example : IsTx sample_tx × (serialize sample_tx ≡ ok (encode sample_tx))
serialize-deserialize_example =
    serialize-deserialize (encode sample_tx) (all_bytes_sound (encode sample_tx) sample_bytes)
      sample_parses

sample_spends : is_coinbase sample_tx ≡ false
unfolding is_coinbase
sample_spends = refl

validate_spend_iff_example :
    (validate_transaction toy_crypto (λ k. false) (some (λ m c. true)) sample_tx ≡ ok tt)
    ↔ AcceptsSpend toy_crypto (λ k. false) (λ m c. true) sample_tx
validate_spend_iff_example =
    validate_spend_iff toy_crypto (λ k. false) (λ m c. true) sample_tx sample_spends

validate_coinbase_iff_example :
    (validate_transaction toy_crypto (λ k. false) none sample_coinbase ≡ ok tt)
    ↔ ((sample_coinbase.version ≡ 1) × CoinbaseRules toy_crypto sample_coinbase)
validate_coinbase_iff_example =
    validate_coinbase_iff toy_crypto (λ k. false) none sample_coinbase refl

signing_prefix-encode_example : signing_prefix sample_tx ≡ ok (encode_prefix sample_tx)
signing_prefix-encode_example = signing_prefix-encode sample_tx sample_tx-IsTx
