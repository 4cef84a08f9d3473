-- ===== src/Block/Wire.antt =====
-- block.go: serializeFull and SerializeForPoW.
use blocknet_core.Prelude.{
  ℕ, ◌≡◌, sym, ap, ◌∙◌, ◌++◌, [], Bytes, Result, ok, ◌>>=◌, ◌>>◌, refuse_if, ok-injective, ◌==◌,
  not, arith, length, take, drop, length-append, take_exact, drop_exact, put_le, get_le,
  length-put_le, get_le-put_le,
}
use blocknet_core.Tx.Encode.{Panic, out_of_range, copy_bytes, put_uint, finish}
use blocknet_core.Tx.Layout.{Writes, Writes-seq, copy_bytes-Writes, put_uint-Writes, finish_full}
use blocknet_core.Block.{Header, IsHeader, header_size, header_size_no_nonce}

-- The fields that both have in common.
unfoldable pub write_fields : ℕ → Header → Bytes → Result Panic Bytes
write_fields size h out = do
  out ← put_uint size 4 h.version out
  out ← put_uint size 8 h.height out
  out ← copy_bytes size h.prev_hash out
  out ← copy_bytes size h.merkle_root out
  out ← put_uint size 8 h.timestamp out
  put_uint size 8 h.difficulty out

unfoldable pub serialize_full : Header → Result Panic Bytes
serialize_full h = do
  out ← write_fields header_size h []
  out ← put_uint header_size 8 h.nonce out
  refuse_if (not (length out == header_size)) out_of_range
  ok (finish header_size out)

unfoldable pub serialize_for_pow : Header → Result Panic Bytes
serialize_for_pow h = do
  out ← write_fields header_size_no_nonce h []
  refuse_if (not (length out == header_size_no_nonce)) out_of_range
  ok (finish header_size_no_nonce out)

-- The format as one expression.
unfoldable pub encode_fields : Header → Bytes
encode_fields h =
    put_le 4 h.version
    ++ (put_le 8 h.height
        ++ (h.prev_hash ++ (h.merkle_root ++ (put_le 8 h.timestamp ++ put_le 8 h.difficulty))))

write_fields-Writes : (size : ℕ) (h : Header) → Writes size (write_fields size h) (encode_fields h)
unfolding write_fields encode_fields
write_fields-Writes size h = Writes-seq size _ _ (put_le 4 h.version) _ (put_uint-Writes size 4 _) (
    Writes-seq size _ _ (put_le 8 h.height) _ (put_uint-Writes size 8 _) (
      Writes-seq size _ _ h.prev_hash _ (copy_bytes-Writes size _) (
        Writes-seq size _ _ h.merkle_root _ (copy_bytes-Writes size _) (
          Writes-seq size _ _ (put_le 8 h.timestamp) _ (put_uint-Writes size 8 _)
            (put_uint-Writes size 8 _)))))

pub length-encode_fields :
    (h : Header) → IsHeader h → length (encode_fields h) ≡ header_size_no_nonce
unfolding encode_fields
length-encode_fields h v = omega (
  arith,
  length-append (put_le 4 h.version) _,
  length-append (put_le 8 h.height) _,
  length-append h.prev_hash _,
  length-append h.merkle_root _,
  length-append (put_le 8 h.timestamp) (put_le 8 h.difficulty),
  length-put_le 4 h.version,
  length-put_le 8 h.height,
  length-put_le 8 h.timestamp,
  length-put_le 8 h.difficulty,
  v.prev_hash.size,
  v.merkle_root.size,
)

pub serialize_for_pow-encode :
    (h : Header) → IsHeader h → serialize_for_pow h ≡ ok (encode_fields h)
unfolding serialize_for_pow
serialize_for_pow-encode h v =
    let p = length-encode_fields h v in
    let w : write_fields header_size_no_nonce h [] ≡ ok (encode_fields h) =
      write_fields-Writes header_size_no_nonce h [] (omega (arith, p)) in
    rw (w, p) (ap ok (finish_full header_size_no_nonce (encode_fields h) p))

pub serialize_full-encode :
    (h : Header) → IsHeader h → serialize_full h ≡ ok (encode_fields h ++ put_le 8 h.nonce)
unfolding serialize_full
serialize_full-encode h v =
    let p = length-encode_fields h v in
    let whole = encode_fields h ++ put_le 8 h.nonce in
    let q : length whole ≡ header_size =
      omega
        (arith, p, length-append (encode_fields h) (put_le 8 h.nonce), length-put_le 8 h.nonce) in
    let w : write_fields header_size h [] ≡ ok (encode_fields h) =
      write_fields-Writes header_size h [] (omega (arith, p)) in
    let u : put_uint header_size 8 h.nonce (encode_fields h) ≡ ok whole =
      put_uint-Writes header_size 8 h.nonce (encode_fields h)
        (omega (arith, p, length-put_le 8 h.nonce)) in
    rw (w, u, q) (ap ok (finish_full header_size whole q))

-- The proof of work hashes the header without its nonce: for a header of the Go types SerializeForPoW
-- gives the bytes that serializeFull puts before the nonce.
pub serialize_full-serialize_for_pow :
    (h : Header)
    → IsHeader h
    → (bs : Bytes) × (serialize_for_pow h ≡ ok bs)
      × (serialize_full h ≡ ok (bs ++ put_le 8 h.nonce))
serialize_full-serialize_for_pow h v =
    (encode_fields h, serialize_for_pow-encode h v, serialize_full-encode h v)

-- What a reader of the format gets, and that it gets the header back.
decode : Bytes → Bytes → Header
decode bs nonce = record {
  version = get_le (take 4 bs);
  height = get_le (take 8 (drop 4 bs));
  prev_hash = take 32 (drop 8 (drop 4 bs));
  merkle_root = take 32 (drop 32 (drop 8 (drop 4 bs)));
  timestamp = get_le (take 8 (drop 32 (drop 32 (drop 8 (drop 4 bs)))));
  difficulty = get_le (drop 8 (drop 32 (drop 32 (drop 8 (drop 4 bs)))));
  nonce = get_le nonce;
}

decode-encode_fields : (h : Header) → IsHeader h → decode (encode_fields h) (put_le 8 h.nonce) ≡ h
unfolding decode encode_fields
decode-encode_fields h v = rw (
  take_exact (put_le 4 h.version) (length-put_le 4 h.version),
  drop_exact (put_le 4 h.version) (length-put_le 4 h.version),
  take_exact (put_le 8 h.height) (length-put_le 8 h.height),
  drop_exact (put_le 8 h.height) (length-put_le 8 h.height),
  take_exact h.prev_hash v.prev_hash.size,
  drop_exact h.prev_hash v.prev_hash.size,
  take_exact h.merkle_root v.merkle_root.size,
  drop_exact h.merkle_root v.merkle_root.size,
  take_exact (put_le 8 h.timestamp) (length-put_le 8 h.timestamp),
  drop_exact (put_le 8 h.timestamp) (length-put_le 8 h.timestamp),
  get_le-put_le 4 h.version v.version,
  get_le-put_le 8 h.height v.height,
  get_le-put_le 8 h.timestamp v.timestamp,
  get_le-put_le 8 h.difficulty v.difficulty,
  get_le-put_le 8 h.nonce v.nonce,
)

-- Two headers of the Go types with the same serialization, and so with the same input to the block hash, are one
-- header.
pub serialize_full-injective :
    (g h : Header) → IsHeader g → IsHeader h → serialize_full g ≡ serialize_full h → g ≡ h
serialize_full-injective g h u v e =
    let whole : encode_fields g ++ put_le 8 g.nonce ≡ encode_fields h ++ put_le 8 h.nonce =
      ok-injective (sym (serialize_full-encode g u) ∙ e ∙ serialize_full-encode h v) in
    let front : encode_fields g ≡ encode_fields h =
      sym (take_exact (encode_fields g) (length-encode_fields g u) (put_le 8 g.nonce))
      ∙ ap (take header_size_no_nonce) whole
      ∙ take_exact (encode_fields h) (length-encode_fields h v) (put_le 8 h.nonce) in
    let back : put_le 8 g.nonce ≡ put_le 8 h.nonce =
      sym (drop_exact (encode_fields g) (length-encode_fields g u) (put_le 8 g.nonce))
      ∙ ap (drop header_size_no_nonce) whole
      ∙ drop_exact (encode_fields h) (length-encode_fields h v) (put_le 8 h.nonce) in
    sym (decode-encode_fields g u) ∙ rw (front, back) (decode-encode_fields h v)
