-- ===== src/Tx/Canonical.antt =====
-- transaction.go: DeserializeTx accepts only what Serialize writes.
use mathlib.Core.List.{append_assoc, append-nil}
use blocknet_core.Prelude.{
  ℕ, zero, suc, ◌+◌, ◌*◌, ◌≤◌, ◌≡◌, refl, sym, ap, ◌∙◌, subst, List, [], ◌∷◌, ◌++◌, Bytes, IsByte,
  ok, arith, length, take, drop, length-take, length-drop, drop-drop, take-append-drop, put_le,
  get_le, put_le-get_le-take, get_le-take-lt, take-IsArray, All, All-take, All-drop, IsArray,
  ltb-false→le, refuse_if-eq-ok, >>=-eq-ok, ok-injective, not, ◌==◌, false,
}
use blocknet_core.Tx.{TxOutput, TxInput, Transaction, IsOutput, IsInput, IsTx, memo_size}
use blocknet_core.Tx.Encode.{u32, serialize}
use blocknet_core.Tx.Decode.{
  parse_output, parse_outputs, read_arrays, parse_input, parse_inputs, deserialize,
}
use blocknet_core.Tx.Layout.{
  encode_output, encode_outputs, encode_arrays, encode_input, encode_inputs, encode_prefix, encode,
  serialize-encode,
}

-- The size field of `n` bytes that were cut off after it, as it stood in the input.
size_field :
    (r : Bytes) (b : ℕ)
    → All IsByte r
    → 4 ≤ length r
    → get_le (take 4 r) ≤ 2000
    → b ≡ get_le (take 4 r)
    → put_le 4 (u32 b) ≡ take 4 r
size_field r b h long small e =
    let f : u32 b ≡ get_le (take 4 r) = omega arith in
    ap (put_le 4) f ∙ put_le-get_le-take 4 r h long

parse_output-canonical :
    (i : ℕ) (r : Bytes) {o : TxOutput} {rest : Bytes}
    → All IsByte r
    → parse_output i r ≡ ok (o, rest)
    → (encode_output o ++ rest ≡ r) × IsOutput o × All IsByte rest
unfolding parse_output encode_output
parse_output-canonical i r b h =
    let (long, h1) = refuse_if-eq-ok _ _ _ h in
    let (small, h2) = refuse_if-eq-ok _ _ _ h1 in
    let (enough, h3) = refuse_if-eq-ok _ _ _ h2 in
    let n204 : 204 ≤ length r = ltb-false→le _ _ long in
    let r1 = drop 32 r in
    let r2 = drop 32 r1 in
    let r3 = drop 8 r2 in
    let r4 = drop memo_size r3 in
    let r5 = drop 4 r4 in
    let n = get_le (take 4 r4) in
    let b1 = All-drop IsByte 32 r b in
    let b2 = All-drop IsByte 32 r1 b1 in
    let b3 = All-drop IsByte 8 r2 b2 in
    let b4 = All-drop IsByte memo_size r3 b3 in
    let b5 = All-drop IsByte 4 r4 b4 in
    let l1 = length-drop 32 r in
    let l2 = length-drop 32 r1 in
    let l3 = length-drop 8 r2 in
    let l4 = length-drop memo_size r3 in
    let n1024 : n ≤ 1024 = ltb-false→le _ _ small in
    let fits : n ≤ length r5 = ltb-false→le _ _ enough in
    let proof_length : length (take n r5) ≡ n = omega (arith, length-take n r5) in
    let field = size_field r4 (length (take n r5)) b4 (omega arith) (omega arith) proof_length in
    subst (λ (p : TxOutput × Bytes). (encode_output p.0 ++ p.1 ≡ r) × IsOutput p.0 × All IsByte p.1)
      (ok-injective h3)
      (
        simp (append_assoc, field, take-append-drop),
        record {
          commitment = take-IsArray 32 r1 b1 (omega arith);
          public_key = take-IsArray 32 r b (omega arith);
          encrypted_amount = take-IsArray 8 r2 b2 (omega arith);
          encrypted_memo = take-IsArray memo_size r3 b3 (omega arith);
          proof_bytes = All-take IsByte n r5 b5;
          proof_size = omega arith;
        },
        All-drop IsByte n r5 b5,
      )

read_arrays-length : (n : ℕ) (r : Bytes) → length (read_arrays n r) ≡ n
unfolding read_arrays
read_arrays-length zero r = refl
read_arrays-length (suc n) r = ap suc (read_arrays-length n (drop 32 r))

read_arrays-IsArray :
    (n : ℕ) (r : Bytes) → All IsByte r → n * 32 ≤ length r → All (IsArray 32) (read_arrays n r)
unfolding read_arrays
read_arrays-IsArray zero r b h = tt
read_arrays-IsArray (suc n) r b h = (
  take-IsArray 32 r b (omega arith),
  read_arrays-IsArray n (drop 32 r) (All-drop IsByte 32 r b) (omega (arith, length-drop 32 r)),
)

encode_arrays-read_arrays :
    (n : ℕ) (r : Bytes) → encode_arrays (read_arrays n r) ++ drop (n * 32) r ≡ r
unfolding read_arrays encode_arrays
encode_arrays-read_arrays zero r = unfold drop in refl
encode_arrays-read_arrays (suc n) r =
    let e : drop (suc n * 32) r ≡ drop (n * 32) (drop 32 r) =
      ap (λ m. drop m r) (omega arith) ∙ sym (drop-drop (n * 32) 32 r) in
    rw e (rw append_assoc (rw (encode_arrays-read_arrays n (drop 32 r)) (take-append-drop 32 r)))

parse_input-canonical :
    (i : ℕ) (r : Bytes) {x : TxInput} {rest : Bytes}
    → All IsByte r
    → parse_input i r ≡ ok (x, rest)
    → (encode_input x ++ rest ≡ r) × IsInput x × All IsByte rest
unfolding parse_input encode_input
parse_input-canonical i r b h =
    let (long, h1) = refuse_if-eq-ok _ _ _ h in
    let (small, h2) = refuse_if-eq-ok _ _ _ h1 in
    let (enough1, h3) = refuse_if-eq-ok _ _ _ h2 in
    let (enough2, h4) = refuse_if-eq-ok _ _ _ h3 in
    let (enough3, h5) = refuse_if-eq-ok _ _ _ h4 in
    let (sig_small, h6) = refuse_if-eq-ok _ _ _ h5 in
    let (enough4, h7) = refuse_if-eq-ok _ _ _ h6 in
    let r1 = drop 32 r in
    let r2 = drop 32 r1 in
    let n = get_le (take 4 r2) in
    let r3 = drop 4 r2 in
    let r4 = drop (n * 32) r3 in
    let r5 = drop (n * 32) r4 in
    let m = get_le (take 4 r5) in
    let r6 = drop 4 r5 in
    let b1 = All-drop IsByte 32 r b in
    let b2 = All-drop IsByte 32 r1 b1 in
    let b3 = All-drop IsByte 4 r2 b2 in
    let b4 = All-drop IsByte (n * 32) r3 b3 in
    let b5 = All-drop IsByte (n * 32) r4 b4 in
    let b6 = All-drop IsByte 4 r5 b5 in
    let n68 : 68 ≤ length r = ltb-false→le _ _ long in
    let l1 = length-drop 32 r in
    let l2 = length-drop 32 r1 in
    let n16 : n ≤ 16 = ltb-false→le _ _ small in
    let m1120 : m ≤ 1120 = ltb-false→le _ _ sig_small in
    let fit1 : n * 32 ≤ length r3 = ltb-false→le _ _ enough1 in
    let fit2 : n * 32 ≤ length r4 = ltb-false→le _ _ enough2 in
    let fit3 : 4 ≤ length r5 = ltb-false→le _ _ enough3 in
    let fit4 : m ≤ length r6 = ltb-false→le _ _ enough4 in
    let sig_length : length (take m r6) ≡ m = omega (arith, length-take m r6) in
    let ring_length = read_arrays-length n r3 in
    let ring_field =
      size_field r2 (length (read_arrays n r3)) b2 (omega arith) (omega arith) ring_length in
    let sig_field = size_field r5 (length (take m r6)) b5 fit3 (omega arith) sig_length in
    subst (λ (p : TxInput × Bytes). (encode_input p.0 ++ p.1 ≡ r) × IsInput p.0 × All IsByte p.1)
      (ok-injective h7)
      (
        simp (append_assoc, ring_field, sig_field, take-append-drop, encode_arrays-read_arrays n),
        record {
          key_image = take-IsArray 32 r b (omega arith);
          pseudo_output = take-IsArray 32 r1 b1 (omega arith);
          members = read_arrays-IsArray n r3 b3 fit1;
          commitments = read_arrays-IsArray n r4 b4 fit2;
          same_size = read_arrays-length n r4 ∙ sym ring_length;
          ring_bound = omega arith;
          sig_bytes = All-take IsByte m r6 b6;
          sig_size = omega arith;
        },
        All-drop IsByte m r6 b6,
      )

parse_outputs-canonical :
    (n i : ℕ) (r : Bytes) {os : List TxOutput} {rest : Bytes}
    → All IsByte r
    → parse_outputs n i r ≡ ok (os, rest)
    → (encode_outputs os ++ rest ≡ r) × (length os ≡ n) × All IsOutput os × All IsByte rest
unfolding parse_outputs encode_outputs
parse_outputs-canonical zero i r b h =
    subst
      (λ (p : List TxOutput × Bytes).
        (encode_outputs p.0 ++ p.1 ≡ r) × (length p.0 ≡ 0) × All IsOutput p.0 × All IsByte p.1)
      (ok-injective h) (refl, refl, tt, b)
parse_outputs-canonical (suc n) i r b h =
    let ((o, r1), e1, h1) = >>=-eq-ok (parse_output i r) _ h in
    let ((os, r2), e2, h2) = >>=-eq-ok (parse_outputs n (i + 1) r1) _ h1 in
    let (c1, w1, b1) = parse_output-canonical i r b e1 in
    let (c2, len, w2, b2) = parse_outputs-canonical n (i + 1) r1 b1 e2 in
    subst
      (λ (p : List TxOutput × Bytes).
        (encode_outputs p.0 ++ p.1 ≡ r) × (length p.0 ≡ suc n) × All IsOutput p.0 × All IsByte p.1)
      (ok-injective h2)
      (
        append_assoc (encode_output o) (encode_outputs os) r2 ∙ ap (◌++◌ (encode_output o)) c2 ∙ c1,
        ap suc len,
        (w1, w2),
        b2,
      )

parse_inputs-canonical :
    (n i : ℕ) (r : Bytes) {xs : List TxInput} {rest : Bytes}
    → All IsByte r
    → parse_inputs n i r ≡ ok (xs, rest)
    → (encode_inputs xs ++ rest ≡ r) × (length xs ≡ n) × All IsInput xs × All IsByte rest
unfolding parse_inputs encode_inputs
parse_inputs-canonical zero i r b h =
    subst
      (λ (p : List TxInput × Bytes).
        (encode_inputs p.0 ++ p.1 ≡ r) × (length p.0 ≡ 0) × All IsInput p.0 × All IsByte p.1)
      (ok-injective h) (refl, refl, tt, b)
parse_inputs-canonical (suc n) i r b h =
    let ((x, r1), e1, h1) = >>=-eq-ok (parse_input i r) _ h in
    let ((xs, r2), e2, h2) = >>=-eq-ok (parse_inputs n (i + 1) r1) _ h1 in
    let (c1, w1, b1) = parse_input-canonical i r b e1 in
    let (c2, len, w2, b2) = parse_inputs-canonical n (i + 1) r1 b1 e2 in
    subst
      (λ (p : List TxInput × Bytes).
        (encode_inputs p.0 ++ p.1 ≡ r) × (length p.0 ≡ suc n) × All IsInput p.0 × All IsByte p.1)
      (ok-injective h2)
      (
        append_assoc (encode_input x) (encode_inputs xs) r2 ∙ ap (◌++◌ (encode_input x)) c2 ∙ c1,
        ap suc len,
        (w1, w2),
        b2,
      )

deserialize-canonical :
    (r : Bytes) {tx : Transaction}
    → All IsByte r
    → deserialize r ≡ ok tx
    → (encode tx ≡ r) × IsTx tx
unfolding deserialize encode encode_prefix
deserialize-canonical r b h =
    let (long, h1) = refuse_if-eq-ok _ _ _ h in
    let (inputs_small, h2) = refuse_if-eq-ok _ _ _ h1 in
    let (outputs_small, h3) = refuse_if-eq-ok _ _ _ h2 in
    let r1 = drop 1 r in
    let r2 = drop 32 r1 in
    let n = get_le (take 4 r2) in
    let r3 = drop 4 r2 in
    let m = get_le (take 4 r3) in
    let r4 = drop 4 r3 in
    let r5 = drop 8 r4 in
    let ((os, r6), e1, h4) = >>=-eq-ok (parse_outputs m 0 r5) _ h3 in
    let ((xs, r7), e2, h5) = >>=-eq-ok (parse_inputs n 0 r6) _ h4 in
    let (end, h6) = refuse_if-eq-ok (not (length r7 == 0)) _ _ h5 in
    let b1 = All-drop IsByte 1 r b in
    let b2 = All-drop IsByte 32 r1 b1 in
    let b3 = All-drop IsByte 4 r2 b2 in
    let b4 = All-drop IsByte 4 r3 b3 in
    let b5 = All-drop IsByte 8 r4 b4 in
    let n49 : 49 ≤ length r = ltb-false→le _ _ long in
    let n256 : n ≤ 256 = ltb-false→le _ _ inputs_small in
    let m256 : m ≤ 256 = ltb-false→le _ _ outputs_small in
    let l1 = length-drop 1 r in
    let l2 = length-drop 32 r1 in
    let l3 = length-drop 4 r2 in
    let l4 = length-drop 4 r3 in
    let (c1, os_length, w1, b6) = parse_outputs-canonical m 0 r5 b5 e1 in
    let (c2, xs_length, w2, b7) = parse_inputs-canonical n 0 r6 b6 e2 in
    let inputs_field = size_field r2 (length xs) b2 (omega arith) (omega arith) xs_length in
    let outputs_field = size_field r3 (length os) b3 (omega arith) (omega arith) os_length in
    let done : r7 ≡ [] = nothing_left r7 end in
    let tail : encode_inputs xs ≡ r6 =
      sym (append-nil (encode_inputs xs)) ∙ ap (◌++◌ (encode_inputs xs)) (sym done) ∙ c2 in
    subst (λ (t : Transaction). (encode t ≡ r) × IsTx t) (ok-injective h6)
      (
        simp (
          append_assoc,
          put_le-get_le-take 1 r b (omega arith),
          inputs_field,
          outputs_field,
          put_le-get_le-take 8 r4 b4 (omega arith),
          tail,
          c1,
          take-append-drop,
        ),
        record {
          version = get_le-take-lt 1 r b (omega arith);
          tx_public_key = take-IsArray 32 r1 b1 (omega arith);
          fee = get_le-take-lt 8 r4 b4 (omega arith);
          inputs = w2;
          outputs = w1;
          input_count = omega arith;
          output_count = omega arith;
        },
      )
  where
    nothing_left : (bs : Bytes) → not (length bs == 0) ≡ false → bs ≡ []
    nothing_left [] e = refl
    nothing_left (x ∷ bs) e = absurd (ground arith)

-- Whatever bytes DeserializeTx accepts, the transaction it returns keeps the wire limits, and
-- Serialize writes back exactly the bytes that were read.
pub serialize-deserialize :
    (bs : Bytes) {tx : Transaction}
    → All IsByte bs
    → deserialize bs ≡ ok tx
    → IsTx tx × (serialize tx ≡ ok bs)
serialize-deserialize bs {tx} b h =
    let (e, w) = deserialize-canonical bs b h in (w, serialize-encode tx w ∙ ap ok e)
