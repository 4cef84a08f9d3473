-- ===== src/Prelude/ByteStrings.antt =====
-- Byte strings: `[]byte` and `[32]byte` as lists of numbers below 256, and little-endian integers
-- (encoding/binary's PutUint32, PutUint64, Uint32, Uint64).
use Prim.Native.Nat.{ℕ, zero, suc, ◌+◌, ◌*◌, ◌/◌, ◌%◌, ◌^◌, ◌≤◌, ◌<◌}
use mathlib.Core.Path.{◌≡◌, refl, ap, ◌∙◌, subst}
use mathlib.Core.Logic.{◌↔◌, ◌≢◌}
use mathlib.Core.Bool.{Bool, true, false, ◌&&◌, ◌||◌}
use mathlib.Core.List.{List, [], ◌∷◌}
use native.Mathlib.Nat.{pow-suc}
use native.Mathlib.Omega.{arith}
use blocknet_core.Prelude.Tests.{◌==◌}
use blocknet_core.Prelude.Lists.{length, take, length-take, All, All-take}

abbrev pub Bytes : Type 0
Bytes = List ℕ

abbrev pub IsByte : ℕ → Type 0
IsByte b = b < 256

-- A value of the Go type `[n]byte`.
pub record IsArray (n : ℕ) (bs : Bytes) : Type 0 where
  pub size : length bs ≡ n
  pub bytes : All IsByte bs

-- `==` on byte arrays.
unfoldable pub bytes_eq : Bytes → Bytes → Bool
bytes_eq [] [] = true
bytes_eq [] (y ∷ ys) = false
bytes_eq (x ∷ xs) [] = false
bytes_eq (x ∷ xs) (y ∷ ys) = x == y && bytes_eq xs ys

pub bytes_eq_iff : (xs ys : Bytes) → (bytes_eq xs ys ≡ true) ↔ (xs ≡ ys)
unfolding bytes_eq
bytes_eq_iff [] [] = ground arith
bytes_eq_iff [] (y ∷ ys) = ground arith
bytes_eq_iff (x ∷ xs) [] = ground arith
bytes_eq_iff (x ∷ xs) (y ∷ ys) = ground (arith, bytes_eq_iff xs ys)

pub bytes_eq_refl : (xs : Bytes) → bytes_eq xs xs ≡ true
bytes_eq_refl xs = (bytes_eq_iff xs xs).1 refl

pub bytes_eq-false_iff : (xs ys : Bytes) → (bytes_eq xs ys ≡ false) ↔ (xs ≢ ys)
bytes_eq-false_iff xs ys =
    (λ h e. cc (h, (bytes_eq_iff xs ys).1 e), λ n. ground (arith, bytes_eq_iff xs ys))

-- `n` bytes, the least significant first.
unfoldable pub put_le : ℕ → ℕ → Bytes
put_le zero v = []
put_le (suc n) v = v % 256 ∷ put_le n (v / 256)

unfoldable pub get_le : Bytes → ℕ
get_le [] = 0
get_le (b ∷ bs) = b + 256 * get_le bs

pub length-put_le : (n v : ℕ) → length (put_le n v) ≡ n
unfolding put_le
length-put_le zero v = refl
length-put_le (suc n) v = ap suc (length-put_le n (v / 256))

pub put_le-All : (n v : ℕ) → All IsByte (put_le n v)
unfolding put_le
put_le-All zero v = tt
put_le-All (suc n) v = (omega arith, put_le-All n (v / 256))

pub get_le-put_le : (n v : ℕ) → v < 256 ^ n → get_le (put_le n v) ≡ v
unfolding put_le get_le
get_le-put_le zero v h = omega arith
get_le-put_le (suc n) v h = omega (arith, get_le-put_le n (v / 256) (omega (arith, pow-suc 256 n)))

pub put_le-get_le : (bs : Bytes) → All IsByte bs → put_le (length bs) (get_le bs) ≡ bs
unfolding put_le get_le
put_le-get_le [] h = refl
put_le-get_le (b ∷ bs) h =
    let e : (b + 256 * get_le bs) / 256 ≡ get_le bs = omega arith in
    let d : (b + 256 * get_le bs) % 256 ≡ b = omega arith in
    cc (d, ap (put_le (length bs)) e, put_le-get_le bs h.1)

pub get_le-lt : (bs : Bytes) → All IsByte bs → get_le bs < 256 ^ length bs
unfolding get_le
get_le-lt [] h = omega arith
get_le-lt (b ∷ bs) h = omega (arith, get_le-lt bs h.1, pow-suc 256 (length bs))

pub take-IsArray : (n : ℕ) (r : Bytes) → All IsByte r → n ≤ length r → IsArray n (take n r)
take-IsArray n r h le = record {
  size = omega (arith, length-take n r);
  bytes = All-take IsByte n r h;
}

-- Four bytes read as a number and written again.
pub put_le-get_le-take :
    (n : ℕ) (r : Bytes) → All IsByte r → n ≤ length r → put_le n (get_le (take n r)) ≡ take n r
put_le-get_le-take n r h le =
    let e : length (take n r) ≡ n = omega (arith, length-take n r) in
    subst (λ m. put_le m (get_le (take n r)) ≡ take n r) e
      (put_le-get_le (take n r) (All-take IsByte n r h))

pub get_le-take-lt : (n : ℕ) (r : Bytes) → All IsByte r → n ≤ length r → get_le (take n r) < 256 ^ n
get_le-take-lt n r h le =
    let e : length (take n r) ≡ n = omega (arith, length-take n r) in
    subst (λ m. get_le (take n r) < 256 ^ m) e (get_le-lt (take n r) (All-take IsByte n r h))

-- `n` bytes, the most significant first (binary.BigEndian), before what follows.
unfoldable pub put_be_onto : ℕ → ℕ → Bytes → Bytes
put_be_onto zero v later = later
put_be_onto (suc n) v later = put_be_onto n (v / 256) (v % 256 ∷ later)

unfoldable pub put_be : ℕ → ℕ → Bytes
put_be n v = put_be_onto n v []

unfoldable pub get_be_from : ℕ → Bytes → ℕ
get_be_from v [] = v
get_be_from v (b ∷ bs) = get_be_from (v * 256 + b) bs

unfoldable pub get_be : Bytes → ℕ
get_be bs = get_be_from 0 bs

length-put_be_onto : (n v : ℕ) (later : Bytes) → length (put_be_onto n v later) ≡ n + length later
unfolding put_be_onto
length-put_be_onto zero v later = omega arith
length-put_be_onto (suc n) v later = omega (arith, length-put_be_onto n (v / 256) (v % 256 ∷ later))

pub length-put_be : (n v : ℕ) → length (put_be n v) ≡ n
unfolding put_be
length-put_be n v = omega (arith, length-put_be_onto n v [])

get_be_from-put_be_onto :
    (n v : ℕ) (later : Bytes)
    → v < 256 ^ n
    → get_be_from 0 (put_be_onto n v later) ≡ get_be_from v later
unfolding put_be_onto get_be_from
get_be_from-put_be_onto zero v later h = ap (λ x. get_be_from x later) (omega arith)
get_be_from-put_be_onto (suc n) v later h =
    get_be_from-put_be_onto n (v / 256) (v % 256 ∷ later) (omega (arith, pow-suc 256 n))
    ∙ ap (λ x. get_be_from x later) (omega arith)

pub get_be-put_be : (n v : ℕ) → v < 256 ^ n → get_be (put_be n v) ≡ v
unfolding put_be get_be get_be_from
get_be-put_be n v h = get_be_from-put_be_onto n v [] h

-- A set of byte arrays, as the keys of a `map[[32]byte]struct{}`.
unfoldable pub contains : List Bytes → Bytes → Bool
contains [] k = false
contains (x ∷ xs) k = bytes_eq x k || contains xs k
