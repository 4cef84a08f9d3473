-- ===== src/Store/Checks.antt =====
-- storage.go: what CommitReorg's checks say about the blocks to disconnect and to connect.
use blocknet_core.Prelude.{
  ℕ, suc, ◌+◌, ◌%◌, ◌<◌, ◌≤◌, ◌≡◌, refl, sym, ap, ◌∙◌, subst, List, [], ◌∷◌, ◌++◌, Bytes, Bool,
  true, false, not, Option, some, ok, ◌==◌, ==_iff, bytes_eq, bytes_eq_iff, length, All, All_weaken,
  arith, refuse_if-eq-ok, >>=-eq-ok, ok-injective, some_eq, pair_eq,
}
use blocknet_core.Tx.Crypto.{Crypto}
use blocknet_core.Block.{Block}
use blocknet_core.Store.{KeyValue, height_key, block_hash, sub_u64}
use blocknet_core.Store.Commit.{lowest, check_link, check_disconnect, base_of, check_connect}
use blocknet_core.Store.Chains.{IsBranch, LinksTo, hash_at, tip_of, extend}

pub not-false : (t : Bool) → not t ≡ false → t ≡ true
not-false t h = ground (arith, h)

module _ (c : Crypto) (kv : KeyValue) where
  open kv use {Bucket, get}

  -- No two different blocks of the two lists have the same hash.
  abbrev pub NoCollision : List Block → List Block → Type 0
  NoCollision bs chain =
      All (λ (b : Block). All (λ (d : Block). block_hash c d ≡ block_hash c b → b ≡ d) chain) bs

  pub check_connect_sound :
      (bs : List Block) (top : Block) (below : List Block) (i : ℕ) {last : Bytes}
      → IsBranch c (top ∷ below)
      → length below + length bs < 9223372036854775807
      → check_connect kv c (block_hash c top) (suc (length below)) i bs ≡ ok last
      → IsBranch c (extend bs (top ∷ below))
        × (tip_of c (extend bs (top ∷ below)) ≡ some (last, length below + length bs))
  unfolding check_connect extend tip_of
  check_connect_sound [] top below i v small e =
      (v, ap some (pair_eq (ok-injective e) (omega arith)))
  check_connect_sound (b ∷ bs) top below i {last} v small e =
      let (high, e1) = refuse_if-eq-ok (not (b.header.height == suc (length below))) _ _ e in
      let (linked, e2) =
        refuse_if-eq-ok (not (bytes_eq b.header.prev_hash (block_hash c top))) _ _ e1 in
      let level : b.header.height ≡ suc (length below) = (==_iff _ _).0 (not-false _ high) in
      let parent : b.header.prev_hash ≡ block_hash c top =
        (bytes_eq_iff _ _).0 (not-false _ linked) in
      let next : (suc (length below) + 1) % 18446744073709551616 ≡ suc (suc (length below)) =
        omega (arith, small) in
      let (branch, tip) =
        check_connect_sound bs b (top ∷ below) (i + 1) (level, (parent, v)) (omega (arith, small))
          (subst (λ n. check_connect kv c (block_hash c b) n (i + 1) bs ≡ ok last) next e2) in
      (branch, tip ∙ ap some (pair_eq refl (omega arith)))

  pub lowest_lem :
      (b : Block) (bs tail : List Block)
      → IsBranch c (b ∷ (bs ++ tail))
      → ((lowest b bs).header.height ≡ length tail) × LinksTo c (lowest b bs) tail
  unfolding lowest
  lowest_lem b [] tail v = (v.0, v.1.0)
  lowest_lem b (next ∷ bs) tail v = lowest_lem next bs tail v.1.1

  -- The base is the newest block that stays.
  pub base_of_sound :
      (bs tail : List Block) (tip : Bytes) (height : ℕ) {base : Bytes × ℕ}
      → IsBranch c (bs ++ tail)
      → tip_of c (bs ++ tail) ≡ some (tip, height)
      → base_of kv c bs tip height ≡ ok base
      → (top : Block) × (below : List Block) × (tail ≡ top ∷ below)
        × (base ≡ (block_hash c top, length below))
  unfolding base_of tip_of
  base_of_sound [] [] tip height v t e = absurd (cc t)
  base_of_sound [] (top ∷ below) tip height v t e =
      (top, below, refl, sym (ok-injective e) ∙ sym (some_eq t))
  base_of_sound (b ∷ bs) [] tip height v t e =
      let (high, e1) = refuse_if-eq-ok ((lowest b bs).header.height == 0) _ _ e in
      absurd (ground (arith, high, (lowest_lem b bs [] v).0))
  base_of_sound (b ∷ bs) (top ∷ below) tip height {base} v t e =
      let (high, e1) = refuse_if-eq-ok ((lowest b bs).header.height == 0) _ _ e in
      let (level, link) = lowest_lem b bs (top ∷ below) v in
      (top, below, refl, sym (ok-injective e1) ∙ pair_eq link (omega (arith, level)))

  -- The blocks to disconnect are the newest of the chain.
  pub check_disconnect_sound :
      (heights : Bucket Bytes) (current i : ℕ) (above : Option Block) (bs rest : List Block)
      → ((h : ℕ) → h < length rest → get (height_key h) heights ≡ hash_at c rest h)
      → length rest + i ≡ suc current
      → current < 9223372036854775807
      → length bs ≤ length rest
      → NoCollision bs rest
      → check_disconnect kv c heights current i above bs ≡ ok tt
      → (tail : List Block) × (rest ≡ bs ++ tail)
  unfolding check_disconnect hash_at
  check_disconnect_sound heights current i above [] rest idx level small short apart e =
      (rest, refl)
  check_disconnect_sound heights current i above (b ∷ bs) [] idx level small short apart e =
      absurd (omega (arith, short))
  check_disconnect_sound heights current i above (b ∷ bs) (r ∷ rs) idx level small short apart e =
      let (high, e1) = refuse_if-eq-ok (not (b.header.height == sub_u64 current i)) _ _ e in
      let here : sub_u64 current i ≡ length rs = omega (arith, level, small) in
      let found : get (height_key (length rs)) heights ≡ some (block_hash c r) =
        idx (length rs) (omega arith) ∙ ground arith in
      let e2 = rw (here, found) at e1 in
      let (same, e3) = refuse_if-eq-ok (not (bytes_eq (block_hash c r) (block_hash c b))) _ _ e2 in
      let (done, e4, e5) =
        >>=-eq-ok (check_link kv c above b i)
          (λ d. check_disconnect kv c heights current (i + 1) (some b) bs) e3 in
      let equal : b ≡ r = apart.0.0 ((bytes_eq_iff _ _).0 (not-false _ same)) in
      let (tail, rest) =
        check_disconnect_sound heights current (i + 1) (some b) bs rs
          (λ h l. idx h (omega (arith, l)) ∙ ground (arith, l)) (omega (arith, level)) small
          (omega (arith, short)) (All_weaken _ _ bs (λ d h. h.1) apart.1) e5 in
      (tail, cc (equal, rest))
