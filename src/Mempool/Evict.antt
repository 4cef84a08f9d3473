-- ===== src/Mempool/Evict.antt =====
-- mempool.go: evictLowest takes the oldest entry, and only one that pays less.
use blocknet_core.Prelude.{
  ℕ, ◌≤◌, ◌<◌, ◌≡◌, refl, sym, subst, ◌∙◌, ◌⊎◌, inl, inr, List, [], ◌∷◌, Bytes, true, false, Option,
  none, some, arith, ltb, ◌==◌, length, bytes_eq_iff, bytes_eq_refl, All, Bool-cases, Option-cases,
  some_eq,
}
use blocknet_core.Prelude.Maps.{lookup, IsMap}
use blocknet_core.Mempool.{Mempool, Entry, remove_tx_by_id, oldest_from, evict_lowest}

-- What `oldest_from` has found: the candidate it started with, or an entry of the list.
abbrev Among : Option (Bytes × Entry) → List (Bytes × Entry) → Bytes × Entry → Type 0
Among best m p = (best ≡ some p) ⊎ (lookup p.0 m ≡ some p.1)

lookup-cons_tail :
    (id j : Bytes) (d x : Entry) (m : List (Bytes × Entry))
    → lookup id m ≡ none
    → lookup j m ≡ some x
    → lookup j ((id, d) ∷ m) ≡ some x
unfolding lookup
lookup-cons_tail id j d x m h e = ground (arith, bytes_eq_iff id j)

lookup-cons_head :
    (id : Bytes) (d : Entry) (m : List (Bytes × Entry)) (p : Bytes × Entry)
    → (id, d) ≡ p
    → lookup p.0 ((id, d) ∷ m) ≡ some p.1
unfolding lookup
lookup-cons_head id d m p e =
    subst (λ (q : Bytes × Entry). lookup q.0 ((id, d) ∷ m) ≡ some q.1) e (rw bytes_eq_refl)

oldest_from-Among :
    (best : Option (Bytes × Entry)) (m : List (Bytes × Entry)) (p : Bytes × Entry)
    → IsMap m
    → oldest_from best m ≡ some p
    → Among best m p
unfolding oldest_from
oldest_from-Among best [] p h e = inl e
oldest_from-Among none ((id, d) ∷ m) p h e = elim (oldest_from-Among (some (id, d)) m p h.1 e) [
  | inl q ↦ inr (lookup-cons_head id d m p (some_eq q))
  | inr q ↦ inr (lookup-cons_tail id p.0 d p.1 m h.0 q)
]
oldest_from-Among (some b) ((id, d) ∷ m) p h e = elim (Bool-cases (ltb d.added_at b.1.added_at)) [
  | inl older ↦ elim (oldest_from-Among (some (id, d)) m p h.1 (rw older at e)) [
    | inl q ↦ inr (lookup-cons_head id d m p (some_eq q))
    | inr q ↦ inr (lookup-cons_tail id p.0 d p.1 m h.0 q)
  ]
  | inr same ↦ elim (oldest_from-Among (some b) m p h.1 (rw same at e)) [
    | inl q ↦ inl q
    | inr q ↦ inr (lookup-cons_tail id p.0 d p.1 m h.0 q)
  ]
]

-- The earliest time.
oldest_from-least :
    (best : Option (Bytes × Entry)) (m : List (Bytes × Entry)) (p : Bytes × Entry)
    → oldest_from best m ≡ some p
    → ((b : Bytes × Entry) → best ≡ some b → p.1.added_at ≤ b.1.added_at)
      × All (λ q. p.1.added_at ≤ q.1.added_at) m
unfolding oldest_from
oldest_from-least best [] p e = (
  λ b f.
      let same : b ≡ p = some_eq (sym f ∙ e) in
      subst (λ (q : Bytes × Entry). q.1.added_at ≤ b.1.added_at) same (omega arith),
  tt,
)
oldest_from-least none ((id, d) ∷ m) p e =
    let (a, b) = oldest_from-least (some (id, d)) m p e in
    (λ c f. absurd (cc f), (a (id, d) refl, b))
oldest_from-least (some b) ((id, d) ∷ m) p e = elim (Bool-cases (ltb d.added_at b.1.added_at)) [
  | inl older ↦
      let (a, r) = oldest_from-least (some (id, d)) m p (rw older at e) in
      let here = a (id, d) refl in
      (
        λ c f.
            let same : b ≡ c = some_eq f in
            subst (λ (q : Bytes × Entry). p.1.added_at ≤ q.1.added_at) same (ground (arith, here)),
        (here, r),
      )
  | inr younger ↦
      let (a, r) = oldest_from-least (some b) m p (rw younger at e) in
      let here = a b refl in (a, (ground (arith, here), r))
]

-- What an eviction takes out.
pub record Evicts (rate : ℕ) (m : Mempool) (id : Bytes) (e : Entry) : Type 0 where
  pub found : lookup id m.tx_by_id ≡ some e
  pub oldest : All (λ q. e.added_at ≤ q.1.added_at) m.tx_by_id
  pub cheaper : e.fee_rate < rate
  pub result : evict_lowest rate m ≡ (remove_tx_by_id id m, true)

-- In a pool whose IDs are distinct, an eviction takes out an entry that stands in the pool, that no
-- other entry is older than, and that pays less than `rate`; or the pool is left as it was.
pub evict_lowest-Evicts :
    (rate : ℕ) (m : Mempool)
    → IsMap m.tx_by_id
    → (evict_lowest rate m ≡ (m, false)) ⊎ ((id : Bytes) × (e : Entry) × Evicts rate m id e)
unfolding evict_lowest
evict_lowest-Evicts rate m v = elim (Bool-cases (length m.priority_queue == 0)) [
  | inl e ↦ inl (rw e)
  | inr some_left ↦ elim (Option-cases (oldest_from none m.tx_by_id)) [
    | inl e ↦ inl (rw (some_left, e))
    | inr ((id, d), e) ↦ elim (Bool-cases (ltb d.fee_rate rate)) [
      | inr dear ↦ inl (rw (some_left, e, dear))
      | inl cheap ↦ inr (
        id,
        d,
        record {
          found = in_map (oldest_from-Among none m.tx_by_id (id, d) v e);
          oldest = (oldest_from-least none m.tx_by_id (id, d) e).1;
          cheaper = ground arith;
          result = rw (some_left, e, cheap, evict_lowest);
        },
      )
    ]
  ]
]
  where
    in_map : {p : Bytes × Entry} → Among none m.tx_by_id p → lookup p.0 m.tx_by_id ≡ some p.1
    in_map (inl q) = absurd (cc q)
    in_map (inr q) = q
