-- ===== src/Idempotency.antt =====
-- api_idempotency.go: the cache that gives one key of a request one result.
pub mod Flying
pub mod Histories
pub mod Cap
pub mod Replay
use blocknet_core.Prelude.{
  ℕ, zero, suc, ◌+◌, List, [], ◌∷◌, Bytes, Bool, true, false, Option, none, some, if◌then◌else◌,
  ltb, leb, ◌==◌, bytes_eq, length, ◌||◌, ◌&&◌, not,
}
use blocknet_core.Prelude.Maps.{lookup, insert, delete}

pub record Answer : Type 0 where
  pub status : ℕ
  pub body : Bytes

-- Times are in nanoseconds.
pub record IdempotencyEntry : Type 0 where
  pub created_at : ℕ
  pub req_hash : Bytes
  pub in_flight : Bool
  pub result : Answer

abbrev pub Entries : Type 0
Entries = List (Bytes × IdempotencyEntry)

-- A ttl or a limit of 0 is one that is not positive, which the code takes for none.
pub record Cache : Type 0 where
  pub ttl : ℕ
  pub max_entries : ℕ
  pub entries : Entries

pub data State : Type 0 where
  mismatch inflight start : State
  replay : Answer → State

abbrev pub no_answer : Answer
no_answer = record { status = 0; body = [] }

-- now.Sub(createdAt) > ttl, which an entry in flight is not asked.
unfoldable pub expired : ℕ → ℕ → IdempotencyEntry → Bool
expired ttl now e = not e.in_flight && ltb (e.created_at + ttl) now

unfoldable pub drop_expired : ℕ → ℕ → Entries → Entries
drop_expired ttl now [] = []
drop_expired ttl now ((k, e) ∷ m) =
    if expired ttl now e then drop_expired ttl now m else (k, e) ∷ drop_expired ttl now m

-- pruneLocked
unfoldable pub prune : ℕ → Cache → Cache
prune now c = if c.ttl == 0 then c else record c { entries = drop_expired c.ttl now c.entries }

-- One round of the loop that looks for the oldest entry that is not in flight; `none` is `first`.
unfoldable pub older : Bytes → IdempotencyEntry → Option (Bytes × ℕ) → Option (Bytes × ℕ)
older k e none = some (k, e.created_at)
older k e (some best) = if ltb e.created_at best.1 then some (k, e.created_at) else some best

unfoldable pub oldest : Option (Bytes × ℕ) → Entries → Option (Bytes × ℕ)
oldest best [] = best
oldest best ((k, e) ∷ m) = oldest (if e.in_flight then best else older k e best) m

-- The loop of enforceCapLocked, on fuel. An oldest key that is empty ends it too.
unfoldable pub evict : ℕ → ℕ → Entries → Entries
evict zero max m = m
evict (suc n) max m = elim (ltb max (length m)) [
  | false ↦ m
  | true ↦ elim (oldest none m) [
    | none ↦ m
    | some b ↦ elim (length b.0 == 0) [ true ↦ m | false ↦ evict n max (delete b.0 m) ]
  ]
]

-- enforceCapLocked; each round takes an entry out.
unfoldable pub enforce_cap : Cache → Cache
enforce_cap c =
    if c.max_entries == 0
    then c
    else record c { entries = evict (length c.entries) c.max_entries c.entries }

-- getOrStart
unfoldable pub answer_for : IdempotencyEntry → Bytes → State
answer_for e req_hash =
    if not (bytes_eq e.req_hash req_hash)
    then mismatch
    else if e.in_flight
    then inflight
    else replay e.result

unfoldable pub get_or_start : ℕ → Bytes → Bytes → Cache → State × Cache
get_or_start now key req_hash c =
    let pruned = prune now c in
    elim (lookup key pruned.entries) [
      | some e ↦ (answer_for e req_hash, pruned)
      | none ↦ (
        start,
        enforce_cap (record pruned {
          entries =
              insert key
                (record {
                  created_at = now;
                  req_hash = req_hash;
                  in_flight = true;
                  result = no_answer;
                })
                pruned.entries;
        }),
      )
    ]

-- complete, without the file that it writes.
unfoldable pub complete : ℕ → Bytes → Bytes → Answer → Cache → Cache
complete now key req_hash result c =
    let pruned = prune now c in
    elim (lookup key pruned.entries) [
      | none ↦ pruned
      | some e ↦
          if not (bytes_eq e.req_hash req_hash)
          then record pruned { entries = delete key pruned.entries }
          else enforce_cap (record pruned {
            entries =
                insert key (record e { created_at = now; in_flight = false; result = result })
                  pruned.entries;
          })
    ]

-- abandon, without the file that it writes.
unfoldable pub abandon : Bytes → Cache → Cache
abandon key c = elim (lookup key c.entries) [
  | none ↦ c
  | some e ↦ record c { entries = delete key c.entries }
]
