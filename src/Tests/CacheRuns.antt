-- ===== src/Tests/CacheRuns.antt =====
-- The chain state and the request cache: runs, and the theorems on them.
use blocknet_core.Prelude.{
  ℕ, ◌≤◌, ◌≡◌, ◌≢◌, ◌⊎◌, inr, refl, [], ◌∷◌, Bytes, Bool, true, false, some, arith, length, All,
  bytes_eq, if◌then◌else◌,
}
use blocknet_core.Prelude.Maps.{lookup, insert, delete}
use blocknet_core.Idempotency.{
  IdempotencyEntry, Cache, start, inflight, mismatch, replay, expired, drop_expired, prune, older,
  oldest, evict, enforce_cap, answer_for, get_or_start, complete, abandon,
}
use blocknet_core.Idempotency.Histories.{Call, asks, completes, apply, Leads, stay, call, one_start}
use blocknet_core.Idempotency.Cap.{InFlight, enforce_cap_bound}
use blocknet_core.Idempotency.Replay.{HasRoom, InTime, get_or_start-complete}

unfoldable pub requests : Unit {0}
unfolding lookup insert delete bytes_eq expired drop_expired prune older oldest evict enforce_cap
    answer_for get_or_start complete abandon
requests = tt

abbrev empty_cache : Cache
empty_cache = record { ttl = 1000; max_entries = 1; entries = [] }

-- A request starts, and another one starts and is completed meanwhile.
started : Cache
unfolding requests
started = (get_or_start 10 (1 ∷ []) (9 ∷ []) empty_cache).1

start_run : get_or_start 10 (1 ∷ []) (9 ∷ []) empty_cache ≡ (start, started)
unfolding requests started
start_run = refl

abbrev first_call : Call
first_call = asks 20 (2 ∷ []) (8 ∷ [])

abbrev second_call : Call
second_call = completes 5000 (2 ∷ []) (8 ∷ []) (record { status = 200; body = 5 ∷ [] })

later_cache : Cache
later_cache = apply second_call (apply first_call started)

other_request : ◌≢◌ {A = Bytes} (2 ∷ []) (1 ∷ [])
other_request e = absurd (cc e)

reached : Leads (1 ∷ []) started later_cache
unfolding later_cache
reached =
    call started later_cache first_call tt
      (call (apply first_call started) later_cache second_call other_request (stay later_cache))

one_start_example :
    (get_or_start 9000 (1 ∷ []) (9 ∷ []) later_cache).0
    ≡ (if bytes_eq (9 ∷ []) (9 ∷ []) then inflight else mismatch)
one_start_example = one_start 10 (1 ∷ []) (9 ∷ []) empty_cache start_run reached 9000 (9 ∷ [])

abbrev entry_at : ℕ → Bool → IdempotencyEntry
entry_at t flying = record {
  created_at = t;
  req_hash = 9 ∷ [];
  in_flight = flying;
  result = record { status = 200; body = [] };
}

abbrev full_cache : Cache
full_cache = record {
  ttl = 1000;
  max_entries = 1;
  entries =
      (1 ∷ [], entry_at 10 true) ∷ (2 ∷ [], entry_at 30 false) ∷ (3 ∷ [], entry_at 20 false) ∷ [];
}

enforce_cap_bound_example :
    (length (enforce_cap full_cache).entries ≤ full_cache.max_entries)
    ⊎ All InFlight (enforce_cap full_cache).entries
enforce_cap_bound_example = enforce_cap_bound full_cache (omega arith) (refl, (refl, (refl, tt)))

full_cache_keeps :
    enforce_cap full_cache ≡ record full_cache { entries = (1 ∷ [], entry_at 10 true) ∷ [] }
unfolding requests
full_cache_keeps = refl

flying_there :
    lookup (1 ∷ []) started.entries
    ≡ some (record (entry_at 10 true) { result = record { status = 0; body = [] } })
unfolding requests started
flying_there = refl

started_room : HasRoom started
unfolding requests started
started_room = inr (omega arith)

started-InTime : InTime started 100 900
unfolding requests started
started-InTime = inr (omega arith)

get_or_start-complete_example :
    (get_or_start 900
      (1 ∷ [])
      (9 ∷ [])
      (complete 100 (1 ∷ []) (9 ∷ []) (record { status = 201; body = 4 ∷ [] }) started)).0
    ≡ replay (record { status = 201; body = 4 ∷ [] })
get_or_start-complete_example =
    get_or_start-complete 100 900 (1 ∷ []) (9 ∷ []) (record { status = 201; body = 4 ∷ [] }) started
      (record (entry_at 10 true) { result = record { status = 0; body = [] } }) flying_there refl
      refl started_room started-InTime
