-- ===== src/SessionPool/Examples.antt =====
-- Runs of the pool, and the theorems at inputs that exercise it.
use mathlib.Core.Option
use chat2api_web_gateway.Prelude.{
  ◌==◌, find, get_elem?, get, put, remove, ℕ, ◌+◌, ◌<◌, ◌≡◌, refl, true, false, none, some, List,
  [], ◌∷◌, arith,
}
use chat2api_web_gateway.SessionPool.{
  DeepSeekSessionLease, SessionEntry, DeepSeekSessionPool, new_pool, entries_of, acquire_start,
  choose, release, World, Event, starts, resumes, creates, releases, step, run,
}
use chat2api_web_gateway.SessionPool.Counters.{tracked, still_owed, run-created}
use chat2api_web_gateway.SessionPool.Leases.{acquire-reuses-idle}
use chat2api_web_gateway.SessionPool.Race.{release-choose}

abbrev empty_world : World
empty_world = record { pool = new_pool; acquiring = [] }

-- "s0" is left idle until it has run out, "s1" was taken with no lifetime and is still in use, and
-- a third `acquire` waits for the deletion of "s0".
abbrev waiting : List Event
waiting =
    starts "k" 100 0
    ∷ creates "k" "s0"
    ∷ starts "k" 0 10
    ∷ creates "k" "s1"
    ∷ releases "k" "s0" 20
    ∷ starts "k" 100 500
    ∷ []

abbrev interrupted : World
interrupted = run empty_world waiting

-- The first `acquire` at 10 finds "s0" in use, so it creates "s1".
interrupted_state :
    (interrupted.pool.sessions ≡ ("k", 1 ∷ []) ∷ [])
    × (interrupted.pool.created ≡ 2)
    × (interrupted.pool.retired ≡ 1)
    × (get "k" interrupted.acquiring
        ≡ some (record {
          current_time = 500;
          ttl_ms = 100;
          available = 1 ∷ [];
          expired = [];
          creating = false;
        }))
unfolding run step new_pool get put remove
interrupted_state = (refl, refl, refl, refl)

-- Released at 510 and deleted, "s1" is handed out again.
reused_after_delete : (run interrupted (releases "k" "s1" 510 ∷ resumes "k" ∷ [])).pool.reused ≡ 1
unfolding run step new_pool get put remove
reused_after_delete = refl

run-created_example :
    interrupted.pool.created
    ≡ interrupted.pool.retired
      + interrupted.pool.invalidated
      + tracked interrupted
      + still_owed interrupted
run-created_example = run-created waiting

abbrev one_idle : DeepSeekSessionPool
one_idle = record new_pool {
  entries = record { session_id = "s0"; expires_at = 100; in_use = false } ∷ [];
  sessions = ("k", 0 ∷ []) ∷ [];
}

abbrev idle_entry : SessionEntry
idle_entry = record { session_id = "s0"; expires_at = 100; in_use = false }

abbrev lease_of_s0 : DeepSeekSessionLease
lease_of_s0 = record { session_id = "s0"; reused = true }

abbrev after_reuse : DeepSeekSessionPool
after_reuse = record one_idle { entries = record idle_entry { in_use = true } ∷ []; reused = 1 }

acquire-reuses-idle_example :
    (a : ℕ) × (e : SessionEntry) × (get_elem? one_idle.entries a ≡ some e)
    × (e.in_use ≡ false)
    × (50 < e.expires_at)
    × (lease_of_s0 ≡ record { session_id = e.session_id; reused = true })
    × (get_elem? after_reuse.entries a ≡ some (record e { in_use = true }))
    × (after_reuse.sessions ≡ (acquire_start one_idle "k" 100 50).0.sessions)
unfolding new_pool acquire_start choose get put
acquire-reuses-idle_example = acquire-reuses-idle one_idle after_reuse "k" 100 50 lease_of_s0 refl

release-choose_example :
    let (q, r) = release interrupted.pool "k" "s1" 510 in
    (r ≡ record { found = true; retired = true })
    × (find (λ b. b == 1) (entries_of q "k") ≡ none)
    × (Option.map
          (λ c. c.1)
          (choose q (record {
            current_time = 500;
            ttl_ms = 100;
            available = 1 ∷ [];
            expired = [];
            creating = false;
          }))
        ≡ some (record { session_id = "s1"; reused = true }))
unfolding run step new_pool get put remove
release-choose_example =
    release-choose interrupted.pool "k"
      (record {
        current_time = 500;
        ttl_ms = 100;
        available = 1 ∷ [];
        expired = [];
        creating = false;
      })
      1 [] [] (record { session_id = "s1"; expires_at = 10; in_use = true }) 510 refl tt tt refl
      (omega arith) refl
