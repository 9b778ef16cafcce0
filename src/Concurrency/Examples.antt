-- ===== src/Concurrency/Examples.antt =====
-- Runs of the gate, and the theorems at inputs that exercise it.
use chat2api_web_gateway.Prelude.{
  ltb, ℕ, ◌≡◌, refl, Option, none, some, List, [], ◌∷◌, ◌++◌, map, arith,
}
use chat2api_web_gateway.Concurrency.{
  Priority, foreground, background, Waiter, release_of, unavailable, ConcurrencyGate, new_gate,
  shift, serve, drain_rounds, erase, release, Event, tries, acquires, releases, aborts, step, run,
}
use chat2api_web_gateway.Concurrency.Invariant.{IsValid, IsBusy, drain_rounds-done, run-new_gate}
use chat2api_web_gateway.Concurrency.Handover.{release-serves_first, release-run-release}
use chat2api_web_gateway.Concurrency.Settlement.{one_if, standing, run-new_gate-standing}

abbrev asks : Priority → Option ℕ → Event
asks p s = acquires (record { priority = some p; signal = s; timeout_ms = none })

-- Two run, then a background and two foreground requests wait, and one of these is aborted.
abbrev history : List Event
history =
    asks foreground none
    ∷ tries
    ∷ asks background (some 7)
    ∷ asks foreground (some 8)
    ∷ asks foreground none
    ∷ aborts 8
    ∷ []

abbrev crowded : ConcurrencyGate
crowded = run (new_gate 2 5 60000) history

crowded_queue :
    (map (λ w. w.identity) crowded.foreground ≡ 3 ∷ [])
    × (map (λ w. w.identity) crowded.background ≡ 1 ∷ [])
    × (crowded.settled ≡ (0, release_of 0) ∷ (2, unavailable) ∷ [])
unfolding new_gate run step
crowded_queue = (refl, refl, refl)

-- The foreground request is served first, though the background one came before it.
released_order :
    (run crowded (releases 1 ∷ releases 0 ∷ [])).settled
    ≡ (0, release_of 0) ∷ (2, unavailable) ∷ (3, release_of 2) ∷ (1, release_of 3) ∷ []
unfolding new_gate run step drain_rounds shift serve
released_order = refl

crowded-IsValid : IsValid crowded × IsBusy crowded
crowded-IsValid = run-new_gate 2 5 60000 history

run-new_gate_example : IsValid crowded × IsBusy crowded
run-new_gate_example = run-new_gate 2 5 60000 history

drain_rounds-done_example : IsValid (drain_rounds 3 crowded) × IsBusy (drain_rounds 3 crowded)
unfolding new_gate run step
drain_rounds-done_example = drain_rounds-done 3 crowded (omega arith) crowded-IsValid.0

abbrev first_waiter : Waiter
first_waiter = record { identity = 3; priority = foreground; signal = none; timeout = some 60000 }

abbrev second_waiter : Waiter
second_waiter = record {
  identity = 1;
  priority = background;
  signal = some 7;
  timeout = some 60000;
}

release-serves_first_example :
    ((release crowded 0).foreground ++ (release crowded 0).background ≡ second_waiter ∷ [])
    × ((release crowded 0).settled ≡ crowded.settled ++ (3, release_of crowded.next_permit) ∷ [])
    × ((release crowded 0).held ≡ crowded.next_permit ∷ erase 0 crowded.held)
    × ((release crowded 0).active ≡ crowded.active)
unfolding new_gate run step
release-serves_first_example =
    release-serves_first crowded 0 first_waiter (second_waiter ∷ []) crowded-IsValid.0
      crowded-IsValid.1 refl refl refl

release-run-release_example :
    release (run (release crowded 0) (releases 1 ∷ [])) 0
    ≡ run (release crowded 0) (releases 1 ∷ [])
unfolding new_gate run step
release-run-release_example = release-run-release crowded 0 (releases 1 ∷ []) crowded-IsValid.0 refl

run-new_gate-standing_example : standing crowded 2 ≡ one_if (ltb 2 crowded.next_waiter)
run-new_gate-standing_example = run-new_gate-standing 2 5 60000 history 2
