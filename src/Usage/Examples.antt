-- ===== src/Usage/Examples.antt =====
-- Runs of the usage window, and the theorems at inputs that exercise it.
use mathlib.Core.Option
use chat2api_web_gateway.Prelude.{
  if◌then◌else◌, ℕ, ◌+◌, ◌≤◌, String, ◌≡◌, refl, true, not, none, some, List, [], ◌∷◌, ◌++◌, arith,
}
use chat2api_web_gateway.SlidingWindow.{in_window}
use chat2api_web_gateway.Usage.{
  UsageEvent, AccountUsageWindow, get_account_usage_window, normalized_limit, is_reached,
  consume_account_usage_window,
}
use chat2api_web_gateway.Usage.Bound.{Call, attempts, in_window-attempts}
use chat2api_web_gateway.Usage.Agreement.{consume-get}

abbrev by : String → Call
by account = record { account = account; limit = some 2 }

abbrev calls : List (ℕ × Call)
calls =
    (0, by "a")
    ∷ (1000, by "a")
    ∷ (2000, by "a")
    ∷ (2000, by "b")
    ∷ (60000, by "a")
    ∷ (90000000, by "a")
    ∷ []

-- The third call is refused; after a minute one slot comes back.
calls-attempts : attempts 60000 "a" [] [] calls ≡ 90000000 ∷ 60000 ∷ 1000 ∷ 0 ∷ []
unfolding attempts consume_account_usage_window
calls-attempts = refl

in_window-attempts_example : in_window 60000 60500 (attempts 60000 "a" [] [] calls) ≤ 2
in_window-attempts_example = in_window-attempts 60000 "a" 2 0 60500 calls (ground arith)

abbrev rows : List UsageEvent
rows = record { account_id = "a"; used_at = 1000 } ∷ []

abbrev seen : AccountUsageWindow
seen = record { used = 1; limit = none; remaining = none; reset_at = some 61000; allowed = true }

abbrev reported : AccountUsageWindow
reported = record {
  used = 2;
  limit = some 2;
  remaining = some 0;
  reset_at = some 61000;
  allowed = true;
}

abbrev rows_after : List UsageEvent
rows_after = rows ++ record { account_id = "a"; used_at = 2000 } ∷ []

consume-get_example :
    (reported.allowed ≡ not (is_reached (normalized_limit (some 2)) seen.used))
    × (reported.used ≡ (if reported.allowed then seen.used + 1 else seen.used))
    × (Option.map (λ u. u.used) (get_account_usage_window rows_after "a" 60000 2000)
        ≡ some reported.used)
unfolding consume_account_usage_window get_account_usage_window
consume-get_example = consume-get rows rows_after "a" (some 2) 60000 2000 seen reported refl refl
