-- ===== src/RateLimiter.antt =====
-- src/server/security/rate-limiter.ts: at most so many requests of a key and bucket in a minute.
pub mod Bound
mod Examples
use Prim.Native.String.{◌++◌ as join}
use mathlib.Core.Option.{get_or}
use chat2api_web_gateway.Prelude.{
  leb, ◌==◌, if◌then◌else◌, length, filter, head?, get, put, ℕ, ◌+◌, ◌-◌, String, Bool, true, false,
  List, [], ◌∷◌, ◌++◌,
}
use chat2api_web_gateway.ApiKeys.{StoredApiKey}
use chat2api_web_gateway.SlidingWindow.{is_recent}

pub record WindowState : Type 0 where
  pub timestamps : List ℕ

pub record RateLimitResult : Type 0 where
  pub allowed : Bool
  pub limit : ℕ
  pub remaining : ℕ
  pub reset_at : ℕ

pub record SlidingWindowRateLimiter : Type 0 where
  pub windows : List (String × WindowState)

abbrev pub window_ms : ℕ
window_ms = 60000

abbrev pub window_key : StoredApiKey → String → String
window_key key bucket = join key.id (join ":" bucket)

abbrev pub state_of : SlidingWindowRateLimiter → String → WindowState
state_of l k = get_or (get k l.windows) (record { timestamps = [] })

-- `timestamps[0] ? timestamps[0] + windowMs : now + windowMs`.
abbrev pub first_reset : List ℕ → ℕ → ℕ
first_reset [] now = now + window_ms
first_reset (t ∷ ts) now = if t == 0 then now + window_ms else t + window_ms

-- `(timestamps[0] ?? now) + windowMs`.
abbrev pub reset_after : List ℕ → ℕ → ℕ
reset_after times now = get_or (head? times) now + window_ms

unfoldable pub consume :
    SlidingWindowRateLimiter
    → StoredApiKey
    → ℕ
    → String
    → SlidingWindowRateLimiter × RateLimitResult
consume l key now bucket =
    let k = window_key key bucket in
    let timestamps = filter (is_recent window_ms now) (state_of l k).timestamps in
    if leb key.requests_per_minute (length timestamps)
    then (
      record { windows = put k (record { timestamps = timestamps }) l.windows },
      record {
        allowed = false;
        limit = key.requests_per_minute;
        remaining = 0;
        reset_at = first_reset timestamps now;
      },
    )
    else let pushed = timestamps ++ now ∷ [] in
      (
        record { windows = put k (record { timestamps = pushed }) l.windows },
        record {
          allowed = true;
          limit = key.requests_per_minute;
          remaining = key.requests_per_minute - length pushed;
          reset_at = reset_after pushed now;
        },
      )

-- The loop of `prune`: a window is set again with what is recent, or deleted if nothing is.
abbrev pub prune_windows : ℕ → List (String × WindowState) → List (String × WindowState)
prune_windows now [] = []
prune_windows now ((k, state) ∷ rest) =
    let timestamps = filter (is_recent window_ms now) state.timestamps in
    if length timestamps == 0
    then prune_windows now rest
    else (k, record { timestamps = timestamps }) ∷ prune_windows now rest

unfoldable pub prune : SlidingWindowRateLimiter → ℕ → SlidingWindowRateLimiter
prune l now = record { windows = prune_windows now l.windows }
