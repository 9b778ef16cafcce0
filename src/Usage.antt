-- ===== src/Usage.antt =====
-- src/main/store/store.ts, the rolling usage window of an account: the table `account_usage_events`,
-- `getAccountUsageWindow` and `consumeAccountUsageWindow`. A thrown error is `none`; a transaction is
-- one function. Widths and limits are whole numbers, so `Math.floor` leaves them as they are.
pub mod Bound
pub mod Agreement
mod Examples
use chat2api_web_gateway.Prelude.{
  ltb, leb, ◌===◌, if◌then◌else◌, length, filter, ℕ, ◌+◌, ◌-◌, min, max, String, Bool, true, false,
  not, ◌&&◌, ◌||◌, Option, none, some, List, [], ◌∷◌, ◌++◌,
}
use chat2api_web_gateway.SlidingWindow.{is_recent}

pub record UsageEvent : Type 0 where
  pub account_id : String
  pub used_at : ℕ

pub record AccountUsageWindow : Type 0 where
  pub used : ℕ
  pub limit : Option ℕ
  pub remaining : Option ℕ
  pub reset_at : Option ℕ
  pub allowed : Bool

abbrev pub day_ms : ℕ
day_ms = 86400000

-- `usageWindowCutoff`: whether the width is accepted; the cutoff itself is `now - window_ms`.
abbrev pub is_width : ℕ → Bool
is_width window_ms = not (ltb window_ms 60000 || ltb day_ms window_ms)

-- The times of the rows `WHERE account_id = ? AND used_at > cutoff`.
abbrev pub selected : String → ℕ → ℕ → List UsageEvent → List ℕ
selected account window_ms now [] = []
selected account window_ms now (e ∷ es) =
    if e.account_id === account && is_recent window_ms now e.used_at
    then e.used_at ∷ selected account window_ms now es
    else selected account window_ms now es

-- `MIN(used_at)`.
abbrev pub oldest : List ℕ → Option ℕ
oldest [] = none
oldest (t ∷ ts) = elim (oldest ts) [ none ↦ some t | some o ↦ some (min t o) ]

abbrev pub plus : ℕ → Option ℕ → Option ℕ
plus n none = none
plus n (some m) = some (m + n)

unfoldable pub get_account_usage_window :
    List UsageEvent → String → ℕ → ℕ → Option AccountUsageWindow
get_account_usage_window events account window_ms now =
    if is_width window_ms
    then some (record {
      used = length (selected account window_ms now events);
      limit = none;
      remaining = none;
      reset_at = plus window_ms (oldest (selected account window_ms now events));
      allowed = true;
    })
    else none

-- `limit && limit > 0 ? Math.floor(limit) : undefined`.
abbrev pub normalized_limit : Option ℕ → Option ℕ
normalized_limit none = none
normalized_limit (some n) = if ltb 0 n then some n else none

abbrev pub is_reached : Option ℕ → ℕ → Bool
is_reached none used = false
is_reached (some limit) used = leb limit used

-- The rows that the clean-up deletes: `used_at <= now - Math.max(windowMs, 24 h)`.
abbrev pub is_stale : String → ℕ → ℕ → UsageEvent → Bool
is_stale account window_ms now e =
    e.account_id === account && leb (e.used_at + max window_ms day_ms) now

abbrev pub remaining_of : Option ℕ → ℕ → Option ℕ
remaining_of none used = none
remaining_of (some limit) used = some (limit - used)

unfoldable pub consume_account_usage_window :
    List UsageEvent → String → Option ℕ → ℕ → ℕ → Option (List UsageEvent × AccountUsageWindow)
consume_account_usage_window events account limit window_ms now =
    let bound = normalized_limit limit in
    let times = selected account window_ms now events in
    let reset = plus window_ms (oldest times) in
    if not (is_width window_ms)
    then none
    else if is_reached bound (length times)
    then some (
      events,
      record {
        used = length times;
        limit = bound;
        remaining = some 0;
        reset_at = reset;
        allowed = false;
      },
    )
    else some (
      filter (λ e. not (is_stale account window_ms now e))
          (events ++ record { account_id = account; used_at = now } ∷ []),
      record {
        used = length times + 1;
        limit = bound;
        remaining = remaining_of bound (length times + 1);
        reset_at = elim (oldest times) [ none ↦ some (now + window_ms) | some o ↦ reset ];
        allowed = true;
      },
    )
