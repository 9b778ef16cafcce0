-- ===== src/Usage/Agreement.antt =====
-- The two readings of the window, and what a call reports.
use mathlib.Core.Option
use chat2api_web_gateway.Prelude.{
  if◌then◌else◌, ===_refl, Bool-cases, length, ℕ, ◌+◌, String, ◌≡◌, inl, inr, not, Option, some,
  List, [], ◌∷◌, ◌++◌, arith,
}
use chat2api_web_gateway.Usage.{
  UsageEvent, AccountUsageWindow, selected, get_account_usage_window, normalized_limit, is_reached,
  consume_account_usage_window,
}
use chat2api_web_gateway.Usage.Bound.{selected-append, selected-clean}

-- A call is allowed exactly when `getAccountUsageWindow` reports less than the limit, if there is
-- one. It reports one more attempt exactly when it is allowed, and the table, read again at the
-- same time, agrees with what it reported.
pub consume-get :
    (events events' : List UsageEvent) (account : String) (limit : Option ℕ) (w now : ℕ)
    (before result : AccountUsageWindow)
    → get_account_usage_window events account w now ≡ some before
    → consume_account_usage_window events account limit w now ≡ some (events', result)
    → (result.allowed ≡ not (is_reached (normalized_limit limit) before.used))
      × (result.used ≡ (if result.allowed then before.used + 1 else before.used))
      × (Option.map (λ u. u.used) (get_account_usage_window events' account w now)
          ≡ some result.used)
unfolding consume_account_usage_window get_account_usage_window
consume-get events events' account limit w now before result e h =
    let added : UsageEvent = record { account_id = account; used_at = now } in
    elim (Bool-cases
      (is_reached (normalized_limit limit) (length (selected account w now events)))) [
        | inl full ↦ ground arith
        | inr free ↦ ground (
          arith,
          ===_refl account,
          selected-clean account account w now now (events ++ added ∷ []),
          selected-append account w now events (added ∷ []),
        )
      ]
