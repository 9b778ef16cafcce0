-- ===== src/Router/Candidates.antt =====
-- The accounts that a request may use, in the order in which they are tried, and the answer when
-- there is none.
pub mod Laws
pub mod Order
pub mod Failure
use mathlib.Core.Option.{get_or}
use chat2api_web_gateway.Prelude.{
  ltb, leb, ◌==◌, ◌===◌, if◌then◌else◌, ceil_div, length, filter, find, any, take, drop, head?,
  sort_by, get, ℕ, ◌+◌, ◌-◌, ◌%◌, max, String, Bool, true, false, not, ◌&&◌, Option, none, some,
  List, [], ◌∷◌, ◌++◌, map,
}
use chat2api_web_gateway.Usage.{AccountUsageWindow, get_account_usage_window, normalized_limit}
use chat2api_web_gateway.Router.Types.{
  active, LoadBalanceStrategy, round_robin, least_used, failover, Account, Provider,
  AccountSelection, ChatCompletionRequest, RoutingFailure, CircuitState, Hooks,
  ProviderRoutingEngine,
}
use chat2api_web_gateway.Router.Circuits.{is_closed}

abbrev pub is_active : Account → Bool
is_active a = elim a.status [ active ↦ true | _ ↦ false ]

-- `core/config.ts` accepts no width for which the store throws.
abbrev pub usage_of : ProviderRoutingEngine → ℕ → String → AccountUsageWindow
usage_of e now id =
    get_or (get_account_usage_window e.store.events id e.config.account_usage_window_ms now)
      (record { used = 0; limit = none; remaining = none; reset_at = none; allowed = true })

abbrev pub with_usage : ProviderRoutingEngine → ℕ → Account → Account
with_usage e now a = record a {
  usage_window_used = some (usage_of e now a.id).used;
  usage_window_reset_at = (usage_of e now a.id).reset_at;
}

-- `!account.dailyLimit || (account.usageWindowUsed ?? 0) < account.dailyLimit`.
abbrev pub has_capacity : Account → Bool
has_capacity a = elim (normalized_limit a.daily_limit) [
  | none ↦ true
  | some limit ↦ ltb (get_or a.usage_window_used 0) limit
]

abbrev pub contains : String → List String → Bool
contains s = any (λ t. t === s)

-- `undefined` and the empty text are both falsy.
abbrev pub identity_of : Hooks → Account → String
identity_of hooks a = get_or (hooks.fingerprint a.id) ""

-- The filter that keeps the first account of each provider identity.
unfoldable pub distinct_identities : Hooks → List String → List Account → List Account
distinct_identities hooks seen [] = []
distinct_identities hooks seen (a ∷ rest) =
    let unknown = a ∷ distinct_identities hooks seen rest in
    let twin = distinct_identities hooks seen rest in
    let first = a ∷ distinct_identities hooks (identity_of hooks a ∷ seen) rest in
    if identity_of hooks a === ""
    then unknown
    else if contains (identity_of hooks a) seen
    then twin
    else first

unfoldable pub provider_supports_model : Hooks → Provider → String → Bool
provider_supports_model hooks p model =
    any (λ m. hooks.to_lower_case m === hooks.to_lower_case model) p.supported_models

unfoldable pub map_model : Hooks → String → Provider → String
map_model hooks model p =
    get_or (find (λ m. hooks.to_lower_case m === hooks.to_lower_case model) p.supported_models)
      model

-- `!provider?.enabled || !providerSupportsModel(…)` is the case `none`.
unfoldable pub usable_provider :
    Hooks → ProviderRoutingEngine → ChatCompletionRequest → Option Provider
unfolding provider_supports_model
usable_provider hooks e request = elim e.store.provider [
  | none ↦ none
  | some p ↦ if p.enabled && provider_supports_model hooks p request.model then some p else none
]

-- The accounts that are active, with their use of the window.
unfoldable pub active_accounts : ProviderRoutingEngine → ℕ → List Account
active_accounts e now = map (with_usage e now) (filter is_active e.store.accounts)

abbrev pub select : Hooks → ChatCompletionRequest → Provider → Account → AccountSelection
select hooks request p a = record {
  account = a;
  provider = p;
  actual_model = map_model hooks request.model p;
}

unfoldable pub get_candidates :
    Hooks → ProviderRoutingEngine → ChatCompletionRequest → ℕ → List AccountSelection
unfolding usable_provider active_accounts
get_candidates hooks e request now = elim (usable_provider hooks e request) [
  | none ↦ []
  | some p ↦ map (select hooks request p) (
      distinct_identities hooks []
        (filter (λ a. is_closed e.circuits now a.id) (filter has_capacity (active_accounts e now))))
]

abbrev pub sort_key : LoadBalanceStrategy → AccountSelection → ℕ
sort_key least_used s = get_or s.account.usage_window_used 0
sort_key round_robin s = s.account.created_at
sort_key failover s = s.account.created_at

-- The candidates in the order of a strategy, and the cursor after it.
unfoldable pub order_with :
    LoadBalanceStrategy → ℕ → List AccountSelection → List AccountSelection × ℕ
order_with least_used cursor candidates = (sort_by (sort_key least_used) candidates, cursor)
order_with failover cursor candidates = (sort_by (sort_key failover) candidates, cursor)
order_with round_robin cursor candidates =
    let sorted = sort_by (sort_key round_robin) candidates in
    if leb (length sorted) 1
    then (sorted, cursor)
    else let offset = cursor % length sorted in
      (drop offset sorted ++ take offset sorted, cursor + 1)

unfoldable pub order_candidates :
    ProviderRoutingEngine → List AccountSelection → List AccountSelection × ProviderRoutingEngine
unfolding order_with
order_candidates e candidates =
    let (ordered, cursor) = order_with e.store.strategy e.round_robin_cursor candidates in
    (ordered, record e { round_robin_cursor = cursor })

-- `.filter((value) => typeof value === 'number' && value > now)`.
abbrev pub later_than : ℕ → List (Option ℕ) → List ℕ
later_than now [] = []
later_than now (none ∷ rest) = later_than now rest
later_than now (some t ∷ rest) = if ltb now t then t ∷ later_than now rest else later_than now rest

-- `.sort((left, right) => left - right)[0]`.
abbrev pub earliest : List ℕ → Option ℕ
earliest times = head? (sort_by (λ t. t) times)

-- `Math.max(1, Math.ceil((until - now) / 1000))`.
abbrev pub seconds_until : ℕ → ℕ → ℕ
seconds_until now until = max 1 (ceil_div (until - now) 1000)

-- The circuits of the accounts that are open.
abbrev pub open_circuits : ProviderRoutingEngine → ℕ → List Account → List CircuitState
open_circuits e now [] = []
open_circuits e now (a ∷ rest) = elim (get a.id e.circuits) [
  | none ↦ open_circuits e now rest
  | some c ↦
      if ltb now c.opened_until then c ∷ open_circuits e now rest else open_circuits e now rest
]

abbrev pub code_or_unavailable : Option String → String
code_or_unavailable none = "provider_unavailable"
code_or_unavailable (some c) = if c === "" then "provider_unavailable" else c

abbrev pub failure_status : String → ℕ
failure_status code =
    if code === "provider_rate_limited"
    then 429
    else if code === "provider_timeout"
    then 504
    else 503

abbrev pub no_available_account : RoutingFailure
no_available_account = record {
  status = 503;
  code = "no_available_account";
  retry_after_seconds = none;
}

abbrev pub window_exhausted : ProviderRoutingEngine → ℕ → List Account → RoutingFailure
window_exhausted e now accounts = record {
  status = 429;
  code = "account_usage_window_exhausted";
  retry_after_seconds = some (
      seconds_until now (
        get_or (earliest (later_than now (map (λ a. a.usage_window_reset_at) accounts)))
          (now + e.config.account_usage_window_ms)));
}

abbrev pub circuits_open : ℕ → CircuitState → RoutingFailure
circuits_open now c = record {
  status = failure_status (code_or_unavailable c.code);
  code = code_or_unavailable c.code;
  retry_after_seconds = some (seconds_until now c.opened_until);
}

unfoldable pub unavailable_routing_failure :
    Hooks → ProviderRoutingEngine → ChatCompletionRequest → ℕ → RoutingFailure
unfolding usable_provider active_accounts
unavailable_routing_failure hooks e request now = elim (usable_provider hooks e request) [
  | none ↦ no_available_account
  | some p ↦
      let accounts = active_accounts e now in
      let eligible = filter has_capacity accounts in
      let opened = open_circuits e now eligible in
      if ltb 0 (length accounts) && length eligible == 0
      then window_exhausted e now accounts
      else if length eligible == 0
      then no_available_account
      else if not (length opened == length eligible)
      then no_available_account
      else elim (head? (sort_by (λ c. c.opened_until) opened)) [
        | none ↦ no_available_account
        | some c ↦ circuits_open now c
      ]
]
