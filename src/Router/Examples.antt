-- ===== src/Router/Examples.antt =====
-- The theorems on the router at inputs that exercise them.
use mathlib.Core.List.{Perm}
use chat2api_web_gateway.Prelude.{
  leb, ◌===◌, if◌then◌else◌, All, get, put, ℕ, ◌+◌, ◌*◌, ◌≤◌, ◌<◌, min, String, ◌≡◌, refl, Bool,
  true, false, Option, none, some, List, [], ◌∷◌, map, arith,
}
use chat2api_web_gateway.Concurrency.{new_gate, try_acquire, release}
use chat2api_web_gateway.Usage.{get_account_usage_window, consume_account_usage_window}
use chat2api_web_gateway.Router.Types.{
  active, round_robin, Account, Provider, AccountSelection, ChatCompletionRequest, ProxyContext,
  CircuitState, Hooks, ProviderRoutingEngine, ForwardResult,
}
use chat2api_web_gateway.Router.Circuits.{
  record_failure, record_success, is_closed, status_code, can_fail_over,
}
use chat2api_web_gateway.Router.Circuits.Bounds.{
  record_failure_opens, record_success-record_failure,
}
use chat2api_web_gateway.Router.Candidates.{
  distinct_identities, usable_provider, active_accounts, select, get_candidates, order_candidates,
  code_or_unavailable, unavailable_routing_failure,
}
use chat2api_web_gateway.Router.Candidates.Laws.{IsUsable, HasNoTwin, get_candidates-IsUsable}
use chat2api_web_gateway.Router.Candidates.Order.{IsOrderOf, order_candidates-IsOrderOf}
use chat2api_web_gateway.Router.Candidates.Failure.{
  IsOutUntil, eligible, IsCircuitOf, unavailable-eligible,
}
use chat2api_web_gateway.Router.Failover.{
  handle_account_failure, Progress, at_start, Outcome, routed, Surroundings, after_failure,
  after_success,
}
use chat2api_web_gateway.Router.Forward.Returns.{forward-returns}
use chat2api_web_gateway.Router.Forward.{after_reservation, settled_reservation, pass_once, forward}
use chat2api_web_gateway.Router.Forward.Fresh.{GoesOn, IsUntried, pass_once-IsFresh}
use chat2api_web_gateway.Router.Reserve.{
  set_gate, id_of, try_candidate, try_candidates, idle_accounts, reserve_background_candidate,
  reserve_candidate,
}
use chat2api_web_gateway.Router.Reserve.Background.{reserve_background_candidate-idle}

abbrev account : String → ℕ → Account
account id created_at = record {
  id = id;
  provider_id = "deepseek";
  name = id;
  email = none;
  credentials = [];
  status = active;
  last_used = none;
  created_at = created_at;
  updated_at = created_at;
  error_message = none;
  request_count = none;
  daily_limit = some 20;
  today_used = none;
  usage_window_used = none;
  usage_window_reset_at = none;
}

abbrev deepseek : Provider
deepseek = record {
  id = "deepseek";
  name = "DeepSeek";
  enabled = true;
  created_at = 0;
  updated_at = 0;
  supported_models = "deepseek-chat" ∷ [];
}

abbrev engine : List (String × CircuitState) → ProviderRoutingEngine
engine circuits = record {
  config = record {
    account_concurrency = 2;
    background_account_reserve = 1;
    background_usage_reserve = 5;
    account_usage_window_ms = 86400000;
    queue_max_depth = 10;
    queue_timeout_ms = 30000;
  };
  store = record {
    provider = some deepseek;
    accounts = account "a" 1 ∷ account "b" 2 ∷ [];
    events = record { account_id = "a"; used_at = 500 } ∷ [];
    strategy = round_robin;
  };
  account_gates = [];
  circuits = circuits;
  round_robin_cursor = 1;
}

abbrev hooks : Hooks
hooks = record { to_lower_case = λ s. s; fingerprint = λ id. none }

abbrev request : ChatCompletionRequest
request = record { model = "deepseek-chat"; stream = true }

abbrev circuit : ℕ → CircuitState
circuit until = record { failures = 3; opened_until = until; code = some "provider_rate_limited" }

abbrev shut : ProviderRoutingEngine
shut = engine (("a", circuit 9000) ∷ ("b", circuit 7500) ∷ [])

-- The account whose circuit opens first decides the answer.
shut_failure :
    unavailable_routing_failure hooks shut request 1000
    ≡ record { status = 429; code = "provider_rate_limited"; retry_after_seconds = some 7 }
unfolding unavailable_routing_failure get_account_usage_window get
shut_failure = refl

unavailable-eligible_example :
    let failure = unavailable_routing_failure hooks shut request 1000 in
    (c : CircuitState) × (seconds : ℕ) × IsCircuitOf shut 1000 (eligible shut 1000) c
    × All (IsOutUntil shut c.opened_until) (eligible shut 1000)
    × (failure.code ≡ code_or_unavailable c.code)
    × (failure.retry_after_seconds ≡ some seconds)
    × (c.opened_until ≤ 1000 + seconds * 1000)
    × (1000 + seconds * 1000 < c.opened_until + 1000)
unfolding usable_provider get_candidates active_accounts get_account_usage_window get
    distinct_identities
unavailable-eligible_example =
    unavailable-eligible hooks shut request 1000 deepseek refl refl (ground arith)

get_candidates-IsUsable_example :
    let e = engine (("a", circuit 9000) ∷ []) in
    All (λ s. IsUsable e 1000 s.account) (get_candidates hooks e request 1000)
    × HasNoTwin hooks [] (map (λ s. s.account) (get_candidates hooks e request 1000))
get_candidates-IsUsable_example =
    get_candidates-IsUsable hooks (engine (("a", circuit 9000) ∷ [])) request 1000

abbrev candidates : List AccountSelection
candidates =
    select hooks request deepseek (account "a" 1)
    ∷ select hooks request deepseek (account "b" 2)
    ∷ []

order_candidates-IsOrderOf_example :
    let (ys, e') = order_candidates (engine []) candidates in
    Perm ys candidates × IsOrderOf round_robin 1 candidates ys e'.round_robin_cursor
order_candidates-IsOrderOf_example = order_candidates-IsOrderOf (engine []) candidates

-- With "a" busy the one idle account is the reserve, and the place is taken on "a".
abbrev half_busy : ProviderRoutingEngine
half_busy =
    set_gate (engine []) "a"
      (record (new_gate 2 10 60000) { active = 1; held = 0 ∷ []; next_permit = 1 })

reserve_background_candidate-idle_example :
    let (e', outcome) = reserve_background_candidate half_busy candidates 1000 in
    min 1 (idle_accounts half_busy candidates) ≤ idle_accounts e' candidates
unfolding get
reserve_background_candidate-idle_example =
    reserve_background_candidate-idle half_busy candidates 1000 ((refl, tt), (tt, tt))

record_failure_opens_example :
    let (circuits', state) = record_failure [] 1000 "a" 429 (some 5000) none in
    (state.failures ≡ 1)
    × ((t : ℕ) → is_closed circuits' t "a" ≡ leb state.opened_until t)
    × (true ≡ true → (1000 + 1000 ≤ state.opened_until) × (state.opened_until ≤ 1000 + 900000))
    × ((other : String) → ("a" === other) ≡ false → get other circuits' ≡ get other [])
unfolding get
record_failure_opens_example = record_failure_opens [] 1000 "a" 429 (some 5000) none

abbrev one_open : List (String × CircuitState)
one_open = ("a", circuit 9000) ∷ []

record_success-record_failure_example :
    (is_closed (record_success one_open "a") 1000 "a" ≡ true)
    × (is_closed (record_failure (record_success one_open "a") 1000 "a" 502 none none).0 1000 "a"
        ≡ true)
record_success-record_failure_example =
    record_success-record_failure one_open 1000 1000 "a" 502 none none refl

abbrev context : ProxyContext
context = record { request_id = "r"; signal = none; priority = none }

abbrev answer : Bool → ForwardResult
answer success = record {
  success = success;
  status = if success then none else some 503;
  code = none;
  retry_after_ms = none;
  stream = some 7;
  latency = some 40;
}

abbrev surroundings : ℕ → Bool → Surroundings
surroundings now success = record {
  started = now;
  while_queued = λ e. e;
  answer = none;
  woken = now;
  is_aborted = false;
  while_forwarding = λ e. e;
  result = answer success;
  answered = now + 50;
  while_priming = λ e. e;
  primed = some 7;
  primed_at = now + 60;
}

abbrev account_of : Option Outcome → String
account_of (some (routed r)) = id_of r.selection
account_of _ = ""

-- The first account fails with 503, and the request goes to the other.
fails_over :
    account_of
      (forward hooks request context
        (engine [])
        1000
        (surroundings 1000 false ∷ surroundings 1100 true ∷ [])).1
    ≡ "a"
unfolding new_gate forward pass_once reserve_candidate try_candidates try_candidate
    after_reservation after_failure after_success consume_account_usage_window
    get_account_usage_window try_acquire release get put handle_account_failure record_failure
    order_candidates get_candidates distinct_identities settled_reservation usable_provider
    status_code can_fail_over
fails_over = refl

abbrev tried_b : Progress
tried_b = record at_start { attempts = 1; attempted_accounts = "b" ∷ [] }

pass_once-IsFresh_example :
    GoesOn
      (IsUntried tried_b)
      tried_b
      (pass_once hooks request context (engine []) (surroundings 1000 true) tried_b).1
pass_once-IsFresh_example =
    pass_once-IsFresh hooks request context (engine []) (surroundings 1000 true) tried_b

abbrev failing : List Surroundings
failing = surroundings 1000 false ∷ surroundings 1100 false ∷ surroundings 1200 false ∷ []

forward-returns_example :
    (outcome : Outcome) × ((forward hooks request context (engine []) 1000 failing).1
      ≡ some outcome)
forward-returns_example =
    forward-returns hooks request context (engine []) 1000 failing
      (
        ((λ e. refl), (λ e. refl), (λ e. refl)),
        (((λ e. refl), (λ e. refl), (λ e. refl)), (((λ e. refl), (λ e. refl), (λ e. refl)), tt)),
      )
      (ground arith)
