-- ===== src/Router/Failover.antt =====
-- How `forward` takes the end of an attempt: the records of a failure, the first chunk of a stream,
-- the answer when the loop was left, and the release of a routed result.
use mathlib.Core.Option
use mathlib.Core.Option.{get_or}
use chat2api_web_gateway.Prelude.{
  ltb, ◌==◌, ◌===◌, if◌then◌else◌, any, ℕ, ◌+◌, min, String, Bool, true, false, not, ◌&&◌, Option,
  none, some, List, [], map,
}
use chat2api_web_gateway.Router.Candidates.{contains, get_candidates, seconds_until}
use chat2api_web_gateway.Router.Reserve.{id_of, release_account}
use chat2api_web_gateway.Router.Types.{
  active, error, Account, AccountSelection, ChatCompletionRequest, RoutingFailure, CircuitState,
  AccountFailureOutcome, Hooks, ProviderRoutingEngine, Suspension, ForwardResult,
  ForwardStreamOutcome, RoutedResult,
}
use chat2api_web_gateway.Router.Circuits.{
  is_code, record_failure, record_success, status_code, can_fail_over,
}

-- `store.updateAccount` on the row with that identifier.
abbrev pub update_account :
    ProviderRoutingEngine → String → ℕ → (Account → Account) → ProviderRoutingEngine
update_account e id now updates = record e {
  store = record (e.store) {
    accounts =
        map (λ a. if a.id === id then record (updates a) { updated_at = now } else a)
          e.store.accounts;
  };
}

abbrev pub fail_account : ProviderRoutingEngine → String → ℕ → String → ProviderRoutingEngine
fail_account e id now message =
    update_account e id now (λ a. record a { status = error; error_message = some message })

abbrev pub suspended_message : String
suspended_message = "The DeepSeek account is temporarily suspended by the provider."

-- The last part is the call of `onAccountSuspended`, if there is one.
unfoldable pub handle_account_failure :
    ProviderRoutingEngine
    → AccountSelection
    → AccountFailureOutcome
    → ℕ
    → ProviderRoutingEngine × CircuitState × Option Suspension
unfolding record_failure
handle_account_failure e s failure now =
    let (circuits, circuit) =
      record_failure e.circuits now s.account.id failure.status failure.retry_after_ms
        (some failure.code) in
    let e' = record e { circuits = circuits } in
    if failure.code === "provider_account_suspended"
    then (
      fail_account e' s.account.id now suspended_message,
      circuit,
      some (record {
        account_id = s.account.id;
        message = suspended_message;
        retry_at = Option.map (λ ms. now + ms) failure.retry_after_ms;
        latency_ms = failure.latency_ms;
      }),
    )
    else if failure.code === "provider_authentication_failed"
    then (
      fail_account e' s.account.id now "Provider authentication requires attention.",
      circuit,
      none,
    )
    else (e', circuit, none)

-- The variables of `forward` outside its loop.
pub record Progress : Type 0 where
  pub attempts : ℕ
  pub last_status : ℕ
  pub last_code : String
  pub rate_limit_retry_at : Option ℕ
  pub suspension_retry_at : Option ℕ
  pub attempted_accounts : List String

abbrev pub at_start : Progress
at_start = record {
  attempts = 0;
  last_status = 502;
  last_code = "provider_unavailable";
  rate_limit_retry_at = none;
  suspension_retry_at = none;
  attempted_accounts = [];
}

pub data Outcome : Type 0 where
  routed : RoutedResult → Outcome
  failed : RoutingFailure → Outcome

-- How a pass through the body of the loop ends.
pub data Pass : Type 0 where
  continues : Progress → Pass
  breaks : Progress → ℕ → Pass
  returns : Outcome → Pass

-- What surroundings bring to one pass: the times, what other requests do to the engine during each
-- await, the answer of a gate's promise, and those of the provider and of `primeStream`.
pub record Surroundings : Type 0 where
  pub started : ℕ
  pub while_queued : ProviderRoutingEngine → ProviderRoutingEngine
  pub answer : Option ℕ
  pub woken : ℕ
  pub is_aborted : Bool
  pub while_forwarding : ProviderRoutingEngine → ProviderRoutingEngine
  pub result : ForwardResult
  pub answered : ℕ
  pub while_priming : ProviderRoutingEngine → ProviderRoutingEngine
  pub primed : Option ℕ
  pub primed_at : ℕ

-- `current === undefined ? next : Math.min(current, next)`.
abbrev pub sooner : Option ℕ → ℕ → Option ℕ
sooner none next = some next
sooner (some current) next = some (min current next)

-- The retry times that a failure leaves.
unfoldable pub note_retry : Progress → ℕ → Option ℕ → ℕ → Progress
note_retry p opened_until retry_after_ms now = record p {
  rate_limit_retry_at =
      if p.last_status == 429 && ltb 0 opened_until
      then sooner p.rate_limit_retry_at opened_until
      else p.rate_limit_retry_at;
  suspension_retry_at =
      if p.last_code === "provider_account_suspended"
      then elim retry_after_ms [
        | none ↦ p.suspension_retry_at
        | some ms ↦ sooner p.suspension_retry_at (now + ms)
      ]
      else p.suspension_retry_at;
}

-- Whether a candidate is left that was not tried.
abbrev pub has_untried :
    Hooks → ProviderRoutingEngine → ChatCompletionRequest → ℕ → List String → Bool
has_untried hooks e request now attempted =
    any (λ s. not (contains (id_of s) attempted)) (get_candidates hooks e request now)

-- The branch of `!result.success`, the place being given back before it.
unfoldable pub after_failure :
    Hooks
    → ChatCompletionRequest
    → ProviderRoutingEngine
    → AccountSelection
    → ForwardResult
    → ℕ
    → Progress
    → ProviderRoutingEngine × Pass × Option Suspension
unfolding note_retry
after_failure hooks request e s result now p =
    let status = get_or result.status 502 in
    let code = get_or result.code (status_code status) in
    let p' = record p { last_status = status; last_code = code } in
    let (circuits, busy) =
      record_failure e.circuits now s.account.id status result.retry_after_ms (some code) in
    let e' = record e { circuits = circuits } in
    let (e'', circuit, call) =
      handle_account_failure e s
        (record {
          status = status;
          code = code;
          retry_after_ms = result.retry_after_ms;
          latency_ms = get_or result.latency 0;
        })
        now in
    let noted = note_retry p' circuit.opened_until result.retry_after_ms now in
    if code === "invalid_media_input"
    then (
      e,
      returns (failed (record { status = status; code = code; retry_after_seconds = none })),
      none,
    )
    else if code === "provider_expert_busy"
    then (
      e',
      (if ltb p.attempts 2 && has_untried hooks e' request now p.attempted_accounts
          then continues p'
          else returns (
              failed (record {
                status = 503;
                code = code;
                retry_after_seconds = some (seconds_until now busy.opened_until);
              }))),
      none,
    )
    else (e'', (if can_fail_over status then continues noted else breaks noted now), call)

-- The branch of a success: a stream must give its first chunk before it is handed on.
unfoldable pub after_success :
    ChatCompletionRequest
    → ProviderRoutingEngine
    → AccountSelection
    → ℕ
    → Surroundings
    → Progress
    → ProviderRoutingEngine × Pass
after_success request e s permit r p =
    let given : Option ℕ → RoutedResult = λ primed. record {
      result = r.result;
      selection = s;
      primed = primed;
      attempts = p.attempts;
      permit = permit;
      released = false;
    } in
    let no_stream = release_account e s.account.id permit in
    let later = r.while_priming e in
    let no_chunk = release_account later s.account.id permit in
    if not request.stream then (e, returns (routed (given none))) else elim r.result.stream [
      | none ↦ (
        record no_stream {
          circuits =
              (record_failure no_stream.circuits r.answered s.account.id 502 none
                (some "provider_protocol_changed")).0;
        },
        continues (record p { last_code = "provider_protocol_changed" }),
      )
      | some stream ↦ elim r.primed [
        | none ↦ (
          record no_chunk {
            circuits =
                (record_failure no_chunk.circuits r.primed_at s.account.id 504 none
                  (some "provider_timeout")).0;
          },
          continues (record p { last_status = 504; last_code = "provider_timeout" }),
        )
        | some chunk ↦ (later, returns (routed (given (some chunk))))
      ]
    ]

-- What the client is told when the loop was left.
unfoldable pub exhausted : Progress → ℕ → RoutingFailure
exhausted p now =
    let suspended = p.last_code === "provider_account_suspended" in
    let retry_at =
      if suspended
      then p.suspension_retry_at
      else if p.last_status == 429
      then some (get_or p.rate_limit_retry_at (now + 60000))
      else none in
    record {
      status =
          if suspended
          then 503
          else if p.last_status == 429
          then 429
          else if p.last_status == 504
          then 504
          else 502;
      code = p.last_code;
      retry_after_seconds = Option.map (seconds_until now) retry_at;
    }

-- The closure `release` of a routed result.
unfoldable pub release_routed :
    ProviderRoutingEngine
    → RoutedResult
    → Bool
    → Option ForwardStreamOutcome
    → ℕ
    → ProviderRoutingEngine × RoutedResult × Option Suspension
unfolding release_account record_success handle_account_failure
release_routed e place success failure now =
    let s = place.selection in
    let done = record place { released = true } in
    let e' = release_account e (id_of s) place.permit in
    let status : ℕ = elim failure [ none ↦ 502 | some f ↦ f.status ] in
    let code : Option String = elim failure [ none ↦ none | some f ↦ f.code ] in
    let (e'', circuit, call) =
      handle_account_failure e' s
        (record {
          status = status;
          code = get_or code (status_code status);
          retry_after_ms = elim failure [ none ↦ none | some f ↦ f.retry_after_ms ];
          latency_ms = get_or place.result.latency 0;
        })
        now in
    if place.released
    then (e, place, none)
    else if success
    then (
      update_account (record e' { circuits = record_success e'.circuits (id_of s) }) (id_of s) now
          (λ a. record a {
            last_used = some now;
            request_count = some (get_or s.account.request_count 0 + 1);
            today_used = some (get_or s.account.today_used 0 + 1);
            status = active;
            error_message = none;
          }),
      done,
      none,
    )
    else if is_code code "provider_expert_busy"
    then (e', done, none)
    else (e'', done, call)
