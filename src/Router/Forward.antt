-- ===== src/Router/Forward.antt =====
-- The loop of `forward`: one account after another until one answers or none is left.
pub mod Places
pub mod Fresh
pub mod Accounts
pub mod Returns
use mathlib.Core.Option
use mathlib.Core.Option.{get_or}
use chat2api_web_gateway.Prelude.{
  ltb, ◌==◌, if◌then◌else◌, length, filter, ℕ, ◌+◌, String, not, Option, none, some, List, [], ◌∷◌,
}
use chat2api_web_gateway.Router.Candidates.{
  contains, get_candidates, order_candidates, unavailable_routing_failure,
}
use chat2api_web_gateway.Router.Reserve.{
  id_of, release_account, Reservation, reserved, refused, waits, no_account, reserve_candidate,
  reserve_after_wait,
}
use chat2api_web_gateway.Router.Types.{
  AccountSelection, ChatCompletionRequest, ProxyContext, RoutingFailure, Hooks,
  ProviderRoutingEngine, Suspension,
}
use chat2api_web_gateway.Router.Failover.{
  Progress, at_start, Outcome, failed, Pass, continues, breaks, returns, Surroundings,
  after_failure, after_success, exhausted,
}

-- What follows a reservation.
unfoldable pub after_reservation :
    Hooks
    → ChatCompletionRequest
    → ProviderRoutingEngine
    → Reservation
    → Surroundings
    → Progress
    → ProviderRoutingEngine × Pass × Option Suspension
after_reservation hooks request e (refused failure) r p =
    (e, (if ltb 0 p.attempts then breaks p r.started else returns (failed failure)), none)
after_reservation hooks request e (waits target n) r p = (e, breaks p r.started, none)
after_reservation hooks request e no_account r p =
    let failure : RoutingFailure =
      if r.is_aborted
      then record { status = 499; code = "provider_request_cancelled"; retry_after_seconds = none }
      else record { status = 503; code = "account_queue_timeout"; retry_after_seconds = some 1 } in
    (e, returns (failed failure), none)
after_reservation hooks request e (reserved s permit) r p =
    let p' = record p {
      attempts = p.attempts + 1;
      attempted_accounts = id_of s ∷ p.attempted_accounts;
    } in
    let later = r.while_forwarding e in
    let (e', pass) = after_success request later s permit r p' in
    if r.result.success
    then (e', pass, none)
    else after_failure hooks request (release_account later (id_of s) permit) s r.result r.answered
        p'

-- `reserveCandidate` with its await. It comes to no promise.
unfoldable pub settled_reservation :
    Hooks
    → ChatCompletionRequest
    → ProviderRoutingEngine
    → Reservation
    → Surroundings
    → ProviderRoutingEngine × Reservation
unfolding reserve_after_wait
settled_reservation hooks request e (waits target n) r =
    reserve_after_wait hooks (r.while_queued e) request target r.answer r.woken
settled_reservation hooks request e (reserved s permit) r = (e, reserved s permit)
settled_reservation hooks request e (refused failure) r = (e, refused failure)
settled_reservation hooks request e no_account r = (e, no_account)

-- The accounts that a pass may try.
abbrev pub untried :
    Hooks → ChatCompletionRequest → ProviderRoutingEngine → ℕ → List String → List AccountSelection
untried hooks request e now attempted =
    filter (λ s. not (contains (id_of s) attempted))
      (order_candidates e (get_candidates hooks e request now)).0

-- One pass through the body of the loop.
unfoldable pub pass_once :
    Hooks
    → ChatCompletionRequest
    → ProxyContext
    → ProviderRoutingEngine
    → Surroundings
    → Progress
    → ProviderRoutingEngine × Pass × Option Suspension
pass_once hooks request context e r p =
    let candidates = untried hooks request e r.started p.attempted_accounts in
    let e' = (order_candidates e (get_candidates hooks e request r.started)).1 in
    let (e'', reservation) = reserve_candidate e' candidates context r.started in
    let (d, settled) = settled_reservation hooks request e'' reservation r in
    if length candidates == 0
    then (e', breaks p r.started, none)
    else after_reservation hooks request d settled r p

abbrev pub maybe_cons : Option Suspension → List Suspension → List Suspension
maybe_cons none calls = calls
maybe_cons (some call) calls = call ∷ calls

-- The loop, one element of the list for each pass; `none` if the list is too short. The calls of
-- `onAccountSuspended` come with the answer.
unfoldable pub passes :
    Hooks
    → ChatCompletionRequest
    → ProxyContext
    → ProviderRoutingEngine
    → List Surroundings
    → Progress
    → ProviderRoutingEngine × Option Outcome × List Suspension
unfolding pass_once exhausted
passes hooks request context e [] p = (e, none, [])
passes hooks request context e (r ∷ rs) p =
    let (e', pass, call) = pass_once hooks request context e r p in
    elim pass [
      | returns outcome ↦ (e', some outcome, maybe_cons call [])
      | breaks p' now ↦ (e', some (failed (exhausted p' now)), maybe_cons call [])
      | continues p' ↦
          let (d, outcome, calls) = passes hooks request context e' rs p' in
          (d, outcome, maybe_cons call calls)
    ]

unfoldable pub forward :
    Hooks
    → ChatCompletionRequest
    → ProxyContext
    → ProviderRoutingEngine
    → ℕ
    → List Surroundings
    → ProviderRoutingEngine × Option Outcome × List Suspension
unfolding passes
forward hooks request context e now rs =
    if length (get_candidates hooks e request now) == 0
    then (e, some (failed (unavailable_routing_failure hooks e request now)), [])
    else passes hooks request context e rs at_start
