-- ===== src/Chat.antt =====
-- src/server/routes/openai.ts, executeChat and finalizeStream: the course of one chat request from the check
-- of its model to its answer. What the request shares with others is kept as it is seen from here: its place
-- in the gate, its permit of an account and its row of the request log. The release closures do nothing
-- when called again (ConcurrencyGate.release, ProviderRoutingEngine.forward).
pub mod Messages
pub mod Course
pub mod Success
mod Examples
use mathlib.Core.Option
use mathlib.Core.Option.{get_or}
use chat2api_web_gateway.ApiKeys.Records.{StoredApiKey}
use chat2api_web_gateway.Guard.{assert_model_allowed}
use chat2api_web_gateway.Router.Types.{ChatCompletionRequest, RoutingFailure, ForwardStreamOutcome}
use chat2api_web_gateway.Prelude.{
  ◌===◌, if◌then◌else◌, ℕ, String, Bool, true, false, not, ◌&&◌, ◌||◌, Option, none, some, List, [],
  ◌∷◌, ◌++◌,
}

-- The row of the request log: `updates` of `finishRequestLog`, less the latency and the names of the account.
pub record LogEnd : Type 0 where
  pub is_success : Bool
  pub status_code : ℕ
  pub error_code : Option String

pub data LogRow : Type 0 where
  not_started pending : LogRow
  finished : LogEnd → LogRow

-- What the client gets: an error in the form of the API, the body, or a stream.
pub data ChatReply : Type 0 where
  api_error : ℕ → String → Option ℕ → ChatReply
  body stream nothing_more : ChatReply

-- What the first call of `release` of the routed result was given.
pub data Permit : Type 0 where
  no_permit held : Permit
  released : Bool → Option ForwardStreamOutcome → Permit

pub record ChatState : Type 0 where
  pub place_held : Bool
  pub permit : Permit
  pub log : LogRow
  pub has_tried_log : Bool
  pub replies : List ChatReply

-- A call that returns, or that throws behind what it did until then.
pub data CallEnd : Type 0 where
  returned thrown : ChatState → CallEnd

abbrev pub and_then : CallEnd → (ChatState → CallEnd) → CallEnd
and_then (returned st) f = f st
and_then (thrown st) f = thrown st

-- `try { .. } catch { .. }`.
abbrev pub or_catch : CallEnd → (ChatState → CallEnd) → CallEnd
or_catch (returned st) f = returned st
or_catch (thrown st) f = f st

abbrev pub state_after : CallEnd → ChatState
state_after (returned st) = st
state_after (thrown st) = st

-- How a routed result is ready for the client: a stream whose first chunk is there, or without one.
pub data Forwarded : Type 0 where
  routing_failure : RoutingFailure → Forwarded
  routed : Bool → Forwarded
  forward_throws : Forwarded

-- `result.result.streamOutcome` when the pipeline has come to its end.
pub data StreamOutcome : Type 0 where
  no_outcome rejected : StreamOutcome
  resolved : ForwardStreamOutcome → StreamOutcome

-- What the surroundings of one request do. A test of `signal.aborted` has its value at the point where the
-- source reads it. The store may throw where a release updates the account (with the hook for a suspended
-- one), and at the first and at the second call of `finishRequestLog`; there is no third.
pub record Surroundings : Type 0 where
  pub place_granted : Bool
  pub aborted_in_queue : Bool
  pub log_starts : Bool
  pub forwarded : Forwarded
  pub pipeline_fails : Bool
  pub outcome : StreamOutcome
  pub aborted : Bool
  pub body_throws : Bool
  pub reply_is_gone : Bool
  pub update_throws : Bool
  pub finish_throws : Bool
  pub finish_again_throws : Bool

unfoldable pub new_chat : ChatState
new_chat = record {
  place_held = false;
  permit = no_permit;
  log = not_started;
  has_tried_log = false;
  replies = [];
}

unfoldable pub answer : ChatReply → ChatState → ChatState
answer r st = record st { replies = st.replies ++ r ∷ [] }

unfoldable pub release_global : ChatState → ChatState
release_global st = record st { place_held = false }

-- Whether `release` updates the account in the store: after a success, and after a failure that marks the
-- account (`handleAccountFailure`).
abbrev pub updates_account : Bool → Option ForwardStreamOutcome → Bool
updates_account true failure = true
updates_account false none = false
updates_account false (some o) =
    let code = get_or o.code "" in
    code === "provider_account_suspended" || code === "provider_authentication_failed"

-- The closure's own flag lets the first call alone through; it is set before the store is called.
unfoldable pub release_routed :
    Surroundings → Bool → Option ForwardStreamOutcome → ChatState → CallEnd
release_routed env success failure st = elim st.permit [
  | no_permit ↦ returned st
  | held ↦
      let st' : ChatState = record st { permit = released success failure } in
      if updates_account success failure && env.update_throws then thrown st' else returned st'
  | released s f ↦ returned st
]

-- The row that `finishRequestLog` leaves; an error code that is not given stays (`COALESCE`).
unfoldable pub finished_row : LogEnd → LogRow → LogRow
finished_row update not_started = not_started
finished_row update pending = finished update
finished_row update (finished before) = finished (record update {
  error_code = elim update.error_code [ none ↦ before.error_code | some c ↦ some c ];
})

-- Whether the next call of `finishRequestLog` throws.
abbrev pub next_finish_throws : Surroundings → ChatState → Bool
next_finish_throws env st = if st.has_tried_log then env.finish_again_throws else env.finish_throws

unfoldable pub finish_request_log : Surroundings → LogEnd → ChatState → CallEnd
unfolding finished_row
finish_request_log env update st =
    if next_finish_throws env st
    then thrown (record st { has_tried_log = true })
    else returned (record st { has_tried_log = true; log = finished_row update st.log })

abbrev pub interrupted : ForwardStreamOutcome
interrupted = record {
  success = false;
  status = 502;
  code = some "stream_interrupted";
  retry_after_ms = none;
}

-- `completion` of `finalizeStream`.
unfoldable pub completion : Bool → StreamOutcome → ForwardStreamOutcome
completion true end = interrupted
completion false no_outcome = record {
  success = true;
  status = 200;
  code = none;
  retry_after_ms = none;
}
completion false rejected = interrupted
completion false (resolved o) = o

-- The rest of `finalizeStream`, behind the pipeline's end.
unfoldable pub finalize_stream : Surroundings → ChatState → CallEnd
unfolding completion release_routed release_global finish_request_log
finalize_stream env st =
    let result = completion env.pipeline_fails env.outcome in
    let success = not env.pipeline_fails && result.success in
    and_then (release_routed env success (if success then none else some result) st) (λ released_st.
      finish_request_log env
        (record {
          is_success = success;
          status_code = if success then 200 else if env.aborted then 499 else result.status;
          error_code =
              if success
              then none
              else if env.aborted
              then some "client_aborted"
              else some (get_or result.code "stream_interrupted");
        })
        (release_global released_st))

-- What the branch `catch` of `executeChat` answers.
unfoldable pub reply_caught : Surroundings → ChatState → ChatState
unfolding answer
reply_caught env st =
    let status = if env.aborted then 499 else 500 in
    let code = if env.aborted then "client_aborted" else "gateway_error" in
    if env.reply_is_gone then answer nothing_more st else answer (api_error status code none) st

-- The branch `catch` of `executeChat`.
unfoldable pub catch_chat : Surroundings → ChatState → CallEnd
unfolding release_routed release_global finish_request_log reply_caught
catch_chat env st =
    let status = if env.aborted then 499 else 500 in
    let code = if env.aborted then "client_aborted" else "gateway_error" in
    and_then (release_routed env false none st) (λ released_st.
      and_then
        (finish_request_log env
          (record { is_success = false; status_code = status; error_code = some code })
          (release_global released_st))
        (λ closed. returned (reply_caught env closed)))

-- A success without a stream; the shaping of the body or its sending may throw.
unfoldable pub send_body : Surroundings → ChatState → CallEnd
unfolding release_routed release_global finish_request_log answer
send_body env st = and_then (release_routed env true none st) (λ released_st.
    and_then
      (finish_request_log env (record { is_success = true; status_code = 200; error_code = none })
        (release_global released_st))
      (λ closed. if env.body_throws then thrown closed else returned (answer body closed)))

-- The promise of `finalizeStream` is not awaited: what it throws is an unhandled rejection and changes
-- nothing more.
unfoldable pub reply_routed : Surroundings → Bool → Bool → ChatState → CallEnd
unfolding send_body finalize_stream answer
reply_routed env false primed st = send_body env st
reply_routed env true true st = returned (state_after (finalize_stream env (answer stream st)))
reply_routed env true false st = thrown st

-- The answer to a routing failure.
unfoldable pub fail_routing : Surroundings → RoutingFailure → ChatState → CallEnd
unfolding finish_request_log release_global answer
fail_routing env f st =
    and_then
      (finish_request_log env
        (record { is_success = false; status_code = f.status; error_code = some f.code }) st)
      (λ closed.
        returned (answer (api_error f.status f.code f.retry_after_seconds) (release_global closed)))

-- The block `try` of `executeChat`.
unfoldable pub forward_chat : Surroundings → Bool → ChatState → CallEnd
unfolding fail_routing reply_routed
forward_chat env is_stream st = elim env.forwarded [
  | routing_failure f ↦ fail_routing env f st
  | routed primed ↦ reply_routed env is_stream primed (record st { permit = held })
  | forward_throws ↦ thrown st
]

unfoldable pub execute_chat : Surroundings → Option StoredApiKey → ChatCompletionRequest → CallEnd
unfolding assert_model_allowed answer forward_chat catch_chat new_chat
execute_chat env key chat_request =
    if not (assert_model_allowed key chat_request.model)
    then returned (answer (api_error 403 "model_not_allowed" none) new_chat)
    else if not env.place_granted
    then returned (
        answer
          (if env.aborted_in_queue
            then api_error 499 "client_aborted" none
            else api_error 503 "gateway_at_capacity" none)
          new_chat)
    else if not env.log_starts
    then thrown (record new_chat { place_held = true })
    else or_catch
        (forward_chat env chat_request.stream
          (record new_chat { place_held = true; log = pending }))
        (catch_chat env)

-- What the route answers where `executeChat` throws.
abbrev pub invalid_request : ChatReply
invalid_request = api_error 400 "invalid_request" none

abbrev pub answer_thrown : CallEnd → ChatState
answer_thrown (returned st) = st
answer_thrown (thrown st) = answer invalid_request st

-- The handler of `POST /v1/chat/completions` on a request that parses.
unfoldable pub post_chat : Surroundings → Option StoredApiKey → ChatCompletionRequest → ChatState
unfolding execute_chat answer
post_chat env key chat_request = answer_thrown (execute_chat env key chat_request)
