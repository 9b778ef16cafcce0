-- ===== src/Forwarder.antt =====
-- src/main/proxy/forwarder.ts and retry-after.ts: one exchange with the provider, what the router is told of
-- it, and what becomes of the provider's session. The adapter that makes the exchange is a parameter: its
-- answer is an argument.
pub mod Sessions
mod Examples
use Prim.Native.String.{◌++◌ as join, len}
use mathlib.Core.Logic.{◌⊎◌, inl, inr}
use mathlib.Core.Option.{get_or}
use chat2api_web_gateway.Router.Types.{ForwardResult, ForwardStreamOutcome}
use chat2api_web_gateway.Stream.Json.{first_of}
use chat2api_web_gateway.Stream.Errors.{
  Host, Chunk, chunk_text, ProviderError, provider_error_from_json_response,
}
use chat2api_web_gateway.Stream.Handler.{Outcome, success, provider_error, interrupted}
use chat2api_web_gateway.Stream.Answer.{Answer, handle_non_stream}
use chat2api_web_gateway.Prelude.{
  ltb, leb, ◌==◌, ◌===◌, if◌then◌else◌, ℕ, ◌*◌, String, Bool, true, false, ◌||◌, Option, none, some,
  List, [], ◌∷◌,
}

pub data SessionEnd : Type 0 where
  session_released session_invalidated : SessionEnd

-- `finalizeSession`, by the status and the error code of an outcome.
unfoldable pub finalize_session : Bool → Option String → SessionEnd
finalize_session true code = session_released
finalize_session false none = session_invalidated
finalize_session false (some code) =
    if code === "provider_account_suspended"
      || code === "provider_rate_limited"
      || code === "provider_expert_busy"
    then session_released
    else session_invalidated

-- `finalizeSession` as the callback of the stream handler.
unfoldable pub session_end : Outcome → SessionEnd
unfolding finalize_session
session_end success = finalize_session true none
session_end (provider_error e) = finalize_session false (some e.code)
session_end interrupted = finalize_session false none

unfoldable pub map_stream_outcome : Outcome → ForwardStreamOutcome
map_stream_outcome success = record {
  success = true;
  status = 200;
  code = none;
  retry_after_ms = none;
}
map_stream_outcome (provider_error e) = record {
  success = false;
  status = e.status;
  code = some e.code;
  retry_after_ms = e.retry_after_ms;
}
map_stream_outcome interrupted = record {
  success = false;
  status = 502;
  code = some "stream_interrupted";
  retry_after_ms = none;
}

unfoldable pub status_code : ℕ → String
status_code status =
    if status == 401 || status == 403
    then "provider_authentication_failed"
    else if status == 408 || status == 504
    then "provider_timeout"
    else if status == 429
    then "provider_rate_limited"
    else if leb 500 status
    then "provider_unavailable"
    else "provider_rejected_request"

-- What `catch` has: an error of one of the two classes of the adapter, or another one.
pub data Thrown : Type 0 where
  known : ProviderError → Thrown
  unknown : Thrown

-- `normalizeError` and the result that `catch` returns.
unfoldable pub failure_result : Thrown → ForwardResult
failure_result (known e) = record {
  success = false;
  status = some e.status;
  code = some e.code;
  retry_after_ms = first_of e.retry_after_ms (if e.status == 429 then some 60000 else none);
  stream = none;
  latency = none;
}
failure_result unknown = record {
  success = false;
  status = some 502;
  code = some "provider_unavailable";
  retry_after_ms = none;
  stream = none;
  latency = none;
}

abbrev pub oversized_error : ProviderError
oversized_error = record {
  code = "provider_protocol_changed";
  status = 502;
  message = "DeepSeek returned an oversized JSON response.";
  retry_after_ms = none;
}

abbrev pub maximum_bytes : ℕ
maximum_bytes = 64 * 1024

-- `readBoundedProviderBody` on the chunks of a body, behind which its stream may fail.
unfoldable pub read_bounded_provider_body : Host → String → List Chunk → Bool → Thrown ⊎ String
unfolding chunk_text
read_bounded_provider_body host body [] true = inl unknown
read_bounded_provider_body host body [] false = inr body
read_bounded_provider_body host body (piece ∷ pieces) fails =
    let longer = join body (chunk_text host piece) in
    let rest = read_bounded_provider_body host longer pieces fails in
    if ltb maximum_bytes (len longer) then inl (known oversized_error) else rest

pub record Response : Type 0 where
  pub status : ℕ
  pub is_json : Bool
  pub retry_after_ms : Option ℕ
  pub pieces : List Chunk
  pub read_fails : Bool

-- What `adapter.chatCompletion` gives; where it throws, it has closed the session itself.
pub data Exchange : Type 0 where
  responded : Response → Exchange
  refused : Thrown → Exchange

pub record Forwarded : Type 0 where
  pub result : ForwardResult
  pub ends : List SessionEnd

abbrev pub plain_failure : ℕ → String → Option ℕ → ForwardResult
plain_failure status code retry_after_ms = record {
  success = false;
  status = some status;
  code = some code;
  retry_after_ms = retry_after_ms;
  stream = none;
  latency = none;
}

abbrev pub success_result : Option ℕ → ForwardResult
success_result s = record {
  success = true;
  status = some 200;
  code = none;
  retry_after_ms = none;
  stream = s;
  latency = none;
}

-- A response with an error status.
unfoldable pub reject_response : Host → Response → ℕ → Forwarded
unfolding read_bounded_provider_body finalize_session provider_error_from_json_response status_code
    failure_result
reject_response host r now = elim (read_bounded_provider_body host "" r.pieces r.read_fails) [
  | inl e ↦ record { result = failure_result e; ends = finalize_session false none ∷ [] }
  | inr body ↦ elim (provider_error_from_json_response host body now) [
    | none ↦ record {
      result = plain_failure r.status (status_code r.status) r.retry_after_ms;
      ends = finalize_session false (some (status_code r.status)) ∷ [];
    }
    | some e ↦ record {
      result = plain_failure e.status e.code (first_of e.retry_after_ms r.retry_after_ms);
      ends = finalize_session false (some e.code) ∷ [];
    }
  ]
]

abbrev pub unexpected_json_error : ProviderError
unexpected_json_error = record {
  code = "provider_protocol_changed";
  status = 502;
  message = "DeepSeek returned an unexpected JSON response.";
  retry_after_ms = none;
}

-- A JSON document where a stream of events was wanted.
unfoldable pub reject_json : Host → Response → ℕ → Forwarded
unfolding read_bounded_provider_body finalize_session provider_error_from_json_response
    failure_result
reject_json host r now = elim (read_bounded_provider_body host "" r.pieces r.read_fails) [
  | inl e ↦ record { result = failure_result e; ends = finalize_session false none ∷ [] }
  | inr body ↦
      let e = get_or (provider_error_from_json_response host body now) unexpected_json_error in
      record { result = failure_result (known e); ends = finalize_session false (some e.code) ∷ [] }
]

-- The result of `handleNonStream`.
unfoldable pub whole_result : Outcome × Option Answer → ForwardResult
unfolding failure_result
whole_result (success, answer) = success_result none
whole_result (provider_error e, answer) = failure_result (known e)
whole_result (interrupted, answer) = failure_result unknown

pub record ForwardRequest : Type 0 where
  pub is_stream : Bool
  pub web_search : Bool
  pub has_reasoning_effort : Bool

-- `stream` is 0 in the result that has a stream, whose handler ends the session.
unfoldable pub forward_chat_completion : Host → Bool → ForwardRequest → Exchange → ℕ → Forwarded
unfolding failure_result reject_response reject_json handle_non_stream session_end whole_result
forward_chat_completion host false request exchange now = record {
  result = plain_failure 400 "unsupported_provider" none;
  ends = [];
}
forward_chat_completion host true request (refused e) now = record {
  result = failure_result e;
  ends = [];
}
forward_chat_completion host true request (responded r) now =
    let whole =
      handle_non_stream host request.has_reasoning_effort request.web_search r.pieces r.read_fails
        now in
    if leb 400 r.status
    then reject_response host r now
    else if r.is_json
    then reject_json host r now
    else if request.is_stream
    then record { result = success_result (some 0); ends = [] }
    else record { result = whole_result whole; ends = session_end whole.0 ∷ [] }
