-- ===== src/Forwarder/Sessions.antt =====
-- The end of the provider's session in an exchange (forwarder.ts).
use mathlib.Core.Option.{get_or}
use mathlib.Core.Logic.{◌⊎◌, inl, inr}
use chat2api_web_gateway.Stream.Errors.{Host, provider_error_from_json_response}
use chat2api_web_gateway.Stream.Handler.{
  Outcome, success, provider_error, interrupted, new_state, Event, run,
}
use chat2api_web_gateway.Forwarder.{
  SessionEnd, session_end, Thrown, known, unknown, failure_result, read_bounded_provider_body,
  Response, responded, Forwarded, reject_response, unexpected_json_error, reject_json, whole_result,
  ForwardRequest, forward_chat_completion,
}
use chat2api_web_gateway.Stream.Answer.{Answer, handle_non_stream}
use chat2api_web_gateway.Stream.Handler.Runs.{run-settles}
use chat2api_web_gateway.Stream.Handler.Steps.{is_final}
use chat2api_web_gateway.Prelude.{
  leb, Option-cases, if_both, length, any, ℕ, String, ◌≡◌, refl, ◌∙◌, true, Option, none, some,
  List, [], ◌∷◌, ◌++◌, map, arith,
}

-- The calls of `finalizeSession` in the exchange and, where it gives a stream, in a run of its handler.
abbrev pub all_ends : Host → ForwardRequest → Forwarded → List Event → List SessionEnd
all_ends host request forwarded es = elim forwarded.result.stream [
  | none ↦ forwarded.ends
  | some s ↦
      forwarded.ends
      ++ map session_end
          (run host es (new_state request.has_reasoning_effort request.web_search)).reply.outcomes
]

length-map : {A B : Type 0} (f : A → B) (xs : List A) → length (map f xs) ≡ length xs
length-map f [] = refl
length-map f (x ∷ xs) = omega (arith, length-map f xs)

-- A result without a stream, whose session has ended.
abbrev IsClosed : Forwarded → Type 0
IsClosed f = (f.result.stream ≡ none) × (length f.ends ≡ 1)

failure_result-stream : (e : Thrown) → (failure_result e).stream ≡ none
unfolding failure_result
failure_result-stream (known e) = refl
failure_result-stream unknown = refl

whole_result-stream : (w : Outcome × Option Answer) → (whole_result w).stream ≡ none
unfolding whole_result
whole_result-stream (success, answer) = refl
whole_result-stream (provider_error e, answer) = failure_result-stream (known e)
whole_result-stream (interrupted, answer) = failure_result-stream unknown

read-cases :
    (read : Thrown ⊎ String) → ((e : Thrown) × (read ≡ inl e)) ⊎ ((s : String) × (read ≡ inr s))
read-cases (inl e) = inl (e, refl)
read-cases (inr s) = inr (s, refl)

reject_response-IsClosed :
    (host : Host) (r : Response) (now : ℕ) → IsClosed (reject_response host r now)
unfolding reject_response
reject_response-IsClosed host r now =
    elim (read-cases (read_bounded_provider_body host "" r.pieces r.read_fails)) [
      | inl (e, fails) ↦ rw (fails, reject_response) (failure_result-stream e, refl)
      | inr (text, read) ↦ elim (Option-cases (provider_error_from_json_response host text now)) [
        | inl clean ↦ rw (read, reject_response) (rw (clean) (refl, refl))
        | inr (e, found) ↦ rw (read, reject_response) (rw (found) (refl, refl))
      ]
    ]

reject_json-IsClosed : (host : Host) (r : Response) (now : ℕ) → IsClosed (reject_json host r now)
unfolding reject_json
reject_json-IsClosed host r now =
    elim (read-cases (read_bounded_provider_body host "" r.pieces r.read_fails)) [
      | inl (e, fails) ↦ rw (fails, reject_json) (failure_result-stream e, refl)
      | inr (text, read) ↦
          rw (read, reject_json)
            (
              failure_result-stream (
                  known (
                    get_or (provider_error_from_json_response host text now)
                      unexpected_json_error)),
              refl,
            )
    ]

abbrev EndsOnce : Host → ForwardRequest → List Event → Forwarded → Type 0
EndsOnce host request es f = length (all_ends host request f es) ≡ 1

closed-EndsOnce :
    (host : Host) (request : ForwardRequest) (es : List Event) (f : Forwarded)
    → IsClosed f
    → EndsOnce host request es f
closed-EndsOnce host request es f (no_stream, one) = rw (no_stream) one

-- Every exchange in which the provider responds ends its session once: with its result, or, where the result
-- is a stream, when that stream has ended or failed or its reader has gone.
pub forward_chat_completion-ends_once :
    (host : Host) (request : ForwardRequest) (r : Response) (now : ℕ) (es : List Event)
    → any is_final es ≡ true
    → length
        (all_ends host request (forward_chat_completion host true request (responded r) now) es)
      ≡ 1
unfolding forward_chat_completion
forward_chat_completion-ends_once host request r now es final =
    let once = EndsOnce host request es in
    let reply = (run host es (new_state request.has_reasoning_effort request.web_search)).reply in
    let whole =
      handle_non_stream host request.has_reasoning_effort request.web_search r.pieces r.read_fails
        now in
    if_both once _ _ (leb 400 r.status)
      (closed-EndsOnce host request es (reject_response host r now)
        (reject_response-IsClosed host r now))
      (if_both once _ _ r.is_json
        (closed-EndsOnce host request es (reject_json host r now) (reject_json-IsClosed host r now))
        (if_both once _ _ request.is_stream
          (length-map session_end reply.outcomes
            ∙ run-settles host request.has_reasoning_effort request.web_search es final)
          (closed-EndsOnce host request es
            (record { result = whole_result whole; ends = session_end whole.0 ∷ [] })
            (whole_result-stream whole, refl))))
