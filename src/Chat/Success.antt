-- ===== src/Chat/Success.antt =====
-- Where a chat request is logged as a success (openai.ts, executeChat).
use chat2api_web_gateway.Chat.{
  LogEnd, LogRow, not_started, pending, finished, ChatReply, api_error, body, stream, nothing_more,
  Permit, no_permit, held, released, ChatState, thrown, state_after, Forwarded, routing_failure,
  routed, forward_throws, Surroundings, new_chat, answer, release_global, release_routed,
  finished_row, next_finish_throws, finish_request_log, finalize_stream, reply_caught, catch_chat,
  send_body, fail_routing, forward_chat, execute_chat, post_chat,
}
use chat2api_web_gateway.Prelude.{
  ◌==◌, Bool-cases, length, ◌≡◌, refl, inl, inr, Bool, true, false, not, ◌&&◌, ◌||◌, Option, none,
  List, [], ◌∷◌, arith,
}
use chat2api_web_gateway.Guard.{assert_model_allowed}
use chat2api_web_gateway.ApiKeys.Records.{StoredApiKey}
use chat2api_web_gateway.Router.Types.{ChatCompletionRequest, RoutingFailure}
use chat2api_web_gateway.Chat.Course.{
  stream_release_throws, started, with_account, caught, with_body,
}

abbrev pub is_logged_success : LogRow → Bool
is_logged_success not_started = false
is_logged_success pending = false
is_logged_success (finished e) = e.is_success

abbrev pub is_released_well : Permit → Bool
is_released_well no_permit = false
is_released_well held = false
is_released_well (released success failure) = success

-- The client got a body or a stream, and nothing else.
abbrev pub is_served : List ChatReply → Bool
is_served [] = false
is_served (api_error status code retry ∷ rs) = false
is_served (nothing_more ∷ rs) = false
is_served (body ∷ rs) = length rs == 0
is_served (stream ∷ rs) = length rs == 0

-- The store fails neither at the update of the account nor at the first end of the log.
abbrev pub stores : Surroundings → Bool
stores env = not env.update_throws && not env.finish_throws

abbrev pub LogAgrees : Surroundings → ChatState → Type 0
LogAgrees env st = is_logged_success st.log ≡ (
    is_released_well st.permit && stores env && (is_served st.replies || env.finish_again_throws))

caught-fails :
    (env : Surroundings) (st : ChatState)
    → st.replies ≡ []
    → let end = caught env (thrown st) in
      (is_logged_success end.log ≡ (is_logged_success st.log && next_finish_throws env st))
      × (is_released_well end.permit ≡ is_released_well st.permit)
      × (is_served end.replies ≡ false)
unfolding catch_chat reply_caught answer release_global release_routed finish_request_log
    finished_row
caught-fails env st none_yet = ground (arith)

fail_routing-LogAgrees :
    (env : Surroundings) (f : RoutingFailure)
    → LogAgrees env (caught env (fail_routing env f started))
unfolding fail_routing answer release_global finish_request_log
fail_routing-LogAgrees env f = elim (Bool-cases env.finish_throws) [
  | inl throws ↦
      rw (throws)
        (ground (arith, caught-fails env (record started { has_tried_log = true }) refl, throws))
  | inr works ↦ rw (works) refl
]

send_body-LogAgrees : (env : Surroundings) → LogAgrees env (caught env (send_body env with_account))
unfolding send_body answer release_global release_routed finish_request_log finished_row
send_body-LogAgrees env = elim (Bool-cases env.update_throws) [
  | inl throws ↦
      let st : ChatState = record with_account { permit = released true none } in
      rw (throws) (ground (arith, caught-fails env st refl, throws))
  | inr released_well ↦ elim (Bool-cases env.finish_throws) [
    | inl throws ↦
        rw (released_well, throws) (ground (arith, caught-fails env with_body refl, throws))
    | inr finishes ↦ elim (Bool-cases env.body_throws) [
      | inl throws ↦
          let update : LogEnd = record {
            is_success = true;
            status_code = 200;
            error_code = none;
          } in
          let st : ChatState = record with_body { log = finished update } in
          rw (released_well, finishes, throws)
            (ground (arith, caught-fails env st refl, released_well, finishes))
      | inr sends ↦ rw (released_well, finishes, sends) refl
    ]
  ]
]

finalize_stream-LogAgrees :
    (env : Surroundings)
    → LogAgrees env (state_after (finalize_stream env (answer stream with_account)))
unfolding finalize_stream answer release_global release_routed finish_request_log finished_row
finalize_stream-LogAgrees env = elim (Bool-cases (stream_release_throws env)) [
  | inl throws ↦ rw (throws) (ground (arith, throws))
  | inr released_well ↦ elim (Bool-cases env.finish_throws) [
    | inl throws ↦ rw (released_well, throws) (ground (arith))
    | inr finishes ↦ rw (released_well, finishes) (ground (arith, released_well))
  ]
]

forward_chat-LogAgrees :
    (env : Surroundings) (is_stream : Bool)
    → LogAgrees env (caught env (forward_chat env is_stream started))
unfolding forward_chat catch_chat
forward_chat-LogAgrees env is_stream = by_forwarded env is_stream env.forwarded
  where
    by_forwarded :
        (env : Surroundings) (is_stream : Bool) (f : Forwarded)
        → let env' = record env { forwarded = f } in
          LogAgrees env (caught env' (forward_chat env' is_stream started))
    by_forwarded env true (routing_failure f) = fail_routing-LogAgrees env f
    by_forwarded env false (routing_failure f) = fail_routing-LogAgrees env f
    by_forwarded env true forward_throws = ground (arith, caught-fails env started refl)
    by_forwarded env false forward_throws = ground (arith, caught-fails env started refl)
    by_forwarded env true (routed true) = finalize_stream-LogAgrees env
    by_forwarded env true (routed false) = ground (arith, caught-fails env with_account refl)
    by_forwarded env false (routed primed) = send_body-LogAgrees env

-- Where the calls of the store, the forwarding and the shaping and sending of the body may throw: a request
-- is logged as a success exactly where its account was released with a success, the store threw neither at
-- this nor at the first call that ends the log, and the client got the body or the stream, or else the
-- second call that ends the log threw.
pub post_chat-LogAgrees :
    (env : Surroundings) (key : Option StoredApiKey) (chat_request : ChatCompletionRequest)
    → LogAgrees env (post_chat env key chat_request)
unfolding post_chat answer new_chat execute_chat
post_chat-LogAgrees env key chat_request =
    let rest = forward_chat-LogAgrees env chat_request.stream in
    elim (Bool-cases (assert_model_allowed key chat_request.model)) [
      | inr refused ↦ rw (refused) refl
      | inl allowed ↦ elim (Bool-cases env.place_granted) [
        | inr refused ↦ rw (allowed, refused) refl
        | inl granted ↦ elim (Bool-cases env.log_starts) [
          | inr fails ↦ rw (allowed, granted, fails) refl
          | inl starts ↦ rw (allowed, granted, starts) rest
        ]
      ]
    ]
