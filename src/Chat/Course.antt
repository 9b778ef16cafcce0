-- ===== src/Chat/Course.antt =====
-- What every course of a chat request leaves (openai.ts, executeChat).

use chat2api_web_gateway.ApiKeys.Records.{StoredApiKey}
use chat2api_web_gateway.Guard.{assert_model_allowed}
use chat2api_web_gateway.Router.Types.{ChatCompletionRequest}
use chat2api_web_gateway.Chat.{
  LogRow, not_started, pending, finished, Permit, no_permit, held, released, ChatState, CallEnd,
  or_catch, Forwarded, routing_failure, routed, forward_throws, Surroundings, updates_account,
  completion, catch_chat, answer_thrown,
}
use chat2api_web_gateway.Prelude.{
  if◌then◌else◌, length, ◌≡◌, Bool, true, false, not, ◌&&◌, ◌||◌, Option, none, some, [],
}

abbrev pub is_held : Permit → Bool
is_held no_permit = false
is_held held = true
is_held (released success failure) = false

abbrev pub is_pending : LogRow → Bool
is_pending not_started = false
is_pending pending = true
is_pending (finished e) = false

-- The key may use the model and the gate has granted a place.
abbrev pub is_admitted : Surroundings → Option StoredApiKey → ChatCompletionRequest → Bool
is_admitted env key chat_request = assert_model_allowed key chat_request.model && env.place_granted

-- The stream has succeeded.
abbrev pub streams_well : Surroundings → Bool
streams_well env = not env.pipeline_fails && (completion env.pipeline_fails env.outcome).success

-- The store fails while the account of a stream is released.
abbrev pub stream_release_throws : Surroundings → Bool
stream_release_throws env =
    let result = completion env.pipeline_fails env.outcome in
    updates_account (streams_well env) (if streams_well env then none else some result)
    && env.update_throws

abbrev pub is_streaming : Bool → Forwarded → Bool
is_streaming true (routed primed) = primed
is_streaming true (routing_failure f) = false
is_streaming true forward_throws = false
is_streaming false f = false

-- The place of an admitted request stays taken: the log could not be started, or the store has failed while
-- the account of a stream was released.
abbrev pub keeps_place : Surroundings → Bool → Bool
keeps_place env is_stream =
    not env.log_starts || is_streaming is_stream env.forwarded && stream_release_throws env

-- Both calls of `finishRequestLog` throw.
abbrev pub finish_fails_twice : Surroundings → Bool
finish_fails_twice env = env.finish_throws && env.finish_again_throws

-- The log that was started stays pending, by how the request was forwarded.
abbrev pub log_is_lost : Surroundings → Bool → Forwarded → Bool
log_is_lost env is_stream (routing_failure f) = finish_fails_twice env
log_is_lost env is_stream forward_throws = env.finish_throws
log_is_lost env true (routed true) = stream_release_throws env || env.finish_throws
log_is_lost env true (routed false) = env.finish_throws
log_is_lost env false (routed primed) =
    if env.update_throws then env.finish_throws else finish_fails_twice env

abbrev pub keeps_pending : Surroundings → Bool → Bool
keeps_pending env is_stream = env.log_starts && log_is_lost env is_stream env.forwarded

-- What a course leaves: one reply, no permit, and its place and its log or not.
abbrev pub Settles : Bool → Bool → ChatState → Type 0
Settles place log st =
    (length st.replies ≡ 1)
    × (is_held st.permit ≡ false)
    × (st.place_held ≡ place)
    × (is_pending st.log ≡ log)

abbrev pub started : ChatState
started = record {
  place_held = true;
  permit = no_permit;
  log = pending;
  has_tried_log = false;
  replies = [];
}

abbrev pub with_account : ChatState
with_account = record started { permit = held }

-- The branch `catch`, and the route's own where that throws.
abbrev pub caught : Surroundings → CallEnd → ChatState
caught env end = answer_thrown (or_catch end (catch_chat env))

-- Behind the release of the account of a whole answer.
abbrev pub with_body : ChatState
with_body = record started { place_held = false; permit = released true none; has_tried_log = true }
