-- ===== src/Chat/Examples.antt =====
-- Courses of a chat request without a key's list of models.
use chat2api_web_gateway.Router.Types.{ChatCompletionRequest}
use chat2api_web_gateway.Chat.{pending, body, routed, no_outcome, Surroundings, post_chat}
use chat2api_web_gateway.Chat.Success.{LogAgrees, post_chat-LogAgrees}
use chat2api_web_gateway.Prelude.{◌≡◌, refl, true, false, none, [], ◌∷◌}

abbrev a_request : ChatCompletionRequest
a_request = record { model = "deepseek-chat"; stream = false }

abbrev plain : Surroundings
plain = record {
  place_granted = true;
  aborted_in_queue = false;
  log_starts = true;
  forwarded = routed false;
  pipeline_fails = false;
  outcome = no_outcome;
  aborted = false;
  body_throws = false;
  reply_is_gone = false;
  update_throws = false;
  finish_throws = false;
  finish_again_throws = false;
}

abbrev without_log : Surroundings
without_log = record plain { log_starts = false }

abbrev a_stream : ChatCompletionRequest
a_stream = record a_request { stream = true }

-- The store fails while the account of a stream is released.
abbrev failing_release : Surroundings
failing_release = record plain { forwarded = routed true; update_throws = true }

post_chat-LogAgrees_example : LogAgrees plain (post_chat plain none a_request)
post_chat-LogAgrees_example = post_chat-LogAgrees plain none a_request

plain_answer : (post_chat plain none a_request).replies ≡ body ∷ []
unfolding post_chat
plain_answer = refl

place_is_lost : (post_chat without_log none a_request).place_held ≡ true
unfolding post_chat
place_is_lost = refl

stream_loses_place :
    ((post_chat failing_release none a_stream).place_held ≡ true)
    × ((post_chat failing_release none a_stream).log ≡ pending)
unfolding post_chat
stream_loses_place = (refl, refl)
