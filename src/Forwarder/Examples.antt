-- ===== src/Forwarder/Examples.antt =====
-- An exchange that gives a stream, and one that the provider refuses.

use chat2api_web_gateway.Stream.Errors.{Host, characters}
use chat2api_web_gateway.Stream.Handler.{Event, source_data, source_end, output_close}
use chat2api_web_gateway.Forwarder.{
  session_released, Response, responded, Forwarded, ForwardRequest, forward_chat_completion,
}
use chat2api_web_gateway.Forwarder.Sessions.{all_ends, forward_chat_completion-ends_once}
use chat2api_web_gateway.Prelude.{length, ◌≡◌, refl, true, false, none, List, [], ◌∷◌}

abbrev plain_host : Host
plain_host = record {
  parse_json = λ s. none;
  parse_url = λ s. none;
  to_lower_case = λ s. s;
  slice = λ s n. s;
  show_number = λ n. "1";
  to_string = λ bytes. "x";
}

abbrev streaming : ForwardRequest
streaming = record { is_stream = true; web_search = false; has_reasoning_effort = false }

abbrev accepted : Response
accepted = record {
  status = 200;
  is_json = false;
  retry_after_ms = none;
  pieces = [];
  read_fails = false;
}

abbrev leaves : List Event
leaves = source_data (characters "data: x\n") ∷ output_close ∷ source_end 0 ∷ []

forward_chat_completion-ends_once_example :
    length (
      all_ends plain_host streaming
        (forward_chat_completion plain_host true streaming (responded accepted) 0)
        leaves)
    ≡ 1
forward_chat_completion-ends_once_example =
    forward_chat_completion-ends_once plain_host streaming accepted 0 leaves refl

-- A provider that limits requests keeps the session.
limited : Forwarded
unfolding forward_chat_completion
limited =
    forward_chat_completion plain_host true streaming (responded (record accepted { status = 429 }))
      0

limited_keeps : limited.ends ≡ session_released ∷ []
unfolding limited
limited_keeps = refl
