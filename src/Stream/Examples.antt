-- ===== src/Stream/Examples.antt =====
-- Responses of the provider, read by a host that knows the JSON texts they are made of.
use Prim.Native.String.{◌++◌ as join}
use chat2api_web_gateway.Strings.{text_of}
use chat2api_web_gateway.Stream.Json.{
  Json, number, text, array, object, no_items, item, no_fields, field,
}
use chat2api_web_gateway.Stream.Errors.{
  Url, Host, Chunk, byte_buffer, characters, normalized_reason, Payload, read_payload,
  payload_error,
}
use chat2api_web_gateway.Stream.Errors.Codes.{
  IsCodeChar, normalized_reason-IsCode, IsKnownError, payload_error-IsKnownError, is_clean,
  payload_error-none,
}
use chat2api_web_gateway.Stream.Decoder.{content}
use chat2api_web_gateway.Stream.Events.{cited}
use chat2api_web_gateway.Stream.Events.Results.{IsPublicResult}
use chat2api_web_gateway.Stream.Handler.{
  success, delta_chunk, stop_chunk, done_marker, Reply, State, new_state, read_line, handle_lines,
  on_data, on_end, Event, source_data, source_end, output_close, run,
}
use chat2api_web_gateway.Stream.Handler.Pieces.{deliver, concat_bytes, handle_stream-pieces}
use chat2api_web_gateway.Stream.Handler.Protocol.{phase_of, open_phase, Agrees}
use chat2api_web_gateway.Stream.Handler.Runs.{run-follows_protocol, run-settles}
use chat2api_web_gateway.Stream.Handler.Sources.{run-cites_public}
use chat2api_web_gateway.Stream.Answer.{collect_lines, new_collected, handle_non_stream}
use chat2api_web_gateway.Stream.Answer.Agreement.{IsSameRead, AgreeOn, lines-AgreeOn}
use chat2api_web_gateway.Stream.Answer.Outcomes.{IsReported, handle_non_stream-IsReported}
use chat2api_web_gateway.Prelude.{
  ◌==◌, ◌===◌, if◌then◌else◌, length, All, ℕ, ◌≤◌, String, ◌≡◌, refl, ◌↔◌, ◌⊎◌, true, false, Option,
  none, some, List, [], ◌∷◌, map,
}

abbrev hello : Json
hello = object (field "v" (text "Hello") no_fields)

abbrev found_page : Json
found_page = object (
    field "url" (text "https://example.org/")
      (field "title" (text "An example") (field "cite_index" (number 1) no_fields)))

abbrev search : Json
search = object (
    field "p" (text "response/search_results")
      (field "v" (array (item found_page no_items)) no_fields))

abbrev busy : Json
busy =
    object (
      field "type" (text "error")
        (field "finish_reason" (text "expert_busy_use_default") no_fields))

abbrev muted : Json
muted = object (
    field "data"
      (object (field "biz_code" (number 5) (field "biz_msg" (text "user is muted") no_fields)))
      no_fields)

abbrev parse_sample : String → Option Json
parse_sample s =
    if s === "hello"
    then some hello
    else if s === "search"
    then some search
    else if s === "busy"
    then some busy
    else if s === "muted"
    then some muted
    else none

abbrev page_url : String → Option Url
page_url s = some (record { href = s; protocol = "https:"; username = ""; password = "" })

abbrev letter : ℕ → String
letter n =
    if n == 10
    then "\n"
    else if n == 32
    then " "
    else if n == 58
    then ":"
    else if n == 97
    then "a"
    else if n == 100
    then "d"
    else if n == 101
    then "e"
    else if n == 104
    then "h"
    else if n == 108
    then "l"
    else if n == 111
    then "o"
    else if n == 116
    then "t"
    else "?"

-- The text of the bytes of a few characters.
abbrev text_of_bytes : List ℕ → String
text_of_bytes [] = ""
text_of_bytes (b ∷ bs) = join (letter b) (text_of_bytes bs)

abbrev sample_host : Host
sample_host = record {
  parse_json = parse_sample;
  parse_url = page_url;
  to_lower_case = λ s. s;
  slice = λ s n. s;
  show_number = λ n. "1";
  to_string = text_of_bytes;
}

abbrev a_response : List Event
a_response =
    source_data (characters "data: sea")
    ∷ source_data (characters "rch\n\ndata: hello\nda")
    ∷ source_data (characters "ta: [DONE]\n")
    ∷ source_end 0
    ∷ output_close
    ∷ []

abbrev a_reply : Reply
a_reply = (run sample_host a_response (new_state false true)).reply

a_reply_written :
    a_reply.written
    ≡ delta_chunk (record { has_role = true; delta = record { path = content; value = "Hello" } })
      ∷ delta_chunk (record {
        has_role = false;
        delta = record { path = content; value = "\n\n[1]: [An example](https://example.org/)" };
      })
      ∷ stop_chunk
      ∷ done_marker
      ∷ []
unfolding run new_state
a_reply_written = refl

run-follows_protocol_example :
    ((a_reply.outcomes ≡ []) × (phase_of a_reply ≡ some (open_phase a_reply.is_first_chunk)))
    ⊎ Agrees a_reply.outcomes (phase_of a_reply)
run-follows_protocol_example = run-follows_protocol sample_host false true a_response

run-settles_example : length a_reply.outcomes ≡ 1
run-settles_example = run-settles sample_host false true a_response refl

run-cites_public_example : All (IsPublicResult sample_host) (cited a_reply.decoder)
run-cites_public_example = run-cites_public sample_host false true a_response

abbrev start : State
start = new_state false true

-- "data: he" and "llo" with the end of the line.
abbrev first_bytes : List ℕ
first_bytes = 100 ∷ 97 ∷ 116 ∷ 97 ∷ 58 ∷ 32 ∷ 104 ∷ 101 ∷ []

abbrev rest_bytes : List (List ℕ)
rest_bytes = (108 ∷ 108 ∷ 111 ∷ 10 ∷ []) ∷ []

handle_stream-pieces_example :
    ((deliver sample_host (map byte_buffer (first_bytes ∷ rest_bytes)) start).reply
      ≡ (on_data sample_host (byte_buffer (concat_bytes first_bytes rest_bytes)) start).reply)
    × ((on_end sample_host 0
          (deliver sample_host (map byte_buffer (first_bytes ∷ rest_bytes)) start)).reply
        ≡ (on_end sample_host 0
            (on_data sample_host (byte_buffer (concat_bytes first_bytes rest_bytes)) start)).reply)
handle_stream-pieces_example =
    handle_stream-pieces sample_host first_bytes rest_bytes start 0 (refl, tt)

delivered_bytes :
    length (deliver sample_host (map byte_buffer (first_bytes ∷ rest_bytes)) start).reply.written
    ≡ 1
unfolding deliver new_state
delivered_bytes = refl

normalized_reason-IsCode_example :
    All IsCodeChar (normalized_reason sample_host " content filter! ")
    × (length (normalized_reason sample_host " content filter! ") ≤ 64)
normalized_reason-IsCode_example = normalized_reason-IsCode sample_host " content filter! "

normalized_reason_of :
    text_of (normalized_reason sample_host " content filter! ") ≡ "content_filter"
unfolding normalized_reason text_of
normalized_reason_of = refl

abbrev muted_payload : Payload
muted_payload = read_payload sample_host (some muted)

payload_error-IsKnownError_example : IsKnownError (payload_error sample_host muted_payload 0)
payload_error-IsKnownError_example = payload_error-IsKnownError sample_host muted_payload 0

payload_error-none_example :
    (payload_error sample_host muted_payload 0 ≡ none) ↔ (is_clean muted_payload ≡ true)
payload_error-none_example = payload_error-none sample_host muted_payload 0

abbrev pieces : List Chunk
pieces = characters "data: search\nda" ∷ characters "ta: hello\n" ∷ []

handle_non_stream_answers : handle_non_stream sample_host false true pieces false 0 ≡ (
  success,
  some (record {
    content_text = "Hello\n\n[1]: [An example](https://example.org/)";
    reasoning = none;
  }),
)
unfolding handle_non_stream
handle_non_stream_answers = refl

handle_non_stream-IsReported_example :
    IsReported (handle_non_stream sample_host false true pieces false 0)
handle_non_stream-IsReported_example =
    handle_non_stream-IsReported sample_host false true pieces false 0

new-IsSameRead : IsSameRead (new_state false true).reply (new_collected false true)
unfolding new_state new_collected
new-IsSameRead = record {
  is_done = refl;
  decoder = refl;
  content_text = refl;
  reasoning_text = refl;
  non_sse_body = refl;
}

abbrev lines : List String
lines = "data: search" ∷ "data: hello" ∷ "data: busy" ∷ []

lines-AgreeOn_example :
    AgreeOn
      (handle_lines sample_host lines start.reply)
      (collect_lines sample_host lines (new_collected false true))
unfolding read_line
lines-AgreeOn_example =
    lines-AgreeOn sample_host lines start.reply (new_collected false true) refl new-IsSameRead
