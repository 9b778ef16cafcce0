-- ===== src/Stream/Errors.antt =====
-- The errors that the provider reports in an event or in a JSON body, with the code, the status and the
-- waiting time that the gateway gives them (deepseek-stream.ts, `DeepSeekProviderError` to
-- `providerResponseErrorCode`).
pub mod Codes
use Prim.Native.Char.{Char, code as code_point}
use Prim.Native.String.{◌++◌ as join}
use chat2api_web_gateway.Strings.{Chars, chars, text_of, is_digit, strip, trim, includes}
use chat2api_web_gateway.Stream.Json.{
  Json, text, Fields, get_field, record_of, safe_string, member, number_of, is_text, is_true_or_1,
  or_else, first_of,
}
use chat2api_web_gateway.Prelude.{
  leb, ◌==◌, ◌===◌, if◌then◌else◌, take, ℕ, zero, suc, ◌-◌, ◌*◌, max, String, Bool, true, false,
  not, ◌&&◌, ◌||◌, Option, none, some, List, [], ◌∷◌,
}

-- What the stream code calls and does not define: `JSON.parse`, `new URL`, `toLowerCase`, `slice(0, n)`,
-- the text of a number and the text of the bytes of a `Buffer`.
pub record Url : Type 0 where
  pub href : String
  pub protocol : String
  pub username : String
  pub password : String

pub record Host : Type 0 where
  pub parse_json : String → Option Json
  pub parse_url : String → Option Url
  pub to_lower_case : String → String
  pub slice : String → ℕ → String
  pub show_number : ℕ → String
  pub to_string : List ℕ → String

-- What a stream gives at a time: `Buffer | string`.
pub data Chunk : Type 0 where
  byte_buffer : List ℕ → Chunk
  characters : String → Chunk

-- `chunk.toString()`, which reads the bytes of each buffer on their own.
unfoldable pub chunk_text : Host → Chunk → String
chunk_text host (byte_buffer bytes) = host.to_string bytes
chunk_text host (characters s) = s

pub record ProviderError : Type 0 where
  pub code : String
  pub status : ℕ
  pub message : String
  pub retry_after_ms : Option ℕ

abbrev pub expert_busy_retry_ms : ℕ
expert_busy_retry_ms = 30000

abbrev pub expert_busy_error : ProviderError
expert_busy_error = record {
  code = "provider_expert_busy";
  status = 503;
  message = "DeepSeek Expert capacity is temporarily unavailable. Retry shortly.";
  retry_after_ms = some expert_busy_retry_ms;
}

abbrev pub rate_limited_error : ProviderError
rate_limited_error = record {
  code = "provider_rate_limited";
  status = 429;
  message = "DeepSeek rate limit reached. Retry later.";
  retry_after_ms = none;
}

-- `[a-z0-9_-]`.
unfoldable pub is_code_char : Char → Bool
unfolding is_digit
is_code_char c =
    let n = code_point c in (leb b'a' n && leb n b'z') || is_digit c || n == b'_' || n == b'-'

abbrev pub is_underscore : Char → Bool
is_underscore c = code_point c == b'_'

-- `.replace(/[^a-z0-9_-]+/g, '_')`; the test says whether a run has begun.
unfoldable pub coded : Bool → Chars → Chars
unfolding is_code_char
coded in_run [] = []
coded in_run (c ∷ cs) =
    let outside = c ∷ coded false cs in
    let inside = coded true cs in
    if is_code_char c then outside else (if in_run then inside else ("_" ∷ inside))

-- The normalized reason, before it is put behind the prefix.
unfoldable pub normalized_reason : Host → String → Chars
unfolding trim chars coded strip
normalized_reason host reason =
    take 64 (strip is_underscore (coded false (chars (host.to_lower_case (trim reason)))))

unfoldable pub provider_response_error_code : Host → Option Json → String
unfolding normalized_reason text_of safe_string
provider_response_error_code host reason = elim (normalized_reason host (safe_string reason)) [
  | [] ↦ "provider_response_error"
  | c ∷ cs ↦ join "provider_response_error_" (text_of (c ∷ cs))
]

abbrev pub failed_error : String → ProviderError
failed_error code = record {
  code = code;
  status = 502;
  message = "DeepSeek could not complete the request.";
  retry_after_ms = none;
}

abbrev pub empty_response_error : ProviderError
empty_response_error = record {
  code = "provider_empty_response";
  status = 502;
  message = "DeepSeek returned an empty response.";
  retry_after_ms = none;
}

-- What `providerErrorFromPayload` reads of a payload.
pub record Payload : Type 0 where
  pub business_code : Option ℕ
  pub business_message : String
  pub is_muted : Bool
  pub mute_until : Option ℕ

unfoldable pub read_payload : Host → Option Json → Payload
unfolding record_of safe_string number_of is_true_or_1 or_else
read_payload host value =
    let root = record_of value in
    let payload = record_of (member root "data") in
    let business_data =
      first_of (record_of (member payload "biz_data")) (record_of (member root "biz_data")) in
    let chat = record_of (member business_data "chat") in
    record {
      business_code =
          first_of (number_of (member payload "biz_code")) (number_of (member root "biz_code"));
      business_message =
          host.to_lower_case
            (safe_string (or_else (member payload "biz_msg") (member root "biz_msg")));
      is_muted =
          is_true_or_1 (member business_data "is_muted") || is_true_or_1 (member chat "is_muted");
      mute_until =
          number_of (or_else (member business_data "mute_until") (member chat "mute_until"));
    }

unfoldable pub suspended_error : Option ℕ → ℕ → ProviderError
suspended_error mute_until now = record {
  code = "provider_account_suspended";
  status = 403;
  message = "The DeepSeek account is temporarily suspended by the provider.";
  retry_after_ms = elim mute_until [ none ↦ none | some t ↦ some (max 1000 (t * 1000 - now)) ];
}

abbrev pub authentication_error : ProviderError
authentication_error = record {
  code = "provider_authentication_failed";
  status = 401;
  message = "The DeepSeek web session is invalid or expired.";
  retry_after_ms = none;
}

abbrev pub is_code : Option ℕ → ℕ → Bool
is_code none n = false
is_code (some code) n = code == n

-- The decisions of `providerErrorFromPayload`, in its order.
unfoldable pub payload_error : Host → Payload → ℕ → Option ProviderError
unfolding suspended_error provider_response_error_code
payload_error host p now =
    if is_code p.business_code 5 || p.is_muted || includes p.business_message "user is muted"
    then some (suspended_error p.mute_until now)
    else if is_code p.business_code 40003
    then some authentication_error
    else if is_code p.business_code 429 || includes p.business_message "rate limit"
    then some rate_limited_error
    else if includes p.business_message "expert_busy_use_default"
    then some expert_busy_error
    else elim p.business_code [
      | none ↦ none
      | some zero ↦ none
      | some (suc n) ↦ some (
          failed_error (
            provider_response_error_code host
              (some (text (join "biz_" (host.show_number (suc n)))))))
    ]

unfoldable pub provider_error_from_payload : Host → Option Json → ℕ → Option ProviderError
unfolding read_payload payload_error
provider_error_from_payload host value now = payload_error host (read_payload host value) now

unfoldable pub provider_error_from_json_response : Host → String → ℕ → Option ProviderError
unfolding provider_error_from_payload
provider_error_from_json_response host value now = elim (host.parse_json value) [
  | none ↦ none
  | some parsed ↦ provider_error_from_payload host (some parsed) now
]

unfoldable pub provider_error_from_chunk : Host → Fields → Option ProviderError
unfolding get_field is_text safe_string trim provider_response_error_code
provider_error_from_chunk host chunk =
    let finish_reason = host.to_lower_case (trim (safe_string (get_field "finish_reason" chunk))) in
    if not (is_text (get_field "type" chunk) "error")
    then none
    else if finish_reason === "rate_limit_reached"
    then some rate_limited_error
    else if finish_reason === "expert_busy_use_default"
    then some expert_busy_error
    else some (failed_error (provider_response_error_code host (get_field "finish_reason" chunk)))
