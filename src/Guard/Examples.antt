-- ===== src/Guard/Examples.antt =====
-- A key with a quota of one a day and thirty requests a minute.

use chat2api_web_gateway.AddressList.{Platform}
use chat2api_web_gateway.Crypto.{Crypto}
use chat2api_web_gateway.ApiKeys.Records.{chat, StoredApiKey}
use chat2api_web_gateway.ApiKeys.Quota.{request_count, drop_before, count_one}
use chat2api_web_gateway.Guard.{Request, Clock, GuardState, read_bearer_token, api_key_guard}
use chat2api_web_gateway.Guard.Answers.{IsAnswer, api_key_guard-IsAnswer}
use chat2api_web_gateway.Guard.Quota.{Call, admissions, admissions-le}
use chat2api_web_gateway.Prelude.{
  get, put, ◌+◌, ◌≤◌, ◌≡◌, refl, true, false, none, some, [], ◌∷◌, arith,
}

-- Texts stand for their own digests here.
abbrev crypto : Crypto
crypto = record { sha256 = λ s. s }

abbrev anywhere : Platform
anywhere = record {
  is_ip = λ s. 4;
  to_number = λ s. none;
  to_hex = λ n. "0";
  to_lower_case = λ s. s;
}

abbrev key : StoredApiKey
key = record {
  id = "k";
  name = "client";
  key_hash = "secret";
  key_prefix = "secret";
  scopes = chat ∷ [];
  model_allowlist = [];
  requests_per_minute = 30;
  daily_quota = 1;
  enabled = true;
  managed_by_environment = false;
  usage_count = 0;
  created_at = 0;
  last_used_at = none;
  expires_at = none;
  allowed_cidrs = [];
  rotated_from_id = none;
  replaced_by_id = none;
}

abbrev start : GuardState
start = record {
  limiter = record { windows = [] };
  tables = record { keys = put "k" key []; usage = [] };
}

abbrev request : Request
request = record { authorization = some "Bearer secret"; ip = "127.0.0.1" }

abbrev clock : Clock
clock = record { now = 1000; today = "2026-03-01"; cutoff = "2025-12-01" }

abbrev call : Call
call = record { scope = chat; request = request; clock = clock }

api_key_guard-IsAnswer_example :
    IsAnswer crypto anywhere chat request clock start
      (api_key_guard crypto anywhere chat request clock start)
api_key_guard-IsAnswer_example = api_key_guard-IsAnswer crypto anywhere chat request clock start

admissions-le_example :
    admissions crypto anywhere "k" "2026-03-01" start (call ∷ call ∷ [])
      + request_count start.tables.usage "k" "2026-03-01"
    ≤ 1
unfolding put get request_count
admissions-le_example =
    admissions-le crypto anywhere "k" "2026-03-01" 1 start (call ∷ call ∷ []) (refl, (refl, tt))
      (λ same. omega arith, tt) (omega arith)

-- The first request is admitted, the second is not.
two_requests : admissions crypto anywhere "k" "2026-03-01" start (call ∷ call ∷ []) ≡ 1
unfolding admissions api_key_guard put get request_count drop_before count_one
two_requests = refl

bearer_tokens :
    (read_bearer_token request ≡ some "secret")
    × (read_bearer_token (record request { authorization = some "Bearer two words" }) ≡ none)
unfolding read_bearer_token
bearer_tokens = (refl, refl)
