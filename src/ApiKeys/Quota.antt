-- ===== src/ApiKeys/Quota.antt =====
-- `consumeApiKeyDailyQuota`, over the tables `api_keys` and `api_key_daily_usage`. The second is a map
-- from ids to maps from dates to counts; its rows go with those of the key that they refer to.
pub mod Bound
mod Examples
use mathlib.Core.Option.{get_or}
use chat2api_web_gateway.ApiKeys.Records.{StoredApiKey, PublicApiKey}
use chat2api_web_gateway.ApiKeys.Store.{Keys, delete_api_key}
use chat2api_web_gateway.Prelude.{
  leb, if◌then◌else◌, filter, get, put, remove, is_before, ℕ, ◌+◌, String, Bool, true, false, not,
  Option, none, some, List, [], ◌∷◌,
}

abbrev pub Dates : Type 0
Dates = List (String × ℕ)

abbrev pub Usage : Type 0
Usage = List (String × Dates)

pub record QuotaTables : Type 0 where
  pub keys : Keys
  pub usage : Usage

pub record QuotaResult : Type 0 where
  pub allowed : Bool
  pub used : ℕ
  pub limit : ℕ

abbrev pub dates_of : Usage → String → Dates
dates_of usage id = get_or (get id usage) []

-- `existing?.request_count ?? 0`.
unfoldable pub request_count : Usage → String → String → ℕ
request_count usage id date = elim (get date (dates_of usage id)) [ none ↦ 0 | some n ↦ n ]

-- `DELETE … WHERE usage_date < date('now', '-90 days')`.
unfoldable pub drop_before : String → Usage → Usage
drop_before cutoff [] = []
drop_before cutoff ((id, dates) ∷ rest) =
    (id, filter (λ entry. not (is_before entry.0 cutoff)) dates) ∷ drop_before cutoff rest

-- `ON CONFLICT … DO UPDATE SET request_count = request_count + 1`.
unfoldable pub count_one : Usage → String → String → Usage
unfolding request_count
count_one usage id date =
    put id (put date (request_count usage id date + 1) (dates_of usage id)) usage

-- The snapshot `key` may be older than the table. An insertion that refers to no key throws.
unfoldable pub consume_daily_quota :
    QuotaTables → StoredApiKey → String → String → ℕ → Option (QuotaTables × QuotaResult)
consume_daily_quota t key date cutoff now =
    let used = request_count t.usage key.id date in
    if leb key.daily_quota used
    then some (t, record { allowed = false; used = used; limit = key.daily_quota })
    else elim (get key.id t.keys) [
      | none ↦ none
      | some row ↦ some (
        record {
          keys =
              put key.id (record row { usage_count = row.usage_count + 1; last_used_at = some now })
                t.keys;
          usage = drop_before cutoff (count_one t.usage key.id date);
        },
        record { allowed = true; used = used + 1; limit = key.daily_quota },
      )
    ]

-- `publicApiKey`.
pub public_api_key : Usage → StoredApiKey → String → PublicApiKey
unfolding request_count
public_api_key usage key today = record {
  id = key.id;
  name = key.name;
  key_prefix = key.key_prefix;
  scopes = key.scopes;
  model_allowlist = key.model_allowlist;
  requests_per_minute = key.requests_per_minute;
  daily_quota = key.daily_quota;
  enabled = key.enabled;
  managed_by_environment = key.managed_by_environment;
  usage_count = key.usage_count;
  created_at = key.created_at;
  last_used_at = key.last_used_at;
  expires_at = key.expires_at;
  allowed_cidrs = key.allowed_cidrs;
  rotated_from_id = key.rotated_from_id;
  replaced_by_id = key.replaced_by_id;
  today_used = request_count usage key.id today;
}

-- What happens to the tables: a request, the deletion of a key, or another change of the keys.
pub data Event : Type 0 where
  consumes : StoredApiKey → String → String → ℕ → Event
  deletes : String → Event
  changes : Keys → Event

-- The tables after an event, and whether a request was allowed.
unfoldable pub step : QuotaTables → Event → QuotaTables × Bool
step t (consumes key date cutoff now) = elim (consume_daily_quota t key date cutoff now) [
  | none ↦ (t, false)
  | some (t', answer) ↦ (t', answer.allowed)
]
step t (deletes id) =
    if (delete_api_key t.keys id).1
    then (record { keys = (delete_api_key t.keys id).0; usage = remove id t.usage }, false)
    else (t, false)
step t (changes keys) = (record t { keys = keys }, false)
