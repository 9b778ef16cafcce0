-- ===== src/ApiKeys/Quota/Examples.antt =====
-- A quota of two, over two days.
use chat2api_web_gateway.Prelude.{
  get, put, remove, ◌+◌, ◌≤◌, ◌≡◌, refl, true, false, none, List, [], ◌∷◌, arith,
}
use chat2api_web_gateway.ApiKeys.Records.{chat, StoredApiKey}
use chat2api_web_gateway.ApiKeys.Store.{delete_api_key}
use chat2api_web_gateway.ApiKeys.Quota.{
  QuotaTables, request_count, drop_before, count_one, consume_daily_quota, Event, consumes, deletes,
}
use chat2api_web_gateway.ApiKeys.Quota.Bound.{grants, grants-le}

abbrev key : StoredApiKey
key = record {
  id = "k";
  name = "client";
  key_hash = "hash";
  key_prefix = "c2a_";
  scopes = chat ∷ [];
  model_allowlist = [];
  requests_per_minute = 30;
  daily_quota = 2;
  enabled = true;
  managed_by_environment = false;
  usage_count = 0;
  created_at = 0;
  last_used_at = none;
  expires_at = none;
  allowed_cidrs = [];
  rotated_from_id = none;
  replaced_by_id = none;
}

abbrev tables : QuotaTables
tables = record { keys = put "k" key []; usage = [] }

abbrev events : List Event
events =
    consumes key "2026-03-01" "2025-12-01" 1
    ∷ consumes key "2026-03-01" "2025-12-01" 2
    ∷ consumes key "2026-03-01" "2025-12-01" 3
    ∷ deletes "other"
    ∷ consumes key "2026-03-02" "2025-12-02" 4
    ∷ []

events-grants :
    (grants "k" "2026-03-01" tables events ≡ 2) × (grants "k" "2026-03-02" tables events ≡ 1)
unfolding grants consume_daily_quota count_one drop_before delete_api_key get put remove
events-grants = (refl, refl)

grants-le_example : grants "k" "2026-03-01" tables events + request_count [] "k" "2026-03-01" ≤ 2
unfolding request_count get
grants-le_example = grants-le "k" "2026-03-01" 2 tables events (ground arith) (omega arith)
