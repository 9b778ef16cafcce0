-- ===== src/ApiKeys/Records.antt =====
-- The records of src/main/store/store.ts that describe API keys.
use chat2api_web_gateway.Prelude.{ℕ, String, Bool, Option, List}

pub data ApiScope : Type 0 where
  chat models : ApiScope

abbrev pub environment_api_key_id : String
environment_api_key_id = "environment-bootstrap"

pub record StoredApiKey : Type 0 where
  pub id : String
  pub name : String
  pub key_hash : String
  pub key_prefix : String
  pub scopes : List ApiScope
  pub model_allowlist : List String
  pub requests_per_minute : ℕ
  pub daily_quota : ℕ
  pub enabled : Bool
  pub managed_by_environment : Bool
  pub usage_count : ℕ
  pub created_at : ℕ
  pub last_used_at : Option ℕ
  pub expires_at : Option ℕ
  pub allowed_cidrs : List String
  pub rotated_from_id : Option String
  pub replaced_by_id : Option String

pub record CreateApiKeyInput : Type 0 where
  pub name : String
  pub scopes : List ApiScope
  pub model_allowlist : Option (List String)
  pub requests_per_minute : ℕ
  pub daily_quota : ℕ
  pub expires_at : Option ℕ
  pub allowed_cidrs : Option (List String)
  pub rotated_from_id : Option String

-- A record without its hash, with today's use.
pub record PublicApiKey : Type 0 where
  pub id : String
  pub name : String
  pub key_prefix : String
  pub scopes : List ApiScope
  pub model_allowlist : List String
  pub requests_per_minute : ℕ
  pub daily_quota : ℕ
  pub enabled : Bool
  pub managed_by_environment : Bool
  pub usage_count : ℕ
  pub created_at : ℕ
  pub last_used_at : Option ℕ
  pub expires_at : Option ℕ
  pub allowed_cidrs : List String
  pub rotated_from_id : Option String
  pub replaced_by_id : Option String
  pub today_used : ℕ
