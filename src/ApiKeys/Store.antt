-- ===== src/ApiKeys/Store.antt =====
-- The table `api_keys` and its methods. Rows are entries under their primary key; an exception is
-- `none`, and leaves the tables as they were, since each writer is a transaction or one statement.
pub mod Lookup
pub mod Rotation
pub mod Guards
mod Examples
use mathlib.Core.Option
use mathlib.Core.Option.{get_or}
use chat2api_web_gateway.Prelude.{
  ltb, leb, ◌===◌, if◌then◌else◌, filter, find, any, get, put, remove, ℕ, ◌+◌, ◌*◌, min, String,
  Bool, true, false, not, ◌&&◌, Option, none, some, List, [], ◌∷◌,
}
use chat2api_web_gateway.Crypto.{Crypto, hash_secret, constant_time_equal, secret_prefix}
use chat2api_web_gateway.ApiKeys.Records.{
  chat, models, environment_api_key_id, StoredApiKey, CreateApiKeyInput,
}

abbrev pub Keys : Type 0
Keys = List (String × StoredApiKey)

-- What `generateApiKey()` and `randomUUID()` give.
pub record Fresh : Type 0 where
  pub raw_key : String
  pub id : String

pub record CreatedApiKey : Type 0 where
  pub raw_key : String
  pub row : StoredApiKey

unfoldable pub get_api_key_by_id : Keys → String → Option StoredApiKey
get_api_key_by_id keys id = get id keys

-- The constraints `PRIMARY KEY` on the id and `UNIQUE` on the hash.
abbrev pub has_hash : String → String × StoredApiKey → Bool
has_hash digest entry = entry.1.key_hash === digest

unfoldable pub insert_api_key : Keys → StoredApiKey → Option Keys
insert_api_key keys row = elim (get row.id keys) [
  | some other ↦ none
  | none ↦ if any (has_hash row.key_hash) keys then none else some (put row.id row keys)
]

unfoldable pub new_row : Crypto → CreateApiKeyInput → Fresh → ℕ → StoredApiKey
unfolding secret_prefix
new_row crypto input fresh now = record {
  id = fresh.id;
  name = input.name;
  key_hash = hash_secret crypto fresh.raw_key;
  key_prefix = secret_prefix fresh.raw_key;
  scopes = input.scopes;
  model_allowlist = get_or input.model_allowlist [];
  requests_per_minute = input.requests_per_minute;
  daily_quota = input.daily_quota;
  enabled = true;
  managed_by_environment = false;
  usage_count = 0;
  created_at = now;
  last_used_at = none;
  expires_at = input.expires_at;
  allowed_cidrs = get_or input.allowed_cidrs [];
  rotated_from_id = input.rotated_from_id;
  replaced_by_id = none;
}

unfoldable pub create_api_key :
    Crypto → Keys → CreateApiKeyInput → Fresh → ℕ → Option (Keys × CreatedApiKey)
create_api_key crypto keys input fresh now =
    let row = new_row crypto input fresh now in
    Option.map (λ keys'. (keys', record { raw_key = fresh.raw_key; row = row }))
      (insert_api_key keys row)

-- `record.expiresAt && record.expiresAt <= Date.now()`: 0 is falsy.
abbrev pub is_expired : StoredApiKey → ℕ → Bool
is_expired row now = elim row.expires_at [ none ↦ false | some t ↦ ltb 0 t && leb t now ]

-- `WHERE key_hash = ? AND enabled = 1`.
abbrev pub has_live_hash : String → String × StoredApiKey → Bool
has_live_hash digest entry = has_hash digest entry && entry.1.enabled

unfoldable pub find_api_key : Crypto → Keys → String → ℕ → Option StoredApiKey
find_api_key crypto keys raw_key now =
    let digest = hash_secret crypto raw_key in
    elim (find (has_live_hash digest) keys) [
      | none ↦ none
      | some (id, row) ↦
          if not (constant_time_equal crypto digest row.key_hash)
          then none
          else if is_expired row now
          then none
          else some row
    ]

-- A field of `updates` that is left out is `none`; `expires_at` may be given and be `undefined`.
pub record ApiKeyUpdates : Type 0 where
  pub enabled : Option Bool
  pub requests_per_minute : Option ℕ
  pub daily_quota : Option ℕ
  pub model_allowlist : Option (List String)
  pub expires_at : Option (Option ℕ)
  pub allowed_cidrs : Option (List String)

abbrev pub apply_updates : StoredApiKey → ApiKeyUpdates → StoredApiKey
apply_updates current updates = record current {
  enabled = get_or updates.enabled current.enabled;
  requests_per_minute = elim updates.requests_per_minute [
    | none ↦ current.requests_per_minute
    | some n ↦ n
  ];
  daily_quota = elim updates.daily_quota [ none ↦ current.daily_quota | some n ↦ n ];
  model_allowlist = get_or updates.model_allowlist current.model_allowlist;
  expires_at = get_or updates.expires_at current.expires_at;
  allowed_cidrs = get_or updates.allowed_cidrs current.allowed_cidrs;
}

abbrev pub is_environment : String → Bool
is_environment id = id === environment_api_key_id

unfoldable pub update_api_key : Keys → String → ApiKeyUpdates → Keys × Bool
update_api_key keys id updates =
    if is_environment id then (keys, false) else elim (get_api_key_by_id keys id) [
      | none ↦ (keys, false)
      | some current ↦ (put id (apply_updates current updates) keys, true)
    ]

abbrev pub no_updates : ApiKeyUpdates
no_updates = record {
  enabled = none;
  requests_per_minute = none;
  daily_quota = none;
  model_allowlist = none;
  expires_at = none;
  allowed_cidrs = none;
}

unfoldable pub set_api_key_enabled : Keys → String → Bool → Keys × Bool
set_api_key_enabled keys id enabled =
    update_api_key keys id (record no_updates { enabled = some enabled })

-- `current.expiresAt ? Math.min(current.expiresAt, graceUntil) : graceUntil`.
abbrev pub expiry_after : Option ℕ → ℕ → ℕ
expiry_after none grace_until = grace_until
expiry_after (some t) grace_until = if ltb 0 t then min t grace_until else grace_until

abbrev pub rotation_input : StoredApiKey → Option ℕ → CreateApiKeyInput
rotation_input current expires_at = record {
  name = current.name;
  scopes = current.scopes;
  model_allowlist = some current.model_allowlist;
  requests_per_minute = current.requests_per_minute;
  daily_quota = current.daily_quota;
  expires_at = expires_at;
  allowed_cidrs = some current.allowed_cidrs;
  rotated_from_id = some current.id;
}

-- The row of the old key after its successor was made.
abbrev pub retired_row : StoredApiKey → ℕ → String → StoredApiKey
retired_row current grace_until successor = record current {
  expires_at = some (expiry_after current.expires_at grace_until);
  replaced_by_id = some successor;
}

-- What a rotation comes to: `undefined`, an exception, or the new key.
pub data RotateResult : Type 0 where
  not_found : RotateResult
  thrown : RotateResult
  rotated : Keys → CreatedApiKey → RotateResult

unfoldable pub rotate_api_key : Crypto → Keys → String → ℕ → Option ℕ → Fresh → ℕ → RotateResult
rotate_api_key crypto keys id grace_period_minutes expires_at fresh now =
    if is_environment id then not_found else elim (get_api_key_by_id keys id) [
      | none ↦ not_found
      | some current ↦
          elim (create_api_key crypto keys (rotation_input current expires_at) fresh now) [
            | none ↦ thrown
            | some (keys', created) ↦
                rotated
                  (put id (retired_row current (now + grace_period_minutes * 60000) created.row.id)
                    keys')
                  created
          ]
    ]

unfoldable pub delete_api_key : Keys → String → Keys × Bool
delete_api_key keys id =
    if is_environment id
    then (keys, false)
    else elim (get id keys) [ none ↦ (keys, false) | some row ↦ (remove id keys, true) ]

-- `DELETE … WHERE name = 'Bootstrap key' AND id != ?`.
abbrev pub without_old_bootstrap : Keys → Keys
without_old_bootstrap keys =
    filter (λ entry. not (entry.1.name === "Bootstrap key" && not (is_environment entry.0))) keys

-- The row that is inserted, or that the row in its place is updated to.
abbrev pub bootstrap_row : Crypto → Option StoredApiKey → String → ℕ → ℕ → ℕ → StoredApiKey
bootstrap_row crypto present raw_key requests_per_minute daily_quota now = record {
  id = environment_api_key_id;
  name = "Bootstrap key";
  key_hash = hash_secret crypto raw_key;
  key_prefix = secret_prefix raw_key;
  scopes = chat ∷ models ∷ [];
  model_allowlist = [];
  requests_per_minute = requests_per_minute;
  daily_quota = daily_quota;
  enabled = true;
  managed_by_environment = true;
  usage_count = elim present [ none ↦ 0 | some row ↦ row.usage_count ];
  created_at = elim present [ none ↦ now | some row ↦ row.created_at ];
  last_used_at = elim present [ none ↦ none | some row ↦ row.last_used_at ];
  expires_at = none;
  allowed_cidrs = [];
  rotated_from_id = none;
  replaced_by_id = none;
}

unfoldable pub seed_bootstrap_api_key : Crypto → Keys → String → ℕ → ℕ → ℕ → Option Keys
seed_bootstrap_api_key crypto keys raw_key requests_per_minute daily_quota now =
    let kept = without_old_bootstrap keys in
    let row =
      bootstrap_row crypto (get environment_api_key_id kept) raw_key requests_per_minute daily_quota
        now in
    if any (has_hash row.key_hash) (remove environment_api_key_id kept)
    then none
    else some (put environment_api_key_id row kept)
