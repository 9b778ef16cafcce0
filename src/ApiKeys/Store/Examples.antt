-- ===== src/ApiKeys/Store/Examples.antt =====
-- A key that is created, rotated and guarded.
use chat2api_web_gateway.Prelude.{
  ◌===◌, if◌then◌else◌, get, put, ℕ, String, ◌≡◌, refl, true, false, none, some, [], ◌∷◌, arith,
}
use chat2api_web_gateway.Crypto.{Crypto}
use chat2api_web_gateway.ApiKeys.Records.{chat, StoredApiKey, CreateApiKeyInput}
use chat2api_web_gateway.ApiKeys.Store.{
  Keys, Fresh, get_api_key_by_id, insert_api_key, new_row, create_api_key, is_expired, find_api_key,
  ApiKeyUpdates, apply_updates, update_api_key, no_updates, rotation_input, retired_row, not_found,
  rotate_api_key, delete_api_key,
}
use chat2api_web_gateway.ApiKeys.Store.Lookup.{create_api_key-find}
use chat2api_web_gateway.ApiKeys.Store.Rotation.{IsRotation, rotate_api_key-IsRotation}
use chat2api_web_gateway.ApiKeys.Store.Guards.{changed_at, writers-can_change}

-- Texts stand for their own digests here.
abbrev crypto : Crypto
crypto = record { sha256 = λ s. s }

abbrev input : CreateApiKeyInput
input = record {
  name = "client";
  scopes = chat ∷ [];
  model_allowlist = none;
  requests_per_minute = 30;
  daily_quota = 100;
  expires_at = some 9000000;
  allowed_cidrs = none;
  rotated_from_id = none;
}

abbrev one : Fresh
one = record { raw_key = "c2a_one"; id = "k1" }

abbrev two : Fresh
two = record { raw_key = "c2a_two"; id = "k2" }

abbrev row_one : StoredApiKey
row_one = new_row crypto input one 1000

abbrev keys_one : Keys
keys_one = put "k1" row_one []

create_api_key-find_example :
    ((later : ℕ)
      → find_api_key crypto keys_one "c2a_one" later
        ≡ (if is_expired row_one later then none else some row_one))
    × ((other : String) (later : ℕ)
        → ("c2a_one" === other) ≡ false
        → find_api_key crypto keys_one other later ≡ find_api_key crypto [] other later)
unfolding create_api_key insert_api_key new_row get put
create_api_key-find_example =
    create_api_key-find crypto [] keys_one input one 1000
      (record { raw_key = "c2a_one"; row = row_one }) refl

abbrev row_two : StoredApiKey
row_two = new_row crypto (rotation_input row_one none) two 2000

abbrev keys_two : Keys
keys_two = put "k1" (retired_row row_one 62000 "k2") (put "k2" row_two keys_one)

rotate_api_key-IsRotation_example : IsRotation keys_one "k1" 62000 none keys_two row_two
unfolding rotate_api_key get_api_key_by_id create_api_key insert_api_key new_row get put
rotate_api_key-IsRotation_example =
    rotate_api_key-IsRotation crypto keys_one keys_two "k1" 1 none two 2000
      (record { raw_key = "c2a_two"; row = row_two }) (omega arith) refl

-- The old key is found for a minute more.
grace_lookups :
    (find_api_key crypto keys_two "c2a_one" 61999 ≡ some (retired_row row_one 62000 "k2"))
    × (find_api_key crypto keys_two "c2a_one" 62000 ≡ none)
unfolding find_api_key new_row get put
grace_lookups = (refl, refl)

abbrev raised : ApiKeyUpdates
raised = record no_updates { daily_quota = some 500 }

writers-can_change_example :
    ((update_api_key keys_one "k1" raised).1 ≡ true)
    × ((delete_api_key keys_one "k1").1 ≡ true)
    × ((j : String)
        → get j (update_api_key keys_one "k1" raised).0
          ≡ changed_at keys_one "k1" (λ row. some (apply_updates row raised)) j)
    × ((j : String)
        → get j (delete_api_key keys_one "k1").0 ≡ changed_at keys_one "k1" (λ row. none) j)
    × (true ≡ false → (update_api_key keys_one "k1" raised).0 ≡ keys_one)
    × (true ≡ false → (delete_api_key keys_one "k1").0 ≡ keys_one)
    × (true ≡ false → rotate_api_key crypto keys_one "k1" 1 none two 2000 ≡ not_found)
unfolding get put
writers-can_change_example = writers-can_change crypto keys_one "k1" raised 1 none two 2000
