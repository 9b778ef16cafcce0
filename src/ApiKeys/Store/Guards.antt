-- ===== src/ApiKeys/Store/Guards.antt =====
-- Which keys the writers change, and what they say.
use text.Mathlib.TextEquality.{eq_iff}
use chat2api_web_gateway.Prelude.{
  ◌===◌, if◌then◌else◌, Option-cases, get, get-put, get-remove, ℕ, String, ◌≡◌, inl, inr, Bool,
  true, false, not, ◌&&◌, Option, none, some, arith,
}
use chat2api_web_gateway.Crypto.{Crypto}
use chat2api_web_gateway.ApiKeys.Records.{StoredApiKey}
use chat2api_web_gateway.ApiKeys.Store.{
  Keys, Fresh, get_api_key_by_id, ApiKeyUpdates, apply_updates, is_environment, update_api_key,
  not_found, rotate_api_key, delete_api_key,
}

abbrev pub has_row : Keys → String → Bool
has_row keys id = elim (get id keys) [ none ↦ false | some row ↦ true ]

-- A key may be changed: it exists, and is not the one that the environment manages.
abbrev pub can_change : Keys → String → Bool
can_change keys id = not (is_environment id) && has_row keys id

-- What one entry becomes where it may be changed.
abbrev pub changed_at :
    Keys → String → (StoredApiKey → Option StoredApiKey) → String → Option StoredApiKey
changed_at keys id change j =
    if can_change keys id && id === j
    then elim (get j keys) [ none ↦ none | some row ↦ change row ]
    else get j keys

get-update :
    (keys : Keys) (id j : String) (updates : ApiKeyUpdates)
    → get j (update_api_key keys id updates).0
      ≡ changed_at keys id (λ row. some (apply_updates row updates)) j
unfolding update_api_key get_api_key_by_id
get-update keys id j updates = elim (Option-cases (get id keys)) [
  | inl gone ↦ ground (arith, gone)
  | inr (row, here) ↦
      ground (arith, here, get-put id j (apply_updates row updates) keys, eq_iff id j)
]

get-delete :
    (keys : Keys) (id j : String)
    → get j (delete_api_key keys id).0 ≡ changed_at keys id (λ row. none) j
unfolding delete_api_key
get-delete keys id j = ground (arith, get-remove id j keys, eq_iff id j)

-- Updates and deletions answer whether the key exists and is not that of the environment. If so they
-- change its row alone, as asked, or drop it; if not they change nothing, and a rotation finds no key.
pub writers-can_change :
    (crypto : Crypto) (keys : Keys) (id : String) (updates : ApiKeyUpdates) (grace : ℕ)
    (expires_at : Option ℕ) (fresh : Fresh) (now : ℕ)
    → ((update_api_key keys id updates).1 ≡ can_change keys id)
      × ((delete_api_key keys id).1 ≡ can_change keys id)
      × ((j : String)
          → get j (update_api_key keys id updates).0
            ≡ changed_at keys id (λ row. some (apply_updates row updates)) j)
      × ((j : String) → get j (delete_api_key keys id).0 ≡ changed_at keys id (λ row. none) j)
      × (can_change keys id ≡ false → (update_api_key keys id updates).0 ≡ keys)
      × (can_change keys id ≡ false → (delete_api_key keys id).0 ≡ keys)
      × (can_change keys id ≡ false
          → rotate_api_key crypto keys id grace expires_at fresh now ≡ not_found)
unfolding update_api_key delete_api_key rotate_api_key get_api_key_by_id
writers-can_change crypto keys id updates grace expires_at fresh now = (
  ground arith,
  ground arith,
  (λ j. get-update keys id j updates),
  (λ j. get-delete keys id j),
  (λ h. ground arith),
  (λ h. ground arith),
  (λ h. ground arith),
)
