-- ===== src/ApiKeys/Store/Rotation.antt =====
-- What a rotation leaves: the successor, and the old key until its grace period ends.
use text.Mathlib.TextEquality.{eq_iff}
use chat2api_web_gateway.ApiKeys.Store.Lookup.{insert_api_key-some, create_api_key-some}
use chat2api_web_gateway.Prelude.{
  ◌===◌, Option-cases, get, put, get-put, get-put_self, ℕ, ◌+◌, ◌*◌, ◌≤◌, ◌<◌, String, ◌≡◌, refl,
  sym, ap, ◌∙◌, subst, inl, inr, true, false, Option, none, some, arith,
}
use chat2api_web_gateway.Crypto.{Crypto}
use chat2api_web_gateway.ApiKeys.Records.{StoredApiKey}
use chat2api_web_gateway.ApiKeys.Store.{
  Keys, Fresh, CreatedApiKey, get_api_key_by_id, new_row, create_api_key, is_expired,
  rotation_input, retired_row, rotated, rotate_api_key,
}

-- The successor may do what the old key may, and the two name each other.
pub record Succeeds (old retired new : StoredApiKey) : Type 0 where
  pub same_scopes : new.scopes ≡ old.scopes
  pub same_models : new.model_allowlist ≡ old.model_allowlist
  pub same_rate : new.requests_per_minute ≡ old.requests_per_minute
  pub same_quota : new.daily_quota ≡ old.daily_quota
  pub same_cidrs : new.allowed_cidrs ≡ old.allowed_cidrs
  pub is_on : new.enabled ≡ true
  pub is_fresh : new.usage_count ≡ 0
  pub names_old : new.rotated_from_id ≡ some old.id
  pub names_new : retired.replaced_by_id ≡ some new.id
  pub same_name : new.name ≡ old.name
  pub keeps_rest :
      retired
      ≡ record old { expires_at = retired.expires_at; replaced_by_id = retired.replaced_by_id }

rotate_api_key-some :
    (crypto : Crypto) (keys keys' : Keys) (id : String) (grace : ℕ) (expires_at : Option ℕ)
    (fresh : Fresh) (now : ℕ) (created : CreatedApiKey)
    → rotate_api_key crypto keys id grace expires_at fresh now ≡ rotated keys' created
    → (old : StoredApiKey) × (middle : Keys) × (get id keys ≡ some old)
      × (create_api_key crypto keys (rotation_input old expires_at) fresh now
          ≡ some (middle, created))
      × (keys' ≡ put id (retired_row old (now + grace * 60000) created.row.id) middle)
unfolding rotate_api_key get_api_key_by_id
rotate_api_key-some crypto keys keys' id grace expires_at fresh now created h =
    elim (Option-cases (get id keys)) [
      | inl gone ↦ absurd (ground (arith, h, gone))
      | inr (old, here) ↦
          elim (Option-cases
            (create_api_key crypto keys (rotation_input old expires_at) fresh now)) [
              | inl failed ↦ absurd (ground (arith, h, here, failed))
              | inr ((middle, made), ok) ↦
                  let same : made ≡ created = ground (arith, h, here, ok) in
                  let tables : keys'
                      ≡ put id (retired_row old (now + grace * 60000) made.row.id) middle =
                    ground (arith, h, here, ok) in
                  (old, middle, here, rw ok (rw same refl), rw tables (rw same refl))
            ]
    ]

-- From the end of the grace period on the old key has expired, and never later than before.
grace_end :
    (old : StoredApiKey) (grace_until t : ℕ) (new : String)
    → 0 < grace_until
    → grace_until ≤ t
    → is_expired (retired_row old grace_until new) t ≡ true
grace_end old grace_until t new pos h = elim (Option-cases old.expires_at) [
  | inl never ↦ simp never (ground arith)
  | inr (e, some_day) ↦ simp some_day (ground arith)
]

earlier_expiry :
    (old : StoredApiKey) (grace_until t : ℕ) (new : String)
    → 0 < grace_until
    → is_expired old t ≡ true
    → is_expired (retired_row old grace_until new) t ≡ true
earlier_expiry old grace_until t new pos h = elim (Option-cases old.expires_at) [
  | inl never ↦ absurd (ground (arith, h, never))
  | inr (e, some_day) ↦ simp some_day (ground (arith, h, some_day))
]

-- What a rotation of `id` makes of the table, `until` being the end of the grace period.
pub record IsRotation (keys : Keys) (id : String) (until : ℕ) (expires_at : Option ℕ) (keys' : Keys)
    (new : StoredApiKey) : Type 0 where
  pub old : StoredApiKey
  pub retired : StoredApiKey
  pub was : get id keys ≡ some old
  pub became : get id keys' ≡ some retired
  pub added : get new.id keys' ≡ some new
  pub succeeds : Succeeds old retired new
  pub expiry : new.expires_at ≡ expires_at
  pub no_later : (t : ℕ) → is_expired old t ≡ true → is_expired retired t ≡ true
  pub ends : (t : ℕ) → until ≤ t → is_expired retired t ≡ true
  pub others : (j : String) → (id === j) ≡ false → (new.id === j) ≡ false → get j keys' ≡ get j keys

new_row-IsRotation :
    (crypto : Crypto) (keys : Keys) (id : String) (until : ℕ) (expires_at : Option ℕ)
    (fresh : Fresh) (now : ℕ) (old : StoredApiKey)
    → 0 < until
    → get id keys ≡ some old
    → get fresh.id keys ≡ none
    → let row = new_row crypto (rotation_input old expires_at) fresh now in
      IsRotation keys id until expires_at
        (put id (retired_row old until fresh.id) (put fresh.id row keys))
        row
unfolding new_row
new_row-IsRotation crypto keys id until expires_at fresh now old pos here absent =
    let row = new_row crypto (rotation_input old expires_at) fresh now in
    let retired = retired_row old until fresh.id in
    let middle = put fresh.id row keys in
    record {
      old = old;
      retired = retired;
      was = here;
      became = get-put_self id retired middle;
      added = ground (
        arith,
        here,
        absent,
        eq_iff id fresh.id,
        get-put id fresh.id retired middle,
        get-put_self fresh.id row keys,
      );
      succeeds = record {
        same_scopes = refl;
        same_models = refl;
        same_rate = refl;
        same_quota = refl;
        same_cidrs = refl;
        is_on = refl;
        is_fresh = refl;
        names_old = refl;
        names_new = refl;
        same_name = refl;
        keeps_rest = refl;
      };
      expiry = refl;
      no_later = λ t. earlier_expiry old until t fresh.id pos;
      ends = λ t. grace_end old until t fresh.id pos;
      others = λ j other new.
          get-put id j retired middle ∙ rw other (get-put fresh.id j row keys ∙ rw new refl);
    }

-- A rotation that succeeds adds the successor, which has the name and the rights of the old key and no use
-- yet, and changes the old row in no field but its link to the successor and its expiry: it has expired
-- whenever it had before, and from the end of the grace period on. All other rows stay as they were.
pub rotate_api_key-IsRotation :
    (crypto : Crypto) (keys keys' : Keys) (id : String) (grace : ℕ) (expires_at : Option ℕ)
    (fresh : Fresh) (now : ℕ) (created : CreatedApiKey)
    → 0 < now
    → rotate_api_key crypto keys id grace expires_at fresh now ≡ rotated keys' created
    → IsRotation keys id (now + grace * 60000) expires_at keys' created.row
unfolding new_row
rotate_api_key-IsRotation crypto keys keys' id grace expires_at fresh now created pos h =
    let (old, middle, here, made, tables) =
      rotate_api_key-some crypto keys keys' id grace expires_at fresh now created h in
    let row = new_row crypto (rotation_input old expires_at) fresh now in
    let (is_made, inserted) =
      create_api_key-some crypto keys middle (rotation_input old expires_at) fresh now created
        made in
    let (absent, _, added) = insert_api_key-some keys middle row inserted in
    let own : created.row ≡ row = ap (λ c. c.row) is_made in
    let until = now + grace * 60000 in
    let tables' : keys' ≡ put id (retired_row old until fresh.id) (put fresh.id row keys) =
      tables
      ∙ ap (λ (m : Keys). put id (retired_row old until created.row.id) m) added
      ∙ ap (λ (r : StoredApiKey). put id (retired_row old until r.id) (put fresh.id row keys))
          own in
    subst (λ r. IsRotation keys id until expires_at keys' r) (sym own)
      (subst (λ k. IsRotation keys id until expires_at k row) (sym tables')
        (new_row-IsRotation crypto keys id until expires_at fresh now old (omega arith) here
          absent))
