-- ===== src/ApiKeys/Store/Lookup.antt =====
-- A key that was created is found by its secret.
use chat2api_web_gateway.Prelude.{
  ◌===◌, if◌then◌else◌, ===_refl, find, any, get, put, ℕ, String, ◌≡◌, refl, ap, ◌∙◌, subst, Bool,
  true, false, none, some, List, [], ◌∷◌, arith,
}
use chat2api_web_gateway.Crypto.{Crypto, hash_secret}
use chat2api_web_gateway.ApiKeys.Records.{StoredApiKey, CreateApiKeyInput}
use chat2api_web_gateway.ApiKeys.Store.{
  Keys, Fresh, CreatedApiKey, has_hash, insert_api_key, new_row, create_api_key, is_expired,
  has_live_hash, find_api_key,
}

-- A new entry is found exactly when it passes, if no other does.
find-put_new :
    {V : Type 0} (p : String × V → Bool) (k : String) (v : V) (m : List (String × V))
    → get k m ≡ none
    → any p m ≡ false
    → find p (put k v m) ≡ (if p (k, v) then some (k, v) else none)
unfolding put get
find-put_new p k v [] h a = refl
find-put_new p k v ((j, w) ∷ m) h a = ground (arith, find-put_new p k v m)

-- A new entry that does not pass changes no search.
find-put_other :
    {V : Type 0} (p : String × V → Bool) (k : String) (v : V) (m : List (String × V))
    → get k m ≡ none
    → p (k, v) ≡ false
    → find p (put k v m) ≡ find p m
unfolding put get
find-put_other p k v [] h a = ground arith
find-put_other p k v ((j, w) ∷ m) h a = ground (arith, find-put_other p k v m)

no_live_hash :
    (digest : String) (keys : Keys)
    → any (has_hash digest) keys ≡ false
    → any (has_live_hash digest) keys ≡ false
no_live_hash digest [] h = refl
no_live_hash digest (entry ∷ keys) h = ground (arith, no_live_hash digest keys)

pub insert_api_key-some :
    (keys keys' : Keys) (row : StoredApiKey)
    → insert_api_key keys row ≡ some keys'
    → (get row.id keys ≡ none)
      × (any (has_hash row.key_hash) keys ≡ false)
      × (keys' ≡ put row.id row keys)
unfolding insert_api_key
insert_api_key-some keys keys' row h = ground arith

pub create_api_key-some :
    (crypto : Crypto) (keys keys' : Keys) (input : CreateApiKeyInput) (fresh : Fresh) (now : ℕ)
    (created : CreatedApiKey)
    → create_api_key crypto keys input fresh now ≡ some (keys', created)
    → (created ≡ record { raw_key = fresh.raw_key; row = new_row crypto input fresh now })
      × (insert_api_key keys (new_row crypto input fresh now) ≡ some keys')
unfolding create_api_key
create_api_key-some crypto keys keys' input fresh now created h = ground arith

find_api_key-put :
    (crypto : Crypto) (keys : Keys) (row : StoredApiKey) (raw_key : String) (later : ℕ)
    → get row.id keys ≡ none
    → any (has_hash row.key_hash) keys ≡ false
    → row.enabled ≡ true
    → row.key_hash ≡ hash_secret crypto raw_key
    → find_api_key crypto (put row.id row keys) raw_key later
      ≡ (if is_expired row later then none else some row)
unfolding find_api_key
find_api_key-put crypto keys row raw_key later h a on same =
    let found =
      find-put_new (has_live_hash row.key_hash) row.id row keys h
        (no_live_hash row.key_hash keys a) in
    let found' : find (has_live_hash (hash_secret crypto raw_key)) (put row.id row keys)
        ≡ some (row.id, row) =
      subst (λ d. find (has_live_hash d) (put row.id row keys) ≡ some (row.id, row)) same
        (found ∙ ground (arith, ===_refl row.key_hash)) in
    rw (found', find_api_key)
      (ground (arith, ap crypto.sha256 same, ===_refl (crypto.sha256 row.key_hash)))

find_api_key-put_other :
    (crypto : Crypto) (keys : Keys) (row : StoredApiKey) (other : String) (later : ℕ)
    → get row.id keys ≡ none
    → (row.key_hash === hash_secret crypto other) ≡ false
    → find_api_key crypto (put row.id row keys) other later ≡ find_api_key crypto keys other later
unfolding find_api_key
find_api_key-put_other crypto keys row other later h ne =
    let same =
      find-put_other (has_live_hash (hash_secret crypto other)) row.id row keys h (ground arith) in
    rw (same, find_api_key) refl

-- If a key could be created, its secret finds the new record as long as this has not expired, and
-- every secret with another hash finds what it found before.
pub create_api_key-find :
    (crypto : Crypto) (keys keys' : Keys) (input : CreateApiKeyInput) (fresh : Fresh) (now : ℕ)
    (created : CreatedApiKey)
    → create_api_key crypto keys input fresh now ≡ some (keys', created)
    → ((later : ℕ)
        → find_api_key crypto keys' created.raw_key later
          ≡ (if is_expired created.row later then none else some created.row))
      × ((other : String) (later : ℕ)
          → (hash_secret crypto fresh.raw_key === hash_secret crypto other) ≡ false
          → find_api_key crypto keys' other later ≡ find_api_key crypto keys other later)
unfolding new_row
create_api_key-find crypto keys keys' input fresh now created h =
    let row = new_row crypto input fresh now in
    let (made, inserted) = create_api_key-some crypto keys keys' input fresh now created h in
    let (no_id, no_hash, new_keys) = insert_api_key-some keys keys' row inserted in
    rw (new_keys, made)
      (
        (λ later. find_api_key-put crypto keys row fresh.raw_key later no_id no_hash refl refl),
        (λ other later ne. find_api_key-put_other crypto keys row other later no_id ne),
      )
