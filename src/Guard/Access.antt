-- ===== src/Guard/Access.antt =====
-- Which requests have a usable key for the guard of api-auth.ts, apart from how the guard finds it.
use mathlib.Core.Logic.{◌⊎◌, inl, inr}
use chat2api_web_gateway.Strings.{
  chars, text_of, is_space, starts_with, text_drop, chars-text_of, text_of-drop,
}
use chat2api_web_gateway.AddressList.{Platform}
use chat2api_web_gateway.AddressList.Match.{is_ip_allowed}
use chat2api_web_gateway.Crypto.{Crypto}
use chat2api_web_gateway.ApiKeys.Records.{ApiScope, chat, models, StoredApiKey}
use chat2api_web_gateway.ApiKeys.Store.{Keys, find_api_key}
use chat2api_web_gateway.Guard.{Request, read_bearer_token, same_scope, authorized}
use chat2api_web_gateway.Prelude.{
  Option-cases, length, any, drop, ℕ, ◌<◌, String, ◌≡◌, refl, sym, ap, ◌∙◌, true, false, some, List,
  [], ◌∷◌, arith,
}

abbrev pub HasScope : ApiScope → List ApiScope → Type 0
HasScope scope [] = ⊥
HasScope scope (s ∷ ss) = (s ≡ scope) ⊎ HasScope scope ss

-- The request has a bearer token, one word, of which the store finds the key; the key has the scope and
-- allows the address.
pub record IsEntitled (crypto : Crypto) (platform : Platform) (keys : Keys) (scope : ApiScope)
    (request : Request) (now : ℕ) (key : StoredApiKey) : Type 0 where
  pub header : String
  pub token : String
  pub is_sent : request.authorization ≡ some header
  pub is_bearer : starts_with header "Bearer " ≡ true
  pub follows : text_drop 7 header ≡ token
  pub has_text : 0 < length (chars token)
  pub is_word : any is_space (chars token) ≡ false
  pub is_found : find_api_key crypto keys token now ≡ some key
  pub has_scope : HasScope scope key.scopes
  pub is_from_there : is_ip_allowed platform request.ip key.allowed_cidrs ≡ true

HasScope-any :
    (scope : ApiScope) (ss : List ApiScope) → HasScope scope ss → any (same_scope scope) ss ≡ true
HasScope-any scope [] h = absurd h
HasScope-any chat (s ∷ ss) (inl e) = rw (e) refl
HasScope-any models (s ∷ ss) (inl e) = rw (e) refl
HasScope-any scope (s ∷ ss) (inr h) = ground (arith, HasScope-any scope ss h)

any-HasScope :
    (scope : ApiScope) (ss : List ApiScope) → any (same_scope scope) ss ≡ true → HasScope scope ss
any-HasScope scope [] h = absurd (ground (arith, h))
any-HasScope chat (chat ∷ ss) h = inl refl
any-HasScope models (models ∷ ss) h = inl refl
any-HasScope chat (models ∷ ss) h = inr (any-HasScope chat ss h)
any-HasScope models (chat ∷ ss) h = inr (any-HasScope models ss h)

-- The token of a header and what the header is.
read_bearer_token-some :
    (request : Request) (token : String)
    → read_bearer_token request ≡ some token
    → (header : String) × (request.authorization ≡ some header)
      × (starts_with header "Bearer " ≡ true)
      × (text_drop 7 header ≡ token)
      × (0 < length (chars token))
      × (any is_space (chars token) ≡ false)
unfolding read_bearer_token starts_with
read_bearer_token-some request token h = elim (Option-cases request.authorization) [
  | inl none_sent ↦ absurd (ground (arith, h, none_sent))
  | inr (header, sent) ↦
      let word = drop 7 (chars header) in
      let same : text_of word ≡ token = ground (arith, h, sent) in
      let back : chars token ≡ word = ap chars (sym same) ∙ chars-text_of word in
      (
        header,
        sent,
        ground (arith, h, sent),
        sym (text_of-drop 7 header) ∙ same,
        rw (back) (ground (arith, h, sent)),
        rw (back) (ground (arith, h, sent)),
      )
]

some-read_bearer_token :
    (request : Request) (header token : String)
    → request.authorization ≡ some header
    → starts_with header "Bearer " ≡ true
    → text_drop 7 header ≡ token
    → 0 < length (chars token)
    → any is_space (chars token) ≡ false
    → read_bearer_token request ≡ some token
unfolding read_bearer_token starts_with
some-read_bearer_token request header token sent bearer follows has_text is_word =
    let word = drop 7 (chars header) in
    let same : text_of word ≡ token = text_of-drop 7 header ∙ follows in
    let back : chars token ≡ word = ap chars (sym same) ∙ chars-text_of word in
    ground (arith, sent, bearer, has_text, is_word, same, back)

-- The guard finds the record of a request exactly where it is entitled.
pub authorized-IsEntitled :
    (crypto : Crypto) (platform : Platform) (keys : Keys) (scope : ApiScope) (request : Request)
    (now : ℕ) (key : StoredApiKey)
    → authorized crypto platform keys scope request now ≡ some key
    → IsEntitled crypto platform keys scope request now key
unfolding authorized
authorized-IsEntitled crypto platform keys scope request now key h =
    elim (Option-cases (read_bearer_token request)) [
      | inl none_sent ↦ absurd (ground (arith, h, none_sent))
      | inr (token, sent) ↦ elim (Option-cases (find_api_key crypto keys token now)) [
        | inl unknown ↦ absurd (ground (arith, h, sent, unknown))
        | inr (found, known) ↦
            let (header, is_sent, bearer, follows, has_text, is_word) =
              read_bearer_token-some request token sent in
            let same : found ≡ key = ground (arith, h, sent, known) in
            record {
              header = header;
              token = token;
              is_sent = is_sent;
              is_bearer = bearer;
              follows = follows;
              has_text = has_text;
              is_word = is_word;
              is_found = known ∙ ap some same;
              has_scope = any-HasScope scope key.scopes (ground (arith, h, sent, known));
              is_from_there = ground (arith, h, sent, known);
            }
      ]
    ]

pub IsEntitled-authorized :
    (crypto : Crypto) (platform : Platform) (keys : Keys) (scope : ApiScope) (request : Request)
    (now : ℕ) (key : StoredApiKey)
    → IsEntitled crypto platform keys scope request now key
    → authorized crypto platform keys scope request now ≡ some key
unfolding authorized
IsEntitled-authorized crypto platform keys scope request now key e =
    let sent =
      some-read_bearer_token request e.header e.token e.is_sent e.is_bearer e.follows e.has_text
        e.is_word in
    let scoped = HasScope-any scope key.scopes e.has_scope in
    ground (arith, sent, e.is_found, scoped, e.is_from_there)
