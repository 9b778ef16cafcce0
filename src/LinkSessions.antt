-- ===== src/LinkSessions.antt =====
-- src/server/providers/deepseek-link-session.ts: the sessions in which an account is linked.
-- The random identifier and secrets of a new session are arguments of `create`.
pub mod Exclusive
mod Examples
use chat2api_web_gateway.Crypto.{Crypto, hash_secret, constant_time_equal}
use chat2api_web_gateway.Prelude.{
  leb, if◌then◌else◌, length, head?, sort_by, get, put, remove, ℕ, ◌+◌, String, Bool, true, false,
  not, ◌||◌, Option, none, some, List, [], ◌∷◌, map,
}

pub data DeepSeekLinkStatus : Type 0 where
  waiting validating complete cancelled : DeepSeekLinkStatus

pub data DeepSeekLinkTransport : Type 0 where
  browser_extension native : DeepSeekLinkTransport

pub record DeepSeekLinkRecord : Type 0 where
  pub id : String
  pub secret_hashes : DeepSeekLinkTransport → String
  pub owner_nonce : String
  pub name : String
  pub email : Option String
  pub daily_limit : Option ℕ
  pub status : DeepSeekLinkStatus
  pub created_at : ℕ
  pub expires_at : ℕ
  pub account_id : Option String
  pub error_code : Option String
  pub error_message : Option String

pub data ViewStatus : Type 0 where
  status_of : DeepSeekLinkStatus → ViewStatus
  expired : ViewStatus

pub record DeepSeekLinkView : Type 0 where
  pub id : String
  pub status : ViewStatus
  pub created_at : ℕ
  pub expires_at : ℕ
  pub account_id : Option String
  pub error_code : Option String
  pub error_message : Option String

pub data ClaimKind : Type 0 where
  ready busy finished : ClaimKind

pub record DeepSeekLinkClaim : Type 0 where
  pub kind : ClaimKind
  pub id : String
  pub name : String
  pub email : Option String
  pub daily_limit : Option ℕ
  pub account_id : Option String

pub record CreateInput : Type 0 where
  pub owner_nonce : String
  pub name : String
  pub email : Option String
  pub daily_limit : Option ℕ

abbrev pub Sessions : Type 0
Sessions = List (String × DeepSeekLinkRecord)

abbrev pub link_lifetime_ms : ℕ
link_lifetime_ms = 600000

abbrev pub max_pending_links : ℕ
max_pending_links = 100

abbrev pub to_view : DeepSeekLinkRecord → ℕ → DeepSeekLinkView
to_view r now = record {
  id = r.id;
  status = if leb r.expires_at now then expired else status_of r.status;
  created_at = r.created_at;
  expires_at = r.expires_at;
  account_id = r.account_id;
  error_code = r.error_code;
  error_message = r.error_message;
}

-- The loop of `purge` over the entries.
unfoldable pub purge_loop : ℕ → Sessions → Sessions → Sessions
purge_loop now [] m = m
purge_loop now ((id, r) ∷ rest) m =
    purge_loop now rest (if leb r.expires_at now then remove id m else m)

abbrev pub oldest_id : Sessions → Option String
oldest_id m = elim (head? (sort_by (λ r. r.created_at) (map (λ entry. entry.1) m))) [
  | none ↦ none
  | some r ↦ some r.id
]

-- The oldest session goes if there are too many.
unfoldable pub make_room : Sessions → Sessions
make_room m =
    let smaller : Sessions = elim (oldest_id m) [ none ↦ m | some id ↦ remove id m ] in
    if leb max_pending_links (length m) then smaller else m

unfoldable pub create :
    Crypto
    → Sessions
    → CreateInput
    → String
    → (DeepSeekLinkTransport → String)
    → ℕ
    → Sessions × DeepSeekLinkView
unfolding purge_loop make_room
create crypto m input id secrets now =
    let r : DeepSeekLinkRecord = record {
      id = id;
      secret_hashes = λ transport. hash_secret crypto (secrets transport);
      owner_nonce = input.owner_nonce;
      name = input.name;
      email = input.email;
      daily_limit = input.daily_limit;
      status = waiting;
      created_at = now;
      expires_at = now + link_lifetime_ms;
      account_id = none;
      error_code = none;
      error_message = none;
    } in
    (put id r (make_room (purge_loop now m m)), to_view r now)

unfoldable pub read : Crypto → Sessions → String → String → ℕ → Option DeepSeekLinkView
read crypto m id owner_nonce now = elim (get id m) [
  | none ↦ none
  | some r ↦
      if constant_time_equal crypto r.owner_nonce owner_nonce then some (to_view r now) else none
]

abbrev pub is_cancelled : DeepSeekLinkStatus → Bool
is_cancelled s = elim s [ cancelled ↦ true | _ ↦ false ]

abbrev pub claim_of : ClaimKind → Option String → DeepSeekLinkRecord → DeepSeekLinkClaim
claim_of kind account_id r = record {
  kind = kind;
  id = r.id;
  name = r.name;
  email = r.email;
  daily_limit = r.daily_limit;
  account_id = account_id;
}

-- A claim that the guards let through.
unfoldable pub answer_claim :
    Sessions
    → String
    → DeepSeekLinkRecord
    → DeepSeekLinkStatus
    → Sessions × Option DeepSeekLinkClaim
answer_claim m id r complete = (m, some (claim_of finished r.account_id r))
answer_claim m id r validating = (m, some (claim_of busy none r))
answer_claim m id r cancelled = (m, none)
answer_claim m id r waiting = (
  put id (record r { status = validating; error_code = none; error_message = none }) m,
  some (claim_of ready none r),
)

abbrev pub is_refused : Crypto → DeepSeekLinkRecord → String → DeepSeekLinkTransport → ℕ → Bool
is_refused crypto r secret transport now =
    leb r.expires_at now
    || not (constant_time_equal crypto (r.secret_hashes transport) (hash_secret crypto secret))
    || is_cancelled r.status

unfoldable pub claim :
    Crypto
    → Sessions
    → String
    → String
    → DeepSeekLinkTransport
    → ℕ
    → Sessions × Option DeepSeekLinkClaim
unfolding answer_claim
claim crypto m id secret transport now = elim (get id m) [
  | none ↦ (m, none)
  | some r ↦
      if is_refused crypto r secret transport now then (m, none) else answer_claim m id r r.status
]

abbrev pub is_validating : DeepSeekLinkStatus → Bool
is_validating s = elim s [ validating ↦ true | _ ↦ false ]

unfoldable pub fail : Sessions → String → String → String → Sessions
fail m id code message = elim (get id m) [
  | none ↦ m
  | some r ↦
      if is_validating r.status
      then put id
          (record r { status = waiting; error_code = some code; error_message = some message }) m
      else m
]

unfoldable pub finish : Sessions → String → String → Sessions
finish m id account_id = elim (get id m) [
  | none ↦ m
  | some r ↦
      if is_validating r.status
      then put id
          (record r {
            status = complete;
            account_id = some account_id;
            error_code = none;
            error_message = none;
          })
          m
      else m
]

abbrev pub is_complete : DeepSeekLinkStatus → Bool
is_complete s = elim s [ complete ↦ true | _ ↦ false ]

unfoldable pub cancel : Crypto → Sessions → String → String → Sessions × Bool
cancel crypto m id owner_nonce = elim (get id m) [
  | none ↦ (m, false)
  | some r ↦
      if not (constant_time_equal crypto r.owner_nonce owner_nonce) || is_complete r.status
      then (m, false)
      else (put id (record r { status = cancelled }) m, true)
]

pub data Event : Type 0 where
  creates : CreateInput → String → (DeepSeekLinkTransport → String) → ℕ → Event
  claims : String → String → DeepSeekLinkTransport → ℕ → Event
  fails : String → String → String → Event
  finishes : String → String → Event
  cancels : String → String → Event
  clears : Event

unfoldable pub step : Crypto → Sessions → Event → Sessions
step crypto m (creates input id secrets now) = (create crypto m input id secrets now).0
step crypto m (claims id secret transport now) = (claim crypto m id secret transport now).0
step crypto m (fails id code message) = fail m id code message
step crypto m (finishes id account_id) = finish m id account_id
step crypto m (cancels id owner_nonce) = (cancel crypto m id owner_nonce).0
step crypto m clears = []

unfoldable pub run : Crypto → Sessions → List Event → Sessions
run crypto m [] = m
run crypto m (e ∷ es) = run crypto (step crypto m e) es
