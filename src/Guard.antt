-- ===== src/Guard.antt =====
-- src/server/security/api-auth.ts: what a request with an API key passes before its handler runs.
pub mod Order
pub mod Access
pub mod Answers
pub mod Quota
mod Examples
use Prim.Native.Char.{Char, code as code_point}
use mathlib.Core.Option
use mathlib.Core.Option.{get_or}
use chat2api_web_gateway.Strings.{chars, text_of, is_space, starts}
use chat2api_web_gateway.AddressList.{Platform}
use chat2api_web_gateway.AddressList.Match.{is_ip_allowed}
use chat2api_web_gateway.Crypto.{Crypto}
use chat2api_web_gateway.ApiKeys.Records.{ApiScope, chat, models, StoredApiKey}
use chat2api_web_gateway.ApiKeys.Store.{Keys, find_api_key}
use chat2api_web_gateway.ApiKeys.Quota.{QuotaTables, QuotaResult, consume_daily_quota}
use chat2api_web_gateway.RateLimiter.{SlidingWindowRateLimiter, consume}
use chat2api_web_gateway.Prelude.{
  ◌==◌, ◌===◌, if◌then◌else◌, ceil_div, length, any, drop, ℕ, ◌-◌, max, String, Bool, true, false,
  not, ◌&&◌, ◌||◌, Option, none, some, [],
}

-- What the guard reads of a request.
pub record Request : Type 0 where
  pub authorization : Option String
  pub ip : String

-- `Date.now()`, the date of today and the date before which counts are dropped.
pub record Clock : Type 0 where
  pub now : ℕ
  pub today : String
  pub cutoff : String

pub record GuardState : Type 0 where
  pub limiter : SlidingWindowRateLimiter
  pub tables : QuotaTables

-- The answer of the guard; `failed` is an exception of the store.
pub data Verdict : Type 0 where
  unauthorized : Verdict
  rate_limited : ℕ → Verdict
  over_quota : Verdict
  failed : Verdict
  admitted : StoredApiKey → Verdict

-- `/^Bearer ([^\s]+)$/`.
unfoldable pub read_bearer_token : Request → Option String
unfolding chars starts is_space text_of
read_bearer_token request = elim request.authorization [
  | none ↦ none
  | some s ↦
      let token = drop 7 (chars s) in
      if starts (chars "Bearer ") (chars s) && not (length token == 0) && not (any is_space token)
      then some (text_of token)
      else none
]

abbrev pub same_scope : ApiScope → ApiScope → Bool
same_scope chat chat = true
same_scope models models = true
same_scope chat models = false
same_scope models chat = false

-- The text of a scope, which names the bucket.
abbrev pub scope_name : ApiScope → String
scope_name chat = "chat"
scope_name models = "models"

-- The record of the token, with the scope and from an address that it allows.
unfoldable pub authorized : Crypto → Platform → Keys → ApiScope → Request → ℕ → Option StoredApiKey
unfolding read_bearer_token find_api_key is_ip_allowed
authorized crypto platform keys scope request now = elim (read_bearer_token request) [
  | none ↦ none
  | some raw ↦ elim (find_api_key crypto keys raw now) [
    | none ↦ none
    | some key ↦
        if any (same_scope scope) key.scopes && is_ip_allowed platform request.ip key.allowed_cidrs
        then some key
        else none
  ]
]

-- `Math.max(1, Math.ceil((minute.resetAt - Date.now()) / 1000))`.
abbrev pub retry_after : ℕ → ℕ → ℕ
retry_after reset_at now = max 1 (ceil_div (reset_at - now) 1000)

-- What the guard makes of the answer of the daily quota.
abbrev pub after_count :
    StoredApiKey → QuotaTables → Option (QuotaTables × QuotaResult) → QuotaTables × Verdict
after_count key t none = (t, failed)
after_count key t (some (t', daily)) = (t', if daily.allowed then admitted key else over_quota)

-- The daily quota, which the scope `chat` alone uses.
unfoldable pub daily_guard : ApiScope → StoredApiKey → Clock → QuotaTables → QuotaTables × Verdict
unfolding consume_daily_quota
daily_guard models key clock t = (t, admitted key)
daily_guard chat key clock t =
    after_count key t (consume_daily_quota t key clock.today clock.cutoff clock.now)

unfoldable pub api_key_guard :
    Crypto → Platform → ApiScope → Request → Clock → GuardState → GuardState × Verdict
unfolding authorized consume daily_guard
api_key_guard crypto platform scope request clock st =
    elim (authorized crypto platform st.tables.keys scope request clock.now) [
      | none ↦ (st, unauthorized)
      | some key ↦
          let (limiter', minute) = consume st.limiter key clock.now (scope_name scope) in
          let (tables', verdict) = daily_guard scope key clock st.tables in
          if minute.allowed then (record { limiter = limiter'; tables = tables' }, verdict) else (
            record st { limiter = limiter' },
            rate_limited (retry_after minute.reset_at clock.now),
          )
    ]

-- `assertModelAllowed`, for the key that the guard has left on the request.
unfoldable pub assert_model_allowed : Option StoredApiKey → String → Bool
assert_model_allowed key model =
    let allowlist = get_or (Option.map (λ k. k.model_allowlist) key) [] in
    length allowlist == 0 || any (λ m. m === model) allowlist
