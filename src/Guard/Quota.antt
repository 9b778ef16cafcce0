-- ===== src/Guard/Quota.antt =====
-- The daily quota behind the guard of api-auth.ts: requests of many keys, one after another.
use mathlib.Core.Logic.{inl, inr}
use chat2api_web_gateway.AddressList.{Platform}
use chat2api_web_gateway.Crypto.{Crypto, hash_secret}
use chat2api_web_gateway.ApiKeys.Records.{ApiScope, chat, models, StoredApiKey}
use chat2api_web_gateway.ApiKeys.Store.{Keys, has_live_hash, find_api_key}
use chat2api_web_gateway.ApiKeys.Quota.{
  QuotaTables, request_count, consume_daily_quota, Event, consumes, step,
}
use chat2api_web_gateway.Guard.{
  Request, Clock, GuardState, Verdict, unauthorized, rate_limited, over_quota, failed, admitted,
  read_bearer_token, same_scope, authorized, api_key_guard,
}
use chat2api_web_gateway.Guard.Order.{IsCounted, IsVerdict, api_key_guard-IsVerdict}
use chat2api_web_gateway.ApiKeys.Quota.Bound.{step-count}
use chat2api_web_gateway.Prelude.{
  ◌===◌, if◌then◌else◌, Bool-cases, Option-cases, find, All, get, AllValues, put-AllValues,
  get-AllValues, is_before, ℕ, ◌+◌, ◌≤◌, String, ◌≡◌, refl, sym, ap, subst, Bool, true, false, ◌&&◌,
  Option, none, some, List, [], ◌∷◌, arith,
}

pub record Call : Type 0 where
  pub scope : ApiScope
  pub request : Request
  pub clock : Clock

-- A chat request of a key that is admitted on a date.
abbrev pub is_admitted : String → String → Call → Verdict → Bool
is_admitted id date call unauthorized = false
is_admitted id date call (rate_limited n) = false
is_admitted id date call over_quota = false
is_admitted id date call failed = false
is_admitted id date call (admitted key) =
    same_scope chat call.scope && (key.id === id && call.clock.today === date)

unfoldable pub admissions : Crypto → Platform → String → String → GuardState → List Call → ℕ
admissions crypto platform id date st [] = 0
admissions crypto platform id date st (call ∷ calls) =
    let (st', verdict) = api_key_guard crypto platform call.scope call.request call.clock st in
    (if is_admitted id date call verdict then 1 else 0)
    + admissions crypto platform id date st' calls

-- The key's row, where it has one, has a quota of at most `limit`.
abbrev pub HasQuota : String → ℕ → StoredApiKey → Type 0
HasQuota id limit row = (row.id === id) ≡ true → row.daily_quota ≤ limit

find-AllValues :
    (P : StoredApiKey → Type 0) (p : String × StoredApiKey → Bool) (keys : Keys)
    (entry : String × StoredApiKey)
    → AllValues P keys
    → find p keys ≡ some entry
    → P entry.1
find-AllValues P p [] entry h e = cc
find-AllValues P p ((k, v) ∷ keys) entry (q, h) e = elim (Bool-cases (p (k, v))) [
  | inl here ↦ let same : v ≡ entry.1 = ground arith in subst P same q
  | inr later ↦ find-AllValues P p keys entry h (ground arith)
]

authorized-AllValues :
    (P : StoredApiKey → Type 0) (crypto : Crypto) (platform : Platform) (keys : Keys)
    (scope : ApiScope) (request : Request) (now : ℕ) (key : StoredApiKey)
    → AllValues P keys
    → authorized crypto platform keys scope request now ≡ some key
    → P key
unfolding authorized find_api_key
authorized-AllValues P crypto platform keys scope request now key h e =
    elim (Option-cases (read_bearer_token request)) [
      | inl no_token ↦ absurd (ground arith)
      | inr (raw, token) ↦
          elim (Option-cases (find (has_live_hash (hash_secret crypto raw)) keys)) [
            | inl unknown ↦ absurd (ground arith)
            | inr (entry, found) ↦
                let same : entry.1 ≡ key = ground arith in
                subst P same
                  (find-AllValues P (has_live_hash (hash_secret crypto raw)) keys entry h found)
          ]
    ]

-- Counting a request keeps the quota of every row.
step-HasQuota :
    (id : String) (limit : ℕ) (t : QuotaTables) (key : StoredApiKey) (date cutoff : String)
    (now : ℕ)
    → AllValues (HasQuota id limit) t.keys
    → AllValues (HasQuota id limit) (step t (consumes key date cutoff now)).0.keys
unfolding step consume_daily_quota
step-HasQuota id limit t key date cutoff now h = elim (Option-cases (get key.id t.keys)) [
  | inl gone ↦ ground (arith, gone, h)
  | inr (row, found) ↦
      let counted : StoredApiKey = record row {
        usage_count = row.usage_count + 1;
        last_used_at = some now;
      } in
      let kept : HasQuota id limit counted =
        get-AllValues (HasQuota id limit) key.id t.keys row h found in
      let all = put-AllValues (HasQuota id limit) key.id counted t.keys kept h in
      ground (arith, found, h, all)
]

-- What one call of the guard does to the counts of a key.
record IsCallStep (id date : String) (limit : ℕ) (call : Call) (t : QuotaTables)
    (answer : GuardState × Verdict) : Type 0 where
  keeps : AllValues (HasQuota id limit) answer.0.tables.keys
  rises :
      request_count answer.0.tables.usage id date
      ≡ request_count t.usage id date + (if is_admitted id date call answer.1 then 1 else 0)
  bounded : request_count answer.0.tables.usage id date ≤ limit

call-unchanged :
    (id date : String) (limit : ℕ) (call : Call) (t : QuotaTables) (st' : GuardState)
    (verdict : Verdict)
    → AllValues (HasQuota id limit) t.keys
    → request_count t.usage id date ≤ limit
    → st'.tables ≡ t
    → is_admitted id date call verdict ≡ false
    → IsCallStep id date limit call t (st', verdict)
call-unchanged id date limit call t st' verdict h small same refused = record {
  keeps = rw (same) h;
  rises = rw (same, refused) (omega arith);
  bounded = rw (same) small;
}

call-counted :
    (id date : String) (limit : ℕ) (scope : ApiScope) (request : Request) (clock : Clock)
    (t : QuotaTables) (st' : GuardState) (key : StoredApiKey)
    → is_before date clock.cutoff ≡ false
    → HasQuota id limit key
    → AllValues (HasQuota id limit) t.keys
    → request_count t.usage id date ≤ limit
    → IsCounted scope key clock t st'.tables
    → IsCallStep id date limit
        (record { scope = scope; request = request; clock = clock })
        t
        (st', admitted key)
call-counted id date limit models request clock t st' key fresh quota h small counted =
    call-unchanged id date limit (record { scope = models; request = request; clock = clock }) t st'
      (admitted key) h small counted refl
call-counted id date limit chat request clock t st' key fresh quota h small counted =
    let e : Event = consumes key clock.today clock.cutoff clock.now in
    let bound = step-count id date limit t e (fresh, λ both. quota (ground (arith, both))) small in
    let tables : (step t e).0 ≡ st'.tables = ap (λ a. a.0) counted in
    let allowed : (step t e).1 ≡ true = ap (λ a. a.1) counted in
    record {
      keeps =
          subst (λ q. AllValues (HasQuota id limit) q.keys) tables
            (step-HasQuota id limit t key clock.today clock.cutoff clock.now h);
      rises =
          subst
            (λ q.
              request_count q.usage id date
              ≡ request_count t.usage id date
                + (if key.id === id && clock.today === date then 1 else 0))
            tables
            (subst
              (λ b.
                request_count (step t e).0.usage id date
                ≡ request_count t.usage id date
                  + (if b && (key.id === id && clock.today === date) then 1 else 0))
              allowed bound.0);
      bounded = subst (λ q. request_count q.usage id date ≤ limit) tables bound.1;
    }

call-verdict :
    (id date : String) (limit : ℕ) (call : Call) (st : GuardState) (found : Option StoredApiKey)
    → is_before date call.clock.cutoff ≡ false
    → ((key : StoredApiKey) → found ≡ some key → HasQuota id limit key)
    → AllValues (HasQuota id limit) st.tables.keys
    → request_count st.tables.usage id date ≤ limit
    → (st' : GuardState) (verdict : Verdict)
    → IsVerdict call.scope call.clock st found (st', verdict)
    → IsCallStep id date limit call st.tables (st', verdict)
call-verdict id date limit call st none fresh quota h small st' verdict v =
    call-unchanged id date limit call st.tables st' verdict h small (ap (λ q. q.tables) v.0)
      (rw (v.1) refl)
call-verdict id date limit call st (some key) fresh quota h small st' unauthorized v = absurd v
call-verdict id date limit call st (some key) fresh quota h small st' (rate_limited n) v =
    call-unchanged id date limit call st.tables st' (rate_limited n) h small v.1 refl
call-verdict id date limit call st (some key) fresh quota h small st' over_quota v =
    call-unchanged id date limit call st.tables st' over_quota h small v.2.unchanged refl
call-verdict id date limit call st (some key) fresh quota h small st' failed v =
    call-unchanged id date limit call st.tables st' failed h small v.2.1 refl
call-verdict id date limit call st (some key) fresh quota h small st' (admitted k) v =
    subst (λ j. IsCallStep id date limit call st.tables (st', admitted j)) (sym v.2.0)
      (call-counted id date limit call.scope call.request call.clock st.tables st' key fresh
        (quota key refl) h small v.2.1)

-- However many requests of whatever keys, scopes and addresses the guard answers, the chat requests of a key
-- that it admits on a date, together with those counted before, are no more than the key's daily quota,
-- as long as the counts of the date are not dropped.
pub admissions-le :
    (crypto : Crypto) (platform : Platform) (id date : String) (limit : ℕ) (st : GuardState)
    (calls : List Call)
    → All (λ call. is_before date call.clock.cutoff ≡ false) calls
    → AllValues (HasQuota id limit) st.tables.keys
    → request_count st.tables.usage id date ≤ limit
    → admissions crypto platform id date st calls + request_count st.tables.usage id date ≤ limit
unfolding admissions
admissions-le crypto platform id date limit st [] fresh quotas small = omega (arith, small)
admissions-le crypto platform id date limit st (call ∷ calls) (now, later) quotas small =
    let answer = api_key_guard crypto platform call.scope call.request call.clock st in
    let found = authorized crypto platform st.tables.keys call.scope call.request call.clock.now in
    let one =
      call-verdict id date limit call st found now
        (λ key e.
          authorized-AllValues (HasQuota id limit) crypto platform st.tables.keys call.scope
            call.request call.clock.now key quotas e)
        quotas small answer.0 answer.1
        (api_key_guard-IsVerdict crypto platform call.scope call.request call.clock st) in
    omega (
      arith,
      admissions-le crypto platform id date limit answer.0 calls later one.keeps one.bounded,
      one.rises,
    )
