-- ===== src/Guard/Answers.antt =====
-- What each answer of the guard of api-auth.ts says of the request, with the condition on who is entitled.
use mathlib.Core.Logic.{◌⊎◌, inl, inr}
use chat2api_web_gateway.AddressList.{Platform}
use chat2api_web_gateway.Crypto.{Crypto}
use chat2api_web_gateway.ApiKeys.Records.{ApiScope, chat, models, StoredApiKey}
use chat2api_web_gateway.ApiKeys.Quota.{
  QuotaTables, request_count, consume_daily_quota, consumes, step,
}
use chat2api_web_gateway.ApiKeys.Quota.Bound.{step-count}
use chat2api_web_gateway.RateLimiter.{
  SlidingWindowRateLimiter, window_ms, window_key, state_of, consume,
}
use chat2api_web_gateway.SlidingWindow.{is_recent}
use chat2api_web_gateway.Guard.{
  Request, Clock, GuardState, Verdict, unauthorized, rate_limited, over_quota, failed, admitted,
  scope_name, authorized, api_key_guard,
}
use chat2api_web_gateway.Guard.Order.{
  IsCounted, IsUsedUp, minute_of, IsVerdict, api_key_guard-IsVerdict,
}
use chat2api_web_gateway.Guard.Access.{IsEntitled, authorized-IsEntitled, IsEntitled-authorized}
use chat2api_web_gateway.Prelude.{
  Bool-cases, Option-cases, length, filter, get, is_before, ℕ, ◌+◌, ◌≤◌, ◌<◌, ◌≡◌, sym, ap, subst,
  true, false, none, some, arith, eq_iff,
}

-- The requests of the last minute that the limiter remembers of a key and a scope.
abbrev pub recents : ApiScope → StoredApiKey → Clock → GuardState → ℕ
recents scope key clock st = length (
    filter (is_recent window_ms clock.now)
      (state_of st.limiter (window_key key (scope_name scope))).timestamps)

consume-allowed :
    (scope : ApiScope) (key : StoredApiKey) (clock : Clock) (st : GuardState)
    → (minute_of scope key clock st).1.allowed ≡ true
    → recents scope key clock st < key.requests_per_minute
unfolding consume
consume-allowed scope key clock st h = ground (arith, h)

consume-refused :
    (scope : ApiScope) (key : StoredApiKey) (clock : Clock) (st : GuardState)
    → (minute_of scope key clock st).1.allowed ≡ false
    → key.requests_per_minute ≤ recents scope key clock st
unfolding consume
consume-refused scope key clock st h = ground (arith, h)

-- What the limiter is after a request of an entitled key.
abbrev pub limiter_after : ApiScope → StoredApiKey → Clock → GuardState → SlidingWindowRateLimiter
limiter_after scope key clock st = (consume st.limiter key clock.now (scope_name scope)).0

-- The count of an admitted request: models are not counted; chat is below the quota, and its count of the
-- date rises by one unless the date's counts are dropped already.
abbrev pub IsDailyCount : ApiScope → StoredApiKey → Clock → QuotaTables → QuotaTables → Type 0
IsDailyCount models key clock t t' = t' ≡ t
IsDailyCount chat key clock t t' =
    (request_count t.usage key.id clock.today < key.daily_quota)
    × ((is_before clock.today clock.cutoff ≡ true)
        ⊎ (request_count t'.usage key.id clock.today
            ≡ request_count t.usage key.id clock.today + 1))

module _ (crypto : Crypto) (platform : Platform) (scope : ApiScope) (request : Request)
    (clock : Clock) (st : GuardState) where
  abbrev pub IsKeyOf : StoredApiKey → Type 0
  IsKeyOf key = IsEntitled crypto platform st.tables.keys scope request clock.now key

  abbrev pub IsAnswer : GuardState × Verdict → Type 0
  IsAnswer (st', unauthorized) = (st' ≡ st) × (¬ ((key : StoredApiKey) × IsKeyOf key))
  IsAnswer (st', rate_limited n) =
      (key : StoredApiKey) × IsKeyOf key
      × (key.requests_per_minute ≤ recents scope key clock st)
      × (st'.tables ≡ st.tables)
      × (1 ≤ n)
  IsAnswer (st', over_quota) =
      (key : StoredApiKey) × IsKeyOf key
      × (recents scope key clock st < key.requests_per_minute)
      × (st'.limiter ≡ limiter_after scope key clock st)
      × IsUsedUp scope key clock st.tables st'.tables
  IsAnswer (st', failed) =
      (key : StoredApiKey) × IsKeyOf key
      × (recents scope key clock st < key.requests_per_minute)
      × (st'.limiter ≡ limiter_after scope key clock st)
      × (get key.id st.tables.keys ≡ none)
      × (st'.tables ≡ st.tables)
  IsAnswer (st', admitted key) =
      IsKeyOf key
      × (recents scope key clock st < key.requests_per_minute)
      × (st'.limiter ≡ limiter_after scope key clock st)
      × IsDailyCount scope key clock st.tables st'.tables

step-below :
    (key : StoredApiKey) (clock : Clock) (t : QuotaTables)
    → (step t (consumes key clock.today clock.cutoff clock.now)).1 ≡ true
    → request_count t.usage key.id clock.today < key.daily_quota
unfolding step consume_daily_quota
step-below key clock t h = ground (arith, h)

IsCounted-IsDailyCount :
    (scope : ApiScope) (key : StoredApiKey) (clock : Clock) (t t' : QuotaTables)
    → IsCounted scope key clock t t'
    → IsDailyCount scope key clock t t'
IsCounted-IsDailyCount models key clock t t' h = h
IsCounted-IsDailyCount chat key clock t t' h =
    let below = step-below key clock t (ap (λ a. a.1) h) in
    (
      below,
      elim (Bool-cases (is_before clock.today clock.cutoff)) [
        | inl late ↦ inl late
        | inr fresh ↦
            let used = request_count t.usage key.id clock.today in
            let event = consumes key clock.today clock.cutoff clock.now in
            let counted =
              step-count key.id clock.today key.daily_quota t event (fresh, λ same. omega arith)
                (omega (arith, below)) in
            inr (ground (arith, counted.0, h, eq_iff key.id key.id, eq_iff clock.today clock.today))
      ],
    )

-- An entitled request gets one of the other answers.
IsVerdict-IsAnswer :
    (crypto : Crypto) (platform : Platform) (scope : ApiScope) (request : Request) (clock : Clock)
    (st : GuardState) (key : StoredApiKey)
    → IsKeyOf crypto platform scope request clock st key
    → (st' : GuardState) (verdict : Verdict) → IsVerdict scope clock st (some key) (st', verdict)
    → IsAnswer crypto platform scope request clock st (st', verdict)
IsVerdict-IsAnswer crypto platform scope request clock st key e st' unauthorized h = absurd h
IsVerdict-IsAnswer crypto platform scope request clock st key e st' (rate_limited n)
      (refused, same, waits) =
    (key, e, consume-refused scope key clock st refused, same, waits)
IsVerdict-IsAnswer crypto platform scope request clock st key e st' over_quota (allowed, same, h) =
    (key, e, consume-allowed scope key clock st allowed, same, h)
IsVerdict-IsAnswer crypto platform scope request clock st key e st' failed
      (allowed, same, (gone, kept)) =
    (key, e, consume-allowed scope key clock st allowed, same, gone, kept)
IsVerdict-IsAnswer crypto platform scope request clock st key e st' (admitted k)
      (allowed, same, (same_key, h)) =
    subst (λ j. IsAnswer crypto platform scope request clock st (st', admitted j)) (sym same_key)
      (
        e,
        consume-allowed scope key clock st allowed,
        same,
        IsCounted-IsDailyCount scope key clock st.tables st'.tables h,
      )

-- Each answer of the guard says which requests get it. A request is unauthorized exactly where no key is its:
-- one whose bearer token the store finds, that has the scope and allows the address; nothing is counted then.
-- For a request with such a key: it is limited where the last minute has as many of the key's requests of
-- the scope as the key may have, it waits at least a second, and no table changes. Below that, the limiter
-- counts it. It is over the quota where it is for chat and its date has the quota's requests already, and
-- no table changes; the guard fails where the row of the key is gone. It is admitted with that key; one for
-- models changes no table, and one for chat is below the quota and raises the count of its date by one,
-- unless the counts of that date are dropped already.
pub api_key_guard-IsAnswer :
    (crypto : Crypto) (platform : Platform) (scope : ApiScope) (request : Request) (clock : Clock)
    (st : GuardState)
    → IsAnswer crypto platform scope request clock st
        (api_key_guard crypto platform scope request clock st)
api_key_guard-IsAnswer crypto platform scope request clock st =
    let keys = st.tables.keys in
    let answer = api_key_guard crypto platform scope request clock st in
    let verdict = api_key_guard-IsVerdict crypto platform scope request clock st in
    elim (Option-cases (authorized crypto platform keys scope request clock.now)) [
      | inl unknown ↦
          let (same, refused) : (answer.0 ≡ st) × (answer.1 ≡ unauthorized) =
            subst (λ o. IsVerdict scope clock st o answer) unknown verdict in
          subst (λ v. IsAnswer crypto platform scope request clock st (answer.0, v)) (sym refused)
            (
              same,
              λ (key, e). absurd (
                  ground (
                    arith,
                    unknown,
                    IsEntitled-authorized crypto platform keys scope request clock.now key e,
                  )),
            )
      | inr (key, known) ↦
          IsVerdict-IsAnswer crypto platform scope request clock st key
            (authorized-IsEntitled crypto platform keys scope request clock.now key known) answer.0
            answer.1 (subst (λ o. IsVerdict scope clock st o answer) known verdict)
    ]
