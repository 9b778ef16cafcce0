-- ===== src/Guard/Order.antt =====
-- What each answer of the guard of api-auth.ts says of what is counted, by the record that it has found.
use mathlib.Core.Logic.{◌⊎◌, inl, inr}
use chat2api_web_gateway.AddressList.{Platform}
use chat2api_web_gateway.Crypto.{Crypto}
use chat2api_web_gateway.ApiKeys.Records.{ApiScope, chat, models, StoredApiKey}
use chat2api_web_gateway.ApiKeys.Quota.{
  QuotaTables, QuotaResult, request_count, drop_before, count_one, consume_daily_quota, consumes,
  step,
}
use chat2api_web_gateway.RateLimiter.{RateLimitResult, SlidingWindowRateLimiter, consume}
use chat2api_web_gateway.Guard.{
  Request, Clock, GuardState, Verdict, unauthorized, rate_limited, over_quota, failed, admitted,
  scope_name, authorized, after_count, daily_guard, api_key_guard,
}
use chat2api_web_gateway.Prelude.{
  leb, leb→le, Bool-cases, Option-cases, if_true, if_false, get, put, ℕ, ◌+◌, ◌≤◌, String, ◌≡◌,
  refl, sym, ap, ◌∙◌, subst, Bool, true, false, Option, none, some, arith,
}

-- What the guard has counted of a request that it admits.
abbrev pub IsCounted : ApiScope → StoredApiKey → Clock → QuotaTables → QuotaTables → Type 0
IsCounted models key clock t t' = t' ≡ t
IsCounted chat key clock t t' =
    step t (consumes key clock.today clock.cutoff clock.now) ≡ (t', true)

-- A key that may not have another request today.
pub record IsUsedUp (scope : ApiScope) (key : StoredApiKey) (clock : Clock) (t t' : QuotaTables)
    : Type 0 where
  pub is_chat : scope ≡ chat
  pub is_used : key.daily_quota ≤ request_count t.usage key.id clock.today
  pub unchanged : t' ≡ t

abbrev pub IsDailyVerdict :
    ApiScope → StoredApiKey → Clock → QuotaTables → QuotaTables × Verdict → Type 0
IsDailyVerdict scope key clock t (t', unauthorized) = ⊥
IsDailyVerdict scope key clock t (t', rate_limited n) = ⊥
IsDailyVerdict scope key clock t (t', over_quota) = IsUsedUp scope key clock t t'
IsDailyVerdict scope key clock t (t', failed) = (get key.id t.keys ≡ none) × (t' ≡ t)
IsDailyVerdict scope key clock t (t', admitted k) = (k ≡ key) × IsCounted scope key clock t t'

-- The three ways in which the daily quota answers.
consume_daily_quota-cases :
    (t : QuotaTables) (key : StoredApiKey) (today cutoff : String) (now : ℕ)
    → let answer = consume_daily_quota t key today cutoff now in
      ((answer ≡ none) × (get key.id t.keys ≡ none))
      ⊎ ((r : QuotaResult) × (answer ≡ some (t, r))
          × (r.allowed ≡ false)
          × (key.daily_quota ≤ request_count t.usage key.id today))
      ⊎ ((t' : QuotaTables) × (r : QuotaResult) × (answer ≡ some (t', r)) × (r.allowed ≡ true))
unfolding consume_daily_quota
consume_daily_quota-cases t key today cutoff now =
    let used = request_count t.usage key.id today in
    elim (Bool-cases (leb key.daily_quota used)) [
      | inl used_up ↦
          let r : QuotaResult = record { allowed = false; used = used; limit = key.daily_quota } in
          inr (
            inl (
              r,
              if_true (λ a. a ≡ some (t, r)) _ _ (leb key.daily_quota used) used_up refl,
              refl,
              leb→le key.daily_quota used used_up,
            ))
      | inr rest ↦ elim (Option-cases (get key.id t.keys)) [
        | inl gone ↦ inl (ground (arith), gone)
        | inr (row, found) ↦
            let counted : QuotaTables = record {
              keys =
                  put key.id
                    (record row { usage_count = row.usage_count + 1; last_used_at = some now })
                    t.keys;
              usage = drop_before cutoff (count_one t.usage key.id today);
            } in
            let r : QuotaResult = record {
              allowed = true;
              used = used + 1;
              limit = key.daily_quota;
            } in
            inr (
              inr (
                counted,
                r,
                if_false (λ a. a ≡ some (counted, r)) _ _ (leb key.daily_quota used) rest
                    (rw (found) refl),
                refl,
              ))
      ]
    ]

abbrev after_step : QuotaTables → Option (QuotaTables × QuotaResult) → QuotaTables × Bool
after_step t none = (t, false)
after_step t (some (t', r)) = (t', r.allowed)

daily_guard-IsDailyVerdict :
    (scope : ApiScope) (key : StoredApiKey) (clock : Clock) (t : QuotaTables)
    → IsDailyVerdict scope key clock t (daily_guard scope key clock t)
unfolding daily_guard step
daily_guard-IsDailyVerdict models key clock t = (refl, refl)
daily_guard-IsDailyVerdict chat key clock t =
    elim (consume_daily_quota-cases t key clock.today clock.cutoff clock.now) [
      | inl (fails, gone) ↦
          subst (λ a. IsDailyVerdict chat key clock t (after_count key t a)) (sym fails)
            (gone, refl)
      | inr (inl (r, answers, refused, used)) ↦
          subst (λ a. IsDailyVerdict chat key clock t (after_count key t a)) (sym answers)
            (if_false (λ v. IsDailyVerdict chat key clock t (t, v)) _ _ r.allowed refused
              (record { is_chat = refl; is_used = used; unchanged = refl }))
      | inr (inr (t', r, answers, allowed)) ↦
          subst (λ a. IsDailyVerdict chat key clock t (after_count key t a)) (sym answers)
            (if_true (λ v. IsDailyVerdict chat key clock t (t', v)) _ _ r.allowed allowed
              (refl, ap (after_step t) answers ∙ ap (λ b. (t', b)) allowed))
    ]

abbrev pub minute_of :
    ApiScope → StoredApiKey → Clock → GuardState → SlidingWindowRateLimiter × RateLimitResult
minute_of scope key clock st = consume st.limiter key clock.now (scope_name scope)

-- What an answer says. `found` is the record that the token, the scope and the address give.
abbrev pub IsVerdict :
    ApiScope → Clock → GuardState → Option StoredApiKey → GuardState × Verdict → Type 0
IsVerdict scope clock st none (st', verdict) = (st' ≡ st) × (verdict ≡ unauthorized)
IsVerdict scope clock st (some key) (st', rate_limited n) =
    ((minute_of scope key clock st).1.allowed ≡ false) × (st'.tables ≡ st.tables) × (1 ≤ n)
IsVerdict scope clock st (some key) (st', unauthorized) = ⊥
IsVerdict scope clock st (some key) (st', over_quota) =
    ((minute_of scope key clock st).1.allowed ≡ true)
    × (st'.limiter ≡ (minute_of scope key clock st).0)
    × IsDailyVerdict scope key clock st.tables (st'.tables, over_quota)
IsVerdict scope clock st (some key) (st', failed) =
    ((minute_of scope key clock st).1.allowed ≡ true)
    × (st'.limiter ≡ (minute_of scope key clock st).0)
    × IsDailyVerdict scope key clock st.tables (st'.tables, failed)
IsVerdict scope clock st (some key) (st', admitted k) =
    ((minute_of scope key clock st).1.allowed ≡ true)
    × (st'.limiter ≡ (minute_of scope key clock st).0)
    × IsDailyVerdict scope key clock st.tables (st'.tables, admitted k)

admits-IsVerdict :
    (scope : ApiScope) (clock : Clock) (st : GuardState) (key : StoredApiKey)
    → (minute_of scope key clock st).1.allowed ≡ true
    → (t' : QuotaTables) (verdict : Verdict)
    → IsDailyVerdict scope key clock st.tables (t', verdict)
    → IsVerdict scope clock st
        (some key)
        (record { limiter = (minute_of scope key clock st).0; tables = t' }, verdict)
admits-IsVerdict scope clock st key allowed t' unauthorized h = absurd h
admits-IsVerdict scope clock st key allowed t' (rate_limited n) h = absurd h
admits-IsVerdict scope clock st key allowed t' over_quota h = (allowed, refl, h)
admits-IsVerdict scope clock st key allowed t' failed h = (allowed, refl, h)
admits-IsVerdict scope clock st key allowed t' (admitted k) h = (allowed, refl, h)

-- The guard answers in the order of its checks: without a record of the token that has the scope and allows
-- the address, nothing is counted; beyond the minute's allowance no daily count changes, and the wait is at
-- least a second; a request that the daily quota refuses leaves the counts as they were, and is one for
-- chat; and an admitted request is one that both counters allow, with the record that was found.
pub api_key_guard-IsVerdict :
    (crypto : Crypto) (platform : Platform) (scope : ApiScope) (request : Request) (clock : Clock)
    (st : GuardState)
    → IsVerdict scope clock st
        (authorized crypto platform st.tables.keys scope request clock.now)
        (api_key_guard crypto platform scope request clock st)
unfolding api_key_guard
api_key_guard-IsVerdict crypto platform scope request clock st =
    elim (Option-cases (authorized crypto platform st.tables.keys scope request clock.now)) [
      | inl unknown ↦ rw (unknown, api_key_guard) (refl, refl)
      | inr (key, known) ↦
          rw (known, api_key_guard)
            (elim (Bool-cases (minute_of scope key clock st).1.allowed) [
              | inl allowed ↦
                  let daily = daily_guard scope key clock st.tables in
                  if_true (IsVerdict scope clock st (some key)) _ _
                    (minute_of scope key clock st).1.allowed allowed
                    (admits-IsVerdict scope clock st key allowed daily.0 daily.1
                      (daily_guard-IsDailyVerdict scope key clock st.tables))
              | inr refused ↦
                  if_false (IsVerdict scope clock st (some key)) _ _
                    (minute_of scope key clock st).1.allowed refused (refused, refl, omega arith)
            ])
    ]
