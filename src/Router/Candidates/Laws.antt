-- ===== src/Router/Candidates/Laws.antt =====
-- Which accounts are candidates, and in which order they come.

use chat2api_web_gateway.Prelude.{
  ◌===◌, if◌then◌else◌, Bool-cases, Option-cases, filter, All, get, ℕ, ◌≤◌, ◌<◌, String, ◌≡◌, refl,
  inl, inr, true, not, ◌||◌, some, List, [], ◌∷◌, map, arith,
}
use mathlib.Core.List.{Mem, mem-cons_self, mem-cons_of_mem}
use chat2api_web_gateway.Usage.{AccountUsageWindow, get_account_usage_window, normalized_limit}
use chat2api_web_gateway.Router.Types.{
  active, Account, Provider, ChatCompletionRequest, CircuitState, Hooks, ProviderRoutingEngine,
}
use chat2api_web_gateway.Router.Circuits.{is_closed}
use chat2api_web_gateway.Router.Candidates.{
  is_active, with_usage, has_capacity, contains, identity_of, distinct_identities, usable_provider,
  select, get_candidates,
}

-- The rows of the store and of the circuits that let an account be used at a time. A window that the store
-- does not accept is not counted.
pub record IsUsable (e : ProviderRoutingEngine) (now : ℕ) (a : Account) : Type 0 where
  pub stored : Account
  pub is_stored : Mem stored e.store.accounts
  pub is_that_row :
      record a {
        usage_window_used = stored.usage_window_used;
        usage_window_reset_at = stored.usage_window_reset_at;
      }
      ≡ stored
  pub is_on : a.status ≡ active
  pub shows_usage :
      (w : AccountUsageWindow)
      → get_account_usage_window e.store.events a.id e.config.account_usage_window_ms now ≡ some w
      → a.usage_window_used ≡ some w.used
  pub below_limit :
      (w : AccountUsageWindow) (limit : ℕ)
      → get_account_usage_window e.store.events a.id e.config.account_usage_window_ms now ≡ some w
      → normalized_limit a.daily_limit ≡ some limit
      → w.used < limit
  pub closed : (c : CircuitState) → get a.id e.circuits ≡ some c → c.opened_until ≤ now

-- No known identity stands in `seen` or twice among the accounts.
abbrev pub HasNoTwin : Hooks → List String → List Account → Type 0
HasNoTwin hooks seen [] = Unit
HasNoTwin hooks seen (a ∷ rest) =
    ((identity_of hooks a === "") || not (contains (identity_of hooks a) seen) ≡ true)
    × HasNoTwin hooks (if identity_of hooks a === "" then seen else identity_of hooks a ∷ seen) rest

distinct_identities-HasNoTwin :
    (hooks : Hooks) (seen : List String) (xs : List Account)
    → HasNoTwin hooks seen (distinct_identities hooks seen xs)
unfolding distinct_identities
distinct_identities-HasNoTwin hooks seen [] = tt
distinct_identities-HasNoTwin hooks seen (a ∷ rest) =
    elim (Bool-cases (identity_of hooks a === "")) [
      | inl unknown ↦
          rw unknown (ground arith, rw unknown (distinct_identities-HasNoTwin hooks seen rest))
      | inr known ↦ elim (Bool-cases (contains (identity_of hooks a) seen)) [
        | inl twin ↦ rw (known, twin) (distinct_identities-HasNoTwin hooks seen rest)
        | inr fresh ↦
            rw (known, fresh)
              (
                ground arith,
                rw known (distinct_identities-HasNoTwin hooks (identity_of hooks a ∷ seen) rest),
              )
      ]
    ]

pub distinct_identities-All :
    (P : Account → Type 0) (hooks : Hooks) (seen : List String) (xs : List Account)
    → All P xs
    → All P (distinct_identities hooks seen xs)
unfolding distinct_identities
distinct_identities-All P hooks seen [] h = tt
distinct_identities-All P hooks seen (a ∷ rest) (p, h) = ground (
  arith,
  distinct_identities-All P hooks seen rest h,
  distinct_identities-All P hooks (identity_of hooks a ∷ seen) rest h,
)

pub All-map :
    {A B : Type 0} (P : B → Type 0) (f : A → B) (xs : List A)
    → All (λ x. P (f x)) xs
    → All P (map f xs)
All-map P f [] h = tt
All-map P f (x ∷ xs) (p, h) = (p, All-map P f xs h)

pub All-both :
    {A : Type 0} (P Q : A → Type 0) (xs : List A) → All P xs → All Q xs → All (λ x. P x × Q x) xs
All-both P Q [] h k = tt
All-both P Q (x ∷ xs) (p, h) (q, k) = ((p, q), All-both P Q xs h k)

with_usage-IsUsable :
    (e : ProviderRoutingEngine) (now : ℕ) (a : Account)
    → Mem a e.store.accounts
    → is_active a ≡ true
    → has_capacity (with_usage e now a) ≡ true
    → is_closed e.circuits now a.id ≡ true
    → IsUsable e now (with_usage e now a)
with_usage-IsUsable e now a stored on capacity shut = record {
  stored = a;
  is_stored = stored;
  is_that_row = refl;
  is_on = ground (arith, on);
  shows_usage = λ w counted. ground (arith, counted);
  below_limit = λ w limit counted limited. ground (arith, counted, limited, capacity);
  closed = λ c found. ground (arith, found, shut);
}

-- The accounts that pass the three filters are usable.
eligible-All :
    (e : ProviderRoutingEngine) (now : ℕ) (xs : List Account)
    → ((a : Account) → Mem a xs → Mem a e.store.accounts)
    → All (IsUsable e now) (
        filter
          (λ a. is_closed e.circuits now a.id)
          (filter has_capacity (map (with_usage e now) (filter is_active xs))))
eligible-All e now [] among = tt
eligible-All e now (a ∷ xs) among =
    let rest = eligible-All e now xs (λ b h. among b (mem-cons_of_mem a h)) in
    let own = with_usage-IsUsable e now a (among a mem-cons_self) in ground (arith, rest, own)

map_account :
    (hooks : Hooks) (request : ChatCompletionRequest) (p : Provider) (xs : List Account)
    → map (λ s. s.account) (map (select hooks request p) xs) ≡ xs
map_account hooks request p [] = refl
map_account hooks request p (a ∷ xs) = rw (map_account hooks request p xs)

-- Every candidate is an account of the store, but for its use of the window, which is that of the recorded
-- attempts; it is active, its attempts in the window are below its limit, its circuit, if it has one, is not
-- open at that time, and no known provider identity stands twice among the candidates.
pub get_candidates-IsUsable :
    (hooks : Hooks) (e : ProviderRoutingEngine) (request : ChatCompletionRequest) (now : ℕ)
    → All (λ s. IsUsable e now s.account) (get_candidates hooks e request now)
      × HasNoTwin hooks [] (map (λ s. s.account) (get_candidates hooks e request now))
unfolding get_candidates
get_candidates-IsUsable hooks e request now =
    elim (Option-cases (usable_provider hooks e request)) [
      | inl unusable ↦ rw (unusable, get_candidates) (tt, tt)
      | inr (p, e') ↦
          let xs =
            filter (λ a. is_closed e.circuits now a.id)
              (filter has_capacity (map (with_usage e now) (filter is_active e.store.accounts))) in
          rw (e', get_candidates)
            (
              All-map (λ s. IsUsable e now s.account) (select hooks request p)
                  (distinct_identities hooks [] xs)
                  (distinct_identities-All (IsUsable e now) hooks [] xs
                    (eligible-All e now e.store.accounts (λ a h. h))),
              rw (map_account hooks request p (distinct_identities hooks [] xs))
                  (distinct_identities-HasNoTwin hooks [] xs),
            )
    ]
