-- ===== src/Router/Forward/Returns.antt =====
-- The loop of `forward` ends.
use text.Mathlib.TextEquality.{eq_iff}
use chat2api_web_gateway.Prelude.{
  leb, ◌==◌, ◌===◌, ===_refl, Bool-cases, Option-cases, length, filter, take, drop,
  length-filter-le, All, All-append, All-filter, filter-All, sort-All, sort_by, ℕ, zero, suc, ◌%◌,
  ◌≤◌, ◌<◌, String, ◌≡◌, refl, subst, inl, inr, true, false, not, some, List, [], ◌∷◌, map, arith,
}
use chat2api_web_gateway.Router.Types.{
  LoadBalanceStrategy, round_robin, least_used, failover, Account, AccountSelection,
  ChatCompletionRequest, ProxyContext, Hooks, ProviderRoutingEngine,
}
use chat2api_web_gateway.Router.Candidates.{
  is_active, with_usage, contains, usable_provider, active_accounts, select, get_candidates,
  sort_key, order_with, order_candidates, unavailable_routing_failure,
}
use chat2api_web_gateway.Router.Candidates.Laws.{distinct_identities-All, All-map, All-both}
use chat2api_web_gateway.Router.Reserve.{id_of}
use chat2api_web_gateway.Router.Failover.{
  Progress, at_start, Outcome, failed, Pass, continues, breaks, returns, Surroundings, exhausted,
}
use chat2api_web_gateway.Router.Forward.{untried, pass_once, passes, forward}
use chat2api_web_gateway.Router.Forward.Accounts.{account_ids, KeepsAccounts, pass_once-account_ids}
use chat2api_web_gateway.Router.Forward.Fresh.{GoesOn, pass_once-GoesOn}

-- The accounts among `ids` that were not tried.
untried_count : List String → List String → ℕ
untried_count ids tried = length (filter (λ id. not (contains id tried)) ids)

untried_count-cons-le :
    (ids tried : List String) (id : String)
    → untried_count ids (id ∷ tried) ≤ untried_count ids tried
unfolding untried_count
untried_count-cons-le [] tried id = omega arith
untried_count-cons-le (i ∷ ids) tried id = ground (arith, untried_count-cons-le ids tried id)

untried_count-cons-lt :
    (ids tried : List String) (id : String)
    → contains id ids ≡ true
    → contains id tried ≡ false
    → untried_count ids (id ∷ tried) < untried_count ids tried
unfolding untried_count
untried_count-cons-lt [] tried id h k = absurd (ground (arith, h))
untried_count-cons-lt (i ∷ ids) tried id h k = elim (Bool-cases (i === id)) [
  | inl same ↦
      let same' : i ≡ id = (eq_iff i id).0 same in
      ground (arith, same', k, ===_refl id, untried_count-cons-le ids tried id)
  | inr other ↦ ground (arith, h, untried_count-cons-lt ids tried id)
]

-- The identifiers of the candidates are those of accounts.
contains-cons :
    (i j : String) (ids : List String) → contains i ids ≡ true → contains i (j ∷ ids) ≡ true
contains-cons i j ids h = ground (arith, h)

All-imp :
    {A : Type 0} (P Q : A → Type 0) → ((x : A) → P x → Q x) → (xs : List A) → All P xs → All Q xs
All-imp P Q f [] h = tt
All-imp P Q f (x ∷ xs) (p, h) = (f x p, All-imp P Q f xs h)

All-own_id : (xs : List Account) → All (λ a. contains a.id (map (λ b. b.id) xs) ≡ true) xs
All-own_id [] = tt
All-own_id (a ∷ xs) = (
  rw (===_refl a.id) refl,
  All-imp (λ b. contains b.id (map (λ c. c.id) xs) ≡ true)
      (λ b. contains b.id (a.id ∷ map (λ c. c.id) xs) ≡ true)
      (λ b h. contains-cons b.id a.id (map (λ c. c.id) xs) h) xs (All-own_id xs),
)

get_candidates-known :
    (hooks : Hooks) (e : ProviderRoutingEngine) (request : ChatCompletionRequest) (now : ℕ)
    → All (λ s. contains (id_of s) (account_ids e) ≡ true) (get_candidates hooks e request now)
unfolding get_candidates active_accounts
get_candidates-known hooks e request now =
    let known : Account → Type 0 = λ a. contains a.id (account_ids e) ≡ true in
    elim (Option-cases (usable_provider hooks e request)) [
      | inl unusable ↦ rw (unusable, get_candidates) tt
      | inr (p, h) ↦
          rw (h, get_candidates)
            (All-map (λ s. contains (id_of s) (account_ids e) ≡ true) (select hooks request p) _
              (distinct_identities-All known hooks [] _ (
                All-filter known _ _ (
                  All-filter known _ _ (
                    All-map known (with_usage e now) _ (
                      All-filter known is_active e.store.accounts
                        (All-own_id e.store.accounts)))))))
    ]

All-drop : {A : Type 0} (P : A → Type 0) (n : ℕ) (xs : List A) → All P xs → All P (drop n xs)
All-drop P zero xs h = h
All-drop P (suc n) [] h = h
All-drop P (suc n) (x ∷ xs) (p, h) = All-drop P n xs h

All-take : {A : Type 0} (P : A → Type 0) (n : ℕ) (xs : List A) → All P xs → All P (take n xs)
All-take P zero xs h = tt
All-take P (suc n) [] h = h
All-take P (suc n) (x ∷ xs) (p, h) = (p, All-take P n xs h)

order_with-All :
    (P : AccountSelection → Type 0) (s : LoadBalanceStrategy) (cursor : ℕ)
    (xs : List AccountSelection)
    → All P xs
    → All P (order_with s cursor xs).0
unfolding order_with
order_with-All P least_used cursor xs h = sort-All _ P xs h
order_with-All P failover cursor xs h = sort-All _ P xs h
order_with-All P round_robin cursor xs h =
    let sorted = sort_by (sort_key round_robin) xs in
    let all : All P sorted = sort-All _ P xs h in
    elim (Bool-cases (leb (length sorted) 1)) [
      | inl short ↦ rw short all
      | inr long ↦ rw long (
          All-append P (drop (cursor % length sorted) sorted) (take (cursor % length sorted) sorted)
            (All-drop P (cursor % length sorted) sorted all)
            (All-take P (cursor % length sorted) sorted all))
    ]

-- An account that may be tried: it exists, and was not tried.
abbrev MayTry : ProviderRoutingEngine → Progress → String → Type 0
MayTry e p id = (contains id p.attempted_accounts ≡ false) × (contains id (account_ids e) ≡ true)

untried-MayTry :
    (hooks : Hooks) (request : ChatCompletionRequest) (e : ProviderRoutingEngine) (now : ℕ)
    (p : Progress)
    → All (λ s. MayTry e p (id_of s)) (untried hooks request e now p.attempted_accounts)
unfolding order_candidates
untried-MayTry hooks request e now p =
    let xs = (order_candidates e (get_candidates hooks e request now)).0 in
    All-both (λ s. contains (id_of s) p.attempted_accounts ≡ false)
      (λ s. contains (id_of s) (account_ids e) ≡ true)
      (untried hooks request e now p.attempted_accounts)
      (filter-All _ _ (λ s h. ground (arith, h)) xs)
      (All-filter _ _ xs (
        order_with-All (λ s. contains (id_of s) (account_ids e) ≡ true) e.store.strategy
          e.round_robin_cursor (get_candidates hooks e request now)
          (get_candidates-known hooks e request now)))

-- What a pass leaves to be tried if it goes on.
pass_once-less :
    (hooks : Hooks) (request : ChatCompletionRequest) (context : ProxyContext)
    (e : ProviderRoutingEngine) (r : Surroundings) (p p' : Progress)
    → (pass_once hooks request context e r p).1 ≡ continues p'
    → untried_count (account_ids e) p'.attempted_accounts
      < untried_count (account_ids e) p.attempted_accounts
pass_once-less hooks request context e r p p' h =
    let goes : GoesOn (MayTry e p) p (continues p') = subst (GoesOn (MayTry e p) p) h (
      pass_once-GoesOn (MayTry e p) hooks request context e r p
        (untried-MayTry hooks request e r.started p)) in
    let (id, tried, counted, fresh) = goes in
    rw tried (untried_count-cons-lt (account_ids e) p.attempted_accounts id fresh.1 fresh.0)

-- With more elements in the list than there are accounts to try, there is an answer.
passes-returns :
    (hooks : Hooks) (request : ChatCompletionRequest) (context : ProxyContext)
    (e : ProviderRoutingEngine) (rs : List Surroundings) (p : Progress)
    → All KeepsAccounts rs
    → untried_count (account_ids e) p.attempted_accounts < length rs
    → (outcome : Outcome) × ((passes hooks request context e rs p).1 ≡ some outcome)
unfolding passes
passes-returns hooks request context e [] p k h = absurd (omega (arith, h))
passes-returns hooks request context e (r ∷ rs) p (k, ks) h =
    let e' = (pass_once hooks request context e r p).0 in
    let same = pass_once-account_ids hooks request context e r p k in
    go
      (λ p' less.
        passes-returns hooks request context e' rs p' ks (rw same (omega (arith, less, h))))
      (pass_once hooks request context e r p).1 refl
  where
    go :
        ((p' : Progress)
          → untried_count (account_ids e) p'.attempted_accounts
            < untried_count (account_ids e) p.attempted_accounts
          → (outcome : Outcome) × ((passes hooks request context
                (pass_once hooks request context e r p).0
                rs
                p').1
              ≡ some outcome))
        → (pass : Pass) → (pass_once hooks request context e r p).1 ≡ pass
        → (outcome : Outcome) × ((passes hooks request context e (r ∷ rs) p).1 ≡ some outcome)
    go next (returns outcome) t = (outcome, rw (t, passes) refl)
    go next (breaks p' now) t = (failed (exhausted p' now), rw (t, passes) refl)
    go next (continues p') t =
        let rest = next p' (pass_once-less hooks request context e r p p' t) in
        (rest.0, rw (t, passes) rest.1)

length-map : {A B : Type 0} (f : A → B) (xs : List A) → length (map f xs) ≡ length xs
length-map f [] = refl
length-map f (x ∷ xs) = rw (length-map f xs)

-- If no account is added or removed meanwhile, a request has its answer after at most one pass more
-- than there are accounts: a list of that length holds all the passes that the loop makes.
pub forward-returns :
    (hooks : Hooks) (request : ChatCompletionRequest) (context : ProxyContext)
    (e : ProviderRoutingEngine) (now : ℕ) (rs : List Surroundings)
    → All KeepsAccounts rs
    → length e.store.accounts < length rs
    → (outcome : Outcome) × ((forward hooks request context e now rs).1 ≡ some outcome)
unfolding forward untried_count
forward-returns hooks request context e now rs k h =
    let few = length-filter-le (λ id. not (contains id [])) (account_ids e) in
    let all = length-map (λ a. a.id) e.store.accounts in
    let rest = passes-returns hooks request context e rs at_start k (omega (arith, few, all, h)) in
    elim (Bool-cases (length (get_candidates hooks e request now) == 0)) [
      | inl shut ↦ (failed (unavailable_routing_failure hooks e request now), rw shut refl)
      | inr some_left ↦ (rest.0, rw some_left rest.1)
    ]
