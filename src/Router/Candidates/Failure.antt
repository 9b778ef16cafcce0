-- ===== src/Router/Candidates/Failure.antt =====
-- What a client is told when no account can take its request.
use chat2api_web_gateway.Prelude.{
  ltb, leb, ltb→lt, Bool-cases, Option-cases, length, filter, head?, length-filter-le, All,
  insert_sorted, sort-All, sort_by, head-sort_by-le, get, ℕ, ◌+◌, ◌*◌, ◌≤◌, ◌<◌, ◌≡◌, refl, subst,
  inl, inr, some, List, [], ◌∷◌, map, arith,
}
use mathlib.Core.List.{Mem, mem-cons_self, mem-cons_of_mem}
use chat2api_web_gateway.Router.Types.{
  Account, Provider, ChatCompletionRequest, CircuitState, Hooks, ProviderRoutingEngine,
}
use chat2api_web_gateway.Router.Circuits.{is_closed}
use chat2api_web_gateway.Router.Candidates.{
  has_capacity, distinct_identities, usable_provider, active_accounts, select, get_candidates,
  seconds_until, open_circuits, code_or_unavailable, circuits_open, unavailable_routing_failure,
}

-- No account passes the circuits exactly when each has one that is open.
length-open_circuits-le :
    (e : ProviderRoutingEngine) (now : ℕ) (xs : List Account)
    → length (open_circuits e now xs) ≤ length xs
length-open_circuits-le e now [] = omega arith
length-open_circuits-le e now (a ∷ xs) = ground (arith, length-open_circuits-le e now xs)

none_closed :
    (e : ProviderRoutingEngine) (now : ℕ) (xs : List Account)
    → filter (λ a. is_closed e.circuits now a.id) xs ≡ []
    → length (open_circuits e now xs) ≡ length xs
none_closed e now [] h = refl
none_closed e now (a ∷ xs) h = ground (arith, none_closed e now xs)

-- An account is kept out until a time at the least.
abbrev pub IsOutUntil : ProviderRoutingEngine → ℕ → Account → Type 0
IsOutUntil e until a =
    (c : CircuitState) × (get a.id e.circuits ≡ some c) × (until ≤ c.opened_until)

open_circuits-IsOutUntil :
    (e : ProviderRoutingEngine) (now until : ℕ) (xs : List Account)
    → filter (λ a. is_closed e.circuits now a.id) xs ≡ []
    → All (λ c. until ≤ c.opened_until) (open_circuits e now xs)
    → All (IsOutUntil e until) xs
open_circuits-IsOutUntil e now until [] h o = tt
open_circuits-IsOutUntil e now until (a ∷ xs) h o =
    ground (arith, open_circuits-IsOutUntil e now until xs)

distinct_identities-eq-nil :
    (hooks : Hooks) (xs : List Account) → distinct_identities hooks [] xs ≡ [] → xs ≡ []
unfolding distinct_identities
distinct_identities-eq-nil hooks [] h = refl
distinct_identities-eq-nil hooks (a ∷ xs) h = ground arith

-- The accounts that are active and below their limits.
abbrev pub eligible : ProviderRoutingEngine → ℕ → List Account
eligible e now = filter has_capacity (active_accounts e now)

map-eq-nil : {A B : Type 0} (f : A → B) (xs : List A) → map f xs ≡ [] → xs ≡ []
map-eq-nil f [] h = refl
map-eq-nil f (x ∷ xs) h = cc

candidates-eq-nil :
    (hooks : Hooks) (e : ProviderRoutingEngine) (request : ChatCompletionRequest) (now : ℕ)
    (p : Provider)
    → usable_provider hooks e request ≡ some p
    → get_candidates hooks e request now ≡ []
    → filter (λ a. is_closed e.circuits now a.id) (eligible e now) ≡ []
unfolding get_candidates active_accounts
candidates-eq-nil hooks e request now p usable h =
    let h' : map (select hooks request p) (
          distinct_identities hooks []
            (filter (λ a. is_closed e.circuits now a.id) (eligible e now)))
        ≡ [] =
      rw (usable, get_candidates) at h in
    distinct_identities-eq-nil hooks _ (map-eq-nil (select hooks request p) _ h')

head-cons : {A : Type 0} (xs : List A) → 0 < length xs → (x : A) × (head? xs ≡ some x)
head-cons [] h = absurd (omega arith)
head-cons (x ∷ xs) h = (x, refl)

length-insert_sorted_by :
    (cs : List CircuitState) → 0 < length cs → 0 < length (sort_by (λ c. c.opened_until) cs)
length-insert_sorted_by [] h = h
length-insert_sorted_by (c ∷ cs) h = longer (sort_by (λ d. d.opened_until) cs)
  where
    longer :
        (ds : List CircuitState)
        → 0 < length (insert_sorted (λ x y. leb x.opened_until y.opened_until) c ds)
    longer [] = omega arith
    longer (d ∷ ds) = ground arith

unavailable-circuits_open :
    (hooks : Hooks) (e : ProviderRoutingEngine) (request : ChatCompletionRequest) (now : ℕ)
    (p : Provider) (c : CircuitState)
    → usable_provider hooks e request ≡ some p
    → 0 < length (eligible e now)
    → length (open_circuits e now (eligible e now)) ≡ length (eligible e now)
    → head? (sort_by (λ d. d.opened_until) (open_circuits e now (eligible e now))) ≡ some c
    → unavailable_routing_failure hooks e request now ≡ circuits_open now c
unfolding unavailable_routing_failure
unavailable-circuits_open hooks e request now p c usable some_left all_open first =
    ground (arith, length-filter-le has_capacity (active_accounts e now))

-- An open circuit of one of some accounts.
abbrev pub IsCircuitOf : ProviderRoutingEngine → ℕ → List Account → CircuitState → Type 0
IsCircuitOf e now accounts c =
    (a : Account) × Mem a accounts × (get a.id e.circuits ≡ some c) × (now < c.opened_until)

open_circuits-IsCircuitOf :
    (e : ProviderRoutingEngine) (now : ℕ) (accounts xs : List Account)
    → ((a : Account) → Mem a xs → Mem a accounts)
    → All (IsCircuitOf e now accounts) (open_circuits e now xs)
open_circuits-IsCircuitOf e now accounts [] among = tt
open_circuits-IsCircuitOf e now accounts (a ∷ xs) among =
    let rest = open_circuits-IsCircuitOf e now accounts xs (λ b h. among b (mem-cons_of_mem a h)) in
    elim (Option-cases (get a.id e.circuits)) [
      | inl fresh ↦ rw (fresh, open_circuits) rest
      | inr (c, found) ↦ elim (Bool-cases (ltb now c.opened_until)) [
        | inl shut ↦
            rw (found, open_circuits)
              (rw (shut) ((a, among a mem-cons_self, found, ltb→lt now c.opened_until shut), rest))
        | inr closed ↦ rw (found, open_circuits) (rw (closed) rest)
      ]
    ]

All-head : {A : Type 0} (P : A → Type 0) (xs : List A) (x : A) → All P xs → head? xs ≡ some x → P x
All-head P [] x h e = absurd (ground (arith, e))
All-head P (y ∷ ys) x (p, h) e = let same : y ≡ x = ground (arith, e) in subst P same p

-- If the provider serves the model and some active account is below its limit, but there is no
-- candidate, then the answer names the code of the circuit that opens first: an open circuit of one of
-- these accounts, such that each of them has a circuit that opens no earlier. Its `Retry-After` is not
-- before that circuit lets requests in, and less than a second behind it.
pub unavailable-eligible :
    (hooks : Hooks) (e : ProviderRoutingEngine) (request : ChatCompletionRequest) (now : ℕ)
    (p : Provider)
    → usable_provider hooks e request ≡ some p
    → get_candidates hooks e request now ≡ []
    → 0 < length (eligible e now)
    → let failure = unavailable_routing_failure hooks e request now in
      (c : CircuitState) × (seconds : ℕ) × IsCircuitOf e now (eligible e now) c
      × All (IsOutUntil e c.opened_until) (eligible e now)
      × (failure.code ≡ code_or_unavailable c.code)
      × (failure.retry_after_seconds ≡ some seconds)
      × (c.opened_until ≤ now + seconds * 1000)
      × (now + seconds * 1000 < c.opened_until + 1000)
unavailable-eligible hooks e request now p usable h some_left =
    let shut = candidates-eq-nil hooks e request now p usable h in
    let opened = open_circuits e now (eligible e now) in
    let all_open = none_closed e now (eligible e now) shut in
    let (c, first) =
      head-cons (sort_by (λ d. d.opened_until) opened)
        (length-insert_sorted_by opened (omega arith)) in
    let same = unavailable-circuits_open hooks e request now p c usable some_left all_open first in
    let least = head-sort_by-le (λ d. d.opened_until) opened c first in
    let own : IsCircuitOf e now (eligible e now) c =
      All-head (IsCircuitOf e now (eligible e now)) (sort_by (λ d. d.opened_until) opened) c
        (sort-All (λ x y. leb x.opened_until y.opened_until) (IsCircuitOf e now (eligible e now))
          opened (open_circuits-IsCircuitOf e now (eligible e now) (eligible e now) (λ a m. m)))
        first in
    let later : now < c.opened_until = own.3 in
    (
      c,
      seconds_until now c.opened_until,
      own,
      open_circuits-IsOutUntil e now c.opened_until (eligible e now) shut least,
      rw same,
      rw same,
      omega arith,
      omega (arith, later),
    )
