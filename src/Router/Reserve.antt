-- ===== src/Router/Reserve.antt =====
-- How a request takes a place on an account: a permit of the account's gate and an attempt of its
-- usage window. A gate that `gateFor` creates is stored when a permit is asked of it.
pub mod Laws
pub mod Background
use mathlib.Core.Option
use mathlib.Core.Option.{get_or}
use chat2api_web_gateway.Prelude.{
  ltb, leb, ◌==◌, ◌===◌, if◌then◌else◌, length, filter, any, head?, sort_by, get, put, ℕ, ◌+◌,
  String, Bool, true, false, not, ◌&&◌, ◌||◌, Option, none, some, List, [], ◌∷◌, map,
}
use chat2api_web_gateway.Concurrency.{
  foreground, background, ConcurrencyGate, new_gate, get_queued, try_acquire, acquire, release,
}
use chat2api_web_gateway.Usage.{normalized_limit, consume_account_usage_window}
use chat2api_web_gateway.Router.Types.{
  AccountSelection, ChatCompletionRequest, ProxyContext, RoutingFailure, Hooks,
  ProviderRoutingEngine,
}
use chat2api_web_gateway.Router.Candidates.{get_candidates, later_than, earliest, seconds_until}

-- The gates' default time to wait is never used: `acquire` is given one.
unfoldable pub gate_for : ProviderRoutingEngine → String → ConcurrencyGate
gate_for e id =
    get_or (get id e.account_gates)
      (new_gate e.config.account_concurrency e.config.queue_max_depth 60000)

abbrev pub set_gate : ProviderRoutingEngine → String → ConcurrencyGate → ProviderRoutingEngine
set_gate e id g = record e { account_gates = put id g e.account_gates }

abbrev pub id_of : AccountSelection → String
id_of s = s.account.id

-- `release()` of a permit of an account.
unfoldable pub release_account : ProviderRoutingEngine → String → ℕ → ProviderRoutingEngine
unfolding gate_for
release_account e id permit = set_gate e id (release (gate_for e id) permit)

-- The attempt is counted; if the window is full the permit is given back.
unfoldable pub consume_usage_window :
    ProviderRoutingEngine
    → AccountSelection
    → ℕ
    → ℕ
    → ProviderRoutingEngine × Option AccountSelection
unfolding release_account
consume_usage_window e s permit now =
    elim (consume_account_usage_window e.store.events s.account.id s.account.daily_limit
      e.config.account_usage_window_ms now) [
        | none ↦ (release_account e s.account.id permit, none)
        | some (events, usage) ↦
            if usage.allowed
            then (
              record e { store = record (e.store) { events = events } },
              some (record s {
                account = record (s.account) {
                  usage_window_used = some usage.used;
                  usage_window_reset_at = usage.reset_at;
                };
              }),
            )
            else (release_account e s.account.id permit, none)
      ]

-- What a reservation comes to before any await: a place, a refusal, or a promise of a gate to wait
-- for.
pub data Reservation : Type 0 where
  reserved : AccountSelection → ℕ → Reservation
  refused : RoutingFailure → Reservation
  waits : AccountSelection → ℕ → Reservation
  no_account : Reservation

-- The usage window is asked for under a permit, if there is one.
unfoldable pub with_permit :
    ProviderRoutingEngine
    → AccountSelection
    → Option ℕ
    → ℕ
    → ProviderRoutingEngine × Option (AccountSelection × ℕ)
unfolding consume_usage_window
with_permit e s none now = (e, none)
with_permit e s (some permit) now =
    let (e', taken) = consume_usage_window e s permit now in
    (e', Option.map (λ s'. (s', permit)) taken)

-- `tryAcquire` on a candidate, then its usage window; `none` goes on to the next candidate.
unfoldable pub try_candidate :
    ProviderRoutingEngine
    → AccountSelection
    → ℕ
    → ProviderRoutingEngine × Option (AccountSelection × ℕ)
unfolding with_permit gate_for
try_candidate e s now =
    let (g, permit) = try_acquire (gate_for e (id_of s)) in
    with_permit (set_gate e (id_of s) g) s permit now

unfoldable pub try_candidates :
    ProviderRoutingEngine
    → List AccountSelection
    → ℕ
    → ProviderRoutingEngine × Option (AccountSelection × ℕ)
try_candidates e [] now = (e, none)
try_candidates e (s ∷ rest) now =
    let (e', taken) = try_candidate e s now in
    let later = try_candidates e' rest now in
    elim taken [ none ↦ later | some place ↦ (e', some place) ]

abbrev pub queued_on : ProviderRoutingEngine → AccountSelection → ℕ
queued_on e s = get_queued (gate_for e (id_of s))

-- `nextUsageRetrySeconds`.
abbrev pub next_usage_retry_seconds : ProviderRoutingEngine → List AccountSelection → ℕ → ℕ
next_usage_retry_seconds e candidates now = seconds_until now (
    get_or (earliest (later_than now (map (λ s. s.account.usage_window_reset_at) candidates)))
      (now + e.config.account_usage_window_ms))

abbrev pub has_background_usage : ProviderRoutingEngine → AccountSelection → Bool
has_background_usage e s = elim (normalized_limit s.account.daily_limit) [
  | none ↦ true
  | some limit ↦
      ltb (get_or s.account.usage_window_used 0 + e.config.background_usage_reserve) limit
]

abbrev pub is_idle : ProviderRoutingEngine → AccountSelection → Bool
is_idle e s = (gate_for e (id_of s)).active == 0

-- `idleAccounts`, counted over all the candidates.
abbrev pub idle_accounts : ProviderRoutingEngine → List AccountSelection → ℕ
idle_accounts e candidates = length (filter (is_idle e) candidates)

-- The loop over `available`; `idle` is the count from before it.
unfoldable pub try_background :
    ProviderRoutingEngine
    → ℕ
    → List AccountSelection
    → ℕ
    → ProviderRoutingEngine × Option (AccountSelection × ℕ)
try_background e idle [] now = (e, none)
try_background e idle (s ∷ rest) now =
    let skipped = try_background e idle rest now in
    let (e', taken) = try_candidate e s now in
    let later = try_background e' idle rest now in
    if is_idle e s && leb idle e.config.background_account_reserve
    then skipped
    else elim taken [ none ↦ later | some place ↦ (e', some place) ]

abbrev pub as_number : Bool → ℕ
as_number b = if b then 1 else 0

unfoldable pub reserve_background_candidate :
    ProviderRoutingEngine → List AccountSelection → ℕ → ProviderRoutingEngine × Reservation
unfolding try_background
reserve_background_candidate e candidates now =
    let usable = filter (has_background_usage e) candidates in
    let free =
      filter (λ s. ltb (gate_for e (id_of s)).active e.config.account_concurrency) usable in
    let available = sort_by (λ s. as_number (is_idle e s)) free in
    let (e', taken) = try_background e (idle_accounts e candidates) available now in
    if length usable == 0
    then (
      e,
      refused (record {
        status = 503;
        code = "background_usage_capacity_reserved";
        retry_after_seconds = some (next_usage_retry_seconds e candidates now);
      }),
    )
    else elim taken [
      | some (s, permit) ↦ (e', reserved s permit)
      | none ↦ (
        e',
        refused (record {
          status = 503;
          code = "background_capacity_reserved";
          retry_after_seconds = some 30;
        }),
      )
    ]

abbrev pub keeps_reserve : ProviderRoutingEngine → ProxyContext → Bool
keeps_reserve e context = elim context.priority [
  | none ↦ false
  | some p ↦ elim p [
    | foreground ↦ false
    | background ↦
        ltb 0 e.config.background_account_reserve || ltb 0 e.config.background_usage_reserve
  ]
]

-- `reserveCandidate` up to its await: the shortest queue is joined when no place is free.
unfoldable pub reserve_candidate :
    ProviderRoutingEngine
    → List AccountSelection
    → ProxyContext
    → ℕ
    → ProviderRoutingEngine × Reservation
unfolding gate_for
reserve_candidate e candidates context now =
    let (e', taken) = try_candidates e candidates now in
    let background_place = reserve_background_candidate e candidates now in
    if keeps_reserve e context then background_place else elim taken [
      | some (s, permit) ↦ (e', reserved s permit)
      | none ↦ elim (head? (sort_by (queued_on e') candidates)) [
        | none ↦ (e', no_account)
        | some target ↦
            let g = gate_for e' (id_of target) in
            (
              set_gate e' (id_of target) (
                  acquire g (record {
                    priority = context.priority;
                    signal = context.signal;
                    timeout_ms = some e.config.queue_timeout_ms;
                  })),
              waits target g.next_waiter,
            )
      ]
    ]

-- After the await: `answer` is what the promise was resolved with.
unfoldable pub reserve_after_wait :
    Hooks
    → ProviderRoutingEngine
    → ChatCompletionRequest
    → AccountSelection
    → Option ℕ
    → ℕ
    → ProviderRoutingEngine × Reservation
unfolding consume_usage_window
reserve_after_wait hooks e request target answer now = elim answer [
  | none ↦ (e, no_account)
  | some permit ↦
      let eligible = any (λ s. id_of s === id_of target) (get_candidates hooks e request now) in
      let (e', taken) = consume_usage_window e target permit now in
      if not eligible
      then (release_account e (id_of target) permit, no_account)
      else elim taken [ none ↦ (e', no_account) | some s ↦ (e', reserved s permit) ]
]
