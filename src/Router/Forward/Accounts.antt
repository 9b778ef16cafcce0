-- ===== src/Router/Forward/Accounts.antt =====
-- A pass adds and removes no account.
use mathlib.Core.Option.{get_or}
use chat2api_web_gateway.Prelude.{
  ltb, leb, ◌==◌, ◌===◌, if◌then◌else◌, Bool-cases, Option-cases, length, filter, any, head?,
  sort_by, ℕ, String, ◌≡◌, refl, ap, ◌∙◌, inl, inr, Bool, true, false, ◌&&◌, Option, none, some,
  List, [], ◌∷◌, map, arith,
}
use chat2api_web_gateway.Concurrency.{try_acquire}
use chat2api_web_gateway.Router.Types.{
  error, Account, AccountSelection, ChatCompletionRequest, ProxyContext, AccountFailureOutcome,
  Hooks, ProviderRoutingEngine, Suspension, ForwardResult,
}
use chat2api_web_gateway.Router.Circuits.{status_code}
use chat2api_web_gateway.Router.Candidates.{get_candidates, order_candidates}
use chat2api_web_gateway.Router.Reserve.{
  gate_for, set_gate, id_of, release_account, consume_usage_window, Reservation, reserved, refused,
  waits, no_account, with_permit, try_candidate, try_candidates, queued_on, has_background_usage,
  is_idle, idle_accounts, try_background, as_number, reserve_background_candidate, keeps_reserve,
  reserve_candidate, reserve_after_wait,
}
use chat2api_web_gateway.Router.Failover.{
  handle_account_failure, Progress, Pass, Surroundings, after_failure, after_success,
}
use chat2api_web_gateway.Router.Forward.{after_reservation, settled_reservation, untried, pass_once}

abbrev pub account_ids : ProviderRoutingEngine → List String
account_ids e = map (λ a. a.id) e.store.accounts

-- What other requests do while this one waits adds and removes no account.
abbrev pub KeepsAccounts : Surroundings → Type 0
KeepsAccounts r =
    ((e : ProviderRoutingEngine) → account_ids (r.while_queued e) ≡ account_ids e)
    × ((e : ProviderRoutingEngine) → account_ids (r.while_forwarding e) ≡ account_ids e)
    × ((e : ProviderRoutingEngine) → account_ids (r.while_priming e) ≡ account_ids e)

consume_usage_window-accounts :
    (e : ProviderRoutingEngine) (s : AccountSelection) (permit now : ℕ)
    → (consume_usage_window e s permit now).0.store.accounts ≡ e.store.accounts
unfolding consume_usage_window release_account
consume_usage_window-accounts e s permit now = ground arith

with_permit-accounts :
    (e : ProviderRoutingEngine) (s : AccountSelection) (permit : Option ℕ) (now : ℕ)
    → (with_permit e s permit now).0.store.accounts ≡ e.store.accounts
unfolding with_permit
with_permit-accounts e s none now = refl
with_permit-accounts e s (some permit) now = consume_usage_window-accounts e s permit now

try_candidate-accounts :
    (e : ProviderRoutingEngine) (s : AccountSelection) (now : ℕ)
    → (try_candidate e s now).0.store.accounts ≡ e.store.accounts
unfolding try_candidate
try_candidate-accounts e s now =
    let (g, permit) = try_acquire (gate_for e (id_of s)) in
    with_permit-accounts (set_gate e (id_of s) g) s permit now

try_candidates-accounts :
    (e : ProviderRoutingEngine) (xs : List AccountSelection) (now : ℕ)
    → (try_candidates e xs now).0.store.accounts ≡ e.store.accounts
unfolding try_candidates
try_candidates-accounts e [] now = refl
try_candidates-accounts e (s ∷ xs) now =
    let e' = (try_candidate e s now).0 in
    elim (Option-cases (try_candidate e s now).1) [
      | inl t ↦
          rw (t, try_candidates)
            (try_candidates-accounts e' xs now ∙ try_candidate-accounts e s now)
      | inr (place, t) ↦ rw (t, try_candidates) (try_candidate-accounts e s now)
    ]

try_background-accounts :
    (e : ProviderRoutingEngine) (idle : ℕ) (xs : List AccountSelection) (now : ℕ)
    → (try_background e idle xs now).0.store.accounts ≡ e.store.accounts
unfolding try_background
try_background-accounts e idle [] now = refl
try_background-accounts e idle (s ∷ xs) now =
    let e' = (try_candidate e s now).0 in
    elim (Bool-cases (is_idle e s && leb idle e.config.background_account_reserve)) [
      | inl skipped ↦ rw skipped (try_background-accounts e idle xs now)
      | inr going ↦ elim (Option-cases (try_candidate e s now).1) [
        | inl t ↦
            rw (going, t) (try_background-accounts e' idle xs now ∙ try_candidate-accounts e s now)
        | inr (place, t) ↦ rw (going, t) (try_candidate-accounts e s now)
      ]
    ]

reserve_background_candidate-accounts :
    (e : ProviderRoutingEngine) (xs : List AccountSelection) (now : ℕ)
    → (reserve_background_candidate e xs now).0.store.accounts ≡ e.store.accounts
unfolding reserve_background_candidate
reserve_background_candidate-accounts e xs now = ground (
  arith,
  try_background-accounts e (idle_accounts e xs)
      (sort_by (λ s. as_number (is_idle e s))
        (filter (λ s. ltb (gate_for e (id_of s)).active e.config.account_concurrency)
          (filter (has_background_usage e) xs)))
      now,
)

reserve_candidate-accounts :
    (e : ProviderRoutingEngine) (xs : List AccountSelection) (context : ProxyContext) (now : ℕ)
    → (reserve_candidate e xs context now).0.store.accounts ≡ e.store.accounts
unfolding reserve_candidate
reserve_candidate-accounts e xs context now =
    let e' = (try_candidates e xs now).0 in
    let same = try_candidates-accounts e xs now in
    elim (Bool-cases (keeps_reserve e context)) [
      | inl kept ↦ rw kept (reserve_background_candidate-accounts e xs now)
      | inr free ↦ elim (Option-cases (try_candidates e xs now).1) [
        | inr (place, t) ↦ rw (free, t) same
        | inl t ↦ elim (Option-cases (head? (sort_by (queued_on e') xs))) [
          | inl empty ↦ rw (free, t, empty) same
          | inr (target, first) ↦ rw (free, t, first) same
        ]
      ]
    ]

reserve_after_wait-accounts :
    (hooks : Hooks) (e : ProviderRoutingEngine) (request : ChatCompletionRequest)
    (target : AccountSelection) (answer : Option ℕ) (now : ℕ)
    → (reserve_after_wait hooks e request target answer now).0.store.accounts ≡ e.store.accounts
unfolding reserve_after_wait
reserve_after_wait-accounts hooks e request target none now = refl
reserve_after_wait-accounts hooks e request target (some permit) now =
    elim (Bool-cases (any (λ s. id_of s === id_of target) (get_candidates hooks e request now))) [
      | inr gone ↦ rw (gone, release_account) refl
      | inl still ↦ elim (Option-cases (consume_usage_window e target permit now).1) [
        | inl t ↦ rw (still, t) (consume_usage_window-accounts e target permit now)
        | inr (s, t) ↦ rw (still, t) (consume_usage_window-accounts e target permit now)
      ]
    ]

settled_reservation-account_ids :
    (hooks : Hooks) (request : ChatCompletionRequest) (e : ProviderRoutingEngine)
    (reservation : Reservation) (r : Surroundings)
    → KeepsAccounts r
    → account_ids (settled_reservation hooks request e reservation r).0 ≡ account_ids e
unfolding settled_reservation
settled_reservation-account_ids hooks request e (reserved s permit) r k = refl
settled_reservation-account_ids hooks request e (refused f) r k = refl
settled_reservation-account_ids hooks request e no_account r k = refl
settled_reservation-account_ids hooks request e (waits target n) r k =
    ap (map (λ a. a.id))
      (reserve_after_wait-accounts hooks (r.while_queued e) request target r.answer r.woken)
    ∙ k.0 e

ids-update :
    (id message : String) (now : ℕ) (xs : List Account)
    → map
        (λ a. a.id)
        (map
          (λ a.
            if a.id === id
            then record a { status = error; error_message = some message; updated_at = now }
            else a)
          xs)
      ≡ map (λ a. a.id) xs
ids-update id message now [] = refl
ids-update id message now (a ∷ xs) = elim (Bool-cases (a.id === id)) [
  | inl same ↦ rw (same, ids-update id message now xs) refl
  | inr other ↦ rw (other, ids-update id message now xs) refl
]

handle_account_failure-account_ids :
    (e : ProviderRoutingEngine) (s : AccountSelection) (failure : AccountFailureOutcome) (now : ℕ)
    → account_ids (handle_account_failure e s failure now).0 ≡ account_ids e
unfolding handle_account_failure
handle_account_failure-account_ids e s failure now =
    elim (Bool-cases (failure.code === "provider_account_suspended")) [
      | inl h ↦ simp (h, ids-update)
      | inr h ↦ elim (Bool-cases (failure.code === "provider_authentication_failed")) [
        | inl k ↦ simp (h, k, ids-update)
        | inr k ↦ simp (h, k)
      ]
    ]

after_failure-account_ids :
    (hooks : Hooks) (request : ChatCompletionRequest) (e : ProviderRoutingEngine)
    (s : AccountSelection) (result : ForwardResult) (now : ℕ) (p : Progress)
    → account_ids (after_failure hooks request e s result now p).0 ≡ account_ids e
unfolding after_failure
after_failure-account_ids hooks request e s result now p =
    let code = get_or result.code (status_code (get_or result.status 502)) in
    elim (Bool-cases (code === "invalid_media_input")) [
      | inl invalid ↦ rw invalid refl
      | inr valid ↦ elim (Bool-cases (code === "provider_expert_busy")) [
        | inl busy ↦ rw (valid, busy) refl
        | inr other ↦ rw (valid, other) (handle_account_failure-account_ids e s _ now)
      ]
    ]

after_success-account_ids :
    (request : ChatCompletionRequest) (e : ProviderRoutingEngine) (s : AccountSelection)
    (permit : ℕ) (r : Surroundings) (p : Progress)
    → KeepsAccounts r
    → account_ids (after_success request e s permit r p).0 ≡ account_ids e
unfolding after_success release_account
after_success-account_ids request e s permit r p k = elim (Bool-cases request.stream) [
  | inr whole ↦ rw whole refl
  | inl streams ↦ elim (Option-cases r.result.stream) [
    | inl t ↦ rw (streams, t) refl
    | inr (stream, t) ↦ elim (Option-cases r.primed) [
      | inl u ↦ rw (streams, t, u) (k.2 e)
      | inr (chunk, u) ↦ rw (streams, t, u) (k.2 e)
    ]
  ]
]

either-account_ids :
    (e : ProviderRoutingEngine) (b : Bool) (x y : ProviderRoutingEngine × Pass × Option Suspension)
    → account_ids x.0 ≡ account_ids e
    → account_ids y.0 ≡ account_ids e
    → account_ids (if b then x else y).0 ≡ account_ids e
either-account_ids e true x y h k = h
either-account_ids e false x y h k = k

after_reservation-account_ids :
    (hooks : Hooks) (request : ChatCompletionRequest) (e : ProviderRoutingEngine)
    (reservation : Reservation) (r : Surroundings) (p : Progress)
    → KeepsAccounts r
    → account_ids (after_reservation hooks request e reservation r p).0 ≡ account_ids e
unfolding after_reservation release_account
after_reservation-account_ids hooks request e (refused f) r p k = refl
after_reservation-account_ids hooks request e (waits s n) r p k = refl
after_reservation-account_ids hooks request e no_account r p k = refl
after_reservation-account_ids hooks request e (reserved s permit) r p k =
    let later = r.while_forwarding e in
    either-account_ids e r.result.success _ _
      (after_success-account_ids request later s permit r _ k ∙ k.1 e)
      (after_failure-account_ids hooks request (release_account later (id_of s) permit) s r.result
          r.answered _
        ∙ k.1 e)

pub pass_once-account_ids :
    (hooks : Hooks) (request : ChatCompletionRequest) (context : ProxyContext)
    (e : ProviderRoutingEngine) (r : Surroundings) (p : Progress)
    → KeepsAccounts r
    → account_ids (pass_once hooks request context e r p).0 ≡ account_ids e
unfolding pass_once order_candidates
pass_once-account_ids hooks request context e r p k =
    let candidates = untried hooks request e r.started p.attempted_accounts in
    let e' = (order_candidates e (get_candidates hooks e request r.started)).1 in
    let (d, reservation) = reserve_candidate e' candidates context r.started in
    let (c, settled) = settled_reservation hooks request d reservation r in
    elim (Bool-cases (length candidates == 0)) [
      | inl none_left ↦ rw none_left refl
      | inr some_left ↦ rw some_left (
          after_reservation-account_ids hooks request c settled r p k
          ∙ settled_reservation-account_ids hooks request d reservation r k
          ∙ ap (map (λ a. a.id)) (reserve_candidate-accounts e' candidates context r.started))
    ]
