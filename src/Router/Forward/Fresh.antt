-- ===== src/Router/Forward/Fresh.antt =====
-- No account is tried twice for one request.
use mathlib.Core.Option.{get_or}
use chat2api_web_gateway.Router.Circuits.{record_failure, status_code, can_fail_over}
use chat2api_web_gateway.Prelude.{
  ltb, ◌==◌, ◌===◌, if◌then◌else◌, Bool-cases, Option-cases, length, All, filter-All, ℕ, ◌+◌,
  String, ◌≡◌, refl, inl, inr, Bool, true, false, ◌&&◌, Option, some, ◌∷◌, arith,
}
use chat2api_web_gateway.Router.Types.{
  AccountSelection, ChatCompletionRequest, ProxyContext, Hooks, ProviderRoutingEngine, Suspension,
  ForwardResult,
}
use chat2api_web_gateway.Router.Candidates.{contains, get_candidates, order_candidates}
use chat2api_web_gateway.Router.Failover.{
  Progress, routed, failed, Pass, continues, breaks, returns, Surroundings, note_retry, has_untried,
  after_failure, after_success,
}
use chat2api_web_gateway.Router.Forward.{after_reservation, untried, pass_once}
use chat2api_web_gateway.Router.Reserve.{
  id_of, release_account, Reservation, reserved, refused, waits, no_account, reserve_candidate,
}
use chat2api_web_gateway.Router.Forward.Places.{
  ReservesOn, settled_reservation-ReservesOn, reserve_candidate-ReservesOn,
}

-- A pass that tried the account of `s`, counted in `p`.
abbrev Counts : AccountSelection → Progress → Pass → Type 0
Counts s p (continues p') =
    (p'.attempted_accounts ≡ p.attempted_accounts) × (p'.attempts ≡ p.attempts)
Counts s p (returns (routed r)) = (id_of r.selection ≡ id_of s) × (r.attempts ≡ p.attempts)
Counts s p (returns (failed f)) = Unit
Counts s p (breaks p' now) = Unit

after_failure-Counts :
    (hooks : Hooks) (request : ChatCompletionRequest) (e : ProviderRoutingEngine)
    (s : AccountSelection) (result : ForwardResult) (now : ℕ) (p : Progress)
    → Counts s p (after_failure hooks request e s result now p).1
unfolding after_failure note_retry
after_failure-Counts hooks request e s result now p =
    let status = get_or result.status 502 in
    let code = get_or result.code (status_code status) in
    let circuits =
      (record_failure e.circuits now s.account.id status result.retry_after_ms (some code)).0 in
    elim (Bool-cases (code === "invalid_media_input")) [
      | inl invalid ↦ rw invalid tt
      | inr valid ↦ elim (Bool-cases (code === "provider_expert_busy")) [
        | inl busy ↦
            elim (Bool-cases (
              ltb p.attempts 2
              && has_untried hooks (record e { circuits = circuits }) request now
                  p.attempted_accounts)) [
                    | inl again ↦ rw (valid, busy, again) (refl, refl)
                    | inr never ↦ rw (valid, busy, never) tt
                  ]
        | inr other ↦ elim (Bool-cases (can_fail_over status)) [
          | inl again ↦ rw (valid, other, again) (refl, refl)
          | inr never ↦ rw (valid, other, never) tt
        ]
      ]
    ]

after_success-Counts :
    (request : ChatCompletionRequest) (e : ProviderRoutingEngine) (s : AccountSelection)
    (permit : ℕ) (r : Surroundings) (p : Progress)
    → Counts s p (after_success request e s permit r p).1
unfolding after_success
after_success-Counts request e s permit r p = elim (Bool-cases request.stream) [
  | inr whole ↦ rw whole (refl, refl)
  | inl streams ↦ elim (Option-cases r.result.stream) [
    | inl t ↦ rw (streams, t) (refl, refl)
    | inr (stream, t) ↦ elim (Option-cases r.primed) [
      | inl u ↦ rw (streams, t, u) (refl, refl)
      | inr (chunk, u) ↦ rw (streams, t, u) (refl, refl)
    ]
  ]
]

abbrev counted : AccountSelection → Progress → Progress
counted s p = record p {
  attempts = p.attempts + 1;
  attempted_accounts = id_of s ∷ p.attempted_accounts;
}

-- A pass goes on with one account more, which satisfies `P`, and hands on an answer of such an
-- account only.
module _ (P : String → Type 0) where
  abbrev pub GoesOn : Progress → Pass → Type 0
  GoesOn p (continues p') =
      (id : String) × (p'.attempted_accounts ≡ id ∷ p.attempted_accounts)
      × (p'.attempts ≡ p.attempts + 1)
      × P id
  GoesOn p (returns (routed r)) = P (id_of r.selection) × (r.attempts ≡ p.attempts + 1)
  GoesOn p (returns (failed f)) = Unit
  GoesOn p (breaks p' now) = Unit

  Counts-GoesOn :
      (s : AccountSelection) (p : Progress) (pass : Pass)
      → P (id_of s)
      → Counts s (counted s p) pass
      → GoesOn p pass
  Counts-GoesOn s p (continues p') h (k, l) = (id_of s, k, l, h)
  Counts-GoesOn s p (breaks p' now) h k = tt
  Counts-GoesOn s p (returns (failed f)) h k = tt
  Counts-GoesOn s p (returns (routed r)) h (k, l) = (rw k h, l)

  either-GoesOn :
      (p : Progress) (b : Bool) (x y : ProviderRoutingEngine × Pass × Option Suspension)
      → GoesOn p x.1
      → GoesOn p y.1
      → GoesOn p (if b then x else y).1
  either-GoesOn p true x y h k = h
  either-GoesOn p false x y h k = k

  after_reservation-GoesOn :
      (hooks : Hooks) (request : ChatCompletionRequest) (e : ProviderRoutingEngine)
      (reservation : Reservation) (r : Surroundings) (p : Progress)
      → ReservesOn P reservation
      → GoesOn p (after_reservation hooks request e reservation r p).1
  unfolding after_reservation
  after_reservation-GoesOn hooks request e (refused f) r p h =
      elim (Bool-cases (ltb 0 p.attempts)) [
        | inl some_tried ↦ rw some_tried tt
        | inr first ↦ rw first tt
      ]
  after_reservation-GoesOn hooks request e (waits s n) r p h = tt
  after_reservation-GoesOn hooks request e no_account r p h = tt
  after_reservation-GoesOn hooks request e (reserved s permit) r p h =
      let later = r.while_forwarding e in
      either-GoesOn p r.result.success _ _
        (Counts-GoesOn s p _ h (after_success-Counts request later s permit r (counted s p)))
        (Counts-GoesOn s p _ h (
          after_failure-Counts hooks request (release_account later (id_of s) permit) s r.result
            r.answered (counted s p)))

  pub pass_once-GoesOn :
      (hooks : Hooks) (request : ChatCompletionRequest) (context : ProxyContext)
      (e : ProviderRoutingEngine) (r : Surroundings) (p : Progress)
      → All (λ s. P (id_of s)) (untried hooks request e r.started p.attempted_accounts)
      → GoesOn p (pass_once hooks request context e r p).1
  unfolding pass_once
  pass_once-GoesOn hooks request context e r p h =
      let candidates = untried hooks request e r.started p.attempted_accounts in
      let e' = (order_candidates e (get_candidates hooks e request r.started)).1 in
      let (d, reservation) = reserve_candidate e' candidates context r.started in
      elim (Bool-cases (length candidates == 0)) [
        | inl none_left ↦ rw none_left tt
        | inr some_left ↦ rw some_left (
            after_reservation-GoesOn hooks request _ _ r p (
              settled_reservation-ReservesOn P hooks request d reservation r
                (reserve_candidate-ReservesOn P e' candidates context r.started h)))
      ]

-- Whether an account was tried.
abbrev pub IsUntried : Progress → String → Type 0
IsUntried p id = contains id p.attempted_accounts ≡ false

-- A pass of the loop that goes on has tried exactly one account more, and one that was not tried
-- before for this request; an answer that it hands on comes from such an account too, and the
-- attempts are counted.
pub pass_once-IsFresh :
    (hooks : Hooks) (request : ChatCompletionRequest) (context : ProxyContext)
    (e : ProviderRoutingEngine) (r : Surroundings) (p : Progress)
    → GoesOn (IsUntried p) p (pass_once hooks request context e r p).1
pass_once-IsFresh hooks request context e r p =
    pass_once-GoesOn (IsUntried p) hooks request context e r p (
      filter-All _ _ (λ s h. ground (arith, h))
        (order_candidates e (get_candidates hooks e request r.started)).0)
