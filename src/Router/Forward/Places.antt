-- ===== src/Router/Forward/Places.antt =====
-- The account that a reservation comes to is one of the candidates.

use chat2api_web_gateway.Prelude.{
  ltb, leb, ◌==◌, ◌===◌, Bool-cases, Option-cases, length, filter, any, head?, All, All-filter,
  sort-All, sort_by, ℕ, String, ◌≡◌, subst, inl, inr, ◌&&◌, Option, none, some, List, [], ◌∷◌,
  arith,
}
use chat2api_web_gateway.Router.Types.{
  AccountSelection, ChatCompletionRequest, ProxyContext, Hooks, ProviderRoutingEngine,
}
use chat2api_web_gateway.Router.Candidates.{get_candidates}
use chat2api_web_gateway.Router.Failover.{Surroundings}
use chat2api_web_gateway.Router.Forward.{settled_reservation}
use chat2api_web_gateway.Router.Reserve.{
  gate_for, id_of, consume_usage_window, Reservation, reserved, refused, waits, no_account,
  try_candidate, try_candidates, queued_on, has_background_usage, is_idle, idle_accounts,
  try_background, as_number, reserve_background_candidate, keeps_reserve, reserve_candidate,
  reserve_after_wait,
}
use chat2api_web_gateway.Router.Reserve.Laws.{consume-active}
use chat2api_web_gateway.Router.Reserve.Background.{try_candidate-config}

head-All : {A : Type 0} (Q : A → Type 0) (xs : List A) (x : A) → head? xs ≡ some x → All Q xs → Q x
head-All Q [] x h k = absurd (ground (arith, h))
head-All Q (y ∷ xs) x h (q, k) = let same : y ≡ x = cc in subst Q same q

-- Candidates and reservations whose accounts satisfy `P`.
module _ (P : String → Type 0) where
  abbrev IsOn : Option (AccountSelection × ℕ) → Type 0
  IsOn none = Unit
  IsOn (some (s, n)) = P (id_of s)

  abbrev pub ReservesOn : Reservation → Type 0
  ReservesOn (reserved s n) = P (id_of s)
  ReservesOn (waits s n) = P (id_of s)
  ReservesOn (refused f) = Unit
  ReservesOn no_account = Unit

  try_candidates-IsOn :
      (e : ProviderRoutingEngine) (xs : List AccountSelection) (now : ℕ)
      → All (λ s. P (id_of s)) xs
      → IsOn (try_candidates e xs now).1
  unfolding try_candidates
  try_candidates-IsOn e [] now h = tt
  try_candidates-IsOn e (s ∷ xs) now (p, h) = elim (Option-cases (try_candidate e s now).1) [
    | inl t ↦ rw (t, IsOn) (try_candidates-IsOn (try_candidate e s now).0 xs now h)
    | inr ((s', n), t) ↦ rw (t, IsOn) (rw ((try_candidate-config e s now).1 s' n t) p)
  ]

  try_background-IsOn :
      (e : ProviderRoutingEngine) (idle : ℕ) (xs : List AccountSelection) (now : ℕ)
      → All (λ s. P (id_of s)) xs
      → IsOn (try_background e idle xs now).1
  unfolding try_background
  try_background-IsOn e idle [] now h = tt
  try_background-IsOn e idle (s ∷ xs) now (p, h) =
      elim (Bool-cases (is_idle e s && leb idle e.config.background_account_reserve)) [
        | inl skipped ↦ rw skipped (try_background-IsOn e idle xs now h)
        | inr going ↦ elim (Option-cases (try_candidate e s now).1) [
          | inl t ↦ rw (going, t) (try_background-IsOn (try_candidate e s now).0 idle xs now h)
          | inr ((s', n), t) ↦ rw (going, t) (rw ((try_candidate-config e s now).1 s' n t) p)
        ]
      ]

  after_wait-ReservesOn :
      (hooks : Hooks) (e : ProviderRoutingEngine) (request : ChatCompletionRequest)
      (target : AccountSelection) (answer : Option ℕ) (now : ℕ)
      → P (id_of target)
      → ReservesOn (reserve_after_wait hooks e request target answer now).1
  unfolding reserve_after_wait
  after_wait-ReservesOn hooks e request target none now p = tt
  after_wait-ReservesOn hooks e request target (some permit) now p =
      elim (Bool-cases (any (λ s. id_of s === id_of target) (get_candidates hooks e request now))) [
        | inr gone ↦ rw gone tt
        | inl still ↦ elim (Option-cases (consume_usage_window e target permit now).1) [
          | inl t ↦ rw (still, t) tt
          | inr (s, t) ↦ rw (still, t) (rw ((consume-active e target permit now "").1 s t).1 p)
        ]
      ]

  pub settled_reservation-ReservesOn :
      (hooks : Hooks) (request : ChatCompletionRequest) (e : ProviderRoutingEngine)
      (reservation : Reservation) (r : Surroundings)
      → ReservesOn reservation
      → ReservesOn (settled_reservation hooks request e reservation r).1
  unfolding settled_reservation
  settled_reservation-ReservesOn hooks request e (reserved s n) r p = p
  settled_reservation-ReservesOn hooks request e (refused f) r p = tt
  settled_reservation-ReservesOn hooks request e no_account r p = tt
  settled_reservation-ReservesOn hooks request e (waits target n) r p =
      after_wait-ReservesOn hooks (r.while_queued e) request target r.answer r.woken p

  reserve_background_candidate-ReservesOn :
      (e : ProviderRoutingEngine) (xs : List AccountSelection) (now : ℕ)
      → All (λ s. P (id_of s)) xs
      → ReservesOn (reserve_background_candidate e xs now).1
  unfolding reserve_background_candidate
  reserve_background_candidate-ReservesOn e xs now h =
      let usable = filter (has_background_usage e) xs in
      let free =
        filter (λ s. ltb (gate_for e (id_of s)).active e.config.account_concurrency) usable in
      let available = sort_by (λ s. as_number (is_idle e s)) free in
      let idle = idle_accounts e xs in
      let on =
        try_background-IsOn e idle available now
          (sort-All _ (λ s. P (id_of s)) free (All-filter _ _ usable (All-filter _ _ xs h))) in
      elim (Bool-cases (length usable == 0)) [
        | inl shut ↦ rw shut tt
        | inr some_left ↦ elim (Option-cases (try_background e idle available now).1) [
          | inl t ↦ rw (some_left, t) tt
          | inr ((s, n), t) ↦ rw (some_left, t) (subst IsOn t on)
        ]
      ]

  pub reserve_candidate-ReservesOn :
      (e : ProviderRoutingEngine) (xs : List AccountSelection) (context : ProxyContext) (now : ℕ)
      → All (λ s. P (id_of s)) xs
      → ReservesOn (reserve_candidate e xs context now).1
  unfolding reserve_candidate
  reserve_candidate-ReservesOn e xs context now h =
      let e' = (try_candidates e xs now).0 in
      elim (Bool-cases (keeps_reserve e context)) [
        | inl kept ↦ rw kept (reserve_background_candidate-ReservesOn e xs now h)
        | inr free ↦ elim (Option-cases (try_candidates e xs now).1) [
          | inr ((s, n), t) ↦ rw (free, t) (subst IsOn t (try_candidates-IsOn e xs now h))
          | inl t ↦ elim (Option-cases (head? (sort_by (queued_on e') xs))) [
            | inl empty ↦ rw (free, t, empty) tt
            | inr (target, first) ↦
                rw (free, t, first)
                  (head-All (λ s. P (id_of s)) (sort_by (queued_on e') xs) target first
                    (sort-All _ (λ s. P (id_of s)) xs h))
          ]
        ]
      ]
