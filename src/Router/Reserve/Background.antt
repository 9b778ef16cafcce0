-- ===== src/Router/Reserve/Background.antt =====
-- What background work leaves to other requests.
use text.Mathlib.TextEquality.{eq_iff}
use chat2api_web_gateway.Concurrency.{try_acquire}
use chat2api_web_gateway.Prelude.{
  ltb, leb, ◌==◌, ◌===◌, Bool-cases, Option-cases, length, filter, All, sort_by, ℕ, ◌+◌, ◌≤◌, ◌<◌,
  min, String, ◌≡◌, refl, ap, ◌∙◌, subst, ◌⊎◌, inl, inr, true, false, ◌&&◌, Option, none, some,
  List, [], ◌∷◌, arith,
}
use chat2api_web_gateway.Router.Types.{AccountSelection, ProviderRoutingEngine}
use chat2api_web_gateway.Router.Reserve.{
  gate_for, set_gate, id_of, release_account, consume_usage_window, with_permit, try_candidate,
  has_background_usage, is_idle, idle_accounts, try_background, as_number,
  reserve_background_candidate,
}
use chat2api_web_gateway.Router.Reserve.Laws.{active_on, added, try_candidate-active}

with_permit-config :
    (e : ProviderRoutingEngine) (s : AccountSelection) (permit : Option ℕ) (now : ℕ)
    → let (e', taken) = with_permit e s permit now in
      (e'.config ≡ e.config)
      × ((s' : AccountSelection) (n : ℕ) → taken ≡ some (s', n) → id_of s' ≡ id_of s)
unfolding with_permit consume_usage_window release_account
with_permit-config e s none now = (refl, (λ s' n t. absurd (ground arith)))
with_permit-config e s (some permit) now = ground arith

pub try_candidate-config :
    (e : ProviderRoutingEngine) (s : AccountSelection) (now : ℕ)
    → let (e', taken) = try_candidate e s now in
      (e'.config ≡ e.config)
      × ((s' : AccountSelection) (n : ℕ) → taken ≡ some (s', n) → id_of s' ≡ id_of s)
unfolding try_candidate
try_candidate-config e s now =
    let (g, permit) = try_acquire (gate_for e (id_of s)) in
    with_permit-config (set_gate e (id_of s) g) s permit now

-- A place is on an account with a request already, or there are more idle accounts than the reserve.
abbrev pub Spares : ProviderRoutingEngine → ℕ → Option (AccountSelection × ℕ) → Type 0
Spares e idle none = Unit
Spares e idle (some (s, permit)) =
    (0 < active_on e (id_of s)) ⊎ (e.config.background_account_reserve < idle)

-- What the loop over the accounts promises of its result.
record IsSparing (e : ProviderRoutingEngine) (idle : ℕ) (e' : ProviderRoutingEngine)
    (taken : Option (AccountSelection × ℕ)) : Type 0 where
  pub adds : (id : String) → active_on e' id ≡ active_on e id + added taken id
  pub spares : Spares e idle taken

Spares-cong :
    (e d : ProviderRoutingEngine) (idle : ℕ) (taken : Option (AccountSelection × ℕ))
    → e.config ≡ d.config
    → ((id : String) → active_on e id ≡ active_on d id)
    → Spares e idle taken
    → Spares d idle taken
Spares-cong e d idle none h k s = tt
Spares-cong e d idle (some (s, permit)) h k spares =
    ground (arith, k (id_of s), ap (λ c. c.background_account_reserve) h)

place-IsSparing :
    (e e' : ProviderRoutingEngine) (idle : ℕ) (s s' : AccountSelection) (n : ℕ)
    → (is_idle e s && leb idle e.config.background_account_reserve) ≡ false
    → id_of s' ≡ id_of s
    → ((id : String) → active_on e' id ≡ active_on e id + added (some (s', n)) id)
    → IsSparing e idle e' (some (s', n))
unfolding active_on
place-IsSparing e e' idle s s' n h same adds = record {
  adds = adds;
  spares = rw same (ground arith);
}

after_refusal :
    (e e' e'' : ProviderRoutingEngine) (idle : ℕ) (taken : Option (AccountSelection × ℕ))
    → e'.config ≡ e.config
    → ((id : String) → active_on e' id ≡ active_on e id + added none id)
    → IsSparing e' idle e'' taken
    → IsSparing e idle e'' taken
after_refusal e e' e'' idle taken h k r = record {
  adds = λ id. omega (arith, r.adds id, k id);
  spares = Spares-cong e' e idle taken h (λ id. omega (arith, k id)) r.spares;
}

try_background-IsSparing :
    (e : ProviderRoutingEngine) (idle : ℕ) (xs : List AccountSelection) (now : ℕ)
    → let (e', taken) = try_background e idle xs now in IsSparing e idle e' taken
unfolding try_background
try_background-IsSparing e idle [] now = record { adds = λ id. omega arith; spares = tt }
try_background-IsSparing e idle (s ∷ xs) now =
    let e' = (try_candidate e s now).0 in
    let (config, same) = try_candidate-config e s now in
    elim (Bool-cases (is_idle e s && leb idle e.config.background_account_reserve)) [
      | inl h ↦ rw h (try_background-IsSparing e idle xs now)
      | inr h ↦ elim (Option-cases (try_candidate e s now).1) [
        | inl t ↦
            rw (h, t)
              (after_refusal e e' (try_background e' idle xs now).0 idle
                (try_background e' idle xs now).1 config
                (λ id. try_candidate-active e s now id ∙ rw t refl)
                (try_background-IsSparing e' idle xs now))
        | inr ((s', n), t) ↦
            rw (h, t)
              (place-IsSparing e e' idle s s' n h (same s' n t)
                (λ id. try_candidate-active e s now id ∙ rw t refl))
      ]
    ]

-- The identifier is the primary key of an account.
abbrev pub HasDistinctIds : List AccountSelection → Type 0
HasDistinctIds [] = Unit
HasDistinctIds (s ∷ xs) = All (λ t. (id_of s === id_of t) ≡ false) xs × HasDistinctIds xs

module _ (e e' : ProviderRoutingEngine) (taken : Option (AccountSelection × ℕ))
    (adds : (id : String) → active_on e' id ≡ active_on e id + added taken id) where
  idle_elsewhere :
      (xs : List AccountSelection)
      → All (λ t. added taken (id_of t) ≡ 0) xs
      → idle_accounts e' xs ≡ idle_accounts e xs
  unfolding active_on
  idle_elsewhere [] h = refl
  idle_elsewhere (t ∷ xs) (k, h) = ground (arith, adds (id_of t), idle_elsewhere xs h)

  idle_same :
      (xs : List AccountSelection)
      → ((id : String) → 0 < added taken id → 0 < active_on e id)
      → idle_accounts e' xs ≡ idle_accounts e xs
  unfolding active_on
  idle_same [] h = refl
  idle_same (t ∷ xs) h = ground (arith, adds (id_of t), h (id_of t), idle_same xs h)

not_added :
    (s t : AccountSelection) (n : ℕ) (xs : List AccountSelection)
    → (id_of s === id_of t) ≡ true
    → All (λ u. (id_of t === id_of u) ≡ false) xs
    → All (λ u. added (some (s, n)) (id_of u) ≡ 0) xs
not_added s t n [] same h = tt
not_added s t n (u ∷ xs) same (k, h) = (
  ground (arith, eq_iff (id_of s) (id_of t), eq_iff (id_of s) (id_of u)),
  not_added s t n xs same h,
)

idle_less :
    (e e' : ProviderRoutingEngine) (s : AccountSelection) (n : ℕ)
    → ((id : String) → active_on e' id ≡ active_on e id + added (some (s, n)) id)
    → (xs : List AccountSelection) → HasDistinctIds xs
    → idle_accounts e xs ≤ idle_accounts e' xs + 1
unfolding active_on
idle_less e e' s n adds [] h = omega arith
idle_less e e' s n adds (t ∷ xs) (k, h) = elim (Bool-cases (id_of s === id_of t)) [
  | inl same ↦
      ground (
        arith,
        idle_elsewhere e e' (some (s, n)) adds xs (not_added s t n xs same k),
        adds (id_of t),
      )
  | inr other ↦ ground (arith, adds (id_of t), idle_less e e' s n adds xs h)
]

abbrev pub reserve_left : ProviderRoutingEngine → List AccountSelection → ℕ
reserve_left e xs = min e.config.background_account_reserve (idle_accounts e xs)

sparing-idle :
    (e e' : ProviderRoutingEngine) (taken : Option (AccountSelection × ℕ))
    (xs : List AccountSelection)
    → HasDistinctIds xs
    → IsSparing e (idle_accounts e xs) e' taken
    → reserve_left e xs ≤ idle_accounts e' xs
sparing-idle e e' none xs h r =
    ground (arith, idle_same e e' none r.adds xs (λ id l. absurd (omega (arith, l))))
sparing-idle e e' (some (s, n)) xs h r = elim r.spares [
  | inl busy ↦
      let same = idle_same e e' (some (s, n)) r.adds xs (λ id l.
        subst (λ i. 0 < active_on e i) ((eq_iff (id_of s) id).0 (ground (arith, l))) busy) in
      omega (arith, same)
  | inr more ↦ omega (arith, more, idle_less e e' s n r.adds xs h)
]

-- Background work leaves idle as many of the candidates as the reserve asks for, or all that were
-- idle if they were fewer, whatever the reservation comes to.
pub reserve_background_candidate-idle :
    (e : ProviderRoutingEngine) (xs : List AccountSelection) (now : ℕ)
    → HasDistinctIds xs
    → let (e', outcome) = reserve_background_candidate e xs now in
      min e.config.background_account_reserve (idle_accounts e xs) ≤ idle_accounts e' xs
unfolding reserve_background_candidate
reserve_background_candidate-idle e xs now h =
    let idle = idle_accounts e xs in
    let usable = filter (has_background_usage e) xs in
    let free =
      filter (λ s. ltb (gate_for e (id_of s)).active e.config.account_concurrency) usable in
    let available = sort_by (λ s. as_number (is_idle e s)) free in
    let left =
      sparing-idle e (try_background e idle available now).0 (try_background e idle available now).1
        xs h (try_background-IsSparing e idle available now) in
    elim (Bool-cases (length usable == 0)) [
      | inl shut ↦ rw shut (omega arith)
      | inr some_left ↦ elim (Option-cases (try_background e idle available now).1) [
        | inl t ↦ rw (some_left, t) left
        | inr (place, t) ↦ rw (some_left, t) left
      ]
    ]
