-- ===== src/Router/Reserve/Laws.antt =====
-- What a reservation takes, and what background work leaves to others.

use text.Mathlib.TextEquality.{eq_iff}
use chat2api_web_gateway.Prelude.{
  ◌===◌, if◌then◌else◌, ===_refl, Bool-cases, Option-cases, length, get-put, ℕ, ◌+◌, ◌-◌, String,
  ◌≡◌, refl, ap, ◌∙◌, inl, inr, true, Option, none, some, List, [], ◌∷◌, arith,
}
use chat2api_web_gateway.Concurrency.{
  ConcurrencyGate, member, try_acquire, shift, drain_rounds, drain, erase, release,
}
use chat2api_web_gateway.Router.Types.{AccountSelection, ProviderRoutingEngine}
use chat2api_web_gateway.Router.Reserve.{
  gate_for, set_gate, id_of, release_account, consume_usage_window, with_permit, try_candidate,
}

-- How many requests run on an account.
unfoldable pub active_on : ProviderRoutingEngine → String → ℕ
active_on e id = (gate_for e id).active

pub gate_for-set_gate :
    (e : ProviderRoutingEngine) (k id : String) (g : ConcurrencyGate)
    → gate_for (set_gate e k g) id ≡ (if k === id then g else gate_for e id)
unfolding gate_for
gate_for-set_gate e k id g = ground (arith, get-put k id g e.account_gates)

no_waiters : {A : Type 0} (xs : List A) → length xs ≡ 0 → xs ≡ []
no_waiters [] h = refl
no_waiters (x ∷ xs) h = absurd (omega (arith, h))

drain-idle :
    (g : ConcurrencyGate) → g.foreground ≡ [] → g.background ≡ [] → (drain g).active ≡ g.active
unfolding drain drain_rounds shift
drain-idle g f b = ground arith

-- A permit that was just taken and is given back leaves `active` as it was.
give_back :
    (g h : ConcurrencyGate) (permit : ℕ)
    → try_acquire g ≡ (h, some permit)
    → (release h permit).active ≡ g.active
unfolding try_acquire release
give_back g h permit e = ground (
  arith,
  no_waiters g.foreground,
  no_waiters g.background,
  drain-idle (record h { active = h.active - 1; held = erase permit h.held }),
)

refused-same : (g h : ConcurrencyGate) → try_acquire g ≡ (h, none) → h ≡ g
unfolding try_acquire
refused-same g h e = ground arith

taken-more :
    (g h : ConcurrencyGate) (permit : ℕ)
    → try_acquire g ≡ (h, some permit)
    → (h.active ≡ g.active + 1) × (member permit h.held ≡ true)
unfolding try_acquire
taken-more g h permit e = ground arith

-- What an attempt adds to the requests that run on an account.
abbrev pub added : Option (AccountSelection × ℕ) → String → ℕ
added none id = 0
added (some (s, permit)) id = if id_of s === id then 1 else 0

pub consume-active :
    (e : ProviderRoutingEngine) (s : AccountSelection) (permit now : ℕ) (id : String)
    → let (e', taken) = consume_usage_window e s permit now in
      (taken ≡ none → e' ≡ release_account e (id_of s) permit)
      × ((s' : AccountSelection)
          → taken ≡ some s'
          → (active_on e' id ≡ active_on e id) × (id_of s' ≡ id_of s))
unfolding consume_usage_window gate_for active_on
consume-active e s permit now id = ground arith

gate_for-set_gate_self :
    (e : ProviderRoutingEngine) (k : String) (g : ConcurrencyGate) → gate_for (set_gate e k g) k ≡ g
gate_for-set_gate_self e k g = gate_for-set_gate e k k g ∙ rw (===_refl k)

set_gate-active :
    (e : ProviderRoutingEngine) (k id : String) (g : ConcurrencyGate)
    → active_on (set_gate e k g) id ≡ (if k === id then g.active else active_on e id)
unfolding active_on
set_gate-active e k id g = elim (Bool-cases (k === id)) [
  | inl h ↦ ap (λ x. x.active) (gate_for-set_gate e k id g) ∙ rw h
  | inr h ↦ ap (λ x. x.active) (gate_for-set_gate e k id g) ∙ rw h
]

release_account-active :
    (e : ProviderRoutingEngine) (k id : String) (h : ConcurrencyGate) (permit : ℕ)
    → try_acquire (gate_for e k) ≡ (h, some permit)
    → active_on (release_account (set_gate e k h) k permit) id ≡ active_on e id
unfolding release_account active_on
release_account-active e k id h permit taken =
    let back : (release (gate_for (set_gate e k h) k) permit).active ≡ active_on e k =
      ap (λ g. (release g permit).active) (gate_for-set_gate_self e k h)
      ∙ give_back (gate_for e k) h permit taken in
    let step =
      set_gate-active (set_gate e k h) k id (release (gate_for (set_gate e k h) k) permit) in
    elim (Bool-cases (k === id)) [
      | inl same ↦ step ∙ rw same (back ∙ ap (active_on e) ((eq_iff k id).0 same))
      | inr other ↦ step ∙ rw other (set_gate-active e k id h ∙ rw other)
    ]

with_permit-active :
    (e : ProviderRoutingEngine) (s : AccountSelection) (h : ConcurrencyGate) (permit : Option ℕ)
    (now : ℕ) (id : String)
    → try_acquire (gate_for e (id_of s)) ≡ (h, permit)
    → let (e', taken) = with_permit (set_gate e (id_of s) h) s permit now in
      active_on e' id ≡ active_on e id + added taken id
unfolding with_permit active_on
with_permit-active e s h none now id t =
    set_gate-active e (id_of s) id h
    ∙ ground (arith, eq_iff (id_of s) id, refused-same (gate_for e (id_of s)) h t)
with_permit-active e s h (some permit) now id t =
    elim (Option-cases (consume_usage_window (set_gate e (id_of s) h) s permit now).1) [
      | inl full ↦
          let (given, _) = consume-active (set_gate e (id_of s) h) s permit now id in
          rw (full, given full) (release_account-active e (id_of s) id h permit t ∙ ground arith)
      | inr (s', free) ↦
          let (_, kept) = consume-active (set_gate e (id_of s) h) s permit now id in
          rw (free, (kept s' free).0, (kept s' free).1)
            (set_gate-active e (id_of s) id h
              ∙ ground (arith, eq_iff (id_of s) id, taken-more (gate_for e (id_of s)) h permit t))
    ]

pub try_candidate-active :
    (e : ProviderRoutingEngine) (s : AccountSelection) (now : ℕ) (id : String)
    → let (e', taken) = try_candidate e s now in active_on e' id ≡ active_on e id + added taken id
unfolding try_candidate
try_candidate-active e s now id =
    let (h, permit) = try_acquire (gate_for e (id_of s)) in
    with_permit-active e s h permit now id refl
