-- ===== src/Router/Circuits/Bounds.antt =====
-- How long circuits open, and when.
use native.Mathlib.Nat.{pow-suc}
use chat2api_web_gateway.Prelude.{
  leb, ◌===◌, if◌then◌else◌, get, remove, get-put, get-put_self, get-remove_self, ℕ, zero, suc, ◌+◌,
  ◌-◌, ◌^◌, ◌≤◌, String, ◌≡◌, refl, Bool, true, false, Option, List, arith,
}
use chat2api_web_gateway.Router.Types.{CircuitState}
use chat2api_web_gateway.Router.Circuits.{
  base_cooldown, is_code, previous_failures, should_open, cooldown, record_failure, record_success,
  is_closed,
}

pow-pos : (n : ℕ) → 1 ≤ 2 ^ n
pow-pos zero = omega arith
pow-pos (suc n) = omega (arith, pow-suc 2 n, pow-pos n)

base_cooldown_bounds :
    (suspended busy : Bool) (status failures : ℕ) (retry_after_ms : Option ℕ)
    → let base = base_cooldown suspended busy status failures retry_after_ms in
      (1000 ≤ base) × (base ≤ (if suspended then 86400000 else 900000))
unfolding base_cooldown
base_cooldown_bounds suspended busy status failures retry = ground (arith, pow-pos (failures - 3))

cooldown_bounds :
    (id : String) (failures status : ℕ) (retry_after_ms : Option ℕ) (code : Option String)
    → let wait = cooldown id failures status retry_after_ms code in
      (1000 ≤ wait)
      × (wait ≤ (if is_code code "provider_account_suspended" then 86400000 else 900000))
unfolding cooldown
cooldown_bounds id failures status retry code = ground (
  arith,
  base_cooldown_bounds (is_code code "provider_account_suspended")
      (is_code code "provider_expert_busy") status failures retry,
)

-- A failure counts one more than before. Its circuit opens exactly when the account is suspended,
-- the expert model is busy, the status is 429 or three failures stand in a row; it then keeps the
-- account out for at least a second and at most a quarter of an hour, or a day if it is suspended,
-- and it lets it in at every time after that. Circuits of other accounts stay as they are.
pub record_failure_opens :
    (circuits : List (String × CircuitState)) (now : ℕ) (id : String) (status : ℕ)
    (retry_after_ms : Option ℕ) (code : Option String)
    → let (circuits', state) = record_failure circuits now id status retry_after_ms code in
      let opens = should_open (previous_failures circuits id + 1) status code in
      let longest : ℕ = if is_code code "provider_account_suspended" then 86400000 else 900000 in
      (state.failures ≡ previous_failures circuits id + 1)
      × ((t : ℕ) → is_closed circuits' t id ≡ (if opens then leb state.opened_until t else true))
      × (opens ≡ true → (now + 1000 ≤ state.opened_until) × (state.opened_until ≤ now + longest))
      × ((other : String) → (id === other) ≡ false → get other circuits' ≡ get other circuits)
unfolding record_failure
record_failure_opens circuits now id status retry code =
    let state = (record_failure circuits now id status retry code).1 in
    let wait = cooldown_bounds id (previous_failures circuits id + 1) status retry code in
    (
      refl,
      (λ t. rw (get-put_self id state circuits, is_closed) (ground arith)),
      (λ o. rw o (omega arith)),
      (λ other h. rw (get-put id other state circuits, h)),
    )

-- A success closes the circuit and forgets the count: a failure after it that would not open a
-- circuit as the first one leaves it closed, whatever was counted before.
pub record_success-record_failure :
    (circuits : List (String × CircuitState)) (now t : ℕ) (id : String) (status : ℕ)
    (retry_after_ms : Option ℕ) (code : Option String)
    → should_open 1 status code ≡ false
    → (is_closed (record_success circuits id) t id ≡ true)
      × (is_closed
            (record_failure (record_success circuits id) now id status retry_after_ms code).0
            t
            id
          ≡ true)
unfolding record_success record_failure
record_success-record_failure circuits now t id status retry code h =
    let none_left = get-remove_self id circuits in
    let state = (record_failure (remove id circuits) now id status retry code).1 in
    ground (arith, none_left, get-put_self id state (remove id circuits))
