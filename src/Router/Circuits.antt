-- ===== src/Router/Circuits.antt =====
-- The circuit breaker of each account.
pub mod Bounds
use Prim.Native.Char.{Char, code as code_point}
use Prim.Native.String
use mathlib.Core.Option.{get_or}
use chat2api_web_gateway.Prelude.{
  ltb, leb, ◌==◌, ◌===◌, if◌then◌else◌, get, put, remove, ℕ, ◌+◌, ◌-◌, ◌*◌, ◌/◌, ◌%◌, ◌^◌, min, max,
  String, Bool, true, false, ◌&&◌, ◌||◌, Option, none, some, List,
}
use chat2api_web_gateway.Router.Types.{CircuitState}

-- `character.charCodeAt(0)`: a code point beyond 16 bits gives its high surrogate.
abbrev pub char_code : Char → ℕ
char_code c = let n = code_point c in if ltb n 0x10000 then n else 0xD800 + (n - 0x10000) / 0x400

abbrev pub char_codes : String → ℕ
char_codes String.[] = 0
char_codes (String.◌∷◌ c s) = char_code c + char_codes s

-- The ratio is this many hundredths.
unfoldable pub deterministic_jitter_percent : String → ℕ
deterministic_jitter_percent account_id = char_codes account_id % 11

-- The cooldown before the jitter. The exponent of the last line is `Math.max(0, failures - 3)`.
unfoldable pub base_cooldown : Bool → Bool → ℕ → ℕ → Option ℕ → ℕ
base_cooldown suspended expert_busy status failures retry_after_ms =
    if suspended
    then min 86400000 (max 1000 (get_or retry_after_ms 900000))
    else if expert_busy
    then min 300000 (max 1000 (get_or retry_after_ms 30000))
    else if status == 429
    then min 900000 (max 1000 (get_or retry_after_ms 60000))
    else min 600000 (15000 * 2 ^ (failures - 3))

abbrev pub is_code : Option String → String → Bool
is_code none s = false
is_code (some c) s = c === s

abbrev pub previous_failures : List (String × CircuitState) → String → ℕ
previous_failures circuits account_id = elim (get account_id circuits) [
  | none ↦ 0
  | some c ↦ c.failures
]

abbrev pub should_open : ℕ → ℕ → Option String → Bool
should_open failures status code =
    is_code code "provider_account_suspended"
    || is_code code "provider_expert_busy"
    || status == 429
    || leb 3 failures

-- The doubles of `Math.floor(baseCooldown * ratio)` give this quotient for every whole cooldown from
-- 1000 to 900000 and each of the eleven ratios.
abbrev pub jitter_of : ℕ → String → ℕ
jitter_of base account_id = base * deterministic_jitter_percent account_id / 100

-- How long a circuit that opens stays open.
unfoldable pub cooldown : String → ℕ → ℕ → Option ℕ → Option String → ℕ
unfolding base_cooldown deterministic_jitter_percent
cooldown account_id failures status retry_after_ms code =
    let suspended = is_code code "provider_account_suspended" in
    let base =
      base_cooldown suspended (is_code code "provider_expert_busy") status failures
        retry_after_ms in
    if suspended then base else min 900000 (base + jitter_of base account_id)

unfoldable pub record_failure :
    List (String × CircuitState)
    → ℕ
    → String
    → ℕ
    → Option ℕ
    → Option String
    → List (String × CircuitState) × CircuitState
record_failure circuits now account_id status retry_after_ms code =
    let failures = previous_failures circuits account_id + 1 in
    let state : CircuitState = record {
      failures = failures;
      opened_until =
          if should_open failures status code
          then now + cooldown account_id failures status retry_after_ms code
          else 0;
      code = code;
    } in
    (put account_id state circuits, state)

unfoldable pub record_success : List (String × CircuitState) → String → List (String × CircuitState)
record_success circuits account_id = remove account_id circuits

-- `(circuits.get(id)?.openedUntil ?? 0) <= now`.
abbrev pub is_closed : List (String × CircuitState) → ℕ → String → Bool
is_closed circuits now account_id = elim (get account_id circuits) [
  | none ↦ true
  | some c ↦ leb c.opened_until now
]

unfoldable pub status_code : ℕ → String
status_code status =
    if status == 401 || status == 403
    then "provider_authentication_failed"
    else if status == 429
    then "provider_rate_limited"
    else if status == 408 || status == 504
    then "provider_timeout"
    else if leb 400 status && ltb status 500
    then "provider_rejected_request"
    else "provider_unavailable"

unfoldable pub can_fail_over : ℕ → Bool
can_fail_over status =
    status == 401
    || status == 403
    || status == 408
    || status == 409
    || status == 429
    || leb 500 status
