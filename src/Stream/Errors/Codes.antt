-- ===== src/Stream/Errors/Codes.antt =====
-- What the codes, the statuses and the waiting times of provider errors can be.
use Prim.Native.Char.{Char}
use mathlib.Core.Logic.{inl, inr}
use chat2api_web_gateway.Strings.{
  Chars, chars, strip, trim, includes, All-take, strip-All, length-take-le,
}
use chat2api_web_gateway.Stream.Errors.{
  Host, ProviderError, is_code_char, is_underscore, coded, normalized_reason, Payload,
  suspended_error, payload_error,
}
use chat2api_web_gateway.Prelude.{
  ◌==◌, if◌then◌else◌, Bool-cases, length, All, ℕ, ◌≤◌, String, ◌≡◌, refl, ◌↔◌, Bool, true, false,
  not, ◌&&◌, ◌||◌, Option, none, some, [], ◌∷◌, arith,
}

abbrev pub IsCodeChar : Char → Type 0
IsCodeChar c = is_code_char c ≡ true

underscore-IsCodeChar : IsCodeChar "_"
unfolding is_code_char
underscore-IsCodeChar = refl

coded-All : (in_run : Bool) (cs : Chars) → All IsCodeChar (coded in_run cs)
unfolding coded
coded-All in_run [] = tt
coded-All in_run (c ∷ cs) = elim (Bool-cases (is_code_char c)) [
  | inl kept ↦ rw (kept) (kept, coded-All false cs)
  | inr other ↦ rw (other) (begins in_run (coded true cs) (coded-All true cs))
]
  where
    begins :
        (r : Bool) (out : Chars)
        → All IsCodeChar out
        → All IsCodeChar (if r then out else "_" ∷ out)
    begins true out h = h
    begins false out h = (underscore-IsCodeChar, h)

-- A provider's reason leaves only lower-case letters, digits, `_` and `-` in the code, at most 64 of them.
pub normalized_reason-IsCode :
    (host : Host) (reason : String)
    → All IsCodeChar (normalized_reason host reason) × (length (normalized_reason host reason) ≤ 64)
unfolding normalized_reason
normalized_reason-IsCode host reason =
    let lower = chars (host.to_lower_case (trim reason)) in
    (
      All-take IsCodeChar 64 (strip is_underscore (coded false lower))
          (strip-All IsCodeChar is_underscore (coded false lower) (coded-All false lower)),
      length-take-le 64 (strip is_underscore (coded false lower)),
    )

-- What the gateway can say of a payload that it refuses.
abbrev pub has_known_status : ProviderError → Bool
has_known_status e =
    e.status == 401 || e.status == 403 || e.status == 429 || e.status == 502 || e.status == 503

abbrev pub WaitsAtLeast : ℕ → Option ℕ → Type 0
WaitsAtLeast n none = Unit
WaitsAtLeast n (some t) = n ≤ t

abbrev pub IsKnownError : Option ProviderError → Type 0
IsKnownError none = Unit
IsKnownError (some e) = (has_known_status e ≡ true) × WaitsAtLeast 1000 e.retry_after_ms

-- Every error that a payload is turned into has one of the five statuses that the gateway passes on, and
-- a waiting time, where there is one, of at least a second.
pub payload_error-IsKnownError :
    (host : Host) (p : Payload) (now : ℕ) → IsKnownError (payload_error host p now)
unfolding payload_error suspended_error
payload_error-IsKnownError host p now = ground arith

-- What no error is made of: the code is absent or 0, the account is not muted and the message has none of
-- the three words.
abbrev pub is_clean : Payload → Bool
is_clean p =
    not (
      p.is_muted
      || includes p.business_message "user is muted"
      || includes p.business_message "rate limit"
      || includes p.business_message "expert_busy_use_default")
    && elim p.business_code [ none ↦ true | some n ↦ n == 0 ]

-- A payload passes exactly when it is clean.
pub payload_error-none :
    (host : Host) (p : Payload) (now : ℕ) → (payload_error host p now ≡ none) ↔ (is_clean p ≡ true)
unfolding payload_error
payload_error-none host p now = ground arith
