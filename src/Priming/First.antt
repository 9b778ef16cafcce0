-- ===== src/Priming/First.antt =====
-- The first event settles the wait for a reply (streaming.ts, primeStream).
use chat2api_web_gateway.Priming.{
  Primed, resolved, rejected, Priming, Event, first_data, stream_error, stream_end, timeout,
  prime_stream, cleanup, settle, emit_error, destroy, timeout_message, end_message, step, run,
}
use chat2api_web_gateway.Prelude.{
  if◌then◌else◌, ℕ, ◌+◌, ◌≡◌, subst, Bool, true, false, not, ◌&&◌, List, [], ◌∷◌, arith,
}

abbrev pub result_of : Event → Primed
result_of (first_data chunk) = resolved chunk
result_of (stream_error message) = rejected message
result_of stream_end = rejected end_message
result_of timeout = rejected timeout_message

abbrev pub is_timeout : Event → Bool
is_timeout timeout = true
is_timeout (first_data chunk) = false
is_timeout (stream_error message) = false
is_timeout stream_end = false

abbrev pub is_data : Event → Bool
is_data (first_data chunk) = true
is_data (stream_error message) = false
is_data stream_end = false
is_data timeout = false

abbrev pub is_error : Event → Bool
is_error (stream_error message) = true
is_error (first_data chunk) = false
is_error stream_end = false
is_error timeout = false

-- Errors of the stream among some events that nobody listens to.
abbrev pub unheard : Bool → List Event → ℕ
unheard has_other [] = 0
unheard has_other (e ∷ es) = (if is_error e && not has_other then 1 else 0) + unheard has_other es

-- What the first event leaves, with the errors of the stream that nobody has handled since.
pub record IsSettledBy (has_other : Bool) (e : Event) (errors : ℕ) (s : Priming) : Type 0 where
  pub settled : s.settled ≡ result_of e ∷ []
  pub is_listening : s.is_listening ≡ false
  pub is_armed : s.is_armed ≡ false
  pub is_paused : s.is_paused ≡ is_data e
  pub is_destroyed : s.is_destroyed ≡ is_timeout e
  pub unhandled : s.unhandled_errors ≡ (if is_timeout e && not has_other then 1 else 0) + errors

step-first :
    (has_other : Bool) (e : Event) → IsSettledBy has_other e 0 (step has_other e prime_stream)
unfolding step prime_stream cleanup settle destroy emit_error
step-first true (first_data chunk) = ground arith
step-first true (stream_error message) = ground arith
step-first true stream_end = ground arith
step-first true timeout = ground arith
step-first false (first_data chunk) = ground arith
step-first false (stream_error message) = ground arith
step-first false stream_end = ground arith
step-first false timeout = ground arith

step-later :
    (has_other : Bool) (first e : Event) (errors : ℕ) (s : Priming)
    → IsSettledBy has_other first errors s
    → IsSettledBy has_other first
        (errors + (if is_error e && not has_other then 1 else 0))
        (step has_other e s)
unfolding step emit_error
step-later has_other first (first_data chunk) errors s h = ground (arith, h)
step-later has_other first (stream_error message) errors s h = ground (arith, h)
step-later has_other first stream_end errors s h = ground (arith, h)
step-later has_other first timeout errors s h = ground (arith, h)

run-later :
    (has_other : Bool) (first : Event) (es : List Event) (errors : ℕ) (s : Priming)
    → IsSettledBy has_other first errors s
    → IsSettledBy has_other first (errors + unheard has_other es) (run has_other es s)
unfolding run
run-later has_other first [] errors s h =
    subst (λ n. IsSettledBy has_other first n s) (omega arith) h
run-later has_other first (e ∷ es) errors s h =
    let one : ℕ = if is_error e && not has_other then 1 else 0 in
    subst (λ n. IsSettledBy has_other first n (run has_other es (step has_other e s))) (omega arith)
      (run-later has_other first es (errors + one) (step has_other e s)
        (step-later has_other first e errors s h))

-- The first of the timer and the stream's events settles the promise with its result and takes the
-- listeners and the timer off. Whatever follows: the stream is destroyed exactly if it was the timer that
-- came first, so that no later timer ends a live stream, and paused exactly if it was a chunk; and the
-- errors of the stream that nobody handles are that of such a timer and those that the stream itself has
-- after the first event, all of them only where nobody else listens.
pub prime_stream-IsSettledBy :
    (has_other : Bool) (e : Event) (es : List Event)
    → IsSettledBy has_other e (unheard has_other es) (run has_other (e ∷ es) prime_stream)
unfolding run
prime_stream-IsSettledBy has_other e es =
    subst (λ n. IsSettledBy has_other e n (run has_other (e ∷ es) prime_stream)) (omega arith)
      (run-later has_other e es 0 (step has_other e prime_stream) (step-first has_other e))
