-- ===== src/Priming.antt =====
-- src/server/gateway/streaming.ts, primeStream: the wait for the first chunk of a reply. The timer and the
-- stream's events come in any order; a listener that is off is not called.
pub mod First
mod Examples
use chat2api_web_gateway.Prelude.{
  ◌==◌, if◌then◌else◌, length, ℕ, ◌+◌, String, Bool, true, false, ◌||◌, List, [], ◌∷◌,
}

-- What the promise is settled with.
pub data Primed : Type 0 where
  resolved : String → Primed
  rejected : String → Primed

pub record Priming : Type 0 where
  pub is_listening : Bool
  pub is_armed : Bool
  pub is_paused : Bool
  pub is_destroyed : Bool
  pub settled : List Primed
  pub unhandled_errors : ℕ

pub data Event : Type 0 where
  first_data : String → Event
  stream_error : String → Event
  stream_end timeout : Event

-- The state after `readable.resume()`.
unfoldable pub prime_stream : Priming
prime_stream = record {
  is_listening = true;
  is_armed = true;
  is_paused = false;
  is_destroyed = false;
  settled = [];
  unhandled_errors = 0;
}

-- The timer is cleared and the three listeners are taken off.
unfoldable pub cleanup : Priming → Priming
cleanup s = record s { is_listening = false; is_armed = false }

-- The first call of `resolve` or `reject` settles the promise.
unfoldable pub settle : Primed → Priming → Priming
settle p s = if length s.settled == 0 then record s { settled = p ∷ [] } else s

-- An event `error` of the stream: without a listener it is not handled.
unfoldable pub emit_error : Bool → Priming → Priming
emit_error has_other s =
    if has_other || s.is_listening
    then s
    else record s { unhandled_errors = s.unhandled_errors + 1 }

-- `readable.destroy(error)`.
unfoldable pub destroy : Bool → Priming → Priming
unfolding emit_error
destroy has_other s =
    if s.is_destroyed then s else emit_error has_other (record s { is_destroyed = true })

abbrev pub timeout_message : String
timeout_message = "Upstream first-byte timeout"

abbrev pub end_message : String
end_message = "Upstream stream ended before producing data"

-- `has_other` says whether someone else listens to errors of the stream.
unfoldable pub step : Bool → Event → Priming → Priming
unfolding cleanup settle emit_error destroy
step has_other (first_data chunk) s =
    if s.is_listening then settle (resolved chunk) (cleanup (record s { is_paused = true })) else s
step has_other (stream_error message) s =
    if s.is_listening then settle (rejected message) (cleanup s) else emit_error has_other s
step has_other stream_end s =
    if s.is_listening then settle (rejected end_message) (cleanup s) else s
step has_other timeout s =
    if s.is_armed then settle (rejected timeout_message) (destroy has_other (cleanup s)) else s

unfoldable pub run : Bool → List Event → Priming → Priming
unfolding step
run has_other [] s = s
run has_other (e ∷ es) s = run has_other es (step has_other e s)
