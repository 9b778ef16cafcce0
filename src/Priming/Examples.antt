-- ===== src/Priming/Examples.antt =====
-- A timer that comes before the first chunk, and one that comes behind it.
use chat2api_web_gateway.Priming.{first_data, stream_error, timeout, prime_stream, run}
use chat2api_web_gateway.Priming.First.{IsSettledBy, prime_stream-IsSettledBy}
use chat2api_web_gateway.Prelude.{◌≡◌, refl, false, [], ◌∷◌}

prime_stream-IsSettledBy_example :
    IsSettledBy false
      (first_data "chunk")
      1
      (run false (first_data "chunk" ∷ timeout ∷ stream_error "reset" ∷ []) prime_stream)
prime_stream-IsSettledBy_example =
    prime_stream-IsSettledBy false (first_data "chunk") (timeout ∷ stream_error "reset" ∷ [])

late_chunk : (run false (timeout ∷ first_data "late" ∷ []) prime_stream).unhandled_errors ≡ 1
unfolding run prime_stream
late_chunk = refl
