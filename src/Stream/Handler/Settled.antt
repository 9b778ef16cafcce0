-- ===== src/Stream/Handler/Settled.antt =====
-- What a line of the response does to a streamed reply (deepseek-stream.ts).

use mathlib.Core.Logic.{◌⊎◌, inl, inr}
use chat2api_web_gateway.Stream.Json.{Fields}
use chat2api_web_gateway.Stream.Errors.{
  Host, ProviderError, empty_response_error, provider_error_from_chunk,
}
use chat2api_web_gateway.Stream.Decoder.{ContentDelta, Decoder}
use chat2api_web_gateway.Stream.Events.{process, citations}
use chat2api_web_gateway.Stream.Handler.{
  Reply, write, cleanup, set_ended, set_done, fail_stream, write_citations, finish_with,
  finish_stream, write_delta, write_deltas, handle_chunk, Line, blank, done, ignored, other, event,
  read_line, handle_line, handle_lines,
}
use chat2api_web_gateway.Stream.Handler.Protocol.{
  IsOpen, IsOver, IsGood, write_delta-IsOpen, fail_stream-IsOver, finish_with-IsOver,
}
use chat2api_web_gateway.Prelude.{Option-cases, String, ◌≡◌, true, List, [], ◌∷◌, arith}

-- A failure ends the reply.
pub fail_stream-done : (e : ProviderError) (r : Reply) → (fail_stream e r).is_done ≡ true
unfolding fail_stream cleanup set_ended write set_done
fail_stream-done e r = ground (arith)

finish_with-done : (s : String) (r : Reply) → (finish_with s r).is_done ≡ true
unfolding finish_with cleanup set_ended write set_done write_citations
finish_with-done s r = ground (arith, fail_stream-done empty_response_error r)

-- What the loop over the lines leaves.
abbrev pub IsNext : Reply → Type 0
IsNext r = IsOpen r ⊎ (IsOver r × (r.is_done ≡ true))

fail_stream-IsNext : (e : ProviderError) (r : Reply) → IsOpen r → IsNext (fail_stream e r)
fail_stream-IsNext e r h = inr (fail_stream-IsOver e r h, fail_stream-done e r)

finish_stream-IsNext : (host : Host) (r : Reply) → IsOpen r → IsNext (finish_stream host r)
unfolding finish_stream
finish_stream-IsNext host r h =
    let s = citations host r.decoder in inr (finish_with-IsOver s r h, finish_with-done s r)

write_deltas-IsOpen : (ds : List ContentDelta) (r : Reply) → IsOpen r → IsOpen (write_deltas ds r)
unfolding write_deltas
write_deltas-IsOpen [] r h = h
write_deltas-IsOpen (d ∷ ds) r h =
    write_deltas-IsOpen ds (write_delta d r) (write_delta-IsOpen d r h)

-- The decoder and the body that is no event stream are no part of the protocol.
with_decoder-IsOpen : (d : Decoder) (r : Reply) → IsOpen r → IsOpen (record r { decoder = d })
with_decoder-IsOpen d r h = record {
  is_done = h.is_done;
  cleanup_started = h.cleanup_started;
  is_ended = h.is_ended;
  is_source_destroyed = h.is_source_destroyed;
  outcomes = h.outcomes;
  phase = h.phase;
  first = h.first;
}

with_body-IsOpen : (s : String) (r : Reply) → IsOpen r → IsOpen (record r { non_sse_body = s })
with_body-IsOpen s r h = record {
  is_done = h.is_done;
  cleanup_started = h.cleanup_started;
  is_ended = h.is_ended;
  is_source_destroyed = h.is_source_destroyed;
  outcomes = h.outcomes;
  phase = h.phase;
  first = h.first;
}

handle_chunk-IsNext :
    (host : Host) (chunk : Fields) (r : Reply) → IsOpen r → IsNext (handle_chunk host chunk r)
unfolding handle_chunk
handle_chunk-IsNext host chunk r h = elim (Option-cases (provider_error_from_chunk host chunk)) [
  | inl fine ↦
      let decoded = process host chunk r.decoder in
      rw (fine, handle_chunk)
        (inl (
          write_deltas-IsOpen decoded.1 (record r { decoder = decoded.0 })
            (with_decoder-IsOpen decoded.0 r h)))
  | inr (e, found) ↦ rw (found, handle_chunk) (fail_stream-IsNext e r h)
]

handle_line-IsNext : (host : Host) (l : Line) (r : Reply) → IsOpen r → IsNext (handle_line host l r)
unfolding handle_line
handle_line-IsNext host blank r h = inl h
handle_line-IsNext host ignored r h = inl h
handle_line-IsNext host (other s) r h = inl (with_body-IsOpen _ r h)
handle_line-IsNext host done r h = finish_stream-IsNext host r h
handle_line-IsNext host (event chunk) r h = handle_chunk-IsNext host chunk r h

-- The loop over the lines keeps to the protocol.
pub handle_lines-IsNext :
    (host : Host) (ls : List String) (r : Reply) → IsOpen r → IsNext (handle_lines host ls r)
unfolding handle_lines
handle_lines-IsNext host [] r h = inl h
handle_lines-IsNext host (l ∷ ls) r h =
    let r' = handle_line host (read_line host l) r in
    elim (handle_line-IsNext host (read_line host l) r h) [
      | inl goes_on ↦ rw (goes_on.is_done) (handle_lines-IsNext host ls r' goes_on)
      | inr (over, ended) ↦ rw (ended) (inr (over, ended))
    ]

-- What the loop leaves is good.
pub IsNext-IsGood : (r : Reply) → IsNext r → IsGood r
IsNext-IsGood r (inl h) = inl h
IsNext-IsGood r (inr h) = inr h.0
