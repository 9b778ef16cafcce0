-- ===== src/Stream/Handler/Steps.antt =====
-- What an event of the two streams does to a streamed reply (deepseek-stream.ts, `handleStream`).
use Prim.Native.String.{◌++◌ as join}
use mathlib.Core.Logic.{inl, inr}
use chat2api_web_gateway.Strings.Lines.{split_lines}
use chat2api_web_gateway.Stream.Errors.{Host, Chunk, chunk_text, provider_error_from_json_response}
use chat2api_web_gateway.Stream.Events.{citations}
use chat2api_web_gateway.Stream.Handler.{
  Outcome, interrupted, Reply, State, cleanup, finish_stream, handle_lines, on_data, on_end,
  on_error, on_close, Event, source_data, source_end, source_error, output_close, step,
}
use chat2api_web_gateway.Stream.Handler.Pieces.{on_data-done, on_data-goes_on, on_end-done}
use chat2api_web_gateway.Stream.Handler.Protocol.{
  phase_of, open_phase, IsOpen, Agrees, IsOver, IsGood, settle-IsOver, fail_stream-IsOver,
  finish_with-IsOver,
}
use chat2api_web_gateway.Stream.Handler.Settled.{handle_lines-IsNext, IsNext-IsGood}
use chat2api_web_gateway.Prelude.{
  if◌then◌else◌, Bool-cases, Option-cases, if_true, if_false, ℕ, ◌≡◌, refl, sym, ap, subst, Bool,
  true, false, some, [], ◌∷◌, arith,
}

on_data-IsGood :
    (host : Host) (c : Chunk) (st : State) → IsOpen st.reply → IsGood (on_data host c st).reply
on_data-IsGood host c st h =
    let lines = (split_lines (join st.buffer (chunk_text host c))).0 in
    rw (on_data-goes_on host c st h.is_done)
      (IsNext-IsGood (handle_lines host lines st.reply) (handle_lines-IsNext host lines st.reply h))

on_end-IsOver :
    (host : Host) (now : ℕ) (st : State) → IsOpen st.reply → IsOver (on_end host now st).reply
unfolding on_end finish_stream
on_end-IsOver host now st h =
    elim (Option-cases
      (provider_error_from_json_response host (join st.reply.non_sse_body st.buffer) now)) [
        | inl fine ↦
            rw (fine, on_end) (finish_with-IsOver (citations host st.reply.decoder) st.reply h)
        | inr (e, found) ↦ rw (found, on_end) (fail_stream-IsOver e st.reply h)
      ]

interrupted-Agrees : (r : Reply) → IsOpen r → Agrees (interrupted ∷ []) (phase_of r)
interrupted-Agrees r h = subst (Agrees (interrupted ∷ [])) (sym h.phase) (either r.is_first_chunk)
  where
    either : (b : Bool) → Agrees (interrupted ∷ []) (some (open_phase b))
    either true = inl refl
    either false = inr refl

on_error-IsOver : (st : State) → IsOpen st.reply → IsOver (on_error st).reply
unfolding on_error
on_error-IsOver st h = rw (h.is_done) (
    settle-IsOver interrupted (record st.reply { is_done = true; is_output_destroyed = true })
      h.cleanup_started h.outcomes refl (interrupted-Agrees st.reply h))

abbrev left_reply : Reply → Reply
left_reply r = record r { is_source_destroyed = true }

on_close-open : (st : State) → IsOpen st.reply → IsOver (on_close st).reply
unfolding on_close
on_close-open st h =
    let r = st.reply in
    if_false (λ q. IsOver (cleanup interrupted q)) r (left_reply r) r.is_done h.is_done
      (settle-IsOver interrupted (left_reply r) h.cleanup_started h.outcomes
        (ground (arith, h.is_done)) (interrupted-Agrees r h))

cleanup_again : (o : Outcome) (r : Reply) → r.cleanup_started ≡ true → cleanup o r ≡ r
unfolding cleanup
cleanup_again o r h = if_true (λ q. q ≡ r) r _ r.cleanup_started h refl

on_error-done :
    (st : State) → IsOver st.reply → st.reply.is_done ≡ true → (on_error st).reply ≡ st.reply
unfolding on_error
on_error-done st h ended =
    let r = st.reply in
    if_true (λ q. cleanup interrupted q ≡ r) r
      (record r { is_done = true; is_output_destroyed = true }) r.is_done ended
      (cleanup_again interrupted r h.cleanup_started)

left_reply-IsOver : (r : Reply) → IsOver r → IsOver (left_reply r)
left_reply-IsOver r h = record {
  cleanup_started = h.cleanup_started;
  stays = ground (arith);
  agrees = h.agrees;
}

on_close-IsOver : (st : State) → IsGood st.reply → IsOver (on_close st).reply
unfolding on_close
on_close-IsOver st (inl h) = on_close-open st h
on_close-IsOver st (inr h) =
    let r = st.reply in
    elim (Bool-cases r.is_done) [
      | inl ended ↦
          if_true (λ q. IsOver (cleanup interrupted q)) r (left_reply r) r.is_done ended
            (subst IsOver (sym (cleanup_again interrupted r h.cleanup_started)) h)
      | inr left ↦
          if_false (λ q. IsOver (cleanup interrupted q)) r (left_reply r) r.is_done left
            (subst IsOver (sym (cleanup_again interrupted (left_reply r) h.cleanup_started))
              (left_reply-IsOver r h))
    ]

-- An event of a source that may be destroyed leaves what is over.
guarded-over :
    (f : State → State) (st : State)
    → IsOver st.reply
    → (st.reply.is_done ≡ true → (f st).reply ≡ st.reply)
    → (if st.reply.is_source_destroyed then st else f st).reply ≡ st.reply
guarded-over f st h stays = elim (Bool-cases st.reply.is_source_destroyed) [
  | inl destroyed ↦
      if_true (λ q. q.reply ≡ st.reply) st (f st) st.reply.is_source_destroyed destroyed refl
  | inr reads ↦
      if_false (λ q. q.reply ≡ st.reply) st (f st) st.reply.is_source_destroyed reads
        (stays (ground (arith, h.stays)))
]

guarded-open :
    (P : Reply → Type 0) (f : State → State) (st : State)
    → IsOpen st.reply
    → P (f st).reply
    → P (if st.reply.is_source_destroyed then st else f st).reply
guarded-open P f st h p =
    if_false (λ q. P q.reply) st (f st) st.reply.is_source_destroyed h.is_source_destroyed p

-- What is over stays over.
pub step-IsOver :
    (host : Host) (e : Event) (st : State) → IsOver st.reply → IsOver (step host e st).reply
unfolding step
step-IsOver host (source_data s) st h =
    subst IsOver
      (sym (
        guarded-over (on_data host s) st h
          (λ ended. ap (λ q. q.reply) (on_data-done host s st ended))))
      h
step-IsOver host (source_end now) st h =
    subst IsOver (sym (guarded-over (on_end host now) st h (on_end-done host now st))) h
step-IsOver host source_error st h =
    subst IsOver (sym (guarded-over on_error st h (on_error-done st h))) h
step-IsOver host output_close st h = on_close-IsOver st (inr h)

abbrev pub is_final : Event → Bool
is_final (source_data s) = false
is_final (source_end now) = true
is_final source_error = true
is_final output_close = true

pub step-final :
    (host : Host) (e : Event) (st : State)
    → is_final e ≡ true
    → IsOpen st.reply
    → IsOver (step host e st).reply
unfolding step
step-final host (source_data s) st final h = absurd (ground arith)
step-final host (source_end now) st final h =
    guarded-open IsOver (on_end host now) st h (on_end-IsOver host now st h)
step-final host source_error st final h = guarded-open IsOver on_error st h (on_error-IsOver st h)
step-final host output_close st final h = on_close-open st h

pub step-open :
    (host : Host) (e : Event) (st : State) → IsOpen st.reply → IsGood (step host e st).reply
unfolding step
step-open host (source_data s) st h =
    guarded-open IsGood (on_data host s) st h (on_data-IsGood host s st h)
step-open host (source_end now) st h = inr (step-final host (source_end now) st refl h)
step-open host source_error st h = inr (step-final host source_error st refl h)
step-open host output_close st h = inr (step-final host output_close st refl h)
