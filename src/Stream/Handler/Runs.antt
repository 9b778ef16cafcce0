-- ===== src/Stream/Handler/Runs.antt =====
-- Runs of a streamed reply from its first event (deepseek-stream.ts, `handleStream`).
use mathlib.Core.Logic.{◌⊎◌, inl, inr}
use chat2api_web_gateway.Stream.Errors.{Host}
use chat2api_web_gateway.Stream.Handler.{
  Outcome, success, provider_error, interrupted, State, new_state, Event, step, run,
}
use chat2api_web_gateway.Stream.Handler.Protocol.{
  Phase, accept, phase_of, open_phase, IsOpen, Agrees, IsOver, IsGood,
}
use chat2api_web_gateway.Stream.Handler.Steps.{step-IsOver, is_final, step-final, step-open}
use chat2api_web_gateway.Prelude.{
  Bool-cases, length, any, ◌≡◌, refl, Bool, true, Option, some, List, [], ◌∷◌, arith,
}

new_state-IsOpen : (thinks searches : Bool) → IsOpen (new_state thinks searches).reply
unfolding new_state accept
new_state-IsOpen thinks searches = record {
  is_done = refl;
  cleanup_started = refl;
  is_ended = refl;
  is_source_destroyed = refl;
  outcomes = refl;
  phase = refl;
  first = refl;
}

run-IsOver :
    (host : Host) (es : List Event) (st : State) → IsOver st.reply → IsOver (run host es st).reply
unfolding run
run-IsOver host [] st h = h
run-IsOver host (e ∷ es) st h = run-IsOver host es (step host e st) (step-IsOver host e st h)

run-open :
    (host : Host) (es : List Event) (st : State) → IsOpen st.reply → IsGood (run host es st).reply
unfolding run
run-open host [] st h = inl h
run-open host (e ∷ es) st h = elim (step-open host e st h) [
  | inl goes_on ↦ run-open host es (step host e st) goes_on
  | inr over ↦ inr (run-IsOver host es (step host e st) over)
]

run-final :
    (host : Host) (es : List Event) (st : State)
    → any is_final es ≡ true
    → IsOpen st.reply
    → IsOver (run host es st).reply
unfolding run
run-final host [] st final h = absurd (ground arith)
run-final host (e ∷ es) st final h = elim (Bool-cases (is_final e)) [
  | inl now ↦ run-IsOver host es (step host e st) (step-final host e st now h)
  | inr later ↦ elim (step-open host e st h) [
    | inl goes_on ↦ run-final host es (step host e st) (ground (arith, final, later)) goes_on
    | inr over ↦ run-IsOver host es (step host e st) over
  ]
]

-- Whatever the source and the client do, what is written is a reply of the protocol: the deltas, of which
-- the first alone names the role, or citations alone, which name none; then one stop chunk or one error and
-- one done marker, with nothing behind it. While no outcome is reported it is a reply that can go on; a
-- reported success is a reply that is complete, a reported error one that ends with its code, and an
-- interruption one without an ending.
pub run-follows_protocol :
    (host : Host) (thinks searches : Bool) (es : List Event)
    → let r = (run host es (new_state thinks searches)).reply in
      ((r.outcomes ≡ []) × (phase_of r ≡ some (open_phase r.is_first_chunk)))
      ⊎ Agrees r.outcomes (phase_of r)
run-follows_protocol host thinks searches es =
    elim (run-open host es (new_state thinks searches) (new_state-IsOpen thinks searches)) [
      | inl h ↦ inl (h.outcomes, h.phase)
      | inr h ↦ inr h.agrees
    ]

length-Agrees : (os : List Outcome) (p : Option Phase) → Agrees os p → length os ≡ 1
length-Agrees [] p h = absurd h
length-Agrees (o ∷ []) p h = refl
length-Agrees (o ∷ q ∷ os) p h = absurd (two o q os h)
  where
    two : (o q : Outcome) (os : List Outcome) → Agrees (o ∷ q ∷ os) p → ⊥
    two success q os h = h
    two (provider_error e) q os h = h
    two interrupted q os h = h

-- Once the response has ended or failed, or the client has gone, the outcome of the reply is reported, and
-- it is reported once, in whatever order and however often these things happen.
pub run-settles :
    (host : Host) (thinks searches : Bool) (es : List Event)
    → any is_final es ≡ true
    → length (run host es (new_state thinks searches)).reply.outcomes ≡ 1
run-settles host thinks searches es final =
    let over =
      run-final host es (new_state thinks searches) final (new_state-IsOpen thinks searches) in
    length-Agrees _ _ over.agrees
