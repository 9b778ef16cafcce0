-- ===== src/Stream/Handler/Protocol.antt =====
-- The protocol of a streamed reply, which the chunks of deepseek-stream.ts follow.
use Prim.Native.String.{◌++◌ as join}
use mathlib.Core.Logic.{◌⊎◌, inl, inr}
use chat2api_web_gateway.Stream.Errors.{ProviderError, empty_response_error}
use chat2api_web_gateway.Stream.Decoder.{content, ContentDelta}
use chat2api_web_gateway.Stream.Handler.{
  Outcome, success, provider_error, interrupted, Written, delta_chunk, stop_chunk, error_event,
  done_marker, Reply, write, cleanup, set_ended, set_done, fail_stream, write_citations,
  finish_with, write_delta,
}
use chat2api_web_gateway.Prelude.{
  ◌===◌, if◌then◌else◌, Bool-cases, String, ◌≡◌, refl, sym, ap, ◌∙◌, subst, Bool, true, false, not,
  ◌&&◌, ◌||◌, Option, none, some, List, [], ◌∷◌, ◌++◌, arith,
}

pub data Ending : Type 0 where
  complete : Ending
  failed : String → Ending

-- Where a reply is: before its first delta, behind one, behind citations that come without any, behind
-- the chunk that ends it, and behind the done marker.
pub data Phase : Type 0 where
  waiting streaming cited_only : Phase
  finishing closed : Ending → Phase

unfoldable pub next : Phase → Written → Option Phase
next waiting (delta_chunk d) = some (if d.has_role then streaming else cited_only)
next streaming (delta_chunk d) = if d.has_role then none else some streaming
next streaming stop_chunk = some (finishing complete)
next cited_only stop_chunk = some (finishing complete)
next waiting (error_event message code) = some (finishing (failed code))
next streaming (error_event message code) = some (finishing (failed code))
next (finishing e) done_marker = some (closed e)
next waiting stop_chunk = none
next waiting done_marker = none
next streaming done_marker = none
next cited_only (delta_chunk d) = none
next cited_only (error_event message code) = none
next cited_only done_marker = none
next (finishing e) (delta_chunk d) = none
next (finishing e) stop_chunk = none
next (finishing e) (error_event message code) = none
next (closed e) w = none

abbrev pub advance : Option Phase → Written → Option Phase
advance none w = none
advance (some p) w = next p w

unfoldable pub accept : Option Phase → List Written → Option Phase
unfolding next
accept p [] = p
accept p (w ∷ ws) = accept (advance p w) ws

pub accept-append :
    (p : Option Phase) (ws : List Written) (w : Written)
    → accept p (ws ++ w ∷ []) ≡ advance (accept p ws) w
unfolding accept
accept-append p [] w = refl
accept-append p (v ∷ ws) w = accept-append (advance p v) ws w

abbrev pub phase_of : Reply → Option Phase
phase_of r = accept (some waiting) r.written

abbrev pub open_phase : Bool → Phase
open_phase is_first = if is_first then waiting else streaming

-- A reply that still takes events of the provider.
pub record IsOpen (r : Reply) : Type 0 where
  pub is_done : r.is_done ≡ false
  pub cleanup_started : r.cleanup_started ≡ false
  pub is_ended : r.is_ended ≡ false
  pub is_source_destroyed : r.is_source_destroyed ≡ false
  pub outcomes : r.outcomes ≡ []
  pub phase : phase_of r ≡ some (open_phase r.is_first_chunk)
  pub first : r.is_first_chunk ≡ not r.has_output

-- What the outcome says of the phase in which the client finds the reply.
abbrev pub Agrees : List Outcome → Option Phase → Type 0
Agrees (success ∷ []) p = p ≡ some (closed complete)
Agrees (provider_error e ∷ []) p = p ≡ some (closed (failed e.code))
Agrees (interrupted ∷ []) p = (p ≡ some waiting) ⊎ (p ≡ some streaming)
Agrees [] p = ⊥
Agrees (o ∷ q ∷ os) p = ⊥

-- A reply that is over.
pub record IsOver (r : Reply) : Type 0 where
  pub cleanup_started : r.cleanup_started ≡ true
  pub stays : (r.is_done || r.is_source_destroyed) ≡ true
  pub agrees : Agrees r.outcomes (phase_of r)

abbrev pub IsGood : Reply → Type 0
IsGood r = IsOpen r ⊎ IsOver r

phase_of-write :
    (w : Written) (r : Reply) (p : Phase) → phase_of r ≡ some p → phase_of (write w r) ≡ next p w
unfolding write
phase_of-write w r p h = accept-append (some waiting) r.written w ∙ ap (λ q. advance q w) h

pub write_delta-IsOpen :
    (delta : ContentDelta) (r : Reply) → IsOpen r → IsOpen (write_delta delta r)
unfolding write_delta write next
write_delta-IsOpen delta r h = record {
  is_done = h.is_done;
  cleanup_started = h.cleanup_started;
  is_ended = h.is_ended;
  is_source_destroyed = h.is_source_destroyed;
  outcomes = h.outcomes;
  phase =
      phase_of-write (delta_chunk (record { has_role = r.is_first_chunk; delta = delta })) r
        (open_phase r.is_first_chunk) h.phase
      ∙ streams r.is_first_chunk delta;
  first = refl;
}
  where
    streams :
        (is_first : Bool) (d : ContentDelta)
        → next (open_phase is_first) (delta_chunk (record { has_role = is_first; delta = d }))
          ≡ some streaming
    streams true d = refl
    streams false d = refl

-- What is over once its outcome is reported.
pub settle-IsOver :
    (o : Outcome) (r : Reply)
    → r.cleanup_started ≡ false
    → r.outcomes ≡ []
    → (r.is_done || r.is_source_destroyed) ≡ true
    → Agrees (o ∷ []) (phase_of r)
    → IsOver (cleanup o r)
unfolding cleanup
settle-IsOver o r fresh none_yet stays agrees = rw (fresh) (record {
  cleanup_started = refl;
  stays = stays;
  agrees = subst (λ os. Agrees (os ++ o ∷ []) (phase_of r)) (sym none_yet) agrees;
})

-- The chunk that ends a reply and the done marker.
end_reply : Written → Reply → Reply
unfolding set_ended write
end_reply w r = set_ended (write done_marker (write w r))

phase_of-end_reply :
    (w : Written) (r : Reply) (p : Phase) (e : Ending)
    → phase_of r ≡ some p
    → next p w ≡ some (finishing e)
    → phase_of (end_reply w r) ≡ some (closed e)
unfolding end_reply set_ended next
phase_of-end_reply w r p e h ends =
    phase_of-write done_marker (write w r) (finishing e) (phase_of-write w r p h ∙ ends)

pub fail_stream-IsOver : (e : ProviderError) (r : Reply) → IsOpen r → IsOver (fail_stream e r)
unfolding fail_stream end_reply write set_ended set_done next
fail_stream-IsOver e r h = rw (h.is_done) (
    settle-IsOver (provider_error e) (end_reply (error_event e.message e.code) (set_done r))
      h.cleanup_started h.outcomes refl
      (phase_of-end_reply (error_event e.message e.code) (set_done r) (open_phase r.is_first_chunk)
        (failed e.code) h.phase (fails r.is_first_chunk)))
  where
    fails :
        (is_first : Bool)
        → next (open_phase is_first) (error_event e.message e.code)
          ≡ some (finishing (failed e.code))
    fails true = refl
    fails false = refl

abbrev citations_chunk : String → Written
citations_chunk s =
    delta_chunk
      (record { has_role = false; delta = record { path = content; value = join "\n\n" s } })

write_citations-none : (s : String) (r : Reply) → (s === "") ≡ true → write_citations s r ≡ r
unfolding write_citations
write_citations-none s r h = rw (h) refl

write_citations-some :
    (s : String) (r : Reply)
    → (s === "") ≡ false
    → write_citations s r ≡ write (citations_chunk s) r
unfolding write_citations
write_citations-some s r h = rw (h) refl

-- The citations leave a reply that has something to say where it can stop.
phase_of-write_citations :
    (s : String) (r : Reply) (has_output : Bool)
    → phase_of r ≡ some (open_phase (not has_output))
    → (not has_output && s === "") ≡ false
    → (p : Phase) × (phase_of (write_citations s r) ≡ some p)
      × (next p stop_chunk ≡ some (finishing complete))
unfolding next
phase_of-write_citations s r true h something = elim (Bool-cases (s === "")) [
  | inl none_cited ↦ rw (write_citations-none s r none_cited) (streaming, h, refl)
  | inr some_cited ↦
      rw (write_citations-some s r some_cited)
        (streaming, phase_of-write (citations_chunk s) r streaming h, refl)
]
phase_of-write_citations s r false h something =
    rw (write_citations-some s r something)
      (cited_only, phase_of-write (citations_chunk s) r waiting h, refl)

finish_with-nothing :
    (s : String) (r : Reply)
    → r.is_done ≡ false
    → (not r.has_output && s === "") ≡ true
    → finish_with s r ≡ fail_stream empty_response_error r
unfolding finish_with
finish_with-nothing s r still nothing = rw (still, nothing) refl

finish_with-something :
    (s : String) (r : Reply)
    → r.is_done ≡ false
    → (not r.has_output && s === "") ≡ false
    → finish_with s r ≡ cleanup success (end_reply stop_chunk (write_citations s (set_done r)))
unfolding finish_with end_reply
finish_with-something s r still something = rw (still, something) refl

-- Only the list of what is written changes.
write_citations-keeps :
    (s : String) (r : Reply)
    → ((write_citations s r).cleanup_started ≡ r.cleanup_started)
      × ((write_citations s r).outcomes ≡ r.outcomes)
      × ((write_citations s r).is_done ≡ r.is_done)
unfolding write_citations write
write_citations-keeps s r = ground (arith)

pub finish_with-IsOver : (s : String) (r : Reply) → IsOpen r → IsOver (finish_with s r)
unfolding end_reply set_done write set_ended
finish_with-IsOver s r h = elim (Bool-cases (not r.has_output && s === "")) [
  | inl nothing ↦
      rw (finish_with-nothing s r h.is_done nothing) (fail_stream-IsOver empty_response_error r h)
  | inr something ↦
      let cited = write_citations s (set_done r) in
      let keeps = write_citations-keeps s (set_done r) in
      let (p, at, stops) =
        phase_of-write_citations s (set_done r) r.has_output
          (h.phase ∙ ap (λ b. some (open_phase b)) h.first) something in
      rw (finish_with-something s r h.is_done something) (
        settle-IsOver success (end_reply stop_chunk cited) (keeps.0 ∙ h.cleanup_started)
          (keeps.1 ∙ h.outcomes) (rw (keeps.2) refl)
          (phase_of-end_reply stop_chunk cited p complete at stops))
]
