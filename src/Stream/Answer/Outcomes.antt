-- ===== src/Stream/Answer/Outcomes.antt =====
-- What the reader of a whole response reports and returns (deepseek-stream.ts, `handleNonStream`).
use Prim.Native.String.{◌++◌ as join}
use mathlib.Core.Logic.{◌⊎◌, inl, inr}
use chat2api_web_gateway.Stream.Errors.{
  Host, Chunk, ProviderError, provider_error_from_json_response,
}
use chat2api_web_gateway.Stream.Handler.{Outcome, success, provider_error, interrupted}
use chat2api_web_gateway.Stream.Answer.{
  Collected, Answer, collect_pieces, with_citations, unless_empty, answer_of, new_collected,
  settled, handle_non_stream,
}
use chat2api_web_gateway.Strings.{trim}
use chat2api_web_gateway.Stream.Events.{citations}
use chat2api_web_gateway.Prelude.{
  ◌===◌, if◌then◌else◌, Bool-cases, Option-cases, ℕ, String, ◌≡◌, Bool, true, false, not, ◌&&◌,
  ◌||◌, Option, none, some, List, arith,
}

abbrev pub says_something : Answer → Bool
says_something a = not (a.content_text === "") || elim a.reasoning [ none ↦ false | some s ↦ true ]

-- An answer goes with a reported success, and no answer with anything else.
abbrev pub IsReported : Outcome × Option Answer → Type 0
IsReported (success, some answer) = says_something answer ≡ true
IsReported (success, none) = ⊥
IsReported (provider_error e, some answer) = ⊥
IsReported (provider_error e, none) = Unit
IsReported (interrupted, some answer) = ⊥
IsReported (interrupted, none) = Unit

says_something-answer :
    (answer reasoning : String)
    → (answer === "" && reasoning === "") ≡ false
    → says_something (record { content_text = answer; reasoning = unless_empty reasoning }) ≡ true
says_something-answer answer reasoning h = elim (Bool-cases (answer === "")) [
  | inl empty ↦ ground (arith)
  | inr some_text ↦ ground (arith)
]

answer_of-IsReported :
    (host : Host) (now : ℕ) (c : Collected) (buffer : String)
    → IsReported (settled (answer_of host now (c, buffer)))
unfolding answer_of
answer_of-IsReported host now c buffer =
    let answer = with_citations (trim c.content_text) (citations host c.decoder) in
    let reasoning = trim c.reasoning_text in
    elim (Option-cases (provider_error_from_json_response host (join c.non_sse_body buffer) now)) [
      | inr (e, found) ↦ rw (found, answer_of) tt
      | inl fine ↦
          rw (fine, answer_of)
            (elim (Bool-cases (answer === "" && reasoning === "")) [
              | inl empty ↦ rw (empty) tt
              | inr says ↦ rw (says) (says_something-answer answer reasoning says)
            ])
    ]

-- The whole response is answered with a success exactly where an answer is returned, and that answer has
-- text or reasoning: an empty response is never a success.
pub handle_non_stream-IsReported :
    (host : Host) (thinks searches : Bool) (pieces : List Chunk) (read_fails : Bool) (now : ℕ)
    → IsReported (handle_non_stream host thinks searches pieces read_fails now)
unfolding handle_non_stream
handle_non_stream-IsReported host thinks searches pieces read_fails now =
    reports read_fails (collect_pieces host pieces "" (new_collected thinks searches))
  where
    reports :
        (fails : Bool) (read : ProviderError ⊎ (Collected × String))
        → IsReported (elim read [
          | inl e ↦ (provider_error e, none)
          | inr state ↦ if fails then (interrupted, none) else settled (answer_of host now state)
        ])
    reports fails (inl e) = tt
    reports true (inr state) = tt
    reports false (inr (c, buffer)) = answer_of-IsReported host now c buffer
