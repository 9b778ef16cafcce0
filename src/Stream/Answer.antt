-- ===== src/Stream/Answer.antt =====
-- `DeepSeekStreamHandler.handleNonStream`: the whole response is read and answered at once
-- (deepseek-stream.ts). A thrown `DeepSeekProviderError` is `inl`.
pub mod Agreement
pub mod Outcomes
use Prim.Native.String.{◌++◌ as join}
use mathlib.Core.Logic.{◌⊎◌, inl, inr}
use chat2api_web_gateway.Strings.{trim}
use chat2api_web_gateway.Strings.Lines.{split_lines}
use chat2api_web_gateway.Stream.Errors.{
  Host, Chunk, chunk_text, ProviderError, empty_response_error, provider_error_from_json_response,
  provider_error_from_chunk,
}
use chat2api_web_gateway.Stream.Decoder.{thinking, content, ContentDelta, Decoder, new_decoder}
use chat2api_web_gateway.Stream.Events.{process, citations}
use chat2api_web_gateway.Stream.Handler.{
  Outcome, success, provider_error, interrupted, Line, blank, done, ignored, other, event,
  read_line,
}
use chat2api_web_gateway.Prelude.{
  ◌===◌, if◌then◌else◌, ℕ, String, Bool, ◌&&◌, Option, none, some, List, [], ◌∷◌,
}

pub record Collected : Type 0 where
  pub decoder : Decoder
  pub content_text : String
  pub reasoning_text : String
  pub non_sse_body : String

pub record Answer : Type 0 where
  pub content_text : String
  pub reasoning : Option String

unfoldable pub collect_delta : ContentDelta → Collected → Collected
collect_delta delta c = elim delta.path [
  | thinking ↦ record c { reasoning_text = join c.reasoning_text delta.value }
  | content ↦ record c { content_text = join c.content_text delta.value }
]

unfoldable pub collect_deltas : List ContentDelta → Collected → Collected
unfolding collect_delta
collect_deltas [] c = c
collect_deltas (delta ∷ rest) c = collect_deltas rest (collect_delta delta c)

unfoldable pub collect_line : Host → Line → Collected → ProviderError ⊎ Collected
unfolding provider_error_from_chunk process collect_deltas
collect_line host blank c = inr c
collect_line host ignored c = inr c
collect_line host (other s) c = inr (record c { non_sse_body = join c.non_sse_body s })
collect_line host done c = inr c
collect_line host (event chunk) c = elim (provider_error_from_chunk host chunk) [
  | some e ↦ inl e
  | none ↦
      let decoded = process host chunk c.decoder in
      inr (collect_deltas decoded.1 (record c { decoder = decoded.0 }))
]

abbrev pub and_then {ℓ} :
    {A : Type ℓ} → ProviderError ⊎ A → (A → ProviderError ⊎ A) → ProviderError ⊎ A
and_then (inl e) f = inl e
and_then (inr x) f = f x

unfoldable pub collect_lines : Host → List String → Collected → ProviderError ⊎ Collected
unfolding read_line collect_line
collect_lines host [] c = inr c
collect_lines host (l ∷ ls) c =
    and_then (collect_line host (read_line host l) c) (collect_lines host ls)

-- `for await (const chunk of stream)`, with the rest of a line.
unfoldable pub collect_pieces :
    Host → List Chunk → String → Collected → ProviderError ⊎ (Collected × String)
unfolding collect_lines split_lines chunk_text
collect_pieces host [] rest c = inr (c, rest)
collect_pieces host (piece ∷ pieces) rest c =
    let split = split_lines (join rest (chunk_text host piece)) in
    elim (collect_lines host split.0 c) [
      | inl e ↦ inl e
      | inr c' ↦ collect_pieces host pieces split.1 c'
    ]

-- The answer with its citations below.
unfoldable pub with_citations : String → String → String
with_citations answer cites =
    if cites === ""
    then answer
    else if answer === ""
    then cites
    else join answer (join "\n\n" cites)

abbrev pub unless_empty : String → Option String
unless_empty s = if s === "" then none else some s

-- What follows the loop.
unfoldable pub answer_of : Host → ℕ → Collected × String → ProviderError ⊎ Answer
unfolding provider_error_from_json_response citations trim with_citations
answer_of host now (c, rest) =
    elim (provider_error_from_json_response host (join c.non_sse_body rest) now) [
      | some e ↦ inl e
      | none ↦
          let answer = with_citations (trim c.content_text) (citations host c.decoder) in
          let reasoning = trim c.reasoning_text in
          if answer === "" && reasoning === ""
          then inl empty_response_error
          else inr (record { content_text = answer; reasoning = unless_empty reasoning })
    ]

unfoldable pub new_collected : Bool → Bool → Collected
unfolding new_decoder
new_collected thinking_enabled web_search_enabled = record {
  decoder = new_decoder thinking_enabled web_search_enabled;
  content_text = "";
  reasoning_text = "";
  non_sse_body = "";
}

abbrev pub settled : ProviderError ⊎ Answer → Outcome × Option Answer
settled (inl e) = (provider_error e, none)
settled (inr answer) = (success, some answer)

-- The outcome that `finally` reports and the answer, if one is returned. The response comes in pieces, and
-- its stream may fail behind them.
unfoldable pub handle_non_stream :
    Host → Bool → Bool → List Chunk → Bool → ℕ → Outcome × Option Answer
unfolding collect_pieces answer_of new_collected
handle_non_stream host thinks searches pieces read_fails now =
    elim (collect_pieces host pieces "" (new_collected thinks searches)) [
      | inl e ↦ (provider_error e, none)
      | inr read ↦ if read_fails then (interrupted, none) else settled (answer_of host now read)
    ]
