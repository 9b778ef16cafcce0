-- ===== src/Stream/Handler/Sources.antt =====
-- The decoder's part of a streamed reply, and the sources that it cites (deepseek-stream.ts).
use mathlib.Core.Logic.{inl, inr}
use Prim.Native.String.{◌++◌ as join}
use chat2api_web_gateway.Strings.Lines.{split_lines}
use chat2api_web_gateway.Stream.Json.{Fields}
use chat2api_web_gateway.Stream.Errors.{
  Host, Chunk, chunk_text, ProviderError, empty_response_error, provider_error_from_json_response,
  provider_error_from_chunk,
}
use chat2api_web_gateway.Stream.Decoder.{ContentDelta, SearchResults, Decoder, new_decoder}
use chat2api_web_gateway.Stream.Events.{process, has_cite_index, cite_key, cited, citations}
use chat2api_web_gateway.Stream.Events.Results.{IsPublicResult, ArePublic}
use chat2api_web_gateway.Stream.Events.Citations.{KeepsPublic, process-KeepsPublic}
use chat2api_web_gateway.Stream.Handler.{
  Outcome, interrupted, Reply, State, new_state, write, cleanup, set_ended, set_done, fail_stream,
  write_citations, finish_with, finish_stream, write_delta, write_deltas, handle_chunk, Line, blank,
  done, ignored, other, event, read_line, handle_line, handle_lines, on_text, on_data, on_end,
  on_error, on_close, Event, source_data, source_end, source_error, output_close, step, run,
}
use chat2api_web_gateway.Prelude.{
  leb, Option-cases, if_both, filter, All, All-filter, sort-All, ℕ, String, ◌≡◌, refl, sym, subst,
  Bool, List, [], ◌∷◌, map, arith,
}

fail_stream-decoder : (e : ProviderError) (r : Reply) → (fail_stream e r).decoder ≡ r.decoder
unfolding fail_stream cleanup set_ended write set_done
fail_stream-decoder e r = ground (arith)

finish_with-decoder : (s : String) (r : Reply) → (finish_with s r).decoder ≡ r.decoder
unfolding finish_with cleanup set_ended write set_done write_citations
finish_with-decoder s r = ground (arith, fail_stream-decoder empty_response_error r)

write_deltas-decoder :
    (ds : List ContentDelta) (r : Reply) → (write_deltas ds r).decoder ≡ r.decoder
unfolding write_deltas write_delta write
write_deltas-decoder [] r = refl
write_deltas-decoder (d ∷ ds) r = write_deltas-decoder ds (write_delta d r)

-- What `process` keeps holds of the decoder in every run.
module _ (host : Host) (P : Decoder → Type 0)
    (keeps : (chunk : Fields) (d : Decoder) → P d → P (process host chunk d).0) where
  handle_chunk-keeps :
      (chunk : Fields) (r : Reply) → P r.decoder → P (handle_chunk host chunk r).decoder
  unfolding handle_chunk
  handle_chunk-keeps chunk r h = elim (Option-cases (provider_error_from_chunk host chunk)) [
    | inr (e, found) ↦ rw (found, handle_chunk) (subst P (sym (fail_stream-decoder e r)) h)
    | inl fine ↦
        let decoded = process host chunk r.decoder in
        rw (fine, handle_chunk)
          (subst P (sym (write_deltas-decoder decoded.1 (record r { decoder = decoded.0 })))
            (keeps chunk r.decoder h))
  ]

  finish_stream-keeps : (r : Reply) → P r.decoder → P (finish_stream host r).decoder
  unfolding finish_stream
  finish_stream-keeps r h = subst P (sym (finish_with-decoder (citations host r.decoder) r)) h

  handle_line-keeps : (l : Line) (r : Reply) → P r.decoder → P (handle_line host l r).decoder
  unfolding handle_line
  handle_line-keeps blank r h = h
  handle_line-keeps ignored r h = h
  handle_line-keeps (other s) r h = h
  handle_line-keeps done r h = finish_stream-keeps r h
  handle_line-keeps (event chunk) r h = handle_chunk-keeps chunk r h

  abbrev Keeps : Reply → Type 0
  Keeps r = P r.decoder

  handle_lines-keeps :
      (ls : List String) (r : Reply) → P r.decoder → P (handle_lines host ls r).decoder
  unfolding handle_lines
  handle_lines-keeps [] r h = h
  handle_lines-keeps (l ∷ ls) r h =
      let r' = handle_line host (read_line host l) r in
      let kept = handle_line-keeps (read_line host l) r h in
      if_both Keeps r' (handle_lines host ls r') r'.is_done kept (handle_lines-keeps ls r' kept)

  abbrev StateKeeps : State → Type 0
  StateKeeps st = P st.reply.decoder

  on_text-StateKeeps : (s : String) (st : State) → StateKeeps st → StateKeeps (on_text host s st)
  unfolding on_text
  on_text-StateKeeps s st h =
      if_both StateKeeps st _ st.reply.is_done h
        (handle_lines-keeps (split_lines (join st.buffer s)).0 st.reply h)

  on_end-StateKeeps : (now : ℕ) (st : State) → StateKeeps st → StateKeeps (on_end host now st)
  unfolding on_end
  on_end-StateKeeps now st h =
      elim (Option-cases
        (provider_error_from_json_response host (join st.reply.non_sse_body st.buffer) now)) [
          | inl fine ↦ rw (fine, on_end) (finish_stream-keeps st.reply h)
          | inr (e, found) ↦ rw (found, on_end) (subst P (sym (fail_stream-decoder e st.reply)) h)
        ]

  cleanup-Keeps : (o : Outcome) (r : Reply) → Keeps r → Keeps (cleanup o r)
  unfolding cleanup
  cleanup-Keeps o r h = if_both Keeps _ _ r.cleanup_started h h

  on_data-StateKeeps : (c : Chunk) (st : State) → StateKeeps st → StateKeeps (on_data host c st)
  unfolding on_data
  on_data-StateKeeps c st h = on_text-StateKeeps (chunk_text host c) st h

  step-StateKeeps : (e : Event) (st : State) → StateKeeps st → StateKeeps (step host e st)
  unfolding step on_error on_close
  step-StateKeeps (source_data s) st h =
      if_both StateKeeps _ _ st.reply.is_source_destroyed h (on_data-StateKeeps s st h)
  step-StateKeeps (source_end now) st h =
      if_both StateKeeps _ _ st.reply.is_source_destroyed h (on_end-StateKeeps now st h)
  step-StateKeeps source_error st h =
      if_both StateKeeps _ _ st.reply.is_source_destroyed h
        (cleanup-Keeps interrupted _ (if_both Keeps _ _ st.reply.is_done h h))
  step-StateKeeps output_close st h =
      cleanup-Keeps interrupted _ (if_both Keeps _ _ st.reply.is_done h h)

  pub run-StateKeeps : (es : List Event) (st : State) → StateKeeps st → StateKeeps (run host es st)
  unfolding run
  run-StateKeeps [] st h = h
  run-StateKeeps (e ∷ es) st h = run-StateKeeps es (step host e st) (step-StateKeeps e st h)

All-values :
    (host : Host) (results : SearchResults)
    → ArePublic host results
    → All (IsPublicResult host) (map (λ entry. entry.1) results)
All-values host [] h = tt
All-values host ((k, r) ∷ results) (p, h) = (p, All-values host results h)

-- In every run of a reply, what it would cite are pages whose address the host's `new URL` read, by http or
-- https and without a user or a password in it.
pub run-cites_public :
    (host : Host) (thinks searches : Bool) (es : List Event)
    → All (IsPublicResult host) (cited (run host es (new_state thinks searches)).reply.decoder)
unfolding cited new_state new_decoder
run-cites_public host thinks searches es =
    let st = run host es (new_state thinks searches) in
    let kept : KeepsPublic host st.reply.decoder =
      run-StateKeeps host (KeepsPublic host) (process-KeepsPublic host) es
        (new_state thinks searches) tt in
    let results = map (λ entry. entry.1) st.reply.decoder.search_results in
    sort-All (λ x y. leb (cite_key x) (cite_key y)) (IsPublicResult host)
      (filter has_cite_index results)
      (All-filter (IsPublicResult host) has_cite_index results
        (All-values host st.reply.decoder.search_results kept))
