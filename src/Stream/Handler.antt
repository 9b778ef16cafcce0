-- ===== src/Stream/Handler.antt =====
-- `DeepSeekStreamHandler.handleStream`: the provider's response becomes the chunks that the client reads
-- (deepseek-stream.ts). A chunk is the value that the source passes to `JSON.stringify`, less the id, the
-- model and the time, which are the same in each. `outcomes` has the outcome that each call of `onEnd` is
-- given. A step takes the text that `chunk.toString()` gives.
pub mod Texts
pub mod Pieces
pub mod Protocol
pub mod Settled
pub mod Steps
pub mod Runs
pub mod Sources
use Prim.Native.String.{◌++◌ as join}
use chat2api_web_gateway.Strings.{trim, starts_with, text_drop}
use chat2api_web_gateway.Strings.Lines.{split_lines}
use chat2api_web_gateway.Stream.Json.{Fields, record_of}
use chat2api_web_gateway.Stream.Errors.{
  Host, Chunk, chunk_text, ProviderError, empty_response_error, provider_error_from_json_response,
  provider_error_from_chunk,
}
use chat2api_web_gateway.Stream.Decoder.{content, ContentDelta, Decoder, new_decoder}
use chat2api_web_gateway.Stream.Events.{process, citations}
use chat2api_web_gateway.Prelude.{
  ◌===◌, if◌then◌else◌, ℕ, String, Bool, true, false, not, ◌&&◌, Option, none, some, List, [], ◌∷◌,
  ◌++◌,
}

pub data Outcome : Type 0 where
  success : Outcome
  provider_error : ProviderError → Outcome
  interrupted : Outcome

-- The `delta` of a chunk; `has_role` says whether it names the role `assistant`.
pub record PublicDelta : Type 0 where
  pub has_role : Bool
  pub delta : ContentDelta

pub data Written : Type 0 where
  delta_chunk : PublicDelta → Written
  stop_chunk : Written
  error_event : String → String → Written
  done_marker : Written

pub record Reply : Type 0 where
  pub decoder : Decoder
  pub is_first_chunk : Bool
  pub is_done : Bool
  pub has_output : Bool
  pub cleanup_started : Bool
  pub outcomes : List Outcome
  pub written : List Written
  pub is_ended : Bool
  pub is_output_destroyed : Bool
  pub is_source_destroyed : Bool
  pub non_sse_body : String

pub record State : Type 0 where
  pub reply : Reply
  pub buffer : String

unfoldable pub new_state : Bool → Bool → State
unfolding new_decoder
new_state thinking_enabled web_search_enabled = record {
  reply = record {
    decoder = new_decoder thinking_enabled web_search_enabled;
    is_first_chunk = true;
    is_done = false;
    has_output = false;
    cleanup_started = false;
    outcomes = [];
    written = [];
    is_ended = false;
    is_output_destroyed = false;
    is_source_destroyed = false;
    non_sse_body = "";
  };
  buffer = "";
}

unfoldable pub write : Written → Reply → Reply
write w r = record r { written = r.written ++ w ∷ [] }

unfoldable pub cleanup : Outcome → Reply → Reply
cleanup outcome r =
    if r.cleanup_started
    then r
    else record r { cleanup_started = true; outcomes = r.outcomes ++ outcome ∷ [] }

unfoldable pub set_ended : Reply → Reply
set_ended r = record r { is_ended = true }

unfoldable pub set_done : Reply → Reply
set_done r = record r { is_done = true }

unfoldable pub fail_stream : ProviderError → Reply → Reply
unfolding write cleanup set_ended set_done
fail_stream e r =
    if r.is_done
    then r
    else cleanup (provider_error e)
        (set_ended (write done_marker (write (error_event e.message e.code) (set_done r))))

-- The chunk with the citations, where there are any.
unfoldable pub write_citations : String → Reply → Reply
unfolding write
write_citations s r =
    if s === ""
    then r
    else write
        (delta_chunk
          (record { has_role = false; delta = record { path = content; value = join "\n\n" s } }))
        r

-- `finishStream` once the citations are read.
unfoldable pub finish_with : String → Reply → Reply
unfolding fail_stream write_citations write cleanup set_ended set_done
finish_with s r =
    if r.is_done
    then r
    else if not r.has_output && s === ""
    then fail_stream empty_response_error r
    else cleanup success
        (set_ended (write done_marker (write stop_chunk (write_citations s (set_done r)))))

unfoldable pub finish_stream : Host → Reply → Reply
unfolding citations finish_with
finish_stream host r = finish_with (citations host r.decoder) r

-- `this.hasOutput = true` and the write of one delta.
unfoldable pub write_delta : ContentDelta → Reply → Reply
unfolding write
write_delta delta r =
    write (delta_chunk (record { has_role = r.is_first_chunk; delta = delta }))
      (record r { has_output = true; is_first_chunk = false })

unfoldable pub write_deltas : List ContentDelta → Reply → Reply
unfolding write_delta
write_deltas [] r = r
write_deltas (delta ∷ rest) r = write_deltas rest (write_delta delta r)

unfoldable pub parse_sse : Host → String → Option Fields
unfolding record_of
parse_sse host s = record_of (host.parse_json s)

unfoldable pub handle_chunk : Host → Fields → Reply → Reply
unfolding provider_error_from_chunk fail_stream process write_deltas
handle_chunk host chunk r = elim (provider_error_from_chunk host chunk) [
  | some e ↦ fail_stream e r
  | none ↦
      let decoded = process host chunk r.decoder in
      write_deltas decoded.1 (record r { decoder = decoded.0 })
]

-- What a line is for the loop.
pub data Line : Type 0 where
  blank done ignored : Line
  other : String → Line
  event : Fields → Line

unfoldable pub read_line : Host → String → Line
unfolding trim starts_with text_drop parse_sse
read_line host line =
    let body = trim (text_drop 5 line) in
    if trim line === ""
    then blank
    else if not (starts_with line "data:")
    then other line
    else if body === "[DONE]"
    then done
    else elim (parse_sse host body) [ none ↦ ignored | some chunk ↦ event chunk ]

unfoldable pub handle_line : Host → Line → Reply → Reply
unfolding finish_stream handle_chunk
handle_line host blank r = r
handle_line host ignored r = r
handle_line host (other s) r = record r { non_sse_body = join r.non_sse_body s }
handle_line host done r = finish_stream host r
handle_line host (event chunk) r = handle_chunk host chunk r

-- The loop returns at the line that ends the reply.
unfoldable pub handle_lines : Host → List String → Reply → Reply
unfolding read_line handle_line
handle_lines host [] r = r
handle_lines host (l ∷ ls) r =
    let r' = handle_line host (read_line host l) r in
    let rest = handle_lines host ls r' in if r'.is_done then r' else rest

-- The listener of `data`, from the text of the chunk on.
unfoldable pub on_text : Host → String → State → State
unfolding handle_lines split_lines
on_text host s st =
    let split = split_lines (join st.buffer s) in
    if st.reply.is_done
    then st
    else record { reply = handle_lines host split.0 st.reply; buffer = split.1 }

unfoldable pub on_data : Host → Chunk → State → State
unfolding on_text chunk_text
on_data host chunk st = on_text host (chunk_text host chunk) st

unfoldable pub on_end : Host → ℕ → State → State
unfolding provider_error_from_json_response fail_stream finish_stream
on_end host now st =
    elim (provider_error_from_json_response host (join st.reply.non_sse_body st.buffer) now) [
      | some e ↦ record st { reply = fail_stream e st.reply }
      | none ↦ record st { reply = finish_stream host st.reply }
    ]

unfoldable pub on_error : State → State
unfolding cleanup
on_error st =
    let r = st.reply in
    let destroyed = record r { is_done = true; is_output_destroyed = true } in
    record st { reply = cleanup interrupted (if r.is_done then r else destroyed) }

unfoldable pub on_close : State → State
unfolding cleanup
on_close st =
    let r = st.reply in
    record st {
      reply =
          cleanup interrupted (if r.is_done then r else record r { is_source_destroyed = true });
    }

pub data Event : Type 0 where
  source_data : Chunk → Event
  source_end : ℕ → Event
  source_error output_close : Event

-- A stream that is destroyed gives no more events.
unfoldable pub step : Host → Event → State → State
unfolding on_data on_end on_error on_close
step host output_close st = on_close st
step host (source_data c) st = if st.reply.is_source_destroyed then st else on_data host c st
step host (source_end now) st = if st.reply.is_source_destroyed then st else on_end host now st
step host source_error st = if st.reply.is_source_destroyed then st else on_error st

unfoldable pub run : Host → List Event → State → State
unfolding step
run host [] st = st
run host (e ∷ es) st = run host es (step host e st)
