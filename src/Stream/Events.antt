-- ===== src/Stream/Events.antt =====
-- `DeepSeekEventDecoder.process`, one event of the provider, and `citations` (deepseek-stream.ts).
pub mod Results
pub mod Citations
use Prim.Native.Char.{Char, code as code_point}
use Prim.Native.String.{◌++◌ as join}
use mathlib.Core.Option
use mathlib.Core.Option.{get_or}
use chat2api_web_gateway.Strings.{
  Chars, chars, text_of, is_digit, drop_while, starts_with, text_drop, digits_then,
}
use chat2api_web_gateway.Stream.Json.{
  Json, text, Fields, get_field, record_of, safe_string, member, boolean_of, array_of, is_text,
}
use chat2api_web_gateway.Stream.Errors.{Host}
use chat2api_web_gateway.Stream.Decoder.{
  content, SearchResult, SearchResults, Decoder, Decoded, path_of, push_content,
  merge_search_results, apply_search_batch,
}
use chat2api_web_gateway.Prelude.{
  ◌==◌, ◌===◌, if◌then◌else◌, filter, sort_by, ℕ, ◌/◌, String, Bool, true, false, ◌&&◌, ◌||◌,
  Option, none, some, List, [], ◌∷◌, ◌++◌, map,
}

abbrev pub with_path : Decoder → Option Bool → Decoder
with_path d none = d
with_path d (some enabled) = record d { current_path = path_of enabled }

-- `this.pushContent(output, value)`.
unfoldable pub push : String → Decoded → Decoded
unfolding push_content
push value (d, out) = (d, out ++ push_content d value)

abbrev pub fragment_path : Option Json → Option Bool
fragment_path type =
    if is_text type "ANSWER" || is_text type "RESPONSE"
    then some false
    else if is_text type "THINK"
    then some true
    else none

abbrev pub merged : Host → Option (List Json) → Decoder → Decoder
merged host none d = d
merged host (some values) d = record d {
  search_results = merge_search_results host values d.search_results;
}

unfoldable pub process_fragment : Host → Json → Decoded → Decoded
unfolding record_of safe_string get_field array_of is_text merge_search_results push
process_fragment host fragment (d, out) = elim (record_of (some fragment)) [
  | none ↦ (d, out)
  | some fields ↦
      let d' = merged host (array_of (get_field "results" fields)) d in
      let value = safe_string (get_field "content" fields) in
      if value === ""
      then (d', out)
      else push value (with_path d' (fragment_path (get_field "type" fields)), out)
]

unfoldable pub process_fragments : Host → List Json → Decoded → Decoded
unfolding process_fragment
process_fragments host [] state = state
process_fragments host (fragment ∷ rest) state =
    process_fragments host rest (process_fragment host fragment state)

-- `.map((entry) => safeString(record(entry)?.content)).join('')`.
unfoldable pub entry_contents : List Json → String
unfolding record_of safe_string get_field
entry_contents [] = ""
entry_contents (entry ∷ rest) =
    join (safe_string (member (record_of (some entry)) "content")) (entry_contents rest)

unfoldable pub process_operation : Json → Decoded → Decoded
unfolding record_of get_field is_text array_of boolean_of entry_contents push
process_operation operation (d, out) = elim (record_of (some operation)) [
  | none ↦ (d, out)
  | some fields ↦
      let nested = record_of (get_field "v" fields) in
      let d' =
        if is_text (get_field "p" fields) "response"
        then with_path d (boolean_of (member nested "thinking_enabled"))
        else d in
      elim (array_of (get_field "v" fields)) [
        | none ↦ (d', out)
        | some entries ↦ push (entry_contents entries) (d', out)
      ]
]

unfoldable pub process_operations : List Json → Decoded → Decoded
unfolding process_operation
process_operations [] state = state
process_operations (operation ∷ rest) state =
    process_operations rest (process_operation operation state)

abbrev pub skip_minus : Chars → Chars
skip_minus [] = []
skip_minus (c ∷ cs) = if code_point c == b'-' then cs else c ∷ cs

-- `/^response\/fragments\/-?\d+\/results$/`.
unfoldable pub is_fragment_results_path : String → Bool
unfolding starts_with text_drop chars digits_then is_digit drop_while text_of
is_fragment_results_path p =
    let index = skip_minus (chars (text_drop 19 p)) in
    starts_with p "response/fragments/"
    && digits_then "/" index
    && text_of (drop_while is_digit index) === "/results"

abbrev pub is_results_path : Option Json → Bool
is_results_path p = is_text p "response/search_results" || is_fragment_results_path (safe_string p)

-- The part of an event that names a response, fragments of one or operations on one.
unfoldable pub process_response : Host → Fields → Decoder → Decoded
unfolding get_field record_of is_text boolean_of array_of process_fragments process_operations
process_response host chunk d =
    let p = get_field "p" chunk in
    let value = get_field "v" chunk in
    elim (record_of (member (record_of value) "response")) [
      | some response ↦
          process_fragments host (get_or (array_of (get_field "fragments" response)) [])
            (with_path d (boolean_of (get_field "thinking_enabled" response)), [])
      | none ↦
          if is_text p "response/fragments"
          then process_fragments host (get_or (array_of value) []) (d, [])
          else if is_text p "response"
          then process_operations (get_or (array_of value) []) (d, [])
          else (d, [])
    ]

abbrev pub with_results : SearchResults → Decoded → Decoded
with_results results (d, out) = (record d { search_results = results }, out)

unfoldable pub search_event : Host → Fields → List Json → Decoded → Decoded
unfolding get_field is_text apply_search_batch merge_search_results
search_event host chunk values state =
    let results = state.0.search_results in
    with_results
      (if is_text (get_field "o" chunk) "BATCH"
        then apply_search_batch values results
        else merge_search_results host values results)
      state

abbrev pub push_text : Option Json → Decoded → Decoded
push_text (some (text value)) state = push value state
push_text (some other) state = state
push_text none state = state

unfoldable pub process : Host → Fields → Decoder → Decoded
unfolding get_field array_of process_response search_event is_fragment_results_path is_text
    safe_string
process host chunk d =
    let value = get_field "v" chunk in
    let state = process_response host chunk d in
    if is_results_path (get_field "p" chunk)
    then elim (array_of value) [
      | some values ↦ search_event host chunk values state
      | none ↦ push_text value state
    ]
    else push_text value state

abbrev pub has_cite_index : SearchResult → Bool
has_cite_index r = elim r.cite_index [ none ↦ false | some n ↦ true ]

abbrev pub cite_key : SearchResult → ℕ
cite_key r = get_or r.cite_index 0

-- The results that are cited, in the order of their indices.
unfoldable pub cited : Decoder → List SearchResult
cited d = sort_by cite_key (filter has_cite_index (map (λ entry. entry.1) d.search_results))

-- `[${entry.citeIndex}]: [${entry.title}](${entry.url})`.
unfoldable pub citation_line : Host → SearchResult → String
citation_line host r =
    join "[" (
      join (host.show_number (cite_key r))
        (join "]: [" (join r.title (join "](" (join r.url ")")))))

unfoldable pub join_lines : List String → String
join_lines [] = ""
join_lines (l ∷ []) = l
join_lines (l ∷ m ∷ ls) = join l (join "\n" (join_lines (m ∷ ls)))

unfoldable pub citations : Host → Decoder → String
unfolding cited citation_line join_lines
citations host d = join_lines (map (citation_line host) (cited d))
