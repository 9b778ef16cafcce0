-- ===== src/Stream/Events/Citations.antt =====
-- What an answer cites (deepseek-stream.ts, `process` and `citations`).
use mathlib.Core.Option.{get_or}
use mathlib.Core.Logic.{inl, inr}
use chat2api_web_gateway.Stream.Json.{
  Json, null, boolean, number, text, array, object, Fields, get_field, record_of, safe_string,
  member, boolean_of, array_of, is_text,
}
use chat2api_web_gateway.Stream.Errors.{Host}
use chat2api_web_gateway.Stream.Decoder.{Decoder, Decoded}
use chat2api_web_gateway.Stream.Events.{
  with_path, push, fragment_path, merged, process_fragment, process_fragments, process_operation,
  process_operations, is_results_path, process_response, search_event, push_text, process,
}
use chat2api_web_gateway.Stream.Events.Results.{ArePublic, merge-ArePublic, batch-ArePublic}
use chat2api_web_gateway.Prelude.{
  ◌===◌, Bool-cases, Option-cases, if_both, String, ◌≡◌, refl, sym, ◌∙◌, subst, Bool, Option, none,
  some, List, [], ◌∷◌, arith,
}

abbrev pub KeepsPublic : Host → Decoder → Type 0
KeepsPublic host d = ArePublic host d.search_results

abbrev DecodedPublic : Host → Decoded → Type 0
DecodedPublic host state = KeepsPublic host state.0

push-KeepsPublic :
    (host : Host) (s : String) (state : Decoded)
    → KeepsPublic host state.0
    → KeepsPublic host (push s state).0
unfolding push
push-KeepsPublic host s state h = h

with_path-KeepsPublic :
    (host : Host) (d : Decoder) (path : Option Bool)
    → KeepsPublic host d
    → KeepsPublic host (with_path d path)
with_path-KeepsPublic host d none h = h
with_path-KeepsPublic host d (some enabled) h = h

merged-KeepsPublic :
    (host : Host) (values : Option (List Json)) (d : Decoder)
    → KeepsPublic host d
    → KeepsPublic host (merged host values d)
merged-KeepsPublic host none d h = h
merged-KeepsPublic host (some values) d h = merge-ArePublic host values d.search_results h

fragment-KeepsPublic :
    (host : Host) (fragment : Json) (state : Decoded)
    → KeepsPublic host state.0
    → KeepsPublic host (process_fragment host fragment state).0
unfolding process_fragment push
fragment-KeepsPublic host fragment state h = elim (Option-cases (record_of (some fragment))) [
  | inl other ↦ rw (other, process_fragment) h
  | inr (fields, found) ↦
      let d = merged host (array_of (get_field "results" fields)) state.0 in
      let kept = merged-KeepsPublic host (array_of (get_field "results" fields)) state.0 h in
      rw (found, process_fragment)
        (elim (Bool-cases (safe_string (get_field "content" fields) === "")) [
          | inl silent ↦ rw (silent) kept
          | inr speaks ↦
              rw (speaks)
                (with_path-KeepsPublic host d (fragment_path (get_field "type" fields)) kept)
        ])
]

fragments-KeepsPublic :
    (host : Host) (fragments : List Json) (state : Decoded)
    → KeepsPublic host state.0
    → KeepsPublic host (process_fragments host fragments state).0
unfolding process_fragments
fragments-KeepsPublic host [] state h = h
fragments-KeepsPublic host (fragment ∷ rest) state h =
    fragments-KeepsPublic host rest (process_fragment host fragment state)
      (fragment-KeepsPublic host fragment state h)

operation-keeps :
    (operation : Json) (state : Decoded)
    → (process_operation operation state).0.search_results ≡ state.0.search_results
unfolding process_operation push
operation-keeps operation state = ground (arith)

operations-keeps :
    (operations : List Json) (state : Decoded)
    → (process_operations operations state).0.search_results ≡ state.0.search_results
unfolding process_operations
operations-keeps [] state = refl
operations-keeps (operation ∷ rest) state =
    operations-keeps rest (process_operation operation state) ∙ operation-keeps operation state

response-KeepsPublic :
    (host : Host) (chunk : Fields) (d : Decoder)
    → KeepsPublic host d
    → KeepsPublic host (process_response host chunk d).0
unfolding process_response
response-KeepsPublic host chunk d h =
    let p = get_field "p" chunk in
    let value = get_field "v" chunk in
    let operations = get_or (array_of value) [] in
    elim (Option-cases (record_of (member (record_of value) "response"))) [
      | inr (response, found) ↦
          let start = with_path d (boolean_of (get_field "thinking_enabled" response)) in
          rw (found, process_response)
            (fragments-KeepsPublic host (get_or (array_of (get_field "fragments" response)) [])
              (start, [])
              (with_path-KeepsPublic host d (boolean_of (get_field "thinking_enabled" response)) h))
      | inl none_named ↦
          rw (none_named, process_response)
            (if_both (DecodedPublic host) _ _ (is_text p "response/fragments")
              (fragments-KeepsPublic host operations (d, []) h)
              (if_both (DecodedPublic host) _ _ (is_text p "response")
                (subst (ArePublic host) (sym (operations-keeps operations (d, []))) h) h))
    ]

search_event-KeepsPublic :
    (host : Host) (chunk : Fields) (values : List Json) (state : Decoded)
    → KeepsPublic host state.0
    → KeepsPublic host (search_event host chunk values state).0
unfolding search_event
search_event-KeepsPublic host chunk values state h =
    if_both (ArePublic host) _ _ (is_text (get_field "o" chunk) "BATCH")
      (batch-ArePublic host values state.0.search_results h)
      (merge-ArePublic host values state.0.search_results h)

push_text-KeepsPublic :
    (host : Host) (value : Option Json) (state : Decoded)
    → KeepsPublic host state.0
    → KeepsPublic host (push_text value state).0
push_text-KeepsPublic host none state h = h
push_text-KeepsPublic host (some null) state h = h
push_text-KeepsPublic host (some (boolean b)) state h = h
push_text-KeepsPublic host (some (number n)) state h = h
push_text-KeepsPublic host (some (text s)) state h = push-KeepsPublic host s state h
push_text-KeepsPublic host (some (array items)) state h = h
push_text-KeepsPublic host (some (object o)) state h = h

pub process-KeepsPublic :
    (host : Host) (chunk : Fields) (d : Decoder)
    → KeepsPublic host d
    → KeepsPublic host (process host chunk d).0
unfolding process
process-KeepsPublic host chunk d h =
    let value = get_field "v" chunk in
    let state = process_response host chunk d in
    let kept = response-KeepsPublic host chunk d h in
    let pushes = push_text-KeepsPublic host value state kept in
    if_both (DecodedPublic host) _ _ (is_results_path (get_field "p" chunk))
      (elim (Option-cases (array_of value)) [
        | inl other ↦ rw (other) pushes
        | inr (values, found) ↦ rw (found) (search_event-KeepsPublic host chunk values state kept)
      ])
      pushes
