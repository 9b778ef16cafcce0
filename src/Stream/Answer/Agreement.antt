-- ===== src/Stream/Answer/Agreement.antt =====
-- The two handlers of deepseek-stream.ts read the same response in the same way.
use Prim.Native.String.{◌++◌ as join}
use Prim.Native.String.append
use text.Mathlib.TextLemmas.{append-nil, append_assoc}
use mathlib.Core.Logic.{◌⊎◌, inl, inr}
use chat2api_web_gateway.Stream.Errors.{Host, ProviderError, provider_error_from_chunk}
use chat2api_web_gateway.Stream.Decoder.{
  OutputPath, thinking, content, ContentDelta, Decoder, Decoded,
}
use chat2api_web_gateway.Stream.Handler.{
  Written, delta_chunk, stop_chunk, error_event, done_marker, Reply, write, cleanup, fail_stream,
  write_delta, write_deltas, handle_chunk, Line, blank, done, ignored, other, event, read_line,
  handle_line, handle_lines,
}
use chat2api_web_gateway.Stream.Answer.{
  Collected, collect_delta, collect_deltas, collect_line, and_then, collect_lines,
}
use chat2api_web_gateway.Stream.Json.{Fields}
use chat2api_web_gateway.Stream.Events.{process}
use chat2api_web_gateway.Stream.Handler.Settled.{fail_stream-done}
use chat2api_web_gateway.Prelude.{
  if◌then◌else◌, Option-cases, if_true, if_false, any, String, ◌≡◌, refl, sym, ap, ◌∙◌, subst, Bool,
  true, false, List, [], ◌∷◌, ◌++◌, arith,
}

abbrev on_path : OutputPath → OutputPath → Bool
on_path thinking thinking = true
on_path content content = true
on_path thinking content = false
on_path content thinking = false

abbrev spoken_of : OutputPath → Written → String
spoken_of path (delta_chunk d) = if on_path path d.delta.path then d.delta.value else ""
spoken_of path stop_chunk = ""
spoken_of path (error_event message code) = ""
spoken_of path done_marker = ""

-- The text that a client puts together from the chunks of one path.
abbrev pub spoken : OutputPath → List Written → String
spoken path [] = ""
spoken path (w ∷ ws) = join (spoken_of path w) (spoken path ws)

spoken-append :
    (path : OutputPath) (ws : List Written) (w : Written)
    → spoken path (ws ++ w ∷ []) ≡ join (spoken path ws) (spoken_of path w)
spoken-append path [] w = append-nil (spoken_of path w) ∙ sym (append.nil (spoken_of path w))
spoken-append path (v ∷ ws) w =
    ap (join (spoken_of path v)) (spoken-append path ws w)
    ∙ sym (append_assoc (spoken_of path v) (spoken path ws) (spoken_of path w))

-- A reply that goes on and what is collected agree.
pub record IsSameRead (r : Reply) (c : Collected) : Type 0 where
  pub is_done : r.is_done ≡ false
  pub decoder : r.decoder ≡ c.decoder
  pub content_text : spoken content r.written ≡ c.content_text
  pub reasoning_text : spoken thinking r.written ≡ c.reasoning_text
  pub non_sse_body : r.non_sse_body ≡ c.non_sse_body

-- Both go on in agreement, or both end with the same error.
abbrev pub AgreeOn : Reply → ProviderError ⊎ Collected → Type 0
AgreeOn r (inl e) =
    (r.is_done ≡ true) × ((before : Reply) × (r ≡ fail_stream e before) × (before.is_done ≡ false))
AgreeOn r (inr c) = IsSameRead r c

abbrev delta_of : OutputPath → String → ContentDelta
delta_of path value = record { path = path; value = value }

said :
    (path spoken_path : OutputPath) (value : String) (r : Reply)
    → spoken spoken_path (write_delta (delta_of path value) r).written
      ≡ join (spoken spoken_path r.written) (if on_path spoken_path path then value else "")
unfolding write_delta write
said path spoken_path value r =
    spoken-append spoken_path r.written
      (delta_chunk (record { has_role = r.is_first_chunk; delta = delta_of path value }))

write_value-IsSameRead :
    (path : OutputPath) (value : String) (r : Reply) (c : Collected)
    → IsSameRead r c
    → IsSameRead (write_delta (delta_of path value) r) (collect_delta (delta_of path value) c)
unfolding write_delta write collect_delta
write_value-IsSameRead thinking value r c h = record {
  is_done = h.is_done;
  decoder = h.decoder;
  content_text = said thinking content value r ∙ append-nil _ ∙ h.content_text;
  reasoning_text = said thinking thinking value r ∙ ap (λ s. join s value) h.reasoning_text;
  non_sse_body = h.non_sse_body;
}
write_value-IsSameRead content value r c h = record {
  is_done = h.is_done;
  decoder = h.decoder;
  content_text = said content content value r ∙ ap (λ s. join s value) h.content_text;
  reasoning_text = said content thinking value r ∙ append-nil _ ∙ h.reasoning_text;
  non_sse_body = h.non_sse_body;
}

write_delta-IsSameRead :
    (d : ContentDelta) (r : Reply) (c : Collected)
    → IsSameRead r c
    → IsSameRead (write_delta d r) (collect_delta d c)
write_delta-IsSameRead d r c h = write_value-IsSameRead d.path d.value r c h

fail_stream-AgreeOn :
    (e : ProviderError) (r : Reply) → r.is_done ≡ false → AgreeOn (fail_stream e r) (inl e)
unfolding fail_stream cleanup
fail_stream-AgreeOn e r h = (fail_stream-done e r, (r, refl, h))

write_deltas-IsSameRead :
    (ds : List ContentDelta) (r : Reply) (c : Collected)
    → IsSameRead r c
    → IsSameRead (write_deltas ds r) (collect_deltas ds c)
unfolding write_deltas collect_deltas
write_deltas-IsSameRead [] r c h = h
write_deltas-IsSameRead (d ∷ ds) r c h =
    write_deltas-IsSameRead ds (write_delta d r) (collect_delta d c)
      (write_delta-IsSameRead d r c h)

with_decoder-IsSameRead :
    (d e : Decoder) (r : Reply) (c : Collected)
    → d ≡ e
    → IsSameRead r c
    → IsSameRead (record r { decoder = d }) (record c { decoder = e })
with_decoder-IsSameRead d e r c same h = record {
  is_done = h.is_done;
  decoder = same;
  content_text = h.content_text;
  reasoning_text = h.reasoning_text;
  non_sse_body = h.non_sse_body;
}

decoded-IsSameRead :
    (p q : Decoded) (r : Reply) (c : Collected)
    → p ≡ q
    → IsSameRead r c
    → IsSameRead
        (write_deltas p.1 (record r { decoder = p.0 }))
        (collect_deltas q.1 (record c { decoder = q.0 }))
decoded-IsSameRead p q r c same h =
    subst
      (λ d.
        IsSameRead (write_deltas p.1 (record r { decoder = p.0 }))
          (collect_deltas d.1 (record c { decoder = d.0 })))
      same
      (write_deltas-IsSameRead p.1 (record r { decoder = p.0 }) (record c { decoder = p.0 })
        (with_decoder-IsSameRead p.0 p.0 r c refl h))

chunk-AgreeOn :
    (host : Host) (chunk : Fields) (r : Reply) (c : Collected)
    → IsSameRead r c
    → AgreeOn (handle_chunk host chunk r) (collect_line host (event chunk) c)
unfolding handle_chunk collect_line
chunk-AgreeOn host chunk r c h = elim (Option-cases (provider_error_from_chunk host chunk)) [
  | inr (e, found) ↦ rw (found, handle_chunk, collect_line) (fail_stream-AgreeOn e r h.is_done)
  | inl fine ↦
      rw (fine, handle_chunk, collect_line)
        (decoded-IsSameRead (process host chunk r.decoder) (process host chunk c.decoder) r c
          (ap (process host chunk) h.decoder) h)
]

abbrev is_done_line : Line → Bool
is_done_line done = true
is_done_line blank = false
is_done_line ignored = false
is_done_line (other s) = false
is_done_line (event chunk) = false

line-AgreeOn :
    (host : Host) (l : Line) (r : Reply) (c : Collected)
    → is_done_line l ≡ false
    → IsSameRead r c
    → AgreeOn (handle_line host l r) (collect_line host l c)
unfolding handle_line collect_line
line-AgreeOn host blank r c quiet h = h
line-AgreeOn host ignored r c quiet h = h
line-AgreeOn host done r c quiet h = absurd (ground arith)
line-AgreeOn host (event chunk) r c quiet h = chunk-AgreeOn host chunk r c h
line-AgreeOn host (other s) r c quiet h = record {
  is_done = h.is_done;
  decoder = h.decoder;
  content_text = h.content_text;
  reasoning_text = h.reasoning_text;
  non_sse_body = ap (λ b. join b s) h.non_sse_body;
}

-- Lines of which none is the marker that ends the stream are read by the two handlers in the same way: they
-- get the same decoder, the deltas that the one writes are the content and the reasoning that the other
-- collects, and where an event reports an error, both end with that error.
pub lines-AgreeOn :
    (host : Host) (ls : List String) (r : Reply) (c : Collected)
    → any (λ l. is_done_line (read_line host l)) ls ≡ false
    → IsSameRead r c
    → AgreeOn (handle_lines host ls r) (collect_lines host ls c)
unfolding handle_lines collect_lines
lines-AgreeOn host [] r c quiet h = h
lines-AgreeOn host (l ∷ ls) r c quiet h =
    goes_on (handle_line host (read_line host l) r) (collect_line host (read_line host l) c)
      (line-AgreeOn host (read_line host l) r c (ground (arith, quiet)) h)
      (λ r' c'. lines-AgreeOn host ls r' c' (ground (arith, quiet)))
  where
    goes_on :
        (r' : Reply) (read : ProviderError ⊎ Collected)
        → AgreeOn r' read
        → ((q : Reply) (d : Collected)
            → IsSameRead q d
            → AgreeOn (handle_lines host ls q) (collect_lines host ls d))
        → AgreeOn
            (if r'.is_done then r' else handle_lines host ls r')
            (and_then read (collect_lines host ls))
    goes_on r' (inl e) agrees rest =
        if_true (λ q. AgreeOn q (inl e)) r' (handle_lines host ls r') r'.is_done agrees.0 agrees
    goes_on r' (inr d) agrees rest =
        if_false (λ q. AgreeOn q (collect_lines host ls d)) r' (handle_lines host ls r') r'.is_done
          agrees.is_done (rest r' d agrees)
