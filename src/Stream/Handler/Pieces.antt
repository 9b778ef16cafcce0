-- ===== src/Stream/Handler/Pieces.antt =====
-- How the provider's response is cut into pieces (deepseek-stream.ts, the `data` listener of `handleStream`).
use Prim.Native.String.{◌++◌ as join}
use mathlib.Core.Logic.{inl, inr}
use chat2api_web_gateway.Stream.Errors.{Host, Chunk, byte_buffer, chunk_text}
use chat2api_web_gateway.Stream.Handler.{
  State, fail_stream, finish_stream, on_text, on_data, on_end,
}
use chat2api_web_gateway.Stream.Handler.Texts.{
  IsSame, fed, on_text-done, on_text-goes_on, State-eq, deliver_texts, concat_from,
  deliver_texts-concat,
}
use chat2api_web_gateway.Strings.Lines.{split_lines}
use chat2api_web_gateway.Prelude.{
  Bool-cases, ℕ, ◌≡◌, refl, sym, ap, ◌∙◌, subst, true, false, List, [], ◌∷◌, ◌++◌, map, arith,
}

pub on_data-done :
    (host : Host) (c : Chunk) (st : State) → st.reply.is_done ≡ true → on_data host c st ≡ st
unfolding on_data
on_data-done host c st h = on_text-done host (chunk_text host c) st h

pub on_data-goes_on :
    (host : Host) (c : Chunk) (st : State)
    → st.reply.is_done ≡ false
    → on_data host c st ≡ fed host (split_lines (join st.buffer (chunk_text host c))) st.reply
unfolding on_data
on_data-goes_on host c st h = on_text-goes_on host (chunk_text host c) st h

-- A reply that is done stays as it is at the end of the response.
pub on_end-done :
    (host : Host) (now : ℕ) (st : State)
    → st.reply.is_done ≡ true
    → (on_end host now st).reply ≡ st.reply
unfolding on_end fail_stream finish_stream
on_end-done host now st h = ground (arith)

on_end-reply :
    (host : Host) (now : ℕ) (a b : State)
    → IsSame a b
    → (on_end host now a).reply ≡ (on_end host now b).reply
on_end-reply host now a b h = elim (Bool-cases a.reply.is_done) [
  | inl ended ↦
      let ended_too : b.reply.is_done ≡ true = subst (λ r. r.is_done ≡ true) h.reply ended in
      on_end-done host now a ended ∙ h.reply ∙ sym (on_end-done host now b ended_too)
  | inr goes_on ↦ ap (λ st. (on_end host now st).reply) (State-eq h.reply (h.buffer goes_on))
]

-- `source.on('data')` for each piece.
unfoldable pub deliver : Host → List Chunk → State → State
unfolding on_data
deliver host [] st = st
deliver host (c ∷ pieces) st = deliver host pieces (on_data host c st)

unfoldable pub concat_bytes : List ℕ → List (List ℕ) → List ℕ
concat_bytes bytes [] = bytes
concat_bytes bytes (b ∷ bs) = concat_bytes (bytes ++ b) bs

-- At each cut between two pieces, the bytes behind the cut have the same text alone as they have behind the
-- bytes before them: no cut falls inside of a character.
abbrev pub IsCutAtCharacters : Host → List ℕ → List (List ℕ) → Type 0
IsCutAtCharacters host bytes [] = Unit
IsCutAtCharacters host bytes (b ∷ bs) =
    (host.to_string (bytes ++ b) ≡ join (host.to_string bytes) (host.to_string b))
    × IsCutAtCharacters host (bytes ++ b) bs

deliver-buffers :
    (host : Host) (bs : List (List ℕ)) (st : State)
    → deliver host (map byte_buffer bs) st ≡ deliver_texts host (map (host.to_string) bs) st
unfolding deliver deliver_texts on_data chunk_text
deliver-buffers host [] st = refl
deliver-buffers host (b ∷ bs) st = deliver-buffers host bs (on_text host (host.to_string b) st)

concat_from-bytes :
    (host : Host) (bytes : List ℕ) (bs : List (List ℕ))
    → IsCutAtCharacters host bytes bs
    → concat_from (host.to_string bytes) (map (host.to_string) bs)
      ≡ host.to_string (concat_bytes bytes bs)
unfolding concat_from concat_bytes
concat_from-bytes host bytes [] h = refl
concat_from-bytes host bytes (b ∷ bs) (cut, h) =
    ap (λ s. concat_from s (map (host.to_string) bs)) (sym cut)
    ∙ concat_from-bytes host (bytes ++ b) bs h

-- However the network cuts the bytes of the response into buffers, where no cut falls inside of a
-- character, the client gets the same chunks and the account the same outcome as for the one buffer of all
-- the bytes, before the response ends and after it has ended.
pub handle_stream-pieces :
    (host : Host) (bytes : List ℕ) (bs : List (List ℕ)) (st : State) (now : ℕ)
    → IsCutAtCharacters host bytes bs
    → ((deliver host (map byte_buffer (bytes ∷ bs)) st).reply
        ≡ (on_data host (byte_buffer (concat_bytes bytes bs)) st).reply)
      × ((on_end host now (deliver host (map byte_buffer (bytes ∷ bs)) st)).reply
          ≡ (on_end host now (on_data host (byte_buffer (concat_bytes bytes bs)) st)).reply)
unfolding on_data chunk_text
handle_stream-pieces host bytes bs st now cuts =
    let texts = deliver_texts-concat host (host.to_string bytes) (map (host.to_string) bs) st in
    let same : IsSame (deliver host (map byte_buffer (bytes ∷ bs)) st)
        (on_data host (byte_buffer (concat_bytes bytes bs)) st) =
      subst (λ a. IsSame a (on_data host (byte_buffer (concat_bytes bytes bs)) st))
        (sym (deliver-buffers host (bytes ∷ bs) st))
        (subst
          (λ s.
            IsSame (deliver_texts host (map (host.to_string) (bytes ∷ bs)) st) (on_text host s st))
          (concat_from-bytes host bytes bs cuts) texts) in
    (same.reply, on_end-reply host now _ _ same)
