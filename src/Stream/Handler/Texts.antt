-- ===== src/Stream/Handler/Texts.antt =====
-- The `data` listener of `handleStream` (deepseek-stream.ts) on the texts of the pieces of a response.
use Prim.Native.String.{◌++◌ as join}
use text.Mathlib.TextLemmas.{append_assoc}
use mathlib.Core.Logic.{inl, inr}
use chat2api_web_gateway.Stream.Errors.{Host}
use chat2api_web_gateway.Stream.Handler.{
  Reply, State, read_line, handle_line, handle_lines, on_text,
}
use chat2api_web_gateway.Strings.Lines.{split_lines, after_lines, split_lines-join}
use chat2api_web_gateway.Prelude.{
  if◌then◌else◌, Bool-cases, String, ◌≡◌, refl, sym, ◌∙◌, subst, true, false, List, [], ◌∷◌, ◌++◌,
  arith,
}

-- What is left to do after some lines.
handle_lines-append :
    (host : Host) (ls ms : List String) (r : Reply)
    → r.is_done ≡ false
    → handle_lines host (ls ++ ms) r ≡ (
        if (handle_lines host ls r).is_done
        then handle_lines host ls r
        else handle_lines host ms (handle_lines host ls r))
unfolding handle_lines
handle_lines-append host [] ms r h = rw (h) refl
handle_lines-append host (l ∷ ls) ms r h =
    elim (Bool-cases (handle_line host (read_line host l) r).is_done) [
      | inl ended ↦ rw (ended) (rw (ended) refl)
      | inr goes_on ↦
          rw (goes_on)
            (handle_lines-append host ls ms (handle_line host (read_line host l) r) goes_on)
    ]

-- What the client sees of two states and what they read from now on: the rest of a line matters only
-- while the reply is not done.
pub record IsSame (a b : State) : Type 0 where
  pub reply : a.reply ≡ b.reply
  pub buffer : a.reply.is_done ≡ false → a.buffer ≡ b.buffer

abbrev pub fed : Host → List String × String → Reply → State
fed host split r = record { reply = handle_lines host split.0 r; buffer = split.1 }

pub on_text-done :
    (host : Host) (s : String) (st : State) → st.reply.is_done ≡ true → on_text host s st ≡ st
unfolding on_text
on_text-done host s st h = rw (h) refl

-- A reply that is not done reads the lines that are complete.
pub on_text-goes_on :
    (host : Host) (s : String) (st : State)
    → st.reply.is_done ≡ false
    → on_text host s st ≡ fed host (split_lines (join st.buffer s)) st.reply
unfolding on_text
on_text-goes_on host s st h = rw (h) refl

on_text-fed :
    (host : Host) (split : List String × String) (t : String) (r : Reply)
    → r.is_done ≡ false
    → IsSame (on_text host t (fed host split r)) (fed host (after_lines split t) r)
unfolding after_lines
on_text-fed host split t r h =
    let later = split_lines (join split.1 t) in
    let mid = handle_lines host split.0 r in
    elim (Bool-cases mid.is_done) [
      | inl ended ↦ rw (on_text-done host t (fed host split r) ended) (record {
        reply = rw (handle_lines-append host split.0 later.0 r h, ended) refl;
        buffer = λ open_still. absurd (ground arith);
      })
      | inr goes_on ↦ rw (on_text-goes_on host t (fed host split r) goes_on) (record {
        reply = rw (handle_lines-append host split.0 later.0 r h, goes_on) refl;
        buffer = λ open_still. refl;
      })
    ]

pub State-eq : {a b : State} → a.reply ≡ b.reply → a.buffer ≡ b.buffer → a ≡ b
State-eq p q = λ i. record { reply = p i; buffer = q i }

pub IsSame-refl : (a : State) → IsSame a a
IsSame-refl a = record { reply = refl; buffer = λ open_still. refl }

on_text_twice :
    (host : Host) (s t : String) (st : State)
    → IsSame (on_text host t (on_text host s st)) (on_text host (join s t) st)
on_text_twice host s t st = elim (Bool-cases st.reply.is_done) [
  | inl ended ↦
      rw
        (
          on_text-done host s st ended,
          on_text-done host t st ended,
          on_text-done host (join s t) st ended,
        )
        (IsSame-refl st)
  | inr goes_on ↦
      rw
        (
          on_text-goes_on host s st goes_on,
          on_text-goes_on host (join s t) st goes_on,
          sym (append_assoc st.buffer s t),
          split_lines-join (join st.buffer s) t,
        )
        (on_text-fed host (split_lines (join st.buffer s)) t st.reply goes_on)
]

on_text-IsSame :
    (host : Host) (s : String) (a b : State)
    → IsSame a b
    → IsSame (on_text host s a) (on_text host s b)
on_text-IsSame host s a b h = elim (Bool-cases a.reply.is_done) [
  | inl ended ↦
      let ended_too : b.reply.is_done ≡ true = subst (λ r. r.is_done ≡ true) h.reply ended in
      rw (on_text-done host s a ended, on_text-done host s b ended_too) h
  | inr goes_on ↦
      subst (λ c. IsSame (on_text host s a) (on_text host s c))
        (State-eq h.reply (h.buffer goes_on)) (IsSame-refl (on_text host s a))
]

pub IsSame-trans : {a b c : State} → IsSame a b → IsSame b c → IsSame a c
IsSame-trans h k = record {
  reply = h.reply ∙ k.reply;
  buffer = λ open_still.
      h.buffer open_still ∙ k.buffer (subst (λ r. r.is_done ≡ false) h.reply open_still);
}

-- The listener of `data` for the texts of the pieces.
unfoldable pub deliver_texts : Host → List String → State → State
unfolding on_text
deliver_texts host [] st = st
deliver_texts host (s ∷ pieces) st = deliver_texts host pieces (on_text host s st)

unfoldable pub concat_from : String → List String → String
concat_from s [] = s
concat_from s (t ∷ pieces) = concat_from (join s t) pieces

deliver_texts-IsSame :
    (host : Host) (pieces : List String) (a b : State)
    → IsSame a b
    → IsSame (deliver_texts host pieces a) (deliver_texts host pieces b)
unfolding deliver_texts
deliver_texts-IsSame host [] a b h = h
deliver_texts-IsSame host (s ∷ pieces) a b h =
    deliver_texts-IsSame host pieces (on_text host s a) (on_text host s b)
      (on_text-IsSame host s a b h)

pub deliver_texts-concat :
    (host : Host) (s : String) (pieces : List String) (st : State)
    → IsSame (deliver_texts host (s ∷ pieces) st) (on_text host (concat_from s pieces) st)
unfolding deliver_texts concat_from
deliver_texts-concat host s [] st = IsSame-refl (on_text host s st)
deliver_texts-concat host s (t ∷ pieces) st =
    IsSame-trans
      (deliver_texts-IsSame host pieces (on_text host t (on_text host s st))
        (on_text host (join s t) st) (on_text_twice host s t st))
      (deliver_texts-concat host (join s t) pieces st)
