-- ===== src/Strings.antt =====
-- What the sources use of the language's texts: white space, trimming, prefixes, splitting into lines
-- and the replacements that their regular expressions make.
pub mod Lines
use Prim.Native.Char.{Char, code as code_point}
use Prim.Native.String
use Prim.Native.String.{◌++◌ as join}
use text.Mathlib.Text.{find?}
use chat2api_web_gateway.Prelude.{
  leb, ◌==◌, if◌then◌else◌, length, take, drop, All, ℕ, zero, suc, ◌+◌, ◌-◌, ◌*◌, ◌≤◌, String, ◌≡◌,
  refl, ap, Bool, true, false, ◌&&◌, ◌||◌, Option, none, some, List, [], ◌∷◌, arith,
}

abbrev pub Chars : Type 0
Chars = List Char

unfoldable pub chars : String → Chars
chars String.[] = []
chars (String.◌∷◌ c s) = c ∷ chars s

unfoldable pub text_of : Chars → String
text_of [] = ""
text_of (c ∷ cs) = String.◌∷◌ c (text_of cs)

-- `\s`, which is also what `trim` removes.
unfoldable pub is_space : Char → Bool
is_space c =
    let n = code_point c in
    (leb 9 n && leb n 13)
    || n == 32
    || n == 160
    || n == 0x1680
    || (leb 0x2000 n && leb n 0x200a)
    || n == 0x2028
    || n == 0x2029
    || n == 0x202f
    || n == 0x205f
    || n == 0x3000
    || n == 0xfeff

unfoldable pub is_digit : Char → Bool
is_digit c = leb b'0' (code_point c) && leb (code_point c) b'9'

unfoldable pub drop_while : (Char → Bool) → Chars → Chars
drop_while p [] = []
drop_while p (c ∷ cs) = if p c then drop_while p cs else c ∷ cs

abbrev pub reversed : Chars → Chars → Chars
reversed [] out = out
reversed (c ∷ cs) out = reversed cs (c ∷ out)

-- Both ends lose the characters that pass.
unfoldable pub strip : (Char → Bool) → Chars → Chars
unfolding drop_while
strip p cs = reversed (drop_while p (reversed (drop_while p cs) [])) []

unfoldable pub trim : String → String
unfolding chars text_of strip is_space
trim s = text_of (strip is_space (chars s))

unfoldable pub starts : Chars → Chars → Bool
starts [] cs = true
starts (w ∷ ws) [] = false
starts (w ∷ ws) (c ∷ cs) = code_point w == code_point c && starts ws cs

unfoldable pub starts_with : String → String → Bool
unfolding starts chars
starts_with s prefix = starts (chars prefix) (chars s)

-- `s.includes(t)`.
abbrev pub includes : String → String → Bool
includes s t = elim (find? s t) [ none ↦ false | some i ↦ true ]

-- `s.slice(n)`, on a text that starts with `n` characters of one unit.
unfoldable pub text_drop : ℕ → String → String
text_drop zero s = s
text_drop (suc n) String.[] = ""
text_drop (suc n) (String.◌∷◌ c s) = text_drop n s

-- All occurrences of a word go; the number counts what is left of one that was found.
unfoldable pub without_word : Chars → ℕ → Chars → Chars
unfolding starts
without_word word skip [] = []
without_word word (suc skip) (c ∷ cs) = without_word word skip cs
without_word word zero (c ∷ cs) =
    let found = without_word word (length word - 1) cs in
    let kept = c ∷ without_word word zero cs in if starts word (c ∷ cs) then found else kept

-- A text after which a run of digits ends with the closing character.
abbrev pub closes : Char → Chars → Bool
closes end [] = false
closes end (c ∷ cs) = code_point c == code_point end

unfoldable pub digits_then : Char → Chars → Bool
unfolding is_digit drop_while
digits_then end [] = false
digits_then end (c ∷ cs) = is_digit c && closes end (drop_while is_digit cs)

-- `.replace(/\[citation:(\d+)\]/g, '[$1]')`.
unfoldable pub without_citation_word : ℕ → Chars → Chars
unfolding starts digits_then chars
without_citation_word skip [] = []
without_citation_word (suc skip) (c ∷ cs) = without_citation_word skip cs
without_citation_word zero (c ∷ cs) =
    let found = c ∷ without_citation_word 9 cs in
    let kept = c ∷ without_citation_word zero cs in
    if starts (chars "[citation:") (c ∷ cs) && digits_then "]" (drop 10 (c ∷ cs))
    then found
    else kept

-- `.replace(/\s+/g, ' ')`; the test says whether a run has begun.
unfoldable pub single_spaces : Bool → Chars → Chars
unfolding is_space
single_spaces in_run [] = []
single_spaces in_run (c ∷ cs) =
    let inside = single_spaces true cs in
    let outside = c ∷ single_spaces false cs in
    if is_space c then (if in_run then inside else (" " ∷ inside)) else outside

-- The number that a text of digits writes, if it is one.
unfoldable pub digits_value : ℕ → Chars → Option ℕ
unfolding is_digit
digits_value n [] = some n
digits_value n (c ∷ cs) =
    let rest = digits_value (n * 10 + (code_point c - b'0')) cs in if is_digit c then rest else none

-- What holds of every character is kept where characters are only taken away.
module _ {κ} (P : Char → Type κ) where
  pub All-take : (n : ℕ) (cs : Chars) → All P cs → All P (take n cs)
  All-take zero cs h = tt
  All-take (suc n) [] h = tt
  All-take (suc n) (c ∷ cs) (p, h) = (p, All-take n cs h)

  All-reversed : (cs out : Chars) → All P cs → All P out → All P (reversed cs out)
  All-reversed [] out h g = g
  All-reversed (c ∷ cs) out (p, h) g = All-reversed cs (c ∷ out) h (p, g)

  All-drop_while : (test : Char → Bool) (cs : Chars) → All P cs → All P (drop_while test cs)
  unfolding drop_while
  All-drop_while test [] h = tt
  All-drop_while test (c ∷ cs) (p, h) = ground (arith, All-drop_while test cs h)

  pub strip-All : (test : Char → Bool) (cs : Chars) → All P cs → All P (strip test cs)
  unfolding strip
  strip-All test cs h =
      All-reversed _ _ (All-drop_while test _ (All-reversed _ _ (All-drop_while test cs h) tt)) tt

pub length-take-le : (n : ℕ) (cs : Chars) → length (take n cs) ≤ n
length-take-le zero cs = omega arith
length-take-le (suc n) [] = omega arith
length-take-le (suc n) (c ∷ cs) = omega (arith, length-take-le n cs)

pub chars-text_of : (cs : Chars) → chars (text_of cs) ≡ cs
unfolding chars text_of
chars-text_of [] = refl
chars-text_of (c ∷ cs) = ap (λ ds. c ∷ ds) (chars-text_of cs)

-- `slice` of a text is that of its characters.
pub text_of-drop : (n : ℕ) (s : String) → text_of (drop n (chars s)) ≡ text_drop n s
unfolding chars text_of text_drop
text_of-drop zero String.[] = refl
text_of-drop zero (String.◌∷◌ c s) = ap (String.◌∷◌ c) (text_of-drop zero s)
text_of-drop (suc n) String.[] = refl
text_of-drop (suc n) (String.◌∷◌ c s) = text_of-drop n s
