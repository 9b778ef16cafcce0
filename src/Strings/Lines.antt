-- ===== src/Strings/Lines.antt =====
-- Lines: `split('\n')` and what `pop()` leaves of it.
use Prim.Native.Char.{Char, code as code_point}
use Prim.Native.String.{◌++◌ as join}
use Prim.Native.String.append
use mathlib.Core.Logic.{inl, inr}
use chat2api_web_gateway.Prelude.{
  ◌==◌, if◌then◌else◌, Bool-cases, String, ◌≡◌, refl, sym, ap, ◌∙◌, List, [], ◌∷◌, ◌++◌,
}

abbrev onto_first : Char → List String → String → List String × String
onto_first c [] rest = ([], String.◌∷◌ c rest)
onto_first c (l ∷ ls) rest = (String.◌∷◌ c l ∷ ls, rest)

-- A character in front of the split text.
abbrev before_lines : Char → List String × String → List String × String
before_lines c split =
    if code_point c == 10 then ("" ∷ split.0, split.1) else onto_first c split.0 split.1

-- The lines that are complete, and the rest after the last of them.
unfoldable pub split_lines : String → List String × String
split_lines String.[] = ([], "")
split_lines (String.◌∷◌ c s) = before_lines c (split_lines s)

unfoldable pub after_lines : List String × String → String → List String × String
unfolding split_lines
after_lines split t = let more = split_lines (join split.1 t) in (split.0 ++ more.0, more.1)

split_lines-cons_join :
    (c : Char) (s t : String)
    → split_lines (join (String.◌∷◌ c s) t) ≡ before_lines c (split_lines (join s t))
unfolding split_lines
split_lines-cons_join c s t = ap split_lines (append.cons c s t)

before_lines-after_lines :
    (c : Char) (ls : List String) (rest t : String)
    → after_lines (before_lines c (ls, rest)) t ≡ before_lines c (after_lines (ls, rest) t)
unfolding after_lines
before_lines-after_lines c [] rest t = elim (Bool-cases (code_point c == 10)) [
  | inl new ↦ rw (new) refl
  | inr same ↦ rw (same, split_lines-cons_join c rest t) (rw (same) refl)
]
before_lines-after_lines c (l ∷ ls) rest t = elim (Bool-cases (code_point c == 10)) [
  | inl new ↦ rw (new) refl
  | inr same ↦ rw (same) refl
]

-- The lines of two texts in a row: those of the first, then those of its rest and the second.
pub split_lines-join : (s t : String) → split_lines (join s t) ≡ after_lines (split_lines s) t
unfolding split_lines after_lines
split_lines-join String.[] t = refl
split_lines-join (String.◌∷◌ c s) t =
    split_lines-cons_join c s t
    ∙ ap (before_lines c) (split_lines-join s t)
    ∙ sym (before_lines-after_lines c (split_lines s).0 (split_lines s).1 t)
