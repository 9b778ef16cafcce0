-- ===== src/Prelude/Texts.antt =====
-- Texts: their order and their first characters.
use Prim.Native.Nat.{ℕ, zero, suc}
use Prim.Native.String.{String, compare}
use mathlib.Core.Bool.{Bool}
use text.Mathlib.Text.{is_lt}

-- `left < right` between texts.
abbrev pub is_before : String → String → Bool
is_before s t = is_lt (compare s t)

-- `text.slice(0, n)`, on a text whose characters are single units.
unfoldable pub text_take : ℕ → String → String
text_take zero s = ""
text_take (suc n) String.[] = ""
text_take (suc n) (String.◌∷◌ c s) = String.◌∷◌ c (text_take n s)
