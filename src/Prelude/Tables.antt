-- ===== src/Prelude/Tables.antt =====
-- A `Map` with text keys: entries in the order in which their keys were first set.
use Prim.Native.String.{String}
use Prim.Native.Nat.{ℕ, ◌+◌}
use mathlib.Core.List.{List, [], ◌∷◌}
use mathlib.Core.Option.{Option, none, some}
use mathlib.Core.Path.{◌≡◌, refl, subst}
use mathlib.Core.Logic.{inl, inr}
use native.Mathlib.Omega.{arith}
use text.Mathlib.TextEquality.{eq_iff}
use chat2api_web_gateway.Prelude.Tests.{if◌then◌else◌, ◌===◌, ===_refl, Bool-cases}

module _ {ℓ} {V : Type ℓ} where
  unfoldable pub get : String → List (String × V) → Option V
  get k [] = none
  get k ((j, v) ∷ m) = if j === k then some v else get k m

  unfoldable pub put : String → V → List (String × V) → List (String × V)
  put k v [] = (k, v) ∷ []
  put k v ((j, w) ∷ m) = if j === k then (j, v) ∷ m else (j, w) ∷ put k v m

  unfoldable pub remove : String → List (String × V) → List (String × V)
  remove k [] = []
  remove k ((j, v) ∷ m) = if j === k then remove k m else (j, v) ∷ remove k m

  pub get-put :
      (k j : String) (v : V) (m : List (String × V))
      → get j (put k v m) ≡ (if k === j then some v else get j m)
  unfolding get put
  get-put k j v [] = refl
  get-put k j v ((i, w) ∷ m) = ground (arith, eq_iff k j, eq_iff i k, eq_iff i j, get-put k j v m)

  pub get-remove :
      (k j : String) (m : List (String × V))
      → get j (remove k m) ≡ (if k === j then none else get j m)
  unfolding get remove
  get-remove k j [] = ground arith
  get-remove k j ((i, w) ∷ m) = ground (arith, eq_iff k j, eq_iff i k, eq_iff i j, get-remove k j m)

  pub get-put_self : (k : String) (v : V) (m : List (String × V)) → get k (put k v m) ≡ some v
  get-put_self k v m = simp (get-put, ===_refl)

  pub get-remove_self : (k : String) (m : List (String × V)) → get k (remove k m) ≡ none
  get-remove_self k m = simp (get-remove, ===_refl)

  -- The keys of a `Map` are distinct.
  abbrev pub HasDistinctKeys : List (String × V) → Type ℓ
  HasDistinctKeys [] = Unit
  HasDistinctKeys ((k, v) ∷ m) = (get k m ≡ none) × HasDistinctKeys m

  pub put-HasDistinctKeys :
      (k : String) (v : V) (m : List (String × V)) → HasDistinctKeys m → HasDistinctKeys (put k v m)
  unfolding put get
  put-HasDistinctKeys k v [] h = (refl, tt)
  put-HasDistinctKeys k v ((j, w) ∷ m) (h, hs) =
      ground (arith, eq_iff j k, eq_iff k j, get-put k j v m, put-HasDistinctKeys k v m hs)

  pub remove-HasDistinctKeys :
      (k : String) (m : List (String × V)) → HasDistinctKeys m → HasDistinctKeys (remove k m)
  unfolding remove get
  remove-HasDistinctKeys k [] h = tt
  remove-HasDistinctKeys k ((j, w) ∷ m) (h, hs) =
      ground (arith, eq_iff j k, eq_iff k j, get-remove k j m, remove-HasDistinctKeys k m hs)

  pub remove_absent : (k : String) (m : List (String × V)) → get k m ≡ none → remove k m ≡ m
  unfolding remove get
  remove_absent k [] h = refl
  remove_absent k ((j, w) ∷ m) h = ground (arith, remove_absent k m)

  -- What holds of every value.
  module _ {κ} (P : V → Type κ) where
    abbrev pub AllValues : List (String × V) → Type κ
    AllValues [] = Unit
    AllValues ((k, v) ∷ m) = P v × AllValues m

    pub put-AllValues :
        (k : String) (v : V) (m : List (String × V)) → P v → AllValues m → AllValues (put k v m)
    unfolding put
    put-AllValues k v [] p h = (p, tt)
    put-AllValues k v ((j, w) ∷ m) p (q, h) = ground (arith, put-AllValues k v m p h)

    pub remove-AllValues :
        (k : String) (m : List (String × V)) → AllValues m → AllValues (remove k m)
    unfolding remove
    remove-AllValues k [] h = tt
    remove-AllValues k ((j, w) ∷ m) (q, h) = ground (arith, remove-AllValues k m h)

    pub get-AllValues :
        (k : String) (m : List (String × V)) (v : V) → AllValues m → get k m ≡ some v → P v
    unfolding get
    get-AllValues k [] v h e = cc
    get-AllValues k ((j, w) ∷ m) v (q, h) e = elim (Bool-cases (j === k)) [
      | inl here ↦ let same : w ≡ v = ground arith in subst P same q
      | inr later ↦ get-AllValues k m v h (ground arith)
    ]

  pub AllValues-mono {κ μ} :
      (P : V → Type κ) (Q : V → Type μ) (m : List (String × V))
      → ((v : V) → P v → Q v)
      → AllValues P m
      → AllValues Q m
  AllValues-mono P Q [] f h = tt
  AllValues-mono P Q ((k, v) ∷ m) f (p, h) = (f v p, AllValues-mono P Q m f h)

  -- The sum of a measure over the values.
  module _ (f : V → ℕ) where
    abbrev pub weight : List (String × V) → ℕ
    weight [] = 0
    weight ((k, v) ∷ m) = f v + weight m

    abbrev pub weight_at : String → List (String × V) → ℕ
    weight_at k m = elim (get k m) [ none ↦ 0 | some v ↦ f v ]

    pub weight-put :
        (k : String) (v : V) (m : List (String × V))
        → weight (put k v m) + weight_at k m ≡ weight m + f v
    unfolding put get
    weight-put k v [] = omega arith
    weight-put k v ((j, w) ∷ m) = ground (arith, weight-put k v m)

    pub weight-remove :
        (k : String) (m : List (String × V))
        → HasDistinctKeys m
        → weight (remove k m) + weight_at k m ≡ weight m
    unfolding remove get
    weight-remove k [] h = omega arith
    weight-remove k ((j, w) ∷ m) (h, hs) =
        ground (arith, eq_iff j k, remove_absent k m, weight-remove k m hs)
