-- ===== src/Prelude/Orders.antt =====
-- The stable sort that the source calls with a comparator.
use Prim.Native.Nat.{ℕ, ◌≤◌}
use mathlib.Core.Bool.{Bool}
use mathlib.Core.List.{List, [], ◌∷◌, Perm}
use mathlib.Core.List.Perm
use mathlib.Core.Logic.{inl, inr}
use mathlib.Core.Path.{◌≡◌, refl, subst}
use native.Mathlib.Omega.{arith}
use chat2api_web_gateway.Prelude.Tests.{if◌then◌else◌, leb, leb→le, Bool-cases}
use mathlib.Core.Option.{some}
use chat2api_web_gateway.Prelude.Lists.{All, head?}

module _ {ℓ} {A : Type ℓ} (before : A → A → Bool) where
  abbrev pub insert_sorted : A → List A → List A
  insert_sorted x [] = x ∷ []
  insert_sorted x (y ∷ ys) = if before x y then x ∷ y ∷ ys else y ∷ insert_sorted x ys

  -- `before x y` says that the comparator puts `x` first or finds no difference.
  abbrev pub sort : List A → List A
  sort [] = []
  sort (x ∷ xs) = insert_sorted x (sort xs)

  insert_sorted-perm : (x : A) (ys : List A) → Perm (insert_sorted x ys) (x ∷ ys)
  insert_sorted-perm x [] = Perm.refl _
  insert_sorted-perm x (y ∷ ys) = elim (Bool-cases (before x y)) [
    | inl first ↦ rw first (Perm.refl _)
    | inr later ↦ rw later (Perm.trans (Perm.cons y (insert_sorted-perm x ys)) (Perm.swap x y ys))
  ]

  -- Sorting keeps the items.
  pub sort-perm : (xs : List A) → Perm (sort xs) xs
  sort-perm [] = Perm.refl _
  sort-perm (x ∷ xs) = Perm.trans (insert_sorted-perm x (sort xs)) (Perm.cons x (sort-perm xs))

  module _ {κ} (P : A → Type κ) where
    insert_sorted-All : (x : A) (ys : List A) → P x → All P ys → All P (insert_sorted x ys)
    insert_sorted-All x [] p h = (p, tt)
    insert_sorted-All x (y ∷ ys) p (q, h) = elim (Bool-cases (before x y)) [
      | inl first ↦ rw first (p, (q, h))
      | inr later ↦ rw later (q, insert_sorted-All x ys p h)
    ]

    pub sort-All : (xs : List A) → All P xs → All P (sort xs)
    sort-All [] h = tt
    sort-All (x ∷ xs) (p, h) = insert_sorted-All x (sort xs) p (sort-All xs h)

    insert_sorted-All_rev : (x : A) (ys : List A) → All P (insert_sorted x ys) → P x × All P ys
    insert_sorted-All_rev x [] h = h
    insert_sorted-All_rev x (y ∷ ys) h = elim (Bool-cases (before x y)) [
      | inl first ↦ let h' : All P (x ∷ y ∷ ys) = rw first at h in h'
      | inr later ↦
          let h' : All P (y ∷ insert_sorted x ys) = rw later at h in
          let (p, q) = insert_sorted-All_rev x ys h'.1 in (p, (h'.0, q))
    ]

    pub sort-All_rev : (xs : List A) → All P (sort xs) → All P xs
    sort-All_rev [] h = tt
    sort-All_rev (x ∷ xs) h =
        let (p, q) = insert_sorted-All_rev x (sort xs) h in (p, sort-All_rev xs q)

module _ {ℓ} {A : Type ℓ} (key : A → ℕ) where
  -- `(left, right) => key(left) - key(right)`.
  abbrev pub sort_by : List A → List A
  sort_by = sort (λ x y. leb (key x) (key y))

  abbrev pub IsSorted : List A → Type 0
  IsSorted [] = Unit
  IsSorted (x ∷ xs) = All (λ y. key x ≤ key y) xs × IsSorted xs

  All-weaken : (a b : ℕ) (ys : List A) → a ≤ b → All (λ y. b ≤ key y) ys → All (λ y. a ≤ key y) ys
  All-weaken a b [] h p = tt
  All-weaken a b (y ∷ ys) h (q, p) = (omega arith, All-weaken a b ys h p)

  insert_sorted-IsSorted :
      (x : A) (ys : List A)
      → IsSorted ys
      → IsSorted (insert_sorted (λ a b. leb (key a) (key b)) x ys)
  insert_sorted-IsSorted x [] h = (tt, tt)
  insert_sorted-IsSorted x (y ∷ ys) (least, h) = elim (Bool-cases (leb (key x) (key y))) [
    | inl first ↦
        rw first
          ((leb→le _ _ first, All-weaken (key x) (key y) ys (leb→le _ _ first) least), (least, h))
    | inr later ↦ rw later (
      insert_sorted-All (λ a b. leb (key a) (key b)) (λ z. key y ≤ key z) x ys (ground arith) least,
      insert_sorted-IsSorted x ys h,
    )
  ]

  -- Sorting by a key puts the keys in order.
  pub sort_by-IsSorted : (xs : List A) → IsSorted (sort_by xs)
  sort_by-IsSorted [] = tt
  sort_by-IsSorted (x ∷ xs) = insert_sorted-IsSorted x (sort_by xs) (sort_by-IsSorted xs)

  -- The first of the sorted items has the least key.
  pub head-sort_by-le :
      (xs : List A) (x : A) → head? (sort_by xs) ≡ some x → All (λ y. key x ≤ key y) xs
  head-sort_by-le xs x e = least (sort_by xs) refl (sort_by-IsSorted xs)
    where
      least : (ys : List A) → ys ≡ sort_by xs → IsSorted ys → All (λ y. key x ≤ key y) xs
      least [] p h = absurd (ground arith)
      least (y ∷ ys) p (q, h) =
          let same : y ≡ x = ground arith in
          let q' : All (λ z. key x ≤ key z) ys = subst (λ w. All (λ z. key w ≤ key z) ys) same q in
          let all : All (λ z. key x ≤ key z) (y ∷ ys) = (ground (arith), q') in
          sort-All_rev (λ a b. leb (key a) (key b)) (λ z. key x ≤ key z) xs
            (subst (All (λ z. key x ≤ key z)) p all)
