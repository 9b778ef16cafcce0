-- ===== src/SessionPool/Rising.antt =====
-- Arrays of addresses: they rise, and the filters of `acquire` split them.
use mathlib.Core.Option.{get_or}
use chat2api_web_gateway.Prelude.{
  ◌==◌, Option-cases, length, filter, find, get_elem?_of_lt, All, All-append, All-filter, get,
  HasDistinctKeys, put-HasDistinctKeys, remove-HasDistinctKeys, AllValues, put-AllValues,
  remove-AllValues, get-AllValues, weight, weight-put, weight-remove, ℕ, zero, suc, ◌+◌, ◌≤◌, ◌<◌,
  String, ◌≡◌, refl, inl, inr, Bool, not, some, List, [], ◌∷◌, ◌++◌, arith,
}
use chat2api_web_gateway.SessionPool.{
  SessionEntry, DeepSeekSessionPool, entry_is, is_expired, is_available, set_or_delete, entries_of,
  set_in_use, mark,
}

-- Addresses rise along an array and stay below the bound.
abbrev pub Rising : ℕ → List ℕ → Type 0
Rising n [] = Unit {0}
Rising n (a ∷ as') = (a < n) × All (λ b. a < b) as' × Rising n as'

pub Rising-mono : (m n : ℕ) (xs : List ℕ) → m ≤ n → Rising m xs → Rising n xs
Rising-mono m n [] h r = tt
Rising-mono m n (a ∷ xs) h (p, q, r) = (omega arith, q, Rising-mono m n xs h r)

pub Rising-filter : (n : ℕ) (t : ℕ → Bool) (xs : List ℕ) → Rising n xs → Rising n (filter t xs)
Rising-filter n t [] r = tt
Rising-filter n t (a ∷ xs) (p, q, r) =
    ground (arith, Rising-filter n t xs r, All-filter (λ b. a < b) t xs q)

pub All-lt-concat :
    (a n : ℕ) (xs : List ℕ) → a < n → All (λ b. a < b) xs → All (λ b. a < b) (xs ++ n ∷ [])
All-lt-concat a n xs h q = All-append (λ b. a < b) xs (n ∷ []) q (h, tt)

pub Rising-concat : (n : ℕ) (xs : List ℕ) → Rising n xs → Rising (suc n) (xs ++ n ∷ [])
Rising-concat n [] r = (omega arith, tt, tt)
Rising-concat n (a ∷ xs) (p, q, r) = (omega arith, All-lt-concat a n xs p q, Rising-concat n xs r)

pub filter_above : (a : ℕ) (xs : List ℕ) → All (λ b. a < b) xs → filter (λ b. not (b == a)) xs ≡ xs
filter_above a [] h = refl
filter_above a (x ∷ xs) (p, h) = ground (arith, filter_above a xs h)

-- Taking an entry that was found out of its array makes it one shorter.
pub length-filter-find :
    (n a : ℕ) (t : ℕ → Bool) (xs : List ℕ)
    → Rising n xs
    → find t xs ≡ some a
    → length (filter (λ b. not (b == a)) xs) + 1 ≡ length xs
length-filter-find n a t [] r e = cc
length-filter-find n a t (x ∷ xs) (p, q, r) e =
    ground (arith, filter_above x xs q, length-filter-find n a t xs r)

pub set_or_delete-HasDistinctKeys :
    (k : String) (xs : List ℕ) (m : List (String × List ℕ))
    → HasDistinctKeys m
    → HasDistinctKeys (set_or_delete k xs m)
set_or_delete-HasDistinctKeys k [] m h = remove-HasDistinctKeys k m h
set_or_delete-HasDistinctKeys k (x ∷ xs) m h = put-HasDistinctKeys k (x ∷ xs) m h

pub set_or_delete-AllValues :
    (P : List ℕ → Type 0) (k : String) (xs : List ℕ) (m : List (String × List ℕ))
    → P xs
    → AllValues P m
    → AllValues P (set_or_delete k xs m)
set_or_delete-AllValues P k [] m p h = remove-AllValues P k m h
set_or_delete-AllValues P k (x ∷ xs) m p h = put-AllValues P k (x ∷ xs) m p h

pub weight-set_or_delete :
    (k : String) (xs : List ℕ) (m : List (String × List ℕ))
    → HasDistinctKeys m
    → weight length (set_or_delete k xs m) + length (get_or (get k m) [])
      ≡ weight length m + length xs
weight-set_or_delete k [] m h = ground (arith, weight-remove length k m h)
weight-set_or_delete k (x ∷ xs) m h = ground (arith, weight-put length k (x ∷ xs) m)

pub entries_of-Rising :
    (p : DeepSeekSessionPool) (k : String)
    → AllValues (Rising (length p.entries)) p.sessions
    → Rising (length p.entries) (entries_of p k)
entries_of-Rising p k h = elim (Option-cases (get k p.sessions)) [
  | inl e ↦ rw e tt
  | inr (xs, e) ↦ rw e (get-AllValues (Rising (length p.entries)) k p.sessions xs h e)
]

-- The two filters of `acquire` split the entries of a key.
pub split-entries :
    (p : DeepSeekSessionPool) (now : ℕ) (xs : List ℕ)
    → Rising (length p.entries) xs
    → length (filter (λ a. entry_is p (is_available now) a) xs)
        + length (filter (λ a. entry_is p (is_expired now) a) xs)
      ≡ length xs
split-entries p now [] r = refl
split-entries p now (a ∷ xs) (b, q, r) =
    let (e, here) = get_elem?_of_lt p.entries a b in ground (arith, here, split-entries p now xs r)

pub length-set_in_use :
    (es : List SessionEntry) (a : ℕ) (used : Bool) → length (set_in_use es a used) ≡ length es
length-set_in_use [] a used = refl
length-set_in_use (e ∷ es) zero used = refl
length-set_in_use (e ∷ es) (suc a) used = omega (arith, length-set_in_use es a used)

pub mark-Rising :
    (p : DeepSeekSessionPool) (a : ℕ) (used : Bool)
    → AllValues (Rising (length p.entries)) p.sessions
    → AllValues (Rising (length (mark p a used).entries)) p.sessions
mark-Rising p a used h = rw (length-set_in_use p.entries a used) h
