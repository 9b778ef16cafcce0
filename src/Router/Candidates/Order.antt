-- ===== src/Router/Candidates/Order.antt =====
-- The order in which candidates are tried.
use mathlib.Core.List.{Perm, perm_append_comm}
use mathlib.Core.List.Perm
use mathlib.Core.Option.{get_or}
use chat2api_web_gateway.Prelude.{
  leb, Bool-cases, length, get_elem?, take, drop, head?, sort-perm, sort_by, IsSorted,
  sort_by-IsSorted, ℕ, zero, suc, ◌+◌, ◌%◌, ◌<◌, ◌≡◌, refl, subst, inl, inr, List, [], ◌∷◌, ◌++◌,
  arith,
}
use chat2api_web_gateway.Router.Types.{
  LoadBalanceStrategy, round_robin, least_used, failover, AccountSelection, ProviderRoutingEngine,
}
use chat2api_web_gateway.Router.Candidates.{order_with, order_candidates}

take-drop : {A : Type 0} (n : ℕ) (xs : List A) → take n xs ++ drop n xs ≡ xs
take-drop zero xs = refl
take-drop (suc n) [] = refl
take-drop (suc n) (x ∷ xs) = rw (take-drop n xs)

head-drop :
    {A : Type 0} (n : ℕ) (xs ys : List A) → n < length xs → head? (drop n xs ++ ys) ≡ get_elem? xs n
head-drop n [] ys h = absurd (omega arith)
head-drop zero (x ∷ xs) ys h = refl
head-drop (suc n) (x ∷ xs) ys h = head-drop n xs ys (omega arith)

rotate-perm : {A : Type 0} (n : ℕ) (xs : List A) → Perm (drop n xs ++ take n xs) xs
rotate-perm n xs =
    subst (Perm (drop n xs ++ take n xs)) (take-drop n xs)
      (perm_append_comm (drop n xs) (take n xs))

-- The key by which a strategy sorts.
abbrev pub strategy_key : LoadBalanceStrategy → AccountSelection → ℕ
strategy_key least_used s = get_or s.account.usage_window_used 0
strategy_key _ s = s.account.created_at

-- What a strategy promises of the order and of the cursor.
abbrev pub IsOrderOf :
    LoadBalanceStrategy → ℕ → List AccountSelection → List AccountSelection → ℕ → Type 0
IsOrderOf round_robin cursor xs ys cursor' =
    let sorted = sort_by (strategy_key round_robin) xs in
    1 < length sorted
    → (head? ys ≡ get_elem? sorted (cursor % length sorted)) × (cursor' ≡ cursor + 1)
IsOrderOf s cursor xs ys cursor' = IsSorted (strategy_key s) ys × (cursor' ≡ cursor)

order_with_lem :
    (s : LoadBalanceStrategy) (cursor : ℕ) (xs : List AccountSelection)
    → let (ys, cursor') = order_with s cursor xs in Perm ys xs × IsOrderOf s cursor xs ys cursor'
unfolding order_with
order_with_lem least_used cursor xs =
    (sort-perm _ xs, (sort_by-IsSorted (strategy_key least_used) xs, refl))
order_with_lem failover cursor xs =
    (sort-perm _ xs, (sort_by-IsSorted (strategy_key failover) xs, refl))
order_with_lem round_robin cursor xs =
    let sorted = sort_by (strategy_key round_robin) xs in
    let keeps : Perm sorted xs =
      sort-perm (λ a b. leb a.account.created_at b.account.created_at) xs in
    elim (Bool-cases (leb (length sorted) 1)) [
      | inl short ↦ rw short (keeps, (λ h. absurd (ground arith)))
      | inr long ↦ rw long (
        Perm.trans (rotate-perm (cursor % length sorted) sorted) keeps,
        (λ h. (head-drop (cursor % length sorted) sorted _ (omega arith), refl)),
      )
    ]

-- For each strategy the order is a reordering of the candidates. By use and in failover the key of
-- the strategy rises along it and the cursor stays; in turn, with two candidates or more, it begins
-- at the place that the cursor names in the order of age, and the cursor moves on by one.
pub order_candidates-IsOrderOf :
    (e : ProviderRoutingEngine) (xs : List AccountSelection)
    → let (ys, e') = order_candidates e xs in
      Perm ys xs × IsOrderOf e.store.strategy e.round_robin_cursor xs ys e'.round_robin_cursor
unfolding order_candidates
order_candidates-IsOrderOf e xs = order_with_lem e.store.strategy e.round_robin_cursor xs
