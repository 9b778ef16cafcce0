-- ===== src/SessionPool/Leases.antt =====
-- Which conversation a call of `acquire` hands out.

use chat2api_web_gateway.Prelude.{
  Bool-cases, Option-cases, filter, find, get_elem?, All, filter-All, ℕ, zero, suc, ◌<◌, String,
  ◌≡◌, subst, inl, inr, Bool, true, false, not, some, List, [], ◌∷◌, arith,
}
use chat2api_web_gateway.SessionPool.{
  DeepSeekSessionLease, SessionEntry, DeepSeekSessionPool, entry_is, is_available, entries_of,
  acquire_start, set_in_use, choose,
}

get-set_in_use :
    (es : List SessionEntry) (a : ℕ) (used : Bool) (e : SessionEntry)
    → get_elem? es a ≡ some e
    → get_elem? (set_in_use es a used) a ≡ some (record e { in_use = used })
get-set_in_use [] a used e h = cc
get-set_in_use (x ∷ es) zero used e h = ground arith
get-set_in_use (x ∷ es) (suc a) used e h = get-set_in_use es a used e h

-- What `find` returns passes the test, and stands in the list.
find_sound : {A : Type 0} (t : A → Bool) (xs : List A) (a : A) → find t xs ≡ some a → t a ≡ true
find_sound t [] a e = cc
find_sound t (x ∷ xs) a e = elim (Bool-cases (t x)) [
  | inl here ↦ let same : x ≡ a = ground arith in subst (λ y. t y ≡ true) same here
  | inr later ↦ find_sound t xs a (ground arith)
]

find-All :
    {A : Type 0} (P : A → Type 0) (t : A → Bool) (xs : List A) (a : A)
    → All P xs
    → find t xs ≡ some a
    → P a
find-All P t [] a h e = cc
find-All P t (x ∷ xs) a (p, h) e = elim (Bool-cases (t x)) [
  | inl here ↦ let same : x ≡ a = ground arith in subst P same p
  | inr later ↦ find-All P t xs a h (ground arith)
]

entry_is-some :
    (p : DeepSeekSessionPool) (t : SessionEntry → Bool) (a : ℕ)
    → entry_is p t a ≡ true
    → (e : SessionEntry) × (get_elem? p.entries a ≡ some e) × (t e ≡ true)
entry_is-some p t a h = ground arith

-- What an uninterrupted `acquire` reuses was idle, had not run out, and is marked as in use; the
-- lease names that conversation.
pub acquire-reuses-idle :
    (p q : DeepSeekSessionPool) (key : String) (ttl_ms now : ℕ) (lease : DeepSeekSessionLease)
    → choose (acquire_start p key ttl_ms now).0 (acquire_start p key ttl_ms now).1 ≡ some (q, lease)
    → (a : ℕ) × (e : SessionEntry) × (get_elem? p.entries a ≡ some e)
      × (e.in_use ≡ false)
      × (now < e.expires_at)
      × (lease ≡ record { session_id = e.session_id; reused = true })
      × (get_elem? q.entries a ≡ some (record e { in_use = true }))
      × (q.sessions ≡ (acquire_start p key ttl_ms now).0.sessions)
unfolding acquire_start choose
acquire-reuses-idle p q key ttl_ms now lease h =
    elim (Option-cases (
      find (λ a. entry_is p (λ x. not x.in_use) a)
        (filter (λ a. entry_is p (is_available now) a) (entries_of p key)))) [
          | inl missing ↦ absurd (ground arith)
          | inr (a, found) ↦
              let idle = find_sound (λ b. entry_is p (λ x. not x.in_use) b) _ a found in
              let fresh =
                find-All (λ b. entry_is p (is_available now) b ≡ true)
                  (λ b. entry_is p (λ x. not x.in_use) b)
                  (filter (λ b. entry_is p (is_available now) b) (entries_of p key)) a
                  (filter-All (λ b. entry_is p (is_available now) b ≡ true)
                    (λ b. entry_is p (is_available now) b) (λ b t. t) (entries_of p key))
                  found in
              let (e, at, unused) = entry_is-some p (λ x. not x.in_use) a idle in
              (
                a,
                e,
                at,
                ground arith,
                ground arith,
                ground arith,
                ground (arith, get-set_in_use p.entries a true e at),
                ground arith,
              )
        ]
