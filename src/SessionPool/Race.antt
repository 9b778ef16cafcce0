-- ===== src/SessionPool/Race.antt =====
-- What a release between two awaits of an `acquire` for the same key can lead to.
use mathlib.Core.Option.{get_or}
use mathlib.Core.Option
use chat2api_web_gateway.Prelude.{
  ◌==◌, filter, find, get_elem?, All, get, get-put_self, get-remove_self, ℕ, zero, suc, ◌+◌, ◌≤◌,
  String, ◌≡◌, refl, ◌∙◌, Bool, true, false, not, none, some, List, [], ◌∷◌, ◌++◌, arith,
}
use chat2api_web_gateway.SessionPool.{
  SessionEntry, DeepSeekSessionPool, Acquiring, entry_is, set_or_delete, entries_of, set_in_use,
  choose, holds, release,
}

find-filter-not : (a : ℕ) (xs : List ℕ) → find (λ b. b == a) (filter (λ b. not (b == a)) xs) ≡ none
find-filter-not a [] = refl
find-filter-not a (x ∷ xs) = ground (arith, find-filter-not a xs)

entries_of-set_or_delete :
    (key : String) (xs : List ℕ) (m : List (String × List ℕ))
    → get_or (get key (set_or_delete key xs m)) [] ≡ xs
entries_of-set_or_delete key [] m = rw (get-remove_self key m)
entries_of-set_or_delete key (x ∷ xs) m = rw (get-put_self key (x ∷ xs) m)

get-set_in_use :
    (es : List SessionEntry) (a : ℕ) (used : Bool) (e : SessionEntry)
    → get_elem? es a ≡ some e
    → get_elem? (set_in_use es a used) a ≡ some (record e { in_use = used })
get-set_in_use [] a used e h = cc
get-set_in_use (x ∷ es) zero used e h = ground arith
get-set_in_use (x ∷ es) (suc a) used e h = get-set_in_use es a used e h

abbrev retired_at : DeepSeekSessionPool → String → ℕ → DeepSeekSessionPool
retired_at p key a = record p {
  entries = set_in_use p.entries a false;
  sessions = set_or_delete key (filter (λ b. not (b == a)) (entries_of p key)) p.sessions;
  retired = p.retired + 1;
}

release-over :
    (p : DeepSeekSessionPool) (key : String) (a : ℕ) (e : SessionEntry) (now : ℕ)
    → get_elem? p.entries a ≡ some e
    → e.expires_at ≤ now
    → find (holds p e.session_id) (entries_of p key) ≡ some a
    → release p key e.session_id now ≡ (retired_at p key a, record { found = true; retired = true })
unfolding release
release-over p key a e now at over found = rw (found, release) (ground arith)

-- An entry that `find` in `choose` passes over, whichever other entry is released.
abbrev pub IsBusy : DeepSeekSessionPool → ℕ → Type 0
IsBusy p b = (e : SessionEntry) × (get_elem? p.entries b ≡ some e) × (e.in_use ≡ true)

get-set_in_use_other :
    (es : List SessionEntry) (a b : ℕ) (used : Bool)
    → (b == a) ≡ false
    → get_elem? (set_in_use es a used) b ≡ get_elem? es b
get-set_in_use_other [] a b used h = refl
get-set_in_use_other (x ∷ es) zero zero used h = absurd (ground (arith, h))
get-set_in_use_other (x ∷ es) zero (suc b) used h = refl
get-set_in_use_other (x ∷ es) (suc a) zero used h = refl
get-set_in_use_other (x ∷ es) (suc a) (suc b) used h =
    get-set_in_use_other es a b used (ground (arith, h))

find-idle :
    (p : DeepSeekSessionPool) (a : ℕ) (e : SessionEntry) (before others : List ℕ)
    → All (IsBusy p) before
    → get_elem? p.entries a ≡ some e
    → e.in_use ≡ false
    → find (λ b. entry_is p (λ s. not s.in_use) b) (before ++ a ∷ others) ≡ some a
find-idle p a e [] others busy at idle = ground (arith, at, idle)
find-idle p a e (b ∷ before) others ((s, there, used), busy) at idle =
    ground (arith, there, used, find-idle p a e before others busy at idle)

choose-idle :
    (p : DeepSeekSessionPool) (l : Acquiring) (a : ℕ) (e : SessionEntry)
    → find (λ b. entry_is p (λ s. not s.in_use) b) l.available ≡ some a
    → get_elem? p.entries a ≡ some e
    → Option.map (λ c. c.1) (choose p l)
      ≡ some (record { session_id = e.session_id; reused = true })
unfolding choose
choose-idle p l a e found at = rw (found, choose) (ground (arith, at))

still-IsBusy :
    (p : DeepSeekSessionPool) (key : String) (a : ℕ) (before : List ℕ)
    → All (λ b. (b == a) ≡ false) before
    → All (IsBusy p) before
    → All (IsBusy (retired_at p key a)) before
still-IsBusy p key a [] others busy = tt
still-IsBusy p key a (b ∷ before) (other, others) ((s, there, used), busy) = (
  (s, get-set_in_use_other p.entries a b false other ∙ there, used),
  still-IsBusy p key a before others busy,
)

-- An `acquire` that waits in its loop still has in `available` an entry that was in use when it
-- started. If that entry has run out and its holder releases it meanwhile, the release retires
-- it, so that the caller deletes the conversation upstream, and drops it from the maps. If every
-- entry that stands before it in `available` is another one and in use, the `acquire` then hands
-- the same conversation out as reused, and the pool does not track it.
pub release-choose :
    (p : DeepSeekSessionPool) (key : String) (l : Acquiring) (a : ℕ) (before others : List ℕ)
    (e : SessionEntry) (now : ℕ)
    → l.available ≡ before ++ a ∷ others
    → All (λ b. (b == a) ≡ false) before
    → All (IsBusy p) before
    → get_elem? p.entries a ≡ some e
    → e.expires_at ≤ now
    → find (holds p e.session_id) (entries_of p key) ≡ some a
    → let (q, r) = release p key e.session_id now in
      (r ≡ record { found = true; retired = true })
      × (find (λ b. b == a) (entries_of q key) ≡ none)
      × (Option.map (λ c. c.1) (choose q l)
          ≡ some (record { session_id = e.session_id; reused = true }))
release-choose p key l a before others e now listed apart busy at over found =
    let q = retired_at p key a in
    let idle : SessionEntry = record e { in_use = false } in
    let at' = get-set_in_use p.entries a false e at in
    let free = find-idle q a idle before others (still-IsBusy p key a before apart busy) at' refl in
    rw (release-over p key a e now at over found) (
      refl,
      rw (entries_of-set_or_delete key (filter (λ b. not (b == a)) (entries_of p key)) p.sessions)
          (find-filter-not a (entries_of p key)),
      choose-idle q l a idle (rw (listed) free) at',
    )
