-- ===== src/SessionPool/Counters.antt =====
-- The counters against the entries that the pool tracks.
use chat2api_web_gateway.Prelude.{
  ltb, ◌==◌, if◌then◌else◌, Bool-cases, Option-cases, length, filter, find, length-append, get,
  remove, HasDistinctKeys, put-HasDistinctKeys, remove-HasDistinctKeys, AllValues, put-AllValues,
  AllValues-mono, weight, weight_at, weight-put, weight-remove, ℕ, suc, ◌+◌, String, ◌≡◌, refl, inl,
  inr, Bool, true, false, not, none, some, List, [], ◌∷◌, ◌++◌, arith,
}
use chat2api_web_gateway.SessionPool.{
  DeepSeekSessionPool, Acquiring, new_pool, entry_is, is_available, entries_of, acquire_start,
  adopt, holds, remove_entry, release, invalidate, World, Event, starts, resumes, creates,
  create_fails, releases, invalidates, advance, step, run,
}
use chat2api_web_gateway.SessionPool.Rising.{
  Rising, Rising-mono, Rising-filter, Rising-concat, length-filter-find,
  set_or_delete-HasDistinctKeys, set_or_delete-AllValues, weight-set_or_delete, entries_of-Rising,
  split-entries, length-set_in_use, mark-Rising,
}

-- What the loop of a waiting `acquire` has still to retire.
abbrev pub owed : Acquiring → ℕ
owed l = if l.creating then 0 else length l.expired

abbrev pub tracked : World → ℕ
tracked w = weight length w.pool.sessions

abbrev pub still_owed : World → ℕ
still_owed w = weight owed w.acquiring

pub record IsValid (w : World) : Type 0 where
  pub keyed : HasDistinctKeys w.pool.sessions
  pub one_each : HasDistinctKeys w.acquiring
  pub rising : AllValues (Rising (length w.pool.entries)) w.pool.sessions
  pub balanced : w.pool.created ≡ w.pool.retired + w.pool.invalidated + tracked w + still_owed w

-- What the parts of `acquire` need and keep: `l` is the `acquire` of `key`, which may stand in
-- `others` already.
record IsPart (p : DeepSeekSessionPool) (others : List (String × Acquiring)) (key : String)
    (l : Acquiring) : Type 0 where
  keyed : HasDistinctKeys p.sessions
  one_each : HasDistinctKeys others
  rising : AllValues (Rising (length p.entries)) p.sessions
  balanced :
      p.created + weight_at owed key others
      ≡ p.retired + p.invalidated + weight length p.sessions + weight owed others + length l.expired
  looping : l.creating ≡ false

-- The turn of the loop, and what follows the loop.
advance-looping :
    (p : DeepSeekSessionPool) (others : List (String × Acquiring)) (key : String) (l : Acquiring)
    (a : ℕ) (rest : List ℕ)
    → l.expired ≡ a ∷ rest
    → IsPart p others key l
    → IsValid (advance p others key l)
unfolding advance
advance-looping p others key l a rest e v =
    let l' : Acquiring = record l { expired = rest } in
    rw (e, advance)
      (record {
        keyed = v.keyed;
        one_each = put-HasDistinctKeys key l' others v.one_each;
        rising = v.rising;
        balanced = ground (arith, v.balanced, weight-put owed key l' others);
      })

advance-done :
    (p : DeepSeekSessionPool) (others : List (String × Acquiring)) (key : String) (l : Acquiring)
    → l.expired ≡ []
    → IsPart p others key l
    → IsValid (advance p others key l)
unfolding advance
advance-done p others key l e v =
    elim (Option-cases (find (λ a. entry_is p (λ x. not x.in_use) a) l.available)) [
      | inl missing ↦
          let l' : Acquiring = record l { creating = true } in
          rw (e, missing, advance)
            (record {
              keyed = v.keyed;
              one_each = put-HasDistinctKeys key l' others v.one_each;
              rising = v.rising;
              balanced = ground (arith, v.balanced, weight-put owed key l' others);
            })
      | inr (a, found) ↦
          rw (e, found, advance)
            (record {
              keyed = v.keyed;
              one_each = remove-HasDistinctKeys key others v.one_each;
              rising = mark-Rising p a true v.rising;
              balanced = ground (arith, v.balanced, weight-remove owed key others v.one_each);
            })
    ]

advance-IsValid :
    (p : DeepSeekSessionPool) (others : List (String × Acquiring)) (key : String) (l : Acquiring)
    (left : List ℕ)
    → l.expired ≡ left
    → IsPart p others key l
    → IsValid (advance p others key l)
advance-IsValid p others key l [] e v = advance-done p others key l e v
advance-IsValid p others key l (a ∷ rest) e v = advance-looping p others key l a rest e v

starts-IsValid :
    (w : World) (key : String) (ttl_ms now : ℕ)
    → get key w.acquiring ≡ none
    → IsValid w
    → let (p, l) = acquire_start w.pool key ttl_ms now in IsPart p w.acquiring key l
unfolding acquire_start
starts-IsValid w key ttl_ms now e v =
    let existing = entries_of w.pool key in
    let rising = entries_of-Rising w.pool key v.rising in
    let available = filter (λ a. entry_is w.pool (is_available now) a) existing in
    record {
      keyed = set_or_delete-HasDistinctKeys key available w.pool.sessions v.keyed;
      one_each = v.one_each;
      rising =
          set_or_delete-AllValues (Rising (length w.pool.entries)) key available w.pool.sessions
            (Rising-filter _ (λ a. entry_is w.pool (is_available now) a) existing rising) v.rising;
      balanced =
          rw (e, weight_at)
            (omega (
              arith,
              v.balanced,
              split-entries w.pool now existing rising,
              weight-set_or_delete key available w.pool.sessions v.keyed,
            ));
      looping = refl;
    }

adopt-IsValid :
    (w : World) (key session_id : String) (l : Acquiring)
    → get key w.acquiring ≡ some l
    → l.creating ≡ true
    → IsValid w
    → IsValid
        (record { pool = (adopt w.pool key l session_id).0; acquiring = remove key w.acquiring })
unfolding adopt
adopt-IsValid w key session_id l e made v =
    let n = length w.pool.entries in
    let array = entries_of w.pool key in
    let longer : length (adopt w.pool key l session_id).0.entries ≡ suc n = omega (
      arith,
      length-append w.pool.entries (
          record { session_id = session_id; expires_at = l.current_time + l.ttl_ms; in_use = true }
          ∷ []),
    ) in
    record {
      keyed = put-HasDistinctKeys key (array ++ n ∷ []) w.pool.sessions v.keyed;
      one_each = remove-HasDistinctKeys key w.acquiring v.one_each;
      rising = rw longer (
          put-AllValues (Rising (suc n)) key (array ++ n ∷ []) w.pool.sessions
            (Rising-concat n array (entries_of-Rising w.pool key v.rising))
            (AllValues-mono (Rising n) (Rising (suc n)) w.pool.sessions
              (λ xs. Rising-mono n (suc n) xs (omega arith)) v.rising));
      balanced = ground (
        arith,
        v.balanced,
        weight-put length key (array ++ n ∷ []) w.pool.sessions,
        weight-remove owed key w.acquiring v.one_each,
        length-append array (n ∷ []),
      );
    }

resumes-IsPart :
    (w : World) (key : String) (l : Acquiring)
    → get key w.acquiring ≡ some l
    → l.creating ≡ false
    → IsValid w
    → IsPart w.pool w.acquiring key l
resumes-IsPart w key l e looping v = record {
  keyed = v.keyed;
  one_each = v.one_each;
  rising = v.rising;
  balanced = ground (arith, v.balanced);
  looping = looping;
}

remove_entry-IsValid :
    (w : World) (key : String) (t : ℕ → Bool) (a : ℕ) (used : Bool)
    → find t (entries_of w.pool key) ≡ some a
    → IsValid w
    → let p = remove_entry w.pool key a in
      HasDistinctKeys p.sessions
      × AllValues (Rising (length w.pool.entries)) p.sessions
      × (weight length p.sessions + 1 ≡ weight length w.pool.sessions)
remove_entry-IsValid w key t a used e v =
    let array = entries_of w.pool key in
    let n = length w.pool.entries in
    let left = filter (λ b. not (b == a)) array in
    let rising = entries_of-Rising w.pool key v.rising in
    (
      set_or_delete-HasDistinctKeys key left w.pool.sessions v.keyed,
      set_or_delete-AllValues (Rising n) key left w.pool.sessions
          (Rising-filter n (λ b. not (b == a)) array rising) v.rising,
      omega (
        arith,
        weight-set_or_delete key left w.pool.sessions v.keyed,
        length-filter-find n a t array rising e,
      ),
    )

invalidate-IsValid :
    (w : World) (key session_id : String)
    → IsValid w
    → IsValid (record w { pool = (invalidate w.pool key session_id).0 })
unfolding invalidate
invalidate-IsValid w key session_id v =
    elim (Option-cases (find (holds w.pool session_id) (entries_of w.pool key))) [
      | inl missing ↦ rw (missing, invalidate) v
      | inr (a, found) ↦
          let (keyed, rising, less) =
            remove_entry-IsValid w key (holds w.pool session_id) a true found v in
          rw (found, invalidate)
            (record {
              keyed = keyed;
              one_each = v.one_each;
              rising = rising;
              balanced = omega (arith, v.balanced, less);
            })
    ]

release-IsValid :
    (w : World) (key session_id : String) (now : ℕ)
    → IsValid w
    → IsValid (record w { pool = (release w.pool key session_id now).0 })
unfolding release
release-IsValid w key session_id now v =
    elim (Option-cases (find (holds w.pool session_id) (entries_of w.pool key))) [
      | inl missing ↦ rw (missing, release) v
      | inr (a, found) ↦ elim (Bool-cases (entry_is w.pool (λ e. ltb now e.expires_at) a)) [
        | inl fresh ↦
            rw (found, fresh, release)
              (record {
                keyed = v.keyed;
                one_each = v.one_each;
                rising = mark-Rising w.pool a false v.rising;
                balanced = v.balanced;
              })
        | inr over ↦
            let (keyed, rising, less) =
              remove_entry-IsValid w key (holds w.pool session_id) a true found v in
            rw (found, over, release)
              (record {
                keyed = keyed;
                one_each = v.one_each;
                rising = rw (length-set_in_use w.pool.entries a false) rising;
                balanced = omega (arith, v.balanced, less);
              })
      ]
    ]

step-IsValid : (w : World) (e : Event) → IsValid w → IsValid (step w e)
unfolding step
step-IsValid w (starts key ttl_ms now) v = elim (Option-cases (get key w.acquiring)) [
  | inl free ↦
      let (p, l) = acquire_start w.pool key ttl_ms now in
      rw (free, step)
        (advance-IsValid p w.acquiring key l l.expired refl
          (starts-IsValid w key ttl_ms now free v))
  | inr (l, taken) ↦ rw (taken, step) v
]
step-IsValid w (resumes key) v = elim (Option-cases (get key w.acquiring)) [
  | inl missing ↦ rw (missing, step) v
  | inr (l, e) ↦ elim (Bool-cases l.creating) [
    | inl creating ↦ simp (e, creating, step) v
    | inr looping ↦
        simp (e, looping, step)
          (advance-IsValid w.pool w.acquiring key l l.expired refl
            (resumes-IsPart w key l e looping v))
  ]
]
step-IsValid w (creates key session_id) v = elim (Option-cases (get key w.acquiring)) [
  | inl missing ↦ rw (missing, step) v
  | inr (l, e) ↦ elim (Bool-cases l.creating) [
    | inl creating ↦ simp (e, creating, step) (adopt-IsValid w key session_id l e creating v)
    | inr looping ↦ simp (e, looping, step) v
  ]
]
step-IsValid w (create_fails key) v = elim (Option-cases (get key w.acquiring)) [
  | inl missing ↦ rw (missing, step) v
  | inr (l, e) ↦ elim (Bool-cases l.creating) [
    | inr looping ↦ simp (e, looping, step) v
    | inl creating ↦
        simp (e, creating, step)
          (record {
            keyed = v.keyed;
            one_each = remove-HasDistinctKeys key w.acquiring v.one_each;
            rising = v.rising;
            balanced = ground (arith, v.balanced, weight-remove owed key w.acquiring v.one_each);
          })
  ]
]
step-IsValid w (releases key session_id now) v = release-IsValid w key session_id now v
step-IsValid w (invalidates key session_id) v = invalidate-IsValid w key session_id v

new_pool-IsValid : IsValid (record { pool = new_pool; acquiring = [] })
unfolding new_pool
new_pool-IsValid = record { keyed = tt; one_each = tt; rising = tt; balanced = refl }

run-IsValid : (w : World) (es : List Event) → IsValid w → IsValid (run w es)
unfolding run
run-IsValid w [] v = v
run-IsValid w (e ∷ es) v = run-IsValid (step w e) es (step-IsValid w e v)

-- After any interleaving of calls from an empty pool, every conversation that was created is
-- counted once: as retired, as invalidated, as one that the maps still track, or as one that a
-- waiting `acquire` has taken out of the maps and not yet retired.
pub run-created :
    (es : List Event)
    → let w = run (record { pool = new_pool; acquiring = [] }) es in
      w.pool.created ≡ w.pool.retired + w.pool.invalidated + tracked w + still_owed w
run-created es = (run-IsValid _ es new_pool-IsValid).balanced
