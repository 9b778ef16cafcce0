-- ===== src/ApiKeys/Quota/Bound.antt =====
-- The daily quota is a bound.

use text.Mathlib.TextEquality.{eq_iff}
use chat2api_web_gateway.ApiKeys.Quota.{
  Dates, Usage, QuotaTables, dates_of, request_count, drop_before, count_one, consume_daily_quota,
  Event, consumes, deletes, changes, step,
}
use chat2api_web_gateway.Prelude.{
  ◌===◌, if◌then◌else◌, Bool-cases, filter, All, get, put, remove, get-put, get-remove, is_before,
  ℕ, ◌+◌, ◌≤◌, String, ◌≡◌, refl, inl, inr, Bool, true, false, not, ◌&&◌, List, [], ◌∷◌, arith,
}

get-filter :
    (cutoff date : String) (dates : Dates)
    → is_before date cutoff ≡ false
    → get date (filter (λ entry. not (is_before entry.0 cutoff)) dates) ≡ get date dates
unfolding get
get-filter cutoff date [] h = refl
get-filter cutoff date ((d, n) ∷ dates) h = elim (Bool-cases (d === date)) [
  | inl same ↦
      let same' : d ≡ date = (eq_iff d date).0 same in
      let kept : is_before d cutoff ≡ false = rw same' h in rw (kept, same) refl
  | inr other ↦ elim (Bool-cases (is_before d cutoff)) [
    | inl old ↦ rw (old, other) (get-filter cutoff date dates h)
    | inr kept ↦ rw (kept, other) (get-filter cutoff date dates h)
  ]
]

request_count-drop_before :
    (cutoff id date : String) (usage : Usage)
    → is_before date cutoff ≡ false
    → request_count (drop_before cutoff usage) id date ≡ request_count usage id date
unfolding request_count drop_before get
request_count-drop_before cutoff id date [] h = refl
request_count-drop_before cutoff id date ((j, dates) ∷ rest) h = elim (Bool-cases (j === id)) [
  | inl same ↦ rw (same, request_count) (rw (get-filter cutoff date dates h) refl)
  | inr other ↦ rw (other, request_count) (request_count-drop_before cutoff id date rest h)
]

request_count-count_one :
    (usage : Usage) (id date i d : String)
    → request_count (count_one usage id date) i d
      ≡ request_count usage i d + (if id === i && date === d then 1 else 0)
unfolding request_count count_one
request_count-count_one usage id date i d = ground (
  arith,
  eq_iff id i,
  eq_iff date d,
  get-put id i (put date (request_count usage id date + 1) (dates_of usage id)) usage,
  get-put date d (request_count usage id date + 1) (dates_of usage id),
)

-- Whether an event was a request of that key on that date.
abbrev pub is_at : String → String → Event → Bool
is_at id date (consumes key d cutoff now) = key.id === id && d === date
is_at id date _ = false

-- How many requests of a key were allowed on a date.
unfoldable pub grants : String → String → QuotaTables → List Event → ℕ
unfolding step
grants id date t [] = 0
grants id date t (e ∷ es) =
    let (t', allowed) = step t e in
    (if allowed && is_at id date e then 1 else 0) + grants id date t' es

-- Events before the counts of the date are dropped, under a quota of at most `limit`, that do not
-- delete the key.
abbrev pub IsWithin : String → String → ℕ → Event → Type 0
IsWithin id date limit (consumes key d cutoff now) =
    (is_before date cutoff ≡ false)
    × ((key.id === id && d === date) ≡ true → key.daily_quota ≤ limit)
IsWithin id date limit (deletes j) = (j === id) ≡ false
IsWithin id date limit (changes keys) = Unit

-- One event: the count of the date rises by the requests of it that were allowed.
pub step-count :
    (id date : String) (limit : ℕ) (t : QuotaTables) (e : Event)
    → IsWithin id date limit e
    → request_count t.usage id date ≤ limit
    → let (t', allowed) = step t e in
      let rise : ℕ = if allowed && is_at id date e then 1 else 0 in
      (request_count t'.usage id date ≡ request_count t.usage id date + rise)
      × (request_count t'.usage id date ≤ limit)
unfolding step consume_daily_quota request_count
step-count id date limit t (consumes key d cutoff now) (fresh, quota) h = ground (
  arith,
  eq_iff key.id id,
  eq_iff d date,
  request_count-drop_before cutoff id date (count_one t.usage key.id d) fresh,
  request_count-count_one t.usage key.id d id date,
)
step-count id date limit t (deletes j) other h =
    let kept : request_count (remove j t.usage) id date ≡ request_count t.usage id date =
      rw (request_count, get-remove j id t.usage, other) refl in
    ground (arith, kept)
step-count id date limit t (changes keys) w h = ground arith

-- Over any events that do not delete the key and come before the counts of the date are dropped, the
-- requests of a key that are allowed on a date, together with those counted before, are no more than
-- its quota, also where requests carry older copies of the key with a smaller quota.
pub grants-le :
    (id date : String) (limit : ℕ) (t : QuotaTables) (es : List Event)
    → All (IsWithin id date limit) es
    → request_count t.usage id date ≤ limit
    → grants id date t es + request_count t.usage id date ≤ limit
unfolding grants
grants-le id date limit t [] h k = omega arith
grants-le id date limit t (e ∷ es) (w, h) k =
    let (rise, bound) = step-count id date limit t e w k in
    omega (arith, grants-le id date limit (step t e).0 es h bound, rise)
