-- ===== src/RateLimiter/Bound.antt =====
-- No minute sees more grants than the limit.
use mathlib.Core.Option.{get_or}
use chat2api_web_gateway.Prelude.{
  leb, ◌===◌, if◌then◌else◌, length, filter, get, put, get-put, HasDistinctKeys,
  put-HasDistinctKeys, ℕ, ◌≤◌, String, ◌≡◌, refl, ◌∙◌, true, not, none, List, [], ◌∷◌, ◌++◌, arith,
  eq_iff,
}
use chat2api_web_gateway.ApiKeys.{StoredApiKey}
use chat2api_web_gateway.SlidingWindow.{
  is_recent, recent, in_window, Admitted, in_window-le-limit, recent-filter, recent-concat,
}
use chat2api_web_gateway.RateLimiter.{
  WindowState, SlidingWindowRateLimiter, window_ms, window_key, state_of, consume, prune_windows,
  prune,
}

pub data Call : Type 0 where
  consumes : StoredApiKey → String → Call
  prunes : Call

abbrev pub after : SlidingWindowRateLimiter → ℕ → Call → SlidingWindowRateLimiter
after l now (consumes key bucket) = (consume l key now bucket).0
after l now prunes = prune l now

-- The times, newest first, at which the calls for one window were allowed.
abbrev pub granted : String → SlidingWindowRateLimiter → ℕ → Call → List ℕ → List ℕ
granted k l now (consumes key bucket) past =
    if window_key key bucket === k
    then (if (consume l key now bucket).1.allowed then now ∷ past else past)
    else past
granted k l now prunes past = past

unfoldable pub grants : String → SlidingWindowRateLimiter → List ℕ → List (ℕ × Call) → List ℕ
grants k l past [] = past
grants k l past ((now, c) ∷ calls) = grants k (after l now c) (granted k l now c past) calls

abbrev pub StatesAtMost : String → ℕ → Call → Type 0
StatesAtMost k limit (consumes key bucket) =
    (window_key key bucket === k) ≡ true → key.requests_per_minute ≤ limit
StatesAtMost k limit prunes = Unit

-- The calls come in order of time, and those for the window state at most this limit.
abbrev pub IsOrdered : String → ℕ → ℕ → List (ℕ × Call) → Type 0
IsOrdered k limit time [] = Unit
IsOrdered k limit time ((now, c) ∷ calls) =
    (time ≤ now) × StatesAtMost k limit c × IsOrdered k limit now calls

-- The window remembers each grant that is still recent, at any time from the last call on.
record Remembers (k : String) (l : SlidingWindowRateLimiter) (time : ℕ) (past : List ℕ)
    : Type 0 where
  keyed : HasDistinctKeys l.windows
  exact :
      (now : ℕ)
      → time ≤ now
      → recent window_ms now (state_of l k).timestamps ≡ recent window_ms now past

get-prune_windows-none :
    (k : String) (now : ℕ) (m : List (String × WindowState))
    → get k m ≡ none
    → get k (prune_windows now m) ≡ none
unfolding get
get-prune_windows-none k now [] h = refl
get-prune_windows-none k now ((j, s) ∷ m) h = ground (arith, get-prune_windows-none k now m)

prune_windows-HasDistinctKeys :
    (now : ℕ) (m : List (String × WindowState))
    → HasDistinctKeys m
    → HasDistinctKeys (prune_windows now m)
prune_windows-HasDistinctKeys now [] h = tt
prune_windows-HasDistinctKeys now ((j, s) ∷ m) (h, hs) =
    ground (arith, get-prune_windows-none j now m h, prune_windows-HasDistinctKeys now m hs)

abbrev times_at : String → List (String × WindowState) → List ℕ
times_at k m = (get_or (get k m) (record { timestamps = [] })).timestamps

recent-length_zero :
    (now later : ℕ) (times : List ℕ)
    → now ≤ later
    → length (filter (is_recent window_ms now) times) ≡ 0
    → recent window_ms later times ≡ 0
recent-length_zero now later [] h e = refl
recent-length_zero now later (t ∷ ts) h e = ground (arith, recent-length_zero now later ts)

recent-prune_windows :
    (k : String) (now later : ℕ) (m : List (String × WindowState))
    → now ≤ later
    → HasDistinctKeys m
    → recent window_ms later (times_at k (prune_windows now m))
      ≡ recent window_ms later (times_at k m)
unfolding get
recent-prune_windows k now later [] h d = refl
recent-prune_windows k now later ((j, s) ∷ m) h (absent, d) = ground (
  arith,
  eq_iff j k,
  get-prune_windows-none j now m absent,
  recent-prune_windows k now later m h d,
  recent-length_zero now later s.timestamps h,
  recent-filter window_ms now later s.timestamps h,
)

-- What the window of a call held that is recent, and what it holds afterwards.
abbrev pub kept : SlidingWindowRateLimiter → String → ℕ → List ℕ
kept l k now = filter (is_recent window_ms now) (state_of l k).timestamps

abbrev pub stored : SlidingWindowRateLimiter → String → ℕ → ℕ → List ℕ
stored l k now limit =
    if leb limit (length (kept l k now)) then kept l k now else kept l k now ++ now ∷ []

consume_lem :
    (l : SlidingWindowRateLimiter) (key : StoredApiKey) (now : ℕ) (bucket : String)
    → let k = window_key key bucket in
      ((consume l key now bucket).0.windows
        ≡ put k (record { timestamps = stored l k now key.requests_per_minute }) l.windows)
      × ((consume l key now bucket).1.allowed
          ≡ not (leb key.requests_per_minute (length (kept l k now))))
unfolding consume
consume_lem l key now bucket = ground arith

times_at-put :
    (k j : String) (times : List ℕ) (m : List (String × WindowState))
    → times_at k (put j (record { timestamps = times }) m)
      ≡ (if j === k then times else times_at k m)
times_at-put k j times m = ground (arith, get-put j k (record { timestamps = times }) m)

recent-stored :
    (l : SlidingWindowRateLimiter) (k : String) (now later limit : ℕ)
    → now ≤ later
    → recent window_ms later (stored l k now limit)
      ≡ recent window_ms later (
          if not (leb limit (length (kept l k now)))
          then now ∷ (state_of l k).timestamps
          else (state_of l k).timestamps)
recent-stored l k now later limit h = ground (
  arith,
  recent-filter window_ms now later (state_of l k).timestamps h,
  recent-concat window_ms later now (kept l k now),
)

consume-Remembers :
    (k : String) (l : SlidingWindowRateLimiter) (time now : ℕ) (key : StoredApiKey)
    (bucket : String) (past : List ℕ)
    → time ≤ now
    → Remembers k l time past
    → Remembers k (consume l key now bucket).0 now (granted k l now (consumes key bucket) past)
consume-Remembers k l time now key bucket past h r =
    let (windows, allowed) = consume_lem l key now bucket in
    let j = window_key key bucket in
    let times = stored l j now key.requests_per_minute in
    record {
      keyed = rw windows (put-HasDistinctKeys j (record { timestamps = times }) l.windows r.keyed);
      exact = λ later p.
          rw (windows, times_at-put k j times l.windows, allowed)
            (ground (
              arith,
              eq_iff j k,
              r.exact later,
              recent-stored l j now later key.requests_per_minute p,
            ));
    }

after-Remembers :
    (k : String) (l : SlidingWindowRateLimiter) (time now : ℕ) (c : Call) (past : List ℕ)
    → time ≤ now
    → Remembers k l time past
    → Remembers k (after l now c) now (granted k l now c past)
unfolding prune
after-Remembers k l time now (consumes key bucket) past h r =
    consume-Remembers k l time now key bucket past h r
after-Remembers k l time now prunes past h r = record {
  keyed = prune_windows-HasDistinctKeys now l.windows r.keyed;
  exact =
      λ later p. recent-prune_windows k now later l.windows p r.keyed ∙ r.exact later (omega arith);
}

granted-Admitted :
    (k : String) (l : SlidingWindowRateLimiter) (limit time now : ℕ) (c : Call) (past : List ℕ)
    → time ≤ now
    → Remembers k l time past
    → StatesAtMost k limit c
    → Admitted window_ms limit past
    → Admitted window_ms limit (granted k l now c past)
granted-Admitted k l limit time now (consumes key bucket) past h r most ok =
    let allowed = (consume_lem l key now bucket).1 in
    rw allowed (ground (arith, eq_iff (window_key key bucket) k, r.exact now h, most))
granted-Admitted k l limit time now prunes past h r most ok = ok

grants-Admitted :
    (k : String) (l : SlidingWindowRateLimiter) (limit time : ℕ) (past : List ℕ)
    (calls : List (ℕ × Call))
    → IsOrdered k limit time calls
    → Remembers k l time past
    → Admitted window_ms limit past
    → Admitted window_ms limit (grants k l past calls)
unfolding grants
grants-Admitted k l limit time past [] o r ok = ok
grants-Admitted k l limit time past ((now, c) ∷ calls) (h, most, o) r ok =
    grants-Admitted k (after l now c) limit now (granted k l now c past) calls o
      (after-Remembers k l time now c past h r)
      (granted-Admitted k l limit time now c past h r most ok)

-- Over any sequence of calls in order of time, on windows of every key and with prunes in between,
-- at most `limit` requests of one key and bucket are allowed in any minute, wherever it ends, if
-- the calls for that window state at most `limit` requests a minute.
pub in_window-grants :
    (k : String) (limit time now : ℕ) (calls : List (ℕ × Call))
    → IsOrdered k limit time calls
    → in_window window_ms now (grants k (record { windows = [] }) [] calls) ≤ limit
unfolding get
in_window-grants k limit time now calls o = in_window-le-limit window_ms limit now _ (
    grants-Admitted k (record { windows = [] }) limit time [] calls o
      (record { keyed = tt; exact = λ later p. refl }) tt)
