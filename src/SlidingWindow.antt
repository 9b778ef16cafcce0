-- ===== src/SlidingWindow.antt =====
-- What a sliding window promises: the specification of the limiters, and the lemmas that they share.
-- A limiter admits at `now` by counting the times after `now - width`; on natural numbers
-- `time > now - width` is `now < time + width`.
use chat2api_web_gateway.Prelude.{
  ltb, leb, length, filter, ℕ, ◌+◌, ◌≤◌, ◌<◌, ◌≡◌, refl, Bool, ◌&&◌, List, [], ◌∷◌, ◌++◌, arith,
}

abbrev pub is_recent : ℕ → ℕ → ℕ → Bool
is_recent width now time = ltb now (time + width)

abbrev pub recent : ℕ → ℕ → List ℕ → ℕ
recent width now times = length (filter (is_recent width now) times)

-- How many of the times lie in the window of this width that ends at `now`, `now` included.
abbrev pub in_window : ℕ → ℕ → List ℕ → ℕ
in_window width now times = length (filter (λ time. leb time now && is_recent width now time) times)

-- Each time, newest grant first, was admitted when fewer than `limit` earlier ones were recent.
abbrev pub Admitted : ℕ → ℕ → List ℕ → Type 0
Admitted width limit [] = Unit
Admitted width limit (time ∷ times) = (recent width time times < limit) × Admitted width limit times

in_window-le-recent :
    (width now time : ℕ) (times : List ℕ)
    → time ≤ now
    → in_window width now times ≤ recent width time times
in_window-le-recent width now time [] h = omega arith
in_window-le-recent width now time (t ∷ ts) h =
    ground (arith, in_window-le-recent width now time ts)

-- So no window of that width holds more than `limit` of them, wherever it ends.
pub in_window-le-limit :
    (width limit now : ℕ) (times : List ℕ)
    → Admitted width limit times
    → in_window width now times ≤ limit
in_window-le-limit width limit now [] h = omega arith
in_window-le-limit width limit now (t ∷ ts) (h, hs) =
    ground (arith, in_window-le-recent width now t ts, in_window-le-limit width limit now ts hs)

-- Times that were dropped as too old at `now` are too old later on.
pub recent-filter :
    (width now later : ℕ) (times : List ℕ)
    → now ≤ later
    → recent width later (filter (is_recent width now) times) ≡ recent width later times
recent-filter width now later [] h = refl
recent-filter width now later (t ∷ ts) h = ground (arith, recent-filter width now later ts)

pub recent-concat :
    (width now time : ℕ) (times : List ℕ)
    → recent width now (times ++ time ∷ []) ≡ recent width now (time ∷ times)
recent-concat width now time [] = refl
recent-concat width now time (t ∷ ts) = ground (arith, recent-concat width now time ts)
