-- ===== src/Usage/Bound.antt =====
-- No usage window sees more attempts of an account than its limit.
use chat2api_web_gateway.Prelude.{
  ◌===◌, if◌then◌else◌, Bool-cases, length, filter, ℕ, ◌+◌, ◌≤◌, ◌<◌, String, ◌≡◌, refl, ap, inl,
  inr, Bool, true, false, not, ◌&&◌, Option, none, some, List, [], ◌∷◌, ◌++◌, arith, eq_iff,
}
use chat2api_web_gateway.SlidingWindow.{recent, in_window, Admitted, in_window-le-limit}
use chat2api_web_gateway.Usage.{UsageEvent, selected, is_stale, consume_account_usage_window}

pub selected-append :
    (account : String) (w now : ℕ) (xs ys : List UsageEvent)
    → length (selected account w now (xs ++ ys))
      ≡ length (selected account w now xs) + length (selected account w now ys)
selected-append account w now [] ys = omega arith
selected-append account w now (e ∷ es) ys = ground (arith, selected-append account w now es ys)

-- What the clean-up deletes is in no later window.
pub selected-clean :
    (account other : String) (w now later : ℕ) (es : List UsageEvent)
    → now ≤ later
    → length (selected account w later (filter (λ e. not (is_stale other w now e)) es))
      ≡ length (selected account w later es)
selected-clean account other w now later [] h = refl
selected-clean account other w now later (e ∷ es) h =
    ground (arith, selected-clean account other w now later es h)

-- One call of `consumeAccountUsageWindow`: the account and its limit.
pub record Call : Type 0 where
  pub account : String
  pub limit : Option ℕ

-- The table after a call, and the attempts of an account that were allowed, newest first.
abbrev pub after : ℕ → List UsageEvent → ℕ → Call → List UsageEvent
after w events now c = elim (consume_account_usage_window events c.account c.limit w now) [
  | none ↦ events
  | some (events', result) ↦ events'
]

abbrev pub was_allowed : ℕ → List UsageEvent → ℕ → Call → Bool
was_allowed w events now c = elim (consume_account_usage_window events c.account c.limit w now) [
  | none ↦ false
  | some (events', result) ↦ result.allowed
]

abbrev pub attempted : ℕ → String → List UsageEvent → ℕ → Call → List ℕ → List ℕ
attempted w account events now c past =
    if c.account === account && was_allowed w events now c then now ∷ past else past

unfoldable pub attempts : ℕ → String → List UsageEvent → List ℕ → List (ℕ × Call) → List ℕ
attempts w account events past [] = past
attempts w account events past ((now, c) ∷ calls) =
    attempts w account (after w events now c) (attempted w account events now c past) calls

-- The calls come in order of time, and those for the account state a limit of at most this.
abbrev pub IsOrdered : String → ℕ → ℕ → List (ℕ × Call) → Type 0
IsOrdered account limit time [] = Unit
IsOrdered account limit time ((now, c) ∷ calls) =
    (time ≤ now)
    × ((c.account === account) ≡ true → (n : ℕ) × (c.limit ≡ some n) × (0 < n) × (n ≤ limit))
    × IsOrdered account limit now calls

-- The table has each attempt that is still recent, at any time from the last call on.
abbrev Remembers : ℕ → String → List UsageEvent → ℕ → List ℕ → Type 0
Remembers w account events time past =
    (now : ℕ) → time ≤ now → length (selected account w now events) ≡ recent w now past

after-Remembers :
    (w : ℕ) (account : String) (events : List UsageEvent) (time now : ℕ) (c : Call) (past : List ℕ)
    → time ≤ now
    → Remembers w account events time past
    → Remembers w account (after w events now c) now (attempted w account events now c past)
unfolding consume_account_usage_window
after-Remembers w account events time now c past h r later p =
    let e : UsageEvent = record { account_id = c.account; used_at = now } in
    ground (
      arith,
      eq_iff c.account account,
      r later,
      selected-clean account c.account w now later (events ++ e ∷ []) p,
      selected-append account w later events (e ∷ []),
    )

attempted-Admitted :
    (w : ℕ) (account : String) (events : List UsageEvent) (limit time now : ℕ) (c : Call)
    (past : List ℕ)
    → time ≤ now
    → Remembers w account events time past
    → ((c.account === account) ≡ true → (n : ℕ) × (c.limit ≡ some n) × (0 < n) × (n ≤ limit))
    → Admitted w limit past
    → Admitted w limit (attempted w account events now c past)
unfolding consume_account_usage_window
attempted-Admitted w account events limit time now c past h r most ok =
    elim (Bool-cases (c.account === account)) [
      | inr other ↦ rw other ok
      | inl same ↦
          let (n, e, positive, small) = most same in
          let this : c.account ≡ account = (eq_iff _ _).0 same in
          ground (arith, r now h, ap (λ a. length (selected a w now events)) this)
    ]

attempts-Admitted :
    (w : ℕ) (account : String) (events : List UsageEvent) (limit time : ℕ) (past : List ℕ)
    (calls : List (ℕ × Call))
    → IsOrdered account limit time calls
    → Remembers w account events time past
    → Admitted w limit past
    → Admitted w limit (attempts w account events past calls)
unfolding attempts
attempts-Admitted w account events limit time past [] o r ok = ok
attempts-Admitted w account events limit time past ((now, c) ∷ calls) (h, most, o) r ok =
    attempts-Admitted w account (after w events now c) limit now
      (attempted w account events now c past) calls o
      (after-Remembers w account events time now c past h r)
      (attempted-Admitted w account events limit time now c past h r most ok)

-- Over any sequence of calls in order of time, for any accounts, from an empty table: at most
-- `limit` attempts of an account are allowed in any window of the configured width, wherever it
-- ends, if each call for that account states a limit from 1 to `limit`. The clean-up of old rows
-- does not weaken this.
pub in_window-attempts :
    (w : ℕ) (account : String) (limit time now : ℕ) (calls : List (ℕ × Call))
    → IsOrdered account limit time calls
    → in_window w now (attempts w account [] [] calls) ≤ limit
in_window-attempts w account limit time now calls o =
    in_window-le-limit w limit now _
      (attempts-Admitted w account [] limit time [] calls o (λ later p. refl) tt)
