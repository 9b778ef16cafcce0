-- ===== src/Concurrency.antt =====
-- src/server/gateway/concurrency.ts: the gate that bounds how many requests run at once.
-- A promise is the entry that settles it in `settled`; a release closure is a permit number, which
-- is in `held` until its `released` flag is set; a timer and an abort listener are calls of
-- `settle_unavailable` that the environment may make (see `Event`).
pub mod Invariant
pub mod Handover
pub mod Settlement
mod Examples
use chat2api_web_gateway.Prelude.{
  ltb, leb, ◌==◌, if◌then◌else◌, length, filter, any, ℕ, zero, suc, ◌+◌, ◌-◌, Bool, true, false,
  not, ◌||◌, Option, none, some, List, [], ◌∷◌, ◌++◌,
}

pub data Priority : Type 0 where
  foreground background : Priority

-- `identity` tells waiters apart as objects; `signal` names the abort signal, if there is one;
-- `timeout` is the time that its timer was armed for.
pub record Waiter : Type 0 where
  pub identity : ℕ
  pub priority : Priority
  pub signal : Option ℕ
  pub timeout : Option ℕ

pub record AcquireOptions : Type 0 where
  pub priority : Option Priority
  pub signal : Option ℕ
  pub timeout_ms : Option ℕ

-- What a promise was resolved with: a release, or `undefined`.
pub data Answer : Type 0 where
  release_of : ℕ → Answer
  unavailable : Answer

pub record ConcurrencyGate : Type 0 where
  pub limit : ℕ
  pub max_queue : ℕ
  pub default_timeout_ms : ℕ
  pub active : ℕ
  pub foreground : List Waiter
  pub background : List Waiter
  pub held : List ℕ
  pub next_permit : ℕ
  pub next_waiter : ℕ
  pub settled : List (ℕ × Answer)
  pub aborted : List ℕ

unfoldable pub new_gate : ℕ → ℕ → ℕ → ConcurrencyGate
new_gate limit max_queue default_timeout_ms = record {
  limit = limit;
  max_queue = max_queue;
  default_timeout_ms = default_timeout_ms;
  active = 0;
  foreground = [];
  background = [];
  held = [];
  next_permit = 0;
  next_waiter = 0;
  settled = [];
  aborted = [];
}

abbrev pub member : ℕ → List ℕ → Bool
member n xs = any (λ m. m == n) xs

abbrev pub signal_aborted : ConcurrencyGate → Option ℕ → Bool
signal_aborted g none = false
signal_aborted g (some s) = member s g.aborted

pub get_active : ConcurrencyGate → ℕ
get_active g = g.active

abbrev pub get_queued : ConcurrencyGate → ℕ
get_queued g = length g.foreground + length g.background

pub record QueueState : Type 0 where
  pub foreground : ℕ
  pub background : ℕ

pub get_queue_state : ConcurrencyGate → QueueState
get_queue_state g = record { foreground = length g.foreground; background = length g.background }

pub get_limit : ConcurrencyGate → ℕ
get_limit g = g.limit

-- `active += 1` and `createRelease()`: a new permit, held.
abbrev pub grant : ConcurrencyGate → ConcurrencyGate
grant g = record g {
  active = g.active + 1;
  held = g.next_permit ∷ g.held;
  next_permit = suc g.next_permit;
}

unfoldable pub try_acquire : ConcurrencyGate → ConcurrencyGate × Option ℕ
try_acquire g =
    if leb g.limit g.active || ltb 0 (get_queued g)
    then (g, none)
    else (grant g, some g.next_permit)

-- `waiter.resolve(…)`.
abbrev pub settle : ℕ → Answer → ConcurrencyGate → ConcurrencyGate
settle w a g = record g { settled = g.settled ++ (w, a) ∷ [] }

abbrev pub armed : ℕ → Option ℕ
armed ms = if ltb 0 ms then some ms else none

abbrev pub timeout_of : ConcurrencyGate → Option ℕ → Option ℕ
timeout_of g none = armed g.default_timeout_ms
timeout_of g (some ms) = armed ms

abbrev pub priority_of : Option Priority → Priority
priority_of none = foreground
priority_of (some p) = p

abbrev pub push : Waiter → Priority → ConcurrencyGate → ConcurrencyGate
push w foreground g = record g { foreground = g.foreground ++ w ∷ [] }
push w background g = record g { background = g.background ++ w ∷ [] }

-- The call of `acquire`; its promise is settled at once, or by what happens later. The number of
-- the promise is `next_waiter`.
unfoldable pub acquire : ConcurrencyGate → AcquireOptions → ConcurrencyGate
unfolding try_acquire
acquire g options =
    let (g', immediate) = try_acquire g in
    let me = g.next_waiter in
    let h = record g' { next_waiter = suc me } in
    let waiter : Waiter = record {
      identity = me;
      priority = priority_of options.priority;
      signal = options.signal;
      timeout = timeout_of g options.timeout_ms;
    } in
    elim immediate [
      | some permit ↦ settle me (release_of permit) h
      | none ↦
          if signal_aborted g options.signal || leb g.max_queue (get_queued g)
          then settle me unavailable h
          else push waiter (priority_of options.priority) h
    ]

-- `this.foreground.shift() ?? this.background.shift()`.
unfoldable pub shift : ConcurrencyGate → Option (Waiter × ConcurrencyGate)
shift g = elim g.foreground [
  | w ∷ rest ↦ some (w, record g { foreground = rest })
  | [] ↦ elim g.background [ w ∷ rest ↦ some (w, record g { background = rest }) | [] ↦ none ]
]

-- The body of the loop of `drain`, after the shift.
unfoldable pub serve : Waiter → ConcurrencyGate → ConcurrencyGate
serve w g =
    if signal_aborted g w.signal
    then settle w.identity unavailable g
    else settle w.identity (release_of g.next_permit) (grant g)

-- The loop of `drain`, on fuel.
unfoldable pub drain_rounds : ℕ → ConcurrencyGate → ConcurrencyGate
drain_rounds zero g = g
drain_rounds (suc fuel) g = elim (ltb g.active g.limit) [
  | false ↦ g
  | true ↦ elim (shift g) [ none ↦ g | some (w, rest) ↦ drain_rounds fuel (serve w rest) ]
]

unfoldable pub drain : ConcurrencyGate → ConcurrencyGate
drain g = drain_rounds (suc (get_queued g)) g

abbrev pub erase : ℕ → List ℕ → List ℕ
erase n = filter (λ m. not (m == n))

-- Calling the release closure of a permit.
unfoldable pub release : ConcurrencyGate → ℕ → ConcurrencyGate
unfolding drain
release g permit =
    if member permit g.held
    then drain (record g { active = g.active - 1; held = erase permit g.held })
    else g

-- `remove`: the identities of queued waiters are distinct.
abbrev pub remove_waiter : ℕ → List Waiter → List Waiter
remove_waiter n [] = []
remove_waiter n (w ∷ ws) = if w.identity == n then ws else w ∷ remove_waiter n ws

abbrev pub queued_in : ℕ → List Waiter → Bool
queued_in n ws = any (λ w. w.identity == n) ws

-- The closure `settleUnavailable` of one waiter: its timer, or its abort listener.
unfoldable pub settle_unavailable : ConcurrencyGate → ℕ → ConcurrencyGate
settle_unavailable g n =
    if queued_in n g.foreground
    then settle n unavailable (record g { foreground = remove_waiter n g.foreground })
    else if queued_in n g.background
    then settle n unavailable (record g { background = remove_waiter n g.background })
    else g

abbrev pub listens : ℕ → Waiter → Bool
listens s w = elim w.signal [ none ↦ false | some t ↦ t == s ]

-- The listeners run one after the other; those of served waiters were removed by `cleanup`.
unfoldable pub notify : List Waiter → ConcurrencyGate → ConcurrencyGate
unfolding settle_unavailable
notify [] g = g
notify (w ∷ ws) g = notify ws (settle_unavailable g w.identity)

-- The signal is aborted: the flag is set and the listeners of the queued waiters run.
unfoldable pub abort : ConcurrencyGate → ℕ → ConcurrencyGate
unfolding notify
abort g s =
    notify (filter (listens s) (g.foreground ++ g.background))
      (record g { aborted = s ∷ g.aborted })

pub data Event : Type 0 where
  tries : Event
  acquires : AcquireOptions → Event
  releases : ℕ → Event
  times_out : ℕ → Event
  aborts : ℕ → Event

unfoldable pub step : ConcurrencyGate → Event → ConcurrencyGate
unfolding try_acquire acquire release settle_unavailable abort
step g tries = (try_acquire g).0
step g (acquires options) = acquire g options
step g (releases permit) = release g permit
step g (times_out n) = settle_unavailable g n
step g (aborts s) = abort g s

unfoldable pub run : ConcurrencyGate → List Event → ConcurrencyGate
run g [] = g
run g (e ∷ es) = run (step g e) es
