-- ===== src/Concurrency/Invariant.antt =====
-- What holds of a gate after any history of calls, timeouts and aborts.
use chat2api_web_gateway.Prelude.{
  ltb, ltb→lt, Bool-cases, Option-cases, length, filter, length-append, ℕ, zero, suc, ◌+◌, ◌-◌, ◌≤◌,
  ◌<◌, ◌≡◌, refl, ◌⊎◌, inl, inr, true, none, some, List, [], ◌∷◌, ◌++◌, arith,
}
use chat2api_web_gateway.Concurrency.{
  Waiter, AcquireOptions, ConcurrencyGate, new_gate, member, get_queued, try_acquire, acquire,
  shift, serve, drain_rounds, erase, release, remove_waiter, settle_unavailable, listens, notify,
  abort, Event, tries, acquires, releases, times_out, aborts, step, run,
}

-- Permit numbers fall along the list and stay below the bound, so they are distinct.
abbrev pub Below : ℕ → List ℕ → Type 0
Below n [] = Unit {0}
Below n (m ∷ ms) = (m < n) × Below m ms

Below-mono : (m n : ℕ) (ms : List ℕ) → m ≤ n → Below m ms → Below n ms
Below-mono m n [] h b = tt
Below-mono m n (k ∷ ms) h b = (omega arith, b.1)

erase-Below : (n p : ℕ) (ms : List ℕ) → Below n ms → Below n (erase p ms)
erase-Below n p [] b = tt
erase-Below n p (m ∷ ms) b = ground (arith, erase-Below m p ms b.1, Below-mono m n (erase p ms))

erase-absent : (n p : ℕ) (ms : List ℕ) → Below n ms → n ≤ p → length (erase p ms) ≡ length ms
erase-absent n p [] b h = refl
erase-absent n p (m ∷ ms) b h = ground (arith, erase-absent m p ms b.1)

pub length-erase :
    (n p : ℕ) (ms : List ℕ) → Below n ms → member p ms ≡ true → length (erase p ms) + 1 ≡ length ms
length-erase n p [] b h = ground arith
length-erase n p (m ∷ ms) b h = ground (arith, length-erase m p ms b.1, erase-absent m p ms b.1)

pub record IsValid (g : ConcurrencyGate) : Type 0 where
  pub counted : g.active ≡ length g.held
  pub distinct : Below g.next_permit g.held
  pub limited : g.active ≤ g.limit
  pub queue_bounded : get_queued g ≤ g.max_queue

-- Nobody waits while a permit is free.
abbrev pub IsBusy : ConcurrencyGate → Type 0
IsBusy g = (g.limit ≤ g.active) ⊎ (get_queued g ≡ 0)

new_gate-IsValid : (limit max_queue ms : ℕ) → IsValid (new_gate limit max_queue ms)
unfolding new_gate
new_gate-IsValid limit max_queue ms = record {
  counted = refl;
  distinct = tt;
  limited = omega arith;
  queue_bounded = omega arith;
}

new_gate-IsBusy : (limit max_queue ms : ℕ) → IsBusy (new_gate limit max_queue ms)
unfolding new_gate
new_gate-IsBusy limit max_queue ms = inr refl

pub try_acquire-IsValid : (g : ConcurrencyGate) → IsValid g → IsValid (try_acquire g).0
unfolding try_acquire
try_acquire-IsValid g v = ground arith

pub acquire-IsValid : (g : ConcurrencyGate) (o : AcquireOptions) → IsValid g → IsValid (acquire g o)
unfolding acquire
acquire-IsValid g o v = grind (arith, length-append)

length-remove_waiter-le : (n : ℕ) (ws : List Waiter) → length (remove_waiter n ws) ≤ length ws
length-remove_waiter-le n [] = omega arith
length-remove_waiter-le n (w ∷ ws) = ground (arith, length-remove_waiter-le n ws)

pub settle_unavailable-IsValid :
    (g : ConcurrencyGate) (n : ℕ) → IsValid g → IsValid (settle_unavailable g n)
unfolding settle_unavailable
settle_unavailable-IsValid g n v =
    ground (arith, length-remove_waiter-le n g.foreground, length-remove_waiter-le n g.background)

pub settle_unavailable-IsBusy :
    (g : ConcurrencyGate) (n : ℕ) → IsBusy g → IsBusy (settle_unavailable g n)
unfolding settle_unavailable
settle_unavailable-IsBusy g n v =
    ground (arith, length-remove_waiter-le n g.foreground, length-remove_waiter-le n g.background)

-- The parts of the gate that serving a queue changes.
serve-IsValid :
    (w : Waiter) (g : ConcurrencyGate) → IsValid g → g.active < g.limit → IsValid (serve w g)
unfolding serve
serve-IsValid w g v h = ground arith

shift-IsValid :
    (g : ConcurrencyGate) {w : Waiter} {rest : ConcurrencyGate}
    → shift g ≡ some (w, rest)
    → IsValid g
    → IsValid rest
      × (rest.active ≡ g.active)
      × (rest.limit ≡ g.limit)
      × (get_queued g ≡ get_queued rest + 1)
unfolding shift
shift-IsValid g e v = ground arith

pub notify-IsValid : (ws : List Waiter) (g : ConcurrencyGate) → IsValid g → IsValid (notify ws g)
unfolding notify
notify-IsValid [] g v = v
notify-IsValid (w ∷ ws) g v =
    notify-IsValid ws (settle_unavailable g w.identity) (settle_unavailable-IsValid g w.identity v)

notify-IsBusy : (ws : List Waiter) (g : ConcurrencyGate) → IsBusy g → IsBusy (notify ws g)
unfolding notify
notify-IsBusy [] g v = v
notify-IsBusy (w ∷ ws) g v =
    notify-IsBusy ws (settle_unavailable g w.identity) (settle_unavailable-IsBusy g w.identity v)

try_acquire-IsBusy : (g : ConcurrencyGate) → IsBusy g → IsBusy (try_acquire g).0
unfolding try_acquire
try_acquire-IsBusy g v = ground arith

acquire-IsBusy : (g : ConcurrencyGate) (o : AcquireOptions) → IsBusy g → IsBusy (acquire g o)
unfolding acquire
acquire-IsBusy g o v = grind (arith, length-append)

-- One round of the loop.
serve-IsValid_after :
    (g : ConcurrencyGate) (w : Waiter) (rest : ConcurrencyGate)
    → shift g ≡ some (w, rest)
    → g.active < g.limit
    → IsValid g
    → IsValid (serve w rest) × (get_queued g ≡ get_queued (serve w rest) + 1)
unfolding shift serve
serve-IsValid_after g w rest e h v = ground arith

shift-none : (g : ConcurrencyGate) → shift g ≡ none → get_queued g ≡ 0
unfolding shift
shift-none g e = ground arith

-- With more rounds than there are waiters the loop of `drain` ends by its own test, not for want of
-- fuel: the gate is full or both queues are empty, and the counters and limits hold.
pub drain_rounds-done :
    (fuel : ℕ) (g : ConcurrencyGate)
    → get_queued g < fuel
    → IsValid g
    → IsValid (drain_rounds fuel g) × IsBusy (drain_rounds fuel g)
unfolding drain_rounds
drain_rounds-done zero g h v = absurd (omega arith)
drain_rounds-done (suc fuel) g h v = elim (Bool-cases (ltb g.active g.limit)) [
  | inr full ↦ rw (full, drain_rounds) (v, inl (ground arith))
  | inl free ↦ elim (Option-cases (shift g)) [
    | inl e ↦ rw (free, e, drain_rounds) (v, inr (shift-none g e))
    | inr ((w, rest), e) ↦
        let (v', less) = serve-IsValid_after g w rest e (ltb→lt _ _ free) v in
        rw (free, e, drain_rounds) (drain_rounds-done fuel (serve w rest) (omega arith) v')
  ]
]

pub release-IsValid :
    (g : ConcurrencyGate) (p : ℕ)
    → IsValid g
    → IsBusy g
    → IsValid (release g p) × IsBusy (release g p)
unfolding release
release-IsValid g p v b = elim (Bool-cases (member p g.held)) [
  | inr gone ↦ rw gone (v, b)
  | inl live ↦ rw live (
      drain_rounds-done _ (record g { active = g.active - 1; held = erase p g.held }) (omega arith)
        (record {
          counted = omega (arith, v.counted, length-erase g.next_permit p g.held v.distinct live);
          distinct = erase-Below g.next_permit p g.held v.distinct;
          limited = omega (arith, v.limited);
          queue_bounded = v.queue_bounded;
        }))
]

pub step-IsValid :
    (g : ConcurrencyGate) (e : Event)
    → IsValid g
    → IsBusy g
    → IsValid (step g e) × IsBusy (step g e)
unfolding step abort
step-IsValid g tries v b = (try_acquire-IsValid g v, try_acquire-IsBusy g b)
step-IsValid g (acquires o) v b = (acquire-IsValid g o v, acquire-IsBusy g o b)
step-IsValid g (releases p) v b = release-IsValid g p v b
step-IsValid g (times_out n) v b =
    (settle_unavailable-IsValid g n v, settle_unavailable-IsBusy g n b)
step-IsValid g (aborts s) v b =
    let g' : ConcurrencyGate = record g { aborted = s ∷ g.aborted } in
    let v' : IsValid g' = ground arith in
    let told = filter (listens s) (g.foreground ++ g.background) in
    (notify-IsValid told g' v', notify-IsBusy told g' b)

pub run-IsValid :
    (g : ConcurrencyGate) (es : List Event)
    → IsValid g
    → IsBusy g
    → IsValid (run g es) × IsBusy (run g es)
unfolding run
run-IsValid g [] v b = (v, b)
run-IsValid g (e ∷ es) v b = let (v', b') = step-IsValid g e v b in run-IsValid (step g e) es v' b'

-- After any sequence of calls, timeouts and aborts on a new gate: `active` is the number of permits
-- held, their numbers are distinct, `active` is at most `limit`, at most `max_queue` requests wait,
-- and none waits while `active` is below `limit`.
pub run-new_gate :
    (limit max_queue ms : ℕ) (es : List Event)
    → IsValid (run (new_gate limit max_queue ms) es) × IsBusy (run (new_gate limit max_queue ms) es)
run-new_gate limit max_queue ms es =
    run-IsValid (new_gate limit max_queue ms) es (new_gate-IsValid limit max_queue ms)
      (new_gate-IsBusy limit max_queue ms)
