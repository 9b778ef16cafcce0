-- ===== src/Concurrency/Settlement.antt =====
-- Every promise that `acquire` gave out is either waiting or settled, and settled once.
use chat2api_web_gateway.Prelude.{
  ltb, ◌==◌, if◌then◌else◌, Bool-cases, Option-cases, filter, ℕ, zero, suc, ◌+◌, ◌-◌, ◌≡◌, refl,
  sym, ap, ◌∙◌, inl, inr, Bool, true, some, List, [], ◌∷◌, ◌++◌, arith,
}
use chat2api_web_gateway.Concurrency.{
  Waiter, AcquireOptions, Answer, release_of, unavailable, ConcurrencyGate, new_gate, member,
  get_queued, try_acquire, acquire, shift, serve, drain_rounds, drain, erase, release,
  remove_waiter, queued_in, settle_unavailable, listens, notify, abort, Event, tries, acquires,
  releases, times_out, aborts, step, run,
}

abbrev pub one_if : Bool → ℕ
one_if b = if b then 1 else 0

-- How often a promise stands in a queue, and among the settled ones.
abbrev pub waiting : ℕ → List Waiter → ℕ
waiting n [] = 0
waiting n (w ∷ ws) = one_if (w.identity == n) + waiting n ws

abbrev pub answers : ℕ → List (ℕ × Answer) → ℕ
answers n [] = 0
answers n ((m, a) ∷ rest) = one_if (m == n) + answers n rest

abbrev pub standing : ConcurrencyGate → ℕ → ℕ
standing g n = waiting n g.foreground + waiting n g.background + answers n g.settled

-- The promises given out are those below `next_waiter`; each stands in one place.
abbrev pub IsSettledOnce : ConcurrencyGate → Type 0
IsSettledOnce g = (n : ℕ) → standing g n ≡ one_if (ltb n g.next_waiter)

waiting-append : (n : ℕ) (xs ys : List Waiter) → waiting n (xs ++ ys) ≡ waiting n xs + waiting n ys
waiting-append n [] ys = omega arith
waiting-append n (w ∷ ws) ys = omega (arith, waiting-append n ws ys)

answers-append :
    (n : ℕ) (xs ys : List (ℕ × Answer)) → answers n (xs ++ ys) ≡ answers n xs + answers n ys
answers-append n [] ys = omega arith
answers-append n ((m, a) ∷ rest) ys = omega (arith, answers-append n rest ys)

waiting-remove_waiter :
    (n k : ℕ) (ws : List Waiter)
    → queued_in k ws ≡ true
    → waiting n ws ≡ waiting n (remove_waiter k ws) + one_if (k == n)
waiting-remove_waiter n k [] h = cc
waiting-remove_waiter n k (w ∷ ws) h = ground (arith, waiting-remove_waiter n k ws)

settle_unavailable-standing :
    (g : ConcurrencyGate) (k n : ℕ) → standing (settle_unavailable g k) n ≡ standing g n
unfolding settle_unavailable
settle_unavailable-standing g k n = ground (
  arith,
  waiting-remove_waiter n k g.foreground,
  waiting-remove_waiter n k g.background,
  answers-append n g.settled ((k, unavailable) ∷ []),
)

serve-standing :
    (g : ConcurrencyGate) (w : Waiter) (rest : ConcurrencyGate) (n : ℕ)
    → shift g ≡ some (w, rest)
    → standing (serve w rest) n ≡ standing g n
unfolding shift serve
serve-standing g w rest n e = ground (
  arith,
  answers-append n g.settled ((w.identity, unavailable) ∷ []),
  answers-append n g.settled ((w.identity, release_of g.next_permit) ∷ []),
)

drain_rounds-standing :
    (fuel : ℕ) (g : ConcurrencyGate) (n : ℕ) → standing (drain_rounds fuel g) n ≡ standing g n
unfolding drain_rounds
drain_rounds-standing zero g n = refl
drain_rounds-standing (suc fuel) g n = elim (Bool-cases (ltb g.active g.limit)) [
  | inr full ↦ rw (full, drain_rounds)
  | inl free ↦ elim (Option-cases (shift g)) [
    | inl e ↦ rw (free, e, drain_rounds)
    | inr ((w, rest), e) ↦
        rw (free, e, drain_rounds)
          (drain_rounds-standing fuel (serve w rest) n ∙ serve-standing g w rest n e)
  ]
]

release-standing : (g : ConcurrencyGate) (p n : ℕ) → standing (release g p) n ≡ standing g n
unfolding release drain
release-standing g p n = elim (Bool-cases (member p g.held)) [
  | inr gone ↦ rw gone
  | inl live ↦ rw live (
      drain_rounds-standing (suc (get_queued g))
        (record g { active = g.active - 1; held = erase p g.held }) n)
]

notify-standing :
    (ws : List Waiter) (g : ConcurrencyGate) (n : ℕ) → standing (notify ws g) n ≡ standing g n
unfolding notify
notify-standing [] g n = refl
notify-standing (w ∷ ws) g n =
    notify-standing ws (settle_unavailable g w.identity) n
    ∙ settle_unavailable-standing g w.identity n

serve-next_waiter :
    (g : ConcurrencyGate) (w : Waiter) (rest : ConcurrencyGate)
    → shift g ≡ some (w, rest)
    → (serve w rest).next_waiter ≡ g.next_waiter
unfolding shift serve
serve-next_waiter g w rest e = ground arith

drain_rounds-next_waiter :
    (fuel : ℕ) (g : ConcurrencyGate) → (drain_rounds fuel g).next_waiter ≡ g.next_waiter
unfolding drain_rounds
drain_rounds-next_waiter zero g = refl
drain_rounds-next_waiter (suc fuel) g = elim (Bool-cases (ltb g.active g.limit)) [
  | inr full ↦ rw (full, drain_rounds)
  | inl free ↦ elim (Option-cases (shift g)) [
    | inl e ↦ rw (free, e, drain_rounds)
    | inr ((w, rest), e) ↦
        rw (free, e, drain_rounds)
          (drain_rounds-next_waiter fuel (serve w rest) ∙ serve-next_waiter g w rest e)
  ]
]

release-next_waiter : (g : ConcurrencyGate) (p : ℕ) → (release g p).next_waiter ≡ g.next_waiter
unfolding release drain
release-next_waiter g p = elim (Bool-cases (member p g.held)) [
  | inr gone ↦ rw gone
  | inl live ↦ rw live (
      drain_rounds-next_waiter (suc (get_queued g))
        (record g { active = g.active - 1; held = erase p g.held }))
]

notify-next_waiter :
    (ws : List Waiter) (g : ConcurrencyGate) → (notify ws g).next_waiter ≡ g.next_waiter
unfolding notify
notify-next_waiter [] g = refl
notify-next_waiter (w ∷ ws) g =
    notify-next_waiter ws (settle_unavailable g w.identity) ∙ ground arith

acquire-IsSettledOnce :
    (g : ConcurrencyGate) (o : AcquireOptions) → IsSettledOnce g → IsSettledOnce (acquire g o)
unfolding acquire
acquire-IsSettledOnce g o h n = grind (arith, h n, answers-append, waiting-append)

step-IsSettledOnce : (g : ConcurrencyGate) (e : Event) → IsSettledOnce g → IsSettledOnce (step g e)
unfolding step try_acquire abort settle_unavailable
step-IsSettledOnce g tries h n = ground (arith, h n)
step-IsSettledOnce g (acquires o) h n = acquire-IsSettledOnce g o h n
step-IsSettledOnce g (releases p) h n = rw (release-standing g p n, release-next_waiter g p) (h n)
step-IsSettledOnce g (times_out k) h n =
    settle_unavailable-standing g k n ∙ h n ∙ ap (λ m. one_if (ltb n m)) (ground arith)
step-IsSettledOnce g (aborts s) h n =
    let told = filter (listens s) (g.foreground ++ g.background) in
    let g' : ConcurrencyGate = record g { aborted = s ∷ g.aborted } in
    notify-standing told g' n ∙ h n ∙ ap (λ m. one_if (ltb n m)) (sym (notify-next_waiter told g'))

run-IsSettledOnce :
    (g : ConcurrencyGate) (es : List Event) → IsSettledOnce g → IsSettledOnce (run g es)
unfolding run
run-IsSettledOnce g [] h = h
run-IsSettledOnce g (e ∷ es) h = run-IsSettledOnce (step g e) es (step-IsSettledOnce g e h)

-- After any sequence of events on a new gate, each promise that a call of `acquire` gave out stands
-- exactly once among the waiters and the settled promises, and no other promise does: none is
-- lost, settled twice, or left in a queue once it is settled.
pub run-new_gate-standing :
    (limit max_queue ms : ℕ) (es : List Event) (n : ℕ)
    → let g = run (new_gate limit max_queue ms) es in standing g n ≡ one_if (ltb n g.next_waiter)
unfolding new_gate
run-new_gate-standing limit max_queue ms es =
    run-IsSettledOnce (new_gate limit max_queue ms) es (λ n. ground arith)
