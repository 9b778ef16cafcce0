-- ===== src/Concurrency/Handover.antt =====
-- Which waiter a released permit goes to, and that a release closure works once.
use chat2api_web_gateway.Prelude.{
  ltb, lt→ltb, Bool-cases, Option-cases, length, filter, length-append, ℕ, zero, suc, ◌+◌, ◌-◌, ◌≤◌,
  ◌<◌, ◌≡◌, refl, ap, ◌∙◌, inl, inr, true, false, some, List, [], ◌∷◌, ◌++◌, arith,
}
use chat2api_web_gateway.Concurrency.Invariant.{Below, length-erase, IsValid, IsBusy}
use chat2api_web_gateway.Concurrency.{
  Waiter, release_of, ConcurrencyGate, member, signal_aborted, get_queued, grant, try_acquire,
  settle, acquire, shift, serve, drain_rounds, drain, erase, release, settle_unavailable, listens,
  notify, abort, Event, tries, acquires, releases, times_out, aborts, step, run,
}

shift-first :
    (g : ConcurrencyGate) (w : Waiter) (ws : List Waiter)
    → g.foreground ++ g.background ≡ w ∷ ws
    → (rest : ConcurrencyGate) × (shift g ≡ some (w, rest))
      × (rest.foreground ++ rest.background ≡ ws)
      × (rest ≡ record g { foreground = rest.foreground; background = rest.background })
unfolding shift
shift-first g w ws e = first g.foreground g.background refl refl
  where
    first :
        (fs bs : List Waiter)
        → g.foreground ≡ fs
        → g.background ≡ bs
        → (rest : ConcurrencyGate) × (shift g ≡ some (w, rest))
          × (rest.foreground ++ rest.background ≡ ws)
          × (rest ≡ record g { foreground = rest.foreground; background = rest.background })
    first [] [] p q = absurd (ground arith)
    first [] (b ∷ bs) p q = (record g { background = bs }, ground arith, ground arith, refl)
    first (f ∷ fs) bs p q = (record g { foreground = fs }, ground arith, ground arith, refl)

drain_rounds-full : (fuel : ℕ) (g : ConcurrencyGate) → g.limit ≤ g.active → drain_rounds fuel g ≡ g
unfolding drain_rounds
drain_rounds-full zero g h = refl
drain_rounds-full (suc fuel) g h = ground arith

-- One round serves the first waiter and fills the gate.
drain-once :
    (g : ConcurrencyGate) (w : Waiter) (rest : ConcurrencyGate)
    → shift g ≡ some (w, rest)
    → rest.active ≡ g.active
    → rest.limit ≡ g.limit
    → g.active + 1 ≡ g.limit
    → signal_aborted rest w.signal ≡ false
    → drain g ≡ settle w.identity (release_of rest.next_permit) (grant rest)
unfolding drain drain_rounds serve
drain-once g w rest e same_active same_limit h wants =
    let full =
      drain_rounds-full (get_queued g)
        (settle w.identity (release_of rest.next_permit) (grant rest)) (omega arith) in
    rw (lt→ltb g.active g.limit (omega arith), e, drain_rounds, wants) full

-- Releasing a held permit while somebody waits gives a new permit to the first waiter, those in
-- the foreground before those in the background and each queue in order of arrival, if its signal
-- is not aborted: its promise is settled, nobody else's, and `active` stays as it was.
pub release-serves_first :
    (g : ConcurrencyGate) (p : ℕ) (w : Waiter) (ws : List Waiter)
    → IsValid g
    → IsBusy g
    → member p g.held ≡ true
    → g.foreground ++ g.background ≡ w ∷ ws
    → signal_aborted g w.signal ≡ false
    → ((release g p).foreground ++ (release g p).background ≡ ws)
      × ((release g p).settled ≡ g.settled ++ (w.identity, release_of g.next_permit) ∷ [])
      × ((release g p).held ≡ g.next_permit ∷ erase p g.held)
      × ((release g p).active ≡ g.active)
unfolding release
release-serves_first g p w ws v b live order wants =
    let h : ConcurrencyGate = record g { active = g.active - 1; held = erase p g.held } in
    let (rest, e, left, same) = shift-first h w ws order in
    let waiting : 0 < get_queued g =
      omega (arith, length-append g.foreground g.background, ap length order) in
    let some_held = length-erase g.next_permit p g.held v.distinct live in
    let full : g.active ≡ g.limit = ground arith in
    let once =
      drain-once h w rest e (ap (λ (q : ConcurrencyGate). q.active) same)
        (ap (λ (q : ConcurrencyGate). q.limit) same) (omega (arith, v.counted))
        (ap (λ (q : ConcurrencyGate). signal_aborted q w.signal) same ∙ wants) in
    rw (live, once)
      (
        left,
        ap (λ (q : ConcurrencyGate). q.settled ++ (w.identity, release_of q.next_permit) ∷ []) same,
        ap (λ (q : ConcurrencyGate). q.next_permit ∷ q.held) same,
        omega (arith, v.counted, ap (λ (q : ConcurrencyGate). q.active) same),
      )

-- A permit that was given out and is no longer held.
record IsSpent (p : ℕ) (g : ConcurrencyGate) : Type 0 where
  given : p < g.next_permit
  returned : member p g.held ≡ false

serve-IsSpent :
    (p : ℕ) (g : ConcurrencyGate) (w : Waiter) (rest : ConcurrencyGate)
    → shift g ≡ some (w, rest)
    → IsSpent p g
    → IsSpent p (serve w rest)
unfolding shift serve
serve-IsSpent p g w rest e s = ground arith

drain_rounds-IsSpent :
    (p fuel : ℕ) (g : ConcurrencyGate) → IsSpent p g → IsSpent p (drain_rounds fuel g)
unfolding drain_rounds
drain_rounds-IsSpent p zero g s = s
drain_rounds-IsSpent p (suc fuel) g s = elim (Bool-cases (ltb g.active g.limit)) [
  | inr full ↦ rw (full, drain_rounds) s
  | inl free ↦ elim (Option-cases (shift g)) [
    | inl e ↦ rw (free, e, drain_rounds) s
    | inr ((w, rest), e) ↦
        rw (free, e, drain_rounds)
          (drain_rounds-IsSpent p fuel (serve w rest) (serve-IsSpent p g w rest e s))
  ]
]

member-erase_self : (p : ℕ) (ms : List ℕ) → member p (erase p ms) ≡ false
member-erase_self p [] = refl
member-erase_self p (m ∷ ms) = ground (arith, member-erase_self p ms)

member-erase : (p q : ℕ) (ms : List ℕ) → member p ms ≡ false → member p (erase q ms) ≡ false
member-erase p q [] h = refl
member-erase p q (m ∷ ms) h = ground (arith, member-erase p q ms)

member-lt : (p n : ℕ) (ms : List ℕ) → Below n ms → member p ms ≡ true → p < n
member-lt p n [] b h = cc
member-lt p n (m ∷ ms) b h = ground (arith, member-lt p m ms b.1)

release-IsSpent : (p q : ℕ) (g : ConcurrencyGate) → IsSpent p g → IsSpent p (release g q)
unfolding release drain
release-IsSpent p q g s = elim (Bool-cases (member q g.held)) [
  | inr gone ↦ rw gone s
  | inl live ↦ rw live (
      drain_rounds-IsSpent p (suc (get_queued g))
        (record g { active = g.active - 1; held = erase q g.held })
        (record { given = s.given; returned = member-erase p q g.held s.returned }))
]

notify-IsSpent :
    (p : ℕ) (ws : List Waiter) (g : ConcurrencyGate) → IsSpent p g → IsSpent p (notify ws g)
unfolding notify
notify-IsSpent p [] g s = s
notify-IsSpent p (w ∷ ws) g s = notify-IsSpent p ws (settle_unavailable g w.identity) (ground arith)

step-IsSpent : (p : ℕ) (g : ConcurrencyGate) (e : Event) → IsSpent p g → IsSpent p (step g e)
unfolding step try_acquire acquire settle_unavailable abort
step-IsSpent p g tries s = ground arith
step-IsSpent p g (acquires o) s = grind arith
step-IsSpent p g (releases q) s = release-IsSpent p q g s
step-IsSpent p g (times_out n) s = ground arith
step-IsSpent p g (aborts t) s =
    let h : ConcurrencyGate = record g { aborted = t ∷ g.aborted } in
    notify-IsSpent p (filter (listens t) (g.foreground ++ g.background)) h
      (record { given = s.given; returned = s.returned })

run-IsSpent : (p : ℕ) (g : ConcurrencyGate) (es : List Event) → IsSpent p g → IsSpent p (run g es)
unfolding run
run-IsSpent p g [] s = s
run-IsSpent p g (e ∷ es) s = run-IsSpent p (step g e) es (step-IsSpent p g e s)

release_spent : (p : ℕ) (g : ConcurrencyGate) → IsSpent p g → release g p ≡ g
unfolding release
release_spent p g s = rw s.returned

release_held-IsSpent :
    (g : ConcurrencyGate) (p : ℕ) → IsValid g → member p g.held ≡ true → IsSpent p (release g p)
unfolding release drain
release_held-IsSpent g p v live =
    let h : ConcurrencyGate = record g { active = g.active - 1; held = erase p g.held } in
    rw live (
      drain_rounds-IsSpent p (suc (get_queued g)) h (record {
        given = member-lt p g.next_permit g.held v.distinct live;
        returned = member-erase_self p g.held;
      }))

-- A release closure works once: after it ran on a gate with the invariant, and after any further
-- events, to run it again changes nothing.
pub release-run-release :
    (g : ConcurrencyGate) (p : ℕ) (es : List Event)
    → IsValid g
    → member p g.held ≡ true
    → release (run (release g p) es) p ≡ run (release g p) es
release-run-release g p es v live =
    release_spent p (run (release g p) es)
      (run-IsSpent p (release g p) es (release_held-IsSpent g p v live))
