-- ===== src/LinkSessions/Exclusive.antt =====
-- One claim at a time works on a link session.

use chat2api_web_gateway.Crypto.{Crypto, constant_time_equal}
use chat2api_web_gateway.Prelude.{
  leb, ◌===◌, Bool-cases, Option-cases, length, All, get, put, remove, get-put, get-remove,
  get-put_self, ℕ, String, ◌≡◌, refl, inl, inr, Bool, true, false, not, ◌||◌, Option, none, some,
  List, [], ◌∷◌, arith,
}
use chat2api_web_gateway.LinkSessions.{
  DeepSeekLinkStatus, waiting, validating, complete, cancelled, DeepSeekLinkTransport,
  DeepSeekLinkRecord, ready, DeepSeekLinkClaim, Sessions, max_pending_links, purge_loop, oldest_id,
  make_room, create, answer_claim, is_refused, claim, is_validating, fail, finish, is_complete,
  cancel, Event, creates, claims, fails, finishes, cancels, clears, step, run,
}

abbrev pub is_waiting : DeepSeekLinkStatus → Bool
is_waiting s = elim s [ waiting ↦ true | _ ↦ false ]

-- The session is not open to a claim that starts work.
abbrev pub IsTaken : String → Sessions → Type 0
IsTaken id m = (r : DeepSeekLinkRecord) → get id m ≡ some r → is_waiting r.status ≡ false

remove-IsTaken : (id k : String) (m : Sessions) → IsTaken id m → IsTaken id (remove k m)
remove-IsTaken id k m h r e = ground (arith, get-remove k id m, h r)

put-IsTaken :
    (id k : String) (v : DeepSeekLinkRecord) (m : Sessions)
    → (is_waiting v.status ≡ true → (k === id) ≡ false)
    → IsTaken id m
    → IsTaken id (put k v m)
put-IsTaken id k v m w h r e = ground (arith, get-put k id v m, h r, w)

purge_loop-IsTaken :
    (id : String) (now : ℕ) (xs m : Sessions) → IsTaken id m → IsTaken id (purge_loop now xs m)
unfolding purge_loop
purge_loop-IsTaken id now [] m h = h
purge_loop-IsTaken id now ((k, r) ∷ xs) m h = elim (Bool-cases (leb r.expires_at now)) [
  | inl over ↦ rw over (purge_loop-IsTaken id now xs (remove k m) (remove-IsTaken id k m h))
  | inr kept ↦ rw kept (purge_loop-IsTaken id now xs m h)
]

-- An event that may open the session again: its failure, or a new session of that identifier.
abbrev pub reopens : String → Event → Bool
reopens id (fails k code message) = k === id
reopens id (creates input k secrets now) = k === id
reopens id _ = false

make_room-IsTaken : (id : String) (m : Sessions) → IsTaken id m → IsTaken id (make_room m)
unfolding make_room
make_room-IsTaken id m h = elim (Bool-cases (leb max_pending_links (length m))) [
  | inr short ↦ rw short h
  | inl full ↦ elim (Option-cases (oldest_id m)) [
    | inl empty ↦ rw (full, empty) h
    | inr (k, oldest) ↦ rw (full, oldest) (remove-IsTaken id k m h)
  ]
]

answer_claim-IsTaken :
    (id k : String) (m : Sessions) (r : DeepSeekLinkRecord) (s : DeepSeekLinkStatus)
    → IsTaken id m
    → IsTaken id (answer_claim m k r s).0
unfolding answer_claim
answer_claim-IsTaken id k m r complete h = h
answer_claim-IsTaken id k m r validating h = h
answer_claim-IsTaken id k m r cancelled h = h
answer_claim-IsTaken id k m r waiting h = put-IsTaken id k _ m (λ w. absurd (ground (arith, w))) h

nil-IsTaken : (id : String) → IsTaken id []
unfolding get
nil-IsTaken id r e = absurd (ground (arith, e))

claim-IsTaken :
    (crypto : Crypto) (id k secret : String) (m : Sessions) (transport : DeepSeekLinkTransport)
    (now : ℕ)
    → IsTaken id m
    → IsTaken id (claim crypto m k secret transport now).0
unfolding claim
claim-IsTaken crypto id k secret m transport now h = elim (Option-cases (get k m)) [
  | inl gone ↦ rw (gone, claim) h
  | inr (r, here) ↦ elim (Bool-cases (is_refused crypto r secret transport now)) [
    | inl shut ↦ rw (here, shut, claim) h
    | inr let_in ↦ rw (here, let_in, claim) (answer_claim-IsTaken id k m r r.status h)
  ]
]

fail-IsTaken :
    (id k code message : String) (m : Sessions)
    → (k === id) ≡ false
    → IsTaken id m
    → IsTaken id (fail m k code message)
unfolding fail
fail-IsTaken id k code message m other h = elim (Option-cases (get k m)) [
  | inl gone ↦ rw (gone, fail) h
  | inr (r, here) ↦ elim (Bool-cases (is_validating r.status)) [
    | inl working ↦ rw (here, working, fail) (put-IsTaken id k _ m (λ w. other) h)
    | inr idle ↦ rw (here, idle, fail) h
  ]
]

finish-IsTaken :
    (id k account_id : String) (m : Sessions) → IsTaken id m → IsTaken id (finish m k account_id)
unfolding finish
finish-IsTaken id k account_id m h = elim (Option-cases (get k m)) [
  | inl gone ↦ rw (gone, finish) h
  | inr (r, here) ↦ elim (Bool-cases (is_validating r.status)) [
    | inl working ↦
        rw (here, working, finish) (put-IsTaken id k _ m (λ w. absurd (ground (arith, w))) h)
    | inr idle ↦ rw (here, idle, finish) h
  ]
]

cancel-IsTaken :
    (crypto : Crypto) (id k owner_nonce : String) (m : Sessions)
    → IsTaken id m
    → IsTaken id (cancel crypto m k owner_nonce).0
unfolding cancel
cancel-IsTaken crypto id k owner_nonce m h = elim (Option-cases (get k m)) [
  | inl gone ↦ rw (gone, cancel) h
  | inr (r, here) ↦
      elim (Bool-cases
        (not (constant_time_equal crypto r.owner_nonce owner_nonce) || is_complete r.status)) [
          | inl shut ↦ rw (here, shut, cancel) h
          | inr let_in ↦
              rw (here, let_in, cancel) (put-IsTaken id k _ m (λ w. absurd (ground (arith, w))) h)
        ]
]

step-IsTaken :
    (crypto : Crypto) (id : String) (m : Sessions) (e : Event)
    → reopens id e ≡ false
    → IsTaken id m
    → IsTaken id (step crypto m e)
unfolding step create
step-IsTaken crypto id m (creates input k secrets now) other h =
    put-IsTaken id k _ (make_room (purge_loop now m m)) (λ w. other)
      (make_room-IsTaken id (purge_loop now m m) (purge_loop-IsTaken id now m m h))
step-IsTaken crypto id m (claims k secret transport now) other h =
    claim-IsTaken crypto id k secret m transport now h
step-IsTaken crypto id m (fails k code message) other h = fail-IsTaken id k code message m other h
step-IsTaken crypto id m (finishes k account_id) other h = finish-IsTaken id k account_id m h
step-IsTaken crypto id m (cancels k owner_nonce) other h =
    cancel-IsTaken crypto id k owner_nonce m h
step-IsTaken crypto id m clears other h = nil-IsTaken id

run-IsTaken :
    (crypto : Crypto) (id : String) (m : Sessions) (es : List Event)
    → All (λ e. reopens id e ≡ false) es
    → IsTaken id m
    → IsTaken id (run crypto m es)
unfolding run
run-IsTaken crypto id m [] k h = h
run-IsTaken crypto id m (e ∷ es) (k, ks) h =
    run-IsTaken crypto id (step crypto m e) es ks (step-IsTaken crypto id m e k h)

-- Whether a claim was told to start work.
abbrev pub is_ready : Option DeepSeekLinkClaim → Bool
is_ready none = false
is_ready (some c) = elim c.kind [ ready ↦ true | _ ↦ false ]

answer_claim-ready :
    (m : Sessions) (id : String) (r : DeepSeekLinkRecord) (s : DeepSeekLinkStatus)
    → is_ready (answer_claim m id r s).1 ≡ true
    → IsTaken id (answer_claim m id r s).0
unfolding answer_claim
answer_claim-ready m id r complete h = absurd (ground (arith, h))
answer_claim-ready m id r validating h = absurd (ground (arith, h))
answer_claim-ready m id r cancelled h = absurd (ground (arith, h))
answer_claim-ready m id r waiting h = λ v e.
    let v' = record r { status = validating; error_code = none; error_message = none } in
    ground (arith, e, get-put_self id v' m)

answer_claim-taken :
    (m : Sessions) (id : String) (r : DeepSeekLinkRecord) (s : DeepSeekLinkStatus)
    → is_waiting s ≡ false
    → is_ready (answer_claim m id r s).1 ≡ false
unfolding answer_claim
answer_claim-taken m id r complete h = refl
answer_claim-taken m id r validating h = refl
answer_claim-taken m id r cancelled h = refl
answer_claim-taken m id r waiting h = absurd (ground (arith, h))

ready-IsTaken :
    (crypto : Crypto) (m : Sessions) (id secret : String) (transport : DeepSeekLinkTransport)
    (now : ℕ)
    → is_ready (claim crypto m id secret transport now).1 ≡ true
    → IsTaken id (claim crypto m id secret transport now).0
unfolding claim
ready-IsTaken crypto m id secret transport now h = elim (Option-cases (get id m)) [
  | inl gone ↦ let h' : is_ready none ≡ true = rw (gone, claim) at h in absurd (ground (arith, h'))
  | inr (r, here) ↦ elim (Bool-cases (is_refused crypto r secret transport now)) [
    | inl shut ↦
        let h' : is_ready none ≡ true = rw (here, shut, claim) at h in absurd (ground (arith, h'))
    | inr let_in ↦
        let h' : is_ready (answer_claim m id r r.status).1 ≡ true = rw (here, let_in, claim) at h in
        rw (here, let_in, claim) (answer_claim-ready m id r r.status h')
  ]
]

taken-claim :
    (crypto : Crypto) (m : Sessions) (id secret : String) (transport : DeepSeekLinkTransport)
    (now : ℕ)
    → IsTaken id m
    → is_ready (claim crypto m id secret transport now).1 ≡ false
unfolding claim
taken-claim crypto m id secret transport now h = elim (Option-cases (get id m)) [
  | inl gone ↦ rw (gone, claim) refl
  | inr (r, here) ↦ elim (Bool-cases (is_refused crypto r secret transport now)) [
    | inl shut ↦ rw (here, shut, claim) refl
    | inr let_in ↦ rw (here, let_in, claim) (answer_claim-taken m id r r.status (h r here))
  ]
]

-- After a claim that was told to start work no claim of the same session is, whatever its secret and
-- whatever happens in between, as long as the work is not reported as failed and no new session is
-- given the same identifier.
pub claim-run-claim :
    (crypto : Crypto) (m : Sessions) (id secret secret' : String)
    (transport transport' : DeepSeekLinkTransport) (now now' : ℕ) (es : List Event)
    → is_ready (claim crypto m id secret transport now).1 ≡ true
    → All (λ e. reopens id e ≡ false) es
    → let later = run crypto (claim crypto m id secret transport now).0 es in
      is_ready (claim crypto later id secret' transport' now').1 ≡ false
claim-run-claim crypto m id secret secret' transport transport' now now' es h k =
    taken-claim crypto (run crypto (claim crypto m id secret transport now).0 es) id secret'
      transport' now'
      (run-IsTaken crypto id (claim crypto m id secret transport now).0 es k
        (ready-IsTaken crypto m id secret transport now h))
