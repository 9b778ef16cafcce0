-- ===== src/SessionPool.antt =====
-- src/main/proxy/adapters/deepseek-session-pool.ts: the pool of upstream conversations.
-- An entry is an object that the maps and the locals of a running `acquire` share, so entries stand
-- in `entries` and are named by their position there. `acquire` is cut at its awaits: `acquire_start`
-- up to the loop, `retire_next` for each turn of the loop up to its await, `choose` from the end of
-- the loop to the return or to the await of `create`, and `adopt` for what follows that await.
-- `serialize` lets one `acquire` run for each key (`Event` guards its start); times are arguments.
pub mod Rising
pub mod Counters
pub mod Leases
pub mod Race
mod Examples
use mathlib.Core.Option.{get_or}
use chat2api_web_gateway.Prelude.{
  ltb, leb, ◌==◌, ◌===◌, if◌then◌else◌, length, filter, find, get_elem?, get, put, remove, ℕ, zero,
  suc, ◌+◌, String, Bool, true, false, not, ◌&&◌, ◌||◌, Option, none, some, List, [], ◌∷◌, ◌++◌,
}

pub record DeepSeekSessionLease : Type 0 where
  pub session_id : String
  pub reused : Bool

pub record DeepSeekSessionPoolState : Type 0 where
  pub active : ℕ
  pub idle : ℕ
  pub created : ℕ
  pub reused : ℕ
  pub retired : ℕ
  pub invalidated : ℕ

pub record SessionEntry : Type 0 where
  pub session_id : String
  pub expires_at : ℕ
  pub in_use : Bool

pub record ReleaseResult : Type 0 where
  pub found : Bool
  pub retired : Bool

pub record DeepSeekSessionPool : Type 0 where
  pub entries : List SessionEntry
  pub sessions : List (String × List ℕ)
  pub created : ℕ
  pub reused : ℕ
  pub retired : ℕ
  pub invalidated : ℕ

-- The locals of an `acquire` that waits: `current_time`, `ttlMs`, `available`, what the loop has left
-- of `expired`, and whether it waits for `create` and no longer for `retire`.
pub record Acquiring : Type 0 where
  pub current_time : ℕ
  pub ttl_ms : ℕ
  pub available : List ℕ
  pub expired : List ℕ
  pub creating : Bool

pub new_pool : DeepSeekSessionPool
new_pool = record {
  entries = [];
  sessions = [];
  created = 0;
  reused = 0;
  retired = 0;
  invalidated = 0;
}

-- A test on the entry at an address.
abbrev pub entry_is : DeepSeekSessionPool → (SessionEntry → Bool) → ℕ → Bool
entry_is p test a = elim (get_elem? p.entries a) [ none ↦ false | some e ↦ test e ]

abbrev pub is_expired : ℕ → SessionEntry → Bool
is_expired now e = not e.in_use && leb e.expires_at now

abbrev pub is_available : ℕ → SessionEntry → Bool
is_available now e = e.in_use || ltb now e.expires_at

-- `if (entries.length > 0) this.sessions.set(key, entries) else this.sessions.delete(key)`.
abbrev pub set_or_delete : String → List ℕ → List (String × List ℕ) → List (String × List ℕ)
set_or_delete key [] m = remove key m
set_or_delete key (a ∷ as') m = put key (a ∷ as') m

abbrev pub entries_of : DeepSeekSessionPool → String → List ℕ
entries_of p key = get_or (get key p.sessions) []

unfoldable pub acquire_start :
    DeepSeekSessionPool → String → ℕ → ℕ → DeepSeekSessionPool × Acquiring
acquire_start p key ttl_ms now =
    let existing = entries_of p key in
    let available = filter (λ a. entry_is p (is_available now) a) existing in
    let expired = filter (λ a. entry_is p (is_expired now) a) existing in
    (
      record p { sessions = set_or_delete key available p.sessions },
      record {
        current_time = now;
        ttl_ms = ttl_ms;
        available = available;
        expired = expired;
        creating = false;
      },
    )

abbrev pub session_at : DeepSeekSessionPool → ℕ → String
session_at p a = elim (get_elem? p.entries a) [ none ↦ "" | some e ↦ e.session_id ]

-- One turn of the loop: the conversation to delete upstream, counted before the await.
unfoldable pub retire_next :
    DeepSeekSessionPool → Acquiring → Option (String × DeepSeekSessionPool × Acquiring)
retire_next p l = elim l.expired [
  | [] ↦ none
  | a ∷ rest ↦
      some (session_at p a, record p { retired = p.retired + 1 }, record l { expired = rest })
]

-- `entry.inUse = used` for the entry at an address.
abbrev pub set_in_use : List SessionEntry → ℕ → Bool → List SessionEntry
set_in_use [] a used = []
set_in_use (e ∷ es) zero used = record e { in_use = used } ∷ es
set_in_use (e ∷ es) (suc a) used = e ∷ set_in_use es a used

abbrev pub mark : DeepSeekSessionPool → ℕ → Bool → DeepSeekSessionPool
mark p a used = record p { entries = set_in_use p.entries a used }

-- After the loop: the first entry of `available` that is not in use; `none` waits for `create`.
unfoldable pub choose :
    DeepSeekSessionPool → Acquiring → Option (DeepSeekSessionPool × DeepSeekSessionLease)
choose p l = elim (find (λ a. entry_is p (λ e. not e.in_use) a) l.available) [
  | none ↦ none
  | some a ↦
      let q = mark p a true in
      some
        (record q { reused = q.reused + 1 }, record { session_id = session_at p a; reused = true })
]

-- After `await create()`.
unfoldable pub adopt :
    DeepSeekSessionPool → String → Acquiring → String → DeepSeekSessionPool × DeepSeekSessionLease
adopt p key l session_id =
    let entry : SessionEntry = record {
      session_id = session_id;
      expires_at = l.current_time + l.ttl_ms;
      in_use = true;
    } in
    (
      record p {
        entries = p.entries ++ entry ∷ [];
        sessions = put key (entries_of p key ++ length p.entries ∷ []) p.sessions;
        created = p.created + 1;
      },
      record { session_id = session_id; reused = false },
    )

abbrev pub holds : DeepSeekSessionPool → String → ℕ → Bool
holds p session_id a = entry_is p (λ e. e.session_id === session_id) a

abbrev pub remove_entry : DeepSeekSessionPool → String → ℕ → DeepSeekSessionPool
remove_entry p key a = record p {
  sessions = set_or_delete key (filter (λ b. not (b == a)) (entries_of p key)) p.sessions;
}

unfoldable pub release :
    DeepSeekSessionPool → String → String → ℕ → DeepSeekSessionPool × ReleaseResult
release p key session_id now = elim (find (holds p session_id) (entries_of p key)) [
  | none ↦ (p, record { found = false; retired = false })
  | some a ↦
      let q = mark p a false in
      if entry_is p (λ e. ltb now e.expires_at) a
      then (q, record { found = true; retired = false })
      else let r = remove_entry q key a in
        (record r { retired = r.retired + 1 }, record { found = true; retired = true })
]

unfoldable pub invalidate : DeepSeekSessionPool → String → String → DeepSeekSessionPool × Bool
invalidate p key session_id = elim (find (holds p session_id) (entries_of p key)) [
  | none ↦ (p, false)
  | some a ↦ let r = remove_entry p key a in (record r { invalidated = r.invalidated + 1 }, true)
]

-- `[...this.sessions.values()].flat()`.
abbrev pub flat : List (String × List ℕ) → List ℕ
flat [] = []
flat ((key, addresses) ∷ m) = addresses ++ flat m

pub state : DeepSeekSessionPool → DeepSeekSessionPoolState
state p = record {
  active = length (filter (λ a. entry_is p (λ e. e.in_use) a) (flat p.sessions));
  idle = length (filter (λ a. entry_is p (λ e. not e.in_use) a) (flat p.sessions));
  created = p.created;
  reused = p.reused;
  retired = p.retired;
  invalidated = p.invalidated;
}

-- The pool and the calls of `acquire` that wait, one for a key.
pub record World : Type 0 where
  pub pool : DeepSeekSessionPool
  pub acquiring : List (String × Acquiring)

pub data Event : Type 0 where
  starts : String → ℕ → ℕ → Event
  resumes : String → Event
  creates : String → String → Event
  create_fails : String → Event
  releases : String → String → ℕ → Event
  invalidates : String → String → Event

-- The code between two awaits of the `acquire` for a key: the next turn of the loop, or the choice.
unfoldable pub advance :
    DeepSeekSessionPool → List (String × Acquiring) → String → Acquiring → World
unfolding retire_next choose
advance p others key l = elim (retire_next p l) [
  | some (session_id, q, l') ↦ record { pool = q; acquiring = put key l' others }
  | none ↦ elim (choose p l) [
    | some (q, lease) ↦ record { pool = q; acquiring = remove key others }
    | none ↦ record { pool = p; acquiring = put key (record l { creating = true }) others }
  ]
]

-- What the environment may let happen next; an event that cannot happen changes nothing.
unfoldable pub step : World → Event → World
unfolding acquire_start advance adopt release invalidate
step w (starts key ttl_ms now) = elim (get key w.acquiring) [
  | some l ↦ w
  | none ↦ let (p, l) = acquire_start w.pool key ttl_ms now in advance p w.acquiring key l
]
step w (resumes key) = elim (get key w.acquiring) [
  | none ↦ w
  | some l ↦ if l.creating then w else advance w.pool w.acquiring key l
]
step w (creates key session_id) = elim (get key w.acquiring) [
  | none ↦ w
  | some l ↦
      if l.creating
      then record { pool = (adopt w.pool key l session_id).0; acquiring = remove key w.acquiring }
      else w
]
step w (create_fails key) = elim (get key w.acquiring) [
  | none ↦ w
  | some l ↦ if l.creating then record w { acquiring = remove key w.acquiring } else w
]
step w (releases key session_id now) = record w { pool = (release w.pool key session_id now).0 }
step w (invalidates key session_id) = record w { pool = (invalidate w.pool key session_id).0 }

unfoldable pub run : World → List Event → World
run w [] = w
run w (e ∷ es) = run (step w e) es
