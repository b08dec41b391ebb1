-- ===== src/Bus/Line.antt =====
-- internal/bus/bus.go: the jobs, their order, and what the bus does about failures. A job's result,
-- the reopening of the port and the time are arguments.
pub mod Order
pub mod Reporting
use freeway_pi.Base.{
  ℕ, zero, suc, ◌+◌, ◌-◌, ◌*◌, ◌/◌, ◌%◌, ◌^◌, ◌≤◌, ◌<◌, min, max, ◌≡◌, refl, sym, ap, ap₂, subst,
  ◌∙◌, fun_ext, ◌≢◌, ◌↔◌, ◌⊎◌, inl, inr, Bool, true, false, not, ◌&&◌, ◌||◌, Option, none, some,
  List, [], ◌∷◌, ◌++◌, map, arith, ltb, leb, ◌==◌, if◌then◌else◌, ltb→lt, lt→ltb, leb→le, ==_iff,
  Bool-cases, Option-cases, nonzero, length, get_or, set, take, drop, replicate, length-append,
  length-take, length-drop, length-replicate, take-append, drop-append, All, length-map, All-append,
  All-append_left, All-append_right, length-set, get_or-set_self, get_or-set_ne, get_or-drop,
  drop-nil, drop-drop, Result, ◌>>=◌, ◌>>◌, fail_if, ok, err,
}

pub data Priority : Type 0 where
  write : Priority
  client : Priority
  poll : Priority

-- The jobs that wait, the oldest first.
pub record Queues (J : Type 0) : Type 0 where
  pub writes : List J
  pub clients : List J
  pub polls : List J

unfoldable pub send : {J : Type 0} → Priority → J → Queues J → Queues J
send write j q = record q { writes = q.writes ++ (j ∷ []) }
send client j q = record q { clients = q.clients ++ (j ∷ []) }
send poll j q = record q { polls = q.polls ++ (j ∷ []) }

-- A `select` of `next` takes one of its ready cases, whichever Go picks. The queues are read at that
-- moment: other callers may have sent jobs since the `select` before it.
pub data Picks {J : Type 0} : Queues J → Priority → J → Queues J → Type 0 where
  picks_write :
      {w c p : List J} {j : J}
      → Picks
          (record { writes = j ∷ w; clients = c; polls = p })
          write
          j
          (record { writes = w; clients = c; polls = p })
  picks_client :
      {w c p : List J} {j : J}
      → Picks
          (record { writes = w; clients = j ∷ c; polls = p })
          client
          j
          (record { writes = w; clients = c; polls = p })
  picks_poll :
      {w c p : List J} {j : J}
      → Picks
          (record { writes = w; clients = c; polls = j ∷ p })
          poll
          j
          (record { writes = w; clients = c; polls = p })

-- `next` on an open bus: the queues as each of its three selects finds them. A `default` is taken
-- where no case is ready.
pub data Next {J : Type 0} (q1 q2 q3 : Queues J) : Priority → J → Queues J → Type 0 where
  first : {j : J} {r : Queues J} → Picks q1 write j r → Next q1 q2 q3 write j r
  second :
      {p : Priority} {j : J} {r : Queues J}
      → q1.writes ≡ []
      → p ≢ poll
      → Picks q2 p j r
      → Next q1 q2 q3 p j r
  third :
      {p : Priority} {j : J} {r : Queues J}
      → q1.writes ≡ []
      → q2.writes ≡ []
      → q2.clients ≡ []
      → Picks q3 p j r
      → Next q1 q2 q3 p j r

-- The lines of the journal.
pub data Message : Type 0 where
  answering_again : Message
  could_not_reopen : Message
  reopened : Message

pub record Line : Type 0 where
  pub consecutive : ℕ
  pub reopens : ℕ
  pub reopen_failed : Bool

abbrev pub reopen_after : ℕ
reopen_after = 12

unfoldable pub healthy : Line
healthy = record { consecutive = 0; reopens = 0; reopen_failed = false }

-- The end of `serve`, with what `reopen` answers: true where it worked.
unfoldable pub after_reopen : Bool → Line → Line × List Message
after_reopen false l =
    if l.reopen_failed then (l, []) else (record l { reopen_failed = true }, could_not_reopen ∷ [])
after_reopen true l =
    if l.reopen_failed || l.reopens == 1
    then (record l { reopen_failed = false }, reopened ∷ [])
    else (l, [])

-- What a job is, as `serve` sees it: given up by its caller, which then is not run, or answered, or a
-- failure with what a reopening of the port would do at that moment. A bus without `reopen` keeps
-- counting.
pub data Outcome : Type 0 where
  given_up : Outcome
  answered : Outcome
  failed : (reopen_works : Bool) → Outcome

unfoldable pub serve : (can_reopen : Bool) → Outcome → Line → Line × List Message
serve can_reopen given_up l = (l, [])
serve can_reopen answered l =
    if ltb 0 l.reopens then (healthy, answering_again ∷ []) else (healthy, [])
serve can_reopen (failed works) l =
    if not can_reopen || ltb (l.consecutive + 1) reopen_after
    then (record l { consecutive = l.consecutive + 1 }, [])
    else after_reopen works (record l { consecutive = 0; reopens = l.reopens + 1 })

-- A run of jobs, and all that it logs.
unfoldable pub serve_all : (can_reopen : Bool) → List Outcome → Line → Line × List Message
serve_all can_reopen [] l = (l, [])
serve_all can_reopen (o ∷ os) l =
    let rest = serve_all can_reopen os (serve can_reopen o l).0 in
    (rest.0, (serve can_reopen o l).1 ++ rest.1)

-- The counters of one priority.
pub record Tally : Type 0 where
  pub requests : ℕ
  pub dropped : ℕ
  pub failures : ℕ
  pub wait_total : ℕ

unfoldable pub record_job : (wait : ℕ) → (is_failure is_dropped : Bool) → Tally → Tally
record_job wait is_failure is_dropped t =
    if is_dropped then record t { dropped = (t.dropped + 1) % 2 ^ 64 } else record t {
      requests = (t.requests + 1) % 2 ^ 64;
      wait_total = t.wait_total + wait;
      failures = if is_failure then (t.failures + 1) % 2 ^ 64 else t.failures;
    }
