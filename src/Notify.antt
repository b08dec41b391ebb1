-- ===== src/Notify.antt =====
-- internal/notify/notify.go: what is sent, and what is not. Texts, times and the unit's name are left
-- out; what a channel answers is an argument: whether its `Send` worked.
pub mod Journal
pub mod Announced
pub mod Repeats
pub mod Watcher
mod Examples
use freeway_pi.Base.{
  ℕ, zero, suc, ◌+◌, ◌-◌, ◌*◌, ◌/◌, ◌%◌, ◌^◌, ◌≤◌, ◌<◌, min, max, ◌≡◌, refl, sym, ap, ap₂, subst,
  ◌∙◌, fun_ext, ◌≢◌, ◌↔◌, ◌⊎◌, inl, inr, Bool, true, false, not, ◌&&◌, ◌||◌, Option, none, some,
  List, [], ◌∷◌, ◌++◌, map, arith, ltb, leb, ◌==◌, if◌then◌else◌, ltb→lt, lt→ltb, leb→le, ==_iff,
  Bool-cases, Option-cases, nonzero, length, get_or, set, take, drop, replicate, length-append,
  length-take, length-drop, length-replicate, take-append, drop-append, All, length-map, All-append,
  All-append_left, All-append_right, length-set, get_or-set_self, get_or-set_ne, get_or-drop,
  drop-nil, drop-drop, Result, ◌>>=◌, ◌>>◌, fail_if, ok, err,
}

-- `Severity` by number: info, warning, critical.
pub data Severity : Type 0 where
  info : Severity
  warning : Severity
  critical : Severity

unfoldable pub level : Severity → ℕ
level info = 0
level warning = 1
level critical = 2

-- Keys and kinds are numbers.
pub record Event : Type 0 where
  pub key : ℕ
  pub kind : ℕ
  pub severity : Severity
  pub resolved : Bool

pub record Tracked : Type 0 where
  pub event : Event
  pub notified : Bool

-- What a record of the journal says besides the event.
pub data Outcome : Type 0 where
  skipped_severity : Outcome
  skipped_no_channel : Outcome
  sent_to : (delivered : Bool) → Outcome

-- The map `active` is an association list; a channel is its number.
pub record Notifier : Type 0 where
  pub channels : List ℕ
  pub least : Severity
  pub active : List (ℕ × Tracked)
  pub journal : List (Event × Outcome)
  pub sent : ℕ
  pub failed : ℕ

unfoldable pub new_notifier : List ℕ → Severity → Notifier
new_notifier channels least = record {
  channels = channels;
  least = least;
  active = [];
  journal = [];
  sent = 0;
  failed = 0;
}

unfoldable pub lookup : ℕ → List (ℕ × Tracked) → Option Tracked
lookup k [] = none
lookup k ((j, t) ∷ rest) = let found = lookup k rest in if j == k then some t else found

unfoldable pub delete : ℕ → List (ℕ × Tracked) → List (ℕ × Tracked)
delete k [] = []
delete k ((j, t) ∷ rest) = let others = delete k rest in if j == k then others else (j, t) ∷ others

unfoldable pub put : ℕ → Tracked → List (ℕ × Tracked) → List (ℕ × Tracked)
put k t m = (k, t) ∷ delete k m

-- The loop over the channels: how many took the event, and how many did not.
unfoldable pub send_all : (ℕ → Bool) → List ℕ → ℕ × ℕ
send_all works [] = (0, 0)
send_all works (c ∷ cs) =
    let rest = send_all works cs in if works c then (rest.0 + 1, rest.1) else (rest.0, rest.1 + 1)

unfoldable pub record_outcome : Event → Outcome → Notifier → Notifier
record_outcome e o n = record n { journal = (e, o) ∷ n.journal }

-- `dispatch`, and whether it says that somebody was told.
unfoldable pub dispatch : (ℕ → Bool) → Event → Notifier → Bool × Notifier
dispatch works e n =
    let tried = send_all works n.channels in
    let counted = record n {
      sent = (n.sent + tried.0) % 2 ^ 64;
      failed = (n.failed + tried.1) % 2 ^ 64;
    } in
    if ltb (level e.severity) (level n.least) && not e.resolved
    then (false, record_outcome e skipped_severity n)
    else if length n.channels == 0
    then (false, record_outcome e skipped_no_channel n)
    else (true, record_outcome e (sent_to (ltb 0 tried.0)) counted)

-- The end of `Raise`: what was told is remembered if the condition is still raised.
unfoldable pub remember : ℕ → Option Tracked → Bool × Notifier → Notifier
remember k none (told, n) = n
remember k (some t) (told, n) = record n { active = put k (record t { notified = told }) n.active }

-- `Raise` without another call between its locks.
unfoldable pub raise_new : (ℕ → Bool) → Event → Notifier → Notifier
raise_new works e n =
    let first = record n { active = put e.key (record { event = e; notified = false }) n.active } in
    remember e.key (lookup e.key (dispatch works e first).1.active) (dispatch works e first)

unfoldable pub raise_if : (ℕ → Bool) → Event → Notifier → Option Tracked → Notifier
raise_if works e n none = raise_new works e n
raise_if works e n (some already) = n

unfoldable pub raise : (ℕ → Bool) → Event → Notifier → Notifier
raise works e n = raise_if works e n (lookup e.key n.active)

-- The event of an all-clear. Its own key in Go is the condition's with a suffix; here it stays.
unfoldable pub all_clear : ℕ → Event → Event
all_clear k e = record { key = k; kind = e.kind; severity = info; resolved = true }

unfoldable pub clear_if : (ℕ → Bool) → ℕ → Notifier → Option Tracked → Notifier
clear_if works k n none = n
clear_if works k n (some t) =
    let rest = record n { active = delete k n.active } in
    if t.notified then (dispatch works (all_clear k t.event) rest).1 else rest

unfoldable pub clear : (ℕ → Bool) → ℕ → Notifier → Notifier
clear works k n = clear_if works k n (lookup k n.active)

unfoldable pub set_channels : List ℕ → Severity → Notifier → Notifier
set_channels channels least n = record n { channels = channels; least = least }
