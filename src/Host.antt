-- ===== src/Host.antt =====
-- internal/hostctl: the restart that an update asks for (reboot.go). The flag of the package manager
-- and the answer of the clock are arguments, and so is whether a call of `Reboot` works. An instant is
-- the nanoseconds since a local midnight, with days of 24 hours; the texts of the event are left out.
pub mod Power
pub mod Restarts
mod Examples
use freeway_pi.Base.{
  ℕ, zero, suc, ◌+◌, ◌-◌, ◌*◌, ◌/◌, ◌%◌, ◌^◌, ◌≤◌, ◌<◌, min, max, ◌≡◌, refl, sym, ap, ap₂, subst,
  ◌∙◌, fun_ext, ◌≢◌, ◌↔◌, ◌⊎◌, inl, inr, Bool, true, false, not, ◌&&◌, ◌||◌, Option, none, some,
  List, [], ◌∷◌, ◌++◌, map, arith, ltb, leb, ◌==◌, if◌then◌else◌, ltb→lt, lt→ltb, leb→le, ==_iff,
  Bool-cases, Option-cases, nonzero, length, get_or, set, take, drop, replicate, length-append,
  length-take, length-drop, length-replicate, take-append, drop-append, All, length-map, All-append,
  All-append_left, All-append_right, length-set, get_or-set_self, get_or-set_ne, get_or-drop,
  drop-nil, drop-drop, Result, ◌>>=◌, ◌>>◌, fail_if, Result-cases, ok, err,
}
use freeway_pi.Notify.{Event, Notifier, warning, raise, clear}

pub record RebootPolicy : Type 0 where
  pub is_auto : Bool
  pub hour : ℕ
  pub minute : ℕ

-- `ParseRebootAt`, with what `time.Parse` made of the text.
unfoldable pub parse_reboot_at : Option (ℕ × ℕ) → ℕ × ℕ
parse_reboot_at none = (4, 0)
parse_reboot_at (some at) = at

abbrev pub minute_ns : ℕ
minute_ns = 60000000000

abbrev pub reboot_window : ℕ
reboot_window = 90000000000

unfoldable pub target : (hour minute : ℕ) → ℕ
target hour minute = (hour * 60 + minute) * minute_ns

abbrev pub day_ns : ℕ
day_ns = 86400000000000

-- The time is that of the day of `now`.
unfoldable pub due_at : (now hour minute window : ℕ) → Bool
due_at now hour minute window =
    let at = now % day_ns in leb (target hour minute) at && ltb (at - target hour minute) window

-- One turn of the loop: when, on which of the two tickers, and whether a package wants a restart.
pub record Turn : Type 0 where
  pub at : ℕ
  pub on_clock : Bool
  pub is_wanted : Bool

-- The key and the kind of the event.
abbrev pub reboot_key : ℕ
reboot_key = 0

abbrev pub reboot_required : Event
reboot_required = record { key = 0; kind = 0; severity = warning; resolved = false }

-- When `Reboot` was called, and whether that worked. Either way the loop ends.
pub record RebootWatch : Type 0 where
  pub notifier : Notifier
  pub called : Option (ℕ × Bool)

unfoldable pub watch_turn :
    (works : ℕ → Bool) → (reboot : ℕ → Bool) → RebootPolicy → Turn → Notifier → RebootWatch
watch_turn works reboot p t n =
    let raised = raise works reboot_required n in
    if not t.is_wanted
    then record { notifier = if t.on_clock then n else clear works reboot_key n; called = none }
    else if not t.on_clock
    then record { notifier = raised; called = none }
    else if not p.is_auto
    then record { notifier = n; called = none }
    else if not (due_at t.at p.hour p.minute reboot_window)
    then record { notifier = n; called = none }
    else record { notifier = raised; called = some (t.at, reboot t.at) }

-- Behind a turn.
unfoldable pub watch_on : (Notifier → RebootWatch) → Notifier → Option (ℕ × Bool) → RebootWatch
watch_on rest n none = rest n
watch_on rest n (some call) = record { notifier = n; called = some call }

unfoldable pub watch_reboot :
    (works : ℕ → Bool) → (reboot : ℕ → Bool) → RebootPolicy → List Turn → Notifier → RebootWatch
watch_reboot works reboot p [] n = record { notifier = n; called = none }
watch_reboot works reboot p (t ∷ turns) n =
    let r = watch_turn works reboot p t n in
    watch_on (λ m. watch_reboot works reboot p turns m) r.notifier r.called
