-- ===== src/Notify/Watcher.antt =====
-- internal/notify/watch.go: which conditions of the unit are raised and cleared. The texts of the
-- messages are left out. `works` says, for the key of a message, which channels take it; the clock is
-- read once for each look, and `down_since` is 0 for Go's zero time.
pub mod Raised
pub mod Codes
pub mod Downs
pub mod Reconciled
use freeway_pi.Base.{
  ℕ, zero, suc, ◌+◌, ◌-◌, ◌*◌, ◌/◌, ◌%◌, ◌^◌, ◌≤◌, ◌<◌, min, max, ◌≡◌, refl, sym, ap, ap₂, subst,
  ◌∙◌, fun_ext, ◌≢◌, ◌↔◌, ◌⊎◌, inl, inr, Bool, true, false, not, ◌&&◌, ◌||◌, Option, none, some,
  List, [], ◌∷◌, ◌++◌, map, arith, ltb, leb, ◌==◌, if◌then◌else◌, ltb→lt, lt→ltb, leb→le, ==_iff,
  Bool-cases, Option-cases, nonzero, length, get_or, set, take, drop, replicate, length-append,
  length-take, length-drop, length-replicate, take-append, drop-append, All, length-map, All-append,
  All-append_left, All-append_right, length-set, get_or-set_self, get_or-set_ne, get_or-drop,
  drop-nil, drop-drop, Result, ◌>>=◌, ◌>>◌, fail_if, ok, err,
}
use freeway_pi.Control.{LinkStatus, down, incomplete_pass, error_rate, up}
use freeway_pi.Eda.Alarms.{Alarm, AlarmClass, class_a, class_b, class_unknown, active_alarms}
use freeway_pi.Notify.{Severity, warning, critical, Event, Tracked, Notifier, raise, clear}

-- The keys of the conditions: four of their own, and the alarms by their codes.
abbrev pub link_down : ℕ
link_down = 0

abbrev pub link_degraded : ℕ
link_degraded = 1

abbrev pub clock_dst : ℕ
clock_dst = 2

abbrev pub service_due : ℕ
service_due = 3

abbrev pub alarm_key : ℕ → ℕ
alarm_key code = 4 + code

-- The kinds: link, clock and service, and alarm.
abbrev pub alarm_kind : ℕ
alarm_kind = 3

pub record Watcher : Type 0 where
  pub down_since : ℕ
  pub down_after : ℕ
  pub notifier : Notifier

-- What a look at the unit finds; `alarms` is none where the log could not be read.
pub record Sight : Type 0 where
  pub link : LinkStatus
  pub is_dst : Bool
  pub service_enabled : Bool
  pub interval_days : ℕ
  pub days_remaining : ℕ
  pub alarms : Option (List Alarm)

unfoldable pub event : (key kind : ℕ) → Severity → Event
event key kind severity = record { key = key; kind = kind; severity = severity; resolved = false }

unfoldable pub raise_link_down : (ℕ → ℕ → Bool) → (now : ℕ) → Watcher → Watcher
raise_link_down works now w =
    let raised = record w {
      notifier = raise (works link_down) (event link_down 0 critical) w.notifier;
    } in
    if w.down_since == 0
    then record w { down_since = now }
    else if ltb (now - w.down_since) w.down_after
    then w
    else raised

unfoldable pub link_is_degraded : (ℕ → ℕ → Bool) → Watcher → Watcher
link_is_degraded works w = record w {
  down_since = 0;
  notifier =
      raise (works link_degraded) (event link_degraded 0 warning)
        (clear (works link_down) link_down w.notifier);
}

unfoldable pub check_link : (ℕ → ℕ → Bool) → (now : ℕ) → LinkStatus → Watcher → Watcher
check_link works now down w = raise_link_down works now w
check_link works now incomplete_pass w = link_is_degraded works w
check_link works now error_rate w = link_is_degraded works w
check_link works now up w = record w {
  down_since = 0;
  notifier =
      clear (works link_degraded) link_degraded (clear (works link_down) link_down w.notifier);
}

unfoldable pub check_clock : (ℕ → ℕ → Bool) → Bool → Notifier → Notifier
check_clock works is_dst n =
    if is_dst
    then raise (works clock_dst) (event clock_dst 1 warning) n
    else clear (works clock_dst) clock_dst n

unfoldable pub is_due : Sight → Bool
is_due s = s.service_enabled && ltb 0 s.interval_days && (s.days_remaining == 0)

unfoldable pub check_service : (ℕ → ℕ → Bool) → Sight → Notifier → Notifier
check_service works s n =
    if is_due s
    then raise (works service_due) (event service_due 2 warning) n
    else clear (works service_due) service_due n

unfoldable pub has_code : ℕ → List Alarm → Bool
has_code code [] = false
has_code code (a ∷ more) = (a.code == code) || has_code code more

unfoldable pub drop_code : ℕ → List Alarm → List Alarm
drop_code code [] = []
drop_code code (a ∷ more) =
    let rest = drop_code code more in if a.code == code then rest else a ∷ rest

-- The map of the active alarms by code, in which a later one takes the place of an earlier.
unfoldable pub by_code : List Alarm → List Alarm → List Alarm
by_code [] m = m
by_code (a ∷ more) m = by_code more (a ∷ drop_code a.code m)

unfoldable pub severity_of : AlarmClass → Severity
severity_of class_a = critical
severity_of _ = warning

unfoldable pub raise_each : (ℕ → ℕ → Bool) → List Alarm → Notifier → Notifier
raise_each works [] n = n
raise_each works (a ∷ more) n =
    raise_each works more (
      raise (works (alarm_key a.code)) (event (alarm_key a.code) alarm_kind (severity_of a.class))
        n)

-- `Active`: the events of the map.
unfoldable pub events : List (ℕ × Tracked) → List Event
events [] = []
events ((k, t) ∷ m) = t.event ∷ events m

-- The code in the key, which a key that is none of an alarm has not, is not among the active ones.
unfoldable pub is_over : List Alarm → Event → Bool
is_over active e = (e.kind == alarm_kind) && leb 4 e.key && not (has_code (e.key - 4) active)

unfoldable pub clear_each : (ℕ → ℕ → Bool) → List Alarm → List Event → Notifier → Notifier
clear_each works active [] n = n
clear_each works active (e ∷ es) n =
    clear_each works active es (if is_over active e then clear (works e.key) e.key n else n)

unfoldable pub check_alarms : (ℕ → ℕ → Bool) → Option (List Alarm) → Notifier → Notifier
check_alarms works none n = n
check_alarms works (some alarms) n =
    let active = by_code (active_alarms alarms) [] in
    let raised = raise_each works active n in clear_each works active (events raised.active) raised

unfoldable pub check_rest : (ℕ → ℕ → Bool) → Sight → Notifier → Notifier
check_rest works s n =
    check_alarms works s.alarms (check_service works s (check_clock works s.is_dst n))

-- `check`; `none` is a state that could not be read.
unfoldable pub check : (ℕ → ℕ → Bool) → (now : ℕ) → Option Sight → Watcher → Watcher
check works now none w = w
check works now (some s) w =
    let looked = check_link works now s.link w in
    record looked { notifier = check_rest works s looked.notifier }
