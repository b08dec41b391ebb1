-- ===== src/Notify/Examples.antt =====
-- The notifier's theorems at concrete inputs.
use freeway_pi.Base.{ℕ, ◌≡◌, refl, Bool, true, false, none, some, List, [], ◌∷◌, arith}
use freeway_pi.Notify.{
  warning, critical, Event, Notifier, new_notifier, raise, raise_if, raise_new, dispatch, send_all,
  level, lookup, put, delete, remember, record_outcome,
}
use freeway_pi.Notify.Journal.{announced, InOrder, is_told}
use freeway_pi.Control.{up, down}
use freeway_pi.Eda.Alarms.{class_a}
use freeway_pi.Notify.Watcher.{Sight, Watcher, check, link_down}
use freeway_pi.Notify.Watcher.Raised.{is_raised}
use freeway_pi.Notify.Watcher.Reconciled.{wanted, check-wanted}
use freeway_pi.Notify.Watcher.Downs.{
  Look, check_all, has_lasted, down_from, sees_down, sees_answer, silent, is_down,
}
use freeway_pi.Base.{arith}
use freeway_pi.Notify.Announced.{Call, raises, clears, configures, calls, calls-InOrder}

abbrev all_work : ℕ → Bool
all_work c = true

abbrev none_works : ℕ → Bool
none_works c = false

-- Key 1 is announced and cleared; key 2 is too quiet until the threshold changes.
abbrev week : List Call
week =
    raises all_work 1 0 critical
    ∷ raises all_work 2 0 warning
    ∷ clears all_work 1
    ∷ clears all_work 2
    ∷ configures (1 ∷ []) warning
    ∷ raises all_work 2 0 warning
    ∷ raises all_work 1 0 critical
    ∷ []

calls-InOrder_example : InOrder (announced 1 (calls week (new_notifier (1 ∷ []) critical)).journal)
calls-InOrder_example = calls-InOrder (1 ∷ []) critical week 1

abbrev filter_dirty : Event
filter_dirty = record { key = 3; kind = 1; severity = warning; resolved = false }

abbrev quiet_house : Notifier
quiet_house = new_notifier (1 ∷ 2 ∷ []) warning

-- A message that no channel took counts as told, and is not tried again.
told_to_nobody :
    (is_told (lookup 3 (raise none_works filter_dirty quiet_house).active) ≡ true)
    × ((raise none_works filter_dirty quiet_house).sent ≡ 0)
    × ((raise none_works filter_dirty quiet_house).failed ≡ 2)
unfolding raise raise_if raise_new dispatch send_all level lookup put delete remember record_outcome
    is_told new_notifier
told_to_nobody = (refl, refl, refl)

-- A look that finds a dirty filter and a tripped frost guard.
abbrev first_sight : Sight
first_sight = record {
  link = up;
  is_dst = false;
  service_enabled = true;
  interval_days = 180;
  days_remaining = 0;
  alarms =
      some (
        record { index = 0; code = 6; class = class_a; state = 2; time = none; empty = false }
        ∷ []);
}

abbrev watcher : Watcher
watcher = record {
  down_since = 0;
  down_after = 300000000000;
  notifier = new_notifier (1 ∷ []) warning;
}

abbrev to_all : ℕ → ℕ → Bool
to_all k c = true

-- The line down three times, with an answer before the second, and at last for six minutes.
abbrev down_sight : Sight
down_sight = record first_sight { link = down }

abbrev outage : List Look
outage =
    record { works = to_all; at = 1000; sight = some down_sight }
    ∷ record { works = to_all; at = 2000; sight = some first_sight }
    ∷ record { works = to_all; at = 3000; sight = some down_sight }
    ∷ record { works = to_all; at = 4000; sight = none }
    ∷ []

check-wanted_example :
    let w = check_all outage watcher in
    is_raised link_down (check to_all 360000000000 (some down_sight) w).notifier
    ≡ wanted
        (has_lasted 360000000000 300000000000 (down_from outage))
        down_sight
        down_sight.alarms
        w.notifier
        link_down
unfolding new_notifier
check-wanted_example =
    check-wanted to_all 360000000000 down_sight link_down outage watcher refl refl
      (omega arith, (omega arith, (omega arith, (omega arith, tt))))

down_again : down_from outage ≡ some 3000
unfolding down_from sees_down sees_answer silent is_down
down_again = refl
