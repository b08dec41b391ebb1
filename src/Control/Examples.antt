-- ===== src/Control/Examples.antt =====
-- The theorems on control at concrete inputs.
use freeway_pi.Base.{
  ◌-◌, ◌*◌, ◌≡◌, refl, ◌↔◌, inr, true, false, none, some, List, [], ◌∷◌, arith, ltb, if◌then◌else◌,
  Result, ok, err,
}
use freeway_pi.Modbus.Pdu.{Error}
use freeway_pi.Bus.Poller.{RereadError, outside}
use freeway_pi.Eda.{Write, coil_write, Unit16, do_write}
use freeway_pi.Eda.Modes.{overpressure, same_mode, code}
use freeway_pi.Control.{
  apply, after_writing, after_reread, degraded_after, new_tracker, remaining, timed_minutes, minute,
  is_mode,
}
use freeway_pi.Control.Applying.{Carries, Ends, apply-Ends}
use freeway_pi.Control.Line.Looks.{Look, after_looks, Fell, Ordered}
use freeway_pi.Control.Line.{after_looks-Fell}
use freeway_pi.Control.Countdown.{Seen, observe_all, Still, observe_all-remaining}

-- A noisy line for six minutes, looked at each three, the newest look first.
abbrev looks : List Look
looks =
    record { at = 400000000000; failed = 10; samples = 256 }
    ∷ record { at = 220000000000; failed = 9; samples = 200 }
    ∷ record { at = 40000000000; failed = 8; samples = 150 }
    ∷ []

after_looks-Fell_example :
    ((after_looks degraded_after looks).degraded ≡ true) ↔ Fell degraded_after looks
unfolding Ordered
after_looks-Fell_example =
    after_looks-Fell degraded_after 400000000000 looks
      ((omega arith, omega arith, (omega arith, omega arith, (omega arith, omega arith, tt))))

-- A unit on a line that does every write and never reads back.
abbrev write_through : Write → Unit16 → Result Error (Unit {0}) × Unit16
write_through x u = (ok tt, do_write x u)

abbrev never_read : Write → Unit16 → Result RereadError (Unit {0}) × Unit16
never_read x u = (err (outside 0 1), u)

write_through-Carries : Carries write_through never_read (λ u. u)
write_through-Carries = record {
  written = λ x u e. refl;
  unanswered = λ x u. inr refl;
  read = λ x u. refl;
}

abbrev unit : Unit16
unit = record { coils = false ∷ true ∷ false ∷ false ∷ []; holding = [] }

-- From away to overpressure.
abbrev change : List Write
change = coil_write 1 false ∷ coil_write 3 true ∷ []

apply-Ends_example :
    Ends write_through never_read change unit
      (apply write_through never_read change unit).0
      (apply write_through never_read change unit).1
apply-Ends_example = apply-Ends write_through never_read (λ u. u) write_through-Carries change unit

-- The second write is left out, and nothing is reported.
half_changed :
    apply write_through never_read change unit
    ≡ (ok tt, record { coils = false ∷ false ∷ false ∷ false ∷ []; holding = [] })
unfolding apply after_writing after_reread do_write
half_changed = refl

abbrev started : Seen
started = record { at = 1000; mode = overpressure; overpressure_minutes = 10; boost_minutes = 0 }

observe_all-remaining_example :
    let whole =
      timed_minutes started.mode started.overpressure_minutes started.boost_minutes * minute in
    (remaining 60000001000 (observe_all (started ∷ started ∷ []) new_tracker) ≡ (
      if ltb whole (60000001000 - started.at)
      then none
      else some (whole - (60000001000 - started.at))))
    × ((last : Seen)
        → timed_minutes last.mode last.overpressure_minutes last.boost_minutes ≡ 0
        → remaining 60000001000 (observe_all (started ∷ started ∷ last ∷ []) new_tracker) ≡ none)
unfolding new_tracker is_mode timed_minutes Still same_mode code
observe_all-remaining_example =
    observe_all-remaining started (started ∷ []) new_tracker 60000001000 refl (omega arith)
      (omega arith) ((refl, omega arith), tt)
