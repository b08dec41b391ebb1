-- ===== src/Store/Examples.antt =====
-- The history's theorem on a small table.
use freeway_pi.Base.{
  ℕ, ◌+◌, ◌*◌, ◌≤◌, min, max, ◌≡◌, refl, inl, inr, Bool, true, false, none, some, List, [], ◌∷◌,
  arith, get_or,
}
use freeway_pi.Store.{
  truncate, tier_0, tier_1, Numbers, Row, newest, rollup_into, prune, choose_tier, choose_from,
  second, tier_3,
}
use freeway_pi.Store.Covered.{minutes, Covered, prune-rollup_into}
use freeway_pi.Base.{none, some, false, true, Bool, List, ◌+◌}
use freeway_pi.Base.Ints.{pos}
use freeway_pi.Eda.Modes.{normal}
use freeway_pi.Eda.State.{State}
use freeway_pi.Store.Recorder.{
  Reading, Tick, new_recorder, run, record_tick, store_readings, samples_from, record_host,
  own_readings, host_seen,
}
use freeway_pi.Store.Recorder.Rising.{taken_by, Forward, Rising, run-Rising}

-- The natural numbers for SQLite's, with the first one in the place of the average.
abbrev counts : Numbers
counts = record {
  Value = ℕ;
  least = min;
  greatest = max;
  average = λ vs. get_or vs 0 0;
  Le = λ a b. a ≤ b;
  Le_refl = λ a. omega arith;
  Le_trans = λ a b c h g. omega arith;
  least_left = λ a b. omega arith;
  least_right = λ a b. omega arith;
  greatest_left = λ a b. omega arith;
  greatest_right = λ a b. omega arith;
}

abbrev reading : ℕ → ℕ → Row counts
reading ts v = record { tier = 0; metric = 5; ts = ts; avg = v; min = v; max = v }

abbrev table : List (Row counts)
table = reading 600 20 ∷ reading 610 23 ∷ reading 650 21 ∷ []

prune-rollup_into_example :
    Covered tier_1 (reading 610 23) (prune counts 700 (rollup_into counts tier_0 tier_1 700 table))
unfolding newest truncate
prune-rollup_into_example =
    prune-rollup_into tier_0 tier_1 700 table (reading 610 23) minutes (inr (inl refl)) refl
      (omega arith) (omega arith) (inr (omega arith))

-- Half an hour is drawn from readings, a week from minutes, and two years from hours.
window_tiers :
    (choose_tier 0 (1800 * second) 2000 (1800 * second) ≡ tier_0)
    × (choose_tier 0 (604800 * second) 20000 (604800 * second) ≡ tier_1)
    × (choose_tier 0 (63072000 * second) 2000 (63072000 * second) ≡ tier_3)
unfolding choose_tier choose_from
window_tiers = (refl, refl, refl)

-- A unit at rest, as it was at an instant, stale or not.
abbrev at_rest : (taken : ℕ) → (stale : Bool) → State
at_rest taken stale = record {
  taken = taken;
  age = 0;
  stale = stale;
  incomplete = false;
  temperatures = record {
    fresh_air = pos 50;
    supply_after_recovery = pos 180;
    supply = pos 185;
    waste = pos 70;
    extract = pos 215;
    panel = pos 0;
    room_mean = pos 0;
    supply_target = pos 180;
    supply_min = pos 130;
    supply_max = pos 300;
  };
  humidity = 40;
  control_step = pos 60;
  setpoint = pos 180;
  setpoint_min = pos 100;
  setpoint_max = pos 300;
  mode = normal;
  flags = [];
  fan_setpoint = 40;
  fan_actual = 40;
  ec_fans = true;
  efficiency_supply = 80;
  efficiency_extract = 75;
  output = record { recovery = 60; heating = 0; cooling = 0; step = pos 60 };
  heating = false;
  cooling = false;
  heat_recovery = true;
  defrosting = false;
  overpressure = false;
  alarm = false;
  active_alarms = [];
  time_program_running = false;
  service = record { enabled = false; interval_days = 0; days_since = 0; days_remaining = 0 };
  overpressure_minutes = 0;
  boost_minutes = 0;
  boost_level = 0;
  overpressure_supply = 0;
  overpressure_extract = 0;
  software_version = 0;
  machine = record { family = []; family_code = 0; serial = 0 };
  humidity_mean = 40;
  co2 = 0;
  unit_clock = none;
  unit_clock_drift = pos 0;
  clock_drift_is_dst = false;
  unit_weekday = 0;
  unit_weekday_expected = none;
  weekday_ok = true;
}

abbrev sag : List Reading
sag = record { metric = 18; value = pos 10 } ∷ []

abbrev tick_at : (taken : ℕ) → (stale : Bool) → Tick
tick_at taken stale = record {
  state = some (at_rest taken stale);
  error_rate = pos 0;
  host = some sag;
  now = taken + 1;
  works = true;
}

-- A snapshot seen twice, a stale one, and one after that.
abbrev ticks : List Tick
ticks = tick_at 20 false ∷ tick_at 20 false ∷ tick_at 25 true ∷ tick_at 30 false ∷ []

run-Rising_example : Rising (run ticks new_recorder).log (run ticks new_recorder).last_seen
unfolding Forward taken_by
run-Rising_example = run-Rising ticks (omega arith, (omega arith, (omega arith, (omega arith, tt))))

-- Two of the four ticks were written, and the stale one was passed over.
two_written : ((run ticks new_recorder).written ≡ 2) × ((run ticks new_recorder).skipped ≡ 1)
unfolding run new_recorder record_tick store_readings samples_from record_host own_readings
    host_seen
two_written = (refl, refl)
