-- ===== src/Eda/State.antt =====
-- internal/eda/state.go: a snapshot decoded into what the page shows, and from command.go the writes
-- of the clock, the service counter and the permissions. Temperatures are counted in tenths of a
-- degree, instants and durations in nanoseconds; the fields that Decode leaves for others to fill
-- are left out.
pub mod Flags
pub mod Clocks
pub mod Decoded
mod Examples
use freeway_pi.Base.{
  ℕ, zero, suc, ◌+◌, ◌-◌, ◌*◌, ◌/◌, ◌%◌, ◌^◌, ◌≤◌, ◌<◌, min, max, ◌≡◌, refl, sym, ap, ap₂, subst,
  ◌∙◌, fun_ext, ◌≢◌, ◌↔◌, ◌⊎◌, inl, inr, Bool, true, false, not, ◌&&◌, ◌||◌, Option, none, some,
  List, [], ◌∷◌, ◌++◌, map, arith, ltb, leb, ◌==◌, if◌then◌else◌, ltb→lt, lt→ltb, leb→le, ==_iff,
  Bool-cases, Option-cases, nonzero, length, get_or, set, take, drop, replicate, length-append,
  length-take, length-drop, length-replicate, take-append, drop-append, All, length-map, All-append,
  All-append_left, All-append_right, length-set, get_or-set_self, get_or-set_ne, get_or-drop,
  drop-nil, drop-drop, Result, ◌>>=◌, ◌>>◌, fail_if, ok, err,
}
use Prim.Native.Nat.{bit_and}
use freeway_pi.Base.Ints.{ℤ, pos, negsuc, uint16, year_register}
use freeway_pi.Base.Texts.{Text, codes}
use freeway_pi.Bus.Poller.{Snapshot}
use freeway_pi.Eda.{EdaError, no_snapshot, too_few, Write, coil_write, register_write}
use freeway_pi.Eda.Modes.{Mode, decode_mode}
use freeway_pi.Eda.Alarms.{Alarm, read_alarms, active_alarms}
use freeway_pi.Eda.Output.{int16, Output, read_output}

-- Package time in the box's own zone, as far as it is used: `time.Date`, and the parts of what it
-- makes of them.
pub record Calendar : Type 0 where
  pub date : (year month day hour minute second : ℕ) → ℕ
  pub day : ℕ → ℕ
  pub month : ℕ → ℕ
  pub weekday : ℕ → ℕ

pub record Flag : Type 0 where
  pub bit : ℕ
  pub name : Text

-- `flagNames`.
unfoldable pub flag_names : List Flag
flag_names =
    record { bit = 0x1; name = codes "max_cooling" }
    ∷ record { bit = 0x2; name = codes "max_heating" }
    ∷ record { bit = 0x4; name = codes "emergency_stop" }
    ∷ record { bit = 0x8; name = codes "stop" }
    ∷ record { bit = 0x10; name = codes "away" }
    ∷ record { bit = 0x20; name = codes "long_away" }
    ∷ record { bit = 0x40; name = codes "temperature_boost" }
    ∷ record { bit = 0x80; name = codes "co2_boost" }
    ∷ record { bit = 0x100; name = codes "humidity_boost" }
    ∷ record { bit = 0x200; name = codes "boost" }
    ∷ record { bit = 0x400; name = codes "overpressure" }
    ∷ record { bit = 0x800; name = codes "cooker_hood" }
    ∷ record { bit = 0x1000; name = codes "central_vacuum" }
    ∷ record { bit = 0x2000; name = codes "elh_cooling" }
    ∷ record { bit = 0x4000; name = codes "summer_night_cooling" }
    ∷ record { bit = 0x8000; name = codes "defrosting" }
    ∷ []

unfoldable pub flags_among : List Flag → (state : ℕ) → List Flag
flags_among [] state = []
flags_among (f ∷ rest) state =
    let more = flags_among rest state in if nonzero (bit_and state f.bit) then f ∷ more else more

unfoldable pub decode_flags : (state : ℕ) → List Flag
decode_flags state = flags_among flag_names state

pub record Temperatures : Type 0 where
  pub fresh_air : ℤ
  pub supply_after_recovery : ℤ
  pub supply : ℤ
  pub waste : ℤ
  pub extract : ℤ
  pub panel : ℤ
  pub room_mean : ℤ
  pub supply_target : ℤ
  pub supply_min : ℤ
  pub supply_max : ℤ

pub record Service : Type 0 where
  pub enabled : Bool
  pub interval_days : ℕ
  pub days_since : ℕ
  pub days_remaining : ℕ

pub record Machine : Type 0 where
  pub family : Text
  pub family_code : ℕ
  pub serial : ℕ

abbrev pub machine_families : List Text
machine_families =
    codes "Pingvin"
    ∷ codes "Pandion"
    ∷ codes "Pelican"
    ∷ codes "Pegasos"
    ∷ codes "Pegasos XL"
    ∷ codes "LTR-3"
    ∷ codes "LTR-6"
    ∷ codes "LTR-7"
    ∷ codes "LTR-7-XL"
    ∷ []

unfoldable pub read_machine : List ℕ → Machine
read_machine h = record {
  family = get_or machine_families (get_or h 597 0) [];
  family_code = get_or h 597 0;
  serial = get_or h 598 0;
}

-- `none` is the zero time, and the weekday -1.
pub record State : Type 0 where
  pub taken : ℕ
  pub age : ℕ
  pub stale : Bool
  pub incomplete : Bool
  pub temperatures : Temperatures
  pub humidity : ℕ
  pub control_step : ℤ
  pub setpoint : ℤ
  pub setpoint_min : ℤ
  pub setpoint_max : ℤ
  pub mode : Mode
  pub flags : List Flag
  pub fan_setpoint : ℕ
  pub fan_actual : ℕ
  pub ec_fans : Bool
  pub efficiency_supply : ℕ
  pub efficiency_extract : ℕ
  pub output : Output
  pub heating : Bool
  pub cooling : Bool
  pub heat_recovery : Bool
  pub defrosting : Bool
  pub overpressure : Bool
  pub alarm : Bool
  pub active_alarms : List Alarm
  pub time_program_running : Bool
  pub service : Service
  pub overpressure_minutes : ℕ
  pub boost_minutes : ℕ
  pub boost_level : ℕ
  pub overpressure_supply : ℕ
  pub overpressure_extract : ℕ
  pub software_version : ℕ
  pub machine : Machine
  pub humidity_mean : ℕ
  pub co2 : ℕ
  pub unit_clock : Option ℕ
  pub unit_clock_drift : ℤ
  pub clock_drift_is_dst : Bool
  pub unit_weekday : ℕ
  pub unit_weekday_expected : Option ℕ
  pub weekday_ok : Bool

-- `limit`, in whole degrees.
unfoldable pub limit : (v : ℕ) → (fallback : ℤ) → ℤ
limit v fallback = elim (int16 v) [
  | pos d ↦ if ltb d 10 || ltb 30 d then fallback else pos d
  | negsuc d ↦ fallback
]

-- The active alarms where the log can be read.
unfoldable pub alarms_of : Result EdaError (List Alarm) → List Alarm
alarms_of (ok alarms) = active_alarms alarms
alarms_of (err e) = []

abbrev pub minute : ℕ
minute = 60 * 1_000_000_000

abbrev pub hour : ℕ
hour = 60 * minute

-- `started.Sub(clock)` without its sign: the difference of two times stops at the bounds of 64
-- bits, and the lowest number of them is its own negation.
unfoldable pub drift_of : (started clock : ℕ) → ℤ
drift_of started clock =
    if leb clock started
    then pos (min (started - clock) (2 ^ 63 - 1))
    else if ltb (clock - started) (2 ^ 63)
    then pos (clock - started)
    else negsuc (2 ^ 63 - 1)

-- Within five minutes of an hour.
unfoldable pub is_dst : ℤ → Bool
is_dst (pos d) = ltb (55 * minute) d && ltb d (65 * minute)
is_dst (negsuc d) = false

-- The clock fields of a snapshot whose clock shows no date, and one that shows a time.
unfoldable pub with_clock : Calendar → (started : ℕ) → Option ℕ → State → State
with_clock cal started none st = st
with_clock cal started (some t) st = record st {
  unit_weekday_expected = some (cal.weekday t);
  weekday_ok = st.unit_weekday == cal.weekday t;
  unit_clock_drift = drift_of started t;
  clock_drift_is_dst = is_dst (drift_of started t);
}

unfoldable pub is_date : (month day hour minute second : ℕ) → Bool
is_date month day hour minute second =
    leb 1 month
    && (leb month 12
        && (leb 1 day && (leb day 31 && (leb hour 23 && (leb minute 59 && leb second 59)))))

-- The check of the date that `time.Date` made.
unfoldable pub same_day : Calendar → (month day t : ℕ) → Option ℕ
same_day cal month day t =
    if not (cal.day t == day) || not (cal.month t == month) then none else some t

unfoldable pub decode_clock : Calendar → List ℕ → Option ℕ
decode_clock cal h =
    if is_date (get_or h 41 0) (get_or h 40 0) (get_or h 39 0) (get_or h 38 0) (get_or h 37 0)
    then same_day cal (get_or h 41 0) (get_or h 40 0) (
        cal.date (2000 + get_or h 42 0) (get_or h 41 0) (get_or h 40 0) (get_or h 39 0)
          (get_or h 38 0) (get_or h 37 0))
    else none

-- The registers of `DecodeClockBlock` in their place; a block longer than seven is cut.
unfoldable pub decode_clock_block : Calendar → List ℕ → Option ℕ
decode_clock_block cal regs =
    if ltb (length regs) 7 then none else decode_clock cal (replicate 37 0 ++ take 7 regs)

-- The fields that do not depend on the clock.
unfoldable pub decode_registers_of : (now stale_after : ℕ) → Snapshot → State
decode_registers_of now stale_after s =
    let h = s.holding in
    let c = s.coils in
    record {
      taken = s.finished;
      age = now - s.finished;
      stale = ltb stale_after (now - s.finished);
      incomplete = ltb 0 (length s.failed);
      temperatures = record {
        fresh_air = int16 (get_or h 6 0);
        supply_after_recovery = int16 (get_or h 7 0);
        supply = int16 (get_or h 8 0);
        waste = int16 (get_or h 9 0);
        extract = int16 (get_or h 10 0);
        panel = int16 (get_or h 1 0);
        room_mean = int16 (get_or h 46 0);
        supply_target = int16 (get_or h 47 0);
        supply_min = int16 (get_or h 138 0);
        supply_max = int16 (get_or h 139 0);
      };
      machine = read_machine h;
      humidity_mean = get_or h 35 0;
      co2 = get_or h 27 0;
      humidity = get_or h 13 0;
      control_step = int16 (get_or h 45 0);
      setpoint = int16 (get_or h 135 0);
      setpoint_min = limit (get_or h 140 0) (pos 10);
      setpoint_max = limit (get_or h 141 0) (pos 30);
      fan_setpoint = get_or h 53 0;
      fan_actual = get_or h 50 0;
      ec_fans = get_or c 16 false;
      output = read_output (int16 (get_or h 49 0)) (int16 (get_or h 45 0));
      efficiency_supply = get_or h 29 0;
      efficiency_extract = get_or h 30 0;
      heating = get_or c 32 false;
      cooling = get_or c 28 false;
      heat_recovery = get_or c 30 false;
      alarm = get_or c 42 false;
      time_program_running = get_or c 43 false;
      overpressure_minutes = get_or h 56 0;
      overpressure_supply = get_or h 54 0;
      overpressure_extract = get_or h 55 0;
      boost_minutes = get_or h 66 0;
      boost_level = get_or h 67 0;
      software_version = get_or h 599 0;
      defrosting = nonzero (bit_and (get_or h 44 0) 0x8000);
      overpressure = nonzero (bit_and (get_or h 44 0) 0x400);
      flags = decode_flags (get_or h 44 0);
      mode = decode_mode c;
      service = record {
        enabled = get_or c 49 false;
        interval_days = get_or h 538 0;
        days_since = get_or h 710 0;
        days_remaining = get_or h 538 0 - get_or h 710 0;
      };
      active_alarms = alarms_of (read_alarms h);
      unit_clock = none;
      unit_clock_drift = pos 0;
      clock_drift_is_dst = false;
      unit_weekday = get_or h 43 0;
      unit_weekday_expected = none;
      weekday_ok = false;
    }

unfoldable pub decode_snapshot : Calendar → (now stale_after : ℕ) → Snapshot → State
decode_snapshot cal now stale_after s =
    let clock = decode_clock cal s.holding in
    with_clock cal s.started clock
      (record (decode_registers_of now stale_after s) { unit_clock = clock })

-- `Decode`. The clock does not go back between the snapshot and `now`.
unfoldable pub decode : Calendar → (now stale_after : ℕ) → Option Snapshot → Result EdaError State
decode cal now stale_after none = err no_snapshot
decode cal now stale_after (some s) =
    if leb (length s.holding) 710 || leb (length s.coils) 54
    then err (too_few (length s.holding) (length s.coils))
    else ok (decode_snapshot cal now stale_after s)

-- `Time` of command.go, without the two fields that `SetClock` leaves out.
pub record ClockTime : Type 0 where
  pub minute : ℕ
  pub hour : ℕ
  pub day : ℕ
  pub month : ℕ
  pub year : ℕ

unfoldable pub set_clock : ClockTime → List Write
set_clock t =
    register_write 582 (
      uint16 (pos t.minute)
      ∷ uint16 (pos t.hour)
      ∷ uint16 (pos t.day)
      ∷ uint16 (pos t.month)
      ∷ year_register (pos t.year)
      ∷ [])
    ∷ []

unfoldable pub reset_service_counter : List Write
reset_service_counter = register_write 710 (0 ∷ []) ∷ []

unfoldable pub set_heating_allowed : Bool → List Write
set_heating_allowed allowed = coil_write 54 allowed ∷ []

unfoldable pub set_cooling_allowed : Bool → List Write
set_cooling_allowed allowed = coil_write 52 allowed ∷ []
