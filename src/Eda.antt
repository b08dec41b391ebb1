-- ===== src/Eda.antt =====
-- internal/eda: what the registers and coils of the unit mean, and which writes change it.
pub mod Modes
pub mod Programs
pub mod Alarms
pub mod Output
pub mod Settings
pub mod State
pub mod Setpoint
mod Examples
use freeway_pi.Base.{
  ℕ, zero, suc, ◌+◌, ◌-◌, ◌*◌, ◌/◌, ◌%◌, ◌^◌, ◌≤◌, ◌<◌, min, max, ◌≡◌, refl, sym, ap, ap₂, subst,
  ◌∙◌, fun_ext, ◌≢◌, ◌↔◌, ◌⊎◌, inl, inr, Bool, true, false, not, ◌&&◌, ◌||◌, Option, none, some,
  List, [], ◌∷◌, ◌++◌, map, arith, ltb, leb, ◌==◌, if◌then◌else◌, ltb→lt, lt→ltb, leb→le, ==_iff,
  Bool-cases, Option-cases, nonzero, length, get_or, set, take, drop, replicate, length-append,
  length-take, length-drop, length-replicate, take-append, drop-append, All, length-map, All-append,
  All-append_left, All-append_right, length-set, get_or-set_self, get_or-set_ne, get_or-drop,
  drop-nil, drop-drop, Result, ◌>>=◌, ◌>>◌, fail_if, ok, err,
}
use freeway_pi.Base.Ints.{ℤ}

-- What is refused, one constructor for each message.
pub data EdaError : Type 0 where
  not_a_mode : EdaError
  ac_fans : EdaError
  fan_range : ℤ → EdaError
  overpressure_minutes : ℤ → EdaError
  boost_minutes : ℤ → EdaError
  week_missing : ℤ → EdaError
  year_missing : ℤ → EdaError
  bad_days : EdaError
  bad_hour : EdaError
  bad_minute : EdaError
  bad_month : EdaError
  bad_day : EdaError
  bad_year : EdaError
  bad_function : ℤ → EdaError
  at_start : EdaError → EdaError
  at_stop : EdaError → EdaError
  snapshot_too_short : (size last : ℕ) → EdaError
  not_a_setting : EdaError
  coil_outside : ℕ → EdaError
  register_outside : ℕ → EdaError
  setting_range : (min max : ℤ) → EdaError
  setting_twin : EdaError
  no_snapshot : EdaError
  setpoint_range : (celsius lo hi : ℤ) → EdaError
  too_few : (registers coils : ℕ) → EdaError

-- One write to the unit, without the text for the log.
pub data Write : Type 0 where
  coil_write : (addr : ℕ) → (bit : Bool) → Write
  register_write : (addr : ℕ) → (regs : List ℕ) → Write

-- The unit as far as the writes reach it: its coils and its holding registers.
pub record Unit16 : Type 0 where
  pub coils : List Bool
  pub holding : List ℕ

-- A write of registers next to each other.
unfoldable pub put_registers : List ℕ → ℕ → List ℕ → List ℕ
put_registers holding addr [] = holding
put_registers holding addr (r ∷ regs) = put_registers (set holding addr r) (addr + 1) regs

unfoldable pub do_write : Write → Unit16 → Unit16
do_write (coil_write addr bit) u = record u { coils = set u.coils addr bit }
do_write (register_write addr regs) u = record u { holding = put_registers u.holding addr regs }

unfoldable pub do_writes : List Write → Unit16 → Unit16
do_writes [] u = u
do_writes (w ∷ ws) u = do_writes ws (do_write w u)
