-- ===== src/Eda/Programs.antt =====
-- internal/eda/programs.go: the twenty weekly and five yearly timer programs.
pub mod Writing
pub mod Yearly
use freeway_pi.Base.{
  ℕ, zero, suc, ◌+◌, ◌-◌, ◌*◌, ◌/◌, ◌%◌, ◌^◌, ◌≤◌, ◌<◌, min, max, ◌≡◌, refl, sym, ap, ap₂, subst,
  ◌∙◌, fun_ext, ◌≢◌, ◌↔◌, ◌⊎◌, inl, inr, Bool, true, false, not, ◌&&◌, ◌||◌, Option, none, some,
  List, [], ◌∷◌, ◌++◌, map, arith, ltb, leb, ◌==◌, if◌then◌else◌, ltb→lt, lt→ltb, leb→le, ==_iff,
  Bool-cases, Option-cases, nonzero, length, get_or, set, take, drop, replicate, length-append,
  length-take, length-drop, length-replicate, take-append, drop-append, All, length-map, All-append,
  All-append_left, All-append_right, length-set, get_or-set_self, get_or-set_ne, get_or-drop,
  drop-nil, drop-drop, Result, ◌>>=◌, ◌>>◌, fail_if, ok, err,
}
use freeway_pi.Base.Ints.{ℤ, pos, negsuc, in_range, uint16, year_register}
use freeway_pi.Eda.{
  EdaError, week_missing, year_missing, bad_days, bad_hour, bad_minute, bad_month, bad_day,
  bad_year, bad_function, at_start, at_stop, snapshot_too_short, Write, register_write,
}
use freeway_pi.Eda.Modes.{fan_min, fan_max}

abbrev pub week_program_count : ℕ
week_program_count = 20

abbrev pub week_program_base : ℕ
week_program_base = 210

abbrev pub week_program_stride : ℕ
week_program_stride = 6

abbrev pub year_program_count : ℕ
year_program_count = 5

abbrev pub year_program_base : ℕ
year_program_base = 330

abbrev pub year_program_stride : ℕ
year_program_stride = 11

unfoldable pub is_fan_speed : ℤ → Bool
is_fan_speed f = in_range fan_min fan_max f

-- The functions of `FunctionChoices`: 0 to 7, and 16 for the relay.
unfoldable pub is_choice : ℤ → Bool
is_choice f = in_range 0 7 f || in_range 16 16 f

pub record WeekProgram : Type 0 where
  pub index : ℤ
  pub days : ℤ
  pub start_hour : ℤ
  pub start_min : ℤ
  pub stop_hour : ℤ
  pub stop_min : ℤ
  pub function : ℤ

pub record YearProgram : Type 0 where
  pub index : ℤ
  pub start_day : ℤ
  pub start_month : ℤ
  pub start_year : ℤ
  pub start_hour : ℤ
  pub start_min : ℤ
  pub stop_day : ℤ
  pub stop_month : ℤ
  pub stop_year : ℤ
  pub stop_hour : ℤ
  pub stop_min : ℤ
  pub function : ℤ

-- The program at register `b`.
unfoldable pub week_at : (i b : ℕ) → List ℕ → WeekProgram
week_at i b holding = record {
  index = pos i;
  days = pos (get_or holding b 0);
  start_hour = pos (get_or holding (b + 1) 0);
  start_min = pos (get_or holding (b + 2) 0);
  stop_hour = pos (get_or holding (b + 3) 0);
  stop_min = pos (get_or holding (b + 4) 0);
  function = pos (get_or holding (b + 5) 0);
}

unfoldable pub year_at : (i b : ℕ) → List ℕ → YearProgram
year_at i b holding = record {
  index = pos i;
  start_day = pos (get_or holding b 0);
  start_month = pos (get_or holding (b + 1) 0);
  start_year = pos (2000 + get_or holding (b + 2) 0);
  start_hour = pos (get_or holding (b + 3) 0);
  start_min = pos (get_or holding (b + 4) 0);
  stop_day = pos (get_or holding (b + 5) 0);
  stop_month = pos (get_or holding (b + 6) 0);
  stop_year = pos (2000 + get_or holding (b + 7) 0);
  stop_hour = pos (get_or holding (b + 8) 0);
  stop_min = pos (get_or holding (b + 9) 0);
  function = pos (get_or holding (b + 10) 0);
}

-- `n` programs from the one with number `i` on.
unfoldable pub week_loop : (n i : ℕ) → List ℕ → List WeekProgram
week_loop zero i holding = []
week_loop (suc n) i holding =
    week_at i (week_program_base + i * week_program_stride) holding ∷ week_loop n (i + 1) holding

unfoldable pub year_loop : (n i : ℕ) → List ℕ → List YearProgram
year_loop zero i holding = []
year_loop (suc n) i holding =
    year_at i (year_program_base + i * year_program_stride) holding ∷ year_loop n (i + 1) holding

unfoldable pub read_week_programs : List ℕ → Result EdaError (List WeekProgram)
read_week_programs holding = do
  fail_if (ltb (length holding) (week_program_base + week_program_count * week_program_stride)) (
      snapshot_too_short (length holding)
        (week_program_base + week_program_count * week_program_stride))
  ok (week_loop week_program_count 0 holding)

unfoldable pub read_year_programs : List ℕ → Result EdaError (List YearProgram)
read_year_programs holding = do
  fail_if (ltb (length holding) (year_program_base + year_program_count * year_program_stride)) (
      snapshot_too_short (length holding)
        (year_program_base + year_program_count * year_program_stride))
  ok (year_loop year_program_count 0 holding)

-- The checks: nothing, or what is wrong.
unfoldable pub check_time : (hour min : ℤ) → Option EdaError
check_time hour min =
    if not (in_range 0 23 hour)
    then some bad_hour
    else if not (in_range 0 59 min)
    then some bad_minute
    else none

unfoldable pub check_date : (day month year : ℤ) → Option EdaError
check_date day month year =
    if not (in_range 1 12 month)
    then some bad_month
    else if not (in_range 1 31 day)
    then some bad_day
    else if not (in_range 2006 2100 year)
    then some bad_year
    else none

unfoldable pub check_function : ℤ → Option EdaError
check_function f = if is_fan_speed f || is_choice f then none else some (bad_function f)

-- `if err := ...; err != nil { return wrap(err) }`.
unfoldable pub pass_on : (EdaError → EdaError) → Option EdaError → Result EdaError (Unit {0})
pass_on wrap none = ok tt
pass_on wrap (some e) = err (wrap e)

-- `uint16(base + index*stride)`.
unfoldable pub slot : (base stride : ℕ) → ℤ → ℕ
slot base stride (pos i) = (base + i * stride) % 65536
slot base stride (negsuc i) = (base + 65536 * (i + 1) * stride - (i + 1) * stride) % 65536

unfoldable pub week_regs : WeekProgram → List ℕ
week_regs p =
    uint16 p.days
    ∷ uint16 p.start_hour
    ∷ uint16 p.start_min
    ∷ uint16 p.stop_hour
    ∷ uint16 p.stop_min
    ∷ uint16 p.function
    ∷ []

unfoldable pub write_week_program : WeekProgram → Result EdaError (List Write)
write_week_program p = do
  fail_if (not (in_range 0 (week_program_count - 1) p.index)) (week_missing p.index)
  fail_if (not (in_range 0 127 p.days)) bad_days
  pass_on at_start (check_time p.start_hour p.start_min)
  pass_on at_stop (check_time p.stop_hour p.stop_min)
  pass_on (λ e. e) (check_function p.function)
  ok (register_write (slot week_program_base week_program_stride p.index) (week_regs p) ∷ [])

unfoldable pub year_regs : YearProgram → List ℕ
year_regs p =
    uint16 p.start_day
    ∷ uint16 p.start_month
    ∷ year_register p.start_year
    ∷ uint16 p.start_hour
    ∷ uint16 p.start_min
    ∷ uint16 p.stop_day
    ∷ uint16 p.stop_month
    ∷ year_register p.stop_year
    ∷ uint16 p.stop_hour
    ∷ uint16 p.stop_min
    ∷ uint16 p.function
    ∷ []

unfoldable pub write_year_program : YearProgram → Result EdaError (List Write)
write_year_program p = do
  fail_if (not (in_range 0 (year_program_count - 1) p.index)) (year_missing p.index)
  pass_on at_start (check_date p.start_day p.start_month p.start_year)
  pass_on at_start (check_time p.start_hour p.start_min)
  pass_on at_stop (check_date p.stop_day p.stop_month p.stop_year)
  pass_on at_stop (check_time p.stop_hour p.stop_min)
  pass_on (λ e. e) (check_function p.function)
  ok (register_write (slot year_program_base year_program_stride p.index) (year_regs p) ∷ [])

unfoldable pub clear_week_program : (index : ℤ) → Result EdaError (List Write)
clear_week_program index = do
  fail_if (not (in_range 0 (week_program_count - 1) index)) (week_missing index)
  ok (
      register_write (slot week_program_base week_program_stride index)
        (replicate week_program_stride 0)
      ∷ [])

unfoldable pub clear_year_program : (index : ℤ) → Result EdaError (List Write)
clear_year_program index = do
  fail_if (not (in_range 0 (year_program_count - 1) index)) (year_missing index)
  ok (
      register_write (slot year_program_base year_program_stride index)
        (replicate year_program_stride 0)
      ∷ [])
