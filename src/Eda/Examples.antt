-- ===== src/Eda/Examples.antt =====
-- The unit's commands and readings at concrete inputs.
use freeway_pi.Base.{
  ℕ, ◌<◌, ◌≡◌, refl, inl, inr, true, false, List, [], ◌∷◌, arith, get_or, set, replicate, ok,
}
use freeway_pi.Base.Ints.{year_register, pos, in_range, uint16}
use freeway_pi.Eda.{Write, coil_write, register_write, Unit16, do_writes}
use freeway_pi.Eda.Modes.{
  away, boost, code, same_mode, is_known, set_mode, mode_coil, coil_of, decode_mode, start_boost,
  set_boost_duration,
}
use freeway_pi.Eda.Modes.Coils.{Selects}
use freeway_pi.Eda.Modes.Switching.{Keeps, set_mode-Selects}
use freeway_pi.Eda.Programs.{
  YearProgram, read_year_programs, write_year_program, year_regs, check_date, WeekProgram,
  write_week_program, read_week_programs, check_time, check_function, is_fan_speed, is_choice,
  pass_on, slot, week_regs,
}
use freeway_pi.Eda.Programs.Yearly.{write_year_program_read}
use freeway_pi.Eda.Programs.Writing.{write_week_program_read}
use freeway_pi.Eda.Alarms.Active.{slot_on}
use freeway_pi.Eda.Output.{int16, read_output, clamp_percent, negate_int16}

-- Away is on, and so is the coil that permits CO2 boost.
abbrev house : Unit16
house = record { coils = set (set (replicate 80 false) 1 true) 8 true; holding = replicate 738 0 }

set_mode-Selects_example :
    (ws : List Write) × (set_mode away boost ≡ ok ws)
    × Selects boost (do_writes ws house).coils
    × (decode_mode (do_writes ws house).coils ≡ boost)
    × Keeps house (do_writes ws house)
unfolding is_known same_mode code
set_mode-Selects_example =
    set_mode-Selects away boost house refl refl (omega arith)
      (refl, (refl, (refl, (refl, (refl, (refl, (refl, tt)))))))

start_boost_writes :
    start_boost away (pos 30)
    ≡ ok (register_write 66 (30 ∷ []) ∷ coil_write 1 false ∷ coil_write 10 true ∷ [])
unfolding start_boost set_boost_duration set_mode is_known same_mode code coil_of mode_coil in_range
    uint16
start_boost_writes = refl

-- Program 3: weekdays from 6:30 to 22:00, the fans at 60 %.
abbrev weekdays : WeekProgram
weekdays = record {
  index = pos 2;
  days = pos 62;
  start_hour = pos 6;
  start_min = pos 30;
  stop_hour = pos 22;
  stop_min = pos 0;
  function = pos 60;
}

abbrev weekday_writes : List Write
weekday_writes = register_write 222 (62 ∷ 6 ∷ 30 ∷ 22 ∷ 0 ∷ 60 ∷ []) ∷ []

weekdays_accepted : write_week_program weekdays ≡ ok weekday_writes
unfolding write_week_program pass_on check_time check_function is_fan_speed is_choice in_range slot
    week_regs uint16
weekdays_accepted = refl

write_week_program_read_example :
    (2 < 20)
    × ((ps : List WeekProgram) × (read_week_programs (do_writes weekday_writes house).holding
          ≡ ok ps)
        × (get_or ps 2 weekdays ≡ weekdays))
    × (get_or (do_writes weekday_writes house).holding 228 0 ≡ get_or house.holding 228 0)
    × ((do_writes weekday_writes house).coils ≡ house.coils)
write_week_program_read_example =
    write_week_program_read weekdays weekdays weekday_writes house 2 228 (omega arith) refl
      weekdays_accepted (inr (omega arith))

-- The register 0x8000, the farthest below 0, is read as no cooling at all.
lowest_ladder : (read_output (int16 32768) (pos 1)).cooling ≡ 0
unfolding read_output int16 clamp_percent negate_int16
lowest_ladder = refl

-- Alarm 13 is on in the second slot.
abbrev log_registers : List ℕ
log_registers = set (set (set (replicate 738 0) 392 13) 393 2) 395 11

log_on : slot_on 13 20 0 log_registers ≡ true
unfolding slot_on
log_on = refl

-- Program 2: away from 24 December 2026 at 8:00 to 2 January 2027 at 18:15.
abbrev holidays : YearProgram
holidays = record {
  index = pos 1;
  start_day = pos 24;
  start_month = pos 12;
  start_year = pos 2026;
  start_hour = pos 8;
  start_min = pos 0;
  stop_day = pos 2;
  stop_month = pos 1;
  stop_year = pos 2027;
  stop_hour = pos 18;
  stop_min = pos 15;
  function = pos 1;
}

abbrev holiday_writes : List Write
holiday_writes = register_write 341 (24 ∷ 12 ∷ 26 ∷ 8 ∷ 0 ∷ 2 ∷ 1 ∷ 27 ∷ 18 ∷ 15 ∷ 1 ∷ []) ∷ []

holidays_accepted : write_year_program holidays ≡ ok holiday_writes
unfolding write_year_program pass_on check_date check_time check_function is_fan_speed is_choice
    in_range slot year_regs uint16 year_register
holidays_accepted = refl

write_year_program_read_example :
    (1 < 5)
    × ((ps : List YearProgram) × (read_year_programs (do_writes holiday_writes house).holding
          ≡ ok ps)
        × (get_or ps 1 holidays ≡ holidays))
    × (get_or (do_writes holiday_writes house).holding 340 0 ≡ get_or house.holding 340 0)
    × ((do_writes holiday_writes house).coils ≡ house.coils)
write_year_program_read_example =
    write_year_program_read holidays holidays holiday_writes house 1 340 (omega arith) refl
      holidays_accepted (inl (omega arith))
