-- ===== src/Eda/State/Clocks.antt =====
-- The unit's clock as it is set and as it is read.
use freeway_pi.Base.{
  ℕ, ◌+◌, ◌≤◌, ◌<◌, ◌≡◌, refl, ap, ◌∙◌, true, some, List, [], ◌∷◌, arith, ◌==◌, length, get_or,
}
use freeway_pi.Base.Ints.{pos, uint16, uint16-pos, year_register, year_register-pos}
use freeway_pi.Eda.{Unit16, do_write, do_writes}
use freeway_pi.Eda.Programs.Writing.{put_registers_in}
use freeway_pi.Eda.State.{Calendar, ClockTime, set_clock, is_date, same_day, decode_clock}

-- A minute that exists: its parts are in range, and the calendar does not move it to another day.
pub record IsMinute (cal : Calendar) (t : ClockTime) : Type 0 where
  pub minute_fits : t.minute ≤ 59
  pub hour_fits : t.hour ≤ 23
  pub day_fits : (1 ≤ t.day) × (t.day ≤ 31)
  pub month_fits : (1 ≤ t.month) × (t.month ≤ 12)
  pub year_fits : (2000 ≤ t.year) × (t.year < 65536)
  pub day_kept : cal.day (cal.date t.year t.month t.day t.hour t.minute 0) ≡ t.day
  pub month_kept : cal.month (cal.date t.year t.month t.day t.hour t.minute 0) ≡ t.month

-- What the unit does with its setting block, the registers from 582 on: its running clock, the
-- registers from 37 on, takes the five fields over, with the seconds at zero.
pub record Applies (block running : List ℕ) : Type 0 where
  pub seconds : get_or running 37 0 ≡ 0
  pub fields : (i : ℕ) → i < 5 → get_or running (38 + i) 0 ≡ get_or block (582 + i) 0

abbrev clock_regs : ClockTime → List ℕ
clock_regs t =
    uint16 (pos t.minute)
    ∷ uint16 (pos t.hour)
    ∷ uint16 (pos t.day)
    ∷ uint16 (pos t.month)
    ∷ year_register (pos t.year)
    ∷ []

module _ (cal : Calendar) (t : ClockTime) (u : Unit16) (running : List ℕ)
    (room : 587 ≤ length u.holding) (ready : IsMinute cal t)
    (applied : Applies (do_writes (set_clock t) u).holding running) where
  field_at : (i : ℕ) → i < 5 → get_or running (38 + i) 0 ≡ get_or (clock_regs t) i 0
  unfolding set_clock do_writes do_write
  field_at i h =
      applied.fields i h
      ∙ put_registers_in (clock_regs t) u.holding 582 i (582 + i) refl h (omega arith)

  -- The clock set to a minute that exists, on a unit that takes its setting block over: the running
  -- clock is read as the start of that minute.
  pub decode_clock-set_clock :
      decode_clock cal running ≡ some (cal.date t.year t.month t.day t.hour t.minute 0)
  unfolding decode_clock is_date same_day
  decode_clock-set_clock =
      let minute : get_or running 38 0 ≡ t.minute =
        field_at 0 (omega arith) ∙ uint16-pos t.minute (omega (arith, ready.minute_fits)) in
      let hour : get_or running 39 0 ≡ t.hour =
        field_at 1 (omega arith) ∙ uint16-pos t.hour (omega (arith, ready.hour_fits)) in
      let day : get_or running 40 0 ≡ t.day =
        field_at 2 (omega arith) ∙ uint16-pos t.day (omega (arith, ready.day_fits)) in
      let month : get_or running 41 0 ≡ t.month =
        field_at 3 (omega arith) ∙ uint16-pos t.month (omega (arith, ready.month_fits)) in
      let year : 2000 + get_or running 42 0 ≡ t.year =
        ap (λ (y : ℕ). 2000 + y) (field_at 4 (omega arith))
        ∙ omega (arith, year_register-pos t.year ready.year_fits.0 ready.year_fits.1) in
      let date : is_date t.month t.day t.hour t.minute 0 ≡ true =
        ground (arith, ready.minute_fits, ready.hour_fits, ready.day_fits, ready.month_fits) in
      let same_days : (t.day == t.day) ≡ true = ground arith in
      let same_months : (t.month == t.month) ≡ true = ground arith in
      rw
        (
          applied.seconds, minute, hour, day, month, year, date, ready.day_kept, ready.month_kept,
          same_days, same_months,
        )
        refl
