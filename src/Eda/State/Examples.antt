-- ===== src/Eda/State/Examples.antt =====
-- The state at concrete inputs.
use freeway_pi.Base.{
  ℕ, zero, suc, ◌+◌, ◌-◌, ◌*◌, ◌/◌, ◌%◌, ◌^◌, ◌<◌, ◌≡◌, refl, ◌⊎◌, inl, inr, Bool, true, false,
  ◌&&◌, none, some, List, arith, ◌==◌, if◌then◌else◌, Bool-cases, get_or, set, replicate,
  length-replicate, Result, ok, err,
}
use freeway_pi.Base.Ints.{pos, negsuc}
use freeway_pi.Modbus.Pdu.{Error, eof}
use freeway_pi.Bus.Poller.{Poller, refresh}
use freeway_pi.Bus.Poller.Passes.{Exact}
use freeway_pi.Bus.Poller.Published.{is_err, failures}
use freeway_pi.Eda.{no_snapshot, Unit16, do_writes, do_write, put_registers}
use freeway_pi.Base.Ints.{uint16, year_register}
use freeway_pi.Eda.Output.{int16}
use freeway_pi.Eda.State.{
  Calendar, ClockTime, State, drift_of, is_dst, hour, set_clock, decode_clock, decode, limit,
}
use freeway_pi.Eda.State.Clocks.{IsMinute, decode_clock-set_clock}
use freeway_pi.Eda.State.Decoded.{Answered, decode_refresh}

-- A calendar of months of thirty-one days that counts from the year 2000.
abbrev plain : Calendar
plain = record {
  date = λ year month day hour minute second.
      (((((year - 2000) * 12 + (month - 1)) * 31 + (day - 1)) * 24 + hour) * 60 + minute) * 60
      + second;
  day = λ t. t / 86400 % 31 + 1;
  month = λ t. t / 86400 / 31 % 12 + 1;
  weekday = λ t. t / 86400 % 7;
}

abbrev noon : ClockTime
noon = record { minute = 30; hour = 12; day = 24; month = 12; year = 2026 }

abbrev house : Unit16
house = record { coils = replicate 80 false; holding = replicate 738 0 }

abbrev running : List ℕ
running = set (set (set (set (set (replicate 738 0) 38 30) 39 12) 40 24) 41 12) 42 26

running_fields :
    (i : ℕ)
    → i < 5
    → get_or running (38 + i) 0 ≡ get_or (do_writes (set_clock noon) house).holding (582 + i) 0
unfolding do_writes do_write put_registers set_clock uint16 year_register
running_fields zero h = refl
running_fields (suc zero) h = refl
running_fields (suc (suc zero)) h = refl
running_fields (suc (suc (suc zero))) h = refl
running_fields (suc (suc (suc (suc zero)))) h = refl
running_fields (suc (suc (suc (suc (suc i))))) h = absurd (omega arith)

noon-IsMinute : IsMinute plain noon
noon-IsMinute = record {
  minute_fits = omega arith;
  hour_fits = omega arith;
  day_fits = (omega arith, omega arith);
  month_fits = (omega arith, omega arith);
  year_fits = (omega arith, omega arith);
  day_kept = refl;
  month_kept = refl;
}

decode_clock-set_clock_example : decode_clock plain running ≡ some (plain.date 2026 12 24 12 30 0)
decode_clock-set_clock_example =
    decode_clock-set_clock plain noon house running (omega arith) noon-IsMinute
      (record { seconds = refl; fields = running_fields })

-- A unit whose second block of registers fails.
abbrev answers : ℕ → ℕ → Result Error (List ℕ)
answers from count = if from == 125 then err eof else ok (replicate count 7)

answers-Exact : Exact answers
answers-Exact from count regs h = elim (Bool-cases (from == 125)) [
  | inl failed ↦ absurd (ground (arith, h, failed))
  | inr answered ↦
      let e : replicate count 7 ≡ regs = ground (arith, h, answered) in
      rw (← e) (length-replicate count 7)
]

abbrev lit : Result Error (List Bool)
lit = ok (replicate 80 true)

abbrev fresh : Poller
fresh = record { current = none; passes = 0; failures = 0; last_err = none }

decode_refresh_example :
    ((failures 6 0 answers == 6 && is_err lit) ≡ true)
      × (decode plain 9 5 (refresh 1 2 answers lit fresh).1.current ≡ err no_snapshot)
    ⊎ ((failures 6 0 answers == 6 && is_err lit) ≡ false)
      × ((st : State) × (decode plain 9 5 (refresh 1 2 answers lit fresh).1.current ≡ ok st)
          × Answered answers lit st)
decode_refresh_example = decode_refresh 1 2 answers lit fresh plain 9 5 answers-Exact refl

-- A clock an hour and four minutes behind is a change to summer time.
dst_seen : is_dst (drift_of (2 * hour) (hour - 4 * 60_000_000_000)) ≡ true
unfolding is_dst drift_of
dst_seen = refl

-- A clock more than 292 years ahead is no distance away, but below zero.
far_ahead : drift_of 0 (2 ^ 63) ≡ negsuc (2 ^ 63 - 1)
unfolding drift_of
far_ahead = refl

limit_implausible : limit 400 (pos 30) ≡ pos 30
unfolding limit int16
limit_implausible = refl
