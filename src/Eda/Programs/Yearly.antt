-- ===== src/Eda/Programs/Yearly.antt =====
-- A yearly program that is written is the one that is read back.
use freeway_pi.Base.{
  ℕ, zero, suc, ◌+◌, ◌*◌, ◌≤◌, ◌<◌, ◌≡◌, refl, sym, ap, ◌∙◌, ◌⊎◌, inl, inr, true, none, List, [],
  ◌∷◌, arith, Option-cases, length, get_or, ok,
}
use freeway_pi.Base.Ints.{ℤ, pos, in_range, year_register, in_range-pos, year_register-pos}
use freeway_pi.Eda.{Write, register_write, Unit16, put_registers, do_write, do_writes}
use freeway_pi.Eda.Programs.{
  YearProgram, year_at, year_loop, read_year_programs, check_date, check_time, check_function,
  pass_on, slot, year_regs, write_year_program, year_program_base, year_program_stride,
}
use freeway_pi.Eda.Programs.Writing.{
  length-put_registers, put_registers_out, put_registers_in, pos_inj, kept, check_time-none,
  check_function-none,
}

record IsOk (p : YearProgram) : Type 0 where
  index_ok : in_range 0 4 p.index ≡ true
  start_date : check_date p.start_day p.start_month p.start_year ≡ none
  start_time : check_time p.start_hour p.start_min ≡ none
  stop_date : check_date p.stop_day p.stop_month p.stop_year ≡ none
  stop_time : check_time p.stop_hour p.stop_min ≡ none
  function_ok : check_function p.function ≡ none

check_date-none :
    (day month year : ℤ)
    → check_date day month year ≡ none
    → (in_range 1 12 month ≡ true) × (in_range 1 31 day ≡ true) × (in_range 2006 2100 year ≡ true)
unfolding check_date
check_date-none day month year h = (ground arith, ground arith, ground arith)

kept_year : (x : ℤ) → in_range 2006 2100 x ≡ true → pos (2000 + year_register x) ≡ x
kept_year x h =
    let (n, e, above, below) = in_range-pos 2006 2100 x h in
    rw (e) (ap pos (omega (arith, year_register-pos n (omega arith) (omega arith))))

write_year_program_ok :
    (p : YearProgram) (ws : List Write)
    → write_year_program p ≡ ok ws
    → IsOk p
      × (ws
          ≡ register_write (slot year_program_base year_program_stride p.index) (year_regs p) ∷ [])
unfolding write_year_program pass_on
write_year_program_ok p ws h =
    elim (Option-cases (check_date p.start_day p.start_month p.start_year)) [
      | inr (e, bad) ↦ absurd (ground arith)
      | inl start_date ↦ elim (Option-cases (check_time p.start_hour p.start_min)) [
        | inr (e, bad) ↦ absurd (ground arith)
        | inl start_time ↦ elim (Option-cases (check_date p.stop_day p.stop_month p.stop_year)) [
          | inr (e, bad) ↦ absurd (ground arith)
          | inl stop_date ↦ elim (Option-cases (check_time p.stop_hour p.stop_min)) [
            | inr (e, bad) ↦ absurd (ground arith)
            | inl stop_time ↦ elim (Option-cases (check_function p.function)) [
              | inr (e, bad) ↦ absurd (ground arith)
              | inl function ↦ (
                record {
                  index_ok = ground arith;
                  start_date = start_date;
                  start_time = start_time;
                  stop_date = stop_date;
                  stop_time = stop_time;
                  function_ok = function;
                },
                ground arith,
              )
            ]
          ]
        ]
      ]
    ]

year_loop-get :
    (n i j : ℕ) (holding : List ℕ) (d : YearProgram)
    → j < n
    → get_or (year_loop n i holding) j d
      ≡ year_at (i + j) (year_program_base + (i + j) * year_program_stride) holding
unfolding year_loop
year_loop-get zero i j holding d h = absurd (omega arith)
year_loop-get (suc n) i zero holding d h =
    let e : i ≡ i + 0 = omega arith in
    ap (λ (k : ℕ). year_at k (year_program_base + k * year_program_stride) holding) e
year_loop-get (suc n) i (suc j) holding d h =
    let e : i + 1 + j ≡ i + suc j = omega arith in
    year_loop-get n (i + 1) j holding d (omega arith)
    ∙ ap (λ (k : ℕ). year_at k (year_program_base + k * year_program_stride) holding) e

year_ext :
    (p q : YearProgram)
    → p.index ≡ q.index
    → p.start_day ≡ q.start_day
    → p.start_month ≡ q.start_month
    → p.start_year ≡ q.start_year
    → p.start_hour ≡ q.start_hour
    → p.start_min ≡ q.start_min
    → p.stop_day ≡ q.stop_day
    → p.stop_month ≡ q.stop_month
    → p.stop_year ≡ q.stop_year
    → p.stop_hour ≡ q.stop_hour
    → p.stop_min ≡ q.stop_min
    → p.function ≡ q.function
    → p ≡ q
year_ext p q a b c d e f g h i j k l = cc

-- The program as its registers hold it.
year_at-regs :
    (p : YearProgram) (i b : ℕ) (holding : List ℕ)
    → IsOk p
    → p.index ≡ pos i
    → ((k : ℕ) → k < 11 → get_or holding (b + k) 0 ≡ get_or (year_regs p) k 0)
    → year_at i b holding ≡ p
unfolding year_at year_regs
year_at-regs p i b holding valid here regs =
    let at : (k : ℕ) (x : ℤ)
        → k < 11
        → pos (get_or (year_regs p) k 0) ≡ x
        → pos (get_or holding (b + k) 0) ≡ x =
      λ k x h e. ap pos (regs k h) ∙ e in
    let year : (k : ℕ) (x : ℤ)
        → k < 11
        → pos (2000 + get_or (year_regs p) k 0) ≡ x
        → pos (2000 + get_or holding (b + k) 0) ≡ x =
      λ k x h e. ap (λ (y : ℕ). pos (2000 + y)) (regs k h) ∙ e in
    year_ext _ p (sym here)
      (ap (λ (j : ℕ). pos (get_or holding j 0)) (omega arith)
        ∙ at 0 p.start_day (omega arith)
            (kept 1 31 p.start_day (omega arith) (check_date-none _ _ _ valid.start_date).1))
      (at 1 p.start_month (omega arith)
        (kept 1 12 p.start_month (omega arith) (check_date-none _ _ _ valid.start_date).0))
      (year 2 p.start_year (omega arith)
        (kept_year p.start_year (check_date-none _ _ _ valid.start_date).2))
      (at 3 p.start_hour (omega arith)
        (kept 0 23 p.start_hour (omega arith) (check_time-none _ _ valid.start_time).0))
      (at 4 p.start_min (omega arith)
        (kept 0 59 p.start_min (omega arith) (check_time-none _ _ valid.start_time).1))
      (at 5 p.stop_day (omega arith)
        (kept 1 31 p.stop_day (omega arith) (check_date-none _ _ _ valid.stop_date).1))
      (at 6 p.stop_month (omega arith)
        (kept 1 12 p.stop_month (omega arith) (check_date-none _ _ _ valid.stop_date).0))
      (year 7 p.stop_year (omega arith)
        (kept_year p.stop_year (check_date-none _ _ _ valid.stop_date).2))
      (at 8 p.stop_hour (omega arith)
        (kept 0 23 p.stop_hour (omega arith) (check_time-none _ _ valid.stop_time).0))
      (at 9 p.stop_min (omega arith)
        (kept 0 59 p.stop_min (omega arith) (check_time-none _ _ valid.stop_time).1))
      (at 10 p.function (omega arith)
        (kept 0 100 p.function (omega arith) (check_function-none _ valid.function_ok)))

-- A yearly program that is accepted, on a unit with all 385 registers up to the end of the yearly
-- programs: the program read back in its place is the one that was written, a register outside its
-- eleven is as it was, and so are the coils.
pub write_year_program_read :
    (p d : YearProgram) (ws : List Write) (u : Unit16) (i k : ℕ)
    → 385 ≤ length u.holding
    → p.index ≡ pos i
    → write_year_program p ≡ ok ws
    → (k < 330 + 11 * i) ⊎ (341 + 11 * i ≤ k)
    → (i < 5)
      × ((ps : List YearProgram) × (read_year_programs (do_writes ws u).holding ≡ ok ps)
          × (get_or ps i d ≡ p))
      × (get_or (do_writes ws u).holding k 0 ≡ get_or u.holding k 0)
      × ((do_writes ws u).coils ≡ u.coils)
unfolding do_writes do_write read_year_programs slot year_regs
write_year_program_read p d ws u i k room here accepted out =
    let (valid, made) = write_year_program_ok p ws accepted in
    let (j, there, above, below) = in_range-pos 0 4 p.index valid.index_ok in
    let few : i ≤ 4 = omega (arith, below, pos_inj (sym here ∙ there)) in
    let at : slot 330 11 p.index ≡ 330 + i * 11 = ap (slot 330 11) here ∙ omega arith in
    let after = put_registers u.holding (330 + i * 11) (year_regs p) in
    let size = length-put_registers (year_regs p) u.holding (330 + i * 11) in
    (
      omega arith,
      (
        year_loop 5 0 after,
        rw (made, at) (ground arith),
        year_loop-get 5 0 i after d (omega arith)
            ∙ ap (λ (j : ℕ). year_at j (year_program_base + j * year_program_stride) after)
                (omega arith)
            ∙ year_at-regs p i (330 + i * 11) after valid here (λ k h.
              put_registers_in (year_regs p) u.holding (330 + i * 11) k (330 + i * 11 + k) refl h
                (omega arith)),
      ),
      rw (made, at)
          (put_registers_out (year_regs p) u.holding (330 + i * 11) k (ground (arith, out))),
      rw (made) refl,
    )
