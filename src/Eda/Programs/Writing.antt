-- ===== src/Eda/Programs/Writing.antt =====
-- A timer program that is written is the one that is read back.
use freeway_pi.Base.{
  ℕ, zero, suc, ◌+◌, ◌*◌, ◌≤◌, ◌<◌, min, ◌≡◌, refl, sym, ap, ◌∙◌, ◌⊎◌, inl, inr, true, none, List,
  [], ◌∷◌, arith, Option-cases, length, get_or, set, length-set, get_or-set_self, get_or-set_ne, ok,
}
use freeway_pi.Base.Ints.{ℤ, pos, negsuc, in_range, uint16, in_range-pos, uint16-pos}
use freeway_pi.Eda.{Write, register_write, Unit16, put_registers, do_write, do_writes}
use freeway_pi.Eda.Programs.{
  is_fan_speed, is_choice, WeekProgram, week_at, week_loop, read_week_programs, check_time,
  check_function, pass_on, slot, week_regs, write_week_program, week_program_base,
  week_program_stride,
}

pub length-put_registers :
    (regs holding : List ℕ) (addr : ℕ) → length (put_registers holding addr regs) ≡ length holding
unfolding put_registers
length-put_registers [] holding addr = refl
length-put_registers (r ∷ regs) holding addr =
    length-put_registers regs (set holding addr r) (addr + 1) ∙ length-set holding addr r

pub put_registers_out :
    (regs holding : List ℕ) (addr i : ℕ)
    → (i < addr) ⊎ (addr + length regs ≤ i)
    → get_or (put_registers holding addr regs) i 0 ≡ get_or holding i 0
unfolding put_registers
put_registers_out [] holding addr i h = refl
put_registers_out (r ∷ regs) holding addr i h =
    put_registers_out regs (set holding addr r) (addr + 1) i (ground (arith, h))
    ∙ get_or-set_ne holding addr i r 0 (ground (arith, h))

pub put_registers_in :
    (regs holding : List ℕ) (addr k i : ℕ)
    → i ≡ addr + k
    → k < length regs
    → addr + length regs ≤ length holding
    → get_or (put_registers holding addr regs) i 0 ≡ get_or regs k 0
unfolding put_registers
put_registers_in [] holding addr k i e h room = absurd (omega arith)
put_registers_in (r ∷ regs) holding addr zero i e h room =
    put_registers_out regs (set holding addr r) (addr + 1) i (inl (omega arith))
    ∙ ap (λ (j : ℕ). get_or (set holding addr r) j 0) (omega arith)
    ∙ get_or-set_self holding addr r 0 (omega arith)
put_registers_in (r ∷ regs) holding addr (suc k) i e h room =
    put_registers_in regs (set holding addr r) (addr + 1) k i (omega arith) (omega arith)
      (omega (arith, length-set holding addr r))

pub pos_inj : {i j : ℕ} → pos i ≡ pos j → i ≡ j
pos_inj h = cc

-- A number that passed its test comes back from its register.
pub kept : (lo hi : ℕ) (x : ℤ) → hi < 65536 → in_range lo hi x ≡ true → pos (uint16 x) ≡ x
kept lo hi x small h =
    let (n, e, above, below) = in_range-pos lo hi x h in
    rw (e) (ap pos (uint16-pos n (omega arith)))

record IsOk (p : WeekProgram) : Type 0 where
  index_ok : in_range 0 19 p.index ≡ true
  days_ok : in_range 0 127 p.days ≡ true
  start_ok : check_time p.start_hour p.start_min ≡ none
  stop_ok : check_time p.stop_hour p.stop_min ≡ none
  function_ok : check_function p.function ≡ none

pub check_time-none :
    (hour min : ℤ)
    → check_time hour min ≡ none
    → (in_range 0 23 hour ≡ true) × (in_range 0 59 min ≡ true)
unfolding check_time
check_time-none hour min h = (ground arith, ground arith)

pub check_function-none : (f : ℤ) → check_function f ≡ none → in_range 0 100 f ≡ true
unfolding check_function is_fan_speed is_choice in_range
check_function-none (pos n) h = ground arith
check_function-none (negsuc n) h = absurd cc

write_week_program_ok :
    (p : WeekProgram) (ws : List Write)
    → write_week_program p ≡ ok ws
    → IsOk p
      × (ws
          ≡ register_write (slot week_program_base week_program_stride p.index) (week_regs p) ∷ [])
unfolding write_week_program pass_on
write_week_program_ok p ws h = elim (Option-cases (check_time p.start_hour p.start_min)) [
  | inr (e, bad) ↦ absurd (ground arith)
  | inl start ↦ elim (Option-cases (check_time p.stop_hour p.stop_min)) [
    | inr (e, bad) ↦ absurd (ground arith)
    | inl stop ↦ elim (Option-cases (check_function p.function)) [
      | inr (e, bad) ↦ absurd (ground arith)
      | inl function ↦ (
        record {
          index_ok = ground arith;
          days_ok = ground arith;
          start_ok = start;
          stop_ok = stop;
          function_ok = function;
        },
        ground arith,
      )
    ]
  ]
]

week_loop-get :
    (n i j : ℕ) (holding : List ℕ) (d : WeekProgram)
    → j < n
    → get_or (week_loop n i holding) j d
      ≡ week_at (i + j) (week_program_base + (i + j) * week_program_stride) holding
unfolding week_loop
week_loop-get zero i j holding d h = absurd (omega arith)
week_loop-get (suc n) i zero holding d h =
    let e : i ≡ i + 0 = omega arith in
    ap (λ (k : ℕ). week_at k (week_program_base + k * week_program_stride) holding) e
week_loop-get (suc n) i (suc j) holding d h =
    let e : i + 1 + j ≡ i + suc j = omega arith in
    week_loop-get n (i + 1) j holding d (omega arith)
    ∙ ap (λ (k : ℕ). week_at k (week_program_base + k * week_program_stride) holding) e

week_ext :
    (p q : WeekProgram)
    → p.index ≡ q.index
    → p.days ≡ q.days
    → p.start_hour ≡ q.start_hour
    → p.start_min ≡ q.start_min
    → p.stop_hour ≡ q.stop_hour
    → p.stop_min ≡ q.stop_min
    → p.function ≡ q.function
    → p ≡ q
week_ext p q a b c d e f g = cc

-- The program as its registers hold it.
week_at-regs :
    (p : WeekProgram) (i b : ℕ) (holding : List ℕ)
    → IsOk p
    → p.index ≡ pos i
    → ((k : ℕ) → k < 6 → get_or holding (b + k) 0 ≡ get_or (week_regs p) k 0)
    → week_at i b holding ≡ p
unfolding week_at week_regs
week_at-regs p i b holding valid here regs =
    let at : (k : ℕ) (x : ℤ)
        → k < 6
        → pos (get_or (week_regs p) k 0) ≡ x
        → pos (get_or holding (b + k) 0) ≡ x =
      λ k x h e. ap pos (regs k h) ∙ e in
    week_ext _ p (sym here)
      (ap (λ (j : ℕ). pos (get_or holding j 0)) (omega arith)
        ∙ at 0 p.days (omega arith) (kept 0 127 p.days (omega arith) valid.days_ok))
      (at 1 p.start_hour (omega arith)
        (kept 0 23 p.start_hour (omega arith) (check_time-none _ _ valid.start_ok).0))
      (at 2 p.start_min (omega arith)
        (kept 0 59 p.start_min (omega arith) (check_time-none _ _ valid.start_ok).1))
      (at 3 p.stop_hour (omega arith)
        (kept 0 23 p.stop_hour (omega arith) (check_time-none _ _ valid.stop_ok).0))
      (at 4 p.stop_min (omega arith)
        (kept 0 59 p.stop_min (omega arith) (check_time-none _ _ valid.stop_ok).1))
      (at 5 p.function (omega arith)
        (kept 0 100 p.function (omega arith) (check_function-none _ valid.function_ok)))

-- A weekly program that is accepted, on a unit with all 330 registers up to its end: the program
-- read back in its place is the one that was written, a register outside its six is as it was, and
-- so are the coils.
pub write_week_program_read :
    (p d : WeekProgram) (ws : List Write) (u : Unit16) (i k : ℕ)
    → 330 ≤ length u.holding
    → p.index ≡ pos i
    → write_week_program p ≡ ok ws
    → (k < 210 + 6 * i) ⊎ (216 + 6 * i ≤ k)
    → (i < 20)
      × ((ps : List WeekProgram) × (read_week_programs (do_writes ws u).holding ≡ ok ps)
          × (get_or ps i d ≡ p))
      × (get_or (do_writes ws u).holding k 0 ≡ get_or u.holding k 0)
      × ((do_writes ws u).coils ≡ u.coils)
unfolding do_writes do_write read_week_programs slot week_regs
write_week_program_read p d ws u i k room here accepted out =
    let (valid, made) = write_week_program_ok p ws accepted in
    let (j, there, above, below) = in_range-pos 0 19 p.index valid.index_ok in
    let few : i ≤ 19 = omega (arith, below, pos_inj (sym here ∙ there)) in
    let at : slot 210 6 p.index ≡ 210 + i * 6 = ap (slot 210 6) here ∙ omega arith in
    let after = put_registers u.holding (210 + i * 6) (week_regs p) in
    let size = length-put_registers (week_regs p) u.holding (210 + i * 6) in
    (
      omega arith,
      (
        week_loop 20 0 after,
        rw (made, at) (ground arith),
        week_loop-get 20 0 i after d (omega arith)
            ∙ ap (λ (j : ℕ). week_at j (week_program_base + j * week_program_stride) after)
                (omega arith)
            ∙ week_at-regs p i (210 + i * 6) after valid here (λ k h.
              put_registers_in (week_regs p) u.holding (210 + i * 6) k (210 + i * 6 + k) refl h
                (omega arith)),
      ),
      rw (made, at)
          (put_registers_out (week_regs p) u.holding (210 + i * 6) k (ground (arith, out))),
      rw (made) refl,
    )
