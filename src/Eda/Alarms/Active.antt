-- ===== src/Eda/Alarms/Active.antt =====
-- Which alarms are reported to be on.
use freeway_pi.Base.{
  ℕ, zero, suc, ◌+◌, ◌*◌, ◌≤◌, ◌≡◌, refl, ◌∙◌, inl, inr, Bool, false, not, ◌&&◌, ◌||◌, List, [],
  ◌∷◌, arith, ◌==◌, Bool-cases, length, get_or, ok,
}
use freeway_pi.Eda.Alarms.{
  alarm_log_base, alarm_log_stride, Alarm, alarm_at, alarm_loop, read_alarms, is_active,
  active_alarms,
}

-- A code on a list of alarms.
unfoldable pub reports : ℕ → List Alarm → Bool
reports code [] = false
reports code (a ∷ rest) = a.code == code || reports code rest

-- A code that one of `n` slots of the registers says is on: the slot's code is that, its state is 2,
-- and it is not blank, with neither a code nor a month.
unfoldable pub slot_on : (code n i : ℕ) → List ℕ → Bool
slot_on code zero i holding = false
slot_on code (suc n) i holding =
    let b = alarm_log_base + i * alarm_log_stride in
    (get_or holding b 0 == code
      && (get_or holding (b + 1) 0 == 2
          && not (get_or holding b 0 == 0 && get_or holding (b + 3) 0 == 0)))
    || slot_on code n (i + 1) holding

alarm_at-read :
    (i b : ℕ) (holding : List ℕ)
    → ((alarm_at i b holding).code ≡ get_or holding b 0)
      × ((alarm_at i b holding).state ≡ get_or holding (b + 1) 0)
      × ((alarm_at i b holding).empty ≡ (get_or holding b 0 == 0 && get_or holding (b + 3) 0 == 0))
unfolding alarm_at
alarm_at-read i b holding =
    elim (Bool-cases (get_or holding b 0 == 0 && get_or holding (b + 3) 0 == 0)) [
      | inl blank ↦ rw (blank, alarm_at) (refl, refl, refl)
      | inr used ↦ rw (used, alarm_at) (refl, refl, refl)
    ]

reports-front :
    (code : ℕ) (a : Alarm) (rest : List Alarm)
    → reports code (active_alarms (a ∷ rest))
      ≡ ((a.code == code && (a.state == 2 && not a.empty)) || reports code (active_alarms rest))
unfolding reports active_alarms is_active
reports-front code a rest = elim (Bool-cases a.empty) [
  | inl blank ↦ ground arith
  | inr used ↦ elim (Bool-cases (a.state == 2)) [ inl on ↦ ground arith | inr off ↦ ground arith ]
]

alarm_loop-reports :
    (code n i : ℕ) (holding : List ℕ)
    → reports code (active_alarms (alarm_loop n i holding)) ≡ slot_on code n i holding
unfolding alarm_loop slot_on reports active_alarms
alarm_loop-reports code zero i holding = refl
alarm_loop-reports code (suc n) i holding =
    let b = alarm_log_base + i * alarm_log_stride in
    let (c, s, e) = alarm_at-read i b holding in
    reports-front code (alarm_at i b holding) (alarm_loop n (i + 1) holding)
    ∙ rw (c, s, e, alarm_loop-reports code n (i + 1) holding) refl

-- The log of a snapshot that reaches its end is read, and its active alarms report a code exactly
-- when one of the twenty slots holds that code with the state on and is not blank.
read_alarms-reports :
    (holding : List ℕ) (code : ℕ)
    → 525 ≤ length holding
    → (all : List Alarm) × (read_alarms holding ≡ ok all)
      × (reports code (active_alarms all) ≡ slot_on code 20 0 holding)
unfolding read_alarms
read_alarms-reports holding code room =
    (alarm_loop 20 0 holding, ground arith, alarm_loop-reports code 20 0 holding)
