-- ===== src/Eda/Modes.antt =====
-- internal/eda/state.go and command.go: the operating mode, and the timed modes' durations.
pub mod Coils
pub mod Switching
use freeway_pi.Base.{
  ℕ, zero, suc, ◌+◌, ◌-◌, ◌*◌, ◌/◌, ◌%◌, ◌^◌, ◌≤◌, ◌<◌, min, max, ◌≡◌, refl, sym, ap, ap₂, subst,
  ◌∙◌, fun_ext, ◌≢◌, ◌↔◌, ◌⊎◌, inl, inr, Bool, true, false, not, ◌&&◌, ◌||◌, Option, none, some,
  List, [], ◌∷◌, ◌++◌, map, arith, ltb, leb, ◌==◌, if◌then◌else◌, ltb→lt, lt→ltb, leb→le, ==_iff,
  Bool-cases, Option-cases, nonzero, length, get_or, set, take, drop, replicate, length-append,
  length-take, length-drop, length-replicate, take-append, drop-append, All, length-map, All-append,
  All-append_left, All-append_right, length-set, get_or-set_self, get_or-set_ne, get_or-drop,
  drop-nil, drop-drop, Result, ◌>>=◌, ◌>>◌, fail_if, ok, err,
}
use freeway_pi.Base.Ints.{ℤ, in_range, uint16}
use freeway_pi.Eda.{
  EdaError, not_a_mode, ac_fans, fan_range, overpressure_minutes, boost_minutes, Write, coil_write,
  register_write,
}

-- `other` stands for a string that is none of the eight.
pub data Mode : Type 0 where
  normal : Mode
  stop : Mode
  away : Mode
  long_away : Mode
  overpressure : Mode
  max_heating : Mode
  max_cooling : Mode
  boost : Mode
  other : Mode

-- `modeCoils`.
unfoldable pub mode_coil : Mode → Option ℕ
mode_coil normal = none
mode_coil stop = some 0
mode_coil away = some 1
mode_coil long_away = some 2
mode_coil overpressure = some 3
mode_coil max_heating = some 6
mode_coil max_cooling = some 7
mode_coil boost = some 10
mode_coil other = none

-- The strings by number; strings outside the list are not told apart.
unfoldable pub code : Mode → ℕ
code normal = 0
code stop = 1
code away = 2
code long_away = 3
code overpressure = 4
code max_heating = 5
code max_cooling = 6
code boost = 7
code other = 8

unfoldable pub same_mode : Mode → Mode → Bool
same_mode m p = code m == code p

unfoldable pub coil_of : Bool → Option ℕ → List Write
coil_of bit none = []
coil_of bit (some coil) = coil_write coil bit ∷ []

unfoldable pub is_known : Mode → Bool
is_known other = false
is_known _ = true

unfoldable pub set_mode : (current want : Mode) → Result EdaError (List Write)
unfolding coil_of is_known
set_mode current want =
    if not (is_known want)
    then err not_a_mode
    else if same_mode current want
    then ok []
    else ok (coil_of false (mode_coil current) ++ coil_of true (mode_coil want))

-- The order in which `decodeMode` asks, and the answer of the first coil that is set.
unfoldable pub first_set : List Bool → List (Mode × ℕ) → Mode
first_set coils [] = normal
first_set coils ((m, coil) ∷ ms) =
    let rest = first_set coils ms in if get_or coils coil false then m else rest

-- The modes with a coil, in the order of `decodeMode`.
abbrev pub mode_list : List (Mode × ℕ)
mode_list =
    (stop, 0)
    ∷ (overpressure, 3)
    ∷ (boost, 10)
    ∷ (max_heating, 6)
    ∷ (max_cooling, 7)
    ∷ (long_away, 2)
    ∷ (away, 1)
    ∷ []

unfoldable pub decode_mode : List Bool → Mode
decode_mode coils = first_set coils mode_list

abbrev pub fan_min : ℕ
fan_min = 20

abbrev pub fan_max : ℕ
fan_max = 100

abbrev pub max_timed_minutes : ℕ
max_timed_minutes = 60

unfoldable pub set_fan_level : (ec_fans : Bool) → (percent : ℤ) → Result EdaError (List Write)
set_fan_level ec_fans percent = do
  fail_if (not ec_fans) ac_fans
  fail_if (not (in_range fan_min fan_max percent)) (fan_range percent)
  ok (register_write 53 (uint16 percent ∷ []) ∷ [])

unfoldable pub set_overpressure_duration : (minutes : ℤ) → Result EdaError (List Write)
set_overpressure_duration minutes = do
  fail_if (not (in_range 1 max_timed_minutes minutes)) (overpressure_minutes minutes)
  ok (register_write 56 (uint16 minutes ∷ uint16 minutes ∷ []) ∷ [])

unfoldable pub start_overpressure : (current : Mode) → (minutes : ℤ) → Result EdaError (List Write)
start_overpressure current minutes = do
  duration ← set_overpressure_duration minutes
  mode ← set_mode current overpressure
  ok (duration ++ mode)

unfoldable pub set_boost_duration : (minutes : ℤ) → Result EdaError (List Write)
set_boost_duration minutes = do
  fail_if (not (in_range 1 max_timed_minutes minutes)) (boost_minutes minutes)
  ok (register_write 66 (uint16 minutes ∷ []) ∷ [])

unfoldable pub start_boost : (current : Mode) → (minutes : ℤ) → Result EdaError (List Write)
start_boost current minutes = do
  duration ← set_boost_duration minutes
  mode ← set_mode current boost
  ok (duration ++ mode)
