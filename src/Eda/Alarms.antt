-- ===== src/Eda/Alarms.antt =====
-- internal/eda/alarms.go: the log of the twenty most recent alarms.
pub mod Active
use freeway_pi.Base.{
  ℕ, zero, suc, ◌+◌, ◌-◌, ◌*◌, ◌/◌, ◌%◌, ◌^◌, ◌≤◌, ◌<◌, min, max, ◌≡◌, refl, sym, ap, ap₂, subst,
  ◌∙◌, fun_ext, ◌≢◌, ◌↔◌, ◌⊎◌, inl, inr, Bool, true, false, not, ◌&&◌, ◌||◌, Option, none, some,
  List, [], ◌∷◌, ◌++◌, map, arith, ltb, leb, ◌==◌, if◌then◌else◌, ltb→lt, lt→ltb, leb→le, ==_iff,
  Bool-cases, Option-cases, nonzero, length, get_or, set, take, drop, replicate, length-append,
  length-take, length-drop, length-replicate, take-append, drop-append, All, length-map, All-append,
  All-append_left, All-append_right, length-set, get_or-set_self, get_or-set_ne, get_or-drop,
  drop-nil, drop-drop, Result, ◌>>=◌, ◌>>◌, fail_if, ok, err,
}
use freeway_pi.Eda.{EdaError, snapshot_too_short}

abbrev pub alarm_log_count : ℕ
alarm_log_count = 20

abbrev pub alarm_log_base : ℕ
alarm_log_base = 385

abbrev pub alarm_log_stride : ℕ
alarm_log_stride = 7

pub data AlarmClass : Type 0 where
  class_a : AlarmClass
  class_b : AlarmClass
  class_unknown : AlarmClass

unfoldable pub one_of : List ℕ → ℕ → Bool
one_of [] x = false
one_of (y ∷ ys) x = x == y || one_of ys x

-- `alarmClasses`, with the codes it does not name.
unfoldable pub class_of : ℕ → AlarmClass
class_of code =
    if one_of (3 ∷ 4 ∷ 6 ∷ 8 ∷ 9 ∷ 12 ∷ 13 ∷ []) code
    then class_a
    else if one_of (1 ∷ 2 ∷ 5 ∷ 11 ∷ 14 ∷ 16 ∷ 17 ∷ []) code
    then class_b
    else class_unknown

-- A date and a time of day, as handed to `time.Date`.
pub record LogTime : Type 0 where
  pub year : ℕ
  pub month : ℕ
  pub day : ℕ
  pub hour : ℕ
  pub minute : ℕ

pub record Alarm : Type 0 where
  pub index : ℕ
  pub code : ℕ
  pub class : AlarmClass
  pub state : ℕ
  pub time : Option LogTime
  pub empty : Bool

unfoldable pub is_plausible : LogTime → Bool
is_plausible t =
    leb 1 t.month
    && (leb t.month 12 && (leb 1 t.day && (leb t.day 31 && (leb t.hour 23 && leb t.minute 59))))

-- The entry at register `b`.
unfoldable pub alarm_at : (i b : ℕ) → List ℕ → Alarm
alarm_at i b holding =
    let t : LogTime = record {
      year = 2000 + get_or holding (b + 2) 0;
      month = get_or holding (b + 3) 0;
      day = get_or holding (b + 4) 0;
      hour = get_or holding (b + 5) 0;
      minute = get_or holding (b + 6) 0;
    } in
    if get_or holding b 0 == 0 && get_or holding (b + 3) 0 == 0
    then record {
      index = i;
      code = get_or holding b 0;
      class = class_unknown;
      state = get_or holding (b + 1) 0;
      time = none;
      empty = true;
    }
    else record {
      index = i;
      code = get_or holding b 0;
      class = class_of (get_or holding b 0);
      state = get_or holding (b + 1) 0;
      time = if is_plausible t then some t else none;
      empty = false;
    }

unfoldable pub alarm_loop : (n i : ℕ) → List ℕ → List Alarm
alarm_loop zero i holding = []
alarm_loop (suc n) i holding =
    alarm_at i (alarm_log_base + i * alarm_log_stride) holding ∷ alarm_loop n (i + 1) holding

unfoldable pub read_alarms : List ℕ → Result EdaError (List Alarm)
read_alarms holding = do
  fail_if (ltb (length holding) (alarm_log_base + alarm_log_count * alarm_log_stride))
      (snapshot_too_short (length holding) (alarm_log_base + alarm_log_count * alarm_log_stride))
  ok (alarm_loop alarm_log_count 0 holding)

-- The state 2 is an alarm that is on.
unfoldable pub is_active : Alarm → Bool
is_active a = a.state == 2

unfoldable pub active_alarms : List Alarm → List Alarm
active_alarms [] = []
active_alarms (a ∷ rest) =
    let others = active_alarms rest in if not a.empty && is_active a then a ∷ others else others
