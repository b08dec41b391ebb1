-- ===== src/Store/Recorder.antt =====
-- internal/store/recorder.go and SamplesFrom of metrics.go: which readings are given to the store. A
-- tick comes with what the state is then, what the box measures of itself, the clock, and whether
-- the store takes what it is given. Readings are counted in tenths; the error rate of the bus, a
-- fraction, is an argument.
pub mod Rising
use freeway_pi.Base.{
  ℕ, zero, suc, ◌+◌, ◌-◌, ◌*◌, ◌/◌, ◌%◌, ◌^◌, ◌≤◌, ◌<◌, min, max, ◌≡◌, refl, sym, ap, ap₂, subst,
  ◌∙◌, fun_ext, ◌≢◌, ◌↔◌, ◌⊎◌, inl, inr, Bool, true, false, not, ◌&&◌, ◌||◌, Option, none, some,
  List, [], ◌∷◌, ◌++◌, map, arith, ltb, leb, ◌==◌, if◌then◌else◌, ltb→lt, lt→ltb, leb→le, ==_iff,
  Bool-cases, Option-cases, nonzero, length, get_or, set, take, drop, replicate, length-append,
  length-take, length-drop, length-replicate, take-append, drop-append, All, length-map, All-append,
  All-append_left, All-append_right, length-set, get_or-set_self, get_or-set_ne, get_or-drop,
  drop-nil, drop-drop, Result, ◌>>=◌, ◌>>◌, fail_if, Result-cases, ok, err,
}
use freeway_pi.Base.Ints.{ℤ, pos, negsuc}
use freeway_pi.Eda.State.{State}
use freeway_pi.Store.{second, tier_0}

pub record Reading : Type 0 where
  pub metric : ℕ
  pub value : ℤ

abbrev whole : ℕ → ℤ
whole n = pos (n * 10)

abbrev flag : Bool → ℤ
flag b = if b then pos 10 else pos 0

-- Ten times a number with a sign.
unfoldable pub tenfold : ℤ → ℤ
tenfold (pos n) = pos (n * 10)
tenfold (negsuc n) = negsuc (n * 10 + 9)

-- `SamplesFrom`, with the metrics by their numbers.
unfoldable pub samples_from : (error_rate : ℤ) → State → List Reading
samples_from error_rate st =
    let reading : ℕ → ℤ → Reading = λ metric value. record { metric = metric; value = value } in
    if st.stale
    then []
    else (reading 1 st.temperatures.fresh_air
        ∷ reading 2 st.temperatures.supply_after_recovery
        ∷ reading 3 st.temperatures.supply
        ∷ reading 4 st.temperatures.waste
        ∷ reading 5 st.temperatures.extract
        ∷ reading 6 (whole st.humidity)
        ∷ reading 7 st.setpoint
        ∷ reading 8 (whole st.fan_setpoint)
        ∷ reading 9 (whole st.fan_actual)
        ∷ reading 10 (whole st.efficiency_supply)
        ∷ reading 11 (whole st.efficiency_extract)
        ∷ reading 16 (tenfold st.control_step)
        ∷ reading 12 (flag st.heating)
        ∷ reading 13 (flag st.cooling)
        ∷ reading 14 (flag st.heat_recovery)
        ∷ reading 15 (flag st.defrosting)
        ∷ reading 19 (flag st.overpressure)
        ∷ reading 17 error_rate
        ∷ [])

-- `log` is what was given to the store, the newest first: the readings of a snapshot, or those of
-- the box alone.
pub data Given : Type 0 where
  snapshot : (taken : ℕ) → List Reading → Given
  own : (now : ℕ) → List Reading → Given

pub record Recorder : Type 0 where
  pub written : ℕ
  pub skipped : ℕ
  pub failed : Bool
  pub last_seen : ℕ
  pub last_host : ℕ
  pub log : List Given

unfoldable pub new_recorder : Recorder
new_recorder = record {
  written = 0;
  skipped = 0;
  failed = false;
  last_seen = 0;
  last_host = 0;
  log = [];
}

-- The box's own readings are there only with a `Host`.
pub record Tick : Type 0 where
  pub state : Option State
  pub error_rate : ℤ
  pub host : Option (List Reading)
  pub now : ℕ
  pub works : Bool

unfoldable pub own_readings : Tick → Recorder → List Reading → Recorder
own_readings t r [] = record r { last_host = t.now }
own_readings t r (x ∷ xs) = record r {
  last_host = t.now;
  failed = r.failed || not t.works;
  log = own t.now (x ∷ xs) ∷ r.log;
}

-- `recordHost`.
unfoldable pub record_host : Tick → Option (List Reading) → Recorder → Recorder
record_host t none r = r
record_host t (some readings) r =
    if leb (tier_0.bucket * second) (t.now - r.last_host) then own_readings t r readings else r

unfoldable pub with_host : Tick → Option (List Reading) → List Reading → List Reading
with_host t none readings = readings
with_host t (some more) readings = readings ++ more

unfoldable pub host_seen : Tick → Option (List Reading) → ℕ → ℕ
host_seen t none last = last
host_seen t (some more) last = t.now

unfoldable pub store_readings : Tick → (taken : ℕ) → List Reading → Recorder → Recorder
store_readings t taken [] r = record r { skipped = (r.skipped + 1) % 2 ^ 64 }
store_readings t taken (x ∷ xs) r = record r {
  last_host = host_seen t t.host r.last_host;
  written = if t.works then (r.written + 1) % 2 ^ 64 else r.written;
  failed = r.failed || not t.works;
  log = snapshot taken (with_host t t.host (x ∷ xs)) ∷ r.log;
}

-- `record`.
unfoldable pub record_tick : Tick → Option State → Recorder → Recorder
record_tick t none r = record_host t t.host r
record_tick t (some st) r =
    if st.taken == r.last_seen
    then record_host t t.host r
    else store_readings t st.taken (samples_from t.error_rate st)
        (record r { last_seen = st.taken })

unfoldable pub run : List Tick → Recorder → Recorder
run [] r = r
run (t ∷ ticks) r = run ticks (record_tick t t.state r)
