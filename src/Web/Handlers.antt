-- ===== src/Web/Handlers.antt =====
-- internal/web: control.go, settings.go, programs.go and auth.go, the handlers that write to the
-- unit or to the sign-in, as functions on the server's state. An answer is its status and the
-- session it sets; what it shows is left out.
use freeway_pi.Base.{
  ℕ, ◌+◌, ◌*◌, Bool, true, false, not, ◌&&◌, ◌||◌, Option, none, some, List, [], ◌∷◌, ◌==◌,
  if◌then◌else◌, Result, ok, err,
}
use freeway_pi.Base.Ints.{ℤ, pos, negsuc}
use freeway_pi.Base.Texts.{Text, codes, same_text}
use freeway_pi.Auth.{
  Crypto, AuthError, rate_limited, configured, Authenticator, Params, challenge, set_pin, verify,
  change_pin, session_days,
}
use freeway_pi.Auth as Auth
use freeway_pi.Eda.{EdaError, Write}
use freeway_pi.Eda.Modes.{
  Mode, normal, stop, away, long_away, overpressure, max_heating, max_cooling, boost, other,
  set_mode, set_fan_level, start_overpressure, start_boost,
}
use freeway_pi.Eda.Programs.{
  WeekProgram, YearProgram, write_week_program, write_year_program, clear_week_program,
  clear_year_program,
}
use freeway_pi.Eda.Settings.{Setting, setting_by_key, write_setting}
use freeway_pi.Eda.Setpoint.{set_setpoint}
use freeway_pi.Eda.State.{State, minute, reset_service_counter}
use freeway_pi.Net.Routes.{below}
use freeway_pi.Web.Requests.{Request, Refusal, same_site, decode_body}

pub record Reply : Type 0 where
  pub status : ℕ
  pub session : Option (Text × ℕ)

abbrev pub plain_reply : ℕ → Reply
plain_reply status = record { status = status; session = none }

-- What the bodies say.
pub record TimedBody : Type 0 where
  pub minutes : ℤ
  pub on : Bool

pub record SettingBody : Type 0 where
  pub key : Text
  pub number : Option ℤ
  pub bool : Option Bool

pub record SignBody : Type 0 where
  pub nonce : Text
  pub proof : Text
  pub salt : Text
  pub key : Text

-- JSON into each body, the host of a URL, and an index.
pub record Parsers : Type 0 where
  pub url_host : Text → Option Text
  pub mode : Text → Option Text
  pub celsius : Text → Option ℤ
  pub percent : Text → Option ℤ
  pub timed : Text → Option TimedBody
  pub setting : Text → Option SettingBody
  pub week : Text → Option (WeekProgram × Bool)
  pub year : Text → Option (YearProgram × Bool)
  pub index : Text → Option ℤ
  pub setup : Text → Option SignBody
  pub login : Text → Option SignBody
  pub change : Text → Option SignBody

-- The unit behind the control: its state, whether its settings and its programs can be read, and a
-- list of writes with whether it was done.
pub record Controller (U : Type 0) : Type 0 where
  pub state : U → Option State
  pub has_settings : U → Bool
  pub has_programs : U → Bool
  pub apply : List Write → U → Bool × U

-- One call of the clock and of the source of randomness for each request, and where the sign-in is
-- saved.
pub record Draw : Type 0 where
  pub crypto : Crypto
  pub now : ℕ
  pub fresh : Text
  pub fresh_salt : Text
  pub save : Auth.Config → Bool

pub record Server (U : Type 0) : Type 0 where
  pub unit : U
  pub auth : Authenticator

-- The text of a mode.
unfoldable pub mode_of : Text → Mode
mode_of t =
    if same_text t (codes "normal")
    then normal
    else if same_text t (codes "stop")
    then stop
    else if same_text t (codes "away")
    then away
    else if same_text t (codes "long_away")
    then long_away
    else if same_text t (codes "overpressure")
    then overpressure
    else if same_text t (codes "max_heating")
    then max_heating
    else if same_text t (codes "max_cooling")
    then max_cooling
    else if same_text t (codes "boost")
    then boost
    else other

unfoldable pub status_of_state : Option State → ℕ
status_of_state none = 503
status_of_state (some st) = 200

unfoldable pub mode_writes : Text → State → Result EdaError (List Write)
mode_writes mode st = set_mode st.mode (mode_of mode)

unfoldable pub degrees : ℤ → ℤ
degrees (pos n) = pos (n * 10)
degrees (negsuc n) = negsuc (n * 10 + 9)

unfoldable pub setpoint_writes : ℤ → State → Result EdaError (List Write)
setpoint_writes celsius st =
    set_setpoint celsius (degrees st.setpoint_min) (degrees st.setpoint_max)

unfoldable pub fan_writes : ℤ → State → Result EdaError (List Write)
fan_writes percent st = set_fan_level st.ec_fans percent

-- No minutes are the minutes that the unit has.
unfoldable pub minutes_or : ℤ → ℕ → ℤ
minutes_or (pos n) stored = if n == 0 then pos stored else pos n
minutes_or (negsuc n) stored = negsuc n

unfoldable pub overpressure_writes : TimedBody → State → Result EdaError (List Write)
overpressure_writes body st =
    if body.on
    then start_overpressure st.mode (minutes_or body.minutes st.overpressure_minutes)
    else set_mode st.mode normal

unfoldable pub boost_writes : TimedBody → State → Result EdaError (List Write)
boost_writes body st =
    if body.on
    then start_boost st.mode (minutes_or body.minutes st.boost_minutes)
    else set_mode st.mode normal

unfoldable pub or_zero : Option ℤ → ℤ
or_zero none = pos 0
or_zero (some n) = n

unfoldable pub or_false : Option Bool → Bool
or_false none = false
or_false (some b) = b

unfoldable pub is_missing : {A : Type 0} → Option A → Bool
is_missing none = true
is_missing (some a) = false

unfoldable pub is_in_time : Option ℕ → (drift : ℤ) → Bool
is_in_time none drift = false
is_in_time (some t) drift = below drift (pos (5 * minute))

unfoldable pub state_in_time : Option State → Bool
state_in_time none = false
state_in_time (some st) = is_in_time st.unit_clock st.unit_clock_drift

-- Whether an edit of a program is let through.
unfoldable pub clock_guard : (acknowledged : Bool) → Option State → Bool
clock_guard acknowledged st = acknowledged || state_in_time st

module _ {U : Type 0} (p : Parsers) (c : Controller U) where
  unfoldable pub handle_state : Server U → Reply × Server U
  handle_state s = (plain_reply (status_of_state (c.state s.unit)), s)

  unfoldable pub after_apply : Bool × U → Server U → Reply × Server U
  after_apply (true, u) s = handle_state (record s { unit = u })
  after_apply (false, u) s = (plain_reply 502, record s { unit = u })

  unfoldable pub apply : List Write → Server U → Reply × Server U
  apply [] s = handle_state s
  apply (w ∷ ws) s = after_apply (c.apply (w ∷ ws) s.unit) s

  unfoldable pub try_writes : Result EdaError (List Write) → Server U → Reply × Server U
  try_writes (err e) s = (plain_reply 400, s)
  try_writes (ok writes) s = apply writes s

  -- The writes of an action, where there is a state to make them from.
  unfoldable pub with_state :
      (State → Result EdaError (List Write)) → Option State → Server U → Reply × Server U
  with_state writes none s = (plain_reply 503, s)
  with_state writes (some st) s = try_writes (writes st) s

  unfoldable pub with_body :
      {A : Type 0}
      → (A → State → Result EdaError (List Write))
      → Result Refusal A
      → Server U
      → Reply × Server U
  with_body writes (err e) s = (plain_reply 400, s)
  with_body writes (ok body) s = with_state (writes body) (c.state s.unit) s

  unfoldable pub handle_mode : Request → Server U → Reply × Server U
  handle_mode r s = with_body mode_writes (decode_body p.url_host p.mode r) s

  unfoldable pub handle_setpoint : Request → Server U → Reply × Server U
  handle_setpoint r s = with_body setpoint_writes (decode_body p.url_host p.celsius r) s

  unfoldable pub handle_fan : Request → Server U → Reply × Server U
  handle_fan r s = with_body fan_writes (decode_body p.url_host p.percent r) s

  unfoldable pub handle_overpressure : Request → Server U → Reply × Server U
  handle_overpressure r s = with_body overpressure_writes (decode_body p.url_host p.timed r) s

  unfoldable pub handle_boost : Request → Server U → Reply × Server U
  handle_boost r s = with_body boost_writes (decode_body p.url_host p.timed r) s

  -- `handleSettings` and `handleProgramsGet`.
  unfoldable pub handle_settings : Server U → Reply × Server U
  handle_settings s = (plain_reply (if c.has_settings s.unit then 200 else 503), s)

  unfoldable pub handle_programs : Server U → Reply × Server U
  handle_programs s =
      (plain_reply (if c.has_programs s.unit then status_of_state (c.state s.unit) else 503), s)

  -- Writes without the look at their number that `apply` takes, and how they are answered when done.
  unfoldable pub after_all : (Server U → Reply × Server U) → Bool × U → Server U → Reply × Server U
  after_all answer (true, u) s = answer (record s { unit = u })
  after_all answer (false, u) s = (plain_reply 502, record s { unit = u })

  unfoldable pub apply_all :
      (Server U → Reply × Server U) → Result EdaError (List Write) → Server U → Reply × Server U
  apply_all answer (err e) s = (plain_reply 400, s)
  apply_all answer (ok writes) s = after_all answer (c.apply writes s.unit) s

  unfoldable pub set_known : SettingBody → Option Setting → Server U → Reply × Server U
  set_known body none s = (plain_reply 400, s)
  set_known body (some def) s =
      if (def.coil && is_missing body.bool) || (not def.coil && is_missing body.number)
      then (plain_reply 400, s)
      else apply_all handle_settings
          (write_setting body.key (or_zero body.number) (or_false body.bool)) s

  unfoldable pub set_from : Result Refusal SettingBody → Server U → Reply × Server U
  set_from (err e) s = (plain_reply 400, s)
  set_from (ok body) s = set_known body (setting_by_key body.key) s

  unfoldable pub handle_set_setting : Request → Server U → Reply × Server U
  handle_set_setting r s = set_from (decode_body p.url_host p.setting r) s

  -- The answer is the same whether there is a state afterwards or not.
  unfoldable pub after_reset : Bool × U → Server U → Reply × Server U
  after_reset (true, u) s = (plain_reply 200, record s { unit = u })
  after_reset (false, u) s = (plain_reply 502, record s { unit = u })

  unfoldable pub reset_from : Result Refusal (Unit {0}) → Server U → Reply × Server U
  reset_from (err e) s = (plain_reply 403, s)
  reset_from (ok _) s = after_reset (c.apply reset_service_counter s.unit) s

  unfoldable pub handle_service_reset : Request → Server U → Reply × Server U
  handle_service_reset r s = reset_from (same_site p.url_host r) s

  unfoldable pub guarded : Bool → Result EdaError (List Write) → Server U → Reply × Server U
  guarded true writes s = apply_all handle_programs writes s
  guarded false writes s = (plain_reply 409, s)

  unfoldable pub week_from : Result Refusal (WeekProgram × Bool) → Server U → Reply × Server U
  week_from (err e) s = (plain_reply 400, s)
  week_from (ok (program, acknowledged)) s =
      guarded (clock_guard acknowledged (c.state s.unit)) (write_week_program program) s

  unfoldable pub handle_week_program_put : Request → Server U → Reply × Server U
  handle_week_program_put r s = week_from (decode_body p.url_host p.week r) s

  unfoldable pub year_from : Result Refusal (YearProgram × Bool) → Server U → Reply × Server U
  year_from (err e) s = (plain_reply 400, s)
  year_from (ok (program, acknowledged)) s =
      guarded (clock_guard acknowledged (c.state s.unit)) (write_year_program program) s

  unfoldable pub handle_year_program_put : Request → Server U → Reply × Server U
  handle_year_program_put r s = year_from (decode_body p.url_host p.year r) s

  unfoldable pub delete_at : (week : Bool) → Option ℤ → Server U → Reply × Server U
  delete_at week none s = (plain_reply 400, s)
  delete_at week (some i) s =
      apply_all handle_programs (if week then clear_week_program i else clear_year_program i) s

  unfoldable pub handle_program_delete : (week : Bool) → Request → Server U → Reply × Server U
  handle_program_delete week r s = delete_at week (p.index r.index) s
