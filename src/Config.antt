-- ===== src/Config.antt =====
-- internal/config: the settings of the daemon, and the file that they are kept in. JSON is a
-- parameter; durations and the numbers of Go's int are integers.
pub mod Disks
pub mod Crashes
pub mod Saves
mod Examples
use freeway_pi.Base.{
  ℕ, zero, suc, ◌+◌, ◌-◌, ◌*◌, ◌/◌, ◌%◌, ◌^◌, ◌≤◌, ◌<◌, min, max, ◌≡◌, refl, sym, ap, ap₂, subst,
  ◌∙◌, fun_ext, ◌≢◌, ◌↔◌, ◌⊎◌, inl, inr, Bool, true, false, not, ◌&&◌, ◌||◌, Option, none, some,
  List, [], ◌∷◌, ◌++◌, map, arith, ltb, leb, ◌==◌, if◌then◌else◌, ltb→lt, lt→ltb, leb→le, ==_iff,
  Bool-cases, Option-cases, nonzero, length, get_or, set, take, drop, replicate, length-append,
  length-take, length-drop, length-replicate, take-append, drop-append, All, length-map, All-append,
  All-append_left, All-append_right, length-set, get_or-set_self, get_or-set_ne, get_or-drop,
  drop-nil, drop-drop, Result, ◌>>=◌, ◌>>◌, fail_if, Result-cases, ok, err,
}
use freeway_pi.Base.Ints.{ℤ, pos, negsuc}
use freeway_pi.Base.Texts.{Text, codes, is_empty}

pub record Serial : Type 0 where
  pub port : Text
  pub baud : ℤ
  pub unit_id : ℕ
  pub timeout : ℤ
  pub retries : ℤ
  pub inter_frame : ℤ

pub record UnitCare : Type 0 where
  pub name : Text
  pub sync_clock : Bool
  pub sync_clock_interval : ℤ
  pub sync_clock_tolerance : ℤ

pub record AuthKeys : Type 0 where
  pub salt : Text
  pub verifier : Text
  pub iterations : ℤ
  pub session_secret : Text
  pub session_days : ℤ

pub record History : Type 0 where
  pub enabled : Bool
  pub path : Text
  pub interval : ℤ
  pub housekeeping : ℤ

pub record Updates : Type 0 where
  pub reboot_policy : Text
  pub reboot_at : Text

pub record Webhook : Type 0 where
  pub enabled : Bool
  pub name : Text
  pub url : Text
  pub headers : List (Text × Text)

pub record Smtp : Type 0 where
  pub enabled : Bool
  pub host : Text
  pub port : ℤ
  pub username : Text
  pub password : Text
  pub from : Text
  pub to : List Text
  pub starttls : Bool

pub record Notices : Type 0 where
  pub min_severity : Text
  pub down_after : ℤ
  pub interval : ℤ
  pub webhooks : List Webhook
  pub smtp : Smtp
  pub language : Text

pub record Web : Type 0 where
  pub enabled : Bool
  pub listen : Text
  pub read_header_timeout : ℤ

pub record Service : Type 0 where
  pub enabled : Bool
  pub listen : Text
  pub allow : List Text
  pub request_timeout : ℤ
  pub breaker_threshold : ℤ
  pub breaker_cooldown : ℤ

-- `Config`.
pub record Settings : Type 0 where
  pub serial : Serial
  pub poll_interval : ℤ
  pub unit : UnitCare
  pub history : History
  pub notify : Notices
  pub updates : Updates
  pub auth : AuthKeys
  pub web : Web
  pub gateway : Service
  pub log_level : Text

pub data ConfigError : Type 0 where
  no_port : ConfigError
  bad_baud : ℤ → ConfigError
  broadcast_unit : ConfigError
  bad_interval : ℤ → ConfigError
  no_history_path : ConfigError
  no_web_listen : ConfigError
  no_gateway_listen : ConfigError
  unreadable : ConfigError
  unparsed : ConfigError
  unwritten : ConfigError

abbrev pub milliseconds : ℕ → ℤ
milliseconds n = pos (n * 1_000_000)

abbrev pub seconds : ℕ → ℤ
seconds n = pos (n * 1_000_000_000)

-- `Default`.
unfoldable pub default_config : Settings
default_config = record {
  serial = record {
    port = codes "/dev/freeway-rs485";
    baud = pos 19200;
    unit_id = 1;
    timeout = seconds 1;
    retries = pos 2;
    inter_frame = milliseconds 5;
  };
  poll_interval = seconds 10;
  unit = record {
    name = [];
    sync_clock = false;
    sync_clock_interval = seconds (6 * 3600);
    sync_clock_tolerance = seconds 120;
  };
  history = record {
    enabled = true;
    path = codes "/var/lib/freeway/history.db";
    interval = seconds 5;
    housekeeping = seconds 60;
  };
  notify = record {
    min_severity = codes "warning";
    down_after = seconds 300;
    interval = seconds 30;
    webhooks = [];
    smtp = record {
      enabled = false;
      host = [];
      port = pos 587;
      username = [];
      password = [];
      from = [];
      to = [];
      starttls = true;
    };
    language = [];
  };
  updates = record { reboot_policy = []; reboot_at = [] };
  auth = record {
    salt = [];
    verifier = [];
    iterations = pos 0;
    session_secret = [];
    session_days = pos 90;
  };
  web = record { enabled = true; listen = codes ":80"; read_header_timeout = seconds 10 };
  gateway = record {
    enabled = false;
    listen = codes ":502";
    allow = [];
    request_timeout = seconds 4;
    breaker_threshold = pos 3;
    breaker_cooldown = seconds 5;
  };
  log_level = codes "info";
}

-- `x <= 0`.
unfoldable pub not_positive : ℤ → Bool
not_positive (pos n) = n == 0
not_positive (negsuc n) = true

unfoldable pub validate : Settings → Result ConfigError (Unit {0})
validate c = do
  fail_if (is_empty c.serial.port) no_port
  fail_if (not_positive c.serial.baud) (bad_baud c.serial.baud)
  fail_if (c.serial.unit_id == 0) broadcast_unit
  fail_if (not_positive c.poll_interval) (bad_interval c.poll_interval)
  fail_if (c.history.enabled && is_empty c.history.path) no_history_path
  fail_if (c.web.enabled && is_empty c.web.listen) no_web_listen
  fail_if (c.gateway.enabled && is_empty c.gateway.listen) no_gateway_listen

-- `json.MarshalIndent`, and `json.Unmarshal` onto a configuration.
pub record Json : Type 0 where
  pub marshal : Settings → Option Text
  pub unmarshal : Text → Settings → Option Settings

-- What reading the file gives: it is not there, cannot be read, or holds bytes.
pub data Contents : Type 0 where
  missing : Contents
  failing : Contents
  holding : Text → Contents

unfoldable pub error_of : Result ConfigError (Unit {0}) → Option ConfigError
error_of (ok _) = none
error_of (err e) = some e

unfoldable pub parsed : Option Settings → Settings × Option ConfigError
parsed none = (default_config, some unparsed)
parsed (some c) = (c, error_of (validate c))

unfoldable pub load : Json → Contents → Settings × Option ConfigError
load json missing = (default_config, none)
load json failing = (default_config, some unreadable)
load json (holding text) = parsed (json.unmarshal text default_config)
