-- ===== src/Web/Routes.antt =====
-- internal/web/server.go: the routes, and requireAuth of auth.go in front of most of them. The
-- handlers that only answer are an argument, which gives their status; so are those that change
-- what is not modelled here.
use freeway_pi.Base.{
  ℕ, Bool, true, false, not, ◌&&◌, ◌||◌, Option, none, some, List, [], ◌∷◌, if◌then◌else◌,
}
use freeway_pi.Base.Texts.{Text, codes, same_text, is_empty}
use freeway_pi.Auth.{Authenticator, valid}
use freeway_pi.Web.Requests.{Request}
use freeway_pi.Web.Handlers.{
  Reply, plain_reply, Parsers, Controller, Draw, Server, handle_mode, handle_setpoint, handle_fan,
  handle_overpressure, handle_boost, handle_set_setting, handle_service_reset,
  handle_week_program_put, handle_year_program_put, handle_program_delete,
}
use freeway_pi.Web.SignIn.{
  handle_auth_challenge, handle_auth_setup, handle_auth_login, handle_auth_logout,
  handle_auth_change,
}

pub data Handler : Type 0 where
  state : Handler
  events : Handler
  supply : Handler
  mode : Handler
  setpoint : Handler
  fan : Handler
  overpressure : Handler
  boost : Handler
  clock : Handler
  auth_status : Handler
  auth_challenge : Handler
  auth_setup : Handler
  auth_login : Handler
  auth_logout : Handler
  auth_change : Handler
  settings : Handler
  set_setting : Handler
  service_reset : Handler
  clock_get : Handler
  clock_put : Handler
  programs_get : Handler
  week_program_put : Handler
  year_program_put : Handler
  program_delete_week : Handler
  program_delete_year : Handler
  alarms : Handler
  system : Handler
  notification_log : Handler
  gateway_put : Handler
  unit_name : Handler
  reboot_policy : Handler
  apt : Handler
  apt_status : Handler
  power_reboot : Handler
  power_poweroff : Handler
  network_get : Handler
  network_put : Handler
  network_confirm : Handler
  time_get : Handler
  time_put : Handler
  ssh_get : Handler
  ssh_put : Handler
  ssh_keys : Handler
  wifi_get : Handler
  wifi_radio : Handler
  wifi_scan : Handler
  wifi_join : Handler
  wifi_forget : Handler
  wifi_country : Handler
  backup : Handler
  notify_get : Handler
  notify_put : Handler
  notify_test : Handler
  metrics : Handler
  series : Handler
  series_csv : Handler
  catalogue_script : Handler

pub record Route : Type 0 where
  pub method : Text
  pub path : Text
  pub guarded : Bool
  pub handler : Handler

abbrev open_route : (method path : Text) → Handler → Route
open_route method path h = record { method = method; path = path; guarded = false; handler = h }

abbrev guarded_route : (method path : Text) → Handler → Route
guarded_route method path h = record { method = method; path = path; guarded = true; handler = h }

-- `routes`, without the pages and their words.
unfoldable pub routes : List Route
routes =
    open_route (codes "GET") (codes "/api/state") state
    ∷ open_route (codes "GET") (codes "/api/events") events
    ∷ open_route (codes "GET") (codes "/api/power") supply
    ∷ open_route (codes "POST") (codes "/api/control/mode") mode
    ∷ open_route (codes "POST") (codes "/api/control/setpoint") setpoint
    ∷ open_route (codes "POST") (codes "/api/control/fan") fan
    ∷ open_route (codes "POST") (codes "/api/control/overpressure") overpressure
    ∷ open_route (codes "POST") (codes "/api/control/boost") boost
    ∷ open_route (codes "POST") (codes "/api/control/clock") clock
    ∷ open_route (codes "GET") (codes "/api/auth/status") auth_status
    ∷ open_route (codes "GET") (codes "/api/auth/challenge") auth_challenge
    ∷ open_route (codes "POST") (codes "/api/auth/setup") auth_setup
    ∷ open_route (codes "POST") (codes "/api/auth/login") auth_login
    ∷ open_route (codes "POST") (codes "/api/auth/logout") auth_logout
    ∷ guarded_route (codes "POST") (codes "/api/auth/change") auth_change
    ∷ guarded_route (codes "GET") (codes "/api/settings") settings
    ∷ guarded_route (codes "PUT") (codes "/api/settings") set_setting
    ∷ guarded_route (codes "POST") (codes "/api/settings/service-reset") service_reset
    ∷ guarded_route (codes "GET") (codes "/api/clock") clock_get
    ∷ guarded_route (codes "PUT") (codes "/api/clock") clock_put
    ∷ guarded_route (codes "GET") (codes "/api/programs") programs_get
    ∷ guarded_route (codes "PUT") (codes "/api/programs/week") week_program_put
    ∷ guarded_route (codes "PUT") (codes "/api/programs/year") year_program_put
    ∷ guarded_route (codes "DELETE") (codes "/api/programs/week") program_delete_week
    ∷ guarded_route (codes "DELETE") (codes "/api/programs/year") program_delete_year
    ∷ guarded_route (codes "GET") (codes "/api/alarms") alarms
    ∷ guarded_route (codes "GET") (codes "/api/system") system
    ∷ guarded_route (codes "GET") (codes "/api/notifications") notification_log
    ∷ guarded_route (codes "PUT") (codes "/api/system/gateway") gateway_put
    ∷ guarded_route (codes "PUT") (codes "/api/system/unit-name") unit_name
    ∷ guarded_route (codes "PUT") (codes "/api/system/reboot-policy") reboot_policy
    ∷ guarded_route (codes "POST") (codes "/api/system/apt") apt
    ∷ guarded_route (codes "GET") (codes "/api/system/apt") apt_status
    ∷ guarded_route (codes "POST") (codes "/api/system/reboot") power_reboot
    ∷ guarded_route (codes "POST") (codes "/api/system/poweroff") power_poweroff
    ∷ guarded_route (codes "GET") (codes "/api/network") network_get
    ∷ guarded_route (codes "PUT") (codes "/api/network") network_put
    ∷ guarded_route (codes "POST") (codes "/api/network/confirm") network_confirm
    ∷ guarded_route (codes "GET") (codes "/api/system/time") time_get
    ∷ guarded_route (codes "PUT") (codes "/api/system/time") time_put
    ∷ guarded_route (codes "GET") (codes "/api/ssh") ssh_get
    ∷ guarded_route (codes "PUT") (codes "/api/ssh") ssh_put
    ∷ guarded_route (codes "POST") (codes "/api/ssh/keys") ssh_keys
    ∷ guarded_route (codes "GET") (codes "/api/wifi") wifi_get
    ∷ guarded_route (codes "POST") (codes "/api/wifi/radio") wifi_radio
    ∷ guarded_route (codes "POST") (codes "/api/wifi/scan") wifi_scan
    ∷ guarded_route (codes "POST") (codes "/api/wifi/join") wifi_join
    ∷ guarded_route (codes "POST") (codes "/api/wifi/forget") wifi_forget
    ∷ guarded_route (codes "POST") (codes "/api/wifi/country") wifi_country
    ∷ guarded_route (codes "GET") (codes "/api/backup") backup
    ∷ guarded_route (codes "GET") (codes "/api/notify") notify_get
    ∷ guarded_route (codes "PUT") (codes "/api/notify") notify_put
    ∷ guarded_route (codes "POST") (codes "/api/notify/test") notify_test
    ∷ open_route (codes "GET") (codes "/api/metrics") metrics
    ∷ open_route (codes "GET") (codes "/api/series") series
    ∷ open_route (codes "GET") (codes "/api/series.csv") series_csv
    ∷ open_route (codes "GET") (codes "/api/lang.js") catalogue_script
    ∷ []

-- A route for GET answers HEAD too.
unfoldable pub matches : Route → Request → Bool
matches t r =
    same_text t.path r.path
    && (same_text t.method r.method
        || (same_text t.method (codes "GET") && same_text r.method (codes "HEAD")))

unfoldable pub find_route : List Route → Request → Option Route
find_route [] r = none
find_route (t ∷ rest) r = let later = find_route rest r in if matches t r then some t else later

unfoldable pub is_reading : Handler → Bool
is_reading state = true
is_reading events = true
is_reading supply = true
is_reading auth_status = true
is_reading metrics = true
is_reading series = true
is_reading series_csv = true
is_reading catalogue_script = true
is_reading _ = false

unfoldable pub authenticated : Draw → Request → Authenticator → Bool
authenticated d r a = elim r.session [ none ↦ false | some token ↦ valid d.crypto d.now token a ]

module _ {U : Type 0} (p : Parsers) (c : Controller U) (d : Draw) (view : Request → Server U → ℕ)
    (others : Handler → Request → Server U → Reply × Server U) where
  -- What is behind a handler that does not only answer.
  unfoldable pub act : Handler → Request → Server U → Reply × Server U
  act auth_challenge r s = handle_auth_challenge p d s
  act mode r s = handle_mode p c r s
  act setpoint r s = handle_setpoint p c r s
  act fan r s = handle_fan p c r s
  act overpressure r s = handle_overpressure p c r s
  act boost r s = handle_boost p c r s
  act set_setting r s = handle_set_setting p c r s
  act service_reset r s = handle_service_reset p c r s
  act week_program_put r s = handle_week_program_put p c r s
  act year_program_put r s = handle_year_program_put p c r s
  act program_delete_week r s = handle_program_delete p c true r s
  act program_delete_year r s = handle_program_delete p c false r s
  act auth_setup r s = handle_auth_setup p d r s
  act auth_login r s = handle_auth_login p d r s
  act auth_logout r s = handle_auth_logout p d r s
  act auth_change r s = handle_auth_change p d r s
  act h r s = others h r s

  unfoldable pub serve_handler : Handler → Request → Server U → Reply × Server U
  serve_handler h r s = if is_reading h then (plain_reply (view r s), s) else act h r s

  unfoldable pub require_auth : Handler → Request → Server U → Reply × Server U
  require_auth h r s =
      if is_empty s.auth.config.verifier
      then (plain_reply 401, s)
      else if not (authenticated d r s.auth)
      then (plain_reply 401, s)
      else serve_handler h r s

  unfoldable pub run_route : Option Route → Request → Server U → Reply × Server U
  run_route none r s = (plain_reply (view r s), s)
  run_route (some t) r s =
      if t.guarded then require_auth t.handler r s else serve_handler t.handler r s

  unfoldable pub serve : Request → Server U → Reply × Server U
  serve r s = run_route (find_route routes r) r s
