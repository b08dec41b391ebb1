-- ===== src/Web/Sites.antt =====
-- What a page of another site can change.
use freeway_pi.Base.{ℕ, ◌≡◌, refl, ◌⊎◌, inl, inr, Bool, true, false}
use freeway_pi.Web.Requests.{Request, is_foreign, same_site-foreign, decode_body-foreign}
use freeway_pi.Web.Handlers.{
  Reply, plain_reply, Parsers, Controller, Draw, Server, with_body, handle_mode, handle_setpoint,
  handle_fan, handle_overpressure, handle_boost, set_from, handle_set_setting, reset_from,
  handle_service_reset, week_from, handle_week_program_put, year_from, handle_year_program_put,
}
use freeway_pi.Web.SignIn.{
  setup_from, handle_auth_setup, login_from, handle_auth_login, logout_from, handle_auth_logout,
  change_from, handle_auth_change,
}
use freeway_pi.Web.Routes.{
  Handler, mode, setpoint, fan, overpressure, boost, set_setting, service_reset, week_program_put,
  year_program_put, auth_setup, auth_login, auth_logout, auth_change, act,
}

-- The handlers that change the unit or the sign-in, but those that clear a program and the one that
-- draws a challenge.
unfoldable pub is_checked : Handler → Bool
is_checked mode = true
is_checked setpoint = true
is_checked fan = true
is_checked overpressure = true
is_checked boost = true
is_checked set_setting = true
is_checked service_reset = true
is_checked week_program_put = true
is_checked year_program_put = true
is_checked auth_setup = true
is_checked auth_login = true
is_checked auth_logout = true
is_checked auth_change = true
is_checked _ = false

-- The server is as it was, and the answer is a refusal that sets no session.
unfoldable pub Refused : {U : Type 0} → Reply × Server U → Server U → Type 0
Refused out s = (out.1 ≡ s) × ((out.0 ≡ plain_reply 400) ⊎ (out.0 ≡ plain_reply 403))

module _ {U : Type 0} (p : Parsers) (c : Controller U) (d : Draw) (view : Request → Server U → ℕ)
    (others : Handler → Request → Server U → Reply × Server U) (r : Request) (s : Server U)
    (foreign : is_foreign p.url_host r ≡ true) where
  -- A request that a browser says comes from another site, or whose origin is another host, is
  -- refused by each of these handlers, and changes nothing.
  pub act_foreign : (h : Handler) → is_checked h ≡ true → Refused (act p c d view others h r s) s
  unfolding act Refused is_checked with_body handle_mode handle_setpoint handle_fan
      handle_overpressure handle_boost set_from handle_set_setting reset_from handle_service_reset
      week_from handle_week_program_put year_from handle_year_program_put setup_from
      handle_auth_setup login_from handle_auth_login logout_from handle_auth_logout change_from
      handle_auth_change
  act_foreign mode h = rw (decode_body-foreign p.url_host p.mode r foreign) (refl, inl refl)
  act_foreign setpoint h = rw (decode_body-foreign p.url_host p.celsius r foreign) (refl, inl refl)
  act_foreign fan h = rw (decode_body-foreign p.url_host p.percent r foreign) (refl, inl refl)
  act_foreign overpressure h =
      rw (decode_body-foreign p.url_host p.timed r foreign) (refl, inl refl)
  act_foreign boost h = rw (decode_body-foreign p.url_host p.timed r foreign) (refl, inl refl)
  act_foreign set_setting h =
      rw (decode_body-foreign p.url_host p.setting r foreign) (refl, inl refl)
  act_foreign service_reset h = rw (same_site-foreign p.url_host r foreign) (refl, inr refl)
  act_foreign week_program_put h =
      rw (decode_body-foreign p.url_host p.week r foreign) (refl, inl refl)
  act_foreign year_program_put h =
      rw (decode_body-foreign p.url_host p.year r foreign) (refl, inl refl)
  act_foreign auth_setup h = rw (decode_body-foreign p.url_host p.setup r foreign) (refl, inl refl)
  act_foreign auth_login h = rw (decode_body-foreign p.url_host p.login r foreign) (refl, inl refl)
  act_foreign auth_logout h = rw (same_site-foreign p.url_host r foreign) (refl, inr refl)
  act_foreign auth_change h =
      rw (decode_body-foreign p.url_host p.change r foreign) (refl, inl refl)
  act_foreign _ h = absurd cc
