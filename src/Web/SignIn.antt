-- ===== src/Web/SignIn.antt =====
-- internal/web/auth.go: the handlers of the sign-in.
use freeway_pi.Base.{ℕ, ◌*◌, some, [], Result, ok, err}
use freeway_pi.Base.Texts.{Text}
use freeway_pi.Auth.{
  AuthError, rate_limited, configured, Authenticator, challenge, set_pin, verify, change_pin,
  session_days,
}
use freeway_pi.Web.Requests.{Request, Refusal, same_site, decode_body}
use freeway_pi.Web.Handlers.{Reply, plain_reply, SignBody, Parsers, Draw, Server}

unfoldable pub setup_status : AuthError → ℕ
setup_status configured = 409
setup_status _ = 400

unfoldable pub sign_status : AuthError → ℕ
sign_status rate_limited = 429
sign_status _ = 401

module _ {U : Type 0} (p : Parsers) (d : Draw) where
  unfoldable pub handle_auth_challenge : Server U → Reply × Server U
  handle_auth_challenge s =
      (plain_reply 200, record s { auth = (challenge d.now d.fresh d.fresh_salt s.auth).1 })

  unfoldable pub after_setup :
      Result AuthError (Unit {0}) × Authenticator → Server U → Reply × Server U
  after_setup (err e, a) s = (plain_reply (setup_status e), record s { auth = a })
  after_setup (ok _, a) s = handle_auth_challenge (record s { auth = a })

  unfoldable pub setup_from : Result Refusal SignBody → Server U → Reply × Server U
  setup_from (err e) s = (plain_reply 400, s)
  setup_from (ok b) s = after_setup (set_pin d.crypto d.save d.now b.nonce b.key d.fresh s.auth) s

  unfoldable pub handle_auth_setup : Request → Server U → Reply × Server U
  handle_auth_setup r s = setup_from (decode_body p.url_host p.setup r) s

  -- A token becomes the cookie, with its age in seconds.
  unfoldable pub after_sign : Result AuthError Text × Authenticator → Server U → Reply × Server U
  after_sign (err e, a) s = (plain_reply (sign_status e), record s { auth = a })
  after_sign (ok token, a) s = (
    record { status = 200; session = some (token, session_days a * 24 * 3600) },
    record s { auth = a },
  )

  unfoldable pub login_from : Result Refusal SignBody → Server U → Reply × Server U
  login_from (err e) s = (plain_reply 400, s)
  login_from (ok b) s = after_sign (verify d.crypto d.now b.nonce b.proof s.auth) s

  unfoldable pub handle_auth_login : Request → Server U → Reply × Server U
  handle_auth_login r s = login_from (decode_body p.url_host p.login r) s

  unfoldable pub logout_from : Result Refusal (Unit {0}) → Server U → Reply × Server U
  logout_from (err e) s = (plain_reply 403, s)
  logout_from (ok _) s = (record { status = 200; session = some ([], 0) }, s)

  unfoldable pub handle_auth_logout : Request → Server U → Reply × Server U
  handle_auth_logout r s = logout_from (same_site p.url_host r) s

  unfoldable pub change_from : Result Refusal SignBody → Server U → Reply × Server U
  change_from (err e) s = (plain_reply 400, s)
  change_from (ok b) s =
      after_sign (change_pin d.crypto d.save d.now b.nonce b.proof b.salt b.key d.fresh s.auth) s

  unfoldable pub handle_auth_change : Request → Server U → Reply × Server U
  handle_auth_change r s = change_from (decode_body p.url_host p.change r) s
