-- ===== src/Web/Guarded.antt =====
-- What a request without a session can change.
use freeway_pi.Base.{
  ℕ, ◌≡◌, refl, ap, subst, ◌⊎◌, inl, inr, Bool, true, false, ◌&&◌, ◌||◌, some, List, [], ◌∷◌, arith,
  Bool-cases, Option-cases,
}
use freeway_pi.Base.Texts.{Text, codes, same_text, same_text→eq, is_empty}
use freeway_pi.Web.Requests.{Request}
use freeway_pi.Web.Handlers.{Reply, plain_reply, Parsers, Controller, Draw, Server}
use freeway_pi.Web.Routes.{
  Handler, Route, routes, matches, find_route, is_reading, authenticated, serve_handler,
  require_auth, run_route, serve,
}

-- What anybody in the house may do: the everyday controls, and to sign in and out.
unfoldable pub open_writes : List (Text × Text)
open_writes =
    (codes "POST", codes "/api/control/mode")
    ∷ (codes "POST", codes "/api/control/setpoint")
    ∷ (codes "POST", codes "/api/control/fan")
    ∷ (codes "POST", codes "/api/control/overpressure")
    ∷ (codes "POST", codes "/api/control/boost")
    ∷ (codes "POST", codes "/api/control/clock")
    ∷ (codes "GET", codes "/api/auth/challenge")
    ∷ (codes "POST", codes "/api/auth/setup")
    ∷ (codes "POST", codes "/api/auth/login")
    ∷ (codes "POST", codes "/api/auth/logout")
    ∷ []

unfoldable pub is_asked : Text → Text → Request → Bool
is_asked method path r =
    same_text path r.path
    && (same_text method r.method
        || (same_text method (codes "GET") && same_text r.method (codes "HEAD")))

unfoldable pub asks_one_of : List (Text × Text) → Request → Bool
asks_one_of [] r = false
asks_one_of ((method, path) ∷ rest) r = is_asked method path r || asks_one_of rest r

is_listed : List (Text × Text) → Route → Bool
is_listed [] t = false
is_listed ((method, path) ∷ rest) t =
    (same_text method t.method && same_text path t.path) || is_listed rest t

is_fine : Route → Bool
is_fine t = t.guarded || (is_reading t.handler || is_listed open_writes t)

all_fine : List Route → Bool
all_fine [] = true
all_fine (t ∷ rest) = is_fine t && all_fine rest

table_fine : all_fine routes ≡ true
unfolding all_fine is_fine is_listed open_writes routes is_reading same_text
table_fine = refl

found-is_fine :
    (l : List Route) (r : Request) (t : Route)
    → all_fine l ≡ true
    → find_route l r ≡ some t
    → (is_fine t ≡ true) × (matches t r ≡ true)
unfolding find_route all_fine
found-is_fine [] r t h e = absurd cc
found-is_fine (u ∷ rest) r t h e =
    let later = found-is_fine rest r t in
    elim (Bool-cases (matches u r)) [
      | inl here ↦
          let same : u ≡ t = ground (arith, e, here) in
          subst (λ (x : Route). (is_fine x ≡ true) × (matches x r ≡ true)) same
            (ground (arith, h), here)
      | inr elsewhere ↦ later (ground (arith, h)) (ground (arith, e, elsewhere))
    ]

or-cases : (a b : Bool) → (a || b) ≡ true → (a ≡ true) ⊎ (b ≡ true)
or-cases true b h = inl refl
or-cases false b h = inr h

listed_asked :
    (l : List (Text × Text)) (t : Route) (r : Request)
    → is_listed l t ≡ true
    → matches t r ≡ true
    → asks_one_of l r ≡ true
unfolding is_listed asks_one_of
listed_asked [] t r h m = absurd cc
listed_asked ((method, path) ∷ rest) t r h m =
    let later = listed_asked rest t r in
    elim (or-cases (same_text method t.method && same_text path t.path) (is_listed rest t) h) [
      | inr there ↦ rw (later there m) (ground arith)
      | inl here ↦
          let same_method : method ≡ t.method =
            same_text→eq method t.method (ground (arith, here)) in
          let same_path : path ≡ t.path = same_text→eq path t.path (ground (arith, here)) in
          let asked : is_asked method path r ≡ true =
            rw (same_method, same_path) (unfold is_asked matches in m) in
          rw (asked) refl
    ]

module _ {U : Type 0} (p : Parsers) (c : Controller U) (d : Draw) (view : Request → Server U → ℕ)
    (others : Handler → Request → Server U → Reply × Server U) where
  refused :
      (h : Handler) (r : Request) (s : Server U)
      → authenticated d r s.auth ≡ false
      → require_auth p c d view others h r s ≡ (plain_reply 401, s)
  unfolding require_auth
  refused h r s out = elim (Bool-cases (is_empty s.auth.config.verifier)) [
    | inl none_set ↦ simp (none_set) refl
    | inr some_set ↦ simp (some_set, out) refl
  ]

  only_answers :
      (h : Handler) (r : Request) (s : Server U)
      → is_reading h ≡ true
      → (serve_handler p c d view others h r s).1 ≡ s
  unfolding serve_handler
  only_answers h r s reading = rw (reading) refl

  -- A request without a valid session, for anything but the everyday controls and signing in and
  -- out, changes neither the unit nor the sign-in, whatever the handlers behind it would do.
  pub serve_guarded :
      (r : Request) (s : Server U)
      → authenticated d r s.auth ≡ false
      → asks_one_of open_writes r ≡ false
      → (serve p c d view others r s).1 ≡ s
  unfolding serve run_route
  serve_guarded r s out closed = elim (Option-cases (find_route routes r)) [
    | inl unknown ↦ rw (unknown) refl
    | inr (t, found) ↦
        let (fine, match) = found-is_fine routes r t table_fine found in
        rw (found) (elim (Bool-cases t.guarded) [
          | inl behind ↦ simp (behind) (ap (λ x. x.1) (refused t.handler r s out))
          | inr in_front ↦ elim (Bool-cases (is_reading t.handler)) [
            | inl reading ↦ simp (in_front) (only_answers t.handler r s reading)
            | inr acting ↦
                let listed : is_listed open_writes t ≡ true =
                  unfold is_fine in ground (arith, fine, in_front, acting) in
                absurd (let asked = listed_asked open_writes t r listed match in cc)
          ]
        ])
  ]
