-- ===== src/Auth.antt =====
-- The PIN, the challenges and the sessions (internal/auth/auth.go).
--
-- An instant is its nanoseconds since 1970; Go's zero time, which is before every reading of the
-- clock, is 0. Each call reads the clock once. Hashing, base64 and randomness are library code: the
-- first three are the functions of `Crypto`, and what `randomHex` returns is an argument of the call
-- that draws it. `Save` is a function that says whether it worked, and `saved` holds what it was
-- given, the newest first; an `Authenticator` without a `Save` is one whose `Save` always works.
-- The numbers of a configuration are taken not to be below 0; a duration wraps at 64 bits.
use freeway_pi.Base.{
  ℕ, zero, suc, ◌+◌, ◌-◌, ◌*◌, ◌/◌, ◌%◌, ◌^◌, ◌≤◌, ◌<◌, min, max, ◌≡◌, refl, sym, ap, ap₂, subst,
  ◌∙◌, fun_ext, ◌≢◌, ◌↔◌, ◌⊎◌, inl, inr, Bool, true, false, not, ◌&&◌, ◌||◌, Option, none, some,
  List, [], ◌∷◌, ◌++◌, map, arith, ltb, leb, ◌==◌, if◌then◌else◌, ltb→lt, lt→ltb, leb→le, ==_iff,
  Bool-cases, Option-cases, nonzero, length, get_or, set, take, drop, replicate, length-append,
  length-take, length-drop, length-replicate, take-append, drop-append, All, length-map, All-append,
  All-append_left, All-append_right, length-set, get_or-set_self, get_or-set_ne, get_or-drop,
  drop-nil, drop-drop, Result, ◌>>=◌, ◌>>◌, fail_if, Result-cases, ok, err,
}
pub mod Brake
pub mod Locked
pub mod Nonces
pub mod Sessions
pub mod Changes
pub mod Evicting
pub mod Examples
use freeway_pi.Base.Texts.{Text, is_empty, same_text, cut, format_int, parse_int}
use freeway_pi.Base.Ints.{ℤ, pos, negsuc}

-- `DefaultIterations`, `NonceTTL`, `MaxLockout`, `AttemptDecay` and `MaxNonces`.
abbrev pub second : ℕ
second = 1000000000

abbrev pub day : ℕ
day = 86400000000000

abbrev pub default_iterations : ℕ
default_iterations = 120000

abbrev pub nonce_ttl : ℕ
nonce_ttl = 120000000000

abbrev pub max_lockout : ℕ
max_lockout = 60000000000

abbrev pub attempt_decay : ℕ
attempt_decay = 900000000000

abbrev pub max_nonces : ℕ
max_nonces = 256

pub record Crypto : Type 0 where
  pub hmac : Text → Text → Text
  pub encode : Text → Text
  pub decode : Text → Option Text
  pub raw_url : Text → Text
  pub pbkdf2 : Text → Text → ℕ → Text

pub data AuthError : Type 0 where
  not_configured : AuthError
  configured : AuthError
  bad_nonce : AuthError
  bad_proof : AuthError
  rate_limited : AuthError
  malformed_key : AuthError
  unreadable_verifier : AuthError
  no_salt : AuthError
  bad_length : AuthError
  save_failed : AuthError

pub record Config : Type 0 where
  pub salt : Text
  pub verifier : Text
  pub iterations : ℕ
  pub session_secret : Text
  pub session_days : ℕ

pub record Authenticator : Type 0 where
  pub config : Config
  pub nonces : List (Text × ℕ)
  pub attempts : ℕ
  pub lock_until : ℕ
  pub last_attempt : ℕ
  pub saved : List Config

pub record Params : Type 0 where
  pub nonce : Text
  pub salt : Text
  pub iterations : ℕ
  pub configured : Bool

unfoldable pub new : Config → Authenticator
new config = record {
  config = config;
  nonces = [];
  attempts = 0;
  lock_until = 0;
  last_attempt = 0;
  saved = [];
}

-- The map of the outstanding challenges, in the order in which it is gone through.
unfoldable pub find : Text → List (Text × ℕ) → Option ℕ
find n [] = none
find n ((k, expiry) ∷ m) = let rest = find n m in if same_text k n then some expiry else rest

unfoldable pub remove : Text → List (Text × ℕ) → List (Text × ℕ)
remove n [] = []
remove n ((k, expiry) ∷ m) =
    let rest = remove n m in if same_text k n then rest else (k, expiry) ∷ rest

unfoldable pub expire_nonces : ℕ → List (Text × ℕ) → List (Text × ℕ)
expire_nonces now [] = []
expire_nonces now ((k, expiry) ∷ m) =
    let rest = expire_nonces now m in if ltb expiry now then rest else (k, expiry) ∷ rest

-- The oldest of the entries still to come and the one found so far.
unfoldable pub oldest : Text × ℕ → List (Text × ℕ) → Text × ℕ
oldest best [] = best
oldest best ((k, expiry) ∷ m) =
    let replaced = oldest (k, expiry) m in
    let kept = oldest best m in if best.1 == 0 || ltb expiry best.1 then replaced else kept

-- `for len(a.nonces) >= MaxNonces`, on fuel.
unfoldable pub evict : ℕ → List (Text × ℕ) → List (Text × ℕ)
evict zero m = m
evict (suc fuel) m =
    let rest = evict fuel (remove (oldest ([], 0) m).0 m) in
    if leb max_nonces (length m) then rest else m

-- `fresh` and `fresh_salt` are what `randomHex` returns.
unfoldable pub challenge :
    (now : ℕ) (fresh fresh_salt : Text) → Authenticator → Params × Authenticator
challenge now fresh fresh_salt a =
    let left = expire_nonces now a.nonces in
    let room = evict (length left) left in
    let salt = if is_empty a.config.salt then fresh_salt else a.config.salt in
    let iterations = if a.config.iterations == 0 then default_iterations else a.config.iterations in
    (
      record {
        nonce = fresh;
        salt = salt;
        iterations = iterations;
        configured = not (is_empty a.config.verifier);
      },
      record a {
        nonces = (fresh, now + nonce_ttl) ∷ remove fresh room;
        config = record (a.config) { salt = salt; iterations = iterations };
      },
    )

unfoldable pub is_live : ℕ → Option ℕ → Bool
is_live now none = false
is_live now (some expiry) = leb now expiry

unfoldable pub consume_nonce : ℕ → Text → Authenticator → Bool × Authenticator
consume_nonce now nonce a =
    (is_live now (find nonce a.nonces), record a { nonces = remove nonce a.nonces })

unfoldable pub sign : Crypto → (secret expiry : Text) → Text
sign c secret expiry = c.raw_url (c.hmac secret expiry)

-- The whole seconds of an instant, which may be before 1970, rounded down.
unfoldable pub format_unix : ℤ → Text
format_unix (pos n) = format_int (n / second)
format_unix (negsuc n) = 45 ∷ format_int (n / second + 1)

unfoldable pub issue : Crypto → Text → ℤ → Text
issue c secret expiry = let e = format_unix expiry in e ++ (46 ∷ sign c secret e)

unfoldable pub earlier_by : ℕ → (now : ℕ) → ℤ
earlier_by d now = if leb d now then pos (now - d) else negsuc (d - now - 1)

-- `a.now().Add(time.Duration(days) * 24 * time.Hour)`, where the duration has 64 bits and a sign.
unfoldable pub session_end : (now days : ℕ) → ℤ
session_end now days =
    let d = days * day % 2 ^ 64 in
    if ltb d (2 ^ 63) then pos (now + d) else earlier_by (2 ^ 64 - d) now

-- The instant of a number of seconds; those beyond Go's range wrap to before everything.
unfoldable pub unix : ℤ → ℕ
unix (pos n) = if ltb (n + 62135596800) (2 ^ 63) then n * second else 0
unix (negsuc n) = 0

unfoldable pub is_signed : Crypto → ℕ → Text → (expiry signature : Text) → Option ℤ → Bool
is_signed c now secret expiry signature none = false
is_signed c now secret expiry signature (some n) =
    not (ltb (unix n) now) && same_text signature (sign c secret expiry)

unfoldable pub is_session : Crypto → ℕ → Text → Option (Text × Text) → Bool
is_session c now secret none = false
is_session c now secret (some (expiry, signature)) =
    is_signed c now secret expiry signature (parse_int expiry)

unfoldable pub valid : Crypto → (now : ℕ) → Text → Authenticator → Bool
valid c now token a =
    if is_empty a.config.session_secret
    then false
    else is_session c now a.config.session_secret (cut 46 token)

unfoldable pub derive_key : Crypto → (pin salt : Text) → ℕ → Text
derive_key c pin salt iterations = c.pbkdf2 pin salt iterations

unfoldable pub proof_of : Crypto → (key nonce : Text) → Text
proof_of c key nonce = c.encode (c.hmac key nonce)

unfoldable pub session_days : Authenticator → ℕ
session_days a = if a.config.session_days == 0 then 90 else a.config.session_days

-- Giving the configuration to `Save`, with the answer of the call when that works.
unfoldable pub keep {ℓ} :
    {A : Type ℓ} → (Config → Bool) → A → Authenticator → Result AuthError A × Authenticator
keep save answer a =
    (if save a.config then ok answer else err save_failed, record a { saved = a.config ∷ a.saved })

unfoldable pub has_key_size : Text → Bool
has_key_size key = length key == 32

unfoldable pub first_pin :
    Crypto
    → (Config → Bool)
    → (fresh : Text) → Option Text
    → Authenticator
    → Result AuthError (Unit {0}) × Authenticator
first_pin c save fresh none a = (err malformed_key, a)
first_pin c save fresh (some key) a =
    if has_key_size key
    then keep save tt (record a {
      config = record (a.config) {
        verifier = c.encode key;
        session_secret =
            if is_empty a.config.session_secret then fresh else a.config.session_secret;
        session_days = session_days a;
      };
    })
    else (err malformed_key, a)

unfoldable pub first_pin_for :
    Crypto
    → (Config → Bool)
    → (fresh proof : Text) → Bool × Authenticator
    → Result AuthError (Unit {0}) × Authenticator
first_pin_for c save fresh proof (false, a) = (err bad_nonce, a)
first_pin_for c save fresh proof (true, a) = first_pin c save fresh (c.decode proof) a

unfoldable pub set_pin :
    Crypto
    → (Config → Bool)
    → (now : ℕ) → (nonce proof fresh : Text) → Authenticator
    → Result AuthError (Unit {0}) × Authenticator
set_pin c save now nonce proof fresh a =
    if not (is_empty a.config.verifier)
    then (err configured, a)
    else first_pin_for c save fresh proof (consume_nonce now nonce a)

-- A quiet spell forgives, and the attempt is noted.
unfoldable pub note_attempt : ℕ → Authenticator → Authenticator
note_attempt now a = record a {
  attempts =
      if not (a.last_attempt == 0) && ltb attempt_decay (now - a.last_attempt)
      then 0
      else a.attempts;
  last_attempt = now;
}

unfoldable pub wait_after : ℕ → ℕ
wait_after attempts = min ((attempts - 4) * 5 * second) max_lockout

unfoldable pub wrong_proof : ℕ → Authenticator → Authenticator
wrong_proof now a = record a {
  attempts = suc a.attempts;
  lock_until = if leb 5 (suc a.attempts) then now + wait_after (suc a.attempts) else a.lock_until;
}

unfoldable pub proves : Crypto → (key nonce : Text) → Option Text → Bool
proves c key nonce none = false
proves c key nonce (some got) = same_text got (c.hmac key nonce)

-- What `Verify` and `ChangePIN` do alike, before what a proved PIN is good for.
unfoldable pub with_key {ℓ} :
    {A : Type ℓ}
    → Crypto
    → (now : ℕ) → (nonce proof : Text) → (Authenticator → Result AuthError A × Authenticator)
    → Option Text
    → Authenticator
    → Result AuthError A × Authenticator
with_key c now nonce proof proved none a = (err unreadable_verifier, a)
with_key c now nonce proof proved (some key) a =
    if proves c key nonce (c.decode proof) then proved a else (err bad_proof, wrong_proof now a)

unfoldable pub with_nonce {ℓ} :
    {A : Type ℓ}
    → Crypto
    → (now : ℕ) → (nonce proof : Text) → (Authenticator → Result AuthError A × Authenticator)
    → Bool × Authenticator
    → Result AuthError A × Authenticator
with_nonce c now nonce proof proved (false, a) = (err bad_nonce, a)
with_nonce c now nonce proof proved (true, a) =
    with_key c now nonce proof proved (c.decode a.config.verifier) a

unfoldable pub with_proof {ℓ} :
    {A : Type ℓ}
    → Crypto
    → (now : ℕ) → (nonce proof : Text) → (Authenticator → Result AuthError A × Authenticator)
    → Authenticator
    → Result AuthError A × Authenticator
with_proof c now nonce proof proved a =
    if is_empty a.config.verifier
    then (err not_configured, a)
    else if ltb now a.lock_until
    then (err rate_limited, a)
    else with_nonce c now nonce proof proved (consume_nonce now nonce (note_attempt now a))

unfoldable pub sign_in : Crypto → ℕ → Authenticator → Result AuthError Text × Authenticator
sign_in c now a = (
  ok (issue c a.config.session_secret (session_end now a.config.session_days)),
  record a { attempts = 0 },
)

unfoldable pub verify :
    Crypto
    → (now : ℕ) → (nonce proof : Text) → Authenticator
    → Result AuthError Text × Authenticator
verify c now nonce proof a = with_proof c now nonce proof (sign_in c now) a

unfoldable pub replace_pin :
    Crypto
    → (Config → Bool)
    → (now : ℕ) → (salt fresh : Text) → Option Text
    → Authenticator
    → Result AuthError Text × Authenticator
replace_pin c save now salt fresh none a = (err malformed_key, a)
replace_pin c save now salt fresh (some key) a =
    if not (has_key_size key)
    then (err malformed_key, a)
    else if is_empty salt
    then (err no_salt, a)
    else keep save (issue c fresh (session_end now a.config.session_days)) (record a {
      attempts = 0;
      lock_until = 0;
      config = record (a.config) {
        salt = salt;
        verifier = c.encode key;
        iterations = default_iterations;
        session_secret = fresh;
      };
    })

unfoldable pub change_pin :
    Crypto
    → (Config → Bool)
    → (now : ℕ) → (nonce proof salt key fresh : Text) → Authenticator
    → Result AuthError Text × Authenticator
change_pin c save now nonce proof salt key fresh a =
    with_proof c now nonce proof (replace_pin c save now salt fresh (c.decode key)) a

unfoldable pub force_pin :
    Crypto
    → (Config → Bool)
    → (pin salt fresh : Text) → Authenticator
    → Result AuthError (Unit {0}) × Authenticator
force_pin c save pin salt fresh a =
    if ltb (length pin) 4 || ltb 12 (length pin)
    then (err bad_length, a)
    else keep save tt (record a {
      attempts = 0;
      lock_until = 0;
      config = record {
        salt = salt;
        verifier = c.encode (derive_key c pin salt default_iterations);
        iterations = default_iterations;
        session_secret = fresh;
        session_days = session_days a;
      };
    })

-- What a caller asks for, with the random strings that the call draws.
pub data Call : Type 0 where
  challenging : (fresh salt : Text) → Call
  setting : (nonce proof fresh : Text) → Call
  verifying : (nonce proof : Text) → Call
  changing : (nonce proof salt key fresh : Text) → Call

pub data Answer : Type 0 where
  issued : Params → Answer
  stored : Result AuthError (Unit {0}) → Answer
  opened : Result AuthError Text → Answer

unfoldable pub answer {ℓ} : {A : Type ℓ} → (A → Answer) → A × Authenticator → Answer × Authenticator
answer f (x, a) = (f x, a)

unfoldable pub step : Crypto → (Config → Bool) → ℕ → Call → Authenticator → Answer × Authenticator
step c save now (challenging fresh salt) a = answer issued (challenge now fresh salt a)
step c save now (setting nonce proof fresh) a =
    answer stored (set_pin c save now nonce proof fresh a)
step c save now (verifying nonce proof) a = answer opened (verify c now nonce proof a)
step c save now (changing nonce proof salt key fresh) a =
    answer opened (change_pin c save now nonce proof salt key fresh a)

-- Calls one after the other, each with the time that passes before it.
unfoldable pub run :
    Crypto → (Config → Bool) → ℕ → List (ℕ × Call) → Authenticator → List Answer × Authenticator
run c save now [] a = ([], a)
run c save now ((delay, call) ∷ calls) a =
    let r = step c save (now + delay) call a in
    let more = run c save (now + delay) calls r.1 in (r.0 ∷ more.0, more.1)
