-- ===== src/Auth/Sessions.antt =====
-- Sessions: signing in with the PIN, how long a session lasts, and what ends it.
use freeway_pi.Base.{
  ℕ, ◌+◌, ◌*◌, ◌/◌, ◌%◌, ◌^◌, ◌≤◌, ◌<◌, ◌≡◌, refl, subst, Bool, true, false, not, ◌&&◌, some, List,
  arith, ltb, leb, ◌==◌, lt→ltb, set, Result, ok,
}
use freeway_pi.Base.Texts.{
  Text, is_empty, same_text, same_text_refl, cut, format_int, parse_int-format_int, cut-format_int,
}
use freeway_pi.Base.Ints.{pos}
use freeway_pi.Auth.{
  Config, Call, run, Call, run, second, day, nonce_ttl, Crypto, AuthError, Authenticator, Params,
  find, challenge, is_live, consume_nonce, note_attempt, with_key, with_nonce, with_proof, sign_in,
  verify, sign, issue, unix, is_signed, session_end, format_unix, is_session, valid, derive_key,
  proof_of, proves,
}
use freeway_pi.Auth.Brake.Attempts.{Steady}
use freeway_pi.Auth.Brake.{elapsed}
use freeway_pi.Auth.Locked.{run-Steady}

-- The last second of a session, as an instant that a 64-bit number of seconds can name.
abbrev pub Datable : ℕ → Type 0
Datable expiry = expiry / second + 62135596800 < 2 ^ 63

unix-bound : (n : ℕ) → n + 62135596800 < 2 ^ 63 → unix (pos n) ≡ n * second
unfolding unix
unix-bound n h = rw (lt→ltb _ _ h) refl

-- What a token says under a secret, whichever secret it was signed with.
pub is_session-issue :
    (c : Crypto) (now : ℕ) (secret signer : Text) (expiry : ℕ)
    → Datable expiry
    → is_session c now secret (cut 46 (issue c signer (pos expiry))) ≡ (
        not (ltb (expiry / second * second) now)
        && same_text
            (sign c signer (format_int (expiry / second)))
            (sign c secret (format_int (expiry / second))))
unfolding issue format_unix is_session is_signed
is_session-issue c now secret signer expiry h =
    rw
      (
        cut-format_int (expiry / second) (sign c signer (format_int (expiry / second))),
        parse_int-format_int (expiry / second) (omega arith),
        unix-bound (expiry / second) h,
      )
      refl

-- A session is good until the last whole second before its end, and not after it.
pub valid-issue :
    (c : Crypto) (now expiry : ℕ) (a : Authenticator)
    → is_empty a.config.session_secret ≡ false
    → Datable expiry
    → valid c now (issue c a.config.session_secret (pos expiry)) a
      ≡ leb now (expiry / second * second)
unfolding valid
valid-issue c now expiry a set h =
    rw
      (
        set,
        is_session-issue c now a.config.session_secret a.config.session_secret expiry h,
        same_text_refl (sign c a.config.session_secret (format_int (expiry / second))),
      )
      (ground arith)

-- The state in which a proved PIN is put to use.
unfoldable after_proof : ℕ → Text → Authenticator → Authenticator
after_proof now nonce a = (consume_nonce now nonce (note_attempt now a)).1

with_proof-proves {ℓ} :
    {A : Type ℓ} (c : Crypto) (now : ℕ) (nonce proof key : Text) (expiry : ℕ)
    (proved : Authenticator → Result AuthError A × Authenticator) (a : Authenticator)
    → is_empty a.config.verifier ≡ false
    → ltb now a.lock_until ≡ false
    → find nonce a.nonces ≡ some expiry
    → leb now expiry ≡ true
    → c.decode a.config.verifier ≡ some key
    → proves c key nonce (c.decode proof) ≡ true
    → with_proof c now nonce proof proved a ≡ proved (after_proof now nonce a)
unfolding with_proof with_nonce with_key consume_nonce note_attempt is_live after_proof
with_proof-proves c now nonce proof key expiry proved a set free found live stored right =
    rw (set, free, found, live, stored, right) refl

-- The PIN that the stored verifier was made from.
pub record Holds (c : Crypto) (pin : Text) (a : Authenticator) : Type 0 where
  pub verifier : a.config.verifier ≡ c.encode (derive_key c pin a.config.salt a.config.iterations)
  pub kept : is_empty a.config.verifier ≡ false
  pub salted : is_empty a.config.salt ≡ false
  pub iterated : (a.config.iterations == 0) ≡ false
  pub secret : is_empty a.config.session_secret ≡ false

challenge-Holds :
    (c : Crypto) (now : ℕ) (pin fresh salt : Text) (a : Authenticator)
    → Holds c pin a
    → (challenge now fresh salt a).1.config ≡ a.config
unfolding challenge
challenge-Holds c now pin fresh salt a h = rw (h.salted, h.iterated) refl

find-challenge :
    (now : ℕ) (fresh salt : Text) (a : Authenticator)
    → find fresh (challenge now fresh salt a).1.nonces ≡ some (now + nonce_ttl)
unfolding challenge find
find-challenge now fresh salt a = rw (same_text_refl fresh) refl

-- The answer of a browser to a challenge.
unfoldable pub reply_to : Crypto → (pin : Text) → Params → Text
reply_to c pin p = proof_of c (derive_key c pin p.salt p.iterations) p.nonce

challenge-params :
    (c : Crypto) (now : ℕ) (pin fresh salt : Text) (a : Authenticator)
    → Holds c pin a
    → reply_to c pin (challenge now fresh salt a).0
      ≡ proof_of c (derive_key c pin a.config.salt a.config.iterations) fresh
unfolding challenge reply_to
challenge-params c now pin fresh salt a h = rw (h.salted, h.iterated) refl

proves-proof_of :
    (c : Crypto) (key nonce : Text)
    → ((t : Text) → c.decode (c.encode t) ≡ some t)
    → proves c key nonce (c.decode (proof_of c key nonce)) ≡ true
unfolding proves proof_of
proves-proof_of c key nonce reads =
    rw (reads (c.hmac key nonce)) (same_text_refl (c.hmac key nonce))

not_before : (a b : ℕ) → b ≤ a → ltb a b ≡ false
not_before a b h = ground arith

challenge-lock_until :
    (now : ℕ) (fresh salt : Text) (a : Authenticator)
    → (challenge now fresh salt a).1.lock_until ≡ a.lock_until
unfolding challenge
challenge-lock_until now fresh salt a = refl

-- What a login gives once the PIN is proved.
abbrev pub Opens : Crypto → (later expiry : ℕ) → Result AuthError Text × Authenticator → Type 0
Opens c later expiry r =
    (token : Text) × (r.0 ≡ ok token)
    × (valid c later token r.1 ≡ leb later (expiry / second * second))

-- Up to 106751 days, the end of a session does not wrap.
session_end-pos :
    (now days : ℕ) → days * day < 2 ^ 63 → session_end now days ≡ pos (now + days * day)
unfolding session_end
session_end-pos now days h =
    let whole : days * day % 2 ^ 64 ≡ days * day = omega arith in
    rw (whole, lt→ltb (days * day) (2 ^ 63) h) refl

sign_in-Opens :
    (c : Crypto) (later now expiry : ℕ) (nonce : Text) (b : Authenticator)
    → is_empty b.config.session_secret ≡ false
    → session_end now b.config.session_days ≡ pos expiry
    → Datable expiry
    → Opens c later expiry (sign_in c now (after_proof now nonce b))
unfolding sign_in after_proof consume_nonce note_attempt
sign_in-Opens c later now expiry nonce b set days h = (
  issue c b.config.session_secret (pos expiry),
  rw (days) refl,
  valid-issue c later expiry _ set h,
)

login_after :
    (c : Crypto) (pin fresh salt : Text) (asked now later : ℕ) (a : Authenticator)
    → ((t : Text) → c.decode (c.encode t) ≡ some t)
    → Holds c pin a
    → Steady asked a
    → a.last_attempt + 60 * second ≤ now
    → now ≤ asked + nonce_ttl
    → a.config.session_days * day < 2 ^ 63
    → Datable (now + a.config.session_days * day)
    → let p = challenge asked fresh salt a in
      Opens c later
        (now + a.config.session_days * day)
        (verify c now fresh (reply_to c pin p.0) p.1)
unfolding verify
login_after c pin fresh salt asked now later a reads h steady rested soon few datable =
    let b = (challenge asked fresh salt a).1 in
    let key = derive_key c pin a.config.salt a.config.iterations in
    let same : b.config ≡ a.config = challenge-Holds c asked pin fresh salt a h in
    let set : is_empty b.config.verifier ≡ false = rw (same) h.kept in
    let stored : c.decode b.config.verifier ≡ some key = rw (same, h.verifier) (reads key) in
    let live : leb now (asked + nonce_ttl) ≡ true = ground arith in
    let known =
      with_proof-proves c now fresh (proof_of c key fresh) key (asked + nonce_ttl) (sign_in c now) b
        set
        (rw (challenge-lock_until asked fresh salt a)
          (not_before now a.lock_until (omega (arith, steady.short))))
        (find-challenge asked fresh salt a) live stored (proves-proof_of c key fresh reads) in
    rw (challenge-params c asked pin fresh salt a h, known)
      (sign_in-Opens c later now _ fresh b (rw (same) h.secret)
        (rw (same) (session_end-pos now a.config.session_days few)) datable)

-- The owner is let in: from a brake that is off or in order, and whatever challenges, settings of a
-- first PIN, logins and changes anybody has asked for before the owner's challenge, with the PIN that
-- is then stored and a minute or more after the last attempt, the browser's answer to that challenge,
-- with no call in between and no more than two minutes after it, gives a session, and that session is
-- good until the last whole second of its days. Base64 must read what it wrote, the days must be a
-- duration of 64 bits, and the end of the session a time that 64 bits can name.
pub login_works :
    (c : Crypto) (save : Config → Bool) (pin fresh salt : Text) (begin wait later : ℕ)
    (calls : List (ℕ × Call)) (start a : Authenticator)
    → ((t : Text) → c.decode (c.encode t) ≡ some t)
    → Steady begin start
    → (run c save begin calls start).1 ≡ a
    → Holds c pin a
    → a.last_attempt + 60 * second ≤ begin + elapsed calls + wait
    → wait ≤ nonce_ttl
    → a.config.session_days * day < 2 ^ 63
    → Datable (begin + elapsed calls + wait + a.config.session_days * day)
    → let p = challenge (begin + elapsed calls) fresh salt a in
      let now = begin + elapsed calls + wait in
      Opens c later
        (now + a.config.session_days * day)
        (verify c now fresh (reply_to c pin p.0) p.1)
login_works c save pin fresh salt begin wait later calls start a reads steady same h rested soon few
      datable =
    let still : Steady (begin + elapsed calls) a =
      subst (λ (x : Authenticator). Steady (begin + elapsed calls) x) same
        (run-Steady c save begin calls start steady) in
    login_after c pin fresh salt (begin + elapsed calls) (begin + elapsed calls + wait) later a
      reads h still rested (omega arith) few datable
