-- ===== src/Auth/Changes.antt =====
-- Changes of the PIN: who can make one, and what it does to the sessions before.
use freeway_pi.Base.{
  ℕ, ◌/◌, ◌≤◌, ◌≡◌, refl, ap, ◌≢◌, ◌⊎◌, inl, inr, Bool, true, false, not, ◌&&◌, Option, none, some,
  arith, ltb, if◌then◌else◌, Bool-cases, Option-cases, Result, ok, err,
}
use freeway_pi.Base.Texts.{Text, is_empty, same_text, same_text→eq, format_int, cut}
use freeway_pi.Auth.{
  is_session, second, Crypto, AuthError, Config, Authenticator, find, challenge, is_live,
  consume_nonce, keep, set_pin, note_attempt, wrong_proof, with_key, with_nonce, with_proof,
  sign_in, verify, has_key_size, replace_pin, change_pin, sign, issue, valid, proves, Call,
  challenging, setting, verifying, changing, step, answer,
}
use freeway_pi.Base.Ints.{pos}
use freeway_pi.Auth.Sessions.{Datable, is_session-issue}

-- The PIN was proved with an outstanding challenge.
pub record Proved (c : Crypto) (now : ℕ) (nonce proof : Text) (a : Authenticator) : Type 0 where
  pub key : Text
  pub stored : c.decode a.config.verifier ≡ some key
  pub right : proves c key nonce (c.decode proof) ≡ true
  pub live : is_live now (find nonce a.nonces) ≡ true
  pub free : a.lock_until ≤ now

-- How a try ends: refused, with the configuration as it was, or with what a proved PIN is good for.
unfoldable Ends {ℓ} :
    {A : Type ℓ}
    → Crypto
    → ℕ
    → (nonce proof : Text) → (Authenticator → Result AuthError A × Authenticator)
    → Authenticator
    → Result AuthError A × Authenticator
    → Type ℓ
Ends {A = A} c now nonce proof proved a r =
    ((r.1.config ≡ a.config) × ((x : A) → r.0 ≢ ok x))
    ⊎ (Proved c now nonce proof a × (b : Authenticator) × (b.config ≡ a.config) × (r ≡ proved b))

with_proof-Ends {ℓ} :
    {A : Type ℓ} (c : Crypto) (now : ℕ) (nonce proof : Text)
    (proved : Authenticator → Result AuthError A × Authenticator) (a : Authenticator)
    → Ends c now nonce proof proved a (with_proof c now nonce proof proved a)
unfolding with_proof with_nonce consume_nonce note_attempt with_key wrong_proof Ends
with_proof-Ends c now nonce proof proved a = elim (Bool-cases (is_empty a.config.verifier)) [
  | inl unset ↦ rw (unset) (inl (refl, λ x e. absurd cc))
  | inr known ↦ elim (Bool-cases (ltb now a.lock_until)) [
    | inl locked ↦ rw (known, locked) (inl (refl, λ x e. absurd cc))
    | inr free ↦ elim (Bool-cases (is_live now (find nonce a.nonces))) [
      | inr dead ↦ rw (known, free, dead) (inl (refl, λ x e. absurd cc))
      | inl live ↦ elim (Option-cases (c.decode a.config.verifier)) [
        | inl garbled ↦ rw (known, free, live, garbled) (inl (refl, λ x e. absurd cc))
        | inr (key, stored) ↦ elim (Bool-cases (proves c key nonce (c.decode proof))) [
          | inr wrong ↦ rw (known, free, live, stored, wrong) (inl (refl, λ x e. absurd cc))
          | inl right ↦
              rw (known, free, live, stored, right)
                (inr (
                  record {
                    key = key;
                    stored = stored;
                    right = right;
                    live = live;
                    free = ground arith;
                  },
                  _,
                  refl,
                  refl,
                ))
        ]
      ]
    ]
  ]
]

refusal : (e : AuthError) (x : Text) → ◌≡◌ {A = Result AuthError Text} (err e) (ok x) → ⊥
refusal e x h = absurd cc

replace_pin-secret :
    (c : Crypto) (save : Config → Bool) (now : ℕ) (salt fresh : Text) (key : Option Text)
    (b : Authenticator) (token : Text)
    → (replace_pin c save now salt fresh key b).0 ≡ ok token
    → (replace_pin c save now salt fresh key b).1.config.session_secret ≡ fresh
unfolding replace_pin keep
replace_pin-secret c save now salt fresh none b token h = absurd cc
replace_pin-secret c save now salt fresh (some key) b token h =
    elim (Bool-cases (not (has_key_size key))) [
      | inl short ↦ absurd (refusal _ token (rw short at h))
      | inr sized ↦ elim (Bool-cases (is_empty salt)) [
        | inl unsalted ↦ absurd (refusal _ token (rw (sized, unsalted) at h))
        | inr salted ↦ rw (sized, salted) refl
      ]
    ]

change_pin-secret :
    (c : Crypto) (save : Config → Bool) (now : ℕ) (nonce proof salt key fresh token : Text)
    (a : Authenticator)
    → (change_pin c save now nonce proof salt key fresh a).0 ≡ ok token
    → (change_pin c save now nonce proof salt key fresh a).1.config.session_secret ≡ fresh
unfolding change_pin Ends
change_pin-secret c save now nonce proof salt key fresh token a done =
    let replace = replace_pin c save now salt fresh (c.decode key) in
    elim (with_proof-Ends c now nonce proof replace a) [
      | inl (_, shut) ↦ absurd (shut token done)
      | inr (_, b, _, same) ↦
          rw (same)
            (replace_pin-secret c save now salt fresh (c.decode key) b token (rw same at done))
    ]

and_false : (a b : Bool) → b ≡ false → (a && b) ≡ false
and_false true b h = h
and_false false b h = refl

unlike : (t u : Text) → t ≢ u → same_text t u ≡ false
unlike t u h = elim (Bool-cases (same_text t u)) [
  | inl alike ↦ absurd (h (same_text→eq t u alike))
  | inr other ↦ other
]

unfoldable pub Proves : Crypto → ℕ → Authenticator → Call → Type 0
Proves c now a (changing nonce proof salt key fresh) = Proved c now nonce proof a
Proves c now a _ = ⊥

challenge-verifier :
    (now : ℕ) (fresh salt : Text) (a : Authenticator)
    → (challenge now fresh salt a).1.config.verifier ≡ a.config.verifier
unfolding challenge
challenge-verifier now fresh salt a = refl

set_pin-verifier :
    (c : Crypto) (save : Config → Bool) (now : ℕ) (nonce proof fresh : Text) (a : Authenticator)
    {P : Type 0}
    → ((set_pin c save now nonce proof fresh a).1.config.verifier ≡ a.config.verifier)
      ⊎ (is_empty a.config.verifier ≡ true)
      ⊎ P
unfolding set_pin
set_pin-verifier c save now nonce proof fresh a = elim (Bool-cases (is_empty a.config.verifier)) [
  | inl unset ↦ inr (inl unset)
  | inr known ↦ rw (known) (inl refl)
]

verify-verifier :
    (c : Crypto) (now : ℕ) (nonce proof : Text) (a : Authenticator)
    → (verify c now nonce proof a).1.config.verifier ≡ a.config.verifier
unfolding verify Ends sign_in
verify-verifier c now nonce proof a = elim (with_proof-Ends c now nonce proof (sign_in c now) a) [
  | inl (same, _) ↦ ap (λ (x : Config). x.verifier) same
  | inr (_, b, same, e) ↦ rw (e) (ap (λ (x : Config). x.verifier) same)
]

change_pin-verifier :
    (c : Crypto) (save : Config → Bool) (now : ℕ) (nonce proof salt key fresh : Text)
    (a : Authenticator)
    → ((change_pin c save now nonce proof salt key fresh a).1.config.verifier ≡ a.config.verifier)
      ⊎ (is_empty a.config.verifier ≡ true)
      ⊎ Proved c now nonce proof a
unfolding change_pin Ends
change_pin-verifier c save now nonce proof salt key fresh a =
    elim (with_proof-Ends c now nonce proof (replace_pin c save now salt fresh (c.decode key)) a) [
      | inl (same, _) ↦ inl (ap (λ (x : Config). x.verifier) same)
      | inr (proof_right, _, _, _) ↦ inr (inr proof_right)
    ]

-- Changing the PIN ends the sessions: once a change is answered with a new session, what the old
-- secret signed for any instant from 1970 on that 64 bits can name is not a session, unless the two
-- secrets sign that instant alike.
pub change_pin-ends_sessions :
    (c : Crypto) (save : Config → Bool) (now later expiry : ℕ)
    (nonce proof salt key fresh token : Text) (a : Authenticator)
    → (change_pin c save now nonce proof salt key fresh a).0 ≡ ok token
    → Datable expiry
    → sign c a.config.session_secret (format_int (expiry / second))
      ≢ sign c fresh (format_int (expiry / second))
    → valid c later
        (issue c a.config.session_secret (pos expiry))
        (change_pin c save now nonce proof salt key fresh a).1
      ≡ false
unfolding valid
change_pin-ends_sessions c save now later expiry nonce proof salt key fresh token a done h differ =
    rw (change_pin-secret c save now nonce proof salt key fresh token a done)
      (go (Bool-cases (is_empty fresh)))
  where
    e : Text
    e = format_int (expiry / second)

    old : Text
    old = a.config.session_secret

    go :
        (is_empty fresh ≡ true) ⊎ (is_empty fresh ≡ false)
        → (if is_empty fresh
            then false
            else is_session c later fresh (cut 46 (issue c old (pos expiry))))
          ≡ false
    go (inl none_set) = rw (none_set) refl
    go (inr some_set) =
        rw (some_set, is_session-issue c later fresh old expiry h)
          (and_false _ _ (unlike (sign c old e) (sign c fresh e) differ))

-- Of the calls that requests reach, a challenge, the setting of the first PIN, a login and a change,
-- each leaves the stored verifier alone, or there was none before it, or it is a change with a proof
-- that is right under the stored key, for a challenge that is outstanding and has not expired, while
-- the brake is off. ForcePIN is none of them, and asks for no proof.
pub step-verifier :
    (c : Crypto) (save : Config → Bool) (now : ℕ) (call : Call) (a : Authenticator)
    → ((step c save now call a).1.config.verifier ≡ a.config.verifier)
      ⊎ (is_empty a.config.verifier ≡ true)
      ⊎ Proves c now a call
unfolding step answer Proves
step-verifier c save now (challenging fresh salt) a = inl (challenge-verifier now fresh salt a)
step-verifier c save now (setting nonce proof fresh) a =
    set_pin-verifier c save now nonce proof fresh a
step-verifier c save now (verifying nonce proof) a = inl (verify-verifier c now nonce proof a)
step-verifier c save now (changing nonce proof salt key fresh) a =
    change_pin-verifier c save now nonce proof salt key fresh a
