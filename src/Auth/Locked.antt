-- ===== src/Auth/Locked.antt =====
-- The brake never holds longer than a minute past the last attempt, whatever was asked.
use freeway_pi.Base.{
  ℕ, ◌+◌, ◌≤◌, ◌≡◌, refl, inl, inr, Bool, true, false, not, Option, none, some, List, [], ◌∷◌,
  arith, ltb, if◌then◌else◌, Bool-cases, Result, err,
}
use freeway_pi.Base.Texts.{Text, is_empty}
use freeway_pi.Auth.{
  bad_proof, not_configured, rate_limited, remove, Crypto, AuthError, Config, Authenticator, find,
  is_live, consume_nonce, keep, note_attempt, wrong_proof, with_key, with_nonce, with_proof,
  sign_in, verify, proves, has_key_size, replace_pin, change_pin, Call, challenging, setting,
  verifying, changing, answer, step, run,
}
use freeway_pi.Auth.Brake.Attempts.{Steady, Steady-same, Steady-later, Steady-note, Steady-wrong}
use freeway_pi.Auth.Brake.{challenge-SameBrake, elapsed}
use freeway_pi.Auth.Brake.Tries.{set_pin-SameBrake}

-- What a proved PIN is good for lifts the brake or leaves it.
abbrev Lifts : (Authenticator → Result AuthError Text × Authenticator) → Type 0
Lifts proved =
    (b : Authenticator)
    → ((proved b).1.lock_until ≤ b.lock_until) × ((proved b).1.last_attempt ≡ b.last_attempt)

sign_in-Lifts : (c : Crypto) (now : ℕ) → Lifts (sign_in c now)
unfolding sign_in
sign_in-Lifts c now b = (omega arith, refl)

replace_pin-Lifts :
    (c : Crypto) (save : Config → Bool) (now : ℕ) (salt fresh : Text) (key : Option Text)
    → Lifts (replace_pin c save now salt fresh key)
unfolding replace_pin keep
replace_pin-Lifts c save now salt fresh none b = (omega arith, refl)
replace_pin-Lifts c save now salt fresh (some key) b = elim (Bool-cases (not (has_key_size key))) [
  | inl short ↦ rw (short) (omega arith, refl)
  | inr sized ↦ elim (Bool-cases (is_empty salt)) [
    | inl unsalted ↦ rw (sized, unsalted) (omega arith, refl)
    | inr salted ↦ rw (sized, salted) (omega arith, refl)
  ]
]

lifted :
    (now : ℕ) (a b : Authenticator)
    → (b.lock_until ≤ a.lock_until) × (b.last_attempt ≡ a.last_attempt)
    → Steady now a
    → Steady now b
lifted now a b (lower, same) s = record {
  past = omega (arith, s.past);
  short = omega (arith, s.short);
}

with_key-Steady :
    (c : Crypto) (now : ℕ) (nonce proof : Text)
    (proved : Authenticator → Result AuthError Text × Authenticator)
    → Lifts proved
    → (key : Option Text) → (b : Authenticator) → b.lock_until ≤ now
    → b.last_attempt ≡ now
    → Steady now b
    → Steady now (with_key c now nonce proof proved key b).1
unfolding with_key
with_key-Steady c now nonce proof proved lifts none b free noted s = s
with_key-Steady c now nonce proof proved lifts (some key) b free noted s =
    steady_if (proves c key nonce (c.decode proof))
  where
    steady_if :
        (right : Bool)
        → Steady now (if right then proved b else (err bad_proof, wrong_proof now b)).1
    steady_if true = lifted now b (proved b).1 (lifts b) s
    steady_if false = Steady-wrong now b free noted

with_nonce-Steady :
    (c : Crypto) (now : ℕ) (nonce proof : Text)
    (proved : Authenticator → Result AuthError Text × Authenticator)
    → Lifts proved
    → (p : Bool × Authenticator) → p.1.lock_until ≤ now
    → p.1.last_attempt ≡ now
    → Steady now p.1
    → Steady now (with_nonce c now nonce proof proved p).1
unfolding with_nonce
with_nonce-Steady c now nonce proof proved lifts (false, b) free noted s = s
with_nonce-Steady c now nonce proof proved lifts (true, b) free noted s =
    with_key-Steady c now nonce proof proved lifts (c.decode b.config.verifier) b free noted s

with_proof-Steady :
    (c : Crypto) (now : ℕ) (nonce proof : Text)
    (proved : Authenticator → Result AuthError Text × Authenticator)
    → Lifts proved
    → (a : Authenticator) → Steady now a
    → Steady now (with_proof c now nonce proof proved a).1
unfolding with_proof consume_nonce note_attempt
with_proof-Steady c now nonce proof proved lifts a s =
    steady_if (is_empty a.config.verifier) (ltb now a.lock_until) refl
      (is_live now (find nonce (note_attempt now a).nonces))
  where
    b : Authenticator
    b = record (note_attempt now a) { nonces = remove nonce (note_attempt now a).nonces }

    steady_if :
        (unset locked : Bool)
        → ltb now a.lock_until ≡ locked
        → (live : Bool)
        → Steady now
            (if unset
              then (err not_configured, a)
              else if locked
              then (err rate_limited, a)
              else with_nonce c now nonce proof proved (live, b)).1
    steady_if true locked e live = s
    steady_if false true e live = s
    steady_if false false e live =
        let free : a.lock_until ≤ now = ground arith in
        let noted : Steady now b =
          Steady-same now (note_attempt now a) b (refl, refl, refl) (Steady-note now a free) in
        with_nonce-Steady c now nonce proof proved lifts (live, b) free refl noted

step-Steady :
    (c : Crypto) (save : Config → Bool) (now : ℕ) (call : Call) (a : Authenticator)
    → Steady now a
    → Steady now (step c save now call a).1
unfolding step answer verify change_pin
step-Steady c save now (challenging fresh salt) a s =
    Steady-same now a _ (challenge-SameBrake now fresh salt a) s
step-Steady c save now (setting nonce proof fresh) a s =
    Steady-same now a _ (set_pin-SameBrake c save now nonce proof fresh a) s
step-Steady c save now (verifying nonce proof) a s =
    with_proof-Steady c now nonce proof (sign_in c now) (sign_in-Lifts c now) a s
step-Steady c save now (changing nonce proof salt key fresh) a s =
    with_proof-Steady c now nonce proof (replace_pin c save now salt fresh (c.decode key))
      (replace_pin-Lifts c save now salt fresh (c.decode key)) a s

pub run-Steady :
    (c : Crypto) (save : Config → Bool) (now : ℕ) (calls : List (ℕ × Call)) (a : Authenticator)
    → Steady now a
    → Steady (now + elapsed calls) (run c save now calls a).1
unfolding run elapsed
run-Steady c save now [] a s = Steady-later now (now + 0) a (omega arith) s
run-Steady c save now ((delay, call) ∷ calls) a s =
    let here =
      step-Steady c save (now + delay) call a (Steady-later now (now + delay) a (omega arith) s) in
    Steady-later _ _ _ (later now delay (elapsed calls))
      (run-Steady c save (now + delay) calls _ here)
  where
    later : (x y z : ℕ) → x + y + z ≤ x + (y + z)
    later x y z = omega arith
