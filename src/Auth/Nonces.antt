-- ===== src/Auth/Nonces.antt =====
-- The outstanding challenges: there are never more than 256, and each is good for one try.
pub mod Entries
pub mod Tries
use freeway_pi.Base.{
  ℕ, zero, suc, ◌+◌, ◌-◌, ◌*◌, ◌/◌, ◌%◌, ◌^◌, ◌≤◌, ◌<◌, min, max, ◌≡◌, refl, sym, ap, ap₂, subst,
  ◌∙◌, fun_ext, ◌≢◌, ◌↔◌, ◌⊎◌, inl, inr, Bool, true, false, not, ◌&&◌, ◌||◌, Option, none, some,
  List, [], ◌∷◌, ◌++◌, map, arith, ltb, leb, ◌==◌, if◌then◌else◌, ltb→lt, lt→ltb, leb→le, ==_iff,
  Bool-cases, Option-cases, nonzero, length, get_or, set, take, drop, replicate, length-append,
  length-take, length-drop, length-replicate, take-append, drop-append, All, length-map, All-append,
  All-append_left, All-append_right, length-set, get_or-set_self, get_or-set_ne, get_or-drop,
  drop-nil, drop-drop, Result, ◌>>=◌, ◌>>◌, fail_if, Result-cases, ok, err,
}
use freeway_pi.Base.Texts.{Text, same_text, same_text_refl, is_empty}
use freeway_pi.Auth.{
  not_configured, rate_limited, not_configured, rate_limited, Crypto, AuthError, Config,
  Authenticator, find, remove, expire_nonces, oldest, evict, challenge, is_live, consume_nonce,
  keep, first_pin, first_pin_for, set_pin, note_attempt, wrong_proof, with_key, with_nonce,
  with_proof, sign_in, verify, replace_pin, change_pin, Call, challenging, setting, verifying,
  changing, answer, step, run,
}
use freeway_pi.Auth.Nonces.Entries.{
  length-remove, has, has-remove, has-remove_other, has-expire_nonces, length-evict, has-evict,
  find-has,
}
use freeway_pi.Auth.Nonces.Tries.{is_tried, verify-nonces, change_pin-nonces, set_pin-nonces}

-- The call does not draw this challenge.
unfoldable pub Spares : Text → ℕ × Call → Type 0
Spares n (delay, challenging fresh salt) = same_text fresh n ≡ false
Spares n (delay, _) = Unit {0}

-- Each call keeps the bound, and brings back no challenge that is gone.
record Kept (before after : List (Text × ℕ)) (n : Text) : Type 0 where
  bounded : length before ≤ 256 → length after ≤ 256
  gone : has n before ≡ false → has n after ≡ false

Kept-same : (m : List (Text × ℕ)) (l : List (Text × ℕ)) (n : Text) → l ≡ m → Kept m l n
Kept-same m l n e = record { bounded = λ h. rw (e) h; gone = λ h. rw (e) h }

Kept-remove :
    (k : Text) (m : List (Text × ℕ)) (l : List (Text × ℕ)) (n : Text) → l ≡ remove k m → Kept m l n
Kept-remove k m l n e = record {
  bounded = λ h. rw (e) (omega (arith, length-remove k m, h));
  gone = λ h. rw (e) (has-remove_other n k m h);
}

Kept-either :
    (k : Text) (m l : List (Text × ℕ)) (n : Text) → (l ≡ m) ⊎ (l ≡ remove k m) → Kept m l n
Kept-either k m l n (inl e) = Kept-same m l n e
Kept-either k m l n (inr e) = Kept-remove k m l n e

untried :
    {a b : Authenticator} {m : List (Text × ℕ)} {P : Type 0}
    → (P × (b ≡ a)) ⊎ (b.nonces ≡ m)
    → (b.nonces ≡ a.nonces) ⊎ (b.nonces ≡ m)
untried (inl (_, same)) = inl (ap (λ (x : Authenticator). x.nonces) same)
untried (inr removed) = inr removed

challenge-Kept :
    (now : ℕ) (fresh salt n : Text) (a : Authenticator)
    → same_text fresh n ≡ false
    → Kept a.nonces (challenge now fresh salt a).1.nonces n
unfolding challenge has
challenge-Kept now fresh salt n a other =
    let left = expire_nonces now a.nonces in
    record {
      bounded = λ h. omega (
        arith,
        length-remove fresh (evict (length left) left),
        length-evict (length left) left (omega arith),
      );
      gone = λ h. rw (other) (
          has-remove_other n fresh _
            (has-evict n (length left) left (has-expire_nonces n now a.nonces h)));
    }

step-Kept :
    (c : Crypto) (save : Config → Bool) (n : Text) (delay now : ℕ) (call : Call) (a : Authenticator)
    → Spares n (delay, call)
    → Kept a.nonces (step c save now call a).1.nonces n
unfolding step answer Spares
step-Kept c save n delay now (challenging fresh salt) a other =
    challenge-Kept now fresh salt n a other
step-Kept c save n delay now (setting nonce proof fresh) a _ =
    Kept-either nonce _ _ n (set_pin-nonces c save now nonce proof fresh a)
step-Kept c save n delay now (verifying nonce proof) a _ =
    Kept-either nonce _ _ n (untried (verify-nonces c now nonce proof a))
step-Kept c save n delay now (changing nonce proof salt key fresh) a _ =
    Kept-either nonce _ _ n (untried (change_pin-nonces c save now nonce proof salt key fresh a))

run-gone :
    (c : Crypto) (save : Config → Bool) (n : Text) (now : ℕ) (calls : List (ℕ × Call))
    (a : Authenticator)
    → All (Spares n) calls
    → has n a.nonces ≡ false
    → has n (run c save now calls a).1.nonces ≡ false
unfolding run
run-gone c save n now [] a spare h = h
run-gone c save n now ((delay, call) ∷ calls) a (first, spare) h =
    run-gone c save n (now + delay) calls _ spare
      ((step-Kept c save n delay (now + delay) call a first).gone h)

-- A text that the call does not draw.
unfoldable other_text : Call → Text
other_text (challenging [] salt) = 0 ∷ []
other_text _ = []

other_text-Spares : (call : Call) → Spares (other_text call) (0, call)
unfolding Spares other_text same_text
other_text-Spares (challenging [] salt) = refl
other_text-Spares (challenging (x ∷ fresh) salt) = refl
other_text-Spares (setting _ _ _) = tt
other_text-Spares (verifying _ _) = tt
other_text-Spares (changing _ _ _ _ _) = tt

step_bounded :
    (c : Crypto) (save : Config → Bool) (now : ℕ) (call : Call) (a : Authenticator)
    → length a.nonces ≤ 256
    → length (step c save now call a).1.nonces ≤ 256
step_bounded c save now call a h =
    (step-Kept c save (other_text call) 0 now call a (other_text-Spares call)).bounded h

tried_gone :
    (c : Crypto) (now : ℕ) (nonce proof : Text) (a : Authenticator)
    → is_tried (verify c now nonce proof a).0 ≡ true
    → has nonce (verify c now nonce proof a).1.nonces ≡ false
tried_gone c now nonce proof a tried = elim (verify-nonces c now nonce proof a) [
  | inl (untried_yet, _) ↦ absurd cc
  | inr removed ↦ rw (removed) (has-remove nonce a.nonces)
]

-- Whatever calls come, however fast, there are at most 256 challenges outstanding afterwards,
-- when there were at most 256 before.
pub run_bounded :
    (c : Crypto) (save : Config → Bool) (now : ℕ) (calls : List (ℕ × Call)) (a : Authenticator)
    → length a.nonces ≤ 256
    → length (run c save now calls a).1.nonces ≤ 256
unfolding run
run_bounded c save now [] a h = h
run_bounded c save now ((delay, call) ∷ calls) a h =
    run_bounded c save (now + delay) calls _ (step_bounded c save (now + delay) call a h)

-- A try with a challenge that is not outstanding never succeeds.
with_proof_gone {ℓ} :
    {A : Type ℓ} (c : Crypto) (now : ℕ) (nonce proof : Text)
    (proved : Authenticator → Result AuthError A × Authenticator) (a : Authenticator) (x : A)
    → has nonce a.nonces ≡ false
    → (with_proof c now nonce proof proved a).0 ≢ ok x
unfolding with_proof with_nonce consume_nonce note_attempt is_live
with_proof_gone c now nonce proof proved a x h =
    let missing : find nonce a.nonces ≡ none = find-has nonce a.nonces h in
    elim (Bool-cases (is_empty a.config.verifier)) [
      | inl unset ↦ rw (unset) (λ e. absurd cc)
      | inr set ↦ elim (Bool-cases (ltb now a.lock_until)) [
        | inl locked ↦ rw (set, locked) (λ e. absurd cc)
        | inr free ↦ rw (set, free, missing) (λ e. absurd cc)
      ]
    ]

-- A login that was tried with a challenge, whether it was let in or not, and not only put off, uses
-- the challenge up: after any further calls that do not draw the same challenge again, no login and
-- no change of the PIN with it succeeds, whatever its proof.
pub verify_once :
    (c : Crypto) (save : Config → Bool) (now later : ℕ) (nonce proof again salt key fresh : Text)
    (calls : List (ℕ × Call)) (a : Authenticator) (token : Text)
    → is_tried (verify c now nonce proof a).0 ≡ true
    → All (Spares nonce) calls
    → let b = (run c save now calls (verify c now nonce proof a).1).1 in
      ((verify c later nonce again b).0 ≢ ok token)
      × ((change_pin c save later nonce again salt key fresh b).0 ≢ ok token)
unfolding verify change_pin
verify_once c save now later nonce proof again salt key fresh calls a token tried spare =
    let spent = run-gone c save nonce now calls _ spare (tried_gone c now nonce proof a tried) in
    (
      with_proof_gone c later nonce again (sign_in c later) _ token spent,
      with_proof_gone c later nonce again (replace_pin c save later salt fresh (c.decode key)) _
          token spent,
    )
