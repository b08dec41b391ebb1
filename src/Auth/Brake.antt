-- ===== src/Auth/Brake.antt =====
-- The brake on guessing: how long it can hold up the owner, and how slow it makes a guesser.
pub mod Slack
pub mod Attempts
pub mod Tries
use freeway_pi.Base.{
  ℕ, zero, suc, ◌+◌, ◌-◌, ◌*◌, ◌/◌, ◌%◌, ◌^◌, ◌≤◌, ◌<◌, min, max, ◌≡◌, refl, sym, ap, ap₂, subst,
  ◌∙◌, fun_ext, ◌≢◌, ◌↔◌, ◌⊎◌, inl, inr, Bool, true, false, not, ◌&&◌, ◌||◌, Option, none, some,
  List, [], ◌∷◌, ◌++◌, map, arith, ltb, leb, ◌==◌, if◌then◌else◌, ltb→lt, lt→ltb, leb→le, ==_iff,
  Bool-cases, Option-cases, nonzero, length, get_or, set, take, drop, replicate, length-append,
  length-take, length-drop, length-replicate, take-append, drop-append, All, length-map, All-append,
  All-append_left, All-append_right, length-set, get_or-set_self, get_or-set_ne, get_or-drop,
  drop-nil, drop-drop, Result, ◌>>=◌, ◌>>◌, fail_if, Result-cases, ok, err,
}
use freeway_pi.Base.Texts.{Text, is_empty}
use freeway_pi.Auth.{
  first_pin, first_pin_for, set_pin, keep, opened, Answer, Call, challenging, setting, verifying,
  changing, step, answer, run, verify, change_pin, challenge, find, proves, second, Crypto,
  AuthError, bad_proof, save_failed, Config, Authenticator, is_live, consume_nonce, keep,
  note_attempt, wait_after, wrong_proof, with_key, with_nonce, with_proof, sign_in, has_key_size,
  replace_pin,
}
use freeway_pi.Auth.Brake.Attempts.{
  SameBrake, Steady, Paid, Paid-note, Paid-wrong, Steady-same, Paid-same, Steady-later, Steady-note,
  Steady-wrong,
}
use freeway_pi.Auth.Brake.Tries.{
  is_through, is_wrong, Tried, sign_in-Meek, replace_pin-Meek, with_proof-Tried, set_pin-SameBrake,
}

record Braked (start n now : ℕ) (a : Authenticator) : Type 0 where
  begun : start ≤ now
  steady : Steady now a
  paid : Paid start n a

Braked-later :
    (start n now later : ℕ) (a : Authenticator)
    → now ≤ later
    → Braked start n now a
    → Braked start n later a
Braked-later start n now later a h s = record {
  begun = omega (arith, s.begun);
  steady = Steady-later now later a h s.steady;
  paid = s.paid;
}

Braked-same :
    (start n now : ℕ) (a b : Authenticator)
    → SameBrake a b
    → Braked start n now a
    → Braked start n now b
Braked-same start n now a b same s = record {
  begun = s.begun;
  steady = Steady-same now a b same s.steady;
  paid = Paid-same start n a b same s.paid;
}

Braked-note :
    (start n now : ℕ) (a : Authenticator)
    → a.lock_until ≤ now
    → Braked start n now a
    → Braked start n now (note_attempt now a)
Braked-note start n now a free s = record {
  begun = s.begun;
  steady = Steady-note now a free;
  paid = Paid-note start n now a s.begun s.steady s.paid;
}

Braked-wrong :
    (start n now : ℕ) (a : Authenticator)
    → a.lock_until ≤ now
    → Braked start n now a
    → Braked start (suc n) now (wrong_proof now (note_attempt now a))
unfolding note_attempt
Braked-wrong start n now a free s = record {
  begun = s.begun;
  steady = Steady-wrong now (note_attempt now a) free refl;
  paid =
      Paid-wrong start n now (note_attempt now a) s.begun free refl
        (Braked-note start n now a free s).paid;
}

-- The answers that say that a proof is wrong.
unfoldable pub wrong : Answer → ℕ
wrong (opened r) = if is_wrong r then 1 else 0
wrong _ = 0

unfoldable pub wrong_answers : List Answer → ℕ
wrong_answers [] = 0
wrong_answers (x ∷ xs) = wrong x + wrong_answers xs

-- The answer is not that of a call which proved the PIN.
unfoldable pub Withstood : Answer → Type 0
Withstood (opened r) = is_through r ≡ false
Withstood _ = Unit {0}

recount :
    (start n m now : ℕ) (a : Authenticator) → n ≡ m → Braked start n now a → Braked start m now a
recount start n m now a e s = subst (λ (k : ℕ). Braked start k now a) e s

uncounted :
    (start n now : ℕ) (a : Authenticator) → Braked start n now a → Braked start (0 + n) now a
uncounted start n now a s = recount start n (0 + n) now a (omega arith) s

pub challenge-SameBrake :
    (now : ℕ) (fresh salt : Text) (a : Authenticator) → SameBrake a (challenge now fresh salt a).1
unfolding challenge
challenge-SameBrake now fresh salt a = (refl, refl, refl)

verify-Tried :
    (c : Crypto) (now : ℕ) (nonce proof : Text) (a : Authenticator)
    → Tried now a (verify c now nonce proof a)
unfolding verify
verify-Tried c now nonce proof a = with_proof-Tried c now nonce proof _ (sign_in-Meek c now) a

change_pin-Tried :
    (c : Crypto) (save : Config → Bool) (now : ℕ) (nonce proof salt key fresh : Text)
    (a : Authenticator)
    → Tried now a (change_pin c save now nonce proof salt key fresh a)
unfolding change_pin
change_pin-Tried c save now nonce proof salt key fresh a =
    with_proof-Tried c now nonce proof _ (replace_pin-Meek c save now salt fresh (c.decode key)) a

Tried-Braked :
    (start n now : ℕ) (a : Authenticator) (r : Result AuthError Text × Authenticator)
    → is_through r.0 ≡ false
    → Braked start n now a
    → Tried now a r
    → Braked start (wrong (opened r.0) + n) now r.1
unfolding wrong
Tried-Braked start n now a r shut s (inl through) = absurd cc
Tried-Braked start n now a r shut s (inr (inl (quiet, same))) =
    rw (quiet) (recount start n _ now _ (omega arith) (Braked-same start n now a r.1 same s))
Tried-Braked start n now a r shut s (inr (inr (inl (quiet, free, same)))) = rw (quiet) (
    recount start n _ now _ (omega arith)
      (Braked-same start n now _ r.1 same (Braked-note start n now a free s)))
Tried-Braked start n now a r shut s (inr (inr (inr (bad, free, same)))) = rw (bad) (
    recount start (suc n) _ now _ (omega arith)
      (Braked-same start (suc n) now _ r.1 same (Braked-wrong start n now a free s)))

step-Braked :
    (c : Crypto) (save : Config → Bool) (start n now : ℕ) (call : Call) (a : Authenticator)
    → Withstood (step c save now call a).0
    → Braked start n now a
    → Braked start (wrong (step c save now call a).0 + n) now (step c save now call a).1
unfolding step answer Withstood wrong
step-Braked c save start n now (challenging fresh salt) a h s =
    uncounted start n now _ (Braked-same start n now a _ (challenge-SameBrake now fresh salt a) s)
step-Braked c save start n now (setting nonce proof fresh) a h s =
    uncounted start n now _
      (Braked-same start n now a _ (set_pin-SameBrake c save now nonce proof fresh a) s)
step-Braked c save start n now (verifying nonce proof) a h s =
    Tried-Braked start n now a (verify c now nonce proof a) h s (verify-Tried c now nonce proof a)
step-Braked c save start n now (changing nonce proof salt key fresh) a h s =
    Tried-Braked start n now a (change_pin c save now nonce proof salt key fresh a) h s
      (change_pin-Tried c save now nonce proof salt key fresh a)

unfoldable pub elapsed : List (ℕ × Call) → ℕ
elapsed [] = 0
elapsed ((delay, call) ∷ calls) = delay + elapsed calls

Braked-at :
    (start : ℕ) {n m now later : ℕ} {a : Authenticator}
    → Braked start n now a
    → n ≡ m
    → now ≡ later
    → Braked start m later a
Braked-at start s count time = rw (sym count, sym time) s

run-Braked :
    (c : Crypto) (save : Config → Bool) (start now n : ℕ) (calls : List (ℕ × Call))
    (a : Authenticator)
    → All Withstood (run c save now calls a).0
    → Braked start n now a
    → Braked start
        (wrong_answers (run c save now calls a).0 + n)
        (now + elapsed calls)
        (run c save now calls a).1
unfolding run wrong_answers elapsed
run-Braked c save start now n [] a h s =
    Braked-later start _ now _ a (omega arith) (recount start n _ now a (omega arith) s)
run-Braked c save start now n ((delay, call) ∷ calls) a (first, more) s =
    let here =
      step-Braked c save start n (now + delay) call a first
        (Braked-later start n now (now + delay) a (omega arith) s) in
    let there = run-Braked c save start (now + delay) _ calls _ more here in
    Braked-at start there (omega arith) (omega arith)

guesses-bound :
    (start n spent : ℕ) (a : Authenticator)
    → Braked start (n + 0) (start + spent) a
    → n * (60 * second) ≤ 630 * second + spent
guesses-bound start n spent a s = ground (arith, s.steady.past, s.steady.short, s.paid.price)

-- While nobody proves the PIN, in any run of calls from a brake that is off, the wrong guesses that
-- are answered as such are at most ten and a half and one for each minute that has passed: ten
-- thousand guesses take more than six days.
pub run-wrong_answers :
    (c : Crypto) (save : Config → Bool) (now : ℕ) (calls : List (ℕ × Call)) (a : Authenticator)
    → Steady now a
    → All Withstood (run c save now calls a).0
    → wrong_answers (run c save now calls a).0 * (60 * second) ≤ 630 * second + elapsed calls
run-wrong_answers c save now calls a steady h =
    let end = run-Braked c save now now 0 calls a h (record {
      begun = omega arith;
      steady = steady;
      paid = record { since = inl refl; price = inl refl };
    }) in
    guesses-bound now _ (elapsed calls) _ end
