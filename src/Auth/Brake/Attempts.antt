-- ===== src/Auth/Brake/Attempts.antt =====
-- What one attempt, and one wrong answer, do to the brake.
use freeway_pi.Base.{ℕ, suc, ◌+◌, ◌*◌, ◌≤◌, max, ◌≡◌, sym, ◌⊎◌, inl, inr, arith}
use freeway_pi.Auth.{second, Authenticator, note_attempt, wrong_proof}
use freeway_pi.Auth.Brake.Slack.{slack, slack-bound, wait_after-small, wait_after-bound, slack-suc}

abbrev pub SameBrake : Authenticator → Authenticator → Type 0
SameBrake a b =
    (a.attempts ≡ b.attempts) × (a.lock_until ≡ b.lock_until) × (a.last_attempt ≡ b.last_attempt)

-- The brake never holds longer than a minute past the last attempt.
pub record Steady (now : ℕ) (a : Authenticator) : Type 0 where
  pub past : a.last_attempt ≤ now
  pub short : a.lock_until ≤ a.last_attempt + 60 * second

-- How much time `n` wrong answers since `start` have taken.
pub record Paid (start n : ℕ) (a : Authenticator) : Type 0 where
  pub since : (n ≡ 0) ⊎ (start ≤ a.last_attempt)
  pub price :
      (n ≡ 0)
      ⊎ (n * (60 * second) + slack a.attempts + start
          ≤ 570 * second + max a.lock_until a.last_attempt)

pub Paid-note :
    (start n now : ℕ) (a : Authenticator)
    → start ≤ now
    → Steady now a
    → Paid start n a
    → Paid start n (note_attempt now a)
unfolding note_attempt
Paid-note start n now a h s p = elim p.price [
  | inl none_yet ↦ record { since = inl none_yet; price = inl none_yet }
  | inr paid ↦ record {
    since = ground (arith, p.since, s.past);
    price = inr (ground (arith, p.since, s.past, s.short, slack-bound a.attempts, slack-bound 0));
  }
]

pub Paid-wrong :
    (start n now : ℕ) (a : Authenticator)
    → start ≤ now
    → a.lock_until ≤ now
    → a.last_attempt ≡ now
    → Paid start n a
    → Paid start (suc n) (wrong_proof now a)
unfolding wrong_proof
Paid-wrong start n now a h free noted p =
    let more = slack-suc a.attempts in
    let wait = wait_after-small (suc a.attempts) in
    record {
      since = inr (omega arith);
      price = inr (ground (arith, more, wait, p.price, slack-bound a.attempts));
    }

pub Steady-same : (now : ℕ) (a b : Authenticator) → SameBrake a b → Steady now a → Steady now b
Steady-same now a b (_, lock, last) s = record {
  past = omega (arith, s.past);
  short = omega (arith, s.short);
}

pub Paid-same :
    (start n : ℕ) (a b : Authenticator) → SameBrake a b → Paid start n a → Paid start n b
Paid-same start n a b (count, lock, last) p = record {
  since = rw (sym last) p.since;
  price = rw (sym lock, sym last, sym count) p.price;
}

pub Steady-later : (now later : ℕ) (a : Authenticator) → now ≤ later → Steady now a → Steady later a
Steady-later now later a h s = record { past = omega (arith, s.past); short = s.short }

pub Steady-note :
    (now : ℕ) (a : Authenticator) → a.lock_until ≤ now → Steady now (note_attempt now a)
unfolding note_attempt
Steady-note now a free = record { past = omega arith; short = omega arith }

pub Steady-wrong :
    (now : ℕ) (a : Authenticator)
    → a.lock_until ≤ now
    → a.last_attempt ≡ now
    → Steady now (wrong_proof now a)
unfolding wrong_proof
Steady-wrong now a free noted = record {
  past = omega arith;
  short = ground (arith, wait_after-bound (suc a.attempts));
}
