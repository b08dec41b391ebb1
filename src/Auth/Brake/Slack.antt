-- ===== src/Auth/Brake/Slack.antt =====
-- What is still allowed to a guesser, in time, before the brake is fully on.
use freeway_pi.Base.{
  ℕ, zero, suc, ◌+◌, ◌-◌, ◌*◌, ◌≤◌, ◌<◌, ◌≡◌, refl, sym, ap, subst, ◌∙◌, inl, inr, arith, ltb,
  Bool-cases,
}
use freeway_pi.Auth.{second, wait_after}

-- What is still allowed to a guesser before the brake is fully on, in time.
unfoldable pub slack_left : ℕ → ℕ
slack_left zero = 0
slack_left (suc d) = slack_left d + (60 * second - wait_after (16 - d))

unfoldable pub slack : ℕ → ℕ
slack attempts = slack_left (16 - attempts)

slack_left_mono : (d k : ℕ) → slack_left d ≤ slack_left (k + d)
unfolding slack_left
slack_left_mono d zero = let e : 0 + d ≡ d = omega arith in rw (e) (omega arith)
slack_left_mono d (suc k) =
    let e : suc k + d ≡ suc (k + d) = omega arith in rw (e) (omega (arith, slack_left_mono d k))

slack_left-16 : slack_left 16 ≡ 570 * second
unfolding slack_left wait_after
slack_left-16 = refl

pub slack-bound : (a : ℕ) → slack a ≤ 570 * second
unfolding slack
slack-bound a =
    let e : 16 - (16 - a) + (16 - a) ≡ 16 = omega arith in
    let all : slack_left 16 ≡ 570 * second = slack_left-16 in
    subst (λ (d : ℕ). slack_left (16 - a) ≤ d) (ap slack_left e ∙ all)
      (slack_left_mono (16 - a) (16 - (16 - a)))

pub wait_after-small : (a : ℕ) → a < 5 → wait_after a ≡ 0
unfolding wait_after
wait_after-small a h = omega arith

pub wait_after-bound : (a : ℕ) → wait_after a ≤ 60 * second
unfolding wait_after
wait_after-bound a = omega arith

wait_after-full : (a : ℕ) → 16 ≤ a → wait_after a ≡ 60 * second
unfolding wait_after
wait_after-full a h = omega arith

slack_left-suc :
    (d a : ℕ) → 16 - d ≡ a → slack_left (suc d) + wait_after a ≡ slack_left d + 60 * second
unfolding slack_left
slack_left-suc d a e = rw (e) (omega (arith, wait_after-bound a))

pub slack-suc : (a : ℕ) → slack (suc a) + 60 * second ≡ slack a + wait_after (suc a)
unfolding slack
slack-suc a = elim (Bool-cases (ltb a 16)) [
  | inl below ↦
      let here : 16 - a ≡ suc (16 - suc a) = ground arith in
      let back : 16 - (16 - suc a) ≡ suc a = ground arith in
      rw (here) (sym (slack_left-suc (16 - suc a) (suc a) back))
  | inr above ↦
      let here : 16 - a ≡ 0 = ground arith in
      let next : 16 - suc a ≡ 0 = ground arith in
      rw (here, next, wait_after-full (suc a) (ground arith)) refl
]
