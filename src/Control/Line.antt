-- ===== src/Control/Line.antt =====
-- When the line is called unstable, told by the history of the looks at it.
pub mod Looks
use freeway_pi.Base.{
  ℕ, zero, suc, ◌+◌, ◌-◌, ◌*◌, ◌/◌, ◌%◌, ◌^◌, ◌≤◌, ◌<◌, min, max, ◌≡◌, refl, sym, ap, ap₂, subst,
  ◌∙◌, fun_ext, ◌≢◌, ◌↔◌, ◌⊎◌, inl, inr, Bool, true, false, not, ◌&&◌, ◌||◌, Option, none, some,
  List, [], ◌∷◌, ◌++◌, map, arith, ltb, leb, ◌==◌, if◌then◌else◌, ltb→lt, lt→ltb, leb→le, ==_iff,
  Bool-cases, Option-cases, nonzero, length, get_or, set, take, drop, replicate, length-append,
  length-take, length-drop, length-replicate, take-append, drop-append, All, length-map, All-append,
  All-append_left, All-append_right, length-set, get_or-set_self, get_or-set_ne, get_or-drop,
  drop-nil, drop-drop, Result, ◌>>=◌, ◌>>◌, fail_if, Result-cases, ok, err,
}
use freeway_pi.Control.{enough_samples, is_bad, is_healthy, Steadiness, past_mark, unstable_at}
use freeway_pi.Control.Line.Looks.{
  Look, is_judged, finds_bad, finds_healthy, after_looks, Over, Fell, Ordered, Finds, Branch,
  branch, Over-bound,
}

-- What is remembered says what the history says.
record Tells (after : ℕ) (h : List Look) (s : Steadiness) : Type 0 where
  since : (s.over_since ≡ 0) ⊎ Over s.over_since h
  over : (t : ℕ) → Over t h → (0 < s.over_since) × (s.over_since ≤ t)
  fell : s.degraded ≡ true → Fell after h
  remembered : Fell after h → s.degraded ≡ true

Over-earlier : (t : ℕ) (l : Look) (h : List Look) → finds_bad l ≡ false → Over t (l ∷ h) → Over t h
unfolding Over
Over-earlier t l h quiet (inl (past, _)) = absurd cc
Over-earlier t l h quiet (inr (_, over)) = over

Over-interrupted :
    (t : ℕ) (l : Look) (h : List Look)
    → is_judged l ≡ true
    → finds_bad l ≡ false
    → Over t (l ∷ h)
    → ⊥
unfolding Over
Over-interrupted t l h judged quiet (inl (past, _)) = absurd cc
Over-interrupted t l h judged quiet (inr (going_on, _)) =
    absurd (false_true (rw (judged, quiet) at going_on))
  where
    false_true : false ≡ true → ⊥
    false_true e = absurd cc

Fell-earlier :
    (after : ℕ) (l : Look) (h : List Look)
    → finds_bad l ≡ false
    → Fell after (l ∷ h)
    → (finds_healthy l ≡ false) × Fell after h
unfolding Fell
Fell-earlier after l h quiet (inl (_, past, _, _)) = absurd cc
Fell-earlier after l h quiet (inr later) = later

Tells-unjudged :
    (after : ℕ) (l : Look) (h : List Look) (s : Steadiness)
    → is_judged l ≡ false
    → finds_bad l ≡ false
    → finds_healthy l ≡ false
    → Tells after h s
    → Tells after (l ∷ h) s
unfolding Over Fell
Tells-unjudged after l h s a b c k = record {
  since = elim k.since [ inl none_yet ↦ inl none_yet | inr over ↦ inr (inr (rw (a) refl, over)) ];
  over = λ t h_over. k.over t (Over-earlier t l h b h_over);
  fell = λ d. inr (c, k.fell d);
  remembered = λ fell. k.remembered (Fell-earlier after l h b fell).1;
}

Tells-low :
    (after : ℕ) (l : Look) (h : List Look) (s : Steadiness)
    → is_judged l ≡ true
    → finds_bad l ≡ false
    → finds_healthy l ≡ false
    → Tells after h s
    → Tells after (l ∷ h) (record s { over_since = 0 })
unfolding Fell
Tells-low after l h s a b c k = record {
  since = inl refl;
  over = λ t over. absurd (Over-interrupted t l h a b over);
  fell = λ d. inr (c, k.fell d);
  remembered = λ fell. k.remembered (Fell-earlier after l h b fell).1;
}

Tells-well :
    (after : ℕ) (l : Look) (h : List Look) (s : Steadiness)
    → is_judged l ≡ true
    → finds_bad l ≡ false
    → finds_healthy l ≡ true
    → Tells after (l ∷ h) (record { degraded = false; over_since = 0 })
Tells-well after l h s a b c = record {
  since = inl refl;
  over = λ t over. absurd (Over-interrupted t l h a b over);
  fell = λ d. absurd cc;
  remembered = λ fell. absurd (true-false (sym c ∙ (Fell-earlier after l h b fell).0));
}
  where
    true-false : true ≡ false → ⊥
    true-false e = absurd cc

or_true : (x : Bool) → (x || true) ≡ true
or_true true = refl
or_true false = refl

-- A look past the mark: since when, and whether that is long enough.
module _ (after bound : ℕ) (l : Look) (h : List Look) (s : Steadiness) where
  since_now : (s.over_since == 0) ≡ true → (past_mark l.at after s).over_since ≡ l.at
  unfolding past_mark
  since_now e = rw (e) refl

  since_before : (s.over_since == 0) ≡ false → (past_mark l.at after s).over_since ≡ s.over_since
  unfolding past_mark
  since_before e = rw (e) refl

  past_since :
      finds_bad l ≡ true → Tells after h s → Over (past_mark l.at after s).over_since (l ∷ h)
  unfolding Over
  past_since b k = elim (Bool-cases (s.over_since == 0)) [
    | inl none_yet ↦ inl (b, sym (since_now none_yet))
    | inr running ↦ elim k.since [
      | inl none_yet ↦ absurd (ground arith)
      | inr over ↦ inr (
        rw (b) (or_true (not (is_judged l))),
        subst (λ t. Over t h) (sym (since_before running)) over,
      )
    ]
  ]

  past-Over :
      finds_bad l ≡ true
      → Ordered bound (l ∷ h)
      → Tells after h s
      → (t : ℕ) → Over t (l ∷ h)
      → (0 < (past_mark l.at after s).over_since) × ((past_mark l.at after s).over_since ≤ t)
  unfolding past_mark Over Ordered
  past-Over b ordered k t (inl (_, here)) = elim k.since [
    | inl none_yet ↦ rw (none_yet) (omega (arith, ordered.0), omega arith)
    | inr over ↦
        let early = Over-bound h l.at s.over_since ordered.2 over in
        (ground (arith, early.0, ordered.0), ground (arith, early.1))
  ]
  past-Over b ordered k t (inr (_, over)) =
      let early = k.over t over in (ground (arith, early.0), ground (arith, early.0, early.1))

  long_enough :
      s.degraded ≡ false
      → (past_mark l.at after s).degraded ≡ true
      → (past_mark l.at after s).over_since + after ≤ l.at
  unfolding past_mark
  long_enough not_yet d =
      enough (if s.over_since == 0 then l.at else s.over_since) (rw (not_yet) at d)
    where
      enough : (t : ℕ) → (leb t l.at && leb after (l.at - t)) ≡ true → t + after ≤ l.at
      enough t e = ground arith

  past-Fell :
      finds_bad l ≡ true
      → finds_healthy l ≡ false
      → Ordered bound (l ∷ h)
      → Tells after h s
      → (past_mark l.at after s).degraded ≡ true
      → Fell after (l ∷ h)
  unfolding past_mark Fell
  past-Fell b c ordered k d = elim (Bool-cases s.degraded) [
    | inl already ↦ inr (c, k.fell already)
    | inr not_yet ↦
        inl ((past_mark l.at after s).over_since, b, past_since b k, long_enough not_yet d)
  ]

  past_remembered :
      finds_bad l ≡ true
      → Ordered bound (l ∷ h)
      → Tells after h s
      → Fell after (l ∷ h)
      → (past_mark l.at after s).degraded ≡ true
  unfolding past_mark Fell
  past_remembered b ordered k (inr (_, fell)) = rw (k.remembered fell) refl
  past_remembered b ordered k (inl (t, _, over, long)) =
      let early = past-Over b ordered k t over in
      let so_long : (leb (past_mark l.at after s).over_since l.at
            && leb after (l.at - (past_mark l.at after s).over_since))
          ≡ true =
        ground (arith, early.1) in
      rw (so_long) (or_true s.degraded)

  Tells-past :
      finds_bad l ≡ true
      → finds_healthy l ≡ false
      → Ordered bound (l ∷ h)
      → Tells after h s
      → Tells after (l ∷ h) (past_mark l.at after s)
  Tells-past b c ordered k = record {
    since = inr (past_since b k);
    over = past-Over b ordered k;
    fell = past-Fell b c ordered k;
    remembered = past_remembered b ordered k;
  }

after_looks-Tells :
    (after bound : ℕ) (h : List Look) → Ordered bound h → Tells after h (after_looks after h)
unfolding after_looks Ordered Branch Finds Over Fell
after_looks-Tells after bound [] ordered = record {
  since = inl refl;
  over = λ t over. absurd over;
  fell = λ d. absurd cc;
  remembered = λ fell. absurd fell;
}
after_looks-Tells after bound (l ∷ h) ordered =
    let before = after_looks-Tells after l.at h ordered.2 in
    elim (branch after l (after_looks after h)) [
      | inl (a, b, c, e) ↦ rw (e) (Tells-unjudged after l h _ a b c before)
      | inr (inl (a, b, c, e)) ↦ rw (e) (Tells-past after bound l h _ b c ordered before)
      | inr (inr (inl (a, b, c, e))) ↦ rw (e) (Tells-well after l h (after_looks after h) a b c)
      | inr (inr (inr (a, b, c, e))) ↦ rw (e) (Tells-low after l h _ a b c before)
    ]

-- From a line that was well, and with a clock that does not go back: the line is called unstable
-- exactly when at some look the rate had been past the mark for the time that it must, with every
-- look in between that could judge it past the mark too, and no look since then found it low enough.
pub after_looks-Fell :
    (after bound : ℕ) (h : List Look)
    → Ordered bound h
    → ((after_looks after h).degraded ≡ true) ↔ Fell after h
after_looks-Fell after bound h ordered =
    let told = after_looks-Tells after bound h ordered in (told.fell, told.remembered)
