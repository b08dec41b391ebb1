-- ===== src/Net/Routes/Best.antt =====
-- Which device is picked, and that a box with connections shows one.
use freeway_pi.Base.{
  ◌-◌, ◌^◌, ◌≡◌, refl, sym, ap, ◌∙◌, ◌⊎◌, inl, inr, true, false, some, List, [], ◌∷◌, ◌++◌, arith,
  Bool-cases, Option-cases, All,
}
use freeway_pi.Base.Ints.{ℤ, pos, negsuc}
use freeway_pi.Base.Texts.{Text}
use freeway_pi.Net.Routes.{below, route_of, better, pick_loop, pick_default_device}

-- A line that is no route, or one with a greater metric.
unfoldable pub Worse : ℤ → Text → Type 0
Worse m line = (r : Text × ℤ) → route_of line ≡ some r → below m r.1 ≡ true

-- A line that is no route, or one with no lesser metric.
unfoldable pub NoBetter : ℤ → Text → Type 0
NoBetter m line = (r : Text × ℤ) → route_of line ≡ some r → below r.1 m ≡ false

-- The device of the first line with the least metric, and the lines before it and after.
pub record Picked (lines : List Text) (bound : ℤ) (dev : Text) : Type 0 where
  pub before : List Text
  pub line : Text
  pub after : List Text
  pub metric : ℤ
  pub split : lines ≡ before ++ (line ∷ after)
  pub route : route_of line ≡ some (dev, metric)
  pub bounded : below metric bound ≡ true
  pub first : All (Worse metric) before
  pub least : All (NoBetter metric) after

below_trans : (a b c : ℤ) → below a b ≡ true → below b c ≡ true → below a c ≡ true
unfolding below
below_trans (pos a) (pos b) (pos c) h g = ground arith
below_trans (pos a) (pos b) (negsuc c) h g = absurd cc
below_trans (pos a) (negsuc b) c h g = absurd cc
below_trans (negsuc a) (pos b) (pos c) h g = refl
below_trans (negsuc a) (pos b) (negsuc c) h g = absurd cc
below_trans (negsuc a) (negsuc b) (pos c) h g = refl
below_trans (negsuc a) (negsuc b) (negsuc c) h g = ground arith

below_not : (a b c : ℤ) → below a b ≡ true → below c b ≡ false → below a c ≡ true
unfolding below
below_not (pos a) (pos b) (pos c) h g = ground arith
below_not (pos a) (pos b) (negsuc c) h g = absurd cc
below_not (pos a) (negsuc b) c h g = absurd cc
below_not (negsuc a) (pos b) (pos c) h g = refl
below_not (negsuc a) (pos b) (negsuc c) h g = absurd cc
below_not (negsuc a) (negsuc b) (pos c) h g = refl
below_not (negsuc a) (negsuc b) (negsuc c) h g = ground arith

Choice : List Text → Text → ℤ → Text → Type 0
Choice lines best bound dev = ((dev ≡ best) × All (NoBetter bound) lines) ⊎ Picked lines bound dev

-- One line more in front.
module _ (line : Text) (lines : List Text) (best : Text) (bound : ℤ) (dev : Text) where
  stays : NoBetter bound line → Choice lines best bound dev → Choice (line ∷ lines) best bound dev
  unfolding Choice NoBetter Worse
  stays here (inl (same, rest)) = inl (same, (here, rest))
  stays here (inr p) = inr (record {
    before = line ∷ p.before;
    line = p.line;
    after = p.after;
    metric = p.metric;
    split = ap (◌∷◌ line) p.split;
    route = p.route;
    bounded = p.bounded;
    first = ((λ r e. below_not p.metric bound r.1 p.bounded (here r e)), p.first);
    least = p.least;
  })

  taken :
      (d : Text) (m : ℤ)
      → route_of line ≡ some (d, m)
      → below m bound ≡ true
      → Choice lines d m dev
      → Choice (line ∷ lines) best bound dev
  unfolding Choice NoBetter Worse
  taken d m here lower (inl (same, rest)) = inr (record {
    before = [];
    line = line;
    after = lines;
    metric = m;
    split = refl;
    route = here ∙ ap (λ (x : Text). some (x, m)) (sym same);
    bounded = lower;
    first = tt;
    least = rest;
  })
  taken d m here lower (inr p) = inr (record {
    before = line ∷ p.before;
    line = p.line;
    after = p.after;
    metric = p.metric;
    split = ap (◌∷◌ line) p.split;
    route = p.route;
    bounded = below_trans p.metric m bound p.bounded lower;
    first = ((λ r e. let same : m ≡ r.1 = cc in rw (← same) p.bounded), p.first);
    least = p.least;
  })

pick_loop-Choice :
    (lines : List Text) (best : Text) (bound : ℤ)
    → Choice lines best bound (pick_loop lines (best, bound))
unfolding pick_loop better
pick_loop-Choice [] best bound = unfold Choice in inl (refl, tt)
pick_loop-Choice (line ∷ lines) best bound =
    let kept = pick_loop-Choice lines best bound in
    let chosen = λ (d : Text) (m : ℤ). pick_loop-Choice lines d m in
    elim (Option-cases (route_of line)) [
      | inl no_route ↦
          rw (no_route) (stays line lines best bound _ (unfold NoBetter in λ r e. absurd cc) kept)
      | inr ((d, m), route) ↦ elim (Bool-cases (below m bound)) [
        | inl lower ↦ rw (route, lower) (taken line lines best bound _ d m route lower (chosen d m))
        | inr higher ↦
            rw (route, higher)
              (stays line lines best bound _
                (unfold NoBetter in λ r e. let same : m ≡ r.1 = cc in rw (← same) higher) kept)
      ]
    ]

-- Of the lines that are default routes by a named device, the device picked is that of the first
-- one with the least metric; where there is none with a metric below 2^63 - 1, none is picked.
pick_default_device-Picked :
    (lines : List Text)
    → ((pick_default_device lines ≡ []) × All (NoBetter (pos (2 ^ 63 - 1))) lines)
      ⊎ Picked lines (pos (2 ^ 63 - 1)) (pick_default_device lines)
unfolding pick_default_device Choice
pick_default_device-Picked lines = pick_loop-Choice lines [] (pos (2 ^ 63 - 1))
