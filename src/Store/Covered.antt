-- ===== src/Store/Covered.antt =====
-- What housekeeping keeps of a row: its bucket in the next tier.
use freeway_pi.Base.{
  ℕ, ◌+◌, ◌*◌, ◌/◌, ◌≤◌, ◌<◌, ◌≡◌, refl, sym, ap, ◌∙◌, ◌⊎◌, inl, inr, true, false, ◌&&◌, List, [],
  ◌∷◌, map, arith, ltb, leb, ◌==◌, Bool-cases, All,
}
use native.Mathlib.Nat.{mul-div_cancel}
use freeway_pi.Store.{
  prune_tier, prune_all, prune, Tier, tier_0, tier_1, tier_2, tier_3, truncate, Numbers, Row,
  has_key, select_rows, group, aggregate, newest, rollup_into,
}
use freeway_pi.Store.Rows.{
  In, Holds, Good, Holds-upsert_new, In-select_rows, In-group, least_of-In, greatest_of-In,
}

-- The tiers that are filled from each other.
pub data Follows : Tier → Tier → Type 0 where
  minutes : Follows tier_0 tier_1
  quarters : Follows tier_1 tier_2
  hours : Follows tier_2 tier_3

Follows-bucket : (from to : Tier) → Follows from to → 0 < to.bucket
Follows-bucket from to minutes = omega arith
Follows-bucket from to quarters = omega arith
Follows-bucket from to hours = omega arith

-- The tier's row is past no retention: that of another tier, or its own.
abbrev Stays : Tier → ℕ → ℕ → Tier → Type 0
Stays to now ts t = (ltb 0 t.retain && (to.level == t.level) && ltb (ts + t.retain) now) ≡ false

Follows-Stays :
    (from to : Tier) (now ts : ℕ)
    → Follows from to
    → (to.retain ≡ 0) ⊎ (now ≤ ts + to.retain)
    → Stays to now ts tier_0
      × Stays to now ts tier_1
      × Stays to now ts tier_2
      × Stays to now ts tier_3
Follows-Stays from to now ts minutes young = (refl, ground arith, refl, refl)
Follows-Stays from to now ts quarters young = (refl, refl, ground arith, refl)
Follows-Stays from to now ts hours young = (refl, refl, refl, refl)

module _ {N : Numbers} where
  -- The range of the row holds that of another.
  abbrev pub Spans : Row N → Row N → Type 0
  Spans r c = N.Le c.min r.min × N.Le r.max c.max

  -- The bucket of the row in a tier is in the table, with a range that holds the row's.
  abbrev pub Covered : Tier → Row N → List (Row N) → Type 0
  Covered to r rows = Holds to.level r.metric (r.ts / to.bucket * to.bucket) (Spans r) rows

  -- A row of the bucket, whatever row it was made for, holds the row's range.
  aggregate-Spans :
      (level secs : ℕ) (selected : List (Row N)) (r x : Row N)
      → 0 < secs
      → In r selected
      → Good level r.metric (r.ts / secs * secs) (Spans r) (aggregate N level secs selected x)
  unfolding aggregate has_key
  aggregate-Spans level secs selected r x positive inside key =
      let metric : x.metric ≡ r.metric = ground arith in
      let start : x.ts / secs * secs ≡ r.ts / secs * secs = ground arith in
      let bucket : x.ts / secs ≡ r.ts / secs =
        sym (mul-div_cancel (x.ts / secs) positive)
        ∙ ap (λ (t : ℕ). t / secs) start
        ∙ mul-div_cancel (r.ts / secs) positive in
      let there : In r (group N x.metric (x.ts / secs) secs selected) =
        rw (metric, bucket) (In-group secs r selected inside) in
      (least_of-In x.min r _ there, greatest_of-In x.max r _ there)

  All-Spans :
      (level secs : ℕ) (selected xs : List (Row N)) (r : Row N)
      → 0 < secs
      → In r selected
      → All
          (Good level r.metric (r.ts / secs * secs) (Spans r))
          (map (aggregate N level secs selected) xs)
  All-Spans level secs selected [] r positive inside = tt
  All-Spans level secs selected (x ∷ xs) r positive inside = (
    aggregate-Spans level secs selected r x positive inside,
    All-Spans level secs selected xs r positive inside,
  )

  In-map : (f : Row N → Row N) (r : Row N) (xs : List (Row N)) → In r xs → In (f r) (map f xs)
  In-map f r [] inside = inside
  In-map f r (x ∷ xs) (inl same) = inl (ap f same)
  In-map f r (x ∷ xs) (inr later) = inr (In-map f r xs later)

  aggregate-key :
      (level secs : ℕ) (selected : List (Row N)) (r : Row N)
      → has_key N level r.metric (r.ts / secs * secs) (aggregate N level secs selected r) ≡ true
  unfolding aggregate has_key
  aggregate-key level secs selected r = ground arith

  rollup_into-Covered :
      (from to : Tier) (now : ℕ) (rows : List (Row N)) (r : Row N)
      → 0 < to.bucket
      → In r rows
      → r.tier ≡ from.level
      → newest N to.level rows ≤ r.ts
      → r.ts < truncate now to.bucket
      → Covered to r (rollup_into N from to now rows)
  unfolding rollup_into
  rollup_into-Covered from to now rows r positive inside tier after before =
      let start = newest N to.level rows in
      let cutoff = truncate now to.bucket in
      let selected = select_rows N from.level start cutoff rows in
      let there : In r selected =
        In-select_rows from.level start cutoff r rows inside tier after before in
      let due : leb cutoff start ≡ false = ground arith in
      rw (due) (
        Holds-upsert_new to.level r.metric (r.ts / to.bucket * to.bucket) (Spans r)
          (aggregate N to.level to.bucket selected r)
          (map (aggregate N to.level to.bucket selected) selected) rows
          (In-map (aggregate N to.level to.bucket selected) r selected there)
          (aggregate-key to.level to.bucket selected r)
          (All-Spans to.level to.bucket selected selected r positive there))

  -- Pruning one tier keeps what is not of that tier, or not past its retention.
  Holds-prune_tier :
      (t : Tier) (now tier metric ts : ℕ) (P : Row N → Type 0) (rows : List (Row N))
      → (ltb 0 t.retain && (tier == t.level) && ltb (ts + t.retain) now) ≡ false
      → Holds tier metric ts P rows
      → Holds tier metric ts P (prune_tier N t now rows)
  unfolding prune_tier has_key
  Holds-prune_tier t now tier metric ts P [] stays h = h
  Holds-prune_tier t now tier metric ts P (r ∷ rows) stays h =
      elim (Bool-cases (ltb 0 t.retain && (r.tier == t.level) && ltb (r.ts + t.retain) now)) [
        | inl gone ↦ rw (gone) (elim h [
          | inl (key, _) ↦ absurd (ground arith)
          | inr later ↦ Holds-prune_tier t now tier metric ts P rows stays later
        ])
        | inr kept ↦ rw (kept) (elim h [
          | inl here ↦ inl here
          | inr later ↦ inr (Holds-prune_tier t now tier metric ts P rows stays later)
        ])
      ]

  Holds-prune :
      (from to : Tier) (now metric ts : ℕ) (P : Row N → Type 0) (rows : List (Row N))
      → Follows from to
      → (to.retain ≡ 0) ⊎ (now ≤ ts + to.retain)
      → Holds to.level metric ts P rows
      → Holds to.level metric ts P (prune N now rows)
  unfolding prune prune_all
  Holds-prune from to now metric ts P rows follows young h =
      let (a, b, c, d) = Follows-Stays from to now ts follows young in
      Holds-prune_tier tier_3 now to.level metric ts P _ d (
        Holds-prune_tier tier_2 now to.level metric ts P _ c (
          Holds-prune_tier tier_1 now to.level metric ts P _ b
            (Holds-prune_tier tier_0 now to.level metric ts P rows a h)))

  -- Housekeeping keeps what it thins out: a row whose bucket in the next tier is over, and is not
  -- older than the newest one there, is in that tier after the roll-up and the pruning, in a row of
  -- its metric and bucket whose range holds the row's, unless that bucket is past the tier's own
  -- retention; the hours have none.
  pub prune-rollup_into :
      (from to : Tier) (now : ℕ) (rows : List (Row N)) (r : Row N)
      → Follows from to
      → In r rows
      → r.tier ≡ from.level
      → newest N to.level rows ≤ r.ts
      → r.ts < truncate now to.bucket
      → (to.retain ≡ 0) ⊎ (now ≤ r.ts / to.bucket * to.bucket + to.retain)
      → Covered to r (prune N now (rollup_into N from to now rows))
  prune-rollup_into from to now rows r follows inside tier after before young =
      Holds-prune from to now r.metric _ (Spans r) _ follows young (
        rollup_into-Covered from to now rows r (Follows-bucket from to follows) inside tier after
          before)
