-- ===== src/Store/Rows.antt =====
-- What the statements do to one row of the table.
use freeway_pi.Base.{
  ℕ, ◌/◌, ◌≤◌, ◌<◌, ◌≡◌, ap, subst, ◌⊎◌, inl, inr, Bool, true, false, ◌&&◌, List, [], ◌∷◌, arith,
  ltb, leb, ◌==◌, if◌then◌else◌, Bool-cases, All,
}
use freeway_pi.Store.{
  Numbers, Row, has_key, delete_key, upsert, upsert_all, select_rows, group, least_of, greatest_of,
}

module _ {N : Numbers} where
  -- The row is in the table.
  abbrev pub In : Row N → List (Row N) → Type 0
  In r [] = ⊥
  In r (c ∷ rows) = (c ≡ r) ⊎ In r rows

  -- A row of the table has the key, and the property.
  abbrev pub Holds : (tier metric ts : ℕ) → (Row N → Type 0) → List (Row N) → Type 0
  Holds tier metric ts P [] = ⊥
  Holds tier metric ts P (c ∷ rows) =
      ((has_key N tier metric ts c ≡ true) × P c) ⊎ Holds tier metric ts P rows

  -- Two keys that one row has are the same.
  has_key_unique :
      (tier metric ts a b c : ℕ) (r : Row N)
      → has_key N tier metric ts r ≡ true
      → has_key N a b c r ≡ true
      → (a ≡ tier) × (b ≡ metric) × (c ≡ ts)
  unfolding has_key
  has_key_unique tier metric ts a b c r h g = (ground arith, ground arith, ground arith)

  has_key_self : (r : Row N) → has_key N r.tier r.metric r.ts r ≡ true
  unfolding has_key
  has_key_self r = ground arith

  has_key_other :
      (tier metric ts : ℕ) (r : Row N)
      → has_key N tier metric ts r ≡ false
      → (r.tier ≡ tier) × (r.metric ≡ metric) × (r.ts ≡ ts)
      → ⊥
  unfolding has_key
  has_key_other tier metric ts r unlike (a, b, c) = absurd (ground arith)

  module _ (tier metric ts : ℕ) (P : Row N → Type 0) where
    Holds-delete_key :
        (a b c : ℕ) (rows : List (Row N))
        → ((a ≡ tier) × (b ≡ metric) × (c ≡ ts) → ⊥)
        → Holds tier metric ts P rows
        → Holds tier metric ts P (delete_key N a b c rows)
    unfolding delete_key
    Holds-delete_key a b c [] other h = h
    Holds-delete_key a b c (r ∷ rows) other h = elim (Bool-cases (has_key N a b c r)) [
      | inl same ↦ rw (same) (elim h [
        | inl (key, _) ↦ absurd (other (has_key_unique tier metric ts a b c r key same))
        | inr later ↦ Holds-delete_key a b c rows other later
      ])
      | inr kept ↦ rw (kept) (elim h [
        | inl here ↦ inl here
        | inr later ↦ inr (Holds-delete_key a b c rows other later)
      ])
    ]

    -- An insertion whose row has the property, if it has the key, keeps a row that has both.
    Holds-upsert :
        (r : Row N) (rows : List (Row N))
        → (has_key N tier metric ts r ≡ true → P r)
        → Holds tier metric ts P rows
        → Holds tier metric ts P (upsert N r rows)
    unfolding upsert
    Holds-upsert r rows good h = elim (Bool-cases (has_key N tier metric ts r)) [
      | inl key ↦ inl (key, good key)
      | inr other ↦
          inr (Holds-delete_key r.tier r.metric r.ts rows (has_key_other tier metric ts r other) h)
    ]

    abbrev pub Good : Row N → Type 0
    Good r = has_key N tier metric ts r ≡ true → P r

    pub Holds-upsert_all :
        (rs rows : List (Row N))
        → All Good rs
        → Holds tier metric ts P rows
        → Holds tier metric ts P (upsert_all N rs rows)
    unfolding upsert_all
    Holds-upsert_all [] rows good h = h
    Holds-upsert_all (r ∷ rs) rows (first, good) h =
        Holds-upsert_all rs _ good (Holds-upsert r rows first h)

    -- What is inserted is there.
    pub Holds-upsert_new :
        (r : Row N) (rs rows : List (Row N))
        → In r rs
        → has_key N tier metric ts r ≡ true
        → All Good rs
        → Holds tier metric ts P (upsert_all N rs rows)
    unfolding upsert_all upsert
    Holds-upsert_new r [] rows inside key good = absurd inside
    Holds-upsert_new r (x ∷ rs) rows (inl same) key (first, good) =
        let here : has_key N tier metric ts x ≡ true = rw (same) key in
        Holds-upsert_all rs _ good (inl (here, first here))
    Holds-upsert_new r (x ∷ rs) rows (inr later) key (first, good) =
        Holds-upsert_new r rs _ later key good

  In-if :
      (chosen : Bool) (r c : Row N) (rows : List (Row N))
      → In r rows
      → In r (if chosen then c ∷ rows else rows)
  In-if true r c rows inside = inr inside
  In-if false r c rows inside = inside

  pub In-select_rows :
      (tier start cutoff : ℕ) (r : Row N) (rows : List (Row N))
      → In r rows
      → r.tier ≡ tier
      → start ≤ r.ts
      → r.ts < cutoff
      → In r (select_rows N tier start cutoff rows)
  unfolding select_rows
  In-select_rows tier start cutoff r [] inside same after before = inside
  In-select_rows tier start cutoff r (c ∷ rows) (inl here) same after before =
      let a : c.tier ≡ r.tier = ap (λ (x : Row N). x.tier) here in
      let b : c.ts ≡ r.ts = ap (λ (x : Row N). x.ts) here in
      let chosen : ((c.tier == tier) && leb start c.ts && ltb c.ts cutoff) ≡ true = ground arith in
      rw (chosen) (inl here)
  In-select_rows tier start cutoff r (c ∷ rows) (inr later) same after before =
      In-if _ r c _ (In-select_rows tier start cutoff r rows later same after before)

  pub In-group :
      (secs : ℕ) (r : Row N) (rows : List (Row N))
      → In r rows
      → In r (group N r.metric (r.ts / secs) secs rows)
  unfolding group
  In-group secs r [] inside = inside
  In-group secs r (c ∷ rows) (inl here) =
      let a : c.metric ≡ r.metric = ap (λ (x : Row N). x.metric) here in
      let b : c.ts / secs ≡ r.ts / secs = ap (λ (x : Row N). x.ts / secs) here in
      let chosen : ((c.metric == r.metric) && (c.ts / secs == r.ts / secs)) ≡ true = ground arith in
      rw (chosen) (inl here)
  In-group secs r (c ∷ rows) (inr later) = In-if _ r c _ (In-group secs r rows later)

  least_of-Le : (v w : N.Value) (rows : List (Row N)) → N.Le v w → N.Le (least_of N v rows) w
  unfolding least_of
  least_of-Le v w [] h = h
  least_of-Le v w (r ∷ rows) h =
      least_of-Le (N.least v r.min) w rows (N.Le_trans _ _ _ (N.least_left v r.min) h)

  pub least_of-In :
      (v : N.Value) (r : Row N) (rows : List (Row N)) → In r rows → N.Le (least_of N v rows) r.min
  unfolding least_of
  least_of-In v r [] inside = absurd inside
  least_of-In v r (c ∷ rows) (inl here) =
      least_of-Le _ r.min rows
        (subst (λ (x : Row N). N.Le (N.least v c.min) x.min) here (N.least_right v c.min))
  least_of-In v r (c ∷ rows) (inr later) = least_of-In (N.least v c.min) r rows later

  greatest_of-Le : (v w : N.Value) (rows : List (Row N)) → N.Le w v → N.Le w (greatest_of N v rows)
  unfolding greatest_of
  greatest_of-Le v w [] h = h
  greatest_of-Le v w (r ∷ rows) h =
      greatest_of-Le (N.greatest v r.max) w rows (N.Le_trans _ _ _ h (N.greatest_left v r.max))

  pub greatest_of-In :
      (v : N.Value) (r : Row N) (rows : List (Row N))
      → In r rows
      → N.Le r.max (greatest_of N v rows)
  unfolding greatest_of
  greatest_of-In v r [] inside = absurd inside
  greatest_of-In v r (c ∷ rows) (inl here) =
      greatest_of-Le _ r.max rows
        (subst (λ (x : Row N). N.Le x.max (N.greatest v c.max)) here (N.greatest_right v c.max))
  greatest_of-In v r (c ∷ rows) (inr later) = greatest_of-In (N.greatest v c.max) r rows later
