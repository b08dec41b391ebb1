-- ===== src/Store.antt =====
-- internal/store: what is kept of the measurements, as the rows of the table that the SQL statements
-- work on. Times are Unix seconds; `now` is one reading of the clock for each call. The numbers that
-- are stored, and SQLite's MIN, MAX and AVG of them, are parameters. A statement that fails changes
-- nothing, and is left out; so is the choice of columns that only the page reads.
pub mod Rows
pub mod Covered
pub mod Recorder
mod Examples
use freeway_pi.Base.{
  ℕ, zero, suc, ◌+◌, ◌-◌, ◌*◌, ◌/◌, ◌%◌, ◌^◌, ◌≤◌, ◌<◌, ◌≡◌, refl, sym, ap, ap₂, subst, ◌∙◌,
  fun_ext, ◌≢◌, ◌↔◌, ◌⊎◌, inl, inr, Bool, true, false, not, ◌&&◌, ◌||◌, Option, none, some, List,
  [], ◌∷◌, ◌++◌, map, arith, ltb, leb, ◌==◌, if◌then◌else◌, ltb→lt, lt→ltb, leb→le, ==_iff,
  Bool-cases, Option-cases, nonzero, length, get_or, set, take, drop, replicate, length-append,
  length-take, length-drop, length-replicate, take-append, drop-append, All, length-map, All-append,
  All-append_left, All-append_right, length-set, get_or-set_self, get_or-set_ne, get_or-drop,
  drop-nil, drop-drop, Result, ◌>>=◌, ◌>>◌, fail_if, ok, err,
}

pub record Tier : Type 0 where
  pub level : ℕ
  pub bucket : ℕ
  pub retain : ℕ

abbrev pub second : ℕ
second = 1000000000

-- `Tiers`, in seconds; a retention of 0 is forever.
abbrev pub tier_0 : Tier
tier_0 = record { level = 0; bucket = 10; retain = 172800 }

abbrev pub tier_1 : Tier
tier_1 = record { level = 1; bucket = 60; retain = 2592000 }

abbrev pub tier_2 : Tier
tier_2 = record { level = 2; bucket = 900; retain = 31536000 }

abbrev pub tier_3 : Tier
tier_3 = record { level = 3; bucket = 3600; retain = 0 }

abbrev pub tiers : List Tier
tiers = tier_0 ∷ tier_1 ∷ tier_2 ∷ tier_3 ∷ []

unfoldable pub truncate : (now bucket : ℕ) → ℕ
truncate now bucket = if bucket == 0 then now else now / bucket * bucket

-- `chooseTier`: the finest tier that reaches back to `from` with at most so many points. The instants
-- are nanoseconds here.
unfoldable pub choose_from : (from to max_points now : ℕ) → List Tier → Tier
choose_from from to max_points now [] = tier_3
choose_from from to max_points now (t ∷ ts) =
    let rest = choose_from from to max_points now ts in
    if ltb 0 t.retain && ltb (t.retain * second) (now - from)
    then rest
    else if leb ((to - from) / (t.bucket * second)) max_points
    then t
    else rest

unfoldable pub choose_tier : (from to max_points now : ℕ) → Tier
choose_tier from to max_points now = choose_from from to max_points now tiers

-- SQLite's aggregates over the numbers of a column, and the order they follow.
pub record Numbers : Type 1 where
  pub Value : Type 0
  pub least : Value → Value → Value
  pub greatest : Value → Value → Value
  pub average : List Value → Value
  pub Le : Value → Value → Type 0
  pub Le_refl : (a : Value) → Le a a
  pub Le_trans : (a b c : Value) → Le a b → Le b c → Le a c
  pub least_left : (a b : Value) → Le (least a b) a
  pub least_right : (a b : Value) → Le (least a b) b
  pub greatest_left : (a b : Value) → Le a (greatest a b)
  pub greatest_right : (a b : Value) → Le b (greatest a b)

module _ (N : Numbers) where
  pub record Row : Type 0 where
    pub tier : ℕ
    pub metric : ℕ
    pub ts : ℕ
    pub avg : N.Value
    pub min : N.Value
    pub max : N.Value

  pub record Sample : Type 0 where
    pub metric : ℕ
    pub value : N.Value

  -- The primary key.
  unfoldable pub has_key : (tier metric ts : ℕ) → Row → Bool
  has_key tier metric ts r = (r.tier == tier) && (r.metric == metric) && (r.ts == ts)

  unfoldable pub delete_key : (tier metric ts : ℕ) → List Row → List Row
  delete_key tier metric ts [] = []
  delete_key tier metric ts (r ∷ rows) =
      let rest = delete_key tier metric ts rows in
      if has_key tier metric ts r then rest else r ∷ rest

  -- `INSERT … ON CONFLICT(tier, metric, ts) DO UPDATE`.
  unfoldable pub upsert : Row → List Row → List Row
  upsert r rows = r ∷ delete_key r.tier r.metric r.ts rows

  unfoldable pub upsert_all : List Row → List Row → List Row
  upsert_all [] rows = rows
  upsert_all (r ∷ rs) rows = upsert_all rs (upsert r rows)

  unfoldable pub row_of : (ts : ℕ) → Sample → Row
  row_of ts s = record {
    tier = 0;
    metric = s.metric;
    ts = ts;
    avg = s.value;
    min = s.value;
    max = s.value;
  }

  -- `Record`.
  unfoldable pub record_samples : (ts : ℕ) → List Sample → List Row → List Row
  record_samples ts samples rows =
      upsert_all (map (row_of (truncate ts tier_0.bucket)) samples) rows

  -- `SELECT … WHERE tier = ? AND ts >= ? AND ts < ?`.
  unfoldable pub select_rows : (tier start cutoff : ℕ) → List Row → List Row
  select_rows tier start cutoff [] = []
  select_rows tier start cutoff (r ∷ rows) =
      let rest = select_rows tier start cutoff rows in
      if (r.tier == tier) && leb start r.ts && ltb r.ts cutoff then r ∷ rest else rest

  -- The rows of one metric and bucket.
  unfoldable pub group : (metric bucket secs : ℕ) → List Row → List Row
  group metric bucket secs [] = []
  group metric bucket secs (r ∷ rows) =
      let rest = group metric bucket secs rows in
      if (r.metric == metric) && (r.ts / secs == bucket) then r ∷ rest else rest

  unfoldable pub least_of : N.Value → List Row → N.Value
  least_of v [] = v
  least_of v (r ∷ rows) = least_of (N.least v r.min) rows

  unfoldable pub greatest_of : N.Value → List Row → N.Value
  greatest_of v [] = v
  greatest_of v (r ∷ rows) = greatest_of (N.greatest v r.max) rows

  -- The row of the group that `r` is in.
  unfoldable pub aggregate : (level secs : ℕ) → List Row → Row → Row
  aggregate level secs selected r =
      let rows = group r.metric (r.ts / secs) secs selected in
      record {
        tier = level;
        metric = r.metric;
        ts = r.ts / secs * secs;
        avg = N.average (map (λ (x : Row). x.avg) rows);
        min = least_of r.min rows;
        max = greatest_of r.max rows;
      }

  -- `SELECT COALESCE(MAX(ts), 0) FROM samples WHERE tier = ?`.
  unfoldable pub newest : (tier : ℕ) → List Row → ℕ
  newest tier [] = 0
  newest tier (r ∷ rows) =
      let rest = newest tier rows in if (r.tier == tier) && ltb rest r.ts then r.ts else rest

  -- `rollupInto`; each group is written once for each of its rows, with the same values.
  unfoldable pub rollup_into : (from to : Tier) (now : ℕ) → List Row → List Row
  rollup_into from to now rows =
      let start = newest to.level rows in
      let cutoff = truncate now to.bucket in
      let selected = select_rows from.level start cutoff rows in
      let rolled = upsert_all (map (aggregate to.level to.bucket selected) selected) rows in
      if leb cutoff start then rows else rolled

  unfoldable pub rollup : (now : ℕ) → List Row → List Row
  rollup now rows =
      rollup_into tier_2 tier_3 now
        (rollup_into tier_1 tier_2 now (rollup_into tier_0 tier_1 now rows))

  -- `DELETE FROM samples WHERE tier = ? AND ts < ?`.
  unfoldable pub prune_tier : Tier → (now : ℕ) → List Row → List Row
  prune_tier t now [] = []
  prune_tier t now (r ∷ rows) =
      let rest = prune_tier t now rows in
      if ltb 0 t.retain && (r.tier == t.level) && ltb (r.ts + t.retain) now then rest else r ∷ rest

  unfoldable pub prune_all : List Tier → (now : ℕ) → List Row → List Row
  prune_all [] now rows = rows
  prune_all (t ∷ ts) now rows = prune_all ts now (prune_tier t now rows)

  unfoldable pub prune : (now : ℕ) → List Row → List Row
  prune now rows = prune_all tiers now rows

  -- `housekeep`, with nothing failing.
  unfoldable pub housekeep : (now : ℕ) → List Row → List Row
  housekeep now rows = prune now (rollup now rows)
