-- ===== src/Bus/Window.antt =====
-- internal/bus/bus.go: what `OnExchange` counts, and the ring of the last attempts.
pub mod Recent
use freeway_pi.Base.{
  ℕ, zero, suc, ◌+◌, ◌-◌, ◌*◌, ◌/◌, ◌%◌, ◌^◌, ◌≤◌, ◌<◌, min, max, ◌≡◌, refl, sym, ap, ap₂, subst,
  ◌∙◌, fun_ext, ◌≢◌, ◌↔◌, ◌⊎◌, inl, inr, Bool, true, false, not, ◌&&◌, ◌||◌, Option, none, some,
  List, [], ◌∷◌, ◌++◌, map, arith, ltb, leb, ◌==◌, if◌then◌else◌, ltb→lt, lt→ltb, leb→le, ==_iff,
  Bool-cases, Option-cases, nonzero, length, get_or, set, take, drop, replicate, length-append,
  length-take, length-drop, length-replicate, take-append, drop-append, All, length-map, All-append,
  All-append_left, All-append_right, length-set, get_or-set_self, get_or-set_ne, get_or-drop,
  drop-nil, drop-drop, Result, ◌>>=◌, ◌>>◌, fail_if, ok, err,
}

abbrev pub window : ℕ
window = 256

pub record Counts : Type 0 where
  pub exchanges : ℕ
  pub exchange_errors : ℕ
  pub recent : List Bool
  pub recent_pos : ℕ
  pub recent_len : ℕ
  pub recent_bad : ℕ

unfoldable pub new_counts : Counts
new_counts = record {
  exchanges = 0;
  exchange_errors = 0;
  recent = replicate window false;
  recent_pos = 0;
  recent_len = 0;
  recent_bad = 0;
}

-- How many failures the attempt that leaves the ring takes with it.
unfoldable pub leaving : Counts → ℕ
leaving c = if c.recent_len == window && get_or c.recent c.recent_pos false then 1 else 0

-- One attempt on the wire, failed or not.
unfoldable pub on_exchange : Bool → Counts → Counts
unfolding leaving
on_exchange failed c = record {
  exchanges = (c.exchanges + 1) % 2 ^ 64;
  exchange_errors = if failed then (c.exchange_errors + 1) % 2 ^ 64 else c.exchange_errors;
  recent = set c.recent c.recent_pos failed;
  recent_pos = (c.recent_pos + 1) % window;
  recent_len = if ltb c.recent_len window then c.recent_len + 1 else c.recent_len;
  recent_bad = if failed then c.recent_bad - leaving c + 1 else c.recent_bad - leaving c;
}

-- The attempts of a run, the last one first.
unfoldable pub after_attempts : List Bool → Counts
after_attempts [] = new_counts
after_attempts (failed ∷ earlier) = on_exchange failed (after_attempts earlier)
