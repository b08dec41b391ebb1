-- ===== src/Eda/Output.antt =====
-- internal/eda/state.go: what the unit is doing to the air. The names of the steps are texts, and
-- the step is passed on as it is.
use freeway_pi.Base.{
  ℕ, ◌+◌, ◌-◌, ◌≤◌, ◌<◌, min, ◌≡◌, refl, ◌≢◌, ◌⊎◌, inl, inr, false, arith, ltb, ◌==◌, if◌then◌else◌,
  Bool-cases,
}
use freeway_pi.Base.Ints.{ℤ, pos, negsuc}

-- `int16(v)` of a register.
unfoldable pub int16 : ℕ → ℤ
int16 v = if ltb v 32768 then pos v else negsuc (65535 - v)

unfoldable pub clamp_percent : ℤ → ℕ
clamp_percent (pos v) = if ltb 100 v then 100 else v
clamp_percent (negsuc v) = 0

-- `int(-ladder)` of a negative `int16`: the negation of the least one is itself.
unfoldable pub negate_int16 : ℕ → ℤ
negate_int16 n = if n + 1 == 32768 then negsuc 32767 else pos (n + 1)

pub record Output : Type 0 where
  pub recovery : ℕ
  pub heating : ℕ
  pub cooling : ℕ
  pub step : ℤ

unfoldable pub read_output : (ladder step : ℤ) → Output
read_output (negsuc n) step = record {
  recovery = 0;
  heating = 0;
  cooling = clamp_percent (negate_int16 n);
  step = step;
}
read_output (pos n) step =
    if ltb n 100 then record { recovery = n; heating = 0; cooling = 0; step = step } else record {
      recovery = 100;
      heating = clamp_percent (pos (n - 100));
      cooling = 0;
      step = step;
    }

-- How the shares relate to each other, and to the register they were read from.
pub record Shares (v : ℕ) (o : Output) : Type 0 where
  pub recovery_fits : o.recovery ≤ 100
  pub heating_fits : o.heating ≤ 100
  pub recovery_first : (o.heating ≡ 0) ⊎ (o.recovery ≡ 100)
  pub ladder :
      ((v < 32768) × (o.recovery + o.heating ≡ min v 200) × (o.cooling ≡ 0))
      ⊎ ((32768 < v) × (o.recovery + o.heating ≡ 0) × (o.cooling ≡ min (65536 - v) 100))

warm : (v : ℕ) (step : ℤ) → v < 32768 → Shares v (read_output (pos v) step)
unfolding read_output clamp_percent
warm v step h = elim (Bool-cases (ltb v 100)) [
  | inl low ↦
      rw (low, read_output)
        record {
          recovery_fits = ground arith;
          heating_fits = omega arith;
          recovery_first = inl refl;
          ladder = inl (h, ground arith, refl);
        }
  | inr high ↦
      rw (high, read_output)
        record {
          recovery_fits = omega arith;
          heating_fits = ground arith;
          recovery_first = inr refl;
          ladder = inl (h, ground arith, refl);
        }
]

cold : (v : ℕ) (step : ℤ) → 32768 < v → v < 65536 → Shares v (read_output (negsuc (65535 - v)) step)
unfolding read_output clamp_percent negate_int16
cold v step h g =
    let middle : (65535 - v + 1 == 32768) ≡ false = ground arith in
    record {
      recovery_fits = omega arith;
      heating_fits = omega arith;
      recovery_first = inl refl;
      ladder = inr (h, refl, rw (middle) (ground arith));
    }

-- For every register but 0x8000: the shares are at most 100 each, there is no heating before the
-- recovery is at full, and no cooling beside either; recovery and heating together are the ladder,
-- cut to 200, where it is not negative, and cooling is what it is below 0, cut to 100.
read_output-Shares :
    (v : ℕ) (step : ℤ) → v < 65536 → v ≢ 32768 → Shares v (read_output (int16 v) step)
unfolding int16
read_output-Shares v step h least = elim (Bool-cases (ltb v 32768)) [
  | inl positive ↦ rw (positive, int16) (warm v step (ground arith))
  | inr negative ↦ rw (negative, int16) (cold v step (ground arith) h)
]
