-- ===== src/Eda/Settings.antt =====
-- internal/eda/settings.go: what stays changed in the unit. A number of a setting is counted in
-- tenths, of which every value in the table and every step of one is a whole number; labels, units
-- and help are texts and left out.
pub mod Numbers
pub mod Table
pub mod Places
pub mod Kept
mod Examples
use freeway_pi.Base.{
  ℕ, zero, suc, ◌+◌, ◌-◌, ◌*◌, ◌/◌, ◌%◌, ◌^◌, ◌≤◌, ◌<◌, min, max, ◌≡◌, refl, sym, ap, ap₂, subst,
  ◌∙◌, fun_ext, ◌≢◌, ◌↔◌, ◌⊎◌, inl, inr, Bool, true, false, not, ◌&&◌, ◌||◌, Option, none, some,
  List, [], ◌∷◌, ◌++◌, map, arith, ltb, leb, ◌==◌, if◌then◌else◌, ltb→lt, lt→ltb, leb→le, ==_iff,
  Bool-cases, Option-cases, nonzero, length, get_or, set, take, drop, replicate, length-append,
  length-take, length-drop, length-replicate, take-append, drop-append, All, length-map, All-append,
  All-append_left, All-append_right, length-set, get_or-set_self, get_or-set_ne, get_or-drop,
  drop-nil, drop-drop, Result, ◌>>=◌, ◌>>◌, fail_if, ok, err,
}
use freeway_pi.Base.Ints.{ℤ, pos, negsuc, uint16}
use freeway_pi.Base.Texts.{Text, codes, same_text}
use freeway_pi.Eda.{
  EdaError, not_a_setting, coil_outside, register_outside, setting_range, setting_twin, Write,
  coil_write, register_write,
}
use freeway_pi.Eda.Output.{int16}

-- `Scale` is 1 or 10, and 0 for a coil. Bounds are in tenths.
pub record Setting : Type 0 where
  pub key : Text
  pub scale : ℕ
  pub least : ℤ
  pub most : ℤ
  pub coil : Bool
  pub addr : ℕ
  pub companion : ℕ
  pub has_twin : Bool

abbrev pub number_setting : Text → (scale : ℕ) → (least most : ℤ) → (addr : ℕ) → Setting
number_setting key scale least most addr = record {
  key = key;
  scale = scale;
  least = least;
  most = most;
  coil = false;
  addr = addr;
  companion = 0;
  has_twin = false;
}

abbrev pub coil_setting : Text → (addr : ℕ) → Setting
coil_setting key addr = record {
  key = key;
  scale = 0;
  least = pos 0;
  most = pos 0;
  coil = true;
  addr = addr;
  companion = 0;
  has_twin = false;
}

-- `Settings`.
unfoldable pub settings : List Setting
settings =
    number_setting (codes "setpoint_min") 1 (pos 100) (pos 300) 140
    ∷ number_setting (codes "setpoint_max") 1 (pos 100) (pos 300) 141
    ∷ number_setting (codes "cooling_block_below") 10 (negsuc 299) (pos 400) 164
    ∷ number_setting (codes "heating_block_above") 10 (negsuc 299) (pos 400) 196
    ∷ number_setting (codes "temperature_drop") 10 (pos 0) (pos 100) 172
    ∷ coil_setting (codes "heating_allowed") 54
    ∷ coil_setting (codes "cooling_allowed") 52
    ∷ record (number_setting (codes "overpressure_minutes") 1 (pos 10) (pos 600) 56) {
      companion = 57;
      has_twin = true;
    }
    ∷ number_setting (codes "overpressure_supply") 1 (pos 200) (pos 1000) 54
    ∷ number_setting (codes "overpressure_extract") 1 (pos 200) (pos 1000) 55
    ∷ number_setting (codes "boost_minutes") 1 (pos 10) (pos 600) 66
    ∷ number_setting (codes "boost_level") 1 (pos 200) (pos 1000) 67
    ∷ number_setting (codes "service_interval_days") 1 (pos 10) (pos 9990) 538
    ∷ number_setting (codes "measurement_refresh") 1 (pos 10) (pos 600) 726
    ∷ []

unfoldable pub find_setting : Text → List Setting → Option Setting
find_setting key [] = none
find_setting key (s ∷ rest) =
    let later = find_setting key rest in if same_text s.key key then some s else later

unfoldable pub setting_by_key : Text → Option Setting
setting_by_key key = find_setting key settings

pub record SettingValue : Type 0 where
  pub setting : Setting
  pub number : ℤ
  pub bool : Bool

-- `float64(int16(v)) / scale` in tenths, for a scale of 1 or 10.
unfoldable pub scaled_down : (scale : ℕ) → ℤ → ℤ
scaled_down scale (pos n) = pos (n * 10 / scale)
scaled_down scale (negsuc n) = negsuc ((n + 1) * 10 / scale - 1)

-- What one turn of the loop of `ReadSettings` makes of a setting.
unfoldable pub value_of : Setting → List ℕ → List Bool → SettingValue
value_of s holding coils = record {
  setting = s;
  number = if s.coil then pos 0 else scaled_down s.scale (int16 (get_or holding s.addr 0));
  bool = if s.coil then get_or coils s.addr false else false;
}

unfoldable pub read_loop : List Setting → List ℕ → List Bool → Result EdaError (List SettingValue)
read_loop [] holding coils = ok []
read_loop (s ∷ rest) holding coils = do
  fail_if (s.coil && leb (length coils) s.addr) (coil_outside s.addr)
  fail_if (not s.coil && leb (length holding) s.addr) (register_outside s.addr)
  out ← read_loop rest holding coils
  ok (value_of s holding coils ∷ out)

unfoldable pub read_settings : List ℕ → List Bool → Result EdaError (List SettingValue)
read_settings holding coils = read_loop settings holding coils

-- `math.Round(number * scale)` of a number in tenths: halves go away from zero.
unfoldable pub scaled_up : (scale : ℕ) → ℤ → ℤ
scaled_up scale (pos n) = pos ((n * scale + 5) / 10)
scaled_up scale (negsuc n) =
    let size = ((n + 1) * scale + 5) / 10 in if size == 0 then pos 0 else negsuc (size - 1)

unfoldable pub at_most : ℤ → ℤ → Bool
at_most (pos a) (pos b) = leb a b
at_most (pos a) (negsuc b) = false
at_most (negsuc a) (pos b) = true
at_most (negsuc a) (negsuc b) = leb b a

-- The writes of a number, once it is in range.
unfoldable pub number_writes : Setting → (raw : ℕ) → Result EdaError (List Write)
number_writes s raw =
    if s.has_twin
    then if s.companion == s.addr + 1
      then ok (register_write s.addr (raw ∷ raw ∷ []) ∷ [])
      else err setting_twin
    else ok (register_write s.addr (raw ∷ []) ∷ [])

unfoldable pub write_number : Setting → (number : ℤ) → Result EdaError (List Write)
write_number s number = do
  fail_if (not (at_most s.least number && at_most number s.most)) (setting_range s.least s.most)
  number_writes s (uint16 (scaled_up s.scale number))

unfoldable pub write_value :
    Option Setting → (number : ℤ) → (boolean : Bool) → Result EdaError (List Write)
write_value none number boolean = err not_a_setting
write_value (some s) number boolean =
    if s.coil then ok (coil_write s.addr boolean ∷ []) else write_number s number

unfoldable pub write_setting :
    (key : Text) → (number : ℤ) → (boolean : Bool) → Result EdaError (List Write)
write_setting key number boolean = write_value (setting_by_key key) number boolean
