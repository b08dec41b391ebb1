-- ===== src/Eda/Setpoint.antt =====
-- internal/eda/command.go, SetSetpoint, with temperatures in tenths: of such a value the sum of its
-- tenths and a half is cut to the tenths.
use freeway_pi.Base.{Bool, not, ◌&&◌, List, [], ◌∷◌, if◌then◌else◌, Result, ◌>>◌, fail_if, ok}
use freeway_pi.Base.Ints.{ℤ, pos, uint16}
use freeway_pi.Eda.{EdaError, setpoint_range, Write, register_write}
use freeway_pi.Eda.Settings.{at_most}

-- `lo <= 0 || hi <= 0 || lo >= hi`.
unfoldable pub is_range : (lo hi : ℤ) → Bool
is_range lo hi = not (at_most lo (pos 0)) && (not (at_most hi (pos 0)) && not (at_most hi lo))

unfoldable pub within : (celsius lo hi : ℤ) → Result EdaError (List Write)
within celsius lo hi = do
  fail_if (not (at_most lo celsius && at_most celsius hi)) (setpoint_range celsius lo hi)
  ok (register_write 135 (uint16 celsius ∷ []) ∷ [])

unfoldable pub set_setpoint : (celsius lo hi : ℤ) → Result EdaError (List Write)
set_setpoint celsius lo hi =
    if is_range lo hi then within celsius lo hi else within celsius (pos 100) (pos 300)
