-- ===== src/Eda/Settings/Examples.antt =====
-- Settings at concrete inputs.
use freeway_pi.Base.{◌≡◌, refl, false, List, [], ◌∷◌, map, arith, replicate, ok, err}
use freeway_pi.Base.Ints.{pos, negsuc, uint16}
use freeway_pi.Base.Texts.{codes, same_text}
use freeway_pi.Eda.{Write, register_write, Unit16, do_writes, setting_range}
use freeway_pi.Eda.Settings.{
  settings, find_setting, setting_by_key, read_settings, scaled_up, at_most, number_writes,
  write_number, write_value, write_setting,
}
use freeway_pi.Eda.Settings.Kept.{shown, write_setting_read}

abbrev house : Unit16
house = record { coils = replicate 80 false; holding = replicate 738 0 }

-- Heating stops above 21.5 degrees below zero.
abbrev cold_writes : List Write
cold_writes = register_write 196 (65321 ∷ []) ∷ []

cold_accepted : write_setting (codes "heating_block_above") (negsuc 214) false ≡ ok cold_writes
unfolding write_setting write_value write_number number_writes setting_by_key find_setting settings
    same_text at_most scaled_up uint16
cold_accepted = refl

write_setting_read_example :
    read_settings (do_writes cold_writes house).holding (do_writes cold_writes house).coils
    ≡ ok (map (shown (codes "heating_block_above") (negsuc 214) false house) settings)
write_setting_read_example =
    write_setting_read (codes "heating_block_above") (negsuc 214) false cold_writes house
      (omega arith) (omega arith) cold_accepted

-- Both copies of the duration of overpressure, and 12.5 minutes rounded.
twins_written :
    write_setting (codes "overpressure_minutes") (pos 125) false
    ≡ ok (register_write 56 (13 ∷ 13 ∷ []) ∷ [])
unfolding write_setting write_value write_number number_writes setting_by_key find_setting settings
    same_text at_most scaled_up uint16
twins_written = refl

out_of_range :
    write_setting (codes "setpoint_min") (pos 301) false ≡ err (setting_range (pos 100) (pos 300))
unfolding write_setting write_value write_number setting_by_key find_setting settings same_text
    at_most
out_of_range = refl
