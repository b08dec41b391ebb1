-- ===== src/Eda/Settings/Kept.antt =====
-- A setting that is changed is read back as it was entered, and no other setting moves.
use freeway_pi.Base.{
  ℕ, ◌≤◌, ◌≡◌, refl, ◌∙◌, inl, inr, Bool, true, false, not, ◌&&◌, List, [], ◌∷◌, map, arith, leb,
  if◌then◌else◌, Option-cases, length, All, length-set, ok,
}
use freeway_pi.Base.Ints.{ℤ}
use freeway_pi.Base.Texts.{Text, same_text, same_text→eq}
use freeway_pi.Eda.{Write, coil_write, register_write, Unit16, do_write, do_writes}
use freeway_pi.Eda.Programs.Writing.{length-put_registers}
use freeway_pi.Eda.Settings.{
  Setting, SettingValue, settings, find_setting, setting_by_key, value_of, read_loop, read_settings,
  write_value, write_setting,
}
use freeway_pi.Eda.Settings.Table.{
  entered, is_sound, fits, all_of, all_of-All, table_checked, find_setting-All, and-true,
}
use freeway_pi.Eda.Settings.Places.{value_after}

-- What the page shows of a setting after a change of the one with the key.
unfoldable pub shown :
    (key : Text) → (number : ℤ) → (boolean : Bool) → Unit16 → Setting → SettingValue
shown key number boolean u s =
    if same_text s.key key then entered s number boolean else value_of s u.holding u.coils

length-do_write :
    (w : Write) (u : Unit16)
    → (length (do_write w u).holding ≡ length u.holding)
      × (length (do_write w u).coils ≡ length u.coils)
unfolding do_write
length-do_write (coil_write addr bit) u = (refl, length-set u.coils addr bit)
length-do_write (register_write addr regs) u = (length-put_registers regs u.holding addr, refl)

length-do_writes :
    (ws : List Write) (u : Unit16)
    → (length (do_writes ws u).holding ≡ length u.holding)
      × (length (do_writes ws u).coils ≡ length u.coils)
unfolding do_writes
length-do_writes [] u = (refl, refl)
length-do_writes (w ∷ ws) u =
    let (a, b) = length-do_write w u in
    let (c, d) = length-do_writes ws (do_write w u) in (c ∙ a, d ∙ b)

read_loop-map :
    (f : Setting → SettingValue) (l : List Setting) (holding : List ℕ) (coils : List Bool)
    → All (λ t. (is_sound t ≡ true) × (value_of t holding coils ≡ f t)) l
    → 727 ≤ length holding
    → 55 ≤ length coils
    → read_loop l holding coils ≡ ok (map f l)
unfolding read_loop is_sound
read_loop-map f [] holding coils h room coil_room = refl
read_loop-map f (t ∷ rest) holding coils ((sound, value), h) room coil_room =
    let coil_in : (t.coil && leb (length coils) t.addr) ≡ false = ground (arith, sound) in
    let register_in : (not t.coil && leb (length holding) t.addr) ≡ false = ground (arith, sound) in
    rw (coil_in, register_in, read_loop-map f rest holding coils h room coil_room, value) refl

All-map {κ μ} :
    {P : Setting → Type κ} {Q : Setting → Type μ} (l : List Setting)
    → ((t : Setting) → P t → Q t)
    → All P l
    → All Q l
All-map [] f h = tt
All-map (t ∷ l) f h = (f t h.0, All-map l f h.1)

abbrev Fitting : Setting → Type 0
Fitting s = (is_sound s ≡ true) × All (λ t. fits s t ≡ true) settings

table-Fitting : All Fitting settings
table-Fitting =
    All-map settings
      (λ s h.
        let (sound, fit) = and-true (is_sound s) (all_of (fits s) settings) h in
        (sound, All-map settings (λ t g. g) (all_of-All (fits s) settings fit)))
      (all_of-All _ settings table_checked)

All-both : (P Q : Setting → Type 0) (l : List Setting) → All P l → All Q l → All (λ t. P t × Q t) l
All-both P Q [] h g = tt
All-both P Q (t ∷ l) h g = ((h.0, g.0), All-both P Q l h.1 g.1)

-- A change that is accepted, on a unit with 727 registers and 55 coils: the settings can be read
-- afterwards, the one with the key has the value that was entered, rounded to what its register can
-- hold, and every other has the value that it had.
pub write_setting_read :
    (key : Text) (number : ℤ) (boolean : Bool) (ws : List Write) (u : Unit16)
    → 727 ≤ length u.holding
    → 55 ≤ length u.coils
    → write_setting key number boolean ≡ ok ws
    → read_settings (do_writes ws u).holding (do_writes ws u).coils
      ≡ ok (map (shown key number boolean u) settings)
unfolding write_setting read_settings setting_by_key shown
write_setting_read key number boolean ws u holding coils h =
    elim (Option-cases (find_setting key settings)) [
      | inl missing ↦ absurd (unfold write_value in ground (arith, h, missing))
      | inr (s, found) ↦
          let ((sound, fit), same) = find_setting-All Fitting key settings table-Fitting s found in
          let e : s.key ≡ key = same_text→eq s.key key same in
          let (a, b) = length-do_writes ws u in
          read_loop-map (shown key number boolean u) settings _ _
            (All-map settings
              (λ t g. (
                g.0.0,
                rw (← e)
                    (value_after s t number boolean ws u sound g.1 holding coils (rw (found) at h)),
              ))
              (All-both Fitting (λ t. fits s t ≡ true) settings table-Fitting fit))
            (omega (arith, a)) (omega (arith, b))
    ]
