-- ===== src/Eda/Settings/Places.antt =====
-- What a written setting does to each row of the table.
use freeway_pi.Base.{
  ℕ, ◌+◌, ◌≤◌, ◌<◌, ◌≡◌, refl, ◌∙◌, ◌≢◌, ◌⊎◌, inl, inr, Bool, true, false, ◌&&◌, some, List, [],
  ◌∷◌, arith, ◌==◌, if◌then◌else◌, Bool-cases, length, get_or, set, get_or-set_self, get_or-set_ne,
  ok,
}
use freeway_pi.Base.Ints.{ℤ, uint16}
use freeway_pi.Base.Texts.{same_text}
use freeway_pi.Eda.{Write, coil_write, register_write, Unit16, put_registers, do_write, do_writes}
use freeway_pi.Eda.Programs.Writing.{put_registers_out, put_registers_in}
use freeway_pi.Eda.Settings.{
  Setting, value_of, scaled_up, at_most, number_writes, write_number, write_value,
}
use freeway_pi.Eda.Settings.Numbers.{IsSmall, between-IsSmall, register-nearest}
use freeway_pi.Eda.Settings.Table.{
  entered, width, is_small, is_small-IsSmall, is_sound, fits, and-true, width-pos, one_or_ten,
  before_or_after,
}

-- The rows after the coil of a row was written.
module _ (s t : Setting) (boolean : Bool) (u : Unit16) (number : ℤ) (sound : is_sound s ≡ true)
    (fit : fits s t ≡ true) (is_coil : s.coil ≡ true) (coils : 55 ≤ length u.coils) where
  coil_value :
      value_of t u.holding (set u.coils s.addr boolean)
      ≡ (if same_text t.key s.key then entered t number boolean else value_of t u.holding u.coils)
  unfolding value_of entered fits is_sound
  coil_value = elim (Bool-cases (same_text t.key s.key)) [
    | inl same ↦
        let there : t.coil ≡ true = ground (arith, fit, same, is_coil) in
        let place : t.addr ≡ s.addr = ground (arith, fit, same, is_coil) in
        let room : s.addr < length u.coils = ground (arith, sound, is_coil) in
        rw (same, there, place, get_or-set_self u.coils s.addr boolean false room) refl
    | inr different ↦ rw (different) (elim (Bool-cases t.coil) [
      | inl there ↦
          let place : s.addr ≢ t.addr = ground (arith, fit, different, is_coil, there) in
          rw (there, get_or-set_ne u.coils s.addr t.addr boolean false place) refl
      | inr elsewhere ↦ rw (elsewhere) refl
    ])
  ]

-- The rows after the register, or the two, of a row were written.
module _ (s t : Setting) (boolean : Bool) (u : Unit16) (number : ℤ) (sound : is_sound s ≡ true)
    (fit : fits s t ≡ true) (is_coil : s.coil ≡ false) (holding : 727 ≤ length u.holding)
    (regs : List ℕ) (size : length regs ≡ width s)
    (raw : get_or regs 0 0 ≡ uint16 (scaled_up s.scale number))
    (inside : (at_most s.least number && at_most number s.most) ≡ true) where
  number_IsSmall : IsSmall number
  unfolding is_sound
  number_IsSmall =
      let low : is_small s.least ≡ true = ground (arith, sound, is_coil) in
      let high : is_small s.most ≡ true = ground (arith, sound, is_coil) in
      let (above, below) = and-true _ _ inside in
      between-IsSmall s.least s.most number (is_small-IsSmall _ low) (is_small-IsSmall _ high) above
        below

  register_value :
      value_of t (put_registers u.holding s.addr regs) u.coils
      ≡ (if same_text t.key s.key then entered t number boolean else value_of t u.holding u.coils)
  unfolding value_of entered fits is_sound
  register_value = elim (Bool-cases (same_text t.key s.key)) [
    | inl same ↦
        let elsewhere : t.coil ≡ false = ground (arith, fit, same, is_coil) in
        let place : t.addr ≡ s.addr = ground (arith, fit, same, is_coil) in
        let scale : t.scale ≡ s.scale = ground (arith, fit, same, is_coil) in
        let room : s.addr + width s < 728 = ground (arith, sound, is_coil) in
        let held : get_or (put_registers u.holding s.addr regs) s.addr 0
            ≡ uint16 (scaled_up s.scale number) =
          put_registers_in regs u.holding s.addr 0 s.addr (omega arith)
            (omega (arith, size, width-pos s)) (omega (arith, size, room))
          ∙ raw in
        let known : (s.scale ≡ 1) ⊎ (s.scale ≡ 10) =
          one_or_ten s.scale (ground (arith, sound, is_coil)) in
        rw
          (
            same,
            elsewhere,
            place,
            scale,
            held,
            register-nearest s.scale number known number_IsSmall,
          )
          refl
    | inr different ↦ rw (different) (elim (Bool-cases t.coil) [
      | inl there ↦ rw (there) refl
      | inr elsewhere ↦
          let apart : (t.addr < s.addr) ⊎ (s.addr + length regs ≤ t.addr) =
            before_or_after s.addr t.addr (length regs)
              (ground (arith, fit, different, is_coil, elsewhere)) in
          rw (elsewhere, put_registers_out regs u.holding s.addr t.addr apart) refl
    ])
  ]

record Written (s : Setting) (number : ℤ) (ws : List Write) : Type 0 where
  regs : List ℕ
  made : ws ≡ register_write s.addr regs ∷ []
  size : length regs ≡ width s
  raw : get_or regs 0 0 ≡ uint16 (scaled_up s.scale number)
  inside : (at_most s.least number && at_most number s.most) ≡ true

write_number-Written :
    (s : Setting) (number : ℤ) (ws : List Write)
    → write_number s number ≡ ok ws
    → Written s number ws
unfolding write_number number_writes
write_number-Written s number ws h =
    elim (Bool-cases (at_most s.least number && at_most number s.most)) [
      | inr outside ↦ absurd (ground (arith, h, outside))
      | inl inside ↦ elim (Bool-cases s.has_twin) [
        | inl twin ↦ elim (Bool-cases (s.companion == s.addr + 1)) [
          | inr apart ↦ absurd (ground (arith, h, inside, twin, apart))
          | inl beside ↦ record {
            regs = uint16 (scaled_up s.scale number) ∷ uint16 (scaled_up s.scale number) ∷ [];
            made = ground (arith, h, inside, twin, beside);
            size = rw (twin) refl;
            raw = refl;
            inside = inside;
          }
        ]
        | inr single ↦ record {
          regs = uint16 (scaled_up s.scale number) ∷ [];
          made = ground (arith, h, inside, single);
          size = rw (single) refl;
          raw = refl;
          inside = inside;
        }
      ]
    ]

pub value_after :
    (s t : Setting) (number : ℤ) (boolean : Bool) (ws : List Write) (u : Unit16)
    → is_sound s ≡ true
    → fits s t ≡ true
    → 727 ≤ length u.holding
    → 55 ≤ length u.coils
    → write_value (some s) number boolean ≡ ok ws
    → value_of t (do_writes ws u).holding (do_writes ws u).coils
      ≡ (if same_text t.key s.key then entered t number boolean else value_of t u.holding u.coils)
unfolding write_value do_writes do_write
value_after s t number boolean ws u sound fit holding coils h = elim (Bool-cases s.coil) [
  | inl is_coil ↦
      let made : coil_write s.addr boolean ∷ [] ≡ ws = ground (arith, h, is_coil) in
      rw (← made) (coil_value s t boolean u number sound fit is_coil coils)
  | inr is_number ↦
      let w = write_number-Written s number ws (ground (arith, h, is_number)) in
      rw (w.made) (
        register_value s t boolean u number sound fit is_number holding w.regs w.size w.raw
          w.inside)
]
