-- ===== src/Net/Terse.antt =====
-- internal/netconf/wifi.go, unterse: a line of `nmcli -t`, its fields parted by colons, with a
-- backslash before each colon and backslash of a value.
use freeway_pi.Base.{
  ℕ, ◌≡◌, refl, sym, ap, ◌∙◌, inl, inr, Bool, true, false, not, ◌&&◌, ◌||◌, List, [], ◌∷◌, ◌++◌,
  arith, ◌==◌, if◌then◌else◌, Bool-cases,
}
use freeway_pi.Base.Texts.{Text}
use mathlib.Core.List.{append-nil, append_assoc}

-- The loop, with whether the byte before was a backslash that escapes this one; a backslash at the
-- end is dropped.
unfoldable pub unterse_loop :
    (escaped : Bool) → (fields : List Text) → (cur : Text) → Text → List Text
unterse_loop escaped fields cur [] = fields ++ (cur ∷ [])
unterse_loop escaped fields cur (x ∷ line) =
    let opened = unterse_loop true fields cur line in
    let next = unterse_loop false (fields ++ (cur ∷ [])) [] line in
    let more = unterse_loop false fields (cur ++ (x ∷ [])) line in
    if not escaped && x == 92 then opened else if not escaped && x == 58 then next else more

unfoldable pub unterse : Text → List Text
unterse line = unterse_loop false [] [] line

-- What nmcli makes of a value, and of a line of values.
unfoldable pub escape : Text → Text
escape [] = []
escape (x ∷ t) = if x == 92 || x == 58 then 92 ∷ x ∷ escape t else x ∷ escape t

unfoldable pub terse : Text → List Text → Text
terse t [] = escape t
terse t (u ∷ rest) = escape t ++ (58 ∷ terse u rest)

unterse_loop-slash :
    (fields : List Text) (cur : Text) (x : ℕ) (rest : Text)
    → unterse_loop false fields cur (92 ∷ x ∷ rest)
      ≡ unterse_loop false fields (cur ++ (x ∷ [])) rest
unfolding unterse_loop
unterse_loop-slash fields cur x rest = refl

unterse_loop-plain :
    (fields : List Text) (cur : Text) (x : ℕ) (rest : Text)
    → (x == 92 || x == 58) ≡ false
    → unterse_loop false fields cur (x ∷ rest) ≡ unterse_loop false fields (cur ++ (x ∷ [])) rest
unfolding unterse_loop
unterse_loop-plain fields cur x rest ordinary =
    let no_slash : (x == 92) ≡ false = ground (arith, ordinary) in
    let no_colon : (x == 58) ≡ false = ground (arith, ordinary) in rw (no_slash, no_colon) refl

unterse_loop-colon :
    (fields : List Text) (cur : Text) (rest : Text)
    → unterse_loop false fields cur (58 ∷ rest) ≡ unterse_loop false (fields ++ (cur ∷ [])) [] rest
unfolding unterse_loop
unterse_loop-colon fields cur rest = refl

unterse_loop-escape :
    (fields : List Text) (cur t rest : Text)
    → unterse_loop false fields cur (escape t ++ rest) ≡ unterse_loop false fields (cur ++ t) rest
unfolding escape
unterse_loop-escape fields cur [] rest =
    ap (λ (c : Text). unterse_loop false fields c rest) (sym (append-nil cur))
unterse_loop-escape fields cur (x ∷ t) rest =
    let next =
      unterse_loop-escape fields (cur ++ (x ∷ [])) t rest
      ∙ ap (λ (c : Text). unterse_loop false fields c rest) (append_assoc cur (x ∷ []) t) in
    elim (Bool-cases (x == 92 || x == 58)) [
      | inl special ↦ rw (special) (unterse_loop-slash fields cur x _ ∙ next)
      | inr ordinary ↦ rw (ordinary) (unterse_loop-plain fields cur x _ ordinary ∙ next)
    ]

unterse_loop-terse :
    (t : Text) (rest : List Text) (fields : List Text)
    → unterse_loop false fields [] (terse t rest) ≡ fields ++ (t ∷ rest)
unfolding terse
unterse_loop-terse t [] fields =
    ap (unterse_loop false fields []) (sym (append-nil (escape t)))
    ∙ unterse_loop-escape fields [] t []
    ∙ unfold unterse_loop in refl
unterse_loop-terse t (u ∷ rest) fields =
    unterse_loop-escape fields [] t (58 ∷ terse u rest)
    ∙ unterse_loop-colon fields t (terse u rest)
    ∙ unterse_loop-terse u rest (fields ++ (t ∷ []))
    ∙ append_assoc fields (t ∷ []) (u ∷ rest)

-- A line of one or more values, with their colons and backslashes escaped, is split into exactly
-- those values, whatever bytes are in them.
pub unterse-terse : (t : Text) (rest : List Text) → unterse (terse t rest) ≡ t ∷ rest
unfolding unterse
unterse-terse t rest = unterse_loop-terse t rest []
