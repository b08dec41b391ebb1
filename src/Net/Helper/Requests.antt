-- ===== src/Net/Helper/Requests.antt =====
-- What a reader by lines finds in a request.
use freeway_pi.Base.{
  ◌≡◌, refl, sym, ap, ◌∙◌, inl, inr, false, List, [], ◌∷◌, ◌++◌, map, arith, ◌==◌, if◌then◌else◌,
  Bool-cases, All, Result-cases, ok,
}
use freeway_pi.Base.Texts.{Text, codes}
use mathlib.Core.List.{append-nil, append_assoc}
use freeway_pi.Net.Helper.{Field, has_break, line, write_field, write_fields, request}

-- The lines of a text, each ended by a line feed; what follows the last one is dropped.
unfoldable pub lines : (line : Text) → Text → List Text
lines line [] = []
lines line (x ∷ t) =
    let next = line ∷ lines [] t in
    let more = lines (line ++ (x ∷ [])) t in if x == 10 then next else more

-- The line of a field, without its end.
unfoldable pub entry : Field → Text
entry f = f.key ++ (61 ∷ f.value)

abbrev pub Clear : Text → Type 0
Clear t = has_break t ≡ false

lines-append :
    (line t rest : Text) → Clear t → lines line (t ++ (10 ∷ rest)) ≡ (line ++ t) ∷ lines [] rest
unfolding lines has_break
lines-append line [] rest h = ap (λ (l : Text). l ∷ lines [] rest) (sym (append-nil line))
lines-append line (x ∷ t) rest h =
    let here : (x == 10) ≡ false = ground arith in
    let there : Clear t = ground arith in
    rw (here) (
      lines-append (line ++ (x ∷ [])) t rest there
      ∙ ap (λ (l : Text). l ∷ lines [] rest) (append_assoc line (x ∷ []) t))

has_break-append : (t u : Text) → Clear t → Clear u → Clear (t ++ u)
unfolding has_break
has_break-append [] u h g = g
has_break-append (x ∷ t) u h g = ground (arith, has_break-append t u)

entry-Clear : (f : Field) → Clear f.key → Clear f.value → Clear (entry f)
unfolding entry
entry-Clear f h g = has_break-append f.key (61 ∷ f.value) h (unfold has_break in ground (arith, g))

line-entry : (f : Field) (rest : Text) → line f ++ rest ≡ entry f ++ (10 ∷ rest)
unfolding line entry
line-entry f rest = simp append_assoc

write_fields-lines :
    (fields : List Field) (text : Text)
    → All (λ (f : Field). Clear f.key) fields
    → write_fields fields ≡ ok text
    → (lines [] text ≡ map entry fields ++ (codes "." ∷ []))
      × All (λ (f : Field). Clear f.value) fields
unfolding write_fields write_field
write_fields-lines [] text h e =
    let made : 46 ∷ 10 ∷ [] ≡ text = ground (arith, e) in (rw (← made) (unfold lines in refl), tt)
write_fields-lines (f ∷ fields) text (key, keys) e = elim (Bool-cases (has_break f.value)) [
  | inl bad ↦ absurd (ground (arith, e, bad))
  | inr good ↦ elim (Result-cases (write_fields fields)) [
    | inr (why, failed) ↦ absurd (ground (arith, e, good, failed))
    | inl (rest, written) ↦
        let made : line f ++ rest ≡ text = ground (arith, e, good, written) in
        let (more, values) = write_fields-lines fields rest keys written in
        (
          rw
              (
                ← made,
                line-entry f rest,
                lines-append [] (entry f) rest (entry-Clear f key good),
                more,
              )
              refl,
          (good, values),
        )
  ]
]

-- Whatever the values, also those that came over the network: a request that is written, of fields
-- whose keys hold no line break, is read by lines as the operation, the fields in their order and
-- the dot, and no value in it holds a line break.
pub request-lines :
    (op : Text) (fields : List Field) (text : Text)
    → All (λ (f : Field). Clear f.key) fields
    → request op fields ≡ ok text
    → (lines [] text ≡ (codes "op=" ++ op) ∷ (map entry fields ++ (codes "." ∷ [])))
      × Clear op
      × All (λ (f : Field). Clear f.value) fields
unfolding request
request-lines op fields text keys h =
    let (read, (clear, values)) =
      write_fields-lines (record { key = codes "op"; value = op } ∷ fields) text
        (unfold has_break in refl, keys) h in
    (unfold entry in read, clear, values)
