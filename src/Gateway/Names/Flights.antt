-- ===== src/Gateway/Names/Flights.antt =====
-- However the questions and the ends of lookups follow each other.
use freeway_pi.Base.{
  ℕ, ◌+◌, ◌≤◌, ◌≡◌, refl, sym, ap, subst, ◌∙◌, inl, inr, Bool, true, false, ◌||◌, Option, none,
  some, List, [], ◌∷◌, arith, ltb, ◌==◌, if◌then◌else◌, Bool-cases,
}
use freeway_pi.Base.Texts.{Text, same_text, same_text_refl, same_text→eq, is_empty}
use freeway_pi.Gateway.Names.{
  NameEntry, Resolver, new_resolver, find_entry, put_entry, start_lookup, with_entry, name,
  answer_entry, land, resolve,
}

-- A question, or the end of a lookup of an address, which is one of those running.
pub data Event : Type 0 where
  asked : (now : ℕ) → (ip : Text) → Event
  landed : (now : ℕ) → (ip : Text) → Option (List Text) → Event

unfoldable pub flights : Text → List Text → ℕ
flights ip [] = 0
flights ip (k ∷ m) = (if same_text k ip then 1 else 0) + flights ip m

unfoldable pub step : Event → Resolver → Resolver
step (asked now ip) r = (name now ip r).1
step (landed now ip names) r = if flights ip r.running == 0 then r else resolve now ip names r

unfoldable pub run : List Event → Resolver → Resolver
run [] r = r
run (e ∷ events) r = run events (step e r)

unfoldable pub is_pending : Option NameEntry → ℕ
is_pending none = 0
is_pending (some e) = if e.pending then 1 else 0

-- An address has a lookup running exactly when its entry says so, and then one.
abbrev Counted : Resolver → Type 0
Counted r = (ip : Text) → flights ip r.running ≡ is_pending (find_entry ip r.entries)

find_entry-put_entry :
    (ip j : Text) (e : NameEntry) (m : List (Text × NameEntry))
    → find_entry j (put_entry ip e m) ≡ (if same_text ip j then some e else find_entry j m)
unfolding find_entry put_entry
find_entry-put_entry ip j e [] = refl
find_entry-put_entry ip j e ((k, f) ∷ m) =
    let rest = find_entry-put_entry ip j e m in
    elim (Bool-cases (same_text k ip)) [
      | inl same ↦
          rw (same, same_text→eq k ip same)
            (elim (Bool-cases (same_text ip j)) [
              | inl here ↦ rw (here) refl
              | inr there ↦ rw (there) refl
            ])
      | inr differs ↦ rw (differs) (elim (Bool-cases (same_text k j)) [
        | inl here ↦ elim (Bool-cases (same_text ip j)) [
          | inr other ↦ rw (here, other) refl
          | inl also ↦ absurd (
              let e : k ≡ ip = same_text→eq k j here ∙ sym (same_text→eq ip j also) in
              let yes_same : same_text k ip ≡ true = rw (e) (same_text_refl ip) in cc)
        ]
        | inr there ↦ rw (there) rest
      ])
    ]

start-Counted :
    (ip : Text) (e : NameEntry) (r : Resolver)
    → flights ip r.running ≡ 0
    → Counted r
    → Counted (start_lookup ip e r).1
unfolding start_lookup flights is_pending
start-Counted ip e r idle h j =
    rw (find_entry-put_entry ip j (record e { pending = true }) r.entries)
      (elim (Bool-cases (same_text ip j)) [
        | inl same ↦
            let none_yet : flights j r.running ≡ 0 =
              subst (λ (t : Text). flights t r.running ≡ 0) (same_text→eq ip j same) idle in
            rw (same, none_yet) refl
        | inr other ↦ rw (other) (omega (arith, h j))
      ])

flights-land_other :
    (ip j : Text) (m : List Text) → same_text ip j ≡ false → flights j (land ip m) ≡ flights j m
unfolding flights land
flights-land_other ip j [] h = refl
flights-land_other ip j (k ∷ m) h =
    let rest = flights-land_other ip j m h in
    elim (Bool-cases (same_text k ip)) [
      | inr differs ↦ rw (differs) (omega (arith, rest))
      | inl same ↦
          let other : same_text k j ≡ false = rw (same_text→eq k ip same) h in
          rw (same, other) (omega arith)
    ]

flights-land_self : (ip : Text) (m : List Text) → flights ip m ≤ 1 → flights ip (land ip m) ≡ 0
unfolding flights land
flights-land_self ip [] h = refl
flights-land_self ip (k ∷ m) h =
    let rest = flights-land_self ip m in
    elim (Bool-cases (same_text k ip)) [
      | inl same ↦ rw (same) (ground (arith, h, same))
      | inr differs ↦ rw (differs) (ground (arith, rest, h, differs))
    ]

is_pending-le : (o : Option NameEntry) → is_pending o ≤ 1
unfolding is_pending
is_pending-le none = omega arith
is_pending-le (some e) = ground arith

not_pending :
    (now : ℕ) (names : Option (List Text)) → is_pending (some (answer_entry now names)) ≡ 0
unfolding is_pending answer_entry
not_pending now none = refl
not_pending now (some []) = refl
not_pending now (some (first ∷ rest)) = refl

resolve-Counted :
    (now : ℕ) (ip : Text) (names : Option (List Text)) (r : Resolver)
    → Counted r
    → Counted (resolve now ip names r)
unfolding resolve
resolve-Counted now ip names r h j =
    rw (find_entry-put_entry ip j (answer_entry now names) r.entries)
      (elim (Bool-cases (same_text ip j)) [
        | inl same ↦
            let few : flights ip r.running ≤ 1 =
              omega (arith, h ip, is_pending-le (find_entry ip r.entries)) in
            let gone : flights j (land ip r.running) ≡ 0 =
              subst (λ (t : Text). flights t (land ip r.running) ≡ 0) (same_text→eq ip j same)
                (flights-land_self ip r.running few) in
            rw (same) (gone ∙ sym (not_pending now names))
        | inr other ↦ rw (other) (flights-land_other ip j r.running other ∙ h j)
      ])

with_entry-Counted :
    (now : ℕ) (ip : Text) (o : Option NameEntry) (r : Resolver)
    → find_entry ip r.entries ≡ o
    → Counted r
    → Counted (with_entry now ip o r).1
unfolding with_entry
with_entry-Counted now ip none r found h =
    start-Counted ip _ r (h ip ∙ ap is_pending found ∙ unfold is_pending in refl) h
with_entry-Counted now ip (some e) r found h =
    let cached = λ (b : Bool). Counted (if b then (e.name, r) else start_lookup ip e r).1 in
    elim (Bool-cases (ltb now e.expires || e.pending)) [
      | inl fresh ↦ subst cached (sym fresh) h
      | inr stale ↦
          let rest : e.pending ≡ false = ground (arith, stale) in
          let idle : flights ip r.running ≡ 0 =
            h ip
            ∙ ap is_pending found
            ∙ unfold is_pending in ap (λ (b : Bool). if b then 1 else 0) rest in
          subst cached (sym stale) (start-Counted ip e r idle h)
    ]

name-Counted : (now : ℕ) (ip : Text) (r : Resolver) → Counted r → Counted (name now ip r).1
unfolding name
name-Counted now ip r h =
    let asked_for = λ (b : Bool).
      Counted (if b then ([], r) else with_entry now ip (find_entry ip r.entries) r).1 in
    elim (Bool-cases (is_empty ip)) [
      | inl blank ↦ subst asked_for (sym blank) h
      | inr given ↦
          subst asked_for (sym given) (with_entry-Counted now ip (find_entry ip r.entries) r refl h)
    ]

step-Counted : (e : Event) (r : Resolver) → Counted r → Counted (step e r)
unfolding step
step-Counted (asked now ip) r h = name-Counted now ip r h
step-Counted (landed now ip names) r h =
    let ended = λ (b : Bool). Counted (if b then r else resolve now ip names r) in
    elim (Bool-cases (flights ip r.running == 0)) [
      | inl idle ↦ subst ended (sym idle) h
      | inr flying ↦ subst ended (sym flying) (resolve-Counted now ip names r h)
    ]

run-Counted : (events : List Event) (r : Resolver) → Counted r → Counted (run events r)
unfolding run
run-Counted [] r h = h
run-Counted (e ∷ events) r h = run-Counted events (step e r) (step-Counted e r h)

-- However the questions for names and the ends of lookups follow each other: no address ever has
-- more than one lookup running, and it has one exactly when its entry is marked so.
pub run-flights :
    (events : List Event) (ip : Text)
    → (flights ip (run events new_resolver).running ≤ 1)
      × (flights ip (run events new_resolver).running
          ≡ is_pending (find_entry ip (run events new_resolver).entries))
run-flights events ip =
    let counted =
      run-Counted events new_resolver
        (unfold new_resolver flights find_entry is_pending in λ j. refl) ip in
    (
      omega (arith, counted, is_pending-le (find_entry ip (run events new_resolver).entries)),
      counted,
    )
