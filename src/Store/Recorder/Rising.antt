-- ===== src/Store/Recorder/Rising.antt =====
-- No snapshot is stored twice.
use freeway_pi.Base.{
  ℕ, zero, suc, ◌-◌, ◌*◌, ◌≤◌, ◌<◌, ◌≡◌, refl, sym, ap, subst, ◌∙◌, inl, inr, Option, none, some,
  List, [], ◌∷◌, arith, leb, ◌==◌, ==_iff, Bool-cases,
}
use freeway_pi.Eda.State.{State}
use freeway_pi.Store.Recorder.{
  Reading, samples_from, Given, snapshot, own, Recorder, Tick, own_readings, record_host,
  store_readings, record_tick, new_recorder, run,
}

-- The snapshots given to the store, the newest first, were taken later and later, and none after the
-- bound.
unfoldable pub Rising : List Given → ℕ → Type 0
Rising [] bound = Unit
Rising (own now readings ∷ log) bound = Rising log bound
Rising (snapshot zero readings ∷ log) bound = ⊥
Rising (snapshot (suc taken) readings ∷ log) bound = (suc taken ≤ bound) × Rising log taken

-- When the state was taken, or the time before where there is none.
unfoldable pub taken_by : Option State → ℕ → ℕ
taken_by none before = before
taken_by (some st) before = st.taken

-- The states of the ticks are taken at instants that do not go back.
unfoldable pub Forward : List Tick → ℕ → Type 0
Forward [] from = Unit
Forward (t ∷ ticks) from = (from ≤ taken_by t.state from) × Forward ticks (taken_by t.state from)

Rising-later : (log : List Given) (a b : ℕ) → a ≤ b → Rising log a → Rising log b
unfolding Rising
Rising-later [] a b h g = tt
Rising-later (own now readings ∷ log) a b h g = Rising-later log a b h g
Rising-later (snapshot zero readings ∷ log) a b h g = g
Rising-later (snapshot (suc taken) readings ∷ log) a b h (low, g) = (omega arith, g)

own-Rising :
    (t : Tick) (o : Option (List Reading)) (r : Recorder)
    → Rising r.log r.last_seen
    → (Rising (record_host t o r).log r.last_seen) × ((record_host t o r).last_seen ≡ r.last_seen)
unfolding record_host own_readings Rising
own-Rising t none r h = (h, refl)
own-Rising t (some []) r h = elim (Bool-cases (leb (10 * 1000000000) (t.now - r.last_host))) [
  | inl due ↦ rw (due) (h, refl)
  | inr early ↦ rw (early) (h, refl)
]
own-Rising t (some (x ∷ xs)) r h = elim (Bool-cases (leb (10 * 1000000000) (t.now - r.last_host))) [
  | inl due ↦ rw (due) (h, refl)
  | inr early ↦ rw (early) (h, refl)
]

store-Rising :
    (t : Tick) (taken last : ℕ) (readings : List Reading) (r : Recorder)
    → r.last_seen ≡ taken
    → last < taken
    → Rising r.log last
    → (Rising (store_readings t taken readings r).log taken)
      × ((store_readings t taken readings r).last_seen ≡ taken)
unfolding store_readings Rising
store-Rising t taken last [] r e h g = (Rising-later r.log last taken (omega arith) g, e)
store-Rising t zero last (x ∷ xs) r e h g = absurd (omega arith)
store-Rising t (suc taken) last (x ∷ xs) r e h g =
    ((omega arith, Rising-later r.log last taken (omega arith) g), e)

-- One tick, and the states still to come.
tick-Rising :
    (t : Tick) (o : Option State) (r : Recorder)
    → ((st : State) → o ≡ some st → r.last_seen ≤ st.taken)
    → Rising r.log r.last_seen
    → (Rising (record_tick t o r).log (record_tick t o r).last_seen)
      × (r.last_seen ≤ (record_tick t o r).last_seen)
      × ((st : State) → o ≡ some st → (record_tick t o r).last_seen ≡ st.taken)
unfolding record_tick
tick-Rising t none r later h =
    let (kept, same) = own-Rising t t.host r h in
    (
      subst (Rising (record_host t t.host r).log) (sym same) kept,
      omega (arith, same),
      λ st e. absurd cc,
    )
tick-Rising t (some st) r later h = elim (Bool-cases (st.taken == r.last_seen)) [
  | inl seen ↦
      let (kept, same) = own-Rising t t.host r h in
      rw (seen) (
        subst (Rising (record_host t t.host r).log) (sym same) kept,
        omega (arith, same),
        λ su e.
            let one : st ≡ su = cc in
            same ∙ sym ((==_iff st.taken r.last_seen).0 seen) ∙ ap (λ (x : State). x.taken) one,
      )
  | inr new ↦
      let less : r.last_seen < st.taken = ground (arith, later st refl, new) in
      let (kept, same) =
        store-Rising t st.taken r.last_seen (samples_from t.error_rate st)
          (record r { last_seen = st.taken }) refl less h in
      rw (new) (
        subst
            (Rising
              (store_readings t st.taken (samples_from t.error_rate st)
                (record r { last_seen = st.taken })).log)
            (sym same) kept,
        omega (arith, same, less),
        λ su e. let one : st ≡ su = cc in same ∙ ap (λ (x : State). x.taken) one,
      )
]

seen-Rising :
    (t : Tick) (o : Option State) (from : ℕ) (r : Recorder)
    → from ≤ taken_by o from
    → r.last_seen ≤ from
    → Rising r.log r.last_seen
    → (Rising (record_tick t o r).log (record_tick t o r).last_seen)
      × ((record_tick t o r).last_seen ≤ taken_by o from)
unfolding taken_by
seen-Rising t none from r later before h =
    let (kept, same) = own-Rising t t.host r h in
    let (rising, grown, seen) = tick-Rising t none r (λ st e. absurd cc) h in
    (rising, unfold record_tick in omega (arith, same, before))
seen-Rising t (some st) from r later before h =
    let after : (su : State) → some st ≡ some su → r.last_seen ≤ su.taken = λ su e.
      let one : st ≡ su = cc in
      subst (λ (x : State). r.last_seen ≤ x.taken) one (omega (arith, later, before)) in
    let (rising, grown, seen) = tick-Rising t (some st) r after h in
    (rising, omega (arith, seen st refl))

run_from :
    (ticks : List Tick) (from : ℕ) (r : Recorder)
    → Forward ticks from
    → r.last_seen ≤ from
    → Rising r.log r.last_seen
    → Rising (run ticks r).log (run ticks r).last_seen
unfolding run Forward
run_from [] from r ahead before h = h
run_from (t ∷ ticks) from r (later, ahead) before h =
    let (rising, bounded) = seen-Rising t t.state from r later before h in
    run_from ticks (taken_by t.state from) (record_tick t t.state r) ahead bounded rising

-- Over any run of ticks from a new recorder, whose states were taken at instants that do not go
-- back: the snapshots given to the store were taken strictly one after the other, so that none is
-- given twice, and the last not after the one last seen.
pub run-Rising :
    (ticks : List Tick)
    → Forward ticks 0
    → Rising (run ticks new_recorder).log (run ticks new_recorder).last_seen
run-Rising ticks ahead =
    run_from ticks 0 new_recorder ahead (unfold new_recorder in omega arith)
      (unfold new_recorder Rising in tt)
