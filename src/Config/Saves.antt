-- ===== src/Config/Saves.antt =====
-- What a save that returns leaves.
use freeway_pi.Base.{
  ◌≡◌, refl, ap, ◌∙◌, ◌⊎◌, inl, inr, Bool, true, false, ◌&&◌, none, some, List, [], ◌∷◌, ◌++◌,
  Bool-cases, Result-cases, ok,
}
use freeway_pi.Base.Texts.{Text}
use freeway_pi.Config.{Settings, validate, Json, holding, default_config, error_of, parsed, load}
use freeway_pi.Config.Disks.{
  Disk, Op, create, append, sync, append_file, sync_file, rename_file, do_op, do_ops, Answers,
  rename_steps, after_sync, then_do, after_append, after_create, file_steps, marshalled, checked,
  save,
}
use freeway_pi.Config.Crashes.{contents_of}

-- Steps that say that they worked leave the text as the target, and any others leave the target.
unfoldable pub Ends : Text → Disk → List Op × Bool → Type 0
Ends text d (ops, fine) =
    ((fine ≡ true) × ((do_ops ops d).target ≡ some (record { bytes = text; synced = true })))
    ⊎ ((fine ≡ false) × ((do_ops ops d).target ≡ d.target))

module _ (a : Answers) (text : Text) where
  rename_steps-Ends :
      (d : Disk)
      → d.temp ≡ some (record { bytes = text; synced = true })
      → Ends text d (rename_steps a)
  unfolding rename_steps Ends do_ops do_op rename_file
  rename_steps-Ends d whole = elim (Bool-cases a.rename_works) [
    | inl works ↦ simp (works) (inl (refl, ap (λ f. (rename_file d f).target) whole))
    | inr fails ↦ simp (fails) (inr (refl, refl))
  ]

  after_sync-Ends :
      (d : Disk)
      → d.temp ≡ some (record { bytes = text; synced = true })
      → Ends text d (after_sync a)
  unfolding after_sync
  after_sync-Ends d whole = elim (Bool-cases (a.close_works && a.chmod)) [
    | inl works ↦ simp (works) (rename_steps-Ends d whole)
    | inr fails ↦ simp (fails) (unfold Ends do_ops do_op in inr (refl, refl))
  ]

-- One step more in front, which leaves the target.
then_do-Ends :
    (text : Text) (d : Disk) (o : Op) (steps : List Op × Bool)
    → (do_op o d).target ≡ d.target
    → Ends text (do_op o d) steps
    → Ends text d (then_do o steps)
unfolding then_do Ends do_ops
then_do-Ends text d o (ops, fine) same (inl done) = inl done
then_do-Ends text d o (ops, fine) same (inr (failed, kept)) = inr (failed, kept ∙ same)

module _ (a : Answers) (text : Text) where
  after_append-Ends :
      (d : Disk)
      → d.temp ≡ some (record { bytes = text; synced = false })
      → Ends text d (after_append a)
  unfolding after_append
  after_append-Ends d written = elim (Bool-cases a.sync_works) [
    | inl works ↦ simp (works) (
        then_do-Ends text d sync (after_sync a) (unfold do_op in refl)
          (after_sync-Ends a text (do_op sync d) (unfold do_op sync_file in ap sync_file written)))
    | inr fails ↦ simp (fails) (unfold Ends do_ops do_op in inr (refl, refl))
  ]

  after_create-Ends :
      (d : Disk)
      → d.temp ≡ some (record { bytes = []; synced = false })
      → Ends text d (after_create a text)
  unfolding after_create
  after_create-Ends d created = elim (Bool-cases a.write) [
    | inl works ↦ simp (works) (
        then_do-Ends text d (append text) (after_append a) (unfold do_op in refl) (
          after_append-Ends (do_op (append text) d)
            (unfold do_op append_file in ap (append_file text) created)))
    | inr fails ↦ simp (fails) (unfold then_do Ends do_ops do_op in inr (refl, refl))
  ]

  file_steps-Ends : (d : Disk) → Ends text d (file_steps a text)
  unfolding file_steps
  file_steps-Ends d = elim (Bool-cases (a.mkdir && a.create_temp)) [
    | inl works ↦ simp (works) (
        then_do-Ends text d create (after_create a text) (unfold do_op in refl)
          (after_create-Ends (do_op create d) (unfold do_op in refl)))
    | inr fails ↦ simp (fails) (unfold Ends do_ops in inr (refl, refl))
  ]

-- A save, with calls that may fail anywhere, of a configuration whose text is read back as it:
-- without an error, the next start loads that configuration without an error; with one, the file
-- is the one that was there. A configuration that is not valid is not saved.
pub save_ends :
    (json : Json) (a : Answers) (c : Settings) (text : Text) (d : Disk)
    → json.marshal c ≡ some text
    → json.unmarshal (text ++ (10 ∷ [])) default_config ≡ some c
    → (((save json a c).1 ≡ true)
        × (validate c ≡ ok tt)
        × (load json (contents_of (do_ops (save json a c).0 d).target) ≡ (c, none)))
      ⊎ (((save json a c).1 ≡ false) × ((do_ops (save json a c).0 d).target ≡ d.target))
unfolding save checked marshalled
save_ends json a c text d written read = elim (Result-cases (validate c)) [
  | inr (e, bad) ↦ simp (bad) (unfold do_ops in inr (refl, refl))
  | inl (u, valid) ↦
      let loaded : load json (holding (text ++ (10 ∷ []))) ≡ (c, none) =
        unfold load parsed error_of in rw (read, valid) refl in
      simp (valid, written)
        (unfold Ends contents_of in
          elim (file_steps-Ends a (text ++ (10 ∷ [])) d) [
            | inl (fine, done) ↦ inl (fine, refl, ap (λ f. load json (contents_of f)) done ∙ loaded)
            | inr (failed, kept) ↦ inr (failed, kept)
          ])
]
