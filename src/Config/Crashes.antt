-- ===== src/Config/Crashes.antt =====
-- The configuration after a loss of power at any step of a save.
use freeway_pi.Base.{
  ℕ, zero, suc, ◌≡◌, refl, sym, ap, subst, ◌∙◌, ◌⊎◌, inl, inr, true, false, ◌&&◌, Option, none,
  some, List, [], ◌∷◌, ◌++◌, Bool-cases, take, Result-cases, ok,
}
use freeway_pi.Base.Texts.{Text}
use freeway_pi.Config.{
  Settings, validate, Json, Contents, missing, holding, default_config, error_of, parsed, load,
}
use freeway_pi.Config.Disks.{
  File, Disk, Op, create, append, sync, rename, remove, append_file, sync_file, rename_file, do_op,
  do_ops, Answers, rename_steps, after_sync, then_do, after_append, after_create, file_steps,
  marshalled, checked, save,
}

-- What a start after a loss of power may find of a file: nothing where there was none, its bytes
-- where they are on the disk for sure, and anything where they are not.
unfoldable pub Survives : Option File → Contents → Type 0
Survives none found = found ≡ missing
Survives (some f) found = f.synced ≡ true → found ≡ holding f.bytes

-- The renaming itself may be lost too.
unfoldable pub Crashed : Disk → Contents → Type 0
Crashed d found = Survives d.before found ⊎ Survives d.target found

-- Nothing is on its way to the disk.
unfoldable pub IsDone : Option File → Type 0
IsDone none = Unit
IsDone (some f) = f.synced ≡ true

pub record Settled (d : Disk) : Type 0 where
  pub named : d.before ≡ d.target
  pub stored : IsDone d.target

unfoldable pub contents_of : Option File → Contents
contents_of none = missing
contents_of (some f) = holding f.bytes

abbrev new_file : Text → File
new_file text = record { bytes = text; synced = true }

-- Only a file with the whole text, on the disk for sure, is renamed.
Careful : Text → Option File → List Op → Type 0
Careful text temp [] = Unit
Careful text temp (create ∷ ops) = Careful text (some (record { bytes = []; synced = false })) ops
Careful text temp (append more ∷ ops) = Careful text (append_file more temp) ops
Careful text temp (sync ∷ ops) = Careful text (sync_file temp) ops
Careful text temp (rename ∷ ops) = (temp ≡ some (new_file text)) × Careful text none ops
Careful text temp (remove ∷ ops) = Careful text none ops

module _ (a : Answers) (text : Text) where
  Careful-rename : Careful text (some (new_file text)) (rename_steps a).0
  unfolding rename_steps Careful
  Careful-rename = elim (Bool-cases a.rename_works) [
    | inl works ↦ simp (works) (refl, tt)
    | inr fails ↦ simp (fails) tt
  ]

  Careful-after_sync : Careful text (some (new_file text)) (after_sync a).0
  unfolding after_sync
  Careful-after_sync = elim (Bool-cases (a.close_works && a.chmod)) [
    | inl works ↦ simp (works) Careful-rename
    | inr fails ↦ simp (fails) (unfold Careful in tt)
  ]

  Careful-after_append :
      Careful text (some (record { bytes = text; synced = false })) (after_append a).0
  unfolding after_append then_do sync_file Careful
  Careful-after_append = elim (Bool-cases a.sync_works) [
    | inl works ↦ simp (works) Careful-after_sync
    | inr fails ↦ simp (fails) tt
  ]

  Careful-after_create :
      Careful text (some (record { bytes = []; synced = false })) (after_create a text).0
  unfolding after_create then_do append_file Careful
  Careful-after_create = elim (Bool-cases a.write) [
    | inl works ↦ simp (works) Careful-after_append
    | inr fails ↦ simp (fails) tt
  ]

  Careful-file_steps : (temp : Option File) → Careful text temp (file_steps a text).0
  unfolding file_steps then_do Careful
  Careful-file_steps temp = elim (Bool-cases (a.mkdir && a.create_temp)) [
    | inl works ↦ simp (works) Careful-after_create
    | inr fails ↦ simp (fails) tt
  ]

-- The target as it was, or the new file; and the disk still knows the old one.
record Kept (text : Text) (d e : Disk) : Type 0 where
  before : e.before ≡ d.before
  target : (e.target ≡ d.target) ⊎ (e.target ≡ some (new_file text))

-- From a target that is the old one or the new.
do_ops-Kept :
    (text : Text) (ops : List Op) (k : ℕ) (d e : Disk)
    → Careful text e.temp ops
    → Kept text d e
    → Kept text d (do_ops (take k ops) e)
unfolding do_ops do_op rename_file Careful
do_ops-Kept text ops zero d e h g = g
do_ops-Kept text [] (suc k) d e h g = g
do_ops-Kept text (create ∷ ops) (suc k) d e h g =
    do_ops-Kept text ops k d _ h (record { before = g.before; target = g.target })
do_ops-Kept text (append more ∷ ops) (suc k) d e h g =
    do_ops-Kept text ops k d _ h (record { before = g.before; target = g.target })
do_ops-Kept text (sync ∷ ops) (suc k) d e h g =
    do_ops-Kept text ops k d _ h (record { before = g.before; target = g.target })
do_ops-Kept text (rename ∷ ops) (suc k) d e (whole, h) g =
    let done : Disk = record e { target = some (new_file text); temp = none } in
    let rest = do_ops-Kept text ops k d done h (record { before = g.before; target = inr refl }) in
    let same : rename_file e e.temp ≡ done = ap (rename_file e) whole in
    subst (λ (x : Disk). Kept text d (do_ops (take k ops) x)) (sym same) rest
do_ops-Kept text (remove ∷ ops) (suc k) d e h g =
    do_ops-Kept text ops k d _ h (record { before = g.before; target = g.target })

Survives-done :
    (f : Option File) (found : Contents) → IsDone f → Survives f found → found ≡ contents_of f
unfolding IsDone Survives contents_of
Survives-done none found h g = g
Survives-done (some f) found h g = g h

Kept-found :
    (text : Text) (d e : Disk) (found : Contents)
    → Settled d
    → Kept text d e
    → Crashed e found
    → (found ≡ contents_of d.target) ⊎ (found ≡ holding text)
unfolding Crashed contents_of
Kept-found text d e found s k (inl old) =
    let same : e.before ≡ d.target = k.before ∙ s.named in
    inl (Survives-done d.target found s.stored (subst (λ f. Survives f found) same old))
Kept-found text d e found s k (inr now) = elim k.target [
  | inl same ↦ inl (Survives-done d.target found s.stored (subst (λ f. Survives f found) same now))
  | inr new ↦ inr (
      Survives-done (some (new_file text)) found (unfold IsDone in refl)
        (subst (λ f. Survives f found) new now))
]

save-Careful :
    (json : Json) (a : Answers) (c : Settings) (text : Text) (temp : Option File)
    → json.marshal c ≡ some text
    → (Careful (text ++ (10 ∷ [])) temp (save json a c).0)
      × (((save json a c).0 ≡ []) ⊎ (validate c ≡ ok tt))
unfolding save checked marshalled
save-Careful json a c text temp h = elim (Result-cases (validate c)) [
  | inl (u, valid) ↦ simp (valid, h) (Careful-file_steps a (text ++ (10 ∷ [])) temp, inr refl)
  | inr (e, bad) ↦ simp (bad) (unfold Careful in tt, inl refl)
]

Settled-found :
    (d : Disk) (found : Contents) → Settled d → Crashed d found → found ≡ contents_of d.target
unfolding Crashed
Settled-found d found s (inl old) =
    Survives-done d.target found s.stored (subst (λ f. Survives f found) s.named old)
Settled-found d found s (inr now) = Survives-done d.target found s.stored now

do_ops-nil : (k : ℕ) (d : Disk) → do_ops (take k []) d ≡ d
unfolding do_ops
do_ops-nil zero d = refl
do_ops-nil (suc k) d = refl

-- A save of a configuration whose text is read back as it, over a file that is on the disk for sure
-- or is not there, with calls that may fail anywhere: a loss of power after any of its steps leaves
-- a file from which the next start loads what it would have loaded before, or the configuration
-- saved without an error.
pub save_crash :
    (json : Json) (a : Answers) (c : Settings) (text : Text) (k : ℕ) (d : Disk) (found : Contents)
    → Settled d
    → json.marshal c ≡ some text
    → json.unmarshal (text ++ (10 ∷ [])) default_config ≡ some c
    → Crashed (do_ops (take k (save json a c).0) d) found
    → (load json found ≡ load json (contents_of d.target)) ⊎ (load json found ≡ (c, none))
unfolding load parsed
save_crash json a c text k d found settled written read crashed =
    let (careful, stopped_or_valid) = save-Careful json a c text d.temp written in
    let kept =
      do_ops-Kept (text ++ (10 ∷ [])) (save json a c).0 k d d careful
        (record { before = refl; target = inl refl }) in
    elim (Kept-found (text ++ (10 ∷ [])) d _ found settled kept crashed) [
      | inl old ↦ inl (ap (load json) old)
      | inr new ↦ elim stopped_or_valid [
        | inr valid ↦ inr (ap (load json) new ∙ rw (read, valid) (unfold error_of in refl))
        | inl stopped ↦
            let same = ap (λ ops. do_ops (take k ops) d) stopped ∙ do_ops-nil k d in
            inl (
              ap (load json)
                (Settled-found d found settled (subst (λ e. Crashed e found) same crashed)))
      ]
    ]
