-- ===== src/Config/Examples.antt =====
-- A save at concrete inputs.
use freeway_pi.Base.{◌≡◌, refl, ◌⊎◌, inl, true, false, Option, none, some, [], ◌∷◌, ◌++◌, take, ok}
use freeway_pi.Base.Texts.{codes, is_empty}
use freeway_pi.Config.{Settings, default_config, Json, holding, validate, not_positive, load}
use freeway_pi.Config.Disks.{
  File, Disk, Answers, do_ops, do_op, append_file, sync_file, rename_file, save, checked,
  marshalled, file_steps, then_do, after_create, after_append, after_sync, rename_steps,
}
use freeway_pi.Config.Crashes.{Crashed, Survives, IsDone, contents_of, save_crash}
use freeway_pi.Config.Saves.{save_ends}

default_accepted : validate default_config ≡ ok tt
unfolding validate default_config not_positive is_empty
default_accepted = refl

abbrev renamed : Settings
renamed = record default_config { log_level = codes "debug" }

-- A coder that knows one text.
abbrev coder : Json
coder = record { marshal = λ c. some (codes "{}"); unmarshal = λ t c. some renamed }

abbrev all_work : Answers
all_work = record {
  mkdir = true;
  create_temp = true;
  write = true;
  written = 0;
  sync_works = true;
  close_works = true;
  chmod = true;
  rename_works = true;
}

abbrev old_disk : Disk
old_disk =
    let old : Option File = some (record { bytes = codes "old"; synced = true }) in
    record { target = old; before = old; temp = none }

-- The power is lost after the renaming, which is lost with it.
renaming_lost :
    Crashed (do_ops (take 4 (save coder all_work renamed).0) old_disk) (holding (codes "old"))
unfolding Crashed Survives save checked marshalled file_steps then_do after_create after_append
    after_sync rename_steps do_ops do_op append_file sync_file rename_file validate default_config
    not_positive is_empty
renaming_lost = inl (λ h. refl)

save_crash_example :
    (load coder (holding (codes "old")) ≡ load coder (contents_of old_disk.target))
    ⊎ (load coder (holding (codes "old")) ≡ (renamed, none))
save_crash_example =
    save_crash coder all_work renamed (codes "{}") 4 old_disk (holding (codes "old"))
      (record { named = refl; stored = unfold IsDone in refl }) refl refl renaming_lost

save_ends_example :
    (((save coder all_work renamed).1 ≡ true)
      × (validate renamed ≡ ok tt)
      × (load coder (contents_of (do_ops (save coder all_work renamed).0 old_disk).target)
          ≡ (renamed, none)))
    ⊎ (((save coder all_work renamed).1 ≡ false)
        × ((do_ops (save coder all_work renamed).0 old_disk).target ≡ old_disk.target))
save_ends_example = save_ends coder all_work renamed (codes "{}") old_disk refl refl

-- Without the synchronising, the bytes would not be on the disk for sure: here they are.
renamed_synced :
    (do_ops (save coder all_work renamed).0 old_disk).target
    ≡ some (record { bytes = codes "{}" ++ (10 ∷ []); synced = true })
unfolding save checked marshalled file_steps then_do after_create after_append after_sync
    rename_steps do_ops do_op append_file sync_file rename_file validate default_config not_positive
    is_empty
renamed_synced = refl
