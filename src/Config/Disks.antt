-- ===== src/Config/Disks.antt =====
-- internal/config/config.go, Save: what it asks of the operating system, and what is on the disk
-- after each step and after the power is lost.
use freeway_pi.Base.{
  ℕ, Bool, true, false, ◌&&◌, Option, none, some, List, [], ◌∷◌, ◌++◌, if◌then◌else◌, take, Result,
  ok, err,
}
use freeway_pi.Base.Texts.{Text}
use freeway_pi.Config.{Settings, ConfigError, validate, Json}

-- A file with what was written to it, and whether that is on the disk for sure.
pub record File : Type 0 where
  pub bytes : Text
  pub synced : Bool

-- The file of the configuration as it is named now, as the disk may still name it, and the
-- temporary one.
pub record Disk : Type 0 where
  pub target : Option File
  pub before : Option File
  pub temp : Option File

pub data Op : Type 0 where
  create : Op
  append : Text → Op
  sync : Op
  rename : Op
  remove : Op

unfoldable pub append_file : Text → Option File → Option File
append_file text none = none
append_file text (some f) = some (record { bytes = f.bytes ++ text; synced = false })

unfoldable pub sync_file : Option File → Option File
sync_file none = none
sync_file (some f) = some (record f { synced = true })

-- A rename onto the target; with nothing to rename it fails and changes nothing.
unfoldable pub rename_file : Disk → Option File → Disk
rename_file d none = d
rename_file d (some f) = record d { target = some f; temp = none }

unfoldable pub do_op : Op → Disk → Disk
do_op create d = record d { temp = some (record { bytes = []; synced = false }) }
do_op (append text) d = record d { temp = append_file text d.temp }
do_op sync d = record d { temp = sync_file d.temp }
do_op rename d = rename_file d d.temp
do_op remove d = record d { temp = none }

unfoldable pub do_ops : List Op → Disk → Disk
do_ops [] d = d
do_ops (o ∷ ops) d = do_ops ops (do_op o d)

-- What the calls answer: whether each works, and how many bytes are written at least.
pub record Answers : Type 0 where
  pub mkdir : Bool
  pub create_temp : Bool
  pub write : Bool
  pub written : ℕ
  pub sync_works : Bool
  pub close_works : Bool
  pub chmod : Bool
  pub rename_works : Bool

-- The steps of `Save` from the renaming back to its start. Each ends with the deferred removal of
-- the temporary file, and says whether it returns no error.
unfoldable pub rename_steps : Answers → List Op × Bool
rename_steps a = if a.rename_works then (rename ∷ remove ∷ [], true) else (remove ∷ [], false)

unfoldable pub after_sync : Answers → List Op × Bool
after_sync a = if a.close_works && a.chmod then rename_steps a else (remove ∷ [], false)

unfoldable pub then_do : Op → List Op × Bool → List Op × Bool
then_do o (ops, fine) = (o ∷ ops, fine)

unfoldable pub after_append : Answers → List Op × Bool
after_append a = if a.sync_works then then_do sync (after_sync a) else (remove ∷ [], false)

unfoldable pub after_create : Answers → Text → List Op × Bool
after_create a text =
    if a.write
    then then_do (append text) (after_append a)
    else then_do (append (take a.written text)) (remove ∷ [], false)

unfoldable pub file_steps : Answers → Text → List Op × Bool
file_steps a text =
    if a.mkdir && a.create_temp then then_do create (after_create a text) else ([], false)

unfoldable pub marshalled : Answers → Option Text → List Op × Bool
marshalled a none = ([], false)
marshalled a (some text) = file_steps a (text ++ (10 ∷ []))

unfoldable pub checked : Result ConfigError (Unit {0}) → List Op × Bool → List Op × Bool
checked (ok _) steps = steps
checked (err e) steps = ([], false)

-- `Save`: the steps it takes, and whether it returns no error.
unfoldable pub save : Json → Answers → Settings → List Op × Bool
save json a c = checked (validate c) (marshalled a (json.marshal c))
