-- ===== src/ClientCfg/Targets.antt =====
-- Which file is patched, and the loop over the backups.
use mathlib.Core.Option.{Option, none, some}
use mathlib.Core.List.{List, [], ◌∷◌, ◌++◌}
use aitori.Base.{Bool, not, ◌&&◌, ◌||◌, is_empty, if◌then◌else◌}
use aitori.Base.Dict.{lookup}
use aitori.Base.Text.{Str, codes, str_eq, has_prefix, has_suffix, or_default}
use aitori.AppResolve.Paths.{clean}
use aitori.ClientCfg.{Backup, Codec, Fault, Disk, env_want, inject_at, revert_at, remove_file}

-- `filepath.Join` of two parts on Unix; empty parts are left out.
unfoldable pub join_path : Str → Str → Str
unfolding clean
join_path [] [] = []
join_path [] (c ∷ b) = clean (c ∷ b)
join_path (c ∷ a) [] = clean (c ∷ a)
join_path (c ∷ a) (e ∷ b) = clean ((c ∷ a) ++ b'/' ∷ e ∷ b)

-- `filepath.IsAbs` on Unix.
abbrev pub is_abs : Str → Bool
is_abs path = has_prefix path (codes "/")

-- `app`.
pub record App : Type 0 where
  pub id : Str
  pub managed_path : Str
  pub user_rel : Str

-- `claudeCodeManagedPath`, for `runtime.GOOS`, less the case of Windows.
abbrev pub claude_code_managed_path : Str → Str
claude_code_managed_path goos =
    if str_eq goos (codes "darwin")
    then codes "/Library/Application Support/ClaudeCode/managed-settings.json"
    else codes "/etc/claude-code/managed-settings.json"

-- `registry`.
abbrev pub registry : Str → List App
registry goos =
    record {
      id = codes "claude-code";
      managed_path = claude_code_managed_path goos;
      user_rel = codes ".claude/settings.json";
    }
    ∷ []

find_app : Str → List App → Option App
find_app id [] = none
find_app id (a ∷ apps) = if str_eq a.id id then some a else find_app id apps

-- `defaultApp`.
unfoldable pub default_app : Str → Str → Option App
unfolding find_app str_eq
default_app goos id = find_app id (registry goos)

-- `can_write` tells whether the directory of a path can be made and written.
unfoldable pub target : (Str → Bool) → Str → App → Str
unfolding join_path has_prefix
target can_write home a =
    if not (is_empty a.managed_path) && can_write a.managed_path
    then a.managed_path
    else if is_empty a.user_rel
    then []
    else if is_abs a.user_rel
    then a.user_rel
    else join_path home a.user_rel

-- `backupFilePath`.
unfoldable pub backup_file_path : Str → Str → Str
unfolding join_path
backup_file_path home id =
    join_path (join_path (join_path home (codes ".aitori")) (codes "inject")) (id ++ codes ".json")

app_or : Str → Option App → App
app_or id none = record { id = id; managed_path = []; user_rel = [] }
app_or id (some a) = a

-- The app of an inject: the built-in default, with the paths that are given put over it.
unfoldable pub app_of : Str → Str → Str → Str → App
unfolding app_or default_app
app_of goos id managed_path user_path =
    let a = app_or id (default_app goos id) in
    record a {
      managed_path = or_default managed_path a.managed_path;
      user_rel = or_default user_path a.user_rel;
    }

-- How an inject of an app ends.
pub data Injected : Type 0 where
  no_home : Injected
  no_target : Injected
  stopped : Fault → Injected
  written : Str → Injected

module _ (C : Codec) (unreadable unwritable unremovable : Str → Bool)
    (torn : Str → Option C.Text → Option C.Text) where
  outcome : Str → Disk C × Option Fault → Disk C × Injected
  outcome file (d, none) = (d, written file)
  outcome file (d, some e) = (d, stopped e)

  inject_target : Str → Str → Str → Str → Str → Disk C → Disk C × Injected
  unfolding outcome
  inject_target home id proxy_addr ca_path file d =
      if is_empty file
      then (d, no_target)
      else outcome file (
          inject_at C unreadable unwritable unremovable torn file (backup_file_path home id)
            (env_want proxy_addr ca_path) d)

  -- `InjectSettings`; `home` is empty if it cannot be resolved.
  unfoldable pub inject_settings :
      (Str → Bool) → Str → Str → Str → Str → Str → Str → Str → Disk C → Disk C × Injected
  unfolding inject_target target app_of
  inject_settings can_write goos home id managed_path user_path proxy_addr ca_path d =
      if is_empty home
      then (d, no_home)
      else inject_target home id proxy_addr ca_path
          (target can_write home (app_of goos id managed_path user_path)) d

  backup_path_of : Option Backup → Str
  backup_path_of none = []
  backup_path_of (some b) = b.path

  text_path : Option C.Text → Str
  unfolding backup_path_of
  text_path none = []
  text_path (some t) = backup_path_of (C.unmarshal_backup t)

  -- `readBackupPath`.
  unfoldable pub read_backup_path : Str → Disk C → Str
  unfolding text_path
  read_backup_path backup d = if unreadable backup then [] else text_path (lookup backup d)

  abbrev first_fault : Option Fault → Option Fault → Option Fault
  first_fault none second = second
  first_fault (some e) second = some e

  unfoldable pub revert_one : Str → Disk C → Disk C × Option Fault
  unfolding revert_at read_backup_path
  revert_one backup d =
      let file = read_backup_path backup d in
      if is_empty file
      then ((remove_file C unreadable unwritable unremovable torn backup d).0, none)
      else revert_at C unreadable unwritable unremovable torn file backup d

  -- The loop of `RevertAll` over the names of the backup files that the directory holds.
  unfoldable pub revert_each : List Str → Disk C → Disk C × Option Fault
  unfolding revert_one
  revert_each [] d = (d, none)
  revert_each (backup ∷ backups) d =
      let one = revert_one backup d in
      let rest = revert_each backups one.0 in (rest.0, first_fault one.1 rest.1)

-- The backups among the entries of the directory; an entry tells whether it is a directory itself.
unfoldable pub backup_files : Str → List (Str × Bool) → List Str
unfolding has_suffix join_path
backup_files dir [] = []
backup_files dir ((name, is_dir) ∷ entries) =
    let rest = backup_files dir entries in
    if is_dir || not (has_suffix name (codes ".json")) then rest else join_path dir name ∷ rest

-- `RevertAll`, where the directory of the backups under `home` has these entries.
unfoldable pub revert_all :
    (C : Codec) (unreadable unwritable unremovable : Str → Bool)
    (torn : Str → Option C.Text → Option C.Text)
    → Str
    → List (Str × Bool)
    → Disk C
    → Disk C × Option Fault
unfolding revert_each backup_files join_path
revert_all C unreadable unwritable unremovable torn home entries d =
    revert_each C unreadable unwritable unremovable torn
      (backup_files (join_path (join_path home (codes ".aitori")) (codes "inject")) entries) d
