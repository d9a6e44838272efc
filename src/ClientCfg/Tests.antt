-- ===== src/ClientCfg/Tests.antt =====
-- A codec over texts that keep what they encode, settings of a client, and the theorems at them.
use mathlib.Core.Option.{Option, none, some}
use mathlib.Core.List.{List, [], ◌∷◌}
use aitori.Base.{true, ◌⊎◌, ◌≡◌, refl, ap, ◌≢◌, Bool, false, any}
use aitori.Base.Dict.{lookup, put, remove}
use aitori.Base.Text.{Str, codes, str_eq, contains, has_prefix}
use aitori.ClientCfg.{
  Backup, Codec, IsLawful, cannot_write, Decoded, malformed, fields, Disk, env_want, map_field,
  read_text, prior_env, inject_at, revert_at,
}
use aitori.ClientCfg.Targets.{target, app_of, revert_each}
use aitori.ClientCfg.Blocks.{false≢true, absent, text, is_managed}
use aitori.ClientCfg.Restore.{Settings, IsUntouched, IsRestored, inject_all, revert_each-inject_all}
use aitori.ClientCfg.Faults.{lookup-inject_at_fault}

mutual
  data Value : Type 0 where
    string : Str → Value
    number : Str → Value
    block : Entries → Value

  data Entries : Type 0 where
    nothing : Entries
    entry : Str → Value → Entries → Entries

abbrev sprint : Value → Str
sprint (string s) = s
sprint (number s) = s
sprint (block e) = codes "map[]"

abbrev entries : List (Str × Value) → Entries
entries [] = nothing
entries ((k, v) ∷ m) = entry k v (entries m)

abbrev listed : Entries → List (Str × Value)
listed nothing = []
listed (entry k v e) = (k, v) ∷ listed e

abbrev as_object : Value → Option (List (Str × Value))
as_object (string s) = none
as_object (number s) = none
as_object (block e) = some (listed e)

data Text : Type 0 where
  settings : List (Str × Value) → Text
  record_of : Backup → Text
  other : Text

abbrev unmarshal : Text → Decoded Value
unmarshal (settings m) = fields m
unmarshal (record_of b) = malformed
unmarshal other = malformed

abbrev unmarshal_backup : Text → Option Backup
unmarshal_backup (settings m) = none
unmarshal_backup (record_of b) = some b
unmarshal_backup other = none

abbrev codec : Codec
codec = record {
  Value = Value;
  Text = Text;
  string = string;
  sprint = sprint;
  object = λ m. block (entries m);
  as_object = as_object;
  is_blank = λ t. false;
  unmarshal = unmarshal;
  marshal = settings;
  null = other;
  unmarshal_backup = unmarshal_backup;
  marshal_backup = record_of;
}

listed-entries : (m : List (Str × Value)) → listed (entries m) ≡ m
listed-entries [] = refl
listed-entries ((k, v) ∷ m) = ap (λ r. (k, v) ∷ r) (listed-entries m)

codec-IsLawful : IsLawful codec
codec-IsLawful = record {
  as_object-object = λ m. ap some (listed-entries m);
  unmarshal-marshal = λ m. refl;
  is_blank-marshal = λ m. refl;
  unmarshal-marshal_backup = λ b. refl;
  sprint-string = λ s. refl;
}

abbrev never : Str → Bool
never path = false

-- A broken write leaves a text that does not decode.
abbrev emptied : Str → Option Text → Option Text
emptied path old = some other

abbrev path : Str
path = codes "/home/u/.claude/settings.json"

abbrev backup : Str
backup = codes "/home/u/.aitori/inject/claude-code.json"

apart : path ≢ backup
unfolding str_eq
apart e = false≢true (ap (λ q. str_eq q backup) e)

abbrev files : Settings codec never never never emptied
files = record {
  path = path;
  backup = backup;
  apart = apart;
  can_read = refl;
  can_read_backup = refl;
  can_write = refl;
  can_write_backup = refl;
  can_remove_backup = refl;
}

-- Settings with a proxy of their own.
abbrev own : List (Str × Value)
own =
    (codes "model", string (codes "opus"))
    ∷ (codes "env", block (entry (codes "HTTP_PROXY") (string (codes "http://p")) nothing))
    ∷ []

abbrev disk : Disk codec
disk = (path, settings own) ∷ []

-- All that a run of an inject and a revert computes with.
patching : Unit {0}
unfolding inject_at revert_at revert_each inject_all env_want map_field read_text prior_env lookup
    put remove str_eq contains has_prefix any is_managed target app_of
patching = tt

writes_user_settings :
    target never (codes "/home/u") (app_of (codes "linux") (codes "claude-code") [] []) ≡ path
unfolding patching
writes_user_settings = refl

untouched : IsUntouched codec codec-IsLawful never never never emptied files own disk
unfolding patching
untouched = record { text = settings own; there = refl; decodes = refl; fresh = refl }

revert_each-inject_all_example :
    IsRestored codec codec-IsLawful never never never emptied files own
      (revert_each codec never never never emptied (backup ∷ []) (
        inject_all codec codec-IsLawful never never never emptied files own
          ((codes "127.0.0.1:8080", codes "/ca.pem") ∷ [])
          disk)).0
unfolding patching
revert_each-inject_all_example =
    revert_each-inject_all codec codec-IsLawful never never never emptied files own
      (codes "127.0.0.1:8080") (codes "/ca.pem") [] disk (λ e. cc) untouched
      (text (codes "http://p"), (absent, (absent, (absent, tt))))

lookup-inject_at_fault_example :
    let after =
      (inject_at codec never
        (str_eq path)
        never
        emptied
        path
        backup
        (env_want (codes "127.0.0.1:8080") (codes "/ca.pem"))
        disk).0 in
    (lookup path after ≡ lookup path disk)
    ⊎ ((str_eq path path ≡ true) × (lookup path after ≡ emptied path (lookup path disk)))
unfolding patching
lookup-inject_at_fault_example =
    lookup-inject_at_fault codec never (str_eq path) never emptied path backup apart
      (env_want (codes "127.0.0.1:8080") (codes "/ca.pem")) disk cannot_write refl
