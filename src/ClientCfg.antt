-- ===== src/ClientCfg.antt =====
-- internal/clientcfg/claudecode.go: the proxy settings that are written into a client's settings
-- file and taken out again. `Targets` chooses the file, `Blocks` is about one entry of a block, `Restore` follows the
-- settings through an inject and its revert, `Faults` is about what stays when one fails.
--
-- The texts of files are only made and read by encoding/json, which is a parameter (`Codec`), with
-- what is relied on in `IsLawful`. A Go map is an association list. The file system is a map from
-- paths to texts; which paths cannot be read, written or removed are parameters, and a write that
-- fails leaves the file as it was. The owner of a file is not in the model.
pub mod Targets
pub mod Blocks
pub mod Restore
pub mod Faults
mod Tests
use mathlib.Core.Option.{Option, none, some}
use mathlib.Core.List.{List, [], ◌∷◌, ◌++◌}
use aitori.Base.{Bool, true, false, not, ◌&&◌, ◌||◌, ◌≡◌, is_empty, if◌then◌else◌}
use aitori.Base.Dict.{lookup, put, remove}
use aitori.Base.Text.{Str, codes, contains}

-- `managedEnvKeys`.
abbrev pub managed_env_keys : List Str
managed_env_keys =
    codes "HTTP_PROXY" ∷ codes "HTTPS_PROXY" ∷ codes "NO_PROXY" ∷ codes "NODE_EXTRA_CA_CERTS" ∷ []

-- `priorEnv`.
pub record PriorEnv : Type 0 where
  pub present : Bool
  pub value : Str

-- `backup`.
pub record Backup : Type 0 where
  pub path : Str
  pub settings_existed : Bool
  pub env_existed : Bool
  pub prior : List (Str × PriorEnv)

-- What decoding a text into a map gives; the JSON value null leaves a nil map and no error.
pub data Decoded (V : Type 0) : Type 0 where
  malformed : Decoded V
  nil : Decoded V
  fields : List (Str × V) → Decoded V

-- Decoded JSON values, texts, and the functions of encoding/json and fmt on them.
pub record Codec : Type 1 where
  pub Value : Type 0
  pub Text : Type 0
  pub string : Str → Value
  pub sprint : Value → Str
  pub object : List (Str × Value) → Value
  pub as_object : Value → Option (List (Str × Value))
  pub is_blank : Text → Bool
  pub unmarshal : Text → Decoded Value
  pub marshal : List (Str × Value) → Text
  pub null : Text  -- what a nil map is encoded as
  pub unmarshal_backup : Text → Option Backup
  pub marshal_backup : Backup → Text

-- What is relied on: a text that was encoded is not blank and decodes to what it encodes, a map put
-- into a value is found there, and a string prints as itself.
pub record IsLawful (C : Codec) : Type 0 where
  pub as_object-object : (m : List (Str × C.Value)) → C.as_object (C.object m) ≡ some m
  pub unmarshal-marshal : (m : List (Str × C.Value)) → C.unmarshal (C.marshal m) ≡ fields m
  pub is_blank-marshal : (m : List (Str × C.Value)) → C.is_blank (C.marshal m) ≡ false
  pub unmarshal-marshal_backup : (b : Backup) → C.unmarshal_backup (C.marshal_backup b) ≡ some b
  pub sprint-string : (s : Str) → C.sprint (C.string s) ≡ s

pub data Fault : Type 0 where
  cannot_read : Fault
  cannot_write : Fault
  cannot_remove : Fault
  cannot_parse : Fault
  nil_map : Fault  -- the panic of an assignment to a nil map

-- `envWant`.
unfoldable pub env_want : Str → Str → List (Str × Str)
unfolding contains
env_want proxy_addr ca_path =
    let url =
      if contains proxy_addr (codes "://") then proxy_addr else codes "http://" ++ proxy_addr in
    (codes "HTTP_PROXY", url)
    ∷ (codes "HTTPS_PROXY", url)
    ∷ (codes "NO_PROXY", codes "localhost,127.0.0.1,::1")
    ∷ (codes "NODE_EXTRA_CA_CERTS", ca_path)
    ∷ []

abbrev pub env_key : Str
env_key = codes "env"

module _ (C : Codec) where
  abbrev pub Fields : Type 0
  Fields = List (Str × C.Value)

  -- Files by their paths.
  abbrev pub Disk : Type 0
  Disk = List (Str × C.Text)

  object_or_empty : Option Fields → Fields × Bool
  object_or_empty none = ([], false)
  object_or_empty (some m) = (m, true)

  object_of : Option C.Value → Option Fields
  object_of none = none
  object_of (some v) = C.as_object v

  -- `mapField`, on a map that is not nil.
  unfoldable pub map_field : Fields → Str → Fields × Bool
  unfolding object_or_empty object_of
  map_field obj key = object_or_empty (object_of (lookup key obj))

  -- `readJSONObject`; a nil map is `none`.
  pub data ReadResult : Type 0 where
    failed : Fault → ReadResult
    done : Option Fields → Bool → ReadResult

  read_decoded : Decoded C.Value → ReadResult
  read_decoded malformed = failed cannot_parse
  read_decoded nil = done none true
  read_decoded (fields obj) = done (some obj) true

  unfoldable pub read_text : Option C.Text → ReadResult
  unfolding read_decoded
  read_text none = done (some []) false
  read_text (some t) = if C.is_blank t then done (some []) true else read_decoded (C.unmarshal t)

  -- The map that a nil map reads as.
  abbrev or_empty : Option Fields → Fields
  or_empty none = []
  or_empty (some obj) = obj

  prior_of : Option C.Value → PriorEnv
  prior_of none = record { present = false; value = [] }
  prior_of (some v) = record { present = true; value = C.sprint v }

  -- What the backup records of the managed keys.
  unfoldable pub prior_env : List Str → Fields → List (Str × PriorEnv)
  unfolding prior_of
  prior_env [] env = []
  prior_env (k ∷ ks) env = (k, prior_of (lookup k env)) ∷ prior_env ks env

  -- `for k, v := range want { env[k] = v }`
  unfoldable pub put_all : List (Str × Str) → Fields → Fields
  put_all [] env = env
  put_all ((k, v) ∷ want) env = put_all want (put k (C.string v) env)

  restore_key : Str → PriorEnv → Fields → Fields
  restore_key k prior env = if prior.present then put k (C.string prior.value) env else remove k env

  -- The loop over `b.Prior`.
  unfoldable pub restore : List (Str × PriorEnv) → Fields → Fields
  unfolding restore_key
  restore [] env = env
  restore ((k, prior) ∷ rest) env = restore rest (restore_key k prior env)

  -- `obj[key] = value`; `none` is the panic on a nil map.
  unfoldable pub assign : Str → C.Value → Option Fields → Option (Option Fields)
  assign key value none = none
  assign key value (some obj) = some (some (put key value obj))

  -- `delete(obj, key)`
  delete_key : Str → Option Fields → Option Fields
  delete_key key none = none
  delete_key key (some obj) = some (remove key obj)

  -- What a revert leaves for `env`: a block that was not there and is empty again goes.
  unfoldable pub put_env : Backup → Fields → Option Fields → Option (Option Fields)
  unfolding assign delete_key
  put_env b env obj =
      if is_empty env && not b.env_existed
      then some (delete_key env_key obj)
      else assign env_key (C.object env) obj

  -- `torn` is what a file holds after a failed write to it, by what it held before: the same where
  -- it could not be opened, and anything else where the write broke off.
  module _ (unreadable unwritable unremovable : Str → Bool)
      (torn : Str → Option C.Text → Option C.Text) where
    unfoldable pub read_json_object : Str → Disk → ReadResult
    unfolding read_text read_decoded
    read_json_object path d =
        if unreadable path then failed cannot_read else read_text (lookup path d)

    left_with : Str → Option C.Text → Disk → Disk
    left_with path none d = remove path d
    left_with path (some text) d = put path text d

    -- `writeJSON`.
    unfoldable pub write : Str → C.Text → Disk → Disk × Option Fault
    unfolding left_with
    write path text d =
        if unwritable path
        then (left_with path (torn path (lookup path d)) d, some cannot_write)
        else (put path text d, none)

    -- `os.Remove`, of a file that is there.
    unfoldable pub remove_file : Str → Disk → Disk × Option Fault
    remove_file path d = if unremovable path then (d, some cannot_remove) else (remove path d, none)

    write_fields : Str → Option (Option Fields) → Disk → Disk × Option Fault
    unfolding write
    write_fields path none d = (d, some nil_map)
    write_fields path (some none) d = write path C.null d
    write_fields path (some (some obj)) d = write path (C.marshal obj) d

    is_there : Option C.Text → Bool
    is_there none = false
    is_there (some t) = true

    unfoldable pub first_backup : Str → Str → Bool → Fields × Bool → Backup
    unfolding prior_env
    first_backup settings backup existed env = record {
      path = settings;
      settings_existed = existed;
      env_existed = env.1;
      prior = prior_env managed_env_keys env.0;
    }

    -- The backup is written on the first inject only.
    unfoldable pub keep_backup : Str → Str → Bool → Fields × Bool → Disk → Disk × Option Fault
    unfolding write is_there first_backup
    keep_backup settings backup existed env d =
        if is_there (lookup backup d)
        then (d, none)
        else write backup (C.marshal_backup (first_backup settings backup existed env)) d

    inject_env :
        Str → List (Str × Str) → Option Fields → Fields → Disk × Option Fault → Disk × Option Fault
    unfolding write_fields assign put_all
    inject_env settings want obj env (d, some e) = (d, some e)
    inject_env settings want obj env (d, none) =
        write_fields settings (assign env_key (C.object (put_all want env)) obj) d

    inject_read : Str → Str → List (Str × Str) → ReadResult → Disk → Disk × Option Fault
    unfolding inject_env keep_backup map_field
    inject_read settings backup want (failed e) d = (d, some e)
    inject_read settings backup want (done obj existed) d =
        let env = map_field (or_empty obj) env_key in
        inject_env settings want obj env.0 (keep_backup settings backup existed env d)

    -- `injectAt`.
    unfoldable pub inject_at : Str → Str → List (Str × Str) → Disk → Disk × Option Fault
    unfolding inject_read read_json_object
    inject_at settings backup want d =
        inject_read settings backup want (read_json_object settings d) d

    then_remove : Str → Disk × Option Fault → Disk × Option Fault
    unfolding remove_file
    then_remove backup (d, some e) = (d, some e)
    then_remove backup (d, none) = remove_file backup d

    restored : Backup → Option Fields → Option (Option Fields)
    unfolding put_env restore map_field
    restored b obj =
        let env = map_field (or_empty obj) env_key in
        if env.1 || not (is_empty b.prior) then put_env b (restore b.prior env.0) obj else some obj

    revert_read : Str → Str → Backup → ReadResult → Disk → Disk × Option Fault
    unfolding then_remove write_fields restored
    revert_read settings backup b (failed e) d = (d, some e)
    revert_read settings backup b (done obj existed) d =
        then_remove backup (write_fields settings (restored b obj) d)

    revert_backup : Str → Str → Option Backup → Disk → Disk × Option Fault
    unfolding remove_file revert_read read_json_object
    revert_backup settings backup none d = (d, some cannot_parse)
    revert_backup settings backup (some b) d =
        if not b.settings_existed
        then remove_file backup (remove_file settings d).0
        else revert_read settings backup b (read_json_object settings d) d

    revert_text : Str → Str → Option C.Text → Disk → Disk × Option Fault
    unfolding revert_backup
    revert_text settings backup none d = (d, none)
    revert_text settings backup (some t) d = revert_backup settings backup (C.unmarshal_backup t) d

    -- `revertAt`.
    unfoldable pub revert_at : Str → Str → Disk → Disk × Option Fault
    unfolding revert_text
    revert_at settings backup d =
        if unreadable backup
        then (d, some cannot_read)
        else revert_text settings backup (lookup backup d) d
