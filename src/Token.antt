-- ===== src/Token.antt =====
-- internal/token/token.go: the token file and the source that follows it. A change of a file in the
-- watched directory is an event with what reading the token file then gives; cleaning a path is a
-- parameter. `Follows` says what the source knows after some events.
pub mod Follows
mod Tests
use mathlib.Core.Option.{Option, none, some}
use mathlib.Core.List.{List, [], ◌∷◌}
use aitori.Base.{Bool, true, false, not, ◌||◌, is_empty, if◌then◌else◌}
use aitori.Base.Text.{Str, str_eq, trim_space}

-- `State`.
pub data State : Type 0 where
  state_ok : State
  state_no_token : State

-- `FileSource`; of `Data` it keeps the token, of the watcher whether there is one.
pub record FileSource : Type 0 where
  pub path : Str
  pub token : Str
  pub watching : Bool
  pub done : Bool

-- An event of the watcher, and what the token file holds when it is handled.
pub record Event : Type 0 where
  pub name : Str
  pub file : Option Str

-- `parse`, and what a file that cannot be read gives.
unfoldable pub parse : Option Str → Str
unfolding trim_space
parse none = []
parse (some raw) = trim_space raw

-- `reload`, with what reading the file gives.
unfoldable pub reload : Option Str → FileSource → FileSource
reload file fs = record fs { token = parse file }

-- `Get` and `State`.
abbrev pub get : FileSource → Str
get fs = fs.token

unfoldable pub state : FileSource → State
state fs = if is_empty (get fs) then state_no_token else state_ok

module _ (clean : Str → Str) where
  -- `NewFileSource`: `can_watch` is whether there is a watcher, `has_dir` whether it can watch the
  -- directory.
  unfoldable pub new_file_source : Str → Option Str → Bool → Bool → Option FileSource
  unfolding reload
  new_file_source path file can_watch has_dir =
      let fs : FileSource = record {
        path = clean path;
        token = [];
        watching = has_dir;
        done = false;
      } in
      if not can_watch then none else some (reload file fs)

  -- One event of `watchLoop`.
  unfoldable pub watch : Event → FileSource → FileSource
  unfolding reload
  watch ev fs =
      if not fs.watching || fs.done
      then fs
      else if str_eq (clean ev.name) fs.path
      then reload ev.file fs
      else fs

  unfoldable pub watch_all : List Event → FileSource → FileSource
  unfolding watch
  watch_all [] fs = fs
  watch_all (ev ∷ evs) fs = watch_all evs (watch ev fs)

-- `Close`.
unfoldable pub close : FileSource → FileSource
close fs = record fs { done = true }
