-- ===== src/AppResolve.antt =====
-- internal/appresolve/resolve.go: which app a flow belongs to. `Paths` models `filepath.Clean` of
-- Unix, `Process` says when a process matches a profile, `Sound` what a resolved app has in common
-- with its flow.
pub mod Paths
pub mod Process
pub mod Sound
mod Tests
use mathlib.Core.Option.{Option, none, some}
use mathlib.Core.List.{List, [], ◌∷◌, ◌++◌}
use aitori.Base.{ℕ, Bool, true, false, not, ◌&&◌, ◌||◌, is_empty, any, find, if◌then◌else◌}
use aitori.Base.Text.{Str, str_eq, has_prefix, to_lower, equal_fold}
use aitori.Config.{AppMatch, AppProfile}
use aitori.HostMatch
use Paths.{clean}

-- `Flow`.
pub record Flow : Type 0 where
  pub host : Str
  pub has_process : Bool
  pub pid : ℕ
  pub process_name : Str
  pub bundle_id : Str
  pub exe_path : Str

-- `pathMatch`: the cleaned executable is the cleaned pattern, or lies below it.
path_match : Str → Str → Bool
path_match pattern exe =
    if is_empty pattern || is_empty exe
    then false
    else str_eq (clean pattern) (clean exe) || has_prefix (clean exe) (clean pattern ++ b'/' ∷ [])

-- The first test of `matchProcess`: the bundle id, or a sub-bundle of it.
bundle_match : Str → Str → Bool
bundle_match want got =
    if is_empty want || is_empty got
    then false
    else str_eq (to_lower got) (to_lower want)
      || has_prefix (to_lower got) (to_lower want ++ b'.' ∷ [])

-- `matchProcess`.
unfoldable pub match_process : AppMatch → Flow → Bool
unfolding bundle_match path_match any
match_process m f =
    if bundle_match m.bundle_id f.bundle_id
    then true
    else if any (λ name. equal_fold name f.process_name) m.process_names
    then true
    else any (λ p. path_match p f.exe_path) m.exe_paths

-- The body of the loop of `hostMatch`.
unfoldable pub match_host : Str → Bool → AppProfile → Bool
match_host host browser_only app =
    if (if browser_only then app.match.browser else not app.match.browser)
    then not (is_empty app.match.hosts) && HostMatch.match_any app.match.hosts host
    else false

or_else : {A : Type 0} → Option A → Option A → Option A
or_else none o = o
or_else (some a) o = some a

-- `hostMatch`, for browser apps and then for the others.
by_host : List AppProfile → Str → Option AppProfile
by_host apps host =
    if is_empty host
    then none
    else or_else (find (match_host host true) apps) (find (match_host host false) apps)

by_process : List AppProfile → Flow → Option AppProfile
by_process apps f = if f.has_process then find (λ app. match_process app.match f) apps else none

-- `Resolve`.
unfoldable pub resolve : List AppProfile → Flow → Option AppProfile
unfolding or_else by_host by_process find
resolve apps f = or_else (by_process apps f) (by_host apps f.host)
