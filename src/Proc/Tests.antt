-- ===== src/Proc/Tests.antt =====
-- A path within an application, a plist, and the theorem at the path.
use mathlib.Core.Path.{◌≡◌, refl}
use mathlib.Core.Option.{some}
use native.Mathlib.Omega.{arith}
use aitori.Base.{◌∷◌, ◌++◌}
use aitori.Base.Text.{Str, codes, has_suffix, has_prefix, str_eq, trim_space}
use aitori.AppResolve.Paths.{clean}
use aitori.Proc.Dir.{dir, with_slash}
use aitori.Proc.{app_bundle_dir, find_bundle_id, is_top, parse_bundle_id}
use aitori.Proc.Bundle.{IsNearest, app_bundle_dir-IsNearest}

abbrev helper : Str
helper = codes "/Applications/A.app/Contents/MacOS/a"

dir_of_helper : dir (codes "/a//b/../c") ≡ codes "/a"
unfolding dir with_slash clean
dir_of_helper = refl

bundle_of_helper : app_bundle_dir 60 helper ≡ some (codes "/Applications/A.app")
unfolding app_bundle_dir dir with_slash clean is_top has_suffix str_eq
bundle_of_helper = refl

app_bundle_dir-IsNearest_example :
    (d : Str) × ((app_bundle_dir 41 helper ≡ some d) × IsNearest helper d)
app_bundle_dir-IsNearest_example = app_bundle_dir-IsNearest 40 helper (omega arith)

plist_id :
    parse_bundle_id (
      codes "<dict><key>CFBundleIdentifier</key>" ++ 10 ∷ codes "  <string> com.a </string></dict>")
    ≡ codes "com.a"
unfolding parse_bundle_id find_bundle_id has_prefix trim_space
plist_id = refl
