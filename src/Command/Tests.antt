-- ===== src/Command/Tests.antt =====
-- Applications as `apps` lists them, and a probe.
use mathlib.Core.Path.{◌≡◌, refl}
use mathlib.Core.Option.{none, some}
use mathlib.Core.List.{[], ◌∷◌, ◌++◌}
use aitori.Base.{false}
use aitori.Base.Text.{codes, str_eq}
use aitori.Config.{AppMatch}
use aitori.TraceStore.Store.{join}
use aitori.Command.{app_match_summary, probe_gateway}

abbrev by_names : AppMatch
by_names = record {
  process_names = codes "cursor" ∷ codes "Cursor Helper" ∷ [];
  bundle_id = [];
  exe_paths = [];
  browser = false;
  hosts = codes "cursor.sh" ∷ [];
}

names_first : app_match_summary by_names ≡ codes "cursor,Cursor Helper"
unfolding app_match_summary join
names_first = refl

plain_http :
    probe_gateway
      (λ s. none)
      (λ host port. host ++ b':' ∷ port)
      (λ addr. str_eq addr (codes "gw:80"))
      (some (codes "http", codes "gw"))
    ≡ codes "reachable"
unfolding probe_gateway str_eq
plain_http = refl
