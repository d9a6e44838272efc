-- ===== src/Config/Overlay.antt =====
-- internal/profiles/profiles.go: the built-in profiles under a configuration. `Wins` says what the
-- overlay keeps and adds.
pub mod Wins
use mathlib.Core.List.{List, [], ◌∷◌, ◌++◌, map}
use aitori.Base.{any, if◌then◌else◌}
use aitori.Base.Text.{Str, str_eq}
use aitori.Config.{Config, InterceptHost, AppProfile, Rule, InjectEntry}
use aitori.SysUser.{expand}

-- `builtin`, as it is decoded.
pub record Builtin : Type 0 where
  pub intercept_hosts : List InterceptHost
  pub apps : List AppProfile
  pub rules : List Rule
  pub inject : List InjectEntry

-- `ExpandAppPaths`.
unfoldable pub expand_app_paths : Str → AppProfile → AppProfile
unfolding expand
expand_app_paths home app = record app {
  match = record (app.match) { exe_paths = map (expand home) app.match.exe_paths };
}

-- The built-in apps whose id no app of the configuration has.
unfoldable pub new_apps : Str → List AppProfile → List AppProfile → List AppProfile
unfolding any expand_app_paths
new_apps home own [] = []
new_apps home own (a ∷ apps) =
    let rest = new_apps home own apps in
    if any (λ o. str_eq o.id a.id) own then rest else expand_app_paths home a ∷ rest

-- The built-in hosts that are not listed, each once; `seen` holds the hosts met before.
unfoldable pub new_hosts : List Str → List InterceptHost → List InterceptHost
unfolding any
new_hosts seen [] = []
new_hosts seen (h ∷ hosts) =
    let fresh = h ∷ new_hosts (h.host ∷ seen) hosts in
    let old = new_hosts seen hosts in if any (λ s. str_eq s h.host) seen then old else fresh

-- The built-in injects for apps that the configuration has none for.
unfoldable pub new_injects : List InjectEntry → List InjectEntry → List InjectEntry
unfolding any
new_injects own [] = []
new_injects own (e ∷ entries) =
    let rest = new_injects own entries in
    if any (λ o. str_eq o.app e.app) own then rest else e ∷ rest

-- `Apply`, once the built-in profiles have been decoded.
unfoldable pub overlay : Str → Builtin → Config → Config
unfolding new_apps new_hosts new_injects
overlay home b c = record c {
  apps = c.apps ++ new_apps home c.apps b.apps;
  intercept_hosts =
      c.intercept_hosts ++ new_hosts (map (λ h. h.host) c.intercept_hosts) b.intercept_hosts;
  rules = c.rules ++ b.rules;
  inject = c.inject ++ new_injects c.inject b.inject;
}
