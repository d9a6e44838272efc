-- ===== src/Command.antt =====
-- cmd/aitori/commands.go: what the commands other than `run`, `up` and `down` do or print. Loading the
-- configuration, the certificate authority and dialling are parameters.
mod Tests
use Prim.Native.Nat.{ℕ}
use mathlib.Core.Option.{Option, none, some}
use mathlib.Core.List.{List, [], ◌∷◌}
use aitori.Base.{Bool, if◌then◌else◌, is_empty, length}
use aitori.Base.Text.{Str, codes, str_eq, or_default}
use aitori.Ca.{cert_path}
use aitori.Config.{AppMatch, AppProfile, Config}
use aitori.Agent.{Machine, Outcome, failed, not_implemented, ok}
use aitori.TraceStore.Store.{join}

-- `appMatchSummary`.
unfoldable pub app_match_summary : AppMatch → Str
unfolding join
app_match_summary m =
    if is_empty m.bundle_id
    then elim m.exe_paths [
      | exe ∷ exes ↦ exe
      | [] ↦
          if is_empty m.process_names
          then if is_empty m.hosts then codes "-" else join (codes ",") m.hosts
          else join (codes ",") m.process_names
    ]
    else m.bundle_id

-- A line of `cmdApps`: the application, how it is attributed, and what it matches.
unfoldable pub app_line : AppProfile → Str × (Str × Str)
unfolding app_match_summary
app_line app = (
  app.id,
  (
    if app.match.browser then codes "host (browser)" else codes "process",
    app_match_summary app.match,
  ),
)

-- The lines of `cmdApps` after the heading.
unfoldable pub app_lines : List AppProfile → List (Str × (Str × Str))
unfolding app_line
app_lines [] = []
app_lines (app ∷ apps) = app_line app ∷ app_lines apps

-- `probeGateway`, on what `GatewayURL` gives: a scheme and a host, or none where it fails or no URL
-- is set.
module _ (split_host_port : Str → Option (Str × Str)) (join_host_port : Str → Str → Str)
    (dials : Str → Bool) where
  with_port : Str → Str → Option (Str × Str) → Str
  unfolding str_eq
  with_port scheme host (some parts) = host
  with_port scheme host none =
      join_host_port host (if str_eq scheme (codes "http") then codes "80" else codes "443")

  probe : Option (Str × Str) → Str
  unfolding with_port
  probe none = codes "invalid url"
  probe (some (scheme, host)) =
      if dials (with_port scheme host (split_host_port host))
      then codes "reachable"
      else codes "unreachable"

  unfoldable pub probe_gateway : Option (Str × Str) → Str
  unfolding probe
  probe_gateway url = probe url

-- What `cmdStatus` prints. The state of the token is none where authentication is disabled, that of
-- the gateway where no URL is set.
pub record Status : Type 0 where
  pub transparent : Bool
  pub listen : Str
  pub ca_cert : Str
  pub token : Option (Str × Str)
  pub gateway : Option (Str × Str)
  pub hosts : ℕ
  pub apps : ℕ

-- The state of the token: `opened` is what `NewFileSource` and its `State` give.
abbrev pub token_state : Option Str → Str
token_state none = codes "no-token"
token_state (some state) = state

unfoldable pub status : Config → (Str → Option Str) → Str → Status
unfolding cert_path
status cfg opened probed = record {
  transparent = cfg.proxy.transparent;
  listen = cfg.proxy.listen;
  ca_cert = cert_path cfg.proxy.ca_dir;
  token =
      if cfg.gateway.auth.disabled
      then none
      else some (cfg.gateway.auth.token_file, token_state (opened cfg.gateway.auth.token_file));
  gateway = if is_empty cfg.gateway.url then none else some (cfg.gateway.url, probed);
  hosts = length cfg.intercept_hosts;
  apps = length cfg.apps;
}

-- The file that `config validate` reads, and its name in what it prints.
abbrev pub validated_path : Str → List Str → Str
validated_path flag (path ∷ []) = path
validated_path flag args = flag

abbrev pub validated_name : Str → Str
validated_name path = or_default path (codes "(built-in defaults)")

-- The mode that `printStartup` prints.
abbrev pub mode : Bool → Bool → Str
mode with_os transparent =
    if transparent
    then codes "transparent capture (Tier 2)"
    else if with_os
    then codes "system proxy (Tier 1)"
    else codes "explicit proxy"

-- The outcome of `ca install` and `ca remove`: an adapter that does not do it is no error.
abbrev pub tolerated : Outcome → Option Str
tolerated ok = none
tolerated not_implemented = none
tolerated (failed e) = some e

module _ {M : Type 0} (machine : Machine M) (load_config : M → M × Option Config)
    (load_ca : Config → M → M × Option Str) where
  installed : M × Outcome → M × Option Str
  installed (m, o) = (m, tolerated o)

  ca_loaded : M × Option Str → M × Option Str
  unfolding installed
  ca_loaded (m, none) = (m, some (codes "ca"))
  ca_loaded (m, some pem) = installed (machine.install_ca pem m)

  config_loaded : M × Option Config → M × Option Str
  unfolding ca_loaded
  config_loaded (m, none) = (m, some (codes "config"))
  config_loaded (m, some cfg) = ca_loaded (load_ca cfg m)

  -- `ca install`: the error that it returns; `load_ca` gives the authority's certificate.
  unfoldable pub ca_install : M → M × Option Str
  unfolding config_loaded
  ca_install m = config_loaded (load_config m)

  -- `ca remove`.
  unfoldable pub ca_remove : M → M × Option Str
  unfolding installed
  ca_remove m = installed (machine.uninstall_ca m)
