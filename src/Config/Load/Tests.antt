-- ===== src/Config/Load/Tests.antt =====
-- A configuration with a command line and built-in profiles, and the theorems at it.
use mathlib.Core.Option.{Option, none, some}
use mathlib.Core.List.{List, [], ◌∷◌}
use mathlib.Core.Path.{◌≡◌, refl}
use mathlib.Core.Logic.{◌≢◌}
use aitori.Base.{ℕ, true, false}
use aitori.Base.Text.{Str, codes}
use aitori.Http.{Url}
use aitori.HostMatch
use aitori.Config.{AppProfile, Config, InterceptHost, default, patterns}
use aitori.Config.Validate.{validate}
use aitori.Config.Validate.Consistent.{IsConsistent}
use aitori.Config.Overlay.{Builtin, overlay}
use aitori.Config.Load.{Flags, apply, cli_overrides, expand_paths, gateway_url, load_config}
use aitori.Config.Load.Effective.{Honours, load_config-IsConsistent}

-- Stand-ins for the parsers: every text is the host of a URL, and a duration.
abbrev parse_url : Str → Option Url
parse_url s =
    some (record { scheme = codes "https"; host = s; path = []; raw_path = []; raw_query = [] })

abbrev hostname : Url → Str
hostname u = u.host

abbrev parse_duration : Str → Option ℕ
parse_duration s = some 5

abbrev read_config : Str → Option Config
read_config s = none

abbrev host_entry : Str → Str → InterceptHost
host_entry host action = record {
  host = host;
  action = action;
  category = [];
  paths = [];
  methods = [];
}

abbrev app_entry : Str → Str → AppProfile
app_entry id path = record {
  id = id;
  match = record {
    process_names = [];
    bundle_id = [];
    exe_paths = path ∷ [];
    browser = false;
    hosts = [];
  };
}

abbrev builtin : Builtin
builtin = record {
  intercept_hosts = host_entry (codes "a.com") [] ∷ host_entry (codes "b.com") [] ∷ [];
  apps = app_entry (codes "claude-code") (codes "~/bin") ∷ [];
  rules = [];
  inject = [];
}

abbrev flags : Flags
flags = record {
  config = [];
  gateway_url = codes "gw.example.com";
  header_ctx = [];
  token_file = codes "~/token";
  listen = [];
  ca_dir = [];
  transparent = false;
  no_auth = true;
  ui = false;
  ui_listen = [];
}

abbrev home : Str
home = codes "/home/u"

abbrev own : Config
own = record default { intercept_hosts = host_entry (codes "b.com") (codes "block") ∷ [] }

abbrev token_file_of : Option Config → Str
token_file_of none = []
token_file_of (some c) = c.gateway.auth.token_file

abbrev hosts_of : Option Config → List InterceptHost
hosts_of none = []
hosts_of (some c) = c.intercept_hosts

loaded : Option Config
loaded = load_config parse_url hostname parse_duration home read_config (some builtin) flags

token_file_is_expanded : token_file_of loaded ≡ codes "/home/u/token"
unfolding loaded load_config HostMatch.match_any validate patterns
token_file_is_expanded = refl

profiles_are_overlaid : hosts_of loaded ≡ builtin.intercept_hosts
unfolding loaded load_config HostMatch.match_any validate patterns
profiles_are_overlaid = refl

effective : Config
effective = overlay home builtin (apply home (cli_overrides flags) (expand_paths home default))

load_config-IsConsistent_example :
    IsConsistent parse_url hostname parse_duration effective
    × (Honours home flags effective × (gateway_url parse_url effective ≢ none))
unfolding effective load_config HostMatch.match_any validate patterns
load_config-IsConsistent_example =
    load_config-IsConsistent parse_url hostname parse_duration home read_config (some builtin) flags
      effective refl
