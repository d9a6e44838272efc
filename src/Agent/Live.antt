-- ===== src/Agent/Live.antt =====
-- cmd/aitori/commands.go and internal/proxy/proxy.go: the parts of the running proxy that a reload
-- replaces, and how they are made from a configuration.
use mathlib.Core.Option.{Option, none, some}
use mathlib.Core.List.{[]}
use aitori.Base.{◌>>=◌}
use aitori.Base.Int.{pos}
use aitori.Base.Text.{Str}
use aitori.Http.{Url}
use aitori.Config.{Config}
use aitori.Config.Load.{gateway_url}
use aitori.Circuit
use aitori.Router
use aitori.Router.{Router}
use aitori.Gate
use aitori.Gate.{Gate}
use aitori.Pipeline
use aitori.Pipeline.{Pipeline}

-- `live`: the parts of the running proxy that a reload replaces.
pub record Live : Type 0 where
  pub cfg : Config
  pub router : Router
  pub pipeline : Pipeline
  pub gate : Gate

-- What a router is built with besides the configuration.
pub record Device : Type 0 where
  pub token : Option Str
  pub version : Str
  pub host : Str
  pub os : Str

unfoldable pub router_to : Device → Config → Option Url → Router
router_to device cfg url = Router.new (record {
  gateway_url = url;
  token = device.token;
  breaker = some (Circuit.new (pos 5) (pos 30000000000));
  header_token = cfg.gateway.header_token;
  header_orig = cfg.gateway.header_orig;
  header_ctx = cfg.gateway.header_ctx;
  on_error = cfg.gateway.on_error;
  auth_disabled = cfg.gateway.auth.disabled;
  agent_version = device.version;
  headers = cfg.gateway.headers;
  device_host = device.host;
  device_os = device.os;
})

-- `buildRouter`.
unfoldable pub build_router : (Str → Option Url) → Device → Config → Option Router
unfolding router_to
build_router parse_url device cfg = do
  url ← gateway_url parse_url cfg
  some (router_to device cfg url)

-- `GatewayHost`.
abbrev pub host_of_gateway : (Url → Str) → Option (Option Url) → Str
host_of_gateway hostname none = []
host_of_gateway hostname (some none) = []
host_of_gateway hostname (some (some u)) = hostname u

module _ (parse_url : Str → Option Url) (hostname : Url → Str) (device : Device) where
  unfoldable pub live_of : Config → Router → Live
  live_of cfg router = record {
    cfg = cfg;
    router = router;
    pipeline = Pipeline.new cfg;
    gate = Gate.new (some cfg) (host_of_gateway hostname (gateway_url parse_url cfg));
  }

  -- `Reload` of the proxy, from a configuration.
  unfoldable pub new_live : Config → Option Live
  unfolding build_router live_of
  new_live cfg = do router ← build_router parse_url device cfg; some (live_of cfg router)

  unfoldable pub replace : Live → Option Live → Live
  replace live none = live
  replace live (some fresh) = fresh

  -- `reload`, where `loadConfig` gives `loaded`.
  unfoldable pub reload : Option Config → Live → Live
  unfolding replace new_live
  reload loaded live = replace live (loaded >>= new_live)
