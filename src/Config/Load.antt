-- ===== src/Config/Load.antt =====
-- internal/config/load.go and cmd/aitori/main.go: how a configuration is put together. Reading and
-- decoding the file is a parameter, and so are the parsers that `Validate` takes. `Effective` says
-- what holds of the configuration that the agent runs on.
pub mod Effective
mod Tests
use mathlib.Core.Option.{Option, none, some}
use mathlib.Core.List.{map}
use aitori.Base.{◌>>=◌, ℕ, zero, suc, Bool, true, false, is_empty, if◌then◌else◌}
use aitori.Base.Int.{ℤ, pos, negsuc}
use aitori.Base.Text.{Str, or_default}
use aitori.Http.{Url}
use aitori.Config.{Config, SinkConfig, default, use_builtin_profiles}
use aitori.Config.Validate.{Problem, validate, dial_timeout_or_default}
use aitori.Config.Overlay.{Builtin, expand_app_paths, overlay}
use aitori.SysUser.{expand}

expand_sink : Str → SinkConfig → SinkConfig
unfolding expand
expand_sink home s = record s { path = expand home s.path }

-- `expandPaths`.
unfoldable pub expand_paths : Str → Config → Config
unfolding expand_app_paths expand expand_sink
expand_paths home c = record c {
  proxy = record (c.proxy) { ca_dir = expand home c.proxy.ca_dir };
  gateway = record (c.gateway) {
    auth = record (c.gateway.auth) { token_file = expand home c.gateway.auth.token_file };
  };
  sinks = map (expand_sink home) c.sinks;
  apps = map (expand_app_paths home) c.apps;
}

-- `Overrides`.
pub record Overrides : Type 0 where
  pub gateway_url : Str
  pub header_ctx : Str
  pub token_file : Str
  pub listen : Str
  pub ca_dir : Str
  pub transparent : Option Bool
  pub no_auth : Bool
  pub ui_enabled : Option Bool
  pub ui_listen : Str

abbrev pub bool_or : Option Bool → Bool → Bool
bool_or none b = b
bool_or (some a) b = a

unfoldable pub expanded_or : Str → Str → Str → Str
unfolding expand
expanded_or home p old = if is_empty p then old else expand home p

-- `Apply`.
unfoldable pub apply : Str → Overrides → Config → Config
unfolding expanded_or
apply home o c = record c {
  gateway = record (c.gateway) {
    url = or_default o.gateway_url c.gateway.url;
    header_ctx = or_default o.header_ctx c.gateway.header_ctx;
    auth = record {
      token_file = expanded_or home o.token_file c.gateway.auth.token_file;
      disabled = if o.no_auth then true else c.gateway.auth.disabled;
    };
  };
  proxy = record (c.proxy) {
    listen = or_default o.listen c.proxy.listen;
    ca_dir = expanded_or home o.ca_dir c.proxy.ca_dir;
    transparent = bool_or o.transparent c.proxy.transparent;
  };
  ui = record {
    enabled = bool_or o.ui_enabled c.ui.enabled;
    listen = or_default o.ui_listen c.ui.listen;
  };
}

-- The flags of the command line.
pub record Flags : Type 0 where
  pub config : Str
  pub gateway_url : Str
  pub header_ctx : Str
  pub token_file : Str
  pub listen : Str
  pub ca_dir : Str
  pub transparent : Bool
  pub no_auth : Bool
  pub ui : Bool
  pub ui_listen : Str

abbrev forced : Bool → Option Bool
forced true = some true
forced false = none

-- `cliOverrides`.
abbrev pub cli_overrides : Flags → Overrides
cli_overrides f = record {
  gateway_url = f.gateway_url;
  header_ctx = f.header_ctx;
  token_file = f.token_file;
  listen = f.listen;
  ca_dir = f.ca_dir;
  transparent = forced f.transparent;
  no_auth = f.no_auth;
  ui_enabled = forced f.ui;
  ui_listen = f.ui_listen;
}

-- A duration of five seconds, in nanoseconds.
abbrev pub five_seconds : ℤ
five_seconds = pos 5000000000

abbrev duration_or : Option ℤ → ℤ
duration_or none = five_seconds
duration_or (some d) = d

abbrev positive_duration_or : Option ℤ → ℤ
positive_duration_or none = five_seconds
positive_duration_or (some (pos zero)) = five_seconds
positive_duration_or (some (pos (suc n))) = pos (suc n)
positive_duration_or (some (negsuc n)) = five_seconds

module _ (parse_duration : Str → Option ℤ) where
  -- `DialTimeout`.
  unfoldable pub dial_timeout : Config → ℤ
  dial_timeout c = duration_or (parse_duration (dial_timeout_or_default c.gateway.dial_timeout))

  -- `DrainTimeout`.
  unfoldable pub drain_timeout : Config → ℤ
  drain_timeout c =
      if is_empty c.proxy.drain_timeout
      then five_seconds
      else positive_duration_or (parse_duration c.proxy.drain_timeout)

unfoldable pub parsed : Option Url → Option (Option Url)
parsed none = none
parsed (some u) = some (some u)

-- `GatewayURL`: an error is the outer `none`, no gateway the inner.
unfoldable pub gateway_url : (Str → Option Url) → Config → Option (Option Url)
unfolding parsed
gateway_url parse_url c =
    if is_empty c.gateway.url then some none else parsed (parse_url c.gateway.url)

-- The overlay, if the built-in profiles can be decoded.
unfoldable pub overlaid : Str → Option Builtin → Config → Option Config
unfolding overlay
overlaid home none c = none
overlaid home (some b) c = some (overlay home b c)

-- The built-in profiles go under a configuration that does not refuse them.
unfoldable pub with_profiles : Str → Option Builtin → Config → Option Config
unfolding overlaid
with_profiles home b c = if use_builtin_profiles c then overlaid home b c else some c

module _ (parse_url : Str → Option Url) (hostname : Url → Str) (parse_duration : Str → Option ℕ)
    (home : Str) (read_config : Str → Option Config) (builtin : Option Builtin) where
  -- A configuration, if it is valid.
  unfoldable pub checked : Config → Option Config
  checked c = keep (validate parse_url hostname parse_duration c)
    where
      keep : Option Problem → Option Config
      keep none = some c
      keep (some problem) = none

  decoded : Str → Option Config
  decoded path = if is_empty path then some default else read_config path

  -- `Load`.
  unfoldable pub load : Str → Option Config
  unfolding decoded expand_paths checked
  load path = do c ← decoded path; checked (expand_paths home c)

  -- `loadConfig`.
  unfoldable pub load_config : Flags → Option Config
  unfolding load apply with_profiles checked
  load_config f = do
    loaded ← load f.config
    whole ← with_profiles home builtin (apply home (cli_overrides f) loaded)
    checked whole
