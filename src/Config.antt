-- ===== src/Config.antt =====
-- internal/config/config.go: the configuration, as `Load` hands it to the other parts. A Go
-- pointer that may be nil is an `Option`; numbers that the program only tests for a positive
-- value are natural.
pub mod Validate
pub mod Load
pub mod Overlay
use Prim.Native.Nat.{ℕ}
use mathlib.Core.List.{List, [], ◌∷◌}
use mathlib.Core.Option.{Option, none, some}
use aitori.Base.{Bool, true, false, not, ◌||◌, is_empty, if◌then◌else◌}
use aitori.Base.Text.{Str, codes}

-- A decoded JSON or YAML value, as far as the program looks into it: of a number, a list or a map
-- only the text that `fmt.Sprint` prints.
pub data Value : Type 0 where
  null : Value
  boolean : Bool → Value
  string : Str → Value
  printed : Str → Value

-- `map[string]any`.
abbrev pub Object : Type 0
Object = List (Str × Value)

-- The constants for categories, actions and error modes.
abbrev pub category_llm : Str
category_llm = codes "llm"

abbrev pub category_mcp : Str
category_mcp = codes "mcp"

abbrev pub category_other : Str
category_other = codes "other"

abbrev pub action_reroute : Str
action_reroute = codes "reroute"

abbrev pub action_passthrough : Str
action_passthrough = codes "passthrough"

abbrev pub action_block : Str
action_block = codes "block"

abbrev pub fail_open : Str
fail_open = codes "fail_open"

abbrev pub fail_closed : Str
fail_closed = codes "fail_closed"

abbrev pub inject_mode_settings : Str
inject_mode_settings = codes "settings"

pub record InterceptHost : Type 0 where
  pub host : Str
  pub action : Str
  pub category : Str
  pub paths : List Str
  pub methods : List Str

-- `InterceptHost.Scoped`.
unfoldable pub scoped : InterceptHost → Bool
scoped h = not (is_empty h.paths) || not (is_empty h.methods)

-- `InterceptHosts.Patterns`.
unfoldable pub patterns : List InterceptHost → List Str
patterns [] = []
patterns (h ∷ hs) = let rest = patterns hs in if is_empty h.host then rest else h.host ∷ rest

pub record ProxyConfig : Type 0 where
  pub listen : Str
  pub ca_dir : Str
  pub transparent : Bool
  pub max_body_kb : ℕ
  pub force_http11 : Bool
  pub drain_timeout : Str

pub record UiConfig : Type 0 where
  pub enabled : Bool
  pub listen : Str

pub record AuthConfig : Type 0 where
  pub token_file : Str
  pub disabled : Bool

pub record GatewayConfig : Type 0 where
  pub url : Str
  pub header_token : Str
  pub header_orig : Str
  pub header_ctx : Str
  pub on_error : Str
  pub dial_timeout : Str
  pub auth : AuthConfig
  pub headers : List (Str × Str)

pub record AppMatch : Type 0 where
  pub process_names : List Str
  pub bundle_id : Str
  pub exe_paths : List Str
  pub browser : Bool
  pub hosts : List Str

pub record AppProfile : Type 0 where
  pub id : Str
  pub match : AppMatch

pub record Rule : Type 0 where
  pub name : Str
  pub hosts : List Str
  pub path_prefixes : List Str
  pub path_patterns : List Str
  pub methods : List Str
  pub match_body : Object
  pub category : Str
  pub action : Str

pub record SettingsInject : Type 0 where
  pub managed_path : Str
  pub user_path : Str

pub record InjectEntry : Type 0 where
  pub app : Str
  pub enabled : Option Bool
  pub mode : Str
  pub settings : Option SettingsInject

pub record SinkConfig : Type 0 where
  pub kind : Str  -- `Type` in the source
  pub path : Str
  pub redact : Option Bool

abbrev or_true : Option Bool → Bool
or_true none = true
or_true (some b) = b

-- `InjectEntry.On`.
abbrev pub is_on : InjectEntry → Bool
is_on e = or_true e.enabled

-- `SinkConfig.RedactOn`.
unfoldable pub redact_on : SinkConfig → Bool
redact_on s = or_true s.redact

pub record Config : Type 0 where
  pub version : ℕ
  pub proxy : ProxyConfig
  pub gateway : GatewayConfig
  pub intercept_hosts : List InterceptHost
  pub apps : List AppProfile
  pub rules : List Rule
  pub inject : List InjectEntry
  pub sinks : List SinkConfig
  pub ui : UiConfig
  pub builtin_profiles : Option Bool

-- `UseBuiltinProfiles`.
abbrev pub use_builtin_profiles : Config → Bool
use_builtin_profiles c = or_true c.builtin_profiles

-- `Default`.
abbrev pub default : Config
default = record {
  version = 1;
  proxy = record {
    listen = codes "127.0.0.1:8080";
    ca_dir = codes "~/.aitori";
    transparent = false;
    max_body_kb = 1024;
    force_http11 = true;
    drain_timeout = [];
  };
  gateway = record {
    url = [];
    header_token = codes "x-tfy-api-key";
    header_orig = codes "x-tfy-original-url";
    header_ctx = codes "x-tfy-metadata";
    on_error = fail_open;
    dial_timeout = codes "5s";
    auth = record { token_file = codes "~/.aitori/token"; disabled = false };
    headers = [];
  };
  intercept_hosts = [];
  apps = [];
  rules = [];
  inject = [];
  sinks = [];
  ui = record { enabled = false; listen = codes "127.0.0.1:9100" };
  builtin_profiles = none;
}
