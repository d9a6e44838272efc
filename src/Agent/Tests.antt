-- ===== src/Agent/Tests.antt =====
-- A small machine, a configuration and two reloads, and the theorems at them.
use mathlib.Core.Bool.{true≢false}
use mathlib.Core.Path.{◌≡◌, refl, sym, ap, ◌∙◌}
use mathlib.Core.Logic.{◌≢◌, inl, inr}
use mathlib.Core.Option.{Option, none, some}
use mathlib.Core.List.{List, [], ◌∷◌}
use aitori.Base.{
  arith, some-injective, ◌≢◌, ℕ, Bool, true, false, not, any, Bool-cases, if◌then◌else◌,
}
use aitori.Base.Text.{before_byte, is_space, Str, codes, str_eq, str_eq_iff}
use aitori.Http.{Request, Url}
use aitori.HostMatch
use aitori.Config.{Config, default, patterns}
use aitori.Config.Load.{gateway_url, load_config}
use aitori.Config.Validate.{validate}
use aitori.Config.Validate.Consistent.{IsConsistent, validate_iff}
use aitori.Gate.{should_mitm}
use aitori.Router.{rewrite}
use aitori.Agent.{Agent, Machine, Outcome, down, ok, serve}
use aitori.Agent.Live.{Device, Live, live_of, router_to}
use aitori.Agent.Lifecycle.{IsClean, IsOrderly, down-IsClean, serve-IsClean}
use aitori.Agent.Linux.{System, clear_system_proxy, linux_machine}
use aitori.Agent.Linux.Orderly.{IsLawful, linux_machine-IsOrderly}
use aitori.HostMatch.Ports.{IsName}
use aitori.Base.Text.Laws.{Lacks, before_byte-append}
use aitori.Agent.Reload.{
  IsPlain, StripsPort, bare, loaded_by, Attempt, IsGoverned, live_of-IsGoverned, reloads,
  reloads-never_decrypt,
}

-- Whether there is a proxy, and whether settings are injected.
abbrev State : Type 0
State = Bool × Bool

abbrev proxied : State → Bool
proxied m = m.0

abbrev injected : State → Bool
injected m = m.1

abbrev run : List Str → State → State × Option Str
run [] m = (m, none)
run (name ∷ args) (p, q) = (
  if str_eq name (codes "gsettings") then (not (any (str_eq (codes "none")) args), q) else (p, q),
  none,
)

abbrev small : System State
small = record {
  run = run;
  write_file = λ file text m. (m, none);
  remove = λ file m. (m, none);
  create_temp = λ m. (m, some (codes "/tmp/ca.pem"));
  look_path = λ name. true;
  split_host_port = λ s. some (s, codes "8080");
  dir_exists = λ dir. true;
  file_exists = λ file. true;
  glob = λ pattern. [];
  home = some (codes "/home/u");
  uid = 1000;
}

run-proxied :
    (name : Str) (args : List Str) (m : State)
    → name ≢ codes "gsettings"
    → proxied (run (name ∷ args) m).0 ≡ proxied m
run-proxied name args (p, q) n = elim (Bool-cases (str_eq name (codes "gsettings"))) [
  | inl e ↦ absurd (n ((str_eq_iff name (codes "gsettings")).0 e))
  | inr e ↦ rw e refl
]

run-injected : (c : List Str) (m : State) → injected (run c m).0 ≡ injected m
run-injected [] m = refl
run-injected (name ∷ args) (p, q) = elim (Bool-cases (str_eq name (codes "gsettings"))) [
  | inl e ↦ rw e refl
  | inr e ↦ rw e refl
]

small-IsLawful : IsLawful small proxied injected
unfolding str_eq any
small-IsLawful = record {
  run_other = run-proxied;
  run_settings = run-injected;
  clears = λ m e. refl;
  no_gsettings = λ e. absurd (true≢false e);
  write = λ file text m. refl;
  write_settings = λ file text m. refl;
  remove = λ file m. refl;
  remove_settings = λ file m. refl;
  temp = λ m. refl;
  temp_settings = λ m. refl;
}

abbrev revert : State → State × Outcome
revert m = ((m.0, false), ok)

abbrev inject : Str → Str → Str → Str → Str → State → State × Option Str
inject app managed user addr ca m = ((m.0, true), some managed)

linux_machine-IsOrderly_example : IsOrderly (linux_machine small revert inject) proxied injected
linux_machine-IsOrderly_example =
    linux_machine-IsOrderly small proxied injected small-IsLawful revert inject (λ m. refl)
      (λ m e. refl)

abbrev machine : Machine State
machine = linux_machine small revert inject

machine-IsOrderly : IsOrderly machine proxied injected
machine-IsOrderly =
    linux_machine-IsOrderly small proxied injected small-IsLawful revert inject (λ m. refl)
      (λ m e. refl)

abbrev agent : Agent
agent = record { cfg = default; cert = codes "PEM"; ca_path = codes "/home/u/.aitori/ca.crt" }

abbrev listen : Str → Option Str
listen addr = some addr

abbrev session : State → State
session m = m

abbrev Clean : State → Type 0
Clean = IsClean machine proxied injected machine-IsOrderly

serve-IsClean_example : Clean (serve machine agent listen session true (false, false)).0
unfolding linux_machine clear_system_proxy
serve-IsClean_example =
    serve-IsClean machine proxied injected machine-IsOrderly (λ m. refl, λ m. refl) agent listen
      session (λ m h. h) true (false, false) (refl, refl)

down-IsClean_example : Clean (down machine (true, true)).0
unfolding linux_machine clear_system_proxy down str_eq any
down-IsClean_example =
    down-IsClean machine proxied injected machine-IsOrderly (true, true) refl (λ e. cc e) refl

abbrev parse_url : Str → Option Url
parse_url s =
    some (record { scheme = codes "https"; host = s; path = []; raw_path = []; raw_query = [] })

abbrev hostname : Url → Str
hostname u = before_byte b':' u.host

before_byte_of_Lacks : (s : Str) → Lacks b':' s → before_byte b':' s ≡ s
unfolding before_byte
before_byte_of_Lacks [] h = refl
before_byte_of_Lacks (c ∷ s) (n, h) = ground (arith, before_byte_of_Lacks s h)

hostname-StripsPort : StripsPort hostname
hostname-StripsPort = record {
  bare_host = λ u n. before_byte_of_Lacks u.host n.colons;
  ported_host =
      λ u name port n d e. ap (before_byte b':') e ∙ before_byte-append b':' name port n.colons;
}

abbrev parse_duration : Str → Option ℕ
parse_duration s = some 5

abbrev device : Device
device = record { token = some (codes "secret"); version = codes "1.0"; host = []; os = [] }

abbrev url : Url
url = record {
  scheme = codes "https";
  host = codes "gw.example.com";
  path = [];
  raw_path = [];
  raw_query = [];
}

abbrev config : Config
config = record default { gateway = record (default.gateway) { url = codes "gw.example.com" } }

config-IsConsistent : IsConsistent parse_url hostname parse_duration config
unfolding validate patterns HostMatch.match_any
config-IsConsistent = (validate_iff parse_url hostname parse_duration config).0 refl

live : Live
unfolding live_of
live = live_of parse_url hostname device config (router_to device config (some url))

abbrev gateway : Str
gateway = codes "gw.example.com"

gateway-IsName : IsName gateway
unfolding is_space
gateway-IsName = ground arith

gateway-IsPlain : IsPlain gateway
gateway-IsPlain = bare gateway-IsName

gateway-host : (u : Url) → gateway_url parse_url config ≡ some (some u) → gateway ≡ u.host
unfolding gateway_url
gateway-host u e = ap (λ (w : Url). w.host) (some-injective _ _ (some-injective _ _ e))

config_governs : IsGoverned parse_url hostname parse_duration device live
unfolding live gateway_url
config_governs =
    live_of-IsGoverned parse_url hostname parse_duration device hostname-StripsPort config
      (some url) config-IsConsistent refl (λ u e. rw (sym (gateway-host u e)) gateway-IsPlain)

-- A reload whose file cannot be read.
abbrev attempt : Attempt parse_url hostname parse_duration device
attempt = record {
  home = codes "/home/u";
  read_config = λ path. none;
  builtin = none;
  flags = record {
    config = codes "missing.yaml";
    gateway_url = [];
    header_ctx = [];
    token_file = [];
    listen = [];
    ca_dir = [];
    transparent = false;
    no_auth = false;
    ui = false;
    ui_listen = [];
  };
}

attempt_fails :
    (cfg : Config) → loaded_by parse_url hostname parse_duration device attempt ≢ some cfg
unfolding load_config
attempt_fails cfg e = cc

reloads-never_decrypt_example :
    let after = reloads parse_url hostname parse_duration device (attempt ∷ []) live in
    IsConsistent parse_url hostname parse_duration after.cfg
    × ((now : ℕ) (req : Request) (app_id category : Str) (pid : ℕ)
        → (rewrite after.router now req app_id category pid).1 ≡ true
        → should_mitm after.gate (rewrite after.router now req app_id category pid).0.host ≡ false)
reloads-never_decrypt_example =
    reloads-never_decrypt parse_url hostname parse_duration device hostname-StripsPort
      (attempt ∷ []) live (λ cfg e. absurd (attempt_fails cfg e), tt) config_governs
