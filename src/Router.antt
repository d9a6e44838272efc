-- ===== src/Router.antt =====
-- internal/router/router.go: the rewriting of a request for the gateway. `Context` models the
-- payload of the context header, `Guards` says when a request is rewritten, `Rewritten` what then
-- holds of it.
pub mod Context
pub mod Guards
pub mod Rewritten
mod Tests
use mathlib.Core.Option.{Option, none, some}
use mathlib.Core.List.{List, [], ◌∷◌, ◌++◌}
use aitori.Base.{ℕ, Bool, true, false, not, ◌&&◌, ◌||◌, ◌==◌, is_empty, if◌then◌else◌}
use aitori.Base.Int.{pos}
use aitori.Base.Text.{or_default, Str, codes, str_eq}
use aitori.Http.{Header, Url, Request, set}
use aitori.Http.Target.{request_uri}
use aitori.Config.{fail_open, fail_closed}
use aitori.HostMatch.{normalize}
use aitori.Circuit
use aitori.Circuit.{Breaker, is_open, success, failure}
use Context.{clamp_ctx, itoa, marshal}

-- `Router`. Of the token source it keeps what `Get` returns at the call, `none` for a nil source.
pub record Router : Type 0 where
  pub gateway_url : Option Url
  pub gateway_host : Str
  pub token : Option Str
  pub breaker : Breaker
  pub header_tok : Str
  pub header_orig : Str
  pub header_ctx : Str
  pub on_error : Str
  pub version : Str
  pub auth_disabled : Bool
  pub device_host : Str
  pub device_os : Str
  pub headers : List (Str × Str)

-- `Options`; a nil breaker is `none`.
pub record Options : Type 0 where
  pub gateway_url : Option Url
  pub token : Option Str
  pub breaker : Option Breaker
  pub header_token : Str
  pub header_orig : Str
  pub header_ctx : Str
  pub on_error : Str
  pub auth_disabled : Bool
  pub agent_version : Str
  pub headers : List (Str × Str)
  pub device_host : Str
  pub device_os : Str

breaker_of : Option Breaker → Breaker
breaker_of none = Circuit.new (pos 0) (pos 0)
breaker_of (some b) = b

unfoldable pub gateway_host_of : Option Url → Str
gateway_host_of none = []
gateway_host_of (some u) = normalize u.host

-- `New`.
unfoldable pub new : Options → Router
unfolding breaker_of gateway_host_of
new o = record {
  gateway_url = o.gateway_url;
  gateway_host = gateway_host_of o.gateway_url;
  token = o.token;
  breaker = breaker_of o.breaker;
  header_tok = or_default o.header_token (codes "x-tfy-api-key");
  header_orig = or_default o.header_orig (codes "x-tfy-original-url");
  header_ctx = or_default o.header_ctx (codes "x-tfy-metadata");
  on_error = or_default o.on_error fail_open;
  version = o.agent_version;
  auth_disabled = o.auth_disabled;
  device_host = o.device_host;
  device_os = o.device_os;
  headers = o.headers;
}

-- `absoluteURL`.
unfoldable pub absolute_url : Request → Str
absolute_url req =
    or_default req.url.scheme (codes "https")
    ++ (codes "://" ++ (or_default req.host req.url.host ++ request_uri req.url))

abbrev token_of : Option Str → Str
token_of none = []
token_of (some t) = t

-- The loop guard: the request already targets the gateway.
pub targets_gateway : Router → Request → Bool
targets_gateway r req =
    if is_empty r.gateway_host
    then false
    else str_eq (normalize req.host) r.gateway_host
      || str_eq (normalize req.url.host) r.gateway_host

-- The statically configured headers, in the order of the list.
set_all : List (Str × Str) → Header → Header
set_all [] h = h
set_all ((k, v) ∷ kvs) h = set_all kvs (set h k v)

-- The payload of the context header.
context : Router → Str → Str → ℕ → Str
context r app_id category pid = marshal (record {
  app = clamp_ctx app_id;
  pid = if pid == 0 then [] else itoa pid;
  category = clamp_ctx category;
  host = clamp_ctx r.device_host;
  os = clamp_ctx r.device_os;
  agent_version = clamp_ctx r.version;
})

set_token : Router → Str → Header → Header
set_token r tok h = if is_empty tok then h else set h r.header_tok tok

-- The header of the gateway leg: configured statics first, so the others win a collision.
gateway_header : Router → Request → Str → Str → Str → ℕ → Header
gateway_header r req tok app_id category pid =
    set (set_token r tok (set (set_all r.headers req.header) r.header_orig (absolute_url req)))
      r.header_ctx (context r app_id category pid)

-- A gateway path other than "/" is used as it stands, with its raw form.
own_path : Url → Bool
own_path gw = not (is_empty gw.path) && not (str_eq gw.path (codes "/"))

join_query : Str → Str → Str
join_query [] q = q
join_query (c ∷ gq) [] = c ∷ gq
join_query (c ∷ gq) (d ∷ q) = (c ∷ gq) ++ b'&' ∷ d ∷ q

gateway_target : Url → Url → Url
gateway_target gw u = record {
  scheme = gw.scheme;
  host = gw.host;
  path = if own_path gw then gw.path else u.path;
  raw_path = if own_path gw then gw.raw_path else u.raw_path;
  raw_query = join_query gw.raw_query u.raw_query;
}

pub rewritten : Router → Url → Request → Str → Str → Str → ℕ → Request
rewritten r gw req tok app_id category pid = record {
  method = req.method;
  host = gw.host;
  url = gateway_target gw req.url;
  header = gateway_header r req tok app_id category pid;
}

rewrite_to : Option Url → Router → ℕ → Request → Str → Str → ℕ → Request × Bool
rewrite_to none r now req app_id category pid = (req, false)
rewrite_to (some gw) r now req app_id category pid =
    if targets_gateway r req
    then (req, false)
    else if is_empty (token_of r.token) && not r.auth_disabled
    then (req, false)
    else if is_open r.breaker now
    then (req, false)
    else (rewritten r gw req (token_of r.token) app_id category pid, true)

-- `Rewrite`, at the time `now`: the request as it is left, and the result.
unfoldable pub rewrite : Router → ℕ → Request → Str → Str → ℕ → Request × Bool
unfolding rewrite_to rewritten gateway_target join_query own_path gateway_header set_token context
    set_all targets_gateway
rewrite r now req app_id category pid = rewrite_to r.gateway_url r now req app_id category pid

-- `FailClosed`.
unfoldable pub is_fail_closed : Router → Bool
is_fail_closed r = str_eq r.on_error fail_closed

-- `NoteGatewaySuccess` and `NoteGatewayFailure`.
unfoldable pub note_gateway_success : Router → Router
note_gateway_success r = record r { breaker = success r.breaker }

unfoldable pub note_gateway_failure : Router → ℕ → Router
note_gateway_failure r now = record r { breaker = failure r.breaker now }
