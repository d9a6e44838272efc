-- ===== src/MockGateway/Tests.antt =====
-- A request through the router and the gateway, and the theorems at it.
use mathlib.Core.Path.{◌≡◌, refl}
use mathlib.Core.Logic.{◌⊎◌, inl, inr}
use mathlib.Core.Option.{Option, none, some}
use mathlib.Core.List.{[], ◌∷◌}
use native.Mathlib.Omega.{arith}
use aitori.Base.{true, false, length, take, if◌then◌else◌}
use aitori.Base.Dict.{lookup, put}
use aitori.Base.Text.{Str, codes, lower_byte, str_eq}
use aitori.Base.Utf8.{from_runes, runes}
use aitori.Http.{Request, Url, canonical, get, set, values}
use aitori.Http.Target.{request_uri}
use aitori.HostMatch.{normalize}
use aitori.Circuit
use aitori.Circuit.{is_open}
use aitori.Router.{Options, absolute_url, new, rewrite}
use aitori.Router.Context.{ProxyCtx, clamp_ctx, itoa, marshal}
use aitori.MockGateway.{Outgoing, Upstream, is_tfy, serve, start, stream}
use aitori.MockGateway.Redaction.{start-IsAlike}
use aitori.MockGateway.Stream.{joined, stream-whole}
use aitori.MockGateway.Trace.{sensitive_header}

abbrev provider : Url
provider = record {
  scheme = codes "https";
  host = codes "api.anthropic.com";
  path = codes "/v1/messages";
  raw_path = [];
  raw_query = [];
}

abbrev gateway : Url
gateway = record provider { host = codes "gw.example.com"; path = codes "/" }

abbrev options : Options
options = record {
  gateway_url = some gateway;
  token = some (codes "secret");
  breaker = none;
  header_token = [];
  header_orig = [];
  header_ctx = [];
  on_error = [];
  auth_disabled = false;
  agent_version = codes "1.0";
  headers = [];
  device_host = codes "mac";
  device_os = codes "darwin";
}

abbrev post : Request
post = record {
  method = codes "POST";
  host = codes "api.anthropic.com";
  url = record provider { scheme = [] };
  header = (codes "X-Api-Key", codes "sk-1" ∷ []) ∷ [];
}

-- All that a run computes with.
run : Unit {0}
unfolding new rewrite normalize Circuit.new is_open absolute_url request_uri set get values
    canonical put lookup clamp_ctx marshal itoa runes from_runes str_eq is_tfy
run = tt

abbrev new_request : Str → Str → Str ⊎ Url
new_request method url =
    if str_eq url (codes "https://api.anthropic.com/v1/messages")
    then inr provider
    else inl (codes "no")

stream-whole_example : stream 2 (codes "ab" ∷ [] ∷ codes "c" ∷ []) [] 0 ≡ (
  joined (codes "ab" ∷ [] ∷ codes "c" ∷ []),
  some (
    take 262144 (joined (codes "ab" ∷ [] ∷ codes "c" ∷ [])),
    length (joined (codes "ab" ∷ [] ∷ codes "c" ∷ [])),
  ),
)
stream-whole_example = stream-whole (codes "ab" ∷ [] ∷ codes "c" ∷ []) 2 (omega arith)

abbrev parse_url : Str → Option Url
parse_url s = some provider

abbrev decode_ctx : Str → ProxyCtx
decode_ctx s = record { app = []; pid = []; category = []; host = []; os = []; agent_version = [] }

abbrev unzip : Str → Option Str
unzip s = none

abbrev quote : Str → Str
quote s = s

abbrev round_trip : Outgoing → Str ⊎ Upstream
round_trip out = inl (codes "no route")

abbrev with_credential : Str → Request
with_credential c = record post {
  header = (codes "Authorization", c ∷ []) ∷ (codes "Accept", codes "*/*" ∷ []) ∷ [];
}

start-IsAlike_example :
    start parse_url decode_ctx unzip quote new_request round_trip
      (with_credential (codes "a"))
      (codes "https://x")
      (decode_ctx [])
    ≡ start parse_url decode_ctx unzip quote new_request round_trip
        (with_credential (codes "b"))
        (codes "https://x")
        (decode_ctx [])
unfolding sensitive_header lower_byte
start-IsAlike_example =
    start-IsAlike parse_url decode_ctx unzip quote new_request round_trip
      (with_credential (codes "a")) (codes "https://x") (decode_ctx [])
      (with_credential (codes "b")).header
      (refl, (λ plain. absurd (plain (inl refl)), (refl, (λ plain. refl, tt))))

refused_without_token :
    (serve parse_url decode_ctx unzip quote new_request round_trip true
      (record post { header = (codes "X-Tfy-Original-Url", codes "https://x" ∷ []) ∷ [] })
      []
      1).0.status
    ≡ 401
unfolding run serve
refused_without_token = refl
