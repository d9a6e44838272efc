-- ===== src/Router/Tests.antt =====
-- A rewritten request, and the theorems at it.
use mathlib.Core.Option.{some, none}
use mathlib.Core.List.{[], ◌∷◌}
use mathlib.Core.Path.{◌≡◌, refl}
use mathlib.Core.Logic.{◌↔◌}
use aitori.Base.{true, false}
use aitori.Base.Text.{codes, str_eq}
use aitori.Base.Dict.{put, lookup}
use aitori.Base.Utf8.{runes, from_runes}
use aitori.Http.{Url, Request, canonical, get, values, set}
use aitori.Http.HeaderLaws.{same_key}
use aitori.Http.Target.{request_uri}
use aitori.HostMatch.{normalize}
use aitori.Circuit
use aitori.Circuit.{is_open}
use aitori.Router.{Options, new, absolute_url, rewrite}
use aitori.Router.Context.{clamp_ctx, marshal, itoa}
use aitori.Router.Guards.{MayReroute, rewrite_iff}
use aitori.Router.Rewritten.{rewrite_twice}

abbrev gateway : Url
gateway = record {
  scheme = codes "https";
  host = codes "gw.example.com";
  path = codes "/api/llm";
  raw_path = [];
  raw_query = [];
}

abbrev options : Options
options = record {
  gateway_url = some gateway;
  token = some (codes "secret");
  breaker = none;
  header_token = [];
  header_orig = [];
  header_ctx = [];
  on_error = [];
  auth_disabled = false;
  agent_version = codes "1.0";
  headers = [];
  device_host = codes "mac";
  device_os = codes "darwin";
}

abbrev post : Request
post = record {
  method = codes "POST";
  host = codes "api.anthropic.com";
  url = record {
    scheme = [];
    host = codes "api.anthropic.com";
    path = codes "/v1/a b";
    raw_path = [];
    raw_query = codes "x=1";
  };
  header = (codes "X-Api-Key", codes "sk-1" ∷ []) ∷ [];
}

-- All that a run of the router computes with.
router : Unit {0}
unfolding new rewrite normalize Circuit.new is_open absolute_url request_uri set get values
    canonical put lookup clamp_ctx marshal itoa runes from_runes str_eq same_key
router = tt

original : absolute_url post ≡ codes "https://api.anthropic.com/v1/a%20b?x=1"
unfolding router
original = refl

payload :
    marshal (record {
      app = codes "a\"<";
      pid = itoa 407;
      category = [];
      host = [];
      os = [];
      agent_version = [];
    })
    ≡ codes "{\"app\":\"a\\\"\\u003c\",\"pid\":\"407\"}"
unfolding router
payload = refl

goes_out : (rewrite (new options) 5 post (codes "app") (codes "llm") 7).1 ≡ true
unfolding router
goes_out = refl

may_reroute : MayReroute (new options) 5 post
may_reroute = (rewrite_iff (new options) 5 post (codes "app") (codes "llm") 7).0 goes_out

rewrite_iff_example :
    ((rewrite (new options) 5 post (codes "app") (codes "llm") 7).1 ≡ true)
    ↔ MayReroute (new options) 5 post
rewrite_iff_example = rewrite_iff (new options) 5 post (codes "app") (codes "llm") 7

abbrev looping : Request
looping = record post { host = codes "GW.example.com:443" }

rewrite_twice_example :
    (rewrite
      (new options)
      9
      (rewrite (new options) 5 post (codes "app") (codes "llm") 7).0
      (codes "app")
      (codes "llm")
      7).1
    ≡ false
unfolding router
rewrite_twice_example =
    rewrite_twice options 5 9 post (codes "app") (codes "llm") 7 (λ e. cc) goes_out
