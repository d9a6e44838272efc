-- ===== src/Forward/Serve/Tests.antt =====
-- Requests that are served, and the theorems at them.
use mathlib.Core.Option.{Option, some, none}
use mathlib.Core.List.{[], ◌∷◌}
use mathlib.Core.Path.{◌≡◌, refl}
use mathlib.Core.Logic.{◌↔◌}
use aitori.Base.{drop, ◌≤◌, ◌<◌, true, false, length, if◌then◌else◌, arith, All}
use aitori.Base.Text.{Str, codes, str_eq, equal_fold, trim_space, split_byte}
use aitori.Base.Dict.{put, lookup, remove}
use aitori.Base.Utf8.{runes, from_runes}
use aitori.Http.{Header, canonical, get, values, set, add, del}
use aitori.Http.HeaderLaws.{same_key}
use aitori.Http.Target.{request_uri}
use aitori.Config.{Object, scoped, Rule, Config, default, category_llm, action_reroute}
use aitori.HostMatch
use aitori.PathMatch
use aitori.HostMatch.{normalize}
use aitori.AppResolve.{resolve}
use aitori.Classify.{rule_matches, classify}
use aitori.Pipeline
use aitori.Pipeline.{effective_rules, reroute, is_websocket_upgrade, decide}
use aitori.Circuit
use aitori.Circuit.{is_open}
use aitori.Router
use aitori.Router.{Router, Options, absolute_url, rewrite, is_fail_closed}
use aitori.Router.Context.{clamp_ctx, marshal, itoa}
use aitori.Forward.Bodies.{Stream, drain_body, bytes_of, full-drain_body_iff, drain_body-broken}
use aitori.Forward.Replies.{Response, write_error}
use aitori.Forward.Serve.{Incoming, Outgoing, Live, flow_of, upstream_request, prepare, serve}
use aitori.Forward.Serve.Attempts.{
  Course, prepared, upstream, served, gateway_leg, serve-Course, serve-fail_closed,
}
use aitori.Forward.Serve.Paths.{prepare-dec, serve-body}

-- A decoder that refuses every body, and a network on which only the gateway fails.
abbrev decode : Str → Option Object
decode s = none

abbrev answer_ok : Response
answer_ok = record {
  status = 200;
  header = [];
  chunks = codes "he" ∷ codes "llo" ∷ [];
  trailer = [];
}

abbrev network : Outgoing → Option Response
network out = if str_eq out.request.url.host (codes "gw.example.com") then none else some answer_ok

-- A failed attempt that has read a part of the body.
abbrev cut_off : Outgoing → Stream
cut_off out = record { bytes = drop 2 out.body.bytes; broken = false }

abbrev options : Options
options = record {
  gateway_url = some (record {
    scheme = codes "https";
    host = codes "gw.example.com";
    path = [];
    raw_path = [];
    raw_query = [];
  });
  token = some (codes "secret");
  breaker = none;
  header_token = [];
  header_orig = [];
  header_ctx = [];
  on_error = codes "fail_closed";
  auth_disabled = false;
  agent_version = [];
  headers = [];
  device_host = [];
  device_os = [];
}

abbrev messages_rule : Rule
messages_rule = record {
  name = codes "messages";
  hosts = [];
  path_prefixes = codes "/v1" ∷ [];
  path_patterns = [];
  methods = [];
  match_body = [];
  category = category_llm;
  action = action_reroute;
}

abbrev cfg : Config
cfg = record default { rules = messages_rule ∷ [] }

abbrev live : Live
live = record { router = Router.new options; pipeline = Pipeline.new cfg; max_body = 8 }

abbrev body : Stream
body = record { bytes = codes "hello"; broken = false }

abbrev post : Incoming
post = record {
  request = record {
    method = codes "POST";
    host = codes "api.openai.com";
    url = record { scheme = []; host = []; path = codes "/v1/x"; raw_path = []; raw_query = [] };
    header = [];
  };
  body = some body;
  content_length = some 5;
  process = none;
}

-- All that a run of `serve` computes with.
serving : Unit {0}
unfolding Router.new rewrite normalize Circuit.new is_open is_fail_closed absolute_url request_uri
    set get values add del canonical put lookup remove clamp_ctx marshal itoa runes from_runes
    str_eq same_key Pipeline.new decide classify effective_rules rule_matches HostMatch.match_any
    PathMatch.match_any scoped is_websocket_upgrade equal_fold trim_space split_byte reroute resolve
    prepare drain_body serve upstream_request flow_of
serving = tt

fails_closed : (serve decode network cut_off 99 live true post 5 6).reply.status ≡ 502
unfolding serving write_error
fails_closed = refl

full-drain_body_iff_example :
    ((drain_body (some body) 5).full ≡ true) ↔ ((0 < 5) × (length body.bytes ≤ 5))
full-drain_body_iff_example = full-drain_body_iff body 5

drain_body-broken_example :
    drain_body (some (record { bytes = codes "hel"; broken = true })) 8
    ≡ drain_body (some (record { bytes = codes "hel"; broken = false })) 8
drain_body-broken_example = drain_body-broken (codes "hel") 8 (omega arith) (omega arith)

abbrev client_header : Header
client_header =
    (codes "Connection", codes "Upgrade, X-Trace" ∷ [])
    ∷ (codes "Upgrade", codes "websocket" ∷ [])
    ∷ []

serve-Course_example :
    Course decode network cut_off 99 live
      (prepared decode network cut_off 99 live true post 5 6)
      5
      6
      (upstream decode network cut_off 99 live true post 5 6)
      (served decode network cut_off 99 live true post 5 6)
serve-Course_example = serve-Course decode network cut_off 99 live true post 5 6

serve-fail_closed_example :
    (served decode network cut_off 99 live true post 5 6).attempts
    ≡ gateway_leg decode network cut_off 99 live
        (prepared decode network cut_off 99 live true post 5 6)
        5
        6
        (upstream decode network cut_off 99 live true post 5 6)
      ∷ []
unfolding serving
serve-fail_closed_example =
    serve-fail_closed decode network cut_off 99 live true post 5 6 refl refl refl refl

serve-body_example :
    All
      (λ out. out.body.bytes ≡ bytes_of post.body)
      (serve decode network cut_off 99 live true post 5 6).attempts
serve-body_example = serve-body decode network cut_off 99 live true post 5 6

prepare-dec_example :
    (prepare decode network cut_off 99 live post).dec
    ≡ decide decode live.pipeline post.request
        (flow_of post)
        (drain_body post.body live.max_body).buf
prepare-dec_example = prepare-dec decode network cut_off 99 cfg live post refl
