-- ===== src/Pipeline.antt =====
-- internal/pipeline/pipeline.go: from a request to a decision. `Scoped` is about the order of the
-- rules and the hosts that are governed in part, `Verdicts` about WebSockets and bodies.
pub mod Scoped
pub mod Verdicts
mod Tests
use mathlib.Core.Option.{Option, none, some}
use mathlib.Core.List.{List, [], ◌∷◌, ◌++◌}
use aitori.Base.{ℕ, Bool, false, not, ◌&&◌, ◌||◌, is_empty, any, if◌then◌else◌}
use aitori.Base.Text.{Str, codes, str_eq, equal_fold, trim_space, split_byte}
use aitori.Http.{Header, Request, get}
use aitori.Config.{
  Object, InterceptHost, scoped, AppProfile, Rule, Config, category_other, action_reroute,
  action_passthrough,
}
use aitori.AppResolve.{Flow, resolve}
use aitori.Classify
use aitori.Classify.{classify}

-- `Decision`.
pub record Decision : Type 0 where
  pub app_id : Str
  pub category : Str
  pub action : Str
  pub rule : Str
  pub pid : ℕ
  pub matched : Bool

-- `Decision.Reroute`.
unfoldable pub reroute : Decision → Bool
reroute d = str_eq d.action action_reroute

-- `Pipeline`.
pub record Pipeline : Type 0 where
  pub apps : List AppProfile
  pub rules : List Rule
  pub body_matters : Bool

-- A host entry becomes a rule if it says more than its host.
has_policy : InterceptHost → Bool
unfolding scoped
has_policy h = not (is_empty h.action) || (not (is_empty h.category) || scoped h)

-- A scoped entry with neither action nor category means reroute.
host_action : InterceptHost → Str
unfolding scoped
host_action h =
    if is_empty h.action && (is_empty h.category && scoped h) then action_reroute else h.action

host_rule : InterceptHost → Rule
unfolding host_action
host_rule h = record {
  name = codes "host:" ++ h.host;
  hosts = h.host ∷ [];
  path_prefixes = [];
  path_patterns = h.paths;
  methods = h.methods;
  match_body = [];
  category = h.category;
  action = host_action h;
}

pub host_rules : List InterceptHost → List Rule
host_rules [] = []
host_rules (h ∷ hs) = let rest = host_rules hs in if has_policy h then host_rule h ∷ rest else rest

-- The hosts of scoped entries, each once, in order; `seen` holds those met before.
scoped_hosts : List Str → List InterceptHost → List Str
scoped_hosts seen [] = []
scoped_hosts seen (h ∷ hs) =
    let fresh = h.host ∷ scoped_hosts (h.host ∷ seen) hs in
    let old = scoped_hosts seen hs in
    if scoped h && not (any (str_eq h.host) seen) then fresh else old

-- The catch-all behind a scoped host.
rest_rule : Str → Rule
rest_rule host = record {
  name = codes "host:" ++ host ++ codes ":rest";
  hosts = host ∷ [];
  path_prefixes = [];
  path_patterns = [];
  methods = [];
  match_body = [];
  category = category_other;
  action = action_passthrough;
}

rest_rules : List Str → List Rule
rest_rules [] = []
rest_rules (host ∷ hosts) = rest_rule host ∷ rest_rules hosts

-- `effectiveRules`.
unfoldable pub effective_rules : Config → List Rule
unfolding host_rules host_rule has_policy scoped_hosts rest_rules rest_rule any scoped
effective_rules cfg =
    cfg.rules
    ++ (host_rules cfg.intercept_hosts ++ rest_rules (scoped_hosts [] cfg.intercept_hosts))

-- `New`.
unfoldable pub new : Config → Pipeline
unfolding effective_rules any
new cfg = record {
  apps = cfg.apps;
  rules = effective_rules cfg;
  body_matters = any (λ r. not (is_empty r.match_body)) (effective_rules cfg);
}

-- `isWebSocketUpgrade`.
unfoldable pub is_websocket_upgrade : Header → Bool
unfolding any equal_fold
is_websocket_upgrade h =
    if equal_fold (get h (codes "Upgrade")) (codes "websocket")
    then any (λ tok. equal_fold (trim_space tok) (codes "upgrade"))
        (split_byte b',' (get h (codes "Connection")))
    else false

app_id_of : Option AppProfile → Str
app_id_of none = []
app_id_of (some app) = app.id

-- The action of a request, once its rules have spoken.
is_held_back : Classify.Decision → Request → Bool
is_held_back c req = is_websocket_upgrade req.header && str_eq c.action action_reroute

decision_of : Option AppProfile → Flow → Classify.Decision → Request → Decision
unfolding is_held_back
decision_of app flow c req = record {
  app_id = app_id_of app;
  category = c.category;
  action = if is_held_back c req then action_passthrough else c.action;
  rule = if is_held_back c req then codes "websocket-passthrough" else c.rule;
  pid = flow.pid;
  matched = c.matched;
}

-- `Decide`.
unfoldable pub decide : (Str → Option Object) → Pipeline → Request → Flow → Str → Decision
unfolding decision_of app_id_of
decide unmarshal p req flow body =
    decision_of (resolve p.apps flow) flow (classify unmarshal p.rules req body) req
