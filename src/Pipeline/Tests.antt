-- ===== src/Pipeline/Tests.antt =====
-- Decisions of a small configuration, and the theorems at them.
use mathlib.Core.Option.{Option, none}
use mathlib.Core.List.{[], ◌∷◌}
use mathlib.Core.Path.{◌≡◌, refl}
use aitori.Base.{false}
use aitori.Base.Text.{Str, codes, str_eq, equal_fold, trim_space, split_byte}
use aitori.Base.Dict.{lookup}
use aitori.Http.{Request, get, canonical}
use aitori.Config.{
  Object, InterceptHost, scoped, Rule, Config, default, category_llm, category_other,
  action_reroute,
}
use aitori.AppResolve.{Flow}
use aitori.HostMatch
use aitori.PathMatch
use aitori.Classify.{rule_matches, classify}
use aitori.Pipeline.{effective_rules, new, reroute, is_websocket_upgrade, decide}

-- A decoder that refuses every body.
abbrev decode : Str → Option Object
decode s = none

abbrev claude : InterceptHost
claude = record {
  host = codes "claude.ai";
  action = [];
  category = [];
  paths = codes "/api/*/completion" ∷ [];
  methods = [];
}

abbrev files_rule : Rule
files_rule = record {
  name = codes "files";
  hosts = [];
  path_prefixes = codes "/files" ∷ [];
  path_patterns = [];
  methods = [];
  match_body = [];
  category = category_llm;
  action = [];
}

abbrev cfg : Config
cfg = record default { intercept_hosts = claude ∷ []; rules = files_rule ∷ [] }

abbrev flow : Flow
flow = record {
  host = codes "claude.ai";
  has_process = false;
  pid = 0;
  process_name = [];
  bundle_id = [];
  exe_path = [];
}

abbrev ask : Str → Request
ask path = record {
  method = codes "GET";
  host = codes "claude.ai";
  url = record { scheme = codes "https"; host = []; path = path; raw_path = []; raw_query = [] };
  header =
      (codes "Upgrade", codes "WebSocket" ∷ [])
      ∷ (codes "Connection", codes "keep-alive, Upgrade" ∷ [])
      ∷ [];
}

-- All that a run of the pipeline computes with.
pipeline : Unit {0}
unfolding new decide classify effective_rules rule_matches HostMatch.match_any PathMatch.match_any
    scoped is_websocket_upgrade get canonical lookup equal_fold trim_space split_byte str_eq reroute
pipeline = tt

scoped_path_reroutes :
    (classify decode (effective_rules cfg) (ask (codes "/api/7/completion")) []).action
    ≡ action_reroute
unfolding pipeline
scoped_path_reroutes = refl

other_path_passes :
    (classify decode (effective_rules cfg) (ask (codes "/x")) []).category ≡ category_other
unfolding pipeline
other_path_passes = refl
