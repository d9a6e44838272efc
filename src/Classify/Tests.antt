-- ===== src/Classify/Tests.antt =====
-- Requests against a small set of rules, and the theorems at them. The decoder knows one body.
use mathlib.Core.Option.{Option, some, none}
use mathlib.Core.List.{List, [], ◌∷◌}
use mathlib.Core.Path.{◌≡◌, refl}
use mathlib.Core.Logic.{◌↔◌}
use aitori.Base.{true, if◌then◌else◌}
use aitori.Base.Text.{Str, codes, str_eq, equal_fold}
use aitori.Base.Dict.{lookup}
use aitori.Http.{Request}
use aitori.Config.{string, printed, Object, Rule, category_llm, action_reroute}
use aitori.HostMatch
use aitori.PathMatch
use aitori.Classify.{default_action, rule_matches, heuristic_category, parse_json_object, classify}
use aitori.Classify.Rules.{RuleFits, rule_matches_iff}
use aitori.Classify.Decisions.{IsDecided, classify-IsDecided}

abbrev chat_body : Object
chat_body = (codes "model", string (codes "m")) ∷ (codes "messages", printed (codes "[]")) ∷ []

abbrev decode : Str → Option Object
decode s = if str_eq s (codes "chat") then some chat_body else none

abbrev messages_rule : Rule
messages_rule = record {
  name = codes "messages";
  hosts = codes "api.anthropic.com" ∷ [];
  path_prefixes = [];
  path_patterns = codes "/v1/*" ∷ [];
  methods = codes "post" ∷ [];
  match_body = [];
  category = category_llm;
  action = [];
}

abbrev rules : List Rule
rules = messages_rule ∷ []

abbrev post : Request
post = record {
  method = codes "POST";
  host = codes "api.anthropic.com:443";
  url = record {
    scheme = codes "https";
    host = [];
    path = codes "/v1/messages";
    raw_path = [];
    raw_query = [];
  };
  header = [];
}

abbrev elsewhere : Request
elsewhere = record post { host = codes "example.com" }

by_the_rule : (classify decode rules post []).action ≡ action_reroute
unfolding classify rule_matches HostMatch.match_any PathMatch.match_any equal_fold default_action
    str_eq
by_the_rule = refl

by_the_body : (classify decode rules elsewhere (codes "chat")).category ≡ category_llm
unfolding classify rule_matches HostMatch.match_any heuristic_category str_eq lookup
by_the_body = refl

classify-IsDecided_example :
    IsDecided rules post (parse_json_object decode []) (classify decode rules post [])
classify-IsDecided_example = classify-IsDecided decode rules post []

rule_matches_iff_example :
    (rule_matches messages_rule post (some chat_body) ≡ true)
    ↔ RuleFits messages_rule post (some chat_body)
rule_matches_iff_example = rule_matches_iff messages_rule post (some chat_body)
