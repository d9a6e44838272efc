-- ===== src/Classify.antt =====
-- internal/classify/classify.go: the category and action of a request. `unmarshal` stands for
-- `json.Unmarshal` into a map: `none` is an error or a null. `Rules` is about one rule, `Outcomes`
-- about what a rule and the heuristics decide, `Decisions` about the whole decision.
pub mod Rules
pub mod Outcomes
pub mod Decisions
mod Tests
use mathlib.Core.Option.{Option, none, some}
use mathlib.Core.List.{List, [], ◌∷◌}
use aitori.Base.{Bool, true, false, not, ◌&&◌, ◌||◌, is_empty, any, if◌then◌else◌}
use aitori.Base.Dict.{lookup}
use aitori.Base.Text.{or_default, Str, codes, str_eq, has_prefix, equal_fold}
use aitori.Http.{Request}
use aitori.Config.{
  Value, null, boolean, string, printed, Object, Rule, category_llm, category_mcp, category_other,
  action_reroute, action_passthrough,
}
use aitori.HostMatch
use aitori.PathMatch

-- `Decision`.
pub record Decision : Type 0 where
  pub category : Str
  pub action : Str
  pub rule : Str
  pub matched : Bool

-- `DefaultAction`.
unfoldable pub default_action : Str → Str
unfolding str_eq
default_action category =
    if str_eq category category_llm || str_eq category category_mcp
    then action_reroute
    else action_passthrough

-- `fmt.Sprint(v)`.
unfoldable pub sprint : Value → Str
sprint null = codes "<nil>"
sprint (boolean b) = if b then codes "true" else codes "false"
sprint (string s) = s
sprint (printed s) = s

-- `isEmptyMatcher`.
unfoldable pub is_empty_matcher : Value → Bool
is_empty_matcher null = true
is_empty_matcher (string s) = is_empty s
is_empty_matcher _ = false

-- One key of `match_body` against the value that the body has for it.
key_matches : Value → Option Value → Bool
key_matches want none = false
key_matches want (some got) =
    if is_empty_matcher want then true else str_eq (sprint want) (sprint got)

all_keys_match : Object → Object → Bool
all_keys_match [] got = true
all_keys_match ((k, want) ∷ wants) got =
    if key_matches want (lookup k got) then all_keys_match wants got else false

-- `bodyMatches`.
unfoldable pub body_matches : Object → Option Object → Bool
unfolding all_keys_match key_matches is_empty_matcher sprint
body_matches want none = false
body_matches want (some got) = all_keys_match want got

-- `hasAnyPrefix` and `containsFold`.
has_any_prefix : Str → List Str → Bool
has_any_prefix path prefixes = any (has_prefix path) prefixes

contains_fold : List Str → Str → Bool
contains_fold list s = any (λ v. equal_fold v s) list

-- `ruleMatches`: an empty condition does not restrict.
unfoldable pub rule_matches : Rule → Request → Option Object → Bool
unfolding has_any_prefix contains_fold any
rule_matches r req body =
    if not (is_empty r.hosts) && not (HostMatch.match_any r.hosts req.host)
    then false
    else if not (is_empty r.path_prefixes) && not (has_any_prefix req.url.path r.path_prefixes)
    then false
    else if not (is_empty r.path_patterns) && not (PathMatch.match_any r.path_patterns req.url.path)
    then false
    else if not (is_empty r.methods) && not (contains_fold r.methods req.method)
    then false
    else if not (is_empty r.match_body) && not (body_matches r.match_body body)
    then false
    else true

abbrev has_key : Str → Object → Bool
has_key k b = elim (lookup k b) [ none ↦ false | some v ↦ true ]

-- `b["jsonrpc"]` is there and prints as 2.0.
says_jsonrpc : Option Value → Bool
says_jsonrpc none = false
says_jsonrpc (some v) = str_eq (sprint v) (codes "2.0")

-- `heuristicCategory`.
unfoldable pub heuristic_category : Option Object → Str
unfolding says_jsonrpc sprint
heuristic_category none = category_other
heuristic_category (some b) =
    if says_jsonrpc (lookup (codes "jsonrpc") b) && has_key (codes "method") b
    then category_mcp
    else if has_key (codes "model") b
        && (has_key (codes "messages") b || has_key (codes "input") b || has_key (codes "prompt") b)
    then category_llm
    else category_other

-- The decision of a matching rule.
unfoldable pub rule_decision : Rule → Decision
rule_decision r = record {
  category = r.category;
  action = or_default r.action (default_action r.category);
  rule = or_default r.name (codes "rule");
  matched = true;
}

unfoldable pub heuristic_decision : Option Object → Decision
heuristic_decision body = record {
  category = heuristic_category body;
  action = default_action (heuristic_category body);
  rule = codes "heuristic";
  matched = false;
}

-- The loop of `Classify`, and the heuristic behind it.
first_decision : List Rule → Request → Option Object → Decision
first_decision [] req body = heuristic_decision body
first_decision (r ∷ rules) req body =
    if rule_matches r req body then rule_decision r else first_decision rules req body

-- `parseJSONObject`.
unfoldable pub parse_json_object : (Str → Option Object) → Str → Option Object
parse_json_object unmarshal [] = none
parse_json_object unmarshal (c ∷ body) = unmarshal (c ∷ body)

-- `Classify`.
unfoldable pub classify : (Str → Option Object) → List Rule → Request → Str → Decision
unfolding first_decision rule_decision heuristic_decision parse_json_object
classify unmarshal rules req body = first_decision rules req (parse_json_object unmarshal body)
