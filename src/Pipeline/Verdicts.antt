-- ===== src/Pipeline/Verdicts.antt =====
-- Verdicts that hold whatever the rules say.
use mathlib.Core.Option.{Option}
use mathlib.Core.List.{List, [], ◌∷◌}
use mathlib.Core.Logic.{inl, inr}
use mathlib.Core.Path.{◌≡◌, refl, ap}
use aitori.Base.{true, false, not, is_empty, any, if◌then◌else◌, arith, Bool-cases}
use aitori.Base.Text.{Str, str_eq}
use aitori.Http.{Request}
use aitori.Config.{Object, Rule, Config, action_reroute, action_passthrough}
use aitori.AppResolve.{Flow, resolve}
use aitori.Classify.{classify}
use aitori.Classify.Decisions.{NoBodyRule, classify-body}
use aitori.Pipeline.{
  Pipeline, reroute, effective_rules, new, is_websocket_upgrade, is_held_back, decision_of, decide,
}

never :
    (action : Str)
    → str_eq (if str_eq action action_reroute then action_passthrough else action) action_reroute
      ≡ false
unfolding str_eq
never action = elim (Bool-cases (str_eq action action_reroute)) [ inl h ↦ rw h | inr h ↦ rw h h ]

-- A WebSocket upgrade is never rerouted.
pub reroute-decide_websocket :
    (unmarshal : Str → Option Object) (p : Pipeline) (req : Request) (flow : Flow) (body : Str)
    → is_websocket_upgrade req.header ≡ true
    → reroute (decide unmarshal p req flow body) ≡ false
unfolding decide decision_of is_held_back reroute
reroute-decide_websocket unmarshal p req flow body w =
    rw w (never (classify unmarshal p.rules req body).action)

-- `BodyMatters` is false only if no rule asks for a key of the body.
no_body_rule :
    (rules : List Rule) → any (λ r. not (is_empty r.match_body)) rules ≡ false → NoBodyRule rules
unfolding any
no_body_rule [] h = tt
no_body_rule (r ∷ rules) h = (empty r.match_body (ground arith), no_body_rule rules (ground arith))
  where
    empty : (o : Object) → not (is_empty o) ≡ false → o ≡ []
    empty [] e = refl
    empty (x ∷ o) e = cc

-- Where `BodyMatters` is false, a decision that a rule took without the body is the decision for
-- every body, so the body need not be read first.
pub decide-body :
    (unmarshal : Str → Option Object) (cfg : Config) (req : Request) (flow : Flow) (body : Str)
    → (new cfg).body_matters ≡ false
    → (decide unmarshal (new cfg) req flow []).matched ≡ true
    → decide unmarshal (new cfg) req flow body ≡ decide unmarshal (new cfg) req flow []
unfolding decide new decision_of
decide-body unmarshal cfg req flow body b m =
    ap (λ c. decision_of (resolve cfg.apps flow) flow c req)
      (classify-body unmarshal (effective_rules cfg) req [] body
        (no_body_rule (effective_rules cfg) b) m)
