-- ===== src/Classify/Decisions.antt =====
-- Which rule decides, and when the body does not matter.
use mathlib.Core.Option.{Option}
use mathlib.Core.List.{List, [], ◌∷◌, ◌++◌}
use mathlib.Core.Logic.{inl, inr}
use mathlib.Core.Path.{◌≡◌, refl, ap}
use aitori.Base.{true, false, All, Exists, here, there, Bool-cases}
use aitori.Base.Text.{Str}
use aitori.Http.{Request}
use aitori.Config.{Object, Rule}
use aitori.Classify.{
  Decision, rule_matches, rule_decision, heuristic_decision, first_decision, parse_json_object,
  classify,
}
use aitori.Classify.Rules.{rule_matches-body}
use aitori.Classify.Outcomes.{IsOf, IsGuess, rule_decision-IsOf, heuristic_decision-IsGuess}

-- The first rule that matches decides; the heuristic decides if none does.
pub data IsDecided (rules : List Rule) (req : Request) (body : Option Object) (d : Decision)
    : Type 0 where
  by_rule :
      (before : List Rule) (r : Rule) (after : List Rule)
      → rules ≡ before ++ r ∷ after
      → All (λ x. rule_matches x req body ≡ false) before
      → rule_matches r req body ≡ true
      → IsOf r d
      → IsDecided rules req body d
  by_heuristic :
      All (λ x. rule_matches x req body ≡ false) rules → IsGuess body d → IsDecided rules req body d

IsDecided-cons :
    {r : Rule} {rules : List Rule} {req : Request} {body : Option Object} {d : Decision}
    → rule_matches r req body ≡ false
    → IsDecided rules req body d
    → IsDecided (r ∷ rules) req body d
IsDecided-cons {r} miss (by_rule before x after e early hit same) =
    by_rule (r ∷ before) x after (ap (λ l. r ∷ l) e) (miss, early) hit same
IsDecided-cons miss (by_heuristic all same) = by_heuristic (miss, all) same

first_decision-IsDecided :
    (rules : List Rule) (req : Request) (body : Option Object)
    → IsDecided rules req body (first_decision rules req body)
unfolding first_decision
first_decision-IsDecided [] req body = by_heuristic tt (heuristic_decision-IsGuess body)
first_decision-IsDecided (r ∷ rules) req body = elim (Bool-cases (rule_matches r req body)) [
  | inl hit ↦ by_rule [] r rules refl tt hit (rw hit (rule_decision-IsOf r))
  | inr miss ↦ rw miss (IsDecided-cons miss (first_decision-IsDecided rules req body))
]

-- The first rule in the order of the list that matches the request decides: with its category, its
-- own action if it has one and else "reroute" for llm and mcp and "passthrough" for the rest, and its
-- name or "rule". If no rule matches, the category is mcp for a body with a "jsonrpc" that prints as
-- 2.0 and a "method", llm for any other with a "model" and one of "messages", "input" and "prompt",
-- and else other; the action goes with it in the same way, and the name is "heuristic".
pub classify-IsDecided :
    (unmarshal : Str → Option Object) (rules : List Rule) (req : Request) (body : Str)
    → IsDecided rules req (parse_json_object unmarshal body) (classify unmarshal rules req body)
unfolding classify
classify-IsDecided unmarshal rules req body =
    first_decision-IsDecided rules req (parse_json_object unmarshal body)

-- No rule asks for a key of the body.
abbrev pub NoBodyRule : List Rule → Type 0
NoBodyRule rules = All (λ r. r.match_body ≡ []) rules

first_decision-body :
    (rules : List Rule) (req : Request) (a b : Option Object)
    → NoBodyRule rules
    → (first_decision rules req a).matched ≡ true
    → first_decision rules req b ≡ first_decision rules req a
unfolding first_decision
first_decision-body [] req a b n h = unfold heuristic_decision in cc
first_decision-body (r ∷ rules) req a b (e, n) h = elim (Bool-cases (rule_matches r req a)) [
  | inl hit ↦ rw (rule_matches-body r req b a e, hit)
  | inr miss ↦
      rw (rule_matches-body r req b a e, miss) (first_decision-body rules req a b n (rw miss at h))
]

-- If no rule looks at the body, a decision that a rule took for one body is the decision for
-- every body.
pub classify-body :
    (unmarshal : Str → Option Object) (rules : List Rule) (req : Request) (body other : Str)
    → NoBodyRule rules
    → (classify unmarshal rules req body).matched ≡ true
    → classify unmarshal rules req other ≡ classify unmarshal rules req body
unfolding classify
classify-body unmarshal rules req body other n h =
    first_decision-body rules req (parse_json_object unmarshal body)
      (parse_json_object unmarshal other) n h

module _ (unmarshal : Str → Option Object) (req : Request) (body : Str) where
  -- No rule of the list matches the request.
  abbrev pub NoMatch : List Rule → Type 0
  NoMatch rules = All (λ x. rule_matches x req (parse_json_object unmarshal body) ≡ false) rules

  -- Rules that do not match are passed over.
  pub classify-append_skip :
      (xs ys : List Rule)
      → NoMatch xs
      → classify unmarshal (xs ++ ys) req body ≡ classify unmarshal ys req body
  unfolding classify first_decision
  classify-append_skip [] ys n = refl
  classify-append_skip (r ∷ xs) ys (miss, n) = rw miss (classify-append_skip xs ys n)

  -- Where a rule of the first list decides, the second list is not read.
  pub classify-append_hit :
      (xs ys : List Rule)
      → (classify unmarshal xs req body).matched ≡ true
      → classify unmarshal (xs ++ ys) req body ≡ classify unmarshal xs req body
  unfolding classify first_decision
  classify-append_hit [] ys h = unfold heuristic_decision in cc
  classify-append_hit (r ∷ xs) ys h =
      elim (Bool-cases (rule_matches r req (parse_json_object unmarshal body))) [
        | inl hit ↦ rw hit
        | inr miss ↦ rw miss (classify-append_hit xs ys (rw miss at h))
      ]

  -- If one rule of a list matches, what all rules of the list decide is the decision.
  pub classify-uniform {κ} :
      (P : Decision → Type κ) (rules : List Rule)
      → All (λ r. P (rule_decision r)) rules
      → Exists (λ r. rule_matches r req (parse_json_object unmarshal body) ≡ true) rules
      → P (classify unmarshal rules req body)
  unfolding classify first_decision
  classify-uniform P [] ps e = elim e [ ]
  classify-uniform P (r ∷ rules) (p, ps) (here hit) = rw hit p
  classify-uniform P (r ∷ rules) (p, ps) (there e) =
      elim (Bool-cases (rule_matches r req (parse_json_object unmarshal body))) [
        | inl hit ↦ rw hit p
        | inr miss ↦ rw miss (classify-uniform P rules ps e)
      ]
