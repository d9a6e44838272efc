-- ===== src/Pipeline/Scoped.antt =====
-- The order of the rules, and hosts of which only some endpoints are governed.
use mathlib.Core.Option.{Option}
use mathlib.Core.List.{List, [], ◌∷◌, ◌++◌}
use mathlib.Core.Logic.{◌⊎◌, inl, inr}
use mathlib.Core.Path.{◌≡◌, refl, sym, ap, ◌∙◌}
use aitori.Base.{true, not, ◌&&◌, any, All, Exists, here, there, Bool-cases}
use aitori.Base.Text.{Str, str_eq, str_eq_iff}
use aitori.Http.{Request}
use aitori.Config.{Object, InterceptHost, scoped, Rule, Config, category_other, action_passthrough}
use aitori.HostMatch
use aitori.HostMatch.Shapes.{match_any_covers_iff}
use aitori.Classify.{rule_matches, rule_decision, parse_json_object, classify}
use aitori.Classify.Rules.{rule_matches_iff}
use aitori.Classify.Decisions.{NoMatch, classify-append_skip, classify-append_hit, classify-uniform}
use aitori.Pipeline.{host_rules, scoped_hosts, rest_rule, rest_rules, effective_rules}

-- The top-level rules come first: where one of them decides, no host entry has a say.
pub classify-effective_rules_top :
    (unmarshal : Str → Option Object) (cfg : Config) (req : Request) (body : Str)
    → (classify unmarshal cfg.rules req body).matched ≡ true
    → classify unmarshal (effective_rules cfg) req body ≡ classify unmarshal cfg.rules req body
unfolding effective_rules
classify-effective_rules_top unmarshal cfg req body h =
    classify-append_hit unmarshal req body cfg.rules
      (host_rules cfg.intercept_hosts ++ rest_rules (scoped_hosts [] cfg.intercept_hosts)) h

-- The entry stands in the list, is scoped and covers the host of the request.
abbrev pub Governs : Request → InterceptHost → Type 0
Governs req h = (scoped h ≡ true) × (HostMatch.match h.host req.host ≡ true)

rest_rule-matches :
    (host : Str) (req : Request) (body : Option Object)
    → HostMatch.match host req.host ≡ true
    → rule_matches (rest_rule host) req body ≡ true
unfolding rest_rule
rest_rule-matches host req body m = (rule_matches_iff (rest_rule host) req body).1 (record {
  host = inr ((match_any_covers_iff (host ∷ []) req.host).1 (here m));
  prefix = inl refl;
  pattern = inl refl;
  method = inl refl;
  body_keys = inl refl;
})

module _ (req : Request) (body : Option Object) where
  seen-covers :
      (host : Str) (seen : List Str)
      → any (str_eq host) seen ≡ true
      → HostMatch.match host req.host ≡ true
      → Exists (λ s. HostMatch.match s req.host ≡ true) seen
  unfolding any
  seen-covers host [] h m = cc
  seen-covers host (s ∷ seen) h m = elim (Bool-cases (str_eq host s)) [
    | inl same ↦ here (ap (λ x. HostMatch.match x req.host) (sym ((str_eq_iff host s).0 same)) ∙ m)
    | inr other ↦ there (seen-covers host seen (rw other at h) m)
  ]

  new-covers :
      (host : Str) (seen : List Str) (rules : List Rule)
      → Exists (λ s. HostMatch.match s req.host ≡ true) (host ∷ seen)
        ⊎ Exists (λ r. rule_matches r req body ≡ true) rules
      → Exists (λ s. HostMatch.match s req.host ≡ true) seen
        ⊎ Exists (λ r. rule_matches r req body ≡ true) (rest_rule host ∷ rules)
  new-covers host seen rules (inl (here m)) = inr (here (rest_rule-matches host req body m))
  new-covers host seen rules (inl (there e)) = inl e
  new-covers host seen rules (inr e) = inr (there e)

  -- Every scoped host is either met before or gets its catch-all.
  scoped_hosts-covers :
      (seen : List Str) (hs : List InterceptHost)
      → Exists (Governs req) hs
      → Exists (λ s. HostMatch.match s req.host ≡ true) seen
        ⊎ Exists (λ r. rule_matches r req body ≡ true) (rest_rules (scoped_hosts seen hs))
  unfolding scoped_hosts rest_rules
  scoped_hosts-covers seen [] e = elim e [ ]
  scoped_hosts-covers seen (h ∷ hs) (here (s, m)) = elim (Bool-cases (any (str_eq h.host) seen)) [
    | inl old ↦ inl (seen-covers h.host seen old m)
    | inr new ↦ rw (s, new) (inr (here (rest_rule-matches h.host req body m)))
  ]
  scoped_hosts-covers seen (h ∷ hs) (there e) =
      elim (Bool-cases (scoped h && not (any (str_eq h.host) seen))) [
        | inl fresh ↦ rw fresh (
            new-covers h.host seen (rest_rules (scoped_hosts (h.host ∷ seen) hs))
              (scoped_hosts-covers (h.host ∷ seen) hs e))
        | inr old ↦ rw old (scoped_hosts-covers seen hs e)
      ]

rest_rules-uniform :
    (hosts : List Str)
    → All
        (λ r.
          ((rule_decision r).category ≡ category_other)
          × ((rule_decision r).action ≡ action_passthrough)
          × ((rule_decision r).matched ≡ true))
        (rest_rules hosts)
unfolding rest_rules rest_rule rule_decision
rest_rules-uniform [] = tt
rest_rules-uniform (h ∷ hosts) = ((refl, refl, refl), rest_rules-uniform hosts)

-- On a host that an entry governs only for some paths or methods, a request that no top-level
-- rule and no host entry matches is passed through as "other": the heuristic is never asked.
pub classify-effective_rules_rest :
    (unmarshal : Str → Option Object) (cfg : Config) (req : Request) (body : Str)
    → Exists (Governs req) cfg.intercept_hosts
    → NoMatch unmarshal req body cfg.rules
    → NoMatch unmarshal req body (host_rules cfg.intercept_hosts)
    → let d = classify unmarshal (effective_rules cfg) req body in
      (d.category ≡ category_other) × (d.action ≡ action_passthrough) × (d.matched ≡ true)
unfolding effective_rules
classify-effective_rules_rest unmarshal cfg req body e n k =
    let hosts = scoped_hosts [] cfg.intercept_hosts in
    let caught : Exists (λ r. rule_matches r req (parse_json_object unmarshal body) ≡ true)
        (rest_rules hosts) =
      elim (scoped_hosts-covers req (parse_json_object unmarshal body) [] cfg.intercept_hosts e) [
        | inl none_seen ↦ elim none_seen [ ]
        | inr r ↦ r
      ] in
    rw
      (
        classify-append_skip unmarshal req body cfg.rules
            (host_rules cfg.intercept_hosts ++ rest_rules hosts) n,
        classify-append_skip unmarshal req body (host_rules cfg.intercept_hosts) (rest_rules hosts)
            k,
      )
      (classify-uniform unmarshal req body
        (λ d. (d.category ≡ category_other) × (d.action ≡ action_passthrough) × (d.matched ≡ true))
        (rest_rules hosts) (rest_rules-uniform hosts) caught)
