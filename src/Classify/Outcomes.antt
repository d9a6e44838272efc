-- ===== src/Classify/Outcomes.antt =====
-- What a rule decides, and what the heuristics make of a body.
use mathlib.Core.Option.{Option, none, some}
use mathlib.Core.List.{[], ◌∷◌}
use mathlib.Core.Logic.{◌⊎◌, inl, inr, ◌↔◌, ◌≢◌}
use mathlib.Core.Path.{◌≡◌, refl, sym, ap, ◌∙◌}
use aitori.Base.{
  some-injective, or_iff, and_iff, Bool, true, false, ◌&&◌, ◌||◌, if◌then◌else◌, arith, Bool-cases,
}
use aitori.Base.Dict.{lookup}
use aitori.Base.Text.{Str, codes, str_eq, str_eq_iff, or_default}
use aitori.Config.{Value, Object, Rule, category_llm, category_mcp, category_other}
use aitori.Classify.{
  Decision, default_action, sprint, has_key, says_jsonrpc, heuristic_category, rule_decision,
  heuristic_decision,
}

-- The action for a category where nothing else is said: "reroute" for the categories "llm" and "mcp",
-- "passthrough" for any other.
pub data IsUsual (category action : Str) : Type 0 where
  reroutes :
      (category ≡ codes "llm") ⊎ (category ≡ codes "mcp")
      → action ≡ codes "reroute"
      → IsUsual category action
  passes :
      category ≢ codes "llm"
      → category ≢ codes "mcp"
      → action ≡ codes "passthrough"
      → IsUsual category action

-- What a rule decides: its category, its own action if it has one, and its own name or "rule".
pub record IsOf (r : Rule) (d : Decision) : Type 0 where
  pub of_category : d.category ≡ r.category
  pub of_own : r.action ≢ [] → d.action ≡ r.action
  pub of_usual : r.action ≡ [] → IsUsual r.category d.action
  pub of_name : r.name ≢ [] → d.rule ≡ r.name
  pub of_nameless : r.name ≡ [] → d.rule ≡ codes "rule"
  pub of_match : d.matched ≡ true

-- A key of a body and what the heuristics ask for.
abbrev pub HasKey : Str → Object → Type 0
HasKey k b = (v : Value) × (lookup k b ≡ some v)

abbrev pub LooksMcp : Object → Type 0
LooksMcp b =
    ((v : Value) × (lookup (codes "jsonrpc") b ≡ some v) × (sprint v ≡ codes "2.0"))
    × HasKey (codes "method") b

abbrev pub LooksLlm : Object → Type 0
LooksLlm b =
    HasKey (codes "model") b
    × ((HasKey (codes "messages") b ⊎ HasKey (codes "input") b) ⊎ HasKey (codes "prompt") b)

has_key_iff : (k : Str) (b : Object) → (has_key k b ≡ true) ↔ HasKey k b
has_key_iff k b = go (lookup k b)
  where
    go :
        (o : Option Value)
        → ((elim o [ none ↦ false | some v ↦ true ]) ≡ true) ↔ ((v : Value) × (o ≡ some v))
    go none = (λ h. cc, λ (v, e). cc)
    go (some v) = (λ h. (v, refl), λ _. refl)

says_jsonrpc_iff :
    (o : Option Value)
    → (says_jsonrpc o ≡ true) ↔ ((v : Value) × (o ≡ some v) × (sprint v ≡ codes "2.0"))
unfolding says_jsonrpc
says_jsonrpc_iff none = (λ h. cc, λ (v, e, _). cc)
says_jsonrpc_iff (some w) =
    let iff = str_eq_iff (sprint w) (codes "2.0") in
    (
      λ h. (w, refl, iff.0 h),
      λ (v, e, s). let same : v ≡ w = cc in iff.1 (ap sprint (sym same) ∙ s),
    )

LooksMcp-iff :
    (b : Object)
    → ((says_jsonrpc (lookup (codes "jsonrpc") b) && has_key (codes "method") b) ≡ true)
      ↔ LooksMcp b
LooksMcp-iff b = and_iff _ _ (says_jsonrpc_iff _) (has_key_iff (codes "method") b)

LooksLlm-iff :
    (b : Object)
    → ((has_key (codes "model") b
          && (has_key (codes "messages") b
              || has_key (codes "input") b
              || has_key (codes "prompt") b))
        ≡ true)
      ↔ LooksLlm b
LooksLlm-iff b = and_iff _ _ (has_key_iff (codes "model") b) (
    or_iff _ _ (or_iff _ _ (has_key_iff (codes "messages") b) (has_key_iff (codes "input") b))
      (has_key_iff (codes "prompt") b))

-- The category of a body by what it looks like; no body looks like nothing.
pub data IsSeenAs (body : Option Object) (category : Str) : Type 0 where
  as_mcp :
      (b : Object) → body ≡ some b → LooksMcp b → category ≡ codes "mcp" → IsSeenAs body category
  as_llm :
      (b : Object)
      → body ≡ some b
      → ¬ LooksMcp b
      → LooksLlm b
      → category ≡ codes "llm"
      → IsSeenAs body category
  as_other :
      ((b : Object) → body ≡ some b → (¬ LooksMcp b) × (¬ LooksLlm b))
      → category ≡ codes "other"
      → IsSeenAs body category

pick-IsSeenAs :
    (b : Object) (m l : Bool)
    → (m ≡ true) ↔ LooksMcp b
    → (l ≡ true) ↔ LooksLlm b
    → IsSeenAs (some b) (if m then category_mcp else if l then category_llm else category_other)
pick-IsSeenAs b true l p q = as_mcp b refl (p.0 refl) refl
pick-IsSeenAs b false true p q = as_llm b refl (λ x. cc (p.1 x)) (q.0 refl) refl
pick-IsSeenAs b false false p q =
    as_other
      (λ c e.
        let same : c ≡ b = sym (some-injective _ _ e) in
        (λ x. cc (p.1 (rw (sym same) x)), λ y. cc (q.1 (rw (sym same) y))))
      refl

heuristic_category-IsSeenAs : (body : Option Object) → IsSeenAs body (heuristic_category body)
unfolding heuristic_category
heuristic_category-IsSeenAs none = as_other (λ b e. cc) refl
heuristic_category-IsSeenAs (some b) = pick-IsSeenAs b _ _ (LooksMcp-iff b) (LooksLlm-iff b)

-- What is decided where no rule matches: a category of the body, and the usual action for it.
pub record IsGuess (body : Option Object) (d : Decision) : Type 0 where
  pub by_body : IsSeenAs body d.category
  pub by_usual : IsUsual d.category d.action
  pub by_name : d.rule ≡ codes "heuristic"
  pub by_nothing : d.matched ≡ false

default_action-IsUsual : (category : Str) → IsUsual category (default_action category)
unfolding default_action
default_action-IsUsual category = elim (Bool-cases (str_eq category category_llm)) [
  | inl llm ↦ rw llm (reroutes (inl ((str_eq_iff _ _).0 llm)) refl)
  | inr other ↦ elim (Bool-cases (str_eq category category_mcp)) [
    | inl mcp ↦ rw (other, mcp) (reroutes (inr ((str_eq_iff _ _).0 mcp)) refl)
    | inr neither ↦
        rw (other, neither)
          (passes (λ e. cc ((str_eq_iff category category_llm).1 e))
            (λ e. cc ((str_eq_iff category category_mcp).1 e)) refl)
  ]
]

or_default-given : (a b : Str) → a ≢ [] → or_default a b ≡ a
or_default-given [] b h = absurd (h refl)
or_default-given (x ∷ a) b h = refl

pub rule_decision-IsOf : (r : Rule) → IsOf r (rule_decision r)
unfolding rule_decision
rule_decision-IsOf r = record {
  of_category = refl;
  of_own = or_default-given r.action (default_action r.category);
  of_usual = λ e. rw e (default_action-IsUsual r.category);
  of_name = or_default-given r.name (codes "rule");
  of_nameless = λ e. rw e refl;
  of_match = refl;
}

pub heuristic_decision-IsGuess : (body : Option Object) → IsGuess body (heuristic_decision body)
unfolding heuristic_decision
heuristic_decision-IsGuess body = record {
  by_body = heuristic_category-IsSeenAs body;
  by_usual = default_action-IsUsual (heuristic_category body);
  by_name = refl;
  by_nothing = refl;
}

pick_iff :
    {P Q : Type 0} (m l : Bool)
    → (m ≡ true) ↔ P
    → (l ≡ true) ↔ Q
    → let c = if m then category_mcp else if l then category_llm else category_other in
      ((c ≡ category_mcp) ↔ P) × ((c ≡ category_llm) ↔ ((¬ P) × Q))
pick_iff true l p q =
    ((λ _. p.0 refl, λ _. refl), (λ e. ground arith, λ (n, _). absurd (n (p.0 refl))))
pick_iff false true p q =
    ((λ e. ground arith, λ x. cc (p.1 x)), (λ _. (λ x. cc (p.1 x), q.0 refl), λ _. refl))
pick_iff false false p q =
    ((λ e. ground arith, λ x. cc (p.1 x)), (λ e. ground arith, λ (_, y). cc (q.1 y)))

-- The heuristic calls a body mcp exactly if it holds a "jsonrpc" that prints as 2.0 and a
-- "method", and llm exactly if it is not mcp and holds a "model" with "messages", an "input" or a
-- "prompt".
pub heuristic_category_iff :
    (b : Object)
    → ((heuristic_category (some b) ≡ category_mcp) ↔ LooksMcp b)
      × ((heuristic_category (some b) ≡ category_llm) ↔ ((¬ LooksMcp b) × LooksLlm b))
unfolding heuristic_category
heuristic_category_iff b = pick_iff _ _ (LooksMcp-iff b) (LooksLlm-iff b)
