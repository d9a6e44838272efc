-- ===== src/Config/Validate/Checks.antt =====
-- When the single checks of `Validate` pass.
use mathlib.Core.Path.{◌≡◌, refl}
use mathlib.Core.Logic.{◌⊎◌, ◌↔◌, ◌≢◌}
use mathlib.Core.Option.{Option, none, some}
use mathlib.Core.List.{List, [], ◌∷◌}
use aitori.Base.{
  or_iff, and_iff, is_empty_iff, ℕ, suc, Bool, true, false, not, ◌==◌, arith, All, All-map, Exists,
  here, there, any_iff,
}
use aitori.Base.Text.{Str, codes, str_eq_iff}
use aitori.Config.{
  InterceptHost, Rule, InjectEntry, AppProfile, SinkConfig, category_llm, category_mcp,
  category_other, action_reroute, action_passthrough, action_block, inject_mode_settings,
}
use aitori.Config.Validate.{
  Problem, no_app_id, duplicate_app_id, report, or_else, is_action, is_category, check_host,
  check_rule, check_inject, check_sink, check_each, check_apps, is_none,
}

-- A check that passes exactly where `P` holds.
abbrev pub Passes : Option Problem → Type 0 → Type 0
Passes o P = (o ≡ none) ↔ P

pub or_else_iff :
    {P Q : Type 0} (a b : Option Problem) → Passes a P → Passes b Q → Passes (or_else a b) (P × Q)
or_else_iff none b p q = (λ h. (p.0 refl, q.0 h), λ (_, y). q.1 y)
or_else_iff (some problem) b p q = (λ h. cc, λ (x, _). cc (p.1 x))

pub report_iff :
    {P : Type 0} (b : Bool) (e : Problem) → ((b ≡ true) ↔ P) → Passes (report b e) (¬ P)
report_iff true e p = (λ h. cc, λ n. absurd (n (p.0 refl)))
report_iff false e p = (λ h x. cc (p.1 x), λ n. refl)

pub report-not_iff :
    {P : Type 0} (b : Bool) (e : Problem) → ((b ≡ true) ↔ P) → Passes (report (not b) e) P
report-not_iff true e p = (λ h. p.0 refl, λ x. refl)
report-not_iff false e p = (λ h. cc, λ x. cc (p.1 x))

-- An action that the proxy knows, or none.
abbrev pub IsAction : Str → Type 0
IsAction a = (a ≡ []) ⊎ ((a ≡ action_reroute) ⊎ ((a ≡ action_passthrough) ⊎ (a ≡ action_block)))

-- A category that the proxy knows, or none.
abbrev pub IsCategory : Str → Type 0
IsCategory c = (c ≡ category_llm) ⊎ ((c ≡ category_mcp) ⊎ ((c ≡ category_other) ⊎ (c ≡ [])))

abbrev pub HostFits : InterceptHost → Type 0
HostFits h = (h.host ≢ []) × (IsAction h.action × IsCategory h.category)

abbrev pub RuleFits : Rule → Type 0
RuleFits r = IsCategory r.category × ((¬ ((r.category ≡ []) × (r.action ≡ []))) × IsAction r.action)

abbrev pub InjectFits : InjectEntry → Type 0
InjectFits e = (e.app ≢ []) × ((e.mode ≡ []) ⊎ (e.mode ≡ inject_mode_settings))

abbrev pub SinkFits : SinkConfig → Type 0
SinkFits s =
    ((s.kind ≡ codes "stdout") ⊎ (s.kind ≡ codes "file"))
    × (¬ ((s.kind ≡ codes "file") × (s.path ≡ [])))

is_action_iff : (a : Str) → (is_action a ≡ true) ↔ IsAction a
unfolding is_action
is_action_iff a = or_iff _ _ (is_empty_iff a) (
    or_iff _ _ (str_eq_iff a action_reroute)
      (or_iff _ _ (str_eq_iff a action_passthrough) (str_eq_iff a action_block)))

is_category_iff : (c : Str) → (is_category c true ≡ true) ↔ IsCategory c
unfolding is_category
is_category_iff c = or_iff _ _ (str_eq_iff c category_llm) (
    or_iff _ _ (str_eq_iff c category_mcp)
      (or_iff _ _ (str_eq_iff c category_other) (is_empty_iff c)))

pub check_host_iff : (i : ℕ) (h : InterceptHost) → Passes (check_host i h) (HostFits h)
unfolding check_host
check_host_iff i h = or_else_iff _ _ (report_iff _ _ (is_empty_iff h.host)) (
    or_else_iff _ _ (report-not_iff _ _ (is_action_iff h.action))
      (report-not_iff _ _ (is_category_iff h.category)))

pub check_rule_iff : (i : ℕ) (r : Rule) → Passes (check_rule i r) (RuleFits r)
unfolding check_rule
check_rule_iff i r = or_else_iff _ _ (report-not_iff _ _ (is_category_iff r.category)) (
    or_else_iff _ _ (report_iff _ _ (and_iff _ _ (is_empty_iff r.category) (is_empty_iff r.action)))
      (report-not_iff _ _ (is_action_iff r.action)))

pub check_inject_iff : (i : ℕ) (e : InjectEntry) → Passes (check_inject i e) (InjectFits e)
unfolding check_inject
check_inject_iff i e =
    or_else_iff _ _ (report_iff _ _ (is_empty_iff e.app)) (
      report-not_iff _ _
        (or_iff _ _ (is_empty_iff e.mode) (str_eq_iff e.mode inject_mode_settings)))

pub check_sink_iff : (i : ℕ) (s : SinkConfig) → Passes (check_sink i s) (SinkFits s)
unfolding check_sink
check_sink_iff i s =
    or_else_iff _ _
      (report-not_iff _ _
        (or_iff _ _ (str_eq_iff s.kind (codes "stdout")) (str_eq_iff s.kind (codes "file"))))
      (report_iff _ _ (and_iff _ _ (str_eq_iff s.kind (codes "file")) (is_empty_iff s.path)))

module _ {A : Type 0} {P : A → Type 0} (check : ℕ → A → Option Problem)
    (iff : (i : ℕ) (x : A) → Passes (check i x) (P x)) where
  pub check_each_iff : (i : ℕ) (xs : List A) → Passes (check_each check i xs) (All P xs)
  unfolding check_each
  check_each_iff i [] = (λ h. tt, λ h. refl)
  check_each_iff i (x ∷ xs) = or_else_iff _ _ (iff i x) (check_each_iff (suc i) xs)

-- Every application has an id, and no two have the same one.
abbrev pub HasIds : List AppProfile → Type 0
HasIds [] = Unit
HasIds (a ∷ rest) = (a.id ≢ []) × (All (λ b. b.id ≢ a.id) rest × HasIds rest)

abbrev IsNew : List Str → AppProfile → Type 0
IsNew seen a = ¬ Exists (λ s. a.id ≡ s) seen

cons-IsNew :
    (x : Str) (seen : List Str) (b : AppProfile) → b.id ≢ x → IsNew seen b → IsNew (x ∷ seen) b
cons-IsNew x seen b n m (here e) = n e
cons-IsNew x seen b n m (there e) = m e

all-IsNew :
    (x : Str) (seen : List Str) (apps : List AppProfile)
    → All (λ b. b.id ≢ x) apps
    → All (IsNew seen) apps
    → All (IsNew (x ∷ seen)) apps
all-IsNew x seen [] h k = tt
all-IsNew x seen (b ∷ apps) (n, h) (m, k) = (cons-IsNew x seen b n m, all-IsNew x seen apps h k)

check_apps_iff :
    (seen : List Str) (i : ℕ) (apps : List AppProfile)
    → Passes (check_apps seen i apps) (HasIds apps × All (IsNew seen) apps)
unfolding check_apps
check_apps_iff seen i [] = (λ h. (tt, tt), λ h. refl)
check_apps_iff seen i (a ∷ rest) =
    let step : Passes _
        ((a.id ≢ []) × ((IsNew seen a) × (HasIds rest × All (IsNew (a.id ∷ seen)) rest))) =
      or_else_iff _ _ (report_iff _ (no_app_id i) (is_empty_iff a.id)) (
        or_else_iff _ _ (report_iff _ (duplicate_app_id i) (any_iff (λ s. str_eq_iff a.id s) seen))
          (check_apps_iff (a.id ∷ seen) (suc i) rest)) in
    (
      λ h.
          let (n, (m, (ids, news))) = step.0 h in
          (
            (n, (All-map (λ b k e. k (here e)) rest news, ids)),
            (m, All-map (λ b k e. k (there e)) rest news),
          ),
      λ ((n, (others, ids)), (m, news)).
          step.1 (n, (m, (ids, all-IsNew a.id seen rest others news))),
    )

no_member : (a : AppProfile) {ss : List Str} → Exists (λ s. a.id ≡ s) ss → ss ≢ []
no_member a (here e) q = cc
no_member a (there e) q = cc

ids-IsNew : (apps : List AppProfile) → All (IsNew []) apps
ids-IsNew [] = tt
ids-IsNew (a ∷ rest) = (λ h. no_member a h refl, ids-IsNew rest)

pub HasIds-iff : (apps : List AppProfile) → Passes (check_apps [] 0 apps) (HasIds apps)
HasIds-iff apps =
    let iff = check_apps_iff [] 0 apps in (λ h. (iff.0 h).0, λ h. iff.1 (h, ids-IsNew apps))

pub eq_iff : (a b : ℕ) → (a == b ≡ true) ↔ (a ≡ b)
eq_iff a b = (λ h. ground arith, λ h. ground arith)

pub is_none_iff : (o : Option ℕ) → (is_none o ≡ true) ↔ (o ≡ none)
is_none_iff none = (λ h. refl, λ h. refl)
is_none_iff (some d) = (λ h. cc, λ h. cc)
