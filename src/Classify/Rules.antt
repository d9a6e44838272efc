-- ===== src/Classify/Rules.antt =====
-- When a rule matches a request, and which rules never look at the body.
use mathlib.Core.Option.{Option, none, some}
use mathlib.Core.List.{List, [], ◌∷◌}
use mathlib.Core.Logic.{◌⊎◌, inl, inr, ◌↔◌}
use mathlib.Core.Path.{◌≡◌, refl, subst}
use aitori.Base.{Bool, true, false, not, ◌&&◌, is_empty, All, Exists, any_iff, if◌then◌else◌, arith}
use aitori.Base.Dict.{lookup}
use aitori.Base.Text.{Str, str_eq_iff, has_prefix, equal_fold}
use aitori.Http.{Request}
use aitori.Config.{Value, Object, Rule}
use aitori.HostMatch
use aitori.PathMatch
use aitori.Classify.{
  sprint, is_empty_matcher, key_matches, all_keys_match, body_matches, has_any_prefix,
  contains_fold, rule_matches,
}

-- A condition that a rule states by a list holds if the list is empty or one item fits.
abbrev pub Limits {ℓ} : {A : Type ℓ} → List A → Type 0 → Type ℓ
Limits xs P = (xs ≡ []) ⊎ P

limit_iff :
    {A : Type 0} {P Q : Type 0} (xs : List A) (t rest : Bool)
    → (t ≡ true) ↔ P
    → (rest ≡ true) ↔ Q
    → ((if not (is_empty xs) && not t then false else rest) ≡ true) ↔ (Limits xs P × Q)
limit_iff [] t rest p q = (λ h. (inl refl, q.0 h), λ (_, b). q.1 b)
limit_iff (x ∷ xs) true rest p q = (λ h. (inr (p.0 refl), q.0 h), λ (_, b). q.1 b)
limit_iff (x ∷ xs) false rest p q =
    (λ h. cc, λ (a, b). elim a [ inl e ↦ cc | inr e ↦ absurd (cc (p.1 e)) ])

-- One key of `match_body`: the body has the key, and unless nil or the empty string is asked for
-- its value prints like the one asked for.
abbrev pub KeyFits : Object → Str × Value → Type 0
KeyFits got (k, want) =
    (v : Value) × (lookup k got ≡ some v)
    × ((is_empty_matcher want ≡ true) ⊎ (sprint want ≡ sprint v))

-- Every key of `match_body`, against a body that decodes to an object.
abbrev pub BodyFits : Object → Option Object → Type 0
BodyFits want body = (got : Object) × (body ≡ some got) × All (KeyFits got) want

unless_iff :
    {Q : Type 0} (b c : Bool) → (c ≡ true) ↔ Q → ((if b then true else c) ≡ true) ↔ ((b ≡ true) ⊎ Q)
unless_iff true c q = (λ _. inl refl, λ _. refl)
unless_iff false c q = (λ h. inr (q.0 h), λ s. elim s [ inl e ↦ cc | inr y ↦ q.1 y ])

key_matches_iff :
    (k : Str) (want : Value) (got : Object)
    → (key_matches want (lookup k got) ≡ true) ↔ KeyFits got (k, want)
unfolding key_matches
key_matches_iff k want got = go (lookup k got)
  where
    Fits : Value → Type 0
    Fits v = (is_empty_matcher want ≡ true) ⊎ (sprint want ≡ sprint v)

    go : (o : Option Value) → (key_matches want o ≡ true) ↔ ((v : Value) × (o ≡ some v) × Fits v)
    go none = (λ h. cc, λ (v, e, _). cc)
    go (some w) =
        let iff = unless_iff (is_empty_matcher want) _ (str_eq_iff (sprint want) (sprint w)) in
        (λ h. (w, refl, iff.0 h), λ (v, e, f). let same : v ≡ w = cc in iff.1 (subst Fits same f))

all_keys_match_iff : (want got : Object) → (all_keys_match want got ≡ true) ↔ All (KeyFits got) want
unfolding all_keys_match
all_keys_match_iff [] got = (λ _. tt, λ _. refl)
all_keys_match_iff ((k, w) ∷ want) got =
    both (key_matches w (lookup k got)) (all_keys_match want got) (key_matches_iff k w got)
      (all_keys_match_iff want got)
  where
    both :
        {P Q : Type 0} (a b : Bool)
        → (a ≡ true) ↔ P
        → (b ≡ true) ↔ Q
        → ((if a then b else false) ≡ true) ↔ (P × Q)
    both true b p q = (λ h. (p.0 refl, q.0 h), λ (_, y). q.1 y)
    both false b p q = (λ h. cc, λ (x, _). cc (p.1 x))

body_matches_iff :
    (want : Object) (body : Option Object) → (body_matches want body ≡ true) ↔ BodyFits want body
unfolding body_matches
body_matches_iff want none = (λ h. cc, λ (got, e, _). cc)
body_matches_iff want (some b) =
    let iff = all_keys_match_iff want b in
    (
      λ h. (b, refl, iff.0 h),
      λ (got, e, a). let same : got ≡ b = cc in iff.1 (subst (λ g. All (KeyFits g) want) same a),
    )

-- What a rule asks for: each condition that is not empty is met.
pub record RuleFits (r : Rule) (req : Request) (body : Option Object) : Type 0 where
  pub host : Limits r.hosts (HostMatch.match_any r.hosts req.host ≡ true)
  pub prefix :
      Limits r.path_prefixes (Exists (λ p. has_prefix req.url.path p ≡ true) r.path_prefixes)
  pub pattern : Limits r.path_patterns (PathMatch.match_any r.path_patterns req.url.path ≡ true)
  pub method : Limits r.methods (Exists (λ m. equal_fold m req.method ≡ true) r.methods)
  pub body_keys : Limits r.match_body (BodyFits r.match_body body)

-- A rule matches a request exactly if every condition that it states is met: a host pattern, a
-- path prefix, a path glob, a method in any letter case, and all the keys asked of the body.
pub rule_matches_iff :
    (r : Rule) (req : Request) (body : Option Object)
    → (rule_matches r req body ≡ true) ↔ RuleFits r req body
unfolding rule_matches has_any_prefix contains_fold
rule_matches_iff r req body = (
  λ h.
      let n = all.0 h in
      record {
        host = n.0;
        prefix = n.1.0;
        pattern = n.1.1.0;
        method = n.1.1.1.0;
        body_keys = n.1.1.1.1.0;
      },
  λ f. all.1 (f.host, (f.prefix, (f.pattern, (f.method, (f.body_keys, tt))))),
)
  where
    all : (rule_matches r req body ≡ true) ↔ (
        Limits r.hosts (HostMatch.match_any r.hosts req.host ≡ true)
        × (Limits r.path_prefixes (Exists (λ p. has_prefix req.url.path p ≡ true) r.path_prefixes)
            × (Limits r.path_patterns (PathMatch.match_any r.path_patterns req.url.path ≡ true)
                × (Limits r.methods (Exists (λ m. equal_fold m req.method ≡ true) r.methods)
                    × (Limits r.match_body (BodyFits r.match_body body) × Unit {0})))))
    all =
        limit_iff r.hosts _ _ (λ h. h, λ h. h)
          (limit_iff r.path_prefixes _ _ (any_iff (λ p. (λ h. h, λ h. h)) r.path_prefixes) (
            limit_iff r.path_patterns _ _ (λ h. h, λ h. h)
              (limit_iff r.methods _ _ (any_iff (λ m. (λ h. h, λ h. h)) r.methods) (
                limit_iff r.match_body _ _ (body_matches_iff r.match_body body)
                  (λ _. tt, λ _. refl)))))

-- A rule that asks nothing of the body answers alike for all bodies.
pub rule_matches-body :
    (r : Rule) (req : Request) (a b : Option Object)
    → r.match_body ≡ []
    → rule_matches r req a ≡ rule_matches r req b
unfolding rule_matches
rule_matches-body r req a b e = ground arith
