-- ===== src/Config/Overlay/Wins.antt =====
-- What the overlay keeps and adds: for every key, the configuration's own entry, else the built-in one.
use mathlib.Core.Path.{◌≡◌, refl, ap, ◌∙◌}
use mathlib.Core.Logic.{inl, inr}
use mathlib.Core.Option.{Option, none, some}
use mathlib.Core.List.{List, [], ◌∷◌, ◌++◌, map}
use aitori.Base.{Bool, true, false, Bool-cases, any, find, if◌then◌else◌}
use aitori.Base.Text.{Str, str_eq, str_eq_iff}
use aitori.Config.{Config, InterceptHost, AppProfile, InjectEntry}
use aitori.Config.Overlay.{Builtin, expand_app_paths, new_apps, new_hosts, new_injects, overlay}

-- The entries with a key.
abbrev pub has_host : Str → InterceptHost → Bool
has_host k h = str_eq h.host k

abbrev pub has_id : Str → AppProfile → Bool
has_id k a = str_eq a.id k

abbrev pub has_app : Str → InjectEntry → Bool
has_app k e = str_eq e.app k

-- The first of two, and nothing if neither is there.
abbrev pub first_of {ℓ} : {A : Type ℓ} → Option A → Option A → Option A
first_of none b = b
first_of (some a) b = some a

abbrev pub expanded : Str → Option AppProfile → Option AppProfile
expanded home none = none
expanded home (some a) = some (expand_app_paths home a)

module _ {ℓ} {A : Type ℓ} (p : A → Bool) where
  find-append : (xs ys : List A) → find p (xs ++ ys) ≡ first_of (find p xs) (find p ys)
  unfolding find
  find-append [] ys = refl
  find-append (x ∷ xs) ys = elim (Bool-cases (p x)) [
    | inl hit ↦ rw hit refl
    | inr miss ↦ rw miss (find-append xs ys)
  ]

  -- Where the search fails, no entry passes.
  any-find : (xs : List A) → find p xs ≡ none → any p xs ≡ false
  unfolding find any
  any-find [] e = refl
  any-find (x ∷ xs) e = elim (Bool-cases (p x)) [
    | inl hit ↦ cc (rw hit at e)
    | inr miss ↦ rw miss (any-find xs (rw miss at e))
  ]

  -- A list that is searched as another where the first search fails.
  find-first_of :
      (xs ys : List A) (o : Option A)
      → (find p xs ≡ none → find p ys ≡ o)
      → find p (xs ++ ys) ≡ first_of (find p xs) o
  find-first_of xs ys o same = find-append xs ys ∙ either (find p xs) same
    where
      either : (f : Option A) → (f ≡ none → find p ys ≡ o) → first_of f (find p ys) ≡ first_of f o
      either none same = same refl
      either (some a) same = refl

-- Equal keys are met together.
any-str_eq {ℓ} :
    {A : Type ℓ} (key : A → Str) (xs : List A) (k k' : Str)
    → (str_eq k k' ≡ true)
    → any (λ x. str_eq (key x) k) xs ≡ any (λ x. str_eq (key x) k') xs
any-str_eq key xs k k' e = rw ((str_eq_iff k k').0 e) refl

find-new_apps :
    (home : Str) (own apps : List AppProfile) (k : Str)
    → any (has_id k) own ≡ false
    → find (has_id k) (new_apps home own apps) ≡ expanded home (find (has_id k) apps)
unfolding new_apps find expand_app_paths
find-new_apps home own [] k miss = refl
find-new_apps home own (a ∷ apps) k miss = elim (Bool-cases (any (has_id a.id) own)) [
  | inl old ↦ elim (Bool-cases (str_eq a.id k)) [
    | inl e ↦ cc (any-str_eq (λ o. o.id) own a.id k e)
    | inr other ↦ rw (old, other) (find-new_apps home own apps k miss)
  ]
  | inr new ↦ elim (Bool-cases (str_eq a.id k)) [
    | inl e ↦ rw (new, e) refl
    | inr other ↦ rw (new, other) (find-new_apps home own apps k miss)
  ]
]

find-new_injects :
    (own entries : List InjectEntry) (k : Str)
    → any (has_app k) own ≡ false
    → find (has_app k) (new_injects own entries) ≡ find (has_app k) entries
unfolding new_injects find
find-new_injects own [] k miss = refl
find-new_injects own (a ∷ entries) k miss = elim (Bool-cases (any (has_app a.app) own)) [
  | inl old ↦ elim (Bool-cases (str_eq a.app k)) [
    | inl e ↦ cc (any-str_eq (λ o. o.app) own a.app k e)
    | inr other ↦ rw (old, other) (find-new_injects own entries k miss)
  ]
  | inr new ↦ elim (Bool-cases (str_eq a.app k)) [
    | inl e ↦ rw (new, e) refl
    | inr other ↦ rw (new, other) (find-new_injects own entries k miss)
  ]
]

find-new_hosts :
    (seen : List Str) (hosts : List InterceptHost) (k : Str)
    → any (λ s. str_eq s k) seen ≡ false
    → find (has_host k) (new_hosts seen hosts) ≡ find (has_host k) hosts
unfolding new_hosts find any
find-new_hosts seen [] k miss = refl
find-new_hosts seen (h ∷ hosts) k miss = elim (Bool-cases (any (λ s. str_eq s h.host) seen)) [
  | inl old ↦ elim (Bool-cases (str_eq h.host k)) [
    | inl e ↦ cc (any-str_eq (λ s. s) seen h.host k e)
    | inr other ↦ rw (old, other) (find-new_hosts seen hosts k miss)
  ]
  | inr new ↦ elim (Bool-cases (str_eq h.host k)) [
    | inl e ↦ rw (new, e) refl
    | inr other ↦ rw (new, other) (find-new_hosts (h.host ∷ seen) hosts k (rw other miss))
  ]
]

any-map :
    (hosts : List InterceptHost) (k : Str)
    → any (λ s. str_eq s k) (map (λ h. h.host) hosts) ≡ any (has_host k) hosts
unfolding any
any-map [] k = refl
any-map (h ∷ hosts) k = ap (λ b. if str_eq h.host k then true else b) (any-map hosts k)

-- The configuration's own entries win over the built-in ones, and every built-in one is there that it
-- does not have: the first host, application and injection for a key is the first of the
-- configuration, and where it has none, the first of the built-in profiles, an application with its
-- paths expanded.
pub find-overlay :
    (home : Str) (b : Builtin) (c : Config) (k : Str)
    → (find (has_host k) (overlay home b c).intercept_hosts
        ≡ first_of (find (has_host k) c.intercept_hosts) (find (has_host k) b.intercept_hosts))
      × ((find (has_id k) (overlay home b c).apps
            ≡ first_of (find (has_id k) c.apps) (expanded home (find (has_id k) b.apps)))
          × (find (has_app k) (overlay home b c).inject
              ≡ first_of (find (has_app k) c.inject) (find (has_app k) b.inject)))
unfolding overlay
find-overlay home b c k = (
  find-first_of _ c.intercept_hosts _ _ (λ miss.
      find-new_hosts _ b.intercept_hosts k
        (any-map c.intercept_hosts k ∙ any-find _ c.intercept_hosts miss)),
  (
    find-first_of _ c.apps _ _
        (λ miss. find-new_apps home c.apps b.apps k (any-find _ c.apps miss)),
    find-first_of _ c.inject _ _
        (λ miss. find-new_injects c.inject b.inject k (any-find _ c.inject miss)),
  ),
)
