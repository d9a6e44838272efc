-- ===== src/AppResolve/Sound.antt =====
-- What `Resolve` attributes a flow by.
use mathlib.Core.Option.{Option, none, some}
use mathlib.Core.List.{List, [], ◌∷◌, ◌++◌}
use mathlib.Core.Logic.{◌⊎◌, inl, inr, ◌↔◌, ◌≢◌}
use mathlib.Core.Path.{◌≡◌, refl}
use aitori.Base.{
  Bool, true, false, not, ◌&&◌, is_empty, All, Exists, find, IsFirst, find-IsFirst, find-none_iff,
  if◌then◌else◌,
}
use aitori.Base.Text.{Str}
use aitori.Config.{AppProfile}
use aitori.HostMatch.{match, match_any}
use aitori.HostMatch.Shapes.{match_any_covers_iff}
use aitori.AppResolve.{Flow, match_process, match_host, or_else, by_host, by_process, resolve}
use aitori.AppResolve.Process.{ProcessFits, match_process_iff}

-- Inversions of the shapes that `Resolve` is built from.
if-some :
    {A : Type 0} {a : A} (b : Bool) (o : Option A)
    → (if b then o else none) ≡ some a
    → (b ≡ true) × (o ≡ some a)
if-some true o h = (refl, h)
if-some false o h = cc

if-none :
    {A : Type 0} (b : Bool) (o : Option A)
    → (if b then o else none) ≡ none
    → (b ≡ false) ⊎ (o ≡ none)
if-none true o h = inr h
if-none false o h = inl refl

unless-some :
    {A : Type 0} {a : A} (b : Bool) (o : Option A)
    → (if b then none else o) ≡ some a
    → (b ≡ false) × (o ≡ some a)
unless-some true o h = cc
unless-some false o h = (refl, h)

or_else-some :
    {A : Type 0} {a : A} (o p : Option A)
    → or_else o p ≡ some a
    → (o ≡ some a) ⊎ ((o ≡ none) × (p ≡ some a))
unfolding or_else
or_else-some none p h = inr (refl, h)
or_else-some (some b) p h = inl h

or_else-none : {A : Type 0} (o p : Option A) → or_else o p ≡ none → (o ≡ none) × (p ≡ none)
unfolding or_else
or_else-none none p h = (refl, h)
or_else-none (some b) p h = cc

nonempty : (s : Str) → is_empty s ≡ false → s ≢ []
nonempty [] h e = cc
nonempty (c ∷ s) h e = cc

-- A profile that lists the host, among those of browsers or among the others.
abbrev pub Lists : Flow → Bool → AppProfile → Type 0
Lists f browser app =
    (app.match.browser ≡ browser) × Exists (λ pattern. match pattern f.host ≡ true) app.match.hosts

any-listed :
    (want b : Bool) (hosts : List Str) (host : Str)
    → ((if (if want then b else not b) then not (is_empty hosts) && match_any hosts host else false)
        ≡ true)
      ↔ ((b ≡ want) × Exists (λ pattern. match pattern host ≡ true) hosts)
any-listed want b [] host = (λ e. absurd (none_listed want b e), λ (_, m). elim m [ ])
  where
    none_listed :
        (want b : Bool) → (if (if want then b else not b) then false else false) ≡ true → ⊥
    none_listed true true e = cc
    none_listed true false e = cc
    none_listed false true e = cc
    none_listed false false e = cc
any-listed true true (h ∷ hosts) host =
    let iff = match_any_covers_iff (h ∷ hosts) host in (λ e. (refl, iff.0 e), λ (_, m). iff.1 m)
any-listed false false (h ∷ hosts) host =
    let iff = match_any_covers_iff (h ∷ hosts) host in (λ e. (refl, iff.0 e), λ (_, m). iff.1 m)
any-listed true false (h ∷ hosts) host = (λ e. cc, λ (b, _). cc)
any-listed false true (h ∷ hosts) host = (λ e. cc, λ (b, _). cc)

match_host_iff :
    (f : Flow) (browser : Bool) (app : AppProfile)
    → (match_host f.host browser app ≡ true) ↔ Lists f browser app
unfolding match_host
match_host_iff f browser app = any-listed browser app.match.browser app.match.hosts f.host

-- `a` stands in the list, `P` holds of it, and of no profile before it.
pub record IsFirstWhere (P : AppProfile → Type 0) (apps : List AppProfile) (a : AppProfile)
    : Type 0 where
  pub before : List AppProfile
  pub after : List AppProfile
  pub listed : apps ≡ before ++ a ∷ after
  pub holds : P a
  pub earlier : All (λ app. ¬ P app) before

-- A test that finds what a predicate holds of.
module _ (test : AppProfile → Bool) (P : AppProfile → Type 0)
    (iff : (app : AppProfile) → (test app ≡ true) ↔ P app) where
  All-refuted : (l : List AppProfile) → All (λ app. test app ≡ false) l → All (λ app. ¬ P app) l
  All-refuted [] m = tt
  All-refuted (app ∷ l) (m, ms) = (λ x. cc ((iff app).1 x), All-refuted l ms)

  IsFirst-where :
      (apps : List AppProfile) {a : AppProfile} → IsFirst test apps a → IsFirstWhere P apps a
  IsFirst-where apps {a} first = record {
    before = first.before;
    after = first.after;
    listed = first.listed;
    holds = (iff a).0 first.passes;
    earlier = All-refuted first.before first.earliest;
  }

module _ (apps : List AppProfile) (f : Flow) where
  -- No process decides: none is known, or no profile fits it.
  abbrev pub NoProcess : Type 0
  NoProcess = (f.has_process ≡ false) ⊎ All (λ app. ¬ ProcessFits f app.match) apps

  -- No profile of the given kind lists the host.
  abbrev pub NoHost : Bool → Type 0
  NoHost browser = All (λ app. ¬ Lists f browser app) apps

  pub data IsAttributed (a : AppProfile) : Type 0 where
    of_process :
        f.has_process ≡ true → IsFirstWhere (λ app. ProcessFits f app.match) apps a → IsAttributed a
    of_browser : NoProcess → f.host ≢ [] → IsFirstWhere (Lists f true) apps a → IsAttributed a
    of_other :
        NoProcess → f.host ≢ [] → NoHost true → IsFirstWhere (Lists f false) apps a → IsAttributed a

  NoHost-missed : (browser : Bool) → find (match_host f.host browser) apps ≡ none → NoHost browser
  NoHost-missed browser e =
      All-refuted (match_host f.host browser) (Lists f browser) (match_host_iff f browser) apps
        ((find-none_iff (match_host f.host browser) apps).0 e)

  IsFirstWhere-host :
      (browser : Bool) {a : AppProfile}
      → find (match_host f.host browser) apps ≡ some a
      → IsFirstWhere (Lists f browser) apps a
  IsFirstWhere-host browser e =
      IsFirst-where (match_host f.host browser) (Lists f browser) (match_host_iff f browser) apps
        (find-IsFirst (match_host f.host browser) apps e)

  by_process-none : by_process apps f ≡ none → NoProcess
  unfolding by_process
  by_process-none h = elim (if-none f.has_process _ h) [
    | inl off ↦ inl off
    | inr missed ↦ inr (
        All-refuted (λ app. match_process app.match f) (λ app. ProcessFits f app.match)
          (λ app. match_process_iff app.match f) apps
          ((find-none_iff (λ app. match_process app.match f) apps).0 missed))
  ]

  by_process-some : {a : AppProfile} → by_process apps f ≡ some a → IsAttributed a
  unfolding by_process
  by_process-some h =
      let (known, found) = if-some f.has_process _ h in
      of_process known (
        IsFirst-where (λ app. match_process app.match f) (λ app. ProcessFits f app.match)
          (λ app. match_process_iff app.match f) apps
          (find-IsFirst (λ app. match_process app.match f) apps found))

  by_host-some : {a : AppProfile} → NoProcess → by_host apps f.host ≡ some a → IsAttributed a
  unfolding by_host
  by_host-some n h =
      let (full, found) = unless-some (is_empty f.host) _ h in
      elim (or_else-some _ _ found) [
        | inl browser ↦ of_browser n (nonempty f.host full) (IsFirstWhere-host true browser)
        | inr (missed, other) ↦
            of_other n (nonempty f.host full) (NoHost-missed true missed)
              (IsFirstWhere-host false other)
      ]

  -- An attributed app stands in the list and matches the flow: by its process if one is known and
  -- some profile fits it, by bundle id, process name or executable, and then it is the first such
  -- profile; otherwise by a host that is not empty, and then it is the first browser profile with a
  -- pattern that matches the host, or the first other profile with one if no browser profile has one.
  pub resolve-IsAttributed : {a : AppProfile} → resolve apps f ≡ some a → IsAttributed a
  unfolding resolve
  resolve-IsAttributed h = elim (or_else-some _ _ h) [
    | inl process ↦ by_process-some process
    | inr (missed, host) ↦ by_host-some (by_process-none missed) host
  ]

  by_host-none : by_host apps f.host ≡ none → (f.host ≡ []) ⊎ (NoHost true × NoHost false)
  unfolding by_host
  by_host-none h = go f.host h
    where
      go :
          (host : Str)
          → (if is_empty host
              then none
              else or_else
                  (find (match_host f.host true) apps)
                  (find (match_host f.host false) apps))
            ≡ none
          → (host ≡ []) ⊎ (NoHost true × NoHost false)
      go [] e = inl refl
      go (c ∷ s) e =
          let (b, o) = or_else-none _ _ e in inr (NoHost-missed true b, NoHost-missed false o)

  -- A flow stays without an app only if no process decides, and no profile of either kind lists
  -- its host.
  pub resolve-none :
      resolve apps f ≡ none → NoProcess × ((f.host ≡ []) ⊎ (NoHost true × NoHost false))
  unfolding resolve
  resolve-none h =
      let (process, host) = or_else-none _ _ h in (by_process-none process, by_host-none host)
