-- ===== src/AppResolve/Process.antt =====
-- What it takes for a process to match a profile.
use mathlib.Core.List.{[], ◌∷◌, ◌++◌}
use mathlib.Core.Logic.{◌⊎◌, inl, inr, ◌↔◌, ◌≢◌}
use mathlib.Core.Path.{◌≡◌, refl, sym}
use aitori.Base.{ℕ, Bool, true, false, ◌||◌, is_empty, Exists, any, any_iff, if◌then◌else◌}
use aitori.Base.Text.{Str, str_eq, str_eq_iff, has_prefix, has_prefix_iff, to_lower, equal_fold}
use aitori.Config.{AppMatch}
use aitori.AppResolve.{Flow, path_match, bundle_match, match_process}
use aitori.AppResolve.Paths.{clean}

-- `below` is `base`, or `base` followed by the separator and more.
abbrev pub IsWithin : ℕ → Str → Str → Type 0
IsWithin separator base below =
    (below ≡ base) ⊎ ((rest : Str) × (below ≡ (base ++ separator ∷ []) ++ rest))

-- The three ways in which a process matches a profile.
abbrev pub BundleFits : AppMatch → Flow → Type 0
BundleFits m f =
    (m.bundle_id ≢ [])
    × (f.bundle_id ≢ [])
    × IsWithin b'.' (to_lower m.bundle_id) (to_lower f.bundle_id)

abbrev pub PathFits : Flow → Str → Type 0
PathFits f path = (path ≢ []) × (f.exe_path ≢ []) × IsWithin b'/' (clean path) (clean f.exe_path)

abbrev pub ProcessFits : Flow → AppMatch → Type 0
ProcessFits f m =
    BundleFits m f
    ⊎ (Exists (λ name. equal_fold name f.process_name ≡ true) m.process_names
        ⊎ Exists (PathFits f) m.exe_paths)

IsWithin-iff :
    (separator : ℕ) (want got base below : Str)
    → (same : Bool) → (same ≡ true) ↔ (below ≡ base)
    → ((if is_empty want || is_empty got
          then false
          else same || has_prefix below (base ++ separator ∷ []))
        ≡ true)
      ↔ ((want ≢ []) × (got ≢ []) × IsWithin separator base below)
IsWithin-iff separator [] got base below same e = (λ h. cc, λ (n, _, _). absurd (n refl))
IsWithin-iff separator (c ∷ want) [] base below same e = (λ h. cc, λ (_, n, _). absurd (n refl))
IsWithin-iff separator (c ∷ want) (d ∷ got) base below true e =
    (λ h. (λ q. cc, λ q. cc, inl (e.0 refl)), λ _. refl)
IsWithin-iff separator (c ∷ want) (d ∷ got) base below false e =
    let iff = has_prefix_iff below (base ++ separator ∷ []) in
    (
      λ h. (λ q. cc, λ q. cc, inr (iff.0 h)),
      λ (_, _, k). elim k [ inl s ↦ absurd (cc (e.1 s)) | inr r ↦ iff.1 r ],
    )

path_match_iff : (f : Flow) (path : Str) → (path_match path f.exe_path ≡ true) ↔ PathFits f path
unfolding path_match
path_match_iff f path =
    let e = str_eq_iff (clean path) (clean f.exe_path) in
    IsWithin-iff b'/' path f.exe_path (clean path) (clean f.exe_path)
      (str_eq (clean path) (clean f.exe_path)) (λ h. sym (e.0 h), λ h. e.1 (sym h))

bundle_match_iff :
    (m : AppMatch) (f : Flow) → (bundle_match m.bundle_id f.bundle_id ≡ true) ↔ BundleFits m f
unfolding bundle_match
bundle_match_iff m f =
    IsWithin-iff b'.' m.bundle_id f.bundle_id (to_lower m.bundle_id) (to_lower f.bundle_id)
      (str_eq (to_lower f.bundle_id) (to_lower m.bundle_id))
      (str_eq_iff (to_lower f.bundle_id) (to_lower m.bundle_id))

pub match_process_iff : (m : AppMatch) (f : Flow) → (match_process m f ≡ true) ↔ ProcessFits f m
unfolding match_process
match_process_iff m f =
    chain (bundle_match m.bundle_id f.bundle_id)
      (any (λ name. equal_fold name f.process_name) m.process_names)
      (any (λ p. path_match p f.exe_path) m.exe_paths) (bundle_match_iff m f)
      (any_iff (λ name. (λ h. h, λ h. h)) m.process_names) (any_iff (path_match_iff f) m.exe_paths)
  where
    chain :
        {P Q R : Type 0} (a b c : Bool)
        → (a ≡ true) ↔ P
        → (b ≡ true) ↔ Q
        → (c ≡ true) ↔ R
        → ((if a then true else if b then true else c) ≡ true) ↔ (P ⊎ (Q ⊎ R))
    chain true b c p q r = (λ _. inl (p.0 refl), λ _. refl)
    chain false true c p q r = (λ _. inr (inl (q.0 refl)), λ _. refl)
    chain false false c p q r = (
      λ h. inr (inr (r.0 h)),
      λ s. elim s [
        | inl x ↦ absurd (cc (p.1 x))
        | inr (inl y) ↦ absurd (cc (q.1 y))
        | inr (inr z) ↦ r.1 z
      ],
    )
