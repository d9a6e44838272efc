-- ===== src/Sinks/Built.antt =====
-- Which sinks a configuration gives.
use mathlib.Core.Path.{◌≡◌, refl}
use mathlib.Core.Logic.{◌⊎◌, inl, inr}
use mathlib.Core.Option.{Option, none, some}
use mathlib.Core.List.{List, [], ◌∷◌}
use aitori.Base.{Bool, true, false, All, Bool-cases, is_empty, if◌then◌else◌}
use aitori.Base.Text.{Str, codes, str_eq, str_eq_iff}
use aitori.Config.{SinkConfig, redact_on}
use aitori.Config.Validate.Checks.{SinkFits}
use aitori.Sinks.{Output, Sink, behind, build_each, file, new_file, opened, stdout, then_sink}

-- The sink of an entry.
abbrev pub IsSinkOf : SinkConfig → Sink → Type 0
IsSinkOf c (stdout redact) = (c.kind ≡ codes "stdout") × (redact ≡ redact_on c)
IsSinkOf c (file path redact) = (c.kind ≡ codes "file") × ((path ≡ c.path) × (redact ≡ redact_on c))

-- One sink for each entry, in order, or an error.
abbrev pub AreSinksOf : List SinkConfig → List Sink → Type 0
AreSinksOf [] [] = Unit
AreSinksOf [] (s ∷ sinks) = ⊥
AreSinksOf (c ∷ cfgs) [] = ⊥
AreSinksOf (c ∷ cfgs) (s ∷ sinks) = IsSinkOf c s × AreSinksOf cfgs sinks

abbrev pub Builds : List SinkConfig → Str ⊎ List Sink → Type 0
Builds cfgs (inl e) = Unit
Builds cfgs (inr sinks) = AreSinksOf cfgs sinks

module _ {W : Type 0} (out : Output W) where
  abbrev Opens : SinkConfig → Str ⊎ Sink → Type 0
  Opens c (inl e) = Unit
  Opens c (inr s) = IsSinkOf c s

  opened-Opens :
      (c : SinkConfig) (p : W × Option Str)
      → c.kind ≡ codes "file"
      → Opens c (opened out c.path (redact_on c) p).1
  unfolding opened
  opened-Opens c (w, none) e = (e, (refl, refl))
  opened-Opens c (w, some x) e = tt

  new_file-Opens :
      (c : SinkConfig) (w : W)
      → c.kind ≡ codes "file"
      → Opens c (new_file out c.path (redact_on c) w).1
  unfolding new_file
  new_file-Opens c w e = either (is_empty c.path)
    where
      either :
          (b : Bool)
          → Opens c
              (if b
                then (w, inl (codes "file sink requires a path"))
                else opened out c.path (redact_on c) (out.open_file c.path w)).1
      either true = tt
      either false = opened-Opens c (out.open_file c.path w) e

  behind-Builds :
      (c : SinkConfig) (cfgs : List SinkConfig) (s : Sink) (p : W × (Str ⊎ List Sink))
      → IsSinkOf c s
      → Builds cfgs p.1
      → Builds (c ∷ cfgs) (behind out s p).1
  unfolding behind
  behind-Builds c cfgs s (w, inl e) h k = tt
  behind-Builds c cfgs s (w, inr sinks) h k = (h, k)

  then_sink-Builds :
      (c : SinkConfig) (cfgs : List SinkConfig) (p : W × (Str ⊎ Sink))
      (others : W → W × (Str ⊎ List Sink))
      → Opens c p.1
      → ((w : W) → Builds cfgs (others w).1)
      → Builds (c ∷ cfgs) (then_sink out p others).1
  unfolding then_sink
  then_sink-Builds c cfgs (w, inl e) others h k = tt
  then_sink-Builds c cfgs (w, inr s) others h k = behind-Builds c cfgs s (others w) h (k w)

  -- Of entries that pass `Validate` none is passed over: the sinks are one for each, in their order,
  -- of its kind, with its path and its redaction, unless a file cannot be opened.
  pub build_each-Builds :
      (cfgs : List SinkConfig) (w : W) → All SinkFits cfgs → Builds cfgs (build_each out cfgs w).1
  unfolding build_each
  build_each-Builds [] w fits = tt
  build_each-Builds (c ∷ cfgs) w (fit, fits) = elim (Bool-cases (str_eq c.kind (codes "stdout"))) [
    | inl e ↦ rw e (
        then_sink-Builds c cfgs (w, inr (stdout (redact_on c))) (build_each out cfgs)
          ((str_eq_iff _ _).0 e, refl) (λ v. build_each-Builds cfgs v fits))
    | inr n ↦ rw n (elim (Bool-cases (str_eq c.kind (codes "file"))) [
      | inl e ↦ rw e (
          then_sink-Builds c cfgs (new_file out c.path (redact_on c) w) (build_each out cfgs)
            (new_file-Opens c w ((str_eq_iff _ _).0 e)) (λ v. build_each-Builds cfgs v fits))
      | inr m ↦ absurd (elim fit.0 [
        | inl k ↦ cc ((str_eq_iff c.kind (codes "stdout")).1 k, n)
        | inr k ↦ cc ((str_eq_iff c.kind (codes "file")).1 k, m)
      ])
    ])
  ]
