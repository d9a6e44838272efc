-- ===== src/Base/Reflect.antt =====
-- Boolean tests and what they decide: how `||`, `&&` and `not` carry over.
use mathlib.Core.Path.{◌≡◌, refl}
use mathlib.Core.Logic.{◌↔◌, ◌⊎◌, inl, inr}
use mathlib.Core.Bool.{Bool, true, false, not, ◌&&◌, ◌||◌}
use mathlib.Core.List.{List, [], ◌∷◌}
use aitori.Base.Lists.{is_empty}

pub is_empty_iff {ℓ} : {A : Type ℓ} (xs : List A) → (is_empty xs ≡ true) ↔ (xs ≡ [])
is_empty_iff [] = (λ h. refl, λ h. refl)
is_empty_iff (x ∷ xs) = (λ h. cc, λ h. cc)

module _ {P Q : Type 0} where
  pub or_iff : (a b : Bool) → (a ≡ true) ↔ P → (b ≡ true) ↔ Q → ((a || b) ≡ true) ↔ (P ⊎ Q)
  or_iff true b p q = (λ h. inl (p.0 refl), λ h. refl)
  or_iff false b p q = (λ h. inr (q.0 h), λ h. elim h [ inl x ↦ cc (p.1 x) | inr y ↦ q.1 y ])

  pub and_iff : (a b : Bool) → (a ≡ true) ↔ P → (b ≡ true) ↔ Q → ((a && b) ≡ true) ↔ (P × Q)
  and_iff true b p q = (λ h. (p.0 refl, q.0 h), λ (x, y). q.1 y)
  and_iff false b p q = (λ h. cc, λ (x, y). cc (p.1 x))

pub not_iff : {P : Type 0} (b : Bool) → (b ≡ true) ↔ P → (not b ≡ true) ↔ (¬ P)
not_iff true p = (λ h. cc, λ n. absurd (n (p.0 refl)))
not_iff false p = (λ h x. cc (p.1 x), λ n. refl)
