-- ===== src/Base/Lists.antt =====
-- Lists measured by native numbers, under the library's names, and predicates by recursion.
use Prim.Native.Nat.{ℕ, zero, suc, ◌+◌}
use mathlib.Core.Path.{◌≡◌, refl, sym, ap, ◌∙◌}
use mathlib.Core.Option.{Option, none, some}
use mathlib.Core.Logic.{◌↔◌, inl, inr}
use mathlib.Core.Bool.{Bool, true, false}
use mathlib.Core.List.{List, [], ◌∷◌, ◌++◌}
use native.Mathlib.Omega.{arith}
use aitori.Base.Tests.{if◌then◌else◌, Bool-cases}

module _ {ℓ} {A : Type ℓ} where
  abbrev pub length : List A → ℕ
  length [] = 0
  length (x ∷ xs) = suc (length xs)

  abbrev pub is_empty : List A → Bool
  is_empty [] = true
  is_empty (x ∷ xs) = false

  abbrev pub drop : ℕ → List A → List A
  drop zero xs = xs
  drop (suc n) [] = []
  drop (suc n) (x ∷ xs) = drop n xs

  abbrev pub take : ℕ → List A → List A
  take zero xs = []
  take (suc n) [] = []
  take (suc n) (x ∷ xs) = x ∷ take n xs

  pub length-append : (xs ys : List A) → length (xs ++ ys) ≡ length xs + length ys
  length-append [] ys = omega arith
  length-append (x ∷ xs) ys = omega (arith, length-append xs ys)

  pub take-append-drop : (n : ℕ) (s : List A) → take n s ++ drop n s ≡ s
  take-append-drop zero s = refl
  take-append-drop (suc n) [] = refl
  take-append-drop (suc n) (c ∷ s) = ap (λ t. c ∷ t) (take-append-drop n s)

  -- `for _, x := range xs { if p(x) { return true } }; return false`
  unfoldable pub any : (A → Bool) → List A → Bool
  any p [] = false
  any p (x ∷ xs) = if p x then true else any p xs

module _ {ℓ κ} {A : Type ℓ} (P : A → Type κ) where
  abbrev pub All : List A → Type κ
  All [] = Unit
  All (x ∷ xs) = P x × All xs

  -- Some element has the property; the witness is kept.
  pub data Exists : List A → Type (ℓ ⊔ κ) where
    here : {x : A} {xs : List A} → P x → Exists (x ∷ xs)
    there : {x : A} {xs : List A} → Exists xs → Exists (x ∷ xs)

module _ {ℓ κ} {A : Type ℓ} (P : A → Type κ) where
  pub All-append : (xs ys : List A) → All P xs → All P ys → All P (xs ++ ys)
  All-append [] ys h k = k
  All-append (x ∷ xs) ys (p, h) k = (p, All-append xs ys h k)

-- A loop that returns true on the first hit decides existence.
module _ {ℓ κ} {A : Type ℓ} {P : A → Type κ} {p : A → Bool}
    (iff : (x : A) → (p x ≡ true) ↔ P x) where
  any_sound : (xs : List A) → any p xs ≡ true → Exists P xs
  unfolding any
  any_sound [] h = cc
  any_sound (x ∷ xs) h = elim (Bool-cases (p x)) [
    | inl hit ↦ here ((iff x).0 hit)
    | inr miss ↦ there (any_sound xs (rw miss at h))
  ]

  any_complete : {xs : List A} → Exists P xs → any p xs ≡ true
  unfolding any
  any_complete (here {x} h) = rw ((iff x).1 h)
  any_complete (there {x} e) = elim (Bool-cases (p x)) [
    | inl hit ↦ rw hit
    | inr miss ↦ rw miss (any_complete e)
  ]

  pub any_iff : (xs : List A) → (any p xs ≡ true) ↔ Exists P xs
  any_iff xs = (any_sound xs, any_complete)

-- The first element that passes a test.
module _ {ℓ} {A : Type ℓ} where
  unfoldable pub find : (A → Bool) → List A → Option A
  find p [] = none
  find p (x ∷ xs) = if p x then some x else find p xs

  -- `a` stands in the list, passes, and no element before it does.
  pub record IsFirst (p : A → Bool) (xs : List A) (a : A) : Type ℓ where
    pub before : List A
    pub after : List A
    pub listed : xs ≡ before ++ a ∷ after
    pub passes : p a ≡ true
    pub earliest : All (λ x. p x ≡ false) before

  pub find-IsFirst : (p : A → Bool) (xs : List A) {a : A} → find p xs ≡ some a → IsFirst p xs a
  unfolding find
  find-IsFirst p [] h = cc
  find-IsFirst p (x ∷ xs) {a} h = elim (Bool-cases (p x)) [
    | inl hit ↦
        let same : x ≡ a = ground arith in
        record {
          before = [];
          after = xs;
          listed = ap (λ y. y ∷ xs) same;
          passes = ap p (sym same) ∙ hit;
          earliest = tt;
        }
    | inr miss ↦
        let f = find-IsFirst p xs (rw miss at h) in
        record {
          before = x ∷ f.before;
          after = f.after;
          listed = ap (λ r. x ∷ r) f.listed;
          passes = f.passes;
          earliest = (miss, f.earliest);
        }
  ]

  find-none : (p : A → Bool) (xs : List A) → find p xs ≡ none → All (λ x. p x ≡ false) xs
  unfolding find
  find-none p [] h = tt
  find-none p (x ∷ xs) h = elim (Bool-cases (p x)) [
    | inl hit ↦ absurd (cc (rw hit at h))
    | inr miss ↦ (miss, find-none p xs (rw miss at h))
  ]

  none-find : (p : A → Bool) (xs : List A) → All (λ x. p x ≡ false) xs → find p xs ≡ none
  unfolding find
  none-find p [] h = refl
  none-find p (x ∷ xs) (miss, h) = rw miss (none-find p xs h)

  pub find-none_iff : (p : A → Bool) (xs : List A) → (find p xs ≡ none) ↔ All (λ x. p x ≡ false) xs
  find-none_iff p xs = (find-none p xs, none-find p xs)

module _ {ℓ κ κ'} {A : Type ℓ} {P : A → Type κ} {Q : A → Type κ'} (f : (x : A) → P x → Q x) where
  pub All-map : (xs : List A) → All P xs → All Q xs
  All-map [] h = tt
  All-map (x ∷ xs) (p, h) = (f x p, All-map xs h)
