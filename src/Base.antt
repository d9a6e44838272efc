-- ===== src/Base.antt =====
-- Shared helpers: library names passed on, Boolean tests, lists over the native numbers, and the
-- byte strings of Go with the functions of its package strings that the program calls.
mod Tests
mod Lists
mod Reflect
pub mod Int
pub mod Utf8
pub mod Dict
pub mod Text
pub use Tests.*
unfoldable pub use Lists.*
pub use Reflect.*
pub use Prim.Native.Nat.{ℕ, zero, suc, ◌+◌, ◌-◌, ◌*◌, ◌/◌, ◌%◌, ◌≤◌, ◌<◌}
pub use mathlib.Core.Path.{◌≡◌, refl, sym, ap, ◌∙◌}
pub use mathlib.Core.Logic.{◌≢◌, ◌↔◌, ◌⊎◌, inl, inr}
pub use mathlib.Core.Bool.{Bool, true, false, not, ◌&&◌, ◌||◌}
pub use mathlib.Core.Option.{Option, none, some}
pub use mathlib.Core.List.{List, [], ◌∷◌, ◌++◌, map}
pub use native.Mathlib.Omega.{arith}

-- The rest of a block runs on a result only.
infixl 5 ◌>>=◌
abbrev pub ◌>>=◌ {ℓ κ} : {A : Type ℓ} {B : Type κ} → Option A → (A → Option B) → Option B
none >>= f = none
some a >>= f = f a

pub bind-some {ℓ κ} :
    {A : Type ℓ} {B : Type κ} (o : Option A) (f : A → Option B) (b : B)
    → ((o >>= f) ≡ some b)
    → (a : A) × ((o ≡ some a) × (f a ≡ some b))
bind-some none f b h = cc
bind-some (some a) f b h = (a, (refl, h))

pub some-injective {ℓ} : {A : Type ℓ} (a b : A) → (some a ≡ some b) → a ≡ b
some-injective a b e = cc e
