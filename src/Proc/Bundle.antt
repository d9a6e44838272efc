-- ===== src/Proc/Bundle.antt =====
-- The search of `appBundleDir` (internal/adapter/proc/bundle_darwin.go) ends, and what it finds.
use Prim.Native.Nat.{ℕ, zero, suc, ◌<◌}
use mathlib.Core.Path.{◌≡◌, refl, ap, ◌∙◌}
use mathlib.Core.Logic.{inl, inr}
use mathlib.Core.Option.{some}
use mathlib.Core.List.{[]}
use aitori.Base.{true, false, length, arith, Bool-cases}
use aitori.Base.Text.{Str, codes, has_suffix, str_eq}
use aitori.Proc.Dir.{dir, dir-goes_up}
use aitori.Proc.{app_bundle_dir, is_top}

-- `IsNearest p d`: `d` is the first of `p`, its directory, the directory of that, and so on that ends
-- in ".app"; it is empty when "/" or "." comes first.
pub data IsNearest : Str → Str → Type 0 where
  here : {p : Str} → is_top p ≡ false → has_suffix p (codes ".app") ≡ true → IsNearest p p
  above :
      {p d : Str}
      → is_top p ≡ false
      → has_suffix p (codes ".app") ≡ false
      → IsNearest (dir p) d
      → IsNearest p d
  nowhere : {p : Str} → is_top p ≡ true → IsNearest p []

-- What the search promises of a path.
abbrev pub Finds : ℕ → Str → Type 0
Finds fuel p = (d : Str) × ((app_bundle_dir fuel p ≡ some d) × IsNearest p d)

Finds-top : (fuel : ℕ) (p : Str) → is_top p ≡ true → Finds (suc fuel) p
unfolding app_bundle_dir
Finds-top fuel p t = ([], (rw t refl, nowhere t))

Finds-above : (fuel : ℕ) (p : Str) → is_top p ≡ false → Finds fuel (dir p) → Finds (suc fuel) p
unfolding app_bundle_dir
Finds-above fuel p t (d, (e, n)) = elim (Bool-cases (has_suffix p (codes ".app"))) [
  | inl hit ↦ (p, (rw t (rw hit refl), here t hit))
  | inr miss ↦ (d, (rw t (rw miss e), above t miss n))
]

Finds-dot : (fuel : ℕ) (p q : Str) → p ≡ q → is_top q ≡ true → Finds (suc fuel) p
Finds-dot fuel p q e t = Finds-top fuel p (ap is_top e ∙ t)

-- For every path, rounds enough for its length and two more end the search, and it gives the nearest
-- directory that ends in ".app", the path itself included, or nothing.
pub app_bundle_dir-IsNearest :
    (fuel : ℕ) (exe : Str)
    → length exe < fuel
    → (d : Str) × ((app_bundle_dir (suc fuel) exe ≡ some d) × IsNearest exe d)
app_bundle_dir-IsNearest zero exe h = absurd (omega arith)
app_bundle_dir-IsNearest (suc fuel) exe h = elim (Bool-cases (is_top exe)) [
  | inl t ↦ Finds-top (suc fuel) exe t
  | inr t ↦ Finds-above (suc fuel) exe t (elim (dir-goes_up exe) [
    | inl dot ↦ Finds-dot fuel (dir exe) (codes ".") dot (unfold is_top str_eq in refl)
    | inr other ↦ elim other [
      | inl root ↦ Finds-dot fuel (dir exe) (codes "/") root (unfold is_top str_eq in refl)
      | inr shorter ↦ app_bundle_dir-IsNearest fuel (dir exe) (omega arith)
    ]
  ])
]
