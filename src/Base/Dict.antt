-- ===== src/Base/Dict.antt =====
-- Go maps with string keys, as association lists: the first entry of a key counts.
use mathlib.Core.Logic.{◌≢◌}
use mathlib.Core.Path.{◌≡◌, refl}
use mathlib.Core.Logic.{◌≢◌}
use mathlib.Core.Option.{Option, none, some}
use mathlib.Core.List.{List, [], ◌∷◌}
use native.Mathlib.Omega.{arith}
use aitori.Base.Tests.{if◌then◌else◌}
use aitori.Base.Text.{Str, str_eq, str_eq_iff, str_eq_refl}

module _ {ℓ} {V : Type ℓ} where
  -- `m[key]`
  unfoldable pub lookup : Str → List (Str × V) → Option V
  lookup key [] = none
  lookup key ((k, v) ∷ m) = if str_eq k key then some v else lookup key m

  -- `m[key] = v`
  unfoldable pub put : Str → V → List (Str × V) → List (Str × V)
  put key v [] = (key, v) ∷ []
  put key v ((k, w) ∷ m) = if str_eq k key then (key, v) ∷ m else (k, w) ∷ put key v m

  -- `delete(m, key)`
  unfoldable pub remove : Str → List (Str × V) → List (Str × V)
  remove key [] = []
  remove key ((k, w) ∷ m) = let rest = remove key m in if str_eq k key then rest else (k, w) ∷ rest

  pub lookup-put :
      (key j : Str) (v : V) (m : List (Str × V))
      → lookup j (put key v m) ≡ (if str_eq key j then some v else lookup j m)
  unfolding lookup put
  lookup-put key j v [] = refl
  lookup-put key j v ((k, w) ∷ m) =
      ground (arith, str_eq_iff key j, str_eq_iff k key, str_eq_iff k j, lookup-put key j v m)

  pub lookup-remove :
      (key j : Str) (m : List (Str × V))
      → lookup j (remove key m) ≡ (if str_eq key j then none else lookup j m)
  unfolding lookup remove
  lookup-remove key j [] = ground arith
  lookup-remove key j ((k, w) ∷ m) =
      ground (arith, str_eq_iff key j, str_eq_iff k key, str_eq_iff k j, lookup-remove key j m)

  pub lookup-put_self : (k : Str) (v : V) (m : List (Str × V)) → lookup k (put k v m) ≡ some v
  lookup-put_self k v m = ground (arith, lookup-put k k v m, str_eq_refl k)

  pub lookup-put_other :
      (k j : Str) (v : V) (m : List (Str × V)) → k ≢ j → lookup j (put k v m) ≡ lookup j m
  lookup-put_other k j v m n = ground (arith, lookup-put k j v m, str_eq_iff k j)

  pub lookup-remove_self : (k : Str) (m : List (Str × V)) → lookup k (remove k m) ≡ none
  lookup-remove_self k m = ground (arith, lookup-remove k k m, str_eq_refl k)

  pub lookup-remove_other :
      (k j : Str) (m : List (Str × V)) → k ≢ j → lookup j (remove k m) ≡ lookup j m
  lookup-remove_other k j m n = ground (arith, lookup-remove k j m, str_eq_iff k j)
