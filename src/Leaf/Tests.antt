-- ===== src/Leaf/Tests.antt =====
-- A cache with a stale certificate.
use mathlib.Core.Path.{◌≡◌, refl}
use mathlib.Core.Option.{Option, none, some}
use mathlib.Core.List.{List, [], ◌∷◌}
use aitori.Base.{ℕ, suc, Bool, ltb}
use aitori.Base.Dict.{lookup}
use aitori.Base.Text.{Str, codes, str_eq}
use aitori.Leaf.{cached, host_of, leaf_for_name, leaf_host, minted}

-- A certificate is the time at which it ends.
abbrev leaf_valid : ℕ → ℕ → Str → Bool
leaf_valid now cert host = ltb now cert

abbrev mint_leaf : ℕ → Str → Option ℕ
mint_leaf now host = some (suc now)

abbrev split_host_port : Str → Option (Str × Str)
split_host_port s = none

abbrev stale : List (Str × ℕ)
stale = (codes "a.com", 3) ∷ []

-- Only a certificate that ends later is kept.
kept : (leaf_for_name split_host_port leaf_valid mint_leaf 2 (codes "a.com") stale).0 ≡ some 3
unfolding leaf_for_name leaf_host host_of cached minted lookup str_eq
kept = refl

minted_again :
    (leaf_for_name split_host_port leaf_valid mint_leaf 7 (codes "a.com") stale).0 ≡ some 8
unfolding leaf_for_name leaf_host host_of cached minted lookup str_eq
minted_again = refl
