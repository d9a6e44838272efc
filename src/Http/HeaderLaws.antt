-- ===== src/Http/HeaderLaws.antt =====
-- How the operations on a header change what a later lookup gives.
use aitori.Base.{◌≡◌, Bool, true, false, [], ◌∷◌, if◌then◌else◌, arith}
use aitori.Base.Dict.{lookup-put, lookup-remove}
use aitori.Base.Text.{Str, str_eq, str_eq_refl}
use aitori.Http.{Header, canonical, values, get, set, del}

-- Two names for one header.
unfoldable pub same_key : Str → Str → Bool
same_key a b = str_eq (canonical a) (canonical b)

pub same_key_refl : (k : Str) → same_key k k ≡ true
unfolding same_key
same_key_refl k = str_eq_refl (canonical k)

pub values-set :
    (h : Header) (k j v : Str)
    → values (set h k v) j ≡ (if same_key k j then v ∷ [] else values h j)
unfolding values set same_key
values-set h k j v = ground (arith, lookup-put (canonical k) (canonical j) (v ∷ []) h)

pub values-del :
    (h : Header) (k j : Str) → values (del h k) j ≡ (if same_key k j then [] else values h j)
unfolding values del same_key
values-del h k j = ground (arith, lookup-remove (canonical k) (canonical j) h)

pub get-set_self : (h : Header) (k v : Str) → get (set h k v) k ≡ v
unfolding get
get-set_self h k v = ground (arith, values-set h k k v, same_key_refl k)

pub get-set_other : (h : Header) (k j v : Str) → same_key k j ≡ false → get (set h k v) j ≡ get h j
unfolding get
get-set_other h k j v n = ground (arith, values-set h k j v)
