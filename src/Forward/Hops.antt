-- ===== src/Forward/Hops.antt =====
-- `removeHopByHop`: headers of one connection do not go on to the next.
use mathlib.Core.List.{List, [], ◌∷◌, ◌++◌}
use mathlib.Core.Path.{◌≡◌, refl}
use aitori.Base.{Bool, is_empty, if◌then◌else◌, arith, any}
use aitori.Base.Text.{Str, codes, trim_space, split_byte}
use aitori.Http.{Header, values, del}
use aitori.Http.HeaderLaws.{same_key, values-del}

-- `hopByHop`.
abbrev pub hop_by_hop : List Str
hop_by_hop =
    codes "Connection"
    ∷ codes "Proxy-Connection"
    ∷ codes "Keep-Alive"
    ∷ codes "Proxy-Authenticate"
    ∷ codes "Proxy-Authorization"
    ∷ codes "Te"
    ∷ codes "Trailer"
    ∷ codes "Transfer-Encoding"
    ∷ codes "Upgrade"
    ∷ []

-- The trimmed names of one comma-separated list, without the empty ones.
names_in : List Str → List Str
unfolding trim_space
names_in [] = []
names_in (part ∷ parts) =
    let rest = names_in parts in
    let name = trim_space part in if is_empty name then rest else name ∷ rest

-- The names that the values of Connection list.
unfoldable pub connection_names : List Str → List Str
unfolding names_in split_byte
connection_names [] = []
connection_names (f ∷ fs) = names_in (split_byte b',' f) ++ connection_names fs

del_all : List Str → Header → Header
del_all [] h = h
del_all (k ∷ ks) h = del_all ks (del h k)

-- `removeHopByHop`.
unfoldable pub remove_hop_by_hop : Header → Header
unfolding del_all connection_names
remove_hop_by_hop h =
    del_all hop_by_hop (del_all (connection_names (values h (codes "Connection"))) h)

-- One of the names is a name of the header `k`.
abbrev pub is_named : Str → List Str → Bool
is_named k names = any (λ name. same_key name k) names

values-del_all :
    (names : List Str) (h : Header) (k : Str)
    → values (del_all names h) k ≡ (if is_named k names then [] else values h k)
unfolding del_all any
values-del_all [] h k = refl
values-del_all (name ∷ names) h k =
    ground (arith, values-del_all names (del h name) k, values-del h name k)

values-del_twice :
    (xs ys : List Str) (h : Header) (k : Str)
    → values (del_all xs (del_all ys h)) k
      ≡ (if is_named k xs then [] else if is_named k ys then [] else values h k)
values-del_twice xs ys h k =
    ground (arith, values-del_all xs (del_all ys h) k, values-del_all ys h k)

-- Exactly the connection headers go: a header of the fixed list, or one that Connection names, has
-- no value left, and every other header keeps all of its values.
pub values-remove_hop_by_hop :
    (h : Header) (k : Str)
    → values (remove_hop_by_hop h) k ≡ (
        if is_named k hop_by_hop
        then []
        else if is_named k (connection_names (values h (codes "Connection")))
        then []
        else values h k)
unfolding remove_hop_by_hop
values-remove_hop_by_hop h k =
    values-del_twice hop_by_hop (connection_names (values h (codes "Connection"))) h k
