-- ===== src/AppResolve/Paths.antt =====
-- `filepath.Clean` of Unix: empty and "." elements go, ".." takes the element before it away.
use mathlib.Core.List.{List, [], ◌∷◌, ◌++◌, reverse}
use aitori.Base.{Bool, true, false, ◌||◌, ◌==◌, is_empty, if◌then◌else◌}
use aitori.Base.Text.{Str, codes, str_eq, split_byte}

-- ".." against the elements kept so far, the last one first.
unfoldable pub go_up : Bool → List Str → List Str
go_up rooted [] = if rooted then [] else codes ".." ∷ []
go_up rooted (top ∷ stack) = if str_eq top (codes "..") then codes ".." ∷ top ∷ stack else stack

unfoldable pub clean_from : Bool → List Str → List Str → List Str
clean_from rooted stack [] = reverse stack
clean_from rooted stack (part ∷ parts) =
    clean_from rooted
      (if is_empty part || str_eq part (codes ".")
        then stack
        else if str_eq part (codes "..")
        then go_up rooted stack
        else part ∷ stack)
      parts

unfoldable pub join_slash : List Str → Str
join_slash [] = []
join_slash (part ∷ []) = part
join_slash (part ∷ q ∷ parts) = part ++ b'/' ∷ join_slash (q ∷ parts)

unfoldable pub or_dot : Str → Str
or_dot [] = codes "."
or_dot (c ∷ s) = c ∷ s

unfoldable pub clean : Str → Str
unfolding clean_from go_up join_slash or_dot split_byte str_eq
clean [] = codes "."
clean (c ∷ p) =
    if c == b'/'
    then b'/' ∷ join_slash (clean_from true [] (split_byte b'/' p))
    else or_dot (join_slash (clean_from false [] (split_byte b'/' (c ∷ p))))
