-- ===== src/PathMatch.antt =====
-- internal/pathmatch/pathmatch.go: globs over URL paths. `Tokens` reads a pattern as a language,
-- `Correct` compares the matcher with it, `Segments` counts separators.
pub mod Tokens
pub mod Correct
pub mod Segments
mod Tests
use aitori.Base.{ℕ, Bool, true, false, List, [], ◌∷◌, is_empty, any, ◌==◌, if◌then◌else◌}
use aitori.Base.Text.{Str, str_eq, has_byte}

abbrev pub star : ℕ
star = b'*'

abbrev pub slash : ℕ
slash = b'/'

-- The loop of "**": try the rest of the pattern at every tail of `s`, the empty one included.
try_any : (Str → Bool) → Str → Bool
try_any rest [] = rest []
try_any rest (c ∷ s) = if rest (c ∷ s) then true else try_any rest s

-- The loop of "*": the same, but no byte behind the first "/" is given up.
try_segment : (Str → Bool) → Str → Bool
try_segment rest [] = rest []
try_segment rest (c ∷ s) =
    if rest (c ∷ s) then true else if c == slash then false else try_segment rest s

-- One literal byte, and the rest of the pattern behind it.
try_byte : ℕ → (Str → Bool) → Str → Bool
try_byte p rest [] = false
try_byte p rest (c ∷ s) = if p == c then rest s else false

pub glob : Str → Str → Bool
glob [] s = is_empty s
glob (p ∷ []) s = if p == star then try_segment (glob []) s else try_byte p (glob []) s
glob (p ∷ q ∷ pat) s =
    if p == star
    then if q == star then try_any (glob pat) s else try_segment (glob (q ∷ pat)) s
    else try_byte p (glob (q ∷ pat)) s

-- `Match`: a pattern with no star is compared as it stands.
unfoldable pub match : Str → Str → Bool
unfolding glob try_any try_segment try_byte str_eq has_byte
match pattern path = if has_byte star pattern then glob pattern path else str_eq pattern path

-- `MatchAny`.
unfoldable pub match_any : List Str → Str → Bool
unfolding match any
match_any patterns path = any (λ p. match p path) patterns
