-- ===== src/PathMatch/Tokens.antt =====
-- What a glob means, with no search in it: a pattern is a list of tokens, and a list of tokens is
-- a language of paths.
use aitori.Base.{ℕ, ◌==◌, if◌then◌else◌, ◌≡◌, ◌≢◌, List, [], ◌∷◌, ◌++◌, All}
use aitori.Base.Text.{Str}
use aitori.PathMatch.{star, slash}

pub data Token : Type 0 where
  literal : ℕ → Token
  segment : Token  -- "*"
  anything : Token  -- "**"

unfoldable pub tokens : Str → List Token
tokens [] = []
tokens (p ∷ []) = if p == star then segment ∷ [] else literal p ∷ []
tokens (p ∷ q ∷ pat) =
    let deep = anything ∷ tokens pat in
    let rest = tokens (q ∷ pat) in
    if p == star then if q == star then deep else segment ∷ rest else literal p ∷ rest

abbrev pub NoSlash : Str → Type 0
NoSlash s = All (λ c. c ≢ slash) s

-- The paths that a list of tokens describes.
abbrev pub Accepts : List Token → Str → Type 0
Accepts [] s = s ≡ []
Accepts (literal c ∷ ts) s = (t : Str) × (s ≡ c ∷ t) × Accepts ts t
Accepts (segment ∷ ts) s = (u : Str) × (v : Str) × (s ≡ u ++ v) × NoSlash u × Accepts ts v
Accepts (anything ∷ ts) s = (u : Str) × (v : Str) × (s ≡ u ++ v) × Accepts ts v
