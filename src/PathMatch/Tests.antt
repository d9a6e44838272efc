-- ===== src/PathMatch/Tests.antt =====
-- Runs of the matcher, and its theorems at concrete paths.
use aitori.Base.{◌≡◌, refl, ◌↔◌, true, false, [], ◌∷◌}
use aitori.Base.Text.{Str, codes}
use aitori.PathMatch.{match, match_any}
use aitori.PathMatch.Tokens.{tokens, Accepts}
use aitori.PathMatch.Correct.{match_iff}

deep_then_segment : match (codes "/a/**/*.go") (codes "/a/b/c/x.go") ≡ true
unfolding match
deep_then_segment = refl

segment_stops : match (codes "/a/*/d") (codes "/a/b/c/d") ≡ false
unfolding match
segment_stops = refl

subtree : match_any (codes "/x" ∷ codes "/api/**" ∷ []) (codes "/api/v1/m") ≡ true
unfolding match_any
subtree = refl

abbrev chat : Str
chat = codes "/api/*/chat"

match_iff_example :
    (match chat (codes "/api/7/chat") ≡ true) ↔ Accepts (tokens chat) (codes "/api/7/chat")
match_iff_example = match_iff chat (codes "/api/7/chat")
