-- ===== src/HostMatch/Tests.antt =====
-- Runs of the host matcher, and its theorems at concrete hosts.
use aitori.Base.{◌≡◌, ◌≢◌, refl, ◌↔◌, true, [], arith}
use aitori.Base.Text.{Str, codes, is_space}
use aitori.HostMatch.{normalize, match}
use aitori.HostMatch.Shapes.{shape, fold_pattern, Covers, match-Covers_iff}
use aitori.HostMatch.Ports.{IsName}

normalize_ipv6 : normalize (codes "[::1]:443") ≡ codes "::1"
unfolding normalize
normalize_ipv6 = refl

normalize_host : normalize (codes " API.Example.com:443 ") ≡ codes "api.example.com"
unfolding normalize
normalize_host = refl

suffix_apex : match (codes ".anthropic.com") (codes "Anthropic.com:443") ≡ true
unfolding match
suffix_apex = refl

abbrev wildcard : Str
wildcard = codes "*.anthropic.com"

abbrev apex : Str
apex = codes "anthropic.com"

match-Covers_iff_example : (match wildcard apex ≡ true) ↔ (
    (fold_pattern wildcard ≢ [])
    × (normalize apex ≢ [])
    × Covers (shape (fold_pattern wildcard)) (normalize apex))
match-Covers_iff_example = match-Covers_iff wildcard apex

apex-IsName : IsName apex
unfolding is_space
apex-IsName = ground arith
