-- ===== src/HostMatch.antt =====
-- internal/hostmatch/hostmatch.go: host patterns. `Shapes` states what a pattern covers and
-- compares `match` with it, `Ports` is about letter case and port numbers.
pub mod Shapes
pub mod Ports
mod Tests
use aitori.Base.{Bool, false, List, [], ◌∷◌, any, drop, ◌==◌, ◌||◌, is_empty, if◌then◌else◌}
use aitori.Base.Text.{
  Str, codes, str_eq, has_prefix, has_suffix, has_byte, count_byte, before_byte, to_lower,
  lower_byte, trim_space,
}

-- The brackets of an IPv6 literal, or a single colon with the port behind it, are cut off.
strip_port : Str → Str
strip_port [] = []
strip_port (c ∷ host) =
    if c == b'['
    then if has_byte b']' host then before_byte b']' host else c ∷ host
    else if count_byte b':' (c ∷ host) == 1
    then before_byte b':' (c ∷ host)
    else c ∷ host

-- `Normalize`.
unfoldable pub normalize : Str → Str
unfolding strip_port to_lower lower_byte trim_space has_byte count_byte before_byte
normalize host = strip_port (to_lower (trim_space host))

-- The switch of `Match`, on a trimmed lower-case pattern and a normalized host.
pub matches_shape : Str → Str → Bool
matches_shape pattern host =
    if has_prefix pattern (codes "*.")
    then has_suffix host (b'.' ∷ drop 2 pattern)
    else if has_prefix pattern (codes ".")
    then str_eq host (drop 1 pattern) || has_suffix host (b'.' ∷ drop 1 pattern)
    else str_eq host pattern

-- `Match`.
unfoldable pub match : Str → Str → Bool
unfolding normalize matches_shape has_prefix has_suffix str_eq
match pattern host =
    let p = to_lower (trim_space pattern) in
    let h = normalize host in if is_empty p || is_empty h then false else matches_shape p h

-- `MatchAny`.
unfoldable pub match_any : List Str → Str → Bool
unfolding match any
match_any patterns host = any (λ p. match p host) patterns
