-- ===== src/HostMatch/Shapes.antt =====
-- What a host pattern covers, and that `Match` decides it.
use aitori.Base.{
  or_iff, ◌==◌, ◌||◌, if◌then◌else◌, ◌≡◌, ◌≢◌, refl, ap, ◌↔◌, ◌⊎◌, inl, inr, Bool, true, false,
  List, [], ◌∷◌, ◌++◌, arith, Bool-cases, is_empty, any_iff, Exists, length, length-append,
}
use aitori.Base.Text.{
  Str, str_eq, str_eq_iff, has_prefix, has_suffix, has_suffix_iff, to_lower, trim_space,
}
use aitori.HostMatch.{normalize, matches_shape, match, match_any}

pub data Shape : Type 0 where
  subdomain : Str → Shape  -- "*.base"
  suffix : Str → Shape  -- ".base"
  exact : Str → Shape

unfoldable pub shape : Str → Shape
shape [] = exact []
shape (c ∷ []) = if c == b'.' then suffix [] else exact (c ∷ [])
shape (c ∷ d ∷ p) =
    if c == b'*'
    then if d == b'.' then subdomain p else exact (c ∷ d ∷ p)
    else if c == b'.'
    then suffix (d ∷ p)
    else exact (c ∷ d ∷ p)

-- `host` ends in a dot and `base`.
abbrev pub IsBelow : Str → Str → Type 0
IsBelow base host = (front : Str) × (host ≡ front ++ b'.' ∷ base)

abbrev pub Covers : Shape → Str → Type 0
Covers (subdomain base) host = IsBelow base host
Covers (suffix base) host = (host ≡ base) ⊎ IsBelow base host
Covers (exact name) host = host ≡ name

-- A pattern, as it is compared.
unfoldable pub fold_pattern : Str → Str
fold_pattern pattern = to_lower (trim_space pattern)

suffix_or_iff :
    (base host : Str)
    → ((str_eq host base || has_suffix host (b'.' ∷ base)) ≡ true) ↔ Covers (suffix base) host
suffix_or_iff base host =
    or_iff (str_eq host base) (has_suffix host (b'.' ∷ base)) (str_eq_iff host base)
      (has_suffix_iff host (b'.' ∷ base))

covers : Shape → Str → Bool
covers (subdomain base) host = has_suffix host (b'.' ∷ base)
covers (suffix base) host = str_eq host base || has_suffix host (b'.' ∷ base)
covers (exact name) host = str_eq host name

covers_iff : (s : Shape) (host : Str) → (covers s host ≡ true) ↔ Covers s host
unfolding covers
covers_iff (subdomain base) host = has_suffix_iff host (b'.' ∷ base)
covers_iff (suffix base) host = suffix_or_iff base host
covers_iff (exact name) host = str_eq_iff host name

matches_shape-covers : (p host : Str) → matches_shape p host ≡ covers (shape p) host
unfolding matches_shape shape has_prefix covers
matches_shape-covers [] host = refl
matches_shape-covers (c ∷ []) host = ground arith
matches_shape-covers (c ∷ d ∷ p) host = ground arith

pub matches_shape_iff : (p host : Str) → (matches_shape p host ≡ true) ↔ Covers (shape p) host
matches_shape_iff p host = rw (matches_shape-covers p host) (covers_iff (shape p) host)

-- `Match` accepts a host exactly if the pattern, trimmed and lower-cased, and the normalized host
-- are both non-empty, and the pattern's shape covers the host: "*.base" every host that ends in
-- ".base", ".base" these and `base` itself, any other pattern only the host that it writes.
pub match-Covers_iff :
    (pattern host : Str)
    → (match pattern host ≡ true) ↔ (
        (fold_pattern pattern ≢ [])
        × (normalize host ≢ [])
        × Covers (shape (fold_pattern pattern)) (normalize host))
unfolding match fold_pattern
match-Covers_iff pattern host = go (to_lower (trim_space pattern)) (normalize host)
  where
    go :
        (p h : Str)
        → ((if is_empty p || is_empty h then false else matches_shape p h) ≡ true)
          ↔ ((p ≢ []) × (h ≢ []) × Covers (shape p) h)
    go [] h = (λ e. cc, λ (n, _, _). absurd (n refl))
    go (c ∷ p) [] = (λ e. cc, λ (_, n, _). absurd (n refl))
    go (c ∷ p) (d ∷ h) =
        let iff = matches_shape_iff (c ∷ p) (d ∷ h) in
        (λ e. (λ q. cc, λ q. cc, iff.0 e), λ (_, _, k). iff.1 k)

-- `MatchAny` accepts a host exactly if one of the patterns does.
pub match_any_covers_iff :
    (patterns : List Str) (host : Str)
    → (match_any patterns host ≡ true) ↔ Exists (λ p. match p host ≡ true) patterns
unfolding match_any
match_any_covers_iff patterns host = any_iff (λ p. (λ h. h, λ h. h)) patterns

not-IsBelow_self : (base : Str) → ¬ IsBelow base base
not-IsBelow_self base (front, e) =
    absurd (omega (arith, ap length e, length-append front (b'.' ∷ base)))

-- The pattern "*.base" does not cover the host `base` itself.
pub match-apex :
    (pattern host base : Str)
    → fold_pattern pattern ≡ b'*' ∷ b'.' ∷ base
    → normalize host ≡ base
    → match pattern host ≡ false
match-apex pattern host base e h = elim (Bool-cases (match pattern host)) [
  | inr miss ↦ miss
  | inl hit ↦ absurd (
      not-IsBelow_self base
        (unfold shape in rw (e, h) at (((match-Covers_iff pattern host).0 hit).2)))
]
