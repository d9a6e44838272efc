-- ===== src/PathMatch/Segments.antt =====
-- Without "**" a pattern fixes the number of path separators.
use aitori.Base.{
  ℕ, suc, ◌==◌, if◌then◌else◌, ◌≡◌, refl, ◌∙◌, Bool, true, false, List, [], ◌∷◌, ◌++◌, arith,
}
use aitori.Base.Text.{Str, count_byte}
use aitori.PathMatch.{slash, match}
use aitori.PathMatch.Tokens.{Token, literal, segment, anything, tokens, NoSlash, Accepts}
use aitori.PathMatch.Correct.{match_iff}

-- How many separators the literals of a pattern hold.
abbrev pub separators : List Token → ℕ
separators [] = 0
separators (literal c ∷ ts) = let n = separators ts in if c == slash then suc n else n
separators (_ ∷ ts) = separators ts

abbrev pub is_shallow : List Token → Bool
is_shallow [] = true
is_shallow (anything ∷ ts) = false
is_shallow (_ ∷ ts) = is_shallow ts

count_byte-NoSlash : (u v : Str) → NoSlash u → count_byte slash (u ++ v) ≡ count_byte slash v
unfolding count_byte
count_byte-NoSlash [] v n = refl
count_byte-NoSlash (c ∷ u) v (p, n) = ground (arith, count_byte-NoSlash u v n)

count_byte-Accepts :
    (ts : List Token) (s : Str)
    → is_shallow ts ≡ true
    → Accepts ts s
    → count_byte slash s ≡ separators ts
unfolding count_byte
count_byte-Accepts [] s h e = rw e
count_byte-Accepts (literal c ∷ ts) s h (t, e, a) =
    rw e (ground (arith, count_byte-Accepts ts t h a))
count_byte-Accepts (segment ∷ ts) s h (u, v, e, n, a) =
    rw e (count_byte-NoSlash u v n ∙ count_byte-Accepts ts v h a)
count_byte-Accepts (anything ∷ ts) s h a = cc

-- A pattern with no "**" matches only paths with as many "/" as the pattern itself writes: "*"
-- never crosses a separator.
pub count_byte-match :
    (pattern path : Str)
    → is_shallow (tokens pattern) ≡ true
    → match pattern path ≡ true
    → count_byte slash path ≡ separators (tokens pattern)
count_byte-match pattern path h m =
    count_byte-Accepts (tokens pattern) path h ((match_iff pattern path).0 m)
