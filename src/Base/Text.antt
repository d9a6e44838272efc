-- ===== src/Base/Text.antt =====
-- Go strings as lists of bytes, with the functions of package strings that the program calls.
-- Letter case and white space are those of ASCII: a byte above 127 is left as it is.
pub mod Laws
use Prim.Native.Char.{code}
use Prim.Native.String.{String}
use Prim.Native.Nat.{ℕ, suc, ◌+◌}
use mathlib.Core.Path.{◌≡◌, refl, ap}
use mathlib.Core.Logic.{◌↔◌, inl, inr}
use mathlib.Core.Bool.{Bool, true, false, ◌&&◌, ◌||◌}
use mathlib.Core.List.{List, [], ◌∷◌, ◌++◌, map}
use native.Mathlib.Omega.{arith}
use aitori.Base.Tests.{leb, ◌==◌, if◌then◌else◌, Bool-cases}
use aitori.Base.Lists.{is_empty}

-- The bytes of a string.
abbrev pub Str : Type 0
Str = List ℕ

-- The bytes of an ASCII literal.
abbrev pub codes : String → Str
codes String.[] = []
codes (String.◌∷◌ c s) = code c ∷ codes s

-- `a == b` on strings.
unfoldable pub str_eq : Str → Str → Bool
str_eq [] [] = true
str_eq (a ∷ s) (b ∷ t) = a == b && str_eq s t
str_eq _ _ = false

pub str_eq_refl : (s : Str) → str_eq s s ≡ true
unfolding str_eq
str_eq_refl [] = refl
str_eq_refl (a ∷ s) = ground (arith, str_eq_refl s)

str_eq_sound : (s t : Str) → str_eq s t ≡ true → s ≡ t
unfolding str_eq
str_eq_sound [] [] h = refl
str_eq_sound [] (b ∷ t) h = cc
str_eq_sound (a ∷ s) [] h = cc
str_eq_sound (a ∷ s) (b ∷ t) h = ground (arith, str_eq_sound s t)

pub str_eq_iff : (s t : Str) → (str_eq s t ≡ true) ↔ (s ≡ t)
str_eq_iff s t = (str_eq_sound s t, λ e. rw e (str_eq_refl t))

-- `strings.HasPrefix(s, prefix)`.
unfoldable pub has_prefix : Str → Str → Bool
has_prefix s [] = true
has_prefix [] (b ∷ t) = false
has_prefix (a ∷ s) (b ∷ t) = a == b && has_prefix s t

has_prefix_sound : (s t : Str) → has_prefix s t ≡ true → (rest : Str) × (s ≡ t ++ rest)
unfolding has_prefix
has_prefix_sound s [] h = (s, refl)
has_prefix_sound [] (b ∷ t) h = cc
has_prefix_sound (a ∷ s) (b ∷ t) h =
    let (rest, e) = has_prefix_sound s t (ground arith) in (rest, ground arith)

has_prefix_complete : (t rest : Str) → has_prefix (t ++ rest) t ≡ true
unfolding has_prefix
has_prefix_complete [] rest = ground arith
has_prefix_complete (b ∷ t) rest = ground (arith, has_prefix_complete t rest)

pub has_prefix_iff : (s t : Str) → (has_prefix s t ≡ true) ↔ ((rest : Str) × (s ≡ t ++ rest))
has_prefix_iff s t = (has_prefix_sound s t, λ (rest, e). rw e (has_prefix_complete t rest))

-- `strings.HasSuffix(s, suffix)`: compare at every tail.
unfoldable pub has_suffix : Str → Str → Bool
has_suffix [] t = str_eq [] t
has_suffix (a ∷ s) t = if str_eq (a ∷ s) t then true else has_suffix s t

has_suffix_sound : (s t : Str) → has_suffix s t ≡ true → (front : Str) × (s ≡ front ++ t)
unfolding has_suffix
has_suffix_sound [] t h = ([], (str_eq_iff [] t).0 h)
has_suffix_sound (a ∷ s) t h = elim (Bool-cases (str_eq (a ∷ s) t)) [
  | inl same ↦ ([], (str_eq_iff (a ∷ s) t).0 same)
  | inr other ↦
      let (front, e) = has_suffix_sound s t (rw other at h) in (a ∷ front, ap (λ r. a ∷ r) e)
]

has_suffix_self : (t : Str) → has_suffix t t ≡ true
unfolding has_suffix
has_suffix_self [] = str_eq_refl []
has_suffix_self (b ∷ t) = rw (str_eq_refl (b ∷ t))

has_suffix_complete : (front t : Str) → has_suffix (front ++ t) t ≡ true
unfolding has_suffix
has_suffix_complete [] t = has_suffix_self t
has_suffix_complete (a ∷ front) t = ground (arith, has_suffix_complete front t)

pub has_suffix_iff : (s t : Str) → (has_suffix s t ≡ true) ↔ ((front : Str) × (s ≡ front ++ t))
has_suffix_iff s t = (has_suffix_sound s t, λ (front, e). rw e (has_suffix_complete front t))

-- `strings.Contains(s, "c")` and `strings.IndexByte(s, c) >= 0` for one byte.
unfoldable pub has_byte : ℕ → Str → Bool
has_byte c [] = false
has_byte c (a ∷ s) = if a == c then true else has_byte c s

-- `strings.Count(s, "c")` for one byte.
unfoldable pub count_byte : ℕ → Str → ℕ
count_byte c [] = 0
count_byte c (a ∷ s) = let n = count_byte c s in if a == c then suc n else n

-- `s[:strings.IndexByte(s, c)]`, the whole of `s` when `c` does not occur.
unfoldable pub before_byte : ℕ → Str → Str
before_byte c [] = []
before_byte c (a ∷ s) = let rest = before_byte c s in if a == c then [] else a ∷ rest

-- `unicode.ToLower` on one ASCII byte.
unfoldable pub lower_byte : ℕ → ℕ
lower_byte c = if leb b'A' c && leb c b'Z' then c + 32 else c

-- `strings.ToLower(s)`.
unfoldable pub to_lower : Str → Str
to_lower = map lower_byte

-- `strings.EqualFold(s, t)`.
unfoldable pub equal_fold : Str → Str → Bool
unfolding to_lower lower_byte str_eq
equal_fold s t = str_eq (to_lower s) (to_lower t)

-- The white space of ASCII: tab, line feed, vertical tab, form feed, return, space.
unfoldable pub is_space : ℕ → Bool
is_space c = (leb 9 c && leb c 13) || c == 32

unfoldable pub trim_left : Str → Str
unfolding is_space
trim_left [] = []
trim_left (c ∷ s) = if is_space c then trim_left s else c ∷ s

-- Drop the trailing white space: a byte is kept if it or one behind it is not white space.
unfoldable pub trim_right : Str → Str
unfolding is_space
trim_right [] = []
trim_right (c ∷ s) = let rest = trim_right s in if is_space c && is_empty rest then [] else c ∷ rest

-- `strings.TrimSpace(s)`.
unfoldable pub trim_space : Str → Str
unfolding trim_left trim_right
trim_space s = trim_right (trim_left s)

-- `strings.Split(s, "c")` for one byte; `cur` is the part that is being read.
unfoldable pub split_from : ℕ → Str → Str → List Str
split_from c cur [] = cur ∷ []
split_from c cur (a ∷ s) =
    let closed = cur ∷ split_from c [] s in
    let longer = split_from c (cur ++ a ∷ []) s in if a == c then closed else longer

unfoldable pub split_byte : ℕ → Str → List Str
unfolding split_from
split_byte c s = split_from c [] s

-- `if s == "" { s = d }`
abbrev pub or_default : Str → Str → Str
or_default [] d = d
or_default (c ∷ s) d = c ∷ s

-- `strings.Contains`.
unfoldable pub contains : Str → Str → Bool
unfolding has_prefix
contains [] part = is_empty part
contains (c ∷ s) part = has_prefix (c ∷ s) part || contains s part
