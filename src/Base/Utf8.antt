-- ===== src/Base/Utf8.antt =====
-- The runes of a string, as `for range` and `[]rune` read them (package unicode/utf8). A valid rune
-- is kept as its encoding; a byte that starts none is one invalid rune.
use Prim.Native.Nat.{ℕ, zero, suc, ◌+◌, ◌*◌, ◌-◌, ◌≤◌}
use mathlib.Core.Bool.{Bool, false, ◌&&◌, ◌||◌}
use mathlib.Core.List.{List, [], ◌∷◌, ◌++◌}
use native.Mathlib.Omega.{arith}
use aitori.Base.Tests.{ltb, leb, ◌==◌, if◌then◌else◌}
use aitori.Base.Lists.{length, take, drop, length-append}
use aitori.Base.Text.{Str}

pub data Rune : Type 0 where
  valid : Str → Rune
  invalid : Rune

-- The string starts with a byte in a range.
starts_in : ℕ → ℕ → Str → Bool
starts_in lo hi [] = false
starts_in lo hi (c ∷ s) = leb lo c && leb c hi

-- The first two bytes of a rune of three or of four bytes.
starts_three : ℕ → Str → Bool
starts_three c s =
    (c == 0xE0 && starts_in 0xA0 0xBF s)
    || ((c == 0xED && starts_in 0x80 0x9F s)
        || (((leb 0xE1 c && leb c 0xEC) || (leb 0xEE c && leb c 0xEF)) && starts_in 0x80 0xBF s))

starts_four : ℕ → Str → Bool
starts_four c s =
    (c == 0xF0 && starts_in 0x90 0xBF s)
    || ((c == 0xF4 && starts_in 0x80 0x8F s)
        || ((leb 0xF1 c && leb c 0xF3) && starts_in 0x80 0xBF s))

-- How many bytes the rune at `c ∷ s` has; 0 if none starts there.
rune_len : ℕ → Str → ℕ
rune_len c s =
    if ltb c 0x80
    then 1
    else if (leb 0xC2 c && leb c 0xDF) && starts_in 0x80 0xBF s
    then 2
    else if starts_three c s && starts_in 0x80 0xBF (drop 1 s)
    then 3
    else if starts_four c s && (starts_in 0x80 0xBF (drop 1 s) && starts_in 0x80 0xBF (drop 2 s))
    then 4
    else 0

rune_of : ℕ → Str → Rune
rune_of zero s = invalid
rune_of (suc n) s = valid (take (suc n) s)

-- `skip` bytes belong to the rune read last.
runes_from : ℕ → Str → List Rune
runes_from skip [] = []
runes_from (suc skip) (c ∷ s) = runes_from skip s
runes_from zero (c ∷ s) = rune_of (rune_len c s) (c ∷ s) ∷ runes_from (rune_len c s - 1) s

unfoldable pub runes : Str → List Rune
unfolding runes_from rune_of rune_len starts_in starts_three starts_four
runes s = runes_from 0 s

-- U+FFFD, by which an invalid rune is written back.
unfoldable pub encode : Rune → Str
encode (valid s) = s
encode invalid = 0xEF ∷ 0xBF ∷ 0xBD ∷ []

-- `string(rs)`.
unfoldable pub from_runes : List Rune → Str
unfolding encode
from_runes [] = []
from_runes (r ∷ rs) = encode r ++ from_runes rs

rune_len-le : (c : ℕ) (s : Str) → rune_len c s ≤ 4
unfolding rune_len
rune_len-le c s = ground arith

length-take_le : (n : ℕ) (s : Str) → length (take n s) ≤ n
length-take_le zero s = omega arith
length-take_le (suc n) [] = omega arith
length-take_le (suc n) (c ∷ s) = omega (arith, length-take_le n s)

length-rune_of : (n : ℕ) (s : Str) → n ≤ 4 → length (encode (rune_of n s)) ≤ 4
unfolding rune_of encode
length-rune_of zero s h = omega arith
length-rune_of (suc n) s h = omega (arith, length-take_le (suc n) s)

-- Writing back the first `n` runes takes at most four bytes for each.
length-from_runes :
    (skip n : ℕ) (s : Str) → length (from_runes (take n (runes_from skip s))) ≤ 4 * n
unfolding from_runes runes_from
length-from_runes skip zero s = omega arith
length-from_runes skip (suc n) [] = omega arith
length-from_runes (suc skip) (suc n) (c ∷ s) = length-from_runes skip (suc n) s
length-from_runes zero (suc n) (c ∷ s) = omega (
  arith,
  length-append (encode (rune_of (rune_len c s) (c ∷ s)))
      (from_runes (take n (runes_from (rune_len c s - 1) s))),
  length-rune_of (rune_len c s) (c ∷ s) (rune_len-le c s),
  length-from_runes (rune_len c s - 1) n s,
)

pub length-from_runes-take : (n : ℕ) (s : Str) → length (from_runes (take n (runes s))) ≤ 4 * n
unfolding runes
length-from_runes-take n s = length-from_runes 0 n s

length-runes_from : (skip : ℕ) (s : Str) → length s ≤ skip + 4 * length (runes_from skip s)
unfolding runes_from
length-runes_from skip [] = omega arith
length-runes_from (suc skip) (c ∷ s) = omega (arith, length-runes_from skip s)
length-runes_from zero (c ∷ s) =
    omega (arith, length-runes_from (rune_len c s - 1) s, rune_len-le c s)

-- A string is at most four times as long as the number of its runes.
pub length-le-runes : (s : Str) → length s ≤ 4 * length (runes s)
unfolding runes
length-le-runes s = omega (arith, length-runes_from 0 s)
