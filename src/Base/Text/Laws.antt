-- ===== src/Base/Text/Laws.antt =====
-- Laws of the string functions: letter case, white space, and the part before a byte.
use aitori.Base.{
  ℕ, ◌+◌, ◌==◌, ◌≡◌, ◌≢◌, refl, ap, ◌∙◌, false, [], ◌∷◌, ◌++◌, arith, All, leb, is_empty,
  Bool-cases, inl, inr,
}
use aitori.Base.Text.{
  Str, count_byte, before_byte, lower_byte, to_lower, is_space, trim_left, trim_right, trim_space,
}

-- No white space anywhere.
abbrev pub NoSpace : Str → Type 0
NoSpace s = All (λ c. is_space c ≡ false) s

-- The byte `b` does not occur.
abbrev pub Lacks : ℕ → Str → Type 0
Lacks b s = All (λ c. c ≢ b) s

pub lower_byte_idem : (c : ℕ) → lower_byte (lower_byte c) ≡ lower_byte c
unfolding lower_byte
lower_byte_idem c = ground arith

pub to_lower_idem : (s : Str) → to_lower (to_lower s) ≡ to_lower s
unfolding to_lower
to_lower_idem [] = refl
to_lower_idem (c ∷ s) = cc (lower_byte_idem c, to_lower_idem s)

pub to_lower-append : (s t : Str) → to_lower (s ++ t) ≡ to_lower s ++ to_lower t
unfolding to_lower
to_lower-append [] t = refl
to_lower-append (c ∷ s) t = ap (λ r. lower_byte c ∷ r) (to_lower-append s t)

lower_byte-is_space : (c : ℕ) → is_space (lower_byte c) ≡ is_space c
unfolding lower_byte is_space
lower_byte-is_space c = ground arith

-- A byte that is no letter is kept, and nothing else becomes it.
pub lower_byte-ne : (b c : ℕ) → leb b'A' b ≡ false → c ≢ b → lower_byte c ≢ b
unfolding lower_byte
lower_byte-ne b c h n = ground arith

lower_byte-bracket : (c : ℕ) → c ≢ b'[' → lower_byte c ≢ b'['
unfolding lower_byte
lower_byte-bracket c n = ground arith

pub to_lower-NoSpace : (s : Str) → NoSpace s → NoSpace (to_lower s)
unfolding to_lower
to_lower-NoSpace [] h = tt
to_lower-NoSpace (c ∷ s) (p, h) = (lower_byte-is_space c ∙ p, to_lower-NoSpace s h)

pub to_lower-Lacks : (b : ℕ) (s : Str) → leb b'A' b ≡ false → Lacks b s → Lacks b (to_lower s)
unfolding to_lower
to_lower-Lacks b [] k h = tt
to_lower-Lacks b (c ∷ s) k (p, h) = (lower_byte-ne b c k p, to_lower-Lacks b s k h)

pub to_lower-Lacks_bracket : (s : Str) → Lacks b'[' s → Lacks b'[' (to_lower s)
unfolding to_lower
to_lower-Lacks_bracket [] h = tt
to_lower-Lacks_bracket (c ∷ s) (p, h) = (lower_byte-bracket c p, to_lower-Lacks_bracket s h)

trim_right_of_NoSpace : (s : Str) → NoSpace s → trim_right s ≡ s
unfolding trim_right
trim_right_of_NoSpace [] h = refl
trim_right_of_NoSpace (c ∷ s) (p, h) = ground (arith, trim_right_of_NoSpace s h)

trim_left_of_NoSpace : (s : Str) → NoSpace s → trim_left s ≡ s
unfolding trim_left
trim_left_of_NoSpace [] h = refl
trim_left_of_NoSpace (c ∷ s) (p, h) = ground arith

pub trim_space_of_NoSpace : (s : Str) → NoSpace s → trim_space s ≡ s
unfolding trim_space
trim_space_of_NoSpace s h = ap trim_right (trim_left_of_NoSpace s h) ∙ trim_right_of_NoSpace s h

trim_left-to_lower : (s : Str) → trim_left (to_lower s) ≡ to_lower (trim_left s)
unfolding trim_left to_lower
trim_left-to_lower [] = refl
trim_left-to_lower (c ∷ s) = ground (arith, lower_byte-is_space c, trim_left-to_lower s)

is_empty-to_lower : (s : Str) → is_empty (to_lower s) ≡ is_empty s
unfolding to_lower
is_empty-to_lower [] = refl
is_empty-to_lower (c ∷ s) = refl

trim_right-to_lower : (s : Str) → trim_right (to_lower s) ≡ to_lower (trim_right s)
unfolding trim_right to_lower
trim_right-to_lower [] = refl
trim_right-to_lower (c ∷ s) =
    ground (arith, lower_byte-is_space c, trim_right-to_lower s, is_empty-to_lower (trim_right s))

-- Trimming and lowering commute.
pub trim_space-to_lower : (s : Str) → trim_space (to_lower s) ≡ to_lower (trim_space s)
unfolding trim_space
trim_space-to_lower s = ap trim_right (trim_left-to_lower s) ∙ trim_right-to_lower (trim_left s)

pub count_byte_of_Lacks : (b : ℕ) (s : Str) → Lacks b s → count_byte b s ≡ 0
unfolding count_byte
count_byte_of_Lacks b [] h = refl
count_byte_of_Lacks b (c ∷ s) (p, h) = ground (arith, count_byte_of_Lacks b s h)

pub count_byte-append :
    (b : ℕ) (s t : Str) → count_byte b (s ++ t) ≡ count_byte b s + count_byte b t
unfolding count_byte
count_byte-append b [] t = omega arith
count_byte-append b (c ∷ s) t = ground (arith, count_byte-append b s t)

pub before_byte-append : (b : ℕ) (s t : Str) → Lacks b s → before_byte b (s ++ b ∷ t) ≡ s
unfolding before_byte
before_byte-append b [] t h = ground arith
before_byte-append b (c ∷ s) t (p, h) = ground (arith, before_byte-append b s t h)

-- The part before `b` does not hold `b`, and keeps whatever holds of every byte.
pub before_byte-Lacks : (b : ℕ) (s : Str) → Lacks b (before_byte b s)
unfolding before_byte
before_byte-Lacks b [] = tt
before_byte-Lacks b (c ∷ s) = elim (Bool-cases (c == b)) [
  | inl h ↦ rw h tt
  | inr h ↦ rw h (ground arith, before_byte-Lacks b s)
]

pub before_byte-All {κ} : (P : ℕ → Type κ) (b : ℕ) (s : Str) → All P s → All P (before_byte b s)
unfolding before_byte
before_byte-All P b [] h = tt
before_byte-All P b (c ∷ s) (p, h) = elim (Bool-cases (c == b)) [
  | inl e ↦ rw e tt
  | inr e ↦ rw e (p, before_byte-All P b s h)
]

pub before_byte-to_lower_self :
    (b : ℕ) (s : Str) → to_lower s ≡ s → to_lower (before_byte b s) ≡ before_byte b s
unfolding before_byte to_lower
before_byte-to_lower_self b [] h = refl
before_byte-to_lower_self b (c ∷ s) h = ground (arith, before_byte-to_lower_self b s)
