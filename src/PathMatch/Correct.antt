-- ===== src/PathMatch/Correct.antt =====
-- The backtracking matcher decides the language of its pattern.
use aitori.Base.{
  is_empty_iff, ℕ, ◌==◌, ◌≡◌, refl, ap, ◌↔◌, inl, inr, Bool, true, false, List, [], ◌∷◌, ◌++◌,
  arith, Bool-cases, any_iff, Exists,
}
use aitori.Base.Text.{Str, str_eq, has_byte}
use aitori.PathMatch.{star, try_any, try_segment, try_byte, glob, match, match_any}
use aitori.PathMatch.Tokens.{Token, literal, segment, anything, tokens, NoSlash, Accepts}

-- Each loop, against a decision `rest` for the tokens that follow.
module _ (ts : List Token) (rest : Str → Bool)
    (decides : (s : Str) → (rest s ≡ true) ↔ Accepts ts s) where
  try_any_sound : (s : Str) → try_any rest s ≡ true → Accepts (anything ∷ ts) s
  unfolding try_any
  try_any_sound [] h = ([], [], refl, (decides []).0 h)
  try_any_sound (c ∷ s) h = elim (Bool-cases (rest (c ∷ s))) [
    | inl hit ↦ ([], c ∷ s, refl, (decides (c ∷ s)).0 hit)
    | inr miss ↦
        let (u, v, e, a) = try_any_sound s (rw miss at h) in (c ∷ u, v, ap (λ r. c ∷ r) e, a)
  ]

  try_any_here : (s : Str) → rest s ≡ true → try_any rest s ≡ true
  unfolding try_any
  try_any_here [] h = h
  try_any_here (c ∷ s) h = rw h

  try_any_complete : (u v : Str) → rest v ≡ true → try_any rest (u ++ v) ≡ true
  unfolding try_any
  try_any_complete [] v h = try_any_here v h
  try_any_complete (c ∷ u) v h = ground (arith, try_any_complete u v h)

  try_any_iff : (s : Str) → (try_any rest s ≡ true) ↔ Accepts (anything ∷ ts) s
  try_any_iff s = (try_any_sound s, λ (u, v, e, a). rw e (try_any_complete u v ((decides v).1 a)))

  try_segment_sound : (s : Str) → try_segment rest s ≡ true → Accepts (segment ∷ ts) s
  unfolding try_segment
  try_segment_sound [] h = ([], [], refl, tt, (decides []).0 h)
  try_segment_sound (c ∷ s) h = elim (Bool-cases (rest (c ∷ s))) [
    | inl hit ↦ ([], c ∷ s, refl, tt, (decides (c ∷ s)).0 hit)
    | inr miss ↦
        let (u, v, e, n, a) = try_segment_sound s (ground arith) in
        (c ∷ u, v, ap (λ r. c ∷ r) e, (ground arith, n), a)
  ]

  try_segment_here : (s : Str) → rest s ≡ true → try_segment rest s ≡ true
  unfolding try_segment
  try_segment_here [] h = h
  try_segment_here (c ∷ s) h = rw h

  try_segment_complete : (u v : Str) → NoSlash u → rest v ≡ true → try_segment rest (u ++ v) ≡ true
  unfolding try_segment
  try_segment_complete [] v n h = try_segment_here v h
  try_segment_complete (c ∷ u) v (p, n) h = ground (arith, try_segment_complete u v n h)

  try_segment_iff : (s : Str) → (try_segment rest s ≡ true) ↔ Accepts (segment ∷ ts) s
  try_segment_iff s =
      (try_segment_sound s, λ (u, v, e, n, a). rw e (try_segment_complete u v n ((decides v).1 a)))

  try_byte_sound : (p : ℕ) (s : Str) → try_byte p rest s ≡ true → Accepts (literal p ∷ ts) s
  unfolding try_byte
  try_byte_sound p [] h = cc
  try_byte_sound p (c ∷ s) h = (s, ground arith, (decides s).0 (ground arith))

  try_byte_complete : (p : ℕ) (t : Str) → rest t ≡ true → try_byte p rest (p ∷ t) ≡ true
  unfolding try_byte
  try_byte_complete p t h = ground arith

  try_byte_iff : (p : ℕ) (s : Str) → (try_byte p rest s ≡ true) ↔ Accepts (literal p ∷ ts) s
  try_byte_iff p s =
      (try_byte_sound p s, λ (t, e, a). rw e (try_byte_complete p t ((decides t).1 a)))

-- The recursive matcher with full backtracking accepts exactly the language of the pattern.
pub glob_iff : (pat s : Str) → (glob pat s ≡ true) ↔ Accepts (tokens pat) s
unfolding glob tokens
glob_iff [] s = is_empty_iff s
glob_iff (p ∷ []) s = elim (Bool-cases (p == star)) [
  | inl h ↦ rw h (try_segment_iff [] (glob []) (glob_iff []) s)
  | inr h ↦ rw h (try_byte_iff [] (glob []) (glob_iff []) p s)
]
glob_iff (p ∷ q ∷ pat) s = elim (Bool-cases (p == star)) [
  | inl h ↦ elim (Bool-cases (q == star)) [
    | inl k ↦ rw (h, k) (try_any_iff (tokens pat) (glob pat) (glob_iff pat) s)
    | inr k ↦ rw (h, k) (try_segment_iff (tokens (q ∷ pat)) (glob (q ∷ pat)) (glob_iff (q ∷ pat)) s)
  ]
  | inr h ↦ rw h (try_byte_iff (tokens (q ∷ pat)) (glob (q ∷ pat)) (glob_iff (q ∷ pat)) p s)
]

-- A pattern with no star stands for itself, so the shortcut of `Match` changes nothing.
str_eq-glob : (pat s : Str) → has_byte star pat ≡ false → str_eq pat s ≡ glob pat s
unfolding str_eq glob try_byte has_byte
str_eq-glob [] [] h = refl
str_eq-glob [] (c ∷ s) h = refl
str_eq-glob (p ∷ []) [] h = ground arith
str_eq-glob (p ∷ []) (c ∷ []) h = ground arith
str_eq-glob (p ∷ []) (c ∷ d ∷ s) h = ground arith
str_eq-glob (p ∷ q ∷ pat) [] h = ground arith
str_eq-glob (p ∷ q ∷ pat) (c ∷ s) h = ground (arith, str_eq-glob (q ∷ pat) s)

-- `Match` accepts a path exactly if the path is in the language of the pattern.
pub match_iff : (pattern path : Str) → (match pattern path ≡ true) ↔ Accepts (tokens pattern) path
unfolding match
match_iff pattern path = elim (Bool-cases (has_byte star pattern)) [
  | inl h ↦ rw h (glob_iff pattern path)
  | inr h ↦ rw (h, str_eq-glob pattern path h) (glob_iff pattern path)
]

-- `MatchAny` accepts a path exactly if the path is in the language of one of the patterns.
pub match_any_iff :
    (patterns : List Str) (path : Str)
    → (match_any patterns path ≡ true) ↔ Exists (λ p. Accepts (tokens p) path) patterns
unfolding match_any
match_any_iff patterns path = any_iff (λ p. match_iff p path) patterns
