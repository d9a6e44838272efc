-- ===== src/Proc/Dir.antt =====
-- `filepath.Dir` of Unix, and that it goes up: its result is shorter unless it is "." or "/".
use Prim.Native.Nat.{ℕ, suc, ◌+◌, ◌-◌, ◌≤◌, ◌<◌}
use mathlib.Core.Path.{◌≡◌, refl, ap, ◌∙◌}
use mathlib.Core.Logic.{◌⊎◌, inl, inr}
use mathlib.Core.List.{List, [], ◌∷◌, ◌++◌, reverse, reverse-cons}
use aitori.Base.{
  Bool, true, false, ◌==◌, if◌then◌else◌, is_empty, length, length-append, arith, Bool-cases,
}
use aitori.Base.Text.{Str, codes, str_eq, str_eq_iff, split_byte, split_from}
use aitori.AppResolve.Paths.{clean, clean_from, go_up, join_slash, or_dot}

-- The path as far as its last slash.
unfoldable pub with_slash : Str → Str
with_slash [] = []
with_slash (a ∷ s) =
    let rest = with_slash s in if is_empty rest then if a == b'/' then a ∷ [] else [] else a ∷ rest

unfoldable pub dir : Str → Str
unfolding with_slash clean
dir p = clean (with_slash p)

-- The room that parts take with a separator for each, and that of the parts that are not empty.
size : List Str → ℕ
size [] = 0
size (part ∷ parts) = suc (length part) + size parts

kept : List Str → ℕ
kept [] = 0
kept (part ∷ parts) =
    let rest = kept parts in if is_empty part then rest else suc (length part) + rest

kept-cons : (part : Str) (parts : List Str) → kept (part ∷ parts) ≤ suc (length part) + kept parts
unfolding kept
kept-cons [] parts = omega arith
kept-cons (b ∷ part) parts = omega arith

kept-split_from : (c : ℕ) (cur s : Str) → kept (split_from c cur s) ≤ suc (length cur + length s)
unfolding kept split_from
kept-split_from c [] [] = omega arith
kept-split_from c (b ∷ cur) [] = omega arith
kept-split_from c cur (a ∷ s) = elim (Bool-cases (a == c)) [
  | inl cut ↦ rw cut (omega (arith, kept-cons cur (split_from c [] s), kept-split_from c [] s))
  | inr on ↦ rw on (omega (arith, kept-split_from c (cur ++ a ∷ []) s, length-append cur (a ∷ [])))
]

kept-snoc_empty : (parts : List Str) → kept (parts ++ [] ∷ []) ≡ kept parts
unfolding kept
kept-snoc_empty [] = refl
kept-snoc_empty ([] ∷ parts) = kept-snoc_empty parts
kept-snoc_empty ((b ∷ part) ∷ parts) = ap (λ n. suc (suc (length part)) + n) (kept-snoc_empty parts)

-- A slash at the end leaves an empty part.
split_from-snoc :
    (c : ℕ) (cur s : Str) → split_from c cur (s ++ c ∷ []) ≡ split_from c cur s ++ [] ∷ []
unfolding split_from
split_from-snoc c cur [] = ground arith
split_from-snoc c cur (a ∷ s) = elim (Bool-cases (a == c)) [
  | inl cut ↦ rw cut (ap (λ l. cur ∷ l) (split_from-snoc c [] s))
  | inr on ↦ rw on (split_from-snoc c (cur ++ a ∷ []) s)
]

-- Cleaning keeps the parts that are not empty at most.
go_up-size : (rooted : Bool) (stack : List Str) → size (go_up rooted stack) ≤ 3 + size stack
unfolding go_up size
go_up-size true [] = omega arith
go_up-size false [] = omega arith
go_up-size rooted (top ∷ stack) = elim (Bool-cases (str_eq top (codes ".."))) [
  | inl dots ↦ rw dots (omega arith)
  | inr other ↦ rw other (omega arith)
]

size-append : (xs ys : List Str) → size (xs ++ ys) ≡ size xs + size ys
unfolding size
size-append [] ys = omega arith
size-append (x ∷ xs) ys = omega (arith, size-append xs ys)

size-reverse : (xs : List Str) → size (reverse xs) ≡ size xs
unfolding size
size-reverse [] = refl
size-reverse (x ∷ xs) =
    ap size (reverse-cons x xs) ∙ omega (arith, size-append (reverse xs) (x ∷ []), size-reverse xs)

clean_from-size :
    (rooted : Bool) (stack parts : List Str)
    → size (clean_from rooted stack parts) ≤ size stack + kept parts
unfolding clean_from kept size
clean_from-size rooted stack [] = omega (arith, size-reverse stack)
clean_from-size rooted stack (part ∷ parts) = elim (Bool-cases (is_empty part)) [
  | inl e ↦ rw e (clean_from-size rooted stack parts)
  | inr e ↦ rw e (elim (Bool-cases (str_eq part (codes "."))) [
    | inl dot ↦ rw dot (omega (arith, clean_from-size rooted stack parts))
    | inr other ↦ rw other (elim (Bool-cases (str_eq part (codes ".."))) [
      | inl dots ↦ rw dots (
          omega (
            arith,
            clean_from-size rooted (go_up rooted stack) parts,
            go_up-size rooted stack,
            ap length ((str_eq_iff part (codes "..")).0 dots),
          ))
      | inr name ↦ rw name (omega (arith, clean_from-size rooted (part ∷ stack) parts))
    ])
  ])
]

join_slash-size : (parts : List Str) → length (join_slash parts) ≤ size parts - 1
unfolding join_slash size
join_slash-size [] = omega arith
join_slash-size (part ∷ []) = omega arith
join_slash-size (part ∷ q ∷ parts) =
    omega (arith, length-append part (b'/' ∷ join_slash (q ∷ parts)), join_slash-size (q ∷ parts))

-- A path that ends in a slash, cleaned of the slash.
joined-length :
    (rooted : Bool) (s : Str)
    → length (join_slash (clean_from rooted [] (split_byte b'/' (s ++ b'/' ∷ [])))) ≤ length s
unfolding size split_byte
joined-length rooted s =
    let parts = split_from b'/' [] (s ++ b'/' ∷ []) in
    let cut = ap kept (split_from-snoc b'/' [] s) ∙ kept-snoc_empty (split_from b'/' [] s) in
    omega (
      arith,
      join_slash-size (clean_from rooted [] parts),
      clean_from-size rooted [] parts,
      cut,
      kept-split_from b'/' [] s,
    )

snoc-not_empty : (s : Str) → is_empty (s ++ b'/' ∷ []) ≡ false
snoc-not_empty [] = refl
snoc-not_empty (c ∷ s) = refl

-- Up to its last slash a path is empty or ends in the slash, and is no longer than before.
with_slash-cases :
    (p : Str)
    → (with_slash p ≡ []) ⊎ ((s : Str) × ((with_slash p ≡ s ++ b'/' ∷ []) × (length s < length p)))
unfolding with_slash
with_slash-cases [] = inl refl
with_slash-cases (a ∷ p) = elim (with_slash-cases p) [
  | inl none_left ↦ elim (Bool-cases (a == b'/')) [
    | inl slash ↦ inr ([], (ground arith, omega arith))
    | inr other ↦ inl (ground arith)
  ]
  | inr (s, (e, shorter)) ↦
      rw (ap is_empty e ∙ snoc-not_empty s) (inr (a ∷ s, (ap (λ t. a ∷ t) e, omega arith)))
]

or_dot-cases : (s : Str) → (or_dot s ≡ codes ".") ⊎ (or_dot s ≡ s)
unfolding or_dot
or_dot-cases [] = inl refl
or_dot-cases (c ∷ s) = inr refl

-- ".", "/", or shorter than `n`.
abbrev GoesUp : ℕ → Str → Type 0
GoesUp n t = (t ≡ codes ".") ⊎ ((t ≡ codes "/") ⊎ (length t < n))

if-GoesUp : (n : ℕ) (b : Bool) (t u : Str) → GoesUp n t → GoesUp n u → GoesUp n (if b then t else u)
if-GoesUp n true t u h k = h
if-GoesUp n false t u h k = k

or_dot-GoesUp : (n : ℕ) (t : Str) → length t < n → GoesUp n (or_dot t)
or_dot-GoesUp n t k = elim (or_dot-cases t) [
  | inl dot ↦ inl dot
  | inr same ↦ inr (inr (omega (arith, ap length same)))
]

clean-snoc : (s : Str) (n : ℕ) → length s < n → GoesUp n (clean (s ++ b'/' ∷ []))
unfolding clean
clean-snoc [] n h = inr (inl refl)
clean-snoc (c ∷ s) n h =
    if-GoesUp n (c == b'/') _ _ (inr (inr (omega (arith, joined-length true s)))) (
      or_dot-GoesUp n (join_slash (clean_from false [] (split_byte b'/' ((c ∷ s) ++ b'/' ∷ []))))
        (omega (arith, joined-length false (c ∷ s))))

-- The directory of a path is ".", "/", or shorter than the path.
pub dir-goes_up :
    (p : Str) → (dir p ≡ codes ".") ⊎ ((dir p ≡ codes "/") ⊎ (length (dir p) < length p))
unfolding dir
dir-goes_up p = elim (with_slash-cases p) [
  | inl e ↦ inl (ap clean e ∙ (unfold clean in refl))
  | inr (s, (e, shorter)) ↦ rw e (clean-snoc s (length p) shorter)
]
