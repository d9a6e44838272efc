-- ===== src/MockGateway/Strip.antt =====
-- Which headers go upstream.
use mathlib.Core.Path.{◌≡◌, refl, sym, ap, ◌∙◌}
use mathlib.Core.Logic.{inl, inr}
use mathlib.Core.Option.{none}
use mathlib.Core.List.{List, [], ◌∷◌, ◌++◌, append-nil, append_assoc}
use aitori.Base.{arith, true, false, Bool-cases, if◌then◌else◌}
use aitori.Base.Dict.{lookup, lookup-put}
use aitori.Base.Text.{Str, str_eq, str_eq_iff, str_eq_refl}
use aitori.Http.{Header, add, canonical, or_nil, values}
use aitori.Http.HeaderLaws.{same_key, same_key_refl}
use aitori.MockGateway.{add_values, is_tfy, strip}

-- A header map as `net/http` makes it: the keys are canonical, and none stands there twice.
abbrev pub IsHeader : Header → Type 0
IsHeader [] = Unit
IsHeader ((k, vs) ∷ h) = (canonical k ≡ k) × ((lookup k h ≡ none) × IsHeader h)

values-add :
    (h : Header) (k v j : Str)
    → values (add h k v) j ≡ (if same_key k j then values h j ++ v ∷ [] else values h j)
unfolding add values same_key
values-add h k v j = ground (
  arith,
  lookup-put (canonical k) (canonical j) (or_nil (lookup (canonical k) h) ++ v ∷ []) h,
  str_eq_iff (canonical k) (canonical j),
)

values-add_values_self :
    (vs : List Str) (h : Header) (k j : Str)
    → same_key k j ≡ true
    → values (add_values k vs h) j ≡ values h j ++ vs
unfolding add_values
values-add_values_self [] h k j e = sym (append-nil (values h j))
values-add_values_self (v ∷ vs) h k j e =
    values-add_values_self vs (add h k v) k j e
    ∙ ap (λ w. w ++ vs) (ground (arith, values-add h k v j))
    ∙ append_assoc (values h j) (v ∷ []) vs

values-add_values_other :
    (vs : List Str) (h : Header) (k j : Str)
    → same_key k j ≡ false
    → values (add_values k vs h) j ≡ values h j
unfolding add_values
values-add_values_other [] h k j e = refl
values-add_values_other (v ∷ vs) h k j e =
    values-add_values_other vs (add h k v) k j e ∙ ground (arith, values-add h k v j)

values-cons_self :
    (k : Str) (vs : List Str) (h : Header) → canonical k ≡ k → values ((k, vs) ∷ h) k ≡ vs
unfolding values lookup
values-cons_self k vs h c = rw (c, str_eq_refl k) refl

values-cons_other :
    (k j : Str) (vs : List Str) (h : Header)
    → canonical j ≡ j
    → str_eq k j ≡ false
    → values ((k, vs) ∷ h) j ≡ values h j
unfolding values lookup
values-cons_other k j vs h c n = let n : str_eq k (canonical j) ≡ false = rw c n in rw n refl

values-absent : (k : Str) (h : Header) → canonical k ≡ k → lookup k h ≡ none → values h k ≡ []
unfolding values
values-absent k h c e = rw (c, e) refl

values-nil : (k : Str) → values [] k ≡ []
unfolding values lookup
values-nil k = refl

same_key-canonical : (k j : Str) → canonical k ≡ k → canonical j ≡ j → same_key k j ≡ str_eq k j
unfolding same_key
same_key-canonical k j a b = rw (a, b) refl

-- What goes upstream of the values of a header.
unfoldable pub kept : Str → List Str → List Str
kept k vs = if is_tfy k then [] else vs

kept-nil : (k : Str) → kept k [] ≡ []
unfolding kept
kept-nil k = ground arith

StripsAt : (k : Str) → List (Str × List Str) → Type 0
StripsAt j h = (out : Header) → values (strip out h) j ≡ values out j ++ kept j (values h j)

kept_own : (k : Str) (vs : List Str) → is_tfy k ≡ false → kept k vs ≡ vs
unfolding kept
kept_own k vs own = rw own refl

kept_tfy : (k : Str) (vs : List Str) → is_tfy k ≡ true → kept k vs ≡ []
unfolding kept
kept_tfy k vs tfy = rw tfy refl

-- One header, and then the others.
StripsAt-self :
    (k : Str) (vs : List Str) (h : Header)
    → canonical k ≡ k
    → lookup k h ≡ none
    → StripsAt k h
    → StripsAt k ((k, vs) ∷ h)
unfolding strip StripsAt
StripsAt-self k vs h c new ih out = elim (Bool-cases (is_tfy k)) [
  | inl tfy ↦ rw tfy (
      ih out
      ∙ ap (λ w. values out k ++ w)
          (kept_tfy k (values h k) tfy ∙ sym (kept_tfy k (values ((k, vs) ∷ h) k) tfy)))
  | inr own ↦ rw own (
      ih (add_values k vs out)
      ∙ ap (λ w. values (add_values k vs out) k ++ kept k w) (values-absent k h c new)
      ∙ ap (λ w. values (add_values k vs out) k ++ w) (kept-nil k)
      ∙ append-nil (values (add_values k vs out) k)
      ∙ values-add_values_self vs out k k (same_key_refl k)
      ∙ ap (λ w. values out k ++ w)
          (sym (kept_own k vs own) ∙ ap (kept k) (sym (values-cons_self k vs h c))))
]

StripsAt-other :
    (k j : Str) (vs : List Str) (h : Header)
    → canonical k ≡ k
    → canonical j ≡ j
    → str_eq k j ≡ false
    → StripsAt j h
    → StripsAt j ((k, vs) ∷ h)
unfolding strip StripsAt
StripsAt-other k j vs h ck cj n ih out = elim (Bool-cases (is_tfy k)) [
  | inl tfy ↦
      rw tfy (ih out ∙ ap (λ w. values out j ++ kept j w) (sym (values-cons_other k j vs h cj n)))
  | inr own ↦ rw own (
      ih (add_values k vs out)
      ∙ ap (λ w. w ++ kept j (values h j))
          (values-add_values_other vs out k j (same_key-canonical k j ck cj ∙ n))
      ∙ ap (λ w. values out j ++ kept j w) (sym (values-cons_other k j vs h cj n)))
]

values-strip_from : (h : Header) (j : Str) → IsHeader h → canonical j ≡ j → StripsAt j h
unfolding strip StripsAt
values-strip_from [] j fits c out =
    sym (append-nil (values out j))
    ∙ ap (λ w. values out j ++ w) (sym (ap (kept j) (values-nil j) ∙ kept-nil j))
values-strip_from ((k, vs) ∷ h) j (ck, (new, fits)) c out = elim (Bool-cases (str_eq k j)) [
  | inl e ↦ self ((str_eq_iff k j).0 e) c (values-strip_from h j fits c)
  | inr n ↦ StripsAt-other k j vs h ck c n (values-strip_from h j fits c) out
]
  where
    self :
        k ≡ j
        → canonical j ≡ j
        → StripsAt j h
        → values (strip out ((k, vs) ∷ h)) j ≡ values out j ++ kept j (values ((k, vs) ∷ h) j)
    self e c ih = rw (sym e) (StripsAt-self k vs h ck new (rw e ih) out)

-- Of the headers of a request that `net/http` has made none whose name starts with `x-tfy-`, in any
-- case, goes upstream, and every other one does, with all its values in their order.
pub values-strip :
    (h : Header) (k : Str)
    → IsHeader h
    → canonical k ≡ k
    → values (strip [] h) k ≡ (if is_tfy k then [] else values h k)
unfolding StripsAt kept
values-strip h k fits c =
    values-strip_from h k fits c [] ∙ ap (λ w. w ++ kept k (values h k)) (values-nil k)
