-- ===== src/TraceStore/Statements.antt =====
-- The text of the statement that `Query` of tracestore/store.go sends.
use Prim.Native.Nat.{suc}
use mathlib.Core.Path.{◌≡◌, refl, ap, ◌∙◌}
use mathlib.Core.List.{List, [], ◌∷◌, ◌++◌}
use aitori.Base.{Bool, true, false, arith, length, length-append}
use aitori.Base.Int.{pos}
use aitori.Base.Text.{Str, codes, count_byte}
use aitori.Base.Text.Laws.{count_byte-append}
use aitori.TraceStore.Spans.{Filter, Value, int_value, text_value}
use aitori.TraceStore.Store.{
  Where, add_if, app_text, category_text, filter_where, is_set, is_positive, like_pattern,
  like_text, query_limit, query_text, status_text,
}
use aitori.TraceStore.Sql.{
  Condition, app_is, category_is, url_or_name_like, status_at_least, condition_text, condition_args,
  clause_args, conjunction, where_clause, select_text, columns,
}
use aitori.TraceStore.Found.{conditions_of, filter_where_lem, query_text_lem}

marks : (c : Condition) → count_byte b'?' (condition_text c) ≡ length (condition_args c)
unfolding count_byte
marks (app_is v) = refl
marks (category_is v) = refl
marks (url_or_name_like v) = refl
marks (status_at_least n) = refl

marks-conjunction :
    (cs : List Condition) → count_byte b'?' (conjunction cs) ≡ length (clause_args cs)
unfolding conjunction clause_args
marks-conjunction [] = unfold count_byte in refl
marks-conjunction (c ∷ []) = omega (arith, marks c, length-append (condition_args c) [])
marks-conjunction (c ∷ c' ∷ cs) =
    let rest = conjunction (c' ∷ cs) in
    let sep : count_byte b'?' (codes " AND ") ≡ 0 = unfold count_byte in refl in
    omega (
      arith,
      marks c,
      sep,
      marks-conjunction (c' ∷ cs),
      count_byte-append b'?' (condition_text c ++ codes " AND ") rest,
      count_byte-append b'?' (condition_text c) (codes " AND "),
      length-append (condition_args c) (clause_args (c' ∷ cs)),
    )

marks-where_clause :
    (cs : List Condition) → count_byte b'?' (where_clause cs) ≡ length (clause_args cs)
unfolding where_clause
marks-where_clause [] = unfold count_byte clause_args in refl
marks-where_clause (c ∷ cs) =
    let all = conjunction (c ∷ cs) in
    let word : count_byte b'?' (codes " WHERE " ++ all) ≡ count_byte b'?' all =
      unfold count_byte in refl in
    word ∙ marks-conjunction (c ∷ cs)

marks-select :
    (cs : List Condition) → count_byte b'?' (select_text cs) ≡ suc (length (clause_args cs))
unfolding select_text
marks-select cs =
    let front = codes "SELECT " ++ columns ++ codes " FROM spans" in
    let order = codes " ORDER BY start_unix_nano DESC LIMIT ?" in
    let no_mark : count_byte b'?' front ≡ 0 = unfold count_byte in refl in
    let mark : count_byte b'?' order ≡ 1 = unfold count_byte in refl in
    omega (
      arith,
      no_mark,
      mark,
      count_byte-append b'?' (front ++ where_clause cs) order,
      count_byte-append b'?' front (where_clause cs),
      marks-where_clause cs,
    )

-- For every filter, the statement of `Query` has one placeholder for each of its arguments.
pub query_text-placeholders :
    (f : Filter)
    → count_byte b'?' (query_text (filter_where f).texts)
      ≡ length ((filter_where f).args ++ int_value (pos (query_limit f)) ∷ [])
query_text-placeholders f =
    let cs = conditions_of f in
    rw (filter_where_lem f) (
      ap (count_byte b'?') (query_text_lem cs)
      ∙ marks-select cs
      ∙ omega (arith, length-append (clause_args cs) (int_value (pos (query_limit f)) ∷ [])))

-- Two filters that set the same fields.
pub record SetsSame (f g : Filter) : Type 0 where
  pub app : is_set f.app ≡ is_set g.app
  pub category : is_set f.category ≡ is_set g.category
  pub text : is_set f.text ≡ is_set g.text
  pub min_http : is_positive f.min_http ≡ is_positive g.min_http

add_if-texts :
    (b c : Bool) (text : Str) (args args' : List Value) (w w' : Where)
    → b ≡ c
    → w.texts ≡ w'.texts
    → (add_if b text args w).texts ≡ (add_if c text args' w').texts
add_if-texts true true text args args' w w' e h = ap (λ t. t ++ text ∷ []) h
add_if-texts true false text args args' w w' e h = cc
add_if-texts false true text args args' w w' e h = cc
add_if-texts false false text args args' w w' e h = h

-- The text of the statement of `Query` depends on which fields of the filter are set, never on what
-- they hold: what a user types does not reach it.
pub query_text-fixed :
    (f g : Filter)
    → SetsSame f g
    → query_text (filter_where f).texts ≡ query_text (filter_where g).texts
unfolding filter_where
query_text-fixed f g h =
    let none_yet : Where = record { texts = []; args = [] } in
    let app = λ (e : Filter). add_if (is_set e.app) app_text (text_value e.app ∷ []) none_yet in
    let category = λ (e : Filter).
      add_if (is_set e.category) category_text (text_value e.category ∷ []) (app e) in
    let like = λ (e : Filter). text_value (like_pattern e.text) in
    let text =
      λ (e : Filter). add_if (is_set e.text) like_text (like e ∷ like e ∷ []) (category e) in
    let e1 = add_if-texts _ _ app_text _ _ none_yet none_yet h.app refl in
    let e2 = add_if-texts _ _ category_text _ _ (app f) (app g) h.category e1 in
    let e3 = add_if-texts _ _ like_text _ _ (category f) (category g) h.text e2 in
    ap query_text (add_if-texts _ _ status_text _ _ (text f) (text g) h.min_http e3)
