-- ===== src/TraceStore/Found.antt =====
-- Which spans `Query` of tracestore/store.go returns.
use mathlib.Core.Path.{◌≡◌, refl, sym, ap, ap₂, ◌∙◌, fun_ext}
use mathlib.Core.Option.{some}
use mathlib.Core.List.{List, [], ◌∷◌, ◌++◌, map, map-append, append_assoc, append-nil}
use aitori.Base.{Bool, true, false, not, ◌&&◌, ◌||◌, if◌then◌else◌, arith}
use aitori.Base.Int.{int_leb, pos}
use aitori.Base.Text.{Str, codes, str_eq, to_lower, contains}
use aitori.Base.Text.Laws.{Lacks}
use aitori.TraceStore.Spans.{Filter, Value, int_value, Driver}
use aitori.TraceStore.Store.{
  Where, add_if, filter_where, is_set, is_positive, join, like_pattern, query, query_limit,
  query_rows, query_text, scan_all, select_cols,
}
use aitori.TraceStore.Sql.{
  Row, Condition, app_is, category_is, url_or_name_like, status_at_least, condition_text,
  condition_args, clause_args, conjunction, where_clause, select_text, holds, all_hold, IsPage,
  Answers, Scans, cells, span_of, scan_span-cells,
}

-- The filter on a row, as its fields are documented: an empty text and a minimum of at most zero
-- select everything, and the text is looked for in the URL and in the name, whatever its case.
unfoldable pub matches : Filter → Row → Bool
matches f r =
    (((not (is_set f.app) || str_eq r.app f.app)
        && (not (is_set f.category) || str_eq r.category f.category))
      && (not (is_set f.text)
          || (contains (to_lower r.http_url) (to_lower f.text)
              || contains (to_lower r.name) (to_lower f.text))))
    && (not (is_positive f.min_http) || int_leb f.min_http r.http_status)

abbrev pub only_if : Bool → Condition → List Condition
only_if b c = if b then c ∷ [] else []

-- The conditions that a filter stands for.
unfoldable pub conditions_of : Filter → List Condition
conditions_of f =
    ((only_if (is_set f.app) (app_is f.app) ++ only_if (is_set f.category) (category_is f.category))
      ++ only_if (is_set f.text) (url_or_name_like (like_pattern f.text)))
    ++ only_if (is_positive f.min_http) (status_at_least f.min_http)

-- What the code has gathered after these conditions.
abbrev pub gathered : List Condition → Where
gathered cs = record { texts = map condition_text cs; args = clause_args cs }

clause_args-append :
    (cs cs' : List Condition) → clause_args (cs ++ cs') ≡ clause_args cs ++ clause_args cs'
unfolding clause_args
clause_args-append [] cs' = refl
clause_args-append (c ∷ cs) cs' =
    rw (clause_args-append cs cs') (sym (append_assoc (condition_args c) _ _))

gathered-snoc :
    (cs : List Condition) (c : Condition)
    → gathered (cs ++ c ∷ []) ≡ record {
      texts = map condition_text cs ++ condition_text c ∷ [];
      args = clause_args cs ++ condition_args c;
    }
unfolding clause_args
gathered-snoc cs c =
    ap₂ (λ (t : List Str) (a : List Value). record { texts = t; args = a })
      (map-append condition_text cs (c ∷ []))
      (clause_args-append cs (c ∷ []) ∙ ap (λ a. clause_args cs ++ a) (append-nil _))

add_if-gathered :
    (b : Bool) (cs : List Condition) (c : Condition)
    → add_if b (condition_text c) (condition_args c) (gathered cs) ≡ gathered (cs ++ only_if b c)
add_if-gathered true cs c = sym (gathered-snoc cs c)
add_if-gathered false cs c = ap gathered (sym (append-nil cs))

pub filter_where_lem : (f : Filter) → filter_where f ≡ gathered (conditions_of f)
unfolding filter_where conditions_of clause_args
filter_where_lem f =
    let c1 = app_is f.app in
    let c2 = category_is f.category in
    let c3 = url_or_name_like (like_pattern f.text) in
    let c4 = status_at_least f.min_http in
    let cs1 = only_if (is_set f.app) c1 in
    let cs2 = cs1 ++ only_if (is_set f.category) c2 in
    let cs3 = cs2 ++ only_if (is_set f.text) c3 in
    let then_if =
      λ (b : Bool) (c : Condition) (w : Where). add_if b (condition_text c) (condition_args c) w in
    let w1 = add_if-gathered (is_set f.app) [] c1 in
    let w2 = ap (then_if (is_set f.category) c2) w1 ∙ add_if-gathered (is_set f.category) cs1 c2 in
    let w3 = ap (then_if (is_set f.text) c3) w2 ∙ add_if-gathered (is_set f.text) cs2 c3 in
    ap (then_if (is_positive f.min_http) c4) w3 ∙ add_if-gathered (is_positive f.min_http) cs3 c4

join-conjunction :
    (cs : List Condition) → join (codes " AND ") (map condition_text cs) ≡ conjunction cs
unfolding join conjunction
join-conjunction [] = refl
join-conjunction (c ∷ []) = refl
join-conjunction (c ∷ c' ∷ cs) =
    ap (λ s. condition_text c ++ codes " AND " ++ s) (join-conjunction (c' ∷ cs))

pub query_text_lem : (cs : List Condition) → query_text (map condition_text cs) ≡ select_text cs
unfolding query_text select_text where_clause
query_text_lem [] = refl
query_text_lem (c ∷ cs) =
    ap
      (λ s.
        (codes "SELECT " ++ select_cols ++ codes " FROM spans")
        ++ (codes " WHERE " ++ s)
        ++ codes " ORDER BY start_unix_nano DESC LIMIT ?")
      (join-conjunction (c ∷ cs))

-- A condition that is there only under a test.
all_hold-append :
    (like : Str → Str → Bool) (cs cs' : List Condition) (r : Row)
    → all_hold like (cs ++ cs') r ≡ (all_hold like cs r && all_hold like cs' r)
unfolding all_hold
all_hold-append like [] cs' r = refl
all_hold-append like (c ∷ cs) cs' r = ground (arith, all_hold-append like cs cs' r)

all_hold-only_if :
    (like : Str → Str → Bool) (b : Bool) (c : Condition) (r : Row)
    → all_hold like (only_if b c) r ≡ (not b || holds like c r)
unfolding all_hold
all_hold-only_if like true c r = ground arith
all_hold-only_if like false c r = refl

-- LIKE on a pattern without wildcards of its own, between two `%`: the text occurs, in any case.
abbrev pub IsLike : (Str → Str → Bool) → Type 0
IsLike like =
    (text s : Str)
    → Lacks b'%' text
    → Lacks b'_' text
    → like (like_pattern text) s ≡ contains (to_lower s) (to_lower text)

module _ (like : Str → Str → Bool) (is_like : IsLike like) where
  conditions_of-matches :
      (f : Filter) (r : Row)
      → Lacks b'%' f.text
      → Lacks b'_' f.text
      → all_hold like (conditions_of f) r ≡ matches f r
  unfolding conditions_of matches holds
  conditions_of-matches f r p u =
      simp (
        all_hold-append,
        all_hold-only_if,
        is_like f.text r.http_url p u,
        is_like f.text r.name p u,
      )

module _ {Db : Type 0} (d : Driver Db) (scans : Scans d) where
  scan_all-cells : (rows : List Row) → scan_all d (map cells rows) ≡ some (map (span_of d) rows)
  unfolding scan_all
  scan_all-cells [] = refl
  scan_all-cells (r ∷ rows) = rw (scan_span-cells d scans r) (rw (scan_all-cells rows))

  -- Rows that the database gives are the spans that the caller gets.
  pub query_rows-cells :
      (text : Str) (args : List Value) (db : Db) (page : List Row)
      → d.query text args db ≡ some (map cells page)
      → query_rows d text args db ≡ some (map (span_of d) page)
  unfolding query_rows
  query_rows-cells text args db page e = rw e (scan_all-cells page)

  -- For a filter whose text has no % and no _, with a LIKE that finds such a text in any case and a
  -- Scan that gives back what the columns hold: when the database answers the statement that the
  -- filter stands for, `Query` returns the spans of the table that match the filter, newest first, at most as many as the limit (200 if none is
  -- set), and leaves out only spans that are no newer, when there are more.
  pub query-IsPage :
      (like : Str → Str → Bool)
      → IsLike like
      → (f : Filter) (db : Db) (table : List Row) → Lacks b'%' f.text
      → Lacks b'_' f.text
      → Answers like d db table (conditions_of f) (query_limit f)
      → (page : List Row) × ((query d f db ≡ some (map (span_of d) page))
          × IsPage (matches f) (query_limit f) table page)
  unfolding query
  query-IsPage like is_like f db table p u a =
      let at_limit = λ (w : Where).
        query_rows d (query_text w.texts) (w.args ++ int_value (pos (query_limit f)) ∷ []) db in
      let same =
        ap at_limit (filter_where_lem f)
        ∙ ap
            (λ t.
              query_rows d t (clause_args (conditions_of f) ++ int_value (pos (query_limit f)) ∷ [])
                db)
            (query_text_lem (conditions_of f)) in
      let tests = fun_ext (λ r. conditions_of-matches like is_like f r p u) in
      (
        a.page,
        (
          same ∙ query_rows-cells (select_text (conditions_of f)) _ db a.page a.given,
          rw tests at a.is_page,
        ),
      )
