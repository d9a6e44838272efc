-- ===== src/TraceStore/Sql.antt =====
-- What the database promises of the SELECT statements of tracestore/store.go: rows, conditions as
-- SQL writes and reads them, and the answers that a statement may get. LIKE is a parameter.
use Prim.Native.Nat.{ℕ, ◌≤◌}
use mathlib.Core.Path.{◌≡◌}
use mathlib.Core.Logic.{◌⊎◌}
use mathlib.Core.Option.{some}
use mathlib.Core.List.{List, [], ◌∷◌, ◌++◌, map, Perm, Pairwise}
use aitori.Base.{Bool, true, ◌&&◌, ◌||◌, if◌then◌else◌, length, All}
use aitori.Base.Int.{ℤ, pos, int_leb}
use aitori.Base.Text.{Str, codes, str_eq}
use aitori.TraceStore.Spans.{Span, Value, text_value, int_value, real_value, Driver, scan_span}

-- A row of the table `spans`.
pub record Row : Type 0 where
  pub span_id : Str
  pub trace_id : Str
  pub parent_span_id : Str
  pub name : Str
  pub kind : Str
  pub start_unix_nano : ℤ
  pub end_unix_nano : ℤ
  pub duration_ms : ℤ
  pub status_code : Str
  pub status_msg : Str
  pub app : Str
  pub category : Str
  pub http_method : Str
  pub http_url : Str
  pub http_status : ℤ
  pub attributes_json : Str
  pub events_json : Str

-- The columns of a row, in the order of the SELECT and of the INSERT.
unfoldable pub cells : Row → List Value
cells r =
    text_value r.span_id
    ∷ text_value r.trace_id
    ∷ text_value r.parent_span_id
    ∷ text_value r.name
    ∷ text_value r.kind
    ∷ int_value r.start_unix_nano
    ∷ int_value r.end_unix_nano
    ∷ real_value r.duration_ms
    ∷ text_value r.status_code
    ∷ text_value r.status_msg
    ∷ text_value r.app
    ∷ text_value r.category
    ∷ text_value r.http_method
    ∷ text_value r.http_url
    ∷ int_value r.http_status
    ∷ text_value r.attributes_json
    ∷ text_value r.events_json
    ∷ []

-- A condition of a WHERE clause.
pub data Condition : Type 0 where
  app_is : Str → Condition
  category_is : Str → Condition
  url_or_name_like : Str → Condition
  status_at_least : ℤ → Condition

abbrev pub condition_text : Condition → Str
condition_text (app_is v) = codes "app = ?"
condition_text (category_is v) = codes "category = ?"
condition_text (url_or_name_like v) = codes "(http_url LIKE ? OR name LIKE ?)"
condition_text (status_at_least n) = codes "http_status >= ?"

abbrev pub condition_args : Condition → List Value
condition_args (app_is v) = text_value v ∷ []
condition_args (category_is v) = text_value v ∷ []
condition_args (url_or_name_like v) = text_value v ∷ text_value v ∷ []
condition_args (status_at_least n) = int_value n ∷ []

unfoldable pub clause_args : List Condition → List Value
clause_args [] = []
clause_args (c ∷ cs) = condition_args c ++ clause_args cs

unfoldable pub conjunction : List Condition → Str
conjunction [] = []
conjunction (c ∷ []) = condition_text c
conjunction (c ∷ c' ∷ cs) = condition_text c ++ codes " AND " ++ conjunction (c' ∷ cs)

unfoldable pub where_clause : List Condition → Str
unfolding conjunction
where_clause [] = []
where_clause (c ∷ cs) = codes " WHERE " ++ conjunction (c ∷ cs)

-- The names of the columns, in the order of `cells`.
abbrev pub columns : Str
columns =
    codes "span_id, trace_id, parent_span_id, name, kind,"
    ++ 10 ∷ codes "  start_unix_nano, end_unix_nano, duration_ms, status_code, status_msg,"
    ++ 10
      ∷ codes "  app, category, http_method, http_url, http_status, attributes_json, events_json"

-- The statement that selects the rows on which all the conditions hold.
unfoldable pub select_text : List Condition → Str
unfolding where_clause
select_text cs =
    (codes "SELECT " ++ columns ++ codes " FROM spans")
    ++ where_clause cs
    ++ codes " ORDER BY start_unix_nano DESC LIMIT ?"

unfoldable pub filter : (Row → Bool) → List Row → List Row
filter p [] = []
filter p (r ∷ rows) = let rest = filter p rows in if p r then r ∷ rest else rest

-- `b` did not start after `a`.
abbrev pub IsNewer : Row → Row → Type 0
IsNewer a b = int_leb b.start_unix_nano a.start_unix_nano ≡ true

-- The rows of `table` that pass `p`, newest first, cut to `limit`: `rest` are those cut off.
pub record IsPage (p : Row → Bool) (limit : ℕ) (table page : List Row) : Type 0 where
  pub rest : List Row
  pub kept : Perm (page ++ rest) (filter p table)
  pub ordered : Pairwise IsNewer page
  pub newest : All (λ a. All (IsNewer a) rest) page
  pub size : length page ≤ limit
  pub full : (rest ≡ []) ⊎ (length page ≡ limit)

module _ (like : Str → Str → Bool) where
  -- What a condition says of a row; `like pattern text` is LIKE.
  unfoldable pub holds : Condition → Row → Bool
  holds (app_is v) r = str_eq r.app v
  holds (category_is v) r = str_eq r.category v
  holds (url_or_name_like v) r = like v r.http_url || like v r.name
  holds (status_at_least n) r = int_leb n r.http_status

  unfoldable pub all_hold : List Condition → Row → Bool
  unfolding holds
  all_hold [] r = true
  all_hold (c ∷ cs) r = holds c r && all_hold cs r

  -- The database answers the statement with the first `limit` of the rows that it selects.
  pub record Answers {Db : Type 0} (d : Driver Db) (db : Db) (table : List Row)
      (cs : List Condition) (limit : ℕ) : Type 0 where
    pub page : List Row
    pub given :
        d.query (select_text cs) (clause_args cs ++ int_value (pos limit) ∷ []) db
        ≡ some (map cells page)
    pub is_page : IsPage (all_hold cs) limit table page

-- `rows.Scan` gives back what the columns hold.
pub record Scans {Db : Type 0} (d : Driver Db) : Type 0 where
  pub texts : (s : Str) → d.scan_text (text_value s) ≡ some s
  pub ints : (n : ℤ) → d.scan_int (int_value n) ≡ some n
  pub reals : (n : ℤ) → d.scan_real (real_value n) ≡ some n

-- The span that a row holds.
unfoldable pub span_of : {Db : Type 0} → Driver Db → Row → Span
span_of d r = record {
  span_id = r.span_id;
  trace_id = r.trace_id;
  parent_span_id = r.parent_span_id;
  name = r.name;
  kind = r.kind;
  start_nano = r.start_unix_nano;
  end_nano = r.end_unix_nano;
  duration_us = r.duration_ms;
  status_code = r.status_code;
  status_msg = r.status_msg;
  app = r.app;
  category = r.category;
  http_method = r.http_method;
  http_url = r.http_url;
  http_status = r.http_status;
  attributes = d.read_attributes r.attributes_json;
  events = d.read_events r.events_json;
}

pub scan_span-cells :
    {Db : Type 0} (d : Driver Db) → Scans d → (r : Row) → scan_span d (cells r) ≡ some (span_of d r)
unfolding scan_span cells span_of
scan_span-cells d h r = simp (h.texts, h.ints, h.reals)
