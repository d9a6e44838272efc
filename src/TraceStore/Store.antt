-- ===== src/TraceStore/Store.antt =====
-- tools/aitori-gateway/tracestore/store.go: the operations of Store. A failing call of the database
-- gives `none`; so do rows that cannot be scanned, or whose reading ends in an error, since the
-- callers look at the error first.
use Prim.Native.Nat.{ℕ, zero, suc}
use mathlib.Core.Option.{Option, none, some}
use mathlib.Core.List.{List, [], ◌∷◌, ◌++◌, map}
use aitori.Base.{Bool, true, false, is_empty, ltb, ◌==◌, length, if◌then◌else◌, ◌>>=◌}
use aitori.Base.Int.{ℤ, pos, negsuc, positive_or}
use aitori.Base.Text.{Str, codes}
use aitori.TraceStore.Spans.{
  Span, Filter, Value, text_value, int_value, real_value, Driver, scan_span,
}

-- A subscriber's channel, known by its number, with what waits in its buffer.
pub record Channel : Type 0 where
  pub id : ℕ
  pub queue : List Span

-- `Store`. Channels are numbered in the order in which they are made.
pub record Store (Db : Type 0) : Type 0 where
  pub db : Db
  pub subs : List Channel
  pub made : ℕ

-- `strings.Join`.
unfoldable pub join : Str → List Str → Str
join sep [] = []
join sep (a ∷ []) = a
join sep (a ∷ b ∷ rest) = a ++ sep ++ join sep (b ∷ rest)

-- `selectCols`.
abbrev pub select_cols : Str
select_cols =
    codes "span_id, trace_id, parent_span_id, name, kind,"
    ++ 10 ∷ codes "  start_unix_nano, end_unix_nano, duration_ms, status_code, status_msg,"
    ++ 10
      ∷ codes "  app, category, http_method, http_url, http_status, attributes_json, events_json"

-- The statement of `Insert`.
abbrev pub insert_text : Str
insert_text =
    10 ∷ codes "INSERT OR REPLACE INTO spans ("
    ++ 10 ∷ codes "  span_id, trace_id, parent_span_id, name, kind,"
    ++ 10 ∷ codes "  start_unix_nano, end_unix_nano, duration_ms, status_code, status_msg,"
    ++ 10
      ∷ codes "  app, category, http_method, http_url, http_status, attributes_json, events_json"
    ++ 10 ∷ codes ") VALUES (?,?,?,?,?,?,?,?,?,?,?,?,?,?,?,?,?)"

-- The buffer of `Subscribe`.
abbrev pub sub_buffer : ℕ
sub_buffer = 64

-- `select { case ch <- sp: default: }`
unfoldable pub send : Span → Channel → Channel
send sp ch =
    if ltb (length ch.queue) sub_buffer then record ch { queue = ch.queue ++ sp ∷ [] } else ch

unfoldable pub drop_channel : ℕ → List Channel → List Channel
drop_channel id [] = []
drop_channel id (ch ∷ chs) =
    let rest = drop_channel id chs in if ch.id == id then rest else ch ∷ rest

-- The conditions of a SELECT as the code gathers them: their texts, and the arguments so far.
pub record Where : Type 0 where
  pub texts : List Str
  pub args : List Value

-- `where = append(where, text); args = append(args, …)`, under the test on the filter's field.
abbrev pub add_if : Bool → Str → List Value → Where → Where
add_if b text args w =
    if b then record { texts = w.texts ++ text ∷ []; args = w.args ++ args } else w

abbrev pub app_text : Str
app_text = codes "app = ?"

abbrev pub category_text : Str
category_text = codes "category = ?"

abbrev pub like_text : Str
like_text = codes "(http_url LIKE ? OR name LIKE ?)"

abbrev pub status_text : Str
status_text = codes "http_status >= ?"

-- `n > 0`
abbrev pub is_positive : ℤ → Bool
is_positive (pos zero) = false
is_positive (pos (suc n)) = true
is_positive (negsuc n) = false

-- `s != ""`
abbrev pub is_set : Str → Bool
is_set [] = false
is_set (c ∷ s) = true

-- `"%" + f.Text + "%"`
abbrev pub like_pattern : Str → Str
like_pattern text = b'%' ∷ text ++ b'%' ∷ []

-- `Query`, as far as the conditions.
unfoldable pub filter_where : Filter → Where
filter_where f =
    let none_yet : Where = record { texts = []; args = [] } in
    let w1 = add_if (is_set f.app) app_text (text_value f.app ∷ []) none_yet in
    let w2 = add_if (is_set f.category) category_text (text_value f.category ∷ []) w1 in
    let like = text_value (like_pattern f.text) in
    let w3 = add_if (is_set f.text) like_text (like ∷ like ∷ []) w2 in
    add_if (is_positive f.min_http) status_text (int_value f.min_http ∷ []) w3

-- `Query`: the text of the statement.
unfoldable pub query_text : List Str → Str
unfolding join
query_text texts =
    let filtered = codes " WHERE " ++ join (codes " AND ") texts in
    (codes "SELECT " ++ select_cols ++ codes " FROM spans")
    ++ (if is_empty texts then [] else filtered)
    ++ codes " ORDER BY start_unix_nano DESC LIMIT ?"

-- `Query`: the limit.
abbrev pub query_limit : Filter → ℕ
query_limit f = positive_or 200 f.limit

-- `rows[0]`, if there is one.
abbrev pub first_span : List Span → Option Span
first_span [] = none
first_span (sp ∷ rest) = some sp

module _ {Db : Type 0} (d : Driver Db) where
  unfoldable pub scan_all : List (List Value) → Option (List Span)
  unfolding scan_span
  scan_all [] = some []
  scan_all (row ∷ rows) =
      let rest = scan_all rows in do sp ← scan_span d row; spans ← rest; some (sp ∷ spans)

  -- `queryRows`.
  unfoldable pub query_rows : Str → List Value → Db → Option (List Span)
  unfolding scan_all
  query_rows text args db = do rows ← d.query text args db; scan_all rows

  -- `Query`.
  unfoldable pub query : Filter → Db → Option (List Span)
  unfolding query_rows query_text filter_where
  query f db =
      let w = filter_where f in
      query_rows (query_text w.texts) (w.args ++ int_value (pos (query_limit f)) ∷ []) db

  -- `Trace`.
  unfoldable pub trace : Str → Db → Option (List Span)
  unfolding query_rows
  trace trace_id db =
      query_rows
        (codes "SELECT "
          ++ select_cols
          ++ codes " FROM spans WHERE trace_id = ? ORDER BY start_unix_nano ASC")
        (text_value trace_id ∷ []) db

  -- `Get`: no span of that id is `some none`.
  unfoldable pub get : Str → Db → Option (Option Span)
  unfolding query_rows
  get span_id db = do
    rows ←
        query_rows (codes "SELECT " ++ select_cols ++ codes " FROM spans WHERE span_id = ?")
          (text_value span_id ∷ []) db
    some (first_span rows)

  scan_texts : List (List Value) → Option (List Str)
  scan_texts [] = some []
  scan_texts ((c ∷ []) ∷ rows) =
      let rest = scan_texts rows in do v ← d.scan_text c; out ← rest; some (v ∷ out)
  scan_texts (_ ∷ rows) = none

  -- `distinct`.
  unfoldable pub distinct : Str → Db → Option (List Str)
  unfolding scan_texts
  distinct col db = do
    rows ←
        d.query
          (codes "SELECT DISTINCT "
            ++ col
            ++ codes " FROM spans WHERE "
            ++ col
            ++ codes " <> '' ORDER BY "
            ++ col)
          [] db
    scan_texts rows

  -- `Apps`.
  unfoldable pub apps : Db → Option (List Str)
  unfolding distinct
  apps = distinct (codes "app")

  -- `Categories`.
  unfoldable pub categories : Db → Option (List Str)
  unfolding distinct
  categories = distinct (codes "category")

  -- The arguments of `Insert`.
  unfoldable pub insert_args : Span → List Value
  insert_args sp =
      text_value sp.span_id
      ∷ text_value sp.trace_id
      ∷ text_value sp.parent_span_id
      ∷ text_value sp.name
      ∷ text_value sp.kind
      ∷ int_value sp.start_nano
      ∷ int_value sp.end_nano
      ∷ real_value sp.duration_us
      ∷ text_value sp.status_code
      ∷ text_value sp.status_msg
      ∷ text_value sp.app
      ∷ text_value sp.category
      ∷ text_value sp.http_method
      ∷ text_value sp.http_url
      ∷ int_value sp.http_status
      ∷ text_value (d.write_attributes sp.attributes)
      ∷ text_value (d.write_events sp.events)
      ∷ []

-- `Open`, once the schema is there.
abbrev pub new_store : {Db : Type 0} → Db → Store Db
new_store db = record { db = db; subs = []; made = 0 }

module _ {Db : Type 0} where
  -- `Subscribe`: the number of the new channel.
  abbrev pub subscribe : Store Db → Store Db × ℕ
  subscribe s =
      (record s { subs = record { id = s.made; queue = [] } ∷ s.subs; made = suc s.made }, s.made)

  -- The function that `Subscribe` gives to end the subscription.
  unfoldable pub cancel : ℕ → Store Db → Store Db
  unfolding drop_channel
  cancel id s = record s { subs = drop_channel id s.subs }

  -- `publish`.
  unfoldable pub publish : Span → Store Db → Store Db
  unfolding send
  publish sp s = record s { subs = map (send sp) s.subs }

  unfoldable pub inserted : Span → Store Db → Option Db → Bool × Store Db
  unfolding publish
  inserted sp s none = (false, s)
  inserted sp s (some db) = (true, publish sp (record s { db = db }))

  -- `Insert`: whether it succeeded, and the store after it.
  unfoldable pub insert : Driver Db → Span → Store Db → Bool × Store Db
  unfolding inserted insert_args
  insert d sp s = inserted sp s (d.exec insert_text (insert_args d sp) s.db)
