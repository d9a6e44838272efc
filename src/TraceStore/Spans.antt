-- ===== src/TraceStore/Spans.antt =====
-- tools/aitori-gateway/tracestore/store.go: Event, Span, Filter, and the driver that a store works
-- with. A duration is the whole number of microseconds that the exporter divides by a thousand.
use mathlib.Core.Option.{Option, none, some}
use mathlib.Core.List.{List, [], ◌∷◌}
use aitori.Base.{◌>>=◌}
use aitori.Base.Int.{ℤ}
use aitori.Base.Text.{Str}

-- `Event`.
pub record Event : Type 0 where
  pub name : Str
  pub time_nano : ℤ
  pub attrs : List (Str × Str)

-- `Span`.
pub record Span : Type 0 where
  pub span_id : Str
  pub trace_id : Str
  pub parent_span_id : Str
  pub name : Str
  pub kind : Str
  pub start_nano : ℤ
  pub end_nano : ℤ
  pub duration_us : ℤ
  pub status_code : Str
  pub status_msg : Str
  pub app : Str
  pub category : Str
  pub http_method : Str
  pub http_url : Str
  pub http_status : ℤ
  pub attributes : List (Str × Str)
  pub events : List Event

-- `Filter`.
pub record Filter : Type 0 where
  pub app : Str
  pub category : Str
  pub text : Str
  pub min_http : ℤ
  pub limit : ℤ

-- An argument of a statement, or a column of a row. The real number is that of a duration.
pub data Value : Type 0 where
  text_value : Str → Value
  int_value : ℤ → Value
  real_value : ℤ → Value

-- The calls of database/sql and encoding/json. A statement that fails gives `none`; `scan_text`,
-- `scan_int` and `scan_real` are the conversions of `rows.Scan`. `read_attributes` and `read_events`
-- give what `json.Unmarshal` leaves in an empty field, its error being dropped.
pub record Driver (Db : Type 0) : Type 0 where
  pub exec : Str → List Value → Db → Option Db
  pub query : Str → List Value → Db → Option (List (List Value))
  pub scan_text : Value → Option Str
  pub scan_int : Value → Option ℤ
  pub scan_real : Value → Option ℤ
  pub write_attributes : List (Str × Str) → Str
  pub read_attributes : Str → List (Str × Str)
  pub write_events : List Event → Str
  pub read_events : Str → List Event

module _ {Db : Type 0} (d : Driver Db) where
  -- `rows.Scan` into a span, and the two fields that are kept as JSON.
  unfoldable pub scan_span : List Value → Option Span
  scan_span
        (c1 ∷ c2 ∷ c3 ∷ c4 ∷ c5 ∷ c6 ∷ c7 ∷ c8 ∷ c9 ∷ c10 ∷ c11 ∷ c12 ∷ c13 ∷ c14 ∷ c15 ∷ c16 ∷ c17
          ∷ []) =
      do
        span_id ← d.scan_text c1
        trace_id ← d.scan_text c2
        parent_span_id ← d.scan_text c3
        name ← d.scan_text c4
        kind ← d.scan_text c5
        start_nano ← d.scan_int c6
        end_nano ← d.scan_int c7
        duration_us ← d.scan_real c8
        status_code ← d.scan_text c9
        status_msg ← d.scan_text c10
        app ← d.scan_text c11
        category ← d.scan_text c12
        http_method ← d.scan_text c13
        http_url ← d.scan_text c14
        http_status ← d.scan_int c15
        attrs ← d.scan_text c16
        events ← d.scan_text c17
        some (record {
          span_id = span_id;
          trace_id = trace_id;
          parent_span_id = parent_span_id;
          name = name;
          kind = kind;
          start_nano = start_nano;
          end_nano = end_nano;
          duration_us = duration_us;
          status_code = status_code;
          status_msg = status_msg;
          app = app;
          category = category;
          http_method = http_method;
          http_url = http_url;
          http_status = http_status;
          attributes = d.read_attributes attrs;
          events = d.read_events events;
        })
  scan_span _ = none
