-- ===== src/TraceStore/Exporter.antt =====
-- tools/aitori-gateway/tracestore/exporter.go: spans of OpenTelemetry become rows of the store. What
-- the code reads of a span of the SDK is a record; `strconv.Atoi` is a parameter.
use mathlib.Core.Path.{◌≡◌, refl, ap}
use mathlib.Core.Option.{Option, none, some}
use mathlib.Core.List.{List, [], ◌∷◌, ◌++◌, map}
use aitori.Base.{Bool, true, false, if◌then◌else◌, is_empty, Option-cases, inl, inr}
use aitori.Base.Dict.{lookup, put}
use aitori.Base.Int.{ℤ, pos}
use aitori.Base.Text.{Str, codes}
use aitori.TraceStore.Spans.{Event, Span, Driver}
use aitori.TraceStore.Store.{Store, insert, inserted, insert_args, insert_text, publish}

-- `sdktrace.ReadOnlySpan`, with identifiers, codes and values printed as the code prints them;
-- `parent` is there if it has a span id, `elapsed_us` is the time from start to end.
pub record ReadOnlySpan : Type 0 where
  pub span_id : Str
  pub trace_id : Str
  pub parent : Option Str
  pub name : Str
  pub kind : Str
  pub start_nano : ℤ
  pub end_nano : ℤ
  pub elapsed_us : ℤ
  pub status_code : Str
  pub description : Str
  pub attributes : List (Str × Str)
  pub events : List Event

-- `AttrApp`, `AttrCategory`, `AttrHTTPMethod`, `AttrURL`, `AttrHTTPStatus`.
abbrev pub attr_app : Str
attr_app = codes "tfy.app"

abbrev pub attr_category : Str
attr_category = codes "tfy.category"

abbrev pub attr_http_method : Str
attr_http_method = codes "http.request.method"

abbrev pub attr_url : Str
attr_url = codes "url.full"

abbrev pub attr_http_status : Str
attr_http_status = codes "http.response.status_code"

-- `for _, kv := range … { attrs[string(kv.Key)] = kv.Value.Emit() }`
unfoldable pub put_all : List (Str × Str) → List (Str × Str) → List (Str × Str)
put_all [] m = m
put_all ((k, v) ∷ kvs) m = put_all kvs (put k v m)

or_empty : Option Str → Str
or_empty none = []
or_empty (some v) = v

-- `attrs[key]`
unfoldable pub attr : Str → List (Str × Str) → Str
unfolding or_empty
attr key m = or_empty (lookup key m)

unfoldable pub event_of : Event → Event
unfolding put_all
event_of ev = record ev { attrs = put_all ev.attrs [] }

module _ (atoi : Str → ℤ) where
  -- `fromReadOnly`.
  unfoldable pub from_read_only : ReadOnlySpan → Span
  unfolding put_all attr or_empty event_of
  from_read_only ro =
      let attrs = put_all ro.attributes [] in
      let status = attr attr_http_status attrs in
      record {
        span_id = ro.span_id;
        trace_id = ro.trace_id;
        parent_span_id = or_empty ro.parent;
        name = ro.name;
        kind = ro.kind;
        start_nano = ro.start_nano;
        end_nano = ro.end_nano;
        duration_us = ro.elapsed_us;
        status_code = ro.status_code;
        status_msg = ro.description;
        app = attr attr_app attrs;
        category = attr attr_category attrs;
        http_method = attr attr_http_method attrs;
        http_url = attr attr_url attrs;
        http_status = if is_empty status then pos 0 else atoi status;
        attributes = attrs;
        events = map event_of ro.events;
      }

  module _ {Db : Type 0} (d : Driver Db) where
    -- `ExportSpans`: whether every span was inserted, and the store after it.
    unfoldable pub export_spans : List ReadOnlySpan → Store Db → Bool × Store Db
    unfolding from_read_only insert
    export_spans [] s = (true, s)
    export_spans (ro ∷ ros) s =
        let done = insert d (from_read_only ro) s in
        let rest = export_spans ros done.1 in if done.0 then rest else (false, done.1)

    -- The spans that the database took one after the other.
    pub data Saved : List ReadOnlySpan → Store Db → Store Db → Type 0 where
      saved_none : {s : Store Db} → Saved [] s s
      saved_one :
          {ro : ReadOnlySpan} {ros : List ReadOnlySpan} {s t : Store Db} {db : Db}
          → d.exec insert_text (insert_args d (from_read_only ro)) s.db ≡ some db
          → Saved ros (publish (from_read_only ro) (record s { db = db })) t
          → Saved (ro ∷ ros) s t

    -- How an export may end: with every span saved, or before a span that the database refuses.
    pub data IsExport : List ReadOnlySpan → Store Db → Bool × Store Db → Type 0 where
      all_saved :
          {ros : List ReadOnlySpan} {s t : Store Db} → Saved ros s t → IsExport ros s (true, t)
      stopped_at :
          {ros : List ReadOnlySpan} {s t : Store Db} (front back : List ReadOnlySpan)
          (ro : ReadOnlySpan)
          → ros ≡ front ++ ro ∷ back
          → Saved front s t
          → d.exec insert_text (insert_args d (from_read_only ro)) t.db ≡ none
          → IsExport ros s (false, t)

    also :
        {ro : ReadOnlySpan} {ros : List ReadOnlySpan} {s : Store Db} {db : Db} {r : Bool × Store Db}
        → d.exec insert_text (insert_args d (from_read_only ro)) s.db ≡ some db
        → IsExport ros (publish (from_read_only ro) (record s { db = db })) r
        → IsExport (ro ∷ ros) s r
    also e (all_saved h) = all_saved (saved_one e h)
    also {ro} e (stopped_at front back bad_one split h bad) =
        stopped_at (ro ∷ front) back bad_one (ap (λ l. ro ∷ l) split) (saved_one e h) bad

    -- An export saves the spans in order: all of them when it succeeds, and when it fails exactly
    -- those before the first one that the database refuses, the store being as they leave it.
    pub export_spans-IsExport :
        (ros : List ReadOnlySpan) (s : Store Db) → IsExport ros s (export_spans ros s)
    unfolding export_spans insert inserted
    export_spans-IsExport [] s = all_saved saved_none
    export_spans-IsExport (ro ∷ ros) s =
        let taken = d.exec insert_text (insert_args d (from_read_only ro)) s.db in
        elim (Option-cases taken) [
          | inl refused ↦ rw refused (stopped_at [] ros ro refl saved_none refused)
          | inr (db, e) ↦ rw e (also e (export_spans-IsExport ros _))
        ]
