-- ===== src/TraceStore/Saved.antt =====
-- What comes of `Insert` of tracestore/store.go: the span is found again by its id, the other spans
-- stay, and every subscriber with room is sent it.
use mathlib.Core.Path.{◌≡◌, refl, sym, ap, ap₂, ◌∙◌}
use mathlib.Core.Option.{some}
use mathlib.Core.List.{List, [], ◌∷◌, ◌++◌, map}
use aitori.Base.{◌<◌, ◌≤◌, length, arith, Exists, here, true, inl, inr, ◌≢◌, ◌↔◌, ◌⊎◌}
use aitori.Base.Text.{Str, codes}
use aitori.TraceStore.Spans.{Event, Span, text_value, Driver}
use aitori.TraceStore.Store.{
  Channel, Store, get, first_span, insert, inserted, insert_args, insert_text, publish, send,
}
use aitori.TraceStore.Sql.{Row, Scans, cells, columns, span_of}
use aitori.TraceStore.Found.{query_rows-cells}

-- The statement that puts a row in, in place of the row of its id.
abbrev pub replace_text : Str
replace_text =
    10 ∷ codes "INSERT OR REPLACE INTO spans ("
    ++ 10 ∷ codes "  span_id, trace_id, parent_span_id, name, kind,"
    ++ 10 ∷ codes "  start_unix_nano, end_unix_nano, duration_ms, status_code, status_msg,"
    ++ 10
      ∷ codes "  app, category, http_method, http_url, http_status, attributes_json, events_json"
    ++ 10 ∷ codes ") VALUES (?,?,?,?,?,?,?,?,?,?,?,?,?,?,?,?,?)"

abbrev pub by_id_text : Str
by_id_text = codes "SELECT " ++ columns ++ codes " FROM spans WHERE span_id = ?"

-- `q` is one of the rows.
abbrev pub Has : Row → List Row → Type 0
Has q = Exists (λ r. r ≡ q)

-- The two statements on the table, whose rows a database gives in any order. `replaces`: after it
-- the table holds the row and the old rows of other ids. `selects`: all rows of the id.
pub record IsTable {Db : Type 0} (d : Driver Db) (rows : Db → List Row) : Type 0 where
  pub replaces :
      (r q : Row) (db db' : Db)
      → d.exec replace_text (cells r) db ≡ some db'
      → Has q (rows db') ↔ ((q ≡ r) ⊎ (Has q (rows db) × (q.span_id ≢ r.span_id)))
  pub selects :
      (id : Str) (db : Db)
      → (page : List Row) × ((d.query by_id_text (text_value id ∷ []) db ≡ some (map cells page))
          × ((q : Row) → Has q page ↔ (Has q (rows db) × (q.span_id ≡ id))))

-- The row of a span.
unfoldable pub row_of : {Db : Type 0} → Driver Db → Span → Row
row_of d sp = record {
  span_id = sp.span_id;
  trace_id = sp.trace_id;
  parent_span_id = sp.parent_span_id;
  name = sp.name;
  kind = sp.kind;
  start_unix_nano = sp.start_nano;
  end_unix_nano = sp.end_nano;
  duration_ms = sp.duration_us;
  status_code = sp.status_code;
  status_msg = sp.status_msg;
  app = sp.app;
  category = sp.category;
  http_method = sp.http_method;
  http_url = sp.http_url;
  http_status = sp.http_status;
  attributes_json = d.write_attributes sp.attributes;
  events_json = d.write_events sp.events;
}

-- The JSON of the span is read back as what was written.
pub record ReadsBack {Db : Type 0} (d : Driver Db) (sp : Span) : Type 0 where
  pub attributes : d.read_attributes (d.write_attributes sp.attributes) ≡ sp.attributes
  pub events : d.read_events (d.write_events sp.events) ≡ sp.events

span_of-row_of :
    {Db : Type 0} (d : Driver Db) (sp : Span) → ReadsBack d sp → span_of d (row_of d sp) ≡ sp
unfolding span_of row_of
span_of-row_of d sp h =
    ap₂ (λ (a : List (Str × Str)) (e : List Event). record sp { attributes = a; events = e })
      h.attributes h.events

first_span-only :
    {Db : Type 0} (d : Driver Db) (page : List Row) (r : Row)
    → Has r page
    → ((q : Row) → Has q page → q ≡ r)
    → first_span (map (span_of d) page) ≡ some (span_of d r)
first_span-only d [] r m only = absurd (elim m [ ])
first_span-only d (q ∷ page) r m only = ap (λ x. some (span_of d x)) (only q (here refl))

-- The primary key: no two rows of one id.
abbrev pub IsKeyed : List Row → Type 0
IsKeyed l = (q r : Row) → Has q l → Has r l → q.span_id ≡ r.span_id → q ≡ r

-- What each subscriber has after the span was offered to all: `after` holds the same channels in the
-- same order, each with the span behind what it held if that were fewer than 64 spans, and as it was if not.
abbrev pub Offered : Span → List Channel → List Channel → Type 0
Offered sp [] [] = Unit
Offered sp [] (c ∷ after) = ⊥
Offered sp (b ∷ before) [] = ⊥
Offered sp (b ∷ before) (c ∷ after) =
    ((length b.queue < 64 → c ≡ record b { queue = b.queue ++ sp ∷ [] })
      × (64 ≤ length b.queue → c ≡ b))
    × Offered sp before after

send-Offered : (sp : Span) (chs : List Channel) → Offered sp chs (map (send sp) chs)
unfolding send
send-Offered sp [] = tt
send-Offered sp (ch ∷ chs) = ((λ h. ground arith, λ h. ground arith), send-Offered sp chs)

module _ {Db : Type 0} (d : Driver Db) (scans : Scans d) (rows : Db → List Row)
    (table : IsTable d rows) where
  -- The only row of an id is what `Get` finds.
  get-only :
      (db : Db) (r : Row)
      → Has r (rows db)
      → ((q : Row) → Has q (rows db) → q.span_id ≡ r.span_id → q ≡ r)
      → get d r.span_id db ≡ some (some (span_of d r))
  unfolding get
  get-only db r m only =
      let (page, (e, ids)) = table.selects r.span_id db in
      let spans = query_rows-cells d scans by_id_text (text_value r.span_id ∷ []) db page e in
      let first =
        first_span-only d page r ((ids r).1 (m, refl))
          (λ q n. only q ((ids q).0 n).0 ((ids q).0 n).1) in
      rw spans (ap some first)

  module _ (sp : Span) (db db' : Db) (e : d.exec insert_text (insert_args d sp) db ≡ some db') where
    holds :
        (q : Row)
        → Has q (rows db') ↔ ((q ≡ row_of d sp) ⊎ (Has q (rows db) × (q.span_id ≢ sp.span_id)))
    unfolding row_of insert_args cells
    holds q = table.replaces (row_of d sp) q db db' e

    get-inserted : ReadsBack d sp → get d sp.span_id db' ≡ some (some sp)
    unfolding row_of
    get-inserted back =
        get-only db' (row_of d sp) ((holds (row_of d sp)).1 (inl refl)) (λ q m same.
          elim ((holds q).0 m) [ inl is ↦ is | inr (old, other) ↦ absurd (other same) ])
        ∙ ap (λ x. some (some x)) (span_of-row_of d sp back)

    get-kept :
        IsKeyed (rows db)
        → (q : Row) → Has q (rows db)
        → q.span_id ≢ sp.span_id
        → get d q.span_id db' ≡ some (some (span_of d q))
    unfolding row_of
    get-kept key q m other = get-only db' q ((holds q).1 (inr (m, other))) (λ r n same.
        elim ((holds r).0 n) [
          | inl is ↦ absurd (other (sym same ∙ ap (λ (x : Row). x.span_id) is))
          | inr (old, apart) ↦ key r q old m same
        ])

  -- On a table without two rows of one id, with a Scan that gives back what the columns hold and
  -- JSON of the span that is read back as it was, an insertion that the database takes succeeds:
  -- `Get` then gives the span of that id exactly as it was inserted, and those of the other ids as
  -- their rows were; each subscriber whose buffer held fewer than 64 spans has it behind them, and
  -- the others have what they had.
  pub insert-get :
      (sp : Span) (s : Store Db) (db' : Db)
      → IsKeyed (rows s.db)
      → ReadsBack d sp
      → d.exec insert_text (insert_args d sp) s.db ≡ some db'
      → ((insert d sp s).0 ≡ true)
        × ((get d sp.span_id (insert d sp s).1.db ≡ some (some sp))
            × (((q : Row)
                  → Has q (rows s.db)
                  → q.span_id ≢ sp.span_id
                  → get d q.span_id (insert d sp s).1.db ≡ some (some (span_of d q)))
                × Offered sp s.subs (insert d sp s).1.subs))
  unfolding insert inserted publish
  insert-get sp s db' key back e = rw e (
    refl,
    (get-inserted sp s.db db' e back, (get-kept sp s.db db' e key, send-Offered sp s.subs)),
  )
