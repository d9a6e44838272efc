-- ===== src/TraceStore/Ui.antt =====
-- tools/aitori-gateway/tracestore/ui.go: what the handlers of the trace pages answer. Templates, the
-- format of times, `strconv.Atoi`, `sort.Strings` and `json.MarshalIndent` are parameters.
use Prim.Native.Nat.{zero, suc}
use mathlib.Core.Path.{◌≡◌, refl}
use mathlib.Core.Option.{Option, none, some}
use mathlib.Core.List.{List, [], ◌∷◌, ◌++◌, map}
use aitori.Base.{Bool, true, false, ◌&&◌, ◌||◌, ◌==◌, if◌then◌else◌, is_empty, length, drop, arith}
use aitori.Base.Int.{ℤ, pos, negsuc, int_leb}
use aitori.Base.Text.{Str, codes, has_prefix, trim_space}
use aitori.TraceStore.Spans.{Span, Filter, Driver}
use aitori.TraceStore.Store.{apps, categories, get, is_positive, is_set, query, trace}
use aitori.TraceStore.Exporter.{attr}
use aitori.TraceStore.Sql.{Row}
use aitori.TraceStore.Found.{matches}

-- The function `statusClass` of the templates.
unfoldable pub status_class : ℤ → Str
status_class code =
    if int_leb (pos 500) code
    then codes "err"
    else if int_leb (pos 400) code
    then codes "warn"
    else if int_leb (pos 1) code
    then codes "ok"
    else []

-- The function `nanoTime` of the templates.
abbrev pub nano_time : (ℤ → Str) → ℤ → Str
nano_time format (pos zero) = []
nano_time format (pos (suc n)) = format (pos (suc n))
nano_time format (negsuc n) = format (negsuc n)

starts_json : Str → Bool
starts_json [] = false
starts_json (c ∷ s) = c == b'{' || c == b'['

or_same : Str → Option Str → Str
or_same s none = s
or_same s (some t) = t

-- `prettyJSON`: `indent` parses a text and writes it again, unless it is no JSON.
unfoldable pub pretty_json : (Str → Option Str) → Str → Str
unfolding starts_json or_same trim_space
pretty_json indent s = let t = trim_space s in if starts_json t then or_same s (indent t) else s

-- `strings.TrimPrefix`.
unfoldable pub trim_prefix : Str → Str → Str
unfolding has_prefix
trim_prefix s prefix = if has_prefix s prefix then drop (length prefix) s else s

-- `listView`.
pub record ListView : Type 0 where
  pub prefix : Str
  pub filter : Filter
  pub apps : List Str
  pub categories : List Str
  pub spans : List Span
  pub trace_id : Str
  pub live : Bool

-- `detailView`.
pub record DetailView : Type 0 where
  pub prefix : Str
  pub span : Span
  pub attrs : List (Str × Str)

-- What a handler answers: status 500, status 404, or a page.
pub data Answer : Type 0 where
  failed : Answer
  not_found : Answer
  list_page : ListView → Answer
  detail_page : DetailView → Answer

abbrev no_filter : Filter
no_filter = record { app = []; category = []; text = []; min_http = pos 0; limit = pos 0 }

abbrev is_zero : ℤ → Bool
is_zero (pos n) = n == 0
is_zero (negsuc n) = false

-- `live` of `handleList`.
unfoldable pub is_live : Filter → Bool
is_live f = ((is_empty f.app && is_empty f.category) && is_empty f.text) && is_zero f.min_http

-- The filter of `handleList`, from the values of the request's query.
unfoldable pub list_filter : (Str → ℤ) → (Str → Str) → Filter
list_filter atoi value = record {
  app = value (codes "app");
  category = value (codes "category");
  text = value (codes "q");
  min_http = let s = value (codes "status") in if is_empty s then pos 0 else atoi s;
  limit = pos 0;
}

-- A list that could not be read is left empty.
or_nil : Option (List Str) → List Str
or_nil none = []
or_nil (some l) = l

module _ {Db : Type 0} (d : Driver Db) (prefix : Str) where
  listed : Filter → Db → Option (List Span) → Answer
  unfolding or_nil is_live
  listed f db none = failed
  listed f db (some spans) = list_page (record {
    prefix = prefix;
    filter = f;
    apps = or_nil (apps d db);
    categories = or_nil (categories d db);
    spans = spans;
    trace_id = [];
    live = is_live f;
  })

  -- `handleList`.
  unfoldable pub handle_list : (Str → ℤ) → (Str → Str) → Db → Answer
  unfolding listed list_filter query
  handle_list atoi value db = let f = list_filter atoi value in listed f db (query d f db)

  traced : Str → Option (List Span) → Answer
  traced id none = failed
  traced id (some spans) = list_page (record {
    prefix = prefix;
    filter = no_filter;
    apps = [];
    categories = [];
    spans = spans;
    trace_id = id;
    live = false;
  })

  -- `handleTrace`, on the path of the request.
  unfoldable pub handle_trace : Str → Db → Answer
  unfolding traced trim_prefix trace
  handle_trace path db =
      let id = trim_prefix path (prefix ++ codes "/trace/") in traced id (trace d id db)

  key_of : Str × Str → Str
  key_of (k, v) = k

  -- The attributes of a span, by their keys in order.
  unfoldable pub sorted_attrs : (List Str → List Str) → List (Str × Str) → List (Str × Str)
  unfolding key_of attr
  sorted_attrs sort attrs = map (λ k. (k, attr k attrs)) (sort (map key_of attrs))

  detailed : (List Str → List Str) → Option (Option Span) → Answer
  unfolding sorted_attrs
  detailed sort none = failed
  detailed sort (some none) = not_found
  detailed sort (some (some sp)) =
      detail_page (record { prefix = prefix; span = sp; attrs = sorted_attrs sort sp.attributes })

  -- `handleSpan`, on the path of the request.
  unfoldable pub handle_span : (List Str → List Str) → Str → Db → Answer
  unfolding detailed trim_prefix get
  handle_span sort path db = detailed sort (get d (trim_prefix path (prefix ++ codes "/span/")) db)

-- `streamRow`.
pub record StreamRow : Type 0 where
  pub span_id : Str
  pub trace_id : Str
  pub time : Str
  pub app : Str
  pub category : Str
  pub method : Str
  pub url : Str
  pub status : ℤ
  pub duration_us : ℤ

-- The row that `handleStream` sends for a span.
unfoldable pub stream_row : (ℤ → Str) → Span → StreamRow
stream_row format sp = record {
  span_id = sp.span_id;
  trace_id = sp.trace_id;
  time = format sp.start_nano;
  app = sp.app;
  category = sp.category;
  method = sp.http_method;
  url = sp.http_url;
  status = sp.http_status;
  duration_us = sp.duration_us;
}

-- What `handleStream` writes for a row: `encode` is `json.Marshal`, whose failure skips the row.
unfoldable pub stream_event : (StreamRow → Option Str) → (ℤ → Str) → Span → Str
unfolding stream_row
stream_event encode format sp = elim (encode (stream_row format sp)) [
  | none ↦ []
  | some payload ↦ codes "data: " ++ payload ++ 10 ∷ 10 ∷ []
]

unset : (s : Str) → is_empty s ≡ true → is_set s ≡ false
unset [] h = refl
unset (c ∷ s) h = cc

not_positive : (n : ℤ) → is_zero n ≡ true → is_positive n ≡ false
not_positive (pos zero) h = refl
not_positive (pos (suc n)) h = ground arith
not_positive (negsuc n) h = refl

-- A list page that is live shows every span: whatever its stream adds belongs on it.
pub is_live-matches : (f : Filter) (r : Row) → is_live f ≡ true → matches f r ≡ true
unfolding is_live matches
is_live-matches f r h =
    ground (arith, unset f.app, unset f.category, unset f.text, not_positive f.min_http)
