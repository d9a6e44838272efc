-- ===== src/TraceStore/Tests.antt =====
-- A small table as a database, and the theorems at it.
use Prim.Native.Nat.{ℕ}
use mathlib.Core.Path.{◌≡◌, refl, sym, ap, ◌∙◌}
use mathlib.Core.Option.{none, some}
use mathlib.Core.List.{List, [], ◌∷◌, ◌++◌, map, Pairwise-singleton}
use mathlib.Core.List.Perm
use aitori.Base.{here, there, Bool, true, arith, inr, take, drop, ◌≢◌, length}
use aitori.Base.Int.{pos}
use aitori.Base.Text.{Str, codes, count_byte, lower_byte, has_prefix, str_eq, contains, to_lower}
use aitori.TraceStore.Spans.{Span, Filter, int_value, Driver}
use aitori.TraceStore.Store.{
  Store, filter_where, get, insert, insert_args, new_store, query, query_text,
}
use aitori.TraceStore.Sql.{Row, cells, filter, span_of, IsPage, all_hold, holds}
use aitori.TraceStore.Found.{matches, conditions_of, IsLike, query-IsPage}
use aitori.TraceStore.Statements.{query_text-fixed, query_text-placeholders}
use aitori.TraceStore.Exporter.{IsExport, ReadOnlySpan, export_spans, export_spans-IsExport}
use aitori.TraceStore.Ui.{is_live, is_live-matches}
use aitori.TraceStore.Saved.{Offered, Has, IsKeyed, insert-get, row_of}
use aitori.TraceStore.Memory.{
  Table, row_from, replaced, as_text, as_int, as_real, first_value, in_memory, in_memory-Scans,
  in_memory-IsTable,
}

abbrev old_row : Row
old_row = record {
  span_id = codes "a1";
  trace_id = codes "t1";
  parent_span_id = [];
  name = codes "chat";
  kind = codes "client";
  start_unix_nano = pos 5;
  end_unix_nano = pos 9;
  duration_ms = pos 4;
  status_code = codes "Ok";
  status_msg = [];
  app = codes "cursor";
  category = codes "llm";
  http_method = codes "POST";
  http_url = codes "https://x/v1";
  http_status = pos 200;
  attributes_json = codes "cursor";
  events_json = [];
}

abbrev new_span : Span
new_span = record {
  span_id = codes "b2";
  trace_id = codes "t1";
  parent_span_id = codes "a1";
  name = codes "chat";
  kind = codes "client";
  start_nano = pos 7;
  end_nano = pos 8;
  duration_us = pos 1;
  status_code = codes "Error";
  status_msg = [];
  app = codes "cursor";
  category = codes "llm";
  http_method = codes "POST";
  http_url = codes "https://x/v1";
  http_status = pos 500;
  attributes = (codes "tfy.app", codes "cursor") ∷ [];
  events = [];
}

one_row-IsKeyed : IsKeyed (old_row ∷ [])
one_row-IsKeyed q r m n e = only q m ∙ sym (only r n)
  where
    none_left : (q : Row) → Has q [] → q ≡ old_row
    none_left q h = absurd (elim h [ ])

    only : (q : Row) → Has q (old_row ∷ []) → q ≡ old_row
    only q (here same) = sym same
    only q (there m) = none_left q m

abbrev store : Store Table
store = new_store (old_row ∷ [])

insert-get_example :
    ((insert in_memory new_span store).0 ≡ true)
    × ((get in_memory new_span.span_id (insert in_memory new_span store).1.db
          ≡ some (some new_span))
        × (((q : Row)
              → Has q store.db
              → q.span_id ≢ new_span.span_id
              → get in_memory q.span_id (insert in_memory new_span store).1.db
                ≡ some (some (span_of in_memory q)))
            × Offered new_span store.subs (insert in_memory new_span store).1.subs))
unfolding replaced row_from insert_args filter first_value str_eq row_of
insert-get_example =
    insert-get in_memory in_memory-Scans (λ db. db) in_memory-IsTable new_span store
      (row_of in_memory new_span ∷ old_row ∷ []) one_row-IsKeyed
      (record { attributes = refl; events = refl }) refl

drop_last : Str → Str
drop_last [] = []
drop_last (c ∷ []) = []
drop_last (c ∷ c' ∷ s) = c ∷ drop_last (c' ∷ s)

drop_last-snoc : (s : Str) (c : ℕ) → drop_last (s ++ c ∷ []) ≡ s
unfolding drop_last
drop_last-snoc [] c = refl
drop_last-snoc (a ∷ []) c = refl
drop_last-snoc (a ∷ b ∷ s) c = ap (λ t. a ∷ t) (drop_last-snoc (b ∷ s) c)

-- LIKE on a pattern between two `%` that has no other wildcard.
simple_like : Str → Str → Bool
unfolding drop_last
simple_like pattern s = contains (to_lower s) (to_lower (drop_last (drop 1 pattern)))

simple_like-IsLike : IsLike simple_like
unfolding simple_like
simple_like-IsLike text s p u =
    ap (λ t. contains (to_lower s) (to_lower t)) (drop_last-snoc text b'%')

-- The newest span of Cursor with `V1` in its URL or name and a status of at least 400.
abbrev errors : Filter
errors = record {
  app = codes "cursor";
  category = [];
  text = codes "V1";
  min_http = pos 400;
  limit = pos 1;
}

abbrev failed_row : Row
failed_row = record old_row { span_id = codes "c3"; http_status = pos 500 }

abbrev newest_row : Row
newest_row = record failed_row { span_id = codes "d4"; start_unix_nano = pos 8 }

abbrev spans : Table
spans = newest_row ∷ old_row ∷ failed_row ∷ []

abbrev newest_only : Driver Table
newest_only = record in_memory { query = λ text args db. some (map cells (take 1 db)) }

query-IsPage_example :
    (page : List Row) × ((query newest_only errors spans ≡ some (map (span_of newest_only) page))
      × IsPage (matches errors) 1 spans page)
unfolding conditions_of all_hold holds simple_like drop_last filter contains to_lower lower_byte
    str_eq has_prefix as_text as_int as_real
query-IsPage_example =
    query-IsPage newest_only (record { texts = λ s. refl; ints = λ n. refl; reals = λ n. refl })
      simple_like simple_like-IsLike errors spans spans (omega arith) (omega arith)
      (record {
        page = newest_row ∷ [];
        given = refl;
        is_page = record {
          rest = failed_row ∷ [];
          kept = Perm.rfl;
          ordered = Pairwise-singleton _ newest_row;
          newest = ((refl, tt), tt);
          size = omega arith;
          full = inr refl;
        };
      })

query_text-fixed_example :
    query_text (filter_where errors).texts
    ≡ query_text (filter_where (record errors { text = codes "' OR 1=1 --" })).texts
query_text-fixed_example =
    query_text-fixed errors (record errors { text = codes "' OR 1=1 --" })
      (record { app = refl; category = refl; text = refl; min_http = refl })

query_text-placeholders_example :
    count_byte b'?' (query_text (filter_where errors).texts)
    ≡ length ((filter_where errors).args ++ int_value (pos 1) ∷ [])
query_text-placeholders_example = query_text-placeholders errors

abbrev exported : ReadOnlySpan
exported = record {
  span_id = codes "b2";
  trace_id = codes "t1";
  parent = none;
  name = codes "chat";
  kind = codes "client";
  start_nano = pos 7;
  end_nano = pos 8;
  elapsed_us = pos 1;
  status_code = codes "Ok";
  description = [];
  attributes = (codes "tfy.app", codes "cursor") ∷ [];
  events = [];
}

export_spans-IsExport_example :
    IsExport
      (λ s. pos 0)
      in_memory
      (exported ∷ [])
      store
      (export_spans (λ s. pos 0) in_memory (exported ∷ []) store)
export_spans-IsExport_example = export_spans-IsExport (λ s. pos 0) in_memory (exported ∷ []) store

abbrev everything : Filter
everything = record { app = []; category = []; text = []; min_http = pos 0; limit = pos 0 }

everything-is_live : matches everything old_row ≡ true
unfolding is_live
everything-is_live = is_live-matches everything old_row refl
