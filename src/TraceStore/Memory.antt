-- ===== src/TraceStore/Memory.antt =====
-- The table of tracestore/store.go as a list in memory, which meets what is asked of a database.
use mathlib.Core.Path.{◌≡◌, refl, sym, ap, ◌∙◌}
use mathlib.Core.Option.{Option, none, some}
use mathlib.Core.List.{List, [], ◌∷◌, map}
use aitori.Base.{
  here, there, Bool, true, not, if◌then◌else◌, Bool-cases, inl, inr, ◌≢◌, ◌↔◌, ◌⊎◌, not_iff,
  some-injective,
}
use aitori.Base.Int.{ℤ}
use aitori.Base.Text.{Str, codes, str_eq, str_eq_iff, str_eq_refl}
use aitori.TraceStore.Spans.{Value, text_value, int_value, real_value, Driver}
use aitori.TraceStore.Sql.{Row, Scans, cells, filter}
use aitori.TraceStore.Saved.{Has, IsTable, by_id_text, replace_text}

-- A table in memory, newest row first.
abbrev pub Table : Type 0
Table = List Row

abbrev pub has_id : Str → Row → Bool
has_id id r = str_eq r.span_id id

abbrev pub lacks_id : Str → Row → Bool
lacks_id id r = not (str_eq r.span_id id)

unfoldable pub row_from : List Value → Option Row
row_from
      (text_value c1
        ∷ text_value c2
        ∷ text_value c3
        ∷ text_value c4
        ∷ text_value c5
        ∷ int_value c6
        ∷ int_value c7
        ∷ real_value c8
        ∷ text_value c9
        ∷ text_value c10
        ∷ text_value c11
        ∷ text_value c12
        ∷ text_value c13
        ∷ text_value c14
        ∷ int_value c15
        ∷ text_value c16
        ∷ text_value c17
        ∷ []) =
    some (record {
      span_id = c1;
      trace_id = c2;
      parent_span_id = c3;
      name = c4;
      kind = c5;
      start_unix_nano = c6;
      end_unix_nano = c7;
      duration_ms = c8;
      status_code = c9;
      status_msg = c10;
      app = c11;
      category = c12;
      http_method = c13;
      http_url = c14;
      http_status = c15;
      attributes_json = c16;
      events_json = c17;
    })
row_from _ = none

unfoldable pub replaced : Option Row → Table → Option Table
unfolding filter
replaced none db = none
replaced (some r) db = some (r ∷ filter (lacks_id r.span_id) db)

unfoldable pub found : Str → List Value → Table → Option (List (List Value))
unfolding cells filter
found text (text_value id ∷ []) db =
    if str_eq text by_id_text then some (map cells (filter (has_id id) db)) else some (map cells db)
found text args db = some (map cells db)

unfoldable pub as_text : Value → Option Str
as_text (text_value s) = some s
as_text v = none

unfoldable pub as_int : Value → Option ℤ
as_int (int_value n) = some n
as_int v = none

unfoldable pub as_real : Value → Option ℤ
as_real (real_value n) = some n
as_real v = none

unfoldable pub first_value : List (Str × Str) → Str
first_value [] = []
first_value ((k, v) ∷ m) = v

abbrev pub in_memory : Driver Table
in_memory = record {
  exec = λ text args db. replaced (row_from args) db;
  query = found;
  scan_text = as_text;
  scan_int = as_int;
  scan_real = as_real;
  write_attributes = first_value;
  read_attributes = λ s. (codes "tfy.app", s) ∷ [];
  write_events = λ events. [];
  read_events = λ s. [];
}

pub in_memory-Scans : Scans in_memory
unfolding as_text as_int as_real
in_memory-Scans = record { texts = λ s. refl; ints = λ n. refl; reals = λ n. refl }

module _ (p : Row → Bool) (q : Row) where
  Has-filter_sound : (l : Table) → Has q (filter p l) → Has q l × (p q ≡ true)
  unfolding filter
  Has-filter_sound [] h = absurd (elim h [ ])
  Has-filter_sound (r ∷ l) h =
      let rest = Has-filter_sound l in
      elim (Bool-cases (p r)) [
        | inl hit ↦ kept rest hit (rw hit at h)
        | inr miss ↦ later (rest (rw miss at h))
      ]
    where
      later : Has q l × (p q ≡ true) → Has q (r ∷ l) × (p q ≡ true)
      later (m, e) = (there m, e)

      kept :
          (Has q (filter p l) → Has q l × (p q ≡ true))
          → p r ≡ true
          → Has q (r ∷ filter p l)
          → Has q (r ∷ l) × (p q ≡ true)
      kept rest e (here same) = (here same, ap p (sym same) ∙ e)
      kept rest e (there m) = later (rest m)

  Has-filter_complete : (l : Table) → Has q l → p q ≡ true → Has q (filter p l)
  unfolding filter
  Has-filter_complete [] h e = absurd (elim h [ ])
  Has-filter_complete (r ∷ l) (here same) e = rw (ap p same ∙ e) (here same)
  Has-filter_complete (r ∷ l) (there m) e = elim (Bool-cases (p r)) [
    | inl hit ↦ rw hit (there (Has-filter_complete l m e))
    | inr miss ↦ rw miss (Has-filter_complete l m e)
  ]

lacks_id_iff : (id : Str) (r : Row) → (lacks_id id r ≡ true) ↔ (r.span_id ≢ id)
lacks_id_iff id r = not_iff (str_eq r.span_id id) (str_eq_iff r.span_id id)

pub in_memory-replaces :
    (r q : Row) (db db' : Table)
    → in_memory.exec replace_text (cells r) db ≡ some db'
    → Has q db' ↔ ((q ≡ r) ⊎ (Has q db × (q.span_id ≢ r.span_id)))
unfolding replaced row_from cells
in_memory-replaces r q db db' e = rw (sym (some-injective _ _ e)) (
  λ h. sound h,
  λ h. elim h [
    | inl same ↦ here (sym same)
    | inr (m, n) ↦
        there (Has-filter_complete (lacks_id r.span_id) q db m ((lacks_id_iff r.span_id q).1 n))
  ],
)
  where
    old : Has q (filter (lacks_id r.span_id) db) → Has q db × (q.span_id ≢ r.span_id)
    old m =
        let (n, p) = Has-filter_sound (lacks_id r.span_id) q db m in
        (n, (lacks_id_iff r.span_id q).0 p)

    sound :
        Has q (r ∷ filter (lacks_id r.span_id) db) → (q ≡ r) ⊎ (Has q db × (q.span_id ≢ r.span_id))
    sound (here same) = inl (sym same)
    sound (there m) = inr (old m)

pub in_memory-selects :
    (id : Str) (db : Table)
    → (page : List Row) × ((in_memory.query by_id_text (text_value id ∷ []) db
          ≡ some (map cells page))
        × ((q : Row) → Has q page ↔ (Has q db × (q.span_id ≡ id))))
unfolding found
in_memory-selects id db = (
  filter (has_id id) db,
  (
    rw (str_eq_refl by_id_text) refl,
    λ q. (
      λ m. let (n, p) = Has-filter_sound (has_id id) q db m in (n, (str_eq_iff q.span_id id).0 p),
      λ (m, e). Has-filter_complete (has_id id) q db m ((str_eq_iff q.span_id id).1 e),
    ),
  ),
)

pub in_memory-IsTable : IsTable in_memory (λ db. db)
in_memory-IsTable = record { replaces = in_memory-replaces; selects = in_memory-selects }
