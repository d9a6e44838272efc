-- ===== src/Token/Follows.antt =====
-- What the source knows of the token file.
use mathlib.Core.Path.{◌≡◌, refl, sym, ap, ◌∙◌}
use mathlib.Core.Option.{Option, some}
use mathlib.Core.List.{List, [], ◌∷◌, ◌++◌}
use aitori.Base.{Bool, true, false, not, ◌||◌, All, some-injective, if◌then◌else◌}
use aitori.Base.Text.{Str, str_eq}
use aitori.Token.{Event, FileSource, new_file_source, parse, reload, watch, watch_all}

module _ (clean : Str → Str) where
  -- The event is none of the token file's.
  abbrev pub IsOther : Str → Event → Type 0
  IsOther path ev = str_eq (clean ev.name) path ≡ false

  watch-other : (ev : Event) (fs : FileSource) → IsOther fs.path ev → watch clean ev fs ≡ fs
  unfolding watch
  watch-other ev fs other = rw other (either (not fs.watching || fs.done))
    where
      either : (b : Bool) → (if b then fs else fs) ≡ fs
      either true = refl
      either false = refl

  watch_all-other :
      (evs : List Event) (fs : FileSource) → All (IsOther fs.path) evs → watch_all clean evs fs ≡ fs
  unfolding watch_all
  watch_all-other [] fs others = refl
  watch_all-other (ev ∷ evs) fs (other, others) =
      rw (watch-other ev fs other) (watch_all-other evs fs others)

  watch-own :
      (ev : Event) (fs : FileSource)
      → fs.watching ≡ true
      → fs.done ≡ false
      → str_eq (clean ev.name) fs.path ≡ true
      → watch clean ev fs ≡ reload ev.file fs
  unfolding watch
  watch-own ev fs w d own =
      let read : Bool → FileSource = λ b. if b then reload ev.file fs else fs in
      let own_name = str_eq (clean ev.name) fs.path in
      ap (λ b. if not b || fs.done then fs else read own_name) w
      ∙ ap (λ b. if b then fs else read own_name) d
      ∙ ap read own

  watch-blind : (ev : Event) (fs : FileSource) → fs.watching ≡ false → watch clean ev fs ≡ fs
  unfolding watch
  watch-blind ev fs w =
      let own_name = str_eq (clean ev.name) fs.path in
      ap (λ b. if not b || fs.done then fs else if own_name then reload ev.file fs else fs) w

  -- What an event leaves alone.
  record IsSame (fs after : FileSource) : Type 0 where
    pub path : after.path ≡ fs.path
    pub watching : after.watching ≡ fs.watching
    pub done : after.done ≡ fs.done

  watch-IsSame : (ev : Event) (fs : FileSource) → IsSame fs (watch clean ev fs)
  unfolding watch reload
  watch-IsSame ev fs = go (not fs.watching || fs.done) (str_eq (clean ev.name) fs.path)
    where
      go :
          (a b : Bool)
          → IsSame fs (if a then fs else if b then record fs { token = parse ev.file } else fs)
      go true b = record { path = refl; watching = refl; done = refl }
      go false true = record { path = refl; watching = refl; done = refl }
      go false false = record { path = refl; watching = refl; done = refl }

  -- A source that watches, and is not closed, has the token that the file held at its last event,
  -- less white space around it, however many events there were before and whatever happens to
  -- other files afterwards.
  pub watch_all-last :
      (before : List Event) (ev : Event) (later : List Event) (fs : FileSource)
      → fs.watching ≡ true
      → fs.done ≡ false
      → str_eq (clean ev.name) fs.path ≡ true
      → All (IsOther fs.path) later
      → (watch_all clean (before ++ ev ∷ later) fs).token ≡ parse ev.file
  unfolding watch_all reload
  watch_all-last [] ev later fs w d own others =
      ap (λ s. (watch_all clean later s).token) (watch-own ev fs w d own)
      ∙ ap (λ s. s.token) (watch_all-other later (reload ev.file fs) others)
  watch_all-last (e ∷ before) ev later fs w d own others =
      let same = watch-IsSame e fs in
      watch_all-last before ev later (watch clean e fs) (same.watching ∙ w) (same.done ∙ d)
        (rw same.path own) (rw same.path others)

  watch_all-blind :
      (evs : List Event) (fs : FileSource) → fs.watching ≡ false → watch_all clean evs fs ≡ fs
  unfolding watch_all
  watch_all-blind [] fs w = refl
  watch_all-blind (ev ∷ evs) fs w =
      ap (watch_all clean evs) (watch-blind ev fs w) ∙ watch_all-blind evs fs w

  -- A source whose directory could not be watched when it was made keeps the token that it read then,
  -- whatever happens to the file.
  pub watch_all-unwatched :
      (path : Str) (file : Option Str) (fs : FileSource) (evs : List Event)
      → new_file_source clean path file true false ≡ some fs
      → (watch_all clean evs fs).token ≡ parse file
  unfolding new_file_source reload
  watch_all-unwatched path file fs evs e =
      let made : FileSource = record {
        path = clean path;
        token = parse file;
        watching = false;
        done = false;
      } in
      let same : made ≡ fs = some-injective _ _ e in
      rw (sym same) (ap (λ s. s.token) (watch_all-blind evs made refl))
