-- ===== src/ClientCfg/Faults.antt =====
-- What stays when an inject fails, and what goes with a file that an inject has made.
use mathlib.Core.Option.{Option, none, some}
use mathlib.Core.List.{List, []}
use aitori.Base.{
  Bool-cases, inl, inr, ◌⊎◌, ap, ◌≡◌, refl, sym, ◌∙◌, ◌≢◌, Bool, true, false, if◌then◌else◌,
}
use aitori.Base.Dict.{
  lookup, put, lookup-put_self, lookup-put_other, lookup-remove_self, lookup-remove_other,
}
use aitori.Base.Text.{Str}
use aitori.ClientCfg.{
  Backup, Codec, IsLawful, Fault, Fields, Disk, map_field, ReadResult, failed, done, read_text,
  assign, read_json_object, left_with, write, remove_file, write_fields, is_there, first_backup,
  keep_backup, inject_env, inject_read, inject_at, revert_at,
}

module _ (C : Codec) (unreadable unwritable unremovable : Str → Bool)
    (torn : Str → Option C.Text → Option C.Text) (path backup : Str) (apart : path ≢ backup) where
  -- The settings file holds what it held.
  abbrev Keeps : Disk C → Disk C → Type 0
  Keeps d d' = lookup path d' ≡ lookup path d

  lookup-left_with :
      (o : Option C.Text) (d : Disk C)
      → lookup path (left_with C unreadable unwritable unremovable torn path o d) ≡ o
  unfolding left_with
  lookup-left_with none d = lookup-remove_self path d
  lookup-left_with (some t) d = lookup-put_self path t d

  left_with-Keeps :
      (o : Option C.Text) (d : Disk C)
      → Keeps d (left_with C unreadable unwritable unremovable torn backup o d)
  unfolding left_with
  left_with-Keeps none d = lookup-remove_other backup path d (λ e. apart (sym e))
  left_with-Keeps (some t) d = lookup-put_other backup path t d (λ e. apart (sym e))

  -- The settings file holds what a failed write to it leaves.
  abbrev Tears : Disk C → Disk C → Type 0
  Tears d d' = (unwritable path ≡ true) × (lookup path d' ≡ torn path (lookup path d))

  abbrev Result : Type 0
  Result = Disk C × Option Fault

  pick-Keeps :
      (d : Disk C) (b : Bool) (x y : Result)
      → Keeps d x.0
      → Keeps d y.0
      → Keeps d (if b then x else y).0
  pick-Keeps d true x y h k = h
  pick-Keeps d false x y h k = k

  write_backup-Keeps :
      (t : C.Text) (d : Disk C)
      → Keeps d (write C unreadable unwritable unremovable torn backup t d).0
  unfolding write
  write_backup-Keeps t d =
      pick-Keeps d (unwritable backup) _ _ (left_with-Keeps (torn backup (lookup backup d)) d)
        (lookup-put_other backup path t d (λ e. apart (sym e)))

  keep_backup-Keeps :
      (existed : Bool) (env : Fields C × Bool) (d : Disk C)
      → Keeps d (keep_backup C unreadable unwritable unremovable torn path backup existed env d).0
  unfolding keep_backup
  keep_backup-Keeps existed env d =
      pick-Keeps d (is_there C unreadable unwritable unremovable torn (lookup backup d)) _ _ refl
        (write_backup-Keeps _ d)

  -- A result that is a fault has kept the file, or broken off its write.
  abbrev KeepsOnFault : Disk C → Result → Type 0
  KeepsOnFault d r = (e : Fault) → r.1 ≡ some e → Keeps d r.0 ⊎ Tears d r.0

  write_settings-KeepsOnFault :
      (t : C.Text) (d d' : Disk C)
      → Keeps d d'
      → KeepsOnFault d (write C unreadable unwritable unremovable torn path t d')
  unfolding write
  write_settings-KeepsOnFault t d d' k e = elim (Bool-cases (unwritable path)) [
    | inl bad ↦
        rw bad
          (λ h. inr (refl, lookup-left_with (torn path (lookup path d')) d' ∙ ap (torn path) k))
    | inr good ↦ rw good (λ h. cc)
  ]

  write_fields-KeepsOnFault :
      (obj : Option (Option (Fields C))) (d d' : Disk C)
      → Keeps d d'
      → KeepsOnFault d (write_fields C unreadable unwritable unremovable torn path obj d')
  unfolding write_fields
  write_fields-KeepsOnFault none d d' k = λ e h. inl k
  write_fields-KeepsOnFault (some none) d d' k = write_settings-KeepsOnFault C.null d d' k
  write_fields-KeepsOnFault (some (some obj)) d d' k =
      write_settings-KeepsOnFault (C.marshal obj) d d' k

  inject_env-KeepsOnFault :
      (want : List (Str × Str)) (obj : Option (Fields C)) (env : Fields C) (d : Disk C) (r : Result)
      → Keeps d r.0
      → KeepsOnFault d (inject_env C unreadable unwritable unremovable torn path want obj env r)
  unfolding inject_env
  inject_env-KeepsOnFault want obj env d (d', some f) k = λ e h. inl k
  inject_env-KeepsOnFault want obj env d (d', none) k = write_fields-KeepsOnFault _ d d' k

  inject_read-KeepsOnFault :
      (want : List (Str × Str)) (r : ReadResult C) (d : Disk C)
      → KeepsOnFault d (inject_read C unreadable unwritable unremovable torn path backup want r d)
  unfolding inject_read
  inject_read-KeepsOnFault want (failed f) d = λ e h. inl refl
  inject_read-KeepsOnFault want (done obj existed) d =
      inject_env-KeepsOnFault want obj _ d _ (keep_backup-Keeps existed _ d)

  -- An inject that fails leaves the settings file as it was, unless what failed is the write to the
  -- file itself: then it holds what the broken write left of it.
  pub lookup-inject_at_fault :
      (want : List (Str × Str)) (d : Disk C) (e : Fault)
      → (inject_at C unreadable unwritable unremovable torn path backup want d).1 ≡ some e
      → let after = (inject_at C unreadable unwritable unremovable torn path backup want d).0 in
        (lookup path after ≡ lookup path d)
        ⊎ ((unwritable path ≡ true) × (lookup path after ≡ torn path (lookup path d)))
  unfolding inject_at
  lookup-inject_at_fault want d =
      inject_read-KeepsOnFault want
        (read_json_object C unreadable unwritable unremovable torn path d) d

  -- The backup that an inject makes where there are no settings yet.
  abbrev first : Backup
  first = first_backup C unreadable unwritable unremovable torn path backup false ([], false)

  abbrev revert : Disk C → Result
  revert = revert_at C unreadable unwritable unremovable torn path backup

  inject_created :
      (want : List (Str × Str)) (d : Disk C)
      → unreadable path ≡ false
      → unwritable path ≡ false
      → unwritable backup ≡ false
      → lookup path d ≡ none
      → lookup backup d ≡ none
      → lookup backup (inject_at C unreadable unwritable unremovable torn path backup want d).0
        ≡ some (C.marshal_backup first)
  unfolding inject_at read_json_object read_text keep_backup write assign map_field first_backup
      lookup
  inject_created want d cr cw cb none_there none_kept =
      rw (cr, none_there)
        (rw (none_kept, cb, cw)
          (lookup-put_other path backup _ _ apart ∙ lookup-put_self backup _ d))

  -- A settings file that an inject has made goes with the revert, whatever has been written into it
  -- since, by the client or by the user.
  pub revert-inject_created :
      IsLawful C
      → (want : List (Str × Str)) (d : Disk C) (t : C.Text) → unreadable path ≡ false
      → unreadable backup ≡ false
      → unwritable path ≡ false
      → unwritable backup ≡ false
      → unremovable path ≡ false
      → unremovable backup ≡ false
      → lookup path d ≡ none
      → lookup backup d ≡ none
      → lookup path
          (revert (
            put path t (inject_at C unreadable unwritable unremovable torn path backup want d).0)).0
        ≡ none
  unfolding revert_at remove_file first_backup
  revert-inject_created L want d t cr crb cw cb rp rb none_there none_kept =
      let made = inject_created want d cr cw cb none_there none_kept in
      rw (crb, lookup-put_other path backup t _ apart, made, L.unmarshal-marshal_backup first)
        (rw (rp, rb)
          (lookup-remove_other backup path _ (λ e. apart (sym e)) ∙ lookup-remove_self path _))
