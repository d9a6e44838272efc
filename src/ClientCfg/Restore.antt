-- ===== src/ClientCfg/Restore.antt =====
-- Settings through an inject and its revert.
use mathlib.Core.Option.{Option, none, some}
use mathlib.Core.List.{List, [], ◌∷◌}
use aitori.Base.{
  ◌≡◌, refl, sym, ap, ◌∙◌, ◌≢◌, inl, inr, Bool, true, false, not, ◌&&◌, is_empty, any, All,
  if◌then◌else◌, Bool-cases,
}
use aitori.Base.Dict.{
  lookup, put, remove, lookup-put_self, lookup-put_other, lookup-remove_self, lookup-remove_other,
}
use aitori.Base.Text.{Str}
use aitori.ClientCfg.{
  Backup, Codec, IsLawful, Fault, managed_env_keys, env_want, env_key, Fields, Disk, map_field,
  done, read_text, prior_env, put_all, restore, assign, put_env, read_json_object, write,
  remove_file, first_backup, keep_backup, inject_at, revert_at,
}
use aitori.ClientCfg.Targets.{read_backup_path, revert_one, revert_each}
use aitori.ClientCfg.Blocks.{
  is_managed, and_left, false≢true, IsText, put_want-other, lookup-restore, none_left,
}

-- The two files, with nothing in the way of reading and writing them.
pub record Settings (C : Codec) (unreadable unwritable unremovable : Str → Bool)
    (torn : Str → Option C.Text → Option C.Text) : Type 0 where
  pub path : Str
  pub backup : Str
  pub apart : path ≢ backup
  pub can_read : unreadable path ≡ false
  pub can_read_backup : unreadable backup ≡ false
  pub can_write : unwritable path ≡ false
  pub can_write_backup : unwritable backup ≡ false
  pub can_remove_backup : unremovable backup ≡ false

module _ (C : Codec) (L : IsLawful C) (unreadable unwritable unremovable : Str → Bool)
    (torn : Str → Option C.Text → Option C.Text)
    (S : Settings C unreadable unwritable unremovable torn) (obj : Fields C) where
  -- The `env` block of the settings that were there at first.
  abbrev pub env0 : Fields C
  env0 = (map_field C obj env_key).0

  abbrev first : Backup
  first =
      first_backup C unreadable unwritable unremovable torn S.path S.backup true
        (map_field C obj env_key)

  -- The settings file holds `obj`, and there is no backup.
  pub record IsUntouched (d : Disk C) : Type 0 where
    pub text : C.Text
    pub there : lookup S.path d ≡ some text
    pub decodes : read_text C (some text) ≡ done (some obj) true
    pub fresh : lookup S.backup d ≡ none

  -- The settings are those of `obj` but for the managed keys of the block, and the backup is the
  -- one that was made of `obj`.
  pub record IsInjected (d : Disk C) : Type 0 where
    pub now : Fields C
    pub env : Fields C
    pub there : lookup S.path d ≡ some (C.marshal now)
    pub others : (k : Str) → k ≢ env_key → lookup k now ≡ lookup k obj
    pub block : lookup env_key now ≡ some (C.object env)
    pub env_others : (k : Str) → is_managed k ≡ false → lookup k env ≡ lookup k env0
    pub kept : lookup S.backup d ≡ some (C.marshal_backup first)

  -- The settings are those of `obj`, and the backup is gone.
  pub record IsRestored (d : Disk C) : Type 0 where
    pub now : Fields C
    pub there : lookup S.path d ≡ some (C.marshal now)
    pub others : (k : Str) → k ≢ env_key → lookup k now ≡ lookup k obj
    pub env : (k : Str) → lookup k (map_field C now env_key).0 ≡ lookup k env0
    pub no_block : lookup env_key obj ≡ none → lookup env_key now ≡ none
    pub gone : lookup S.backup d ≡ none

  read_marshal : (m : Fields C) → read_text C (some (C.marshal m)) ≡ done (some m) true
  unfolding read_text
  read_marshal m = rw (L.is_blank-marshal m, L.unmarshal-marshal m) refl

  block_of :
      (now env : Fields C)
      → lookup env_key now ≡ some (C.object env)
      → map_field C now env_key ≡ (env, true)
  unfolding map_field
  block_of now env e = rw (e, L.as_object-object env) refl

  -- What an inject does to settings that decode to `now`, once the backup is in place.
  abbrev patched : Str → Str → Fields C → Fields C
  patched proxy ca now =
      put env_key (C.object (put_all C (env_want proxy ca) (map_field C now env_key).0)) now

  module _ (proxy ca : Str) where
    abbrev inject : Disk C → Disk C × Option Fault
    inject = inject_at C unreadable unwritable unremovable torn S.path S.backup (env_want proxy ca)

    inject_first :
        (d : Disk C)
        → IsUntouched d
        → inject d ≡ (
          put S.path (C.marshal (patched proxy ca obj)) (put S.backup (C.marshal_backup first) d),
          none,
        )
    unfolding inject_at keep_backup write assign
    inject_first d u =
        rw (S.can_read, u.there, u.decodes) (rw (u.fresh, S.can_write_backup, S.can_write) refl)

    inject_again :
        (d : Disk C) (i : IsInjected d)
        → inject d ≡ (put S.path (C.marshal (patched proxy ca i.now)) d, none)
    unfolding inject_at keep_backup write assign
    inject_again d i = rw (S.can_read, i.there, read_marshal i.now) (rw (i.kept, S.can_write) refl)

    inject-IsInjected_first : (d : Disk C) → IsUntouched d → IsInjected (inject d).0
    inject-IsInjected_first d u = rw (inject_first d u) (record {
      now = patched proxy ca obj;
      env = put_all C (env_want proxy ca) env0;
      there = lookup-put_self S.path _ _;
      others = λ k n. lookup-put_other env_key k _ obj (λ e. n (sym e));
      block = lookup-put_self env_key _ obj;
      env_others = λ k h. put_want-other C L proxy ca k env0 h;
      kept = lookup-put_other S.path S.backup _ _ S.apart ∙ lookup-put_self S.backup _ d;
    })

    inject-IsInjected_again : (d : Disk C) → IsInjected d → IsInjected (inject d).0
    inject-IsInjected_again d i = rw (inject_again d i) (record {
      now = patched proxy ca i.now;
      env = put_all C (env_want proxy ca) i.env;
      there = lookup-put_self S.path _ _;
      others = λ k n. lookup-put_other env_key k _ i.now (λ e. n (sym e)) ∙ i.others k n;
      block =
          lookup-put_self env_key _ i.now
          ∙ ap (λ e. some (C.object (put_all C (env_want proxy ca) e.0)))
              (block_of i.now i.env i.block);
      env_others = λ k h. put_want-other C L proxy ca k i.env h ∙ i.env_others k h;
      kept = lookup-put_other S.path S.backup _ _ S.apart ∙ i.kept;
    })

  -- The managed entries of the block were absent or strings.
  abbrev pub HasTexts : Type 0
  HasTexts = All (λ m. IsText C L (lookup m env0)) managed_env_keys

  abbrev revert : Disk C → Disk C × Option Fault
  revert = revert_at C unreadable unwritable unremovable torn S.path S.backup

  abbrev restored_env : Fields C → Fields C
  restored_env env = restore C (prior_env C managed_env_keys env0) env

  revert-restored :
      (d : Disk C) (i : IsInjected d) (out : Fields C)
      → put_env C first (restored_env i.env) (some i.now) ≡ some (some out)
      → revert d ≡ (remove S.backup (put S.path (C.marshal out) d), none)
  unfolding revert_at read_json_object write remove_file first_backup prior_env
  revert-restored d i out e =
      rw (S.can_read_backup, i.kept, L.unmarshal-marshal_backup first, S.can_read)
        (rw (i.there, read_marshal i.now, block_of i.now i.env i.block)
          (rw (e, S.can_write, S.can_remove_backup) refl))

  gone_block : (m : Fields C) → map_field C (remove env_key m) env_key ≡ ([], false)
  unfolding map_field
  gone_block m = rw (lookup-remove_self env_key m) refl

  lookup-empty : (m : Fields C) (k : Str) → is_empty m ≡ true → lookup k m ≡ none
  unfolding lookup
  lookup-empty [] k e = refl
  lookup-empty (x ∷ m) k e = cc

  lookup-restored_env :
      HasTexts
      → (d : Disk C) (i : IsInjected d) (k : Str) → lookup k (restored_env i.env) ≡ lookup k env0
  unfolding is_managed any
  lookup-restored_env h d i k =
      lookup-restore C L managed_env_keys env0 i.env k h ∙ outside (is_managed k) refl
    where
      outside :
          (b : Bool)
          → is_managed k ≡ b
          → (if is_managed k then lookup k env0 else lookup k i.env) ≡ lookup k env0
      outside true e = rw e refl
      outside false e = rw e (i.env_others k e)

  no_block_before : lookup env_key obj ≡ none → map_field C obj env_key ≡ ([], false)
  unfolding map_field
  no_block_before q = rw q refl

  all_gone :
      (d : Disk C) (i : IsInjected d)
      → HasTexts
      → lookup env_key obj ≡ none
      → is_empty (restored_env i.env) && not (map_field C obj env_key).1 ≡ true
  all_gone d i h q =
      let nothing : restored_env i.env ≡ [] =
        none_left C L (restored_env i.env) (λ k. lookup-restored_env h d i k ∙ was_none k) in
      rw (nothing, no_block_before q) refl
    where
      was_none : (k : Str) → lookup k env0 ≡ none
      was_none k = ap (λ m. lookup k m.0) (no_block_before q) ∙ lookup-empty [] k refl

  -- The block is gone after a revert that finds nothing left in it.
  revert-emptied :
      (d : Disk C) (i : IsInjected d)
      → HasTexts
      → is_empty (restored_env i.env) && not (map_field C obj env_key).1 ≡ true
      → IsRestored (revert d).0
  unfolding put_env first_backup
  revert-emptied d i h e = rw (revert-restored d i (remove env_key i.now) (rw e refl)) (record {
    now = remove env_key i.now;
    there =
        lookup-remove_other S.backup S.path _ (λ q. S.apart (sym q)) ∙ lookup-put_self S.path _ d;
    others = λ k n. lookup-remove_other env_key k i.now (λ q. n (sym q)) ∙ i.others k n;
    env = λ k.
        ap (λ m. lookup k m.0) (gone_block i.now)
        ∙ (lookup-empty [] k refl
            ∙ (sym (lookup-empty (restored_env i.env) k (and_left _ _ e))
                ∙ lookup-restored_env h d i k));
    no_block = λ q. lookup-remove_self env_key i.now;
    gone = lookup-remove_self S.backup _;
  })

  revert-refilled :
      (d : Disk C) (i : IsInjected d)
      → HasTexts
      → is_empty (restored_env i.env) && not (map_field C obj env_key).1 ≡ false
      → IsRestored (revert d).0
  unfolding put_env first_backup assign
  revert-refilled d i h e =
      rw (revert-restored d i (put env_key (C.object (restored_env i.env)) i.now) (rw e refl))
        (record {
          now = put env_key (C.object (restored_env i.env)) i.now;
          there =
              lookup-remove_other S.backup S.path _ (λ q. S.apart (sym q))
              ∙ lookup-put_self S.path _ d;
          others = λ k n. lookup-put_other env_key k _ i.now (λ q. n (sym q)) ∙ i.others k n;
          env = λ k.
              ap (λ m. lookup k m.0)
                (block_of _ (restored_env i.env) (lookup-put_self env_key _ i.now))
              ∙ lookup-restored_env h d i k;
          no_block = λ q. absurd (false≢true (sym e ∙ all_gone d i h q));
          gone = lookup-remove_self S.backup _;
        })

  -- Injects, one after the other.
  unfoldable pub inject_all : List (Str × Str) → Disk C → Disk C
  inject_all [] d = d
  inject_all ((proxy, ca) ∷ rest) d = inject_all rest (inject proxy ca d).0

  inject_all-IsInjected :
      (runs : List (Str × Str)) (d : Disk C) → IsInjected d → IsInjected (inject_all runs d)
  unfolding inject_all
  inject_all-IsInjected [] d i = i
  inject_all-IsInjected ((proxy, ca) ∷ rest) d i =
      inject_all-IsInjected rest _ (inject-IsInjected_again proxy ca d i)

  revert_each-one :
      (d : Disk C)
      → IsInjected d
      → S.path ≢ []
      → (revert_each C unreadable unwritable unremovable torn (S.backup ∷ []) d).0 ≡ (revert d).0
  unfolding revert_each revert_one read_backup_path first_backup
  revert_each-one d i n =
      rw (S.can_read_backup, i.kept, L.unmarshal-marshal_backup first) (by_path S.path n _ _)
    where
      by_path :
          (path : Str)
          → path ≢ []
          → (x y : Disk C × Option Fault) → (if is_empty path then x else y).0 ≡ y.0
      by_path [] n x y = absurd (n refl)
      by_path (c ∷ s) n x y = refl

  -- A revert of what the backups record undoes any number of injects, of any addresses: every
  -- setting outside `env` and every entry of `env` is what it was before the first, `env` is absent
  -- if it was, and the backup is gone. It takes that the settings file was there, that nothing
  -- stands in the way of reading and writing, and that the entries that are managed were absent or
  -- strings.
  pub revert_each-inject_all :
      (proxy ca : Str) (runs : List (Str × Str)) (d : Disk C)
      → S.path ≢ []
      → IsUntouched d
      → HasTexts
      → IsRestored
          (revert_each C unreadable unwritable unremovable torn
            (S.backup ∷ [])
            (inject_all ((proxy, ca) ∷ runs) d)).0
  unfolding inject_all
  revert_each-inject_all proxy ca runs d n u h =
      let d' = inject_all runs (inject proxy ca d).0 in
      let i =
        inject_all-IsInjected runs (inject proxy ca d).0 (inject-IsInjected_first proxy ca d u) in
      rw (revert_each-one d' i n)
        (elim (Bool-cases (is_empty (restored_env i.env) && not (map_field C obj env_key).1)) [
          | inl e ↦ revert-emptied d' i h e
          | inr e ↦ revert-refilled d' i h e
        ])
