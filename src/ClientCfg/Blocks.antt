-- ===== src/ClientCfg/Blocks.antt =====
-- Single entries of a block that is written and restored.
use mathlib.Core.Option.{Option, none, some}
use mathlib.Core.List.{List, [], ◌∷◌}
use aitori.Base.{◌≡◌, refl, ◌≢◌, Bool, true, false, ◌&&◌, any, All, if◌then◌else◌, arith}
use aitori.Base.Dict.{lookup, put, lookup-put, lookup-remove}
use aitori.Base.Text.{Str, str_eq, str_eq_iff, str_eq_refl}
use aitori.ClientCfg.{
  Codec, IsLawful, managed_env_keys, env_want, Fields, prior_env, prior_of, put_all, restore,
  restore_key,
}

unfoldable pub is_managed : Str → Bool
unfolding any
is_managed k = any (λ m. str_eq m k) managed_env_keys

pub and_left : (a b : Bool) → a && b ≡ true → a ≡ true
and_left true b h = refl
and_left false b h = h

pub false≢true : false ≢ true
false≢true e = cc

module _ (C : Codec) (L : IsLawful C) where
  -- An entry that is absent or a string.
  pub data IsText : Option C.Value → Type 0 where
    absent : IsText none
    text : (s : Str) → IsText (some (C.string s))

  put_all-other :
      (want : List (Str × Str)) (env : Fields C) (k : Str)
      → any (λ kv. str_eq kv.0 k) want ≡ false
      → lookup k (put_all C want env) ≡ lookup k env
  unfolding put_all any
  put_all-other [] env k h = refl
  put_all-other ((j, v) ∷ want) env k h =
      ground (arith, put_all-other want (put j (C.string v) env) k, lookup-put j k (C.string v) env)

  pub put_want-other :
      (proxy ca k : Str) (env : Fields C)
      → is_managed k ≡ false
      → lookup k (put_all C (env_want proxy ca) env) ≡ lookup k env
  unfolding is_managed env_want any
  put_want-other proxy ca k env h = put_all-other (env_want proxy ca) env k h

  lookup-restore_key :
      (j k : Str) (o : Option C.Value) (env : Fields C)
      → IsText o
      → lookup k (restore_key C j (prior_of C o) env) ≡ (if str_eq j k then o else lookup k env)
  unfolding restore_key prior_of
  lookup-restore_key j k none env absent = lookup-remove j k env
  lookup-restore_key j k (some (_)) env (text s) =
      rw (L.sprint-string s) (lookup-put j k (C.string s) env)

  pub lookup-restore :
      (ks : List Str) (env0 env : Fields C) (k : Str)
      → All (λ m. IsText (lookup m env0)) ks
      → lookup k (restore C (prior_env C ks env0) env)
        ≡ (if any (λ m. str_eq m k) ks then lookup k env0 else lookup k env)
  unfolding restore prior_env any
  lookup-restore [] env0 env k h = refl
  lookup-restore (j ∷ ks) env0 env k (t, h) = ground (
    arith,
    str_eq_iff j k,
    lookup-restore ks env0 (restore_key C j (prior_of C (lookup j env0)) env) k h,
    lookup-restore_key j k (lookup j env0) env t,
  )

  pub none_left : (m : Fields C) → ((k : Str) → lookup k m ≡ none) → m ≡ []
  unfolding lookup
  none_left [] h = refl
  none_left ((k, v) ∷ m) h = ground (arith, h k, str_eq_refl k)
