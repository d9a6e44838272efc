-- ===== src/Agent/Linux/Orderly.antt =====
-- The operations on Linux are what the lifecycle of the agent needs.
use mathlib.Core.Path.{◌≡◌, refl, ◌∙◌}
use mathlib.Core.Logic.{◌≢◌, inl, inr}
use mathlib.Core.Option.{Option, none, some}
use mathlib.Core.List.{List, [], ◌∷◌, map}
use aitori.Base.{Bool, false, Bool-cases, All, is_empty}
use aitori.Base.Text.{Str, codes}
use aitori.Agent.{Outcome, ok}
use aitori.Agent.Lifecycle.{IsOrderly}
use aitori.Agent.Linux.{
  System, add_command, ca_updated, ca_written, capture_to, clear_command, clear_system_proxy,
  close_transparent, delete_command, drop_table, install_ca, install_nss, linux_machine,
  nss_created, nss_databases, nss_written, outcome_of, proxy_steps, proxy_to, run_all, run_steps,
  set_system_proxy, start_transparent, step_done, uninstall_ca,
}

-- What a system does to the two things that the agent watches: files of others and commands other than
-- `gsettings` leave both alone, `gsettings` leaves the settings of the clients alone, and the mode
-- `none` ends a proxy.
pub record IsLawful {M : Type 0} (sys : System M) (proxied injected : M → Bool) : Type 0 where
  pub run_other :
      (name : Str) (args : List Str) (m : M)
      → name ≢ codes "gsettings"
      → proxied (sys.run (name ∷ args) m).0 ≡ proxied m
  pub run_settings : (c : List Str) (m : M) → injected (sys.run c m).0 ≡ injected m
  pub clears :
      (m : M) → (sys.run clear_command m).1 ≡ none → proxied (sys.run clear_command m).0 ≡ false
  pub no_gsettings : sys.look_path (codes "gsettings") ≡ false → (m : M) → proxied m ≡ false
  pub write : (file text : Str) (m : M) → proxied (sys.write_file file text m).0 ≡ proxied m
  pub write_settings :
      (file text : Str) (m : M) → injected (sys.write_file file text m).0 ≡ injected m
  pub remove : (file : Str) (m : M) → proxied (sys.remove file m).0 ≡ proxied m
  pub remove_settings : (file : Str) (m : M) → injected (sys.remove file m).0 ≡ injected m
  pub temp : (m : M) → proxied (sys.create_temp m).0 ≡ proxied m
  pub temp_settings : (m : M) → injected (sys.create_temp m).0 ≡ injected m

-- A command other than `gsettings`.
abbrev IsOther : List Str → Type 0
IsOther [] = ⊥
IsOther (name ∷ args) = name ≢ codes "gsettings"

-- What is true of each operation for an observation that it leaves alone.
module _ {M : Type 0} (sys : System M) (seen : M → Bool) (keeps : List Str → Type 0)
    (run : (c : List Str) (m : M) → keeps c → seen (sys.run c m).0 ≡ seen m)
    (write : (file text : Str) (m : M) → seen (sys.write_file file text m).0 ≡ seen m)
    (remove : (file : Str) (m : M) → seen (sys.remove file m).0 ≡ seen m)
    (temp : (m : M) → seen (sys.create_temp m).0 ≡ seen m) where
  seen-run_all : (cs : List (List Str)) (m : M) → All keeps cs → seen (run_all sys cs m) ≡ seen m
  unfolding run_all
  seen-run_all [] m k = refl
  seen-run_all (c ∷ cs) m (h, k) = seen-run_all cs (sys.run c m).0 k ∙ run c m h

  seen-run_steps :
      (cs : List (List Str)) (m : M) → All keeps cs → seen (run_steps sys cs m).0 ≡ seen m
  unfolding run_steps step_done
  seen-run_steps [] m k = refl
  seen-run_steps (c ∷ cs) m (h, k) = go (λ m'. seen-run_steps cs m' k) (sys.run c m) (run c m h)
    where
      go :
          ((m' : M) → seen (run_steps sys cs m').0 ≡ seen m')
          → (p : M × Option Str) → seen p.0 ≡ seen m
          → seen (step_done sys p (run_steps sys cs p.0)).0 ≡ seen m
      go others (m', some e) q = q
      go others (m', none) q = others m' ∙ q

  seen-outcome_of : (p : M × Option Str) → seen (outcome_of sys p).0 ≡ seen p.0
  unfolding outcome_of
  seen-outcome_of (m, none) = refl
  seen-outcome_of (m, some e) = refl

  module _ (other : (c : List Str) → IsOther c → keeps c) where
    certutil_is_other : (args : List Str) → keeps (codes "certutil" ∷ args)
    certutil_is_other args = other _ (λ e. cc e)

    add_is_other : (file : Str) (dbs : List Str) → All keeps (map (add_command sys file) dbs)
    add_is_other file [] = tt
    add_is_other file (db ∷ dbs) = (certutil_is_other _, add_is_other file dbs)

    delete_is_other : (dbs : List Str) → All keeps (map (delete_command sys) dbs)
    delete_is_other [] = tt
    delete_is_other (db ∷ dbs) = (certutil_is_other _, delete_is_other dbs)

    seen-nss_written :
        (file : Str) (dbs : List Str) (p : M × Option Str)
        → seen (nss_written sys file dbs p) ≡ seen p.0
    unfolding nss_written
    seen-nss_written file dbs (m, some e) = remove file m
    seen-nss_written file dbs (m, none) = remove file _ ∙ seen-run_all _ m (add_is_other file dbs)

    seen-nss_created :
        (cert : Str) (dbs : List Str) (p : M × Option Str)
        → seen (nss_created sys cert dbs p) ≡ seen p.0
    unfolding nss_created
    seen-nss_created cert dbs (m, none) = refl
    seen-nss_created cert dbs (m, some file) =
        seen-nss_written file dbs (sys.write_file file cert m) ∙ write file cert m

    seen-install_nss : (cert : Str) (m : M) → seen (install_nss sys cert m) ≡ seen m
    unfolding install_nss
    seen-install_nss cert m = elim (Bool-cases (is_empty (nss_databases sys))) [
      | inl e ↦ rw e refl
      | inr e ↦ rw e (elim (Bool-cases (sys.look_path (codes "certutil"))) [
        | inl there ↦
            rw there (seen-nss_created cert (nss_databases sys) (sys.create_temp m) ∙ temp m)
        | inr absent ↦ rw absent refl
      ])
    ]

    seen-ca_updated : (cert : Str) (p : M × Option Str) → seen (ca_updated sys cert p).0 ≡ seen p.0
    unfolding ca_updated
    seen-ca_updated cert (m, some e) = refl
    seen-ca_updated cert (m, none) = seen-install_nss cert m

    seen-ca_written : (cert : Str) (p : M × Option Str) → seen (ca_written sys cert p).0 ≡ seen p.0
    unfolding ca_written
    seen-ca_written cert (m, some e) = refl
    seen-ca_written cert (m, none) =
        seen-ca_updated cert (sys.run (codes "update-ca-certificates" ∷ []) m)
        ∙ run _ m (other _ (λ e. cc e))

    seen-install_ca : (cert : Str) (m : M) → seen (install_ca sys cert m).0 ≡ seen m
    unfolding install_ca
    seen-install_ca cert m = seen-ca_written cert _ ∙ write _ cert m

    seen-uninstall_ca : (m : M) → seen (uninstall_ca sys m).0 ≡ seen m
    unfolding uninstall_ca
    seen-uninstall_ca m =
        seen-run_all _ _ (delete_is_other (nss_databases sys))
        ∙ run _ _ (other _ (λ e. cc e))
        ∙ remove _ m

    seen-capture_to : (p : Option (Str × Str)) (m : M) → seen (capture_to sys p m).0 ≡ seen m
    unfolding capture_to
    seen-capture_to none m = refl
    seen-capture_to (some (host, port)) m = elim (Bool-cases (sys.look_path (codes "nft"))) [
      | inl there ↦ rw there (
          seen-outcome_of _
          ∙ run _ _ (other _ (λ e. cc e))
          ∙ run drop_table m (other _ (λ e. cc e)))
      | inr absent ↦ rw absent refl
    ]

    seen-close_transparent : (m : M) → seen (close_transparent sys m).0 ≡ seen m
    unfolding close_transparent
    seen-close_transparent m = seen-outcome_of _ ∙ run drop_table m (other _ (λ e. cc e))

module _ {M : Type 0} (sys : System M) (proxied injected : M → Bool)
    (lawful : IsLawful sys proxied injected) where
  abbrev Any : List Str → Type 0
  Any c = Unit

  run-Any : (c : List Str) (m : M) → Any c → injected (sys.run c m).0 ≡ injected m
  run-Any c m k = lawful.run_settings c m

  run_other : (c : List Str) (m : M) → IsOther c → proxied (sys.run c m).0 ≡ proxied m
  run_other [] m n = absurd n
  run_other (name ∷ args) m n = lawful.run_other name args m n

  all-Any : (cs : List (List Str)) → All Any cs
  all-Any [] = tt
  all-Any (c ∷ cs) = (tt, all-Any cs)

  set-settings : (addr : Str) (m : M) → injected (set_system_proxy sys addr m).0 ≡ injected m
  unfolding set_system_proxy
  set-settings addr m = to (sys.split_host_port addr)
    where
      steps : (cs : List (List Str)) → injected (run_steps sys cs m).0 ≡ injected m
      steps cs =
          seen-run_steps sys injected Any run-Any lawful.write_settings lawful.remove_settings
            lawful.temp_settings cs m (all-Any cs)

      to : (p : Option (Str × Str)) → injected (proxy_to sys p m).0 ≡ injected m
      to none = refl
      to (some (host, port)) = elim (Bool-cases (sys.look_path (codes "gsettings"))) [
        | inl there ↦ rw there (steps (proxy_steps host port))
        | inr absent ↦ rw absent refl
      ]

  clear-settings : (m : M) → injected (clear_system_proxy sys m).0 ≡ injected m
  unfolding clear_system_proxy
  clear-settings m = elim (Bool-cases (sys.look_path (codes "gsettings"))) [
    | inl there ↦ rw there (
        seen-outcome_of sys injected Any run-Any lawful.write_settings lawful.remove_settings
          lawful.temp_settings (sys.run clear_command m)
        ∙ lawful.run_settings clear_command m)
    | inr absent ↦ rw absent refl
  ]

  outcome_of-ok :
      (p : M × Option Str)
      → ((p.1 ≡ none) → proxied p.0 ≡ false)
      → (outcome_of sys p).1 ≡ ok
      → proxied (outcome_of sys p).0 ≡ false
  unfolding outcome_of
  outcome_of-ok (m, none) h e = h refl
  outcome_of-ok (m, some x) h e = cc e

  clear-proxied :
      (m : M) → (clear_system_proxy sys m).1 ≡ ok → proxied (clear_system_proxy sys m).0 ≡ false
  unfolding clear_system_proxy
  clear-proxied m = elim (Bool-cases (sys.look_path (codes "gsettings"))) [
    | inl there ↦ rw there (λ e. outcome_of-ok (sys.run clear_command m) (lawful.clears m) e)
    | inr absent ↦ rw absent (λ e. lawful.no_gsettings absent m)
  ]

  -- The adapter for Linux is what the lifecycle of the agent relies on, given a system on which
  -- other commands than `gsettings` and the files that are written and removed leave the proxy
  -- alone, on which the mode `none` ends it and there is none without `gsettings`, and client
  -- settings that are reverted as they should.
  pub linux_machine-IsOrderly :
      (revert : M → M × Outcome) (inject : Str → Str → Str → Str → Str → M → M × Option Str)
      → ((m : M) → proxied (revert m).0 ≡ proxied m)
      → ((m : M) → (revert m).1 ≡ ok → injected (revert m).0 ≡ false)
      → IsOrderly (linux_machine sys revert inject) proxied injected
  unfolding linux_machine start_transparent
  linux_machine-IsOrderly revert inject keeps reverts =
      let other : (c : List Str) → IsOther c → Any c = λ c h. tt in
      let same : (c : List Str) → IsOther c → IsOther c = λ c h. h in
      record {
        install =
            seen-install_ca sys proxied IsOther run_other lawful.write lawful.remove lawful.temp
              same;
        install_settings =
            seen-install_ca sys injected Any run-Any lawful.write_settings lawful.remove_settings
              lawful.temp_settings other;
        uninstall =
            seen-uninstall_ca sys proxied IsOther run_other lawful.write lawful.remove lawful.temp
              same;
        uninstall_settings =
            seen-uninstall_ca sys injected Any run-Any lawful.write_settings lawful.remove_settings
              lawful.temp_settings other;
        set_settings = set-settings;
        clear = clear-proxied;
        clear_settings = clear-settings;
        start = λ addr hosts m.
            seen-capture_to sys proxied IsOther run_other lawful.write lawful.remove lawful.temp
              same (sys.split_host_port addr) m;
        start_settings = λ addr hosts m.
            seen-capture_to sys injected Any run-Any lawful.write_settings lawful.remove_settings
              lawful.temp_settings other (sys.split_host_port addr) m;
        close =
            seen-close_transparent sys proxied IsOther run_other lawful.write lawful.remove
              lawful.temp same;
        close_settings =
            seen-close_transparent sys injected Any run-Any lawful.write_settings
              lawful.remove_settings lawful.temp_settings other;
        revert = keeps;
        revert_settings = reverts;
      }
