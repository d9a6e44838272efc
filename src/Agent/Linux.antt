-- ===== src/Agent/Linux.antt =====
-- internal/adapter/adapter_linux.go: the operations of the adapter on Linux, over what running a
-- command and writing or removing a file do to a machine whose state is unknown. `Orderly` says that
-- they are the operations that the agent's lifecycle needs.
pub mod Orderly
use mathlib.Core.Option.{Option, none, some}
use mathlib.Core.List.{List, [], ◌∷◌, ◌++◌, map}
use aitori.Base.{ℕ, Bool, true, is_empty, if◌then◌else◌}
use aitori.Base.Text.{Str, codes}
use aitori.ClientCfg.Targets.{join_path}
use aitori.Router.Context.{itoa}
use aitori.Agent.{Machine, Outcome, failed, ok}

-- What the adapter uses of the system; a command is its name and arguments.
pub record System (M : Type 0) : Type 0 where
  pub run : List Str → M → M × Option Str
  pub write_file : Str → Str → M → M × Option Str
  pub remove : Str → M → M × Option Str  -- an error that `os.IsNotExist` accepts is none
  pub create_temp : M → M × Option Str
  pub look_path : Str → Bool
  pub split_host_port : Str → Option (Str × Str)
  pub dir_exists : Str → Bool
  pub file_exists : Str → Bool
  pub glob : Str → List Str
  pub home : Option Str
  pub uid : ℕ

abbrev linux_cert_path : Str
linux_cert_path = codes "/usr/local/share/ca-certificates/aitori.crt"

abbrev proxy_schema : Str
proxy_schema = codes "org.gnome.system.proxy"

-- `gsettings set schema key value`.
abbrev pub gsettings : Str → Str → Str → List Str
gsettings schema key value = codes "gsettings" ∷ codes "set" ∷ schema ∷ key ∷ value ∷ []

abbrev pub clear_command : List Str
clear_command = gsettings proxy_schema (codes "mode") (codes "none")

abbrev pub drop_table : List Str
drop_table = codes "nft" ∷ codes "delete" ∷ codes "table" ∷ codes "inet" ∷ codes "aitori" ∷ []

join_comma : List Str → Str
join_comma [] = []
join_comma (v ∷ []) = v
join_comma (v ∷ w ∷ vs) = v ++ (codes ", " ++ join_comma (w ∷ vs))

-- `gsettingsList`.
unfoldable pub gsettings_list : List Str → Str
unfolding join_comma
gsettings_list items =
    codes "[" ++ (join_comma (map (λ it. codes "'" ++ (it ++ codes "'")) items) ++ codes "]")

-- The commands of `SetSystemProxy`.
unfoldable pub proxy_steps : Str → Str → List (List Str)
unfolding gsettings_list
proxy_steps host port =
    gsettings proxy_schema (codes "mode") (codes "manual")
    ∷ gsettings (codes "org.gnome.system.proxy.http") (codes "host") host
    ∷ gsettings (codes "org.gnome.system.proxy.http") (codes "port") port
    ∷ gsettings (codes "org.gnome.system.proxy.https") (codes "host") host
    ∷ gsettings (codes "org.gnome.system.proxy.https") (codes "port") port
    ∷ gsettings proxy_schema (codes "ignore-hosts")
        (gsettings_list (codes "localhost" ∷ codes "127.0.0.0/8" ∷ codes "::1" ∷ []))
    ∷ []

-- The rules of `StartTransparent`, from the proxy's port on.
unfoldable pub rules_to : ℕ → Str → Str
unfolding itoa
rules_to uid port =
    codes
      "table inet aitori {\n  chain output {\n    type nat hook output priority -100; policy accept;\n    meta skuid "
    ++ (itoa uid
        ++ (codes " return\n    tcp dport { 80, 443 } redirect to :"
            ++ (port ++ codes "\n  }\n}\n")))

module _ {M : Type 0} (sys : System M) where
  outcome_of : M × Option Str → M × Outcome
  outcome_of (m, none) = (m, ok)
  outcome_of (m, some e) = (m, failed e)

  -- `hasNSS`.
  abbrev has_nss : Str → Bool
  has_nss dir =
      if sys.file_exists (join_path dir (codes "cert9.db"))
      then true
      else sys.file_exists (join_path dir (codes "cert8.db"))

  firefox_databases : List Str → List Str
  firefox_databases [] = []
  firefox_databases (dir ∷ dirs) =
      let rest = firefox_databases dirs in
      if sys.dir_exists dir
      then if has_nss dir then (codes "sql:" ++ dir) ∷ rest else rest
      else rest

  databases_of : Option Str → List Str
  unfolding firefox_databases join_path
  databases_of none = []
  databases_of (some home) =
      let pki = join_path (join_path home (codes ".pki")) (codes "nssdb") in
      let firefox = firefox_databases (
        sys.glob (
          join_path (join_path (join_path home (codes ".mozilla")) (codes "firefox"))
            (codes "*"))) in
      if sys.dir_exists pki then (codes "sql:" ++ pki) ∷ firefox else firefox

  -- `nssDatabases`.
  abbrev pub nss_databases : List Str
  unfolding databases_of
  nss_databases = databases_of sys.home

  -- Commands whose errors are ignored.
  unfoldable pub run_all : List (List Str) → M → M
  run_all [] m = m
  run_all (c ∷ cs) m = run_all cs (sys.run c m).0

  abbrev add_command : Str → Str → List Str
  add_command file db =
      codes "certutil"
      ∷ codes "-A"
      ∷ codes "-d"
      ∷ db
      ∷ codes "-t"
      ∷ codes "C,,"
      ∷ codes "-n"
      ∷ codes "aitori"
      ∷ codes "-i"
      ∷ file
      ∷ []

  abbrev delete_command : Str → List Str
  delete_command db =
      codes "certutil" ∷ codes "-D" ∷ codes "-n" ∷ codes "aitori" ∷ codes "-d" ∷ db ∷ []

  nss_written : Str → List Str → M × Option Str → M
  unfolding run_all
  nss_written file dbs (m, some e) = (sys.remove file m).0
  nss_written file dbs (m, none) = (sys.remove file (run_all (map (add_command file) dbs) m)).0

  nss_created : Str → List Str → M × Option Str → M
  unfolding nss_written
  nss_created cert dbs (m, none) = m
  nss_created cert dbs (m, some file) = nss_written file dbs (sys.write_file file cert m)

  -- `installNSS`; a temporary file that cannot be created has no name.
  unfoldable pub install_nss : Str → M → M
  unfolding nss_created nss_databases
  install_nss cert m =
      if is_empty nss_databases
      then m
      else if sys.look_path (codes "certutil")
      then nss_created cert nss_databases (sys.create_temp m)
      else m

  ca_updated : Str → M × Option Str → M × Outcome
  unfolding install_nss
  ca_updated cert (m, some e) = (m, failed e)
  ca_updated cert (m, none) = (install_nss cert m, ok)

  ca_written : Str → M × Option Str → M × Outcome
  unfolding ca_updated
  ca_written cert (m, some e) = (m, failed e)
  ca_written cert (m, none) = ca_updated cert (sys.run (codes "update-ca-certificates" ∷ []) m)

  -- `InstallCA`.
  unfoldable pub install_ca : Str → M → M × Outcome
  unfolding ca_written
  install_ca cert m = ca_written cert (sys.write_file linux_cert_path cert m)

  first_error : Option Str → Option Str → Outcome
  first_error (some e) second = failed e
  first_error none (some e) = failed e
  first_error none none = ok

  -- `UninstallCA`.
  unfoldable pub uninstall_ca : M → M × Outcome
  unfolding run_all first_error nss_databases
  uninstall_ca m =
      let removed = sys.remove linux_cert_path m in
      let updated = sys.run (codes "update-ca-certificates" ∷ codes "--fresh" ∷ []) removed.0 in
      (run_all (map delete_command nss_databases) updated.0, first_error removed.1 updated.1)

  step_done : M × Option Str → M × Outcome → M × Outcome
  step_done (m, some e) others = (m, failed e)
  step_done (m, none) others = others

  -- The loop over the steps, which ends at the first error.
  unfoldable pub run_steps : List (List Str) → M → M × Outcome
  unfolding step_done
  run_steps [] m = (m, ok)
  run_steps (c ∷ cs) m = step_done (sys.run c m) (run_steps cs (sys.run c m).0)

  proxy_to : Option (Str × Str) → M → M × Outcome
  unfolding run_steps proxy_steps
  proxy_to none m = (m, failed (codes "invalid proxy address"))
  proxy_to (some (host, port)) m =
      if sys.look_path (codes "gsettings")
      then run_steps (proxy_steps host port) m
      else (m, failed (codes "gsettings not found"))

  -- `SetSystemProxy`.
  unfoldable pub set_system_proxy : Str → M → M × Outcome
  unfolding proxy_to
  set_system_proxy host_port m = proxy_to (sys.split_host_port host_port) m

  -- `ClearSystemProxy`.
  unfoldable pub clear_system_proxy : M → M × Outcome
  unfolding outcome_of
  clear_system_proxy m =
      if sys.look_path (codes "gsettings") then outcome_of (sys.run clear_command m) else (m, ok)

  capture_to : Option (Str × Str) → M → M × Outcome
  unfolding outcome_of rules_to
  capture_to none m = (m, failed (codes "invalid proxy address"))
  capture_to (some (host, port)) m =
      if sys.look_path (codes "nft")
      then outcome_of (
          sys.run (codes "nft" ∷ codes "-f" ∷ codes "-" ∷ rules_to sys.uid port ∷ [])
            (sys.run drop_table m).0)
      else (m, failed (codes "nft not found"))

  -- `StartTransparent`; the rules, which the command reads from its input, stand behind it.
  unfoldable pub start_transparent : Str → M → M × Outcome
  unfolding capture_to
  start_transparent addr m = capture_to (sys.split_host_port addr) m

  -- `Close` of the handle.
  unfoldable pub close_transparent : M → M × Outcome
  unfolding outcome_of
  close_transparent m = outcome_of (sys.run drop_table m)

  -- The machine that the agent works on, with the client settings' operations.
  unfoldable pub linux_machine :
      (M → M × Outcome) → (Str → Str → Str → Str → Str → M → M × Option Str) → Machine M
  unfolding install_ca uninstall_ca set_system_proxy clear_system_proxy start_transparent
      close_transparent
  linux_machine revert_settings inject_settings = record {
    install_ca = install_ca;
    uninstall_ca = uninstall_ca;
    set_system_proxy = set_system_proxy;
    clear_system_proxy = clear_system_proxy;
    start_transparent = λ addr hosts m. start_transparent addr m;
    close_transparent = close_transparent;
    revert_settings = revert_settings;
    inject_settings = inject_settings;
  }
