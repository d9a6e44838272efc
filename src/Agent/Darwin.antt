-- ===== src/Agent/Darwin.antt =====
-- internal/adapter/adapter_darwin.go: the operations of the adapter on macOS, over what running a
-- command and writing a temporary file do to a machine whose state is unknown. `Cleared` says when
-- the proxies of all network services are off.
pub mod Cleared
use mathlib.Core.Option.{Option, none, some}
use mathlib.Core.List.{List, [], ◌∷◌}
use aitori.Base.{Bool, false, not, ◌||◌, is_empty, if◌then◌else◌}
use aitori.Base.Text.{Str, codes, has_prefix, split_byte, trim_space}
use aitori.Agent.{Machine, Outcome, failed, not_implemented, ok}

-- What the adapter uses of the system; a command is its name and arguments, and gives its output and
-- its error.
pub record Mac (M : Type 0) : Type 0 where
  pub run : List Str → M → M × (Str × Option Str)
  pub create_temp : M → M × Option Str
  pub write_temp : Str → Str → M → M × Option Str
  pub remove_temp : Str → M → M
  pub split_host_port : Str → Option (Str × Str)

abbrev pub system_keychain : Str
system_keychain = codes "/Library/Keychains/System.keychain"

abbrev pub ca_common_name : Str
ca_common_name = codes "aitori Device CA"

-- `proxyBypass`.
abbrev pub proxy_bypass : List Str
proxy_bypass =
    codes "localhost" ∷ codes "127.0.0.1" ∷ codes "::1" ∷ codes "*.local" ∷ codes "169.254/16" ∷ []

abbrev networksetup : List Str → List Str
networksetup args = codes "networksetup" ∷ args

abbrev security : List Str → List Str
security args = codes "security" ∷ args

abbrev pub set_web : Str → Str → Str → List Str
set_web svc host port = networksetup (codes "-setwebproxy" ∷ svc ∷ host ∷ port ∷ [])

abbrev pub set_secure : Str → Str → Str → List Str
set_secure svc host port = networksetup (codes "-setsecurewebproxy" ∷ svc ∷ host ∷ port ∷ [])

abbrev pub set_bypass : Str → List Str
set_bypass svc = networksetup (codes "-setproxybypassdomains" ∷ svc ∷ proxy_bypass)

abbrev pub web_off : Str → List Str
web_off svc = networksetup (codes "-setwebproxystate" ∷ svc ∷ codes "off" ∷ [])

abbrev pub secure_off : Str → List Str
secure_off svc = networksetup (codes "-setsecurewebproxystate" ∷ svc ∷ codes "off" ∷ [])

-- A line of the list that names an enabled service.
unfoldable pub is_service : Str → Bool
unfolding has_prefix
is_service line =
    if is_empty line || has_prefix line (codes "An asterisk")
    then false
    else not (has_prefix line (codes "*"))

services_of : List Str → List Str
unfolding is_service trim_space
services_of [] = []
services_of (line ∷ lines) =
    let rest = services_of lines in
    let name = trim_space line in if is_service name then name ∷ rest else rest

-- `parseNetworkServices`.
unfoldable pub parse_network_services : Str → List Str
unfolding services_of split_byte
parse_network_services out = services_of (split_byte 10 out)

module _ {M : Type 0} (mac : Mac M) where
  install_done : Str → M × (Str × Option Str) → M × Outcome
  install_done file (m, (out, none)) = (mac.remove_temp file m, ok)
  install_done file (m, (out, some e)) = (mac.remove_temp file m, failed e)

  install_written : Str → M × Option Str → M × Outcome
  unfolding install_done
  install_written file (m, some e) = (mac.remove_temp file m, failed e)
  install_written file (m, none) = install_done file (
      mac.run
        (security (
          codes "add-trusted-cert"
          ∷ codes "-d"
          ∷ codes "-r"
          ∷ codes "trustRoot"
          ∷ codes "-k"
          ∷ system_keychain
          ∷ file
          ∷ []))
        m)

  install_created : Str → M × Option Str → M × Outcome
  unfolding install_written
  install_created cert (m, none) = (m, failed (codes "temporary file"))
  install_created cert (m, some file) = install_written file (mac.write_temp file cert m)

  -- `InstallCA`; a temporary file that cannot be created has no name.
  unfoldable pub install_ca : Str → M → M × Outcome
  unfolding install_created
  install_ca cert m = install_created cert (mac.create_temp m)

  untrust_written : Str → M × Option Str → M × Option Str
  untrust_written file (m, some e) = (m, some file)
  untrust_written file (m, none) =
      ((mac.run (security (codes "remove-trusted-cert" ∷ codes "-d" ∷ file ∷ [])) m).0, some file)

  -- With the temporary file, which is removed at the end.
  untrust : Str → M × Option Str → M × Option Str
  unfolding untrust_written
  untrust cert (m, none) = (m, none)
  untrust cert (m, some file) = untrust_written file (mac.write_temp file cert m)

  removed : Option Str → M × Outcome → M × Outcome
  removed none r = r
  removed (some file) (m, result) = (mac.remove_temp file m, result)

  ended : M × (Str × Option Str) → M × Outcome
  ended (m, (out, none)) = (m, ok)
  ended (m, (out, some e)) = (m, failed e)

  uninstall_found : M × (Str × Option Str) → M × Outcome
  unfolding untrust ended removed
  uninstall_found (m, (out, some e)) = (m, ok)
  uninstall_found (m, (out, none)) =
      let (m', file) = untrust out (mac.create_temp m) in
      removed file (
        ended (
          mac.run
            (security (
              codes "delete-certificate"
              ∷ codes "-c"
              ∷ ca_common_name
              ∷ codes "-t"
              ∷ system_keychain
              ∷ []))
            m'))

  -- `UninstallCA`.
  unfoldable pub uninstall_ca : M → M × Outcome
  unfolding uninstall_found
  uninstall_ca m = uninstall_found (
      mac.run
        (security (
          codes "find-certificate"
          ∷ codes "-c"
          ∷ ca_common_name
          ∷ codes "-p"
          ∷ system_keychain
          ∷ []))
        m)

  -- Commands in order, up to the first that fails.
  unfoldable pub run_until : List (List Str) → M → M × Option Str
  run_until [] m = (m, none)
  run_until (c ∷ cs) m =
      let done = mac.run c m in
      let rest = run_until cs done.0 in elim done.1.1 [ none ↦ rest | some e ↦ (done.0, some e) ]

  unfoldable pub set_commands : Str → Str → List Str → List (List Str)
  set_commands host port [] = []
  set_commands host port (svc ∷ svcs) =
      set_web svc host port
      ∷ set_secure svc host port
      ∷ set_bypass svc
      ∷ set_commands host port svcs

  -- `networkServices`.
  unfoldable pub network_services : M → M × (List Str × Option Str)
  unfolding parse_network_services
  network_services m =
      let (m', (out, err)) = mac.run (networksetup (codes "-listallnetworkservices" ∷ [])) m in
      (m', (parse_network_services out, err))

  outcome_of : M × Option Str → M × Outcome
  outcome_of (m, none) = (m, ok)
  outcome_of (m, some e) = (m, failed e)

  set_on : Str → Str → M × (List Str × Option Str) → M × Outcome
  unfolding outcome_of run_until set_commands
  set_on host port (m, (svcs, some e)) = (m, failed e)
  set_on host port (m, (svcs, none)) = outcome_of (run_until (set_commands host port svcs) m)

  set_to : Option (Str × Str) → M → M × Outcome
  unfolding set_on network_services
  set_to none m = (m, failed (codes "invalid proxy address"))
  set_to (some (host, port)) m = set_on host port (network_services m)

  -- `SetSystemProxy`.
  unfoldable pub set_system_proxy : Str → M → M × Outcome
  unfolding set_to
  set_system_proxy host_port m = set_to (mac.split_host_port host_port) m

  -- The first error, as `firstErr` keeps it.
  abbrev pub or_first : Option Str → Option Str → Option Str
  or_first none e = e
  or_first (some first) e = some first

  -- The loop of `ClearSystemProxy`, which goes on after an error; `first` is `firstErr`.
  unfoldable pub clear_each : List Str → Option Str → M → M × Option Str
  clear_each [] first m = (m, first)
  clear_each (svc ∷ svcs) first m =
      let web = mac.run (web_off svc) m in
      let secure = mac.run (secure_off svc) web.0 in
      clear_each svcs (or_first (or_first first web.1.1) secure.1.1) secure.0

  clear_on : M × (List Str × Option Str) → M × Outcome
  unfolding outcome_of clear_each
  clear_on (m, (svcs, some e)) = (m, failed e)
  clear_on (m, (svcs, none)) = outcome_of (clear_each svcs none m)

  -- `ClearSystemProxy`.
  unfoldable pub clear_system_proxy : M → M × Outcome
  unfolding clear_on network_services
  clear_system_proxy m = clear_on (network_services m)

  -- The machine that the agent works on; transparent capture is that of `base`.
  unfoldable pub darwin_machine : Machine M → Machine M
  unfolding install_ca uninstall_ca set_system_proxy clear_system_proxy
  darwin_machine others = record others {
    install_ca = install_ca;
    uninstall_ca = uninstall_ca;
    set_system_proxy = set_system_proxy;
    clear_system_proxy = clear_system_proxy;
    start_transparent = λ addr hosts m. (m, not_implemented);
  }
