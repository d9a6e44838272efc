-- ===== src/Agent/Windows.antt =====
-- internal/adapter/adapter_windows.go: the operations of the adapter on Windows, over what commands,
-- temporary files and the registry do to a machine whose state is unknown. `Orderly` says that they
-- are what the agent's lifecycle needs.
pub mod Orderly
use mathlib.Core.Option.{Option, none, some}
use mathlib.Core.List.{List, [], ◌∷◌}
use aitori.Base.{ℕ}
use aitori.Base.Text.{Str, codes}
use aitori.Agent.{Machine, Outcome, failed, not_implemented, ok}

-- What the adapter uses of the system. `create_key` and `open_key` give the error for the key of the
-- Internet Settings; a value is written under its name in that key.
pub record Windows (M : Type 0) : Type 0 where
  pub run : List Str → M → M × Option Str
  pub create_temp : M → M × Option Str
  pub write_temp : Str → Str → M → M × Option Str
  pub remove_temp : Str → M → M
  pub create_key : M → M × Option Str
  pub open_key : M → M × Option Str
  pub set_string : Str → Str → M → M × Option Str
  pub set_dword : Str → ℕ → M → M × Option Str
  pub notify : M → M

module _ {M : Type 0} (win : Windows M) where
  unfoldable pub outcome_of : M × Option Str → M × Outcome
  outcome_of (m, none) = (m, ok)
  outcome_of (m, some e) = (m, failed e)

  unfoldable pub install_done : Str → M × Option Str → M × Outcome
  unfolding outcome_of
  install_done file (m, e) = outcome_of (win.remove_temp file m, e)

  unfoldable pub install_written : Str → M × Option Str → M × Outcome
  unfolding install_done
  install_written file (m, some e) = (win.remove_temp file m, failed e)
  install_written file (m, none) =
      install_done file
        (win.run (codes "certutil" ∷ codes "-addstore" ∷ codes "-f" ∷ codes "Root" ∷ file ∷ []) m)

  unfoldable pub install_created : Str → M × Option Str → M × Outcome
  unfolding install_written
  install_created cert (m, none) = (m, failed (codes "temporary file"))
  install_created cert (m, some file) = install_written file (win.write_temp file cert m)

  -- `InstallCA`; a temporary file that cannot be created has no name.
  unfoldable pub install_ca : Str → M → M × Outcome
  unfolding install_created
  install_ca cert m = install_created cert (win.create_temp m)

  -- `UninstallCA`.
  unfoldable pub uninstall_ca : M → M × Outcome
  unfolding outcome_of
  uninstall_ca m = outcome_of (
      win.run (codes "certutil" ∷ codes "-delstore" ∷ codes "Root" ∷ codes "aitori Device CA" ∷ [])
        m)

  unfoldable pub notified : M × Option Str → M × Outcome
  notified (m, some e) = (m, failed e)
  notified (m, none) = (win.notify m, ok)

  unfoldable pub override_set : M × Option Str → M × Outcome
  unfolding notified
  override_set (m, some e) = (m, failed e)
  override_set (m, none) = notified (win.set_dword (codes "ProxyEnable") 1 m)

  unfoldable pub server_set : M × Option Str → M × Outcome
  unfolding override_set
  server_set (m, some e) = (m, failed e)
  server_set (m, none) =
      override_set (win.set_string (codes "ProxyOverride") (codes "localhost;127.*;<local>") m)

  unfoldable pub key_created : Str → M × Option Str → M × Outcome
  unfolding server_set
  key_created host_port (m, some e) = (m, failed e)
  key_created host_port (m, none) = server_set (win.set_string (codes "ProxyServer") host_port m)

  -- `SetSystemProxy`.
  unfoldable pub set_system_proxy : Str → M → M × Outcome
  unfolding key_created
  set_system_proxy host_port m = key_created host_port (win.create_key m)

  unfoldable pub key_opened : M × Option Str → M × Outcome
  unfolding notified
  key_opened (m, some e) = (m, ok)
  key_opened (m, none) = notified (win.set_dword (codes "ProxyEnable") 0 m)

  -- `ClearSystemProxy`.
  unfoldable pub clear_system_proxy : M → M × Outcome
  unfolding key_opened
  clear_system_proxy m = key_opened (win.open_key m)

  -- The machine that the agent works on; transparent capture is that of `base`.
  unfoldable pub windows_machine : Machine M → Machine M
  unfolding install_ca uninstall_ca set_system_proxy clear_system_proxy
  windows_machine others = record others {
    install_ca = install_ca;
    uninstall_ca = uninstall_ca;
    set_system_proxy = set_system_proxy;
    clear_system_proxy = clear_system_proxy;
    start_transparent = λ addr hosts m. (m, not_implemented);
  }
