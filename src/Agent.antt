-- ===== src/Agent.antt =====
-- cmd/aitori/commands.go: the agent, which puts the parts together, touches the machine it runs on and
-- takes back what it did. The machine is an unknown state with the operations of
-- internal/adapter/adapter.go and of the client settings. `Lifecycle` says what is left of the proxy,
-- `Live` models a reload, `Reload` says what it keeps, `Linux` models the operations on Linux.
pub mod Lifecycle
pub mod Live
pub mod Reload
pub mod Linux
pub mod Darwin
pub mod Windows
mod Tests
mod SystemTests
use mathlib.Core.Option.{Option, none, some}
use mathlib.Core.List.{List, [], ◌∷◌, ◌++◌}
use aitori.Base.{Bool, true, false, not, if◌then◌else◌}
use aitori.Base.Text.{Str, codes}
use aitori.Config.{Config, InjectEntry, SettingsInject, is_on, patterns}

-- How an operation on the machine ends: `ErrNotImplemented` is an outcome of its own.
pub data Outcome : Type 0 where
  ok : Outcome
  not_implemented : Outcome
  failed : Str → Outcome

-- `Adapter` and the client settings, over the state `M` of the machine.
pub record Machine (M : Type 0) : Type 0 where
  pub install_ca : Str → M → M × Outcome
  pub uninstall_ca : M → M × Outcome
  pub set_system_proxy : Str → M → M × Outcome
  pub clear_system_proxy : M → M × Outcome
  pub start_transparent : Str → List Str → M → M × Outcome
  pub close_transparent : M → M × Outcome  -- `TransparentHandle.Close`
  pub revert_settings : M → M × Outcome  -- `clientcfg.RevertAll`
  pub inject_settings : Str → Str → Str → Str → Str → M → M × Option Str  -- `clientcfg.InjectSettings`

-- `base`: every operation of an adapter that a platform does not have.
unfoldable pub without_adapter : {M : Type 0} → Machine M → Machine M
without_adapter machine = record machine {
  install_ca = λ cert m. (m, not_implemented);
  uninstall_ca = λ m. (m, not_implemented);
  set_system_proxy = λ addr m. (m, not_implemented);
  clear_system_proxy = λ m. (m, not_implemented);
  start_transparent = λ addr hosts m. (m, not_implemented);
}

-- What `setupOS` returns to be called on the way out.
pub data Revert : Type 0 where
  nothing : Revert
  clear_and_revert : Revert

-- `agent`, as far as the machine is concerned: the configuration, the certificate and its path.
pub record Agent : Type 0 where
  pub cfg : Config
  pub cert : Str
  pub ca_path : Str

abbrev managed_path_of : Option SettingsInject → Str
managed_path_of none = []
managed_path_of (some s) = s.managed_path

abbrev user_path_of : Option SettingsInject → Str
user_path_of none = []
user_path_of (some s) = s.user_path

module _ {M : Type 0} (machine : Machine M) where
  inject_one : InjectEntry → Str → Str → M → M × Option Str
  inject_one e addr ca_path m =
      machine.inject_settings e.app (managed_path_of e.settings) (user_path_of e.settings) addr
        ca_path m

  line_of : InjectEntry → Option Str → List Str
  line_of e none = []
  line_of e (some target) = (e.app ++ (codes " (settings) -> " ++ target)) ∷ []

  -- `applyInjections`, with the lines it returns.
  unfoldable pub apply_injections : List InjectEntry → Str → Str → M → M × List Str
  unfolding inject_one line_of
  apply_injections [] addr ca_path m = (m, [])
  apply_injections (e ∷ entries) addr ca_path m =
      let one = inject_one e addr ca_path m in
      let injected = apply_injections entries addr ca_path one.0 in
      let skipped = apply_injections entries addr ca_path m in
      if not (is_on e) then skipped else (injected.0, line_of e one.1 ++ injected.1)

  -- `clearProxy`, which only warns of an error.
  abbrev pub clear_proxy : M → M
  clear_proxy m = (machine.clear_system_proxy m).0

  -- `revertClientConfig`, which only warns of an error.
  abbrev pub revert_client_config : M → M
  revert_client_config m = (machine.revert_settings m).0

  module _ (a : Agent) (addr : Str) where
    proxy_set : M × Outcome → M × Revert
    unfolding apply_injections
    proxy_set (m, ok) = ((apply_injections a.cfg.inject addr a.ca_path m).0, clear_and_revert)
    proxy_set (m, not_implemented) = ((machine.uninstall_ca (clear_proxy m)).0, nothing)
    proxy_set (m, failed e) = ((machine.uninstall_ca (clear_proxy m)).0, nothing)

    ca_installed : M × Outcome → M × Revert
    unfolding proxy_set
    ca_installed (m, ok) = proxy_set (machine.set_system_proxy addr m)
    ca_installed (m, not_implemented) = (m, nothing)
    ca_installed (m, failed e) = (m, nothing)

    -- `setupOS`.
    unfoldable pub setup_os : M → M × Revert
    unfolding ca_installed
    setup_os m = ca_installed (machine.install_ca a.cert (revert_client_config m))

    started : M × Outcome → M × Bool
    started (m, ok) = (m, true)
    started (m, not_implemented) = (m, false)
    started (m, failed e) = (m, false)

    -- `setupTransparent`.
    unfoldable pub setup_transparent : M → M × Bool
    unfolding started
    setup_transparent m =
        started (machine.start_transparent addr (patterns a.cfg.intercept_hosts) m)

    -- The call that `setupOS` returned.
    unfoldable pub run_revert : Revert → M → M
    run_revert nothing m = m
    run_revert clear_and_revert m = revert_client_config (clear_proxy m)

    -- `revertTransparent`, once there is a handle.
    abbrev pub revert_transparent : M → M
    revert_transparent m = (machine.close_transparent m).0

    module _ (session : M → M) where
      tier1 : M → M
      unfolding setup_os run_revert
      tier1 m = let set = setup_os m in run_revert set.1 (session set.0)

      -- With a transparent capture, and else with the system proxy.
      tier2 : M × Bool → M
      unfolding tier1
      tier2 (m, true) = revert_transparent (session m)
      tier2 (m, false) = tier1 m

      -- What `serve` does to the machine, once it listens; `session` is what happens meanwhile.
      unfoldable pub serve_on : Bool → M → M
      unfolding tier1 tier2 setup_transparent
      serve_on with_os m =
          if not with_os
          then session m
          else if a.cfg.proxy.transparent
          then tier2 (setup_transparent m)
          else tier1 m

  -- Whether a listener for the live page is there, where it is needed.
  ui_listens : Bool → Bool → Bool
  ui_listens enabled listens = if enabled then listens else true

  is_bound : Option Str → Bool
  is_bound none = false
  is_bound (some addr) = true

  serve_bound : Agent → (M → M) → Bool → Bool → Option Str → M → M × Bool
  unfolding serve_on
  serve_bound a session with_os ui none m = (m, false)
  serve_bound a session with_os false (some addr) m = (m, false)
  serve_bound a session with_os true (some addr) m = (serve_on a addr session with_os m, true)

  -- `serve`; `listen` binds an address and gives the one it has got. It returns whether it served.
  unfoldable pub serve : Agent → (Str → Option Str) → (M → M) → Bool → M → M × Bool
  unfolding serve_bound ui_listens is_bound
  serve a listen session with_os m =
      serve_bound a session with_os
        (ui_listens a.cfg.ui.enabled (is_bound (listen a.cfg.ui.listen)))
        (listen a.cfg.proxy.listen) m

  cleared : M × Outcome → M × Option Str
  cleared (m, ok) = (m, none)
  cleared (m, not_implemented) = (m, none)
  cleared (m, failed e) = (m, some e)

  -- The command `down`, which gives the error that it returns.
  unfoldable pub down : M → M × Option Str
  unfolding cleared
  down m = cleared (machine.clear_system_proxy (revert_client_config m))
