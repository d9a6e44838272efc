-- ===== src/Agent/Lifecycle.antt =====
-- What is left of the proxy and of the injected settings when the agent has gone.
use mathlib.Core.Path.{◌≡◌, refl, ◌∙◌}
use mathlib.Core.Option.{Option, none, some}
use mathlib.Core.List.{List}
use aitori.Base.{Bool, true, false, if◌then◌else◌}
use aitori.Base.Text.{Str}
use mathlib.Core.Logic.{◌≢◌}
use aitori.Config.{patterns}
use aitori.Agent.{
  Agent, Machine, Outcome, Revert, ca_installed, clear_and_revert, down, failed, not_implemented,
  nothing, ok, proxy_set, run_revert, serve, cleared, serve_bound, serve_on, setup_os,
  setup_transparent, started, tier1, tier2,
}

-- What the operations do to the two things that must not stay behind: a system proxy that points at
-- the agent, and settings that do.
pub record IsOrderly {M : Type 0} (machine : Machine M) (proxied injected : M → Bool) : Type 0 where
  pub install : (cert : Str) (m : M) → proxied (machine.install_ca cert m).0 ≡ proxied m
  pub install_settings : (cert : Str) (m : M) → injected (machine.install_ca cert m).0 ≡ injected m
  pub uninstall : (m : M) → proxied (machine.uninstall_ca m).0 ≡ proxied m
  pub uninstall_settings : (m : M) → injected (machine.uninstall_ca m).0 ≡ injected m
  pub set_settings :
      (addr : Str) (m : M) → injected (machine.set_system_proxy addr m).0 ≡ injected m
  pub clear :
      (m : M)
      → (machine.clear_system_proxy m).1 ≡ ok
      → proxied (machine.clear_system_proxy m).0 ≡ false
  pub clear_settings : (m : M) → injected (machine.clear_system_proxy m).0 ≡ injected m
  pub start :
      (addr : Str) (hosts : List Str) (m : M)
      → proxied (machine.start_transparent addr hosts m).0 ≡ proxied m
  pub start_settings :
      (addr : Str) (hosts : List Str) (m : M)
      → injected (machine.start_transparent addr hosts m).0 ≡ injected m
  pub close : (m : M) → proxied (machine.close_transparent m).0 ≡ proxied m
  pub close_settings : (m : M) → injected (machine.close_transparent m).0 ≡ injected m
  pub revert : (m : M) → proxied (machine.revert_settings m).0 ≡ proxied m
  pub revert_settings :
      (m : M) → (machine.revert_settings m).1 ≡ ok → injected (machine.revert_settings m).0 ≡ false

module _ {M : Type 0} (machine : Machine M) (proxied injected : M → Bool)
    (orderly : IsOrderly machine proxied injected) where
  -- Neither is there.
  abbrev pub IsClean : M → Type 0
  IsClean m = (proxied m ≡ false) × (injected m ≡ false)

  -- The proxy is cleared and the settings are reverted, wherever that is tried.
  abbrev pub CanUndo : Type 0
  CanUndo =
      ((m : M) → (machine.clear_system_proxy m).1 ≡ ok)
      × ((m : M) → (machine.revert_settings m).1 ≡ ok)

  module _ (undo : CanUndo) where
    clear-IsClean : (m : M) → injected m ≡ false → IsClean (machine.clear_system_proxy m).0
    clear-IsClean m h = (orderly.clear m (undo.0 m), orderly.clear_settings m ∙ h)

    revert-IsClean : (m : M) → proxied m ≡ false → IsClean (machine.revert_settings m).0
    revert-IsClean m h = (orderly.revert m ∙ h, orderly.revert_settings m (undo.1 m))

    uninstall-IsClean : (m : M) → IsClean m → IsClean (machine.uninstall_ca m).0
    uninstall-IsClean m (p, q) = (orderly.uninstall m ∙ p, orderly.uninstall_settings m ∙ q)

    module _ (a : Agent) (addr : Str) (session : M → M)
        (quiet : (m : M) → IsClean m → IsClean (session m)) where
      -- What `setupOS` leaves and returns, the session, and the way out.
      abbrev ended : M × Revert → M
      ended set = run_revert machine a addr set.1 (session set.0)

      ended-clear : (m : M) → IsClean (ended (m, clear_and_revert))
      unfolding run_revert
      ended-clear m = revert-IsClean _ (orderly.clear (session m) (undo.0 (session m)))

      ended-nothing :
          (m : M)
          → injected m ≡ false
          → IsClean (ended ((machine.uninstall_ca (machine.clear_system_proxy m).0).0, nothing))
      unfolding run_revert
      ended-nothing m h = quiet _ (uninstall-IsClean _ (clear-IsClean m h))

      proxy_set-IsClean :
          (p : M × Outcome) → injected p.0 ≡ false → IsClean (ended (proxy_set machine a addr p))
      unfolding proxy_set
      proxy_set-IsClean (m, ok) h = ended-clear _
      proxy_set-IsClean (m, not_implemented) h = ended-nothing m h
      proxy_set-IsClean (m, failed e) h = ended-nothing m h

      ca_installed-IsClean :
          (p : M × Outcome) → IsClean p.0 → IsClean (ended (ca_installed machine a addr p))
      unfolding ca_installed run_revert
      ca_installed-IsClean (m, ok) h =
          proxy_set-IsClean (machine.set_system_proxy addr m) (orderly.set_settings addr m ∙ h.1)
      ca_installed-IsClean (m, not_implemented) h = quiet m h
      ca_installed-IsClean (m, failed e) h = quiet m h

      tier1-IsClean : (m : M) → IsClean m → IsClean (tier1 machine a addr session m)
      unfolding tier1 setup_os
      tier1-IsClean m (p, q) =
          let reverted = revert-IsClean m p in
          ca_installed-IsClean (machine.install_ca a.cert (machine.revert_settings m).0)
            (orderly.install a.cert _ ∙ reverted.0, orderly.install_settings a.cert _ ∙ reverted.1)

      tier2-IsClean : (p : M × Bool) → IsClean p.0 → IsClean (tier2 machine a addr session p)
      unfolding tier2
      tier2-IsClean (m, true) h =
          let (p, q) = quiet m h in
          (orderly.close (session m) ∙ p, orderly.close_settings (session m) ∙ q)
      tier2-IsClean (m, false) h = tier1-IsClean m h

      started-IsClean : (p : M × Outcome) → IsClean p.0 → IsClean (started machine a addr p).0
      unfolding started
      started-IsClean (m, ok) h = h
      started-IsClean (m, not_implemented) h = h
      started-IsClean (m, failed e) h = h

      serve_on-IsClean :
          (with_os : Bool) (m : M) → IsClean m → IsClean (serve_on machine a addr session with_os m)
      unfolding serve_on setup_transparent
      serve_on-IsClean false m h = quiet m h
      serve_on-IsClean true m (p, q) = either a.cfg.proxy.transparent
        where
          capture : M × Outcome
          capture = machine.start_transparent addr (patterns a.cfg.intercept_hosts) m

          captured : IsClean capture.0
          captured = (orderly.start addr _ m ∙ p, orderly.start_settings addr _ m ∙ q)

          either :
              (b : Bool)
              → IsClean (
                  if b
                  then tier2 machine a addr session (setup_transparent machine a addr m)
                  else tier1 machine a addr session m)
          either true = tier2-IsClean _ (started-IsClean capture captured)
          either false = tier1-IsClean m (p, q)

    serve_bound-IsClean :
        (a : Agent) (session : M → M)
        → ((m : M) → IsClean m → IsClean (session m))
        → (with_os ui : Bool) (addr : Option Str) (m : M) → IsClean m
        → IsClean (serve_bound machine a session with_os ui addr m).0
    unfolding serve_bound
    serve_bound-IsClean a session quiet with_os ui none m h = h
    serve_bound-IsClean a session quiet with_os false (some addr) m h = h
    serve_bound-IsClean a session quiet with_os true (some addr) m h =
        serve_on-IsClean a addr session quiet with_os m h

    -- However the agent is started and whatever fails but the undoing itself, neither a system
    -- proxy that points at it nor settings that do stay behind when it has gone: on a machine with
    -- orderly operations where neither was there, where the proxy can be cleared and the settings
    -- reverted, and with a session that adds neither.
    pub serve-IsClean :
        (a : Agent) (listen : Str → Option Str) (session : M → M)
        → ((m : M) → IsClean m → IsClean (session m))
        → (with_os : Bool) (m : M) → IsClean m
        → IsClean (serve machine a listen session with_os m).0
    unfolding serve
    serve-IsClean a listen session quiet with_os m h =
        serve_bound-IsClean a session quiet with_os _ (listen a.cfg.proxy.listen) m h

  cleared-IsClean :
      (p : M × Outcome)
      → (p.1 ≡ ok → proxied p.0 ≡ false)
      → injected p.0 ≡ false
      → p.1 ≢ not_implemented
      → (cleared machine p).1 ≡ none
      → IsClean (cleared machine p).0
  unfolding cleared
  cleared-IsClean (m, ok) clear h n e = (clear refl, h)
  cleared-IsClean (m, not_implemented) clear h n e = absurd (n refl)
  cleared-IsClean (m, failed x) clear h n e = cc e

  -- From whatever a run that was killed has left, the command `down` that ends without an error
  -- leaves neither a system proxy nor injected settings behind, on a machine with orderly
  -- operations that has an adapter and where the settings can be reverted.
  pub down-IsClean :
      (m : M)
      → (machine.revert_settings m).1 ≡ ok
      → (machine.clear_system_proxy (machine.revert_settings m).0).1 ≢ not_implemented
      → (down machine m).1 ≡ none
      → IsClean (down machine m).0
  unfolding down
  down-IsClean m reverted n e =
      let m' = (machine.revert_settings m).0 in
      cleared-IsClean (machine.clear_system_proxy m') (orderly.clear m')
        (orderly.clear_settings m' ∙ orderly.revert_settings m reverted) n e
