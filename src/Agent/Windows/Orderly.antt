-- ===== src/Agent/Windows/Orderly.antt =====
-- The operations on Windows are what the lifecycle of the agent needs.
use mathlib.Core.Path.{◌≡◌, refl, ◌∙◌}
use mathlib.Core.Option.{Option, none, some}
use mathlib.Core.List.{List}
use aitori.Base.{ℕ, Bool, false}
use aitori.Base.Text.{Str, codes}
use aitori.Agent.{Machine, ok}
use aitori.Agent.Lifecycle.{IsOrderly}
use aitori.Agent.Windows.{
  Windows, clear_system_proxy, install_ca, install_created, install_done, install_written,
  key_created, key_opened, notified, outcome_of, override_set, server_set, set_system_proxy,
  uninstall_ca, windows_machine,
}

-- What a system leaves alone of what is observed, other than by writing to the registry.
pub record Keeps {M : Type 0} (win : Windows M) (seen : M → Bool) : Type 0 where
  pub run : (c : List Str) (m : M) → seen (win.run c m).0 ≡ seen m
  pub temp : (m : M) → seen (win.create_temp m).0 ≡ seen m
  pub write : (file text : Str) (m : M) → seen (win.write_temp file text m).0 ≡ seen m
  pub remove : (file : Str) (m : M) → seen (win.remove_temp file m) ≡ seen m
  pub opened : (m : M) → seen (win.open_key m).0 ≡ seen m
  pub notified : (m : M) → seen (win.notify m) ≡ seen m

-- What it does to the proxy and to the settings of the clients: the registry leaves the settings
-- alone, the value 0 of `ProxyEnable` ends a proxy, and there is none where the key cannot be opened.
pub record IsLawful {M : Type 0} (win : Windows M) (proxied injected : M → Bool) : Type 0 where
  pub proxy : Keeps win proxied
  pub settings : Keeps win injected
  pub created : (m : M) → injected (win.create_key m).0 ≡ injected m
  pub strings : (name v : Str) (m : M) → injected (win.set_string name v m).0 ≡ injected m
  pub dwords : (name : Str) (n : ℕ) (m : M) → injected (win.set_dword name n m).0 ≡ injected m
  pub disabled :
      (m : M)
      → (win.set_dword (codes "ProxyEnable") 0 m).1 ≡ none
      → proxied (win.set_dword (codes "ProxyEnable") 0 m).0 ≡ false
  pub no_key : (m : M) (e : Str) → (win.open_key m).1 ≡ some e → proxied (win.open_key m).0 ≡ false

module _ {M : Type 0} (win : Windows M) (seen : M → Bool) (keeps : Keeps win seen) where
  seen-outcome_of : (p : M × Option Str) → seen (outcome_of win p).0 ≡ seen p.0
  unfolding outcome_of
  seen-outcome_of (m, none) = refl
  seen-outcome_of (m, some e) = refl

  seen-install_ca : (cert : Str) (m : M) → seen (install_ca win cert m).0 ≡ seen m
  unfolding install_ca
  seen-install_ca cert m = made (win.create_temp m) ∙ keeps.temp m
    where
      done : (file : Str) (p : M × Option Str) → seen (install_done win file p).0 ≡ seen p.0
      done file (m', e) = seen-outcome_of (win.remove_temp file m', e) ∙ keeps.remove file m'

      written : (file : Str) (p : M × Option Str) → seen (install_written win file p).0 ≡ seen p.0
      written file (m', some e) = keeps.remove file m'
      written file (m', none) = done file (win.run _ m') ∙ keeps.run _ m'

      made : (p : M × Option Str) → seen (install_created win cert p).0 ≡ seen p.0
      made (m', none) = refl
      made (m', some file) = written file (win.write_temp file cert m') ∙ keeps.write file cert m'

  seen-uninstall_ca : (m : M) → seen (uninstall_ca win m).0 ≡ seen m
  unfolding uninstall_ca
  seen-uninstall_ca m = seen-outcome_of (win.run _ m) ∙ keeps.run _ m

  seen-notified : (p : M × Option Str) → seen (notified win p).0 ≡ seen p.0
  unfolding notified
  seen-notified (m, some e) = refl
  seen-notified (m, none) = keeps.notified m

module _ {M : Type 0} (win : Windows M) (proxied injected : M → Bool)
    (lawful : IsLawful win proxied injected) where
  clear-settings : (m : M) → injected (clear_system_proxy win m).0 ≡ injected m
  unfolding clear_system_proxy
  clear-settings m = go (win.open_key m) ∙ lawful.settings.opened m
    where
      go : (p : M × Option Str) → injected (key_opened win p).0 ≡ injected p.0
      go (m', some e) = refl
      go (m', none) =
          seen-notified win injected lawful.settings (win.set_dword _ 0 m')
          ∙ lawful.dwords (codes "ProxyEnable") 0 m'

  set-settings : (addr : Str) (m : M) → injected (set_system_proxy win addr m).0 ≡ injected m
  unfolding set_system_proxy
  set-settings addr m = key (win.create_key m) ∙ lawful.created m
    where
      override : (p : M × Option Str) → injected (override_set win p).0 ≡ injected p.0
      override (m', some e) = refl
      override (m', none) =
          seen-notified win injected lawful.settings (win.set_dword _ 1 m')
          ∙ lawful.dwords (codes "ProxyEnable") 1 m'

      server : (p : M × Option Str) → injected (server_set win p).0 ≡ injected p.0
      server (m', some e) = refl
      server (m', none) =
          override (win.set_string _ _ m')
          ∙ lawful.strings (codes "ProxyOverride") (codes "localhost;127.*;<local>") m'

      key : (p : M × Option Str) → injected (key_created win addr p).0 ≡ injected p.0
      key (m', some e) = refl
      key (m', none) =
          server (win.set_string _ addr m') ∙ lawful.strings (codes "ProxyServer") addr m'

  clear-proxied :
      (m : M) → (clear_system_proxy win m).1 ≡ ok → proxied (clear_system_proxy win m).0 ≡ false
  unfolding clear_system_proxy
  clear-proxied m = opened (win.open_key m) (lawful.no_key m)
    where
      set :
          (p : M × Option Str)
          → ((p.1 ≡ none) → proxied p.0 ≡ false)
          → (notified win p).1 ≡ ok
          → proxied (notified win p).0 ≡ false
      set (m', some e) h k = absurd (cc k)
      set (m', none) h k = lawful.proxy.notified m' ∙ h refl

      opened :
          (p : M × Option Str)
          → ((e : Str) → p.1 ≡ some e → proxied p.0 ≡ false)
          → (key_opened win p).1 ≡ ok
          → proxied (key_opened win p).0 ≡ false
      opened (m', some e) h k = h e refl
      opened (m', none) h k = set (win.set_dword (codes "ProxyEnable") 0 m') (lawful.disabled m') k

  -- The adapter for Windows is what the lifecycle of the agent relies on: on a system on which the
  -- registry alone holds the proxy, the value 0 of `ProxyEnable` ends it and there is none where the
  -- key cannot be opened, with other operations that are as the lifecycle needs them.
  pub windows_machine-IsOrderly :
      (others : Machine M)
      → IsOrderly others proxied injected
      → IsOrderly (windows_machine win others) proxied injected
  unfolding windows_machine
  windows_machine-IsOrderly others rest = record {
    install = seen-install_ca win proxied lawful.proxy;
    install_settings = seen-install_ca win injected lawful.settings;
    uninstall = seen-uninstall_ca win proxied lawful.proxy;
    uninstall_settings = seen-uninstall_ca win injected lawful.settings;
    set_settings = set-settings;
    clear = clear-proxied;
    clear_settings = clear-settings;
    start = λ addr hosts m. refl;
    start_settings = λ addr hosts m. refl;
    close = rest.close;
    close_settings = rest.close_settings;
    revert = rest.revert;
    revert_settings = rest.revert_settings;
  }
