-- ===== src/Agent/SystemTests.antt =====
-- Small machines with Windows and with macOS, and the theorems at them.
use mathlib.Core.Path.{◌≡◌, refl}
use mathlib.Core.Option.{Option, none, some}
use mathlib.Core.List.{List, [], ◌∷◌, ◌++◌}
use aitori.Base.{Bool, true, false, not, All, Bool-cases, inl, inr, ◌==◌, if◌then◌else◌}
use aitori.Base.Text.{Str, codes, has_prefix, split_byte, str_eq, str_eq_refl, trim_space}
use aitori.Agent.{Machine, ok}
use aitori.Agent.Lifecycle.{IsOrderly}
use aitori.Agent.Windows.{Windows, windows_machine}
use aitori.Agent.Windows.Orderly.{IsLawful, Keeps, windows_machine-IsOrderly}
use aitori.Agent.Darwin.{
  Mac, clear_each, clear_system_proxy, is_service, network_services, parse_network_services,
}
use aitori.Agent.Darwin.Cleared.{IsOff, clear_system_proxy-IsOff}
use aitori.Agent.Darwin.Cleared

-- Whether there is a proxy, and whether settings are injected.
abbrev State : Type 0
State = Bool × Bool

abbrev proxied : State → Bool
proxied m = m.0

abbrev injected : State → Bool
injected m = m.1

-- Only `ProxyEnable` is a number.
abbrev registry : Windows State
registry = record {
  run = λ c m. (m, none);
  create_temp = λ m. (m, some (codes "ca.crt"));
  write_temp = λ file text m. (m, none);
  remove_temp = λ file m. m;
  create_key = λ m. (m, none);
  open_key = λ m. (m, none);
  set_string = λ name v m. (m, none);
  set_dword = λ name n m. ((not (n == 0), m.1), none);
  notify = λ m. m;
}

registry-Keeps : (seen : State → Bool) → Keeps registry seen
registry-Keeps seen = record {
  run = λ c m. refl;
  temp = λ m. refl;
  write = λ file text m. refl;
  remove = λ file m. refl;
  opened = λ m. refl;
  notified = λ m. refl;
}

registry-IsLawful : IsLawful registry proxied injected
registry-IsLawful = record {
  proxy = registry-Keeps proxied;
  settings = registry-Keeps injected;
  created = λ m. refl;
  strings = λ name v m. refl;
  dwords = λ name n m. refl;
  disabled = λ m e. refl;
  no_key = λ m e h. cc h;
}

-- Operations that do nothing but end what they should.
abbrev plain : Machine State
plain = record {
  install_ca = λ cert m. (m, ok);
  uninstall_ca = λ m. (m, ok);
  set_system_proxy = λ addr m. (m, ok);
  clear_system_proxy = λ m. ((false, m.1), ok);
  start_transparent = λ addr hosts m. (m, ok);
  close_transparent = λ m. (m, ok);
  revert_settings = λ m. ((m.0, false), ok);
  inject_settings = λ app managed user addr ca m. ((m.0, true), some managed);
}

plain-IsOrderly : IsOrderly plain proxied injected
plain-IsOrderly = record {
  install = λ cert m. refl;
  install_settings = λ cert m. refl;
  uninstall = λ m. refl;
  uninstall_settings = λ m. refl;
  set_settings = λ addr m. refl;
  clear = λ m e. refl;
  clear_settings = λ m. refl;
  start = λ addr hosts m. refl;
  start_settings = λ addr hosts m. refl;
  close = λ m. refl;
  close_settings = λ m. refl;
  revert = λ m. refl;
  revert_settings = λ m e. refl;
}

registry_machine-IsOrderly : IsOrderly (windows_machine registry plain) proxied injected
registry_machine-IsOrderly =
    windows_machine-IsOrderly registry proxied injected registry-IsLawful plain plain-IsOrderly

-- The services that have a web proxy, and those that have a secure one.
abbrev Proxies : Type 0
Proxies = (Str → Bool) × (Str → Bool)

abbrev without : Str → (Str → Bool) → Str → Bool
without svc on s = if str_eq s svc then false else on s

abbrev listing : Str
listing =
    codes "An asterisk (*) denotes that a network service is disabled."
    ++ 10 ∷ codes "Wi-Fi"
    ++ 10 ∷ codes "*Bluetooth"
    ++ 10 ∷ codes "USB LAN"
    ++ 10 ∷ []

listed : parse_network_services listing ≡ codes "Wi-Fi" ∷ codes "USB LAN" ∷ []
unfolding parse_network_services is_service has_prefix split_byte trim_space
listed = refl

run_mac : List Str → Proxies → Proxies × (Str × Option Str)
unfolding str_eq
run_mac (name ∷ verb ∷ svc ∷ args) (web, secure) =
    if str_eq verb (codes "-setwebproxystate")
    then ((without svc web, secure), ([], none))
    else if str_eq verb (codes "-setsecurewebproxystate")
    then ((web, without svc secure), ([], none))
    else ((web, secure), ([], none))
run_mac args m = (m, (listing, none))

abbrev mac : Mac Proxies
mac = record {
  run = run_mac;
  create_temp = λ m. (m, some (codes "/tmp/ca.pem"));
  write_temp = λ file text m. (m, none);
  remove_temp = λ file m. m;
  split_host_port = λ s. some (s, codes "8080");
}

without_self : (svc : Str) (on : Str → Bool) → without svc on svc ≡ false
without_self svc on = rw (str_eq_refl svc) refl

without-off : (s svc : Str) (on : Str → Bool) → on s ≡ false → without svc on s ≡ false
without-off s svc on h = elim (Bool-cases (str_eq s svc)) [ inl e ↦ rw e refl | inr e ↦ rw e h ]

mac-IsLawful : Cleared.IsLawful mac (λ s m. m.0 s) (λ s m. m.1 s)
unfolding run_mac
mac-IsLawful = record {
  web_is_off = λ svc m e. without_self svc m.0;
  secure_is_off = λ svc m e. without_self svc m.1;
  web_off-web = λ s svc m h. without-off s svc m.0 h;
  web_off-secure = λ s svc m h. h;
  secure_off-web = λ s svc m h. h;
  secure_off-secure = λ s svc m h. without-off s svc m.1 h;
}

abbrev everywhere : Proxies
everywhere = (λ s. true, λ s. true)

clear_system_proxy-IsOff_example :
    All
      (IsOff mac (λ s m. m.0 s) (λ s m. m.1 s) mac-IsLawful (clear_system_proxy mac everywhere).0)
      (network_services mac everywhere).1.0
unfolding clear_system_proxy network_services run_mac clear_each
clear_system_proxy-IsOff_example =
    clear_system_proxy-IsOff mac (λ s m. m.0 s) (λ s m. m.1 s) mac-IsLawful everywhere refl
