-- ===== src/Agent/Darwin/Cleared.antt =====
-- When `ClearSystemProxy` of internal/adapter/adapter_darwin.go has turned every proxy off.
use mathlib.Core.Path.{◌≡◌, refl}
use mathlib.Core.Option.{Option, none, some}
use mathlib.Core.List.{List, [], ◌∷◌}
use aitori.Base.{Bool, false, All}
use aitori.Base.Text.{Str}
use aitori.Agent.{ok}
use aitori.Agent.Darwin.{
  Mac, clear_each, clear_on, clear_system_proxy, network_services, or_first, outcome_of, secure_off,
  web_off,
}

-- What `networksetup` does to the proxies of the services: turning one off succeeds only when it is
-- off, and turns none on.
pub record IsLawful {M : Type 0} (mac : Mac M) (web secure : Str → M → Bool) : Type 0 where
  pub web_is_off :
      (svc : Str) (m : M)
      → (mac.run (web_off svc) m).1.1 ≡ none
      → web svc (mac.run (web_off svc) m).0 ≡ false
  pub secure_is_off :
      (svc : Str) (m : M)
      → (mac.run (secure_off svc) m).1.1 ≡ none
      → secure svc (mac.run (secure_off svc) m).0 ≡ false
  pub web_off-web :
      (s svc : Str) (m : M) → web s m ≡ false → web s (mac.run (web_off svc) m).0 ≡ false
  pub web_off-secure :
      (s svc : Str) (m : M) → secure s m ≡ false → secure s (mac.run (web_off svc) m).0 ≡ false
  pub secure_off-web :
      (s svc : Str) (m : M) → web s m ≡ false → web s (mac.run (secure_off svc) m).0 ≡ false
  pub secure_off-secure :
      (s svc : Str) (m : M) → secure s m ≡ false → secure s (mac.run (secure_off svc) m).0 ≡ false

or_first-none :
    {M : Type 0} (mac : Mac M) (a b : Option Str)
    → or_first mac a b ≡ none
    → (a ≡ none) × (b ≡ none)
or_first-none mac none b h = (refl, h)
or_first-none mac (some e) b h = cc

module _ {M : Type 0} (mac : Mac M) (web secure : Str → M → Bool)
    (lawful : IsLawful mac web secure) where
  -- Both proxies of a service are off.
  abbrev pub IsOff : M → Str → Type 0
  IsOff m svc = (web svc m ≡ false) × (secure svc m ≡ false)

  -- A service that is off stays off, and an error that was met is kept.
  clear_each-keeps :
      (svcs : List Str) (first : Option Str) (m : M) (s : Str)
      → IsOff m s
      → IsOff (clear_each mac svcs first m).0 s
  unfolding clear_each
  clear_each-keeps [] first m s h = h
  clear_each-keeps (svc ∷ svcs) first m s (w, t) =
      let m1 = (mac.run (web_off svc) m).0 in
      clear_each-keeps svcs _ _ s (
        lawful.secure_off-web s svc m1 (lawful.web_off-web s svc m w),
        lawful.secure_off-secure s svc m1 (lawful.web_off-secure s svc m t),
      )

  clear_each-first :
      (svcs : List Str) (first : Option Str) (m : M)
      → (clear_each mac svcs first m).1 ≡ none
      → first ≡ none
  unfolding clear_each
  clear_each-first [] first m h = h
  clear_each-first (svc ∷ svcs) first m h =
      let both = clear_each-first svcs _ _ h in
      (or_first-none mac first _ (or_first-none mac (or_first mac first _) _ both).0).0

  clear_each-IsOff :
      (svcs : List Str) (first : Option Str) (m : M)
      → (clear_each mac svcs first m).1 ≡ none
      → All (IsOff (clear_each mac svcs first m).0) svcs
  unfolding clear_each
  clear_each-IsOff [] first m h = tt
  clear_each-IsOff (svc ∷ svcs) first m h =
      let m1 = (mac.run (web_off svc) m).0 in
      let both = or_first-none mac (or_first mac first _) _ (clear_each-first svcs _ _ h) in
      let off : IsOff (mac.run (secure_off svc) m1).0 svc = (
        lawful.secure_off-web svc svc m1
            (lawful.web_is_off svc m (or_first-none mac first _ both.0).1),
        lawful.secure_is_off svc m1 both.1,
      ) in
      (clear_each-keeps svcs _ _ svc off, clear_each-IsOff svcs _ _ h)

  clear_on-IsOff :
      (p : M × (List Str × Option Str))
      → (clear_on mac p).1 ≡ ok
      → All (IsOff (clear_on mac p).0) p.1.0
  unfolding clear_on
  clear_on-IsOff (m, (svcs, some e)) h = cc
  clear_on-IsOff (m, (svcs, none)) h =
      go (clear_each mac svcs none m) (clear_each-IsOff svcs none m) h
    where
      go :
          (p : M × Option Str)
          → ((p.1 ≡ none) → All (IsOff p.0) svcs)
          → (outcome_of mac p).1 ≡ ok
          → All (IsOff (outcome_of mac p).0) svcs
      go (m', none) k e = k refl
      go (m', some x) k e = cc e

  -- On a system where turning a proxy off succeeds only when it is off, and turns none on: when
  -- `ClearSystemProxy` reports no error, both proxies of every enabled service that was listed
  -- are off, however many services there are; an error on one of them is reported in the end.
  pub clear_system_proxy-IsOff :
      (m : M)
      → (clear_system_proxy mac m).1 ≡ ok
      → All (IsOff (clear_system_proxy mac m).0) (network_services mac m).1.0
  unfolding clear_system_proxy
  clear_system_proxy-IsOff m h = clear_on-IsOff (network_services mac m) h
