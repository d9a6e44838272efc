-- ===== src/Router/Guards.antt =====
-- When a request is rewritten, and that it is left alone otherwise.
use mathlib.Core.Bool.{false≢true}
use mathlib.Core.Option.{Option, none, some}
use mathlib.Core.List.{[], ◌∷◌}
use mathlib.Core.Logic.{◌⊎◌, inl, inr, ◌↔◌, ◌≢◌}
use mathlib.Core.Path.{◌≡◌, refl, sym, ap, ◌∙◌}
use aitori.Base.{or_iff, ℕ, Bool, true, false, not, ◌&&◌, is_empty, if◌then◌else◌, arith}
use aitori.Base.Text.{Str, str_eq_iff}
use aitori.Http.{Url, Request}
use aitori.HostMatch.{normalize}
use aitori.Circuit.{is_open}
use aitori.Router.{Router, token_of, targets_gateway, rewritten, rewrite_to, rewrite}

-- The request's host or the host of its URL is the gateway's.
abbrev pub IsLoop : Router → Request → Type 0
IsLoop r req =
    (r.gateway_host ≢ [])
    × ((normalize req.host ≡ r.gateway_host) ⊎ (normalize req.url.host ≡ r.gateway_host))

unless_empty_iff :
    {P : Type 0} (s : Str) (b : Bool)
    → (b ≡ true) ↔ P
    → ((if is_empty s then false else b) ≡ true) ↔ ((s ≢ []) × P)
unless_empty_iff [] b p = (λ h. cc, λ (n, _). absurd (n refl))
unless_empty_iff (c ∷ s) b p = (λ h. (λ e. cc, p.0 h), λ (_, x). p.1 x)

pub targets_gateway_iff :
    (r : Router) (req : Request) → (targets_gateway r req ≡ true) ↔ IsLoop r req
unfolding targets_gateway
targets_gateway_iff r req = unless_empty_iff r.gateway_host _ (
    or_iff _ _ (str_eq_iff (normalize req.host) r.gateway_host)
      (str_eq_iff (normalize req.url.host) r.gateway_host))

-- What a reroute needs.
pub record MayReroute (r : Router) (now : ℕ) (req : Request) : Type 0 where
  pub gateway : Url
  pub configured : r.gateway_url ≡ some gateway
  pub no_loop : ¬ IsLoop r req
  pub identified : (token_of r.token ≢ []) ⊎ (r.auth_disabled ≡ true)
  pub healthy : is_open r.breaker now ≡ false

pub not_true : {b : Bool} → ¬ (b ≡ true) → b ≡ false
not_true {b} n = ground arith

identified_iff :
    (tok : Str) (disabled : Bool)
    → ((is_empty tok && not disabled) ≡ false) ↔ ((tok ≢ []) ⊎ (disabled ≡ true))
identified_iff [] true = (λ _. inr refl, λ _. refl)
identified_iff [] false = (λ h. cc, λ s. elim s [ inl n ↦ absurd (n refl) | inr e ↦ cc ])
identified_iff (c ∷ tok) disabled = (λ _. inl (λ e. cc), λ _. refl)

module _ (r : Router) (now : ℕ) (req : Request) (app_id category : Str) (pid : ℕ) where
  rewrite_to-guards :
      (gw : Url)
      → (rewrite_to (some gw) r now req app_id category pid).1 ≡ true
      → (targets_gateway r req ≡ false)
        × ((is_empty (token_of r.token) && not r.auth_disabled) ≡ false)
        × (is_open r.breaker now ≡ false)
  unfolding rewrite_to
  rewrite_to-guards gw h = (ground arith, ground arith, ground arith)

  rewrite_to-MayReroute :
      (o : Option Url)
      → r.gateway_url ≡ o
      → (rewrite_to o r now req app_id category pid).1 ≡ true
      → MayReroute r now req
  rewrite_to-MayReroute none e h = unfold rewrite_to in cc
  rewrite_to-MayReroute (some gw) e h =
      let (no_loop, named, healthy) = rewrite_to-guards gw h in
      record {
        gateway = gw;
        configured = e;
        no_loop = λ l. false≢true (sym no_loop ∙ (targets_gateway_iff r req).1 l);
        identified = (identified_iff (token_of r.token) r.auth_disabled).0 named;
        healthy = healthy;
      }

  rewrite_to-some :
      (gw : Url)
      → targets_gateway r req ≡ false
      → (is_empty (token_of r.token) && not r.auth_disabled) ≡ false
      → is_open r.breaker now ≡ false
      → rewrite_to (some gw) r now req app_id category pid
        ≡ (rewritten r gw req (token_of r.token) app_id category pid, true)
  unfolding rewrite_to
  rewrite_to-some gw a b c = rw (a, b, c)

  -- Where nothing stands in the way, the request is rewritten for the configured gateway.
  pub rewrite-MayReroute :
      (m : MayReroute r now req)
      → rewrite r now req app_id category pid
        ≡ (rewritten r m.gateway req (token_of r.token) app_id category pid, true)
  unfolding rewrite
  rewrite-MayReroute m =
      ap (λ o. rewrite_to o r now req app_id category pid) m.configured
      ∙ rewrite_to-some m.gateway (not_true (λ h. m.no_loop ((targets_gateway_iff r req).0 h)))
          ((identified_iff (token_of r.token) r.auth_disabled).1 m.identified) m.healthy

  -- The request is rewritten exactly if a gateway is configured, the request does not already
  -- target it, there is a token or authentication is disabled, and the breaker is not open.
  pub rewrite_iff : ((rewrite r now req app_id category pid).1 ≡ true) ↔ MayReroute r now req
  unfolding rewrite
  rewrite_iff =
      (rewrite_to-MayReroute r.gateway_url refl, λ m. ap (λ p. p.1) (rewrite-MayReroute m))

  rewrite_to_declined :
      (o : Option Url)
      → (rewrite_to o r now req app_id category pid).1 ≡ false
      → (rewrite_to o r now req app_id category pid).0 ≡ req
  unfolding rewrite_to
  rewrite_to_declined none h = refl
  rewrite_to_declined (some gw) h = ground arith

  -- A request that is not rewritten is left exactly as it was.
  pub rewrite_declined :
      (rewrite r now req app_id category pid).1 ≡ false
      → (rewrite r now req app_id category pid).0 ≡ req
  unfolding rewrite
  rewrite_declined h = rewrite_to_declined r.gateway_url h
