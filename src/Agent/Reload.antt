-- ===== src/Agent/Reload.antt =====
-- What a reload keeps: the running proxy stays consistent, and never decrypts its own reroutes.
use mathlib.Core.Path.{◌≡◌, refl, sym, ap, ◌∙◌}
use mathlib.Core.Logic.{inl, inr}
use mathlib.Core.Option.{Option, none, some}
use mathlib.Core.List.{List, [], ◌∷◌, ◌++◌}
use aitori.Base.{ℕ, ◌≤◌, arith, All, true, false, Option-cases, bind-some, some-injective, ◌>>=◌}
use aitori.Base.Text.{Str, is_space}
use aitori.Base.Text.Laws.{NoSpace, Lacks}
use aitori.Http.{Request, Url}
use aitori.HostMatch.{normalize}
use aitori.HostMatch.Ports.{IsName, normalize-name, normalize-port}
use aitori.Config.{Config}
use aitori.Config.Load.{Flags, gateway_url, load_config}
use aitori.Config.Load.Effective.{load_config-IsConsistent}
use aitori.Config.Overlay.{Builtin}
use aitori.Config.Validate.Consistent.{IsConsistent}
use aitori.Gate.{should_mitm}
use aitori.Gate.Verdicts.{should_mitm-gateway_host}
use aitori.Router
use aitori.Router.{Router, rewrite}
use aitori.Router.Guards.{rewrite_iff}
use aitori.Router.Rewritten.{rewrite-target}
use aitori.Agent.Live.{
  Device, Live, build_router, host_of_gateway, live_of, new_live, router_to, reload, replace,
}

-- A host as a gateway's URL has it: a name, or a name, a colon and a port in digits.
pub data IsPlain (host : Str) : Type 0 where
  bare : IsName host → IsPlain host
  ported :
      (name port : Str)
      → IsName name
      → All (λ c. (48 ≤ c) × (c ≤ 57)) port
      → host ≡ name ++ b':' ∷ port
      → IsPlain host

-- What is relied on of `URL.Hostname`: it is the host without a port in digits.
pub record StripsPort (hostname : Url → Str) : Type 0 where
  pub bare_host : (u : Url) → IsName u.host → hostname u ≡ u.host
  pub ported_host :
      (u : Url) (name port : Str)
      → IsName name
      → All (λ c. (48 ≤ c) × (c ≤ 57)) port
      → u.host ≡ name ++ b':' ∷ port
      → hostname u ≡ name

digits-NoSpace : (port : Str) → All (λ c. (48 ≤ c) × (c ≤ 57)) port → NoSpace port
unfolding is_space
digits-NoSpace [] d = tt
digits-NoSpace (c ∷ port) (d, ds) = (ground arith, digits-NoSpace port ds)

digits-Lacks : (port : Str) → All (λ c. (48 ≤ c) × (c ≤ 57)) port → Lacks b':' port
digits-Lacks [] d = tt
digits-Lacks (c ∷ port) (d, ds) = (λ e. omega (arith, e, d), digits-Lacks port ds)

-- One host, whether by `Hostname` or by the field.
normalize-hostname :
    (hostname : Url → Str)
    → StripsPort hostname
    → (u : Url) → IsPlain u.host
    → normalize (hostname u) ≡ normalize u.host
normalize-hostname hostname h u (bare n) = ap normalize (h.bare_host u n)
normalize-hostname hostname h u (ported name port n d e) =
    ap normalize (h.ported_host u name port n d e)
    ∙ normalize-name name n
    ∙ sym (normalize-port name port n (digits-NoSpace port d) (digits-Lacks port d))
    ∙ ap normalize (sym e)

module _ (parse_url : Str → Option Url) (hostname : Url → Str) (parse_duration : Str → Option ℕ)
    (device : Device) where
  -- The state that the proxy runs on: a configuration that passed `Validate`, and one gateway, to
  -- which the router sends and which the gate leaves alone.
  pub record IsGoverned (live : Live) : Type 0 where
    pub consistent : IsConsistent parse_url hostname parse_duration live.cfg
    pub agrees : live.gate.gateway_host ≡ live.router.gateway_host
    pub addressed :
        (gw : Url)
        → live.router.gateway_url ≡ some gw
        → live.router.gateway_host ≡ normalize gw.host

  -- A configuration read anew: its flags, its file, and the built-in profiles.
  pub record Attempt : Type 0 where
    pub home : Str
    pub read_config : Str → Option Config
    pub builtin : Option Builtin
    pub flags : Flags

  abbrev pub loaded_by : Attempt → Option Config
  loaded_by t = load_config parse_url hostname parse_duration t.home t.read_config t.builtin t.flags

  -- One reload after the other.
  abbrev pub reloads : List Attempt → Live → Live
  reloads [] live = live
  reloads (t ∷ ts) live = reloads ts (reload parse_url hostname device (loaded_by t) live)

  -- A gateway that is configured has a plain host.
  abbrev pub HasPlainGateway : Config → Type 0
  HasPlainGateway cfg = (u : Url) → gateway_url parse_url cfg ≡ some (some u) → IsPlain u.host

  -- Whatever an attempt loads has such a gateway.
  abbrev pub LoadsPlain : Attempt → Type 0
  LoadsPlain t = (cfg : Config) → loaded_by t ≡ some cfg → HasPlainGateway cfg

  module _ (strips : StripsPort hostname) where
    same-gateway_host :
        (o : Option Url)
        → ((u : Url) → o ≡ some u → IsPlain u.host)
        → normalize (host_of_gateway hostname (some o)) ≡ Router.gateway_host_of o
    unfolding Router.gateway_host_of normalize
    same-gateway_host none plain = refl
    same-gateway_host (some u) plain = normalize-hostname hostname strips u (plain u refl)

    pub live_of-IsGoverned :
        (cfg : Config) (o : Option Url)
        → IsConsistent parse_url hostname parse_duration cfg
        → gateway_url parse_url cfg ≡ some o
        → HasPlainGateway cfg
        → IsGoverned (live_of parse_url hostname device cfg (router_to device cfg o))
    unfolding live_of router_to Router.new
    live_of-IsGoverned cfg o k e plain = record {
      consistent = k;
      agrees =
          ap (λ w. normalize (host_of_gateway hostname w)) e
          ∙ same-gateway_host o (λ u q. plain u (e ∙ ap some q));
      addressed = λ gw q. ap Router.gateway_host_of q;
    }

    new_live-IsGoverned :
        (cfg : Config) (live : Live)
        → IsConsistent parse_url hostname parse_duration cfg
        → new_live parse_url hostname device cfg ≡ some live
        → HasPlainGateway cfg
        → IsGoverned live
    unfolding new_live build_router
    new_live-IsGoverned cfg live k e plain =
        let built = build_router parse_url device cfg in
        let (router, (b, e)) =
          bind-some built (λ r. some (live_of parse_url hostname device cfg r)) live e in
        let (url, (u, b)) =
          bind-some (gateway_url parse_url cfg) (λ o. some (router_to device cfg o)) router b in
        rw (sym (some-injective _ _ e))
          (rw (sym (some-injective _ _ b)) (live_of-IsGoverned cfg url k u plain))

    reload-IsGoverned :
        (t : Attempt) (live : Live)
        → LoadsPlain t
        → IsGoverned live
        → IsGoverned (reload parse_url hostname device (loaded_by t) live)
    unfolding reload replace
    reload-IsGoverned t live plain g =
        elim (Option-cases (loaded_by t >>= new_live parse_url hostname device)) [
          | inl e ↦ rw e g
          | inr (fresh, e) ↦
              let (cfg, (l, n)) =
                bind-some (loaded_by t) (new_live parse_url hostname device) fresh e in
              let k =
                (load_config-IsConsistent parse_url hostname parse_duration t.home t.read_config
                  t.builtin t.flags cfg l).0 in
              rw e (new_live-IsGoverned cfg fresh k n (plain cfg l))
        ]

    reloads-IsGoverned :
        (ts : List Attempt) (live : Live)
        → All LoadsPlain ts
        → IsGoverned live
        → IsGoverned (reloads ts live)
    reloads-IsGoverned [] live plain g = g
    reloads-IsGoverned (t ∷ ts) live (plain, rest) g =
        reloads-IsGoverned ts _ rest (reload-IsGoverned t live plain g)

    -- Through any number of reloads, whether they succeed or fail, the proxy runs on a configuration
    -- that passes `Validate`, and a request that its router has rewritten is never decrypted by its
    -- gate: where it started on one gateway that the gate leaves alone, where every gateway that is
    -- loaded has a name for its host, with a port in digits or without one, and where `URL.Hostname`
    -- of such a URL is the name.
    pub reloads-never_decrypt :
        (ts : List Attempt) (live : Live)
        → All LoadsPlain ts
        → IsGoverned live
        → let after = reloads ts live in
          IsConsistent parse_url hostname parse_duration after.cfg
          × ((now : ℕ) (req : Request) (app_id category : Str) (pid : ℕ)
              → (rewrite after.router now req app_id category pid).1 ≡ true
              → should_mitm after.gate (rewrite after.router now req app_id category pid).0.host
                ≡ false)
    reloads-never_decrypt ts live plain g =
        let g = reloads-IsGoverned ts live plain g in
        let router = (reloads ts live).router in
        (
          g.consistent,
          λ now req app_id category pid h.
              let m = (rewrite_iff router now req app_id category pid).0 h in
              should_mitm-gateway_host (reloads ts live).gate _ (
                ap normalize (rewrite-target router now req app_id category pid m).0
                ∙ sym (g.addressed m.gateway m.configured)
                ∙ sym g.agrees),
        )
