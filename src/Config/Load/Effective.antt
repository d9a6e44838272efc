-- ===== src/Config/Load/Effective.antt =====
-- The configuration that the agent runs on: it is valid, it honours the flags, and its gateway can be
-- parsed again.
use mathlib.Core.Option.{Option, none, some}
use mathlib.Core.List.{[], ◌∷◌}
use mathlib.Core.Path.{◌≡◌, refl, sym}
use mathlib.Core.Logic.{◌≢◌, inl, inr}
use aitori.Base.{
  Option-cases, ℕ, Bool, true, false, bind-some, some-injective, is_empty, ◌>>=◌, if◌then◌else◌,
}
use aitori.Base.Text.{Str, or_default}
use aitori.Http.{Url}
use aitori.Config.{Config, use_builtin_profiles}
use aitori.Config.Validate.{validate}
use aitori.Config.Validate.Consistent.{IsConsistent, validate_iff}
use aitori.Config.Overlay.{Builtin, overlay}
use aitori.SysUser.{expand}
use aitori.Config.Load.{
  expanded_or, Flags, apply, checked, cli_overrides, gateway_url, load, load_config, overlaid,
  parsed, with_profiles,
}

-- Every flag that is given has its way; the two paths with `~` replaced by the home directory.
pub record Honours (home : Str) (f : Flags) (c : Config) : Type 0 where
  pub gateway : (f.gateway_url ≢ []) → c.gateway.url ≡ f.gateway_url
  pub header_ctx : (f.header_ctx ≢ []) → c.gateway.header_ctx ≡ f.header_ctx
  pub token_file : (f.token_file ≢ []) → c.gateway.auth.token_file ≡ expand home f.token_file
  pub listen : (f.listen ≢ []) → c.proxy.listen ≡ f.listen
  pub ca_dir : (f.ca_dir ≢ []) → c.proxy.ca_dir ≡ expand home f.ca_dir
  pub transparent : (f.transparent ≡ true) → c.proxy.transparent ≡ true
  pub no_auth : (f.no_auth ≡ true) → c.gateway.auth.disabled ≡ true
  pub ui : (f.ui ≡ true) → c.ui.enabled ≡ true
  pub ui_listen : (f.ui_listen ≢ []) → c.ui.listen ≡ f.ui_listen

or_default-given : (a b : Str) → (a ≢ []) → or_default a b ≡ a
or_default-given [] b h = absurd (h refl)
or_default-given (x ∷ a) b h = refl

module _ (home : Str) (f : Flags) where
  expanded_or-given : (p old : Str) → (p ≢ []) → expanded_or home p old ≡ expand home p
  unfolding expanded_or
  expanded_or-given [] old h = absurd (h refl)
  expanded_or-given (x ∷ p) old h = refl

  apply-Honours : (c : Config) → Honours home f (apply home (cli_overrides f) c)
  unfolding apply
  apply-Honours c = record {
    gateway = or_default-given f.gateway_url c.gateway.url;
    header_ctx = or_default-given f.header_ctx c.gateway.header_ctx;
    token_file = expanded_or-given f.token_file c.gateway.auth.token_file;
    listen = or_default-given f.listen c.proxy.listen;
    ca_dir = expanded_or-given f.ca_dir c.proxy.ca_dir;
    transparent = λ e. rw e refl;
    no_auth = λ e. rw e refl;
    ui = λ e. rw e refl;
    ui_listen = or_default-given f.ui_listen c.ui.listen;
  }

  -- The overlay leaves what the flags set alone.
  overlaid-Honours :
      (b : Option Builtin) (c d : Config)
      → Honours home f c
      → (overlaid home b c ≡ some d)
      → Honours home f d
  unfolding overlaid overlay
  overlaid-Honours none c d h e = cc
  overlaid-Honours (some b) c d h e = rw (sym (some-injective _ _ e)) (record {
    gateway = h.gateway;
    header_ctx = h.header_ctx;
    token_file = h.token_file;
    listen = h.listen;
    ca_dir = h.ca_dir;
    transparent = h.transparent;
    no_auth = h.no_auth;
    ui = h.ui;
    ui_listen = h.ui_listen;
  })

  with_profiles-Honours :
      (b : Option Builtin) (c d : Config)
      → Honours home f c
      → (with_profiles home b c ≡ some d)
      → Honours home f d
  unfolding with_profiles
  with_profiles-Honours b c d h e = either (use_builtin_profiles c) e
    where
      either :
          (on : Bool) → ((if on then overlaid home b c else some c) ≡ some d) → Honours home f d
      either true e = overlaid-Honours b c d h e
      either false e = rw (sym (some-injective _ _ e)) h

module _ (parse_url : Str → Option Url) (hostname : Url → Str)
    (parse_duration : Str → Option ℕ) where
  -- What is checked is not changed, and it is consistent.
  checked-IsConsistent :
      (home : Str) (read_config : Str → Option Config) (builtin : Option Builtin) (c d : Config)
      → (checked parse_url hostname parse_duration home read_config builtin c ≡ some d)
      → (c ≡ d) × IsConsistent parse_url hostname parse_duration d
  unfolding checked
  checked-IsConsistent home read_config builtin c d e =
      elim (Option-cases (validate parse_url hostname parse_duration c)) [
        | inl v ↦
            let same : c ≡ d = some-injective _ _ (rw v at e) in
            (same, rw (sym same) ((validate_iff parse_url hostname parse_duration c).0 v))
        | inr (problem, v) ↦ cc (rw v at e)
      ]

  -- The gateway's URL of a consistent configuration parses.
  gateway_url-IsConsistent :
      (c : Config)
      → IsConsistent parse_url hostname parse_duration c
      → gateway_url parse_url c ≢ none
  unfolding gateway_url parsed
  gateway_url-IsConsistent c k = elim k.url [
    | inl e ↦ rw e (λ q. cc q)
    | inr (u, (e, q)) ↦ rw e (present (is_empty c.gateway.url) u)
  ]
    where
      present : (b : Bool) (u : Url) → (if b then some none else some (some u)) ≢ none
      present true u q = cc q
      present false u q = cc q

  -- A configuration that `loadConfig` returns passes `Validate`; every flag but `--config` that is
  -- given on the command line has its way in it, whatever the file and the profiles say, the token
  -- file and the CA directory with their `~` expanded; and `GatewayURL` has no error on it.
  pub load_config-IsConsistent :
      (home : Str) (read_config : Str → Option Config) (builtin : Option Builtin) (f : Flags)
      (c : Config)
      → (load_config parse_url hostname parse_duration home read_config builtin f ≡ some c)
      → IsConsistent parse_url hostname parse_duration c
        × (Honours home f c × (gateway_url parse_url c ≢ none))
  unfolding load_config
  load_config-IsConsistent home read_config builtin f c e =
      let check = checked parse_url hostname parse_duration home read_config builtin in
      let profiles = with_profiles home builtin in
      let read = load parse_url hostname parse_duration home read_config builtin f.config in
      let flags : Config → Config = λ loaded. apply home (cli_overrides f) loaded in
      let (loaded, (_, e)) = bind-some read (λ l. profiles (flags l) >>= check) c e in
      let (whole, (chosen, e)) = bind-some (profiles (flags loaded)) check c e in
      let (same, k) = checked-IsConsistent home read_config builtin whole c e in
      let honours =
        with_profiles-Honours home f builtin (flags loaded) whole (apply-Honours home f loaded)
          chosen in
      (k, (rw (sym same) honours, gateway_url-IsConsistent c k))
