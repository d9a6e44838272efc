-- ===== src/Config/Validate/Consistent.antt =====
-- Which configurations `Validate` accepts.
use mathlib.Core.Path.{◌≡◌, refl, ap, ◌∙◌}
use mathlib.Core.Logic.{◌⊎◌, inl, inr, ◌↔◌, ◌≢◌}
use mathlib.Core.Option.{Option, none, some}
use mathlib.Core.List.{List, [], ◌∷◌}
use aitori.Base.{
  or_iff, and_iff, is_empty_iff, not_iff, ℕ, Bool, true, false, not, ◌&&◌, is_empty, any,
  Option-cases, All, Exists, any_iff,
}
use aitori.Base.Text.{Str, codes, str_eq_iff, trim_space}
use aitori.Http.{Url}
use aitori.HostMatch
use aitori.Config.{Config, patterns, fail_open, fail_closed}
use aitori.Config.Validate.{
  bad_scheme, bad_dial_timeout, report, check_host, check_rule, check_inject, check_sink,
  check_listeners, check_headers, check_url, check_parsed, gateway_host, check_loop, check_entries,
  validate, dial_timeout_or_default,
}
use aitori.Config.Validate.Checks.{
  Passes, or_else_iff, report_iff, report-not_iff, HostFits, RuleFits, InjectFits, SinkFits,
  check_host_iff, check_rule_iff, check_inject_iff, check_sink_iff, check_each_iff, HasIds,
  HasIds-iff, eq_iff, is_none_iff,
}

-- The gateway's URL is not set, or it parses, with a scheme of HTTP and a host.
abbrev pub UrlFits : (Str → Option Url) → Str → Type 0
UrlFits parse_url url =
    (url ≡ [])
    ⊎ ((u : Url) × ((parse_url url ≡ some u)
          × (((u.scheme ≡ codes "https") ⊎ (u.scheme ≡ codes "http")) × (u.host ≢ []))))

none_of_iff :
    (headers : List (Str × Str))
    → (any (λ kv. is_empty (trim_space kv.0)) headers ≡ true)
      ↔ Exists (λ kv. trim_space kv.0 ≡ []) headers
none_of_iff headers = any_iff (λ kv. is_empty_iff (trim_space kv.0)) headers

-- The addresses to listen on are set, and differ.
abbrev pub ListenersFit : Config → Type 0
ListenersFit c =
    (c.version ≡ 1)
    × ((c.proxy.listen ≢ [])
        × ((¬ ((c.ui.enabled ≡ true) × (c.ui.listen ≡ [])))
            × (¬ ((c.ui.enabled ≡ true) × (c.ui.listen ≡ c.proxy.listen)))))

-- The error mode is known, and every header has a name.
abbrev pub HeadersFit : Config → Type 0
HeadersFit c =
    ((c.gateway.on_error ≡ fail_open) ⊎ (c.gateway.on_error ≡ fail_closed))
    × ((¬ (
          (c.gateway.header_token ≡ [])
          ⊎ ((c.gateway.header_orig ≡ []) ⊎ (c.gateway.header_ctx ≡ []))))
        × (¬ Exists (λ kv. trim_space kv.0 ≡ []) c.gateway.headers))

abbrev pub EntriesFit : Config → Type 0
EntriesFit c =
    All HostFits c.intercept_hosts
    × (All RuleFits c.rules × (All InjectFits c.inject × (HasIds c.apps × All SinkFits c.sinks)))

check_listeners_iff : (c : Config) → Passes (check_listeners c) (ListenersFit c)
unfolding check_listeners
check_listeners_iff c = or_else_iff _ _ (report-not_iff _ _ (eq_iff c.version 1)) (
    or_else_iff _ _ (report_iff _ _ (is_empty_iff c.proxy.listen)) (
      or_else_iff _ _ (report_iff _ _ (and_iff _ _ (λ h. h, λ h. h) (is_empty_iff c.ui.listen)))
        (report_iff _ _ (and_iff _ _ (λ h. h, λ h. h) (str_eq_iff c.ui.listen c.proxy.listen)))))

check_headers_iff : (c : Config) → Passes (check_headers c) (HeadersFit c)
unfolding check_headers
check_headers_iff c =
    or_else_iff _ _
      (report-not_iff _ _ (
        or_iff _ _ (str_eq_iff c.gateway.on_error fail_open)
          (str_eq_iff c.gateway.on_error fail_closed)))
      (or_else_iff _ _
        (report_iff _ _ (
          or_iff _ _ (is_empty_iff c.gateway.header_token)
            (or_iff _ _ (is_empty_iff c.gateway.header_orig) (is_empty_iff c.gateway.header_ctx))))
        (report_iff _ _ (none_of_iff c.gateway.headers)))

module _ (parse_url : Str → Option Url) (hostname : Url → Str)
    (parse_duration : Str → Option ℕ) where
  -- No pattern of the allowlist covers the gateway.
  abbrev pub HasNoLoop : Config → Type 0
  HasNoLoop c =
      let host = gateway_host parse_url hostname parse_duration c.gateway.url in
      ¬ ((host ≢ []) × (HostMatch.match_any (patterns c.intercept_hosts) host ≡ true))

  -- A configuration with no problem.
  pub record IsConsistent (c : Config) : Type 0 where
    pub listeners : ListenersFit c
    pub headers : HeadersFit c
    pub url : UrlFits parse_url c.gateway.url
    pub timeout : parse_duration (dial_timeout_or_default c.gateway.dial_timeout) ≢ none
    pub no_loop : HasNoLoop c
    pub entries : EntriesFit c

  check_loop_iff :
      (c : Config) → Passes (check_loop parse_url hostname parse_duration c) (HasNoLoop c)
  unfolding check_loop
  check_loop_iff c = report_iff _ _ (and_iff _ _ (not_iff _ (is_empty_iff _)) (λ h. h, λ h. h))

  check_entries_iff :
      (c : Config) → Passes (check_entries parse_url hostname parse_duration c) (EntriesFit c)
  unfolding check_entries
  check_entries_iff c =
      or_else_iff _ _ (check_each_iff check_host check_host_iff 0 c.intercept_hosts) (
        or_else_iff _ _ (check_each_iff check_rule check_rule_iff 0 c.rules) (
          or_else_iff _ _ (check_each_iff check_inject check_inject_iff 0 c.inject) (
            or_else_iff _ _ (HasIds-iff c.apps)
              (check_each_iff check_sink check_sink_iff 0 c.sinks))))

  check_parsed_iff :
      (u : Url)
      → Passes
          (check_parsed parse_url hostname parse_duration (some u))
          (((u.scheme ≡ codes "https") ⊎ (u.scheme ≡ codes "http")) × (u.host ≢ []))
  unfolding check_parsed
  check_parsed_iff u =
      or_else_iff _ _
        (scheme _ _ (str_eq_iff u.scheme (codes "https")) (str_eq_iff u.scheme (codes "http")))
        (report_iff _ _ (is_empty_iff u.host))
    where
      scheme :
          {P Q : Type 0} (a b : Bool)
          → ((a ≡ true) ↔ P)
          → ((b ≡ true) ↔ Q)
          → Passes (report (not a && not b) bad_scheme) (P ⊎ Q)
      scheme true b p q = (λ h. inl (p.0 refl), λ h. refl)
      scheme false true p q = (λ h. inr (q.0 refl), λ h. refl)
      scheme false false p q = (λ h. cc, λ h. elim h [ inl x ↦ cc (p.1 x) | inr y ↦ cc (q.1 y) ])

  check_url_iff :
      (url : Str) → Passes (check_url parse_url hostname parse_duration url) (UrlFits parse_url url)
  unfolding check_url check_parsed
  check_url_iff [] = (λ h. inl refl, λ h. refl)
  check_url_iff (c ∷ url) = elim (Option-cases (parse_url (c ∷ url))) [
    | inl e ↦ rw e (λ h. cc, λ h. elim h [ inl q ↦ cc | inr (u, (f, g)) ↦ cc ])
    | inr (u, e) ↦ rw e (
      λ h. inr (u, (refl, (check_parsed_iff u).0 h)),
      λ h. elim h [
        | inl q ↦ cc
        | inr (v, (f, g)) ↦
            ap (check_parsed parse_url hostname parse_duration) f ∙ (check_parsed_iff v).1 g
      ],
    )
  ]

  -- `Validate` accepts exactly the consistent configurations: the version and the error mode are
  -- known, the listeners are set and differ, headers have names, the gateway's URL and the dial
  -- timeout parse, no allowlisted pattern covers the gateway, every host, rule, injection and sink
  -- is well formed, and the applications have ids, no two the same.
  pub validate_iff :
      (c : Config) → (validate parse_url hostname parse_duration c ≡ none) ↔ IsConsistent c
  unfolding validate
  validate_iff c =
      let iff = or_else_iff _ _ (check_listeners_iff c) (
        or_else_iff _ _ (check_headers_iff c) (
          or_else_iff _ _ (check_url_iff c.gateway.url) (
            or_else_iff _ _
              (report_iff _ bad_dial_timeout
                (is_none_iff (parse_duration (dial_timeout_or_default c.gateway.dial_timeout))))
              (or_else_iff _ _ (check_loop_iff c) (check_entries_iff c))))) in
      (
        λ h.
            let (l, (h, (u, (t, (n, e))))) = iff.0 h in
            record { listeners = l; headers = h; url = u; timeout = t; no_loop = n; entries = e },
        λ k. iff.1 (k.listeners, (k.headers, (k.url, (k.timeout, (k.no_loop, k.entries))))),
      )
