-- ===== src/Config/Validate.antt =====
-- internal/config/load.go: `Validate`, which names the first problem of a configuration. The
-- parsers of net/url and time are parameters, and so is `Hostname`, the host of a URL less its
-- port. `Checks` reads the single checks,
-- `Consistent` says which configurations have no problem.
pub mod Checks
pub mod Consistent
mod Tests
use mathlib.Core.Option.{Option, none, some}
use mathlib.Core.List.{List, [], ◌∷◌}
use aitori.Base.{ℕ, suc, Bool, true, false, not, ◌&&◌, ◌||◌, ◌==◌, is_empty, any, if◌then◌else◌}
use aitori.Base.Text.{Str, codes, str_eq, trim_space}
use aitori.Http.{Url}
use aitori.HostMatch
use aitori.Config.{
  Config, InterceptHost, Rule, InjectEntry, AppProfile, SinkConfig, patterns, category_llm,
  category_mcp, category_other, action_reroute, action_passthrough, action_block, fail_open,
  fail_closed, inject_mode_settings,
}

-- The errors, with the place of the entry that they are about.
pub data Problem : Type 0 where
  bad_version : Problem
  no_listen : Problem
  no_ui_listen : Problem
  same_listen : Problem
  bad_on_error : Problem
  no_header : Problem
  empty_header_name : Problem
  bad_url : Problem
  bad_scheme : Problem
  no_url_host : Problem
  bad_dial_timeout : Problem
  gateway_in_hosts : Problem
  no_host : ℕ → Problem
  bad_action : ℕ → Problem
  bad_category : ℕ → Problem
  empty_rule : ℕ → Problem
  no_app : ℕ → Problem
  bad_mode : ℕ → Problem
  no_app_id : ℕ → Problem
  duplicate_app_id : ℕ → Problem
  bad_sink_type : ℕ → Problem
  no_sink_path : ℕ → Problem

-- `if bad { return problem }`
abbrev pub report : Bool → Problem → Option Problem
report bad problem = if bad then some problem else none

-- `if err := first; err != nil { return err }; return second`
abbrev pub or_else : Option Problem → Option Problem → Option Problem
or_else none second = second
or_else (some problem) second = some problem

-- `SchemaVersion`.
abbrev pub schema_version : ℕ
schema_version = 1

-- `validateAction`, as a test of the action.
unfoldable pub is_action : Str → Bool
unfolding str_eq
is_action action =
    is_empty action
    || (str_eq action action_reroute
        || (str_eq action action_passthrough || str_eq action action_block))

-- `validateCategory`, as a test of the category.
unfoldable pub is_category : Str → Bool → Bool
unfolding str_eq
is_category category optional =
    str_eq category category_llm
    || (str_eq category category_mcp
        || (str_eq category category_other || (optional && is_empty category)))

unfoldable pub check_host : ℕ → InterceptHost → Option Problem
unfolding is_action is_category
check_host i h = or_else (report (is_empty h.host) (no_host i)) (
    or_else (report (not (is_action h.action)) (bad_action i))
      (report (not (is_category h.category true)) (bad_category i)))

-- `validateRule`.
unfoldable pub check_rule : ℕ → Rule → Option Problem
unfolding is_action is_category
check_rule i r = or_else (report (not (is_category r.category true)) (bad_category i)) (
    or_else (report (is_empty r.category && is_empty r.action) (empty_rule i))
      (report (not (is_action r.action)) (bad_action i)))

unfoldable pub check_inject : ℕ → InjectEntry → Option Problem
unfolding str_eq
check_inject i e =
    or_else (report (is_empty e.app) (no_app i))
      (report (not (is_empty e.mode || str_eq e.mode inject_mode_settings)) (bad_mode i))

unfoldable pub check_sink : ℕ → SinkConfig → Option Problem
unfolding str_eq
check_sink i s =
    or_else
      (report (not (str_eq s.kind (codes "stdout") || str_eq s.kind (codes "file")))
        (bad_sink_type i))
      (report (str_eq s.kind (codes "file") && is_empty s.path) (no_sink_path i))

-- The loops over the entries: the first problem of an entry ends them.
module _ {ℓ} {A : Type ℓ} (check : ℕ → A → Option Problem) where
  unfoldable pub check_each : ℕ → List A → Option Problem
  check_each i [] = none
  check_each i (x ∷ xs) = or_else (check i x) (check_each (suc i) xs)

-- The loop over the applications; `seen` holds the ids met before.
unfoldable pub check_apps : List Str → ℕ → List AppProfile → Option Problem
unfolding any str_eq
check_apps seen i [] = none
check_apps seen i (app ∷ apps) = or_else (report (is_empty app.id) (no_app_id i)) (
    or_else (report (any (str_eq app.id) seen) (duplicate_app_id i))
      (check_apps (app.id ∷ seen) (suc i) apps))

unfoldable pub check_listeners : Config → Option Problem
unfolding str_eq
check_listeners c = or_else (report (not (c.version == schema_version)) bad_version) (
    or_else (report (is_empty c.proxy.listen) no_listen) (
      or_else (report (c.ui.enabled && is_empty c.ui.listen) no_ui_listen)
        (report (c.ui.enabled && str_eq c.ui.listen c.proxy.listen) same_listen)))

unfoldable pub check_headers : Config → Option Problem
unfolding str_eq any trim_space
check_headers c =
    or_else
      (report (not (str_eq c.gateway.on_error fail_open || str_eq c.gateway.on_error fail_closed))
        bad_on_error)
      (or_else
        (report
          (is_empty c.gateway.header_token
            || (is_empty c.gateway.header_orig || is_empty c.gateway.header_ctx))
          no_header)
        (report (any (λ kv. is_empty (trim_space kv.0)) c.gateway.headers) empty_header_name))

abbrev is_none {ℓ} : {A : Type ℓ} → Option A → Bool
is_none none = true
is_none (some a) = false

-- `DialTimeoutOrDefault`.
abbrev pub dial_timeout_or_default : Str → Str
dial_timeout_or_default [] = codes "5s"
dial_timeout_or_default (c ∷ s) = c ∷ s

module _ (parse_url : Str → Option Url) (hostname : Url → Str)
    (parse_duration : Str → Option ℕ) where
  check_parsed : Option Url → Option Problem
  unfolding str_eq
  check_parsed none = some bad_url
  check_parsed (some u) =
      or_else
        (report (not (str_eq u.scheme (codes "https")) && not (str_eq u.scheme (codes "http")))
          bad_scheme)
        (report (is_empty u.host) no_url_host)

  unfoldable pub check_url : Str → Option Problem
  unfolding check_parsed
  check_url url = if is_empty url then none else check_parsed (parse_url url)

  hostname_of : Option Url → Str
  hostname_of none = []
  hostname_of (some u) = hostname u

  -- `gwHost`, once the URL has been checked.
  unfoldable pub gateway_host : Str → Str
  unfolding hostname_of
  gateway_host url = if is_empty url then [] else hostname_of (parse_url url)

  unfoldable pub check_loop : Config → Option Problem
  unfolding gateway_host
  check_loop c =
      let host = gateway_host c.gateway.url in
      report (not (is_empty host) && HostMatch.match_any (patterns c.intercept_hosts) host)
        gateway_in_hosts

  unfoldable pub check_entries : Config → Option Problem
  unfolding check_each check_host check_rule check_inject check_apps check_sink
  check_entries c = or_else (check_each check_host 0 c.intercept_hosts) (
      or_else (check_each check_rule 0 c.rules) (
        or_else (check_each check_inject 0 c.inject)
          (or_else (check_apps [] 0 c.apps) (check_each check_sink 0 c.sinks))))

  -- `Validate`.
  unfoldable pub validate : Config → Option Problem
  unfolding check_listeners check_headers check_url check_loop check_entries
  validate c = or_else (check_listeners c) (
      or_else (check_headers c) (
        or_else (check_url c.gateway.url) (
          or_else
            (report (is_none (parse_duration (dial_timeout_or_default c.gateway.dial_timeout)))
              bad_dial_timeout)
            (or_else (check_loop c) (check_entries c)))))
