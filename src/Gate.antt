-- ===== src/Gate.antt =====
-- internal/proxy/proxy.go and coverage.go: which connections are decrypted, and what is noted of
-- handshakes that fail. `Verdicts` says when a connection is decrypted, `Pinning` what is noted.
pub mod Verdicts
pub mod Pinning
mod Tests
use mathlib.Core.Option.{Option, none, some}
use mathlib.Core.List.{List, [], ◌∷◌}
use aitori.Base.{ℕ, suc, Bool, true, false, not, ◌&&◌, ◌||◌, is_empty, if◌then◌else◌}
use aitori.Base.Dict.{lookup, put}
use aitori.Base.Text.{Str, codes, str_eq, contains}
use aitori.Config.{Config, AppProfile, patterns}
use aitori.HostMatch
use aitori.HostMatch.{normalize}

-- The parts of `reloadable` that connections are judged by.
pub record Gate : Type 0 where
  pub intercept_hosts : List Str
  pub gateway_host : Str

-- `newReloadable`, where `GatewayHost` returns `gateway_host`; a nil configuration is `none`.
abbrev pub new : Option Config → Str → Gate
new none gateway_host = record { intercept_hosts = []; gateway_host = [] }
new (some cfg) gateway_host = record {
  intercept_hosts = patterns cfg.intercept_hosts;
  gateway_host = normalize gateway_host;
}

-- `shouldMITM`.
unfoldable pub should_mitm : Gate → Str → Bool
should_mitm gate hostport =
    let host = normalize hostport in
    if is_empty host
    then false
    else if not (is_empty gate.gateway_host) && str_eq host gate.gateway_host
    then false
    else HostMatch.match_any gate.intercept_hosts host

-- `untrustedCA`, of the text of an error.
unfoldable pub untrusted_ca : Str → Bool
unfolding contains
untrusted_ca err =
    contains err (codes "unknown certificate authority") || contains err (codes "unknown ca")

-- `CoverageStatus`; the map's key is the host.
pub record CoverageStatus : Type 0 where
  pub host : Str
  pub pinned : Bool
  pub failures : ℕ
  pub last_error : ℕ

-- `coverage`.
abbrev pub Coverage : Type 0
Coverage = List (Str × CoverageStatus)

status_or_new : Str → Option CoverageStatus → CoverageStatus
status_or_new host none = record { host = host; pinned = false; failures = 0; last_error = 0 }
status_or_new host (some s) = s

-- `recordPinning`, at the time `now`.
unfoldable pub record_pinning : Str → ℕ → Coverage → Coverage
unfolding status_or_new
record_pinning host now c =
    let s = status_or_new host (lookup host c) in
    put host (record s { pinned = true; failures = suc s.failures; last_error = now }) c

-- `noteHandshakeFailure`, less its log lines.
unfoldable pub note_handshake_failure : Str → Str → ℕ → Coverage → Coverage
note_handshake_failure hostport err now c =
    let host = normalize hostport in if untrusted_ca err then c else record_pinning host now c

-- `appForHost`.
unfoldable pub app_for_host : List AppProfile → Str → Str
app_for_host [] host = []
app_for_host (app ∷ apps) host =
    if not (is_empty app.match.hosts) && HostMatch.match_any app.match.hosts host
    then app.id
    else app_for_host apps host
