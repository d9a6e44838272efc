-- ===== src/Observe.antt =====
-- internal/capture/exchange.go, the record of one exchange, and internal/proxy/forward.go, `record`,
-- which makes it of a request that has been served.
use mathlib.Core.List.{[]}
use aitori.Base.{ℕ, Bool, if◌then◌else◌}
use aitori.Base.Text.{Str}
use aitori.Http.{Request}
use aitori.HostMatch.{normalize}
use aitori.Pipeline.{Decision}
use aitori.Forward.Replies.{Outcome}

-- `Exchange`; the time is a number.
pub record Exchange : Type 0 where
  pub time : ℕ
  pub app : Str
  pub category : Str
  pub action : Str
  pub rerouted : Bool
  pub method : Str
  pub scheme : Str
  pub host : Str
  pub path : Str
  pub query : Str
  pub status : ℕ
  pub bytes : ℕ
  pub duration_ms : ℕ
  pub gateway_gap : Bool
  pub error : Str

-- `Redacted`.
abbrev pub redacted : Exchange → Exchange
redacted e = record e { query = [] }

-- `maybeRedact`.
abbrev pub maybe_redact : Exchange → Bool → Exchange
maybe_redact e redact = if redact then redacted e else e

-- `record`, for a request that started at `start` and took `duration` milliseconds.
unfoldable pub exchange_of : ℕ → ℕ → Request → Str → Str → Decision → Outcome → Exchange
exchange_of start duration req scheme host dec oc = record {
  time = start;
  app = dec.app_id;
  category = dec.category;
  action = dec.action;
  rerouted = oc.rerouted;
  method = req.method;
  scheme = scheme;
  host = normalize host;
  path = req.url.path;
  query = req.url.raw_query;
  status = oc.status;
  bytes = oc.bytes;
  duration_ms = duration;
  gateway_gap = oc.gateway_gap;
  error = oc.err_msg;
}
