-- ===== src/Forward/Serve.antt =====
-- `serve`: classify, decide, forward, and answer. A round trip is a parameter: `none` is an error.
-- A body that is streamed can be read once: `left` is what a failed round trip leaves of it.
-- `room` is how much of a reply the client takes before a write to it fails.
pub mod Paths
pub mod Attempts
mod Tests
use mathlib.Core.Option.{Option, none, some, map}
use mathlib.Core.List.{List, [], ◌∷◌, ◌++◌}
use aitori.Base.{ℕ, Bool, true, false, not, ◌&&◌, length, if◌then◌else◌}
use aitori.Base.Text.{or_default, Str, codes, str_eq}
use aitori.Http.{Request}
use aitori.Config.{Object, action_passthrough, action_block}
use aitori.HostMatch.{normalize}
use aitori.AppResolve.{Flow}
use aitori.Pipeline.{Pipeline, Decision, reroute, decide}
use aitori.Router.{Router, rewrite, is_fail_closed, note_gateway_success, note_gateway_failure}
use aitori.Forward.Bodies.{Stream, Drained, drain_body}
use aitori.Forward.Hops.{remove_hop_by_hop}
use aitori.Forward.Replies.{
  Response, Reply, Outcome, no_outcome, copy_response, http_error, write_error,
}

-- What `procFromContext` knows of the client process.
pub record ProcInfo : Type 0 where
  pub pid : ℕ
  pub name : Str
  pub exe : Str
  pub bundle_id : Str

-- The request as it comes in; a content length of -1 is `none`.
pub record Incoming : Type 0 where
  pub request : Request
  pub body : Option Stream
  pub content_length : Option ℕ
  pub process : Option ProcInfo

-- A request that the proxy sends.
pub record Outgoing : Type 0 where
  pub request : Request
  pub body : Stream
  pub content_length : Option ℕ

-- The parts of `reloadable` that a request is served on.
pub record Live : Type 0 where
  pub router : Router
  pub pipeline : Pipeline
  pub max_body : ℕ

-- The requests sent, in order, the reply, the outcome for the record, and the router with its
-- breaker after the call.
pub record Served : Type 0 where
  pub attempts : List Outgoing
  pub reply : Reply
  pub outcome : Outcome
  pub router : Router

unfoldable pub scheme_of : Bool → Request → Str
scheme_of mitm req = if mitm then codes "https" else or_default req.url.scheme (codes "http")

unfoldable pub host_of : Request → Str
host_of req = or_default req.host req.url.host

flow_from : Str → Option ProcInfo → Flow
flow_from host none = record {
  host = host;
  has_process = false;
  pid = 0;
  process_name = [];
  bundle_id = [];
  exe_path = [];
}
flow_from host (some info) = record {
  host = host;
  has_process = true;
  pid = info.pid;
  process_name = info.name;
  bundle_id = info.bundle_id;
  exe_path = info.exe;
}

unfoldable pub flow_of : Incoming → Flow
unfolding flow_from host_of
flow_of r = flow_from (normalize (host_of r.request)) r.process

-- A decision, and what is left of the body after it.
pub record Prepared : Type 0 where
  pub dec : Decision
  pub drained : Drained

abbrev empty_stream : Stream
empty_stream = record { bytes = []; broken = false }

abbrev stream_or_empty : Option Stream → Stream
stream_or_empty none = empty_stream
stream_or_empty (some s) = s

-- `newBody`.
unfoldable pub body_of : Drained → Stream
body_of d = if d.full then record { bytes = d.buf; broken = false } else stream_or_empty d.body

unfoldable pub length_of : Incoming → Drained → Option ℕ
length_of r d = if d.full then some (length d.buf) else r.content_length

-- `newOutgoing`; the transfer encoding and the context of a request are not in the model.
unfoldable pub new_outgoing : Request → Str → Str → Stream → Option ℕ → Outgoing
new_outgoing req scheme host body content_length = record {
  request = record req {
    host = host;
    url = record (req.url) { scheme = scheme; host = host };
    header = remove_hop_by_hop req.header;
  };
  body = body;
  content_length = content_length;
}

-- What `newBody` has to give after a failed attempt: the buffer again, or the rest of the stream.
unfoldable pub spent : Stream → Drained → Drained
spent rest d = record d { body = map (λ _. rest) d.body }

-- The request for the original upstream.
unfoldable pub upstream_request : Bool → Incoming → Drained → Outgoing
unfolding new_outgoing scheme_of host_of body_of length_of
upstream_request mitm r d =
    new_outgoing r.request (scheme_of mitm r.request) (host_of r.request) (body_of d)
      (length_of r d)

module _ (unmarshal : Str → Option Object) (round_trip : Outgoing → Option Response)
    (left : Outgoing → Stream) (room : ℕ) where
  -- The body is read first only where it can change the verdict.
  unfoldable pub prepare : Live → Incoming → Prepared
  prepare live r =
      let drained = drain_body r.body live.max_body in
      let read = decide unmarshal live.pipeline r.request (flow_of r) drained.buf in
      let unread = decide unmarshal live.pipeline r.request (flow_of r) [] in
      if live.pipeline.body_matters
      then record { dec = read; drained = drained }
      else if unread.matched && str_eq unread.action action_passthrough
      then record { dec = unread; drained = record { buf = []; full = false; body = r.body } }
      else record { dec = read; drained = drained }

  answer : Option Response → Outcome → Reply × Outcome
  answer none oc = write_error oc (codes "aitori: upstream error")
  answer (some res) oc = copy_response room res oc

  -- `forwardUpstream`, behind the attempts made before.
  forward_upstream : List Outgoing → Outgoing → Outcome → Router → Served
  unfolding answer
  forward_upstream before out oc router =
      let replied = answer (round_trip out) oc in
      record {
        attempts = before ++ out ∷ [];
        reply = replied.0;
        outcome = replied.1;
        router = router;
      }

  refuse : Outgoing → Outcome → Str → Router → Served
  refuse gw oc msg router =
      let replied = write_error oc msg in
      record { attempts = gw ∷ []; reply = replied.0; outcome = replied.1; router = router }

  -- Behind the round trip to the gateway. `after` is the time of a failure.
  after_gateway : Option Response → Router → ℕ → Bool → Outgoing → Outgoing → Served
  unfolding forward_upstream refuse
  after_gateway (some res) router after full gw up =
      let replied = copy_response room res (record no_outcome { rerouted = true }) in
      record {
        attempts = gw ∷ [];
        reply = replied.0;
        outcome = replied.1;
        router = note_gateway_success router;
      }
  after_gateway none router after full gw up =
      let gap = record no_outcome { gateway_gap = true } in
      let failed = note_gateway_failure router after in
      if is_fail_closed router
      then refuse gw gap (codes "aitori: gateway unavailable (fail_closed)") failed
      else if not full
      then refuse gw gap (codes "aitori: gateway unavailable and request not replayable") failed
      else forward_upstream (gw ∷ []) up gap failed

  blocked : Router → Served
  unfolding http_error
  blocked router = record {
    attempts = [];
    reply = http_error 403 (codes "aitori: blocked by policy");
    outcome = record no_outcome { status = 403; err_msg = codes "aitori: blocked by policy" };
    router = router;
  }

  -- A gateway-bound request, once the router has looked at it. `out_of` makes the upstream request
  -- with what `newBody` has to give: before an attempt, and again after it has failed.
  rerouting : Request × Bool → Router → ℕ → Drained → (Drained → Outgoing) → Served
  unfolding after_gateway forward_upstream spent
  rerouting (req, accepted) router after drained out_of =
      let gw = record (out_of drained) { request = req } in
      if accepted
      then after_gateway (round_trip gw) router after drained.full gw
          (out_of (spent (left gw) drained))
      else forward_upstream [] (out_of drained) no_outcome router

  respond : Live → Prepared → ℕ → ℕ → (Drained → Outgoing) → Served
  unfolding blocked rerouting forward_upstream
  respond live p now after out_of =
      let up = out_of p.drained in
      if str_eq p.dec.action action_block
      then blocked live.router
      else if reroute p.dec
      then rerouting (rewrite live.router now up.request p.dec.app_id p.dec.category p.dec.pid)
          live.router after p.drained out_of
      else forward_upstream [] up no_outcome live.router

  -- `serve`; `mitm` tells a decrypted connection, `now` is the time at which the breaker is asked.
  unfoldable pub serve : Live → Bool → Incoming → ℕ → ℕ → Served
  unfolding prepare respond
  serve live mitm r now after =
      let p = prepare live r in respond live p now after (upstream_request mitm r)
