-- ===== src/MockGateway.antt =====
-- tools/aitori-gateway/main.go: the stand-in for a gateway, which serves one rerouted request. What
-- `net/http` does with a URL and with the upstream is a parameter, and so is the decoding of the
-- context header. `Trace` models what is recorded, `Strip` says which headers go upstream, `Stream`
-- what the client and the span get of a response, `Redaction` what a span hides, `EndToEnd` what becomes of a request that the
-- router has rewritten.
pub mod Trace
pub mod Strip
pub mod Stream
pub mod EndToEnd
pub mod Redaction
mod Tests
use mathlib.Core.Option.{Option, none, some}
use mathlib.Core.List.{List, [], ◌∷◌, ◌++◌}
use mathlib.Core.Logic.{◌⊎◌, inl, inr}
use aitori.Base.{
  ℕ, zero, suc, Bool, false, ◌+◌, ◌-◌, ltb, leb, length, take, is_empty, if◌then◌else◌,
}
use aitori.Base.Text.{Str, codes, has_prefix, to_lower}
use aitori.Http.{Header, Url, Request, add, get}
use aitori.Router.Context.{ProxyCtx}
use Trace.{
  AttributeValue, text, int, unset, ok, error, Span, cap_string, capture_cap, header_attributes,
  render_body, span_name,
}

-- The request that goes upstream.
pub record Outgoing : Type 0 where
  pub method : Str
  pub url : Url
  pub header : Header
  pub body : Str

-- The response of the upstream; its body comes in the pieces that `Read` returns.
pub record Upstream : Type 0 where
  pub status : ℕ
  pub status_text : Str
  pub header : Header
  pub chunks : List Str

-- What the client gets. Of the two headers that `http.Error` sets nothing is kept.
pub record Reply : Type 0 where
  pub status : ℕ
  pub header : Header
  pub body : Str

add_values : Str → List Str → Header → Header
unfolding add
add_values k [] h = h
add_values k (v ∷ vs) h = add_values k vs (add h k v)

-- The name of a header of the gateway's own protocol.
unfoldable pub is_tfy : Str → Bool
unfolding has_prefix to_lower
is_tfy k = has_prefix (to_lower k) (codes "x-tfy-")

-- The loop over the request's headers, from what it has added so far.
unfoldable pub strip : Header → Header → Header
unfolding is_tfy add_values
strip out [] = out
strip out ((k, vs) ∷ h) = if is_tfy k then strip out h else strip (add_values k vs out) h

-- The loop over the response's headers.
unfoldable pub copy_header : Header → Header → Header
unfolding add_values
copy_header out [] = out
copy_header out ((k, vs) ∷ h) = copy_header (add_values k vs out) h

-- The captured bytes after one more piece.
unfoldable pub capture : Str → Str → Str
capture kept chunk =
    if ltb 0 (capture_cap - length kept)
    then kept ++ take (capture_cap - length kept) chunk
    else kept

-- The loop that streams the response; the client takes `accepts` writes. It gives what was written,
-- and, if no write failed, the captured bytes and the number of all bytes.
unfoldable pub stream : ℕ → List Str → Str → ℕ → Str × Option (Str × ℕ)
unfolding capture
stream accepts [] kept total = ([], some (kept, total))
stream accepts ([] ∷ chunks) kept total = stream accepts chunks kept total
stream zero ((c ∷ chunk) ∷ chunks) kept total = ([], none)
stream (suc accepts) ((c ∷ chunk) ∷ chunks) kept total =
    let rest = stream accepts chunks (capture kept (c ∷ chunk)) (total + length (c ∷ chunk)) in
    ((c ∷ chunk) ++ rest.0, rest.1)

set_attribute : Str → AttributeValue → Span → Span
set_attribute k v s = record s { attributes = s.attributes ++ (k, v) ∷ [] }

-- An attribute that is set where the context names it.
set_named : Str → Str → Span → Span
unfolding set_attribute
set_named k v s = if is_empty v then s else set_attribute k (text v) s

add_event : Str → Str → Span → Span
unfolding cap_string
add_event name body s = record s { events = s.events ++ (name, cap_string body) ∷ [] }

-- `fail`: the reply and the span.
fail : Span → ℕ → Str → Reply × Span
unfolding set_attribute
fail s status msg = (
  record { status = status; header = []; body = msg ++ codes "\n" },
  record (set_attribute (codes "http.response.status_code") (int status) s) { status = error msg },
)

unfoldable pub outgoing_to : Request → Str → Str ⊎ Url → Str ⊎ Outgoing
unfolding strip
outgoing_to r body (inl e) = inl e
outgoing_to r body (inr u) =
    inr (record { method = r.method; url = u; header = strip [] r.header; body = body })

-- The request that goes upstream, or why there is none.
unfoldable pub outgoing : (Str → Str → Str ⊎ Url) → Request → Str → Str ⊎ Outgoing
unfolding outgoing_to get
outgoing new_request r body =
    outgoing_to r body (new_request r.method (get r.header (codes "x-tfy-original-url")))

module _ (parse_url : Str → Option Url) (decode_ctx : Str → ProxyCtx) (unzip : Str → Option Str)
    (quote : Str → Str) (new_request : Str → Str → Str ⊎ Url)
    (round_trip : Outgoing → Str ⊎ Upstream) where
  -- The span at the start, with what the request and its context say.
  unfoldable pub start : Request → Str → ProxyCtx → Span
  unfolding span_name header_attributes set_named
  start r orig ctx =
      let named : Span = record {
        name = span_name parse_url r.method orig;
        attributes =
            (codes "http.request.method", text r.method)
            ∷ (codes "url.full", text orig)
            ∷ (codes "tfy.app", text ctx.app)
            ∷ (codes "tfy.category", text ctx.category)
            ∷ [];
        status = unset;
        events = [];
      } in
      let placed = set_named (codes "tfy.agent_version") ctx.agent_version (
        set_named (codes "tfy.os") ctx.os
          (set_named (codes "tfy.host") ctx.host (set_named (codes "tfy.pid") ctx.pid named))) in
      record placed { attributes = placed.attributes ++ header_attributes r.header }

  -- The event for the request's body, where there is one.
  record_body : Request → Str → Span → Span
  unfolding add_event render_body
  record_body r body s =
      if is_empty body
      then s
      else add_event (codes "request.body")
          (render_body unzip quote body r.header (length body) false) s

  respond : Span → ℕ → Upstream → Reply × Span
  unfolding copy_header stream set_attribute add_event render_body
  respond s accepts res =
      let answered : Span =
        record (set_attribute (codes "http.response.status_code") (int res.status) s) {
          status = if leb 400 res.status then error res.status_text else ok;
        } in
      let streamed = stream accepts res.chunks [] 0 in
      (
        record { status = res.status; header = copy_header [] res.header; body = streamed.0 },
        finish streamed.1 answered,
      )
    where
      finish : Option (Str × ℕ) → Span → Span
      finish none s = s
      finish (some (kept, total)) s =
          add_event (codes "response.body")
            (render_body unzip quote kept res.header total (ltb (length kept) total)) s

  sent : Span → ℕ → Str ⊎ Upstream → Reply × Span
  unfolding fail respond
  sent s accepts (inl e) = fail s 502 e
  sent s accepts (inr res) = respond s accepts res

  forward : Span → ℕ → Str ⊎ Outgoing → Reply × Span
  unfolding fail sent
  forward s accepts (inl e) = fail s 502 e
  forward s accepts (inr out) = sent s accepts (round_trip out)

  -- `proxyHandler`: the reply, and the span, if one was started. The client takes `accepts` writes.
  unfoldable pub serve : Bool → Request → Str → ℕ → Reply × Option Span
  unfolding start record_body outgoing forward fail get
  serve require_auth r body accepts =
      let orig = get r.header (codes "x-tfy-original-url") in
      let token = get r.header (codes "x-tfy-api-key") in
      let span = start r orig (decode_ctx (get r.header (codes "x-tfy-metadata"))) in
      let refused = fail span 401 (codes "aitori-gateway: missing x-tfy-api-key (-require-auth)") in
      let passed = forward (record_body r body span) accepts (outgoing new_request r body) in
      if is_empty orig
      then (
        record {
          status = 400;
          header = [];
          body = codes "aitori-gateway: missing x-tfy-original-url\n";
        },
        none,
      )
      else if is_empty token
      then if require_auth then (refused.0, some refused.1) else (passed.0, some passed.1)
      else (passed.0, some passed.1)
