-- ===== src/Forward/Serve/Paths.antt =====
-- What a forwarded request carries: the decision of its whole body, all of its bytes, and no
-- header of the client's connection.
use mathlib.Core.Option.{Option, none, some}
use mathlib.Core.List.{[]}
use mathlib.Core.Logic.{◌⊎◌, inl, inr}
use mathlib.Core.Path.{◌≡◌, refl, sym, ap, ◌∙◌}
use aitori.Base.{ℕ, Bool, true, false, ◌&&◌, if◌then◌else◌, Bool-cases, All, All-map}
use aitori.Base.Text.{Str, str_eq}
use aitori.Http.{Request}
use aitori.Config.{Object, Config, action_passthrough}
use aitori.Pipeline
use aitori.AppResolve.{Flow}
use aitori.Pipeline.{Pipeline, decide}
use aitori.Pipeline.Verdicts.{decide-body}
use aitori.Forward.Bodies.{Stream, Drained, drain_body, bytes_of, bytes-drain_body, buf-drain_body}
use aitori.Forward.Replies.{Response}
use aitori.Forward.Serve.{
  Incoming, Outgoing, Live, Prepared, flow_of, stream_or_empty, body_of, new_outgoing,
  upstream_request, prepare, serve,
}
use aitori.Forward.Serve.Attempts.{prepared, upstream, gateway_leg, verdict, serve-attempts}

pick-dec :
    (p u : Prepared) (b t : Bool)
    → (b ≡ false → t ≡ true → p.dec ≡ u.dec)
    → (if b then p else if t then u else p).dec ≡ p.dec
pick-dec p u true t h = refl
pick-dec p u false true h = sym (h refl refl)
pick-dec p u false false h = refl

decide-unread :
    (unmarshal : Str → Option Object) (cfg : Config) (p : Pipeline) (req : Request) (flow : Flow)
    (body : Str)
    → p ≡ Pipeline.new cfg
    → p.body_matters ≡ false
    → (decide unmarshal p req flow []).matched ≡ true
    → decide unmarshal p req flow body ≡ decide unmarshal p req flow []
decide-unread unmarshal cfg p req flow body e b m =
    rw e (decide-body unmarshal cfg req flow body (rw e at b) (rw e at m))

and-left : (a b : Bool) → a && b ≡ true → a ≡ true
and-left true b h = refl
and-left false b h = h

abbrev HasBytes : Str → Prepared → Type 0
HasBytes x p = (body_of p.drained).bytes ≡ x

module _ (unmarshal : Str → Option Object) (round_trip : Outgoing → Option Response)
    (left : Outgoing → Stream) (room : ℕ) where
  -- Leaving a body unread changes no verdict: on a pipeline made from a configuration, the decision
  -- that a request is served on is the decision for its drained body, read or not.
  pub prepare-dec :
      (cfg : Config) (live : Live) (r : Incoming)
      → live.pipeline ≡ Pipeline.new cfg
      → (prepare unmarshal round_trip left room live r).dec
        ≡ decide unmarshal live.pipeline r.request (flow_of r) (drain_body r.body live.max_body).buf
  unfolding prepare
  prepare-dec cfg live r e = pick-dec _ _ live.pipeline.body_matters _ (λ b t.
      decide-unread unmarshal cfg live.pipeline r.request (flow_of r)
        (drain_body r.body live.max_body).buf e b (and-left _ _ t))

  stream_or_empty-bytes : (o : Option Stream) → (stream_or_empty o).bytes ≡ bytes_of o
  stream_or_empty-bytes none = refl
  stream_or_empty-bytes (some s) = refl

  bytes-body_of :
      (d : Drained) (o : Option Stream)
      → (d.full ≡ true → d.buf ≡ bytes_of o)
      → bytes_of d.body ≡ bytes_of o
      → (body_of d).bytes ≡ bytes_of o
  unfolding body_of
  bytes-body_of d o h k = elim (Bool-cases d.full) [
    | inl f ↦ rw f (h f)
    | inr n ↦ rw n (stream_or_empty-bytes d.body ∙ k)
  ]

  pick-HasBytes :
      (x : Str) (p u : Prepared) (b t : Bool)
      → HasBytes x p
      → HasBytes x u
      → HasBytes x (if b then p else if t then u else p)
  pick-HasBytes x p u true t h k = h
  pick-HasBytes x p u false true h k = k
  pick-HasBytes x p u false false h k = h

  abbrev unread : Live → Incoming → Prepared
  unread live r = record {
    dec = decide unmarshal live.pipeline r.request (flow_of r) [];
    drained = record { buf = []; full = false; body = r.body };
  }

  bytes-prepare :
      (live : Live) (r : Incoming)
      → HasBytes (bytes_of r.body) (prepare unmarshal round_trip left room live r)
  unfolding prepare
  bytes-prepare live r =
      pick-HasBytes (bytes_of r.body) _ (unread live r) live.pipeline.body_matters
        ((unread live r).dec.matched && str_eq (unread live r).dec.action action_passthrough)
        (bytes-body_of (drain_body r.body live.max_body) r.body
          (buf-drain_body r.body live.max_body) (bytes-drain_body r.body live.max_body))
        (bytes-body_of (record { buf = []; full = false; body = r.body }) r.body (λ h. cc) refl)

  abbrev leg : Live → Bool → Incoming → ℕ → ℕ → Outgoing
  leg live mitm r now after =
      gateway_leg unmarshal round_trip left room live
        (prepared unmarshal round_trip left room live mitm r now after) now after
        (upstream unmarshal round_trip left room live mitm r now after)

  abbrev accepted : Live → Bool → Incoming → ℕ → ℕ → Bool
  accepted live mitm r now after =
      (verdict unmarshal round_trip left room live
        (prepared unmarshal round_trip left room live mitm r now after) now after
        (upstream unmarshal round_trip left room live mitm r now after)).1

  bytes-upstream :
      (live : Live) (mitm : Bool) (r : Incoming)
      → (upstream unmarshal round_trip left room live mitm r 0 0).body.bytes ≡ bytes_of r.body
  unfolding upstream_request new_outgoing
  bytes-upstream live mitm r = bytes-prepare live r

  -- Each request that is sent, to the gateway, to the upstream, or to the upstream after the gateway
  -- has failed, carries all bytes that the client's body gives before it ends or breaks off, and no
  -- others: whatever was read of it to decide on it, and whatever a failed attempt leaves of it.
  pub serve-body :
      (live : Live) (mitm : Bool) (r : Incoming) (now after : ℕ)
      → All
          (λ out. out.body.bytes ≡ bytes_of r.body)
          (serve unmarshal round_trip left room live mitm r now after).attempts
  serve-body live mitm r now after =
      All-map whole _ (serve-attempts unmarshal round_trip left room live mitm r now after)
    where
      whole :
          (out : Outgoing)
          → (out ≡ upstream unmarshal round_trip left room live mitm r now after)
            ⊎ ((out ≡ leg live mitm r now after) × (accepted live mitm r now after ≡ true))
          → out.body.bytes ≡ bytes_of r.body
      whole out (inl e) = ap (λ o. o.body.bytes) e ∙ bytes-upstream live mitm r
      whole out (inr (e, _)) = ap (λ o. o.body.bytes) e ∙ bytes-upstream live mitm r
