-- ===== src/Forward/Serve/Attempts.antt =====
-- Which requests leave the proxy, and what they do to the breaker.
use mathlib.Core.Option.{Option, none, some}
use mathlib.Core.List.{[], ◌∷◌}
use mathlib.Core.Logic.{◌⊎◌, inl, inr}
use mathlib.Core.Path.{◌≡◌, refl}
use aitori.Base.{ℕ, Bool, true, false, Bool-cases, All}
use aitori.Base.Text.{Str, str_eq}
use aitori.Http.{Request}
use aitori.Config.{Object, action_block}
use aitori.Pipeline.{reroute}
use aitori.Router.{rewrite, is_fail_closed, note_gateway_success, note_gateway_failure}
use aitori.Forward.Replies.{Response, Outcome, no_outcome, copy_response, http_error, write_error}
use aitori.Forward.Bodies.{Stream, Drained}
use aitori.Forward.Serve.{
  spent, body_of, length_of, forward_upstream, Incoming, Outgoing, Live, Served, Prepared,
  upstream_request, prepare, answer, after_gateway, rerouting, respond, serve,
}

answer-kept :
    (unmarshal : Str → Option Object) (round_trip : Outgoing → Option Response)
    (left : Outgoing → Stream) (room : ℕ) (o : Option Response) (oc : Outcome)
    → ((answer unmarshal round_trip left room o oc).1.rerouted ≡ oc.rerouted)
      × ((answer unmarshal round_trip left room o oc).1.gateway_gap ≡ oc.gateway_gap)
unfolding answer copy_response write_error
answer-kept unmarshal round_trip left room none oc = (refl, refl)
answer-kept unmarshal round_trip left room (some res) oc = (refl, refl)

copy_response-sent :
    (room : ℕ) (res : Response) (oc : Outcome)
    → ((copy_response room res oc).1.rerouted ≡ oc.rerouted)
      × ((copy_response room res oc).0.status ≡ res.status)
unfolding copy_response
copy_response-sent room res oc = (refl, refl)

-- The status that a client is sent for what the upstream answers, or does not answer.
abbrev pub StatusOf : Option Response → ℕ → Type 0
StatusOf none status = status ≡ 502
StatusOf (some res) status = status ≡ res.status

abbrev pub ReplyOf : Option Response → Served → Type 0
ReplyOf o s = StatusOf o s.reply.status

answer-StatusOf :
    (unmarshal : Str → Option Object) (round_trip : Outgoing → Option Response)
    (left : Outgoing → Stream) (room : ℕ) (o : Option Response) (oc : Outcome)
    → StatusOf o (answer unmarshal round_trip left room o oc).0.status
unfolding answer copy_response write_error
answer-StatusOf unmarshal round_trip left room none oc = refl
answer-StatusOf unmarshal round_trip left room (some res) oc = refl

module _ (unmarshal : Str → Option Object) (round_trip : Outgoing → Option Response)
    (left : Outgoing → Stream) (room : ℕ) (live : Live) (p : Prepared) (now after : ℕ)
    (up : Outgoing) where
  -- The router's verdict on the upstream request, and the request for the gateway.
  abbrev pub verdict : Request × Bool
  verdict = rewrite live.router now up.request p.dec.app_id p.dec.category p.dec.pid

  abbrev pub gateway_leg : Outgoing
  gateway_leg = record up { request = verdict.0 }

  -- The five courses that a request can take.
  pub data Course : Served → Type 0 where
    stopped :
        {s : Served}
        → str_eq p.dec.action action_block ≡ true
        → s.attempts ≡ []
        → s.reply.status ≡ 403
        → s.router ≡ live.router
        → Course s
    direct :
        {s : Served}
        → str_eq p.dec.action action_block ≡ false
        → (reroute p.dec ≡ false) ⊎ (verdict.1 ≡ false)
        → s.attempts ≡ up ∷ []
        → ReplyOf (round_trip up) s
        → (s.outcome.rerouted ≡ false) × (s.outcome.gateway_gap ≡ false)
        → s.router ≡ live.router
        → Course s
    governed :
        {s : Served} (res : Response)
        → reroute p.dec ≡ true
        → verdict.1 ≡ true
        → round_trip gateway_leg ≡ some res
        → s.attempts ≡ gateway_leg ∷ []
        → (s.outcome.rerouted ≡ true) × (s.reply.status ≡ res.status)
        → s.router ≡ note_gateway_success live.router
        → Course s
    refused :
        {s : Served}
        → reroute p.dec ≡ true
        → verdict.1 ≡ true
        → round_trip gateway_leg ≡ none
        → (is_fail_closed live.router ≡ true) ⊎ (p.drained.full ≡ false)
        → s.attempts ≡ gateway_leg ∷ []
        → s.reply.status ≡ 502
        → s.router ≡ note_gateway_failure live.router after
        → Course s
    fallen_back :
        {s : Served}
        → reroute p.dec ≡ true
        → verdict.1 ≡ true
        → round_trip gateway_leg ≡ none
        → is_fail_closed live.router ≡ false
        → p.drained.full ≡ true
        → s.attempts ≡ gateway_leg ∷ up ∷ []
        → ReplyOf (round_trip up) s
        → s.outcome.gateway_gap ≡ true
        → s.router ≡ note_gateway_failure live.router after
        → Course s

  -- Behind the round trip to the gateway, where a buffered body makes the same request again.
  after_gateway-Course :
      (o : Option Response) (full : Bool) (again : Outgoing)
      → round_trip gateway_leg ≡ o
      → p.drained.full ≡ full
      → (full ≡ true → again ≡ up)
      → reroute p.dec ≡ true
      → verdict.1 ≡ true
      → Course
          (after_gateway unmarshal round_trip left room o live.router after full gateway_leg again)
  unfolding after_gateway write_error
  after_gateway-Course (some res) full again e f same r v =
      governed res r v e refl (copy_response-sent room res _) refl
  after_gateway-Course none true again e f same r v =
      elim (Bool-cases (is_fail_closed live.router)) [
        | inl strict ↦ rw strict (refused r v e (inl strict) refl refl refl)
        | inr lenient ↦
            rw (lenient, same refl)
              (fallen_back r v e lenient f refl
                (answer-StatusOf unmarshal round_trip left room (round_trip up) _)
                (answer-kept unmarshal round_trip left room (round_trip up) _).1 refl)
      ]
  after_gateway-Course none false again e f same r v =
      elim (Bool-cases (is_fail_closed live.router)) [
        | inl strict ↦ rw strict (refused r v e (inl strict) refl refl refl)
        | inr lenient ↦ rw lenient (refused r v e (inr f) refl refl refl)
      ]

  sent_on-Course :
      str_eq p.dec.action action_block ≡ false
      → (reroute p.dec ≡ false) ⊎ (verdict.1 ≡ false)
      → Course (forward_upstream unmarshal round_trip left room [] up no_outcome live.router)
  unfolding forward_upstream
  sent_on-Course b why =
      direct b why refl (answer-StatusOf unmarshal round_trip left room (round_trip up) _)
        (answer-kept unmarshal round_trip left room (round_trip up) _) refl

module _ (unmarshal : Str → Option Object) (round_trip : Outgoing → Option Response)
    (left : Outgoing → Stream) (room : ℕ) (live : Live) (p : Prepared) (now after : ℕ)
    (out_of : Drained → Outgoing)
    (same : (rest : Stream)
      → p.drained.full ≡ true
      → out_of (spent rest p.drained) ≡ out_of p.drained) where
  abbrev Taken : Served → Type 0
  Taken = Course unmarshal round_trip left room live p now after (out_of p.drained)

  abbrev judged : Request × Bool
  judged = verdict unmarshal round_trip left room live p now after (out_of p.drained)

  rerouting-Course :
      str_eq p.dec.action action_block ≡ false
      → reroute p.dec ≡ true
      → Taken (rerouting unmarshal round_trip left room judged live.router after p.drained out_of)
  unfolding rerouting
  rerouting-Course b r =
      let leg = gateway_leg unmarshal round_trip left room live p now after (out_of p.drained) in
      elim (Bool-cases judged.1) [
        | inl accepted ↦ rw accepted (
            after_gateway-Course unmarshal round_trip left room live p now after (out_of p.drained)
              (round_trip leg) p.drained.full (out_of (spent (left leg) p.drained)) refl refl
              (same (left leg)) r accepted)
        | inr declined ↦ rw declined (
            sent_on-Course unmarshal round_trip left room live p now after (out_of p.drained) b
              (inr declined))
      ]

  respond-Course : Taken (respond unmarshal round_trip left room live p now after out_of)
  unfolding respond http_error
  respond-Course = elim (Bool-cases (str_eq p.dec.action action_block)) [
    | inl stop ↦ rw stop (stopped stop refl refl refl)
    | inr go ↦ elim (Bool-cases (reroute p.dec)) [
      | inl r ↦ rw (go, r) (rerouting-Course go r)
      | inr n ↦
          rw (go, n)
            (sent_on-Course unmarshal round_trip left room live p now after (out_of p.drained) go
              (inl n))
    ]
  ]

-- A body that was read to its end makes the same request after every attempt.
upstream_request-spent :
    (mitm : Bool) (r : Incoming) (d : Drained) (rest : Stream)
    → d.full ≡ true
    → upstream_request mitm r (spent rest d) ≡ upstream_request mitm r d
unfolding upstream_request body_of length_of spent
upstream_request-spent mitm r d rest full = rw full refl

-- The course that a request takes: `serve` prepares a decision and follows it.
module _ (unmarshal : Str → Option Object) (round_trip : Outgoing → Option Response)
    (left : Outgoing → Stream) (room : ℕ) (live : Live) (mitm : Bool) (r : Incoming)
    (now after : ℕ) where
  abbrev pub prepared : Prepared
  prepared = prepare unmarshal round_trip left room live r

  abbrev pub upstream : Outgoing
  upstream = upstream_request mitm r prepared.drained

  abbrev pub served : Served
  served = serve unmarshal round_trip left room live mitm r now after

  abbrev CourseOf : Served → Type 0
  CourseOf = Course unmarshal round_trip left room live prepared now after upstream

  -- Every request takes one of the courses, with exactly the requests and the change of the breaker
  -- that belong to it: stopped by policy (403, nothing sent); sent to its upstream alone, without a
  -- governance gap in the record; answered by the gateway alone, with the gateway's status; refused
  -- with 502 after the gateway failed, if the router fails closed or the body was not buffered; or
  -- sent to its upstream after the gateway failed, with a gap in the record. What is sent to the
  -- upstream is answered with the upstream's status, and with 502 if the upstream fails.
  pub serve-Course : CourseOf served
  unfolding serve
  serve-Course =
      respond-Course unmarshal round_trip left room live prepared now after
        (upstream_request mitm r) (λ rest. upstream_request-spent mitm r prepared.drained rest)

  -- Whatever leaves the proxy is the upstream request, or the request for the gateway.
  pub serve-attempts :
      All
        (λ out.
          (out ≡ upstream)
          ⊎ ((out ≡ gateway_leg unmarshal round_trip left room live prepared now after upstream)
              × ((verdict unmarshal round_trip left room live prepared now after upstream).1
                  ≡ true)))
        served.attempts
  serve-attempts = go serve-Course
    where
      go :
          {s : Served}
          → CourseOf s
          → All
              (λ out.
                (out ≡ upstream)
                ⊎ ((out
                      ≡ gateway_leg unmarshal round_trip left room live prepared now after upstream)
                    × ((verdict unmarshal round_trip left room live prepared now after upstream).1
                        ≡ true)))
              s.attempts
      go (stopped _ e _ _) = rw e tt
      go (direct _ _ e _ _ _) = rw e (inl refl, tt)
      go (governed _ _ v _ e _ _) = rw e (inr (refl, v), tt)
      go (refused _ v _ _ e _ _) = rw e (inr (refl, v), tt)
      go (fallen_back _ v _ _ _ e _ _ _) = rw e (inr (refl, v), (inl refl, tt))

  -- Fail closed: once the router has accepted a gateway-bound request, nothing but the request for
  -- the gateway leaves the proxy, whether the gateway answers or not.
  pub serve-fail_closed :
      is_fail_closed live.router ≡ true
      → str_eq prepared.dec.action action_block ≡ false
      → reroute prepared.dec ≡ true
      → (verdict unmarshal round_trip left room live prepared now after upstream).1 ≡ true
      → served.attempts
        ≡ gateway_leg unmarshal round_trip left room live prepared now after upstream ∷ []
  serve-fail_closed strict b r v = go serve-Course
    where
      go :
          {s : Served}
          → CourseOf s
          → s.attempts
            ≡ gateway_leg unmarshal round_trip left room live prepared now after upstream ∷ []
      go (stopped h _ _ _) = cc
      go (direct _ (inl h) _ _ _ _) = cc
      go (direct _ (inr h) _ _ _ _) = cc
      go (governed _ _ _ _ e _ _) = e
      go (refused _ _ _ _ e _ _) = e
      go (fallen_back _ _ _ h _ _ _ _ _) = cc
