-- ===== src/LiveUi/Streams.antt =====
-- What subscribers are sent.
use Prim.Native.Nat.{ℕ, suc, ◌≤◌}
use mathlib.Core.Path.{◌≡◌, refl}
use mathlib.Core.Option.{Option, none}
use mathlib.Core.List.{List, [], ◌∷◌, map}
use aitori.Base.{
  Bool, true, false, ltb, ◌==◌, length, length-append, if◌then◌else◌, arith, Bool-cases, inl, inr,
  All, All-append,
}
use aitori.Observe.{Exchange, maybe_redact}
use aitori.LiveUi.{
  Channel, Server, sub_buffer, send, drop_channel, receive, tail, Step, recording, closing,
  subscribing, unsubscribing, receiving, new, step, run, record_exchange, subscribe,
}

-- No query string, where the server redacts.
abbrev pub IsClean : Bool → Exchange → Type 0
IsClean redact e = redact ≡ true → e.query ≡ []

-- A channel holds at most what its buffer has room for, and nothing that should have been redacted.
pub record IsBounded (redact : Bool) (ch : Channel) : Type 0 where
  pub room : length ch.queue ≤ sub_buffer
  pub clean : All (IsClean redact) ch.queue

-- The invariant of the channels: a closed server has none left.
pub record IsSound (s : Server) : Type 0 where
  pub channels : All (IsBounded s.redact) s.subs
  pub shut : s.closed ≡ true → s.subs ≡ []

maybe_redact-IsClean : (redact : Bool) (e : Exchange) → IsClean redact (maybe_redact e redact)
maybe_redact-IsClean true e h = refl
maybe_redact-IsClean false e h = cc

send-IsBounded :
    (redact : Bool) (e : Exchange) (ch : Channel)
    → IsClean redact e
    → IsBounded redact ch
    → IsBounded redact (send e ch)
unfolding send
send-IsBounded redact e ch c b = elim (Bool-cases (ltb (length ch.queue) sub_buffer)) [
  | inl room ↦ rw room (record {
    room = omega (arith, length-append ch.queue (e ∷ []), has_room ch.queue room);
    clean = All-append (IsClean redact) ch.queue (e ∷ []) b.clean (c, tt);
  })
  | inr full ↦ rw full b
]
  where
    has_room : (q : List Exchange) → ltb (length q) sub_buffer ≡ true → suc (length q) ≤ sub_buffer
    has_room q h = ground arith

module _ (redact : Bool) where
  send_all-IsBounded :
      (e : Exchange) (chs : List Channel)
      → IsClean redact e
      → All (IsBounded redact) chs
      → All (IsBounded redact) (map (send e) chs)
  send_all-IsBounded e [] c h = tt
  send_all-IsBounded e (ch ∷ chs) c (b, h) =
      (send-IsBounded redact e ch c b, send_all-IsBounded e chs c h)

  drop_channel-IsBounded :
      (id : ℕ) (chs : List Channel)
      → All (IsBounded redact) chs
      → All (IsBounded redact) (drop_channel id chs)
  unfolding drop_channel
  drop_channel-IsBounded id [] h = tt
  drop_channel-IsBounded id (ch ∷ chs) (b, h) = elim (Bool-cases (ch.id == id)) [
    | inl this ↦ rw this (drop_channel-IsBounded id chs h)
    | inr other ↦ rw other (b, drop_channel-IsBounded id chs h)
  ]

  tail-IsBounded :
      (id : ℕ) (q : List Exchange)
      → IsBounded redact (record { id = id; queue = q })
      → IsBounded redact (record { id = id; queue = tail q })
  tail-IsBounded id [] b = b
  tail-IsBounded id (e ∷ q) b = record { room = omega (arith, b.room); clean = b.clean.1 }

  receive-IsBounded :
      (id : ℕ) (chs : List Channel)
      → All (IsBounded redact) chs
      → All (IsBounded redact) (receive id chs)
  unfolding receive
  receive-IsBounded id [] h = tt
  receive-IsBounded id (ch ∷ chs) (b, h) = elim (Bool-cases (ch.id == id)) [
    | inl this ↦ rw this (tail-IsBounded ch.id ch.queue b, receive-IsBounded id chs h)
    | inr other ↦ rw other (b, receive-IsBounded id chs h)
  ]

none_left-drop : (id : ℕ) (chs : List Channel) → chs ≡ [] → drop_channel id chs ≡ []
unfolding drop_channel
none_left-drop id [] h = refl
none_left-drop id (ch ∷ chs) h = cc

none_left-receive : (id : ℕ) (chs : List Channel) → chs ≡ [] → receive id chs ≡ []
unfolding receive
none_left-receive id [] h = refl
none_left-receive id (ch ∷ chs) h = cc

pick :
    (b : Bool) (s t : Server) → IsSound s → (b ≡ false → IsSound t) → IsSound (if b then s else t)
pick true s t v w = v
pick false s t v w = w refl

pick_pair :
    (b : Bool) (s t : Server) (o p : Option ℕ)
    → IsSound s
    → (b ≡ false → IsSound t)
    → IsSound (if◌then◌else◌ {A = Server × Option ℕ} b (s, o) (t, p)).0
pick_pair true s t o p v w = v
pick_pair false s t o p v w = w refl

-- Every step keeps the channels bounded, redacted where the server redacts, and gone once it is
-- closed.
pub step-IsSound : (x : Step) (s : Server) → IsSound s → IsSound (step x s)
unfolding step record_exchange subscribe
step-IsSound (recording e) s v = pick s.closed s _ v (λ o. record {
  channels =
      send_all-IsBounded s.redact (maybe_redact e s.redact) s.subs (maybe_redact-IsClean s.redact e)
        v.channels;
  shut = λ h. cc;
})
step-IsSound closing s v = pick s.closed s _ v (λ o. record { channels = tt; shut = λ h. refl })
step-IsSound subscribing s v = pick_pair s.closed s _ none _ v (λ o. record {
  channels = (record { room = omega arith; clean = tt }, v.channels);
  shut = λ h. cc;
})
step-IsSound (unsubscribing id) s v = record {
  channels = drop_channel-IsBounded s.redact id s.subs v.channels;
  shut = λ h. none_left-drop id s.subs (v.shut h);
}
step-IsSound (receiving id) s v = record {
  channels = receive-IsBounded s.redact id s.subs v.channels;
  shut = λ h. none_left-receive id s.subs (v.shut h);
}

-- On a server that has just been made, any steps leave every channel with at most 256 exchanges
-- waiting, without a query string where the server redacts, and with no channel once it is closed.
pub run-IsSound : (redact : Bool) (xs : List Step) → IsSound (run xs (new redact))
unfolding run
run-IsSound redact xs = go xs (new redact) (record { channels = tt; shut = λ h. cc })
  where
    go : (xs : List Step) (s : Server) → IsSound s → IsSound (run xs s)
    go [] s v = v
    go (x ∷ xs) s v = go xs (step x s) (step-IsSound x s v)
