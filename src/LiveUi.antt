-- ===== src/LiveUi.antt =====
-- internal/liveui/liveui.go: the ring of recent exchanges and the channels of its subscribers, a
-- critical section of the server's mutex being one step. `Ring` says what the ring holds after any
-- steps, `Streams` what a subscriber is sent. What a page still reads from a channel that has been
-- closed is not in the model.
pub mod Ring
pub mod Streams
pub mod Pages
mod Tests
use Prim.Native.Nat.{ℕ, suc, ◌-◌}
use mathlib.Core.Option.{Option, none, some}
use mathlib.Core.List.{List, [], ◌∷◌, ◌++◌, map}
use aitori.Base.{Bool, true, false, ltb, ◌==◌, length, drop, if◌then◌else◌}
use aitori.Observe.{Exchange, maybe_redact}

-- `ringCap`.
abbrev pub ring_cap : ℕ
ring_cap = 500

-- `subBuffer`.
abbrev pub sub_buffer : ℕ
sub_buffer = 256

-- A subscriber's channel, known by its number, with what waits in its buffer.
pub record Channel : Type 0 where
  pub id : ℕ
  pub queue : List Exchange

-- `Server`. Channels are numbered in the order in which they are made.
pub record Server : Type 0 where
  pub redact : Bool
  pub ring : List Exchange
  pub subs : List Channel
  pub made : ℕ
  pub closed : Bool

-- `New`.
abbrev pub new : Bool → Server
new redact = record { redact = redact; ring = []; subs = []; made = 0; closed = false }

-- `s.ring[len(s.ring)-ringCap:]`, if the ring is over its capacity.
unfoldable pub trim : List Exchange → List Exchange
trim ring = if ltb ring_cap (length ring) then drop (length ring - ring_cap) ring else ring

-- `select { case ch <- e: default: }`
unfoldable pub send : Exchange → Channel → Channel
send e ch =
    if ltb (length ch.queue) sub_buffer then record ch { queue = ch.queue ++ e ∷ [] } else ch

-- `Record`.
unfoldable pub record_exchange : Exchange → Server → Server
unfolding trim send
record_exchange e s =
    let kept = maybe_redact e s.redact in
    if s.closed
    then s
    else record s { ring = trim (s.ring ++ kept ∷ []); subs = map (send kept) s.subs }

-- `Close`.
abbrev pub close : Server → Server
close s = if s.closed then s else record s { closed = true; subs = [] }

-- `subscribe`: the number of the new channel, unless the server is closed.
unfoldable pub subscribe : Server → Server × Option ℕ
subscribe s = if s.closed then (s, none) else (
  record s { subs = record { id = s.made; queue = [] } ∷ s.subs; made = suc s.made },
  some s.made,
)

unfoldable pub drop_channel : ℕ → List Channel → List Channel
drop_channel id [] = []
drop_channel id (ch ∷ chs) =
    let rest = drop_channel id chs in if ch.id == id then rest else ch ∷ rest

-- `unsubscribe`.
abbrev pub unsubscribe : ℕ → Server → Server
unsubscribe id s = record s { subs = drop_channel id s.subs }

abbrev tail : List Exchange → List Exchange
tail [] = []
tail (e ∷ es) = es

-- One receive of `handleStream` from the channel `id`.
unfoldable pub receive : ℕ → List Channel → List Channel
receive id [] = []
receive id (ch ∷ chs) =
    let rest = receive id chs in
    if ch.id == id then record ch { queue = tail ch.queue } ∷ rest else ch ∷ rest

-- The steps that requests, pages and the shutdown take.
pub data Step : Type 0 where
  recording : Exchange → Step
  closing : Step
  subscribing : Step
  unsubscribing : ℕ → Step
  receiving : ℕ → Step

unfoldable pub step : Step → Server → Server
unfolding record_exchange subscribe drop_channel receive
step (recording e) s = record_exchange e s
step closing s = close s
step subscribing s = (subscribe s).0
step (unsubscribing id) s = unsubscribe id s
step (receiving id) s = record s { subs = receive id s.subs }

-- Steps in the order in which they get the mutex.
unfoldable pub run : List Step → Server → Server
unfolding step
run [] s = s
run (x ∷ xs) s = run xs (step x s)
