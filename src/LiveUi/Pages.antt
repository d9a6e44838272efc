-- ===== src/LiveUi/Pages.antt =====
-- internal/liveui/liveui.go: what the handlers of the live page answer. The page itself and the JSON of
-- an exchange are parameters.
use Prim.Native.Nat.{ℕ}
use mathlib.Core.Option.{Option, none, some}
use mathlib.Core.List.{List, [], ◌∷◌, ◌++◌, reverse}
use aitori.Base.{Bool, if◌then◌else◌}
use aitori.Base.Text.{Str, codes, str_eq}
use aitori.Observe.{Exchange}
use aitori.LiveUi.{Server, subscribe}

-- What a handler answers; a stream is on the channel of that number.
pub data Answer : Type 0 where
  not_found : Answer
  page : Answer
  events : List Exchange → Answer
  unsupported : Answer  -- status 500: the connection cannot be flushed
  shutting_down : Answer  -- status 503
  streaming : ℕ → Answer

-- `handleIndex`.
unfoldable pub handle_index : Str → Answer
unfolding str_eq
handle_index path = if str_eq path (codes "/") then page else not_found

-- `snapshot`.
abbrev pub snapshot : Server → List Exchange
snapshot s = s.ring

-- `handleEvents`: the swaps of the loop turn the copy round.
abbrev pub handle_events : Server → Answer
handle_events s = events (reverse (snapshot s))

subscribed : Server × Option ℕ → Server × Answer
subscribed (s, none) = (s, shutting_down)
subscribed (s, some id) = (s, streaming id)

-- `handleStream`, as far as the headers; `can_flush` tells whether the writer is a flusher.
unfoldable pub handle_stream : Bool → Server → Server × Answer
unfolding subscribed subscribe
handle_stream can_flush s = if can_flush then subscribed (subscribe s) else (s, unsupported)

-- `Handler`, with the patterns of its multiplexer.
unfoldable pub handler : Bool → Str → Server → Server × Answer
unfolding handle_stream handle_index str_eq
handler can_flush path s =
    if str_eq path (codes "/events")
    then (s, handle_events s)
    else if str_eq path (codes "/stream")
    then handle_stream can_flush s
    else (s, handle_index path)

-- What `handleStream` writes for an exchange; one that `json.Marshal` refuses is skipped.
unfoldable pub stream_event : (Exchange → Option Str) → Exchange → Str
stream_event encode e = elim (encode e) [ none ↦ [] | some b ↦ codes "data: " ++ b ++ 10 ∷ 10 ∷ [] ]
