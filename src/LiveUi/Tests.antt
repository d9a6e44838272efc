-- ===== src/LiveUi/Tests.antt =====
-- A server with two pages, and the theorems at it.
use mathlib.Core.List.{List, [], ◌∷◌}
use mathlib.Core.Path.{◌≡◌}
use aitori.Base.{true, false}
use aitori.Base.Text.{codes}
use aitori.Observe.{Exchange}
use aitori.LiveUi.{Step, recording, closing, subscribing, unsubscribing, receiving, new, run}
use aitori.LiveUi.Ring.{newest, accepted, run-ring}
use aitori.LiveUi.Streams.{IsSound, run-IsSound}

abbrev ask : Exchange
ask = record {
  time = 1;
  app = [];
  category = [];
  action = codes "reroute";
  rerouted = true;
  method = codes "GET";
  scheme = codes "https";
  host = codes "claude.ai";
  path = codes "/x";
  query = codes "key=1";
  status = 200;
  bytes = 3;
  duration_ms = 2;
  gateway_gap = false;
  error = [];
}

abbrev steps : List Step
steps =
    subscribing
    ∷ recording ask
    ∷ subscribing
    ∷ recording ask
    ∷ receiving 0
    ∷ unsubscribing 1
    ∷ closing
    ∷ recording ask
    ∷ []

run-ring_example : (run steps (new true)).ring ≡ newest (accepted true steps)
run-ring_example = run-ring true steps

run-IsSound_example : IsSound (run steps (new true))
run-IsSound_example = run-IsSound true steps
