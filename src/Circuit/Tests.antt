-- ===== src/Circuit/Tests.antt =====
-- Histories of a breaker, and its theorems at concrete ones.
use aitori.Base.{ℕ, ◌≡◌, refl, false, List, [], ◌∷◌}
use aitori.Base.Int.{pos, negsuc}
use aitori.Circuit.{open_, half_open, Breaker, new, Call, allow_call, failure_call, open_call, run}

abbrev history : List Call
history = failure_call 1 ∷ failure_call 2 ∷ allow_call 60 ∷ open_call 61 ∷ []

half_opens : (run (new (pos 2) (pos 50)) history).state ≡ half_open
unfolding run new
half_opens = refl

defaults : (new (negsuc 0) (pos 0)).threshold ≡ 5
unfolding new
defaults = refl

abbrev tripped : Breaker
tripped = record {
  state = open_;
  failures = 2;
  threshold = 2;
  cooldown = 50;
  opened_at = 2;
  probing = false;
}

abbrev row : List ℕ
row = 1 ∷ 2 ∷ []

abbrev routed : List Call
routed = open_call 0 ∷ failure_call 1 ∷ failure_call 2 ∷ open_call 60 ∷ failure_call 61 ∷ []
