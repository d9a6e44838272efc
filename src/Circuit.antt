-- ===== src/Circuit.antt =====
-- internal/circuit/breaker.go: the circuit breaker over the gateway's health. A method takes the
-- time that `now` returns and gives back the new state. `Invariant` is what holds between calls,
-- `Trips` says when the breaker opens, `Probes` what the half-open state lets through.
--
-- Times are nanoseconds of the monotonic clock, so they do not fall. `failures` is a Go int that
-- the model leaves unbounded.
pub mod Invariant
pub mod Trips
pub mod Probes
mod Tests
use aitori.Base.{ℕ, ◌+◌, ◌-◌, Bool, true, false, List, [], ◌∷◌, ltb, leb, ◌&&◌, if◌then◌else◌}
use aitori.Base.Int.{ℤ, positive_or}

pub data State : Type 0 where
  closed open_ half_open : State

pub record Breaker : Type 0 where
  pub state : State
  pub failures : ℕ
  pub threshold : ℕ
  pub cooldown : ℕ
  pub opened_at : ℕ
  pub probing : Bool

-- 10 * time.Second
abbrev pub default_cooldown : ℕ
default_cooldown = 10_000_000_000

-- `New`.
unfoldable pub new : ℤ → ℤ → Breaker
new threshold cooldown = record {
  state = closed;
  failures = 0;
  threshold = positive_or 5 threshold;
  cooldown = positive_or default_cooldown cooldown;
  opened_at = 0;
  probing = false;
}

-- `b.now().Sub(b.openedAt) >= b.cooldown`
cooled : Breaker → ℕ → Bool
cooled b now = leb b.cooldown (now - b.opened_at)

allow_in : State → Breaker → ℕ → Breaker × Bool
allow_in closed b now = (b, true)
allow_in open_ b now =
    if cooled b now then (record b { state = half_open; probing = true }, true) else (b, false)
allow_in half_open b now = if b.probing then (b, false) else (record b { probing = true }, true)

-- `Allow`.
unfoldable pub allow : Breaker → ℕ → Breaker × Bool
unfolding allow_in cooled
allow b now = allow_in b.state b now

-- `Success`.
unfoldable pub success : Breaker → Breaker
success b = record b { state = closed; failures = 0; probing = false }

-- `trip`.
trip : Breaker → ℕ → Breaker
trip b now = record b { state = open_; opened_at = now; probing = false }

abbrev count_failure : Breaker → ℕ → Breaker
count_failure b now =
    let counted = record b { failures = b.failures + 1 } in
    if leb counted.threshold counted.failures then trip counted now else counted

failure_in : State → Breaker → ℕ → Breaker
failure_in half_open b now = trip b now
failure_in closed b now = count_failure b now
failure_in open_ b now = count_failure b now

-- `Failure`.
unfoldable pub failure : Breaker → ℕ → Breaker
unfolding failure_in trip
failure b now = failure_in b.state b now

abbrev pub is_open_state : State → Bool
is_open_state open_ = true
is_open_state _ = false

-- `Open`.
unfoldable pub is_open : Breaker → ℕ → Bool
is_open b now = is_open_state b.state && ltb (now - b.opened_at) b.cooldown

-- The calls that reach a breaker, each at its time.
pub data Call : Type 0 where
  allow_call success_call failure_call open_call : ℕ → Call

unfoldable pub step : Breaker → Call → Breaker
unfolding allow success failure
step b (allow_call now) = (allow b now).0
step b (success_call now) = success b
step b (failure_call now) = failure b now
step b (open_call now) = b

unfoldable pub run : Breaker → List Call → Breaker
unfolding step
run b [] = b
run b (c ∷ cs) = run (step b c) cs
