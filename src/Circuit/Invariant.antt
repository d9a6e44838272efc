-- ===== src/Circuit/Invariant.antt =====
-- What holds of a breaker between two calls.
use aitori.Base.{ℕ, zero, suc, ◌≤◌, ◌<◌, ◌≡◌, ◌≢◌, true, List, [], ◌∷◌, arith}
use aitori.Base.Int.{ℤ, pos, negsuc, positive_or}
use aitori.Circuit.{
  closed, half_open, Breaker, new, Call, allow_call, success_call, failure_call, open_call, step,
  run,
}

pub record IsValid (b : Breaker) : Type 0 where
  pub threshold_pos : 0 < b.threshold
  pub cooldown_pos : 0 < b.cooldown
  pub closed_below : b.state ≡ closed → b.failures < b.threshold
  pub tripped_above : b.state ≢ closed → b.threshold ≤ b.failures
  pub probe_half_open : b.probing ≡ true → b.state ≡ half_open
  pub half_open_probe : b.state ≡ half_open → b.probing ≡ true

positive_or-pos : (d : ℕ) (z : ℤ) → 0 < d → 0 < positive_or d z
positive_or-pos d (pos zero) h = h
positive_or-pos d (pos (suc n)) h = omega arith
positive_or-pos d (negsuc n) h = h

-- A new breaker is valid whatever its arguments, zero and negative ones included.
pub new-IsValid : (threshold cooldown : ℤ) → IsValid (new threshold cooldown)
unfolding new
new-IsValid t c = ground (arith, positive_or-pos 5 t, positive_or-pos 10_000_000_000 c)

-- Every call keeps the invariant.
pub step-IsValid : (b : Breaker) (c : Call) → IsValid b → IsValid (step b c)
unfolding step
step-IsValid b (allow_call now) v = ground arith
step-IsValid b (success_call now) v = ground arith
step-IsValid b (failure_call now) v = ground arith
step-IsValid b (open_call now) v = v

run_from-IsValid : (b : Breaker) (cs : List Call) → IsValid b → IsValid (run b cs)
unfolding run
run_from-IsValid b [] v = v
run_from-IsValid b (c ∷ cs) v = run_from-IsValid (step b c) cs (step-IsValid b c v)

-- After any calls at any times a breaker made by `New` is valid: it is closed exactly while
-- fewer failures than the threshold are counted, and a probe is in flight exactly when it is
-- half open.
pub run-IsValid :
    (threshold cooldown : ℤ) (cs : List Call) → IsValid (run (new threshold cooldown) cs)
run-IsValid t c cs = run_from-IsValid (new t c) cs (new-IsValid t c)
