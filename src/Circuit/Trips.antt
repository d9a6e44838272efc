-- ===== src/Circuit/Trips.antt =====
-- When the breaker opens, for how long, and how far its counter runs.
use aitori.Base.{ℕ, suc, ◌+◌, ◌≤◌, ◌<◌, ◌≡◌, ◌≢◌, ◌↔◌, true, List, [], ◌∷◌, arith, length}
use aitori.Base.Int.{ℤ}
use aitori.Circuit.{
  open_, half_open, Breaker, new, failure, is_open, Call, allow_call, success_call, failure_call,
  open_call, step, run,
}
use aitori.Circuit.Invariant.{new-IsValid}

-- Failures in a row, each at its time.
unfoldable pub fail_all : Breaker → List ℕ → Breaker
unfolding failure
fail_all b [] = b
fail_all b (now ∷ times) = fail_all (failure b now) times

failure-counts :
    (b : Breaker) (now : ℕ)
    → b.state ≢ half_open
    → (b.state ≡ open_ → b.threshold ≤ b.failures)
    → ((failure b now).failures ≡ b.failures + 1)
      × ((failure b now).threshold ≡ b.threshold)
      × ((failure b now).state ≢ half_open)
      × (((failure b now).state ≡ open_) ↔ (b.threshold ≤ b.failures + 1))
unfolding failure
failure-counts b now h e = ground arith

fail_all-open_iff :
    (b : Breaker) (times : List ℕ)
    → b.state ≢ half_open
    → (b.state ≡ open_) ↔ (b.threshold ≤ b.failures)
    → ((fail_all b times).state ≡ open_) ↔ (b.threshold ≤ b.failures + length times)
unfolding fail_all
fail_all-open_iff b [] h e = (λ o. omega (arith, e.0 o), λ l. e.1 (omega arith))
fail_all-open_iff b (now ∷ times) h e =
    let (counted, kept, alive, opens) = failure-counts b now h e.0 in
    let (to, from) =
      fail_all-open_iff (failure b now) times alive
        (λ o. omega (arith, opens.0 o), λ l. opens.1 (omega arith)) in
    (λ o. omega (arith, to o), λ l. from (omega arith))

-- A new breaker is open after a row of failures exactly if the row is at least as long as the
-- threshold.
pub fail_all-new_iff :
    (threshold cooldown : ℤ) (times : List ℕ)
    → ((fail_all (new threshold cooldown) times).state ≡ open_)
      ↔ ((new threshold cooldown).threshold ≤ length times)
unfolding new
fail_all-new_iff t c times =
    let v = new-IsValid t c in
    let (to, from) =
      fail_all-open_iff (new t c) times (λ e. cc)
        (λ o. cc, λ l. absurd (omega (arith, v.threshold_pos))) in
    (λ o. omega (arith, to o), λ l. from (omega arith))

-- A failure that reaches the threshold keeps the breaker open for the whole cooldown and no longer:
-- at any later time, `Open` holds exactly if the cooldown since the failure is not over.
pub is_open-failure_iff :
    (b : Breaker) (now later : ℕ)
    → b.threshold ≤ b.failures + 1
    → now ≤ later
    → (is_open (failure b now) later ≡ true) ↔ (later < now + b.cooldown)
unfolding failure is_open
is_open-failure_iff b now later h l = ground arith

-- The number of failure calls in a history.
abbrev pub failure_calls : List Call → ℕ
failure_calls [] = 0
failure_calls (failure_call now ∷ cs) = suc (failure_calls cs)
failure_calls (_ ∷ cs) = failure_calls cs

failures-step_le :
    (b : Breaker) (c : Call) → (step b c).failures ≤ b.failures + failure_calls (c ∷ [])
unfolding step
failures-step_le b (allow_call now) = ground arith
failures-step_le b (success_call now) = ground arith
failures-step_le b (failure_call now) = ground arith
failures-step_le b (open_call now) = ground arith

-- After any calls the counter has grown by at most one for each failure call among them.
pub failures-run_le :
    (b : Breaker) (cs : List Call) → (run b cs).failures ≤ b.failures + failure_calls cs
unfolding run
failures-run_le b [] = omega arith
failures-run_le b (allow_call now ∷ cs) =
    omega (arith, failures-step_le b (allow_call now), failures-run_le (step b (allow_call now)) cs)
failures-run_le b (success_call now ∷ cs) =
    omega
      (arith, failures-step_le b (success_call now), failures-run_le (step b (success_call now)) cs)
failures-run_le b (failure_call now ∷ cs) =
    omega
      (arith, failures-step_le b (failure_call now), failures-run_le (step b (failure_call now)) cs)
failures-run_le b (open_call now ∷ cs) =
    omega (arith, failures-step_le b (open_call now), failures-run_le (step b (open_call now)) cs)
