-- ===== src/Circuit/Probes.antt =====
-- What a tripped breaker lets through.
use aitori.Base.{ℕ, ◌≡◌, ◌≢◌, refl, Bool, true, false, not, List, [], ◌∷◌, arith}
use aitori.Circuit.{
  closed, half_open, Breaker, allow, is_open, Call, allow_call, success_call, failure_call,
  open_call, step, run,
}

-- Outside a probe, `Allow` refuses a request exactly when `Open` reports true.
pub allow-is_open :
    (b : Breaker) (now : ℕ) → b.state ≢ half_open → (allow b now).1 ≡ not (is_open b now)
unfolding allow is_open
allow-is_open b now h = ground arith

-- Calls that only ask.
abbrev pub is_query : Call → Bool
is_query (allow_call now) = true
is_query (open_call now) = true
is_query _ = false

abbrev pub all_queries : List Call → Bool
all_queries [] = true
all_queries (c ∷ cs) = elim (is_query c) [ true ↦ all_queries cs | false ↦ false ]

half_open-step :
    (b : Breaker) (c : Call)
    → is_query c ≡ true
    → b.state ≡ half_open
    → b.probing ≡ true
    → step b c ≡ b
unfolding step allow
half_open-step b (allow_call now) q s p = ground arith
half_open-step b (success_call now) q s p = cc
half_open-step b (failure_call now) q s p = cc
half_open-step b (open_call now) q s p = refl

half_open-run :
    (b : Breaker) (cs : List Call)
    → all_queries cs ≡ true
    → b.state ≡ half_open
    → b.probing ≡ true
    → run b cs ≡ b
unfolding run
half_open-run b [] q s p = refl
half_open-run b (c ∷ cs) q s p =
    rw (half_open-step b c (ground arith) s p) (half_open-run b cs (ground arith) s p)

allow-probes :
    (b : Breaker) (now : ℕ)
    → b.state ≢ closed
    → (allow b now).1 ≡ true
    → ((allow b now).0.state ≡ half_open) × ((allow b now).0.probing ≡ true)
unfolding allow
allow-probes b now h a = ground arith

allow-refuses :
    (c : Breaker) (now : ℕ) → c.state ≡ half_open → c.probing ≡ true → (allow c now).1 ≡ false
unfolding allow
allow-refuses c now s p = ground arith

-- A tripped breaker that lets a request through lets no second one through until `Success` or
-- `Failure` is called, however often and whenever it is asked.
pub allow-one_probe :
    (b : Breaker) (now later : ℕ) (cs : List Call)
    → b.state ≢ closed
    → (allow b now).1 ≡ true
    → all_queries cs ≡ true
    → (allow (run (allow b now).0 cs) later).1 ≡ false
allow-one_probe b now later cs h a q =
    let (s, p) = allow-probes b now h a in
    rw (half_open-run (allow b now).0 cs q s p) (allow-refuses (allow b now).0 later s p)
