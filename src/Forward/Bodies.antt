-- ===== src/Forward/Bodies.antt =====
-- `drainBody`: read a request body up to a limit, and leave it readable.
use Prim.Native.Nat.{ℕ, zero, suc, ◌≤◌, ◌<◌}
use mathlib.Core.Option.{Option, none, some}
use mathlib.Core.List.{[], ◌∷◌, ◌++◌}
use mathlib.Core.Logic.{◌↔◌}
use mathlib.Core.Path.{◌≡◌, refl, ap}
use aitori.Base.{
  take-append-drop, Bool, true, false, leb, if◌then◌else◌, arith, Bool-cases, leb→le, le→leb, inl,
  inr, length, take, drop,
}
use aitori.Base.Text.{Str}

-- What is still to be read of a body: its bytes, and whether an error comes behind them instead of
-- the end.
pub record Stream : Type 0 where
  pub bytes : Str
  pub broken : Bool

-- The bytes, whether the whole body is in them, and the body that the request is left with. A nil
-- body and `http.NoBody` are `none`.
pub record Drained : Type 0 where
  pub buf : Str
  pub full : Bool
  pub body : Option Stream

-- `io.ReadAll(io.LimitReader(r.Body, n))`, whose error is dropped.
abbrev read_up_to : ℕ → Stream → Str
read_up_to n s = take n s.bytes

drain_stream : ℕ → Stream → Drained
drain_stream zero s = record { buf = []; full = false; body = some s }
drain_stream (suc limit) s =
    let front = read_up_to (suc (suc limit)) s in
    if leb (length front) (suc limit)
    then record { buf = front; full = true; body = some (record { bytes = front; broken = false }) }
    else record {
      buf = [];
      full = false;
      body = some (record s { bytes = front ++ drop (suc (suc limit)) s.bytes });
    }

-- `drainBody`; a limit below 1 is 0.
unfoldable pub drain_body : Option Stream → ℕ → Drained
unfolding drain_stream
drain_body none limit = record { buf = []; full = true; body = none }
drain_body (some s) limit = drain_stream limit s

abbrev pub bytes_of : Option Stream → Str
bytes_of none = []
bytes_of (some s) = s.bytes

take_all : (n : ℕ) (s : Str) → length (take (suc n) s) ≤ n → take (suc n) s ≡ s
take_all n [] h = refl
take_all zero (c ∷ s) h = absurd (omega arith)
take_all (suc n) (c ∷ s) h = ap (λ r. c ∷ r) (take_all n s (omega arith))

length-take-le : (n : ℕ) (s : Str) → length s ≤ n → length (take (suc n) s) ≤ n
length-take-le n [] h = omega arith
length-take-le zero (c ∷ s) h = absurd (omega arith)
length-take-le (suc n) (c ∷ s) h = omega (arith, length-take-le n s (omega arith))

-- Draining loses no byte: on every branch the request is left with the bytes that it had.
pub bytes-drain_body :
    (body : Option Stream) (limit : ℕ) → bytes_of (drain_body body limit).body ≡ bytes_of body
unfolding drain_body
bytes-drain_body none limit = refl
bytes-drain_body (some s) zero = refl
bytes-drain_body (some s) (suc limit) =
    elim (Bool-cases (leb (length (take (suc (suc limit)) s.bytes)) (suc limit))) [
      | inl fits ↦ rw fits (take_all (suc limit) s.bytes (leb→le _ (suc limit) fits))
      | inr over ↦ rw over (take-append-drop (suc (suc limit)) s.bytes)
    ]

-- A body, where there is one, is buffered whole exactly if the limit is positive and the body is
-- within it.
pub full-drain_body_iff :
    (s : Stream) (limit : ℕ)
    → ((drain_body (some s) limit).full ≡ true) ↔ ((0 < limit) × (length s.bytes ≤ limit))
unfolding drain_body
full-drain_body_iff s zero = (λ h. cc, λ (p, _). absurd (omega arith))
full-drain_body_iff s (suc limit) =
    elim (Bool-cases (leb (length (take (suc (suc limit)) s.bytes)) (suc limit))) [
      | inl fits ↦
          let whole = take_all (suc limit) s.bytes (leb→le _ (suc limit) fits) in
          rw fits (
            λ _. (omega arith, omega (arith, ap length whole, leb→le _ (suc limit) fits)),
            λ _. refl,
          )
      | inr over ↦
          rw over
            (λ h. cc, λ (_, l). cc (le→leb _ (suc limit) (length-take-le (suc limit) s.bytes l)))
    ]

-- The buffer of a body that is buffered whole holds all of its bytes.
pub buf-drain_body :
    (body : Option Stream) (limit : ℕ)
    → (drain_body body limit).full ≡ true
    → (drain_body body limit).buf ≡ bytes_of body
unfolding drain_body
buf-drain_body none limit h = refl
buf-drain_body (some s) zero h = cc
buf-drain_body (some s) (suc limit) h =
    elim (Bool-cases (leb (length (take (suc (suc limit)) s.bytes)) (suc limit))) [
      | inl fits ↦ rw fits (take_all (suc limit) s.bytes (leb→le _ (suc limit) fits))
      | inr over ↦ absurd (cc (rw over at h))
    ]

-- Where bodies are buffered, one that breaks off within the limit is taken for a complete one: the
-- read error is dropped, and draining it gives what draining a whole body of the same bytes gives.
pub drain_body-broken :
    (bytes : Str) (limit : ℕ)
    → 0 < limit
    → length bytes ≤ limit
    → drain_body (some (record { bytes = bytes; broken = true })) limit
      ≡ drain_body (some (record { bytes = bytes; broken = false })) limit
unfolding drain_body
drain_body-broken bytes zero p h = absurd (omega arith)
drain_body-broken bytes (suc limit) p h =
    rw (le→leb _ (suc limit) (length-take-le (suc limit) bytes h))
