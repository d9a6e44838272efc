-- ===== src/Gate/Pinning.antt =====
-- What is noted of handshakes that fail.
use Prim.Native.Nat.{ℕ, suc, ◌+◌}
use mathlib.Core.Path.{◌≡◌, refl, ap, ◌∙◌}
use mathlib.Core.Logic.{inl, inr}
use mathlib.Core.Option.{Option, none, some}
use mathlib.Core.List.{List, [], ◌∷◌}
use aitori.Base.{true, not, ◌&&◌, if◌then◌else◌, arith, Bool-cases}
use aitori.Base.Dict.{lookup, lookup-put}
use aitori.Base.Text.{Str, str_eq, str_eq_iff}
use aitori.HostMatch.{normalize}
use aitori.Gate.{
  CoverageStatus, Coverage, status_or_new, record_pinning, untrusted_ca, note_handshake_failure,
}

-- A handshake that failed: the host it was for, the error's text, and the time.
abbrev pub Failure : Type 0
Failure = Str × Str × ℕ

-- The coverage after some failures, from the earliest.
unfoldable pub note_all : List Failure → Coverage → Coverage
note_all [] c = c
note_all ((hostport, err, now) ∷ fs) c = note_all fs (note_handshake_failure hostport err now c)

failures_of : Option CoverageStatus → ℕ
failures_of none = 0
failures_of (some s) = s.failures

-- The failures that the coverage counts for a host.
unfoldable pub failures_at : Str → Coverage → ℕ
unfolding failures_of
failures_at host c = failures_of (lookup host c)

-- The failures of the host among some, less those that only show a client without the CA.
unfoldable pub count : Str → List Failure → ℕ
count host [] = 0
count host ((hostport, err, now) ∷ fs) =
    let rest = count host fs in
    if not (untrusted_ca err) && str_eq (normalize hostport) host then suc rest else rest

failures_of-new :
    (host : Str) (o : Option CoverageStatus) → (status_or_new host o).failures ≡ failures_of o
unfolding status_or_new failures_of
failures_of-new host none = refl
failures_of-new host (some s) = refl

failures-record_pinning :
    (host j : Str) (now : ℕ) (c : Coverage)
    → failures_at j (record_pinning host now c)
      ≡ (if str_eq host j then suc (failures_at host c) else failures_at j c)
unfolding failures_at record_pinning
failures-record_pinning host j now c = elim (Bool-cases (str_eq host j)) [
  | inl same ↦
      rw (lookup-put host j (pinned host now c) c, same)
        (ap suc (failures_of-new host (lookup host c)))
  | inr other ↦ rw (lookup-put host j (pinned host now c) c, other) refl
]
  where
    pinned : Str → ℕ → Coverage → CoverageStatus
    pinned host now c =
        let s = status_or_new host (lookup host c) in
        record s { pinned = true; failures = suc s.failures; last_error = now }

failures-note :
    (hostport err host : Str) (now : ℕ) (c : Coverage)
    → failures_at host (note_handshake_failure hostport err now c) ≡ (
        if not (untrusted_ca err) && str_eq (normalize hostport) host
        then suc (failures_at host c)
        else failures_at host c)
unfolding note_handshake_failure
failures-note hostport err host now c = elim (Bool-cases (untrusted_ca err)) [
  | inl trust ↦ rw trust refl
  | inr pinning ↦ rw pinning (failures-record_pinning (normalize hostport) host now c ∙ by_host)
]
  where
    by_host :
        (if str_eq (normalize hostport) host
          then suc (failures_at (normalize hostport) c)
          else failures_at host c)
        ≡ (if str_eq (normalize hostport) host
            then suc (failures_at host c)
            else failures_at host c)
    by_host = elim (Bool-cases (str_eq (normalize hostport) host)) [
      | inl same ↦
          rw same (ap (λ h. suc (failures_at h c)) ((str_eq_iff (normalize hostport) host).0 same))
      | inr other ↦ rw other refl
    ]

-- The failures counted for a host are those of its connections, whatever the port and the letter
-- case, except the ones in which the client did not trust the CA.
pub failures-note_all :
    (fs : List Failure) (c : Coverage) (host : Str)
    → failures_at host (note_all fs c) ≡ count host fs + failures_at host c
unfolding note_all count
failures-note_all [] c host = omega arith
failures-note_all ((hostport, err, now) ∷ fs) c host = ground (
  arith,
  failures-note_all fs (note_handshake_failure hostport err now c) host,
  failures-note hostport err host now c,
)
