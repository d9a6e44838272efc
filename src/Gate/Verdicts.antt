-- ===== src/Gate/Verdicts.antt =====
-- When a connection is decrypted.
use mathlib.Core.Path.{◌≡◌, refl, ◌∙◌}
use mathlib.Core.Logic.{◌⊎◌, inl, inr, ◌↔◌, ◌≢◌}
use mathlib.Core.Option.{Option, none, some}
use mathlib.Core.List.{List, [], ◌∷◌, ◌++◌}
use aitori.Base.{
  Bool, true, false, not, ◌&&◌, is_empty, if◌then◌else◌, Bool-cases, Exists, here, there,
}
use aitori.Base.Text.{Str, str_eq, str_eq_iff}
use aitori.Base.Text.Laws.{NoSpace, Lacks}
use aitori.Config.{Config}
use aitori.HostMatch.{normalize, match, match_any}
use aitori.HostMatch.Shapes.{match_any_covers_iff}
use aitori.HostMatch.Ports.{IsName, normalize-port, normalize-name}
use aitori.Gate.{Gate, new, should_mitm}

-- The guards of `shouldMITM`, on a normalized host and with the answer of the patterns.
verdict : Str → Str → Bool → Bool
verdict host gateway hit =
    if is_empty host
    then false
    else if not (is_empty gateway) && str_eq host gateway
    then false
    else hit

verdict_iff :
    (host gateway : Str) (hit : Bool)
    → (verdict host gateway hit ≡ true)
      ↔ ((host ≢ []) × ((gateway ≡ []) ⊎ (host ≢ gateway)) × (hit ≡ true))
unfolding verdict
verdict_iff [] gateway hit = (λ e. cc, λ (n, _, _). absurd (n refl))
verdict_iff (c ∷ h) [] hit = (λ e. (λ q. cc, inl refl, e), λ (_, _, e). e)
verdict_iff (c ∷ h) (d ∷ g) hit = elim (Bool-cases (str_eq (c ∷ h) (d ∷ g))) [
  | inl same ↦ rw same (
    λ e. cc,
    λ (_, k, _). elim k [ inl q ↦ cc | inr n ↦ absurd (n ((str_eq_iff (c ∷ h) (d ∷ g)).0 same)) ],
  )
  | inr other ↦
      rw other (λ e. (λ q. cc, inr (λ q. cc ((str_eq_iff (c ∷ h) (d ∷ g)).1 q)), e), λ (_, _, e). e)
]

-- A connection is decrypted exactly if its host is not empty, is not the gateway's, and is covered
-- by an allowlisted pattern.
pub should_mitm_iff :
    (gate : Gate) (hostport : Str)
    → (should_mitm gate hostport ≡ true) ↔ (
        (normalize hostport ≢ [])
        × ((gate.gateway_host ≡ []) ⊎ (normalize hostport ≢ gate.gateway_host))
        × Exists (λ p. match p (normalize hostport) ≡ true) gate.intercept_hosts)
unfolding should_mitm
should_mitm_iff gate hostport =
    let host = normalize hostport in
    let outer = verdict_iff host gate.gateway_host (match_any gate.intercept_hosts host) in
    let inner = match_any_covers_iff gate.intercept_hosts host in
    (
      λ e. let (n, g, h) = outer.0 (unfold verdict in e) in (n, g, inner.0 h),
      λ (n, g, h). unfold verdict in outer.1 (n, g, inner.1 h),
    )

refute :
    (gate : Gate) (hostport : Str)
    → ¬ (
        (normalize hostport ≢ [])
        × ((gate.gateway_host ≡ []) ⊎ (normalize hostport ≢ gate.gateway_host))
        × Exists (λ p. match p (normalize hostport) ≡ true) gate.intercept_hosts)
    → should_mitm gate hostport ≡ false
refute gate hostport never = elim (Bool-cases (should_mitm gate hostport)) [
  | inl hit ↦ absurd (never ((should_mitm_iff gate hostport).0 hit))
  | inr miss ↦ miss
]

somewhere : (host : Str) {ps : List Str} → Exists (λ p. match p host ≡ true) ps → ps ≢ []
somewhere host (here _) q = cc
somewhere host (there _) q = cc

pub should_mitm-gateway_host :
    (gate : Gate) (hostport : Str)
    → normalize hostport ≡ gate.gateway_host
    → should_mitm gate hostport ≡ false
should_mitm-gateway_host gate hostport e =
    refute gate hostport (λ (n, g, _). elim g [ inl q ↦ n (e ∙ q) | inr m ↦ m e ])

-- No loop: whatever the allowlist says, a connection whose host normalizes to that of the gateway is
-- not decrypted.
pub should_mitm-gateway :
    (cfg : Option Config) (gateway_host hostport : Str)
    → normalize hostport ≡ normalize gateway_host
    → should_mitm (new cfg gateway_host) hostport ≡ false
should_mitm-gateway none gateway_host hostport e =
    refute (new none gateway_host) hostport (λ (_, _, h). somewhere (normalize hostport) h refl)
should_mitm-gateway (some cfg) gateway_host hostport e =
    refute (new (some cfg) gateway_host) hostport
      (λ (n, g, _). elim g [ inl q ↦ n (e ∙ q) | inr m ↦ m e ])

-- A port behind a host name does not change whether the connection is decrypted.
pub should_mitm-port :
    (gate : Gate) (host port : Str)
    → IsName host
    → NoSpace port
    → Lacks b':' port
    → should_mitm gate (host ++ b':' ∷ port) ≡ should_mitm gate host
unfolding should_mitm
should_mitm-port gate host port n s k =
    rw (normalize-port host port n s k, normalize-name host n) refl
