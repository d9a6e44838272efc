-- ===== src/Gate/Tests.antt =====
-- A gate, some failures, and the theorems at them.
use mathlib.Core.Option.{some}
use mathlib.Core.List.{List, [], ◌∷◌}
use mathlib.Core.Path.{◌≡◌, refl}
use mathlib.Core.Logic.{◌⊎◌, ◌↔◌, ◌≢◌}
use aitori.Base.{true, Exists}
use aitori.Base.Text.{codes, str_eq, has_prefix}
use aitori.Base.Dict.{lookup, put}
use aitori.Config.{InterceptHost, Config, default, patterns}
use aitori.HostMatch
use aitori.HostMatch.{normalize, match}
use aitori.Gate.{Gate, new, should_mitm, untrusted_ca, record_pinning, note_handshake_failure}
use aitori.Gate.Verdicts.{should_mitm_iff}
use aitori.Gate.Pinning.{Failure, note_all, failures_at}

abbrev all_openai : InterceptHost
all_openai = record {
  host = codes "*.openai.com";
  action = [];
  category = [];
  paths = [];
  methods = [];
}

abbrev cfg : Config
cfg = record default { intercept_hosts = all_openai ∷ [] }

abbrev gate : Gate
gate = new (some cfg) (codes "gw.openai.com")

decrypts : should_mitm gate (codes "API.openai.com:443") ≡ true
unfolding should_mitm normalize HostMatch.match_any patterns
decrypts = refl

abbrev failures : List Failure
failures =
    (codes "api.openai.com:443", codes "remote error: tls: unknown ca", 1)
    ∷ (codes "API.openai.com", codes "EOF", 2)
    ∷ []

counted : failures_at (codes "api.openai.com") (note_all failures []) ≡ 1
unfolding failures_at note_all note_handshake_failure untrusted_ca normalize lookup has_prefix
    record_pinning put str_eq
counted = refl

should_mitm_iff_example : (should_mitm gate (codes "api.openai.com") ≡ true) ↔ (
    (normalize (codes "api.openai.com") ≢ [])
    × ((gate.gateway_host ≡ []) ⊎ (normalize (codes "api.openai.com") ≢ gate.gateway_host))
    × Exists (λ p. match p (normalize (codes "api.openai.com")) ≡ true) gate.intercept_hosts)
should_mitm_iff_example = should_mitm_iff gate (codes "api.openai.com")
