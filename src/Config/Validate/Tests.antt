-- ===== src/Config/Validate/Tests.antt =====
-- Configurations with and without a problem, and the theorem at one.
use mathlib.Core.Option.{Option, none, some}
use mathlib.Core.List.{[], ◌∷◌}
use mathlib.Core.Path.{◌≡◌, refl}
use mathlib.Core.Logic.{◌↔◌}
use aitori.Base.{ℕ}
use aitori.Base.Text.{Str, codes}
use aitori.Http.{Url}
use aitori.HostMatch
use aitori.Config.{Config, default, patterns}
use aitori.Config.Validate.{validate, gateway_in_hosts}
use aitori.Config.Validate.Consistent.{IsConsistent, validate_iff}

-- Stand-ins for the parsers: every text is the host of a URL, and a duration.
abbrev parse_url : Str → Option Url
parse_url s =
    some (record { scheme = codes "https"; host = s; path = []; raw_path = []; raw_query = [] })

abbrev hostname : Url → Str
hostname u = u.host

abbrev parse_duration : Str → Option ℕ
parse_duration s = some 5

abbrev looping : Config
looping = record default {
  gateway = record (default.gateway) { url = codes "gw.example.com" };
  intercept_hosts =
      record { host = codes "*.example.com"; action = []; category = []; paths = []; methods = [] }
      ∷ [];
}

default_is_valid : validate parse_url hostname parse_duration default ≡ none
unfolding validate
default_is_valid = refl

loop_is_found : validate parse_url hostname parse_duration looping ≡ some gateway_in_hosts
unfolding validate patterns HostMatch.match_any
loop_is_found = refl

validate_iff_example :
    (validate parse_url hostname parse_duration looping ≡ none)
    ↔ IsConsistent parse_url hostname parse_duration looping
validate_iff_example = validate_iff parse_url hostname parse_duration looping
