-- ===== src/Http/Target.antt =====
-- `url.EscapedPath` and `url.RequestURI` of net/url, for a URL that is not opaque.
use Prim.Native.Nat.{ℕ, zero, suc, ◌+◌, ◌*◌, ◌-◌, ◌/◌, ◌%◌}
use mathlib.Core.Option
use mathlib.Core.Option.{Option, none, some}
use mathlib.Core.List.{[], ◌∷◌, ◌++◌}
use aitori.Base.{Bool, true, false, not, ◌&&◌, ◌||◌, leb, ltb, ◌==◌, is_empty, if◌then◌else◌}
use aitori.Base.Text.{Str, codes, str_eq, has_byte}
use aitori.Http.{Url}

is_alphanumeric : ℕ → Bool
is_alphanumeric c =
    (leb b'a' c && leb c b'z') || (leb b'A' c && leb c b'Z') || (leb b'0' c && leb c b'9')

-- `shouldEscape` in the mode of a path.
should_escape : ℕ → Bool
unfolding is_alphanumeric has_byte
should_escape c = not (is_alphanumeric c || has_byte c (codes "-_.~$&+,/:;=@"))

hex_digit : ℕ → ℕ
hex_digit d = if ltb d 10 then b'0' + d else b'A' + (d - 10)

escape : Str → Str
unfolding should_escape hex_digit
escape [] = []
escape (c ∷ s) =
    let rest = escape s in
    if should_escape c then b'%' ∷ hex_digit (c / 16) ∷ hex_digit (c % 16) ∷ rest else c ∷ rest

-- `validEncoded` in the mode of a path.
valid_encoded : Str → Bool
unfolding should_escape
valid_encoded [] = true
valid_encoded (c ∷ s) =
    if has_byte c (codes "!$&'()*+,;=:@[]%") || not (should_escape c)
    then valid_encoded s
    else false

from_hex : ℕ → Option ℕ
from_hex c =
    if leb b'0' c && leb c b'9'
    then some (c - b'0')
    else if leb b'a' c && leb c b'f'
    then some (c - b'a' + 10)
    else if leb b'A' c && leb c b'F'
    then some (c - b'A' + 10)
    else none

-- The byte that two hexadecimal digits at the front of the string stand for.
hex_byte : Str → Option ℕ
unfolding from_hex
hex_byte [] = none
hex_byte (a ∷ []) = none
hex_byte (a ∷ b ∷ s) = elim (from_hex a) [
  | none ↦ none
  | some hi ↦ Option.map (λ lo. hi * 16 + lo) (from_hex b)
]

-- `unescape` in the mode of a path; `skip` bytes are digits of the escape read last.
unescape_from : ℕ → Str → Option Str
unfolding hex_byte
unescape_from skip [] = some []
unescape_from (suc skip) (c ∷ s) = unescape_from skip s
unescape_from zero (c ∷ s) =
    let escaped : Option Str = elim (hex_byte s) [
      | none ↦ none
      | some b ↦ Option.map (λ r. b ∷ r) (unescape_from 2 s)
    ] in
    let plain = Option.map (λ r. c ∷ r) (unescape_from 0 s) in if c == b'%' then escaped else plain

decodes_to : Option Str → Str → Bool
decodes_to none path = false
decodes_to (some s) path = str_eq s path

-- `EscapedPath`.
unfoldable pub escaped_path : Url → Str
unfolding escape valid_encoded unescape_from decodes_to str_eq has_byte
escaped_path u =
    if not (is_empty u.raw_path)
      && (valid_encoded u.raw_path && decodes_to (unescape_from 0 u.raw_path) u.path)
    then u.raw_path
    else if str_eq u.path (codes "*")
    then codes "*"
    else escape u.path

or_slash : Str → Str
or_slash [] = codes "/"
or_slash (c ∷ s) = c ∷ s

-- `RequestURI`.
unfoldable pub request_uri : Url → Str
unfolding escaped_path or_slash
request_uri u =
    or_slash (escaped_path u) ++ (if is_empty u.raw_query then [] else b'?' ∷ u.raw_query)
