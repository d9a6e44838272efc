-- ===== src/MockGateway/Trace.antt =====
-- tools/aitori-gateway/main.go: what a span records of a request, with the redaction and the rendering
-- of bodies. Decompression and the quoting of `%q` are parameters.
use mathlib.Core.Option.{Option, none, some}
use mathlib.Core.List.{List, [], ◌∷◌, ◌++◌}
use aitori.Base.{
  ℕ, Bool, true, false, not, ◌&&◌, ◌==◌, ltb, length, take, is_empty, any, if◌then◌else◌,
}
use aitori.Base.Text.{Str, codes, str_eq, to_lower, trim_space}
use aitori.Base.Utf8.{Rune, valid, invalid, runes}
use aitori.Http.{Header, get, Url}
use aitori.Router.Context.{itoa}

-- `maxLogBody` and `captureCap`.
abbrev pub max_log_body : ℕ
max_log_body = 16384

abbrev pub capture_cap : ℕ
capture_cap = 262144

-- The value of an attribute.
pub data AttributeValue : Type 0 where
  text : Str → AttributeValue
  int : ℕ → AttributeValue

-- The status of a span: not set, fine, or an error with its description.
pub data SpanStatus : Type 0 where
  unset : SpanStatus
  ok : SpanStatus
  error : Str → SpanStatus

-- A span: its attributes and its events, each in the order they were added.
pub record Span : Type 0 where
  pub name : Str
  pub attributes : List (Str × AttributeValue)
  pub status : SpanStatus
  pub events : List (Str × Str)

-- `capString`.
unfoldable pub cap_string : Str → Str
cap_string s =
    if ltb max_log_body (length s) then take max_log_body s ++ codes "\n... (truncated)" else s

abbrev pub redacted : Str
redacted = codes "***redacted***"

-- `sensitiveHeader`.
unfoldable pub sensitive_header : Str → Bool
unfolding str_eq to_lower any
sensitive_header name = any (str_eq (to_lower name)) (
    codes "authorization"
    ∷ codes "proxy-authorization"
    ∷ codes "x-tfy-api-key"
    ∷ codes "cookie"
    ∷ codes "set-cookie"
    ∷ [])

join_comma : List Str → Str
join_comma [] = []
join_comma (v ∷ []) = v
join_comma (v ∷ w ∷ vs) = v ++ (codes ", " ++ join_comma (w ∷ vs))

unfoldable pub header_value : Str → List Str → Str
unfolding cap_string join_comma sensitive_header
header_value k vs = if not (sensitive_header k) then cap_string (join_comma vs) else redacted

-- `headerAttributes`.
unfoldable pub header_attributes : Header → List (Str × AttributeValue)
unfolding header_value to_lower
header_attributes [] = []
header_attributes ((k, vs) ∷ h) =
    (codes "http.request.header." ++ to_lower k, text (header_value k vs)) ∷ header_attributes h

-- `spanName`.
unfoldable pub span_name : (Str → Option Url) → Str → Str → Str
span_name parse_url method orig = named (parse_url orig)
  where
    named : Option Url → Str
    named none = method ++ codes " (gateway)"
    named (some u) =
        if is_empty u.host
        then method ++ codes " (gateway)"
        else method ++ (codes " " ++ (u.host ++ u.path))

is_valid : Rune → Bool
is_valid (valid s) = true
is_valid invalid = false

-- `isProbablyText`.
unfoldable pub is_probably_text : Str → Bool
unfolding any runes is_valid
is_probably_text b = not (any (λ r. not (is_valid r)) (runes b)) && not (any (λ c. c == 0) b)

module _ (unzip : Str → Option Str) (quote : Str → Str) where
  decoded : Str → Option Str → Str
  decoded raw none = raw
  decoded raw (some body) = if is_empty body then raw else body

  is_gzip : Str → Bool
  unfolding str_eq
  is_gzip enc = any (str_eq enc) (codes "gzip" ∷ codes "x-gzip" ∷ [])

  shown : Str → Str → Str → ℕ → Bool → Str
  unfolding is_probably_text itoa
  shown body enc ctype total capped =
      if not (is_probably_text body)
      then codes "(binary body, "
        ++ (itoa total
            ++ (codes " bytes, content-type="
                ++ (quote ctype ++ (codes ", content-encoding=" ++ (quote enc ++ codes ")")))))
      else if capped
      then body
        ++ (codes "\n... (capture capped; " ++ (itoa total ++ codes " bytes streamed total)"))
      else body

  -- `renderBody`.
  unfoldable pub render_body : Str → Header → ℕ → Bool → Str
  unfolding shown decoded is_gzip any str_eq to_lower trim_space get itoa
  render_body raw h total capped =
      let enc = to_lower (trim_space (get h (codes "Content-Encoding"))) in
      let ctype = get h (codes "Content-Type") in
      if total == 0
      then codes "(empty)"
      else if any (str_eq enc) ([] ∷ codes "identity" ∷ [])
      then shown raw enc ctype total capped
      else if is_gzip enc
      then shown (decoded raw (unzip raw)) enc ctype total capped
      else codes "("
        ++ (itoa total
            ++ (codes " bytes, content-type="
                ++ (quote ctype
                    ++ (codes ", content-encoding=" ++ (quote enc ++ codes " — not decoded)")))))
