-- ===== src/Router/Context.antt =====
-- The consolidated context header: clamped values, and the JSON object that carries them.
use Prim.Native.Nat.{ℕ, zero, suc, ◌+◌, ◌-◌, ◌*◌, ◌/◌, ◌%◌, ◌≤◌}
use mathlib.Core.List.{List, [], ◌∷◌, ◌++◌}
use native.Mathlib.Omega.{arith}
use aitori.Base.{◌||◌, ltb, leb, ◌==◌, length, take, if◌then◌else◌, Bool-cases, leb→le, inl, inr}
use aitori.Base.Text.{Str, codes, str_eq}
use aitori.Base.Utf8.{
  Rune, valid, invalid, runes, from_runes, length-from_runes-take, length-le-runes,
}

-- `proxyCtx`.
pub record ProxyCtx : Type 0 where
  pub app : Str
  pub pid : Str
  pub category : Str
  pub host : Str
  pub os : Str
  pub agent_version : Str

abbrev pub max_ctx_value : ℕ
max_ctx_value = 128

-- `clampCtx`.
unfoldable pub clamp_ctx : Str → Str
clamp_ctx s =
    if leb (length s) max_ctx_value
    then s
    else if leb (length (runes s)) max_ctx_value
    then s
    else from_runes (take max_ctx_value (runes s))

length-clamp_le :
    (n : ℕ) (s : Str)
    → length (
        if leb (length s) n
        then s
        else if leb (length (runes s)) n
        then s
        else from_runes (take n (runes s)))
      ≤ 4 * n
length-clamp_le n s = elim (Bool-cases (leb (length s) n)) [
  | inl short ↦ rw short (omega (arith, leb→le (length s) n short))
  | inr long ↦ elim (Bool-cases (leb (length (runes s)) n)) [
    | inl few ↦ rw (long, few) (omega (arith, leb→le (length (runes s)) n few, length-le-runes s))
    | inr many ↦ rw (long, many) (length-from_runes-take n s)
  ]
]

-- A clamped value takes at most four bytes for each of its 128 runes.
pub length-clamp_ctx_le : (s : Str) → length (clamp_ctx s) ≤ 512
unfolding clamp_ctx
length-clamp_ctx_le s = length-clamp_le 128 s

-- `strconv.Itoa` of a natural number; the fuel bounds the digits.
itoa_from : ℕ → ℕ → Str → Str
itoa_from zero n digits = digits
itoa_from (suc f) n digits =
    let more = itoa_from f (n / 10) ((b'0' + n % 10) ∷ digits) in
    if ltb n 10 then (b'0' + n) ∷ digits else more

unfoldable pub itoa : ℕ → Str
unfolding itoa_from
itoa n = itoa_from (n + 1) n []

lower_hex : ℕ → ℕ
lower_hex d = if ltb d 10 then b'0' + d else b'a' + (d - 10)

-- A byte of ASCII inside a JSON string, as `json.Marshal` writes it.
escape_byte : ℕ → Str
escape_byte c =
    if c == 92 || c == 34
    then 92 ∷ c ∷ []
    else if c == 8
    then codes "\\b"
    else if c == 12
    then codes "\\f"
    else if c == 10
    then codes "\\n"
    else if c == 13
    then codes "\\r"
    else if c == 9
    then codes "\\t"
    else if ltb c 32 || (c == b'<' || (c == b'>' || c == b'&'))
    then codes "\\u00" ++ lower_hex (c / 16) ∷ lower_hex (c % 16) ∷ []
    else c ∷ []

-- A rune: U+2028 and U+2029 are escaped, other runes beyond ASCII stand as they are.
escape_rune : Rune → Str
escape_rune invalid = codes "\\ufffd"
escape_rune (valid []) = []
escape_rune (valid (c ∷ [])) = escape_byte c
escape_rune (valid (c ∷ d ∷ s)) =
    if str_eq (c ∷ d ∷ s) (0xE2 ∷ 0x80 ∷ 0xA8 ∷ [])
    then codes "\\u2028"
    else if str_eq (c ∷ d ∷ s) (0xE2 ∷ 0x80 ∷ 0xA9 ∷ [])
    then codes "\\u2029"
    else c ∷ d ∷ s

escape_runes : List Rune → Str
escape_runes [] = []
escape_runes (r ∷ rs) = escape_rune r ++ escape_runes rs

quote : Str → Str
quote s = 34 ∷ escape_runes (runes s) ++ 34 ∷ []

-- `,omitempty`: a field with an empty value is left out.
member : Str → Str → List Str → List Str
member name [] rest = rest
member name (c ∷ s) rest = (quote name ++ b':' ∷ quote (c ∷ s)) ∷ rest

join_comma : List Str → Str
join_comma [] = []
join_comma (m ∷ []) = m
join_comma (m ∷ n ∷ ms) = m ++ b',' ∷ join_comma (n ∷ ms)

-- `json.Marshal(ctx)`.
unfoldable pub marshal : ProxyCtx → Str
unfolding member join_comma quote escape_runes escape_rune escape_byte lower_hex runes str_eq
marshal ctx =
    b'{'
      ∷ join_comma (
          member (codes "app") ctx.app (
            member (codes "pid") ctx.pid (
              member (codes "category") ctx.category (
                member (codes "host") ctx.host (
                  member (codes "os") ctx.os
                    (member (codes "agent_version") ctx.agent_version []))))))
    ++ b'}' ∷ []
