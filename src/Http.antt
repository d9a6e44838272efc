-- ===== src/Http.antt =====
-- What the program uses of net/http and net/url: header maps, URLs and requests.
pub mod HeaderLaws
pub mod Target
use Prim.Native.Nat.{ℕ, ◌-◌}
use mathlib.Core.List.{List, [], ◌∷◌, ◌++◌}
use mathlib.Core.Option.{Option, none, some}
use aitori.Base.{Bool, true, ◌&&◌, ◌||◌, leb, ◌==◌, if◌then◌else◌}
use aitori.Base.Dict.{lookup, put, remove}
use aitori.Base.Text.{Str, codes, lower_byte, has_byte}

-- A byte that RFC 7230 allows in a header name.
is_token_byte : ℕ → Bool
unfolding has_byte
is_token_byte c =
    (leb b'a' c && leb c b'z')
    || (leb b'A' c && leb c b'Z')
    || (leb b'0' c && leb c b'9')
    || has_byte c (codes "!#$%&'*+-.^_`|~")

all_token_bytes : Str → Bool
all_token_bytes [] = true
all_token_bytes (c ∷ s) = is_token_byte c && all_token_bytes s

upper_byte : ℕ → ℕ
upper_byte c = if leb b'a' c && leb c b'z' then c - 32 else c

-- `upper` holds at the start and behind a dash.
capitalize : Bool → Str → Str
capitalize upper [] = []
capitalize upper (c ∷ s) = (if upper then upper_byte c else lower_byte c) ∷ capitalize (c == b'-') s

-- `http.CanonicalHeaderKey`.
unfoldable pub canonical : Str → Str
unfolding all_token_bytes is_token_byte capitalize upper_byte lower_byte
canonical key = if all_token_bytes key then capitalize true key else key

-- `http.Header`; the keys are canonical.
abbrev pub Header : Type 0
Header = List (Str × List Str)

abbrev pub or_nil : Option (List Str) → List Str
or_nil none = []
or_nil (some vs) = vs

abbrev first_or_empty : List Str → Str
first_or_empty [] = []
first_or_empty (v ∷ vs) = v

-- `h.Values(key)`, `h.Get(key)`, `h.Set(key, value)`, `h.Add(key, value)`, `h.Del(key)`.
unfoldable pub values : Header → Str → List Str
values h key = or_nil (lookup (canonical key) h)

unfoldable pub get : Header → Str → Str
unfolding values
get h key = first_or_empty (values h key)

unfoldable pub set : Header → Str → Str → Header
set h key value = put (canonical key) (value ∷ []) h

unfoldable pub add : Header → Str → Str → Header
unfolding values
add h key value = put (canonical key) (values h key ++ value ∷ []) h

unfoldable pub del : Header → Str → Header
del h key = remove (canonical key) h

-- The fields of `url.URL` that the program reads or writes.
pub record Url : Type 0 where
  pub scheme : Str
  pub host : Str
  pub path : Str
  pub raw_path : Str
  pub raw_query : Str

-- The fields of `http.Request` that the program reads or writes, but for the body.
pub record Request : Type 0 where
  pub method : Str
  pub host : Str
  pub url : Url
  pub header : Header
