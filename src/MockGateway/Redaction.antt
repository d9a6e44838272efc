-- ===== src/MockGateway/Redaction.antt =====
-- What a span hides of a request.
use mathlib.Core.Path.{◌≡◌, refl, ap, ◌∙◌}
use mathlib.Core.Option.{Option}
use mathlib.Core.Logic.{◌⊎◌, inl, inr}
use mathlib.Core.List.{List, [], ◌∷◌, ◌++◌}
use aitori.Base.{true, Exists, here, there, any_iff, Bool-cases}
use aitori.Base.Text.{Str, codes, to_lower, str_eq_iff}
use aitori.Http.{Header, Request, Url}
use aitori.Router.Context.{ProxyCtx}
use aitori.MockGateway.{Outgoing, Upstream, start}
use aitori.MockGateway.Trace.{text, header_attributes, header_value, sensitive_header}

-- The headers that carry credentials, in any letter case.
abbrev pub Hides : Str → Type 0
Hides name =
    (to_lower name ≡ codes "authorization")
    ⊎ ((to_lower name ≡ codes "proxy-authorization")
        ⊎ ((to_lower name ≡ codes "x-tfy-api-key")
            ⊎ ((to_lower name ≡ codes "cookie") ⊎ (to_lower name ≡ codes "set-cookie"))))

-- The same names as a list.
abbrev hiding : List Str
hiding =
    codes "authorization"
    ∷ codes "proxy-authorization"
    ∷ codes "x-tfy-api-key"
    ∷ codes "cookie"
    ∷ codes "set-cookie"
    ∷ []

Hides-listed : (k : Str) → Hides k → Exists (λ name. to_lower k ≡ name) hiding
Hides-listed k (inl e) = here e
Hides-listed k (inr (inl e)) = there (here e)
Hides-listed k (inr (inr (inl e))) = there (there (here e))
Hides-listed k (inr (inr (inr (inl e)))) = there (there (there (here e)))
Hides-listed k (inr (inr (inr (inr e)))) = there (there (there (there (here e))))

Hides-sensitive_header : (k : Str) → Hides k → sensitive_header k ≡ true
unfolding sensitive_header
Hides-sensitive_header k h =
    (any_iff (λ name. str_eq_iff (to_lower k) name) hiding).1 (Hides-listed k h)

-- The same headers in the same order, up to the values of those that carry credentials.
abbrev pub IsAlike : Header → Header → Type 0
IsAlike [] [] = Unit
IsAlike [] (x ∷ g) = ⊥
IsAlike (x ∷ h) [] = ⊥
IsAlike ((k, vs) ∷ h) ((j, ws) ∷ g) = (k ≡ j) × (((¬ Hides k) → vs ≡ ws) × IsAlike h g)

header_value-IsAlike :
    (k : Str) (vs ws : List Str) → ((¬ Hides k) → vs ≡ ws) → header_value k vs ≡ header_value k ws
unfolding header_value
header_value-IsAlike k vs ws same = elim (Bool-cases (sensitive_header k)) [
  | inl hidden ↦ rw hidden refl
  | inr plain ↦ rw (same (λ h. cc (Hides-sensitive_header k h))) refl
]

header_attributes-IsAlike : (h g : Header) → IsAlike h g → header_attributes h ≡ header_attributes g
unfolding header_attributes
header_attributes-IsAlike [] [] same = refl
header_attributes-IsAlike [] (x ∷ g) same = absurd same
header_attributes-IsAlike (x ∷ h) [] same = absurd same
header_attributes-IsAlike ((k, vs) ∷ h) ((j, ws) ∷ g) (e, (same, alike)) =
    let name : Str → Str = λ n. codes "http.request.header." ++ to_lower n in
    ap (λ v. (name k, text v) ∷ header_attributes h) (header_value-IsAlike k vs ws same)
    ∙ ap (λ n. (name n, text (header_value n ws)) ∷ header_attributes h) e
    ∙ ap (λ t. (name j, text (header_value j ws)) ∷ t) (header_attributes-IsAlike h g alike)

-- The span that the gateway starts does not depend on the values of the headers `Authorization`,
-- `Proxy-Authorization`, `x-tfy-api-key`, `Cookie` and `Set-Cookie`, in any letter case: two
-- requests that differ only in these start the same span.
pub start-IsAlike :
    (parse_url : Str → Option Url) (decode_ctx : Str → ProxyCtx) (unzip : Str → Option Str)
    (quote : Str → Str) (new_request : Str → Str → Str ⊎ Url)
    (round_trip : Outgoing → Str ⊎ Upstream) (r : Request) (orig : Str) (ctx : ProxyCtx)
    (other : Header)
    → IsAlike r.header other
    → start parse_url decode_ctx unzip quote new_request round_trip r orig ctx
      ≡ start parse_url decode_ctx unzip quote new_request round_trip
          (record r { header = other })
          orig
          ctx
unfolding start
start-IsAlike parse_url decode_ctx unzip quote new_request round_trip r orig ctx other same =
    rw (header_attributes-IsAlike r.header other same) refl
