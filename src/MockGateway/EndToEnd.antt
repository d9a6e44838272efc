-- ===== src/MockGateway/EndToEnd.antt =====
-- What becomes of a request that the router has rewritten, when it arrives at the gateway.
use mathlib.Core.Path.{◌≡◌}
use mathlib.Core.Logic.{◌≢◌}
use mathlib.Core.List.{[]}
use aitori.Base.{ℕ, true, false, All}
use aitori.Base.Text.{Str, codes}
use aitori.Http.{Header, Request, canonical, values}
use aitori.Http.HeaderLaws.{same_key}
use aitori.Router.{Router, rewrite}
use aitori.Router.Guards.{MayReroute}
use aitori.MockGateway.{is_tfy}
use aitori.MockGateway.Strip.{IsHeader}

-- What arrives of a request: the method and the values of every header that it has. The transport may
-- add headers of its own.
pub record Arrives (sent received : Request) : Type 0 where
  pub method : received.method ≡ sent.method
  pub header : IsHeader received.header
  pub values :
      (k : Str) → (values sent.header k ≢ []) → values received.header k ≡ values sent.header k

-- The router and the gateway agree on the names of the headers.
pub record Agrees (r : Router) : Type 0 where
  pub token : r.header_tok ≡ codes "x-tfy-api-key"
  pub orig : r.header_orig ≡ codes "x-tfy-original-url"
  pub ctx : r.header_ctx ≡ codes "x-tfy-metadata"

-- The header that the client sees leave the gateway: none of the protocol's, and each of its own.
pub record Restores (req : Request) (r : Router) (out : Header) : Type 0 where
  pub hidden : (k : Str) → canonical k ≡ k → is_tfy k ≡ true → values out k ≡ []
  pub own :
      (k : Str)
      → canonical k ≡ k
      → is_tfy k ≡ false
      → All (λ kv. same_key kv.0 k ≡ false) r.headers
      → (values req.header k ≢ [])
      → values out k ≡ values req.header k

module _ (r : Router) (now : ℕ) (req received : Request) (app_id category : Str) (pid : ℕ)
    (agrees : Agrees r) (m : MayReroute r now req)
    (arrives : Arrives (rewrite r now req app_id category pid).0 received) where
  sent : Header
  sent = (rewrite r now req app_id category pid).0.header
