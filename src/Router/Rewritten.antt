-- ===== src/Router/Rewritten.antt =====
-- What holds of a rewritten request.
use mathlib.Core.Option.{Option, none, some}
use mathlib.Core.List.{List, [], ◌∷◌}
use mathlib.Core.Logic.{inl, ◌≢◌}
use mathlib.Core.Path.{◌≡◌, refl, sym, ap, ◌∙◌}
use aitori.Base.{ℕ, true, false, ◌||◌, is_empty, if◌then◌else◌, arith, All}
use aitori.Base.Text.{Str, codes, str_eq}
use aitori.Http.{Header, Url, Request, get, values, set}
use aitori.Http.HeaderLaws.{same_key, values-set, get-set_self, get-set_other}
use aitori.HostMatch.{normalize}
use aitori.Router.{
  Router, Options, new, gateway_host_of, token_of, targets_gateway, absolute_url, set_all,
  set_token, context, gateway_header, gateway_target, own_path, rewritten, rewrite_to, rewrite,
}
use aitori.Router.Guards.{MayReroute, not_true, rewrite-MayReroute, rewrite_iff}

values-set_all :
    (kvs : List (Str × Str)) (h : Header) (k : Str)
    → All (λ kv. same_key kv.0 k ≡ false) kvs
    → values (set_all kvs h) k ≡ values h k
unfolding set_all
values-set_all [] h k n = refl
values-set_all ((j, v) ∷ kvs) h k (p, n) =
    values-set_all kvs (set h j v) k n ∙ ground (arith, values-set h j k v)

values-set_token :
    (r : Router) (tok : Str) (h : Header) (k : Str)
    → same_key r.header_tok k ≡ false
    → values (set_token r tok h) k ≡ values h k
unfolding set_token
values-set_token r tok h k n = ground (arith, values-set h r.header_tok k tok)

get-set_token_other :
    (r : Router) (tok : Str) (h : Header) (k : Str)
    → same_key r.header_tok k ≡ false
    → get (set_token r tok h) k ≡ get h k
unfolding set_token
get-set_token_other r tok h k n = ground (arith, get-set_other h r.header_tok k tok)

get-set_token_self :
    (r : Router) (tok : Str) (h : Header) → tok ≢ [] → get (set_token r tok h) r.header_tok ≡ tok
unfolding set_token
get-set_token_self r [] h n = absurd (n refl)
get-set_token_self r (c ∷ tok) h n = get-set_self h r.header_tok (c ∷ tok)

module _ (r : Router) (now : ℕ) (req : Request) (app_id category : Str) (pid : ℕ)
    (m : MayReroute r now req) where
  -- The rewritten request is dialled and addressed at the gateway, with the gateway's scheme; its
  -- path is the gateway's where that is neither empty nor "/", and else its own.
  pub rewrite-target :
      let out = (rewrite r now req app_id category pid).0 in
      (out.host ≡ m.gateway.host)
      × (out.url.host ≡ m.gateway.host)
      × (out.url.scheme ≡ m.gateway.scheme)
      × (out.url.path ≡ (
          if is_empty m.gateway.path || str_eq m.gateway.path (codes "/")
          then req.url.path
          else m.gateway.path))
  unfolding rewritten gateway_target own_path
  rewrite-target =
      rw (rewrite-MayReroute r now req app_id category pid m) (refl, refl, refl, ground arith)

  pub method-rewrite : (rewrite r now req app_id category pid).0.method ≡ req.method
  unfolding rewritten
  method-rewrite = rw (rewrite-MayReroute r now req app_id category pid m) refl

  -- The original absolute URL of a rewritten request travels in its header, unless one of the other
  -- two headers has the same name.
  pub rewrite-original_url :
      same_key r.header_ctx r.header_orig ≡ false
      → same_key r.header_tok r.header_orig ≡ false
      → get (rewrite r now req app_id category pid).0.header r.header_orig ≡ absolute_url req
  unfolding rewritten gateway_header
  rewrite-original_url c t = rw (rewrite-MayReroute r now req app_id category pid m) (
      get-set_other _ r.header_ctx r.header_orig _ c
      ∙ get-set_token_other r _ _ r.header_orig t
      ∙ get-set_self _ r.header_orig (absolute_url req))

  -- On a rewritten request a token that is not empty goes to the gateway in its header, unless the
  -- context header has the same name.
  pub rewrite-token :
      token_of r.token ≢ []
      → same_key r.header_ctx r.header_tok ≡ false
      → get (rewrite r now req app_id category pid).0.header r.header_tok ≡ token_of r.token
  unfolding rewritten gateway_header
  rewrite-token n c =
      rw (rewrite-MayReroute r now req app_id category pid m) (
        get-set_other _ r.header_ctx r.header_tok _ c ∙ get-set_token_self r (token_of r.token) _ n)

  -- On a rewritten request a header whose name is none of the three that the router sets, nor one of
  -- the configured statics, keeps all its values.
  pub rewrite-keeps :
      (k : Str)
      → same_key r.header_ctx k ≡ false
      → same_key r.header_tok k ≡ false
      → same_key r.header_orig k ≡ false
      → All (λ kv. same_key kv.0 k ≡ false) r.headers
      → values (rewrite r now req app_id category pid).0.header k ≡ values req.header k
  unfolding rewritten gateway_header
  rewrite-keeps k c t o s = rw (rewrite-MayReroute r now req app_id category pid m) (
      kept _ r.header_ctx (context r app_id category pid) c
      ∙ values-set_token r (token_of r.token) _ k t
      ∙ kept _ r.header_orig (absolute_url req) o
      ∙ values-set_all r.headers req.header k s)
    where
      kept : (h : Header) (j v : Str) → same_key j k ≡ false → values (set h j v) k ≡ values h k
      kept h j v n = ground (arith, values-set h j k v)

gateway_host-new :
    (o : Options) (gw : Url)
    → (new o).gateway_url ≡ some gw
    → (new o).gateway_host ≡ normalize gw.host
unfolding new gateway_host_of
gateway_host-new o gw e = ap gateway_host_of e

-- Where the gateway's host is not empty, a rewritten request is never rewritten again, whenever it
-- comes back.
pub rewrite_twice :
    (o : Options) (now later : ℕ) (req : Request) (app_id category : Str) (pid : ℕ)
    → (new o).gateway_host ≢ []
    → (rewrite (new o) now req app_id category pid).1 ≡ true
    → (rewrite (new o) later (rewrite (new o) now req app_id category pid).0 app_id category pid).1
      ≡ false
rewrite_twice o now later req app_id category pid n h =
    let m = (rewrite_iff (new o) now req app_id category pid).0 h in
    let out = (rewrite (new o) now req app_id category pid).0 in
    let there : normalize out.host ≡ (new o).gateway_host =
      ap normalize (rewrite-target (new o) now req app_id category pid m).0
      ∙ sym (gateway_host-new o m.gateway m.configured) in
    not_true (λ again.
      ((rewrite_iff (new o) later out app_id category pid).0 again).no_loop (n, inl there))

url-rewrite_to_token :
    (o : Option Url) (r : Router) (t u : Str) (now : ℕ) (req : Request) (app_id category : Str)
    (pid : ℕ)
    → t ≢ []
    → u ≢ []
    → (rewrite_to o (record r { token = some t }) now req app_id category pid).0.url
      ≡ (rewrite_to o (record r { token = some u }) now req app_id category pid).0.url
unfolding rewrite_to targets_gateway rewritten
url-rewrite_to_token none r t u now req app_id category pid nt nu = refl
url-rewrite_to_token (some gw) r [] u now req app_id category pid nt nu = absurd (nt refl)
url-rewrite_to_token (some gw) r (c ∷ t) [] now req app_id category pid nt nu = absurd (nu refl)
url-rewrite_to_token (some gw) r (c ∷ t) (d ∷ u) now req app_id category pid nt nu = ground arith

-- The URL of a rewritten request does not depend on the token: routers that differ only in their
-- tokens, neither of them empty, write the same URL.
pub url-rewrite_token :
    (r : Router) (t u : Str) (now : ℕ) (req : Request) (app_id category : Str) (pid : ℕ)
    → t ≢ []
    → u ≢ []
    → (rewrite (record r { token = some t }) now req app_id category pid).0.url
      ≡ (rewrite (record r { token = some u }) now req app_id category pid).0.url
unfolding rewrite
url-rewrite_token r t u now req app_id category pid nt nu =
    url-rewrite_to_token r.gateway_url r t u now req app_id category pid nt nu
