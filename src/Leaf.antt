-- ===== src/Leaf.antt =====
-- internal/ca/ca.go: the cache of leaf certificates. Minting a certificate and testing one are
-- parameters, which Ca/Minted puts in. `Cached` says what the cache gives.
pub mod Cached
mod Tests
use mathlib.Core.Option.{Option, none, some}
use mathlib.Core.List.{List}
use aitori.Base.{ℕ, Bool, is_empty, if◌then◌else◌}
use aitori.Base.Dict.{lookup, put}
use aitori.Base.Text.{Str}

module _ {Cert : Type 0} (split_host_port : Str → Option (Str × Str))
    (leaf_valid : ℕ → Cert → Str → Bool) (mint_leaf : ℕ → Str → Option Cert) where
  host_of : Str → Option (Str × Str) → Str
  host_of host none = host
  host_of host (some (h, port)) = h

  -- The name that the certificate is for.
  unfoldable pub leaf_host : Str → Str
  unfolding host_of
  leaf_host host = host_of host (split_host_port host)

  minted : Str → List (Str × Cert) → Option Cert → Option Cert × List (Str × Cert)
  minted host leafs none = (none, leafs)
  minted host leafs (some cert) = (some cert, put host cert leafs)

  cached : ℕ → Str → List (Str × Cert) → Option Cert → Option Cert × List (Str × Cert)
  unfolding minted
  cached now host leafs none = minted host leafs (mint_leaf now host)
  cached now host leafs (some cert) =
      let fresh = minted host leafs (mint_leaf now host) in
      if leaf_valid now cert host then (some cert, leafs) else fresh

  -- `LeafForName`, at the time `now`, with the cache after it.
  unfoldable pub leaf_for_name : ℕ → Str → List (Str × Cert) → Option Cert × List (Str × Cert)
  unfolding leaf_host cached
  leaf_for_name now host leafs =
      let name = leaf_host host in
      if is_empty name then (none, leafs) else cached now name leafs (lookup name leafs)

  -- `GetCertificate` of `TLSConfig`, for the name that the client asks for.
  unfoldable pub get_certificate : ℕ → Str → List (Str × Cert) → Option Cert × List (Str × Cert)
  unfolding leaf_for_name
  get_certificate now name leafs =
      if is_empty name then (none, leafs) else leaf_for_name now name leafs
